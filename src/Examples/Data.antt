-- ===== src/Examples/Data.antt =====
-- A small exchange: a market of BTC against USD, a seller with an ask in the book, and a buyer.
use Prim.Native.Nat.{◌/◌}
use cex_go.Prelude.{
  ℕ, zero, suc, String, true, false, ◌&&◌, ◌==◌, ◌*◌, ◌^◌, Option, none, some, List, [], ◌∷◌,
  str_eq, if◌then◌else◌,
}
use cex_go.Prelude.Int.{ℤ, pos, negsuc, ◌-ℤ◌, pos_part, eqb_ℤ, neg_part}
use cex_go.Matching.{OrderResult, new_trade}
use cex_go.Controllers.Deposits.{DepositRequest}
use cex_go.Float.{Float64, fine}
use cex_go.Models.{
  Order, Market, CreateOrderRequest, buy, sell, limit, open_status, pending, whole, zero_order,
  market,
}
use cex_go.Database.{Db, UserRow, OrderRow, AssetRow, Tick, Session}
use cex_go.Redis.{Server, Details, Command, zadd, zrem, hset, del}

-- 10^-8, rounded down
abbrev pub fixed_mul : ℤ → ℤ → ℤ
fixed_mul (pos a) (pos b) = pos (a * b / 10 ^ 8)
fixed_mul (pos a) (negsuc b) = pos 0 -ℤ pos (a * suc b / 10 ^ 8)
fixed_mul (negsuc a) (pos b) = pos 0 -ℤ pos (suc a * b / 10 ^ 8)
fixed_mul (negsuc a) (negsuc b) = pos (suc a * suc b / 10 ^ 8)

abbrev pub fixed_div : ℤ → ℤ → ℤ
fixed_div (pos a) (pos b) = pos (a * 10 ^ 8 / b)
fixed_div (pos a) (negsuc b) = pos 0 -ℤ pos (a * 10 ^ 8 / suc b)
fixed_div (negsuc a) (pos b) = pos 0 -ℤ pos (suc a * 10 ^ 8 / b)
fixed_div (negsuc a) (negsuc b) = pos (suc a * 10 ^ 8 / suc b)

-- 10^-16, rounded towards 0
abbrev pub fixed_column : ℤ → ℤ
fixed_column a = pos (pos_part a / 10 ^ 8) -ℤ pos (neg_part a / 10 ^ 8)

abbrev pub fixed : Float64
fixed = record {
  mul = fixed_mul;
  div = fixed_div;
  product = λ a b. fine (fixed_mul a b);
  column = fixed_column;
  equal = eqb_ℤ;
}

-- A server that holds the hashes alone: the sets list the orders of the market and the side.
abbrev pub Hashes : Type 0
Hashes = List (ℕ × Details)

abbrev pub members : ℕ → String → Hashes → List ℕ
members m side [] = []
members m side ((id, d) ∷ hs) =
    let rest = members m side hs in
    if (d.market_id == m) && str_eq d.side side then id ∷ rest else rest

abbrev pub lookup : ℕ → Hashes → Option Details
lookup id [] = none
lookup id ((k, d) ∷ hs) = if k == id then some d else lookup id hs

abbrev pub without : ℕ → Hashes → Hashes
without id [] = []
without id ((k, d) ∷ hs) = let rest = without id hs in if k == id then rest else (k, d) ∷ rest

abbrev pub run_command : Command → Hashes → Hashes
run_command (zadd _ _ _ _) hs = hs
run_command (zrem _ _ _) hs = hs
run_command (hset id d) hs = (id, d) ∷ without id hs
run_command (del id) hs = without id hs

abbrev pub run_commands : List Command → Hashes → Hashes
run_commands [] hs = hs
run_commands (c ∷ cs) hs = run_commands cs (run_command c hs)

abbrev pub hash_server : Server
hash_server = record {
  Store = Hashes;
  zrange = λ _ m side hs. some (members m side hs);
  zrevrange = λ _ m side hs. some (members m side hs);
  hgetall = λ id hs. some (lookup id hs);
  exec = λ cs hs. (true, run_commands cs hs);
  publish = λ _ _ hs. hs;
}

abbrev pub usd_row : ℕ → ℤ → UserRow
usd_row id amount = record {
  id = id;
  email = "";
  password_hash = "";
  usd_balance = amount;
  locked_balance = pos 0;
  role = "user";
}

-- The ask of user 2: one BTC at 100
abbrev pub ask : OrderRow
ask = record {
  id = 20;
  user_id = 2;
  market_id = 1;
  quantity = whole 1;
  price = whole 100;
  side = sell;
  status = open_status;
  created_at = pos 1_700_000_000_000;
  order_type = limit;
  filled_quantity = pos 0;
}

abbrev pub btc : Market
btc = record {
  id = 1;
  name = "BTC/USD";
  base_asset = "BTC";
  quote_asset = "USD";
  created_at = pos 1_700_000_000_000;
  is_active = true;
  min_order_size = pos 0;
  max_order_size = whole 1000;
  taker_fee = pos 0;
  maker_fee = pos 0;
  current_price = pos 0;
}

abbrev pub asset : String → AssetRow
asset symbol = record { symbol = symbol; name = symbol; is_active = true; icon_url = "" }

abbrev pub exchange : Db
exchange = record {
  users = usd_row 1 (whole 1000) ∷ usd_row 2 (pos 0) ∷ [];
  balances = record { user_id = 2; asset = "BTC"; available = pos 0; locked = whole 1 } ∷ [];
  orders = ask ∷ [];
  trades = [];
  markets = btc ∷ [];
  assets = asset "BTC" ∷ asset "USD" ∷ [];
}

abbrev pub book : Hashes
book =
    (
      20,
      record {
        user_id = 2;
        market_id = 1;
        order_type = limit;
        side = sell;
        price = whole 100;
        quantity = whole 1;
        status = open_status;
        created_at = pos 1_700_000_000_000;
        filled_quantity = pos 0;
      },
    )
    ∷ []

abbrev pub ticks_from : ℕ → ℕ → List Tick
ticks_from id zero = []
ticks_from id (suc n) =
    record { fails = false; uuid = id; now = pos 1_700_000_001_000 } ∷ ticks_from (suc id) n

abbrev pub session : Session
session = record { db = exchange; ticks = ticks_from 50 40 }

-- A bid for a BTC at 100
abbrev pub request : CreateOrderRequest
request = record {
  market_id = 1;
  order_type = limit;
  side = buy;
  price = whole 100;
  quantity = whole 1;
  base_asset = "BTC";
  quote_asset = "USD";
  amount = pos 0;
}

abbrev pub bid : Order
bid = record zero_order {
  id = 52;
  user_id = 1;
  market_id = 1;
  order_type = limit;
  side = buy;
  price = whole 100;
  quantity = whole 3;
  status = pending;
}

-- A market order to sell three BTC
abbrev pub offer : Order
offer = record bid { order_type = market; side = sell; price = pos 0 }

abbrev pub seven_btc : DepositRequest
seven_btc = record { asset = "BTC"; amount = whole 7 }

-- A bid that was filled in one trade against the ask
abbrev pub settled : OrderResult
settled = record {
  incoming_order = record bid { filled_quantity = whole 1 };
  updated_orders = [];
  trades = new_trade 52 20 1 (whole 100) (whole 1) (pos 1_700_000_002_000) "BTC" "USD" ∷ [];
  base_asset = "BTC";
  quote_asset = "USD";
}

-- The exchange where user 2 has another BTC locked
abbrev pub twice_locked : Session
twice_locked = record {
  db = record exchange {
    balances = record { user_id = 2; asset = "BTC"; available = pos 0; locked = whole 2 } ∷ [];
  };
  ticks = ticks_from 50 40;
}

-- The exchange where user 2 has five BTC to spend
abbrev pub funded : Session
funded = record {
  db = record exchange {
    balances = record { user_id = 2; asset = "BTC"; available = whole 5; locked = pos 0 } ∷ [];
  };
  ticks = ticks_from 50 40;
}

-- One statement that the server answers, and one that it fails
abbrev pub tick : ℕ → Tick
tick id = record { fails = false; uuid = id; now = pos 1_700_000_003_000 }

abbrev pub broken : Tick
broken = record { fails = true; uuid = 0; now = pos 0 }
