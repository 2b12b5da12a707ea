-- ===== src/Models.antt =====
-- internal/models: the orders, trades, balances and markets that the parts exchange. An id is a
-- UUID, which the code only compares, so it is a number, and 0 stands for Go's empty string. An
-- amount is an integer that counts 10^-8, the scale of the NUMERIC(28,8) columns. A time is in Unix
-- milliseconds.
use cex_go.Prelude.{ℕ, String, Bool, List, ◌*◌, ◌^◌}
use cex_go.Prelude.Int.{ℤ, pos, negsuc}

abbrev pub buy : String
buy = "buy"

abbrev pub sell : String
sell = "sell"

abbrev pub open_status : String
open_status = "open"

abbrev pub filled : String
filled = "filled"

abbrev pub partially_filled : String
partially_filled = "partially_filled"

abbrev pub cancelled : String
cancelled = "cancelled"

abbrev pub closed : String
closed = "closed"

abbrev pub pending : String
pending = "pending"

abbrev pub limit : String
limit = "limit"

abbrev pub market : String
market = "market"

-- A whole number as an amount.
abbrev pub whole : ℕ → ℤ
whole n = pos (n * 10 ^ 8)

-- `time.Time{}.UnixMilli()`
abbrev pub zero_time : ℤ
zero_time = negsuc 62_135_596_799_999

pub record Order : Type 0 where
  pub id : ℕ
  pub user_id : ℕ
  pub market_id : ℕ
  pub order_type : String
  pub side : String
  pub price : ℤ
  pub quantity : ℤ
  pub status : String
  pub created_at : ℤ
  pub filled_quantity : ℤ
  pub base_asset : String
  pub quote_asset : String

-- `models.Order{}`
abbrev pub zero_order : Order
zero_order = record {
  id = 0;
  user_id = 0;
  market_id = 0;
  order_type = "";
  side = "";
  price = pos 0;
  quantity = pos 0;
  status = "";
  created_at = zero_time;
  filled_quantity = pos 0;
  base_asset = "";
  quote_asset = "";
}

pub record Trade : Type 0 where
  pub id : ℕ
  pub buy_order_id : ℕ
  pub sell_order_id : ℕ
  pub market_id : ℕ
  pub price : ℤ
  pub quantity : ℤ
  pub trade_time : ℤ
  pub buy_order : Order
  pub sell_order : Order
  pub base_asset : String
  pub quote_asset : String

pub record Market : Type 0 where
  pub id : ℕ
  pub name : String
  pub base_asset : String
  pub quote_asset : String
  pub created_at : ℤ
  pub is_active : Bool
  pub min_order_size : ℤ
  pub max_order_size : ℤ
  pub taker_fee : ℤ
  pub maker_fee : ℤ
  pub current_price : ℤ

pub record Balance : Type 0 where
  pub asset : String
  pub available : ℤ
  pub locked : ℤ

pub record Portfolio : Type 0 where
  pub balances : List Balance
  pub total_usd : ℤ
  pub open_exposure : ℤ

pub record CreateOrderRequest : Type 0 where
  pub market_id : ℕ
  pub order_type : String
  pub side : String
  pub price : ℤ
  pub quantity : ℤ
  pub base_asset : String
  pub quote_asset : String
  pub amount : ℤ

pub record UserTrade : Type 0 where
  pub id : ℕ
  pub market_id : ℕ
  pub side : String
  pub price : ℤ
  pub quantity : ℤ
  pub base_asset : String
  pub quote_asset : String
  pub created_at : ℤ
  pub buy_order_id : ℕ
  pub sell_order_id : ℕ

pub record CreateAssetRequest : Type 0 where
  pub symbol : String
  pub name : String
  pub icon_url : String

pub record CreateMarketRequest : Type 0 where
  pub name : String
  pub base_asset : String
  pub quote_asset : String
  pub min_order_size : ℤ
  pub max_order_size : ℤ
  pub taker_fee : ℤ
  pub maker_fee : ℤ

pub record User : Type 0 where
  pub id : ℕ
  pub email : String
  pub role : String

pub record UserRegistrationRequest : Type 0 where
  pub email : String
  pub password : String

pub record UserLoginRequest : Type 0 where
  pub email : String
  pub password : String
