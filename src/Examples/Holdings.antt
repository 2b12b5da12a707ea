-- ===== src/Examples/Holdings.antt =====
-- Runs on what users own: a portfolio, the trades of a user, and the order that is cancelled again.
use mathlib.Core.Path.{◌≡◌, refl}
use cex_go.Prelude.{String, Bool, true, false, [], ◌∷◌, some, ℕ}
use cex_go.Prelude.Int.{pos, ◌+ℤ◌, ◌-ℤ◌, leb_ℤ, ltb_ℤ}
use cex_go.Models.{whole, cancelled, buy}
use cex_go.Database.{
  Db, TradeRow, Session, OrderRow, BalanceRow, ok, order_check, user_check, balance_check, UserRow,
}
use cex_go.Database.Table.{select, total}
use cex_go.Database.Ensures.{Ensures}
use cex_go.Database.Served
use cex_go.Redis.{update_order_in_redis, is_finished}
use cex_go.Queries.Assets.{initialize_balance}
use cex_go.Queries.Portfolio.{get_portfolio, coins_of}
use cex_go.Queries.Portfolio.Value.{IsListed, worth, exposed, get_portfolio-IsValued}
use cex_go.Queries.Portfolio.Hidden.{initialize_balance-hidden}
use cex_go.Queries.Trades.Listed.{get_trades_by_user_id}
use cex_go.Queries.Trades.Recent.{IsRecent, get_trades_by_user_id-IsRecent}
use cex_go.Queries.Users.Unlock.{unlock_usd}
use cex_go.Queries.Users.Silent.{unlock_usd-silent}
use cex_go.Controllers.{done}
use cex_go.Controllers.Orders.{cancel_order}
use cex_go.Controllers.Orders.Again.{db_cancelled, cancelled_order, cancel_order-any_status}
use cex_go.Queries.Balance.{of_user, of_asset, unlock_usd_row, unlock_row}
use cex_go.Queries.Order.{join_order, set_status}
use cex_go.Examples.Data.{
  tick, broken, session, exchange, ask, btc, book, fixed, hash_server, usd_row,
}

-- No asset has a name in front of another's.
abbrev any_order : String → String → Bool
any_order a b = true

get_portfolio-IsValued_example :
    Ensures
      (λ p db.
        IsListed any_order 2 exchange p.balances db
        × (p.total_usd ≡ total (worth ⦃f = fixed⦄ exchange) p.balances)
        × (p.open_exposure ≡ total (exposed ⦃f = fixed⦄ exchange) p.balances))
      (get_portfolio ⦃f = fixed⦄ any_order 2 session)
get_portfolio-IsValued_example = get_portfolio-IsValued ⦃f = fixed⦄ any_order 2 session

initialize_balance-hidden_example :
    Ensures
      (λ _ db.
        (db.users ≡ exchange.users) × (coins_of any_order 1 db ≡ coins_of any_order 1 exchange))
      (initialize_balance 1 session)
initialize_balance-hidden_example = initialize_balance-hidden any_order 1 1 session

abbrev trade_between : ℕ → ℕ → ℕ → TradeRow
trade_between id buyer seller = record {
  id = id;
  buy_order_id = buyer;
  sell_order_id = seller;
  quantity = whole 1;
  price = whole 100;
  created_at = pos 1_700_000_002_000;
  quote_asset = "USD";
  base_asset = "BTC";
}

-- The first user has bought from the second, and the second from a third.
abbrev traded : Session
traded = record {
  db = record exchange {
    orders =
        record ask { id = 21; user_id = 1; side = buy }
        ∷ record ask { id = 22; user_id = 3 }
        ∷ ask
        ∷ [];
    trades = trade_between 30 21 20 ∷ trade_between 31 20 22 ∷ [];
  };
  ticks = session.ticks;
}

get_trades_by_user_id-IsRecent_example :
    Ensures (IsRecent 1 traded.db) (get_trades_by_user_id 1 traded)
get_trades_by_user_id-IsRecent_example = get_trades_by_user_id-IsRecent 1 traded

-- The buyer with 100 USD locked
abbrev buyer : UserRow
buyer = record (usd_row 1 (whole 900)) { locked_balance = whole 100 }

abbrev locked_usd : Db
locked_usd = record exchange { users = buyer ∷ [] }

buyer_found : select (of_user 1) locked_usd.users ≡ some buyer
unfolding select
buyer_found = refl

buyer_stays : user_check (unlock_usd_row (whole 40) buyer) ≡ true
unfolding ◌-ℤ◌ ◌+ℤ◌
buyer_stays = refl

unlock_usd-silent_example :
    unlock_usd 1 (whole 40) (Served.session locked_usd (tick 60 ∷ tick 61 ∷ tick 62 ∷ broken ∷ []))
    ≡ (ok tt, Served.session locked_usd [])
unlock_usd-silent_example =
    unlock_usd-silent 1 (whole 40) locked_usd buyer (tick 60) (tick 61) (tick 62) broken []
      buyer_found refl buyer_stays refl refl refl refl

-- The ask, cancelled before, and its seller with a BTC that another order has locked
abbrev gone : OrderRow
gone = record ask { status = cancelled }

abbrev gone_db : Db
gone_db = record exchange { orders = gone ∷ [] }

abbrev seller_btc : BalanceRow
seller_btc = record { user_id = 2; asset = "BTC"; available = pos 0; locked = whole 1 }

gone_joined : join_order 20 gone_db ≡ some (gone, btc)
unfolding select
gone_joined = refl

gone_checks : order_check (set_status cancelled gone) ≡ true
unfolding order_check
gone_checks = refl

gone_left : leb_ℤ (gone.quantity -ℤ gone.filled_quantity) (pos 0) ≡ false
unfolding ◌-ℤ◌
gone_left = refl

seller_found : select (of_asset 2 "BTC") gone_db.balances ≡ some seller_btc
unfolding select
seller_found = refl

seller_has : ltb_ℤ seller_btc.locked (gone.quantity -ℤ gone.filled_quantity) ≡ false
unfolding ◌-ℤ◌
seller_has = refl

seller_stays : balance_check (unlock_row (gone.quantity -ℤ gone.filled_quantity) seller_btc) ≡ true
unfolding ◌-ℤ◌ ◌+ℤ◌
seller_stays = refl

book_written : update_order_in_redis hash_server (cancelled_order gone btc) book ≡ (true, [])
unfolding update_order_in_redis is_finished
book_written = refl

cancel_order-any_status_example :
    cancel_order hash_server ⦃f = fixed⦄ 20 book
      (Served.session gone_db (tick 60 ∷ tick 61 ∷ tick 62 ∷ tick 63 ∷ tick 64 ∷ []))
    ≡ (done tt, Served.session (db_cancelled 20 gone btc gone_db) [], [])
cancel_order-any_status_example =
    cancel_order-any_status hash_server ⦃f = fixed⦄ 20 gone_db (tick 60) (tick 61) (tick 62)
      (tick 63) (tick 64) [] gone btc seller_btc book [] refl refl refl refl refl gone_joined
      gone_checks refl gone_left seller_found seller_has seller_stays book_written
