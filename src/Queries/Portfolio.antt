-- ===== src/Queries/Portfolio.antt =====
-- db/queries/balance.go: `GetBalances` and `GetPortfolio`.
pub mod Value
pub mod Hidden
use cex_go.Prelude.{ℕ, String, Bool, ◌&&◌, ◌==◌, str_eq, not, List, [], ◌∷◌, map, if◌then◌else◌}
use cex_go.Prelude.Int.{ℤ, pos, ◌+ℤ◌, leb_ℤ}
use cex_go.Float.{Float64, mul}
use cex_go.Models.{Market, Balance, Portfolio}
use cex_go.Database.{
  Db, UserRow, BalanceRow, Session, Result, Tx, ok, err, no_rows, check_violation,
  foreign_key_violation, unique_violation, connection, ◌>>=◌, pure,
}
use cex_go.Database.Statement.{query_row}
use cex_go.Database.Listing.{select_all, order_by, query_rows}
use cex_go.Queries.Balance.{usd, of_user, put_users}
use cex_go.Queries.Order.{put_markets}

abbrev pub balance_of : BalanceRow → Balance
balance_of r = record { asset = r.asset; available = r.available; locked = r.locked }

abbrev pub usd_of : UserRow → Balance
usd_of r = record { asset = usd; available = r.usd_balance; locked = r.locked_balance }

-- `WHERE user_id = user AND asset <> 'USD'`
abbrev pub is_coin_of : ℕ → BalanceRow → Bool
is_coin_of user r = r.user_id == user && not (str_eq r.asset usd)

-- `base_asset = asset AND quote_asset = 'USD' AND is_active = TRUE`
abbrev pub prices : String → Market → Bool
prices asset m = str_eq m.base_asset asset && (str_eq m.quote_asset usd && m.is_active)

abbrev pub newest_market : Market → Market → Bool
newest_market m n = leb_ℤ n.created_at m.created_at

-- `collates` is the order of text in the database's collation.
module _ (collates : String → String → Bool) where
  -- ORDER BY asset
  abbrev pub coins_of : ℕ → Db → List Balance
  coins_of user db =
      order_by (λ b c. collates b.asset c.asset)
        (map balance_of (select_all (is_coin_of user) db.balances))

  unfoldable pub get_balances : ℕ → Tx (List Balance)
  unfolding query_row query_rows
  get_balances user = do
    r ← query_row (λ db. db.users) put_users (of_user user)
    coins ← query_rows (coins_of user)
    pure (usd_of r ∷ coins)

-- A market that is missing leaves the price at 0.
abbrev pub price_or_zero : Result Market × Session → Result ℤ × Session
price_or_zero (ok m, s) = (ok m.current_price, s)
price_or_zero (err no_rows, s) = (ok (pos 0), s)
price_or_zero (err check_violation, s) = (err check_violation, s)
price_or_zero (err foreign_key_violation, s) = (err foreign_key_violation, s)
price_or_zero (err unique_violation, s) = (err unique_violation, s)
price_or_zero (err connection, s) = (err connection, s)

-- ORDER BY created_at DESC LIMIT 1
unfoldable pub price_of : String → Tx ℤ
unfolding query_row
price_of asset s =
    price_or_zero (query_row (λ db. order_by newest_market db.markets) put_markets (prices asset) s)

module _ ⦃f : Float64⦄ where
  -- What a balance adds to the total and to the exposure
  unfoldable pub value_of : Balance → Tx (ℤ × ℤ)
  unfolding price_of
  value_of b =
      if str_eq b.asset usd
      then pure (b.available +ℤ b.locked, b.locked)
      else price_of b.asset >>= λ price.
          pure (mul (b.available +ℤ b.locked) price, mul b.locked price)

  -- The loop over the balances
  unfoldable pub add_values : List Balance → ℤ × ℤ → Tx (ℤ × ℤ)
  unfolding value_of
  add_values [] sums s = (ok sums, s)
  add_values (b ∷ bs) (total_usd, exposure) s =
      (value_of b >>= λ (value, locked). add_values bs (total_usd +ℤ value, exposure +ℤ locked)) s

  unfoldable pub get_portfolio : (String → String → Bool) → ℕ → Tx Portfolio
  unfolding get_balances add_values
  get_portfolio collates user = do
    balances ← get_balances collates user
    sums ← add_values balances (pos 0, pos 0)
    pure (record { balances = balances; total_usd = sums.0; open_exposure = sums.1 })
