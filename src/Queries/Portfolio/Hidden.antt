-- ===== src/Queries/Portfolio/Hidden.antt =====
-- `InitializeBalance` beside `GetBalances`, of db/queries/balance.go.
use cex_go.Prelude.{ℕ, String, Bool, ◌≡◌, refl, ap, List, [], ◌∷◌, ◌++◌, false, map, arith, ◌∙◌}
use cex_go.Database.{Db, Session, balance_check, pure}
use cex_go.Database.Statement.{exec_insert}
use cex_go.Database.Ensures.{Ensures, Ensures-bind, IsInserted, exec_insert-Ensures}
use cex_go.Database.Listing.{select_all, order_by}
use cex_go.Queries.Balance.{put_balances}
use cex_go.Queries.Assets.{initialize_balance, initial_row, same_balance_key, balance_known}
use cex_go.Queries.Portfolio.{coins_of, is_coin_of, balance_of}

select_all-skips :
    {R : Type 0} (p : R → Bool) (rs : List R) (r : R)
    → p r ≡ false
    → select_all p (rs ++ (r ∷ [])) ≡ select_all p rs
select_all-skips p [] r h = rw h refl
select_all-skips p (q ∷ qs) r h = rw (select_all-skips p qs r h) refl

-- If `InitializeBalance` succeeds for a user, the table of users, where the USD of `GetBalances` comes
-- from, and what `GetBalances` lists of the balances of any user are as they were: it does not show the
-- 500 USD.
pub initialize_balance-hidden :
    (collates : String → String → Bool) (user other : ℕ) (s : Session)
    → Ensures
        (λ _ db.
          (db.users ≡ s.db.users) × (coins_of collates other db ≡ coins_of collates other s.db))
        (initialize_balance user s)
unfolding initialize_balance
initialize_balance-hidden collates user other s =
    let Hidden = λ (db : Db).
      (db.users ≡ s.db.users) × (coins_of collates other db ≡ coins_of collates other s.db) in
    Ensures-bind
      (IsInserted (λ db. db.balances) put_balances (λ _. initial_row user) balance_check
        balance_known s.db)
      (λ _ db. Hidden db)
      (exec_insert (λ db. db.balances) put_balances (λ _. initial_row user) balance_check
        same_balance_key balance_known)
      (λ _. pure tt) s
      (exec_insert-Ensures (λ db. db.balances) put_balances (λ _. initial_row user) balance_check
        same_balance_key balance_known s)
      λ row s' (t, e, c, k, d). (
        ap (λ db. db.users) d,
        ap (λ db. coins_of collates other db) d
            ∙ ap (λ rows. order_by (λ b c. collates b.asset c.asset) (map balance_of rows))
                (select_all-skips (is_coin_of other) s.db.balances row (rw e (ground arith))),
      )
