-- ===== src/Queries/Users/Silent.antt =====
-- `UnlockUSD` of db/queries/user.go, when its commit fails.
use cex_go.Prelude.{ℕ, Bool, ◌&&◌, ◌≡◌, refl, true, false, some, List, [], ◌∷◌, arith}
use cex_go.Prelude.Int.{ℤ, ltb_ℤ, leb_ℤ}
use cex_go.Database.{Db, UserRow, Tick, ok, user_check, round_trip}
use cex_go.Database.Table.{select}
use cex_go.Database.Served.{session, query_row-served, exec_update-served}
use cex_go.Queries.Balance.{of_user, put_users, unlock_usd_row}
use cex_go.Queries.Users.Unlock.{unlock_usd}

select-both :
    {R : Type 0} (p q : R → Bool) (rs : List R) (r : R)
    → select p rs ≡ some r
    → q r ≡ true
    → select (λ x. p x && q x) rs ≡ some r
unfolding select
select-both p q [] r e h = ground arith
select-both p q (x ∷ xs) r e h = ground (arith, h, select-both p q xs r)

-- If all statements of `UnlockUSD` succeed and only its commit fails, it returns no error, and the
-- database is as it was: the amount is still locked.
pub unlock_usd-silent :
    (user : ℕ) (amount : ℤ) (db : Db) (r : UserRow) (t u v w : Tick) (ts : List Tick)
    → select (of_user user) db.users ≡ some r
    → leb_ℤ amount r.locked_balance ≡ true
    → user_check (unlock_usd_row amount r) ≡ true
    → t.fails ≡ false
    → u.fails ≡ false
    → v.fails ≡ false
    → w.fails ≡ true
    → unlock_usd user amount (session db (t ∷ u ∷ v ∷ w ∷ ts)) ≡ (ok tt, session db ts)
unfolding unlock_usd round_trip
unlock_usd-silent user amount db r t u v w ts e h c tf uf vf wf =
    let enough : ltb_ℤ r.locked_balance amount ≡ false = ground (arith, h) in
    let found = select-both (of_user user) (λ q. leb_ℤ amount q.locked_balance) db.users r e h in
    rw
      (
        tf,
        query_row-served (λ db. db.users) put_users db u (v ∷ w ∷ ts) (of_user user) r uf e,
        enough,
        exec_update-served (λ db. db.users) put_users db v (w ∷ ts)
            (λ q. of_user user q && leb_ℤ amount q.locked_balance) (unlock_usd_row amount)
            user_check r vf found c,
        wf,
      )
      refl
