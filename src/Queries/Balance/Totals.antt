-- ===== src/Queries/Balance/Totals.antt =====
-- What each query of db/queries/balance.go does to the money in the tables: the USD of all users,
-- and the units of an asset in all balances, available and locked.
use cex_go.Prelude.{
  ◌==◌, ap, ◌∙◌, ℕ, String, Bool, ◌≡◌, true, inl, inr, some, str_eq, if◌then◌else◌, Bool-cases,
  arith, eq_iff,
}
use cex_go.Prelude.Int.{ℤ, pos, ◌+ℤ◌, leb_ℤ, int_laws}
use cex_go.Database.{Db, UserRow, BalanceRow, Session, user_check, balance_check}
use cex_go.Database.Table.{total, select, update, total-update, select-holds, is_some-select-update}
use cex_go.Database.Ensures.{Ensures, Ensures-mono, guarded_update-Ensures}
use cex_go.Queries.Balance.{
  put_users, put_balances, of_user, of_asset, guarded_user, guarded_balance, exists,
}

abbrev pub usd_of : UserRow → ℤ
usd_of r = r.usd_balance +ℤ r.locked_balance

abbrev pub units_of : String → BalanceRow → ℤ
units_of asset r = if str_eq r.asset asset then r.available +ℤ r.locked else pos 0

unfoldable pub usd_total : Db → ℤ
usd_total db = total usd_of db.users

unfoldable pub asset_total : String → Db → ℤ
asset_total asset db = total (units_of asset) db.balances

-- The users are still there.
abbrev pub KeepsUsers : Db → Db → Type 0
KeepsUsers before after =
    (user : ℕ)
    → exists (of_user user) before.users ≡ true
    → exists (of_user user) after.users ≡ true

-- The totals of USD and of one asset have moved by `d` and `e`, and no user is gone.
abbrev pub Moved : String → ℤ → ℤ → Db → Db → Type 0
Moved asset d e before after =
    (usd_total after ≡ usd_total before +ℤ d)
    × (asset_total asset after ≡ asset_total asset before +ℤ e)
    × KeepsUsers before after

-- What an amount of `asset` counts in the total of another.
abbrev pub share : String → String → ℤ → ℤ
share a asset amount = if str_eq asset a then amount else pos 0

-- What a query that ignores amounts of zero or less moves.
abbrev pub positive : ℤ → ℤ
positive amount = if leb_ℤ amount (pos 0) then pos 0 else amount

module _ (a : String) where
  pub Moved-none : (db : Db) → Moved a (pos 0) (pos 0) db db
  Moved-none db = (omega int_laws, omega int_laws, λ u h. h)

  pub Moved-trans :
      (d e d' e' : ℤ) (x y z : Db)
      → Moved a d e x y
      → Moved a d' e' y z
      → Moved a (d +ℤ d') (e +ℤ e') x z
  Moved-trans d e d' e' x y z (p, q, k) (p', q', k') =
      (rw (p', p) (omega int_laws), rw (q', q) (omega int_laws), λ u h. k' u (k u h))

  pub users-Moved :
      (p : UserRow → Bool) (f : UserRow → UserRow) (d : ℤ) (before : Db) (r : UserRow)
      → select p before.users ≡ some r
      → usd_of (f r) ≡ usd_of r +ℤ d
      → ((q : UserRow) → (f q).id ≡ q.id)
      → Moved a d (pos 0) before (put_users before (update p f before.users))
  unfolding usd_total asset_total
  users-Moved p f d before r found moved same = (
    grind (int_laws, total-update usd_of p f before.users r found),
    omega int_laws,
    λ u h.
        rw (is_some-select-update p (of_user u) f before.users (λ q. ap (λ k. k == u) (same q))) h,
  )

  pub balances-Moved :
      (p : BalanceRow → Bool) (f : BalanceRow → BalanceRow) (e : ℤ) (before : Db) (r : BalanceRow)
      → select p before.balances ≡ some r
      → units_of a (f r) ≡ units_of a r +ℤ e
      → Moved a (pos 0) e before (put_balances before (update p f before.balances))
  unfolding usd_total asset_total
  balances-Moved p f e before r found moved = (
    omega int_laws,
    grind (int_laws, total-update (units_of a) p f before.balances r found),
    λ u h. h,
  )

  -- A guarded update of a user's row moves the USD by what it moves in every row.
  pub guarded_user-Moved :
      (user : ℕ) (short : UserRow → Bool) (f : UserRow → UserRow) (d : ℤ) (s : Session)
      → ((r : UserRow) → usd_of (f r) ≡ usd_of r +ℤ d)
      → ((q : UserRow) → (f q).id ≡ q.id)
      → Ensures (λ _ db. Moved a d (pos 0) s.db db) (guarded_user user short f s)
  unfolding guarded_user
  guarded_user-Moved user short f d s moved same =
      Ensures-mono _ (λ _ db. Moved a d (pos 0) s.db db) _
        (guarded_update-Ensures (λ db. db.users) put_users (of_user user) short f user_check s)
        λ _ db (r, found, _, _, e).
          rw e (users-Moved (of_user user) f d s.db r found (moved r) same)

  pub guarded_balance-Moved :
      (user : ℕ) (asset : String) (short : BalanceRow → Bool) (f : BalanceRow → BalanceRow) (e : ℤ)
      (s : Session)
      → ((r : BalanceRow) → of_asset user asset r ≡ true → units_of a (f r) ≡ units_of a r +ℤ e)
      → Ensures (λ _ db. Moved a (pos 0) e s.db db) (guarded_balance user asset short f s)
  unfolding guarded_balance
  guarded_balance-Moved user asset short f e s moved =
      Ensures-mono _ (λ _ db. Moved a (pos 0) e s.db db) _
        (guarded_update-Ensures (λ db. db.balances) put_balances (of_asset user asset) short f
          balance_check s)
        λ _ db (r, found, _, _, q). rw q (
          balances-Moved (of_asset user asset) f e s.db r found
            (moved r (select-holds (of_asset user asset) s.db.balances r found)))

  -- The row of an asset counts in the total of that asset.
  units_of-of_asset :
      (user : ℕ) (asset : String) (r : BalanceRow)
      → of_asset user asset r ≡ true
      → units_of a r ≡ (if str_eq asset a then r.available +ℤ r.locked else pos 0)
  units_of-of_asset user asset r h =
      ground (arith, eq_iff r.asset asset, eq_iff asset a, eq_iff r.asset a)

  -- So does a row that is changed by `e` under the same key.
  pub units_of-moved :
      (user : ℕ) (asset : String) (r q : BalanceRow) (e : ℤ)
      → of_asset user asset r ≡ true
      → q.asset ≡ r.asset
      → q.available +ℤ q.locked ≡ r.available +ℤ r.locked +ℤ e
      → units_of a q ≡ units_of a r +ℤ share a asset e
  units_of-moved user asset r q e h same moved =
      let e₁ : r.asset ≡ asset = ground (arith, eq_iff r.asset asset) in
      let e₂ : str_eq r.asset a ≡ str_eq asset a = ap (λ t. str_eq t a) e₁ in
      let e₃ : str_eq q.asset a ≡ str_eq asset a = ap (λ t. str_eq t a) (same ∙ e₁) in
      elim (Bool-cases (str_eq asset a)) [
        | inl h ↦ rw (e₃, e₂, h) moved
        | inr h ↦ rw (e₃, e₂, h) (omega int_laws)
      ]

  pub share_zero : (asset : String) → share a asset (pos 0) ≡ pos 0
  share_zero asset = ground arith
