-- ===== src/Queries/Portfolio/Value.antt =====
-- What `GetBalances` and `GetPortfolio` report.
use cex_go.Prelude.{
  ℕ, String, Bool, Bool-cases, inl, inr, str_eq, List, [], ◌∷◌, ◌≡◌, refl, ap, ◌∙◌, Option, none,
  some, if◌then◌else◌,
}
use cex_go.Prelude.Int.{ℤ, pos, ◌+ℤ◌, int_laws}
use cex_go.Float.{Float64, mul}
use cex_go.Models.{Market, Balance, Portfolio}
use cex_go.Database.{Db, UserRow, Session, Tick, ok, ◌>>=◌, pure, round_trip}
use cex_go.Database.Table.{select, total}
use cex_go.Database.Statement.{query_row, scan}
use cex_go.Database.Ensures.{Ensures, Ensures-bind, Ensures-mono, query_row-Ensures}
use cex_go.Database.Served.{session}
use cex_go.Database.Listing.{order_by, query_rows}
use cex_go.Database.Listing.Sorting.{IsPrefix}
use cex_go.Database.Listing.Fetching.{IsFetched, query_rows-Ensures}
use cex_go.Queries.Balance.{usd, of_user, put_users}
use cex_go.Queries.Order.{put_markets}
use cex_go.Queries.Portfolio.{
  usd_of, coins_of, get_balances, prices, newest_market, price_or_zero, price_of, value_of,
  add_values, get_portfolio,
}

-- The price of the newest active market of an asset against USD, 0 without one
abbrev pub price_found : Option Market → ℤ
price_found none = pos 0
price_found (some m) = m.current_price

abbrev pub price_in : Db → String → ℤ
price_in db asset = price_found (select (prices asset) (order_by newest_market db.markets))

price_or_zero-scan :
    (o : Option Market) (s : Session)
    → price_or_zero (scan (λ db. order_by newest_market db.markets) put_markets o s)
      ≡ (ok (price_found o), s)
price_or_zero-scan none s = refl
price_or_zero-scan (some m) s = refl

price_of-session :
    (asset : String) (db : Db) (ts : List Tick)
    → Ensures (λ price d. (d ≡ db) × (price ≡ price_in db asset)) (price_of asset (session db ts))
unfolding price_of query_row round_trip
price_of-session asset db [] = tt
price_of-session asset db (t ∷ ts) = elim (Bool-cases t.fails) [
  | inl e ↦ rw e tt
  | inr e ↦
      rw
        (
          e,
          price_or_zero-scan (select (prices asset) (order_by newest_market db.markets))
              (session db ts),
        )
        (refl, refl)
]

pub price_of-Ensures :
    (asset : String) (s : Session)
    → Ensures (λ price d. (d ≡ s.db) × (price ≡ price_in s.db asset)) (price_of asset s)
price_of-Ensures asset s = price_of-session asset s.db s.ticks

module _ ⦃f : Float64⦄ where
  -- What a balance is worth in USD, all of it and the part that is locked
  abbrev pub worth : Db → Balance → ℤ
  worth db b =
      if str_eq b.asset usd
      then b.available +ℤ b.locked
      else mul (b.available +ℤ b.locked) (price_in db b.asset)

  abbrev pub exposed : Db → Balance → ℤ
  exposed db b = if str_eq b.asset usd then b.locked else mul b.locked (price_in db b.asset)

  value_of-Ensures :
      (b : Balance) (s : Session)
      → Ensures (λ v d. (d ≡ s.db) × (v.0 ≡ worth s.db b) × (v.1 ≡ exposed s.db b)) (value_of b s)
  unfolding value_of
  value_of-Ensures b s = elim (Bool-cases (str_eq b.asset usd)) [
    | inl e ↦ rw e (refl, refl, refl)
    | inr e ↦ rw e (
        Ensures-bind (λ price d. (d ≡ s.db) × (price ≡ price_in s.db b.asset))
          (λ v d.
            (d ≡ s.db)
            × (v.0 ≡ mul (b.available +ℤ b.locked) (price_in s.db b.asset))
            × (v.1 ≡ mul b.locked (price_in s.db b.asset)))
          (price_of b.asset)
          (λ price. pure (mul (b.available +ℤ b.locked) price, mul b.locked price)) s
          (price_of-Ensures b.asset s)
          λ price s' (d, p). (d, ap (mul (b.available +ℤ b.locked)) p, ap (mul b.locked) p))
  ]

  added : (a b v x y : ℤ) → y ≡ (a +ℤ v) +ℤ x → v ≡ b → y ≡ a +ℤ (b +ℤ x)
  added a b v x y h k = h ∙ ap (λ w. (a +ℤ w) +ℤ x) k ∙ omega int_laws

  from_zero : (x y : ℤ) → y ≡ pos 0 +ℤ x → y ≡ x
  from_zero x y h = h ∙ omega int_laws

  abbrev pub IsSummed : Db → List Balance → ℤ × ℤ → ℤ × ℤ → Db → Type 0
  IsSummed before bs from sums db =
      (db ≡ before)
      × (sums.0 ≡ from.0 +ℤ total (worth before) bs)
      × (sums.1 ≡ from.1 +ℤ total (exposed before) bs)

  add_values-Ensures :
      (bs : List Balance) (from : ℤ × ℤ) (s : Session)
      → Ensures (IsSummed s.db bs from) (add_values bs from s)
  unfolding add_values
  add_values-Ensures [] from s = (refl, omega int_laws, omega int_laws)
  add_values-Ensures (b ∷ bs) (t, e) s =
      Ensures-bind (λ v d. (d ≡ s.db) × (v.0 ≡ worth s.db b) × (v.1 ≡ exposed s.db b))
        (IsSummed s.db (b ∷ bs) (t, e)) (value_of b) (λ v. add_values bs (t +ℤ v.0, e +ℤ v.1)) s
        (value_of-Ensures b s)
        λ v s' (d, p, q).
          Ensures-mono (IsSummed s'.db bs (t +ℤ v.0, e +ℤ v.1)) (IsSummed s.db (b ∷ bs) (t, e))
            (add_values bs (t +ℤ v.0, e +ℤ v.1) s') (add_values-Ensures bs (t +ℤ v.0, e +ℤ v.1) s')
            λ sums db (c, x, y). (
              c ∙ d,
              added t (worth s.db b) v.0 (total (worth s.db) bs) sums.0 (rw d at x) p,
              added e (exposed s.db b) v.1 (total (exposed s.db) bs) sums.1 (rw d at y) q,
            )

abbrev pub IsListed : (String → String → Bool) → ℕ → Db → List Balance → Db → Type 0
IsListed collates user before bs db =
    (db ≡ before)
    × (r : UserRow) × (coins : List Balance) × (select (of_user user) before.users ≡ some r)
    × IsPrefix coins (coins_of collates user before)
    × (bs ≡ usd_of r ∷ coins)

pub get_balances-Ensures :
    (collates : String → String → Bool) (user : ℕ) (s : Session)
    → Ensures (IsListed collates user s.db) (get_balances collates user s)
unfolding get_balances
get_balances-Ensures collates user s =
    Ensures-bind (λ r db. (db ≡ s.db) × (select (of_user user) s.db.users ≡ some r))
      (IsListed collates user s.db) (query_row (λ db. db.users) put_users (of_user user))
      (λ r. query_rows (coins_of collates user) >>= λ coins. pure (usd_of r ∷ coins)) s
      (query_row-Ensures (λ db. db.users) put_users (of_user user) s)
      λ r s' (d, k).
        Ensures-bind (IsFetched (coins_of collates user s'.db) s'.db) (IsListed collates user s.db)
          (query_rows (coins_of collates user)) (λ coins. pure (usd_of r ∷ coins)) s'
          (query_rows-Ensures (coins_of collates user) s')
          λ coins s'' (c, h). (c ∙ d, r, coins, k, rw (← d) h, refl)

-- If `GetPortfolio` returns a portfolio, its first balance is the user's USD, the others are the
-- user's balances in the order of their assets, or the first of them; its total is the sum of what
-- the balances are worth, at the price of the newest active market of the asset against USD or at 0
-- without one; its exposure is the same sum over what is locked; and the database is as it was.
pub get_portfolio-IsValued :
    ⦃f : Float64⦄ (collates : String → String → Bool) (user : ℕ) (s : Session)
    → Ensures
        (λ p db.
          IsListed collates user s.db p.balances db
          × (p.total_usd ≡ total (worth s.db) p.balances)
          × (p.open_exposure ≡ total (exposed s.db) p.balances))
        (get_portfolio collates user s)
unfolding get_portfolio
get_portfolio-IsValued ⦃f⦄ collates user s =
    let Valued = λ (p : Portfolio) (db : Db).
      IsListed collates user s.db p.balances db
      × (p.total_usd ≡ total (worth s.db) p.balances)
      × (p.open_exposure ≡ total (exposed s.db) p.balances) in
    Ensures-bind (IsListed collates user s.db) Valued (get_balances collates user)
      (λ bs. add_values bs (pos 0, pos 0) >>= λ sums.
        pure (record { balances = bs; total_usd = sums.0; open_exposure = sums.1 }))
      s (get_balances-Ensures collates user s)
      λ bs s' (d, r, coins, k, q, z).
        Ensures-bind (IsSummed s'.db bs (pos 0, pos 0)) Valued (add_values bs (pos 0, pos 0))
          (λ sums. pure (record { balances = bs; total_usd = sums.0; open_exposure = sums.1 })) s'
          (add_values-Ensures bs (pos 0, pos 0) s')
          λ sums s'' (c, x, y). (
            (c ∙ d, r, coins, k, q, z),
            from_zero (total (worth s.db) bs) sums.0 (rw d at x),
            from_zero (total (exposed s.db) bs) sums.1 (rw d at y),
          )
