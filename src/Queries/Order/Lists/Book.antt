-- ===== src/Queries/Order/Lists/Book.antt =====
-- What the reads of the orders list: `GetOpenOrdersByMarket` gives a side of the book, best price
-- first and first come first served, and `GetAllActiveOrders` what a restart loads into Redis.
use cex_go.Prelude.{
  ◌||◌, ◌&&◌, All-mono, eq_iff, ◌⊎◌, if◌then◌else◌, ℕ, String, Bool-cases, inl, inr, str_eq, List,
  ◌∷◌, ◌++◌, ◌≡◌, true, false, All, Mem, length, arith, Bool,
}
use cex_go.Prelude.Int.{ℤ, ltb_ℤ, eqb_ℤ, ◌<ℤ◌, ◌≤ℤ◌, eq_of_parts}
use cex_go.Models.{open_status, Order, buy}
use cex_go.Database.{Db, Session, Tick, ok}
use cex_go.Database.Ensures.{Ensures, Ensures-mono}
use cex_go.Database.Served.{session}
use cex_go.Database.Listing.{select_all, order_by, query_rows}
use cex_go.Database.Listing.Sorting.{
  IsPairwise, IsSorted-IsPairwise, IsSorted, All-prefix, IsSorted-prefix, All-select_all,
  Mem-select_all, All-order_by, Mem-order_by, order_by-IsSorted,
}
use cex_go.Database.Listing.Fetching.{
  IsFetched, query_rows-Ensures, query_rows-served, query_rows-broken,
}
use cex_go.Queries.Order.Lists.{
  scanned, oldest_first, is_open, is_open_on, best_first, get_all_active_orders,
  get_open_orders_by_market,
}

-- The rows of a query with a WHERE and an ORDER BY clause
query_rows-ordered :
    (le : Order → Order → Bool) (p : Order → Bool) (s : Session)
    → ((a b : Order) → le a b ≡ false → le b a ≡ true)
    → ((a b c : Order) → le a b ≡ true → le b c ≡ true → le a c ≡ true)
    → Ensures
        (λ os db. (db ≡ s.db) × IsSorted le os × All (λ o. p o ≡ true) os)
        (query_rows (λ db. order_by le (select_all p (scanned db))) s)
query_rows-ordered le p s total trans =
    let rows = select_all p (scanned s.db) in
    Ensures-mono (IsFetched (order_by le rows) s.db)
      (λ os db. (db ≡ s.db) × IsSorted le os × All (λ o. p o ≡ true) os)
      (query_rows (λ db. order_by le (select_all p (scanned db))) s)
      (query_rows-Ensures (λ db. order_by le (select_all p (scanned db))) s)
      λ os db (e, h). (
        e,
        IsSorted-prefix le os (order_by le rows) h (order_by-IsSorted le total trans rows),
        All-prefix (λ o. p o ≡ true) os (order_by le rows) h
            (All-order_by le (λ o. p o ≡ true) rows (All-select_all p (scanned s.db))),
      )

best_first_total :
    (side : String) (a b : Order) → best_first side a b ≡ false → best_first side b a ≡ true
best_first_total side a b h = elim (Bool-cases (str_eq side buy)) [
  | inl e ↦ ground (arith, e, h)
  | inr e ↦ ground (arith, e, h)
]

best_first_trans :
    (side : String) (a b c : Order)
    → best_first side a b ≡ true
    → best_first side b c ≡ true
    → best_first side a c ≡ true
best_first_trans side a b c h k = elim (Bool-cases (str_eq side buy)) [
  | inl e ↦ ground (arith, e, h, k)
  | inr e ↦ ground (arith, e, h, k)
]

-- Price and time priority: of two orders on a side the one in front has the better price, or the same
-- price and is not newer.
abbrev pub IsAhead : String → Order → Order → Type 0
IsAhead side o p =
    (if str_eq side buy then p.price <ℤ o.price else o.price <ℤ p.price)
    ⊎ ((o.price ≡ p.price) × (o.created_at ≤ℤ p.created_at))

ahead :
    (a b : ℤ) (o p : Order)
    → ltb_ℤ a b || (eqb_ℤ o.price p.price && oldest_first o p) ≡ true
    → (a <ℤ b) ⊎ ((o.price ≡ p.price) × (o.created_at ≤ℤ p.created_at))
ahead a b o p h = elim (Bool-cases (ltb_ℤ a b)) [
  | inl k ↦ inl (ground (arith, k))
  | inr k ↦ inr (eq_of_parts o.price p.price (ground (arith, h, k)), ground (arith, h, k))
]

best_first-IsAhead : (side : String) (o p : Order) → best_first side o p ≡ true → IsAhead side o p
best_first-IsAhead side o p h = elim (Bool-cases (str_eq side buy)) [
  | inl e ↦ rw e (ahead p.price o.price o p (rw e at h))
  | inr e ↦ rw e (ahead o.price p.price o p (rw e at h))
]

abbrev pub IsOpenOn : ℕ → String → Order → Type 0
IsOpenOn market_id side o = (o.market_id ≡ market_id) × (o.side ≡ side) × (o.status ≡ open_status)

is_open_on-IsOpenOn :
    (market_id : ℕ) (side : String) (o : Order)
    → is_open_on market_id side o ≡ true
    → IsOpenOn market_id side o
is_open_on-IsOpenOn market_id side o h = (
  ground (arith, h),
  (eq_iff o.side side).0 (ground (arith, h)),
  (eq_iff o.status open_status).0 (ground (arith, h)),
)

-- If `GetOpenOrdersByMarket` returns a list, each order in it is open, of that market and on that
-- side, every order has a better price than each one behind it, or the same price and is not newer,
-- and the database is as it was.
pub get_open_orders_by_market-IsPairwise :
    (market_id : ℕ) (side : String) (s : Session)
    → Ensures
        (λ os db. (db ≡ s.db) × IsPairwise (IsAhead side) os × All (IsOpenOn market_id side) os)
        (get_open_orders_by_market market_id side s)
unfolding get_open_orders_by_market
get_open_orders_by_market-IsPairwise market_id side s =
    Ensures-mono
      (λ os db.
        (db ≡ s.db)
        × IsSorted (best_first side) os
        × All (λ o. is_open_on market_id side o ≡ true) os)
      (λ os db. (db ≡ s.db) × IsPairwise (IsAhead side) os × All (IsOpenOn market_id side) os)
      (get_open_orders_by_market market_id side s)
      (query_rows-ordered (best_first side) (is_open_on market_id side) s (best_first_total side)
        (best_first_trans side))
      λ os db (e, a, b). (
        e,
        IsSorted-IsPairwise (best_first side) (IsAhead side) os (best_first-IsAhead side) a,
        All-mono (λ o. is_open_on market_id side o ≡ true) (IsOpenOn market_id side) os
            (is_open_on-IsOpenOn market_id side) b,
      )

-- If the server answers the query and then for every row, `GetOpenOrdersByMarket` returns a list that
-- has each open order of that market and side, whatever its place in the table.
pub get_open_orders_by_market-lists :
    (market_id : ℕ) (side : String) (db : Db) (t : Tick) (ts rest : List Tick) (o : Order)
    → All (λ t. t.fails ≡ false) (t ∷ ts)
    → length ts
      ≡ length (order_by (best_first side) (select_all (is_open_on market_id side) (scanned db)))
    → Mem o (scanned db)
    → is_open_on market_id side o ≡ true
    → (os : List Order) × (get_open_orders_by_market market_id side (session db (t ∷ ts ++ rest))
        ≡ (ok os, session db rest))
      × Mem o os
unfolding get_open_orders_by_market
get_open_orders_by_market-lists market_id side db t ts rest o h e m k =
    let p = is_open_on market_id side in
    (
      order_by (best_first side) (select_all p (scanned db)),
      query_rows-served (λ db. order_by (best_first side) (select_all p (scanned db))) db t ts rest
          h e,
      Mem-order_by (best_first side) o (select_all p (scanned db))
          (Mem-select_all p o (scanned db) m k),
    )

-- If the connection fails after `GetAllActiveOrders` has read the first orders of its answer, it
-- returns those orders and no error, and all others are lost.
pub get_all_active_orders-broken :
    (db : Db) (t u : Tick) (ts rest : List Tick) (read lost : List Order) (next : Order)
    → order_by oldest_first (select_all is_open (scanned db)) ≡ read ++ next ∷ lost
    → All (λ t. t.fails ≡ false) (t ∷ ts)
    → length ts ≡ length read
    → u.fails ≡ true
    → get_all_active_orders (session db (t ∷ ts ++ u ∷ rest)) ≡ (ok read, session db rest)
unfolding get_all_active_orders
get_all_active_orders-broken db t u ts rest read lost next k h e f =
    query_rows-broken (λ db. order_by oldest_first (select_all is_open (scanned db))) db t u ts rest
      read lost next k h e f
