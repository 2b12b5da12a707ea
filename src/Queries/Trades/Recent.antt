-- ===== src/Queries/Trades/Recent.antt =====
-- What `GetTradesByUserID` returns.
use cex_go.Prelude.{
  refl, Mem, Option, none, some, [], ◌∷◌, ◌⊎◌, ◌==◌, inl, inr, Bool-cases, All-mono, ℕ, ◌≤◌, ◌≡◌,
  true, List, map, length, All, arith, false,
}
use cex_go.Prelude.Int.{◌≤ℤ◌}
use cex_go.Models.{UserTrade}
use cex_go.Database.{Session, Db, OrderRow, TradeRow}
use cex_go.Database.Table.{select}
use cex_go.Queries.Order.{of_order}
use cex_go.Database.Ensures.{Ensures, Ensures-mono}
use cex_go.Database.Listing.{select_all, order_by, query_checked}
use cex_go.Database.Listing.Sorting.{
  IsPairwise, IsSorted-IsPairwise, IsSorted-prefix, All-prefix, length-limit_to, limit_to-IsPrefix,
  All-select_all, All-select_all_kept, All-order_by, order_by-IsSorted,
}
use cex_go.Database.Listing.Fetching.{query_checked-Ensures}
use cex_go.Queries.Trades.Listed.{
  Joined, join_orders, is_party, latest_first, user_trade, trades_of, get_trades_by_user_id,
}

latest_first_total : (a b : Joined) → latest_first a b ≡ false → latest_first b a ≡ true
latest_first_total a b h = ground (arith, h)

latest_first_trans :
    (a b c : Joined) → latest_first a b ≡ true → latest_first b c ≡ true → latest_first a c ≡ true
latest_first_trans a b c h k = ground (arith, h, k)

-- The user is the buyer or the seller, by the orders that the database has for the trade.
abbrev pub IsParty : ℕ → Joined → Type 0
IsParty user j = (j.bo.user_id ≡ user) ⊎ (j.so.user_id ≡ user)

is_party-IsParty : (user : ℕ) (j : Joined) → is_party user j ≡ true → IsParty user j
is_party-IsParty user j h = elim (Bool-cases (j.bo.user_id == user)) [
  | inl e ↦ inl (ground (arith, e))
  | inr e ↦ inr (ground (arith, e, h))
]

-- A trade of the database, with the orders that it has for the two ids of the trade
abbrev pub IsJoined : List OrderRow → List TradeRow → Joined → Type 0
IsJoined os ts j =
    Mem j.trade ts
    × (select (of_order j.trade.buy_order_id) os ≡ some j.bo)
    × (select (of_order j.trade.sell_order_id) os ≡ some j.so)

join_orders-IsJoined :
    (os : List OrderRow) (all ts : List TradeRow)
    → ((t : TradeRow) → Mem t ts → Mem t all)
    → All (IsJoined os all) (join_orders os ts)
join_orders-IsJoined os all [] i = tt
join_orders-IsJoined os all (t ∷ ts) i =
    with_orders (join_orders-IsJoined os all ts λ q m. i q (inr m))
      (select (of_order t.buy_order_id) os) (select (of_order t.sell_order_id) os) refl refl
  where
    with_orders :
        All (IsJoined os all) (join_orders os ts)
        → (b c : Option OrderRow) → select (of_order t.buy_order_id) os ≡ b
        → select (of_order t.sell_order_id) os ≡ c
        → All (IsJoined os all) (elim b [
          | none ↦ join_orders os ts
          | some bo ↦ elim c [
            | none ↦ join_orders os ts
            | some so ↦ record { trade = t; bo = bo; so = so } ∷ join_orders os ts
          ]
        ])
    with_orders rest none c e f = rest
    with_orders rest (some bo) none e f = rest
    with_orders rest (some bo) (some so) e f = ((i t (inl refl), e, f), rest)

-- Not older than the one behind it
abbrev pub IsLater : Joined → Joined → Type 0
IsLater j k = k.trade.created_at ≤ℤ j.trade.created_at

-- What a list of a user's trades shows: at most 100, the latest first, all of them trades of the
-- database whose buy order or sell order is the user's
abbrev pub IsRecent : ℕ → Db → List UserTrade → Db → Type 0
IsRecent user before ts db =
    (db ≡ before)
    × (js : List Joined) × (ts ≡ map (user_trade user) js)
    × (length js ≤ 100)
    × IsPairwise IsLater js
    × All (IsJoined before.orders before.trades) js
    × All (IsParty user) js

-- If `GetTradesByUserID` returns a list, it has at most 100 trades, the latest first, each is a trade of
-- the database whose buy order or sell order, as the database has them, is the user's, and the database
-- is as it was.
pub get_trades_by_user_id-IsRecent :
    (user : ℕ) (s : Session) → Ensures (IsRecent user s.db) (get_trades_by_user_id user s)
unfolding get_trades_by_user_id
get_trades_by_user_id-IsRecent user s =
    let rows = select_all (is_party user) (join_orders s.db.orders s.db.trades) in
    let all = order_by latest_first rows in
    let shown = trades_of user s.db in
    Ensures-mono (λ ts db. (db ≡ s.db) × (ts ≡ map (user_trade user) (trades_of user s.db)))
      (IsRecent user s.db) (query_checked (λ db. map (user_trade user) (trades_of user db)) s)
      (query_checked-Ensures (λ db. map (user_trade user) (trades_of user db)) s)
      λ ts db (d, e). (
        d,
        shown,
        e,
        length-limit_to 100 all,
        IsSorted-IsPairwise latest_first IsLater shown (λ j k h. ground (arith, h))
            (IsSorted-prefix latest_first shown all (limit_to-IsPrefix 100 all)
              (order_by-IsSorted latest_first latest_first_total latest_first_trans rows)),
        All-prefix (IsJoined s.db.orders s.db.trades) shown all (limit_to-IsPrefix 100 all) (
            All-order_by latest_first (IsJoined s.db.orders s.db.trades) rows (
              All-select_all_kept (IsJoined s.db.orders s.db.trades) (is_party user)
                (join_orders s.db.orders s.db.trades)
                (join_orders-IsJoined s.db.orders s.db.trades s.db.trades λ t m. m))),
        All-mono (λ j. is_party user j ≡ true) (IsParty user) shown (is_party-IsParty user)
            (All-prefix (λ j. is_party user j ≡ true) shown all (limit_to-IsPrefix 100 all)
              (All-order_by latest_first (λ j. is_party user j ≡ true) rows
                (All-select_all (is_party user) (join_orders s.db.orders s.db.trades)))),
      )
