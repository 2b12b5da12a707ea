-- ===== src/Redis/Loading/Open.antt =====
-- The book that a start of the program leaves.
use cex_go.Prelude.{
  ◌≢◌, ℕ, String, Bool-cases, true, false, ◌==◌, ◌++◌, Option, some, List, [], ◌∷◌, ◌≡◌, refl, ap,
  All, Mem, length, inl, inr, ◌⊎◌, arith, All-Mem, All-self, ◌∙◌,
}
use cex_go.Models.{Order}
use cex_go.Database.{Db, Tick, ok}
use cex_go.Database.Served.{session}
use cex_go.Database.Listing.{select_all, order_by}
use cex_go.Database.Listing.Sorting.{
  All-order_by, Mem-order_by, Mem-select_all, All-select_all_kept, All-select_all,
}
use cex_go.Database.Listing.Fetching.{query_rows-served}
use cex_go.Queries.Order.Lists.{scanned, is_open, oldest_first, get_all_active_orders}
use cex_go.Redis.Commands.{Details, Server}
use cex_go.Redis.Book.{details_of}
use cex_go.Redis.View.{View, IsRedis, Agrees, after_all}
use cex_go.Redis.Invariant.{HasPlace, IsBook, IsBook-Agrees, put_commands, put-IsBook}
use cex_go.Redis.Loading.{loaded, load_commands, load_order_book_to_redis}

-- No order of the list has the id and its hash is as it was, or the hash is that of such an order.
abbrev LoadedFrom : List Order → ℕ → Option Details → Option Details → Type 0
LoadedFrom os id before d =
    (((o : Order) → Mem o os → o.id ≢ id) × (d ≡ before))
    ⊎ ((o : Order) × Mem o os × (o.id ≡ id) × (d ≡ some (details_of o)))

loaded-LoadedFrom :
    (os : List Order) (v : View) (id : ℕ)
    → LoadedFrom os id (v.hash id) ((after_all (load_commands os) v).hash id)
unfolding load_commands
loaded-LoadedFrom [] v id = inl (λ _ m. absurd m, refl)
loaded-LoadedFrom (o ∷ os) v id = elim (loaded-LoadedFrom os (after_all (put_commands o) v) id) [
  | inr (p, m, i, k) ↦ inr (p, inr m, i, k)
  | inl (others, k) ↦ elim (Bool-cases (o.id == id)) [
    | inl h ↦ inr (o, inl refl, ground (arith, h), k ∙ rw h refl)
    | inr h ↦
        inl
          (λ p m. elim m [ inl e ↦ rw e (ground (arith, h)) | inr m' ↦ others p m' ], k ∙ rw h refl)
  ]
]

loaded-IsBook :
    (place : ℕ → ℕ × String) (os : List Order) (v : View)
    → IsBook place v
    → All (HasPlace place) os
    → IsBook place (after_all (load_commands os) v)
unfolding load_commands
loaded-IsBook place [] v b h = b
loaded-IsBook place (o ∷ os) v b (h, hs) =
    loaded-IsBook place os (after_all (put_commands o) v) (put-IsBook place v o b h) hs

-- The open orders of the orders table, the oldest first
abbrev pub open_orders : Db → List Order
open_orders db = order_by oldest_first (select_all is_open (scanned db))

open_orders-Mem :
    (db : Db) (o : Order) → Mem o (open_orders db) → Mem o (scanned db) × (is_open o ≡ true)
open_orders-Mem db o m =
    let rows = select_all is_open (scanned db) in
    (
      All-Mem (λ p. Mem p (scanned db)) (open_orders db) o
          (All-order_by oldest_first (λ p. Mem p (scanned db)) rows
            (All-select_all_kept (λ p. Mem p (scanned db)) is_open (scanned db)
              (All-self (λ p. Mem p (scanned db)) (scanned db) λ _ k. k)))
          m,
      All-Mem (λ p. is_open p ≡ true) (open_orders db) o
          (All-order_by oldest_first (λ p. is_open p ≡ true) rows
            (All-select_all is_open (scanned db)))
          m,
    )

abbrev pub IsOpenIn : Db → Order → Type 0
IsOpenIn db o = Mem o (scanned db) × (is_open o ≡ true)

-- The hash of every open order of the table, and the earlier ones of all other ids
abbrev pub HoldsOpen : Db → View → View → Type 0
HoldsOpen db v w =
    ((o : Order)
      → IsOpenIn db o
      → (p : Order) × IsOpenIn db p × (p.id ≡ o.id) × (w.hash o.id ≡ some (details_of p)))
    × ((id : ℕ) → ((o : Order) → IsOpenIn db o → o.id ≢ id) → w.hash id ≡ v.hash id)

HoldsOpen-loaded :
    (db : Db) (v w : View)
    → Agrees w (after_all (load_commands (open_orders db)) v)
    → HoldsOpen db v w
HoldsOpen-loaded db v w (hs, _) = (
  λ o (m, k).
      let there : Mem o (open_orders db) =
        Mem-order_by oldest_first o (select_all is_open (scanned db))
          (Mem-select_all is_open o (scanned db) m k) in
      elim (loaded-LoadedFrom (open_orders db) v o.id) [
        | inl (others, _) ↦ absurd (others o there refl)
        | inr (p, m', i, e) ↦ (p, open_orders-Mem db p m', i, hs o.id ∙ e)
      ],
  λ id others. hs id ∙ elim (loaded-LoadedFrom (open_orders db) v id) [
    | inl (_, e) ↦ e
    | inr (p, m, i, _) ↦ absurd (others p (open_orders-Mem db p m) i)
  ],
)

module _ (server : Server) (view : server.Store → View) {gap : ℕ} (redis : IsRedis gap server view)
    (place : ℕ → ℕ × String) where
  open server use {Store, exec}

  loaded-HoldsOpen :
      (st : Store) (db : Db)
      → IsBook place (view st)
      → All (HasPlace place) (scanned db)
      → let (done, st') = exec (load_commands (open_orders db)) st in
        done ≡ true → IsBook place (view st') × HoldsOpen db (view st) (view st')
  loaded-HoldsOpen st db b h e =
      let cs = load_commands (open_orders db) in
      let st' = (exec cs st).1 in
      let same : Agrees (view st') (after_all cs (view st)) =
        redis.exec_agrees cs st st' (ap (λ c. (c, st')) e) in
      (
        IsBook-Agrees place (after_all cs (view st)) (view st') same (
            loaded-IsBook place (open_orders db) (view st) b (
              All-order_by oldest_first (HasPlace place) (select_all is_open (scanned db))
                (All-select_all_kept (HasPlace place) is_open (scanned db) h))),
        HoldsOpen-loaded db (view st) (view st') same,
      )

  -- `LoadOrderBookToRedis`, if PostgreSQL answers for the query and every row, the orders of one id have
  -- one market and side, and each side of Redis holds the orders with a hash that belong there, by the
  -- score of price and time: if it returns no error, that still holds, every open order of the table has a
  -- hash with the details of an open order of its id, and the hash of every other id is as it was.
  pub load_order_book_to_redis-HoldsOpen :
      (st : Store) (db : Db) (t : Tick) (ts rest : List Tick)
      → IsBook place (view st)
      → All (HasPlace place) (scanned db)
      → All (λ t. t.fails ≡ false) (t ∷ ts)
      → length ts ≡ length (open_orders db)
      → let (done, st', _) = load_order_book_to_redis server st (session db (t ∷ ts ++ rest)) in
        done ≡ true → IsBook place (view st') × HoldsOpen db (view st) (view st')
  unfolding load_order_book_to_redis get_all_active_orders
  load_order_book_to_redis-HoldsOpen st db t ts rest b h k n e =
      let run : load_order_book_to_redis server st (session db (t ∷ ts ++ rest))
          ≡ loaded server st (ok (open_orders db), session db rest) =
        ap (loaded server st) (query_rows-served open_orders db t ts rest k n) in
      rw run (loaded-HoldsOpen st db b h (rw run at e))
