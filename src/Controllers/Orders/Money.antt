-- ===== src/Controllers/Orders/Money.antt =====
-- What `CreateOrder` and `CancelOrder` do to the money, whatever they answer.
use cex_go.Prelude.{
  false, All-mono, if◌then◌else◌, ◌&&◌, ◌∙◌, true, none, some, Option, Bool, ℕ, Bool-cases, ◌≡◌,
  refl, List, inl, inr, str_eq,
}
use cex_go.Database.{◌>>=◌, OrderRow, Db, Session, Result, Tx, Tick, ok, err, round_trip}
use cex_go.Database.Statement.{scan, exists, query_row}
use cex_go.Database.Table.{select}
use cex_go.Queries.Order.{put_markets, of_market}
use cex_go.Queries.Balance.{of_user, lock_balance_tx}
use cex_go.Queries.Balance.Totals.{KeepsUsers, Moved}
use cex_go.Controllers.Orders.Entry.{
  Ensures-and, lock_balance_tx-orders, enter_order-Moved, Moved-twice, MatchesWhole,
}
use cex_go.Prelude.Int.{ℤ, pos, leb_ℤ}
use cex_go.Float.{Float64, IsNumeric, IsWhole, product}
use cex_go.Models.{Market, CreateOrderRequest, buy, market}
use cex_go.Database.Ensures.{round_trip-keeps, Ensures, Ensures-mono, round_trip-Ensures}
use cex_go.Redis.{Server}
use cex_go.Queries.Balance.Moves.{lock_balance_tx-Moved}
use cex_go.Queries.Order.Effects.{OwnersExist}
use cex_go.Matching.{OrderResult, Read}
use mathlib.Core.Path.{subst}
use cex_go.Controllers.Handlers.{
  Outcome, refused, done, Handler, answer, after, committed, close, opened, transaction, refuse,
}
use cex_go.Controllers.Orders.{
  get_market_by_id, asset_to_lock, quantity_to_lock, locked_amount, place_order, serve_order,
  create_order, prepare, enter_order, String, synced,
}

-- A refusal left the database as it was; otherwise the database has `Q`.
abbrev pub Answered : {A : Type 0} → (Db → Type 0) → Db → Outcome A → Db → Type 0
Answered Q before (refused _) db = db ≡ before
Answered Q before (done _) db = Q db

-- If the handler went on, the database has `Q`.
abbrev pub WhenDone : {A : Type 0} → (Db → Type 0) → Outcome A × Session → Type 0
WhenDone Q (refused _, s) = Unit
WhenDone Q (done _, s) = Q s.db

module _ {A : Type 0} (Q : Db → Type 0) where
  pub answer-WhenDone :
      (status : ℕ) (m : Tx A) (s : Session)
      → Ensures (λ _ db. Q db) (m s)
      → WhenDone Q (answer status m s)
  answer-WhenDone status m s h = outcome (m s) h
    where
      outcome :
          (r : Result A × Session)
          → Ensures (λ _ db. Q db) r
          → WhenDone Q (answer status (λ _. r) s)
      outcome (ok a, s') h = h
      outcome (err e, s') h = tt

  pub committed-Answered :
      (before : Session) (a : A) (d : Db) (r : Result Tick × Session)
      → Ensures (λ _ db. db ≡ d) r
      → Q d
      → let (o, s) = committed before a r in Answered Q before.db o s.db
  committed-Answered before a d (ok _, s) e q = rw e q
  committed-Answered before a d (err _, s) e q = refl

  close-Answered :
      (before : Session) (r : Outcome A × Session)
      → WhenDone Q r
      → let (o, s) = close before r in Answered Q before.db o s.db
  close-Answered before (refused _, s) q = refl
  close-Answered before (done a, s) q =
      committed-Answered before a s.db (round_trip s) (round_trip-Ensures s) q

  opened-Answered :
      (before : Session) (body : Handler A) (r : Result Tick × Session)
      → r.1.db ≡ before.db
      → ((s : Session) → s.db ≡ before.db → WhenDone Q (body s))
      → let (o, s) = opened before body r in Answered Q before.db o s.db
  opened-Answered before body (err _, s) e h = e
  opened-Answered before body (ok _, s) e h = close-Answered before (body s) (h s e)

  transaction-Answered :
      (body : Handler A) (before : Session)
      → ((s : Session) → s.db ≡ before.db → WhenDone Q (body s))
      → let (o, s) = transaction body before in Answered Q before.db o s.db
  unfolding transaction
  transaction-Answered body before h =
      opened-Answered before body (round_trip before) (round_trip-keeps before) h

module _ {A B : Type 0} (Q : Db → Type 0) where
  pub after-WhenDone :
      (P : Db → Type 0) (r : Outcome A × Session) (k : A → Handler B)
      → WhenDone P r
      → ((a : A) (s : Session) → P s.db → WhenDone Q (k a s))
      → WhenDone Q (after r k)
  after-WhenDone P (refused _, s) k p h = tt
  after-WhenDone P (done a, s) k p h = h a s p

  -- A read in front, which leaves the database as it is
  read-Answered :
      (status : ℕ) (before : Db) (r : Result A × Session) (k : A → Handler B)
      → r.1.db ≡ before
      → ((a : A) (s : Session) → s.db ≡ before → let (o, s') = k a s in Answered Q before o s'.db)
      → let (o, s') = after (answer status (λ _. r) r.1) k in Answered Q before o s'.db
  read-Answered status before (err _, s) k e h = e
  read-Answered status before (ok a, s) k e h = h a s e

scan-keeps :
    (o : Option Market) (s : Session) → (scan (λ db. db.markets) put_markets o s).1.db ≡ s.db
scan-keeps none s = refl
scan-keeps (some m) s = refl

scanned-keeps :
    (p : Market → Bool) (r : Result Tick × Session)
    → (((λ _. r) >>= λ _ s. scan (λ db. db.markets) put_markets (select p s.db.markets) s) r.1).1.db
      ≡ r.1.db
scanned-keeps p (err _, s) = refl
scanned-keeps p (ok _, s) = scan-keeps (select p s.db.markets) s

get_market_by_id-keeps : (id : ℕ) (s : Session) → (get_market_by_id id s).1.db ≡ s.db
unfolding get_market_by_id query_row
get_market_by_id-keeps id s =
    scanned-keeps (λ m. of_market id m && m.is_active) (round_trip s) ∙ round_trip-keeps s

OwnersExist-kept : (x y : Db) → y.orders ≡ x.orders → KeepsUsers x y → OwnersExist x → OwnersExist y
OwnersExist-kept x y e k h = rw e (
    All-mono (λ (r : OrderRow). exists (of_user r.user_id) x.users ≡ true)
      (λ (r : OrderRow). exists (of_user r.user_id) y.users ≡ true) x.orders (λ r. k r.user_id) h)

module _ (server : Server) ⦃f : Float64⦄ (Q : Db → Type 0) where
  open server use {Store}

  serve_order-Answered :
      (req : CreateOrderRequest) (user : Option ℕ) (clock : ℤ) (reads : List (Read Store))
      (s : Session)
      → ((u : ℕ) (m : Market) (s' : Session)
          → s'.db ≡ s.db
          → WhenDone Q (place_order server req u m clock reads s'))
      → let (o, s') = serve_order server req user clock reads s in Answered Q s.db o s'.db
  unfolding serve_order
  serve_order-Answered req none clock reads s h = refl
  serve_order-Answered req (some user) clock reads s h =
      read-Answered Q 400 s.db (get_market_by_id req.market_id s)
        (λ m.
          if str_eq req.side buy && leb_ℤ (quantity_to_lock req) (pos 0)
          then refuse 400
          else transaction (place_order server req user m clock reads))
        (get_market_by_id-keeps req.market_id s)
        λ m s₁ e. elim (Bool-cases (str_eq req.side buy && leb_ℤ (quantity_to_lock req) (pos 0))) [
          | inl k ↦ rw k e
          | inr k ↦ rw k (
              let body = place_order server req user m clock reads in
              subst (λ d. Answered Q d (transaction body s₁).0 (transaction body s₁).1.db) e
                (transaction-Answered Q body s₁ λ s₂ k'. h user m s₂ (k' ∙ e)))
        ]

  synced-Answered :
      (before : Db) (st : Store) (r : Outcome (ℕ × OrderResult) × Session)
      → Answered Q before r.0 r.1.db
      → let (o, s, _) = synced server st r in Answered Q before o s.db
  synced-Answered before st (refused _, s) h = h
  synced-Answered before st (done _, s) h = h

  -- What the placing of an order in a transaction leads to, the handler leads to.
  pub create_order-Answered :
      (req : Option CreateOrderRequest) (user : Option ℕ) (clock : ℤ) (reads : List (Read Store))
      (st : Store) (s : Session)
      → ((r : CreateOrderRequest)
          → req ≡ some r
          → (u : ℕ) (m : Market) (s' : Session) → s'.db ≡ s.db
          → WhenDone Q (place_order server (prepare r) u m clock reads s'))
      → let (o, s', _) = create_order server req user clock reads st s in Answered Q s.db o s'.db
  unfolding create_order
  create_order-Answered none user clock reads st s h = refl
  create_order-Answered (some req) user clock reads st s h =
      synced-Answered s.db st (serve_order server (prepare req) user clock reads s)
        (serve_order-Answered (prepare req) user clock reads s (h req refl))

-- Eight decimals hold the amounts of USD of a request: what a limit buy locks, and what each trade costs.
abbrev pub IsExact :
    (server : Server) ⦃f : Float64⦄ → CreateOrderRequest → List (Read server.Store) → Type 0
IsExact server req reads =
    (str_eq req.side buy ≡ true
      → str_eq req.order_type market ≡ false
      → IsWhole (product req.price req.quantity))
    × MatchesWhole server req reads

module _ (a : String) (server : Server) ⦃f : Float64⦄ (numeric : IsNumeric f) where
  open server use {Store}

  place_order-Moved :
      (req : CreateOrderRequest) (user : ℕ) (m : Market) (clock : ℤ) (reads : List (Read Store))
      (before : Db) (s : Session)
      → MatchesWhole server req reads
      → OwnersExist before
      → s.db ≡ before
      → WhenDone (Moved a (pos 0) (pos 0) before) (place_order server req user m clock reads s)
  unfolding place_order
  place_order-Moved req user m clock reads before s exact owners e =
      let asset = asset_to_lock req m in
      let amount = locked_amount req in
      let P : Db → Type 0 = λ db. Moved a (pos 0) (pos 0) s.db db × (db.orders ≡ s.db.orders) in
      rw (← e) (
        after-WhenDone (Moved a (pos 0) (pos 0) s.db) P
          (answer 400 (lock_balance_tx user asset amount) s)
          (λ _. answer 500 (enter_order server req user clock reads))
          (answer-WhenDone P 400 (lock_balance_tx user asset amount) s (
            Ensures-and (λ _ db. Moved a (pos 0) (pos 0) s.db db) (λ _ db. db.orders ≡ s.db.orders)
              (lock_balance_tx user asset amount s) (lock_balance_tx-Moved a user asset amount s)
              (lock_balance_tx-orders user asset amount s)))
          λ _ s' (k, os).
            answer-WhenDone (Moved a (pos 0) (pos 0) s.db) 500
              (enter_order server req user clock reads) s'
              (Ensures-mono (λ _ db. Moved a (pos 0) (pos 0) s'.db db)
                (λ _ db. Moved a (pos 0) (pos 0) s.db db)
                (enter_order server req user clock reads s')
                (enter_order-Moved server a numeric req user clock reads s' exact
                  (OwnersExist-kept s.db s'.db os k.2 (rw e owners)))
                λ _ db k'. Moved-twice a s.db s'.db db k k'))

  -- `CreateOrder`, in a database where the users of all orders are there, where products keep signs and
  -- columns hold eight decimals, on a request for which these are enough for the product of price and
  -- quantity of a limit buy and for the cost of every trade: if it answers with an error the database
  -- is as it was, and if it answers with a new order the USD of all users and the units of every asset in all balances, available and locked,
  -- are what they were.
  pub create_order-conserves :
      (req : Option CreateOrderRequest) (user : Option ℕ) (clock : ℤ) (reads : List (Read Store))
      (st : Store) (s : Session)
      → ((r : CreateOrderRequest) → req ≡ some r → IsExact server (prepare r) reads)
      → OwnersExist s.db
      → let (o, s', _) = create_order server req user clock reads st s in
        Answered (Moved a (pos 0) (pos 0) s.db) s.db o s'.db
  create_order-conserves req user clock reads st s exact owners =
      create_order-Answered server (Moved a (pos 0) (pos 0) s.db) req user clock reads st s
        λ r same u m s' e.
          place_order-Moved (prepare r) u m clock reads s.db s' (exact r same).1 owners e
