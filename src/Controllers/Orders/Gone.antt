-- ===== src/Controllers/Orders/Gone.antt =====
-- `CancelOrder`: the order in the database and in the book.
use cex_go.Controllers.Orders.Cancelled.{IsCancelled, Cancelled, cancel_in_tx-Cancelled}
use cex_go.Prelude.{ℕ, String, Bool, ◌≡◌, refl, true, false, none, All}
use cex_go.Float.{Float64}
use cex_go.Models.{Order, cancelled}
use cex_go.Database.{Db, Session, Result, Tick, ok, err, round_trip}
use cex_go.Database.Ensures.{round_trip-keeps, Ensures}
use cex_go.Redis.{is_finished, Server, update_order_in_redis}
use cex_go.Redis.View.{View, IsRedis}
use cex_go.Redis.Invariant.{HasPlace, IsBook}
use cex_go.Redis.Writes.{Written, update_order_in_redis-Written}
use cex_go.Queries.Order.Lists.{scanned}
use cex_go.Controllers.Handlers.{Outcome, done, committed}
use cex_go.Controllers.Orders.{
  cancel_in_tx, cancelled_in_redis, cancelled_in_db, cancel_opened, cancel_order,
}

module _ (server : Server) ⦃f : Float64⦄ (view : server.Store → View) {gap : ℕ}
    (redis : IsRedis gap server view) (place : ℕ → ℕ × String) where
  open server use {Store}

  -- What the answer that the order is cancelled means for the book and for the database
  abbrev pub GoneIfDone : ℕ → Store → Outcome (Unit {0}) × Session × Store → Type 0
  GoneIfDone id st (x, s, st') =
      x ≡ done tt → Written place id none (view st) (view st') × IsCancelled id s.db

  committed-IsCancelled :
      (id : ℕ) (before : Session) (d : Db) (r : Result Tick × Session)
      → r.1.db ≡ d
      → IsCancelled id d
      → (committed before tt r).0 ≡ done tt
      → IsCancelled id (committed before tt r).1.db
  committed-IsCancelled id before d (ok _, s) e c k = rw e c
  committed-IsCancelled id before d (err _, s) e c k = absurd (cc k)

  in_redis-GoneIfDone :
      (id : ℕ) (before : Session) (o : Order) (s : Session) (st : Store) (r : Bool × Store)
      → IsCancelled id s.db
      → (r.0 ≡ true → Written place id none (view st) (view r.1))
      → GoneIfDone id st (cancelled_in_redis server before o s r)
  in_redis-GoneIfDone id before o s st (false, st') c w e = absurd (cc e)
  in_redis-GoneIfDone id before o s st (true, st') c w e =
      (w refl, committed-IsCancelled id before s.db (round_trip s) (round_trip-keeps s) c e)

  in_db-GoneIfDone :
      (id : ℕ) (before : Session) (st : Store) (r : Result Order × Session)
      → IsBook place (view st)
      → Ensures (Cancelled place id) r
      → GoneIfDone id st (cancelled_in_db server before st r)
  unfolding is_finished
  in_db-GoneIfDone id before st (err _, s) b h = λ e. absurd (cc e)
  in_db-GoneIfDone id before st (ok o, s) b (i, p, c) =
      let gone = record o { status = cancelled } in
      in_redis-GoneIfDone id before o s st (update_order_in_redis server gone st) c
        λ k. rw (← i) (update_order_in_redis-Written server view redis place gone st b p k)

  opened-GoneIfDone :
      (id : ℕ) (before : Session) (st : Store) (r : Result Tick × Session)
      → IsBook place (view st)
      → All (HasPlace place) (scanned r.1.db)
      → GoneIfDone id st (cancel_opened server before id st r)
  opened-GoneIfDone id before st (err _, s) b h = λ e. absurd (cc e)
  opened-GoneIfDone id before st (ok _, s) b h =
      in_db-GoneIfDone id before st (cancel_in_tx server id s) b
        (cancel_in_tx-Cancelled server place id s h)

  -- `CancelOrder`, where the orders of one id have one market and side, and each side of the book holds
  -- exactly the orders with a hash that belong there, by the score of price and time: if it answers that
  -- the order is cancelled, then the row of the order says so, the order has no hash and is on no side of
  -- the book, and the rest of the book is as it was.
  pub cancel_order-Written :
      (id : ℕ) (st : Store) (s : Session)
      → IsBook place (view st)
      → All (HasPlace place) (scanned s.db)
      → (cancel_order server id st s).0 ≡ done tt
      → let (_, s', st') = cancel_order server id st s in
        Written place id none (view st) (view st') × IsCancelled id s'.db
  unfolding cancel_order
  cancel_order-Written id st s b h =
      opened-GoneIfDone id s st (round_trip s) b (rw (round_trip-keeps s) h)
