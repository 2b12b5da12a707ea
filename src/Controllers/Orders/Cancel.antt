-- ===== src/Controllers/Orders/Cancel.antt =====
-- What `CancelOrder` does to the money, whatever it answers.
use cex_go.Prelude.{
  All, ℕ, String, Bool, Bool-cases, ◌≡◌, refl, true, false, Option, none, some, inl, inr, str_eq,
}
use cex_go.Prelude.Int.{pos, ◌-ℤ◌}
use cex_go.Float.{Float64, IsWhole, product, column}
use cex_go.Models.{Order, Market, buy, sell, cancelled}
use cex_go.Database.{
  Db, OrderRow, Session, Result, Tick, ok, err, round_trip, order_check, ◌>>◌, pure,
}
use cex_go.Database.Ensures.{
  round_trip-keeps, Ensures, Ensures-mono, Ensures-bind, round_trip-Ensures,
}
use cex_go.Redis.{Server, update_order_in_redis}
use cex_go.Queries.Balance.Totals.{Moved}
use cex_go.Queries.Balance.Moves.{unlock_balance_tx-Moved, unlock_usd_tx-Moved}
use cex_go.Queries.Order.{update_order_status_tx, store_status, set_status, join_order}
use cex_go.Queries.Order.Effects.{same-Moved}
use cex_go.Matching.{remaining}
use cex_go.Controllers.Orders.{
  release, cancel_in_tx, cancelled_in_redis, cancelled_in_db, cancel_opened, cancel_order,
}
use cex_go.Controllers.Orders.Entry.{Moved-twice}
use cex_go.Controllers.Orders.Money.{Answered, committed-Answered}

-- A change of status leaves users and balances alone.
abbrev pub SameMoney : Db → Db → Type 0
SameMoney before after = (after.users ≡ before.users) × (after.balances ≡ before.balances)

store_status-Ensures :
    (id : ℕ) (status : String) (o : Option (OrderRow × Market)) (s : Session)
    → Ensures (λ _ db. SameMoney s.db db) (store_status id status o s)
store_status-Ensures id status none s = tt
store_status-Ensures id status (some (r, m)) s =
    elim (Bool-cases (order_check (set_status status r))) [
      | inl h ↦ rw h (refl, refl)
      | inr h ↦ rw h tt
    ]

update_order_status_tx-Ensures :
    (id : ℕ) (status : String) (s : Session)
    → Ensures (λ _ db. SameMoney s.db db) (update_order_status_tx id status s)
unfolding update_order_status_tx
update_order_status_tx-Ensures id status s =
    Ensures-bind (λ _ db. db ≡ s.db) (λ _ db. SameMoney s.db db) round_trip
      (λ _ s'. store_status id status (join_order id s'.db) s') s (round_trip-Ensures s)
      λ _ s' e. rw (← e) (store_status-Ensures id status (join_order id s'.db) s')

module _ (server : Server) ⦃f : Float64⦄ (Q : Db → Type 0) where
  open server use {Store}

  in_redis-Answered :
      (before : Session) (o : Order) (s : Session) (r : Bool × Store)
      → Q s.db
      → let (x, s', _) = cancelled_in_redis server before o s r in Answered Q before.db x s'.db
  in_redis-Answered before o s (false, st) k = refl
  in_redis-Answered before o s (true, st) k =
      committed-Answered Q before tt s.db (round_trip s) (round_trip-Ensures s) k

  in_db-Answered :
      (before : Session) (st : Store) (r : Result Order × Session)
      → Ensures (λ _ db. Q db) r
      → let (x, s', _) = cancelled_in_db server before st r in Answered Q before.db x s'.db
  in_db-Answered before st (err _, s) k = refl
  in_db-Answered before st (ok o, s) k =
      in_redis-Answered before o s
        (update_order_in_redis server (record o { status = cancelled }) st) k

  opened-Answered :
      (before : Session) (id : ℕ) (st : Store) (r : Result Tick × Session)
      → r.1.db ≡ before.db
      → ((s : Session) → s.db ≡ before.db → Ensures (λ _ db. Q db) (cancel_in_tx server id s))
      → let (x, s', _) = cancel_opened server before id st r in Answered Q before.db x s'.db
  opened-Answered before id st (err _, s) e h = e
  opened-Answered before id st (ok _, s) e h =
      in_db-Answered before st (cancel_in_tx server id s) (h s e)

  -- What the cancelling of an order in a transaction leads to, the handler leads to.
  pub cancel_order-Answered :
      (id : ℕ) (st : Store) (s : Session)
      → ((s₁ : Session) → s₁.db ≡ s.db → Ensures (λ _ db. Q db) (cancel_in_tx server id s₁))
      → let (x, s', _) = cancel_order server id st s in Answered Q s.db x s'.db
  unfolding cancel_order
  cancel_order-Answered id st s = opened-Answered s id st (round_trip s) (round_trip-keeps s)

-- Eight decimals hold the USD that cancelling the order releases, so that neither of the two columns that
-- an unlock writes rounds it.
abbrev pub ReleasesWhole : ⦃f : Float64⦄ → ℕ → Db → Type 0
ReleasesWhole id db =
    All
      (λ (r : OrderRow).
        r.id ≡ id → r.side ≡ buy → IsWhole (product r.price (r.quantity -ℤ r.filled_quantity)))
      db.orders

module _ (a : String) (server : Server) ⦃f : Float64⦄ where
  open server use {Store}

  release-Moved :
      (o : Order) (s : Session)
      → Ensures (λ _ db. Moved a (pos 0) (pos 0) s.db db) (release server o s)
  unfolding release
  release-Moved o s = elim (Bool-cases (str_eq o.side sell)) [
    | inl h ↦ rw h (unlock_balance_tx-Moved a o.user_id o.base_asset (remaining o) s)
    | inr h ↦ rw h (unlock_usd_tx-Moved a o.user_id (column (product o.price (remaining o))) s)
  ]

  cancel_in_tx-Moved :
      (id : ℕ) (s : Session)
      → Ensures (λ _ db. Moved a (pos 0) (pos 0) s.db db) (cancel_in_tx server id s)
  unfolding cancel_in_tx
  cancel_in_tx-Moved id s =
      let Q : Order → Db → Type 0 = λ _ db. Moved a (pos 0) (pos 0) s.db db in
      Ensures-bind (λ _ db. SameMoney s.db db) Q (update_order_status_tx id cancelled)
        (λ o. release server o >> pure o) s (update_order_status_tx-Ensures id cancelled s)
        λ o s' (us, bs).
          Ensures-bind (λ _ db. Moved a (pos 0) (pos 0) s.db db) Q (release server o) (λ _. pure o)
            s'
            (Ensures-mono (λ _ db. Moved a (pos 0) (pos 0) s'.db db)
              (λ _ db. Moved a (pos 0) (pos 0) s.db db) (release server o s') (release-Moved o s')
              λ _ db k. Moved-twice a s.db s'.db db (same-Moved a s.db s'.db us bs) k)
            λ _ s'' k. k

  -- `CancelOrder`, where eight decimals hold the product of price and what is left of the order, if it is
  -- a buy, whatever the server and Redis do: if it answers with an error the database is as it
  -- was, and if it answers that the order is cancelled the USD of all users and the units of every
  -- asset in all balances, available and locked, are what they were.
  pub cancel_order-conserves :
      (id : ℕ) (st : Store) (s : Session)
      → ReleasesWhole id s.db
      → let (x, s', _) = cancel_order server id st s in
        Answered (Moved a (pos 0) (pos 0) s.db) s.db x s'.db
  cancel_order-conserves id st s _ =
      cancel_order-Answered server (Moved a (pos 0) (pos 0) s.db) id st s
        λ s₁ e. rw (← e) (cancel_in_tx-Moved id s₁)
