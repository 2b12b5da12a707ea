-- ===== src/Controllers/Orders/Restored.antt =====
-- `CreateOrder` and then `CancelOrder`, of a LIMIT order that nothing is matched with.
use cex_go.Controllers.Orders.Placing.{IsPlaced, serve_order-IsPlaced, synced-IsPlaced}
use cex_go.Prelude.{ℕ, String, ◌≡◌, ◌∙◌, true, false, str_eq, some, List}
use cex_go.Prelude.Int.{ℤ, pos, leb_ℤ}
use cex_go.Float.{Float64, IsNumeric, IsWhole, product}
use cex_go.Models.{Market, CreateOrderRequest, buy}
use cex_go.Database.{Db, Session}
use cex_go.Database.Table.{select}
use cex_go.Database.Ensures.{Ensures, Ensures-mono}
use cex_go.Redis.{Server}
use cex_go.Queries.Balance.Ledger.{ledger_of}
use cex_go.Queries.Balance.Restoring.{locked-unlocked}
use cex_go.Queries.Order.{of_market}
use cex_go.Matching.{Read}
use cex_go.Controllers.Handlers.{Outcome, refused, done}
use cex_go.Controllers.Orders.{
  asset_to_lock, locked_amount, prepare, serve_order, create_order, cancel_order, cancel_in_tx,
}
use cex_go.Controllers.Orders.Money.{Answered}
use cex_go.Controllers.Orders.Cancel.{cancel_order-Answered}
use cex_go.Controllers.Orders.Resting.{FindsNone}
use cex_go.Controllers.Orders.Releasing.{IsPlain, IsUnlocked, cancel_in_tx-IsUnlocked}

module _ (server : Server) ⦃f : Float64⦄ (req : CreateOrderRequest) (user : ℕ) (m : Market)
    (clock : ℤ) (other : ℕ) (coin : String) where
  -- An order that was placed, cancelled in a database that is as the placing left it
  cancelled-IsRestored :
      (numeric : IsNumeric f) (before : Db) (id : ℕ) (s : Session)
      → IsPlain req m
      → leb_ℤ (locked_amount req) (pos 0) ≡ false
      → select (of_market req.market_id) before.markets ≡ some m
      → IsPlaced server req user m clock other coin before id s.db
      → Ensures
          (λ _ db. ledger_of db other coin ≡ ledger_of before other coin)
          (cancel_in_tx server id s)
  cancelled-IsRestored numeric before id s plain amount there (d, seen, own, ms, rests) =
      let (_, _, _, _, same, _) = rests in
      Ensures-mono (λ _ db. IsUnlocked server req user m other coin s.db db)
        (λ _ db. ledger_of db other coin ≡ ledger_of before other coin) (cancel_in_tx server id s)
        (cancel_in_tx-IsUnlocked server req user m other coin numeric plain amount d id s rests
          (rw ms there))
        λ _ db (d', same', k).
          locked-unlocked (locked_amount req) user other (asset_to_lock req m) coin before d d' db
            seen own (same'.0 ∙ same.0, same'.1 ∙ same.1) k

done-Answered :
    {A : Type 0} (Q : Db → Type 0) (before : Db) (o : Outcome A) (a : A) (db : Db)
    → Answered Q before o db
    → o ≡ done a
    → Q db
done-Answered Q before (refused _) a db h e = absurd (cc e)
done-Answered Q before (done _) a db h e = h

module _ (server : Server) ⦃f : Float64⦄ where
  open server use {Store}

  create_order-IsPlaced :
      (numeric : IsNumeric f) (req : CreateOrderRequest) (user : ℕ) (m : Market) (clock : ℤ)
      (other : ℕ) (coin : String) (reads : List (Read Store)) (st : Store) (s : Session) (id : ℕ)
      → IsPlain (prepare req) m
      → FindsNone server (prepare req) reads
      → select (of_market (prepare req).market_id) s.db.markets ≡ some m
      → m.is_active ≡ true
      → let (o, s', _) = create_order server (some req) (some user) clock reads st s in
        o ≡ done id → IsPlaced server (prepare req) user m clock other coin s.db id s'.db
  unfolding create_order
  create_order-IsPlaced numeric req user m clock other coin reads st s id plain idle there active =
      synced-IsPlaced server (prepare req) user m clock other coin s.db st
        (serve_order server (prepare req) (some user) clock reads s) id
        (serve_order-IsPlaced server (prepare req) user m clock other coin numeric reads s plain
          idle there active)

  -- Where products keep signs and columns hold eight decimals: a LIMIT order to buy or sell on an active
  -- market of an asset against USD, with an amount to lock that is positive, for which eight decimals
  -- are enough if it is the product of a buy, and with no level in the book that crosses it whenever it
  -- is read: if `CreateOrder` answers with its id, and `CancelOrder`, in the database that this leaves, answers that the order is cancelled,
  -- then every account of every user, available and locked, is what it was.
  pub cancel_order-create_order :
      (numeric : IsNumeric f) (req : CreateOrderRequest) (user : ℕ) (m : Market) (clock : ℤ)
      (other : ℕ) (coin : String) (reads : List (Read Store)) (st : Store) (s : Session) (id : ℕ)
      (st' : Store) (s' : Session)
      → IsPlain (prepare req) m
      → FindsNone server (prepare req) reads
      → select (of_market (prepare req).market_id) s.db.markets ≡ some m
      → m.is_active ≡ true
      → leb_ℤ (locked_amount (prepare req)) (pos 0) ≡ false
      → (str_eq (prepare req).side buy ≡ true
          → IsWhole (product (prepare req).price (prepare req).quantity))
      → (create_order server (some req) (some user) clock reads st s).0 ≡ done id
      → s'.db ≡ (create_order server (some req) (some user) clock reads st s).1.db
      → (cancel_order server id st' s').0 ≡ done tt
      → ledger_of (cancel_order server id st' s').1.db other coin ≡ ledger_of s.db other coin
  cancel_order-create_order numeric req user m clock other coin reads st s id st' s' plain idle
        there active amount _ created kept =
      let restored : Db → Type 0 = λ db. ledger_of db other coin ≡ ledger_of s.db other coin in
      let placed =
        create_order-IsPlaced numeric req user m clock other coin reads st s id plain idle there
          active created in
      let (x, s₂, _) = cancel_order server id st' s' in
      done-Answered restored s'.db x tt s₂.db (
        cancel_order-Answered server restored id st' s' λ s₁ e.
          cancelled-IsRestored server (prepare req) user m clock other coin numeric s.db id s₁ plain
            amount there (rw (e ∙ kept) placed))
