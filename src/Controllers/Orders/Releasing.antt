-- ===== src/Controllers/Orders/Releasing.antt =====
-- `CancelOrder` in its transaction, of an order that rests in the book as it was placed: what it gives
-- back.
use cex_go.Prelude.{
  ℕ, String, Bool-cases, ◌≡◌, refl, ap, ◌∙◌, true, false, Option, none, some, ◌⊎◌, str_eq,
  if◌then◌else◌, inl, inr,
}
use cex_go.Prelude.Int.{ℤ, pos, ◌-ℤ◌, leb_ℤ, int_laws}
use cex_go.Float.{Float64}
use cex_go.Models.{Order, Market, CreateOrderRequest, limit, market, buy, sell, cancelled}
use cex_go.Database.{Db, OrderRow, Session, Tick, Tx, ◌>>◌, pure, order_check, round_trip}
use cex_go.Database.Table.{select}
use cex_go.Database.Ensures.{Ensures, Ensures-mono, Ensures-bind, round_trip-Ensures}
use cex_go.Redis.{Server}
use cex_go.Queries.Balance.{usd, unlock_usd_tx, unlock_balance_tx}
use cex_go.Queries.Balance.Steps.{IsStep}
use cex_go.Queries.Balance.Refinement.{unlocking, unlock_debit-IsStep}
use cex_go.Queries.Balance.Restoring.{SameAccounts}
use cex_go.Queries.Order.{
  of_market, scan_order, set_status, update_order_status_tx, store_status, join_order, joined,
}
use cex_go.Float.{IsNumeric}
use cex_go.Controllers.Orders.{
  asset_to_lock, quantity_to_lock, locked_amount, release, cancel_in_tx,
}
use cex_go.Controllers.Orders.Resting.{row_of, IsResting}

-- A LIMIT order to buy or sell on a market of an asset against USD
abbrev pub IsPlain : CreateOrderRequest → Market → Type 0
IsPlain req m =
    (req.order_type ≡ limit)
    × (m.quote_asset ≡ usd)
    × (str_eq m.base_asset usd ≡ false)
    × ((req.side ≡ buy) ⊎ (req.side ≡ sell))

whole_left : (q : ℤ) → q -ℤ pos 0 ≡ q
whole_left q = omega int_laws

module _ (server : Server) ⦃f : Float64⦄ (req : CreateOrderRequest) (user : ℕ) (m : Market) where
  open server use {Store}

  -- The order that comes back from the cancelled row
  abbrev returned : Tick → String → Order
  returned t status = record (scan_order (record (row_of req user t) { status = status })) {
    base_asset = m.base_asset;
    quote_asset = m.quote_asset;
  }

  abbrev Unlocks : Tx (Unit {0})
  Unlocks =
      if str_eq (asset_to_lock req m) usd
      then unlock_usd_tx user (locked_amount req)
      else unlock_balance_tx user (asset_to_lock req m) (locked_amount req)

  release-unlocks :
      (t : Tick) (status : String) (s : Session)
      → IsNumeric f
      → IsPlain req m
      → release server (returned t status) s ≡ Unlocks s
  unfolding release asset_to_lock quantity_to_lock
  release-unlocks t status s numeric (kind, quote, base, inl side) =
      let buys : str_eq req.side buy ≡ true = rw side refl in
      let no_sale : str_eq req.side sell ≡ false = rw side refl in
      let no_market : str_eq req.order_type market ≡ false = rw kind refl in
      let in_usd : str_eq m.quote_asset usd ≡ true = rw quote refl in
      rw (whole_left req.quantity, no_sale, buys, no_market, in_usd) refl
  release-unlocks t status s numeric (kind, quote, base, inr side) =
      let no_purchase : str_eq req.side buy ≡ false = rw side refl in
      let sells : str_eq req.side sell ≡ true = rw side refl in
      rw (whole_left req.quantity, sells, no_purchase, numeric.whole req.quantity, base) refl

  -- What was unlocked, seen at one account of the ledger
  abbrev pub IsUnlocked : ℕ → String → Db → Db → Type 0
  IsUnlocked other coin before db =
      (d : Db) × SameAccounts before d
      × IsStep (unlocking (locked_amount req)) user (asset_to_lock req m) other coin d db

  store_status-returned :
      (before : Db) (id : ℕ) (s : Session)
      → IsResting req user before id s.db
      → select (of_market req.market_id) before.markets ≡ some m
      → Ensures
          (λ o db. (t : Tick) × (status : String) × (o ≡ returned t status) × SameAccounts s.db db)
          (store_status id cancelled (join_order id s.db) s)
  store_status-returned before id s (t, status, i, e, same, ms) k =
      let row : OrderRow = record (row_of req user t) { status = status } in
      let join : Option OrderRow → Option (OrderRow × Market) = λ found. elim found [
        | none ↦ none
        | some r ↦ joined (some r) (select (of_market r.market_id) s.db.markets)
      ] in
      let joins : join_order id s.db ≡ some (row, m) =
        ap join e ∙ ap (joined (some row)) (ap (select (of_market req.market_id)) ms ∙ k) in
      rw joins (elim (Bool-cases (order_check (set_status cancelled row))) [
        | inl h ↦ rw h (t, cancelled, refl, (refl, refl))
        | inr h ↦ rw h tt
      ])

  module _ (other : ℕ) (coin : String) (numeric : IsNumeric f) (plain : IsPlain req m)
      (some_amount : leb_ℤ (locked_amount req) (pos 0) ≡ false) where
    release-IsUnlocked :
        (t : Tick) (status : String) (before : Db) (s : Session)
        → SameAccounts before s.db
        → Ensures (λ _ db. IsUnlocked other coin before db) (release server (returned t status) s)
    release-IsUnlocked t status before s same = rw (release-unlocks t status s numeric plain) (
        Ensures-mono
          (λ _ db.
            IsStep (unlocking (locked_amount req)) user (asset_to_lock req m) other coin s.db db)
          (λ _ db. IsUnlocked other coin before db) (Unlocks s)
          (unlock_debit-IsStep user other (asset_to_lock req m) coin (locked_amount req) s
            some_amount).0
          λ _ db k. (s.db, same, k))

    pub cancel_in_tx-IsUnlocked :
        (before : Db) (id : ℕ) (s : Session)
        → IsResting req user before id s.db
        → select (of_market req.market_id) before.markets ≡ some m
        → Ensures (λ _ db. IsUnlocked other coin s.db db) (cancel_in_tx server id s)
    unfolding cancel_in_tx update_order_status_tx
    cancel_in_tx-IsUnlocked before id s rests k =
        let Returned : Order → Db → Type 0 =
          λ o db. (t : Tick) × (status : String) × (o ≡ returned t status) × SameAccounts s.db db in
        let Q : Order → Db → Type 0 = λ _ db. IsUnlocked other coin s.db db in
        Ensures-bind Returned Q (update_order_status_tx id cancelled)
          (λ o. release server o >> pure o) s
          (Ensures-bind (λ _ db. db ≡ s.db) Returned round_trip
            (λ _ s'. store_status id cancelled (join_order id s'.db) s') s (round_trip-Ensures s)
            λ _ s' e. rw (← e) (store_status-returned before id s' (rw e rests) k))
          λ o s' (t, status, e, same).
            Ensures-bind (λ _ db. IsUnlocked other coin s.db db) Q (release server o) (λ _. pure o)
              s' (rw e (release-IsUnlocked t status s.db s' same)) λ _ s'' u. u
