-- ===== src/Controllers/Orders/Placing.antt =====
-- `CreateOrder` of a LIMIT order that nothing is matched with: the account and the order.
use cex_go.Prelude.{
  ℕ, String, Bool, Bool-cases, ◌&&◌, ◌≡◌, refl, ◌∙◌, true, some, List, [], ◌∷◌, str_eq,
  if◌then◌else◌, inl, inr, arith,
}
use cex_go.Prelude.Int.{ℤ, pos, leb_ℤ, ltb_ℤ}
use cex_go.Float.{Float64, IsNumeric}
use cex_go.Models.{Market, CreateOrderRequest, buy}
use cex_go.Database.{Db, UserRow, BalanceRow, Session, user_check, balance_check}
use cex_go.Database.Table.{select}
use cex_go.Database.Ensures.{
  Ensures, Ensures-mono, IsGuarded, guarded_update-Ensures, query_row-Ensures,
}
use cex_go.Redis.{Server}
use cex_go.Queries.Balance.{
  usd, lock_balance_tx, guarded_user, guarded_balance, put_users, put_balances, of_user, of_asset,
  lock_row, lock_usd_row,
}
use cex_go.Queries.Balance.Steps.{IsStep}
use cex_go.Queries.Balance.Refinement.{locking, lock_balance_tx-IsStep}
use cex_go.Queries.Order.{of_market, put_markets}
use cex_go.Matching.{OrderResult, Read}
use cex_go.Controllers.Handlers.{Outcome, refused, done, answer, transaction, refuse}
use cex_go.Controllers.Orders.{
  asset_to_lock, quantity_to_lock, locked_amount, get_market_by_id, enter_order, place_order,
  serve_order, synced,
}
use cex_go.Controllers.Orders.Entry.{Ensures-and}
use cex_go.Controllers.Orders.Yielding.{Yields, answer-Yields, transaction-Yields, after-Yields}
use cex_go.Controllers.Orders.Resting.{IsResting, FindsNone, enter_order-IsResting}
use cex_go.Controllers.Orders.Releasing.{IsPlain}

abbrev SameMarkets : Session → Unit {0} → Db → Type 0
SameMarkets s _ db = db.markets ≡ s.db.markets

-- Locking leaves the markets alone.
lock_balance_tx-markets :
    (user : ℕ) (asset : String) (amount : ℤ) (s : Session)
    → Ensures (SameMarkets s) (lock_balance_tx user asset amount s)
unfolding lock_balance_tx guarded_user guarded_balance
lock_balance_tx-markets user asset amount s =
    let short_user : UserRow → Bool = λ r. ltb_ℤ r.usd_balance amount in
    let short : BalanceRow → Bool = λ r. ltb_ℤ r.available amount in
    elim (Bool-cases (str_eq asset usd)) [
      | inl h ↦ rw h (
          Ensures-mono
            (λ _ db.
              IsGuarded (λ db. db.users) put_users (of_user user) short_user (lock_usd_row amount)
                user_check s.db db)
            (SameMarkets s) (guarded_user user short_user (lock_usd_row amount) s)
            (guarded_update-Ensures (λ db. db.users) put_users (of_user user) short_user
              (lock_usd_row amount) user_check s)
            λ _ db (_, _, _, _, e). rw e refl)
      | inr h ↦ rw h (
          Ensures-mono
            (λ _ db.
              IsGuarded (λ db. db.balances) put_balances (of_asset user asset) short
                (lock_row amount) balance_check s.db db)
            (SameMarkets s) (guarded_balance user asset short (lock_row amount) s)
            (guarded_update-Ensures (λ db. db.balances) put_balances (of_asset user asset) short
              (lock_row amount) balance_check s)
            λ _ db (_, _, _, _, e). rw e refl)
    ]

select-active :
    (p q : Market → Bool) (rows : List Market) (m : Market)
    → select p rows ≡ some m
    → q m ≡ true
    → select (λ r. p r && q r) rows ≡ some m
unfolding select
select-active p q [] m e h = absurd (cc e)
select-active p q (r ∷ rs) m e h = elim (Bool-cases (p r)) [
  | inl k ↦ let same : r ≡ m = ground (arith, k, e) in rw (k, same, h) refl
  | inr k ↦ rw k (select-active p q rs m (rw k at e) h)
]

module _ (server : Server) ⦃f : Float64⦄ (req : CreateOrderRequest) (user : ℕ) (m : Market)
    (clock : ℤ) (other : ℕ) (coin : String) where
  open server use {Store}

  abbrev pub Locks : ℕ → String → Db → Db → Type 0
  Locks = IsStep (locking (locked_amount req)) user (asset_to_lock req m)

  -- The amount was locked, and the order rests.
  abbrev pub IsPlaced : Db → ℕ → Db → Type 0
  IsPlaced before id db =
      (d : Db) × Locks other coin before d
      × Locks user (asset_to_lock req m) before d
      × (d.markets ≡ before.markets)
      × IsResting req user d id db

  place_order-IsPlaced :
      (numeric : IsNumeric f) (reads : List (Read Store)) (before : Db) (s : Session)
      → IsPlain req m
      → FindsNone server req reads
      → s.db ≡ before
      → Yields (λ a db. IsPlaced before a.0 db) (place_order server req user m clock reads s)
  unfolding place_order
  place_order-IsPlaced numeric reads before s plain idle e =
      let lock = lock_balance_tx user (asset_to_lock req m) (locked_amount req) in
      let P : Unit {0} → Db → Type 0 = λ _ db.
        (Locks other coin s.db db × Locks user (asset_to_lock req m) s.db db)
        × (db.markets ≡ s.db.markets) in
      rw (← e) (
        after-Yields P (λ a db. IsPlaced s.db a.0 db) (answer 400 lock s)
          (λ _. answer 500 (enter_order server req user clock reads))
          (answer-Yields P 400 lock s (
            Ensures-and
              (λ _ db. Locks other coin s.db db × Locks user (asset_to_lock req m) s.db db)
              (SameMarkets s) (lock s)
              (Ensures-and (λ _ db. Locks other coin s.db db)
                (λ _ db. Locks user (asset_to_lock req m) s.db db) (lock s)
                (lock_balance_tx-IsStep user other (asset_to_lock req m) coin (locked_amount req) s)
                (lock_balance_tx-IsStep user user (asset_to_lock req m) (asset_to_lock req m)
                  (locked_amount req) s))
              (lock_balance_tx-markets user (asset_to_lock req m) (locked_amount req) s)))
          λ _ s' ((seen, own), ms).
            answer-Yields (λ a db. IsPlaced s.db a.0 db) 500
              (enter_order server req user clock reads) s'
              (Ensures-mono (λ a db. IsResting req user s'.db a.0 db) (λ a db. IsPlaced s.db a.0 db)
                (enter_order server req user clock reads s')
                (enter_order-IsResting server req user clock numeric plain.0 reads s' idle)
                λ _ db k. (s'.db, seen, own, ms, k)))

  pub serve_order-IsPlaced :
      (numeric : IsNumeric f) (reads : List (Read Store)) (s : Session)
      → IsPlain req m
      → FindsNone server req reads
      → select (of_market req.market_id) s.db.markets ≡ some m
      → m.is_active ≡ true
      → Yields (λ a db. IsPlaced s.db a.0 db) (serve_order server req (some user) clock reads s)
  unfolding serve_order get_market_by_id
  serve_order-IsPlaced numeric reads s plain idle there active =
      let Found : Market → Db → Type 0 = λ found db. (db ≡ s.db) × (found ≡ m) in
      after-Yields Found (λ a db. IsPlaced s.db a.0 db)
        (answer 400 (get_market_by_id req.market_id) s)
        (λ found.
          if str_eq req.side buy && leb_ℤ (quantity_to_lock req) (pos 0)
          then refuse 400
          else transaction (place_order server req user found clock reads))
        (answer-Yields Found 400 (get_market_by_id req.market_id) s (
          Ensures-mono
            (λ found db.
              (db ≡ s.db)
              × (select (λ r. of_market req.market_id r && r.is_active) s.db.markets ≡ some found))
            Found (get_market_by_id req.market_id s)
            (query_row-Ensures (λ db. db.markets) put_markets
              (λ r. of_market req.market_id r && r.is_active) s)
            λ found db (d, e). (
              d,
              cc (
                e,
                select-active (of_market req.market_id) (λ r. r.is_active) s.db.markets m there
                    active,
              ),
            )))
        λ found s₁ (d, e).
          elim (Bool-cases (str_eq req.side buy && leb_ℤ (quantity_to_lock req) (pos 0))) [
            | inl k ↦ rw k tt
            | inr k ↦
                rw (k, e)
                  (transaction-Yields (λ a db. IsPlaced s.db a.0 db)
                    (place_order server req user m clock reads) s₁
                    λ s₂ d'. place_order-IsPlaced numeric reads s.db s₂ plain idle (d' ∙ d))
          ]

  pub synced-IsPlaced :
      (before : Db) (st : Store) (r : Outcome (ℕ × OrderResult) × Session) (id : ℕ)
      → Yields (λ a db. IsPlaced before a.0 db) r
      → let (o, s, _) = synced server st r in o ≡ done id → IsPlaced before id s.db
  synced-IsPlaced before st (refused _, s) id h e = absurd (cc e)
  synced-IsPlaced before st (done (k, _), s) id h e = let same : k ≡ id = cc e in rw (← same) h
