-- ===== src/Controllers/Exchange/Balanced.antt =====
-- The totals behind the handlers, one after another: what was deposited is what is there.
use cex_go.Prelude.{
  ℕ, String, Bool-cases, ◌≡◌, refl, false, Option, none, some, [], ◌∷◌, ◌++◌, inl, inr, str_eq,
  if◌then◌else◌,
}
use cex_go.Prelude.Int.{ℤ, pos, ◌+ℤ◌, int_laws}
use cex_go.Float.{Float64, IsNumeric}
use cex_go.Database.{Db, Session, Result, ok, err, user_check}
use cex_go.Database.Table.{total-append}
use cex_go.Database.Statement.{exists}
use cex_go.Database.Ensures.{Ensures, Ensures-mono, exec_update-Ensures, IsUpdated}
use cex_go.Database.Atomic.{KeptOnError, exec_update-KeptOnError}
use cex_go.Models.{CreateOrderRequest}
use cex_go.Controllers.Orders.{prepare}
use cex_go.Redis.{Server}
use cex_go.Queries.Kept.{IsStored}
use cex_go.Queries.Balance.{usd, of_user, put_users, credit_usd_row, set_user}
use cex_go.Queries.Balance.Totals.{
  Moved, Moved-none, Moved-trans, usd_total, asset_total, usd_of, share,
}
use cex_go.Queries.Balance.Moves.{upsert_balance-Moved, updated-Moved}
use cex_go.Queries.Order.Effects.{OwnersExist}
use cex_go.Queries.Order.Owners.{OwnersExist-IsKept, exists-append}
use cex_go.Queries.Alone.{credit_usd, credit_balance}
use cex_go.Controllers.Handlers.{Outcome, refused, done, answer}
use cex_go.Controllers.Deposits.{DepositRequest, deposit, usd_share, balance_share}
use cex_go.Controllers.Orders.Cancel.{ReleasesWhole, cancel_order-conserves}
use cex_go.Controllers.Orders.Entry.{Moved-twice}
use cex_go.Controllers.Orders.Money.{IsExact, Answered, create_order-conserves}
use cex_go.Controllers.Exchange.{
  Call, registering, depositing, listing_asset, inactivating, listing_market, ordering, cancelling,
  serve, empty_db, History, replay,
}
use cex_go.Controllers.Exchange.Deposited.{upsert_balance-KeptOnError}
use cex_go.Controllers.Exchange.Administered.{
  register_user-keeps, create_asset-keeps, inactivate_asset-keeps, create_market-keeps,
}
use cex_go.Controllers.Exchange.Reached.{serve-keeps}

-- A deposit counts if it is answered with success, and one of USD if its user is there.
abbrev pub counted : {A : Type 0} → Outcome A → ℤ → ℤ
counted (refused _) n = pos 0
counted (done _) n = n

abbrev pub of_present : ℕ → Session → ℤ → ℤ
of_present user s n = if exists (of_user user) s.db.users then n else pos 0

module _ (a : String) where
  stored-Moved : (before : Db) → IsStored (Moved a (pos 0) (pos 0) before)
  unfolding usd_total asset_total
  stored-Moved before = record {
    adds_user = λ db r _ p q h. Moved-twice a before db (put_users db (db.users ++ (r ∷ []))) h (
      rw (total-append usd_of db.users (r ∷ []), p, q) (omega int_laws),
      omega int_laws,
      λ u k. exists-append (of_user u) db.users (r ∷ []) k,
    );
    stores_markets = λ _ _ h. h;
    stores_assets = λ _ _ h. h;
  }

  counted-Moved :
      (before : Db) (d e : ℤ) (status : ℕ) (r : Result (Unit {0}) × Session)
      → KeptOnError before r
      → Ensures (λ _ db. Moved a d e before db) r
      → let (o, s) = answer status (λ _. r) r.1 in Moved a (counted o d) (counted o e) before s.db
  counted-Moved before d e status (ok _, s) k h = h
  counted-Moved before d e status (err _, s) k h = rw k (Moved-none a before)

  credited-Moved :
      (user : ℕ) (amount : ℤ) (s : Session) (db : Db)
      → IsUpdated (λ x. x.users) put_users (of_user user) (credit_usd_row amount) user_check s.db db
      → Moved a (of_present user s amount) (pos 0) s.db db
  credited-Moved user amount s db u = elim (Bool-cases (exists (of_user user) s.db.users)) [
    | inl h ↦ rw h (updated-Moved a user amount s.db db h u)
    | inr h ↦ rw h (missing u h)
  ]
    where
      missing :
          IsUpdated
            (λ x. x.users)
            put_users
            (of_user user)
            (credit_usd_row amount)
            user_check
            s.db
            db
          → exists (of_user user) s.db.users ≡ false
          → Moved a (pos 0) (pos 0) s.db db
      missing (inl (_, e)) h = rw e (Moved-none a s.db)
      missing (inr (r, found, _, _)) h = absurd (cc (rw (found, exists) at h))

of_present_zero : (user : ℕ) (s : Session) → of_present user s (pos 0) ≡ pos 0
of_present_zero user s = elim (Bool-cases (exists (of_user user) s.db.users)) [
  | inl h ↦ rw h refl
  | inr h ↦ rw h refl
]

-- What a call of `Deposit` adds to the USD of all users
abbrev pub deposit_usd : Option DepositRequest → Option ℕ → Session → ℤ
deposit_usd none user s = pos 0
deposit_usd (some req) none s = pos 0
deposit_usd (some req) (some user) s =
    counted (deposit (some req) (some user) s).0
      (of_present user s (usd_share req.asset req.amount))

module _ (a : String) where
  -- What it adds to the units of `a` in all balances
  abbrev pub deposit_units : Option DepositRequest → Option ℕ → Session → ℤ
  deposit_units none user s = pos 0
  deposit_units (some req) none s = pos 0
  deposit_units (some req) (some user) s =
      counted (deposit (some req) (some user) s).0 (balance_share a req.asset req.amount)

  deposit-paid :
      (req : Option DepositRequest) (user : Option ℕ) (s : Session)
      → Moved a (deposit_usd req user s) (deposit_units req user s) s.db (deposit req user s).1.db
  unfolding deposit credit_usd credit_balance set_user
  deposit-paid none user s = Moved-none a s.db
  deposit-paid (some req) none s = Moved-none a s.db
  deposit-paid (some req) (some user) s = elim (Bool-cases (str_eq req.asset usd)) [
    | inl h ↦ rw h (
        counted-Moved a s.db (of_present user s req.amount) (pos 0) 500
          (credit_usd user req.amount s)
          (exec_update-KeptOnError (λ db. db.users) put_users (of_user user)
            (credit_usd_row req.amount) user_check s)
          (Ensures-mono _ (λ _ db. Moved a (of_present user s req.amount) (pos 0) s.db db) _
            (exec_update-Ensures (λ db. db.users) put_users (of_user user)
              (credit_usd_row req.amount) user_check s)
            λ _ db u. credited-Moved a user req.amount s db u))
    | inr h ↦ rw h (
        counted-Moved a s.db (of_present user s (pos 0)) (share a req.asset req.amount) 500
          (credit_balance user req.asset req.amount s)
          (upsert_balance-KeptOnError user req.asset req.amount s)
          (rw (of_present_zero user s) (upsert_balance-Moved a user req.asset req.amount s)))
  ]

  Answered-Moved :
      {A : Type 0} (before : Db) (o : Outcome A) (db : Db)
      → Answered (Moved a (pos 0) (pos 0) before) before o db
      → Moved a (pos 0) (pos 0) before db
  Answered-Moved before (refused _) db h = rw h (Moved-none a before)
  Answered-Moved before (done _) db h = h

module _ (server : Server) ⦃f : Float64⦄ where
  -- What a call pays in, and what all calls of a history do
  abbrev pub usd_paid : Call server → Session → ℤ
  usd_paid (depositing req user) s = deposit_usd req user s
  usd_paid (registering _) s = pos 0
  usd_paid (listing_asset _) s = pos 0
  usd_paid (inactivating _) s = pos 0
  usd_paid (listing_market _) s = pos 0
  usd_paid (ordering _ _ _ _ _) s = pos 0
  usd_paid (cancelling _ _) s = pos 0

  abbrev pub units_paid : String → Call server → Session → ℤ
  units_paid a (depositing req user) s = deposit_units a req user s
  units_paid a (registering _) s = pos 0
  units_paid a (listing_asset _) s = pos 0
  units_paid a (inactivating _) s = pos 0
  units_paid a (listing_market _) s = pos 0
  units_paid a (ordering _ _ _ _ _) s = pos 0
  units_paid a (cancelling _ _) s = pos 0

  unfoldable pub sum_paid : (Call server → Session → ℤ) → History server → Db → ℤ
  sum_paid paid [] db = pos 0
  sum_paid paid ((c, ticks) ∷ h) db =
      let s : Session = record { db = db; ticks = ticks } in
      paid c s +ℤ sum_paid paid h (serve server c s).db

  -- Eight decimals hold the products of a call, and of all calls of a history.
  abbrev pub ExactCall : Call server → Session → Type 0
  ExactCall (ordering req _ _ reads _) s =
      (r : CreateOrderRequest) → req ≡ some r → IsExact server (prepare r) reads
  ExactCall (cancelling id _) s = ReleasesWhole id s.db
  ExactCall (depositing _ _) s = Unit
  ExactCall (registering _) s = Unit
  ExactCall (listing_asset _) s = Unit
  ExactCall (inactivating _) s = Unit
  ExactCall (listing_market _) s = Unit

  unfoldable pub Exact : History server → Db → Type 0
  Exact [] db = Unit
  Exact ((c, ticks) ∷ h) db =
      let s : Session = record { db = db; ticks = ticks } in
      ExactCall c s × Exact h (serve server c s).db

  module _ (a : String) (numeric : IsNumeric f) where
    serve-Moved :
        (c : Call server) (s : Session)
        → ExactCall c s
        → OwnersExist s.db
        → Moved a (usd_paid c s) (units_paid a c s) s.db (serve server c s).db
    unfolding serve
    serve-Moved (depositing req user) s x v = deposit-paid a req user s
    serve-Moved (registering req) s x v =
        register_user-keeps _ (stored-Moved a s.db) req s (Moved-none a s.db)
    serve-Moved (listing_asset req) s x v =
        create_asset-keeps _ (stored-Moved a s.db) req s (Moved-none a s.db)
    serve-Moved (inactivating symbol) s x v =
        inactivate_asset-keeps _ (stored-Moved a s.db) symbol s (Moved-none a s.db)
    serve-Moved (listing_market req) s x v =
        create_market-keeps _ (stored-Moved a s.db) req s (Moved-none a s.db)
    serve-Moved (ordering req user clock reads st) s x v =
        Answered-Moved a s.db _ _
          (create_order-conserves a server numeric req user clock reads st s x v)
    serve-Moved (cancelling id st) s x v =
        Answered-Moved a s.db _ _ (cancel_order-conserves a server id st s x)

    replay-Moved :
        (h : History server) (db : Db)
        → Exact h db
        → OwnersExist db
        → Moved a (sum_paid usd_paid h db) (sum_paid (units_paid a) h db) db (replay server h db)
    unfolding sum_paid replay Exact
    replay-Moved [] db x v = Moved-none a db
    replay-Moved ((c, ticks) ∷ h) db (x, y) v =
        let s : Session = record { db = db; ticks = ticks } in
        Moved-trans a (usd_paid c s) (units_paid a c s) (sum_paid usd_paid h (serve server c s).db)
          (sum_paid (units_paid a) h (serve server c s).db) db (serve server c s).db
          (replay server h (serve server c s).db) (serve-Moved c s x v)
          (replay-Moved h (serve server c s).db y
            (serve-keeps server OwnersExist OwnersExist-IsKept c s v))

    -- After any registrations, deposits, new assets, inactivated assets, new markets, orders and
    -- cancellations in an empty database, one after another, whatever each is given and answers and
    -- wherever the database server fails (a commit that it answers with an error did not happen), where
    -- products keep signs, columns hold eight decimals, and these are enough for every product that an
    -- order or a cancellation writes: the USD of all users, available and locked, is the sum of the deposits of USD that were answered with success to
    -- users who are there, and the units of an asset in all balances, available and locked, are the sum
    -- of the deposits of that asset that were answered with success.
    pub replay-balances :
        (h : History server)
        → Exact h empty_db
        → let db = replay server h empty_db in
          (usd_total db ≡ sum_paid usd_paid h empty_db)
          × (asset_total a db ≡ sum_paid (units_paid a) h empty_db)
    unfolding usd_total asset_total
    replay-balances h x =
        let (d, e, _) = replay-Moved h empty_db x tt in
        (rw d (omega int_laws), rw e (omega int_laws))
