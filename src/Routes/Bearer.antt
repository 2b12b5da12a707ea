-- ===== src/Routes/Bearer.antt =====
-- The routes behind VerifyUser, of internal/routes/balance.go and order.go.
use cex_go.Prelude.{ℕ, String, ◌⊎◌, inl, inr, ◌≡◌, refl, Option, List, some}
use cex_go.Prelude.Int.{ℤ}
use cex_go.Float.{Float64}
use cex_go.Models.{User, CreateOrderRequest}
use cex_go.Database.{Db, Session}
use cex_go.Redis.{Server}
use cex_go.Matching.{Read}
use cex_go.Auth.{Jwt}
use cex_go.Controllers.{Handler, Outcome, refused, done, after}
use cex_go.Controllers.Answers.{Answers, after-Answers}
use cex_go.Controllers.Deposits.{DepositRequest, deposit}
use cex_go.Controllers.Orders.{create_order, cancel_order}
use cex_go.Middleware.{authenticate, verify_user}
use cex_go.Middleware.Guard.{IsBearer, authenticate-Answers}
use cex_go.Routes.{post_deposit, post_orders, put_cancel_order, with_store}
use cex_go.Routes.Admin.{authenticate-keeps}

module _ (jwt : Jwt) (secret : String) (now : ℤ) (header : String) where
  -- A token that is valid for the user with this id
  abbrev pub IsFrom : Db → ℕ → Type 0
  IsFrom db id = (u : User) × IsBearer jwt secret now header db u × (u.id ≡ id)

  verify_user-Answers :
      (s : Session)
      → Answers (λ q db. (db ≡ s.db) × IsFrom s.db q.0) (verify_user jwt secret now header s)
  unfolding verify_user
  verify_user-Answers s =
      after-Answers (λ u db. (db ≡ s.db) × IsBearer jwt secret now header s.db u)
        (λ q db. (db ≡ s.db) × IsFrom s.db q.0) (authenticate jwt secret now header s) _
        (authenticate-Answers jwt secret now header s) λ u s' (e, b). (e, (u, b, refl))

  verify_user-keeps : (s : Session) → (verify_user jwt secret now header s).1.db ≡ s.db
  unfolding verify_user
  verify_user-keeps s =
      passed (authenticate jwt secret now header s) s.db
        (authenticate-keeps jwt secret now header s)
    where
      passed :
          (m : Outcome User × Session) (db : Db)
          → m.1.db ≡ db
          → (after {B = ℕ × String} m λ u s. (done (u.id, u.email), s)).1.db ≡ db
      passed (refused _, s) db h = h
      passed (done u, s) db h = h

  -- The answer is that of the handler for the user of the request's token, in the same database.
  abbrev pub IsServed : {B : Type 0} → Db → (ℕ → Session → B) → B → Type 0
  IsServed before handler answer =
      (user : ℕ) × (s : Session) × IsFrom before user × (s.db ≡ before) × (answer ≡ handler user s)

  handler-IsServed :
      {A : Type 0} (before : Db) (m : Outcome (ℕ × String) × Session)
      (handler : Option ℕ → Handler A)
      → m.1.db ≡ before
      → Answers (λ q db. (db ≡ before) × IsFrom before q.0) m
      → ((after m λ (user, email). handler (some user)).1.db ≡ before)
        ⊎ IsServed before
            (λ user. handler (some user))
            (after m λ (user, email). handler (some user))
  handler-IsServed before (refused _, s) handler h a = inl h
  handler-IsServed before (done (user, email), s) handler h (e, f) = inr (user, s, f, e, refl)

  module _ (server : Server) where
    open server use {Store}

    store-IsServed :
        {A : Type 0} (before : Db) (m : Outcome (ℕ × String) × Session) (st : Store)
        (k : ℕ → Session → Outcome A × Session × Store)
        → m.1.db ≡ before
        → Answers (λ q db. (db ≡ before) × IsFrom before q.0) m
        → (let (_, s', st') = with_store jwt secret now header server m st k in
            (s'.db ≡ before) × (st' ≡ st))
          ⊎ IsServed before k (with_store jwt secret now header server m st k)
    store-IsServed before (refused _, s) st k h a = inl (h, refl)
    store-IsServed before (done (user, email), s) st k h (e, f) = inr (user, s, f, e, refl)

    -- The routes that deposit, place an order and cancel an order leave the database as it was, and
    -- the latter two Redis, unless the request's header carries a token that is valid for a user who is
    -- in the database; then the answer is that of the handler, run in that database, for that user.
    pub user_routes-IsServed :
        ⦃f : Float64⦄ (money : Option DepositRequest) (req : Option CreateOrderRequest) (clock : ℤ)
        (reads : List (Read Store)) (id : ℕ) (st : Store) (s : Session)
        → (((post_deposit jwt secret now header money s).1.db ≡ s.db)
            ⊎ IsServed s.db
                (λ user. deposit money (some user))
                (post_deposit jwt secret now header money s))
          × ((let (_, s', st') = post_orders jwt secret now header server req clock reads st s in
                (s'.db ≡ s.db) × (st' ≡ st))
              ⊎ IsServed s.db
                  (λ user. create_order server req (some user) clock reads st)
                  (post_orders jwt secret now header server req clock reads st s))
          × ((let (_, s', st') = put_cancel_order jwt secret now header server id st s in
                (s'.db ≡ s.db) × (st' ≡ st))
              ⊎ IsServed s.db
                  (λ _. cancel_order server id st)
                  (put_cancel_order jwt secret now header server id st s))
    unfolding post_deposit post_orders put_cancel_order
    user_routes-IsServed money req clock reads id st s =
        let m = verify_user jwt secret now header s in
        let keeps = verify_user-keeps s in
        let found = verify_user-Answers s in
        (
          handler-IsServed s.db m (deposit money) keeps found,
          store-IsServed s.db m st (λ user. create_order server req (some user) clock reads st)
              keeps found,
          store-IsServed s.db m st (λ _. cancel_order server id st) keeps found,
        )
