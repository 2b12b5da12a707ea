-- ===== src/Routes/Admin.antt =====
-- The routes behind VerifyAdmin, of internal/routes/balance.go and market.go.
use cex_go.Prelude.{
  ℕ, String, Bool-cases, inl, inr, ◌⊎◌, ◌≡◌, refl, Option, none, some, str_eq, not, if◌then◌else◌,
}
use cex_go.Prelude.Int.{ℤ}
use cex_go.Models.{User, CreateAssetRequest, CreateMarketRequest}
use cex_go.Database.{Db, Session, Result, ok, err}
use cex_go.Queries.Users.Found.{get_user_by_id-keeps}
use cex_go.Auth.{Claims, Jwt, validate_jwt}
use cex_go.Auth.Header.{second_part}
use cex_go.Controllers.{Handler, Outcome, refused, done, answer, after, refuse}
use cex_go.Controllers.Answers.{Answers}
use cex_go.Controllers.Assets.{create_asset, inactivate_asset}
use cex_go.Controllers.Markets.{create_market}
use cex_go.Middleware.{known_user, check_token, authenticate, verify_admin}
use cex_go.Middleware.Guard.{IsAdminBearer, verify_admin-Answers}
use cex_go.Routes.{admin_only, post_assets, patch_asset_inactivate, post_market}

answer-keeps :
    {A : Type 0} (status : ℕ) (r : Result A × Session) (db : Db)
    → r.1.db ≡ db
    → (answer status (λ _. r) r.1).1.db ≡ db
answer-keeps status (ok a, s) db h = h
answer-keeps status (err _, s) db h = h

module _ (jwt : Jwt) (secret : String) (now : ℤ) (header : String) where
  known_user-keeps : (c : Option Claims) (s : Session) → (known_user jwt secret now c s).1.db ≡ s.db
  known_user-keeps none s = refl
  known_user-keeps (some claims) s = get_user_by_id-keeps claims.user_id s

  check_token-keeps :
      (o : Option String) (s : Session) → (check_token jwt secret now o s).1.db ≡ s.db
  check_token-keeps none s = refl
  check_token-keeps (some token) s = known_user-keeps (validate_jwt jwt secret now token) s

  pub authenticate-keeps : (s : Session) → (authenticate jwt secret now header s).1.db ≡ s.db
  unfolding authenticate
  authenticate-keeps s = elim (Bool-cases (str_eq header "")) [
    | inl e ↦ rw e refl
    | inr e ↦ rw e (check_token-keeps (second_part header) s)
  ]

  admit-keeps :
      (m : Outcome User × Session) (db : Db)
      → m.1.db ≡ db
      → (after {B = ℕ × String} m λ user.
          if not (str_eq user.role "admin") then refuse 403 else λ s.
          (done (user.id, user.email), s)).1.db
        ≡ db
  admit-keeps (refused _, s) db h = h
  admit-keeps (done u, s) db h = elim (Bool-cases (str_eq u.role "admin")) [
    | inl e ↦ rw e h
    | inr e ↦ rw e h
  ]

  verify_admin-keeps : (s : Session) → (verify_admin jwt secret now header s).1.db ≡ s.db
  unfolding verify_admin
  verify_admin-keeps s =
      admit-keeps (authenticate jwt secret now header s) s.db (authenticate-keeps s)

  -- The database is as it was, or the request is an admin's.
  abbrev pub IsGuardedFrom : {A : Type 0} → Db → Outcome A × Session → Type 0
  IsGuardedFrom before (o, s) =
      (s.db ≡ before) ⊎ ((q : ℕ × String) × IsAdminBearer jwt secret now header before q)

  guarded-after :
      {A : Type 0} (before : Db) (m : Outcome (ℕ × String) × Session) (handler : Handler A)
      → m.1.db ≡ before
      → Answers (λ q db. (db ≡ before) × IsAdminBearer jwt secret now header before q) m
      → IsGuardedFrom before (after m λ _. handler)
  guarded-after before (refused _, s) handler h a = inl h
  guarded-after before (done q, s) handler h a = inr (q, a.1)

  admin_only-IsGuarded :
      {A : Type 0} (handler : Handler A) (s : Session)
      → IsGuardedFrom s.db (admin_only jwt secret now header handler s)
  admin_only-IsGuarded handler s =
      guarded-after s.db (verify_admin jwt secret now header s) handler (verify_admin-keeps s)
        (verify_admin-Answers jwt secret now header s)

  -- The routes that create an asset, take one out of use and create a market leave the database as it
  -- was, unless the request's header carries a token that is valid for a user who is in the database
  -- with the role of an admin.
  pub admin_routes-IsGuarded :
      (asset : Option CreateAssetRequest) (symbol : String) (market : Option CreateMarketRequest)
      (s : Session)
      → IsGuardedFrom s.db (post_assets jwt secret now header asset s)
        × IsGuardedFrom s.db (patch_asset_inactivate jwt secret now header symbol s)
        × IsGuardedFrom s.db (post_market jwt secret now header market s)
  unfolding post_assets patch_asset_inactivate post_market
  admin_routes-IsGuarded asset symbol market s = (
    admin_only-IsGuarded (create_asset asset) s,
    admin_only-IsGuarded (inactivate_asset symbol) s,
    admin_only-IsGuarded (create_market market) s,
  )
