-- ===== src/Examples/Accounts.antt =====
-- A user who registers, logs in, and asks for what only an admin may do.
use mathlib.Core.Path.{◌≡◌, refl, sym}
use mathlib.Core.Option.{some-injective}
use cex_go.Prelude.{
  String, Bool, Option, none, some, true, false, ◌&&◌, ◌==◌, [], ◌∷◌, str_eq, eq_iff, if◌then◌else◌,
  arith, Bool-cases, inl, inr, ℕ, ◌⊎◌,
}
use cex_go.Prelude.Int.{ℤ, pos, ◌+ℤ◌, eqb_ℤ, ltb_ℤ, ◌<ℤ◌, eq_of_parts}
use cex_go.Models.{UserRegistrationRequest, CreateAssetRequest}
use cex_go.Database.{Session, round_trip}
use cex_go.Database.Table.{select}
use cex_go.Database.Statement.{query_row, exec_insert}
use cex_go.Database.Served
use cex_go.Queries.Users.{create_user, get_user_by_email}
use cex_go.Auth.{Claims, Jwt, generate_jwt, hash_password, ten_days}
use cex_go.Auth.Header.{bearer}
use cex_go.Controllers.{done, Outcome}
use cex_go.Controllers.Users.{register_user, login_user, LoginResponse}
use cex_go.Controllers.Users.Login.{login_user-register_user}
use cex_go.Middleware.{verify_user}
use cex_go.Middleware.Session.{ReadsBack, verify_user-login_user}
use cex_go.Routes.{post_assets, patch_asset_inactivate, post_market}
use cex_go.Routes.Bearer.{IsServed, user_routes-IsServed}
use cex_go.Routes.{post_deposit, post_orders, put_cancel_order}
use cex_go.Controllers.Orders.{create_order, cancel_order}
use cex_go.Controllers.Deposits.{deposit}
use cex_go.Examples.Data.{seven_btc, request, book, fixed, hash_server, Hashes}
use cex_go.Routes.Admin.{IsGuardedFrom, admin_routes-IsGuarded}
use cex_go.Examples.Data.{tick, session}

abbrev ada : UserRegistrationRequest
ada = record { email = "ada@example.org"; password = "difference" }

-- The claims of the one token that is signed here
abbrev ada_claims : Claims
ada_claims = record {
  user_id = 51;
  email = "ada@example.org";
  subject = 51;
  issued_at = pos 1_700_000_000_000;
  expires_at = pos 1_700_864_000_000;
}

abbrev same_claims : Claims → Bool
same_claims c =
    (c.user_id == 51)
    && (str_eq c.email "ada@example.org"
        && ((c.subject == 51)
            && (eqb_ℤ c.issued_at (pos 1_700_000_000_000)
                && eqb_ℤ c.expires_at (pos 1_700_864_000_000))))

abbrev is_key : Option String → Bool
is_key none = false
is_key (some key) = str_eq key "secret"

abbrev one_token : Jwt
one_token = record {
  numeric_date = λ t. t;
  signed_string =
      λ c secret. if same_claims c && str_eq secret "secret" then some "token" else none;
  parse_with_claims = λ now token key.
      if str_eq token "token" && (is_key (key true) && ltb_ℤ now (pos 1_700_864_000_000))
      then some (ada_claims, true)
      else none;
}

same_claims-eq : (c : Claims) → same_claims c ≡ true → c ≡ ada_claims
same_claims-eq c h =
    let id : c.user_id ≡ 51 = ground (arith, h) in
    let mail : c.email ≡ "ada@example.org" =
      (eq_iff c.email "ada@example.org").0 (ground (arith, h)) in
    let sub : c.subject ≡ 51 = ground (arith, h) in
    let at : c.issued_at ≡ pos 1_700_000_000_000 =
      eq_of_parts c.issued_at (pos 1_700_000_000_000) (ground (arith, h)) in
    let until : c.expires_at ≡ pos 1_700_864_000_000 =
      eq_of_parts c.expires_at (pos 1_700_864_000_000) (ground (arith, h)) in
    λ i. record {
      user_id = id i;
      email = mail i;
      subject = sub i;
      issued_at = at i;
      expires_at = until i;
    }

-- What the signing of a token shows
signs :
    (c : Claims) (secret token : String)
    → one_token.signed_string c secret ≡ some token
    → (c ≡ ada_claims) × (secret ≡ "secret") × (token ≡ "token")
signs c secret token h = elim (Bool-cases (same_claims c && str_eq secret "secret")) [
  | inr e ↦ absurd (cc (rw e at h))
  | inl e ↦ (
    same_claims-eq c (ground (arith, e)),
    (eq_iff secret "secret").0 (ground (arith, e)),
    sym (some-injective "token" token (rw e at h)),
  )
]

one_token-ReadsBack : ReadsBack one_token
one_token-ReadsBack c secret token key now h k l =
    let (claims, name, text) = signs c secret token h in
    let soon : now <ℤ ada_claims.expires_at = rw claims at l in
    let valid : ltb_ℤ now (pos 1_700_864_000_000) ≡ true = ground (arith, soon) in
    rw (text, k, name, valid, claims) refl

abbrev registered : Session
registered = (register_user (some ada) session).1

registers : register_user (some ada) session ≡ (done (51, "ada@example.org"), registered)
unfolding register_user get_user_by_email create_user query_row exec_insert round_trip select
    hash_password
registers = refl

in_time : pos 1_700_000_500_000 <ℤ one_token.numeric_date (pos 1_700_000_000_000 +ℤ ten_days)
unfolding ◌+ℤ◌
in_time = omega arith

signed :
    generate_jwt one_token "secret"
      (pos 1_700_000_000_000)
      (pos 1_700_000_000_000)
      51
      "ada@example.org"
    ≡ some "token"
unfolding generate_jwt ◌+ℤ◌
signed = refl

abbrev logged_in : LoginResponse
logged_in = record { id = 51; email = "ada@example.org"; role = "user"; token = "token" }

abbrev issued_at : ℤ
issued_at = pos 1_700_000_000_000

login_user-register_user_example :
    login_user one_token "secret" issued_at issued_at
      (some (record { email = ada.email; password = ada.password }))
      (Served.session registered.db (tick 90 ∷ tick 91 ∷ []))
    ≡ (done logged_in, Served.session registered.db [])
login_user-register_user_example =
    login_user-register_user one_token "secret" issued_at issued_at ada 51 "ada@example.org" session
      registered (tick 90) (tick 91) [] "token" registers (omega arith) refl refl signed

verify_user-login_user_example :
    (email : String) × (verify_user one_token "secret"
        (pos 1_700_000_500_000)
        (bearer "token")
        (Served.session registered.db (tick 92 ∷ []))
      ≡ (done (51, email), Served.session registered.db []))
verify_user-login_user_example =
    verify_user-login_user one_token one_token-ReadsBack "secret" issued_at issued_at
      (pos 1_700_000_500_000) (record { email = ada.email; password = ada.password }) logged_in
      (Served.session registered.db (tick 90 ∷ tick 91 ∷ [])) (Served.session registered.db [])
      (tick 92) [] login_user-register_user_example refl in_time refl

abbrev ether : CreateAssetRequest
ether = record { symbol = "ETH"; name = "Ether"; icon_url = "" }

-- Ada, who is no admin, asks for a new asset.
admin_routes-IsGuarded_example :
    IsGuardedFrom one_token "secret" (pos 1_700_000_500_000) (bearer "token") registered.db (
      post_assets one_token "secret"
        (pos 1_700_000_500_000)
        (bearer "token")
        (some ether)
        registered)
    × IsGuardedFrom one_token "secret" (pos 1_700_000_500_000) (bearer "token") registered.db (
        patch_asset_inactivate one_token "secret"
          (pos 1_700_000_500_000)
          (bearer "token")
          "BTC"
          registered)
    × IsGuardedFrom one_token "secret"
        (pos 1_700_000_500_000)
        (bearer "token")
        registered.db
        (post_market one_token "secret" (pos 1_700_000_500_000) (bearer "token") none registered)
admin_routes-IsGuarded_example =
    admin_routes-IsGuarded one_token "secret" (pos 1_700_000_500_000) (bearer "token") (some ether)
      "BTC" none registered

abbrev later : ℤ
later = pos 1_700_000_500_000

abbrev deposited : Outcome (Unit {0}) × Session
deposited = post_deposit one_token "secret" later (bearer "token") (some seven_btc) registered

abbrev ordered : Outcome ℕ × Session × Hashes
ordered =
    post_orders one_token "secret" later (bearer "token") hash_server ⦃f = fixed⦄ (some request)
      later [] book registered

abbrev withdrawn : Outcome (Unit {0}) × Session × Hashes
withdrawn =
    put_cancel_order one_token "secret" later (bearer "token") hash_server ⦃f = fixed⦄ 20 book
      registered

-- The database of a request of Ada's that is refused, or the answer of the handler to it
abbrev ServedAda : {B : Type 0} → (ℕ → Session → B) → B → Type 0
ServedAda = IsServed one_token "secret" later (bearer "token") registered.db

user_routes-IsServed_example :
    ((deposited.1.db ≡ registered.db)
      ⊎ ServedAda (λ user. deposit (some seven_btc) (some user)) deposited)
    × ((let (_, s, st) = ordered in (s.db ≡ registered.db) × (st ≡ book))
        ⊎ ServedAda
            (λ user. create_order hash_server ⦃f = fixed⦄ (some request) (some user) later [] book)
            ordered)
    × ((let (_, s, st) = withdrawn in (s.db ≡ registered.db) × (st ≡ book))
        ⊎ ServedAda (λ _. cancel_order hash_server ⦃f = fixed⦄ 20 book) withdrawn)
user_routes-IsServed_example =
    user_routes-IsServed one_token "secret" later (bearer "token") hash_server ⦃f = fixed⦄
      (some seven_btc) (some request) later [] 20 book registered
