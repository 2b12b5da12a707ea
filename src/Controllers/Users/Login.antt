-- ===== src/Controllers/Users/Login.antt =====
-- `RegisterUser` and then `LoginUser` of internal/controllers/users.go.
use cex_go.Prelude.{
  ℕ, String, Bool, none, some, true, false, ◌≡◌, ◌≢◌, refl, ap, List, ◌∷◌, ◌++◌, [], eq_refl, arith,
  ◌==◌,
}
use cex_go.Prelude.Int.{ℤ}
use cex_go.Models.{UserRegistrationRequest}
use cex_go.Database.{Db, UserRow, Tick, Session, Result, ok, err, ◌>>=◌, pure, user_check}
use cex_go.Database.Table.{select}
use cex_go.Database.Statement.{exec_insert}
use cex_go.Database.Ensures.{Ensures, Ensures-bind}
use cex_go.Database.Served.{session, query_row-served}
use cex_go.Database.Fresh.{IsFresh, exec_insert-Fresh, select-append, select-none}
use cex_go.Queries.Balance.{of_user, put_users}
use cex_go.Queries.Users.{new_user_row, of_email, same_user_key, create_user, get_user_by_email}
use cex_go.Queries.Users.Found.{get_user_by_id-served}
use cex_go.Auth.{Jwt, hash_password, check_password_hash, generate_jwt}
use cex_go.Controllers.Handlers.{done}
use mathlib.Core.Path.{subst}
use cex_go.Controllers.Answers.{Answers, after-Answers, answer-Answers}
use cex_go.Controllers.Users.{register_user, looked_up, login_user}

-- The user's row is the one that the database has for the email and for the id.
abbrev pub IsRegistered : UserRegistrationRequest → ℕ → Db → Type 0
IsRegistered req id db =
    (r : UserRow) × (select (of_email req.email) db.users ≡ some r)
    × (select (of_user id) db.users ≡ some r)
    × (r.id ≡ id)
    × (r.password_hash ≡ req.password)
    × (r.role ≡ "user")

-- The new row is the one that a clause finds which the unique keys settle.
found_new :
    (before db : Db) (row : UserRow) (p : UserRow → Bool)
    → select (same_user_key row) before.users ≡ none
    → db ≡ put_users before (before.users ++ (row ∷ []))
    → ((r : UserRow) → p r ≡ true → same_user_key row r ≡ true)
    → p row ≡ true
    → select p db.users ≡ some row
found_new before db row p n d h k =
    rw d (select-append p row before.users (select-none (same_user_key row) p before.users h n) k)

fresh-IsRegistered :
    (req : UserRegistrationRequest) (before db : Db) (row : UserRow) (t : Tick)
    → row ≡ new_user_row req.email req.password t
    → select (same_user_key row) before.users ≡ none
    → db ≡ put_users before (before.users ++ (row ∷ []))
    → IsRegistered req row.id db
fresh-IsRegistered req before db row t e n d =
    let email : row.email ≡ req.email = ap (λ r. r.email) e in
    (
      row,
      found_new before db row (of_email req.email) n d (λ r h. rw email (ground (arith, h)))
          (rw email (eq_refl req.email)),
      found_new before db row (of_user row.id) n d (λ r h. ground (arith, h)) (ground arith),
      refl,
      ap (λ r. r.password_hash) e,
      ap (λ r. r.role) e,
    )

pub create_user-IsRegistered :
    (req : UserRegistrationRequest) (s : Session)
    → Ensures (λ id db. IsRegistered req id db) (create_user req.email req.password s)
unfolding create_user
create_user-IsRegistered req s =
    Ensures-bind
      (IsFresh (λ db. db.users) put_users (new_user_row req.email req.password) user_check
        same_user_key (λ _ _. true) s.db)
      (λ id db. IsRegistered req id db)
      (exec_insert (λ db. db.users) put_users (new_user_row req.email req.password) user_check
        same_user_key λ _ _. true)
      (λ row. pure row.id) s
      (exec_insert-Fresh (λ db. db.users) put_users (new_user_row req.email req.password) user_check
        same_user_key (λ _ _. true) s)
      λ row s' (t, e, n, d). fresh-IsRegistered req s.db s'.db row t e n d

looked_up-Answers :
    (req : UserRegistrationRequest) (m : Result (ℕ × String) × Session)
    → Answers (λ (id, email) db. IsRegistered req id db × (email ≡ req.email)) (looked_up req m)
unfolding hash_password
looked_up-Answers req (ok _, s) = tt
looked_up-Answers req (err _, s) =
    after-Answers (λ id db. IsRegistered req id db)
      (λ (id, email) db. IsRegistered req id db × (email ≡ req.email)) _ _
      (answer-Answers (λ id db. IsRegistered req id db) 500 (create_user req.email req.password) s
        (create_user-IsRegistered req s))
      λ id s' h. (h, refl)

pub register_user-Answers :
    (req : UserRegistrationRequest) (s : Session)
    → Answers
        (λ (id, email) db. IsRegistered req id db × (email ≡ req.email))
        (register_user (some req) s)
unfolding register_user
register_user-Answers req s = looked_up-Answers req (get_user_by_email req.email s)

get_user_by_email-served :
    (email : String) (db : Db) (t : Tick) (ts : List Tick) (r : UserRow)
    → t.fails ≡ false
    → select (of_email email) db.users ≡ some r
    → get_user_by_email email (session db (t ∷ ts)) ≡ (ok (r.id, r.password_hash), session db ts)
unfolding get_user_by_email
get_user_by_email-served email db t ts r h e =
    ap (λ m. ((λ _. m) >>= λ r. pure (r.id, r.password_hash)) m.1)
      (query_row-served (λ db. db.users) put_users db t ts (of_email email) r h e)

nonzero_test : (id : ℕ) → id ≢ 0 → (id == 0) ≡ false
nonzero_test id z = ground (arith, z)

-- A login that is answered, for a user who is registered
login_user-served :
    (jwt : Jwt) (secret : String) (issued expiring : ℤ) (req : UserRegistrationRequest) (id : ℕ)
    (db : Db) (t u : Tick) (ts : List Tick) (token : String)
    → IsRegistered req id db
    → id ≢ 0
    → t.fails ≡ false
    → u.fails ≡ false
    → generate_jwt jwt secret issued expiring id req.email ≡ some token
    → login_user jwt secret issued expiring
        (some (record { email = req.email; password = req.password }))
        (session db (t ∷ u ∷ ts))
      ≡ (done (record { id = id; email = req.email; role = "user"; token = token }), session db ts)
unfolding login_user check_password_hash
login_user-served jwt secret issued expiring req id db t u ts token (r, e, i, d, h, o) z f g k =
    rw
      (
        get_user_by_email-served req.email db t (u ∷ ts) r f e,
        d,
        h,
        nonzero_test id z,
        eq_refl req.password,
        get_user_by_id-served id db u ts r g i,
        o,
        k,
      )
      refl

-- Who registers can log in: if `RegisterUser` answers with an id that is not empty, then `LoginUser`
-- with the same email and password, on two answers of the server that are no failures, and with a
-- token that can be signed, answers with that id, the role `user` and that token.
pub login_user-register_user :
    (jwt : Jwt) (secret : String) (issued expiring : ℤ) (req : UserRegistrationRequest) (id : ℕ)
    (email : String) (s s' : Session) (t u : Tick) (ts : List Tick) (token : String)
    → register_user (some req) s ≡ (done (id, email), s')
    → id ≢ 0
    → t.fails ≡ false
    → u.fails ≡ false
    → generate_jwt jwt secret issued expiring id req.email ≡ some token
    → login_user jwt secret issued expiring
        (some (record { email = req.email; password = req.password }))
        (session s'.db (t ∷ u ∷ ts))
      ≡ (
        done (record { id = id; email = req.email; role = "user"; token = token }),
        session s'.db ts,
      )
login_user-register_user jwt secret issued expiring req id email s s' t u ts token e z f g k =
    let registered =
      subst (Answers (λ (id, email) db. IsRegistered req id db × (email ≡ req.email))) e
        (register_user-Answers req s) in
    login_user-served jwt secret issued expiring req id s'.db t u ts token registered.0 z f g k
