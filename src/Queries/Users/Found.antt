-- ===== src/Queries/Users/Found.antt =====
-- What `GetUserByID` finds.
use cex_go.Prelude.{ℕ, ◌≡◌, refl, some, ap, false, List, ◌∷◌, String}
use cex_go.Models.{User}
use cex_go.Database.{Db, UserRow, Session, Tick, ok, ◌>>=◌, pure}
use cex_go.Database.Table.{select}
use cex_go.Database.Statement.{query_row}
use cex_go.Database.Ensures.{Ensures, Ensures-bind, query_row-Ensures}
use cex_go.Database.Keeping.{bind-keeps, query_row-keeps}
use cex_go.Database.Served.{session, query_row-served}
use cex_go.Queries.Balance.{of_user, put_users}
use cex_go.Queries.Users.{get_user_by_id, get_user_by_email, of_email}

-- A user as the table has it
abbrev pub user_of : ℕ → UserRow → User
user_of id r = record { id = id; email = r.email; role = r.role }

abbrev pub IsFound : ℕ → Db → User → Db → Type 0
IsFound id before u db =
    (db ≡ before) × (r : UserRow) × (select (of_user id) before.users ≡ some r) × (u ≡ user_of id r)

pub get_user_by_id-Ensures :
    (id : ℕ) (s : Session) → Ensures (IsFound id s.db) (get_user_by_id id s)
unfolding get_user_by_id
get_user_by_id-Ensures id s =
    Ensures-bind (λ r db. (db ≡ s.db) × (select (of_user id) s.db.users ≡ some r)) (IsFound id s.db)
      (query_row (λ db. db.users) put_users (of_user id))
      (λ r. pure (record { id = id; email = r.email; role = r.role })) s
      (query_row-Ensures (λ db. db.users) put_users (of_user id) s) λ r s' (e, k). (e, r, k, refl)

pub get_user_by_id-served :
    (id : ℕ) (db : Db) (t : Tick) (ts : List Tick) (r : UserRow)
    → t.fails ≡ false
    → select (of_user id) db.users ≡ some r
    → get_user_by_id id (session db (t ∷ ts))
      ≡ (ok (record { id = id; email = r.email; role = r.role }), session db ts)
unfolding get_user_by_id
get_user_by_id-served id db t ts r h e =
    ap (λ m. ((λ _. m) >>= λ r. pure (record { id = id; email = r.email; role = r.role })) m.1)
      (query_row-served (λ db. db.users) put_users db t ts (of_user id) r h e)

pub get_user_by_id-keeps : (id : ℕ) (s : Session) → (get_user_by_id id s).1.db ≡ s.db
unfolding get_user_by_id
get_user_by_id-keeps id s =
    bind-keeps s.db (query_row (λ db. db.users) put_users (of_user id))
      (λ r. pure (record { id = id; email = r.email; role = r.role })) s
      (query_row-keeps (λ db. db.users) put_users (of_user id) s) λ r s' h. h

pub get_user_by_email-keeps :
    (email : String) (s : Session) → (get_user_by_email email s).1.db ≡ s.db
unfolding get_user_by_email
get_user_by_email-keeps email s =
    bind-keeps s.db (query_row (λ db. db.users) put_users (of_email email))
      (λ r. pure (r.id, r.password_hash)) s
      (query_row-keeps (λ db. db.users) put_users (of_email email) s) λ r s' h. h
