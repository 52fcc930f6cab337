-- ===== src/Postgres/Users.antt =====
-- postgres/user_repository.go, over the table `users`.
use postulate.Base.{
  ℕ, suc, String, Bool, true, false, not, ◌&&◌, ◌||◌, Option, none, some, ◌∷◌, find, update, length,
  ◌==◌, text_Eq, nat_Eq, if◌then◌else◌,
}
use postulate.Base.Result.{Reply, M}
use postulate.Domain.{
  User, UserRole, UserStatus, zero_user, role_platform_admin, role_platform_member, status_active,
  status_suspended, status_pending_verification,
}
use postulate.Repository.{UserRepository}
use postulate.Postgres.{
  Db, pg_error, Written, refused, written, execute, scan_row, map_err, failed, unique_violation,
  check_violation, user_create, user_find_by_id, user_find_by_email, user_update, user_soft_delete,
  user_count_all,
}

-- CONSTRAINT users_role_check (migration 006) and users_status_check (migration 001).
abbrev pub role_check : UserRole → Bool
role_check r = r == role_platform_admin || r == role_platform_member

abbrev pub status_check : UserStatus → Bool
status_check s = s == status_active || s == status_suspended || s == status_pending_verification

abbrev pub has_id : ℕ → User → Bool
has_id id u = u.id == id

abbrev pub has_email : String → User → Bool
has_email email u = u.email == email

abbrev pub is_row : {A : Type 0} → Option A → Bool
is_row none = false
is_row (some a) = true

abbrev pub inserted_user : User → Db → User
inserted_user u db = record u {
  id = db.uuids db.drawn;
  created_at = db.clock;
  updated_at = db.clock;
  deleted_at = none;
}

-- INSERT INTO users … RETURNING id, created_at, updated_at
unfoldable pub insert_user : User → Db → Written User
insert_user u db =
    if not (role_check u.role && status_check u.status)
    then refused (pg_error check_violation)
    else if is_row (find (has_id (db.uuids db.drawn)) db.users)
        || is_row (find (has_email u.email) db.users)
    then refused (pg_error unique_violation)
    else written (record u { id = db.uuids db.drawn; created_at = db.clock; updated_at = db.clock })
        (record db { users = inserted_user u db ∷ db.users; drawn = suc db.drawn })

-- UserRepo.Create
unfoldable pub create_user : User → M Db User
create_user u = execute user_create (insert_user u)

-- UserRepo.FindByID
unfoldable pub find_user_by_id : ℕ → Db → Reply (Option User)
find_user_by_id id db = scan_row zero_user (db.fault user_find_by_id) (find (has_id id) db.users)

-- UserRepo.FindByEmail
unfoldable pub find_user_by_email : String → Db → Reply (Option User)
find_user_by_email email db =
    scan_row zero_user (db.fault user_find_by_email) (find (has_email email) db.users)

abbrev pub updated_user : User → Db → User → User
updated_user u db row = record row {
  email = u.email;
  email_verified = u.email_verified;
  password_hash = u.password_hash;
  full_name = u.full_name;
  role = u.role;
  status = u.status;
  updated_at = db.clock;
}

-- UPDATE users SET … WHERE id=$7. With no such row it does nothing; the constraints are those of
-- an insert, for the email against the other rows.
unfoldable pub set_user : User → Db → Written (Unit {0})
set_user u db =
    if not (is_row (find (has_id u.id) db.users))
    then written tt db
    else if not (role_check u.role && status_check u.status)
    then refused (pg_error check_violation)
    else if is_row (find (λ row. has_email u.email row && not (has_id u.id row)) db.users)
    then refused (pg_error unique_violation)
    else written tt (record db { users = update (has_id u.id) (updated_user u db) db.users })

-- UserRepo.Update
unfoldable pub update_user : User → M Db (Unit {0})
update_user u = execute user_update (set_user u)

abbrev pub deleted_user : Db → User → User
deleted_user db row = record row { deleted_at = some db.clock; updated_at = db.clock }

-- UserRepo.SoftDelete
unfoldable pub soft_delete_user : ℕ → M Db (Unit {0})
soft_delete_user id =
    execute user_soft_delete
      (λ db. written tt (record db { users = update (has_id id) (deleted_user db) db.users }))

-- UserRepo.CountAll: soft-deleted rows count too.
unfoldable pub count_all_users : Db → Reply ℕ
count_all_users db = elim (db.fault user_count_all) [
  | some e ↦ record { value = 0; error = some (map_err (failed e)) }
  | none ↦ record { value = length db.users; error = none }
]

abbrev pub user_repo : UserRepository Db
user_repo = record {
  create = create_user;
  find_by_id = find_user_by_id;
  find_by_email = find_user_by_email;
  update = update_user;
  soft_delete = soft_delete_user;
  count_all = count_all_users;
}
