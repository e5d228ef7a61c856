-- ===== src/Auth/Table.antt =====
-- The user rows of the database, as the services use them, and the table interface. The laws are
-- what the database client documents of unique keys and of an update by identifier.
use big_project.Common.{ℕ, String, ◌≡◌, ◌≢◌, Bool, Option, some}
use big_project.Shared.{UserRole}

pub record OrganizationRow : Type 0 where
  pub id : String
  pub name : String
  pub join_code : String
  pub created_at : ℕ

-- A row, with the organization that `include` joins to it.
pub record UserRow : Type 0 where
  pub id : String
  pub email : String
  pub name : String
  pub role : UserRole
  pub organization_id : Option String
  pub organization : Option OrganizationRow
  pub password_hash : String
  pub failed_login_attempts : ℕ
  pub locked_until : Option ℕ
  pub password_changed_at : Option ℕ
  pub password_change_required : Bool
  pub created_at : ℕ

-- What every update of the services keeps: the row's keys.
abbrev pub Keeps : (UserRow → UserRow) → Type 0
Keeps f = (v : UserRow) → ((f v).id ≡ v.id) × ((f v).email ≡ v.email)

pub record UserTable : Type 1 where
  pub Db : Type 0
  pub find_by_id : Db → String → Option UserRow
  pub find_by_email : Db → String → Option UserRow
  pub update : Db → String → (UserRow → UserRow) → Db
  pub find-id : (db : Db) (i : String) (u : UserRow) → find_by_id db i ≡ some u → u.id ≡ i
  -- A row found by email is the row of its identifier.
  pub unique_email :
      (db : Db) (email : String) (u : UserRow)
      → find_by_email db email ≡ some u
      → find_by_id db u.id ≡ some u
  -- An update changes the row of its identifier alone.
  pub find-update :
      (db : Db) (id : String) (f : UserRow → UserRow) (u : UserRow)
      → Keeps f
      → find_by_id db id ≡ some u
      → find_by_id (update db id f) id ≡ some (f u)
  pub find-update_other :
      (db : Db) (id j : String) (f : UserRow → UserRow)
      → id ≢ j
      → find_by_id (update db id f) j ≡ find_by_id db j
  pub email-update :
      (db : Db) (email : String) (f : UserRow → UserRow) (u : UserRow)
      → Keeps f
      → find_by_email db email ≡ some u
      → find_by_email (update db u.id f) email ≡ some (f u)
