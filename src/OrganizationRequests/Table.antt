-- ===== src/OrganizationRequests/Table.antt =====
-- What the service for organization requests takes from the database client: two tables, whose
-- laws say that a row is updated by its identifier and that nothing else changes.
use big_project.Common.{ℕ, String, ◌≡◌, ◌≢◌, Option, some}
use big_project.Shared.{UserRole}
use big_project.Auth.Table.{UserRow}

pub data RequestStatus : Type 0 where
  pending approved rejected : RequestStatus

pub record RequestRow : Type 0 where
  pub id : String
  pub user_id : String
  pub organization_id : String
  pub requested_role : UserRole
  pub reason : String
  pub status : RequestStatus
  pub rejection_reason : Option String
  pub reviewed_by_id : Option String
  pub reviewed_at : Option ℕ

pub record RequestTables : Type 1 where
  pub Db : Type 0
  pub find_request : Db → String → Option RequestRow
  pub find_user : Db → String → Option UserRow
  -- A request of the user that is pending.
  pub find_pending : Db → String → Option RequestRow
  -- The identifier of the organization with a join code.
  pub find_organization : Db → String → Option String
  pub create_request : Db → RequestRow → Db
  pub update_user : Db → String → (UserRow → UserRow) → Db
  pub update_request : Db → String → (RequestRow → RequestRow) → Db
  pub find_request-id :
      (db : Db) (id : String) (row : RequestRow) → find_request db id ≡ some row → row.id ≡ id
  pub find_request-update_request :
      (db : Db) (id : String) (f : RequestRow → RequestRow) (row : RequestRow)
      → ((r : RequestRow) → (f r).id ≡ r.id)
      → find_request db id ≡ some row
      → find_request (update_request db id f) id ≡ some (f row)
  pub find_request-update_user :
      (db : Db) (id request : String) (f : UserRow → UserRow)
      → find_request (update_user db id f) request ≡ find_request db request
  pub find_user-update_request :
      (db : Db) (id user : String) (f : RequestRow → RequestRow)
      → find_user (update_request db id f) user ≡ find_user db user
  pub find_user-update_user :
      (db : Db) (id : String) (f : UserRow → UserRow) (u : UserRow)
      → ((v : UserRow) → ((f v).id ≡ v.id))
      → find_user db id ≡ some u
      → find_user (update_user db id f) id ≡ some (f u)
  pub find_user-update_user_other :
      (db : Db) (id other : String) (f : UserRow → UserRow)
      → id ≢ other
      → find_user (update_user db id f) other ≡ find_user db other
