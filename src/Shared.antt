-- ===== src/Shared.antt =====
-- packages/shared/src/index.ts: the data types that the services share. Optional fields are
-- `Option`; instants are milliseconds since the epoch.
pub mod Exams
pub mod Proctoring
pub mod Checks
pub mod Submissions
pub mod Invites
use big_project.Common.{ℕ, String, Bool, Option}

pub data UserRole : Type 0 where
  admin organization proctor candidate : UserRole

pub UserRole-discrete : Discrete UserRole
UserRole-discrete = hlevel

pub record Organization : Type 0 where
  pub id : String
  pub name : String
  pub join_code : Option String
  pub created_at : ℕ

pub record User : Type 0 where
  pub id : String
  pub email : String
  pub name : String
  pub role : UserRole
  pub organization_id : Option String
  pub created_at : ℕ

-- A missing `passwordChangeRequired` is `false`: the source only tests its truth.
pub record AuthSession : Type 0 where
  pub token : String
  pub user : User
  pub organization : Organization
  pub password_change_required : Bool
