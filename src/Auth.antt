-- ===== src/Auth.antt =====
-- apps/api/src/services/auth.service.ts: `AuthService` on its database path, with the session
-- registry of Sessions.antt. `UserTable` is what the service takes from the database client: the user
-- rows, found by identifier and by email and updated by identifier. A `Runtime` holds the password
-- functions, which PasswordHash.antt models over code points, and the environment. Each operation
-- reads the clock once. A method returns the state that it leaves, also where it throws.
pub mod Table
pub mod Login
pub mod Account
pub mod SignIn
pub mod Credentials
pub mod Lockout
pub mod Access
pub mod PasswordChange
mod Tests
use big_project.Common.{
  ℕ, zero, suc, ◌+◌, ◌-◌, ◌*◌, ◌/◌, ◌%◌, ◌≤◌, ◌<◌, min, max, String, ◌≡◌, refl, sym, ap, subst, ◌∙◌,
  ◌≢◌, ◌↔◌, ◌⊎◌, inl, inr, Bool, true, false, not, ◌&&◌, ◌||◌, Option, none, some, List, [], ◌∷◌,
  ◌++◌, map, arith, eq_iff, eq_refl, ◌=ₛ◌, ltb, leb, ◌==◌, if◌then◌else◌, ltb→lt, lt→ltb, le→leb,
  Bool-cases, Option-cases, length, find, filter, any, all, head?, length-append, length-filter-le,
  find-passes, All, All-append, All-filter, is_empty, before, includes_char,
}
use big_project.Common.Result.{
  Result, ok, throw, Exception, bad_request, unauthorized, forbidden, not_found, conflict,
  too_many_requests, service_unavailable, ◌>>=◌, ◌>>◌, throw_if, or_throw,
}
use big_project.Shared.{UserRole, User, Organization, AuthSession}
use big_project.Sessions.{Registry}
use big_project.Sessions
use mathlib.Core.Option
use Table.{UserRow, UserTable, OrganizationRow}

abbrev pub failed_login_limit : ℕ
failed_login_limit = 5

abbrev pub account_lock_duration_ms : ℕ
account_lock_duration_ms = 15 * 60 * 1000

abbrev pub password_lifetime_ms : ℕ
password_lifetime_ms = 90 * 24 * 60 * 60 * 1000

-- `undefined` and the empty text are falsy.
abbrev pub truthy : Option String → Option String
truthy none = none
truthy (some s) = if is_empty s then none else some s

pub record Runtime : Type 0 where
  pub password_matches : String → String → Bool
  pub hash_needs_upgrade : String → Bool
  -- `createPasswordHash`, with its salt drawn.
  pub create_hash : String → String
  pub is_strong : String → Bool
  pub trim : String → String
  pub to_lower_case : String → String
  pub utf16_length : String → ℕ
  -- `databaseAvailable()`.
  pub database_available : Bool

pub record LoginInput : Type 0 where
  pub email : String
  pub password : String

pub record ChangePasswordInput : Type 0 where
  pub current_password : String
  pub new_password : String

pub data LoginResult : Type 0 where
  success : UserRow → Bool → LoginResult
  invalid_credentials : LoginResult

-- A password is due for a change 90 days after the last one. The source subtracts from the clock
-- and compares; the sum is the same test.
abbrev pub password_expired : UserRow → ℕ → Bool
password_expired user now =
    leb (Option.get_or user.password_changed_at user.created_at + password_lifetime_ms) now

abbrev pub must_change : UserRow → ℕ → Bool
must_change user now = user.password_change_required || password_expired user now

-- What one attempt writes into the row.
abbrev pub unlock : UserRow → UserRow
unlock user = record user { failed_login_attempts = 0; locked_until = none }

abbrev pub count_failure : UserRow → UserRow
count_failure user = record user { failed_login_attempts = user.failed_login_attempts + 1 }

abbrev pub lock : ℕ → UserRow → UserRow
lock now user = record user { locked_until = some (now + account_lock_duration_ms) }

abbrev pub is_locked : UserRow → ℕ → Bool
is_locked user now = elim user.locked_until [ none ↦ false | some until ↦ ltb now until ]

abbrev pub was_locked : UserRow → Bool
was_locked user = elim user.locked_until [ none ↦ false | some until ↦ true ]

-- `parseLoginInput`, behind the checks of the input's types.
unfoldable pub parse_login_input : Runtime → LoginInput → Result LoginInput
parse_login_input rt input =
    let email = rt.to_lower_case (rt.trim input.email) in
    if is_empty email
      || ltb 320 (rt.utf16_length email)
      || not (includes_char b'@' email)
      || rt.utf16_length input.password == 0
      || ltb 256 (rt.utf16_length input.password)
    then throw unauthorized
    else ok (record { email = email; password = input.password })

-- `toUser`, and the organization that is joined to the row.
abbrev pub to_user : UserRow → User
to_user u = record {
  id = u.id;
  email = u.email;
  name = u.name;
  role = u.role;
  organization_id = u.organization_id;
  created_at = u.created_at;
}

abbrev pub unaffiliated_organization : Organization
unaffiliated_organization = record { id = ""; name = "소속 없음"; join_code = none; created_at = 0 }

abbrev pub organization_of : UserRow → Organization
organization_of u = elim u.organization [
  | none ↦ unaffiliated_organization
  | some o ↦ record {
    id = o.id;
    name = o.name;
    join_code = some o.join_code;
    created_at = o.created_at;
  }
]

module _ (users : UserTable) where
  open users use {Db}

  pub record State : Type 0 where
    pub db : Db
    pub registry : Registry

  abbrev pub Run : Type 0 → Type 0
  Run A = State × Result A

  -- `createSession`, given the token drawn.
  unfoldable pub create_session : State → ℕ → String → User → Organization → State × AuthSession
  create_session s now token user organization =
      let session : AuthSession = record {
        token = token;
        user = user;
        organization = organization;
        password_change_required = false;
      } in
      (record s { registry = Sessions.set s.registry now token session }, session)
