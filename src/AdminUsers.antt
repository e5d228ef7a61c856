-- ===== src/AdminUsers.antt =====
-- apps/api/src/services/admin-users.service.ts: `AdminUsersService`, the accounts that operators and
-- organization administrators manage. The database is a parameter, `AccountTable`. A `Request` says
-- whether the database is configured, and at which of its calls the client throws: such a call
-- changes nothing.
pub mod Table
pub mod Tenancy
pub mod LastAdmin
mod Tests
use big_project.Common.{
  ℕ, zero, suc, ◌+◌, ◌-◌, ◌*◌, ◌/◌, ◌%◌, ◌≤◌, ◌<◌, min, max, String, ◌≡◌, refl, sym, ap, subst, ◌∙◌,
  ◌≢◌, ◌↔◌, ◌⊎◌, inl, inr, Bool, true, false, not, ◌&&◌, ◌||◌, Option, none, some, List, [], ◌∷◌,
  ◌++◌, map, arith, eq_iff, eq_refl, ◌=ₛ◌, ltb, leb, ◌==◌, if◌then◌else◌, ltb→lt, lt→ltb, le→leb,
  Bool-cases, Option-cases, length, find, filter, any, all, head?, length-append, length-filter-le,
  find-passes, All, All-append, All-filter, is_empty, before, includes_char,
}
use big_project.Common.Result.{
  Result, ok, throw, Exception, bad_request, unauthorized, forbidden, not_found, conflict,
  too_many_requests, service_unavailable, ◌>>=◌, ◌>>◌, throw_if, or_throw, Result-cases,
}
use big_project.Shared.{
  UserRole, admin, organization, proctor, candidate, User, Organization, AuthSession,
}
use mathlib.Core.Option
use big_project.Auth.Table.{UserRow}
use big_project.Auth.{truthy, to_user}
use Table.{is_admin, AccountTable}

pub record UpdateAdminUserInput : Type 0 where
  pub name : String
  pub email : String
  pub role : UserRole
  pub organization_id : Option String

-- What `parseUpdateUserInput` returns.
pub record ParsedUpdate : Type 0 where
  pub name : String
  pub email : String
  pub role : UserRole
  pub organization_id : String

pub record Request : Type 0 where
  pub trim : String → String
  pub to_lower_case : String → String
  pub database_available : Bool
  pub target_fails : Bool
  pub email_fails : Bool
  pub write_fails : Bool

unfoldable pub parse_editable_role : UserRole → UserRole → Result UserRole
parse_editable_role admin admin = ok admin
parse_editable_role admin organization = ok organization
parse_editable_role admin proctor = ok proctor
parse_editable_role admin candidate = throw bad_request
parse_editable_role organization admin = throw forbidden
parse_editable_role organization organization = ok organization
parse_editable_role organization proctor = ok proctor
parse_editable_role organization candidate = throw forbidden
parse_editable_role proctor role = throw forbidden
parse_editable_role candidate role = throw forbidden

-- The organization that the account is put into: an operator chooses it.
abbrev pub target_organization : Request → AuthSession → UpdateAdminUserInput → Option String
target_organization request session input = truthy (
    if is_admin session.user.role
    then Option.map request.trim input.organization_id
    else some session.organization.id)

unfoldable pub parse_update_user_input :
    Request → AuthSession → UpdateAdminUserInput → Result ParsedUpdate
unfolding parse_editable_role
parse_update_user_input request session input =
    let name = request.trim input.name in
    let email = request.to_lower_case (request.trim input.email) in
    elim (parse_editable_role session.user.role input.role) [
      | throw e ↦ throw e
      | ok role ↦ elim (target_organization request session input) [
        | none ↦ throw bad_request
        | some organization_id ↦
            if is_empty name || is_empty email || not (includes_char b'@' email)
            then throw bad_request
            else ok (record {
              name = name;
              email = email;
              role = role;
              organization_id = organization_id;
            })
      ]
    ]

abbrev pub is_of : Option String → String → Bool
is_of none id = false
is_of (some organization_id) id = organization_id =ₛ id

abbrev pub apply_update : ParsedUpdate → UserRow → UserRow
apply_update parsed u = record u {
  name = parsed.name;
  email = parsed.email;
  role = parsed.role;
  organization_id = some parsed.organization_id;
}

-- Whether the row found by the new email is of another account.
abbrev pub is_taken : Option UserRow → String → Bool
is_taken none id = false
is_taken (some u) id = not (u.id =ₛ id)

module _ (table : AccountTable) (request : Request) where
  open table use {Db, find_by_id, find_by_email, count_admins, update, delete, delete_invitations}

  -- The second half of `updateManagedUser`: the email must be free, then the row is written, and the
  -- answer is the row as it is then. The client fails where there is no row to write.
  unfoldable pub write_update : Db → String → ParsedUpdate → Db × Result User
  write_update db user_id parsed =
      if request.email_fails
      then (db, throw service_unavailable)
      else if is_taken (find_by_email db parsed.email) user_id
      then (db, throw conflict)
      else if request.write_fails
      then (db, throw service_unavailable)
      else elim (find_by_id (update db user_id (apply_update parsed)) user_id) [
        | none ↦ (db, throw service_unavailable)
        | some user ↦ (update db user_id (apply_update parsed), ok (to_user user))
      ]

  -- The account is found, the input parsed: who may change it.
  unfoldable pub update_target :
      Db → AuthSession → String → UserRow → ParsedUpdate → Db × Result User
  unfolding write_update
  update_target db session user_id target parsed =
      if not (is_admin session.user.role)
        && not (is_of target.organization_id session.organization.id)
      then (db, throw forbidden)
      else if is_admin target.role && not (is_admin session.user.role)
      then (db, throw forbidden)
      else write_update db user_id parsed

  unfoldable pub update_managed_user :
      Db → AuthSession → String → UpdateAdminUserInput → Db × Result User
  unfolding update_target
  update_managed_user db session user_id input =
      if not request.database_available || request.target_fails
      then (db, throw service_unavailable)
      else elim (find_by_id db user_id) [
        | none ↦ (db, throw bad_request)
        | some target ↦ elim (parse_update_user_input request session input) [
          | throw e ↦ (db, throw e)
          | ok parsed ↦ update_target db session user_id target parsed
        ]
      ]

  -- The transaction of `deleteManagedUser`.
  unfoldable pub delete_transaction : Db → AuthSession → String → Db × Result String
  delete_transaction db session user_id = elim (find_by_id db session.user.id) [
    | none ↦ (db, throw forbidden)
    | some actor ↦
        if not (is_admin actor.role) || actor.id =ₛ user_id
        then (db, throw forbidden)
        else elim (find_by_id db user_id) [
          | none ↦ (db, throw bad_request)
          | some target ↦
              if is_admin target.role && leb (count_admins db) 1
              then (db, throw conflict)
              else (delete (delete_invitations db user_id) user_id, ok target.id)
        ]
  ]

  -- A client error rolls the transaction back.
  unfoldable pub delete_managed_user : Db → AuthSession → String → Db × Result String
  unfolding delete_transaction
  delete_managed_user db session user_id =
      if not request.database_available || request.write_fails
      then (db, throw service_unavailable)
      else delete_transaction db session user_id
