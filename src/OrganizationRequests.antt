-- ===== src/OrganizationRequests.antt =====
-- apps/api/src/services/organization-requests.service.ts: `OrganizationRequestsService`. A review
-- reads the request and decides outside the transaction that writes: `check_review` is the first
-- part, `commit_review` the second, and other reviews may come between the two. The database is a
-- parameter, `RequestTables`; a row that is missing where an update needs it is the client's own
-- error, and rolls the transaction back.
pub mod Table
pub mod Allowed
pub mod Review
pub mod Race
mod Tests
use big_project.Common.{
  ℕ, zero, suc, ◌+◌, ◌-◌, ◌*◌, ◌/◌, ◌%◌, ◌≤◌, ◌<◌, min, max, String, ◌≡◌, refl, sym, ap, subst, ◌∙◌,
  ◌≢◌, ◌↔◌, ◌⊎◌, inl, inr, Bool, true, false, not, ◌&&◌, ◌||◌, Option, none, some, List, [], ◌∷◌,
  ◌++◌, map, arith, eq_iff, eq_refl, ◌=ₛ◌, ltb, leb, ◌==◌, if◌then◌else◌, ltb→lt, lt→ltb, le→leb,
  Bool-cases, Option-cases, length, find, filter, any, all, head?, length-append, length-filter-le,
  find-passes, All, All-append, All-filter, is_empty, before, includes_char,
}
use big_project.Common.Result.{
  Result, ok, throw, Exception, bad_request, unauthorized, forbidden, not_found, conflict,
  too_many_requests, service_unavailable, ◌>>=◌, ◌>>◌, throw_if, or_throw, Result-cases,
  internal_server_error,
}
use big_project.Shared.{UserRole, admin, organization, proctor, candidate, User, AuthSession}
use mathlib.Core.Option
use big_project.Auth.{truthy}
use big_project.Auth.Table.{UserRow}
use big_project.AdminUsers.Table.{is_admin}
use Table.{RequestStatus, pending, approved, rejected, RequestRow, RequestTables}

pub record CreateInput : Type 0 where
  pub join_code : String
  pub requested_role : UserRole
  pub reason : String

pub record ReviewInput : Type 0 where
  pub action : String
  pub rejection_reason : Option String

pub data Action : Type 0 where
  approve : Action
  reject : String → Action

pub record Host : Type 0 where
  pub trim : String → String
  pub to_upper_case : String → String
  pub database_available : Bool

abbrev pub is_candidate : UserRole → Bool
is_candidate candidate = true
is_candidate admin = false
is_candidate organization = false
is_candidate proctor = false

abbrev pub is_organization : UserRole → Bool
is_organization organization = true
is_organization admin = false
is_organization proctor = false
is_organization candidate = false

abbrev pub is_proctor : UserRole → Bool
is_proctor proctor = true
is_proctor admin = false
is_proctor organization = false
is_proctor candidate = false

abbrev pub is_pending : RequestStatus → Bool
is_pending pending = true
is_pending approved = false
is_pending rejected = false

unfoldable pub parse_create_input : Host → CreateInput → Result CreateInput
parse_create_input host input =
    let join_code = host.to_upper_case (host.trim input.join_code) in
    let reason = host.trim input.reason in
    if is_empty join_code || is_empty reason
    then throw bad_request
    else if is_admin input.requested_role
    then throw bad_request
    else ok
        (record { join_code = join_code; requested_role = input.requested_role; reason = reason })

unfoldable pub parse_review_input : Host → ReviewInput → Result Action
parse_review_input host input =
    if input.action =ₛ "APPROVE"
    then ok approve
    else if input.action =ₛ "REJECT"
    then ok (
        reject (
          Option.get_or (truthy (Option.map host.trim input.rejection_reason))
            "조직 접근 요청이 거절되었습니다."))
    else throw bad_request

-- `assertRequestAllowed`: the actor's organization and role, the organization and role asked for.
unfoldable pub assert_request_allowed :
    Option String → UserRole → String → UserRole → Result (Unit {0})
assert_request_allowed own role organization_id requested = elim (truthy own) [
  | none ↦ if is_candidate requested then ok tt else throw forbidden
  | some id ↦
      if not (id =ₛ organization_id)
      then throw forbidden
      else if is_candidate requested
      then throw bad_request
      else if is_proctor role && is_organization requested
      then ok tt
      else if is_candidate role && (is_proctor requested || is_organization requested)
      then ok tt
      else throw conflict
]

abbrev pub can_review : UserRole → Bool
can_review role = is_admin role || is_organization role

-- What `toRequest` may throw: for a stored role that nobody can ask for.
abbrev pub to_request : RequestRow → Result RequestRow
to_request row = if is_admin row.requested_role then throw bad_request else ok row

module _ (tables : RequestTables) (host : Host) where
  open tables use {
    Db, find_request, find_user, find_pending, find_organization, create_request, update_user,
    update_request,
  }

  -- `createRequest`, given the identifier drawn.
  unfoldable pub make_request : Db → AuthSession → String → CreateInput → Db × Result RequestRow
  unfolding parse_create_input assert_request_allowed
  make_request db session id input =
      if not host.database_available
      then (db, throw service_unavailable)
      else elim (parse_create_input host input) [
        | throw e ↦ (db, throw e)
        | ok parsed ↦ elim (find_organization db parsed.join_code) [
          | none ↦ (db, throw not_found)
          | some organization_id ↦
              let row : RequestRow = record {
                id = id;
                user_id = session.user.id;
                organization_id = organization_id;
                requested_role = parsed.requested_role;
                reason = parsed.reason;
                status = pending;
                rejection_reason = none;
                reviewed_by_id = none;
                reviewed_at = none;
              } in
              elim (assert_request_allowed session.user.organization_id session.user.role
                organization_id parsed.requested_role) [
                  | throw e ↦ (db, throw e)
                  | ok done ↦ elim (find_pending db session.user.id) [
                    | some other ↦ (db, throw conflict)
                    | none ↦ (create_request db row, ok row)
                  ]
                ]
        ]
      ]

  -- Whether the request is one that the reviewer may decide. A reviewer without an organization is
  -- refused as one of another organization is.
  abbrev pub is_in_scope : AuthSession → RequestRow → Bool
  is_in_scope session row =
      is_admin session.user.role || elim (truthy session.user.organization_id) [
        | none ↦ false
        | some id ↦ row.organization_id =ₛ id
      ]

  -- The first part of `reviewRequest`, which only reads.
  unfoldable pub check_review :
      Db → AuthSession → String → ReviewInput → Result (RequestRow × Action)
  unfolding parse_review_input
  check_review db session request_id input =
      if not (can_review session.user.role)
      then throw forbidden
      else if not host.database_available
      then throw service_unavailable
      else elim (parse_review_input host input) [
        | throw e ↦ throw e
        | ok action ↦ elim (find_request db request_id) [
          | none ↦ throw not_found
          | some row ↦
              if not (is_in_scope session row)
              then throw forbidden
              else if not (is_pending row.status)
              then throw conflict
              else ok (row, action)
        ]
      ]

  abbrev pub decide : AuthSession → ℕ → Action → RequestRow → RequestRow
  decide session now action row = record row {
    status = elim action [ approve ↦ approved | reject reason ↦ rejected ];
    rejection_reason = elim action [ approve ↦ none | reject reason ↦ some reason ];
    reviewed_by_id = some session.user.id;
    reviewed_at = some now;
  }

  abbrev pub join : RequestRow → UserRow → UserRow
  join row u = record u { organization_id = some row.organization_id; role = row.requested_role }

  -- The transaction of `reviewRequest`.
  unfoldable pub commit_review : Db → AuthSession → ℕ → RequestRow → Action → Db × Result RequestRow
  commit_review db session now row action =
      let moved : Db = elim action [
        | approve ↦ update_user db row.user_id (join row)
        | reject reason ↦ db
      ] in
      let possible : Bool = elim action [
        | approve ↦ elim (find_user db row.user_id) [ none ↦ false | some u ↦ true ]
        | reject reason ↦ true
      ] in
      if possible
      then elim (find_request db row.id) [
        | none ↦ (db, throw internal_server_error)
        | some current ↦ (
          update_request moved row.id (decide session now action),
          ok (decide session now action current),
        )
      ]
      else (db, throw internal_server_error)

  unfoldable pub review_request :
      Db → AuthSession → ℕ → String → ReviewInput → Db × Result RequestRow
  unfolding check_review commit_review
  review_request db session now request_id input = elim (check_review db session request_id input) [
    | throw e ↦ (db, throw e)
    | ok (row, action) ↦
        let run = commit_review db session now row action in (run.0, run.1 >>= to_request)
  ]
