-- ===== src/Invitations.antt =====
-- apps/api/src/services/organization-invitations.service.ts: `OrganizationInvitationsService`. An
-- acceptance reads the invitation outside the transaction that writes, so other acceptances may come
-- in between: `check_invitation` is the first part, `accept_transaction` the second. The database is a
-- parameter, `InvitationTables`.
pub mod Table
pub mod Acceptance
mod Tests
use big_project.Common.{
  ℕ, zero, suc, ◌+◌, ◌-◌, ◌*◌, ◌/◌, ◌%◌, ◌≤◌, ◌<◌, min, max, String, ◌≡◌, refl, sym, ap, subst, ◌∙◌,
  ◌≢◌, ◌↔◌, ◌⊎◌, inl, inr, Bool, true, false, not, ◌&&◌, ◌||◌, Option, none, some, List, [], ◌∷◌,
  ◌++◌, map, arith, eq_iff, eq_refl, ◌=ₛ◌, ltb, leb, ◌==◌, if◌then◌else◌, optional, ltb→lt, lt→ltb,
  le→leb, Bool-cases, Option-cases, length, find, filter, any, all, head?, length-append,
  length-filter-le, find-passes, All, All-append, All-filter, filter-All, All-sort_descending,
  sort_descending, insert_descending, take, is_empty, before, includes_char,
}
use big_project.Common.Result.{
  Result, ok, throw, Exception, bad_request, unauthorized, forbidden, not_found, conflict,
  too_many_requests, service_unavailable, ◌>>=◌, ◌>>◌, throw_if, or_throw, Result-cases,
}
use big_project.Shared.{UserRole, admin, organization, proctor, candidate, AuthSession}
use big_project.Auth.{truthy}
use big_project.Auth.Table.{UserRow}
use big_project.AdminUsers.Table.{has_id, has_email}
use big_project.OrganizationRequests.{is_organization, is_proctor}
use Table.{
  InvitationStatus, pending, accepted, cancelled, InvitationRow, InvitationTables,
  invitation_has_id,
}

pub record CreateInvitationInput : Type 0 where
  pub email : String
  pub requested_role : UserRole

pub record Host : Type 0 where
  pub trim : String → String
  pub to_lower_case : String → String
  -- The identifier and the token drawn, and the time.
  pub new_id : String
  pub new_token : String
  pub now : ℕ

abbrev pub is_pending : InvitationStatus → Bool
is_pending pending = true
is_pending accepted = false
is_pending cancelled = false

abbrev pub is_invitable : UserRole → Bool
is_invitable role = is_organization role || is_proctor role

unfoldable pub parse_create_input : Host → CreateInvitationInput → Result CreateInvitationInput
parse_create_input host input =
    let email = host.to_lower_case (host.trim input.email) in
    if not (includes_char b'@' email)
    then throw bad_request
    else if not (is_invitable input.requested_role)
    then throw bad_request
    else ok (record { email = email; requested_role = input.requested_role })

-- The organization of a manager's row.
abbrev pub organization_of_manager : UserRow → Result String
organization_of_manager manager =
    if not (is_organization manager.role)
    then throw forbidden
    else or_throw (truthy manager.organization_id) forbidden

-- `where: { id, organizationId: null }`
abbrev pub is_free_user : String → UserRow → Bool
is_free_user id user = has_id id user && optional true (λ o. false) user.organization_id

abbrev pub is_open_invitation : String → String → InvitationRow → Bool
is_open_invitation id user_id row =
    (invitation_has_id id row && row.invited_user_id =ₛ user_id) && is_pending row.status

abbrev pub join_organization : InvitationRow → UserRow → UserRow
join_organization invitation user = record user {
  organization_id = some invitation.organization_id;
  role = invitation.requested_role;
}

abbrev pub accept_row : ℕ → InvitationRow → InvitationRow
accept_row now row = record row { status = accepted; accepted_at = some now }

abbrev pub new_invitation :
    Host → AuthSession → String → UserRow → CreateInvitationInput → InvitationRow
new_invitation host session organization_id invited parsed = record {
  id = host.new_id;
  token = host.new_token;
  organization_id = organization_id;
  invited_user_id = invited.id;
  requested_role = parsed.requested_role;
  status = pending;
  invited_by_id = session.user.id;
  created_at = host.now;
  accepted_at = none;
}

abbrev pub is_pending_for : String → String → InvitationRow → Bool
is_pending_for organization_id user_id row =
    (row.organization_id =ₛ organization_id && row.invited_user_id =ₛ user_id)
    && is_pending row.status

-- The tests of `acceptInvitation` before its transaction.
unfoldable pub check_invitation : AuthSession → Option InvitationRow → Result InvitationRow
check_invitation session none = throw not_found
check_invitation session (some row) =
    if not (row.invited_user_id =ₛ session.user.id)
    then throw forbidden
    else if not (is_pending row.status)
    then throw conflict
    else ok row

module _ (tables : InvitationTables) (host : Host) where
  open tables use {Db, users, invitations, update_users, update_invitations, create_invitation}

  unfoldable pub managed_organization_id : Db → AuthSession → Result String
  managed_organization_id db session =
      or_throw (find (has_id session.user.id) (users db)) forbidden >>= organization_of_manager

  unfoldable pub make_invitation :
      Db → AuthSession → CreateInvitationInput → Db × Result InvitationRow
  unfolding managed_organization_id parse_create_input
  make_invitation db session input = elim (managed_organization_id db session) [
    | throw e ↦ (db, throw e)
    | ok organization_id ↦ elim (parse_create_input host input) [
      | throw e ↦ (db, throw e)
      | ok parsed ↦ elim (find (has_email parsed.email) (users db)) [
        | none ↦ (db, throw not_found)
        | some invited ↦
            let row = new_invitation host session organization_id invited parsed in
            if optional false (λ o. true) (truthy invited.organization_id)
            then (db, throw conflict)
            else if any (is_pending_for organization_id invited.id) (invitations db)
            then (db, throw conflict)
            else (create_invitation db row, ok row)
      ]
    ]
  ]

  -- The transaction. An exception in it rolls it back.
  unfoldable pub accept_transaction : Db → AuthSession → InvitationRow → Db × Result InvitationRow
  accept_transaction db session invitation =
      let free = is_free_user session.user.id in
      let open_row = is_open_invitation invitation.id session.user.id in
      let joined = update_users db free (join_organization invitation) in
      let written = update_invitations joined open_row (accept_row host.now) in
      if not (length (filter free (users db)) == 1)
      then (db, throw conflict)
      else if not (length (filter open_row (invitations joined)) == 1)
      then (db, throw conflict)
      else elim (find (invitation_has_id invitation.id) (invitations written)) [
        | none ↦ (db, throw not_found)
        | some row ↦ (written, ok row)
      ]

  unfoldable pub accept_invitation : Db → AuthSession → String → Db × Result InvitationRow
  unfolding check_invitation accept_transaction
  accept_invitation db session invitation_id =
      elim (check_invitation session (find (invitation_has_id invitation_id) (invitations db))) [
        | throw e ↦ (db, throw e)
        | ok invitation ↦ accept_transaction db session invitation
      ]
