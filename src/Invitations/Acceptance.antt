-- ===== src/Invitations/Acceptance.antt =====
-- apps/api/src/services/organization-invitations.service.ts: an invitation is accepted once, and a
-- user joins one organization only.
use big_project.Common.{
  ℕ, String, ◌≡◌, refl, ap, ◌∙◌, ◌≢◌, inl, inr, true, some, List, [], ◌∷◌, arith, eq_iff, ◌==◌,
  Bool-cases, Option-cases, length, find, filter,
}
use big_project.Common.Result.{ok, throw, conflict}
use big_project.Shared.{AuthSession}
use big_project.Auth.Table.{UserRow}
use big_project.AdminUsers.Table.{has_id}
use big_project.Invitations.Table.{InvitationRow, InvitationTables, invitation_has_id, update_where}
use big_project.Invitations.{
  Host, is_free_user, is_open_invitation, join_organization, accept_row, accept_transaction,
}

nobody_free :
    (id : String) (invitation : InvitationRow) (users : List UserRow)
    → filter (is_free_user id) (update_where (is_free_user id) (join_organization invitation) users)
      ≡ []
nobody_free id invitation [] = refl
nobody_free id invitation (u ∷ us) = ground (arith, nobody_free id invitation us)

others_kept :
    (id other : String) (invitation : InvitationRow) (users : List UserRow)
    → id ≢ other
    → find (has_id other) (update_where (is_free_user id) (join_organization invitation) users)
      ≡ find (has_id other) users
others_kept id other invitation [] differs = refl
others_kept id other invitation (u ∷ us) differs =
    ground (arith, others_kept id other invitation us differs, eq_iff u.id id, eq_iff u.id other)

module _ (tables : InvitationTables) (host : Host) where
  open tables use {Db, users, invitations, update_users, update_invitations}

  abbrev free_count : Db → AuthSession → ℕ
  free_count db session = length (filter (is_free_user session.user.id) (users db))

  abbrev joined : Db → AuthSession → InvitationRow → Db
  joined db session invitation =
      update_users db (is_free_user session.user.id) (join_organization invitation)

  abbrev open_count : Db → AuthSession → InvitationRow → ℕ
  open_count db session invitation = length (
      filter (is_open_invitation invitation.id session.user.id)
        (invitations (joined db session invitation)))

  abbrev written : Db → AuthSession → InvitationRow → Db
  written db session invitation =
      update_invitations (joined db session invitation)
        (is_open_invitation invitation.id session.user.id) (accept_row host.now)

  -- What a transaction that succeeds has tested and written.
  transaction_ok :
      (db : Db) (session : AuthSession) (invitation row : InvitationRow)
      → (accept_transaction tables host db session invitation).1 ≡ ok row
      → (free_count db session == 1 ≡ true)
        × ((open_count db session invitation == 1 ≡ true)
            × ((find (invitation_has_id invitation.id) (invitations (written db session invitation))
                  ≡ some row)
                × ((accept_transaction tables host db session invitation).0
                    ≡ written db session invitation)))
  unfolding accept_transaction
  transaction_ok db session invitation row h = elim (Bool-cases (free_count db session == 1)) [
    | inr taken ↦ absurd (ground (arith, h, taken))
    | inl free ↦ elim (Bool-cases (open_count db session invitation == 1)) [
      | inr closed ↦ absurd (ground (arith, h, free, closed))
      | inl opened ↦
          elim (Option-cases (
            find (invitation_has_id invitation.id) (invitations (written db session invitation)))) [
              | inl lost ↦ absurd (ground (arith, h, free, opened, lost))
              | inr found ↦
                  let same : found.0 ≡ row = ground (arith, h, free, opened, found.1) in
                  (
                    free,
                    (
                      opened,
                      (found.1 ∙ ap some same, rw (accept_transaction, free, opened, found.1) refl),
                    ),
                  )
            ]
    ]
  ]

  users_written :
      (db : Db) (session : AuthSession) (invitation : InvitationRow)
      → users (written db session invitation)
        ≡ update_where (is_free_user session.user.id) (join_organization invitation) (users db)
  users_written db session invitation =
      tables.users-update_invitations (joined db session invitation)
        (is_open_invitation invitation.id session.user.id) (accept_row host.now)
      ∙ tables.users-update_users db (is_free_user session.user.id) (join_organization invitation)

  taken_conflicts :
      (db : Db) (session : AuthSession) (invitation : InvitationRow)
      → free_count db session ≡ 0
      → accept_transaction tables host db session invitation ≡ (db, throw conflict)
  unfolding accept_transaction
  taken_conflicts db session invitation h = rw (accept_transaction, h) refl

  -- An acceptance wins once: whatever invitation of the same user is accepted next, even one that
  -- was read before, or the same one again, ends in a conflict and changes nothing. The user has
  -- the organization and the role of the first, and the rows of other users are as before.
  pub accept_transaction_once :
      (db : Db) (session : AuthSession) (invitation next row : InvitationRow) (other : String)
      → (accept_transaction tables host db session invitation).1 ≡ ok row
      → session.user.id ≢ other
      → let after = (accept_transaction tables host db session invitation).0 in
        (accept_transaction tables host after session next ≡ (after, throw conflict))
        × ((users after
              ≡ update_where
                  (is_free_user session.user.id)
                  (join_organization invitation)
                  (users db))
            × (find (has_id other) (users after) ≡ find (has_id other) (users db)))
  accept_transaction_once db session invitation next row other h differs =
      let done = transaction_ok db session invitation row h in
      let after = (accept_transaction tables host db session invitation).0 in
      let rows : users after
          ≡ update_where (is_free_user session.user.id) (join_organization invitation) (users db) =
        ap users done.1.1.1 ∙ users_written db session invitation in
      let nobody : filter (is_free_user session.user.id) (users after) ≡ [] =
        ap (filter (is_free_user session.user.id)) rows
        ∙ nobody_free session.user.id invitation (users db) in
      (
        taken_conflicts after session next (ap length nobody),
        (
          rows,
          ap (find (has_id other)) rows
              ∙ others_kept session.user.id other invitation (users db) differs,
        ),
      )
