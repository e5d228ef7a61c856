-- ===== src/AdminUsers/Tenancy.antt =====
-- Who may change which account, and that a refused request changes nothing.
use big_project.Common.{
  String, ◌≡◌, refl, ◌≢◌, ◌⊎◌, inl, inr, true, false, Option, none, some, arith, eq_iff,
  Option-cases,
}
use big_project.Common.Result.{ok, throw, Exception, Result-cases}
use big_project.Shared.{UserRole, organization, proctor, User, AuthSession}
use big_project.Auth.Table.{UserRow}
use big_project.Auth.{to_user}
use big_project.AdminUsers.Table.{
  is_admin, AccountTable, find_by_id-update_other, find_by_id-update_same,
}
use big_project.AdminUsers.{
  UpdateAdminUserInput, ParsedUpdate, Request, parse_editable_role, target_organization,
  parse_update_user_input, is_of, apply_update, write_update, update_target, update_managed_user,
}

-- The roles that somebody who is no operator may give, and may have to give one.
abbrev pub MayAssign : UserRole → UserRole → Type 0
MayAssign actor role = (actor ≡ organization) × ((role ≡ organization) ⊎ (role ≡ proctor))

parse_editable_role-MayAssign :
    (actor role given : UserRole)
    → is_admin actor ≡ false
    → parse_editable_role actor role ≡ ok given
    → MayAssign actor given
unfolding parse_editable_role
parse_editable_role-MayAssign actor role given other h = ground arith

is_of_lem : (o : Option String) (id : String) → is_of o id ≡ true → o ≡ some id
is_of_lem none id h = absurd (ground arith)
is_of_lem (some o) id h = ground (arith, eq_iff o id)

module _ (table : AccountTable) (request : Request) where
  open table use {
    Db, rows, find_by_id, find_by_email, count_admins, update, delete, delete_invitations,
  }

  parse_update_sound :
      (session : AuthSession) (input : UpdateAdminUserInput) (parsed : ParsedUpdate)
      → parse_update_user_input request session input ≡ ok parsed
      → (parse_editable_role session.user.role input.role ≡ ok parsed.role)
        × (target_organization request session input ≡ some parsed.organization_id)
  unfolding parse_update_user_input
  parse_update_sound session input parsed h =
      elim (Result-cases (parse_editable_role session.user.role input.role)) [
        | inl (e, bad) ↦ absurd (ground arith)
        | inr (role, good) ↦ elim (Option-cases (target_organization request session input)) [
          | inl missing ↦ absurd (ground arith)
          | inr (o, given) ↦ (ground arith, ground arith)
        ]
      ]

  -- An account that somebody who is no operator changes is of their organization and no operator's.
  -- The row that the database then holds for it, which is also the answer, is still of that
  -- organization, and of an organization administrator or a proctor. The other rows are unchanged.
  pub update_managed_user_scope :
      (db : Db) (session : AuthSession) (user_id : String) (input : UpdateAdminUserInput)
      (user : User)
      → is_admin session.user.role ≡ false
      → (update_managed_user table request db session user_id input).1 ≡ ok user
      → (target : UserRow) × (find_by_id db user_id ≡ some target)
        × (target.organization_id ≡ some session.organization.id)
        × (is_admin target.role ≡ false)
        × ((stored : UserRow) × (find_by_id
                (update_managed_user table request db session user_id input).0
                user_id
              ≡ some stored)
            × (stored.organization_id ≡ some session.organization.id)
            × MayAssign session.user.role stored.role
            × (user ≡ to_user stored))
        × ((other : String)
            → user_id ≢ other
            → find_by_id (update_managed_user table request db session user_id input).0 other
              ≡ find_by_id db other)
  unfolding update_managed_user update_target write_update
  update_managed_user_scope db session user_id input user other_role h =
      elim (Option-cases (find_by_id db user_id)) [
        | inl missing ↦ absurd (ground arith)
        | inr (target, here) ↦ elim (Result-cases (parse_update_user_input request session input)) [
          | inl (e, bad) ↦ absurd (ground arith)
          | inr (parsed, good) ↦
              let (role, place) = parse_update_sound session input parsed good in
              let may =
                parse_editable_role-MayAssign session.user.role input.role parsed.role other_role
                  role in
              let after =
                find_by_id-update_same table db user_id target (apply_update parsed) (λ u. refl)
                  here in
              let written : user ≡ to_user (apply_update parsed target) = ground arith in
              let run : (update_managed_user table request db session user_id input).0
                  ≡ update db user_id (apply_update parsed) =
                ground arith in
              let of : is_of target.organization_id session.organization.id ≡ true = ground arith in
              let into : some parsed.organization_id ≡ some session.organization.id =
                ground arith in
              (
                target,
                here,
                is_of_lem target.organization_id session.organization.id of,
                ground arith,
                (apply_update parsed target, rw run after, into, may, written),
                λ other differs.
                    let kept =
                      find_by_id-update_other table db user_id other (apply_update parsed)
                        (λ u. refl) differs in
                    ground arith,
              )
        ]
      ]

  -- A request to change an account that throws leaves the database as it was.
  pub refused_changes_nothing :
      (db : Db) (session : AuthSession) (user_id : String) (input : UpdateAdminUserInput)
      (e : Exception)
      → (update_managed_user table request db session user_id input).1 ≡ throw e
      → (update_managed_user table request db session user_id input).0 ≡ db
  unfolding update_managed_user update_target write_update
  refused_changes_nothing db session user_id input e h = ground arith
