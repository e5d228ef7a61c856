-- ===== src/AdminUsers/LastAdmin.antt =====
-- Deleting and demoting operators.
use big_project.Common.{
  ◌≤◌, String, ◌≡◌, refl, sym, ap, ◌∙◌, ◌≢◌, inl, inr, true, false, not, none, some, List, [], ◌∷◌,
  map, arith, eq_iff, Option-cases, length, find, filter,
}
use big_project.Common.Result.{ok, throw, conflict, Result-cases}
use big_project.Shared.{User, AuthSession}
use big_project.Auth.Table.{UserRow}
use big_project.Auth.{to_user}
use big_project.AdminUsers.Table.{
  is_admin, AccountTable, update_at, has_id, admins, find_by_id-update_same,
}
use big_project.AdminUsers.{
  UpdateAdminUserInput, Request, parse_update_user_input, apply_update, write_update, update_target,
  update_managed_user, delete_transaction, delete_managed_user,
}

find_at : (us : List UserRow) (id : String) (u : UserRow) → find (has_id id) us ≡ some u → u.id ≡ id
find_at [] id u h = absurd (ground arith)
find_at (v ∷ us) id u h = ground (arith, find_at us id u, eq_iff v.id id)

-- One operator's row, then two.
one_admin :
    (us : List UserRow) (id : String) (u : UserRow)
    → find (has_id id) us ≡ some u
    → is_admin u.role ≡ true
    → 1 ≤ length (admins us)
one_admin [] id u h a = absurd (ground arith)
one_admin (v ∷ us) id u h a = ground (arith, one_admin us id u)

two_admins :
    (us : List UserRow) (i j : String) (u v : UserRow)
    → i ≢ j
    → find (has_id i) us ≡ some u
    → find (has_id j) us ≡ some v
    → is_admin u.role ≡ true
    → is_admin v.role ≡ true
    → 2 ≤ length (admins us)
two_admins [] i j u v differs hu hv au av = absurd (ground arith)
two_admins (w ∷ us) i j u v differs hu hv au av = ground (
  arith,
  two_admins us i j u v differs,
  one_admin us i u,
  one_admin us j v,
  eq_iff w.id i,
  eq_iff w.id j,
)

find_deleted :
    (us : List UserRow) (id : String) → find (has_id id) (filter (λ u. not (has_id id u)) us) ≡ none
find_deleted [] id = refl
find_deleted (u ∷ us) id = ground (arith, find_deleted us id)

find_kept :
    (us : List UserRow) (id other : String)
    → id ≢ other
    → find (has_id other) (filter (λ u. not (has_id id u)) us) ≡ find (has_id other) us
find_kept [] id other differs = refl
find_kept (u ∷ us) id other differs =
    ground (arith, find_kept us id other differs, eq_iff u.id id, eq_iff u.id other)

-- No operator is left once the only one has lost the role.
none_left :
    (us : List UserRow) (id : String) (f : UserRow → UserRow)
    → ((u : UserRow) → is_admin (f u).role ≡ false)
    → length (admins us) ≡ 0
    → length (admins (map (update_at id f) us)) ≡ 0
none_left [] id f loses h = refl
none_left (u ∷ us) id f loses h = let l = loses u in ground (arith, none_left us id f loses)

demoted :
    (us : List UserRow) (id : String) (u : UserRow) (f : UserRow → UserRow)
    → ((v : UserRow) → is_admin (f v).role ≡ false)
    → find (has_id id) us ≡ some u
    → is_admin u.role ≡ true
    → length (admins us) ≡ 1
    → length (admins (map (update_at id f) us)) ≡ 0
demoted [] id u f loses h a only = absurd (ground arith)
demoted (v ∷ us) id u f loses h a only =
    let l = loses v in
    ground (arith, demoted us id u f loses, none_left us id f loses, one_admin us id u)

module _ (table : AccountTable) (request : Request) where
  open table use {Db, rows, find_by_id, count_admins, update, delete, delete_invitations}

  row_at :
      (db : Db) (id : String) (u : UserRow)
      → find_by_id db id ≡ some u
      → find (has_id id) (rows db) ≡ some u
  row_at db id u h = sym (table.find_by_id_lem db id) ∙ h

  deleted_rows :
      (db : Db) (id : String)
      → rows (delete (delete_invitations db id) id) ≡ filter (λ u. not (has_id id u)) (rows db)
  deleted_rows db id =
      table.rows-delete (delete_invitations db id) id
      ∙ ap (filter (λ u. not (has_id id u))) (table.rows-delete_invitations db id)

  find-deleted :
      (db : Db) (id other : String)
      → find_by_id (delete (delete_invitations db id) id) other
        ≡ find (has_id other) (filter (λ u. not (has_id id u)) (rows db))
  find-deleted db id other =
      table.find_by_id_lem (delete (delete_invitations db id) id) other
      ∙ ap (find (has_id other)) (deleted_rows db id)

  -- A deletion that succeeds is by an operator of another account: the operator's row stays, that
  -- of the account is gone, and every other row stays.
  pub delete_managed_user_ok :
      (db : Db) (session : AuthSession) (user_id id : String)
      → (delete_managed_user table request db session user_id).1 ≡ ok id
      → (actor : UserRow) × (find_by_id
            (delete_managed_user table request db session user_id).0
            session.user.id
          ≡ some actor)
        × (is_admin actor.role ≡ true)
        × (find_by_id (delete_managed_user table request db session user_id).0 user_id ≡ none)
        × ((other : String)
            → user_id ≢ other
            → find_by_id (delete_managed_user table request db session user_id).0 other
              ≡ find_by_id db other)
  unfolding delete_managed_user delete_transaction
  delete_managed_user_ok db session user_id id h =
      elim (Option-cases (find_by_id db session.user.id)) [
        | inl missing ↦ absurd (ground arith)
        | inr (actor, here) ↦
            let own : actor.id ≡ session.user.id =
              find_at (rows db) session.user.id actor (row_at db session.user.id actor here) in
            let run : (delete_managed_user table request db session user_id).0
                ≡ delete (delete_invitations db user_id) user_id =
              ground arith in
            let differs : user_id ≢ session.user.id =
              λ same. ground (arith, eq_iff actor.id user_id) in
            let others : (other : String)
                → user_id ≢ other
                → find_by_id (delete (delete_invitations db user_id) user_id) other
                  ≡ find_by_id db other =
              λ other d.
                find-deleted db user_id other
                ∙ find_kept (rows db) user_id other d
                ∙ sym (table.find_by_id_lem db other) in
            (
              actor,
              rw run (others session.user.id differs ∙ here),
              ground arith,
              rw run (find-deleted db user_id user_id ∙ find_deleted (rows db) user_id),
              λ other d. rw run (others other d),
            )
      ]

  -- The refusal to delete the last operator is never given: whoever deletes is an operator too, and
  -- nobody deletes their own account.
  pub delete_managed_user_never_conflict :
      (db : Db) (session : AuthSession) (user_id : String)
      → (delete_managed_user table request db session user_id).1 ≢ throw conflict
  unfolding delete_managed_user delete_transaction
  delete_managed_user_never_conflict db session user_id h =
      elim (Option-cases (find_by_id db session.user.id)) [
        | inl missing ↦ ground arith
        | inr (actor, here) ↦ elim (Option-cases (find_by_id db user_id)) [
          | inl gone ↦ ground arith
          | inr (target, there) ↦
              let own : actor.id ≡ session.user.id =
                find_at (rows db) session.user.id actor (row_at db session.user.id actor here) in
              let count = table.count_admins_lem db in
              let two = two_admins (rows db) session.user.id user_id actor target in
              let a = row_at db session.user.id actor here in
              let b = row_at db user_id target there in ground (arith, two, eq_iff actor.id user_id)
        ]
      ]

  -- A change of the only operator's role that succeeds leaves the system without an operator.
  pub update_managed_user_demotes :
      (db : Db) (session : AuthSession) (user_id : String) (input : UpdateAdminUserInput)
      (target : UserRow) (user : User)
      → find_by_id db user_id ≡ some target
      → is_admin target.role ≡ true
      → count_admins db ≡ 1
      → is_admin user.role ≡ false
      → (update_managed_user table request db session user_id input).1 ≡ ok user
      → count_admins (update_managed_user table request db session user_id input).0 ≡ 0
  unfolding update_managed_user update_target write_update
  update_managed_user_demotes db session user_id input target user here a only loses h =
      elim (Result-cases (parse_update_user_input request session input)) [
        | inl (e, bad) ↦ absurd (ground arith)
        | inr (parsed, good) ↦
            let after : Db = update db user_id (apply_update parsed) in
            let stored =
              find_by_id-update_same table db user_id target (apply_update parsed) (λ u. refl)
                here in
            let run : (update_managed_user table request db session user_id input).0 ≡ after =
              ground arith in
            let written : user ≡ to_user (apply_update parsed target) = ground arith in
            let given : is_admin parsed.role ≡ false = ground arith in
            let none_is =
              demoted (rows db) user_id target (apply_update parsed) (λ v. given)
                (row_at db user_id target here) a (sym (table.count_admins_lem db) ∙ only) in
            rw run (
              table.count_admins_lem after
              ∙ ap (λ us. length (admins us)) (table.rows-update db user_id (apply_update parsed))
              ∙ none_is)
      ]
