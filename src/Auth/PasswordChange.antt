-- ===== src/Auth/PasswordChange.antt =====
-- What a password change of auth.service.ts does to the row and to the sessions of its user.
use big_project.Common.{
  ◌⊎◌, All, List, [], ◌∷◌, ◌=ₛ◌, eq_iff, ℕ, String, ◌≡◌, refl, sym, ap, subst, ◌∙◌, ◌≢◌, inl, inr,
  true, false, Option, none, some, arith, Bool-cases, Option-cases, before,
}
use big_project.Common.Result.{Result, ok, Result-cases}
use big_project.Shared.{AuthSession}
use big_project.JsMap
use big_project.JsMap.{IsFound, IsMap-IsFound, IsMap, get-set, get-delete}
use big_project.Sessions.{Registry, StoredSession, is_over}
use big_project.Sessions
use big_project.Sessions.Reads.{get_stored-set, get_other-set}
use big_project.Sessions.{gets, sets, deletes, revokes}
use big_project.Sessions.Lifetime.{step-IsMap}
use big_project.Sessions.Revocation.{belongs, get-revoke_user}
use big_project.Auth.Table.{UserRow, UserTable}
use big_project.Auth.{Runtime, ChangePasswordInput, truthy, must_change, State, create_session}
use big_project.Auth.Account.{
  restricted, restrict, drop_session, check_user, me, parse_change_password_input, replace_password,
  change_session, change_password,
}

module _ (users : UserTable) (rt : Runtime) where
  open users use {Db, find_by_id, find_by_email, update}

  -- The check of the row keeps the state, drops the session or restricts it.
  check_user_rule :
      (P : State users → Type 0) (s : State users) (now : ℕ) (session : AuthSession)
      → P s
      → P (drop_session users rt s session.token)
      → ((user : UserRow) → P (restrict users rt s now session user))
      → P (check_user users rt s now session).0
  unfolding check_user
  check_user_rule P s now session keep drop mark = elim (Bool-cases rt.database_available) [
    | inr off ↦ rw (check_user, off) keep
    | inl on ↦ elim (Option-cases (find_by_id s.db session.user.id)) [
      | inl gone ↦ rw (check_user, on, gone) drop
      | inr (user, here) ↦ elim (Bool-cases (must_change user now)) [
        | inl due ↦ rw (check_user, on, here, due) (mark user)
        | inr fresh ↦ rw (check_user, on, here, fresh) keep
      ]
    ]
  ]

  -- What `me` leaves is still a map.
  me-IsMap :
      (s : State users) (now : ℕ) (token : Option String)
      → IsMap s.registry.sessions
      → IsMap (me users rt s now token).0.registry.sessions
  unfolding me restrict drop_session Sessions.step
  me-IsMap s now token d = elim (Option-cases (truthy token)) [
    | inl e ↦ rw (e, me) d
    | inr (t, e) ↦
        let r : Registry = (Sessions.get s.registry now t).0 in
        let kept : IsMap r.sessions = step-IsMap s.registry now (gets t) d in
        elim (Option-cases (Sessions.get s.registry now t).1) [
          | inl gone ↦ rw (e, me, gone) kept
          | inr (found, e2) ↦
              rw (e, me, e2)
                (check_user_rule (λ q. IsMap q.registry.sessions) (record s { registry = r }) now
                  found kept (step-IsMap r now (deletes found.token) kept)
                  (λ user. step-IsMap r now (sets found.token (restricted users rt found)) kept))
        ]
  ]

  -- What a password change that succeeds has done to the state that `me` left.
  abbrev Replaced :
      State users
      → State users × Result AuthSession
      → ℕ
      → String
      → AuthSession
      → ChangePasswordInput
      → UserRow
      → Type 0
  Replaced before after now fresh session input user =
      (find_by_id before.db session.user.id ≡ some user)
      × (rt.password_matches input.current_password user.password_hash ≡ true)
      × (rt.is_strong input.new_password ≡ true)
      × (after ≡ (
        (replace_password users rt before now fresh user input.new_password).0,
        ok (replace_password users rt before now fresh user input.new_password).1,
      ))

  change_session_ok :
      (s : State users) (now : ℕ) (fresh : String) (session : AuthSession)
      (input : ChangePasswordInput) (made : AuthSession)
      → rt.is_strong input.new_password ≡ true
      → (change_session users rt s now fresh session input).1 ≡ ok made
      → (user : UserRow) × Replaced s
          (change_session users rt s now fresh session input)
          now
          fresh
          session
          input
          user
  unfolding change_session
  change_session_ok s now fresh session input made strong h =
      elim (Option-cases (find_by_id s.db session.user.id)) [
        | inl gone ↦ absurd (ground arith)
        | inr (user, here) ↦
            elim (Bool-cases (rt.password_matches input.current_password user.password_hash)) [
              | inr wrong ↦ absurd (ground arith)
              | inl right ↦ (user, (here, right, strong, rw (here, change_session, right) refl))
            ]
      ]

  change_password_ok :
      (s : State users) (now : ℕ) (fresh : String) (token : Option String)
      (input : ChangePasswordInput) (made : AuthSession)
      → (change_password users rt s now fresh token input).1 ≡ ok made
      → (session : AuthSession) × (user : UserRow) × ((me users rt s now token).1 ≡ ok session)
        × Replaced
            (me users rt s now token).0
            (change_password users rt s now fresh token input)
            now
            fresh
            session
            input
            user
  unfolding change_password parse_change_password_input
  change_password_ok s now fresh token input made h =
      elim (Result-cases (me users rt s now token).1) [
        | inl (e, refused) ↦ absurd (ground arith)
        | inr (session, found) ↦ elim (Result-cases (parse_change_password_input users rt input)) [
          | inl (e, bad) ↦ absurd (ground arith)
          | inr (parsed, good) ↦
              let same : parsed ≡ input = ground arith in
              let strong : rt.is_strong input.new_password ≡ true = ground arith in
              let after : State users = (me users rt s now token).0 in
              let run : change_password users rt s now fresh token input
                  ≡ change_session users rt after now fresh session input =
                rw (change_password, found, good, same) refl in
              let (user, done) =
                change_session_ok after now fresh session input made strong
                  (ap (λ x. x.1) (sym run) ∙ h) in
              (
                session,
                user,
                found,
                subst (λ x. Replaced after x now fresh session input user) (sym run) done,
              )
        ]
      ]

  -- No session of the user is left but the one under the new token.
  abbrev pub OnlyFresh : State users → String → String → Type 0
  OnlyFresh s fresh user_id =
      All (λ e. (e.0 ≡ fresh) ⊎ (belongs user_id e.1 ≡ false)) s.registry.sessions

  fresh_entries :
      (fresh user_id : String) (m es : List (String × StoredSession))
      → ((other : String) (stored : StoredSession)
          → fresh ≢ other
          → JsMap.get other m ≡ some stored
          → belongs user_id stored ≡ false)
      → All (IsFound m) es
      → All (λ e. (e.0 ≡ fresh) ⊎ (belongs user_id e.1 ≡ false)) es
  fresh_entries fresh user_id m [] each found = tt
  fresh_entries fresh user_id m ((token, stored) ∷ es) each (here, later) = (
    elim (Bool-cases (fresh =ₛ token)) [
      | inl e ↦ inl (sym ((eq_iff fresh token).0 e))
      | inr e ↦ inr (each token stored (λ same. ground (arith, eq_iff fresh token)) here)
    ],
    fresh_entries fresh user_id m es each later,
  )

  replace_password_revokes :
      (s : State users) (now : ℕ) (fresh : String) (user : UserRow) (password : String)
      → IsMap s.registry.sessions
      → (other : String) (stored : StoredSession) → fresh ≢ other
      → JsMap.get other (replace_password users rt s now fresh user password).0.registry.sessions
        ≡ some stored
      → belongs user.id stored ≡ false
  unfolding replace_password create_session
  replace_password_revokes s now fresh user password d other stored differs here =
      let r : Registry = (Sessions.revoke_user s.registry user.id).0 in
      let kept =
        get_other-set r now fresh other (replace_password users rt s now fresh user password).1
          differs in
      let revoked = get-revoke_user s.registry user.id other d in
      let there : JsMap.get other r.sessions ≡ some stored = sym kept ∙ here in
      elim (Option-cases (JsMap.get other s.registry.sessions)) [
        | inl e ↦ absurd (ground arith)
        | inr (st, e) ↦ elim (Bool-cases (belongs user.id st)) [
          | inl b ↦ absurd (ground arith)
          | inr b ↦ ground arith
        ]
      ]

  replace_password-OnlyFresh :
      (s : State users) (now : ℕ) (fresh : String) (user : UserRow) (password : String)
      → IsMap s.registry.sessions
      → OnlyFresh (replace_password users rt s now fresh user password).0 fresh user.id
  unfolding replace_password create_session Sessions.step
  replace_password-OnlyFresh s now fresh user password d =
      let revoked : Registry = (Sessions.revoke_user s.registry user.id).0 in
      let kept : IsMap revoked.sessions = step-IsMap s.registry now (revokes user.id) d in
      let after : Registry = (replace_password users rt s now fresh user password).0.registry in
      let made : AuthSession = (replace_password users rt s now fresh user password).1 in
      let still : IsMap after.sessions = step-IsMap revoked now (sets fresh made) kept in
      fresh_entries fresh user.id after.sessions after.sessions
        (replace_password_revokes s now fresh user password d) (IsMap-IsFound after.sessions still)

  -- The row of the account after the change.
  abbrev pub HasNewPassword : Db → String → String → Type 0
  HasNewPassword db id password =
      (row : UserRow) × (find_by_id db id ≡ some row)
      × (row.password_hash ≡ rt.create_hash password)
      × (row.password_change_required ≡ false)
      × (row.failed_login_attempts ≡ 0)
      × (row.locked_until ≡ none)

  replace_password_lem :
      (s : State users) (now : ℕ) (fresh id : String) (user : UserRow) (password : String)
      → IsMap s.registry.sessions
      → find_by_id s.db id ≡ some user
      → ((replace_password users rt s now fresh user password).1.user.id ≡ id)
        × OnlyFresh (replace_password users rt s now fresh user password).0 fresh id
        × ((stored : StoredSession) × (JsMap.get fresh
                (replace_password users rt s now fresh user password).0.registry.sessions
              ≡ some stored)
            × (stored.session ≡ (replace_password users rt s now fresh user password).1))
        × HasNewPassword (replace_password users rt s now fresh user password).0.db id password
  unfolding replace_password create_session
  replace_password_lem s now fresh id user password d here =
      let same : user.id ≡ id = users.find-id s.db id user here in
      let r : Registry = (Sessions.revoke_user s.registry user.id).0 in
      let change : UserRow → UserRow = λ u. record u {
        password_hash = rt.create_hash password;
        failed_login_attempts = 0;
        locked_until = none;
        password_changed_at = some now;
        password_change_required = false;
      } in
      let row = users.find-update s.db id change user (λ v. (refl, refl)) here in
      (
        same,
        subst (OnlyFresh (replace_password users rt s now fresh user password).0 fresh) same
            (replace_password-OnlyFresh s now fresh user password d),
        get_stored-set r now fresh (replace_password users rt s now fresh user password).1,
        (
          change user,
          subst (λ i. find_by_id (update s.db i change) id ≡ some (change user)) (sym same) row,
          refl,
          refl,
          refl,
          refl,
        ),
      )

  -- A password change that succeeds is of the user whose session the token has: the row has the new
  -- password, and is neither locked nor marked for a change; the new session is stored under the new
  -- token; and the user has no other session left.
  pub change_password_revokes :
      (s : State users) (now : ℕ) (fresh : String) (token : Option String)
      (input : ChangePasswordInput) (made : AuthSession)
      → IsMap s.registry.sessions
      → (change_password users rt s now fresh token input).1 ≡ ok made
      → (session : AuthSession) × ((me users rt s now token).1 ≡ ok session)
        × (made.user.id ≡ session.user.id)
        × OnlyFresh (change_password users rt s now fresh token input).0 fresh session.user.id
        × ((stored : StoredSession) × (JsMap.get fresh
                (change_password users rt s now fresh token input).0.registry.sessions
              ≡ some stored)
            × (stored.session ≡ made))
        × HasNewPassword
            (change_password users rt s now fresh token input).0.db
            session.user.id
            input.new_password
  change_password_revokes s now fresh token input made d h =
      let (session, user, found, (here, right, strong, run)) =
        change_password_ok s now fresh token input made h in
      let before : State users = (me users rt s now token).0 in
      let (id, only, stored, row) =
        replace_password_lem before now fresh session.user.id user input.new_password
          (me-IsMap s now token d) here in
      let eq0 : (change_password users rt s now fresh token input).0
          ≡ (replace_password users rt before now fresh user input.new_password).0 =
        ap (λ x. x.0) run in
      let eq1 : made ≡ (replace_password users rt before now fresh user input.new_password).1 =
        cc (h, run) in
      (session, found, ap (λ x. x.user.id) eq1 ∙ id, rw eq0 only, rw (eq0, eq1) stored, rw eq0 row)
