-- ===== src/Auth/Account.antt =====
-- Sessions and password changes of auth.service.ts.
use big_project.Common.{ℕ, String, true, false, not, ◌||◌, Option, none, some, ltb, if◌then◌else◌}
use big_project.Common.Result.{Result, ok, throw, bad_request, unauthorized}
use big_project.Shared.{AuthSession}
use big_project.Sessions.{Registry}
use big_project.Sessions
use big_project.Auth.Table.{UserRow, UserTable}
use big_project.Auth.{
  Runtime, ChangePasswordInput, truthy, must_change, State, to_user, organization_of,
  create_session,
}

module _ (users : UserTable) (rt : Runtime) where
  open users use {Db, find_by_id, find_by_email, update}

  abbrev pub restricted : AuthSession → AuthSession
  restricted session = record session { password_change_required = true }

  -- The row and the stored session are marked when a password has to be changed.
  unfoldable pub restrict : State users → ℕ → AuthSession → UserRow → State users
  restrict s now session user = record s {
    db =
        if user.password_change_required
        then s.db
        else update s.db user.id (λ u. record u { password_change_required = true });
    registry = Sessions.set s.registry now session.token (restricted session);
  }

  unfoldable pub drop_session : State users → String → State users
  drop_session s token = record s { registry = (Sessions.delete s.registry token).0 }

  -- `me` once the session is found.
  unfoldable pub check_user : State users → ℕ → AuthSession → State users × Result AuthSession
  unfolding restrict drop_session
  check_user s now session =
      if not rt.database_available
      then (s, ok session)
      else elim (find_by_id s.db session.user.id) [
        | none ↦ (drop_session s session.token, throw unauthorized)
        | some user ↦
            if must_change user now
            then (restrict s now session user, ok (restricted session))
            else (s, ok session)
      ]

  -- `me`: the session of a token, and whether its password has to be changed.
  unfoldable pub me : State users → ℕ → Option String → State users × Result AuthSession
  unfolding check_user
  me s now token = elim (truthy token) [
    | none ↦ (s, throw unauthorized)
    | some t ↦ elim (Sessions.get s.registry now t).1 [
      | none ↦ (record s { registry = (Sessions.get s.registry now t).0 }, throw unauthorized)
      | some session ↦
          check_user (record s { registry = (Sessions.get s.registry now t).0 }) now session
    ]
  ]

  -- The second half of `requireActiveSession`.
  unfoldable pub recheck : State users → ℕ → AuthSession → State users × Result AuthSession
  unfolding restrict drop_session
  recheck s now session =
      if session.password_change_required
      then (s, throw unauthorized)
      else if not rt.database_available
      then (s, ok session)
      else elim (find_by_id s.db session.user.id) [
        | none ↦ (drop_session s session.token, throw unauthorized)
        | some user ↦
            if must_change user now
            then (restrict s now session user, throw unauthorized)
            else (s, ok session)
      ]

  unfoldable pub require_active_session :
      State users → ℕ → Option String → State users × Result AuthSession
  unfolding me recheck
  require_active_session s now token =
      let (after, found) = me s now token in
      elim found [ throw e ↦ (after, throw e) | ok session ↦ recheck after now session ]

  unfoldable pub parse_change_password_input : ChangePasswordInput → Result ChangePasswordInput
  parse_change_password_input input =
      if ltb 256 (rt.utf16_length input.current_password) || not (rt.is_strong input.new_password)
      then throw bad_request
      else ok input

  -- The rest of `changePassword` once the current password is right: the row is written, every
  -- session of the user is revoked and a new one is made.
  unfoldable pub replace_password :
      State users → ℕ → String → UserRow → String → State users × AuthSession
  replace_password s now token user password =
      let written = update s.db user.id (λ u. record u {
        password_hash = rt.create_hash password;
        failed_login_attempts = 0;
        locked_until = none;
        password_changed_at = some now;
        password_change_required = false;
      }) in
      create_session users
        (record s { db = written; registry = (Sessions.revoke_user s.registry user.id).0 }) now
        token (to_user user) (organization_of user)

  unfoldable pub change_session :
      State users
      → ℕ
      → String
      → AuthSession
      → ChangePasswordInput
      → State users × Result AuthSession
  unfolding replace_password
  change_session s now fresh session parsed = elim (find_by_id s.db session.user.id) [
    | none ↦ (s, throw unauthorized)
    | some user ↦
        if rt.password_matches parsed.current_password user.password_hash
        then (let (done, made) = replace_password s now fresh user parsed.new_password in
            (done, ok made))
        else (s, throw unauthorized)
  ]

  unfoldable pub change_password :
      State users
      → ℕ
      → String
      → Option String
      → ChangePasswordInput
      → State users × Result AuthSession
  unfolding me change_session
  change_password s now fresh token input =
      let (after, found) = me s now token in
      elim found [
        | throw e ↦ (after, throw e)
        | ok session ↦ elim (parse_change_password_input input) [
          | throw e ↦ (after, throw e)
          | ok parsed ↦ change_session after now fresh session parsed
        ]
      ]

  unfoldable pub logout : State users → Option String → State users
  logout s token = elim (truthy token) [
    | none ↦ s
    | some t ↦ record s { registry = (Sessions.delete s.registry t).0 }
  ]

  -- `refreshSession`: the stored session takes up the row as it is now.
  unfoldable pub refresh_session :
      State users → ℕ → Option String → State users × Result AuthSession
  unfolding me
  refresh_session s now token =
      let (after, found) = me s now token in
      elim found [
        | throw e ↦ (after, throw e)
        | ok session ↦
            if not rt.database_available
            then (after, ok session)
            else elim (find_by_id after.db session.user.id) [
              | none ↦ (after, ok session)
              | some user ↦
                  let refreshed : AuthSession = record session {
                    user = to_user user;
                    organization = organization_of user;
                  } in
                  (
                    record after {
                      registry = Sessions.set after.registry now session.token refreshed;
                    },
                    ok refreshed,
                  )
            ]
      ]
