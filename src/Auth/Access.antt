-- ===== src/Auth/Access.antt =====
-- Who passes `requireActiveSession` of auth.service.ts.
use big_project.Common.{
  ℕ, ◌+◌, ◌<◌, String, ◌≡◌, ap, subst, ◌∙◌, inl, inr, true, false, some, arith, Bool-cases,
  Option-cases, is_empty,
}
use big_project.Common.Result.{ok}
use big_project.Shared.{AuthSession}
use big_project.JsMap
use big_project.JsMap.{IsMap, get-set, get-delete}
use big_project.Sessions.{Registry, StoredSession, is_over}
use big_project.Sessions
use big_project.Sessions.Reads.{get-lt-expires_at}
use big_project.Sessions.{gets, sets, deletes}
use big_project.Auth.Table.{UserRow, UserTable}
use big_project.Auth.{Runtime, must_change, State}
use big_project.Auth.Account.{check_user, me, recheck, require_active_session}

module _ (users : UserTable) (rt : Runtime) where
  open users use {Db, find_by_id, find_by_email, update}

  -- The session is stored under the token, and neither of its lifetimes is over.
  abbrev pub IsLive : Registry → ℕ → String → AuthSession → Type 0
  IsLive r now token session =
      (stored : StoredSession) × (JsMap.get token r.sessions ≡ some stored)
      × (stored.session ≡ session)
      × (now < stored.created_at + r.absolute_ttl_ms)
      × (now < stored.last_seen_at + r.idle_ttl_ms)

  -- `requireActiveSession` on the database lets in only a live session of the token, whose user
  -- still has a row and whose password is not due for a change.
  pub require_active_session_sound :
      (s : State users) (now : ℕ) (token : String) (session : AuthSession)
      → rt.database_available ≡ true
      → (require_active_session users rt s now (some token)).1 ≡ ok session
      → IsLive s.registry now token session
        × (session.password_change_required ≡ false)
        × ((user : UserRow) × (find_by_id s.db session.user.id ≡ some user)
            × (must_change user now ≡ false))
  unfolding require_active_session me recheck check_user
  require_active_session_sound s now token session available h =
      elim (Bool-cases (is_empty token)) [
        | inl e ↦ absurd (ground arith)
        | inr full ↦ elim (Option-cases (Sessions.get s.registry now token).1) [
          | inl none_found ↦ absurd (ground arith)
          | inr (found, e) ↦ elim (Option-cases (find_by_id s.db found.user.id)) [
            | inl gone ↦ absurd (ground arith)
            | inr (user, here) ↦ elim (Bool-cases (must_change user now)) [
              | inl due ↦ absurd (ground arith)
              | inr fresh ↦
                  let same : found ≡ session = ground arith in
                  (
                    get-lt-expires_at s.registry now token session (e ∙ ap some same),
                    ground arith,
                    (user, subst (λ x. find_by_id s.db x.user.id ≡ some user) same here, fresh),
                  )
            ]
          ]
        ]
      ]
