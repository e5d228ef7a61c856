-- ===== src/Sessions/Revocation.antt =====
-- `revokeUser` drops every session of a user, and no other.
use big_project.Common.{
  String, ◌≡◌, refl, sym, subst, ◌∙◌, inl, inr, Bool, true, false, none, some, List, [], ◌∷◌, ◌++◌,
  arith, eq_iff, ◌=ₛ◌, if◌then◌else◌, Bool-cases, Option-cases, All,
}
use big_project.JsMap
use mathlib.Core.List.{append-nil, append_assoc}
use big_project.JsMap.{IsMap, get-delete, IsFound, IsMap-IsFound, IsFound-delete}
use big_project.Shared.{AuthSession}
use big_project.Sessions.{StoredSession, Registry, delete, revoke_entries, revoke_user}
use big_project.Sessions.Lifetime.{delete-IsMap_sessions}

abbrev Entries : Type 0
Entries = List (String × StoredSession)

abbrev pub belongs : String → StoredSession → Bool
belongs user_id stored = stored.session.user.id =ₛ user_id

-- Whether the loop meets the token with a session of the user.
abbrev hits : String → String → Entries → Bool
hits u j [] = false
hits u j ((token, st) ∷ es) =
    if belongs u st then (if token =ₛ j then true else hits u j es) else hits u j es

get-delete_sessions :
    (r : Registry) (token j : String)
    → IsMap r.sessions
    → JsMap.get j (delete r token).0.sessions
      ≡ (if token =ₛ j then none else JsMap.get j r.sessions)
unfolding delete
get-delete_sessions r token j d = elim (Option-cases (JsMap.get token r.sessions)) [
  | inl e ↦ ground (arith, eq_iff token j)
  | inr (st, e) ↦ rw (e, delete) (get-delete token j r.sessions d)
]

revoke_entries-get :
    (u j : String) (es : Entries) (r : Registry)
    → IsMap r.sessions
    → JsMap.get j (revoke_entries u es r).0.sessions
      ≡ (if hits u j es then none else JsMap.get j r.sessions)
unfolding revoke_entries
revoke_entries-get u j [] r d = refl
revoke_entries-get u j ((token, st) ∷ es) r d = ground (
  arith,
  revoke_entries-get u j es r d,
  revoke_entries-get u j es (delete r token).0 (delete-IsMap_sessions r token d),
  get-delete_sessions r token j d,
)

hits_absent : (u j : String) (es : Entries) → JsMap.get j es ≡ none → hits u j es ≡ false
unfolding JsMap.get
hits_absent u j [] h = refl
hits_absent u j ((token, st) ∷ es) h = ground (arith, hits_absent u j es)

hits_lem :
    (u j : String) (es : Entries) (st : StoredSession)
    → IsMap es
    → JsMap.get j es ≡ some st
    → hits u j es ≡ belongs u st
unfolding JsMap.get
hits_lem u j [] st d h = cc
hits_lem u j ((token, w) ∷ es) st d h =
    ground (arith, hits_lem u j es st d.1, hits_absent u j es, eq_iff token j)

-- After `revokeUser` a token has the session that it had before, unless that was of the user: then
-- it has none.
pub get-revoke_user :
    (r : Registry) (user_id token : String)
    → IsMap r.sessions
    → JsMap.get token (revoke_user r user_id).0.sessions ≡ elim (JsMap.get token r.sessions) [
      | none ↦ none
      | some st ↦ if belongs user_id st then none else some st
    ]
unfolding revoke_user
get-revoke_user r u token d = elim (Option-cases (JsMap.get token r.sessions)) [
  | inl e ↦ ground (arith, revoke_entries-get u token r.sessions r d)
  | inr (st, e) ↦
      ground (arith, revoke_entries-get u token r.sessions r d, hits_lem u token r.sessions st d e)
]

-- The sessions of a user, in the order of the registry.
abbrev pub sessions_of : String → Entries → List AuthSession
sessions_of u [] = []
sessions_of u ((token, st) ∷ es) =
    if belongs u st then st.session ∷ sessions_of u es else sessions_of u es

delete_found :
    (r : Registry) (token : String) (st : StoredSession)
    → JsMap.get token r.sessions ≡ some st
    → ((delete r token).0.revoked ≡ r.revoked ++ st.session ∷ [])
      × ((delete r token).0.sessions ≡ JsMap.delete token r.sessions)
unfolding delete
delete_found r token st e = ground arith

revoke_entries-notifies :
    (u : String) (es : Entries) (r : Registry)
    → IsMap r.sessions
    → IsMap es
    → All (IsFound r.sessions) es
    → ((revoke_entries u es r).1 ≡ sessions_of u es)
      × ((revoke_entries u es r).0.revoked ≡ r.revoked ++ sessions_of u es)
unfolding revoke_entries
revoke_entries-notifies u [] r d de h = (refl, sym (append-nil r.revoked))
revoke_entries-notifies u ((token, st) ∷ es) r d (absent, de) (here, later) =
    elim (Bool-cases (belongs u st)) [
      | inr miss ↦ rw miss (revoke_entries-notifies u es r d de later)
      | inl hit ↦
          let q : Registry = (delete r token).0 in
          let found = delete_found r token st here in
          let rest = revoke_entries-notifies u es q (delete-IsMap_sessions r token d) de (
            subst (λ m. All (IsFound m) es) (sym found.1)
              (IsFound-delete token r.sessions es d absent later)) in
          rw hit (
            cc rest.0,
            rest.1 ∙ (rw found.0 (append_assoc r.revoked (st.session ∷ []) (sessions_of u es))),
          )
    ]

-- `revokeUser` returns the sessions of the user in the order of the registry, and reports each of
-- them, once, to the listener.
pub revoke_user-notifies :
    (r : Registry) (user_id : String)
    → IsMap r.sessions
    → ((revoke_user r user_id).1 ≡ sessions_of user_id r.sessions)
      × ((revoke_user r user_id).0.revoked ≡ r.revoked ++ sessions_of user_id r.sessions)
unfolding revoke_user
revoke_user-notifies r u d = revoke_entries-notifies u r.sessions r d d (IsMap-IsFound r.sessions d)
