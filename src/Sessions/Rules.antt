-- ===== src/Sessions/Rules.antt =====
-- Case rules: an operation keeps the registry, deletes one entry or stores one.
use big_project.Common.{
  ℕ, String, ◌≡◌, inl, inr, none, some, [], ◌∷◌, ◌++◌, Bool-cases, Option-cases,
}
use big_project.JsMap
use big_project.Shared.{AuthSession}
use big_project.Sessions.{
  StoredSession, Registry, is_over, get, set, delete, store, expire, clear_timeout,
}

module _ {ℓ} (P : Registry → Type ℓ) (r : Registry) (now : ℕ) (token : String) where
  pub get_rule :
      P r
      → P (delete r token).0
      → ((st : StoredSession)
          → JsMap.get token r.sessions ≡ some st
          → P (store r now token st.session st.created_at now (some st.expiry_timer)))
      → P (get r now token).0
  unfolding get
  get_rule keep drop renew = elim (Option-cases (JsMap.get token r.sessions)) [
    | inl e ↦ rw (e, get) keep
    | inr (st, e) ↦ elim (Bool-cases (is_over r now st)) [
      | inl over ↦ rw (e, get, over) drop
      | inr live ↦ rw (e, get, live) (renew st e)
    ]
  ]

  pub expire_rule :
      P r
      → P (delete r token).0
      → ((st : StoredSession)
          → JsMap.get token r.sessions ≡ some st
          → P (store r now token st.session st.created_at st.last_seen_at (some st.expiry_timer)))
      → P (expire r now token)
  unfolding expire
  expire_rule keep drop renew = elim (Option-cases (JsMap.get token r.sessions)) [
    | inl e ↦ rw (e, expire) keep
    | inr (st, e) ↦ elim (Bool-cases (is_over r now st)) [
      | inl over ↦ rw (e, expire, over) drop
      | inr live ↦ rw (e, expire, live) (renew st e)
    ]
  ]

  pub set_rule :
      (session : AuthSession)
      → (JsMap.get token r.sessions ≡ none → P (store r now token session now now none))
      → ((st : StoredSession)
          → JsMap.get token r.sessions ≡ some st
          → P (store r now token session st.created_at now (some st.expiry_timer)))
      → P (set r now token session)
  unfolding set
  set_rule session fresh renew = elim (Option-cases (JsMap.get token r.sessions)) [
    | inl e ↦ rw (e, set) (fresh e)
    | inr (st, e) ↦ rw (e, set) (renew st e)
  ]

  pub delete_rule :
      P r
      → ((st : StoredSession)
          → JsMap.get token r.sessions ≡ some st
          → P (record r {
            sessions = JsMap.delete token r.sessions;
            timers = clear_timeout st.expiry_timer r.timers;
            revoked = r.revoked ++ st.session ∷ [];
          }))
      → P (delete r token).0
  unfolding delete
  delete_rule keep drop = elim (Option-cases (JsMap.get token r.sessions)) [
    | inl e ↦ rw (e, delete) keep
    | inr (st, e) ↦ rw (e, delete) (drop st e)
  ]
