-- ===== src/Sessions/Reads.antt =====
-- What `get` returns and leaves behind.
use big_project.Common.{
  eq_iff, ◌≢◌, ℕ, ◌+◌, ◌<◌, String, ◌≡◌, refl, ◌⊎◌, inl, inr, true, false, none, some, [], ◌∷◌,
  ◌++◌, arith, eq_refl, Bool-cases, Option-cases,
}
use big_project.JsMap
use big_project.JsMap.{IsMap, get-set, get-delete}
use big_project.Shared.{AuthSession}
use big_project.Sessions.{StoredSession, Registry, is_over, get, set, store}

-- The entry of a token that has just been used.
abbrev pub IsRenewed : Registry → ℕ → String → StoredSession → Type 0
IsRenewed r now token old =
    (new : StoredSession) × (JsMap.get token r.sessions ≡ some new)
    × (new.session ≡ old.session)
    × (new.created_at ≡ old.created_at)
    × (new.last_seen_at ≡ now)

-- The three outcomes of `get`: the token is unknown and nothing changes; one of its lifetimes is
-- over, so that it is refused, dropped and reported to the listener; or its session is returned,
-- and the entry is renewed with its creation time kept.
pub get_outcome :
    (r : Registry) (now : ℕ) (token : String)
    → IsMap r.sessions
    → ((JsMap.get token r.sessions ≡ none) × (get r now token ≡ (r, none)))
      ⊎ ((stored : StoredSession) × (JsMap.get token r.sessions ≡ some stored)
          × (((is_over r now stored ≡ true)
                × ((get r now token).1 ≡ none)
                × (JsMap.get token (get r now token).0.sessions ≡ none)
                × ((get r now token).0.revoked ≡ r.revoked ++ stored.session ∷ []))
              ⊎ ((is_over r now stored ≡ false)
                  × ((get r now token).1 ≡ some stored.session)
                  × IsRenewed (get r now token).0 now token stored)))
unfolding get
get_outcome r now token distinct = elim (Option-cases (JsMap.get token r.sessions)) [
  | inl e ↦ inl (e, rw (e, get))
  | inr (stored, e) ↦ inr (
    stored,
    e,
    elim (Bool-cases (is_over r now stored)) [
      | inl over ↦
          let d = get-delete token token r.sessions distinct in
          inl (over, ground arith, ground (arith, eq_refl token), ground arith)
      | inr live ↦
          let new : StoredSession = record {
            session = stored.session;
            created_at = stored.created_at;
            last_seen_at = now;
            expiry_timer = r.next_timer;
          } in
          inr (
            live,
            ground arith,
            (
              new,
              ground (arith, get-set token token new r.sessions, eq_refl token),
              refl,
              refl,
              refl,
            ),
          )
    ],
  )
]

-- A session is returned at most `absolute_ttl_ms` after its creation and `idle_ttl_ms` after its
-- last use, and it is the one stored under the token.
pub get-lt-expires_at :
    (r : Registry) (now : ℕ) (token : String) (s : AuthSession)
    → (get r now token).1 ≡ some s
    → (stored : StoredSession) × (JsMap.get token r.sessions ≡ some stored)
      × (stored.session ≡ s)
      × (now < stored.created_at + r.absolute_ttl_ms)
      × (now < stored.last_seen_at + r.idle_ttl_ms)
unfolding get
get-lt-expires_at r now token s h = elim (Option-cases (JsMap.get token r.sessions)) [
  | inl e ↦ absurd (ground arith)
  | inr (stored, e) ↦ (stored, e, ground arith, ground arith, ground arith)
]

pub get_stored-set :
    (r : Registry) (now : ℕ) (token : String) (s : AuthSession)
    → (stored : StoredSession) × (JsMap.get token (set r now token s).sessions ≡ some stored)
      × (stored.session ≡ s)
unfolding set store
get_stored-set r now token s = elim (Option-cases (JsMap.get token r.sessions)) [
  | inl e ↦
      let new : StoredSession = record {
        session = s;
        created_at = now;
        last_seen_at = now;
        expiry_timer = r.next_timer;
      } in
      (new, ground (arith, get-set token token new r.sessions, eq_refl token), refl)
  | inr (old, e) ↦
      let new : StoredSession = record {
        session = s;
        created_at = old.created_at;
        last_seen_at = now;
        expiry_timer = r.next_timer;
      } in
      (new, ground (arith, get-set token token new r.sessions, eq_refl token), refl)
]

-- `set` keeps the sessions of other tokens.
pub get_other-set :
    (r : Registry) (now : ℕ) (token other : String) (s : AuthSession)
    → token ≢ other
    → JsMap.get other (set r now token s).sessions ≡ JsMap.get other r.sessions
unfolding set store
get_other-set r now token other s differs = elim (Option-cases (JsMap.get token r.sessions)) [
  | inl e ↦
      let new : StoredSession = record {
        session = s;
        created_at = now;
        last_seen_at = now;
        expiry_timer = r.next_timer;
      } in
      ground (arith, get-set token other new r.sessions, eq_iff token other)
  | inr (old, e) ↦
      let new : StoredSession = record {
        session = s;
        created_at = old.created_at;
        last_seen_at = now;
        expiry_timer = r.next_timer;
      } in
      ground (arith, get-set token other new r.sessions, eq_iff token other)
]
