-- ===== src/Sessions/Lifetime.antt =====
-- The absolute lifetime: no call moves a stored session's creation time.
use big_project.Common.{
  ℕ, String, ◌≡◌, refl, sym, subst, ◌∙◌, ◌⊎◌, inl, inr, Option, none, some, List, [], ◌∷◌, arith,
  eq_iff, ◌=ₛ◌, Bool-cases,
}
use big_project.JsMap
use big_project.JsMap.{IsMap, get-set, get-delete, set-IsMap, delete-IsMap}
use big_project.Shared.{AuthSession}
use big_project.Sessions.{
  StoredSession, Registry, Call, gets, sets, deletes, revokes, fires, delete, store, revoke_entries,
  revoke_user, fire, step, clear_timeout, run, init,
}
use big_project.Sessions.Rules.{get_rule, set_rule, delete_rule, expire_rule}

-- Each entry of the second registry is as old as the entry that its token has in the first.
abbrev pub KeepsAge : Registry → Registry → Type 0
KeepsAge r r' =
    (token : String) (new : StoredSession)
    → JsMap.get token r'.sessions ≡ some new
    → (old : StoredSession) × (JsMap.get token r.sessions ≡ some old)
      × (new.created_at ≡ old.created_at)

delete-shrinks :
    (r : Registry) (token : String)
    → IsMap r.sessions
    → (j : String) (n : StoredSession) → JsMap.get j (delete r token).0.sessions ≡ some n
    → JsMap.get j r.sessions ≡ some n
delete-shrinks r token d =
    delete_rule
      (λ q.
        (j : String) (n : StoredSession)
        → JsMap.get j q.sessions ≡ some n
        → JsMap.get j r.sessions ≡ some n)
      r 0 token (λ j n e. e) (λ st was j n e. ground (arith, get-delete token j r.sessions d))

pub delete-IsMap_sessions :
    (r : Registry) (token : String) → IsMap r.sessions → IsMap (delete r token).0.sessions
delete-IsMap_sessions r token d =
    delete_rule (λ q. IsMap q.sessions) r 0 token d (λ st was. delete-IsMap token r.sessions d)

revoke_entries-shrinks :
    (u : String) (es : List (String × StoredSession)) (r : Registry)
    → IsMap r.sessions
    → (j : String) (n : StoredSession) → JsMap.get j (revoke_entries u es r).0.sessions ≡ some n
    → JsMap.get j r.sessions ≡ some n
unfolding revoke_entries
revoke_entries-shrinks u [] r d j n e = e
revoke_entries-shrinks u ((token, st) ∷ es) r d j n e =
    elim (Bool-cases (st.session.user.id =ₛ u)) [
      | inl hit ↦ delete-shrinks r token d j n (
          revoke_entries-shrinks u es (delete r token).0 (delete-IsMap_sessions r token d) j n
            (rw (hit, revoke_entries) at e))
      | inr miss ↦ revoke_entries-shrinks u es r d j n (rw (miss, revoke_entries) at e)
    ]

pub revoke_entries-IsMap :
    (u : String) (es : List (String × StoredSession)) (r : Registry)
    → IsMap r.sessions
    → IsMap (revoke_entries u es r).0.sessions
unfolding revoke_entries
revoke_entries-IsMap u [] r d = d
revoke_entries-IsMap u ((token, st) ∷ es) r d = ground (
  arith,
  revoke_entries-IsMap u es r d,
  revoke_entries-IsMap u es (delete r token).0 (delete-IsMap_sessions r token d),
)

delete-KeepsAge : (r : Registry) (token : String) → IsMap r.sessions → KeepsAge r (delete r token).0
delete-KeepsAge r token d j new h = (new, delete-shrinks r token d j new h, refl)

renew-KeepsAge :
    (now seen : ℕ) (r : Registry) (token : String) (s : AuthSession) (st : StoredSession)
    → JsMap.get token r.sessions ≡ some st
    → KeepsAge r (store r now token s st.created_at seen (some st.expiry_timer))
unfolding store
renew-KeepsAge now seen r token s st was j new h =
    let g =
      get-set token j
        (record {
          session = s;
          created_at = st.created_at;
          last_seen_at = seen;
          expiry_timer = r.next_timer;
        })
        r.sessions in
    elim (Bool-cases (token =ₛ j)) [
      | inr e ↦ (new, ground arith, refl)
      | inl e ↦ (
        st,
        subst (λ k. JsMap.get k r.sessions ≡ some st) ((eq_iff token j).0 e) was,
        ground arith,
      )
    ]

-- How an entry comes about in one call: it is as old as before, or the call sets its token, which
-- had no entry, and it is created now.
abbrev pub Ages : ℕ → Call → Registry → Registry → Type 0
Ages now c r r' =
    (token : String) (new : StoredSession)
    → JsMap.get token r'.sessions ≡ some new
    → ((old : StoredSession) × (JsMap.get token r.sessions ≡ some old)
        × (new.created_at ≡ old.created_at))
      ⊎ ((JsMap.get token r.sessions ≡ none)
          × (c ≡ sets token new.session)
          × (new.created_at ≡ now))

fresh-Ages :
    (now : ℕ) (r : Registry) (token : String) (s : AuthSession)
    → JsMap.get token r.sessions ≡ none
    → Ages now (sets token s) r (store r now token s now now none)
unfolding store
fresh-Ages now r token s absent j new h =
    let g =
      get-set token j
        (record { session = s; created_at = now; last_seen_at = now; expiry_timer = r.next_timer })
        r.sessions in
    elim (Bool-cases (token =ₛ j)) [
      | inr e ↦ inl (new, ground arith, refl)
      | inl e ↦
          let q = (eq_iff token j).0 e in
          inr (subst (λ k. JsMap.get k r.sessions ≡ none) q absent, ground arith, ground arith)
    ]

-- No call makes a stored session younger: each entry after it has the creation time of the entry
-- that its token had before, or the call sets the token, which had none, and creates it now.
pub step-Ages : (r : Registry) (now : ℕ) (c : Call) → IsMap r.sessions → Ages now c r (step r now c)
unfolding step revoke_user fire
step-Ages r now (gets token) d j n e = inl (
    get_rule (KeepsAge r) r now token (λ j n e. (n, e, refl)) (delete-KeepsAge r token d)
      (λ st was. renew-KeepsAge now now r token st.session st was) j n e)
step-Ages r now (sets token s) d j n e =
    set_rule (Ages now (sets token s) r) r now token s (fresh-Ages now r token s)
      (λ st was j n e. inl (renew-KeepsAge now now r token s st was j n e)) j n e
step-Ages r now (deletes token) d j n e = inl (delete-KeepsAge r token d j n e)
step-Ages r now (revokes u) d j n e = inl (n, revoke_entries-shrinks u r.sessions r d j n e, refl)
step-Ages r now (fires t) d j n e =
    let q : Registry = record r { timers = clear_timeout t.id r.timers } in
    inl (
      expire_rule (KeepsAge q) q now t.token (λ j n e. (n, e, refl)) (delete-KeepsAge q t.token d)
        (λ st was. renew-KeepsAge now st.last_seen_at q t.token st.session st was) j n e)

store-IsMap :
    (now created seen : ℕ) (r : Registry) (token : String) (s : AuthSession) (previous : Option ℕ)
    → IsMap r.sessions
    → IsMap (store r now token s created seen previous).sessions
unfolding store
store-IsMap now created seen r token s previous d =
    set-IsMap token
      (record {
        session = s;
        created_at = created;
        last_seen_at = seen;
        expiry_timer = r.next_timer;
      })
      r.sessions d

-- Each call keeps one entry for a token.
pub step-IsMap :
    (r : Registry) (now : ℕ) (c : Call) → IsMap r.sessions → IsMap (step r now c).sessions
unfolding step revoke_user fire
step-IsMap r now (gets token) d =
    get_rule (λ q. IsMap q.sessions) r now token d (delete-IsMap_sessions r token d)
      (λ st was. store-IsMap now st.created_at now r token st.session (some st.expiry_timer) d)
step-IsMap r now (sets token s) d =
    set_rule (λ q. IsMap q.sessions) r now token s (λ e. store-IsMap now now now r token s none d)
      (λ st was. store-IsMap now st.created_at now r token s (some st.expiry_timer) d)
step-IsMap r now (deletes token) d = delete-IsMap_sessions r token d
step-IsMap r now (revokes u) d = revoke_entries-IsMap u r.sessions r d
step-IsMap r now (fires t) d =
    let q : Registry = record r { timers = clear_timeout t.id r.timers } in
    expire_rule (λ q. IsMap q.sessions) q now t.token d (delete-IsMap_sessions q t.token d)
      (λ st was.
        store-IsMap now st.created_at st.last_seen_at q t.token st.session (some st.expiry_timer) d)

-- A call of the history that sets the token at a time when no session is stored under it.
abbrev pub CreatedAt : Registry → String → ℕ → List (ℕ × Call) → Type 0
CreatedAt r token t [] = ⊥
CreatedAt r token t ((now, c) ∷ calls) =
    ((s : AuthSession) × (c ≡ sets token s) × (now ≡ t) × (JsMap.get token r.sessions ≡ none))
    ⊎ CreatedAt (step r now c) token t calls

run-CreatedAt :
    (r : Registry) (calls : List (ℕ × Call)) (token : String) (new : StoredSession)
    → IsMap r.sessions
    → JsMap.get token (run r calls).sessions ≡ some new
    → ((old : StoredSession) × (JsMap.get token r.sessions ≡ some old)
        × (new.created_at ≡ old.created_at))
      ⊎ CreatedAt r token new.created_at calls
unfolding run
run-CreatedAt r [] token new d e = inl (new, e, refl)
run-CreatedAt r ((now, c) ∷ calls) token new d e =
    elim (run-CreatedAt (step r now c) calls token new (step-IsMap r now c d) e) [
      | inr later ↦ inr (inr later)
      | inl (mid, was, same) ↦ elim (step-Ages r now c d token mid was) [
        | inl (old, before_it, as_old) ↦ inl (old, before_it, same ∙ as_old)
        | inr (absent, made, now_it) ↦ inr (inl (mid.session, made, sym now_it ∙ sym same, absent))
      ]
    ]

-- After any history of calls on a new registry, the creation time of a stored session is the time
-- of a call of the history that set its token when no session was stored under it: no use, no timer
-- and no further call that sets the token moves it.
pub run-created_at :
    (absolute idle : Option ℕ) (calls : List (ℕ × Call)) (token : String) (stored : StoredSession)
    → JsMap.get token (run (init absolute idle) calls).sessions ≡ some stored
    → CreatedAt (init absolute idle) token stored.created_at calls
unfolding init
run-created_at absolute idle calls token stored e =
    elim (run-CreatedAt (init absolute idle) calls token stored tt e) [
      | inr made ↦ made
      | inl (old, was, same) ↦ absurd (unfold JsMap.get in cc)
    ]
