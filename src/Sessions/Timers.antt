-- ===== src/Sessions/Timers.antt =====
-- Every pending timer is the expiry timer of a stored session: none is leaked or left behind.
use big_project.Common.{
  ℕ, String, ◌≡◌, refl, inl, inr, not, Option, none, some, List, [], ◌∷◌, arith, eq_iff, eq_refl,
  ◌=ₛ◌, ◌==◌, Bool-cases, All, All-filter,
}
use big_project.JsMap
use big_project.JsMap.{IsMap, get-set, get-delete}
use big_project.Shared.{AuthSession}
use big_project.Sessions.{
  StoredSession, Registry, Timer, Call, gets, sets, deletes, revokes, fires, delete, store,
  revoke_entries, revoke_user, fire, step, clear_timeout, clear_previous, run, init,
}
use big_project.Sessions.Rules.{get_rule, set_rule, delete_rule, expire_rule}
use big_project.Sessions.Lifetime.{delete-IsMap_sessions, step-IsMap}

abbrev pub Owned : List (String × StoredSession) → Timer → Type 0
Owned sessions t =
    (st : StoredSession) × (JsMap.get t.token sessions ≡ some st) × (st.expiry_timer ≡ t.id)

abbrev pub NoLeak : Registry → Type 0
NoLeak r = All (Owned r.sessions) r.timers

-- The timers that stay pending keep their owner when a token's entry and timer are replaced.
Owned-set :
    (token : String) (new : StoredSession) (m : List (String × StoredSession)) (previous : Option ℕ)
    (ts : List Timer)
    → ((st : StoredSession) → JsMap.get token m ≡ some st → previous ≡ some st.expiry_timer)
    → All (Owned m) ts
    → All (Owned (JsMap.set token new m)) (clear_previous previous ts)
Owned-set token new m none [] prev h = tt
Owned-set token new m (some id) [] prev h = tt
Owned-set token new m none (t ∷ ts) prev ((st, was, own), h) = (
  (st, ground (arith, get-set token t.token new m, eq_iff token t.token, prev st), own),
  Owned-set token new m none ts prev h,
)
Owned-set token new m (some id) (t ∷ ts) prev ((st, was, own), h) =
    let rest = Owned-set token new m (some id) ts prev h in
    elim (Bool-cases (t.id == id)) [
      | inl gone ↦ rw gone rest
      | inr stays ↦ rw stays (
        (st, ground (arith, get-set token t.token new m, eq_iff token t.token, prev st), own),
        rest,
      )
    ]

Owned-delete :
    (token : String) (old : StoredSession) (m : List (String × StoredSession)) (ts : List Timer)
    → IsMap m
    → JsMap.get token m ≡ some old
    → All (Owned m) ts
    → All (Owned (JsMap.delete token m)) (clear_timeout old.expiry_timer ts)
Owned-delete token old m [] d here h = tt
Owned-delete token old m (t ∷ ts) d here ((st, was, own), h) =
    let rest = Owned-delete token old m ts d here h in
    elim (Bool-cases (t.id == old.expiry_timer)) [
      | inl gone ↦ rw gone rest
      | inr stays ↦
          rw stays
            ((st, ground (arith, get-delete token t.token m d, eq_iff token t.token), own), rest)
    ]

store-NoLeak :
    (now created seen : ℕ) (r : Registry) (token : String) (s : AuthSession) (previous : Option ℕ)
    → ((st : StoredSession)
        → JsMap.get token r.sessions ≡ some st
        → previous ≡ some st.expiry_timer)
    → NoLeak r
    → NoLeak (store r now token s created seen previous)
unfolding store
store-NoLeak now created seen r token s previous prev h =
    let new : StoredSession = record {
      session = s;
      created_at = created;
      last_seen_at = seen;
      expiry_timer = r.next_timer;
    } in
    (
      (new, ground (arith, get-set token token new r.sessions, eq_refl token), refl),
      Owned-set token new r.sessions previous r.timers prev h,
    )

renew-NoLeak :
    (now seen : ℕ) (r : Registry) (token : String) (s : AuthSession) (st : StoredSession)
    → JsMap.get token r.sessions ≡ some st
    → NoLeak r
    → NoLeak (store r now token s st.created_at seen (some st.expiry_timer))
renew-NoLeak now seen r token s st was h =
    store-NoLeak now st.created_at seen r token s (some st.expiry_timer) (λ st' was'. ground arith)
      h

delete-NoLeak :
    (r : Registry) (token : String) → IsMap r.sessions → NoLeak r → NoLeak (delete r token).0
delete-NoLeak r token d h =
    delete_rule NoLeak r 0 token h (λ st was. Owned-delete token st r.sessions r.timers d was h)

revoke_entries-NoLeak :
    (u : String) (es : List (String × StoredSession)) (r : Registry)
    → IsMap r.sessions
    → NoLeak r
    → NoLeak (revoke_entries u es r).0
unfolding revoke_entries
revoke_entries-NoLeak u [] r d h = h
revoke_entries-NoLeak u ((token, st) ∷ es) r d h = elim (Bool-cases (st.session.user.id =ₛ u)) [
  | inl hit ↦ rw hit (
      revoke_entries-NoLeak u es (delete r token).0 (delete-IsMap_sessions r token d)
        (delete-NoLeak r token d h))
  | inr miss ↦ rw miss (revoke_entries-NoLeak u es r d h)
]

-- Every call keeps it so that each pending timer is the expiry timer of a session that is stored
-- under the timer's token.
pub step-NoLeak :
    (r : Registry) (now : ℕ) (c : Call) → IsMap r.sessions → NoLeak r → NoLeak (step r now c)
unfolding step revoke_user fire
step-NoLeak r now (gets token) d h =
    get_rule NoLeak r now token h (delete-NoLeak r token d h)
      (λ st was. renew-NoLeak now now r token st.session st was h)
step-NoLeak r now (sets token s) d h =
    set_rule NoLeak r now token s
      (λ absent. store-NoLeak now now now r token s none (λ st was. absurd (ground arith)) h)
      (λ st was. renew-NoLeak now now r token s st was h)
step-NoLeak r now (deletes token) d h = delete-NoLeak r token d h
step-NoLeak r now (revokes u) d h = revoke_entries-NoLeak u r.sessions r d h
step-NoLeak r now (fires t) d h =
    let q : Registry = record r { timers = clear_timeout t.id r.timers } in
    let k : NoLeak q = All-filter (Owned r.sessions) (λ u. not (u.id == t.id)) r.timers h in
    expire_rule NoLeak q now t.token k (delete-NoLeak q t.token d k)
      (λ st was. renew-NoLeak now st.last_seen_at q t.token st.session st was k)

run_keeps :
    (r : Registry) (calls : List (ℕ × Call)) → IsMap r.sessions → NoLeak r → NoLeak (run r calls)
unfolding run
run_keeps r [] d h = h
run_keeps r ((now, c) ∷ calls) d h =
    run_keeps (step r now c) calls (step-IsMap r now c d) (step-NoLeak r now c d h)

-- After any history of calls on a new registry, each pending timer is the expiry timer of a
-- session that is stored under the timer's token.
pub run-NoLeak :
    (absolute idle : Option ℕ) (calls : List (ℕ × Call)) → NoLeak (run (init absolute idle) calls)
unfolding init
run-NoLeak absolute idle calls = run_keeps (init absolute idle) calls tt tt
