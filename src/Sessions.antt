-- ===== src/Sessions.antt =====
-- apps/api/src/services/auth-session-registry.ts: `AuthSessionRegistry`. The timers of the runtime
-- are part of the state: `set_timeout` adds a pending timer under a fresh number, `clear_timeout`
-- drops it, and `fire` is a timer that has come due. The listener's calls are a log, newest last.
-- Each operation reads the clock once, as the argument `now`.
pub mod Rules
pub mod Reads
pub mod Lifetime
pub mod Revocation
pub mod Timers
mod Tests
use big_project.Common.{
  ℕ, zero, suc, ◌+◌, ◌-◌, ◌*◌, ◌/◌, ◌%◌, ◌≤◌, ◌<◌, min, max, String, ◌≡◌, refl, sym, ap, subst, ◌∙◌,
  ◌≢◌, ◌↔◌, ◌⊎◌, inl, inr, Bool, true, false, not, ◌&&◌, ◌||◌, Option, none, some, List, [], ◌∷◌,
  ◌++◌, map, arith, eq_iff, eq_refl, ◌=ₛ◌, ltb, leb, ◌==◌, if◌then◌else◌, ltb→lt, lt→ltb, le→leb,
  Bool-cases, Option-cases, length, find, filter, any, all, head?, length-append, length-filter-le,
  find-passes, All, All-append, All-filter, is_empty, before, includes_char,
}
use big_project.JsMap
use big_project.Shared.{AuthSession}

pub record StoredSession : Type 0 where
  pub session : AuthSession
  pub created_at : ℕ
  pub last_seen_at : ℕ
  pub expiry_timer : ℕ

pub record Timer : Type 0 where
  pub id : ℕ
  pub token : String
  pub due : ℕ

pub record Registry : Type 0 where
  pub sessions : List (String × StoredSession)
  pub absolute_ttl_ms : ℕ
  pub idle_ttl_ms : ℕ
  pub timers : List Timer
  pub next_timer : ℕ
  pub revoked : List AuthSession

-- `ABSOLUTE_TTL_MS` and `IDLE_TTL_MS`, the defaults of the constructor.
abbrev pub default_absolute_ttl_ms : ℕ
default_absolute_ttl_ms = 8 * 60 * 60 * 1000

abbrev pub default_idle_ttl_ms : ℕ
default_idle_ttl_ms = 30 * 60 * 1000

unfoldable pub init : Option ℕ → Option ℕ → Registry
init absolute idle = record {
  sessions = [];
  absolute_ttl_ms = elim absolute [ none ↦ default_absolute_ttl_ms | some ms ↦ ms ];
  idle_ttl_ms = elim idle [ none ↦ default_idle_ttl_ms | some ms ↦ ms ];
  timers = [];
  next_timer = 0;
  revoked = [];
}

abbrev pub clear_timeout : ℕ → List Timer → List Timer
clear_timeout id = filter (λ t. not (t.id == id))

abbrev pub clear_previous : Option ℕ → List Timer → List Timer
clear_previous none ts = ts
clear_previous (some id) ts = clear_timeout id ts

abbrev pub expires_at : Registry → ℕ → ℕ → ℕ
expires_at r created seen = min (created + r.absolute_ttl_ms) (seen + r.idle_ttl_ms)

-- `Math.max(0, expiresAt - now)` from now on is the later of the two.
unfoldable pub store : Registry → ℕ → String → AuthSession → ℕ → ℕ → Option ℕ → Registry
store r now token session created seen previous = record r {
  sessions =
      JsMap.set token
        (record {
          session = session;
          created_at = created;
          last_seen_at = seen;
          expiry_timer = r.next_timer;
        })
        r.sessions;
  timers =
      record { id = r.next_timer; token = token; due = now + (expires_at r created seen - now) }
      ∷ clear_previous previous r.timers;
  next_timer = r.next_timer + 1;
}

-- `!this.sessions.delete(token)` cannot hold where the token was found.
unfoldable pub delete : Registry → String → Registry × Option AuthSession
delete r token = elim (JsMap.get token r.sessions) [
  | none ↦ (r, none)
  | some stored ↦ (
    record r {
      sessions = JsMap.delete token r.sessions;
      timers = clear_timeout stored.expiry_timer r.timers;
      revoked = r.revoked ++ stored.session ∷ [];
    },
    some stored.session,
  )
]

-- Whether one of the two lifetimes has run out.
abbrev pub is_over : Registry → ℕ → StoredSession → Bool
is_over r now stored =
    leb (stored.created_at + r.absolute_ttl_ms) now || leb (stored.last_seen_at + r.idle_ttl_ms) now

unfoldable pub get : Registry → ℕ → String → Registry × Option AuthSession
unfolding store delete
get r now token = elim (JsMap.get token r.sessions) [
  | none ↦ (r, none)
  | some stored ↦ if is_over r now stored then ((delete r token).0, none) else (
    store r now token stored.session stored.created_at now (some stored.expiry_timer),
    some stored.session,
  )
]

unfoldable pub set : Registry → ℕ → String → AuthSession → Registry
unfolding store
set r now token session = elim (JsMap.get token r.sessions) [
  | none ↦ store r now token session now now none
  | some stored ↦ store r now token session stored.created_at now (some stored.expiry_timer)
]

-- The loop of `revokeUser` over the entries that were there when it began.
unfoldable pub revoke_entries :
    String → List (String × StoredSession) → Registry → Registry × List AuthSession
unfolding delete
revoke_entries user_id [] r = (r, [])
revoke_entries user_id ((token, stored) ∷ rest) r =
    let skip = revoke_entries user_id rest r in
    let drop = revoke_entries user_id rest (delete r token).0 in
    if stored.session.user.id =ₛ user_id then (drop.0, stored.session ∷ drop.1) else skip

unfoldable pub revoke_user : Registry → String → Registry × List AuthSession
unfolding revoke_entries
revoke_user r user_id = revoke_entries user_id r.sessions r

unfoldable pub expire : Registry → ℕ → String → Registry
unfolding store delete
expire r now token = elim (JsMap.get token r.sessions) [
  | none ↦ r
  | some stored ↦
      if is_over r now stored
      then (delete r token).0
      else store r now token stored.session stored.created_at stored.last_seen_at
          (some stored.expiry_timer)
]

-- A pending timer that has come due leaves the pending ones and calls `expire`.
unfoldable pub fire : Registry → ℕ → Timer → Registry
unfolding expire
fire r now timer = expire (record r { timers = clear_timeout timer.id r.timers }) now timer.token

-- What may happen to a registry.
pub data Call : Type 0 where
  gets : String → Call
  sets : String → AuthSession → Call
  deletes : String → Call
  revokes : String → Call
  fires : Timer → Call

unfoldable pub step : Registry → ℕ → Call → Registry
unfolding get set delete revoke_user fire
step r now (gets token) = (get r now token).0
step r now (sets token session) = set r now token session
step r now (deletes token) = (delete r token).0
step r now (revokes user_id) = (revoke_user r user_id).0
step r now (fires timer) = fire r now timer

-- The calls of a history, each with its time.
unfoldable pub run : Registry → List (ℕ × Call) → Registry
run r [] = r
run r ((now, c) ∷ calls) = run (step r now c) calls
