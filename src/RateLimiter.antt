-- ===== src/RateLimiter.antt =====
-- apps/api/src/services/login-rate-limiter.ts: `RequestRateLimiter` with its three instances. The
-- buckets are a map in insertion order; time is an argument. A `Host` holds what the code takes
-- from elsewhere: the digest of the runtime's crypto module, the trimming and lower-casing tables
-- of the runtime, and the proxy setting of the environment.
pub mod Buckets
pub mod Window
pub mod History
pub mod Bounds
mod Tests
use big_project.Common.{
  ℕ, suc, ◌+◌, ◌-◌, ◌/◌, ◌≡◌, Bool, true, false, not, List, [], ◌∷◌, ◌++◌, Option, none, some,
  String, ◌=ₛ◌, arith, ltb, leb, if◌then◌else◌, length, filter, head?, before, is_empty,
}
use Prim.Native.String
use big_project.JsMap.{get, set}

abbrev pub window_ms : ℕ
window_ms = 60000

abbrev pub maximum_buckets : ℕ
maximum_buckets = 20000

pub record Bucket : Type 0 where
  pub count : ℕ
  pub reset_at : ℕ

abbrev pub Buckets : Type 0
Buckets = List (String × Bucket)

-- A header is absent, one text or several.
pub data HeaderValue : Type 0 where
  absent : HeaderValue
  single : String → HeaderValue
  several : List String → HeaderValue

pub record LoginRequestContext : Type 0 where
  pub remote_address : Option String
  pub forwarded_for : HeaderValue

pub record RateLimitOptions : Type 0 where
  pub client_limit : ℕ
  pub subject_limit : ℕ
  pub namespace : String

pub record Host : Type 0 where
  pub digest : String → String
  pub trim : String → String
  pub to_lower_case : String → String
  pub trust_proxy : Bool

abbrev pub login_options : RateLimitOptions
login_options = record { client_limit = 20; subject_limit = 10; namespace = "login-account" }

abbrev pub execution_options : RateLimitOptions
execution_options = record {
  client_limit = 12;
  subject_limit = 6;
  namespace = "candidate-execution";
}

abbrev pub creation_options : RateLimitOptions
creation_options = record { client_limit = 6; subject_limit = 3; namespace = "account-creation" }

-- The bucket that the request counts in: a new one where none is live.
unfoldable pub current_bucket : Option Bucket → ℕ → Bucket
current_bucket none now = record { count = 0; reset_at = now + window_ms }
current_bucket (some b) now =
    if leb b.reset_at now then record { count = 0; reset_at = now + window_ms } else b

-- The new buckets, and the milliseconds to wait (0 if the request is within the limit). The
-- subtraction is of an earlier time.
unfoldable pub consume_bucket : String → ℕ → ℕ → Buckets → Buckets × ℕ
unfolding current_bucket
consume_bucket key limit now m =
    let old = current_bucket (get key m) now in
    let bucket = record old { count = old.count + 1 } in
    (set key bucket m, if ltb limit bucket.count then bucket.reset_at - now else 0)

-- The `while` loop: drop the oldest entries, but stop at an empty key.
unfoldable pub evict_oldest : Buckets → Buckets
evict_oldest [] = []
evict_oldest ((key, b) ∷ m) =
    let rest = evict_oldest m in
    if leb maximum_buckets (length ((key, b) ∷ m))
    then if is_empty key then (key, b) ∷ m else rest
    else (key, b) ∷ m

unfoldable pub remove_expired_buckets : ℕ → Buckets → Buckets
unfolding evict_oldest
remove_expired_buckets now m =
    if ltb (length m) maximum_buckets
    then m
    else evict_oldest (filter (λ e. not (leb e.1.reset_at now)) m)

-- `Array.isArray(forwarded) ? forwarded[0] : forwarded`.
unfoldable pub header_text : HeaderValue → Option String
header_text absent = none
header_text (single s) = some s
header_text (several ss) = head? ss

-- `a?.trim()`, with the empty text for `undefined`, which is as falsy.
abbrev trimmed : (String → String) → Option String → String
trimmed trim none = ""
trimmed trim (some s) = trim s

-- `Math.ceil(ms / 1000)`.
abbrev pub seconds : ℕ → ℕ
seconds ms = (ms + 999) / 1000

module _ (host : Host) where
  forwarded_address : LoginRequestContext → String
  unfolding header_text
  forwarded_address request = elim (header_text request.forwarded_for) [
    | none ↦ ""
    | some value ↦ host.trim (before b',' value)
  ]

  socket_address : LoginRequestContext → String
  socket_address request =
      let address = trimmed host.trim request.remote_address in
      if is_empty address then "unknown" else address

  unfoldable pub client_address : LoginRequestContext → String
  unfolding forwarded_address socket_address
  client_address request =
      if host.trust_proxy
      then if is_empty (forwarded_address request)
        then socket_address request
        else forwarded_address request
      else socket_address request

  unfoldable pub client_key : LoginRequestContext → String
  unfolding client_address
  client_key request = host.digest (String.◌++◌ "client:" (client_address request))

  -- The second argument is the submitted account, `none` if it is no text.
  unfoldable pub subject_key : String → Option String → String
  subject_key namespace none = host.digest (String.◌++◌ namespace (String.◌++◌ ":" "invalid"))
  subject_key namespace (some email) =
      host.digest (String.◌++◌ namespace (String.◌++◌ ":" (host.to_lower_case (host.trim email))))

  -- One request: the new buckets, and the seconds to wait if it is refused.
  unfoldable pub consume :
      RateLimitOptions → LoginRequestContext → Option String → ℕ → Buckets → Buckets × Option ℕ
  consume options request email now m =
      let kept = remove_expired_buckets now m in
      let (by_client, client_retry) =
        consume_bucket (client_key request) options.client_limit now kept in
      let (by_subject, subject_retry) =
        consume_bucket (subject_key options.namespace email) options.subject_limit now by_client in
      if ltb 0 client_retry
      then (by_client, some (seconds client_retry))
      else (by_subject, if ltb 0 subject_retry then some (seconds subject_retry) else none)
