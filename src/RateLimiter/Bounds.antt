-- ===== src/RateLimiter/Bounds.antt =====
-- What holds of the buckets after every request, whatever the requests are.
use big_project.Common.{
  ℕ, ◌+◌, ◌≤◌, String, ◌≡◌, inl, inr, false, Option, none, some, [], ◌∷◌, arith, ltb, Bool-cases,
  length, All, is_empty,
}
use big_project.JsMap.{get, IsMap, set-All, get-All}
use big_project.RateLimiter.{
  Bucket, Buckets, LoginRequestContext, RateLimitOptions, Host, window_ms, maximum_buckets,
  consume_bucket, remove_expired_buckets, client_key, subject_key, consume,
}
use big_project.RateLimiter.Buckets.{
  current_bucket_within, consume_bucket_wait, consume_bucket-IsMap, length-consume_bucket,
  remove_expired_buckets-IsMap, HasText, remove_expired_buckets-All, length-remove_expired_buckets,
}

-- No bucket lives longer than a window from now.
abbrev pub Within : ℕ → String × Bucket → Type 0
Within now e = e.1.reset_at ≤ now + window_ms

-- One entry for a key, no empty key, and every reset within a window from now.
pub record IsValid (now : ℕ) (m : Buckets) : Type 0 where
  pub distinct : IsMap m
  pub named : All HasText m
  pub within : All (Within now) m

consume_bucket-IsValid :
    (key : String) (limit now : ℕ) (m : Buckets)
    → is_empty key ≡ false
    → IsValid now m
    → IsValid now (consume_bucket key limit now m).0
unfolding consume_bucket
consume_bucket-IsValid key limit now m h v = record {
  distinct = unfold consume_bucket in consume_bucket-IsMap key limit now m v.distinct;
  named = set-All HasText key _ m h v.named;
  within =
      set-All (Within now) key _ m
        (current_bucket_within (get key m) now (λ b e. get-All (Within now) key m b v.within e))
        v.within;
}

remove_expired_buckets-IsValid :
    (now : ℕ) (m : Buckets) → IsValid now m → IsValid now (remove_expired_buckets now m)
remove_expired_buckets-IsValid now m v = record {
  distinct = remove_expired_buckets-IsMap now m v.distinct;
  named = remove_expired_buckets-All HasText now m v.named;
  within = remove_expired_buckets-All (Within now) now m v.within;
}

Within-later :
    (now later : ℕ) (m : Buckets) → now ≤ later → All (Within now) m → All (Within later) m
Within-later now later [] h a = tt
Within-later now later (e ∷ m) h a = (omega arith, Within-later now later m h a.1)

-- Time may pass between two requests.
pub IsValid-later : (now later : ℕ) (m : Buckets) → now ≤ later → IsValid now m → IsValid later m
IsValid-later now later m h v = record {
  distinct = v.distinct;
  named = v.named;
  within = Within-later now later m h v.within;
}

wait-le :
    (key : String) (limit now : ℕ) (m : Buckets)
    → IsValid now m
    → (consume_bucket key limit now m).1 ≤ window_ms
wait-le key limit now m v = ground (
  arith,
  consume_bucket_wait key limit now m,
  current_bucket_within (get key m) now (λ b e. get-All (Within now) key m b v.within e),
)

module _ (host : Host) (digests : (s : String) → is_empty (host.digest s) ≡ false)
    (options : RateLimitOptions) (request : LoginRequestContext) (email : Option String) (now : ℕ)
    (m : Buckets) where
  client-named : is_empty (client_key host request) ≡ false
  unfolding client_key
  client-named = digests _

  subject-named : is_empty (subject_key host options.namespace email) ≡ false
  unfolding subject_key
  subject-named = elim email as (λ e. is_empty (subject_key host options.namespace e) ≡ false) [
    | none ↦ digests _
    | some e ↦ digests _
  ]

  -- Each request keeps the buckets valid: one entry for a key, none under an empty key, and no
  -- bucket that lives longer than a window, if the digest makes no empty text.
  pub consume-IsValid : IsValid now m → IsValid now (consume host options request email now m).0
  unfolding consume
  consume-IsValid v =
      let kept = remove_expired_buckets now m in
      let k = remove_expired_buckets-IsValid now m v in
      let by_client = (consume_bucket (client_key host request) options.client_limit now kept).0 in
      let c =
        consume_bucket-IsValid (client_key host request) options.client_limit now kept client-named
          k in
      let s =
        consume_bucket-IsValid (subject_key host options.namespace email) options.subject_limit now
          by_client subject-named c in
      elim (Bool-cases
        (ltb 0 (consume_bucket (client_key host request) options.client_limit now kept).1)) [
          | inl e ↦ rw e c
          | inr e ↦ rw e s
        ]

  -- After a request there are at most `maximum_buckets + 1` buckets, however many there were, if
  -- the digest makes no empty text and no key is empty.
  pub length-consume :
      All HasText m → length (consume host options request email now m).0 ≤ maximum_buckets + 1
  unfolding consume
  length-consume h =
      let kept = remove_expired_buckets now m in
      let by_client = (consume_bucket (client_key host request) options.client_limit now kept).0 in
      ground (
        arith,
        length-remove_expired_buckets now m h,
        length-consume_bucket (client_key host request) options.client_limit now kept,
        length-consume_bucket (subject_key host options.namespace email) options.subject_limit now
            by_client,
      )

  -- A refused request is told to wait between 1 and 60 seconds, if the buckets are valid.
  pub consume_wait_bounds :
      (wait : ℕ)
      → IsValid now m
      → (consume host options request email now m).1 ≡ some wait
      → (1 ≤ wait) × (wait ≤ 60)
  unfolding consume
  consume_wait_bounds wait v e =
      let kept = remove_expired_buckets now m in
      let k = remove_expired_buckets-IsValid now m v in
      let by_client = (consume_bucket (client_key host request) options.client_limit now kept).0 in
      let c =
        consume_bucket-IsValid (client_key host request) options.client_limit now kept client-named
          k in
      ground (
        arith,
        wait-le (client_key host request) options.client_limit now kept k,
        wait-le (subject_key host options.namespace email) options.subject_limit now by_client c,
      )
