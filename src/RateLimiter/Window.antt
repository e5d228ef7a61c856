-- ===== src/RateLimiter/Window.antt =====
-- How many requests pass within a window, for one account and for one client.
use big_project.Common.{
  ℕ, ◌+◌, ◌≤◌, ◌<◌, String, ◌≡◌, refl, ◌≢◌, ◌↔◌, inl, inr, Option, none, some, List, [], ◌∷◌, arith,
  eq_iff, eq_refl, leb, Bool-cases, length,
}
use big_project.JsMap.{get}
use big_project.RateLimiter.{
  Bucket, Buckets, LoginRequestContext, RateLimitOptions, Host, maximum_buckets, consume_bucket,
  client_key, subject_key, consume,
}
use big_project.RateLimiter.Buckets.{
  used, current_bucket-live, current_bucket_of_live, consume_bucket_wait, get-consume_bucket,
  length-consume_bucket, remove_expired_buckets_room,
}

-- A request of a history.
pub record Attempt : Type 0 where
  pub request : LoginRequestContext
  pub email : Option String
  pub now : ℕ

abbrev pub allowed : Option ℕ → ℕ
allowed none = 1
allowed (some wait) = 0

-- The bucket of a key, live and counting, as the history goes on.
abbrev pub Counts : String → Bucket → Buckets → Type 0
Counts key b m = get key m ≡ some b

module _ (host : Host) (options : RateLimitOptions) where
  abbrev pub client_of : Attempt → String
  client_of a = client_key host a.request

  abbrev pub subject_of : Attempt → String
  subject_of a = subject_key host options.namespace a.email

  -- The requests of a history that pass, one after another.
  unfoldable pub passed : List Attempt → Buckets → ℕ
  passed [] m = 0
  passed (a ∷ rest) m =
      let (m', wait) = consume host options a.request a.email a.now m in
      allowed wait + passed rest m'

  -- A request passes exactly if neither its client nor its account has used up its bucket, while
  -- there is room for both buckets and the two keys differ.
  pub consume_passes_iff :
      (a : Attempt) (m : Buckets)
      → length m < maximum_buckets
      → client_of a ≢ subject_of a
      → ((consume host options a.request a.email a.now m).1 ≡ none) ↔ (
          (used (client_of a) a.now m < options.client_limit)
          × (used (subject_of a) a.now m < options.subject_limit))
  unfolding consume
  consume_passes_iff a m room differ = ground (
    arith,
    remove_expired_buckets_room a.now m room,
    consume_bucket_wait (client_of a) options.client_limit a.now m,
    consume_bucket_wait (subject_of a) options.subject_limit a.now
        (consume_bucket (client_of a) options.client_limit a.now m).0,
    get-consume_bucket (client_of a) (subject_of a) options.client_limit a.now m,
    current_bucket-live (get (client_of a) m) a.now,
    current_bucket-live (get (subject_of a) m) a.now,
    eq_iff (client_of a) (subject_of a),
  )

  -- A client that is over its limit cannot use up the bucket of anybody's account.
  pub consume_refused_client :
      (a : Attempt) (key : String) (m : Buckets)
      → length m < maximum_buckets
      → options.client_limit ≤ used (client_of a) a.now m
      → client_of a ≢ key
      → get key (consume host options a.request a.email a.now m).0 ≡ get key m
  unfolding consume
  consume_refused_client a key m room over differ = ground (
    arith,
    remove_expired_buckets_room a.now m room,
    consume_bucket_wait (client_of a) options.client_limit a.now m,
    get-consume_bucket (client_of a) key options.client_limit a.now m,
    current_bucket-live (get (client_of a) m) a.now,
    eq_iff (client_of a) key,
  )

  -- What one request does to a live bucket: it stays, with the same reset, and a request that
  -- passes was below the limit and is counted.
  abbrev pub Spends : ℕ → Bucket → Option ℕ → Buckets → String → Type 0
  Spends limit b wait m key =
      (b' : Bucket) × (get key m ≡ some b')
      × (b'.reset_at ≡ b.reset_at)
      × (b.count ≤ b'.count)
      × (wait ≡ none → (b.count < limit) × (b'.count ≡ b.count + 1))

  pub consume-length :
      (a : Attempt) (m : Buckets)
      → length m < maximum_buckets
      → length (consume host options a.request a.email a.now m).0 ≤ length m + 2
  unfolding consume
  consume-length a m room = ground (
    arith,
    remove_expired_buckets_room a.now m room,
    length-consume_bucket (client_of a) options.client_limit a.now m,
    length-consume_bucket (subject_of a) options.subject_limit a.now
        (consume_bucket (client_of a) options.client_limit a.now m).0,
  )

  module _ (a : Attempt) (b : Bucket) (m : Buckets) (room : length m < maximum_buckets)
      (differ : client_of a ≢ subject_of a) (live : a.now < b.reset_at) where
    abbrev pub after : Buckets × Option ℕ
    after = consume host options a.request a.email a.now m

    pub consume-Spends_subject :
        get (subject_of a) m ≡ some b
        → Spends options.subject_limit b after.1 after.0 (subject_of a)
    unfolding consume
    consume-Spends_subject here =
        let kept = remove_expired_buckets_room a.now m room in
        let by_client = (consume_bucket (client_of a) options.client_limit a.now m).0 in
        let w1 = consume_bucket_wait (client_of a) options.client_limit a.now m in
        let w2 = consume_bucket_wait (subject_of a) options.subject_limit a.now by_client in
        let g1 = get-consume_bucket (client_of a) (subject_of a) options.client_limit a.now m in
        let g2 =
          get-consume_bucket (subject_of a) (subject_of a) options.subject_limit a.now by_client in
        let l1 = current_bucket-live (get (client_of a) m) a.now in
        let c =
          current_bucket_of_live (get (subject_of a) by_client) b a.now
            (ground (arith, eq_iff (client_of a) (subject_of a))) live in
        elim (Bool-cases (leb options.client_limit (used (client_of a) a.now m))) [
          | inl over ↦ (
            b,
            ground (arith, eq_iff (client_of a) (subject_of a)),
            refl,
            omega arith,
            ground arith,
          )
          | inr fit ↦ (
            record b { count = b.count + 1 },
            ground (arith, eq_refl (subject_of a)),
            refl,
            omega arith,
            ground arith,
          )
        ]

    pub consume-Spends_client :
        get (client_of a) m ≡ some b → Spends options.client_limit b after.1 after.0 (client_of a)
    unfolding consume
    consume-Spends_client here =
        let kept = remove_expired_buckets_room a.now m room in
        let by_client = (consume_bucket (client_of a) options.client_limit a.now m).0 in
        let w1 = consume_bucket_wait (client_of a) options.client_limit a.now m in
        let g1 = get-consume_bucket (client_of a) (client_of a) options.client_limit a.now m in
        let g2 =
          get-consume_bucket (subject_of a) (client_of a) options.subject_limit a.now by_client in
        let c = current_bucket_of_live (get (client_of a) m) b a.now here live in
        (
          record b { count = b.count + 1 },
          ground (arith, eq_refl (client_of a), eq_iff (subject_of a) (client_of a)),
          refl,
          omega arith,
          ground arith,
        )
