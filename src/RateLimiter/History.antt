-- ===== src/RateLimiter/History.antt =====
-- Histories of requests that count in one bucket before it is reset.
use big_project.Common.{
  ℕ, ◌+◌, ◌-◌, ◌≤◌, ◌<◌, String, ◌≡◌, sym, subst, ◌∙◌, ◌≢◌, some, List, [], ◌∷◌, arith, length, all,
  All,
}
use big_project.JsMap.{get}
use big_project.RateLimiter.{Bucket, Buckets, RateLimitOptions, Host, maximum_buckets, consume}
use big_project.RateLimiter.Window.{
  Attempt, client_of, subject_of, passed, consume-length, consume-Spends_subject,
  consume-Spends_client,
}

module _ (host : Host) (options : RateLimitOptions) where
  -- All requests are for one account, come before its reset, and from clients with other keys.
  abbrev pub OfAccount : String → ℕ → Attempt → Type 0
  OfAccount key reset a =
      (subject_of host options a ≡ key) × (client_of host options a ≢ key) × (a.now < reset)

  abbrev pub OfClient : String → ℕ → Attempt → Type 0
  OfClient key reset a =
      (client_of host options a ≡ key) × (subject_of host options a ≢ key) × (a.now < reset)

  -- Whatever clients they come from, at most the account's limit of requests pass before the
  -- reset, less those already counted, while there is room for the buckets.
  pub passed-le-subject_limit :
      (key : String) (b : Bucket) (attempts : List Attempt) (m : Buckets)
      → get key m ≡ some b
      → All (OfAccount key b.reset_at) attempts
      → length m + (length attempts + length attempts) ≤ maximum_buckets
      → passed host options attempts m ≤ options.subject_limit - b.count
  unfolding passed
  passed-le-subject_limit key b [] m here all room = omega arith
  passed-le-subject_limit key b (a ∷ rest) m here ((same, differ, live), all) room =
      let m' : Buckets = (consume host options a.request a.email a.now m).0 in
      let step =
        consume-Spends_subject host options a b m (omega arith) (λ e. differ (e ∙ same)) live
          (subst (λ k. get k m ≡ some b) (sym same) here) in
      let more = consume-length host options a m (omega arith) in
      let rest_le =
        passed-le-subject_limit key step.0 rest m' (subst (λ k. get k m' ≡ some step.0) same step.1)
          (subst (λ r. All (OfAccount key r) rest) (sym step.2) all) (omega arith) in
      ground arith

  -- Whatever accounts they name, at most the client's limit of requests pass before the reset,
  -- less those already counted, while there is room for the buckets.
  pub passed-le-client_limit :
      (key : String) (b : Bucket) (attempts : List Attempt) (m : Buckets)
      → get key m ≡ some b
      → All (OfClient key b.reset_at) attempts
      → length m + (length attempts + length attempts) ≤ maximum_buckets
      → passed host options attempts m ≤ options.client_limit - b.count
  unfolding passed
  passed-le-client_limit key b [] m here all room = omega arith
  passed-le-client_limit key b (a ∷ rest) m here ((same, differ, live), all) room =
      let m' : Buckets = (consume host options a.request a.email a.now m).0 in
      let step =
        consume-Spends_client host options a b m (omega arith) (λ e. differ (sym e ∙ same)) live
          (subst (λ k. get k m ≡ some b) (sym same) here) in
      let more = consume-length host options a m (omega arith) in
      let rest_le =
        passed-le-client_limit key step.0 rest m' (subst (λ k. get k m' ≡ some step.0) same step.1)
          (subst (λ r. All (OfClient key r) rest) (sym step.2) all) (omega arith) in
      ground arith
