-- ===== src/RateLimiter/Buckets.antt =====
-- One bucket, and what the clean-up keeps.
use big_project.Common.{
  ℕ, ◌+◌, ◌-◌, ◌≤◌, ◌<◌, String, ◌≡◌, refl, false, not, Option, none, some, [], ◌∷◌, arith, ◌=ₛ◌,
  leb, if◌then◌else◌, length, filter, All, All-filter, is_empty,
}
use big_project.JsMap.{get, IsMap, get-set, set-IsMap, length-set-le, filter-IsMap}
use big_project.RateLimiter.{
  Bucket, Buckets, window_ms, maximum_buckets, current_bucket, consume_bucket, evict_oldest,
  remove_expired_buckets,
}

-- How many requests the live bucket of a key has counted; 0 where none is live.
abbrev pub used : String → ℕ → Buckets → ℕ
used key now m = (current_bucket (get key m) now).count

pub current_bucket-live : (o : Option Bucket) (now : ℕ) → now < (current_bucket o now).reset_at
unfolding current_bucket
current_bucket-live none now = omega arith
current_bucket-live (some b) now = ground arith

pub current_bucket_of_live :
    (o : Option Bucket) (b : Bucket) (now : ℕ)
    → o ≡ some b
    → now < b.reset_at
    → current_bucket o now ≡ b
unfolding current_bucket
current_bucket_of_live none b now e h = cc
current_bucket_of_live (some c) b now e h = ground arith

pub current_bucket_within :
    (o : Option Bucket) (now : ℕ)
    → ((b : Bucket) → o ≡ some b → b.reset_at ≤ now + window_ms)
    → (current_bucket o now).reset_at ≤ now + window_ms
unfolding current_bucket
current_bucket_within none now h = omega arith
current_bucket_within (some b) now h = ground (arith, h b refl)

-- A request waits exactly if its bucket was used up, and then until the bucket is reset.
pub consume_bucket_wait :
    (key : String) (limit now : ℕ) (m : Buckets)
    → (consume_bucket key limit now m).1
      ≡ (if leb limit (used key now m) then (current_bucket (get key m) now).reset_at - now else 0)
unfolding consume_bucket
consume_bucket_wait key limit now m = ground arith

pub get-consume_bucket :
    (key j : String) (limit now : ℕ) (m : Buckets)
    → get j (consume_bucket key limit now m).0 ≡ (
        if key =ₛ j
        then some (record {
          count = used key now m + 1;
          reset_at = (current_bucket (get key m) now).reset_at;
        })
        else get j m)
unfolding consume_bucket
get-consume_bucket key j limit now m = get-set key j _ m

pub consume_bucket-IsMap :
    (key : String) (limit now : ℕ) (m : Buckets)
    → IsMap m
    → IsMap (consume_bucket key limit now m).0
unfolding consume_bucket
consume_bucket-IsMap key limit now m h = set-IsMap key _ m h

pub length-consume_bucket :
    (key : String) (limit now : ℕ) (m : Buckets)
    → length (consume_bucket key limit now m).0 ≤ length m + 1
unfolding consume_bucket
length-consume_bucket key limit now m = length-set-le key _ m

-- With room left the clean-up does nothing.
pub remove_expired_buckets_room :
    (now : ℕ) (m : Buckets) → length m < maximum_buckets → remove_expired_buckets now m ≡ m
unfolding remove_expired_buckets
remove_expired_buckets_room now m h = ground arith

evict_oldest-IsMap : (m : Buckets) → IsMap m → IsMap (evict_oldest m)
unfolding evict_oldest
evict_oldest-IsMap [] h = tt
evict_oldest-IsMap ((k, b) ∷ m) h = ground (arith, evict_oldest-IsMap m h.1)

pub remove_expired_buckets-IsMap :
    (now : ℕ) (m : Buckets) → IsMap m → IsMap (remove_expired_buckets now m)
unfolding remove_expired_buckets
remove_expired_buckets-IsMap now m h = ground (
  arith,
  evict_oldest-IsMap (filter (λ e. not (leb e.1.reset_at now)) m),
  filter-IsMap (λ e. not (leb e.1.reset_at now)) m h,
)

-- A key that the digest can make.
abbrev pub HasText : String × Bucket → Type 0
HasText e = is_empty e.0 ≡ false

evict_oldest-All {ℓ} :
    (P : String × Bucket → Type ℓ) (m : Buckets) → All P m → All P (evict_oldest m)
unfolding evict_oldest
evict_oldest-All P [] h = tt
evict_oldest-All P (e ∷ m) h = ground (arith, evict_oldest-All P m h.1)

pub remove_expired_buckets-All {ℓ} :
    (P : String × Bucket → Type ℓ) (now : ℕ) (m : Buckets)
    → All P m
    → All P (remove_expired_buckets now m)
unfolding remove_expired_buckets
remove_expired_buckets-All P now m h = ground (
  arith,
  evict_oldest-All P (filter (λ e. not (leb e.1.reset_at now)) m),
  All-filter P (λ e. not (leb e.1.reset_at now)) m h,
)

length-evict_oldest : (m : Buckets) → All HasText m → length (evict_oldest m) < maximum_buckets
unfolding evict_oldest
length-evict_oldest [] h = omega arith
length-evict_oldest ((k, b) ∷ m) h = ground (arith, length-evict_oldest m h.1)

-- The clean-up always makes room.
pub length-remove_expired_buckets :
    (now : ℕ) (m : Buckets)
    → All HasText m
    → length (remove_expired_buckets now m) < maximum_buckets
unfolding remove_expired_buckets
length-remove_expired_buckets now m h = ground (
  arith,
  length-evict_oldest (filter (λ e. not (leb e.1.reset_at now)) m),
  All-filter HasText (λ e. not (leb e.1.reset_at now)) m h,
)
