-- ===== src/RateLimit/Buckets.antt =====
-- internal/ratelimit/ratelimit.go: which calls share a token bucket.
use j_harness.Base.{
  ℕ, String, true, false, Option, none, some, List, ◌∷◌, ◌≡◌, refl, sym, ap, subst, ◌∙◌, eq_iff,
  arith, Option-cases, Bool-cases, inl, inr, if◌then◌else◌,
}
use j_harness.RateLimit.{
  Limit, Bucket, BucketKey, whole, is_off, same_bucket, find_bucket, rate_limiter_for,
}

abbrev pub bucket_key : String → Limit → ℕ → BucketKey
bucket_key endpoint l burst = record { endpoint = endpoint; limit = whole l; burst = burst }

abbrev pub or_fresh : Limit → ℕ → Option Bucket → Bucket
or_fresh l burst none = record { limit = l; burst = burst }
or_fresh l burst (some b) = b

same_bucket_refl : (k : BucketKey) → same_bucket k k ≡ true
same_bucket_refl k = ground (arith, eq_iff k.endpoint k.endpoint)

same_bucket-eq : (a b : BucketKey) → same_bucket a b ≡ true → a ≡ b
same_bucket-eq a b h =
    let e : a.endpoint ≡ b.endpoint = ground (arith, h, eq_iff a.endpoint b.endpoint) in
    let l : a.limit ≡ b.limit = ground (arith, h) in
    let n : a.burst ≡ b.burst = ground (arith, h) in cc (e, l, n)

-- A request gets the bucket that is in the cache, or a new one with its own limit, and each key leads
-- to what it led to, but for the key of the request, which leads to that bucket.
abbrev pub IsServed :
    String
    → Limit
    → ℕ
    → List (BucketKey × Bucket)
    → Option Bucket × List (BucketKey × Bucket)
    → Type 0
IsServed endpoint l burst buckets out =
    let key = bucket_key endpoint l burst in
    (out.0 ≡ some (or_fresh l burst (find_bucket key buckets)))
    × ((k : BucketKey)
        → find_bucket k out.1 ≡ (if same_bucket key k then out.0 else find_bucket k buckets))

-- A bucket that is there is used.
rate_limiter_for-hit :
    (endpoint : String) (l : Limit) (burst : ℕ) (buckets : List (BucketKey × Bucket)) (b : Bucket)
    → is_off l burst ≡ false
    → find_bucket (bucket_key endpoint l burst) buckets ≡ some b
    → rate_limiter_for endpoint l burst buckets ≡ (some b, buckets)
unfolding rate_limiter_for
rate_limiter_for-hit endpoint l burst buckets b on there = rw (on, there) refl

rate_limiter_for-IsServed :
    (endpoint : String) (l : Limit) (burst : ℕ) (buckets : List (BucketKey × Bucket))
    → is_off l burst ≡ false
    → IsServed endpoint l burst buckets (rate_limiter_for endpoint l burst buckets)
unfolding rate_limiter_for find_bucket
rate_limiter_for-IsServed endpoint l burst buckets on =
    let key = bucket_key endpoint l burst in
    elim (Option-cases (find_bucket key buckets)) [
      | inl absent ↦
          let fresh : Bucket = record { limit = l; burst = burst } in
          let e : rate_limiter_for endpoint l burst buckets ≡ (some fresh, (key, fresh) ∷ buckets) =
            rw (on, absent) refl in
          subst (IsServed endpoint l burst buckets) (sym e)
            (ap (λ o. some (or_fresh l burst o)) (sym absent), λ k. refl)
      | inr (b, there) ↦
          let e = rate_limiter_for-hit endpoint l burst buckets b on there in
          subst (IsServed endpoint l burst buckets) (sym e) (
            ap (λ o. some (or_fresh l burst o)) (sym there),
            λ k. elim (Bool-cases (same_bucket key k)) [
              | inr other ↦ rw other refl
              | inl same ↦
                  rw same
                    (ap (λ j. find_bucket j buckets) (sym (same_bucket-eq key k same)) ∙ there)
            ],
          )
    ]

-- A request with a limit that is on gets the bucket that the cache has for its endpoint, the whole
-- part of its limit and its burst, or else a new one with its own limit; that bucket is then in the
-- cache, and every other key leads to what it led to. A second request with the same endpoint and
-- burst and a limit that is on and has the same whole part gets the same bucket, also where its
-- limit is another one, and leaves the cache as it is.
pub rate_limiter_for-shared :
    (endpoint : String) (l l' : Limit) (burst : ℕ) (buckets : List (BucketKey × Bucket))
    → is_off l burst ≡ false
    → is_off l' burst ≡ false
    → whole l ≡ whole l'
    → IsServed endpoint l burst buckets (rate_limiter_for endpoint l burst buckets)
      × (rate_limiter_for endpoint l' burst (rate_limiter_for endpoint l burst buckets).1
          ≡ rate_limiter_for endpoint l burst buckets)
rate_limiter_for-shared endpoint l l' burst buckets on on' same =
    let key = bucket_key endpoint l burst in
    let first = rate_limiter_for endpoint l burst buckets in
    let served = rate_limiter_for-IsServed endpoint l burst buckets on in
    let b = or_fresh l burst (find_bucket key buckets) in
    let found : find_bucket (bucket_key endpoint l' burst) first.1 ≡ some b =
      ap (λ w. find_bucket (record key { limit = w }) first.1) (sym same)
      ∙ served.1 key
      ∙ ap (λ t. if t then first.0 else find_bucket key buckets) (same_bucket_refl key)
      ∙ served.0 in
    let second = rate_limiter_for-hit endpoint l' burst first.1 b on' found in
    (served, second ∙ ap (λ o. (o, first.1)) (sym served.0))
