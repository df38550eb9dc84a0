-- ===== src/RateLimit/Quota.antt =====
-- The quota of the rate limiter.
use slaif_connect.Base.{
  ℕ, ◌+◌, ◌-◌, ◌<◌, ◌≡◌, refl, false, some, List, [], ◌∷◌, Text, text_eq, text_eq_iff, text_eq_refl,
  arith, if◌then◌else◌, Result, ok, err, Bool-cases, Result-cases, inl, inr,
}
use Prim.Native.Nat.{min}
use slaif_connect.Base.Table.{get, get-put}
use slaif_connect.RateLimit.{
  Limiter, Bucket, Input, Answer, RateLimitError, key_for, fresh_bucket, current_bucket,
  check_limit, consume,
}

-- A call of `consume` or of `checkLimit`, at an instant.
pub data Call : Type 0 where
  consumes checks : ℕ → Input → Call

unfoldable pub step : Limiter → Call → Limiter
step s (consumes now input) = (consume now s input).1
step s (checks now input) = (check_limit now s input).1

abbrev pub time : Call → ℕ
time (consumes now input) = now
time (checks now input) = now

abbrev asks : Text → Result RateLimitError Text → ℕ
asks id (ok j) = if text_eq j id then 1 else 0
asks id (err e) = 0

-- 1 if the call is a `consume` for this bucket, and 0 otherwise.
abbrev pub requests_in : Text → Call → ℕ
requests_in id (consumes now input) = asks id (key_for input)
requests_in id (checks now input) = 0

abbrev granted : Text → Result RateLimitError Text → Result RateLimitError Answer → ℕ
granted id (ok j) (ok a) = if text_eq j id then 1 else 0
granted id _ _ = 0

-- 1 if the call is a `consume` for this bucket that does not throw, and 0 otherwise.
abbrev pub accepts_in : Text → Limiter → Call → ℕ
accepts_in id s (consumes now input) = granted id (key_for input) (consume now s input).0
accepts_in id s (checks now input) = 0

unfoldable pub requests : Text → List Call → ℕ
requests id [] = 0
requests id (c ∷ cs) = requests_in id c + requests id cs

unfoldable pub accepts : Text → Limiter → List Call → ℕ
accepts id s [] = 0
accepts id s (c ∷ cs) = accepts_in id s c + accepts id (step s c) cs

-- Every call comes before the instant.
abbrev pub AllBefore : ℕ → List Call → Type 0
AllBefore t [] = Unit
AllBefore t (c ∷ cs) = (time c < t) × AllBefore t cs

same_bucket :
    (id : Text) (s : Limiter) (b : Bucket) (now : ℕ)
    → get id s.buckets ≡ some b
    → now < b.reset_at
    → current_bucket now s id ≡ (b, s)
unfolding current_bucket
same_bucket id s b now found early = ground arith

other_bucket :
    (j id : Text) (s : Limiter) (now : ℕ)
    → text_eq j id ≡ false
    → (get id (current_bucket now s j).1.buckets ≡ get id s.buckets)
      × ((current_bucket now s j).1.max ≡ s.max)
unfolding current_bucket
other_bucket j id s now other = ground (arith, get-put j id (fresh_bucket now s) s.buckets)

-- What `consume` does to a live bucket.
consume-bucket :
    (id : Text) (s : Limiter) (b : Bucket) (now : ℕ) (input : Input)
    → get id s.buckets ≡ some b
    → now < b.reset_at
    → let n = accepts_in id s (consumes now input) in
      (n ≡ min (requests_in id (consumes now input)) (s.max - b.count))
      × (get id (consume now s input).1.buckets ≡ some (record b { count = b.count + n }))
      × ((consume now s input).1.max ≡ s.max)
unfolding consume
consume-bucket id s b now input found early = elim (Result-cases (key_for input)) [
  | inl (j, e) ↦ elim (Bool-cases (text_eq j id)) [
    | inl same ↦
        rw (e, (text_eq_iff j id).0 same, same_bucket id s b now found early)
          (ground
            (arith, get-put id id (record b { count = b.count + 1 }) s.buckets, text_eq_refl id))
    | inr other ↦
        let t = (current_bucket now s j).1 in
        let c = (current_bucket now s j).0 in
        rw e (
          ground (
            arith,
            other_bucket j id s now,
            get-put j id (record c { count = c.count + 1 }) t.buckets,
          ))
  ]
  | inr (x, e) ↦ rw e (ground arith)
]

check-bucket :
    (id : Text) (s : Limiter) (b : Bucket) (now : ℕ) (input : Input)
    → get id s.buckets ≡ some b
    → now < b.reset_at
    → (get id (check_limit now s input).1.buckets ≡ some b)
      × ((check_limit now s input).1.max ≡ s.max)
unfolding check_limit
check-bucket id s b now input found early = elim (Result-cases (key_for input)) [
  | inl (j, e) ↦ elim (Bool-cases (text_eq j id)) [
    | inl same ↦ rw (e, (text_eq_iff j id).0 same, same_bucket id s b now found early) (found, refl)
    | inr other ↦ rw e (ground (arith, other_bucket j id s now))
  ]
  | inr (x, e) ↦ rw e (ground arith)
]

-- While a window lasts, a history of calls for any keys gets exactly as many requests of a bucket
-- through as there are, up to what is left of the maximum.
pub accepts-eq-min :
    (id : Text) (s : Limiter) (b : Bucket) (cs : List Call)
    → get id s.buckets ≡ some b
    → AllBefore b.reset_at cs
    → accepts id s cs ≡ min (requests id cs) (s.max - b.count)
unfolding accepts requests step
accepts-eq-min id s b [] found early = omega arith
accepts-eq-min id s b (consumes now input ∷ cs) found early =
    let n = accepts_in id s (consumes now input) in
    let (granted_now, kept, most) = consume-bucket id s b now input found early.0 in
    let rest =
      accepts-eq-min id (consume now s input).1 (record b { count = b.count + n }) cs kept
        early.1 in
    omega arith
accepts-eq-min id s b (checks now input ∷ cs) found early =
    let (kept, most) = check-bucket id s b now input found early.0 in
    let rest = accepts-eq-min id (check_limit now s input).1 b cs kept early.1 in omega arith
