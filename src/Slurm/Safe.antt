-- ===== src/Slurm/Safe.antt =====
-- The strings of a profile of server/workloads/slurm_profile.js have safe units only.
use slaif_connect.Base.{
  ℕ, ◌≡◌, inl, inr, refl, Bool, true, zero, suc, ltb, ◌==◌, ◌%◌, ◌/◌, ◌+◌, List, [], ◌∷◌, ◌++◌,
  Text, arith, all, All, split, is_digit, is_word, class_match, decimal_digits, Bool-cases,
}
use slaif_connect.Slurm.{
  is_safe_unit, is_resource_unit, is_time_limit, is_clock, is_sixty, is_duration, is_memory,
  is_amount, is_memory_suffix,
}

abbrev pub IsSafe : Text → Type 0
IsSafe s = all is_resource_unit s ≡ true

-- A weaker class holds where a stronger one does.
pub all-weaken :
    (p q : ℕ → Bool) (s : Text)
    → ((c : ℕ) → p c ≡ true → q c ≡ true)
    → all p s ≡ true
    → all q s ≡ true
all-weaken p q [] sub h = refl
all-weaken p q (c ∷ s) sub h =
    let first : p c ≡ true = ground arith in
    let rest : all p s ≡ true = ground arith in rw (sub c first) (all-weaken p q s sub rest)

pub safe-resource : (c : ℕ) → is_safe_unit c ≡ true → is_resource_unit c ≡ true
unfolding is_resource_unit
safe-resource c h = ground arith

digit-resource : (c : ℕ) → is_digit c ≡ true → is_resource_unit c ≡ true
unfolding is_resource_unit is_word
digit-resource c h = ground arith

suffix-resource : (c : ℕ) → is_memory_suffix c ≡ true → is_resource_unit c ≡ true
unfolding is_resource_unit is_word
suffix-resource c h = ground arith

pub class_match-all :
    (p : ℕ → Bool) (lo hi : ℕ) (s : Text) → class_match p lo hi s ≡ true → all p s ≡ true
unfolding class_match
class_match-all p lo hi s h = ground arith

-- A split string has a first part.
split-part : (c : ℕ) (s : Text) → (part : Text) × (parts : List Text) × (split c s ≡ part ∷ parts)
unfolding split
split-part c [] = ([], [], refl)
split-part c (d ∷ s) =
    let (part, parts, e) = split-part c s in
    elim (Bool-cases (d == c)) [
      | inl hit ↦ ([], part ∷ parts, rw (e, hit) refl)
      | inr miss ↦ (d ∷ part, parts, rw (e, miss) refl)
    ]

-- A string is safe when its parts are, and the unit at which it was split.
split-IsSafe : (c : ℕ) (s : Text) → is_resource_unit c ≡ true → All IsSafe (split c s) → IsSafe s
unfolding split
split-IsSafe c [] unit h = refl
split-IsSafe c (d ∷ s) unit h =
    let (part, parts, e) = split-part c s in
    elim (Bool-cases (d == c)) [
      | inl hit ↦
          let same : d ≡ c = ground (arith, hit) in
          let (empty, rest) = rw (e, hit) at h in
          let later = split-IsSafe c s unit (rw e rest) in rw (same, unit) later
      | inr miss ↦
          let (first, rest) = rw (e, miss) at h in
          let here : is_resource_unit d ≡ true = ground (arith, first) in
          let start : all is_resource_unit part ≡ true = ground (arith, first) in
          let later = split-IsSafe c s unit (rw e (start, rest)) in rw here later
    ]

digits-IsSafe : (lo hi : ℕ) (s : Text) → class_match is_digit lo hi s ≡ true → IsSafe s
digits-IsSafe lo hi s h =
    all-weaken is_digit is_resource_unit s digit-resource (class_match-all is_digit lo hi s h)

is_sixty-IsSafe : (s : Text) → is_sixty s ≡ true → IsSafe s
is_sixty-IsSafe (a ∷ b ∷ []) h =
    let first : is_digit a ≡ true = ground arith in
    let second : is_digit b ≡ true = ground arith in
    rw (digit-resource a first, digit-resource b second) refl
is_sixty-IsSafe [] h = cc
is_sixty-IsSafe (a ∷ []) h = cc
is_sixty-IsSafe (a ∷ b ∷ c ∷ s) h = cc

is_clock-IsSafe : (parts : List Text) → is_clock parts ≡ true → All IsSafe parts
is_clock-IsSafe (h ∷ m ∷ s ∷ []) e =
    let hours : class_match is_digit 1 2 h ≡ true = ground arith in
    let minutes : is_sixty m ≡ true = ground arith in
    let seconds : is_sixty s ≡ true = ground arith in
    (digits-IsSafe 1 2 h hours, (is_sixty-IsSafe m minutes, (is_sixty-IsSafe s seconds, tt)))
is_clock-IsSafe [] e = cc
is_clock-IsSafe (h ∷ []) e = cc
is_clock-IsSafe (h ∷ m ∷ []) e = cc
is_clock-IsSafe (h ∷ m ∷ s ∷ t ∷ parts) e = cc

colon_resource : is_resource_unit b':' ≡ true
unfolding is_resource_unit is_word
colon_resource = refl

dash_resource : is_resource_unit b'-' ≡ true
unfolding is_resource_unit is_word
dash_resource = refl

is_duration-IsSafe : (parts : List Text) → is_duration parts ≡ true → All IsSafe parts
is_duration-IsSafe (c ∷ []) e =
    (split-IsSafe b':' c colon_resource (is_clock-IsSafe (split b':' c) e), tt)
is_duration-IsSafe (d ∷ c ∷ []) e =
    let days : class_match is_digit 1 2 d ≡ true = ground arith in
    let clock : is_clock (split b':' c) ≡ true = ground arith in
    (
      digits-IsSafe 1 2 d days,
      (split-IsSafe b':' c colon_resource (is_clock-IsSafe (split b':' c) clock), tt),
    )
is_duration-IsSafe [] e = cc
is_duration-IsSafe (a ∷ b ∷ c ∷ parts) e = cc

pub is_time_limit-IsSafe : (s : Text) → is_time_limit s ≡ true → IsSafe s
unfolding is_time_limit
is_time_limit-IsSafe s h = split-IsSafe b'-' s dash_resource (is_duration-IsSafe (split b'-' s) h)

is_amount-IsSafe : (n : ℕ) (s : Text) → is_amount n s ≡ true → IsSafe s
unfolding is_amount
is_amount-IsSafe n [] h = cc
is_amount-IsSafe n (c ∷ []) h = rw (suffix-resource c h) refl
is_amount-IsSafe zero (c ∷ d ∷ s) h = cc
is_amount-IsSafe (suc n) (c ∷ d ∷ s) h =
    let digit : is_digit c ≡ true = ground arith in
    let rest : is_amount n (d ∷ s) ≡ true = ground arith in
    rw (digit-resource c digit) (is_amount-IsSafe n (d ∷ s) rest)

pub is_memory-IsSafe : (s : Text) → is_memory s ≡ true → IsSafe s
unfolding is_memory
is_memory-IsSafe [] h = cc
is_memory-IsSafe (c ∷ s) h =
    let digit : is_digit c ≡ true = ground arith in
    let rest : is_amount 5 s ≡ true = ground arith in
    rw (digit-resource c digit) (is_amount-IsSafe 5 s rest)

all-append : (p : ℕ → Bool) (s t : Text) → all p s ≡ true → all p t ≡ true → all p (s ++ t) ≡ true
all-append p [] t h k = k
all-append p (c ∷ s) t h k =
    let first : p c ≡ true = ground arith in
    let rest : all p s ≡ true = ground arith in rw first (all-append p s t rest k)

pub decimal_digits-IsSafe : (f n : ℕ) → IsSafe (decimal_digits f n)
unfolding decimal_digits
decimal_digits-IsSafe zero n = refl
decimal_digits-IsSafe (suc f) n = elim (Bool-cases (ltb n 10)) [
  | inl small ↦
      let digit : is_digit (b'0' + n) ≡ true = ground arith in
      rw (small, digit-resource (b'0' + n) digit) refl
  | inr large ↦
      let digit : is_digit (b'0' + n % 10) ≡ true = ground arith in
      let last : IsSafe ((b'0' + n % 10) ∷ []) = rw (digit-resource (b'0' + n % 10) digit) refl in
      rw large (
        all-append is_resource_unit (decimal_digits f (n / 10)) _ (decimal_digits-IsSafe f (n / 10))
          last)
]
