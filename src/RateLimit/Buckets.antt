-- ===== src/RateLimit/Buckets.antt =====
-- Answers of the rate limiter, and which calls share a bucket.
use slaif_connect.Base.{
  ℕ, ◌+◌, ◌-◌, ◌≤◌, ◌≡◌, refl, sym, ◌∙◌, true, false, Option, none, some, [], ◌∷◌, ◌++◌, Text, lit,
  arith, ltb, ok, err, Option-cases, inl, inr, All, text_eq_refl, ◌≢◌,
}
use slaif_connect.Base.Table.{get, put, get-put}
use slaif_connect.Base.Value.{Value, str}
use slaif_connect.RateLimit.{
  Limiter, Bucket, Input, Answer, rate_limit_exceeded, key_for, fresh_bucket, current_bucket,
  check_limit, consume,
}

-- No live bucket: none, or one whose window is over.
abbrev pub IsOver : ℕ → Option Bucket → Type 0
IsOver now none = Unit
IsOver now (some b) = b.reset_at ≤ now

new_window :
    (id : Text) (s : Limiter) (now : ℕ)
    → IsOver now (get id s.buckets)
    → current_bucket now s id
      ≡ (fresh_bucket now s, record s { buckets = put id (fresh_bucket now s) s.buckets })
unfolding current_bucket
new_window id s now over = elim (Option-cases (get id s.buckets)) [
  | inl missing ↦ rw missing
  | inr (b, found) ↦ let past = rw found at over in rw found (ground arith)
]

-- The first request of a window is let through, whatever the last window had: the answer counts the
-- requests that are left, and names the end of the new window.
pub consume-new_window :
    (id : Text) (s : Limiter) (now : ℕ) (input : Input)
    → key_for input ≡ ok id
    → 1 ≤ s.max
    → IsOver now (get id s.buckets)
    → (consume now s input).0
      ≡ ok (record { is_ok = true; remaining = s.max - 1; reset_at = now + s.window_ms })
unfolding consume
consume-new_window id s now input named room over =
    rw (named, new_window id s now over) (ground arith)

current-again :
    (id : Text) (s : Limiter) (now : ℕ)
    → 1 ≤ s.window_ms
    → current_bucket now (current_bucket now s id).1 id ≡ current_bucket now s id
unfolding current_bucket
current-again id s now w = elim (Option-cases (get id s.buckets)) [
  | inl missing ↦
      rw missing (ground (arith, get-put id id (fresh_bucket now s) s.buckets, text_eq_refl id))
  | inr (b, found) ↦
      rw found (ground (arith, get-put id id (fresh_bucket now s) s.buckets, text_eq_refl id))
]

-- `checkLimit` foretells `consume` of the same input at the same instant: if it says yes, `consume`
-- is let through and leaves one request less; if it says no, `consume` throws.
pub check_limit-consume :
    (id : Text) (s : Limiter) (now : ℕ) (input : Input)
    → key_for input ≡ ok id
    → 1 ≤ s.window_ms
    → (a : Answer) × ((check_limit now s input).0 ≡ ok a)
      × ((a.is_ok ≡ true)
          → (consume now (check_limit now s input).1 input).0
            ≡ ok (record a { remaining = a.remaining - 1 }))
      × ((a.is_ok ≡ false)
          → (consume now (check_limit now s input).1 input).0 ≡ err rate_limit_exceeded)
unfolding check_limit consume
check_limit-consume id s now input named w =
    let (b, t) = current_bucket now s id in
    rw (named, current-again id s now w)
      (
        record { is_ok = ltb b.count t.max; remaining = t.max - b.count; reset_at = b.reset_at },
        refl,
        λ yes'. ground arith,
        λ no'. ground arith,
      )

-- The character `:` does not occur.
abbrev pub NoColon : Text → Type 0
NoColon = All (λ c. c ≢ b':')

-- What `keyFor` reads as the scope: the default for undefined, or the text itself.
abbrev pub scope_text : Value → Text
scope_text Value.undef = lit "default"
scope_text (str s) = s
scope_text _ = []

abbrev pub key_text : Value → Text
key_text (str s) = s
key_text _ = []

key_for-text :
    (i : Input) (id : Text)
    → key_for i ≡ ok id
    → id ≡ scope_text i.scope ++ (lit ":" ++ key_text i.key)
unfolding key_for
key_for-text i id h = ground arith

split_at_colon :
    (s t k l : Text) → NoColon s → NoColon t → s ++ (b':' ∷ k) ≡ t ++ (b':' ∷ l) → (s ≡ t) × (k ≡ l)
split_at_colon [] [] k l h g e = ground arith
split_at_colon [] (d ∷ t) k l h g e = absurd (g.0 (ground arith))
split_at_colon (c ∷ s) [] k l h g e = absurd (h.0 (ground arith))
split_at_colon (c ∷ s) (d ∷ t) k l h g e =
    let (same, rest) = split_at_colon s t k l h.1 g.1 (ground arith) in ground arith

-- Two inputs whose scopes have no colon share a bucket only if their scopes and their keys agree.
pub key_for-injective :
    (i j : Input) (id : Text)
    → NoColon (scope_text i.scope)
    → NoColon (scope_text j.scope)
    → key_for i ≡ ok id
    → key_for j ≡ ok id
    → (scope_text i.scope ≡ scope_text j.scope) × (key_text i.key ≡ key_text j.key)
key_for-injective i j id h g p q =
    split_at_colon (scope_text i.scope) (scope_text j.scope) (key_text i.key) (key_text j.key) h g
      (sym (key_for-text i id p) ∙ key_for-text j id q)
