-- ===== src/Forbidden.antt =====
-- The walk for forbidden fields, which server/workloads/workload_protocol.js, session_intent.js and
-- slurm_profile.js beside it, and extension/js/payload_catalog.js each have with their own list of
-- keys and their own error.
use slaif_connect.Base.{
  ◌≡◌, refl, Bool, true, false, List, Text, includes, Result, ok, err, ◌>>◌, reject, ◌↔◌, ◌⊎◌, inl,
  inr,
}
use slaif_connect.Base.Value.{
  Value, Items, Fields, undef, null, bool, num, str, arr, obj, nil, cons, end, field,
}

-- The key stands in the value, at some depth.
mutual
  pub data Occurs (k : Text) : Value → Type 0 where
    in_array : {xs : Items} → OccursItem k xs → Occurs k (arr xs)
    in_object : {fs : Fields} → OccursField k fs → Occurs k (obj fs)

  pub data OccursItem (k : Text) : Items → Type 0 where
    first_item : {v : Value} {xs : Items} → Occurs k v → OccursItem k (cons v xs)
    later_item : {v : Value} {xs : Items} → OccursItem k xs → OccursItem k (cons v xs)

  pub data OccursField (k : Text) : Fields → Type 0 where
    here : {v : Value} {fs : Fields} → OccursField k (field k v fs)
    below : {j : Text} {v : Value} {fs : Fields} → Occurs k v → OccursField k (field j v fs)
    later_field :
        {j : Text} {v : Value} {fs : Fields} → OccursField k fs → OccursField k (field j v fs)

both_ok : {E : Type 0} (m k : Result E (Unit {0})) → (m >> k) ≡ ok tt → (m ≡ ok tt) × (k ≡ ok tt)
both_ok (ok u) k h = (refl, h)
both_ok (err e) k h = cc

not_rejected : (b : Bool) (e : Text) → reject b e ≡ ok tt → b ≡ false
not_rejected true e h = cc
not_rejected false e h = refl

seq_found :
    {A B C : Type 0} (m k : Result Text (Unit {0}))
    → (m ≡ ok tt) ⊎ A
    → (k ≡ ok tt) ⊎ B
    → (A → C)
    → (B → C)
    → ((m >> k) ≡ ok tt) ⊎ C
seq_found m k (inr a) n f g = inr (f a)
seq_found m k (inl e) (inr b) f g = inr (g b)
seq_found m k (inl e) (inl d) f g = inl (rw (e, d) refl)

test_key : (b : Bool) (e : Text) → (reject b e ≡ ok tt) ⊎ (b ≡ true)
test_key true e = inr refl
test_key false e = inl refl

module _ (keys : List Text) (code : Text) where
  unfoldable mutual
    pub walk : Value → Result Text (Unit {0})
    walk (arr xs) = walk_items xs
    walk (obj fs) = walk_fields fs
    walk undef = ok tt
    walk null = ok tt
    walk (bool b) = ok tt
    walk (num n) = ok tt
    walk (str s) = ok tt

    pub walk_items : Items → Result Text (Unit {0})
    walk_items nil = ok tt
    walk_items (cons v xs) = walk v >> walk_items xs

    pub walk_fields : Fields → Result Text (Unit {0})
    walk_fields end = ok tt
    walk_fields (field k v fs) = reject (includes keys k) code >> walk v >> walk_fields fs

  abbrev IsForbidden : Text → Type 0
  IsForbidden k = includes keys k ≡ true

  field_ok :
      (j : Text) (v : Value) (fs : Fields)
      → walk_fields (field j v fs) ≡ ok tt
      → (includes keys j ≡ false) × (walk v ≡ ok tt) × (walk_fields fs ≡ ok tt)
  unfolding walk
  field_ok j v fs h =
      let key = reject (includes keys j) code in
      let (first, rest) = both_ok (key >> walk v) (walk_fields fs) h in
      let (no_key, value) = both_ok key (walk v) first in
      (not_rejected (includes keys j) code no_key, value, rest)

  -- What passes has no forbidden key at any depth.
  mutual
    unfolding walk

    value_passes : (v : Value) (k : Text) → walk v ≡ ok tt → IsForbidden k → ¬ (Occurs k v)
    value_passes (arr xs) k h f (in_array x) = items_pass xs k h f x
    value_passes (obj fs) k h f (in_object x) = fields_pass fs k h f x
    value_passes undef k h f x = elim x [ ]
    value_passes null k h f x = elim x [ ]
    value_passes (bool b) k h f x = elim x [ ]
    value_passes (num n) k h f x = elim x [ ]
    value_passes (str t) k h f x = elim x [ ]

    items_pass :
        (xs : Items) (k : Text) → walk_items xs ≡ ok tt → IsForbidden k → ¬ (OccursItem k xs)
    items_pass nil k h f x = elim x [ ]
    items_pass (cons v xs) k h f (first_item x) = value_passes v k (both_ok _ _ h).0 f x
    items_pass (cons v xs) k h f (later_item x) = items_pass xs k (both_ok _ _ h).1 f x

    fields_pass :
        (fs : Fields) (k : Text) → walk_fields fs ≡ ok tt → IsForbidden k → ¬ (OccursField k fs)
    fields_pass end k h f x = elim x [ ]
    fields_pass (field j v fs) k h f here = let no = (field_ok j v fs h).0 in cc
    fields_pass (field j v fs) k h f (below x) = value_passes v k (field_ok j v fs h).1 f x
    fields_pass (field j v fs) k h f (later_field x) = fields_pass fs k (field_ok j v fs h).2 f x

  -- What does not pass has a forbidden key.
  abbrev Found : (Text → Type 0) → Type 0
  Found P = (k : Text) × IsForbidden k × P k

  mutual
    unfolding walk

    value_found : (v : Value) → (walk v ≡ ok tt) ⊎ Found (λ k. Occurs k v)
    value_found (arr xs) = elim (items_found xs) [
      | inl e ↦ inl e
      | inr (k, f, x) ↦ inr (k, f, in_array x)
    ]
    value_found (obj fs) = elim (fields_found fs) [
      | inl e ↦ inl e
      | inr (k, f, x) ↦ inr (k, f, in_object x)
    ]
    value_found undef = inl refl
    value_found null = inl refl
    value_found (bool b) = inl refl
    value_found (num n) = inl refl
    value_found (str t) = inl refl

    items_found : (xs : Items) → (walk_items xs ≡ ok tt) ⊎ Found (λ k. OccursItem k xs)
    items_found nil = inl refl
    items_found (cons v xs) =
        seq_found (walk v) (walk_items xs) (value_found v) (items_found xs)
          (λ (k, f, x). (k, f, first_item x)) (λ (k, f, x). (k, f, later_item x))

    fields_found : (fs : Fields) → (walk_fields fs ≡ ok tt) ⊎ Found (λ k. OccursField k fs)
    fields_found end = inl refl
    fields_found (field j v fs) =
        seq_found (reject (includes keys j) code >> walk v) (walk_fields fs)
          (seq_found (reject (includes keys j) code) (walk v) (test_key (includes keys j) code)
            (value_found v) (λ f. (j, f, here)) (λ (k, f, x). (k, f, below x)))
          (fields_found fs) (λ found. found) (λ (k, f, x). (k, f, later_field x))

  -- A value passes exactly when no forbidden key stands in it at any depth, inside arrays and objects.
  pub walk_iff :
      (v : Value) → (walk v ≡ ok tt) ↔ ((k : Text) → includes keys k ≡ true → ¬ (Occurs k v))
  walk_iff v = (
    λ h k f. value_passes v k h f,
    λ none_there. elim (value_found v) [ inl e ↦ e | inr (k, f, x) ↦ absurd (none_there k f x) ],
  )

  -- The walk has one error.
  abbrev IsDecided : Result Text (Unit {0}) → Type 0
  IsDecided m = (m ≡ ok tt) ⊎ (m ≡ err code)

  seq-IsDecided : (m k : Result Text (Unit {0})) → IsDecided m → IsDecided k → IsDecided (m >> k)
  seq-IsDecided m k (inr e) d = inr (rw e refl)
  seq-IsDecided m k (inl e) (inl d) = inl (rw (e, d) refl)
  seq-IsDecided m k (inl e) (inr d) = inr (rw (e, d) refl)

  reject-IsDecided : (b : Bool) → IsDecided (reject b code)
  reject-IsDecided true = inr refl
  reject-IsDecided false = inl refl

  mutual
    unfolding walk

    value-IsDecided : (v : Value) → IsDecided (walk v)
    value-IsDecided (arr xs) = items-IsDecided xs
    value-IsDecided (obj fs) = fields-IsDecided fs
    value-IsDecided undef = inl refl
    value-IsDecided null = inl refl
    value-IsDecided (bool b) = inl refl
    value-IsDecided (num n) = inl refl
    value-IsDecided (str t) = inl refl

    items-IsDecided : (xs : Items) → IsDecided (walk_items xs)
    items-IsDecided nil = inl refl
    items-IsDecided (cons v xs) = seq-IsDecided _ _ (value-IsDecided v) (items-IsDecided xs)

    fields-IsDecided : (fs : Fields) → IsDecided (walk_fields fs)
    fields-IsDecided end = inl refl
    fields-IsDecided (field j v fs) =
        seq-IsDecided _ _ (seq-IsDecided _ _ (reject-IsDecided _) (value-IsDecided v))
          (fields-IsDecided fs)

  pub walk-error : (v : Value) (k : Text) → includes keys k ≡ true → Occurs k v → walk v ≡ err code
  walk-error v k f x = elim (value-IsDecided v) [
    | inl passes ↦ absurd (value_passes v k passes f x)
    | inr e ↦ e
  ]
