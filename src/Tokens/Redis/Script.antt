-- ===== src/Tokens/Redis/Script.antt =====
-- The checks of CONSUME_SCRIPT decide what `checkRecord` decides, for expectations that survive the
-- way to the script.
use slaif_connect.Base.{
  ℕ, ◌≡◌, ◌≢◌, ◌↔◌, refl, sym, ap, ◌∙◌, Option, none, some, [], ◌∷◌, Text, text_eq_iff, arith, ok,
  All,
}
use slaif_connect.Base.Table.{Table, get, IsUnique}
use slaif_connect.Tokens.Types.{
  TokenRecord, Scalar, undef, null, flag, count, text, Expected, ExpectedMetadata, absent,
  invalid_object, entries,
}
use slaif_connect.Tokens.Check.{
  Admits, BindsEntries, BindsMetadata, entry, check_entries_iff, agrees_iff,
}
use slaif_connect.Tokens.Redis.{
  json_entries, script_argument, script_metadata, script_check, check_script_metadata,
}

-- No text of the expectation is empty, and its metadata is undefined, or an object (and no null, no
-- array and no scalar) with no undefined value.
abbrev pub IsFull : Option Text → Type 0
IsFull none = Unit
IsFull (some s) = s ≢ []

abbrev pub IsDefined : Text × Scalar → Type 0
IsDefined p = p.1 ≢ undef

abbrev pub IsPlain : ExpectedMetadata → Type 0
IsPlain absent = Unit
IsPlain invalid_object = ⊥
IsPlain (entries pairs) = All IsDefined pairs

pub record IsCanonical (e : Expected) : Type 0 where
  pub scope : IsFull e.scope
  pub session_id : IsFull e.session_id
  pub hpc : IsFull e.hpc
  pub origin : IsFull e.origin
  pub metadata : IsPlain e.metadata

script_argument_full : (o : Option Text) → IsFull o → script_argument o ≡ o
unfolding script_argument
script_argument_full none h = refl
script_argument_full (some []) h = absurd (h refl)
script_argument_full (some (c ∷ s)) h = refl

json_entries_defined : (m : Table Scalar) → All IsDefined m → json_entries m ≡ m
unfolding json_entries
json_entries_defined [] h = refl
json_entries_defined ((k, undef) ∷ m) h = absurd (h.0 refl)
json_entries_defined ((k, null) ∷ m) h = ap (◌∷◌ (k, null)) (json_entries_defined m h.1)
json_entries_defined ((k, flag b) ∷ m) h = ap (◌∷◌ (k, flag b)) (json_entries_defined m h.1)
json_entries_defined ((k, count n) ∷ m) h = ap (◌∷◌ (k, count n)) (json_entries_defined m h.1)
json_entries_defined ((k, text t) ∷ m) h = ap (◌∷◌ (k, text t)) (json_entries_defined m h.1)

get-json_entries-none :
    (k : Text) (m : Table Scalar) → get k m ≡ none → get k (json_entries m) ≡ none
unfolding get json_entries
get-json_entries-none k [] h = refl
get-json_entries-none k ((j, undef) ∷ m) h = ground (arith, get-json_entries-none k m)
get-json_entries-none k ((j, null) ∷ m) h = ground (arith, get-json_entries-none k m)
get-json_entries-none k ((j, flag b) ∷ m) h = ground (arith, get-json_entries-none k m)
get-json_entries-none k ((j, count n) ∷ m) h = ground (arith, get-json_entries-none k m)
get-json_entries-none k ((j, text t) ∷ m) h = ground (arith, get-json_entries-none k m)

-- With distinct keys, a dropped entry reads as undefined all the same.
pub entry-json_entries :
    (k : Text) (m : Table Scalar) → IsUnique m → entry k (json_entries m) ≡ entry k m
unfolding entry get json_entries
entry-json_entries k [] u = refl
entry-json_entries k ((j, undef) ∷ m) u =
    ground (arith, text_eq_iff j k, get-json_entries-none j m, entry-json_entries k m u.1)
entry-json_entries k ((j, null) ∷ m) u = ground (arith, entry-json_entries k m u.1)
entry-json_entries k ((j, flag b) ∷ m) u = ground (arith, entry-json_entries k m u.1)
entry-json_entries k ((j, count n) ∷ m) u = ground (arith, entry-json_entries k m u.1)
entry-json_entries k ((j, text t) ∷ m) u = ground (arith, entry-json_entries k m u.1)

abbrev Bound : Table Scalar → Text × Scalar → Type 0
Bound metadata p = entry p.0 metadata ≡ p.1

BindsEntries-iff_All :
    (metadata pairs : Table Scalar) → BindsEntries metadata pairs ↔ All (Bound metadata) pairs
BindsEntries-iff_All metadata [] = (λ h. h, λ h. h)
BindsEntries-iff_All metadata ((k, v) ∷ rest) =
    let (to, from) = BindsEntries-iff_All metadata rest in
    (λ h. (h.0, to h.1), λ h. (h.0, from h.1))

BindsEntries-json_entries :
    (metadata pairs : Table Scalar)
    → IsUnique metadata
    → BindsEntries (json_entries metadata) pairs ↔ BindsEntries metadata pairs
BindsEntries-json_entries metadata [] u = (λ h. h, λ h. h)
BindsEntries-json_entries metadata ((k, v) ∷ rest) u =
    let (to, from) = BindsEntries-json_entries metadata rest u in
    let e = entry-json_entries k metadata u in
    (λ h. (sym e ∙ h.0, to h.1), λ h. (e ∙ h.0, from h.1))

module _ (order : Table Scalar → Table Scalar)
    (order-all : (P : Text × Scalar → Type 0) (m : Table Scalar) → All P m → All P (order m))
    (order-only : (P : Text × Scalar → Type 0) (m : Table Scalar) → All P (order m) → All P m) where
  BindsEntries-order :
      (metadata pairs : Table Scalar)
      → BindsEntries metadata (order pairs) ↔ BindsEntries metadata pairs
  BindsEntries-order metadata pairs = (
    λ h.
        (BindsEntries-iff_All metadata pairs).1
          (order-only (Bound metadata) pairs ((BindsEntries-iff_All metadata (order pairs)).0 h)),
    λ h.
        (BindsEntries-iff_All metadata (order pairs)).1
          (order-all (Bound metadata) pairs ((BindsEntries-iff_All metadata pairs).0 h)),
  )

  check_script_metadata_iff :
      (metadata : Table Scalar) (e : ExpectedMetadata)
      → IsUnique metadata
      → IsPlain e
      → (check_script_metadata order (json_entries metadata) (script_metadata e) ≡ ok tt)
        ↔ BindsMetadata metadata e
  unfolding script_metadata
  check_script_metadata_iff metadata absent u p = (λ _. tt, λ _. refl)
  check_script_metadata_iff metadata invalid_object u p = absurd p
  check_script_metadata_iff metadata (entries pairs) u p = rw (json_entries_defined pairs p) (
      let a = check_entries_iff (json_entries metadata) (order pairs) in
      let b = BindsEntries-order (json_entries metadata) pairs in
      let c = BindsEntries-json_entries metadata pairs u in
      (λ h. c.0 (b.0 (a.0 h)), λ h. a.1 (b.1 (c.1 h))))

  script_check_sound :
      (at : ℕ) (r : TokenRecord) (e : Expected)
      → IsUnique r.metadata
      → IsCanonical e
      → script_check order at (record r { metadata = json_entries r.metadata }) e ≡ ok tt
      → Admits at r e
  unfolding script_check
  script_check_sound at r e u c h = ground (
    arith,
    script_argument_full e.scope c.scope,
    script_argument_full e.session_id c.session_id,
    script_argument_full e.hpc c.hpc,
    script_argument_full e.origin c.origin,
    agrees_iff e.scope (some r.scope),
    agrees_iff e.session_id r.session_id,
    agrees_iff e.hpc r.hpc,
    agrees_iff e.origin r.origin,
    check_script_metadata_iff r.metadata e.metadata u c.metadata,
  )

  script_check_complete :
      (at : ℕ) (r : TokenRecord) (e : Expected)
      → IsUnique r.metadata
      → IsCanonical e
      → Admits at r e
      → script_check order at (record r { metadata = json_entries r.metadata }) e ≡ ok tt
  unfolding script_check
  script_check_complete at r e u c h = ground (
    arith,
    script_argument_full e.scope c.scope,
    script_argument_full e.session_id c.session_id,
    script_argument_full e.hpc c.hpc,
    script_argument_full e.origin c.origin,
    agrees_iff e.scope (some r.scope),
    agrees_iff e.session_id r.session_id,
    agrees_iff e.hpc r.hpc,
    agrees_iff e.origin r.origin,
    check_script_metadata_iff r.metadata e.metadata u c.metadata,
  )

  -- With distinct metadata keys in the record, and an expectation that has no empty text and has
  -- metadata that is undefined or an object (no array) with no undefined value, the script accepts the
  -- stored record exactly when the token is usable and bound to what is expected, in whatever order
  -- `pairs` visits the metadata.
  pub script_check_iff :
      (at : ℕ) (r : TokenRecord) (e : Expected)
      → IsUnique r.metadata
      → IsCanonical e
      → (script_check order at (record r { metadata = json_entries r.metadata }) e ≡ ok tt)
        ↔ Admits at r e
  script_check_iff at r e u c = (script_check_sound at r e u c, script_check_complete at r e u c)
