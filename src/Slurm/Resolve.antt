-- ===== src/Slurm/Resolve.antt =====
-- What `resolveSlurmProfile` of server/workloads/slurm_profile.js gives, and what `buildSbatchArgs`
-- does with it.
use slaif_connect.Base.{
  ◌≡◌, ◌⊎◌, inl, inr, refl, true, false, not, ◌&&◌, Option, none, some, List, [], ◌∷◌, Text, lit,
  arith, All, text_eq, text_eq_iff, ok, guards->>-eq-ok, >>=-eq-ok, ok_inj, Bool-cases, starts_with,
}
use slaif_connect.Base.Value.{Value, Fields, str, obj, end, field, get_field}
use slaif_connect.Catalog
use slaif_connect.Slurm.{
  Profile, assert_plain_object, assert_no_forbidden_slurm_profile_fields, validate_slurm_profile,
  validate_profiles, validate_slurm_profile_catalog, profile_at, profile_for, or_match,
  resolve_slurm_profile, sbatch_args, build_sbatch_args,
}
use slaif_connect.Slurm.Profiles.{
  IsProfile, as_value, validate_slurm_profile-IsProfile, IsProfile-validate_slurm_profile,
  matching-ok,
}
use slaif_connect.Catalog.Payloads.{validate_payload_id-eq-ok}

-- An entry of a catalog: an accepted profile under the id of its payload or its own
abbrev IsEntry : Text × Profile → Type 0
IsEntry (key, p) = IsProfile p × ((key ≡ p.payload_id) ⊎ (key ≡ p.profile_id))

validate_profiles-IsEntry :
    (fs : Fields) (profiles : List (Text × Profile))
    → validate_profiles fs ≡ ok profiles
    → All IsEntry profiles
unfolding validate_profiles
validate_profiles-IsEntry end profiles h = rw (← ok_inj h) tt
validate_profiles-IsEntry (field key v fs) profiles h =
    let (p, accepted, h0) = >>=-eq-ok (validate_slurm_profile v) _ h in
    let ((keyed, more), h1) = guards->>-eq-ok _ _ h0 in
    let (rest, others, last) = >>=-eq-ok (validate_profiles fs) _ h1 in
    rw (← ok_inj last) (
      (validate_slurm_profile-IsProfile v p accepted, named p keyed),
      validate_profiles-IsEntry fs rest others,
    )
  where
    named :
        (p : Profile)
        → (not (text_eq key p.payload_id) && not (text_eq key p.profile_id)) ≡ false
        → (key ≡ p.payload_id) ⊎ (key ≡ p.profile_id)
    named p h = elim (Bool-cases (text_eq key p.payload_id)) [
      | inl hit ↦ inl ((text_eq_iff key p.payload_id).0 hit)
      | inr miss ↦
          let hit : text_eq key p.profile_id ≡ true = ground (arith, h, miss) in
          inr ((text_eq_iff key p.profile_id).0 hit)
    ]

abbrev IsFor : Text → Profile → Type 0
IsFor id p = IsProfile p × ((p.payload_id ≡ id) ⊎ (p.profile_id ≡ id))

profile_at-IsFor :
    (id : Text) (profiles : List (Text × Profile)) (p : Profile)
    → All IsEntry profiles
    → profile_at id profiles ≡ some p
    → IsFor id p
unfolding profile_at
profile_at-IsFor id [] p are h = cc
profile_at-IsFor id ((key, q) ∷ rest) p (is, are) h = elim (Bool-cases (text_eq key id)) [
  | inl hit ↦
      let found : some q ≡ some p = rw hit at h in
      let same : q ≡ p = cc in
      let key_is = (text_eq_iff key id).0 hit in
      rw (← same) (is.0, elim is.1 [ inl by_payload ↦ inl (cc) | inr by_profile ↦ inr (cc) ])
  | inr miss ↦ profile_at-IsFor id rest p are (rw miss at h)
]

profile_for-IsFor :
    (id : Text) (profiles : List (Text × Profile)) (p : Profile)
    → All IsEntry profiles
    → profile_for id profiles ≡ some p
    → IsProfile p × (p.payload_id ≡ id)
unfolding profile_for
profile_for-IsFor id [] p are h = cc
profile_for-IsFor id ((key, q) ∷ rest) p (is, are) h = elim (Bool-cases (text_eq q.payload_id id)) [
  | inl hit ↦
      let found : some q ≡ some p = rw hit at h in
      let same : q ≡ p = cc in rw (← same) (is.0, (text_eq_iff q.payload_id id).0 hit)
  | inr miss ↦ profile_for-IsFor id rest p are (rw miss at h)
]

or_match-IsFor :
    (id : Text) (profiles : List (Text × Profile)) (p : Profile) (direct found : Option Profile)
    → All IsEntry profiles
    → profile_at id profiles ≡ direct
    → profile_for id profiles ≡ found
    → or_match direct found ≡ ok p
    → IsFor id p
or_match-IsFor id profiles p (some q) found are at for h =
    profile_at-IsFor id profiles p are (rw (ok_inj h) at at)
or_match-IsFor id profiles p none (some q) are at for h =
    let (is, same) = profile_for-IsFor id profiles p are (rw (ok_inj h) at for) in (is, inl same)
or_match-IsFor id profiles p none none are at for h = cc

-- The profile that is resolved for the id of a payload is an accepted one, and the id is that of its
-- payload or its own.
resolve_slurm_profile-IsFor :
    (catalog payload_id : Value) (p : Profile)
    → resolve_slurm_profile catalog payload_id ≡ ok p
    → (id : Text) × (Catalog.validate_payload_id payload_id ≡ ok id) × IsFor id p
unfolding resolve_slurm_profile validate_slurm_profile_catalog
resolve_slurm_profile-IsFor catalog payload_id p h =
    let (id, named, h0) = >>=-eq-ok (Catalog.validate_payload_id payload_id) _ h in
    let (profiles, valid, chosen) = >>=-eq-ok (validate_slurm_profile_catalog catalog) _ h0 in
    let (fs, is, h1) = >>=-eq-ok (assert_plain_object catalog) _ valid in
    let (u, clean, h2) = >>=-eq-ok (assert_no_forbidden_slurm_profile_fields (obj fs)) _ h1 in
    let (typed, h3) = guards->>-eq-ok _ _ h2 in
    let (entries, inside, h4) =
      >>=-eq-ok (assert_plain_object (get_field (lit "profiles") fs)) validate_profiles h3 in
    (
      id,
      named,
      or_match-IsFor id profiles p _ _ (validate_profiles-IsEntry entries profiles h4) refl refl
          chosen,
    )

-- The profile that is resolved for the id of a payload is the payload's or has this id itself, and
-- for every absolute path the arguments of `sbatch` are built of it without an error.
pub resolve_slurm_profile-build_sbatch_args :
    (catalog payload_id : Value) (p : Profile) (path : Text)
    → resolve_slurm_profile catalog payload_id ≡ ok p
    → starts_with path (lit "/") ≡ true
    → ((payload_id ≡ str p.payload_id) ⊎ (payload_id ≡ str p.profile_id))
      × (build_sbatch_args (as_value p) (str path) ≡ ok (sbatch_args p path))
unfolding build_sbatch_args
resolve_slurm_profile-build_sbatch_args catalog payload_id p path h absolute =
    let (id, named, (is, same)) = resolve_slurm_profile-IsFor catalog payload_id p h in
    let asked = (validate_payload_id-eq-ok payload_id id named).0 in
    let built =
      matching-ok (lit "invalid_script_path") (λ s. starts_with s (lit "/")) path absolute in
    (
      elim same [ inl by_payload ↦ inl (cc) | inr by_profile ↦ inr (cc) ],
      rw (IsProfile-validate_slurm_profile p is, built) refl,
    )
