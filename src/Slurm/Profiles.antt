-- ===== src/Slurm/Profiles.antt =====
-- What `validateSlurmProfile` of server/workloads/slurm_profile.js returns.
use slaif_connect.Base.{
  ℕ, ◌≡◌, refl, Bool, true, false, not, ◌&&◌, zero, suc, Option, none, some, [], ◌∷◌, ◌++◌, map,
  Text, lit, arith, text_eq, text_eq_iff, sym, ap, includes, upper, leb, is_digit, class_match, ok,
  guards, guards->>-eq-ok, >>=-eq-ok, ok_inj, ◌>>=◌, Bool-cases, inl, inr,
}
use slaif_connect.Base.Value.{
  Value, undef, null, bool, num, str, arr, obj, int, pos, negsuc, frac, nan, infinity, end, field,
  get_field, is_text,
}
use slaif_connect.Forbidden.{walk}
use slaif_connect.Catalog
use slaif_connect.Catalog.Payloads.{same_id}
use slaif_connect.Slurm.{
  Profile, allowed_slurm_template_ids, is_safe_unit, is_resource_unit, is_time_limit, is_memory,
  is_amount, is_memory_suffix, matching, assert_plain_object, assert_safe_optional_string,
  assert_positive_integer, validate_gpus, validate_template,
  assert_no_forbidden_slurm_profile_fields, validate_slurm_profile,
}

pub matching-eq-ok :
    (code : Text) (pattern : Text → Bool) (v : Value) (s : Text)
    → matching code pattern v ≡ ok s
    → (v ≡ str s) × (pattern s ≡ true)
unfolding matching
matching-eq-ok code pattern (str t) s h =
    let (tests, last) = guards->>-eq-ok ((not (pattern t), code) ∷ []) (ok t) h in
    let same : t ≡ s = ok_inj last in rw (← same) (refl, ground (arith, tests.0))
matching-eq-ok code pattern undef s h = cc
matching-eq-ok code pattern null s h = cc
matching-eq-ok code pattern (bool b) s h = cc
matching-eq-ok code pattern (num n) s h = cc
matching-eq-ok code pattern (arr xs) s h = cc
matching-eq-ok code pattern (obj fs) s h = cc

pub matching-ok :
    (code : Text) (pattern : Text → Bool) (s : Text)
    → pattern s ≡ true
    → matching code pattern (str s) ≡ ok s
unfolding matching guards
matching-ok code pattern s h = rw h refl

abbrev pub IsResource : Text → Type 0
IsResource s = class_match is_resource_unit 0 128 s ≡ true

optional-IsResource :
    (name : Text) (v : Value) (s : Text) → assert_safe_optional_string name v ≡ ok s → IsResource s
unfolding assert_safe_optional_string class_match
optional-IsResource name (str t) s h =
    let (tests, last) =
      guards->>-eq-ok ((not (class_match is_resource_unit 0 128 t), lit "invalid_" ++ name) ∷ [])
        (ok t) h in
    let same : t ≡ s = ok_inj last in rw (← same) (ground (arith, tests.0))
optional-IsResource name undef s h = let same : [] ≡ s = ok_inj h in rw (← same) refl
optional-IsResource name null s h = let same : [] ≡ s = ok_inj h in rw (← same) refl
optional-IsResource name (bool b) s h = cc
optional-IsResource name (num n) s h = cc
optional-IsResource name (arr xs) s h = cc
optional-IsResource name (obj fs) s h = cc

optional-ok : (name s : Text) → IsResource s → assert_safe_optional_string name (str s) ≡ ok s
unfolding assert_safe_optional_string guards
optional-ok name s h = rw h refl

abbrev pub IsBounded : ℕ → ℕ → Type 0
IsBounded max n = (leb 1 n && leb n max) ≡ true

integer-IsBounded :
    (name : Text) (max : ℕ) (v : Value) (n : ℕ)
    → assert_positive_integer name max v ≡ ok n
    → IsBounded max n
unfolding assert_positive_integer
integer-IsBounded name max (num (int (pos m))) n h =
    let (tests, last) =
      guards->>-eq-ok ((not (leb 1 m && leb m max), lit "invalid_" ++ name) ∷ []) (ok m) h in
    let same : m ≡ n = ok_inj last in rw (← same) (ground (arith, tests.0))
integer-IsBounded name max (num (int (negsuc m))) n h = cc
integer-IsBounded name max (num (frac z d)) n h = cc
integer-IsBounded name max (num nan) n h = cc
integer-IsBounded name max (num (infinity up)) n h = cc
integer-IsBounded name max undef n h = cc
integer-IsBounded name max null n h = cc
integer-IsBounded name max (str s) n h = cc
integer-IsBounded name max (bool b) n h = cc
integer-IsBounded name max (arr xs) n h = cc
integer-IsBounded name max (obj fs) n h = cc

integer-ok :
    (name : Text) (max n : ℕ)
    → IsBounded max n
    → assert_positive_integer name max (num (int (pos n))) ≡ ok n
unfolding assert_positive_integer guards
integer-ok name max n h = rw h refl

abbrev pub IsGpus : Option ℕ → Type 0
IsGpus none = Unit {0}
IsGpus (some n) = IsBounded 64 n

counted-IsGpus :
    (v : Value) (g : Option ℕ)
    → (assert_positive_integer (lit "gpus") 64 v >>= λ n. ok (some n)) ≡ ok g
    → IsGpus g
counted-IsGpus v g h =
    let (n, made, last) =
      >>=-eq-ok (assert_positive_integer (lit "gpus") 64 v) (λ n. ok (some n)) h in
    rw (← ok_inj last) (integer-IsBounded (lit "gpus") 64 v n made)

validate_gpus-IsGpus : (v : Value) (g : Option ℕ) → validate_gpus v ≡ ok g → IsGpus g
unfolding validate_gpus
validate_gpus-IsGpus undef g h = rw (← ok_inj h) tt
validate_gpus-IsGpus null g h = rw (← ok_inj h) tt
validate_gpus-IsGpus (str []) g h = rw (← ok_inj h) tt
validate_gpus-IsGpus (str (c ∷ s)) g h = counted-IsGpus (str (c ∷ s)) g h
validate_gpus-IsGpus (num n) g h = counted-IsGpus (num n) g h
validate_gpus-IsGpus (bool b) g h = counted-IsGpus (bool b) g h
validate_gpus-IsGpus (arr xs) g h = counted-IsGpus (arr xs) g h
validate_gpus-IsGpus (obj fs) g h = counted-IsGpus (obj fs) g h

-- The field of an object that `validateSlurmProfile` returns
abbrev pub gpus_value : Option ℕ → Value
gpus_value none = undef
gpus_value (some n) = num (int (pos n))

gpus-ok : (g : Option ℕ) → IsGpus g → validate_gpus (gpus_value g) ≡ ok g
unfolding validate_gpus
gpus-ok none h = refl
gpus-ok (some n) h = rw (integer-ok (lit "gpus") 64 n h) refl

validate_template-eq-ok :
    (v : Value) (t : Text) → validate_template v ≡ ok t → validate_template (str t) ≡ ok t
unfolding validate_template text_eq
validate_template-eq-ok v t h = elim (Bool-cases (is_text (lit "gams_chat_v1_scaffold") v)) [
  | inl hit ↦
      let taken = rw hit at h in
      let same : lit "gams_chat_v1_scaffold" ≡ t = ok_inj taken in rw (← same) refl
  | inr miss ↦
      let again = same_id v t (rw miss at h) in
      elim (Bool-cases (is_text (lit "gams_chat_v1_scaffold") (str t))) [
        | inl hit ↦
            let same : t ≡ lit "gams_chat_v1_scaffold" = (text_eq_iff t _).0 hit in
            rw hit (ap ok (sym same))
        | inr other ↦ rw (other, again) refl
      ]
]

upper_twice : (c : ℕ) → upper (upper c) ≡ upper c
unfolding upper
upper_twice c = ground arith

upper_idem : (s : Text) → map upper (map upper s) ≡ map upper s
upper_idem [] = refl
upper_idem (c ∷ s) = cc (upper_twice c, upper_idem s)

is_digit-upper : (c : ℕ) → is_digit c ≡ true → upper c ≡ c
unfolding upper
is_digit-upper c h = ground arith

is_suffix-upper : (c : ℕ) → is_memory_suffix c ≡ true → is_memory_suffix (upper c) ≡ true
unfolding upper
is_suffix-upper c h = ground arith

is_amount-upper : (n : ℕ) (s : Text) → is_amount n s ≡ true → is_amount n (map upper s) ≡ true
unfolding is_amount
is_amount-upper n [] h = cc
is_amount-upper n (c ∷ []) h = is_suffix-upper c h
is_amount-upper zero (c ∷ d ∷ s) h = cc
is_amount-upper (suc n) (c ∷ d ∷ s) h =
    let digit : is_digit c ≡ true = ground arith in
    let rest : is_amount n (d ∷ s) ≡ true = ground arith in
    rw (is_digit-upper c digit, digit) (is_amount-upper n (d ∷ s) rest)

-- Raising the letters of an amount of memory keeps it one.
is_memory-upper : (s : Text) → is_memory s ≡ true → is_memory (map upper s) ≡ true
unfolding is_memory
is_memory-upper [] h = cc
is_memory-upper (c ∷ s) h =
    let first : (leb b'1' c && leb c b'9') ≡ true = ground arith in
    let digit : is_digit c ≡ true = ground arith in
    let rest : is_amount 5 s ≡ true = ground arith in
    rw (is_digit-upper c digit, first) (is_amount-upper 5 s rest)

-- What the validator has found out about a profile that it returns
pub record IsProfile (p : Profile) : Type 0 where
  pub profile_id : class_match is_safe_unit 1 96 p.profile_id ≡ true
  pub payload_id : Catalog.validate_payload_id (str p.payload_id) ≡ ok p.payload_id
  pub job_name : class_match is_safe_unit 1 64 p.job_name ≡ true
  pub time_limit : is_time_limit p.time_limit ≡ true
  pub cpus_per_task : IsBounded 256 p.cpus_per_task
  pub memory : is_memory p.memory ≡ true
  pub upper_memory : map upper p.memory ≡ p.memory
  pub partition : IsResource p.partition
  pub account : IsResource p.account
  pub qos : IsResource p.qos
  pub gres : IsResource p.gres
  pub gpus : IsGpus p.gpus
  pub max_output_bytes : IsBounded 1048576 p.max_output_bytes
  pub template : validate_template (str p.template) ≡ ok p.template
  pub known : not (includes allowed_slurm_template_ids p.template) ≡ false
  pub scaffold :
      (text_eq p.payload_id (lit "gams_chat_v1")
        && not (text_eq p.template (lit "gams_chat_v1_scaffold")))
      ≡ false

pub validate_slurm_profile-IsProfile :
    (v : Value) (p : Profile) → validate_slurm_profile v ≡ ok p → IsProfile p
unfolding validate_slurm_profile
validate_slurm_profile-IsProfile v p h =
    let (fs, is, h0) = >>=-eq-ok (assert_plain_object v) _ h in
    let (u, clean, h1) = >>=-eq-ok (assert_no_forbidden_slurm_profile_fields (obj fs)) _ h0 in
    let (profile_id, is_id, h2) = >>=-eq-ok (matching _ _ _) _ h1 in
    let (payload_id, is_payload, h3) = >>=-eq-ok (Catalog.validate_payload_id _) _ h2 in
    let (slurm, h4) = guards->>-eq-ok _ _ h3 in
    let (job_name, is_name, h5) = >>=-eq-ok (matching _ _ _) _ h4 in
    let (time_limit, is_time, h6) = >>=-eq-ok (matching _ _ _) _ h5 in
    let (memory, is_memory, h7) = >>=-eq-ok (matching _ _ _) _ h6 in
    let (cpus, is_cpus, h8) = >>=-eq-ok (assert_positive_integer _ _ _) _ h7 in
    let (gpus, is_gpus, h9) = >>=-eq-ok (validate_gpus _) _ h8 in
    let (template, is_template, h10) = >>=-eq-ok (validate_template _) _ h9 in
    let ((known, (scaffold, more)), h11) = guards->>-eq-ok _ _ h10 in
    let (partition, is_partition, h12) = >>=-eq-ok (assert_safe_optional_string _ _) _ h11 in
    let (account, is_account, h13) = >>=-eq-ok (assert_safe_optional_string _ _) _ h12 in
    let (qos, is_qos, h14) = >>=-eq-ok (assert_safe_optional_string _ _) _ h13 in
    let (gres, is_gres, h15) = >>=-eq-ok (assert_safe_optional_string _ _) _ h14 in
    let (bytes, is_bytes, h16) = >>=-eq-ok (assert_positive_integer _ _ _) _ h15 in
    rw (← ok_inj h16) (record {
      profile_id = (matching-eq-ok _ _ _ profile_id is_id).1;
      payload_id = same_id _ payload_id is_payload;
      job_name = (matching-eq-ok _ _ _ job_name is_name).1;
      time_limit = (matching-eq-ok _ _ _ time_limit is_time).1;
      cpus_per_task = integer-IsBounded _ _ _ cpus is_cpus;
      memory = is_memory-upper memory (matching-eq-ok _ _ _ memory is_memory).1;
      upper_memory = upper_idem memory;
      partition = optional-IsResource _ _ partition is_partition;
      account = optional-IsResource _ _ account is_account;
      qos = optional-IsResource _ _ qos is_qos;
      gres = optional-IsResource _ _ gres is_gres;
      gpus = validate_gpus-IsGpus _ gpus is_gpus;
      max_output_bytes = integer-IsBounded _ _ _ bytes is_bytes;
      template = validate_template-eq-ok _ template is_template;
      known = known;
      scaffold = scaffold;
    })

-- The object that `validateSlurmProfile` returns
abbrev pub as_value : Profile → Value
as_value p = obj (
    field (lit "profileId") (str p.profile_id) (
      field (lit "payloadId") (str p.payload_id) (
        field (lit "scheduler") (str (lit "slurm")) (
          field (lit "jobName") (str p.job_name) (
            field (lit "timeLimit") (str p.time_limit) (
              field (lit "cpusPerTask") (num (int (pos p.cpus_per_task))) (
                field (lit "memory") (str p.memory) (
                  field (lit "partition") (str p.partition) (
                    field (lit "account") (str p.account) (
                      field (lit "qos") (str p.qos) (
                        field (lit "gres") (str p.gres) (
                          field (lit "gpus") (gpus_value p.gpus) (
                            field (lit "maxOutputBytes") (num (int (pos p.max_output_bytes)))
                              (field (lit "template") (str p.template) end))))))))))))))

-- No field of it is a forbidden one, and no value that has fields stands in it.
as_value-clean : (p : Profile) → assert_no_forbidden_slurm_profile_fields (as_value p) ≡ ok tt
unfolding assert_no_forbidden_slurm_profile_fields walk includes text_eq
as_value-clean p = by_gpus p.gpus refl
  where
    by_gpus :
        (g : Option ℕ) → p.gpus ≡ g → assert_no_forbidden_slurm_profile_fields (as_value p) ≡ ok tt
    by_gpus none e = rw e refl
    by_gpus (some n) e = rw e refl

pub IsProfile-validate_slurm_profile :
    (p : Profile) → IsProfile p → validate_slurm_profile (as_value p) ≡ ok p
unfolding validate_slurm_profile get_field text_eq guards
IsProfile-validate_slurm_profile p is =
    rw
      (
        as_value-clean p,
        matching-ok (lit "invalid_profile_id") _ p.profile_id is.profile_id,
        is.payload_id,
        matching-ok (lit "invalid_job_name") _ p.job_name is.job_name,
        matching-ok (lit "invalid_time_limit") _ p.time_limit is.time_limit,
        matching-ok (lit "invalid_memory") _ p.memory is.memory,
        integer-ok (lit "cpusPerTask") 256 p.cpus_per_task is.cpus_per_task,
        gpus-ok p.gpus is.gpus,
        is.template,
        is.known,
        is.scaffold,
        optional-ok (lit "partition") p.partition is.partition,
        optional-ok (lit "account") p.account is.account,
        optional-ok (lit "qos") p.qos is.qos,
        optional-ok (lit "gres") p.gres is.gres,
        integer-ok (lit "maxOutputBytes") 1048576 p.max_output_bytes is.max_output_bytes,
        is.upper_memory,
      )
      refl

-- A profile that was accepted is accepted again, and comes back as it was.
pub validate_slurm_profile_idem :
    (v : Value) (p : Profile)
    → validate_slurm_profile v ≡ ok p
    → validate_slurm_profile (as_value p) ≡ ok p
validate_slurm_profile_idem v p h =
    IsProfile-validate_slurm_profile p (validate_slurm_profile-IsProfile v p h)
