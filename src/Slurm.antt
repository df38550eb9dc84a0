-- ===== src/Slurm.antt =====
-- server/workloads/slurm_profile.js: the profiles of jobs, and the arguments of `sbatch` that are made
-- of them. An error is its code; a path is one of a POSIX system.
use slaif_connect.Base.{
  ℕ, Bool, true, false, not, ◌||◌, ◌&&◌, zero, suc, Option, none, some, List, [], ◌∷◌, ◌++◌, map,
  Text, lit, text_eq, includes, starts_with, leb, ◌==◌, is_digit, is_word, class_match, split,
  upper, decimal_digits, Result, ok, err, ◌>>=◌, ◌>>◌, guards, if◌then◌else◌,
}
use slaif_connect.Base.Value.{
  Value, Fields, undef, null, bool, num, str, arr, obj, int, pos, negsuc, end, field, get_field,
  property, is_text, is_one, is_falsy, is_plain_object,
}
use slaif_connect.Forbidden.{walk}
use slaif_connect.Catalog
pub mod Profiles
pub mod Safe
pub mod Arguments
pub mod Resolve
pub mod Tests

abbrev pub allowed_slurm_template_ids : List Text
allowed_slurm_template_ids =
    lit "cpu_memory_diagnostics_v1" ∷ lit "gpu_diagnostics_v1" ∷ lit "gams_chat_v1_scaffold" ∷ []

abbrev pub forbidden_slurm_profile_fields : List Text
forbidden_slurm_profile_fields =
    lit "command"
    ∷ lit "shellCommand"
    ∷ lit "remoteCommand"
    ∷ lit "sshCommand"
    ∷ lit "script"
    ∷ lit "scriptText"
    ∷ lit "jobScript"
    ∷ lit "password"
    ∷ lit "passphrase"
    ∷ lit "otp"
    ∷ lit "privateKey"
    ∷ lit "sshPrivateKey"
    ∷ lit "launchToken"
    ∷ lit "relayToken"
    ∷ lit "jobReportToken"
    ∷ lit "workloadToken"
    ∷ lit "token"
    ∷ lit "Authorization"
    ∷ lit "authorization"
    ∷ []

unfoldable pub assert_no_forbidden_slurm_profile_fields : Value → Result Text (Unit {0})
assert_no_forbidden_slurm_profile_fields =
    walk forbidden_slurm_profile_fields (lit "forbidden_slurm_profile_field")

-- `[A-Za-z0-9_.-]`
abbrev pub is_safe_unit : ℕ → Bool
is_safe_unit c = is_word c || c == b'.'

-- `[A-Za-z0-9_@%+=:.,/-]`
unfoldable pub is_resource_unit : ℕ → Bool
is_resource_unit c =
    is_word c
    || c == b'.'
    || c == b'@'
    || c == b'%'
    || c == b'+'
    || c == b'='
    || c == b':'
    || c == b','
    || c == b'/'

-- `[0-5][0-9]`
abbrev pub is_sixty : Text → Bool
is_sixty (a ∷ b ∷ []) = leb b'0' a && leb a b'5' && is_digit b
is_sixty _ = false

-- `[0-9]{1,2}:[0-5][0-9]:[0-5][0-9]`, split at its colons
abbrev pub is_clock : List Text → Bool
is_clock (h ∷ m ∷ s ∷ []) = class_match is_digit 1 2 h && is_sixty m && is_sixty s
is_clock _ = false

-- An optional `[0-9]{1,2}-` in front of it, split at the dash
abbrev pub is_duration : List Text → Bool
is_duration (c ∷ []) = is_clock (split b':' c)
is_duration (d ∷ c ∷ []) = class_match is_digit 1 2 d && is_clock (split b':' c)
is_duration _ = false

unfoldable pub is_time_limit : Text → Bool
is_time_limit s = is_duration (split b'-' s)

-- `(?:K|M|G|T)` under the flag `i`
abbrev pub is_memory_suffix : ℕ → Bool
is_memory_suffix c =
    c == b'K'
    || c == b'M'
    || c == b'G'
    || c == b'T'
    || c == b'k'
    || c == b'm'
    || c == b'g'
    || c == b't'

-- `[0-9]{0,n}(?:K|M|G|T)`
unfoldable pub is_amount : ℕ → Text → Bool
is_amount n [] = false
is_amount n (c ∷ []) = is_memory_suffix c
is_amount zero (c ∷ d ∷ s) = false
is_amount (suc n) (c ∷ d ∷ s) = is_digit c && is_amount n (d ∷ s)

unfoldable pub is_memory : Text → Bool
is_memory [] = false
is_memory (c ∷ s) = leb b'1' c && leb c b'9' && is_amount 5 s

-- `typeof value !== 'string' || !pattern.test(value)` is an error.
unfoldable pub matching : Text → (Text → Bool) → Value → Result Text Text
matching code pattern (str s) = guards ((not (pattern s), code) ∷ []) >> ok s
matching code pattern _ = err code

unfoldable pub assert_safe_optional_string : Text → Value → Result Text Text
assert_safe_optional_string name undef = ok []
assert_safe_optional_string name null = ok []
assert_safe_optional_string name (str s) =
    guards ((not (class_match is_resource_unit 0 128 s), lit "invalid_" ++ name) ∷ []) >> ok s
assert_safe_optional_string name _ = err (lit "invalid_" ++ name)

unfoldable pub assert_positive_integer : Text → ℕ → Value → Result Text ℕ
assert_positive_integer name max (num (int (pos n))) =
    guards ((not (leb 1 n && leb n max), lit "invalid_" ++ name) ∷ []) >> ok n
assert_positive_integer name max _ = err (lit "invalid_" ++ name)

-- `profile.gpus`, which may be left out
unfoldable pub validate_gpus : Value → Result Text (Option ℕ)
validate_gpus undef = ok none
validate_gpus null = ok none
validate_gpus (str []) = ok none
validate_gpus v = assert_positive_integer (lit "gpus") 64 v >>= λ n. ok (some n)

-- `profile.template`, which is the scaffold's or the id of a payload
unfoldable pub validate_template : Value → Result Text Text
validate_template v =
    if is_text (lit "gams_chat_v1_scaffold") v
    then ok (lit "gams_chat_v1_scaffold")
    else Catalog.validate_payload_id v

-- What `validateSlurmProfile` returns, besides the scheduler, which is `slurm`
pub record Profile : Type 0 where
  pub profile_id : Text
  pub payload_id : Text
  pub job_name : Text
  pub time_limit : Text
  pub cpus_per_task : ℕ
  pub memory : Text
  pub partition : Text
  pub account : Text
  pub qos : Text
  pub gres : Text
  pub gpus : Option ℕ
  pub max_output_bytes : ℕ
  pub template : Text

abbrev pub assert_plain_object : Value → Result Text Fields
assert_plain_object (obj fs) = ok fs
assert_plain_object _ = err (lit "invalid_object")

unfoldable pub validate_slurm_profile : Value → Result Text Profile
validate_slurm_profile profile = do
  fs ← assert_plain_object profile
  assert_no_forbidden_slurm_profile_fields (obj fs)
  profile_id ←
      matching (lit "invalid_profile_id") (class_match is_safe_unit 1 96)
        (get_field (lit "profileId") fs)
  payload_id ← Catalog.validate_payload_id (get_field (lit "payloadId") fs)
  guards
      ((not (is_text (lit "slurm") (get_field (lit "scheduler") fs)), lit "invalid_scheduler") ∷ [])
  job_name ←
      matching (lit "invalid_job_name") (class_match is_safe_unit 1 64)
        (get_field (lit "jobName") fs)
  time_limit ← matching (lit "invalid_time_limit") is_time_limit (get_field (lit "timeLimit") fs)
  memory ← matching (lit "invalid_memory") is_memory (get_field (lit "memory") fs)
  cpus ← assert_positive_integer (lit "cpusPerTask") 256 (get_field (lit "cpusPerTask") fs)
  gpus ← validate_gpus (get_field (lit "gpus") fs)
  template ← validate_template (get_field (lit "template") fs)
  guards (
      (not (includes allowed_slurm_template_ids template), lit "invalid_template")
      ∷ (
        text_eq payload_id (lit "gams_chat_v1")
            && not (text_eq template (lit "gams_chat_v1_scaffold")),
        lit "invalid_template",
      )
      ∷ [])
  partition ← assert_safe_optional_string (lit "partition") (get_field (lit "partition") fs)
  account ← assert_safe_optional_string (lit "account") (get_field (lit "account") fs)
  qos ← assert_safe_optional_string (lit "qos") (get_field (lit "qos") fs)
  gres ← assert_safe_optional_string (lit "gres") (get_field (lit "gres") fs)
  max_output ←
      assert_positive_integer (lit "maxOutputBytes") 1048576 (get_field (lit "maxOutputBytes") fs)
  ok (record {
    profile_id = profile_id;
    payload_id = payload_id;
    job_name = job_name;
    time_limit = time_limit;
    cpus_per_task = cpus;
    memory = map upper memory;
    partition = partition;
    account = account;
    qos = qos;
    gres = gres;
    gpus = gpus;
    max_output_bytes = max_output;
    template = template;
  })

-- The entries of a catalog of profiles, each under the id of its payload or its own
unfoldable pub validate_profiles : Fields → Result Text (List (Text × Profile))
validate_profiles end = ok []
validate_profiles (field key profile fs) = validate_slurm_profile profile >>= λ p.
    guards (
      (not (text_eq key p.payload_id) && not (text_eq key p.profile_id), lit "invalid_profile_key")
      ∷ [])
    >> (validate_profiles fs >>= λ rest. ok ((key, p) ∷ rest))

unfoldable pub validate_slurm_profile_catalog : Value → Result Text (List (Text × Profile))
validate_slurm_profile_catalog catalog = do
  fs ← assert_plain_object catalog
  assert_no_forbidden_slurm_profile_fields (obj fs)
  guards (
      (
        not (is_text (lit "slaif.slurmProfileCatalog") (get_field (lit "type") fs)),
        lit "invalid_type",
      )
      ∷ (not (is_one (get_field (lit "version") fs)), lit "invalid_version")
      ∷ [])
  profiles ← assert_plain_object (get_field (lit "profiles") fs)
  validate_profiles profiles

-- `catalog.profiles[key]`
unfoldable pub profile_at : Text → List (Text × Profile) → Option Profile
profile_at key [] = none
profile_at key ((k, p) ∷ rest) = if text_eq k key then some p else profile_at key rest

-- `Object.values(catalog.profiles).find((profile) => profile.payloadId === id)`
unfoldable pub profile_for : Text → List (Text × Profile) → Option Profile
profile_for id [] = none
profile_for id ((k, p) ∷ rest) = if text_eq p.payload_id id then some p else profile_for id rest

abbrev pub or_match : Option Profile → Option Profile → Result Text Profile
or_match (some direct) found = ok direct
or_match none (some p) = ok p
or_match none none = err (lit "missing_profile")

unfoldable pub resolve_slurm_profile : Value → Value → Result Text Profile
resolve_slurm_profile catalog payload_id = Catalog.validate_payload_id payload_id >>= λ id.
    validate_slurm_profile_catalog catalog >>= λ profiles.
    or_match (profile_at id profiles) (profile_for id profiles)

-- `if (value) { args.push(flag, value); }`
unfoldable pub option_for : Text → Text → List Text
option_for flag [] = []
option_for flag (c ∷ s) = flag ∷ (c ∷ s) ∷ []

-- `if (validated.gpus !== undefined) { args.push('--gpus', String(validated.gpus)); }`
abbrev pub gpus_option : Option ℕ → List Text
gpus_option none = []
gpus_option (some n) = lit "--gpus" ∷ decimal_digits 8 n ∷ []

abbrev pub sbatch_args : Profile → Text → List Text
sbatch_args p path =
    lit "--job-name"
    ∷ p.job_name
    ∷ lit "--time"
    ∷ p.time_limit
    ∷ lit "--cpus-per-task"
    ∷ decimal_digits 8 p.cpus_per_task
    ∷ lit "--mem"
    ∷ p.memory
    ∷ lit "--output"
    ∷ (path ++ lit ".out")
    ∷ lit "--error"
    ∷ (path ++ lit ".err")
    ∷ (option_for (lit "--account") p.account
        ++ (option_for (lit "--partition") p.partition
            ++ (option_for (lit "--qos") p.qos
                ++ (option_for (lit "--gres") p.gres ++ (gpus_option p.gpus ++ (path ∷ []))))))

unfoldable pub build_sbatch_args : Value → Value → Result Text (List Text)
build_sbatch_args profile script = validate_slurm_profile profile >>= λ p.
    matching (lit "invalid_script_path") (λ s. starts_with s (lit "/")) script >>= λ path.
    ok (sbatch_args p path)
