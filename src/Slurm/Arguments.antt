-- ===== src/Slurm/Arguments.antt =====
-- The arguments of `sbatch` that `buildSbatchArgs` of server/workloads/slurm_profile.js builds.
use slaif_connect.Base.{
  ℕ, ◌≡◌, ◌⊎◌, inl, inr, refl, true, Option, none, some, List, [], ◌∷◌, ◌++◌, Text, lit, All,
  text_eq, includes, starts_with, decimal_digits, ok, >>=-eq-ok, ok_inj,
}
use slaif_connect.Base.Value.{Value, str}
use slaif_connect.Slurm.{
  Profile, is_safe_unit, is_resource_unit, matching, validate_slurm_profile, option_for,
  gpus_option, sbatch_args, build_sbatch_args,
}
use slaif_connect.Slurm.Profiles.{
  IsProfile, IsResource, matching-eq-ok, validate_slurm_profile-IsProfile,
}
use slaif_connect.Slurm.Safe.{
  IsSafe, is_time_limit-IsSafe, is_memory-IsSafe, decimal_digits-IsSafe, all-weaken,
  class_match-all, safe-resource,
}

abbrev pub sbatch_flags : List Text
sbatch_flags =
    lit "--job-name"
    ∷ lit "--time"
    ∷ lit "--cpus-per-task"
    ∷ lit "--mem"
    ∷ lit "--output"
    ∷ lit "--error"
    ∷ lit "--account"
    ∷ lit "--partition"
    ∷ lit "--qos"
    ∷ lit "--gres"
    ∷ lit "--gpus"
    ∷ []

-- A flag of `sbatch` with a value that a profile may have, or that is made of the script's path
abbrev pub IsOption : Text → Text × Text → Type 0
IsOption path (flag, value) =
    (includes sbatch_flags flag ≡ true)
    × (IsSafe value ⊎ (value ≡ path ++ lit ".out") ⊎ (value ≡ path ++ lit ".err"))

abbrev pub flatten : List (Text × Text) → List Text
flatten [] = []
flatten ((flag, value) ∷ options) = flag ∷ value ∷ flatten options

-- The options at the front of the arguments
abbrev Front : Text → List Text → List Text → Type 0
Front path rest args =
    (options : List (Text × Text)) × (args ≡ flatten options ++ rest) × All (IsOption path) options

resource-IsSafe : (s : Text) → IsResource s → IsSafe s
resource-IsSafe s h = class_match-all is_resource_unit 0 128 s h

append_options :
    (path flag s : Text) (rest args : List Text)
    → includes sbatch_flags flag ≡ true
    → IsSafe s
    → Front path rest args
    → Front path rest (option_for flag s ++ args)
unfolding option_for
append_options path flag [] rest args known safe front = front
append_options path flag (c ∷ s) rest args known safe (options, e, are) =
    ((flag, c ∷ s) ∷ options, rw e refl, ((known, inl safe), are))

append_gpus :
    (path : Text) (g : Option ℕ) (rest args : List Text)
    → Front path rest args
    → Front path rest (gpus_option g ++ args)
unfolding includes text_eq
append_gpus path none rest args front = front
append_gpus path (some n) rest args (options, e, are) = (
  (lit "--gpus", decimal_digits 8 n) ∷ options,
  rw e refl,
  ((refl, inl (decimal_digits-IsSafe 8 n)), are),
)

sbatch_args-Front :
    (p : Profile) (path : Text)
    → IsProfile p
    → (options : List (Text × Text)) × (sbatch_args p path ≡ flatten options ++ (path ∷ []))
      × All (IsOption path) options
unfolding includes text_eq
sbatch_args-Front p path is =
    let name =
      all-weaken is_safe_unit is_resource_unit p.job_name safe-resource
        (class_match-all is_safe_unit 1 64 p.job_name is.job_name) in
    let last : Front path (path ∷ []) (path ∷ []) = ([], refl, tt) in
    let gpus = append_gpus path p.gpus (path ∷ []) (path ∷ []) last in
    let gres =
      append_options path (lit "--gres") p.gres _ _ refl (resource-IsSafe p.gres is.gres) gpus in
    let qos =
      append_options path (lit "--qos") p.qos _ _ refl (resource-IsSafe p.qos is.qos) gres in
    let partition =
      append_options path (lit "--partition") p.partition _ _ refl
        (resource-IsSafe p.partition is.partition) qos in
    let (options, e, are) =
      append_options path (lit "--account") p.account _ _ refl
        (resource-IsSafe p.account is.account) partition in
    (
      (lit "--job-name", p.job_name)
          ∷ (lit "--time", p.time_limit)
          ∷ (lit "--cpus-per-task", decimal_digits 8 p.cpus_per_task)
          ∷ (lit "--mem", p.memory)
          ∷ (lit "--output", path ++ lit ".out")
          ∷ (lit "--error", path ++ lit ".err")
          ∷ options,
      rw e refl,
      (
        (refl, inl name),
        (
          (refl, inl (is_time_limit-IsSafe p.time_limit is.time_limit)),
          (
            (refl, inl (decimal_digits-IsSafe 8 p.cpus_per_task)),
            (
              (refl, inl (is_memory-IsSafe p.memory is.memory)),
              ((refl, inr (inl refl)), ((refl, inr (inr refl)), are)),
            ),
          ),
        ),
      ),
    )

-- The arguments that are built are pairs of a known flag and a value, and the absolute path of the
-- script behind them. A value has units of a safe class only, with no blank, quote or dollar sign,
-- unless it is the path with `.out` or `.err` behind it.
pub build_sbatch_args-IsOption :
    (profile script : Value) (args : List Text)
    → build_sbatch_args profile script ≡ ok args
    → (path : Text) × (script ≡ str path)
      × (starts_with path (lit "/") ≡ true)
      × (options : List (Text × Text)) × (args ≡ flatten options ++ (path ∷ []))
      × All (IsOption path) options
unfolding build_sbatch_args
build_sbatch_args-IsOption profile script args h =
    let (p, accepted, h0) = >>=-eq-ok (validate_slurm_profile profile) _ h in
    let (path, is_path, h1) =
      >>=-eq-ok (matching (lit "invalid_script_path") (λ s. starts_with s (lit "/")) script) _ h0 in
    let (same, absolute) = matching-eq-ok _ _ script path is_path in
    let (options, e, are) =
      sbatch_args-Front p path (validate_slurm_profile-IsProfile profile p accepted) in
    (path, same, absolute, options, rw (← ok_inj h1) e, are)
