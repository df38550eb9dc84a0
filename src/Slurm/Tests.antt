-- ===== src/Slurm/Tests.antt =====
-- The theorems on server/workloads/slurm_profile.js at one catalog.
use slaif_connect.Base.{
  ◌≡◌, ◌⊎◌, refl, true, some, List, [], ◌∷◌, ◌++◌, Text, lit, All, text_eq, includes, starts_with,
  is_word, class_match, split, upper, ok, guards,
}
use slaif_connect.Base.Value.{Value, num, str, obj, int, pos, end, field, get_field}
use slaif_connect.Forbidden.{walk}
use slaif_connect.Catalog
use slaif_connect.Slurm.{
  Profile, is_time_limit, is_memory, is_amount, is_resource_unit, matching,
  assert_no_forbidden_slurm_profile_fields, assert_safe_optional_string, assert_positive_integer,
  validate_gpus, validate_template, validate_slurm_profile, validate_profiles,
  validate_slurm_profile_catalog, profile_at, profile_for, resolve_slurm_profile, sbatch_args,
  build_sbatch_args,
}
use slaif_connect.Slurm.Profiles.{as_value, validate_slurm_profile_idem}
use slaif_connect.Slurm.Arguments.{flatten, IsOption, build_sbatch_args-IsOption}
use slaif_connect.Slurm.Resolve.{resolve_slurm_profile-build_sbatch_args}

abbrev gpu_profile : Value
gpu_profile = obj (
    field (lit "profileId") (str (lit "cpu_memory_diagnostics_v1")) (
      field (lit "payloadId") (str (lit "gpu_diagnostics_v1")) (
        field (lit "scheduler") (str (lit "slurm")) (
          field (lit "jobName") (str (lit "slaif-gpu")) (
            field (lit "timeLimit") (str (lit "1-00:05:00")) (
              field (lit "cpusPerTask") (num (int (pos 2))) (
                field (lit "memory") (str (lit "4g")) (
                  field (lit "partition") (str (lit "gpu")) (
                    field (lit "gpus") (num (int (pos 1))) (
                      field (lit "maxOutputBytes") (num (int (pos 65536)))
                        (field (lit "template") (str (lit "gpu_diagnostics_v1")) end)))))))))))

abbrev normalized : Profile
normalized = record {
  profile_id = lit "cpu_memory_diagnostics_v1";
  payload_id = lit "gpu_diagnostics_v1";
  job_name = lit "slaif-gpu";
  time_limit = lit "1-00:05:00";
  cpus_per_task = 2;
  memory = lit "4G";
  partition = lit "gpu";
  account = [];
  qos = [];
  gres = [];
  gpus = some 1;
  max_output_bytes = 65536;
  template = lit "gpu_diagnostics_v1";
}

-- A catalog that has the profile under its own id, which is the id of another payload
abbrev catalog : Value
catalog = obj (
    field (lit "type") (str (lit "slaif.slurmProfileCatalog")) (
      field (lit "version") (num (int (pos 1))) (
        field (lit "profiles") (obj (field (lit "cpu_memory_diagnostics_v1") gpu_profile end))
          end)))

is_normalized : validate_slurm_profile gpu_profile ≡ ok normalized
unfolding validate_slurm_profile assert_no_forbidden_slurm_profile_fields walk includes text_eq
    get_field matching guards class_match is_word Catalog.validate_payload_id is_time_limit split
    is_memory is_amount assert_positive_integer validate_gpus validate_template
    assert_safe_optional_string is_resource_unit upper
is_normalized = refl

validate_slurm_profile_idem_example : validate_slurm_profile (as_value normalized) ≡ ok normalized
validate_slurm_profile_idem_example =
    validate_slurm_profile_idem gpu_profile normalized is_normalized

is_built :
    build_sbatch_args gpu_profile (str (lit "/tmp/job.sh"))
    ≡ ok (sbatch_args normalized (lit "/tmp/job.sh"))
unfolding build_sbatch_args matching guards starts_with
is_built = rw is_normalized refl

build_sbatch_args-IsOption_example :
    (path : Text) × (str (lit "/tmp/job.sh") ≡ str path)
    × (starts_with path (lit "/") ≡ true)
    × (options : List (Text × Text)) × (sbatch_args normalized (lit "/tmp/job.sh")
        ≡ flatten options ++ (path ∷ []))
    × All (IsOption path) options
build_sbatch_args-IsOption_example =
    build_sbatch_args-IsOption gpu_profile (str (lit "/tmp/job.sh"))
      (sbatch_args normalized (lit "/tmp/job.sh")) is_built

-- The profile of the GPU payload is resolved for the payload whose id it has itself.
resolves_another :
    resolve_slurm_profile catalog (str (lit "cpu_memory_diagnostics_v1")) ≡ ok normalized
unfolding resolve_slurm_profile validate_slurm_profile_catalog validate_profiles profile_at
    profile_for validate_slurm_profile assert_no_forbidden_slurm_profile_fields walk includes
    text_eq get_field matching guards class_match is_word Catalog.validate_payload_id is_time_limit
    split is_memory is_amount assert_positive_integer validate_gpus validate_template
    assert_safe_optional_string is_resource_unit upper
resolves_another = refl

is_absolute : starts_with (lit "/tmp/job.sh") (lit "/") ≡ true
unfolding starts_with
is_absolute = refl

resolve_slurm_profile-build_sbatch_args_example :
    ((str (lit "cpu_memory_diagnostics_v1") ≡ str normalized.payload_id)
      ⊎ (str (lit "cpu_memory_diagnostics_v1") ≡ str normalized.profile_id))
    × (build_sbatch_args (as_value normalized) (str (lit "/tmp/job.sh"))
        ≡ ok (sbatch_args normalized (lit "/tmp/job.sh")))
resolve_slurm_profile-build_sbatch_args_example =
    resolve_slurm_profile-build_sbatch_args catalog (str (lit "cpu_memory_diagnostics_v1"))
      normalized (lit "/tmp/job.sh") resolves_another is_absolute
