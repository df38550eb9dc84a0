-- ===== src/Workload/Rejection.antt =====
-- The messages that every validator of server/workloads/workload_protocol.js rejects.
use slaif_connect.Base.{◌≡◌, refl, true, Text, lit, includes, err}
use slaif_connect.Base.Value.{Fields, obj}
use slaif_connect.Forbidden.{Occurs}
use slaif_connect.Workload.Forbidden.{
  forbidden_workload_fields, forbidden_error, assert_no_forbidden-error,
}
use slaif_connect.Workload.Fields.{Limits, Expected, assert_type_and_version, assert_object}
use slaif_connect.Workload.Messages.{
  validate_workload_hello, validate_response_delta, validate_response_done, validate_stop_message,
  validate_workload_error,
}
use slaif_connect.Workload.Prompt.{validate_prompt_message}

assert_type_and_version-error :
    (type : Text) (fs : Fields) (k : Text)
    → includes forbidden_workload_fields k ≡ true
    → Occurs k (obj fs)
    → assert_type_and_version type (obj fs) ≡ err forbidden_error
unfolding assert_type_and_version assert_object
assert_type_and_version-error type fs k f x = rw (assert_no_forbidden-error (obj fs) k f x) refl

-- All six validators reject an object in which a forbidden key stands at any depth, with the code of
-- the forbidden field and nothing else, whatever its type, the expectations and the limits are.
pub validators-forbidden :
    (e : Expected) (limits : Limits) (fs : Fields) (k : Text)
    → includes forbidden_workload_fields k ≡ true
    → Occurs k (obj fs)
    → (validate_workload_hello e (obj fs) ≡ err forbidden_error)
      × (validate_prompt_message limits (obj fs) ≡ err forbidden_error)
      × (validate_response_delta e limits (obj fs) ≡ err forbidden_error)
      × (validate_response_done e limits (obj fs) ≡ err forbidden_error)
      × (validate_stop_message e (obj fs) ≡ err forbidden_error)
      × (validate_workload_error e limits (obj fs) ≡ err forbidden_error)
unfolding validate_workload_hello validate_prompt_message validate_response_delta
    validate_response_done validate_stop_message validate_workload_error
validators-forbidden e limits fs k f x =
    let stops : (type : Text) → assert_type_and_version type (obj fs) ≡ err forbidden_error =
      λ type. assert_type_and_version-error type fs k f x in
    (
      rw (stops (lit "slaif.workload.hello")) refl,
      rw (stops (lit "slaif.prompt")) refl,
      rw (stops (lit "slaif.response.delta")) refl,
      rw (stops (lit "slaif.response.done")) refl,
      rw (stops (lit "slaif.workload.stop")) refl,
      rw (stops (lit "slaif.workload.error")) refl,
    )
