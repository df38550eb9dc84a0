-- ===== src/Workload/Fields.antt =====
-- The checks of single fields in server/workloads/workload_protocol.js. An error is its code.
use slaif_connect.Base.{
  ℕ, Bool, true, false, not, Option, none, some, List, [], ◌∷◌, ◌++◌, Text, lit, leb, ltb, is_word,
  is_digit, class_match, prefix_match, Result, ok, err, ◌>>=◌, ◌>>◌, reject, if◌then◌else◌,
}
use slaif_connect.Base.Value.{Value, Fields, undef, null, num, str, obj, get_field, int, frac, pos}
pub use slaif_connect.Base.Value.{is_text, is_one_of, is_undefined, text_matches, is_integer_in}
use slaif_connect.Base.Value.{is_one}
use slaif_connect.Workload.Bytes.{byte_length}
use slaif_connect.Workload.Forbidden.{assert_no_forbidden}

abbrev pub allowed_payload_ids : List Text
allowed_payload_ids =
    lit "gpu_diagnostics_v1" ∷ lit "cpu_memory_diagnostics_v1" ∷ lit "gams_chat_v1" ∷ []

abbrev pub allowed_workload_runtimes : List Text
allowed_workload_runtimes = lit "vllm" ∷ lit "diagnostic" ∷ lit "mock" ∷ []

abbrev pub allowed_model_identifiers : List Text
allowed_model_identifiers = lit "cjvt/GaMS3-12B-Instruct" ∷ lit "mock-gams" ∷ []

abbrev pub allowed_prompt_roles : List Text
allowed_prompt_roles = lit "system" ∷ lit "user" ∷ lit "assistant" ∷ []

abbrev pub allowed_finish_reasons : List Text
allowed_finish_reasons =
    lit "stop" ∷ lit "length" ∷ lit "cancelled" ∷ lit "error" ∷ lit "content_filter" ∷ []

abbrev pub allowed_stop_reasons : List Text
allowed_stop_reasons =
    lit "user_cancelled"
    ∷ lit "idle_timeout"
    ∷ lit "max_runtime"
    ∷ lit "server_shutdown"
    ∷ lit "policy_violation"
    ∷ lit "worker_error"
    ∷ []

-- The limits after the defaults are filled in.
pub record Limits : Type 0 where
  pub max_messages : ℕ
  pub max_prompt_bytes : ℕ
  pub max_response_delta_bytes : ℕ
  pub max_error_message_bytes : ℕ
  pub max_tokens : ℕ
  pub max_usage_tokens : ℕ

abbrev pub default_workload_limits : Limits
default_workload_limits = record {
  max_messages = 16;
  max_prompt_bytes = 16384;
  max_response_delta_bytes = 4096;
  max_error_message_bytes = 1024;
  max_tokens = 4096;
  max_usage_tokens = 1000000000;
}

abbrev pub Check : Type 0
Check = Result Text (Unit {0})

unfoldable pub assert_object : Value → Result Text Fields
assert_object (obj fs) = ok fs
assert_object _ = err (lit "invalid_message")

unfoldable pub assert_type_and_version : Text → Value → Result Text Fields
assert_type_and_version type v = assert_object v >>= λ fs.
    assert_no_forbidden (obj fs)
    >> reject (not (is_text type (get_field (lit "type") fs))) (lit "wrong_type")
    >> reject (not (is_one (get_field (lit "version") fs))) (lit "wrong_version")
    >> ok fs

unfoldable pub validate_session_id : Value → Check
validate_session_id v =
    reject (not (text_matches (prefix_match (lit "sess_") is_word 8 128) v))
      (lit "invalid_session_id")

unfoldable pub validate_hpc_alias : Value → Check
validate_hpc_alias v = reject (not (text_matches (class_match is_word 1 64) v)) (lit "invalid_hpc")

unfoldable pub validate_payload_id : Value → Check
validate_payload_id v = reject (not (is_one_of allowed_payload_ids v)) (lit "invalid_payload_id")

-- `jobId === undefined || jobId === null || jobId === ''`
abbrev is_absent : Value → Bool
is_absent undef = true
is_absent null = true
is_absent (str []) = true
is_absent _ = false

unfoldable pub validate_job_id : Bool → Value → Check
validate_job_id required v =
    if is_absent v
    then reject required (lit "missing_job_id")
    else reject (not (text_matches (class_match is_digit 1 32) v)) (lit "invalid_job_id")

unfoldable pub validate_prompt_id : Value → Check
validate_prompt_id v =
    reject (not (text_matches (prefix_match (lit "prompt_") is_word 1 128) v))
      (lit "invalid_prompt_id")

-- What the caller expects of the fields; `none` is `undefined`.
pub record Expected : Type 0 where
  pub session_id : Option Text
  pub hpc : Option Text
  pub payload_id : Option Text
  pub job_id : Option Text
  pub prompt_id : Option Text

abbrev pub expect_one : Text → Option Text → Fields → Check
expect_one key none fs = ok tt
expect_one key (some t) fs = reject (not (is_text t (get_field key fs))) (lit "wrong_" ++ key)

unfoldable pub validate_expected : Expected → Fields → Check
validate_expected e fs =
    expect_one (lit "sessionId") e.session_id fs
    >> expect_one (lit "hpc") e.hpc fs
    >> expect_one (lit "payloadId") e.payload_id fs
    >> expect_one (lit "jobId") e.job_id fs
    >> expect_one (lit "promptId") e.prompt_id fs

unfoldable pub assert_bounded_string : Text → ℕ → Value → Result Text Text
assert_bounded_string name max_bytes (str s) =
    reject (ltb max_bytes (byte_length s)) (name ++ lit "_too_large") >> ok s
assert_bounded_string name max_bytes _ = err (lit "invalid_" ++ name)

-- `typeof v === 'number' && Number.isFinite(v) && v >= 0 && v <= hi`
abbrev pub is_number_up_to : ℕ → Value → Bool
is_number_up_to hi (num (int (pos n))) = leb n hi
is_number_up_to hi (num (frac (pos n) d)) = ltb n hi
is_number_up_to hi _ = false
