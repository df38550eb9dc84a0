-- ===== src/Workload/Messages.antt =====
-- `validateWorkloadHello`, `validateResponseDelta`, `validateResponseDone`, `validateStopMessage` and
-- `validateWorkloadError` of server/workloads/workload_protocol.js. A field of a result is the field of
-- the message, which may be undefined.
use slaif_connect.Base.{
  Bool, false, ◌||◌, ◌&&◌, not, [], ◌∷◌, Text, lit, is_digit, is_lower, class_match, to_lower,
  Result, ok, err, ◌>>=◌, ◌>>◌, reject, ◌==◌,
}
use slaif_connect.Base.Value.{Value, Fields, undef, str, obj, end, field, get_field}
use slaif_connect.Workload.Bytes.{is_stack_trace}
use slaif_connect.Workload.Fields.{
  Limits, Expected, Check, is_text, is_one_of, is_undefined, text_matches, is_integer_in,
  assert_type_and_version, validate_session_id, validate_hpc_alias, validate_payload_id,
  validate_job_id, validate_prompt_id, validate_expected, assert_bounded_string,
  allowed_workload_runtimes, allowed_model_identifiers, allowed_finish_reasons,
  allowed_stop_reasons,
}

-- A message that was accepted: its type and the fields that its validator copies.
pub record Accepted : Type 0 where
  pub type : Text
  pub session_id : Value
  pub fields : Fields

abbrev lower_value : Value → Value
lower_value (str s) = str (to_lower s)
lower_value v = v

-- One field of the result behind the others
abbrev copy : Text → Value → Fields → Fields
copy key v rest = field key v rest

unfoldable pub validate_workload_hello : Expected → Value → Result Text Accepted
validate_workload_hello expected message =
    assert_type_and_version (lit "slaif.workload.hello") message >>= λ fs.
    validate_session_id (get_field (lit "sessionId") fs)
    >> validate_hpc_alias (get_field (lit "hpc") fs)
    >> validate_payload_id (get_field (lit "payloadId") fs)
    >> validate_job_id false (get_field (lit "jobId") fs)
    >> reject (not (is_one_of allowed_workload_runtimes (get_field (lit "runtime") fs)))
        (lit "invalid_runtime")
    >> reject
        (not (is_undefined (get_field (lit "model") fs))
          && not (is_one_of allowed_model_identifiers (get_field (lit "model") fs)))
        (lit "invalid_model")
    >> reject
        (is_text (lit "gams_chat_v1") (get_field (lit "payloadId") fs)
          && is_undefined (get_field (lit "model") fs))
        (lit "missing_model")
    >> validate_expected expected fs
    >> ok (record {
      type = lit "slaif.workload.hello";
      session_id = get_field (lit "sessionId") fs;
      fields = copy (lit "hpc") (lower_value (get_field (lit "hpc") fs)) (
          copy (lit "payloadId") (get_field (lit "payloadId") fs) (
            copy (lit "jobId") (get_field (lit "jobId") fs) (
              copy (lit "runtime") (get_field (lit "runtime") fs)
                (copy (lit "model") (get_field (lit "model") fs) end))));
    })

unfoldable pub validate_response_delta : Expected → Limits → Value → Result Text Accepted
validate_response_delta expected limits message =
    assert_type_and_version (lit "slaif.response.delta") message >>= λ fs.
    validate_session_id (get_field (lit "sessionId") fs)
    >> validate_prompt_id (get_field (lit "promptId") fs)
    >> assert_bounded_string (lit "text") limits.max_response_delta_bytes
        (get_field (lit "text") fs)
    >>= λ text.
        validate_expected expected fs
        >> ok (record {
          type = lit "slaif.response.delta";
          session_id = get_field (lit "sessionId") fs;
          fields =
              copy (lit "promptId") (get_field (lit "promptId") fs)
                (copy (lit "text") (str text) end);
        })

-- `usage[key]` is undefined, or an integer from 0 to the limit.
abbrev pub check_usage_key : Limits → Fields → Text → Check
check_usage_key limits usage key =
    reject
      (not (is_undefined (get_field key usage))
        && not (is_integer_in 0 limits.max_usage_tokens (get_field key usage)))
      (lit "invalid_usage")

unfoldable pub check_usage : Limits → Value → Check
check_usage limits undef = ok tt
check_usage limits (obj usage) =
    check_usage_key limits usage (lit "inputTokens")
    >> check_usage_key limits usage (lit "outputTokens")
check_usage limits _ = err (lit "invalid_usage")

unfoldable pub validate_response_done : Expected → Limits → Value → Result Text Accepted
validate_response_done expected limits message =
    assert_type_and_version (lit "slaif.response.done") message >>= λ fs.
    validate_session_id (get_field (lit "sessionId") fs)
    >> validate_prompt_id (get_field (lit "promptId") fs)
    >> reject (not (is_one_of allowed_finish_reasons (get_field (lit "finishReason") fs)))
        (lit "invalid_finish_reason")
    >> check_usage limits (get_field (lit "usage") fs)
    >> validate_expected expected fs
    >> ok (record {
      type = lit "slaif.response.done";
      session_id = get_field (lit "sessionId") fs;
      fields = copy (lit "promptId") (get_field (lit "promptId") fs) (
          copy (lit "finishReason") (get_field (lit "finishReason") fs)
            (copy (lit "usage") (get_field (lit "usage") fs) end));
    })

unfoldable pub validate_stop_message : Expected → Value → Result Text Accepted
validate_stop_message expected message =
    assert_type_and_version (lit "slaif.workload.stop") message >>= λ fs.
    validate_session_id (get_field (lit "sessionId") fs)
    >> reject (not (is_one_of allowed_stop_reasons (get_field (lit "reason") fs)))
        (lit "invalid_stop_reason")
    >> validate_expected expected fs
    >> ok (record {
      type = lit "slaif.workload.stop";
      session_id = get_field (lit "sessionId") fs;
      fields = copy (lit "reason") (get_field (lit "reason") fs) end;
    })

-- `/^[a-z][a-z0-9_]{1,64}$/`
abbrev is_code : Text → Bool
is_code [] = false
is_code (c ∷ s) = is_lower c && class_match (λ d. is_lower d || is_digit d || d == b'_') 1 64 s

unfoldable pub validate_workload_error : Expected → Limits → Value → Result Text Accepted
validate_workload_error expected limits message =
    assert_type_and_version (lit "slaif.workload.error") message >>= λ fs.
    validate_session_id (get_field (lit "sessionId") fs)
    >> reject (not (text_matches is_code (get_field (lit "code") fs))) (lit "invalid_error_code")
    >> assert_bounded_string (lit "error_message") limits.max_error_message_bytes
        (get_field (lit "message") fs)
    >>= λ text.
        reject (is_stack_trace text) (lit "unsafe_error_message")
        >> validate_expected expected fs
        >> ok (record {
          type = lit "slaif.workload.error";
          session_id = get_field (lit "sessionId") fs;
          fields =
              copy (lit "code") (get_field (lit "code") fs) (copy (lit "message") (str text) end);
        })
