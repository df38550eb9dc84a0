-- ===== src/Workload/Tests.antt =====
-- The theorems on server/workloads/workload_protocol.js at one message each.
use slaif_connect.Base.{
  ◌≤◌, ◌≡◌, refl, true, [], ◌∷◌, Text, lit, All, ok, err, length, includes, text_eq, class_match,
  prefix_match, is_word, ◌↔◌, none,
}
use slaif_connect.Base.Value.{
  Value, Fields, num, int, pos, str, arr, obj, field, end, cons, nil, undef, get_field,
}
use slaif_connect.Base.{false, some, lower}
use slaif_connect.Base.Table.{get, put}
use slaif_connect.Tokens.Types.{TokenRecord, Scalar, workload_scope, assert_token_value}
use slaif_connect.Tokens.Check.{
  check_record, check_metadata, check_entries, agrees, entry, scalar_eq,
}
use slaif_connect.Tokens.Registry.{Registry, use_once, validate_token, consume_token, admit, lookup}
use slaif_connect.Workload.Fields.{validate_payload_id}
use slaif_connect.Workload.Token.{
  Binding, consume_workload_token, validate_workload_token, expected_binding, workload_job_id,
  workload_session_id, workload_hpc, assert_job_binding_satisfied, same_value,
}
use slaif_connect.Workload.TokenJob.{IsForJob, consume_workload_token-IsForJob}
use slaif_connect.Workload.Bytes.{byte_length}
use slaif_connect.Forbidden.{Occurs, in_array, in_object, first_item, here, below, walk}
use slaif_connect.Workload.Forbidden.{
  forbidden_workload_fields, forbidden_error, assert_no_forbidden, assert_no_forbidden_iff,
}
use slaif_connect.Workload.Fields.{
  Expected, default_workload_limits, assert_object, assert_type_and_version, validate_session_id,
  validate_prompt_id, assert_bounded_string,
}
use slaif_connect.Workload.Messages.{
  validate_workload_hello, validate_response_delta, validate_response_done, validate_stop_message,
  validate_workload_error,
}
use slaif_connect.Workload.Prompt.{
  Prompt, validate_prompt_message, validate_messages, validate_entries, validate_entry,
  validate_role, validate_prompt_options,
}
use slaif_connect.Workload.PromptLimits.{total_bytes, HasRole, validate_prompt_message-IsWithin}
use slaif_connect.Workload.Rejection.{validators-forbidden}

abbrev no_expectation : Expected
no_expectation = record {
  session_id = none;
  hpc = none;
  payload_id = none;
  job_id = none;
  prompt_id = none;
}

-- A script inside an array of objects
abbrev hidden : Fields
hidden = field (lit "usage") (arr (cons (obj (field (lit "script") undef end)) nil)) end

script-Occurs : Occurs (lit "script") (obj hidden)
script-Occurs = in_object (below (in_array (first_item (in_object here))))

is_script_forbidden : includes forbidden_workload_fields (lit "script") ≡ true
unfolding includes text_eq
is_script_forbidden = refl

assert_no_forbidden_iff_example :
    (assert_no_forbidden (obj hidden) ≡ ok tt)
    ↔ ((k : Text) → includes forbidden_workload_fields k ≡ true → ¬ (Occurs k (obj hidden)))
assert_no_forbidden_iff_example = assert_no_forbidden_iff (obj hidden)

validators-forbidden_example :
    (validate_workload_hello no_expectation (obj hidden) ≡ err forbidden_error)
    × (validate_prompt_message default_workload_limits (obj hidden) ≡ err forbidden_error)
    × (validate_response_delta no_expectation default_workload_limits (obj hidden)
        ≡ err forbidden_error)
    × (validate_response_done no_expectation default_workload_limits (obj hidden)
        ≡ err forbidden_error)
    × (validate_stop_message no_expectation (obj hidden) ≡ err forbidden_error)
    × (validate_workload_error no_expectation default_workload_limits (obj hidden)
        ≡ err forbidden_error)
validators-forbidden_example =
    validators-forbidden no_expectation default_workload_limits hidden (lit "script")
      is_script_forbidden script-Occurs

abbrev sample_prompt : Value
sample_prompt = obj (
    field (lit "type") (str (lit "slaif.prompt")) (
      field (lit "version") (num (int (pos 1))) (
        field (lit "sessionId") (str (lit "sess_abcd1234")) (
          field (lit "promptId") (str (lit "prompt_1")) (
            field (lit "messages")
              (arr (
                cons
                  (obj (
                    field (lit "role") (str (lit "user"))
                      (field (lit "content") (str (lit "hi")) end)))
                  nil))
              end)))))

abbrev accepted_prompt : Prompt
accepted_prompt = record {
  session_id = str (lit "sess_abcd1234");
  prompt_id = str (lit "prompt_1");
  messages = record { role = lit "user"; content = lit "hi" } ∷ [];
  options = record { max_tokens = undef; temperature = undef; top_p = undef };
}

sample_prompt-accepted :
    validate_prompt_message default_workload_limits sample_prompt ≡ ok accepted_prompt
unfolding validate_prompt_message validate_messages validate_entries validate_entry validate_role
    validate_prompt_options assert_type_and_version assert_object assert_no_forbidden walk
    validate_session_id validate_prompt_id assert_bounded_string byte_length includes text_eq
    class_match prefix_match is_word get_field
sample_prompt-accepted = refl

validate_prompt_message-IsWithin_example :
    All HasRole accepted_prompt.messages
    × (total_bytes accepted_prompt.messages ≤ 16384)
    × (1 ≤ length accepted_prompt.messages)
    × (length accepted_prompt.messages ≤ 16)
validate_prompt_message-IsWithin_example =
    validate_prompt_message-IsWithin default_workload_limits sample_prompt accepted_prompt
      sample_prompt-accepted

abbrev sample_binding : Binding
sample_binding = record {
  session_id = str (lit "sess_abcd1234");
  hpc = str (lit "Vega");
  payload_id = str (lit "gams_chat_v1");
  job_id = str (lit "77");
}

abbrev workload_record : TokenRecord
workload_record = record {
  scope = workload_scope;
  session_id = some (lit "sess_abcd1234");
  hpc = some (lit "vega");
  origin = none;
  created_at = 1000;
  expires_at = 61000;
  max_uses = 1;
  used = 0;
  revoked = false;
  metadata =
      (lit "payloadId", Scalar.text (lit "gams_chat_v1"))
      ∷ (lit "jobId", Scalar.text (lit "77"))
      ∷ [];
  fingerprint = lit "sha256:slaif_tok_sample";
}

abbrev workload_registry : Registry
workload_registry = record {
  records = (lit "slaif_tok_sample", workload_record) ∷ [];
  notices = [];
}

abbrev plain : Text → Text
plain s = s

sample_consumed :
    (consume_workload_token plain 2000 2001 workload_registry
      (some (lit "slaif_tok_sample"))
      sample_binding).0
    ≡ ok (use_once workload_record)
unfolding consume_workload_token validate_workload_token expected_binding validate_payload_id
    workload_job_id workload_session_id workload_hpc includes text_eq class_match prefix_match
    is_word lower put get validate_token consume_token admit lookup assert_token_value check_record
    check_metadata check_entries agrees entry scalar_eq assert_job_binding_satisfied same_value
sample_consumed = refl

consume_workload_token-IsForJob_example :
    (p : TokenRecord) × ((validate_workload_token plain 2000 workload_registry
        (some (lit "slaif_tok_sample"))
        sample_binding).0
      ≡ ok p)
    × IsForJob p (str (lit "77"))
consume_workload_token-IsForJob_example =
    consume_workload_token-IsForJob plain 2000 2001 workload_registry
      (some (lit "slaif_tok_sample")) sample_binding (use_once workload_record) sample_consumed
