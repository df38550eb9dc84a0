-- ===== src/Intent/Tests.antt =====
-- The theorems on server/workloads/session_intent.js at one intent.
use slaif_connect.Base.{
  ◌≡◌, refl, Option, none, some, Text, lit, includes, text_eq, is_word, class_match, prefix_match,
  lower, ok, guards, true, [], ◌∷◌,
}
use slaif_connect.Base.Value.{
  Value, ℤ, str, obj, num, bool, int, pos, end, field, get_field, has_key, property,
}
use slaif_connect.Forbidden.{walk}
use slaif_connect.Catalog.{
  assert_no_forbidden_payload_fields, validate_fast_diagnostic, validate_interactive_llm,
  validate_common_payload, validate_payload_definition, validate_entries, validate_payload_catalog,
  validate_refs, validate_host_payload_refs, safe_alias, resolve_allowed_payload,
}
use slaif_connect.Catalog
use slaif_connect.Catalog.Tests.{sample_policy, resolved}
use slaif_connect.Catalog.Resolve.{Lists}
use slaif_connect.Intent.{
  SessionIntent, validate_session_id, validate_hpc_alias, parse_timestamp, assert_plain_object,
  assert_no_forbidden_session_intent_fields, validate_session_intent, as_value, by_policy,
  resolve_intent_payload,
}
use slaif_connect.Intent.Again.{validate_session_intent_idem}
use slaif_connect.Intent.Payload.{resolve_intent_payload_sound}

-- A reader of dates that knows two of them
abbrev read_date : Text → Option ℤ
read_date (c ∷ []) = some (pos c)
read_date _ = none

abbrev accepted : SessionIntent
accepted = record {
  session_id = lit "sess_01234567";
  hpc = lit "vega";
  payload_id = lit "gams_chat_v1";
  created_at = lit "A";
  expires_at = lit "Z";
}

-- The same with the alias written otherwise, and with a field that is of no use
abbrev submitted : Value
submitted = obj (
    field (lit "type") (str (lit "slaif.sessionIntent")) (
      field (lit "version") (num (int (pos 1))) (
        field (lit "sessionId") (str (lit "sess_01234567")) (
          field (lit "hpc") (str (lit "Vega")) (
            field (lit "payloadId") (str (lit "gams_chat_v1")) (
              field (lit "createdAt") (str (lit "A")) (
                field (lit "expiresAt") (str (lit "Z")) (
                  field (lit "launcher") (obj (field (lit "mode") (str (lit "normal")) end))
                    (field (lit "note") (bool true) end)))))))))

is_accepted : validate_session_intent read_date (pos 70) submitted ≡ ok accepted
unfolding validate_session_intent assert_plain_object assert_no_forbidden_session_intent_fields walk
    get_field includes text_eq guards validate_session_id validate_hpc_alias parse_timestamp
    Catalog.validate_payload_id prefix_match class_match is_word lower
is_accepted = refl

validate_session_intent_idem_example :
    validate_session_intent read_date (pos 70) (as_value accepted) ≡ ok accepted
validate_session_intent_idem_example =
    validate_session_intent_idem read_date (pos 70) submitted accepted is_accepted

is_resolved :
    resolve_intent_payload read_date (pos 70) submitted sample_policy ≡ ok (by_policy resolved)
unfolding validate_session_intent assert_plain_object assert_no_forbidden_session_intent_fields walk
    get_field includes text_eq guards validate_session_id validate_hpc_alias parse_timestamp
    Catalog.validate_payload_id prefix_match class_match is_word lower resolve_intent_payload
    resolve_allowed_payload assert_no_forbidden_payload_fields validate_fast_diagnostic
    validate_interactive_llm validate_common_payload validate_payload_definition validate_entries
    validate_payload_catalog validate_refs validate_host_payload_refs safe_alias has_key
is_resolved = refl

resolve_intent_payload_sound_example :
    (i : SessionIntent) × (validate_session_intent read_date (pos 70) submitted ≡ ok i)
    × (resolved.payload_id ≡ i.payload_id)
    × (resolved.host ≡ property i.hpc (property (lit "hosts") sample_policy))
    × (resolved.payload ≡ property i.payload_id (property (lit "allowedPayloads") sample_policy))
    × Lists (str i.payload_id) (property (lit "allowedPayloadIds") resolved.host)
resolve_intent_payload_sound_example =
    resolve_intent_payload_sound read_date (pos 70) submitted sample_policy resolved is_resolved
