-- ===== src/Descriptor/Tests.antt =====
-- The theorem on extension/js/slaif_session_descriptor.js at one descriptor.
use slaif_connect.Base.{
  ◌≡◌, refl, true, false, Option, none, some, [], Text, lit, All, text_eq, includes, is_word,
  class_match, prefix_match, lower, guards, ok,
}
use slaif_connect.Base.Value.{
  Value, Fields, ℤ, num, str, obj, arr, int, pos, end, field, cons, nil, get_field, has_key,
  property, is_text,
}
use slaif_connect.Forbidden.{walk}
use slaif_connect.Catalog.{
  Resolved, assert_no_forbidden_payload_fields, validate_fast_diagnostic, validate_interactive_llm,
  validate_common_payload, validate_payload_definition, validate_entries, validate_payload_catalog,
  validate_refs, validate_host_payload_refs, safe_alias, resolve_allowed_payload,
}
use slaif_connect.Catalog
use slaif_connect.Catalog.Tests.{sample_catalog, sample_hosts}
use slaif_connect.Deployment.Types.{Url}
use slaif_connect.Descriptor.{
  Descriptor, forbidden_ssh_target_fields, reject_fields, validate_opaque_token,
  sanitize_username_hint, session_id_of, alias_of, items_include, validate_relay_url, assert_origin,
  policy_allows_relay_url, expiry_of, validate_session_descriptor,
}
use slaif_connect.Descriptor.Matches.{IsListed, validate_session_descriptor-IsListed}

-- A reader of URLs that takes every text for the URL of a relay
abbrev read_url : Text → Option Url
read_url s = some (record {
  href = s;
  protocol = lit "wss:";
  hostname = lit "relay";
  origin = s;
  pathname = lit "/";
  search = [];
  hash = [];
  username = [];
  password = [];
})

abbrev read_date : Text → Option ℤ
read_date s = some (pos 10)

abbrev write_date : ℤ → Text
write_date t = lit "later"

abbrev policy : Value
policy = obj (
    field (lit "type") (str (lit "slaif.hpcPolicy")) (
      field (lit "allowedPayloads") sample_catalog (
        field (lit "hosts") sample_hosts
          (field (lit "allowedRelayOrigins") (arr (cons (str (lit "wss://relay")) nil)) end))))

abbrev launch : Value
launch = obj (
    field (lit "hpc") (str (lit "vega")) (
      field (lit "payloadId") (str (lit "gams_chat_v1"))
        (field (lit "sessionId") (str (lit "sess_01234567")) end)))

abbrev host : Value
host = obj (field (lit "hostKeyAlias") (str (lit "vega")) end)

abbrev submitted : Value
submitted = obj (
    field (lit "type") (str (lit "slaif.sessionDescriptor")) (
      field (lit "version") (num (int (pos 1))) (
        field (lit "sessionId") (str (lit "sess_01234567")) (
          field (lit "hpc") (str (lit "Vega")) (
            field (lit "payloadId") (str (lit "gams_chat_v1")) (
              field (lit "relayUrl") (str (lit "wss://relay")) (
                field (lit "relayToken") (str (lit "0123456789abcdef")) (
                  field (lit "relayTokenExpiresAt") (str (lit "T")) (
                    field (lit "jobReportToken") (str (lit "0123456789abcdef"))
                      (field (lit "jobReportTokenExpiresAt") (str (lit "T")) end))))))))))

abbrev accepted : Descriptor
accepted = record {
  session_id = lit "sess_01234567";
  hpc = lit "vega";
  payload_id = lit "gams_chat_v1";
  relay_url = lit "wss://relay";
  relay_token = lit "0123456789abcdef";
  relay_token_expires_at = lit "later";
  job_report_token = lit "0123456789abcdef";
  job_report_token_expires_at = lit "later";
  username_hint = none;
  mode = str (lit "launch");
}

is_accepted :
    validate_session_descriptor read_url read_date write_date
      (pos 1)
      (pos 2)
      false
      policy
      submitted
      launch
      host
    ≡ ok accepted
unfolding validate_session_descriptor reject_fields has_key text_eq guards get_field session_id_of
    alias_of prefix_match class_match is_word lower Catalog.validate_payload_id includes
    resolve_allowed_payload assert_no_forbidden_payload_fields walk validate_fast_diagnostic
    validate_interactive_llm validate_common_payload validate_payload_definition validate_entries
    validate_payload_catalog validate_refs validate_host_payload_refs safe_alias validate_relay_url
    policy_allows_relay_url items_include assert_origin validate_opaque_token expiry_of
    sanitize_username_hint
is_accepted = refl

is_signed : is_text (lit "slaif.hpcPolicy") (property (lit "type") policy) ≡ true
unfolding text_eq get_field
is_signed = refl

validate_session_descriptor-IsListed_example :
    (property (lit "sessionId") launch ≡ str accepted.session_id)
    × (property (lit "hpc") launch ≡ str accepted.hpc)
    × (property (lit "payloadId") launch ≡ str accepted.payload_id)
    × ((fs : Fields) × (submitted ≡ obj fs)
        × All (λ name. has_key name fs ≡ false) forbidden_ssh_target_fields)
    × ((r : Resolved) × (resolve_allowed_payload policy (str accepted.hpc) (str accepted.payload_id)
          ≡ ok r))
    × (alias_of (property (lit "hostKeyAlias") host) ≡ ok accepted.hpc)
    × IsListed read_url policy accepted.relay_url
validate_session_descriptor-IsListed_example =
    validate_session_descriptor-IsListed read_url read_date write_date (pos 1) (pos 2) false policy
      submitted launch host accepted is_accepted refl is_signed
