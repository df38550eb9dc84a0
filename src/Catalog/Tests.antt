-- ===== src/Catalog/Tests.antt =====
-- The theorems on extension/js/payload_catalog.js at the catalog that it builds by default.
use slaif_connect.Base.{
  ℕ, ◌≡◌, refl, true, lit, includes, text_eq, is_word, class_match, lower, ok, guards,
}
use slaif_connect.Base.Value.{
  Value, bool, num, str, arr, obj, int, pos, nil, cons, end, field, get_field, has_key, property,
}
use slaif_connect.Forbidden.{walk}
use slaif_connect.Catalog.{
  Resolved, assert_no_forbidden_payload_fields, validate_payload_id, validate_fast_diagnostic,
  validate_interactive_llm, validate_common_payload, validate_payload_definition, validate_entries,
  validate_payload_catalog, validate_refs, validate_host_payload_refs, safe_alias,
  resolve_allowed_payload,
}
use slaif_connect.Catalog.Payloads.{IsPayload}
use slaif_connect.Catalog.Resolve.{Lists, resolve_allowed_payload_sound}

abbrev pub nat : ℕ → Value
nat n = num (int (pos n))

abbrev diagnostic : Value
diagnostic = obj (
    field (lit "type") (str (lit "fast_diagnostic")) (
      field (lit "scheduler") (str (lit "slurm")) (
        field (lit "requiresGpu") (bool true) (
          field (lit "maxRuntimeSeconds") (nat 300) (
            field (lit "maxOutputBytes") (nat 65536)
              (field (lit "resultSchema") (str (lit "slaif.gpuDiagnosticsResult.v1")) end))))))

abbrev chat : Value
chat = obj (
    field (lit "type") (str (lit "interactive_llm")) (
      field (lit "scheduler") (str (lit "slurm")) (
        field (lit "model") (str (lit "cjvt/GaMS3-12B-Instruct")) (
          field (lit "runtime") (str (lit "vllm")) (
            field (lit "requiresGpu") (bool true) (
              field (lit "requiresOutboundWorkloadConnection") (bool true) (
                field (lit "maxSessionSeconds") (nat 3600) (
                  field (lit "idleTimeoutSeconds") (nat 300) (
                    field (lit "maxPromptBytes") (nat 16000)
                      (field (lit "maxOutputTokens") (nat 1024) end))))))))))

-- Two of the three entries of `buildDefaultPayloadCatalog`
abbrev pub sample_catalog : Value
sample_catalog =
    obj (field (lit "gpu_diagnostics_v1") diagnostic (field (lit "gams_chat_v1") chat end))

abbrev host : Value
host = obj (field (lit "allowedPayloadIds") (arr (cons (str (lit "gams_chat_v1")) nil)) end)

abbrev pub sample_hosts : Value
sample_hosts = obj (field (lit "vega") host end)

abbrev pub sample_policy : Value
sample_policy =
    obj (field (lit "allowedPayloads") sample_catalog (field (lit "hosts") sample_hosts end))

abbrev pub resolved : Resolved
resolved = record { payload_id = lit "gams_chat_v1"; payload = chat; hpc = lit "vega"; host = host }

is_resolved :
    resolve_allowed_payload sample_policy (str (lit "Vega")) (str (lit "gams_chat_v1"))
    ≡ ok resolved
unfolding resolve_allowed_payload assert_no_forbidden_payload_fields walk validate_payload_id
    validate_fast_diagnostic validate_interactive_llm validate_common_payload
    validate_payload_definition validate_entries validate_payload_catalog validate_refs
    validate_host_payload_refs safe_alias includes text_eq class_match is_word lower get_field
    has_key guards
is_resolved = refl

resolve_allowed_payload_sound_example :
    (str (lit "gams_chat_v1") ≡ str resolved.payload_id)
    × (resolved.host ≡ property (lit "vega") (property (lit "hosts") sample_policy))
    × (resolved.payload
        ≡ property (lit "gams_chat_v1") (property (lit "allowedPayloads") sample_policy))
    × Lists (str (lit "gams_chat_v1")) (property (lit "allowedPayloadIds") host)
    × IsPayload (lit "gams_chat_v1") chat
resolve_allowed_payload_sound_example =
    resolve_allowed_payload_sound sample_policy (str (lit "Vega")) (str (lit "gams_chat_v1"))
      resolved is_resolved
