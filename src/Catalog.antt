-- ===== src/Catalog.antt =====
-- extension/js/payload_catalog.js, which server/workloads/payload_catalog.js passes on: the catalog of
-- payloads of a policy. An error is its code.
use slaif_connect.Base.{
  ℕ, Bool, true, false, not, ◌||◌, ◌&&◌, List, [], ◌∷◌, Text, lit, text_eq, includes, ltb, ◌==◌,
  is_word, is_lower, is_upper, is_digit, lower, class_match, map, Result, ok, err, ◌>>=◌, ◌>>◌,
  guards, if◌then◌else◌, ◌++◌,
}
use slaif_connect.Base.Value.{
  Value, Items, Fields, undef, null, bool, num, str, arr, obj, nil, cons, end, field, get_field,
  property, is_one_of, is_text, is_true, is_integer_in, is_falsy, is_plain_object, text_matches,
  has_key, nat_of, fields_of,
}
use slaif_connect.Forbidden.{walk}
pub mod Payloads
pub mod Resolve
pub mod Tests

abbrev pub allowed_mvp_payload_ids : List Text
allowed_mvp_payload_ids =
    lit "gpu_diagnostics_v1" ∷ lit "cpu_memory_diagnostics_v1" ∷ lit "gams_chat_v1" ∷ []

abbrev pub allowed_payload_types : List Text
allowed_payload_types = lit "fast_diagnostic" ∷ lit "interactive_llm" ∷ []

abbrev pub allowed_payload_schedulers : List Text
allowed_payload_schedulers = lit "slurm" ∷ []

abbrev pub allowed_llm_models : List Text
allowed_llm_models = lit "cjvt/GaMS3-12B-Instruct" ∷ lit "mock-gams" ∷ []

abbrev pub allowed_llm_runtimes : List Text
allowed_llm_runtimes = lit "vllm" ∷ lit "mock" ∷ []

abbrev pub forbidden_payload_fields : List Text
forbidden_payload_fields =
    lit "command"
    ∷ lit "shellCommand"
    ∷ lit "remoteCommand"
    ∷ lit "sshCommand"
    ∷ lit "script"
    ∷ lit "scriptText"
    ∷ lit "jobScript"
    ∷ lit "endpointUrl"
    ∷ lit "brokerUrl"
    ∷ lit "apiUrl"
    ∷ lit "workerUrl"
    ∷ lit "password"
    ∷ lit "passphrase"
    ∷ lit "otp"
    ∷ lit "privateKey"
    ∷ lit "sshPrivateKey"
    ∷ lit "launchToken"
    ∷ lit "relayToken"
    ∷ lit "jobReportToken"
    ∷ lit "workloadToken"
    ∷ lit "token"
    ∷ lit "Authorization"
    ∷ lit "authorization"
    ∷ []

abbrev Check : Type 0
Check = Result Text (Unit {0})

unfoldable pub assert_no_forbidden_payload_fields : Value → Check
assert_no_forbidden_payload_fields = walk forbidden_payload_fields (lit "forbidden_payload_field")

-- `[a-z0-9_]`
abbrev is_id_unit : ℕ → Bool
is_id_unit c = is_lower c || is_digit c || c == b'_'

-- `/^[a-z][a-z0-9_]{2,63}$/`
abbrev is_id : Text → Bool
is_id [] = false
is_id (c ∷ s) = is_lower c && class_match is_id_unit 2 63 s

unfoldable pub validate_payload_id : Value → Result Text Text
validate_payload_id (str s) =
    guards (
      (not (is_id s), lit "invalid_payload_id")
      ∷ (not (includes allowed_mvp_payload_ids s), lit "invalid_payload_id")
      ∷ [])
    >> ok s
validate_payload_id _ = err (lit "invalid_payload_id")

-- `/^slaif\.[A-Za-z0-9_.-]{1,96}$/`
abbrev is_safe_schema : Text → Bool
is_safe_schema (a ∷ b ∷ c ∷ d ∷ e ∷ f ∷ s) =
    text_eq (a ∷ b ∷ c ∷ d ∷ e ∷ f ∷ []) (lit "slaif.")
    && class_match (λ u. is_word u || u == b'.') 1 96 s
is_safe_schema _ = false

abbrev is_boolean : Value → Bool
is_boolean (bool b) = true
is_boolean _ = false

unfoldable pub validate_fast_diagnostic : Fields → Check
validate_fast_diagnostic fs = guards (
    (
      not (is_integer_in 1 3600 (get_field (lit "maxRuntimeSeconds") fs)),
      lit "invalid_maxRuntimeSeconds",
    )
    ∷ (
      not (is_integer_in 1 1048576 (get_field (lit "maxOutputBytes") fs)),
      lit "invalid_maxOutputBytes",
    )
    ∷ (not (is_boolean (get_field (lit "requiresGpu") fs)), lit "invalid_requires_gpu")
    ∷ (
      not (text_matches is_safe_schema (get_field (lit "resultSchema") fs)),
      lit "invalid_result_schema",
    )
    ∷ [])

unfoldable pub validate_interactive_llm : Text → Fields → Check
validate_interactive_llm id fs = guards (
    (not (is_one_of allowed_llm_models (get_field (lit "model") fs)), lit "invalid_model")
    ∷ (not (is_one_of allowed_llm_runtimes (get_field (lit "runtime") fs)), lit "invalid_runtime")
    ∷ (
      text_eq id (lit "gams_chat_v1") && not (is_true (get_field (lit "requiresGpu") fs)),
      lit "invalid_requires_gpu",
    )
    ∷ (
      not (is_true (get_field (lit "requiresOutboundWorkloadConnection") fs)),
      lit "invalid_outbound_connection",
    )
    ∷ (
      not (is_integer_in 1 86400 (get_field (lit "maxSessionSeconds") fs)),
      lit "invalid_maxSessionSeconds",
    )
    ∷ (
      not (is_integer_in 1 3600 (get_field (lit "idleTimeoutSeconds") fs)),
      lit "invalid_idleTimeoutSeconds",
    )
    ∷ (
      ltb (nat_of (get_field (lit "maxSessionSeconds") fs))
          (nat_of (get_field (lit "idleTimeoutSeconds") fs)),
      lit "invalid_idle_timeout",
    )
    ∷ (
      not (is_integer_in 1 262144 (get_field (lit "maxPromptBytes") fs)),
      lit "invalid_maxPromptBytes",
    )
    ∷ (
      not (is_integer_in 1 32768 (get_field (lit "maxOutputTokens") fs)),
      lit "invalid_maxOutputTokens",
    )
    ∷ [])

unfoldable pub validate_common_payload : Value → Result Text Fields
validate_common_payload (obj fs) =
    assert_no_forbidden_payload_fields (obj fs)
    >> guards (
        (
          not (is_one_of allowed_payload_types (get_field (lit "type") fs)),
          lit "invalid_payload_type",
        )
        ∷ (
          not (is_one_of allowed_payload_schedulers (get_field (lit "scheduler") fs)),
          lit "invalid_scheduler",
        )
        ∷ [])
    >> ok fs
validate_common_payload _ = err (lit "invalid_object")

abbrev validate_by_type : Text → Fields → Check
validate_by_type id fs =
    if is_text (lit "fast_diagnostic") (get_field (lit "type") fs)
    then validate_fast_diagnostic fs
    else if is_text (lit "interactive_llm") (get_field (lit "type") fs)
    then validate_interactive_llm id fs
    else ok tt

unfoldable pub validate_payload_definition : Text → Value → Check
validate_payload_definition id payload = validate_payload_id (str id) >>= λ safe.
    validate_common_payload payload >>= λ fs. validate_by_type id fs

unfoldable pub validate_entries : Fields → Check
validate_entries end = ok tt
validate_entries (field id payload fs) =
    validate_payload_definition id payload >> validate_entries fs

unfoldable pub validate_payload_catalog : Value → Result Text Fields
validate_payload_catalog (obj end) = err (lit "empty_payload_catalog")
validate_payload_catalog (obj (field id payload fs)) =
    validate_entries (field id payload fs) >> ok (field id payload fs)
validate_payload_catalog _ = err (lit "invalid_object")

-- The loop over `allowedPayloadIds`, with the payloads that were seen; it gives the ids.
unfoldable pub validate_refs : List Text → Fields → Items → Result Text (List Text)
validate_refs seen catalog nil = ok []
validate_refs seen catalog (cons v xs) = validate_payload_id v >>= λ id.
    guards (
      (includes seen id, lit "duplicate_payload_id")
      ∷ (not (has_key id catalog), lit "unknown_payload_reference")
      ∷ [])
    >> validate_refs (id ∷ seen) catalog xs
    >>= λ ids. ok (id ∷ ids)

abbrev refs_of : Fields → Value → Result Text (List Text)
refs_of catalog (arr (cons v xs)) = validate_refs [] catalog (cons v xs)
refs_of catalog _ = err (lit "missing_allowed_payload_ids")

unfoldable pub validate_host_payload_refs : Value → Value → Result Text (List Text)
validate_host_payload_refs (obj host) catalog = validate_payload_catalog catalog >>= λ payloads.
    refs_of payloads (get_field (lit "allowedPayloadIds") host)
validate_host_payload_refs _ catalog = err (lit "invalid_object")

-- `toLowerCase` on one code unit: of those above ASCII, only the Kelvin sign becomes a letter of an
-- alias.
abbrev pub lower_unit : ℕ → ℕ
lower_unit c = if c == 8490 then b'k' else lower c

-- `/^[a-z0-9_-]{1,64}$/`
abbrev pub is_alias : Text → Bool
is_alias s = class_match (λ c. is_id_unit c || c == b'-') 1 64 s

unfoldable pub safe_alias : Value → Result Text Text
safe_alias (str s) =
    guards ((not (is_alias (map lower_unit s)), lit "invalid_hpc") ∷ []) >> ok (map lower_unit s)
safe_alias _ = err (lit "invalid_hpc")

pub record Resolved : Type 0 where
  pub payload_id : Text
  pub payload : Value
  pub hpc : Text
  pub host : Value

abbrev is_object : Value → Bool
is_object (obj fs) = true
is_object (arr xs) = true
is_object _ = false

unfoldable pub resolve_allowed_payload : Value → Value → Value → Result Text Resolved
resolve_allowed_payload policy hpc payload_id = do
  guards ((not (is_object policy), lit "invalid_policy") ∷ [])
  id ← validate_payload_id payload_id
  alias ← safe_alias hpc
  payloads ← validate_payload_catalog (property (lit "allowedPayloads") policy)
  let host = property alias (property (lit "hosts") policy)
  guards ((is_falsy host, lit "unknown_hpc") ∷ [])
  ids ← validate_host_payload_refs host (property (lit "allowedPayloads") policy)
  guards ((not (includes ids id), lit "payload_not_allowed") ∷ [])
  ok (record { payload_id = id; payload = get_field id payloads; hpc = alias; host = host })
