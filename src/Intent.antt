-- ===== src/Intent.antt =====
-- server/workloads/session_intent.js. `parse_date` is `Date.parse`, which is `none` where it gives no
-- number; an instant is in milliseconds from 1970 on. An error is its code.
use slaif_connect.Base.{
  ℕ, Bool, true, false, not, Option, none, some, List, [], ◌∷◌, Text, lit, is_word, class_match,
  prefix_match, to_lower, Result, ok, err, ◌>>=◌, ◌>>◌, guards, ◌++◌,
}
use slaif_connect.Base.Value.{
  Value, Fields, ℤ, leb_ℤ, undef, null, num, str, obj, int, pos, end, field, get_field, property,
  is_text, is_one, is_plain_object, is_falsy,
}
use slaif_connect.Forbidden.{walk}
use slaif_connect.Catalog
use slaif_connect.Catalog.{Resolved, resolve_allowed_payload}
pub mod Again
pub mod Payload
pub mod Tests

abbrev pub forbidden_session_intent_fields : List Text
forbidden_session_intent_fields =
    lit "command"
    ∷ lit "shellCommand"
    ∷ lit "remoteCommand"
    ∷ lit "sshCommand"
    ∷ lit "script"
    ∷ lit "scriptText"
    ∷ lit "jobScript"
    ∷ lit "yoloCommand"
    ∷ lit "password"
    ∷ lit "passphrase"
    ∷ lit "otp"
    ∷ lit "privateKey"
    ∷ lit "sshPrivateKey"
    ∷ lit "launchToken"
    ∷ lit "relayToken"
    ∷ lit "jobReportToken"
    ∷ lit "workloadToken"
    ∷ lit "token"
    ∷ lit "knownHosts"
    ∷ lit "known_hosts"
    ∷ lit "hostKey"
    ∷ lit "hostKeyAlias"
    ∷ lit "sshHost"
    ∷ lit "sshPort"
    ∷ lit "host"
    ∷ lit "port"
    ∷ lit "Authorization"
    ∷ lit "authorization"
    ∷ []

unfoldable pub assert_no_forbidden_session_intent_fields : Value → Result Text (Unit {0})
assert_no_forbidden_session_intent_fields =
    walk forbidden_session_intent_fields (lit "forbidden_session_intent_field")

-- What `validateSessionIntent` returns, besides the type, the version and the mode of the launcher,
-- which are fixed
pub record SessionIntent : Type 0 where
  pub session_id : Text
  pub hpc : Text
  pub payload_id : Text
  pub created_at : Text
  pub expires_at : Text

unfoldable pub validate_session_id : Value → Result Text Text
validate_session_id (str s) =
    guards ((not (prefix_match (lit "sess_") is_word 8 128 s), lit "invalid_session_id") ∷ [])
    >> ok s
validate_session_id _ = err (lit "invalid_session_id")

unfoldable pub validate_hpc_alias : Value → Result Text Text
validate_hpc_alias (str s) =
    guards ((not (class_match is_word 1 64 s), lit "invalid_hpc") ∷ []) >> ok (to_lower s)
validate_hpc_alias _ = err (lit "invalid_hpc")

-- A date as it was written, and when it is
pub record Stamp : Type 0 where
  pub written : Text
  pub at : ℤ

unfoldable pub assert_plain_object : Value → Result Text Fields
assert_plain_object (obj fs) = ok fs
assert_plain_object _ = err (lit "invalid_object")

-- The payload of an intent by a policy, which has hosts, or by a bare catalog
pub data Chosen : Type 0 where
  by_policy : Resolved → Chosen
  by_catalog : Text → Value → Text → Chosen

abbrev choose : Value → SessionIntent → Bool → Result Text Chosen
choose source i false =
    resolve_allowed_payload source (str i.hpc) (str i.payload_id) >>= λ r. ok (by_policy r)
choose source i true = Catalog.validate_payload_id (str i.payload_id) >>= λ id.
    ok (by_catalog id (property i.payload_id source) i.hpc)

abbrev pub stamp : Text → Text → Option ℤ → Result Text Stamp
stamp name s none = err (lit "invalid_" ++ name)
stamp name s (some t) = ok (record { written = s; at = t })

module _ (parse_date : Text → Option ℤ) where
  unfoldable pub parse_timestamp : Text → Value → Result Text Stamp
  parse_timestamp name (str s) = stamp name s (parse_date s)
  parse_timestamp name _ = err (lit "invalid_" ++ name)

  unfoldable pub validate_session_intent : ℤ → Value → Result Text SessionIntent
  validate_session_intent now intent = do
    fs ← assert_plain_object intent
    assert_no_forbidden_session_intent_fields (obj fs)
    guards (
        (not (is_text (lit "slaif.sessionIntent") (get_field (lit "type") fs)), lit "invalid_type")
        ∷ (not (is_one (get_field (lit "version") fs)), lit "invalid_version")
        ∷ [])
    session_id ← validate_session_id (get_field (lit "sessionId") fs)
    hpc ← validate_hpc_alias (get_field (lit "hpc") fs)
    payload_id ← Catalog.validate_payload_id (get_field (lit "payloadId") fs)
    created ← parse_timestamp (lit "createdAt") (get_field (lit "createdAt") fs)
    expires ← parse_timestamp (lit "expiresAt") (get_field (lit "expiresAt") fs)
    guards (
        (leb_ℤ expires.at created.at, lit "invalid_expiry")
        ∷ (leb_ℤ expires.at now, lit "expired_intent")
        ∷ (not (is_plain_object (get_field (lit "launcher") fs)), lit "invalid_object")
        ∷ (
          not (is_text (lit "normal") (property (lit "mode") (get_field (lit "launcher") fs))),
          lit "invalid_launcher_mode",
        )
        ∷ [])
    ok (record {
      session_id = session_id;
      hpc = hpc;
      payload_id = payload_id;
      created_at = created.written;
      expires_at = expires.written;
    })

  unfoldable pub resolve_intent_payload : ℤ → Value → Value → Result Text Chosen
  resolve_intent_payload now intent source = validate_session_intent now intent >>= λ i.
      choose source i (is_falsy (property (lit "hosts") source))

-- The object that `validateSessionIntent` returns
abbrev pub as_value : SessionIntent → Value
as_value i = obj (
    field (lit "type") (str (lit "slaif.sessionIntent")) (
      field (lit "version") (num (int (pos 1))) (
        field (lit "sessionId") (str i.session_id) (
          field (lit "hpc") (str i.hpc) (
            field (lit "payloadId") (str i.payload_id) (
              field (lit "createdAt") (str i.created_at) (
                field (lit "expiresAt") (str i.expires_at) (
                  field (lit "launcher") (obj (field (lit "mode") (str (lit "normal")) end))
                    end))))))))
