-- ===== src/Descriptor.antt =====
-- extension/js/slaif_session_descriptor.js, with `policyAllowsRelayUrl` and `assertOrigin` of
-- slaif_policy.js. `parse_url` is `new URL` and `parse_date` is `Date.parse`, which are `none` where
-- there is no URL and no date; `to_iso` is `toISOString` of an instant. An error is its message, or its
-- code where it has one.
use slaif_connect.Base.{
  ℕ, Bool, true, false, not, ◌||◌, ◌&&◌, Option, none, some, List, [], ◌∷◌, ◌++◌, Text, lit,
  text_eq, includes, contains, leb, ◌==◌, is_word, is_blank, length, any, class_match, prefix_match,
  to_lower, Result, ok, err, ◌>>=◌, ◌>>◌, guards, if◌then◌else◌,
}
use slaif_connect.Base.Value.{
  Value, Items, Fields, ℤ, leb_ℤ, undef, null, bool, num, str, arr, obj, nil, cons, get_field,
  property, has_key, is_text, is_one, is_true, is_falsy, is_undefined, text_of,
}
use slaif_connect.Catalog
use slaif_connect.Catalog.{Resolved, resolve_allowed_payload}
use slaif_connect.Deployment.Types.{Url}
use slaif_connect.Deployment.Urls.{or_throw}
pub mod Matches
pub mod Tests

abbrev pub forbidden_ssh_target_fields : List Text
forbidden_ssh_target_fields =
    lit "sshHost"
    ∷ lit "sshPort"
    ∷ lit "host"
    ∷ lit "port"
    ∷ lit "knownHosts"
    ∷ lit "known_hosts"
    ∷ lit "hostKey"
    ∷ lit "hostKeyAlias"
    ∷ lit "command"
    ∷ lit "shellCommand"
    ∷ lit "remoteCommand"
    ∷ lit "sshCommand"
    ∷ lit "script"
    ∷ lit "scriptText"
    ∷ lit "jobScript"
    ∷ lit "sshOptions"
    ∷ lit "relayHost"
    ∷ lit "relayPort"
    ∷ lit "jobCommand"
    ∷ lit "schedulerCommand"
    ∷ lit "stdoutUploadUrl"
    ∷ lit "transcriptUploadUrl"
    ∷ lit "reportUrl"
    ∷ lit "jobReportUrl"
    ∷ lit "password"
    ∷ lit "otp"
    ∷ lit "privateKey"
    ∷ lit "workloadToken"
    ∷ []

unfoldable pub reject_fields : List Text → Fields → Text → Result Text (Unit {0})
reject_fields [] fs context = ok tt
reject_fields (name ∷ names) fs context =
    guards ((has_key name fs, context ++ (lit " must not include " ++ name)) ∷ [])
    >> reject_fields names fs context

abbrev pub reject_forbidden_fields : Fields → Text → Result Text (Unit {0})
reject_forbidden_fields = reject_fields forbidden_ssh_target_fields

abbrev pub assert_object : Text → Value → Result Text Fields
assert_object name (obj fs) = ok fs
assert_object name _ = err (name ++ lit " must be an object")

-- `[\s"'<>`\\\0]`
abbrev is_unsafe : ℕ → Bool
is_unsafe c = is_blank c || c == 34 || c == 39 || c == 60 || c == 62 || c == 96 || c == 92 || c == 0

unfoldable pub validate_opaque_token : Text → Value → Result Text Text
validate_opaque_token name (str s) =
    guards (
      (not (leb 16 (length s) && leb (length s) 2048), name ++ lit " must be an opaque token")
      ∷ (any is_unsafe s, name ++ lit " contains invalid characters")
      ∷ [])
    >> ok s
validate_opaque_token name _ = err (name ++ lit " must be an opaque token")

unfoldable pub sanitize_username_hint : Value → Result Text (Option Text)
sanitize_username_hint undef = ok none
sanitize_username_hint null = ok none
sanitize_username_hint (str []) = ok none
sanitize_username_hint (str (c ∷ s)) =
    guards (
      (not (class_match (λ u. is_word u || u == b'.') 1 64 (c ∷ s)), lit "invalid usernameHint")
      ∷ [])
    >> ok (some (c ∷ s))
sanitize_username_hint _ = err (lit "invalid usernameHint")

-- `validateSessionId` and `validateAlias` of slaif_policy.js
unfoldable pub session_id_of : Value → Result Text Text
session_id_of (str s) =
    guards (
      (not (prefix_match (lit "sess_") is_word 8 128 s), lit "invalid SLAIF session id: " ++ s)
      ∷ [])
    >> ok s
session_id_of _ = err (lit "invalid SLAIF session id")

unfoldable pub alias_of : Value → Result Text Text
alias_of (str s) =
    guards ((not (class_match is_word 1 64 s), lit "invalid HPC alias: " ++ s) ∷ [])
    >> ok (to_lower s)
alias_of _ = err (lit "invalid HPC alias")

abbrev local_dev_hosts : List Text
local_dev_hosts = lit "127.0.0.1" ∷ lit "localhost" ∷ []

-- `list.includes(text)` for the value of an array
unfoldable pub items_include : Items → Text → Bool
items_include nil s = false
items_include (cons v xs) s = is_text s v || items_include xs s

abbrev pub listed : Value → Text → Bool
listed (arr xs) s = items_include xs s
listed (str t) s = contains t s
listed _ s = false

-- What is returned, besides the type and the version
pub record Descriptor : Type 0 where
  pub session_id : Text
  pub hpc : Text
  pub payload_id : Text
  pub relay_url : Text
  pub relay_token : Text
  pub relay_token_expires_at : Text
  pub job_report_token : Text
  pub job_report_token_expires_at : Text
  pub username_hint : Option Text
  pub mode : Value

-- `descriptor.mode`, or `launch` where it is left out
abbrev mode_of : Value → Value
mode_of undef = str (lit "launch")
mode_of v = v

-- The tests of a policy, where there is one
abbrev pub if_policy : Value → Result Text (Unit {0}) → Bool → Result Text (Unit {0})
if_policy policy tested true = ok tt
if_policy policy tested false = tested

abbrev pub payload_allowed : Value → Text → Text → Result Text (Unit {0})
payload_allowed policy hpc payload_id =
    resolve_allowed_payload policy (str hpc) (str payload_id) >>= λ r. ok tt

module _ (parse_url : Text → Option Url) where
  abbrev url_at : Text → Result Text Url
  url_at s = or_throw (lit "Invalid URL") (parse_url s)

  unfoldable pub validate_relay_url : Bool → Value → Result Text Text
  validate_relay_url dev (str s) = url_at s >>= λ u.
      guards (
        (
          not (text_eq u.username []) || not (text_eq u.password []) || not (text_eq u.hash []),
          lit "relayUrl must not include credentials or fragments",
        )
        ∷ (
          not (
              text_eq u.protocol (lit "wss:")
              || (dev && text_eq u.protocol (lit "ws:") && includes local_dev_hosts u.hostname)),
          lit "relayUrl must use wss: outside local development",
        )
        ∷ [])
      >> ok u.href
  validate_relay_url dev _ = err (lit "relayUrl must be a string")

  unfoldable pub assert_origin : Bool → Text → Text → Text → Text → Result Text Text
  assert_origin dev secure local name s = url_at s >>= λ u.
      guards (
        (
          (not (text_eq u.href (u.origin ++ lit "/")) && not (text_eq u.pathname (lit "/")))
              || not (text_eq u.search [])
              || not (text_eq u.hash [])
              || not (text_eq u.username [])
              || not (text_eq u.password []),
          name ++ lit " must be an origin",
        )
        ∷ (
          not (
              text_eq u.protocol secure
              || (dev && text_eq u.protocol local && text_eq u.hostname (lit "127.0.0.1"))),
          name ++ (lit " must use " ++ (secure ++ lit " outside local development")),
        )
        ∷ [])
      >> ok u.origin

  -- A policy that is not signed names one relay.
  unfoldable pub unsigned_relay : Value → Text → Result Text (Unit {0})
  unsigned_relay (str []) origin = err (lit "relay origin is not allowed")
  unsigned_relay (str (c ∷ s)) origin = url_at (c ∷ s) >>= λ u.
      guards ((not (text_eq u.origin origin), lit "relay origin is not allowed") ∷ [])
  unsigned_relay _ origin = err (lit "relay origin is not allowed")

  abbrev pub relay_of_policy : Bool → Value → Text → Bool → Result Text (Unit {0})
  relay_of_policy dev policy origin true =
      guards (
        (
          not (listed (property (lit "allowedRelayOrigins") policy) origin),
          lit "relay origin is not allowed by signed HPC policy",
        )
        ∷ [])
      >> (assert_origin dev (lit "wss:") (lit "ws:") (lit "relayUrl origin") origin >>= λ o. ok tt)
  relay_of_policy dev policy origin false =
      unsigned_relay (property (lit "url") (property (lit "relay") policy)) origin

  unfoldable pub policy_allows_relay_url : Bool → Value → Text → Result Text (Unit {0})
  policy_allows_relay_url dev policy relay_url = url_at relay_url >>= λ u.
      relay_of_policy dev policy u.origin
        (is_text (lit "slaif.hpcPolicy") (property (lit "type") policy))

  module _ (parse_date : Text → Option ℤ) (to_iso : ℤ → Text) where
    abbrev live_until : Text → Text → ℤ → Option ℤ → Result Text Text
    live_until name expiry now none = err (expiry ++ lit " must be a valid timestamp")
    live_until name expiry now (some t) =
        guards ((leb_ℤ t now, name ++ lit " has expired") ∷ []) >> ok (to_iso t)

    unfoldable pub expiry_of : Text → ℤ → Value → Result Text Text
    expiry_of name now undef = err (name ++ lit "ExpiresAt is required")
    expiry_of name now (str s) = live_until name (name ++ lit "ExpiresAt") now (parse_date s)
    expiry_of name now _ = err (name ++ lit "ExpiresAt must be an ISO timestamp")

    -- `now` and `later` are the two times that the clock is read.
    unfoldable pub validate_session_descriptor :
        ℤ → ℤ → Bool → Value → Value → Value → Value → Result Text Descriptor
    validate_session_descriptor now later dev policy descriptor pending host = do
      fs ← assert_object (lit "session descriptor") descriptor
      launch ← assert_object (lit "pending launch") pending
      hs ← assert_object (lit "policy host") host
      reject_forbidden_fields fs (lit "session descriptor")
      guards (
          (
            not (is_text (lit "slaif.sessionDescriptor") (get_field (lit "type") fs)),
            lit "unsupported session descriptor type",
          )
          ∷ (
            not (is_one (get_field (lit "version") fs)),
            lit "unsupported session descriptor version",
          )
          ∷ [])
      session_id ← session_id_of (get_field (lit "sessionId") fs)
      guards (
          (
            not (is_text session_id (get_field (lit "sessionId") launch)),
            lit "session descriptor sessionId mismatch",
          )
          ∷ [])
      hpc ← alias_of (get_field (lit "hpc") fs)
      guards (
          (not (is_text hpc (get_field (lit "hpc") launch)), lit "session descriptor hpc mismatch")
          ∷ [])
      payload_id ← Catalog.validate_payload_id (get_field (lit "payloadId") fs)
      guards (
          (
            not (is_text payload_id (get_field (lit "payloadId") launch)),
            lit "session descriptor payloadId mismatch",
          )
          ∷ [])
      if_policy policy (payload_allowed policy hpc payload_id) (is_falsy policy)
      policy_alias ← alias_of (get_field (lit "hostKeyAlias") hs)
      guards (
          (
            not (text_eq policy_alias hpc),
            lit "session descriptor does not match extension policy host",
          )
          ∷ [])
      relay_url ← validate_relay_url dev (get_field (lit "relayUrl") fs)
      if_policy policy (policy_allows_relay_url dev policy relay_url) (is_falsy policy)
      relay_token ← validate_opaque_token (lit "relayToken") (get_field (lit "relayToken") fs)
      relay_until ← expiry_of (lit "relayToken") now (get_field (lit "relayTokenExpiresAt") fs)
      job_token ← validate_opaque_token (lit "jobReportToken") (get_field (lit "jobReportToken") fs)
      job_until ←
          expiry_of (lit "jobReportToken") later (get_field (lit "jobReportTokenExpiresAt") fs)
      hint ← sanitize_username_hint (get_field (lit "usernameHint") fs)
      ok (record {
        session_id = session_id;
        hpc = hpc;
        payload_id = payload_id;
        relay_url = relay_url;
        relay_token = relay_token;
        relay_token_expires_at = relay_until;
        job_report_token = job_token;
        job_report_token_expires_at = job_until;
        username_hint = hint;
        mode = mode_of (get_field (lit "mode") fs);
      })
