-- ===== src/Audit.antt =====
-- server/logging/audit_log.js: `sanitizeEvent` and `makeAuditEvent`. `fingerprint` is
-- `getSafeTokenFingerprint` of a token that is no empty string.
use slaif_connect.Base.{
  ℕ, Bool, true, false, not, ◌||◌, ◌&&◌, zero, suc, ◌+◌, List, [], ◌∷◌, ◌++◌, map, Text, lit,
  text_eq, includes, starts_with, contains, leb, ◌==◌, is_digit, is_word, is_lower, lower,
  class_match, prefix_match, decimal_digits, Result, ok, err, ◌>>◌, guards, if◌then◌else◌,
}
use slaif_connect.Base.Value.{
  Value, Items, Fields, undef, null, bool, num, str, arr, obj, int, pos, nil, cons, end, field,
  get_field, has_key, is_falsy, is_undefined,
}
pub mod Redacted
pub mod Tests

-- The line that a string starts with, which is what `.*` takes at most
abbrev is_terminator : ℕ → Bool
is_terminator c = c == 10 || c == 13 || c == 8232 || c == 8233

unfoldable pub line_of : Text → Text
line_of [] = []
line_of (c ∷ s) = if is_terminator c then [] else c ∷ line_of s

-- `redis.*url`
unfoldable pub has_redis_url : Text → Bool
has_redis_url [] = false
has_redis_url (c ∷ s) =
    (starts_with (c ∷ s) (lit "redis") && contains (line_of s) (lit "url")) || has_redis_url s

-- One of the words stands in the string.
unfoldable pub contains_one : List Text → Text → Bool
contains_one [] s = false
contains_one (t ∷ ts) s = contains s t || contains_one ts s

abbrev token_words : List Text
token_words =
    lit "token"
    ∷ lit "authorization"
    ∷ lit "password"
    ∷ lit "otp"
    ∷ lit "privatekey"
    ∷ lit "passphrase"
    ∷ lit "secret"
    ∷ []

abbrev payload_words : List Text
payload_words =
    lit "payload"
    ∷ lit "transcript"
    ∷ lit "stdout"
    ∷ lit "stderr"
    ∷ lit "terminal"
    ∷ lit "raw"
    ∷ lit "sshpayload"
    ∷ lit "commandoutput"
    ∷ []

-- The three patterns of keys, under the flag `i`
unfoldable pub is_fingerprint_key : Text → Bool
is_fingerprint_key key = contains (map lower key) (lit "tokenfingerprint")

unfoldable pub is_token_key : Text → Bool
is_token_key key = contains_one token_words (map lower key) || has_redis_url (map lower key)

unfoldable pub is_payload_key : Text → Bool
is_payload_key key = contains_one payload_words (map lower key)

-- What becomes of the value of a key
pub data Treatment : Type 0 where
  keep_fingerprint : Treatment
  hide_token : Treatment
  hide : Treatment
  look_inside : Treatment

abbrev pub treatment : Bool → Bool → Bool → Treatment
treatment true token payload = keep_fingerprint
treatment false true payload = hide_token
treatment false false true = hide
treatment false false false = look_inside

abbrev pub treatment_of : Text → Treatment
treatment_of key = treatment (is_fingerprint_key key) (is_token_key key) (is_payload_key key)

abbrev is_hex : ℕ → Bool
is_hex c = is_digit c || (leb b'a' c && leb c b'f')

-- `/^sha256:[0-9a-f]{8,64}$/i`
unfoldable pub is_safe_fingerprint : Text → Bool
is_safe_fingerprint s = prefix_match (lit "sha256:") is_hex 8 64 (map lower s)

abbrev pub redacted : Value
redacted = obj (field (lit "redacted") (bool true) end)

abbrev pub redacted_as : Text → Value
redacted_as print =
    obj (field (lit "redacted") (bool true) (field (lit "fingerprint") (str print) end))

-- `${key}.${index}`
abbrev pub index_key : Text → ℕ → Text
index_key key i = key ++ (lit "." ++ decimal_digits 16 i)

module _ (fingerprint : Text → Text) where
  unfoldable mutual
    -- `sanitizeValue`, whose tests of the key have been made
    pub sanitize_value : Treatment → Text → Value → Value
    sanitize_value keep_fingerprint key (str s) = if is_safe_fingerprint s then str s else redacted
    sanitize_value keep_fingerprint key v = redacted
    sanitize_value hide_token key (str []) = redacted
    sanitize_value hide_token key (str (c ∷ s)) = redacted_as (fingerprint (c ∷ s))
    sanitize_value hide_token key v = redacted
    sanitize_value hide key v = redacted
    sanitize_value look_inside key (arr xs) = arr (sanitize_items key 0 xs)
    sanitize_value look_inside key (obj fs) = obj (sanitize_event fs)
    sanitize_value look_inside key v = v

    pub sanitize_items : Text → ℕ → Items → Items
    sanitize_items key i nil = nil
    sanitize_items key i (cons v xs) =
        cons (sanitize_value (treatment_of (index_key key i)) (index_key key i) v)
          (sanitize_items key (suc i) xs)

    pub sanitize_event : Fields → Fields
    sanitize_event end = end
    sanitize_event (field key v fs) =
        field key (sanitize_value (treatment_of key) key v) (sanitize_event fs)

-- `/^[a-z][A-Za-z0-9_.-]{1,96}$/`
abbrev is_event_name : Text → Bool
is_event_name [] = false
is_event_name (c ∷ s) = is_lower c && class_match (λ u. is_word u || u == b'.') 1 96 s

-- `v || w`
abbrev or_else : Value → Value → Value
or_else v w = if is_falsy v then w else v

-- The keys that an event has from the start, and those that every object has
abbrev event_keys : List Text
event_keys =
    lit "type"
    ∷ lit "version"
    ∷ lit "event"
    ∷ lit "timestamp"
    ∷ lit "requestId"
    ∷ lit "sessionId"
    ∷ lit "hpc"
    ∷ lit "scope"
    ∷ lit "tokenFingerprint"
    ∷ lit "outcome"
    ∷ lit "reason"
    ∷ lit "remoteAddress"
    ∷ lit "durationMs"
    ∷ lit "environment"
    ∷ lit "metadata"
    ∷ []

abbrev object_keys : List Text
object_keys =
    lit "constructor"
    ∷ lit "hasOwnProperty"
    ∷ lit "isPrototypeOf"
    ∷ lit "propertyIsEnumerable"
    ∷ lit "toLocaleString"
    ∷ lit "toString"
    ∷ lit "valueOf"
    ∷ lit "__proto__"
    ∷ lit "__defineGetter__"
    ∷ lit "__defineSetter__"
    ∷ lit "__lookupGetter__"
    ∷ lit "__lookupSetter__"
    ∷ []

-- The other fields, behind those of every event
unfoldable pub other_fields : Fields → Fields
other_fields end = end
other_fields (field key v fs) =
    let rest = other_fields fs in
    if includes event_keys key || includes object_keys key then rest else field key v rest

unfoldable pub drop_undefined : Fields → Fields
drop_undefined end = end
drop_undefined (field key v fs) =
    let rest = drop_undefined fs in if is_undefined v then rest else field key v rest

unfoldable pub event_fields : Text → Text → Value → Bool → Fields → Fields
event_fields name now environment include_session_id fs =
    field (lit "type") (str (lit "slaif.auditEvent")) (
      field (lit "version") (num (int (pos 1))) (
        field (lit "event") (str name) (
          field (lit "timestamp") (or_else (get_field (lit "timestamp") fs) (str now)) (
            field (lit "requestId") (get_field (lit "requestId") fs) (
              field (lit "sessionId")
                (if include_session_id then get_field (lit "sessionId") fs else undef)
                (field (lit "hpc") (get_field (lit "hpc") fs) (
                  field (lit "scope") (get_field (lit "scope") fs) (
                    field (lit "tokenFingerprint") (get_field (lit "tokenFingerprint") fs) (
                      field (lit "outcome") (get_field (lit "outcome") fs) (
                        field (lit "reason")
                          (or_else (get_field (lit "reason") fs) (get_field (lit "errorCode") fs))
                          (field (lit "remoteAddress") (get_field (lit "remoteAddress") fs) (
                            field (lit "durationMs") (get_field (lit "durationMs") fs) (
                              field (lit "environment") environment (
                                field (lit "metadata") (get_field (lit "metadata") fs)
                                  (other_fields fs)))))))))))))))

module _ (fingerprint : Text → Text) where
  abbrev pub made_event : Text → Value → Bool → Fields → Value → Result Text Fields
  made_event now environment include_session_id fs (str name) =
      guards ((not (is_event_name name), lit "invalid_audit_event") ∷ [])
      >> ok (
          sanitize_event fingerprint
            (drop_undefined (event_fields name now environment include_session_id fs)))
  made_event now environment include_session_id fs v = err (lit "invalid_audit_event")

  -- `makeAuditEvent`, with the time of its clock
  unfoldable pub make_audit_event : Text → Value → Bool → Fields → Result Text Fields
  make_audit_event now environment include_session_id fs =
      made_event now environment include_session_id fs
        (or_else (get_field (lit "event") fs) (get_field (lit "type") fs))
