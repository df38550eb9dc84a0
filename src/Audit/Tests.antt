-- ===== src/Audit/Tests.antt =====
-- The theorem on server/logging/audit_log.js at one event.
use slaif_connect.Base.{
  contains, ◌≡◌, refl, true, Text, lit, text_eq, includes, starts_with, is_word, lower, class_match,
  guards, ok,
}
use slaif_connect.Base.Value.{Fields, num, str, obj, int, pos, end, field, get_field}
use slaif_connect.Audit.{
  line_of, contains_one, has_redis_url, is_fingerprint_key, is_token_key, is_payload_key,
  redacted_as, sanitize_value, other_fields, drop_undefined, event_fields, make_audit_event,
}
use slaif_connect.Audit.Redacted.{
  Stands, in_object, here, below, later_field, IsRedacted, is_sensitive,
  make_audit_event-IsRedacted,
}

-- A fingerprint that shows nothing of the token
abbrev no_print : Text → Text
no_print s = lit "sha256:00000000"

abbrev submitted : Fields
submitted = field (lit "event") (str (lit "relay.start")) (
    field (lit "metadata") (obj (field (lit "relayToken") (str (lit "tok_secret")) end))
      (field (lit "attempt") (num (int (pos 2))) end))

abbrev event : Fields
event = field (lit "type") (str (lit "slaif.auditEvent")) (
    field (lit "version") (num (int (pos 1))) (
      field (lit "event") (str (lit "relay.start")) (
        field (lit "timestamp") (str (lit "now")) (
          field (lit "environment") (str (lit "test")) (
            field (lit "metadata")
              (obj (field (lit "relayToken") (redacted_as (lit "sha256:00000000")) end))
              (field (lit "attempt") (num (int (pos 2))) end))))))

is_made : make_audit_event no_print (lit "now") (str (lit "test")) true submitted ≡ ok event
unfolding make_audit_event guards class_match is_word drop_undefined event_fields other_fields
    includes text_eq get_field sanitize_value is_fingerprint_key is_token_key is_payload_key
    contains contains_one has_redis_url line_of starts_with lower
is_made = refl

is_sensitive_key : is_sensitive (lit "relayToken") ≡ true
unfolding is_fingerprint_key is_token_key is_payload_key contains contains_one has_redis_url line_of
    starts_with lower
is_sensitive_key = refl

below_metadata : Stands (lit "relayToken") (redacted_as (lit "sha256:00000000")) (obj event)
below_metadata =
    in_object
      (later_field (later_field (later_field (later_field (later_field (below (in_object here)))))))

make_audit_event-IsRedacted_example : IsRedacted no_print (redacted_as (lit "sha256:00000000"))
make_audit_event-IsRedacted_example =
    make_audit_event-IsRedacted no_print (lit "now") (str (lit "test")) true submitted event
      (lit "relayToken") (redacted_as (lit "sha256:00000000")) is_made below_metadata
      is_sensitive_key
