-- ===== src/Tokens/Redis.antt =====
-- `createRedisTokenStore` of server/tokens/redis_token_store.js, over an interface to the Redis server.
-- One clock serves the program and the server. Failures of the connection are not modelled.
pub mod Server
pub mod Admin
pub mod Script
pub mod Refinement
pub mod InMemory
mod Tests
use slaif_connect.Base.{
  ℕ, ◌+◌, ◌-◌, Bool, true, false, not, Option, none, some, List, [], ◌∷◌, ◌++◌, Text, lit, text_eq,
  starts_with, leb, ltb, if◌then◌else◌, Result, ok, err, reject, ◌>>=◌, ◌>>◌,
}
use slaif_connect.Base.Table.{Table}
use slaif_connect.Base.Value.{integer_in, positive_integer}
use slaif_connect.Tokens.Types.{
  TokenError, unknown_token, duplicate_token, invalid, range_error, corrupt_token_record,
  script_error, missing_or_malformed_token, revoked_token, expired_token, token_use_exceeded, wrong,
  TokenRecord, Scalar, undef, Expected, ExpectedMetadata, absent, invalid_object, entries, Request,
  AuditFields, Labels, Notice, audit, metric, assert_scope, assert_binding_value, token_value,
  safe_fingerprint, assert_token_value,
}
use slaif_connect.Tokens.Check.{check_record, check_entries, agrees}
use slaif_connect.Tokens.Registry.{Issued, or_throw, scope_label, record_fields, issued, use_once}
use Server.{Stored, json, corrupt, Redis}

abbrev redis_labels : Text → Text → Option TokenError → Labels
redis_labels scope outcome reason = record {
  token_store_type = lit "redis";
  scope = scope;
  outcome = outcome;
  reason = reason;
}

-- `JSON.parse` of a value, and the conversions of its fields, which are of their types already.
unfoldable pub parse_record : Option Stored → Result TokenError (Option TokenRecord)
parse_record none = ok none
parse_record (some corrupt) = err corrupt_token_record
parse_record (some (json r)) = ok (some r)

-- `JSON.stringify` drops the fields that are undefined.
unfoldable pub json_entries : Table Scalar → Table Scalar
json_entries [] = []
json_entries ((key, undef) ∷ m) = json_entries m
json_entries ((key, Scalar.null) ∷ m) = (key, Scalar.null) ∷ json_entries m
json_entries ((key, Scalar.flag b) ∷ m) = (key, Scalar.flag b) ∷ json_entries m
json_entries ((key, Scalar.count n) ∷ m) = (key, Scalar.count n) ∷ json_entries m
json_entries ((key, Scalar.text t) ∷ m) = (key, Scalar.text t) ∷ json_entries m

-- `JSON.stringify(record)`
abbrev pub stringify : TokenRecord → Stored
stringify r = json (record r { metadata = json_entries r.metadata })

-- `expected[key] || ''`, which the script takes for no expectation if it is empty.
unfoldable pub script_argument : Option Text → Option Text
script_argument none = none
script_argument (some []) = none
script_argument (some (c ∷ s)) = some (c ∷ s)

-- `expected.metadata ? JSON.stringify(expected.metadata) : ''`. What is no plain object stands here
-- for null and the other values that count as false: an array, or a scalar that counts as true, which
-- would reach the script, is not modelled.
unfoldable pub script_metadata : ExpectedMetadata → Option (Table Scalar)
script_metadata absent = none
script_metadata invalid_object = none
script_metadata (entries pairs) = some (json_entries pairs)

abbrev pub check_script_metadata :
    (Table Scalar → Table Scalar)
    → Table Scalar
    → Option (Table Scalar)
    → Result TokenError (Unit {0})
check_script_metadata order metadata none = ok tt
check_script_metadata order metadata (some pairs) = check_entries metadata (order pairs)

-- CONSUME_SCRIPT from its reading of the record to its writing of it; `order` is that of `pairs`.
unfoldable pub script_check :
    (Table Scalar → Table Scalar) → ℕ → TokenRecord → Expected → Result TokenError (Unit {0})
script_check order now r expected = do
  reject r.revoked revoked_token
  reject (leb r.expires_at now) expired_token
  reject (leb r.max_uses r.used) token_use_exceeded
  reject (not (agrees (script_argument expected.scope) (some r.scope))) (wrong (lit "scope"))
  reject (not (agrees (script_argument expected.session_id) r.session_id)) (wrong (lit "sessionId"))
  reject (not (agrees (script_argument expected.hpc) r.hpc)) (wrong (lit "hpc"))
  reject (not (agrees (script_argument expected.origin) r.origin)) (wrong (lit "origin"))
  check_script_metadata order r.metadata (script_metadata expected.metadata)

-- `${keyPrefix}:token:${hash}`
unfoldable pub key_for_hash : Text → Text → Text
key_for_hash prefix hash = prefix ++ (lit ":token:" ++ hash)

-- `Math.max(1, record.expiresAt - now + expiredRecordGraceMs)`
unfoldable pub record_ttl : ℕ → ℕ → ℕ → ℕ
record_ttl expires_at at grace =
    if leb (expires_at + grace) (at + 1) then 1 else (expires_at + grace) - at

module _ (redis : Redis) (sha256 : Text → Text) (prefix : Text) (grace : ℕ) where
  open redis use {State, get, set_new, set, set_keep_ttl, del, scan, pairs_order}

  pub record Store : Type 0 where
    pub server : State
    pub notices : List Notice

  abbrev log : Store → List Notice → Store
  log s ns = record s { notices = s.notices ++ ns }

  unfoldable pub rejection : Option Text → Expected → TokenError → List Notice
  rejection token expected e =
      audit (lit "token.rejected") (record {
        scope = expected.scope;
        session_id = expected.session_id;
        hpc = expected.hpc;
        token_fingerprint = safe_fingerprint sha256 token;
        outcome = lit "rejected";
        reason = some e;
      })
      ∷ metric (lit "slaif_tokens_rejected_total")
          (redis_labels (scope_label expected.scope) (lit "rejected") (some e))
      ∷ []

  -- `keyForToken(token)`
  unfoldable pub key_for_token : Option Text → Result TokenError Text
  key_for_token token = do value ← assert_token_value token; ok (key_for_hash prefix (sha256 value))

  unfoldable pub get_record_by_token :
      ℕ → State → Option Text → Result TokenError (Text × TokenRecord)
  get_record_by_token at st token = do
    key ← key_for_token token
    found ← parse_record (get at st key)
    r ← or_throw found unknown_token
    ok (key, r)

  abbrev settle_validate :
      Store
      → Option Text
      → Expected
      → Result TokenError TokenRecord
      → Result TokenError TokenRecord × Store
  settle_validate s token expected (ok r) =
      (ok r, log s (audit (lit "token.validated") (record_fields r (lit "accepted")) ∷ []))
  settle_validate s token expected (err e) = (err e, log s (rejection token expected e))

  unfoldable pub validate_token :
      ℕ → Store → Option Text → Expected → Result TokenError TokenRecord × Store
  validate_token at s token expected = settle_validate s token expected (do
    found ← get_record_by_token at s.server token
    check_record at found.1 expected
    ok found.1)

  abbrev settle_script :
      ℕ
      → State
      → Text
      → TokenRecord
      → Result TokenError (Unit {0})
      → Result TokenError TokenRecord × State
  settle_script at st key r (ok _) = (ok (use_once r), set_keep_ttl at st key (json (use_once r)))
  settle_script at st key r (err e) = (err e, st)

  abbrev run_script :
      ℕ → State → Text → Expected → Option Stored → Result TokenError TokenRecord × State
  run_script at st key expected none = (err unknown_token, st)
  run_script at st key expected (some corrupt) = (err script_error, st)
  run_script at st key expected (some (json r)) =
      settle_script at st key r (script_check pairs_order at r expected)

  -- CONSUME_SCRIPT, which the server runs with no other command in between.
  unfoldable pub consume_script :
      ℕ → State → Text → Expected → Result TokenError TokenRecord × State
  consume_script at st key expected = run_script at st key expected (get at st key)

  abbrev settle_consume :
      Store
      → Option Text
      → Expected
      → Result TokenError TokenRecord × State
      → Result TokenError TokenRecord × Store
  settle_consume s token expected (ok r, st) = (
    ok r,
    log (record s { server = st })
        (audit (lit "token.consumed") (record_fields r (lit "accepted"))
          ∷ metric (lit "slaif_tokens_consumed_total") (redis_labels r.scope (lit "accepted") none)
          ∷ []),
  )
  settle_consume s token expected (err e, st) =
      (err e, log (record s { server = st }) (rejection token expected e))

  unfoldable pub consume_token :
      ℕ → Store → Option Text → Expected → Result TokenError TokenRecord × Store
  consume_token at s token expected = settle_consume s token expected (elim (key_for_token token) [
    | ok key ↦ consume_script at s.server key expected
    | err e ↦ (err e, s.server)
  ])
