-- ===== src/Tokens/Registry.antt =====
-- `createTokenRegistry` of server/tokens/token_registry.js: the state is the map of records, with the
-- calls that the registry has made of its audit logger and its metrics registry. Each operation takes
-- the instant that its clock reads.
pub mod Invariant
pub mod Uses
pub mod Outcomes
pub mod Revocation
use slaif_connect.Base.{
  ℕ, ◌+◌, Bool, true, false, Option, none, some, List, [], ◌∷◌, ◌++◌, Text, lit, text_eq,
  starts_with, leb, ltb, length, if◌then◌else◌, Result, ok, err, reject, ◌>>=◌, ◌>>◌,
}
use slaif_connect.Base.Table.{Table, get, put}
use slaif_connect.Base.Value.{integer_in, positive_integer}
use slaif_connect.Tokens.Types.{
  TokenError, unknown_token, duplicate_token, invalid, range_error, TokenRecord, Expected, Request,
  AuditFields, Labels, Notice, audit, metric, assert_scope, assert_binding_value, or_one,
  token_value, safe_fingerprint, assert_token_value,
}
use slaif_connect.Tokens.Check.{check_record}

pub record Registry : Type 0 where
  pub records : Table TokenRecord
  pub notices : List Notice

-- What `issueToken` returns; `record_copy` is `cloneRecord(record)`.
pub record Issued : Type 0 where
  pub token : Text
  pub fingerprint : Text
  pub expires_at : ℕ
  pub record_copy : TokenRecord

abbrev pub empty : Registry
empty = record { records = []; notices = [] }

-- The last instant that a Date can hold, in milliseconds.
abbrev pub max_date : ℕ
max_date = 8640000000000000

abbrev pub or_throw : {A : Type 0} → Option A → TokenError → Result TokenError A
or_throw none e = err e
or_throw (some a) e = ok a

abbrev pub log : Registry → List Notice → Registry
log s ns = record s { notices = s.notices ++ ns }

-- `expected.scope || 'unknown'`
abbrev pub scope_label : Option Text → Text
scope_label none = lit "unknown"
scope_label (some []) = lit "unknown"
scope_label (some (c ∷ s)) = c ∷ s

abbrev pub record_fields : TokenRecord → Text → AuditFields
record_fields r outcome = record {
  scope = some r.scope;
  session_id = r.session_id;
  hpc = r.hpc;
  token_fingerprint = r.fingerprint;
  outcome = outcome;
  reason = none;
}

abbrev pub memory_labels : Text → Text → Option TokenError → Labels
memory_labels scope outcome reason = record {
  token_store_type = lit "memory";
  scope = scope;
  outcome = outcome;
  reason = reason;
}

abbrev pub use_once : TokenRecord → TokenRecord
use_once r = record r { used = r.used + 1 }

abbrev is_some : {A : Type 0} → Option A → Bool
is_some none = false
is_some (some a) = true

-- `new Date(record.expiresAt).toISOString()` throws past the range of a Date.
abbrev pub issued : Text → TokenRecord → Result TokenError Issued
issued value r =
    if leb r.expires_at max_date
    then ok (record {
      token = value;
      fingerprint = r.fingerprint;
      expires_at = r.expires_at;
      record_copy = r;
    })
    else err range_error

-- The first record with this fingerprint, in the order of the map.
unfoldable pub find_fingerprint : Text → Table TokenRecord → Option (Text × TokenRecord)
find_fingerprint fp [] = none
find_fingerprint fp ((hash, r) ∷ m) =
    if text_eq r.fingerprint fp then some (hash, r) else find_fingerprint fp m

abbrev with_hash : Text → Option TokenRecord → Option (Text × TokenRecord)
with_hash hash none = none
with_hash hash (some r) = some (hash, r)

abbrev or_else : {A : Type 0} → Option A → Option A → Option A
or_else none b = b
or_else (some a) b = some a

abbrev settle_revoke : Registry → Option (Text × TokenRecord) → Bool × Registry
settle_revoke s none = (false, s)
settle_revoke s (some (hash, r)) = (
  true,
  log (record s { records = put hash (record r { revoked = true }) s.records })
      (audit (lit "token.revoked") (record_fields r (lit "revoked")) ∷ []),
)

-- The loop of `cleanupExpired`: how many records it removes, and those that stay.
unfoldable pub sweep : ℕ → Table TokenRecord → ℕ × Table TokenRecord
sweep at [] = (0, [])
sweep at ((hash, r) ∷ m) =
    let (n, rest) = sweep at m in
    if leb r.expires_at at then (n + 1, rest) else (n, (hash, r) ∷ rest)

unfoldable pub cleanup_expired : ℕ → Registry → ℕ × Registry
unfolding sweep
cleanup_expired at s = let (n, rest) = sweep at s.records in (n, record s { records = rest })

pub size : Registry → ℕ
size s = length s.records

-- A call of the registry, with the instant of its clock.
pub data Call : Type 0 where
  issue : ℕ → Request → Text → Call
  validate : ℕ → Option Text → Expected → Call
  consume : ℕ → Option Text → Expected → Call
  revoke : Option Text → Call
  cleanup : ℕ → Call

module _ (sha256 : Text → Text) where
  -- What a `catch` reports before it throws again.
  unfoldable pub rejection : Option Text → Expected → TokenError → List Notice
  rejection token expected e =
      audit (lit "token.rejected") (record {
        scope = expected.scope;
        session_id = expected.session_id;
        hpc = expected.hpc;
        token_fingerprint = safe_fingerprint sha256 token;
        outcome = lit "rejected";
        reason = some e;
      })
      ∷ metric (lit "slaif_tokens_rejected_total")
          (memory_labels (scope_label expected.scope) (lit "rejected") (some e))
      ∷ []

  -- `lookup(token)`
  unfoldable pub lookup : Registry → Option Text → Result TokenError (Text × TokenRecord)
  lookup s token = do
    value ← assert_token_value token
    r ← or_throw (get (sha256 value) s.records) unknown_token
    ok (sha256 value, r)

  -- `lookup` and `checkRecord`, as `validateToken` and `consumeToken` begin.
  unfoldable pub admit :
      ℕ → Registry → Option Text → Expected → Result TokenError (Text × TokenRecord)
  unfolding lookup
  admit at s token expected = do found ← lookup s token; check_record at found.1 expected; ok found

  abbrev settle_validate :
      Registry
      → Option Text
      → Expected
      → Result TokenError (Text × TokenRecord)
      → Result TokenError TokenRecord × Registry
  settle_validate s token expected (ok (hash, r)) =
      (ok r, log s (audit (lit "token.validated") (record_fields r (lit "accepted")) ∷ []))
  settle_validate s token expected (err e) = (err e, log s (rejection token expected e))

  unfoldable pub validate_token :
      ℕ → Registry → Option Text → Expected → Result TokenError TokenRecord × Registry
  validate_token at s token expected = settle_validate s token expected (admit at s token expected)

  abbrev settle_consume :
      Registry
      → Option Text
      → Expected
      → Result TokenError (Text × TokenRecord)
      → Result TokenError TokenRecord × Registry
  settle_consume s token expected (ok (hash, r)) = (
    ok (use_once r),
    log (record s { records = put hash (use_once r) s.records })
        (audit (lit "token.consumed") (record_fields r (lit "accepted"))
          ∷ metric (lit "slaif_tokens_consumed_total") (memory_labels r.scope (lit "accepted") none)
          ∷ []),
  )
  settle_consume s token expected (err e) = (err e, log s (rejection token expected e))

  unfoldable pub consume_token :
      ℕ → Registry → Option Text → Expected → Result TokenError TokenRecord × Registry
  consume_token at s token expected = settle_consume s token expected (admit at s token expected)

  -- The record of a new token, with all that `issueToken` throws before it stores the record.
  unfoldable pub prepare : ℕ → Registry → Request → Text → Result TokenError (Text × TokenRecord)
  prepare at s req fresh = do
    scope ← assert_scope req.scope
    ttl ← or_throw (positive_integer req.ttl_ms) (invalid (lit "ttl"))
    uses ← or_throw (integer_in 1 1000 (or_one req.max_uses)) (invalid (lit "max_uses"))
    reject (is_some (get (sha256 (token_value req.token fresh)) s.records)) duplicate_token
    session_id ← assert_binding_value req.session_id (lit "sessionId")
    hpc ← assert_binding_value req.hpc (lit "hpc")
    origin ← assert_binding_value req.origin (lit "origin")
    ok (
      token_value req.token fresh,
      record {
        scope = scope;
        session_id = session_id;
        hpc = hpc;
        origin = origin;
        created_at = at;
        expires_at = at + ttl;
        max_uses = uses;
        used = 0;
        revoked = false;
        metadata = req.metadata;
        fingerprint = safe_fingerprint sha256 (some (token_value req.token fresh));
      },
    )

  abbrev settle_issue :
      Registry → Result TokenError (Text × TokenRecord) → Result TokenError Issued × Registry
  settle_issue s (ok (value, r)) = (
    issued value r,
    log (record s { records = put (sha256 value) r s.records })
        (audit (lit "token.issued") (record_fields r (lit "issued"))
          ∷ metric (lit "slaif_tokens_issued_total") (memory_labels r.scope (lit "issued") none)
          ∷ []),
  )
  settle_issue s (err e) = (err e, s)

  -- `fresh` is the value of `randomToken(tokenPrefix)`.
  unfoldable pub issue_token : ℕ → Registry → Request → Text → Result TokenError Issued × Registry
  issue_token at s req fresh = settle_issue s (prepare at s req fresh)

  -- The record that `revokeToken` is about: by the token's hash, or else by fingerprint.
  unfoldable pub revocable : Registry → Text → Option (Text × TokenRecord)
  unfolding find_fingerprint
  revocable s token =
      or_else
        (if starts_with token (lit "sha256:")
          then none
          else with_hash (sha256 token) (get (sha256 token) s.records))
        (find_fingerprint token s.records)

  unfoldable pub revoke_token : Registry → Option Text → Bool × Registry
  revoke_token s none = (false, s)
  revoke_token s (some []) = (false, s)
  revoke_token s (some (c ∷ token)) = settle_revoke s (revocable s (c ∷ token))

  unfoldable pub step : Registry → Call → Registry
  unfolding cleanup_expired
  step s (issue at req fresh) = (issue_token at s req fresh).1
  step s (validate at token expected) = (validate_token at s token expected).1
  step s (consume at token expected) = (consume_token at s token expected).1
  step s (revoke token) = (revoke_token s token).1
  step s (cleanup at) = (cleanup_expired at s).1

  unfoldable pub run : Registry → List Call → Registry
  run s [] = s
  run s (c ∷ cs) = run (step s c) cs
