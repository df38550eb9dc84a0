-- ===== src/Tokens/Types.antt =====
-- server/tokens/token_registry.js: the records, what a caller expects of a token, and the errors.

use slaif_connect.Base.{
  ℕ, Bool, Option, none, some, List, [], ◌∷◌, ◌++◌, Text, lit, includes, take, leb, ltb, length,
  if◌then◌else◌, Result, ok, err,
}
use slaif_connect.Base.Table.{Table}
use slaif_connect.Base.Value.{Value, Number, ℤ}

-- `error.code` of a TokenRegistryError. `wrong k` is `wrong_${k}`, and `invalid k` is `invalid_${k}`.
pub data TokenError : Type 0 where
  missing_or_malformed_token unknown_token revoked_token expired_token : TokenError
  token_use_exceeded duplicate_token invalid_metadata_binding missing_job_id : TokenError
  wrong invalid : Text → TokenError
  -- RangeError of `toISOString`, the TokenStoreError of a value that is no JSON, and the failure of a
  -- script on the Redis server
  range_error corrupt_token_record script_error : TokenError

-- A value of `metadata`: what `===` compares by value.
pub data Scalar : Type 0 where
  undef null : Scalar
  flag : Bool → Scalar
  count : ℕ → Scalar
  text : Text → Scalar

pub record TokenRecord : Type 0 where
  pub scope : Text
  pub session_id : Option Text
  pub hpc : Option Text
  pub origin : Option Text
  -- the instants that `toISOString` renders
  pub created_at : ℕ
  pub expires_at : ℕ
  pub max_uses : ℕ
  pub used : ℕ
  pub revoked : Bool
  pub metadata : Table Scalar
  pub fingerprint : Text

-- `expected.metadata`: undefined, no plain object, or an object.
pub data ExpectedMetadata : Type 0 where
  absent invalid_object : ExpectedMetadata
  entries : Table Scalar → ExpectedMetadata

-- `expected`; `none` is undefined.
pub record Expected : Type 0 where
  pub scope : Option Text
  pub session_id : Option Text
  pub hpc : Option Text
  pub origin : Option Text
  pub metadata : ExpectedMetadata

-- The argument of `issueToken`; `token` is `none` if the caller leaves the value to the registry.
pub record Request : Type 0 where
  pub scope : Text
  pub session_id : Value
  pub hpc : Value
  pub origin : Value
  -- `Number(ttlMs)`
  pub ttl_ms : Number
  pub max_uses : Value
  pub metadata : Table Scalar
  pub token : Option Text

-- The fields of an audit event of the token stores.
pub record AuditFields : Type 0 where
  pub scope : Option Text
  pub session_id : Option Text
  pub hpc : Option Text
  pub token_fingerprint : Text
  pub outcome : Text
  pub reason : Option TokenError

-- The labels of a metric of the token stores.
pub record Labels : Type 0 where
  pub token_store_type : Text
  pub scope : Text
  pub outcome : Text
  pub reason : Option TokenError

-- A call of `auditLogger.event` or of `metricsRegistry.increment`.
pub data Notice : Type 0 where
  audit : Text → AuditFields → Notice
  metric : Text → Labels → Notice

-- TOKEN_SCOPES
abbrev pub launch_scope : Text
launch_scope = lit "slaif.launch"

abbrev pub relay_scope : Text
relay_scope = lit "slaif.relay"

abbrev pub job_report_scope : Text
job_report_scope = lit "slaif.jobReport"

abbrev pub workload_scope : Text
workload_scope = lit "slaif.workload"

abbrev pub token_scopes : List Text
token_scopes = launch_scope ∷ relay_scope ∷ job_report_scope ∷ workload_scope ∷ []

unfoldable pub assert_scope : Text → Result TokenError Text
assert_scope scope = if includes token_scopes scope then ok scope else err (invalid (lit "scope"))

unfoldable pub assert_binding_value : Value → Text → Result TokenError (Option Text)
assert_binding_value Value.undef name = ok none
assert_binding_value Value.null name = ok none
assert_binding_value (Value.str []) name = ok none
assert_binding_value (Value.str (c ∷ s)) name =
    if ltb 512 (length (c ∷ s)) then err (invalid name) else ok (some (c ∷ s))
assert_binding_value v name = err (invalid name)

-- `maxUses = 1`
abbrev pub or_one : Value → Value
or_one Value.undef = Value.num (Number.int (ℤ.pos 1))
or_one v = v

-- `randomToken(prefix)`; `entropy` is the base64url text of the random bytes.
unfoldable pub random_token : Text → Text → Text
random_token prefix entropy = prefix ++ (lit "_" ++ entropy)

-- `token || randomToken(prefix)`
unfoldable pub token_value : Option Text → Text → Text
token_value none fresh = fresh
token_value (some []) fresh = fresh
token_value (some (c ∷ s)) fresh = c ∷ s

-- `sha256` gives the hexadecimal digest of the UTF-8 text; `none` is a value that is no string.
unfoldable pub safe_fingerprint : (Text → Text) → Option Text → Text
safe_fingerprint sha256 none = lit "token:missing"
safe_fingerprint sha256 (some []) = lit "token:missing"
safe_fingerprint sha256 (some (c ∷ s)) = lit "sha256:" ++ take 16 (sha256 (c ∷ s))

-- `typeof token !== 'string' || token.length < 16 || token.length > 4096` throws.
unfoldable pub assert_token_value : Option Text → Result TokenError Text
assert_token_value none = err missing_or_malformed_token
assert_token_value (some token) =
    if leb 16 (length token)
    then if leb (length token) 4096 then ok token else err missing_or_malformed_token
    else err missing_or_malformed_token
