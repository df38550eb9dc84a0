-- ===== src/Tokens/Check.antt =====
-- `checkRecord` of server/tokens/token_registry.js, which decides `Admits`.
use slaif_connect.Base.{
  ℕ, ◌<◌, ◌≡◌, ◌↔◌, Bool, true, false, not, Option, none, some, [], ◌∷◌, Text, lit, text_eq,
  text_eq_iff, leb, arith, if◌then◌else◌, Result, ok, err, reject, ◌>>◌, ◌==◌,
}
use slaif_connect.Base.Table.{Table, get}
use slaif_connect.Tokens.Types.{
  Scalar, undef, null, flag, count, text, TokenRecord, Expected, ExpectedMetadata, absent,
  invalid_object, entries, TokenError, revoked_token, expired_token, token_use_exceeded, wrong,
  invalid_metadata_binding,
}

-- `a === b` on scalars.
unfoldable pub scalar_eq : Scalar → Scalar → Bool
scalar_eq undef undef = true
scalar_eq null null = true
scalar_eq (flag true) (flag b) = b
scalar_eq (flag false) (flag b) = not b
scalar_eq (count m) (count n) = m == n
scalar_eq (text s) (text t) = text_eq s t
scalar_eq _ _ = false

-- `metadata?.[key]`
unfoldable pub entry : Text → Table Scalar → Scalar
entry key metadata = elim (get key metadata) [ none ↦ undef | some v ↦ v ]

-- `expected[key] !== undefined && record[key] !== expected[key]` fails.
unfoldable pub agrees : Option Text → Option Text → Bool
agrees none bound = true
agrees (some want) none = false
agrees (some want) (some bound) = text_eq bound want

-- The loop over `Object.entries(expected.metadata)`.
unfoldable pub check_entries : Table Scalar → Table Scalar → Result TokenError (Unit {0})
check_entries metadata [] = ok tt
check_entries metadata ((key, value) ∷ rest) =
    if scalar_eq (entry key metadata) value then check_entries metadata rest else err (wrong key)

unfoldable pub check_metadata : Table Scalar → ExpectedMetadata → Result TokenError (Unit {0})
check_metadata metadata absent = ok tt
check_metadata metadata invalid_object = err invalid_metadata_binding
check_metadata metadata (entries pairs) = check_entries metadata pairs

unfoldable pub check_record : ℕ → TokenRecord → Expected → Result TokenError (Unit {0})
check_record at r expected = do
  reject r.revoked revoked_token
  reject (leb r.expires_at at) expired_token
  reject (leb r.max_uses r.used) token_use_exceeded
  reject (not (agrees expected.scope (some r.scope))) (wrong (lit "scope"))
  reject (not (agrees expected.session_id r.session_id)) (wrong (lit "sessionId"))
  reject (not (agrees expected.hpc r.hpc)) (wrong (lit "hpc"))
  reject (not (agrees expected.origin r.origin)) (wrong (lit "origin"))
  check_metadata r.metadata expected.metadata

-- The specification: a token is usable at an instant, and bound to what the caller expects.
pub record IsUsable (at : ℕ) (r : TokenRecord) : Type 0 where
  pub live : r.revoked ≡ false
  pub early : at < r.expires_at
  pub fresh : r.used < r.max_uses

-- What the caller names is what the record has.
abbrev pub Binds : Option Text → Option Text → Type 0
Binds none bound = Unit
Binds (some want) bound = bound ≡ some want

abbrev pub BindsEntries : Table Scalar → Table Scalar → Type 0
BindsEntries metadata [] = Unit
BindsEntries metadata ((key, value) ∷ rest) =
    (entry key metadata ≡ value) × BindsEntries metadata rest

abbrev pub BindsMetadata : Table Scalar → ExpectedMetadata → Type 0
BindsMetadata metadata absent = Unit
BindsMetadata metadata invalid_object = ⊥
BindsMetadata metadata (entries pairs) = BindsEntries metadata pairs

pub record Matches (r : TokenRecord) (expected : Expected) : Type 0 where
  pub scope : Binds expected.scope (some r.scope)
  pub session_id : Binds expected.session_id r.session_id
  pub hpc : Binds expected.hpc r.hpc
  pub origin : Binds expected.origin r.origin
  pub metadata : BindsMetadata r.metadata expected.metadata

pub record Admits (at : ℕ) (r : TokenRecord) (expected : Expected) : Type 0 where
  pub usable : IsUsable at r
  pub bound : Matches r expected

scalar_eq_iff : (a b : Scalar) → (scalar_eq a b ≡ true) ↔ (a ≡ b)
unfolding scalar_eq
scalar_eq_iff undef undef = ground arith
scalar_eq_iff null null = ground arith
scalar_eq_iff (flag a) (flag b) = ground arith
scalar_eq_iff (count m) (count n) = ground arith
scalar_eq_iff (text s) (text t) = ground (arith, text_eq_iff s t)
scalar_eq_iff _ _ = ground arith

pub agrees_iff : (want bound : Option Text) → (agrees want bound ≡ true) ↔ Binds want bound
unfolding agrees
agrees_iff none bound = ground arith
agrees_iff (some want) none = ground arith
agrees_iff (some want) (some bound) = ground (arith, text_eq_iff bound want)

pub check_entries_iff :
    (metadata pairs : Table Scalar)
    → (check_entries metadata pairs ≡ ok tt) ↔ BindsEntries metadata pairs
unfolding check_entries
check_entries_iff metadata [] = ground arith
check_entries_iff metadata ((key, value) ∷ rest) =
    ground (arith, scalar_eq_iff (entry key metadata) value, check_entries_iff metadata rest)

check_metadata_iff :
    (metadata : Table Scalar) (e : ExpectedMetadata)
    → (check_metadata metadata e ≡ ok tt) ↔ BindsMetadata metadata e
unfolding check_metadata
check_metadata_iff metadata absent = ground arith
check_metadata_iff metadata invalid_object = ground arith
check_metadata_iff metadata (entries pairs) = check_entries_iff metadata pairs

check_record_sound :
    (at : ℕ) (r : TokenRecord) (e : Expected) → check_record at r e ≡ ok tt → Admits at r e
unfolding check_record
check_record_sound at r e h = ground (
  arith,
  agrees_iff e.scope (some r.scope),
  agrees_iff e.session_id r.session_id,
  agrees_iff e.hpc r.hpc,
  agrees_iff e.origin r.origin,
  check_metadata_iff r.metadata e.metadata,
)

check_record_complete :
    (at : ℕ) (r : TokenRecord) (e : Expected) → Admits at r e → check_record at r e ≡ ok tt
unfolding check_record
check_record_complete at r e h = ground (
  arith,
  agrees_iff e.scope (some r.scope),
  agrees_iff e.session_id r.session_id,
  agrees_iff e.hpc r.hpc,
  agrees_iff e.origin r.origin,
  check_metadata_iff r.metadata e.metadata,
)

-- `checkRecord` accepts exactly the tokens that are live, not expired, not used up, and bound to all
-- that the caller expects.
pub check_record_iff :
    (at : ℕ) (r : TokenRecord) (e : Expected) → (check_record at r e ≡ ok tt) ↔ Admits at r e
check_record_iff at r e = (check_record_sound at r e, check_record_complete at r e)
