-- ===== src/Tokens/Registry/Outcomes.antt =====
-- What the registry's operations answer, and what they change.
use slaif_connect.Base.{
  ℕ, ◌+◌, ◌<◌, ◌≡◌, refl, false, some, [], ◌∷◌, Text, arith, text_eq, ltb, ok, err, Result-cases,
  inl, inr, if◌then◌else◌, length, ◌↔◌,
}
use slaif_connect.Base.Table.{Table, get, get-put, get-put_self, get-retain, keep_if, IsUnique}
use slaif_connect.Tokens.Types.{TokenError, TokenRecord, Expected, Request, assert_token_value}
use slaif_connect.Tokens.Check.{Admits, Matches, check_record_iff}
use slaif_connect.Tokens.Registry.{
  Registry, Issued, prepare, admit, issue_token, validate_token, consume_token, sweep,
  cleanup_expired, use_once, size, issued,
}
use slaif_connect.Tokens.Registry.Invariant.{sweep-eq-retain}

module _ (sha256 : Text → Text) where
  -- The registry knows the text as the token of this record, and the caller may use it.
  pub record IsAccepted (at : ℕ) (s : Registry) (token : Text) (e : Expected) (r : TokenRecord)
      : Type 0 where
    pub well_sized : assert_token_value (some token) ≡ ok token
    pub known : get (sha256 token) s.records ≡ some r
    pub admitted : Admits at r e

  pub admit_iff :
      (at : ℕ) (s : Registry) (token : Text) (e : Expected) (r : TokenRecord)
      → (admit sha256 at s (some token) e ≡ ok (sha256 token, r)) ↔ IsAccepted at s token e r
  unfolding admit assert_token_value
  admit_iff at s token e r = (
    λ h. record {
      well_sized = ground arith;
      known = ground arith;
      admitted = (check_record_iff at r e).0 (ground arith);
    },
    λ a. ground (arith, a.well_sized, a.known, check_record_iff at r e),
  )

  pub admit-hash :
      (at : ℕ) (s : Registry) (token : Text) (e : Expected) (h : Text) (r : TokenRecord)
      → admit sha256 at s (some token) e ≡ ok (h, r)
      → h ≡ sha256 token
  unfolding admit assert_token_value
  admit-hash at s token e h r p = ground arith

  -- What `consumeToken` does with an accepted token: it answers the record with one more use, and
  -- stores that, and changes no other record.
  pub consume_token-accepted :
      (at : ℕ) (s : Registry) (token : Text) (e : Expected) (r : TokenRecord)
      → IsAccepted at s token e r
      → ((consume_token sha256 at s (some token) e).0 ≡ ok (use_once r))
        × ((j : Text)
            → get j (consume_token sha256 at s (some token) e).1.records
              ≡ (if text_eq (sha256 token) j then some (use_once r) else get j s.records))
  unfolding consume_token
  consume_token-accepted at s token e r a =
      rw ((admit_iff at s token e r).1 a)
        (refl, λ j. get-put (sha256 token) j (use_once r) s.records)

  module _ (at : ℕ) (s : Registry) (token : Text) (e : Expected)
      (refused : (r : TokenRecord) → ¬ IsAccepted at s token e r) where
    admit-refused : (x : TokenError) × (admit sha256 at s (some token) e ≡ err x)
    admit-refused = elim (Result-cases (admit sha256 at s (some token) e)) [
      | inl ((h, r), p) ↦
          absurd (refused r ((admit_iff at s token e r).0 (rw (← admit-hash at s token e h r p) p)))
      | inr (x, p) ↦ (x, p)
    ]

    -- A token that is not accepted makes `consumeToken` and `validateToken` throw, and neither
    -- changes a record.
    pub refused_outcome :
        (x : TokenError) × ((consume_token sha256 at s (some token) e).0 ≡ err x)
        × ((consume_token sha256 at s (some token) e).1.records ≡ s.records)
        × ((validate_token sha256 at s (some token) e).0 ≡ err x)
        × ((validate_token sha256 at s (some token) e).1.records ≡ s.records)
    unfolding consume_token validate_token
    refused_outcome = let (x, p) = admit-refused in (x, rw p, rw p, rw p, rw p)

  prepare-new :
      (at : ℕ) (s : Registry) (req : Request) (fresh value : Text) (r : TokenRecord)
      → prepare sha256 at s req fresh ≡ ok (value, r)
      → (r.revoked ≡ false) × (r.used ≡ 0) × (0 < r.max_uses)
  unfolding prepare
  prepare-new at s req fresh value r h = ground arith

  issued-fields :
      (value : Text) (r : TokenRecord) (i : Issued)
      → issued value r ≡ ok i
      → (i.token ≡ value) × (i.record_copy ≡ r) × (i.expires_at ≡ r.expires_at)
  issued-fields value r i h = ground arith

  issue-record :
      (at : ℕ) (s : Registry) (req : Request) (fresh : Text) (i : Issued)
      → (issue_token sha256 at s req fresh).0 ≡ ok i
      → (get (sha256 i.token) (issue_token sha256 at s req fresh).1.records ≡ some i.record_copy)
        × (i.record_copy.revoked ≡ false)
        × (i.record_copy.used ≡ 0)
        × (0 < i.record_copy.max_uses)
        × (i.record_copy.expires_at ≡ i.expires_at)
  unfolding issue_token
  issue-record at s req fresh i h = elim (Result-cases (prepare sha256 at s req fresh)) [
    | inl ((value, r), p) ↦
        let (token, copied, expiry) = issued-fields value r i (rw p at h) in
        let (live, unused, some_uses) = prepare-new at s req fresh value r p in
        rw (p, token, copied, expiry)
          (get-put_self (sha256 value) r s.records, live, unused, some_uses, refl)
    | inr (x, p) ↦ let impossible = rw p at h in cc
  ]

  -- A token that `issueToken` has returned, of a length that can be looked up, is accepted by
  -- `validateToken` until it expires, with every expectation that its record meets, and the answer
  -- is the record that was issued.
  pub validate-issue :
      (at later : ℕ) (s : Registry) (req : Request) (fresh : Text) (e : Expected) (i : Issued)
      → (issue_token sha256 at s req fresh).0 ≡ ok i
      → assert_token_value (some i.token) ≡ ok i.token
      → later < i.expires_at
      → Matches i.record_copy e
      → (validate_token sha256 later (issue_token sha256 at s req fresh).1 (some i.token) e).0
        ≡ ok i.record_copy
  unfolding validate_token
  validate-issue at later s req fresh e i h sized early bound =
      let (known, live, unused, some_uses, expiry) = issue-record at s req fresh i h in
      rw (
        (admit_iff later (issue_token sha256 at s req fresh).1 i.token e i.record_copy).1 (record {
          well_sized = sized;
          known = known;
          admitted = record {
            usable = record { live = live; early = rw expiry early; fresh = rw unused some_uses };
            bound = bound;
          };
        }))

sweep-length : (at : ℕ) (m : Table TokenRecord) → (sweep at m).0 + length (sweep at m).1 ≡ length m
unfolding sweep
sweep-length at [] = refl
sweep-length at ((h, r) ∷ m) = ground (arith, sweep-length at m)

-- `cleanupExpired` drops exactly the records whose expiry has come, and returns how many.
pub cleanup_expired_outcome :
    (at : ℕ) (s : Registry)
    → IsUnique s.records
    → ((cleanup_expired at s).0 + size (cleanup_expired at s).1 ≡ size s)
      × ((hash : Text)
          → get hash (cleanup_expired at s).1.records
            ≡ keep_if (λ r. ltb at r.expires_at) (get hash s.records))
unfolding cleanup_expired size
cleanup_expired_outcome at s u = (
  sweep-length at s.records,
  λ hash. rw sweep-eq-retain (get-retain (λ r. ltb at r.expires_at) hash s.records u),
)
