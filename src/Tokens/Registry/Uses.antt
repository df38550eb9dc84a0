-- ===== src/Tokens/Registry/Uses.antt =====
-- How often a token can be consumed, over histories of calls.
use slaif_connect.Base.{
  ℕ, ◌+◌, ◌-◌, ◌≤◌, ◌≡◌, ◌≢◌, refl, sym, ap, ◌∙◌, true, Option, none, some, List, [], ◌∷◌, Text,
  arith, text_eq, text_eq_iff, ltb, Result, ok, err, Result-cases, inl, inr, Option-cases,
  if◌then◌else◌, All,
}
use slaif_connect.Base.Table.{Table, get, get-put, get-retain, IsUnique}
use slaif_connect.Tokens.Types.{
  TokenError, TokenRecord, Expected, Request, token_value, assert_token_value,
}
use slaif_connect.Tokens.Check.{check_record_iff}
use slaif_connect.Tokens.Registry.{
  Registry, prepare, admit, issue_token, validate_token, consume_token, revoke_token,
  cleanup_expired, revocable, lookup, Call, issue, validate, consume, revoke, cleanup, step,
  use_once,
}
use slaif_connect.Tokens.Registry.Invariant.{
  IsWellFormed, admit-found, prepare-fresh, revocable-found, sweep-eq-retain, step-IsWellFormed,
}

-- The uses that a record, if there is one, has left.
abbrev pub uses_of : Option TokenRecord → ℕ
uses_of none = 0
uses_of (some r) = r.max_uses - r.used

abbrev pub uses_left : Registry → Text → ℕ
uses_left s hash = uses_of (get hash s.records)

module _ (sha256 : Text → Text) where
  -- The call does not issue the token with this hash.
  abbrev pub IssuesOther : Text → Call → Type 0
  IssuesOther hash (issue at req fresh) = sha256 (token_value req.token fresh) ≢ hash
  IssuesOther hash _ = Unit

  -- 1 for an answer that is a record, and 0 for one that is thrown
  abbrev succeeded : Result TokenError TokenRecord → ℕ
  succeeded (ok r) = 1
  succeeded (err e) = 0

  -- 1 if the call is a `consumeToken` of the token with this hash that answers with a record, and 0
  -- otherwise; a value that is no string has no hash.
  unfoldable pub consumes : Text → Registry → Call → ℕ
  consumes hash s (consume at (some token) expected) =
      if text_eq (sha256 token) hash
      then succeeded (consume_token sha256 at s (some token) expected).0
      else 0
  consumes hash s _ = 0

  -- How often a history consumes the token with this hash.
  unfoldable pub consumptions : Text → Registry → List Call → ℕ
  unfolding consumes
  consumptions hash s [] = 0
  consumptions hash s (c ∷ cs) = consumes hash s c + consumptions hash (step sha256 s c) cs

  issue-uses :
      (hash : Text) (s : Registry) (at : ℕ) (req : Request) (fresh : Text)
      → IssuesOther hash (issue at req fresh)
      → uses_left (issue_token sha256 at s req fresh).1 hash ≤ uses_left s hash
  unfolding issue_token
  issue-uses hash s at req fresh other = elim (Result-cases (prepare sha256 at s req fresh)) [
    | inl ((value, r), e) ↦
        let (same, missing) = prepare-fresh sha256 at s req fresh value r e in
        let apart : sha256 value ≢ hash = λ p. other (ap sha256 (sym same) ∙ p) in
        rw e
          (ground (arith, get-put (sha256 value) hash r s.records, text_eq_iff (sha256 value) hash))
    | inr (_, e) ↦ rw e (omega arith)
  ]

  admit-sha256 :
      (at : ℕ) (s : Registry) (token : Text) (e : Expected) (h : Text) (r : TokenRecord)
      → admit sha256 at s (some token) e ≡ ok (h, r)
      → h ≡ sha256 token
  unfolding admit lookup assert_token_value
  admit-sha256 at s token e h r p = ground arith

  consume-uses :
      (hash : Text) (s : Registry) (at : ℕ) (token : Text) (e : Expected)
      → consumes hash s (consume at (some token) e)
          + uses_left (consume_token sha256 at s (some token) e).1 hash
        ≤ uses_left s hash
  unfolding consumes consume_token
  consume-uses hash s at token e = elim (Result-cases (admit sha256 at s (some token) e)) [
    | inl ((h, r), p) ↦
        let (found, checked) = admit-found sha256 at s (some token) e h r p in
        let usable = ((check_record_iff at r e).0 checked).usable in
        let same = admit-sha256 at s token e h r p in
        rw (p, ← same) (ground (arith, get-put h hash (use_once r) s.records, text_eq_iff h hash))
    | inr (_, p) ↦ rw p (ground arith)
  ]

  -- A value that is no string is refused, and no record changes.
  consume-none :
      (s : Registry) (at : ℕ) (e : Expected)
      → (consume_token sha256 at s none e).1.records ≡ s.records
  unfolding consume_token admit lookup assert_token_value
  consume-none s at e = refl

  revoke-uses :
      (hash : Text) (s : Registry) (token : Option Text)
      → IsUnique s.records
      → uses_left (revoke_token sha256 s token).1 hash ≤ uses_left s hash
  unfolding revoke_token
  revoke-uses hash s none u = omega arith
  revoke-uses hash s (some []) u = omega arith
  revoke-uses hash s (some (c ∷ t)) u = elim (Option-cases (revocable sha256 s (c ∷ t))) [
    | inl e ↦ rw e (omega arith)
    | inr ((h, r), e) ↦
        let found = revocable-found sha256 s (c ∷ t) h r u e in
        rw e (
          ground
            (arith, get-put h hash (record r { revoked = true }) s.records, text_eq_iff h hash))
  ]

  cleanup-uses :
      (hash : Text) (s : Registry) (at : ℕ)
      → IsUnique s.records
      → uses_left (cleanup_expired at s).1 hash ≤ uses_left s hash
  unfolding cleanup_expired
  cleanup-uses hash s at u =
      ground (
        arith,
        sweep-eq-retain at s.records,
        get-retain (λ r. ltb at r.expires_at) hash s.records u,
      )

  pub validate-records :
      (at : ℕ) (s : Registry) (token : Option Text) (e : Expected)
      → (validate_token sha256 at s token e).1.records ≡ s.records
  unfolding validate_token
  validate-records at s token e = elim (Result-cases (admit sha256 at s token e)) [
    | inl (_, p) ↦ rw p
    | inr (_, p) ↦ rw p
  ]

  step-uses :
      (hash : Text) (s : Registry) (c : Call)
      → IsUnique s.records
      → IssuesOther hash c
      → consumes hash s c + uses_left (step sha256 s c) hash ≤ uses_left s hash
  unfolding consumes step
  step-uses hash s (issue at req fresh) u other =
      omega (arith, issue-uses hash s at req fresh other)
  step-uses hash s (validate at token e) u other =
      omega (
        arith,
        ap (λ (m : Table TokenRecord). uses_of (get hash m)) (validate-records at s token e),
      )
  step-uses hash s (consume at (some token) e) u other = consume-uses hash s at token e
  step-uses hash s (consume at none e) u other =
      omega (arith, ap (λ (m : Table TokenRecord). uses_of (get hash m)) (consume-none s at e))
  step-uses hash s (revoke token) u other = omega (arith, revoke-uses hash s token u)
  step-uses hash s (cleanup at) u other = omega (arith, cleanup-uses hash s at u)

  -- From any well-formed registry, in a history that does not issue the token again, `consumeToken`
  -- answers with a record of it at most as often as its record has uses left, and never if there is
  -- no record of it.
  pub consumptions-le-uses_left :
      (hash : Text) (s : Registry) (cs : List Call)
      → IsWellFormed s
      → All (IssuesOther hash) cs
      → consumptions hash s cs ≤ uses_left s hash
  unfolding consumptions
  consumptions-le-uses_left hash s [] w other = omega arith
  consumptions-le-uses_left hash s (c ∷ cs) w other = omega (
    arith,
    step-uses hash s c w.unique other.0,
    consumptions-le-uses_left hash (step sha256 s c) cs (step-IsWellFormed sha256 s c w) other.1,
  )
