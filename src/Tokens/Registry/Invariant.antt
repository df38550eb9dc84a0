-- ===== src/Tokens/Registry/Invariant.antt =====
-- The invariant of the registry, which every operation keeps.
use slaif_connect.Base.{
  ℕ, ◌+◌, ◌≤◌, ◌<◌, ◌≡◌, refl, true, Option, none, some, List, [], ◌∷◌, Text, lit, arith, includes,
  starts_with, text_eq_iff, Bool-cases, ltb, ok, Result-cases, inl, inr, Option-cases,
}
use slaif_connect.Base.Table.{
  Table, get, put, IsUnique, Values, put-IsUnique, put-Values, retain, retain-IsUnique,
  retain-Values, get-Values,
}
use slaif_connect.Tokens.Types.{
  TokenRecord, Expected, Request, token_scopes, assert_scope, token_value,
}
use slaif_connect.Tokens.Check.{check_record, check_record_iff}
use slaif_connect.Tokens.Registry.{
  Registry, empty, prepare, admit, issue_token, validate_token, consume_token, revoke_token, sweep,
  cleanup_expired, find_fingerprint, revocable, Call, issue, validate, consume, revoke, cleanup,
  step, run,
}

pub record IsSound (r : TokenRecord) : Type 0 where
  pub within : r.used ≤ r.max_uses
  pub positive : 1 ≤ r.max_uses
  pub bounded : r.max_uses ≤ 1000
  pub scoped : includes token_scopes r.scope ≡ true
  pub lasting : r.created_at < r.expires_at

pub record IsWellFormed (s : Registry) : Type 0 where
  pub unique : IsUnique s.records
  pub sound : Values IsSound s.records

module _ (sha256 : Text → Text) where
  prepare-IsSound :
      (at : ℕ) (s : Registry) (req : Request) (fresh value : Text) (r : TokenRecord)
      → prepare sha256 at s req fresh ≡ ok (value, r)
      → IsSound r
  unfolding prepare assert_scope
  prepare-IsSound at s req fresh value r h = ground arith

  pub prepare-fresh :
      (at : ℕ) (s : Registry) (req : Request) (fresh value : Text) (r : TokenRecord)
      → prepare sha256 at s req fresh ≡ ok (value, r)
      → (value ≡ token_value req.token fresh) × (get (sha256 value) s.records ≡ none)
  unfolding prepare
  prepare-fresh at s req fresh value r h = ground arith

  pub admit-found :
      (at : ℕ) (s : Registry) (token : Option Text) (e : Expected) (h : Text) (r : TokenRecord)
      → admit sha256 at s token e ≡ ok (h, r)
      → (get h s.records ≡ some r) × (check_record at r e ≡ ok tt)
  unfolding admit
  admit-found at s token e h r p = ground arith

  put-IsWellFormed :
      (s t : Registry) (h : Text) (r : TokenRecord)
      → IsWellFormed s
      → IsSound r
      → t.records ≡ put h r s.records
      → IsWellFormed t
  put-IsWellFormed s t h r w p e = record {
    unique = rw e (put-IsUnique h r s.records w.unique);
    sound = rw e (put-Values IsSound h r s.records p w.sound);
  }

  use_once-IsSound :
      (at : ℕ) (r : TokenRecord) (e : Expected)
      → IsSound r
      → check_record at r e ≡ ok tt
      → IsSound (record r { used = r.used + 1 })
  use_once-IsSound at r e p c = let a = (check_record_iff at r e).0 c in ground arith

  issue_token-IsWellFormed :
      (at : ℕ) (s : Registry) (req : Request) (fresh : Text)
      → IsWellFormed s
      → IsWellFormed (issue_token sha256 at s req fresh).1
  unfolding issue_token
  issue_token-IsWellFormed at s req fresh w = elim (Result-cases (prepare sha256 at s req fresh)) [
    | inl ((value, r), e) ↦
        rw e (put-IsWellFormed s _ _ r w (prepare-IsSound at s req fresh value r e) refl)
    | inr (_, e) ↦ rw e w
  ]

  validate_token-IsWellFormed :
      (at : ℕ) (s : Registry) (token : Option Text) (e : Expected)
      → IsWellFormed s
      → IsWellFormed (validate_token sha256 at s token e).1
  unfolding validate_token
  validate_token-IsWellFormed at s token e w = elim (Result-cases (admit sha256 at s token e)) [
    | inl (found, p) ↦ rw p (record { unique = w.unique; sound = w.sound })
    | inr (_, p) ↦ rw p (record { unique = w.unique; sound = w.sound })
  ]

  consume_token-IsWellFormed :
      (at : ℕ) (s : Registry) (token : Option Text) (e : Expected)
      → IsWellFormed s
      → IsWellFormed (consume_token sha256 at s token e).1
  unfolding consume_token
  consume_token-IsWellFormed at s token e w = elim (Result-cases (admit sha256 at s token e)) [
    | inl ((h, r), p) ↦
        let (found, checked) = admit-found at s token e h r p in
        let sound = get-Values IsSound h s.records r w.sound found in
        rw p (put-IsWellFormed s _ h _ w (use_once-IsSound at r e sound checked) refl)
    | inr (_, p) ↦ rw p (record { unique = w.unique; sound = w.sound })
  ]

  find_fingerprint-found :
      (fp h : Text) (m : Table TokenRecord) (r : TokenRecord)
      → IsUnique m
      → find_fingerprint fp m ≡ some (h, r)
      → get h m ≡ some r
  unfolding find_fingerprint get
  find_fingerprint-found fp h [] r u e = cc
  find_fingerprint-found fp h ((j, q) ∷ m) r u e =
      ground (arith, text_eq_iff j h, find_fingerprint-found fp h m r u.1)

  -- What `revokeToken` finds is an entry of the map.
  pub revocable-found :
      (s : Registry) (token h : Text) (r : TokenRecord)
      → IsUnique s.records
      → revocable sha256 s token ≡ some (h, r)
      → get h s.records ≡ some r
  unfolding revocable
  revocable-found s token h r u e = elim (Bool-cases (starts_with token (lit "sha256:"))) [
    | inl fp ↦ find_fingerprint-found token h s.records r u (ground arith)
    | inr raw ↦ elim (Option-cases (get (sha256 token) s.records)) [
      | inl missing ↦ find_fingerprint-found token h s.records r u (ground arith)
      | inr (q, there) ↦ ground arith
    ]
  ]

  pub revoke_token-IsWellFormed :
      (s : Registry) (token : Option Text)
      → IsWellFormed s
      → IsWellFormed (revoke_token sha256 s token).1
  unfolding revoke_token
  revoke_token-IsWellFormed s none w = w
  revoke_token-IsWellFormed s (some []) w = w
  revoke_token-IsWellFormed s (some (c ∷ t)) w = elim (Option-cases (revocable sha256 s (c ∷ t))) [
    | inl e ↦ rw e w
    | inr ((h, r), e) ↦
        let found = revocable-found s (c ∷ t) h r w.unique e in
        let p = get-Values IsSound h s.records r w.sound found in
        rw e (put-IsWellFormed s _ h _ w (ground arith) refl)
  ]

-- The loop of `cleanupExpired` keeps the records whose expiry is still to come.
pub sweep-eq-retain :
    (at : ℕ) (m : Table TokenRecord) → (sweep at m).1 ≡ retain (λ r. ltb at r.expires_at) m
unfolding sweep retain
sweep-eq-retain at [] = refl
sweep-eq-retain at ((h, r) ∷ m) = ground (arith, sweep-eq-retain at m)

module _ (sha256 : Text → Text) where
  cleanup_expired-IsWellFormed :
      (at : ℕ) (s : Registry) → IsWellFormed s → IsWellFormed (cleanup_expired at s).1
  unfolding cleanup_expired
  cleanup_expired-IsWellFormed at s w = record {
    unique = rw sweep-eq-retain (retain-IsUnique _ s.records w.unique);
    sound = rw sweep-eq-retain (retain-Values IsSound _ s.records w.sound);
  }

  pub step-IsWellFormed :
      (s : Registry) (c : Call) → IsWellFormed s → IsWellFormed (step sha256 s c)
  unfolding step
  step-IsWellFormed s (issue at req fresh) w = issue_token-IsWellFormed sha256 at s req fresh w
  step-IsWellFormed s (validate at token e) w = validate_token-IsWellFormed sha256 at s token e w
  step-IsWellFormed s (consume at token e) w = consume_token-IsWellFormed sha256 at s token e w
  step-IsWellFormed s (revoke token) w = revoke_token-IsWellFormed sha256 s token w
  step-IsWellFormed s (cleanup at) w = cleanup_expired-IsWellFormed at s w

  pub run-IsWellFormed :
      (s : Registry) (cs : List Call) → IsWellFormed s → IsWellFormed (run sha256 s cs)
  unfolding run
  run-IsWellFormed s [] w = w
  run-IsWellFormed s (c ∷ cs) w = run-IsWellFormed (step sha256 s c) cs (step-IsWellFormed s c w)

  -- After any history of calls, the hashes are distinct, and each record has between one and a
  -- thousand uses, of which it has used no more than it has, a scope of the program, and an expiry
  -- after its creation.
  pub run-empty-IsWellFormed : (cs : List Call) → IsWellFormed (run sha256 empty cs)
  run-empty-IsWellFormed cs = run-IsWellFormed empty cs (record { unique = tt; sound = tt })
