-- ===== src/Tokens/Registry/Revocation.antt =====
-- A revoked token stays unusable, whatever calls follow.
use slaif_connect.Base.{
  ℕ, ◌≡◌, ◌≢◌, refl, sym, ap, ◌∙◌, true, Option, none, some, List, [], ◌∷◌, Text, arith, text_eq,
  text_eq_iff, Bool-cases, ltb, err, Result-cases, inl, inr, Option-cases, All,
}
use slaif_connect.Base.Table.{Table, get, put, get-put, get-put_self, get-retain, IsUnique}
use slaif_connect.Tokens.Types.{TokenError, TokenRecord, Expected, Request}
use slaif_connect.Tokens.Registry.{
  Registry, prepare, admit, issue_token, validate_token, consume_token, revoke_token,
  cleanup_expired, revocable, Call, issue, validate, consume, revoke, cleanup, step, run, use_once,
}
use slaif_connect.Tokens.Registry.Invariant.{
  IsWellFormed, revoke_token-IsWellFormed, admit-found, prepare-fresh, sweep-eq-retain,
  step-IsWellFormed,
}
use slaif_connect.Tokens.Registry.Uses.{IssuesOther, validate-records}
use slaif_connect.Tokens.Registry.Outcomes.{IsAccepted, refused_outcome}

-- There is no record, or a revoked one.
abbrev pub Dead : Option TokenRecord → Type 0
Dead none = Unit
Dead (some r) = r.revoked ≡ true

abbrev pub IsDead : Registry → Text → Type 0
IsDead s hash = Dead (get hash s.records)

module _ (sha256 : Text → Text) where
  put-Dead :
      (hash h : Text) (q : TokenRecord) (m : Table TokenRecord)
      → (text_eq h hash ≡ true → q.revoked ≡ true)
      → Dead (get hash m)
      → Dead (get hash (put h q m))
  put-Dead hash h q m revoked d = rw (get-put h hash q m) (elim (Bool-cases (text_eq h hash)) [
    | inl same ↦ rw same (revoked same)
    | inr other ↦ rw other d
  ])

  issue-IsDead :
      (hash : Text) (s : Registry) (at : ℕ) (req : Request) (fresh : Text)
      → IssuesOther sha256 hash (issue at req fresh)
      → IsDead s hash
      → IsDead (issue_token sha256 at s req fresh).1 hash
  unfolding issue_token
  issue-IsDead hash s at req fresh other d = elim (Result-cases (prepare sha256 at s req fresh)) [
    | inl ((value, r), p) ↦
        let (same, missing) = prepare-fresh sha256 at s req fresh value r p in
        rw p (
          put-Dead hash (sha256 value) r s.records
            (λ e. absurd (other (ap sha256 (sym same) ∙ (text_eq_iff (sha256 value) hash).0 e))) d)
    | inr (_, p) ↦ rw p d
  ]

  consume-IsDead :
      (hash : Text) (s : Registry) (at : ℕ) (token : Option Text) (e : Expected)
      → IsDead s hash
      → IsDead (consume_token sha256 at s token e).1 hash
  unfolding consume_token
  consume-IsDead hash s at token e d = elim (Result-cases (admit sha256 at s token e)) [
    | inl ((h, r), p) ↦
        let (found, checked) = admit-found sha256 at s token e h r p in
        rw p (put-Dead hash h (use_once r) s.records (λ same. ground (arith, text_eq_iff h hash)) d)
    | inr (_, p) ↦ rw p d
  ]

  revoke-IsDead :
      (hash : Text) (s : Registry) (token : Option Text)
      → IsDead s hash
      → IsDead (revoke_token sha256 s token).1 hash
  unfolding revoke_token
  revoke-IsDead hash s none d = d
  revoke-IsDead hash s (some []) d = d
  revoke-IsDead hash s (some (c ∷ t)) d = elim (Option-cases (revocable sha256 s (c ∷ t))) [
    | inl p ↦ rw p d
    | inr ((h, r), p) ↦ rw p (put-Dead hash h (record r { revoked = true }) s.records (λ _. refl) d)
  ]

  cleanup-IsDead :
      (hash : Text) (s : Registry) (at : ℕ)
      → IsUnique s.records
      → IsDead s hash
      → IsDead (cleanup_expired at s).1 hash
  unfolding cleanup_expired
  cleanup-IsDead hash s at u d =
      ground (
        arith,
        sweep-eq-retain at s.records,
        get-retain (λ r. ltb at r.expires_at) hash s.records u,
      )

  step-IsDead :
      (hash : Text) (s : Registry) (c : Call)
      → IsUnique s.records
      → IssuesOther sha256 hash c
      → IsDead s hash
      → IsDead (step sha256 s c) hash
  unfolding step
  step-IsDead hash s (issue at req fresh) u other d = issue-IsDead hash s at req fresh other d
  step-IsDead hash s (validate at token e) u other d = rw validate-records d
  step-IsDead hash s (consume at token e) u other d = consume-IsDead hash s at token e d
  step-IsDead hash s (revoke token) u other d = revoke-IsDead hash s token d
  step-IsDead hash s (cleanup at) u other d = cleanup-IsDead hash s at u d

  run-IsDead :
      (hash : Text) (s : Registry) (cs : List Call)
      → IsWellFormed s
      → All (IssuesOther sha256 hash) cs
      → IsDead s hash
      → IsDead (run sha256 s cs) hash
  unfolding run
  run-IsDead hash s [] w other d = d
  run-IsDead hash s (c ∷ cs) w other d =
      run-IsDead hash (step sha256 s c) cs (step-IsWellFormed sha256 s c w) other.1
        (step-IsDead hash s c w.unique other.0 d)

  dead_refuses :
      (at : ℕ) (s : Registry) (token : Text) (e : Expected) (r : TokenRecord)
      → IsDead s (sha256 token)
      → ¬ IsAccepted sha256 at s token e r
  dead_refuses at s token e r d a =
      let known = a.known in let live = a.admitted.usable.live in ground arith

  revoked-IsDead :
      (s : Registry) (text token : Text) (r : TokenRecord)
      → text ≢ []
      → revocable sha256 s text ≡ some (sha256 token, r)
      → IsDead (revoke_token sha256 s (some text)).1 (sha256 token)
  unfolding revoke_token
  revoked-IsDead s [] token r full p = absurd (full refl)
  revoked-IsDead s (c ∷ t) token r full p =
      rw (p, get-put_self (sha256 token) (record r { revoked = true }) s.records) refl

  -- Once `revokeToken` has found the record of a token, by the token or by its fingerprint, no
  -- `consumeToken` and no `validateToken` of the token succeeds, after any history of calls that
  -- does not issue it again, at any time and with any expectation.
  pub revoked_for_good :
      (s : Registry) (text token : Text) (r : TokenRecord) (cs : List Call) (at : ℕ) (e : Expected)
      → IsWellFormed s
      → text ≢ []
      → revocable sha256 s text ≡ some (sha256 token, r)
      → All (IssuesOther sha256 (sha256 token)) cs
      → let t = run sha256 (revoke_token sha256 s (some text)).1 cs in
        (x : TokenError) × ((consume_token sha256 at t (some token) e).0 ≡ err x)
        × ((validate_token sha256 at t (some token) e).0 ≡ err x)
  revoked_for_good s text token r cs at e w full p other =
      let dead =
        run-IsDead (sha256 token) (revoke_token sha256 s (some text)).1 cs
          (revoke_token-IsWellFormed sha256 s (some text) w) other
          (revoked-IsDead s text token r full p) in
      let (x, c, _, v, _) =
        refused_outcome sha256 at (run sha256 (revoke_token sha256 s (some text)).1 cs) token e
          (λ q. dead_refuses at _ token e q dead) in
      (x, c, v)
