-- ===== src/Workload/TokenJob.antt =====
-- Which jobs a workload token of server/workloads/workload_token.js serves.
use slaif_connect.Base.{
  ℕ, ◌≡◌, refl, Bool, true, false, not, ◌&&◌, Option, Text, lit, Result, ok, err, ◌>>◌, reject,
  arith, ◌⊎◌, inl, inr,
}
use slaif_connect.Base.Value.{Value}
use slaif_connect.Tokens.Types.{TokenError, TokenRecord, Scalar, Expected, wrong}
use slaif_connect.Tokens.Check.{entry}
use slaif_connect.Tokens.Registry.{Registry, validate_token}
use slaif_connect.Workload.Token.{
  Failure, registry, Binding, same_value, is_bound, assert_job_binding_satisfied, expected_binding,
  check_job, validate_with, after_preflight, validate_workload_token, consume_workload_token,
}

-- The record is bound to no job, or to this one.
abbrev pub IsForJob : TokenRecord → Value → Type 0
IsForJob r job =
    (entry (lit "jobId") r.metadata ≡ Scalar.undef)
    ⊎ (same_value (entry (lit "jobId") r.metadata) job ≡ true)

unbound_or_same :
    (s : Scalar) (job : Value)
    → (is_bound s && not (same_value s job)) ≡ false
    → (s ≡ Scalar.undef) ⊎ (same_value s job ≡ true)
unbound_or_same Scalar.undef job h = inl refl
unbound_or_same Scalar.null job h = inr (ground arith)
unbound_or_same (Scalar.flag c) job h = inr (ground arith)
unbound_or_same (Scalar.count n) job h = inr (ground arith)
unbound_or_same (Scalar.text t) job h = inr (ground arith)

passed :
    (test : Bool) (e : Failure) (p r : TokenRecord)
    → (reject test e >> ok p) ≡ ok r
    → (test ≡ false) × (p ≡ r)
passed true e p r h = cc
passed false e p r h = (refl, ground arith)

module _ (sha256 : Text → Text) where
  check_job-IsForJob :
      (job : Value) (m : Result TokenError TokenRecord × Registry) (r : TokenRecord)
      → (check_job sha256 job m).0 ≡ ok r
      → IsForJob r job
  unfolding assert_job_binding_satisfied
  check_job-IsForJob job (err e, s) r h = cc
  check_job-IsForJob job (ok p, s) r h =
      let (free, same) =
        passed
          (is_bound (entry (lit "jobId") p.metadata)
            && not (same_value (entry (lit "jobId") p.metadata) job))
          (registry (wrong (lit "jobId"))) p r h in
      rw (← same) (unbound_or_same (entry (lit "jobId") p.metadata) job free)

  validate_with-IsForJob :
      (at : ℕ) (s : Registry) (token : Option Text) (job : Value) (e : Result Failure Expected)
      (r : TokenRecord)
      → (validate_with sha256 at s token job e).0 ≡ ok r
      → IsForJob r job
  validate_with-IsForJob at s token job (err x) r h = cc
  validate_with-IsForJob at s token job (ok e) r h =
      check_job-IsForJob job (validate_token sha256 at s token e) r h

  preflight_passed :
      (later : ℕ) (token : Option Text) (b : Binding) (m : Result Failure TokenRecord × Registry)
      (r : TokenRecord)
      → (after_preflight sha256 later token b m).0 ≡ ok r
      → (p : TokenRecord) × (m.0 ≡ ok p)
  preflight_passed later token b (err e, s) r h = cc
  preflight_passed later token b (ok p, s) r h = (p, refl)

  -- A workload token is consumed only if its preflight accepts a record that is bound to no job or to
  -- the very job that the caller expects: a token of a job is refused for another job, and for a
  -- caller that names none.
  pub consume_workload_token-IsForJob :
      (now later : ℕ) (s : Registry) (token : Option Text) (b : Binding) (r : TokenRecord)
      → (consume_workload_token sha256 now later s token b).0 ≡ ok r
      → (p : TokenRecord) × ((validate_workload_token sha256 now s token b).0 ≡ ok p)
        × IsForJob p b.job_id
  unfolding consume_workload_token validate_workload_token
  consume_workload_token-IsForJob now later s token b r h =
      let (p, e) =
        preflight_passed later token b (validate_workload_token sha256 now s token b) r h in
      (p, e, validate_with-IsForJob now s token b.job_id (expected_binding b) p e)
