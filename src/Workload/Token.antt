-- ===== src/Workload/Token.antt =====
-- server/workloads/workload_token.js over the memory registry: tokens of a workload, which are bound
-- to a session, a host, a payload and perhaps a job.
use slaif_connect.Base.{
  ℕ, Bool, true, false, not, ◌&&◌, Option, none, some, [], ◌∷◌, Text, lit, text_eq, ◌==◌, is_word,
  is_digit, to_lower, class_match, prefix_match, Result, ok, err, ◌>>=◌, ◌>>◌, reject,
}
use slaif_connect.Base.Table.{Table, put}
use slaif_connect.Base.Value.{text_of, Value, Number, undef, null, bool, num, str, int, pos}
use slaif_connect.Tokens.Types.{
  TokenError, TokenRecord, Scalar, Request, Expected, entries, workload_scope, invalid, wrong,
}
use slaif_connect.Tokens.Check.{entry}
use slaif_connect.Tokens.Registry.{Registry, Issued, issue_token, validate_token, consume_token}
use slaif_connect.Workload.Fields.{validate_payload_id}

-- What is thrown: a `WorkloadProtocolError` by its code, or a `TokenRegistryError`.
pub data Failure : Type 0 where
  protocol : Text → Failure
  registry : TokenError → Failure

abbrev from_protocol : {A : Type 0} → Result Text A → Result Failure A
from_protocol (ok a) = ok a
from_protocol (err e) = err (protocol e)

abbrev from_registry : {A : Type 0} → Result TokenError A → Result Failure A
from_registry (ok a) = ok a
from_registry (err e) = err (registry e)

unfoldable pub workload_session_id : Value → Result TokenError Text
workload_session_id (str s) =
    reject (not (prefix_match (lit "sess_") is_word 8 128 s)) (invalid (lit "sessionId")) >> ok s
workload_session_id _ = err (invalid (lit "sessionId"))

unfoldable pub workload_hpc : Value → Result TokenError Text
workload_hpc (str s) =
    reject (not (class_match is_word 1 64 s)) (invalid (lit "hpc")) >> ok (to_lower s)
workload_hpc _ = err (invalid (lit "hpc"))

-- `validateJobId`, whose callers here never require a job
unfoldable pub workload_job_id : Value → Result TokenError (Option Text)
workload_job_id undef = ok none
workload_job_id null = ok none
workload_job_id (str []) = ok none
workload_job_id (str (c ∷ s)) =
    reject (not (class_match is_digit 1 32 (c ∷ s))) (invalid (lit "jobId")) >> ok (some (c ∷ s))
workload_job_id _ = err (invalid (lit "jobId"))

pub record Binding : Type 0 where
  pub session_id : Value
  pub hpc : Value
  pub payload_id : Value
  pub job_id : Value

-- The metadata with the payload and, if there is one, the job
abbrev bound_metadata : Table Scalar → Text → Option Text → Table Scalar
bound_metadata m payload none = put (lit "payloadId") (Scalar.text payload) m
bound_metadata m payload (some job) =
    put (lit "jobId") (Scalar.text job) (put (lit "payloadId") (Scalar.text payload) m)

unfoldable pub expected_binding : Binding → Result Failure Expected
expected_binding b = do
  from_protocol (validate_payload_id b.payload_id)
  job ← from_registry (workload_job_id b.job_id)
  session_id ← from_registry (workload_session_id b.session_id)
  hpc ← from_registry (workload_hpc b.hpc)
  ok (record {
    scope = some workload_scope;
    session_id = some session_id;
    hpc = some hpc;
    origin = none;
    metadata = entries (bound_metadata [] (text_of b.payload_id) job);
  })

-- `boundJobId === expected.jobId`
unfoldable pub same_value : Scalar → Value → Bool
same_value (Scalar.text s) (str t) = text_eq s t
same_value (Scalar.flag true) (bool c) = c
same_value (Scalar.flag false) (bool c) = not c
same_value (Scalar.count n) (num (int (pos k))) = n == k
same_value Scalar.null null = true
same_value Scalar.undef undef = true
same_value _ _ = false

abbrev pub is_bound : Scalar → Bool
is_bound Scalar.undef = false
is_bound _ = true

unfoldable pub assert_job_binding_satisfied : TokenRecord → Value → Result Failure (Unit {0})
assert_job_binding_satisfied r job =
    reject
      (is_bound (entry (lit "jobId") r.metadata)
        && not (same_value (entry (lit "jobId") r.metadata) job))
      (registry (wrong (lit "jobId")))

-- What the caller of `issueWorkloadToken` gives besides the binding
pub record Grant : Type 0 where
  pub origin : Value
  pub ttl_ms : Number
  pub max_uses : Value
  pub metadata : Table Scalar
  pub token : Option Text

unfoldable pub workload_request : Binding → Grant → Result Failure Request
workload_request b g = do
  from_protocol (validate_payload_id b.payload_id)
  job ← from_registry (workload_job_id b.job_id)
  session_id ← from_registry (workload_session_id b.session_id)
  hpc ← from_registry (workload_hpc b.hpc)
  ok (record {
    scope = workload_scope;
    session_id = str session_id;
    hpc = str hpc;
    origin = g.origin;
    ttl_ms = g.ttl_ms;
    max_uses = g.max_uses;
    metadata = bound_metadata g.metadata (text_of b.payload_id) job;
    token = g.token;
  })

abbrev value_of : Scalar → Value
value_of Scalar.undef = undef
value_of Scalar.null = null
value_of (Scalar.flag c) = bool c
value_of (Scalar.count n) = num (int (pos n))
value_of (Scalar.text s) = str s

-- `bound ?? expected`
abbrev or_expected : Scalar → Value → Value
or_expected Scalar.undef job = job
or_expected Scalar.null job = job
or_expected s job = value_of s

module _ (sha256 : Text → Text) where
  abbrev issue_with :
      ℕ → Registry → Text → Result Failure Request → Result Failure Issued × Registry
  issue_with at s fresh (err e) = (err e, s)
  issue_with at s fresh (ok r) =
      (from_registry (issue_token sha256 at s r fresh).0, (issue_token sha256 at s r fresh).1)

  unfoldable pub issue_workload_token :
      ℕ → Registry → Binding → Grant → Text → Result Failure Issued × Registry
  issue_workload_token at s b g fresh = issue_with at s fresh (workload_request b g)

  abbrev pub check_job :
      Value → Result TokenError TokenRecord × Registry → Result Failure TokenRecord × Registry
  check_job job (ok r, s) = (assert_job_binding_satisfied r job >> ok r, s)
  check_job job (err e, s) = (err (registry e), s)

  abbrev pub validate_with :
      ℕ
      → Registry
      → Option Text
      → Value
      → Result Failure Expected
      → Result Failure TokenRecord × Registry
  validate_with at s token job (err e) = (err e, s)
  validate_with at s token job (ok e) = check_job job (validate_token sha256 at s token e)

  unfoldable pub validate_workload_token :
      ℕ → Registry → Option Text → Binding → Result Failure TokenRecord × Registry
  validate_workload_token at s token b = validate_with at s token b.job_id (expected_binding b)

  abbrev consume_with :
      ℕ → Registry → Option Text → Result Failure Expected → Result Failure TokenRecord × Registry
  consume_with at s token (err e) = (err e, s)
  consume_with at s token (ok e) =
      (from_registry (consume_token sha256 at s token e).0, (consume_token sha256 at s token e).1)

  -- `now` is what the clock reads at the preflight, `later` when the token is consumed.
  abbrev pub after_preflight :
      ℕ
      → Option Text
      → Binding
      → Result Failure TokenRecord × Registry
      → Result Failure TokenRecord × Registry
  after_preflight later token b (err e, s) = (err e, s)
  after_preflight later token b (ok r, s) = consume_with later s token (
      expected_binding
        (record b { job_id = or_expected (entry (lit "jobId") r.metadata) b.job_id }))

  unfoldable pub consume_workload_token :
      ℕ → ℕ → Registry → Option Text → Binding → Result Failure TokenRecord × Registry
  consume_workload_token now later s token b =
      after_preflight later token b (validate_workload_token now s token b)
