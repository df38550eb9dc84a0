-- ===== src/Tokens/Tests.antt =====
-- The registry at concrete inputs. The hash is the identity here.
use slaif_connect.Base.{
  ◌≤◌, ◌≡◌, ◌↔◌, refl, ◌+◌, false, none, some, List, [], ◌∷◌, Text, lit, arith, text_eq, ok, err,
  includes, starts_with, ltb, if◌then◌else◌,
}
use slaif_connect.Base.Table.{get, put, keep_if}
use slaif_connect.Base.Value.{Value, Number, ℤ}
use slaif_connect.Tokens.Types.{
  TokenError, TokenRecord, Expected, absent, Request, token_value, assert_token_value, assert_scope,
  assert_binding_value, safe_fingerprint, relay_scope,
}
use slaif_connect.Tokens.Check.{
  check_record, check_record_iff, agrees, check_metadata, Admits, Matches,
}
use slaif_connect.Tokens.Registry.{
  Registry, Issued, empty, issue_token, prepare, admit, validate_token, consume_token, revoke_token,
  revocable, cleanup_expired, size, Call, issue, consume, cleanup, step, run, use_once,
}
use slaif_connect.Tokens.Registry.Invariant.{IsWellFormed, run-empty-IsWellFormed}
use slaif_connect.Tokens.Registry.Uses.{consumptions, uses_left, consumptions-le-uses_left}
use slaif_connect.Tokens.Registry.Outcomes.{
  IsAccepted, consume_token-accepted, refused_outcome, validate-issue, cleanup_expired_outcome,
}
use slaif_connect.Tokens.Registry.Revocation.{revoked_for_good}

abbrev pub plain : Text → Text
plain s = s

abbrev pub sample_token : Text
sample_token = lit "slaif_tok_sample"

abbrev pub sample_request : Request
sample_request = record {
  scope = relay_scope;
  session_id = Value.str (lit "sess_abcdefgh");
  hpc = Value.str (lit "vegahpc");
  origin = Value.undef;
  ttl_ms = Number.int (ℤ.pos 60000);
  max_uses = Value.num (Number.int (ℤ.pos 1));
  metadata = [];
  token = some sample_token;
}

abbrev pub sample_record : TokenRecord
sample_record = record {
  scope = relay_scope;
  session_id = some (lit "sess_abcdefgh");
  hpc = some (lit "vegahpc");
  origin = none;
  created_at = 1000;
  expires_at = 61000;
  max_uses = 1;
  used = 0;
  revoked = false;
  metadata = [];
  fingerprint = lit "sha256:slaif_tok_sample";
}

abbrev pub sample_expected : Expected
sample_expected = record {
  scope = some relay_scope;
  session_id = none;
  hpc = some (lit "vegahpc");
  origin = none;
  metadata = absent;
}

abbrev pub sample_registry : Registry
sample_registry = record { records = (sample_token, sample_record) ∷ []; notices = [] }

sample_registry-IsWellFormed : IsWellFormed sample_registry
unfolding get includes text_eq
sample_registry-IsWellFormed = ground arith

sample_check : check_record 2000 sample_record sample_expected ≡ ok tt
unfolding check_record agrees check_metadata text_eq
sample_check = refl

check_record_iff_example :
    (check_record 2000 sample_record sample_expected ≡ ok tt)
    ↔ Admits 2000 sample_record sample_expected
check_record_iff_example = check_record_iff 2000 sample_record sample_expected

abbrev sample_calls : List Call
sample_calls =
    consume 2000 (some sample_token) sample_expected
    ∷ consume 2001 (some sample_token) sample_expected
    ∷ cleanup 61000
    ∷ []

run-empty-IsWellFormed_example :
    IsWellFormed (run plain empty (issue 1000 sample_request [] ∷ sample_calls))
run-empty-IsWellFormed_example =
    run-empty-IsWellFormed plain (issue 1000 sample_request [] ∷ sample_calls)

consumptions-le-uses_left_example :
    consumptions plain sample_token sample_registry sample_calls
    ≤ uses_left sample_registry sample_token
consumptions-le-uses_left_example =
    consumptions-le-uses_left plain sample_token sample_registry sample_calls
      sample_registry-IsWellFormed (tt, (tt, (tt, tt)))

sample_consumptions : consumptions plain sample_token sample_registry sample_calls ≡ 1
unfolding consumptions step admit assert_token_value get put text_eq check_record agrees
    check_metadata consume_token
sample_consumptions = refl

sample-IsAccepted : IsAccepted plain 2000 sample_registry sample_token sample_expected sample_record
unfolding assert_token_value get text_eq
sample-IsAccepted = record {
  well_sized = refl;
  known = refl;
  admitted = (check_record_iff 2000 sample_record sample_expected).0 sample_check;
}

consume_token-accepted_example :
    ((consume_token plain 2000 sample_registry (some sample_token) sample_expected).0
      ≡ ok (use_once sample_record))
    × ((j : Text)
        → get j
            (consume_token plain 2000 sample_registry (some sample_token) sample_expected).1.records
          ≡ (if text_eq sample_token j
              then some (use_once sample_record)
              else get j sample_registry.records))
consume_token-accepted_example =
    consume_token-accepted plain 2000 sample_registry sample_token sample_expected sample_record
      sample-IsAccepted

late_refused :
    (r : TokenRecord) → ¬ IsAccepted plain 61000 sample_registry sample_token sample_expected r
unfolding get text_eq
late_refused r a = let known = a.known in let early = a.admitted.usable.early in ground arith

refused_outcome_example :
    (x : TokenError) × ((consume_token plain 61000 sample_registry
        (some sample_token)
        sample_expected).0
      ≡ err x)
    × ((consume_token plain 61000 sample_registry (some sample_token) sample_expected).1.records
        ≡ sample_registry.records)
    × ((validate_token plain 61000 sample_registry (some sample_token) sample_expected).0 ≡ err x)
    × ((validate_token plain 61000 sample_registry (some sample_token) sample_expected).1.records
        ≡ sample_registry.records)
refused_outcome_example =
    refused_outcome plain 61000 sample_registry sample_token sample_expected late_refused

abbrev sample_issued : Issued
sample_issued = record {
  token = sample_token;
  fingerprint = lit "sha256:slaif_tok_sample";
  expires_at = 61000;
  record_copy = sample_record;
}

sample_issue : (issue_token plain 1000 empty sample_request []).0 ≡ ok sample_issued
unfolding issue_token prepare assert_scope assert_binding_value token_value safe_fingerprint
    includes text_eq get
sample_issue = refl

sample-Matches : Matches sample_record sample_expected
sample-Matches = record { scope = refl; session_id = tt; hpc = refl; origin = tt; metadata = tt }

validate-issue_example :
    (validate_token plain 2000
      (issue_token plain 1000 empty sample_request []).1
      (some sample_token)
      sample_expected).0
    ≡ ok sample_record
unfolding assert_token_value
validate-issue_example =
    validate-issue plain 1000 2000 empty sample_request [] sample_expected sample_issued
      sample_issue refl (omega arith) sample-Matches

cleanup_expired_outcome_example :
    ((cleanup_expired 61000 sample_registry).0 + size (cleanup_expired 61000 sample_registry).1
      ≡ size sample_registry)
    × ((hash : Text)
        → get hash (cleanup_expired 61000 sample_registry).1.records
          ≡ keep_if (λ r. ltb 61000 r.expires_at) (get hash sample_registry.records))
cleanup_expired_outcome_example =
    cleanup_expired_outcome 61000 sample_registry sample_registry-IsWellFormed.unique

sample_found :
    revocable plain sample_registry (lit "sha256:slaif_tok_sample")
    ≡ some (sample_token, sample_record)
unfolding revocable text_eq starts_with
sample_found = refl

revoked_for_good_example :
    let t =
      run plain
        (revoke_token plain sample_registry (some (lit "sha256:slaif_tok_sample"))).1
        sample_calls in
    (x : TokenError) × ((consume_token plain 3000 t (some sample_token) sample_expected).0 ≡ err x)
    × ((validate_token plain 3000 t (some sample_token) sample_expected).0 ≡ err x)
revoked_for_good_example =
    revoked_for_good plain sample_registry (lit "sha256:slaif_tok_sample") sample_token
      sample_record sample_calls 3000 sample_expected sample_registry-IsWellFormed (λ e. cc)
      sample_found (tt, (tt, (tt, tt)))
