-- ===== src/Job/Reported.antt =====
-- Reports of what extension/js/job_output_parser.js found, by extension/js/slaif_job_reporter.js.
use slaif_connect.Base.{
  ℕ, ◌≡◌, refl, true, Option, some, Text, lit, text_eq, includes, leb, length, is_word, class_match,
  prefix_match, to_lower, ok, err, guards, Bool-cases, inl, inr, if◌then◌else◌,
}
use slaif_connect.Base.Value.{Value, ℤ, str, undef}
use slaif_connect.Job.{
  submitted, parse_slurm_job_submission, is_job_id, Report, Payload, report_tests,
  build_job_report_payload,
}
use slaif_connect.Job.Parser.{IsId, parse_slurm_job_submission-IsId}

-- The report of a job that was submitted
abbrev pub report_of : Text → Text → Text → Text → Report
report_of session_id hpc id reported_at = record {
  session_id = str session_id;
  hpc = str hpc;
  scheduler = str (lit "slurm");
  job_id = str id;
  status = str (lit "submitted");
  ssh_exit_code = undef;
  reported_at = reported_at;
}

abbrev pub payload_of : Text → Text → Text → Text → Payload
payload_of session_id hpc id reported_at = record {
  session_id = session_id;
  hpc = to_lower hpc;
  status = lit "submitted";
  reported_at = reported_at;
  scheduler = str (lit "slurm");
  job_id = str id;
  ssh_exit_code = undef;
}

is_job_id-length : (id : Text) → IsId id → is_job_id id ≡ leb (length id) 32
unfolding class_match
is_job_id-length id h = rw (h.0, h.1) refl

module _ (last_bytes : ℕ → Text → Text) (parse_date : Text → Option ℤ) (to_iso : ℤ → Text) where
  -- The number of a job that was found in the output of `sbatch` is reported for a session with a
  -- valid id, alias and date, unless it has more than 32 digits: then the report is refused.
  pub parse_slurm_job_submission-build_job_report_payload :
      (max : ℕ) (output : Value) (session_id hpc id reported_at : Text) (t : ℤ)
      → parse_slurm_job_submission last_bytes max output ≡ submitted id
      → prefix_match (lit "sess_") is_word 8 128 session_id ≡ true
      → class_match is_word 1 64 hpc ≡ true
      → parse_date reported_at ≡ some t
      → build_job_report_payload parse_date to_iso (report_of session_id hpc id reported_at) ≡ (
          if leb (length id) 32
          then ok (payload_of session_id hpc id (to_iso t))
          else err (lit "invalid SLURM job ID"))
  unfolding build_job_report_payload report_tests guards includes text_eq
  parse_slurm_job_submission-build_job_report_payload max output session_id hpc id reported_at t h
        session alias date =
      let is = parse_slurm_job_submission-IsId last_bytes max output id h in
      let known = is_job_id-length id is in
      elim (Bool-cases (leb (length id) 32)) [
        | inl fits ↦ rw (session, alias, known, fits, date) refl
        | inr long ↦ rw (session, alias, known, long) refl
      ]
