-- ===== src/Job/Tests.antt =====
-- The theorems on the output of `sbatch` at small outputs.
use slaif_connect.Base.{
  contains, starts_with, ℕ, ◌≡◌, refl, true, Option, some, [], Text, lit, is_word, class_match,
  prefix_match, ok, leb,
}
use slaif_connect.Base.Value.{ℤ, str, pos}
use slaif_connect.Workload.Bytes.{byte_length}
use slaif_connect.Job.{
  submitted, drop_returns, parse_slurm_job_submission, build_job_report_payload,
}
use slaif_connect.Job.Parser.{IsId}
use slaif_connect.Job.Lines.{
  behind, submission_line, IsQuiet, parse_slurm_job_submission-submission_line,
}
use slaif_connect.Job.Reported.{
  report_of, payload_of, parse_slurm_job_submission-build_job_report_payload,
}

abbrev nothing : ℕ → Text → Text
nothing n s = []

abbrev read_date : Text → Option ℤ
read_date s = some (pos 0)

abbrev write_date : ℤ → Text
write_date t = lit "1970"

is_number : IsId (lit "12345")
is_number = (refl, refl)

abbrev output : Text
output = behind (some (lit "sbatch: one core")) (submission_line (lit "12345") (lit "bye"))

before-IsQuiet : IsQuiet (lit "sbatch: one core")
unfolding drop_returns contains starts_with
before-IsQuiet = refl

after-IsQuiet : IsQuiet (lit "bye")
unfolding drop_returns contains starts_with
after-IsQuiet = refl

fits : leb (byte_length output) 65536 ≡ true
unfolding byte_length
fits = refl

parse_slurm_job_submission-submission_line_example :
    parse_slurm_job_submission nothing 65536 (str output) ≡ submitted (lit "12345")
parse_slurm_job_submission-submission_line_example =
    parse_slurm_job_submission-submission_line nothing 65536 (some (lit "sbatch: one core"))
      (lit "12345") (lit "bye") is_number before-IsQuiet after-IsQuiet fits

is_found : parse_slurm_job_submission nothing 65536 (str output) ≡ submitted (lit "12345")
is_found =
    parse_slurm_job_submission-submission_line nothing 65536 (some (lit "sbatch: one core"))
      (lit "12345") (lit "bye") is_number before-IsQuiet after-IsQuiet fits

is_session : prefix_match (lit "sess_") is_word 8 128 (lit "sess_01234567") ≡ true
unfolding prefix_match class_match is_word
is_session = refl

is_alias : class_match is_word 1 64 (lit "Vega") ≡ true
unfolding class_match is_word
is_alias = refl

parse_slurm_job_submission-build_job_report_payload_example :
    build_job_report_payload read_date write_date
      (report_of (lit "sess_01234567") (lit "Vega") (lit "12345") (lit "now"))
    ≡ ok (payload_of (lit "sess_01234567") (lit "Vega") (lit "12345") (lit "1970"))
parse_slurm_job_submission-build_job_report_payload_example =
    parse_slurm_job_submission-build_job_report_payload nothing read_date write_date 65536
      (str output) (lit "sess_01234567") (lit "Vega") (lit "12345") (lit "now") (pos 0) is_found
      is_session is_alias refl
