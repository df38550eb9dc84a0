-- ===== src/Job.antt =====
-- extension/js/job_output_parser.js and the payload of slaif_job_reporter.js. `last_bytes` is what is
-- decoded of the last bytes of an output that is too long, `parse_date` is `Date.parse`, and `to_iso`
-- is `toISOString` of an instant. An error is its message.
use slaif_connect.Base.{
  ℕ, Bool, true, false, not, ◌||◌, ◌&&◌, Option, none, some, List, [], ◌∷◌, ◌++◌, Text, lit,
  text_eq, includes, starts_with, leb, ◌==◌, is_digit, is_word, is_blank, trim, class_match,
  prefix_match, drop, all, to_lower, Result, ok, err, ◌>>=◌, ◌>>◌, guards, if◌then◌else◌,
}
use slaif_connect.Base.Value.{
  Value, ℤ, undef, null, bool, num, str, arr, obj, is_one_of, is_text, is_undefined, is_integer_in,
  text_of, text_matches, int, pos,
}
use slaif_connect.Workload.Bytes.{byte_length}
pub mod Parser
pub mod Quiet
pub mod Over
pub mod Lines
pub mod Reported
pub mod Tests

-- A line terminator, behind which `^` matches under the flag `m`
abbrev pub ends_line : ℕ → Bool
ends_line c = c == 10 || c == 13 || c == 8232 || c == 8233

-- `\s*$` at the start of the string
unfoldable pub closes : Text → Bool
closes [] = true
closes (c ∷ s) = let rest = closes s in ends_line c || (is_blank c && rest)

-- `\s*` at the start of the string
unfoldable pub skip_blanks : Text → Text
skip_blanks [] = []
skip_blanks (c ∷ s) = let rest = skip_blanks s in if is_blank c then rest else c ∷ s

-- `[0-9]*` at the start of the string, and what is behind it
unfoldable pub digits_of : Text → Text × Text
digits_of [] = ([], [])
digits_of (c ∷ s) =
    let (ds, rest) = digits_of s in if is_digit c then (c ∷ ds, rest) else ([], c ∷ s)

-- `([0-9]+)\s*$`
abbrev pub closed_id : Text × Text → Option Text
closed_id ([], rest) = none
closed_id (d ∷ ds, rest) = if closes rest then some (d ∷ ds) else none

-- `\s+([0-9]+)\s*$`
abbrev pub id_behind : Text → Option Text
id_behind [] = none
id_behind (c ∷ s) = if is_blank c then closed_id (digits_of (skip_blanks s)) else none

-- `Submitted batch job\s+([0-9]+)\s*$`
unfoldable pub submitted_id : Text → Option Text
submitted_id s = if starts_with s (lit "Submitted batch job") then id_behind (drop 19 s) else none

-- `(?:sbatch:\s*)?` in front of it
unfoldable pub line_id : Text → Option Text
line_id s =
    if starts_with s (lit "sbatch:") then submitted_id (skip_blanks (drop 7 s)) else submitted_id s

abbrev pub push_id : Option Text → List Text → List Text
push_id none ids = ids
push_id (some id) ids = id ∷ ids

-- The ids of all matches. A line start inside of a match gives no id but that of the match, so every
-- line start may be tried.
unfoldable pub match_ids : Bool → Text → List Text
match_ids at_start [] = []
match_ids at_start (c ∷ s) =
    let rest = match_ids (ends_line c) s in
    if at_start then push_id (line_id (c ∷ s)) rest else rest

-- `replace(/\r/g, '')`
unfoldable pub drop_returns : Text → Text
drop_returns [] = []
drop_returns (c ∷ s) = let rest = drop_returns s in if c == 13 then rest else c ∷ rest

pub data Submission : Type 0 where
  submitted : Text → Submission
  refused : Text → Submission

-- `[...new Set(ids)]` with one element, with none, or with more
abbrev pub only_id : List Text → Submission
only_id [] = refused (lit "no_job_id")
only_id (id ∷ ids) =
    if all (λ other. text_eq id other) ids then submitted id else refused (lit "ambiguous_job_id")

module _ (last_bytes : ℕ → Text → Text) where
  abbrev pub bound_scheduler_output : ℕ → Value → Text
  bound_scheduler_output max (str s) = if leb (byte_length s) max then s else last_bytes max s
  bound_scheduler_output max _ = []

  unfoldable pub parse_slurm_job_submission : ℕ → Value → Submission
  parse_slurm_job_submission max output =
      let bounded = drop_returns (bound_scheduler_output max output) in
      if text_eq (trim bounded) []
      then refused (lit "empty_output")
      else only_id (match_ids true bounded)

  -- `parseSchedulerJobSubmission`, with `options.scheduler`, which `slurm` stands for where it is falsy
  abbrev pub parse_scheduler_job_submission : Text → ℕ → Value → Submission
  parse_scheduler_job_submission scheduler max output =
      if text_eq scheduler [] || text_eq scheduler (lit "slurm")
      then parse_slurm_job_submission max output
      else refused (lit "unsupported_scheduler")

-- `/^[0-9]{1,32}$/`
abbrev pub is_job_id : Text → Bool
is_job_id s = class_match is_digit 1 32 s

abbrev valid_statuses : List Text
valid_statuses =
    lit "submitted" ∷ lit "job_id_not_found" ∷ lit "ssh_failed" ∷ lit "report_failed" ∷ []

-- What a session has to report
pub record Report : Type 0 where
  pub session_id : Value
  pub hpc : Value
  pub scheduler : Value
  pub job_id : Value
  pub status : Value
  pub ssh_exit_code : Value
  pub reported_at : Text

-- The payload of a report, besides its type and version; what is `undefined` is left out.
pub record Payload : Type 0 where
  pub session_id : Text
  pub hpc : Text
  pub status : Text
  pub reported_at : Text
  pub scheduler : Value
  pub job_id : Value
  pub ssh_exit_code : Value

abbrev is_submitted : Report → Bool
is_submitted r = is_text (lit "submitted") r.status

unfoldable pub report_tests : Report → List (Bool × Text)
report_tests r =
    (
      not (text_matches (prefix_match (lit "sess_") is_word 8 128) r.session_id),
      lit "invalid SLAIF session id",
    )
    ∷ (not (text_matches (class_match is_word 1 64) r.hpc), lit "invalid HPC alias")
    ∷ (not (is_one_of valid_statuses r.status), lit "invalid job report status")
    ∷ (
      not (is_undefined r.scheduler) && not (is_text (lit "slurm") r.scheduler),
      lit "invalid scheduler",
    )
    ∷ (
      is_submitted r && not (is_text (lit "slurm") r.scheduler),
      lit "submitted reports require scheduler slurm",
    )
    ∷ (is_submitted r && not (text_matches is_job_id r.job_id), lit "invalid SLURM job ID")
    ∷ (
      not (is_submitted r) && not (is_undefined r.job_id),
      lit "jobId is only allowed for submitted reports",
    )
    ∷ (
      not (is_undefined r.ssh_exit_code) && not (is_integer_in 0 255 r.ssh_exit_code),
      lit "invalid sshExitCode",
    )
    ∷ []

module _ (parse_date : Text → Option ℤ) (to_iso : ℤ → Text) where
  abbrev pub payload_at : Report → Option ℤ → Result Text Payload
  payload_at r none = err (lit "invalid reportedAt timestamp")
  payload_at r (some t) = ok (record {
    session_id = text_of r.session_id;
    hpc = to_lower (text_of r.hpc);
    status = text_of r.status;
    reported_at = to_iso t;
    scheduler = r.scheduler;
    job_id = r.job_id;
    ssh_exit_code = r.ssh_exit_code;
  })

  unfoldable pub build_job_report_payload : Report → Result Text Payload
  build_job_report_payload r = guards (report_tests r) >> payload_at r (parse_date r.reported_at)
