-- ===== src/Job/Lines.antt =====
-- What `parseSlurmJobSubmission` of extension/js/job_output_parser.js makes of the line of `sbatch`
-- among other lines.
use slaif_connect.Base.{
  ℕ, ◌≡◌, refl, true, false, Option, none, some, [], ◌∷◌, ◌++◌, Text, lit, arith, all, text_eq,
  starts_with, contains, leb, ◌==◌, is_digit, is_blank, trim, trim_start, trim_end, Bool-cases, inl,
  inr,
}
use slaif_connect.Base.Value.{str}
use slaif_connect.Workload.Bytes.{byte_length}
use slaif_connect.Job.{
  ends_line, closes, skip_blanks, digits_of, closed_id, submitted_id, line_id, match_ids,
  drop_returns, submitted, parse_slurm_job_submission,
}
use slaif_connect.Job.Parser.{IsId}
use slaif_connect.Job.Quiet.{announcement, match_ids-quiet}
use slaif_connect.Job.Over.{IsOnly, only_id-IsOnly, match_ids-over}

-- The line that `sbatch` writes of a number, in front of other text
abbrev pub submission_line : Text → Text → Text
submission_line id after = lit "Submitted batch job " ++ (id ++ (10 ∷ after))

-- Text behind the lines that are written first, if any are
abbrev pub behind : Option Text → Text → Text
behind none s = s
behind (some front) s = front ++ (10 ∷ s)

-- But for carriage returns, a text in which no job is announced
abbrev pub IsQuiet : Text → Type 0
IsQuiet s = contains (drop_returns s) announcement ≡ false

abbrev pub IsQuietFront : Option Text → Type 0
IsQuietFront none = Unit {0}
IsQuietFront (some front) = IsQuiet front

digits-drop_returns :
    (id s : Text)
    → all is_digit id ≡ true
    → drop_returns (id ++ (10 ∷ s)) ≡ id ++ (10 ∷ drop_returns s)
unfolding drop_returns
digits-drop_returns [] s h = refl
digits-drop_returns (d ∷ id) s h =
    let digit : is_digit d ≡ true = ground arith in
    let other : (d == 13) ≡ false = ground arith in
    let rest : all is_digit id ≡ true = ground arith in
    rw (other, digits-drop_returns id s rest) refl

digits-match_ids :
    (id s : Text) → all is_digit id ≡ true → match_ids false (id ++ (10 ∷ s)) ≡ match_ids true s
unfolding match_ids
digits-match_ids [] s h = refl
digits-match_ids (d ∷ id) s h =
    let digit : is_digit d ≡ true = ground arith in
    let other : ends_line d ≡ false = ground arith in
    let rest : all is_digit id ≡ true = ground arith in rw other (digits-match_ids id s rest)

digits_of-line : (id s : Text) → all is_digit id ≡ true → digits_of (id ++ (10 ∷ s)) ≡ (id, 10 ∷ s)
unfolding digits_of
digits_of-line [] s h = refl
digits_of-line (d ∷ id) s h =
    let digit : is_digit d ≡ true = ground arith in
    let rest : all is_digit id ≡ true = ground arith in rw (digit, digits_of-line id s rest) refl

skip_blanks-line : (id s : Text) → IsId id → skip_blanks (id ++ (10 ∷ s)) ≡ id ++ (10 ∷ s)
unfolding skip_blanks
skip_blanks-line [] s h = cc
skip_blanks-line (d ∷ id) s h =
    let digit : is_digit d ≡ true = ground arith in
    let other : is_blank d ≡ false = ground arith in rw other refl

closed_id-line : (id s : Text) → IsId id → closed_id (id, 10 ∷ s) ≡ some id
unfolding closes
closed_id-line [] s h = cc
closed_id-line (d ∷ id) s h = refl

submitted_id-line : (id s : Text) → IsId id → submitted_id (submission_line id s) ≡ some id
unfolding submitted_id starts_with skip_blanks
submitted_id-line id s h =
    rw (skip_blanks-line id s h, digits_of-line id s h.0) (closed_id-line id s h)

line_id-line : (id s : Text) → IsId id → line_id (submission_line id s) ≡ some id
unfolding line_id starts_with
line_id-line id s h = submitted_id-line id s h

match_ids-line :
    (id s : Text)
    → IsId id
    → contains s announcement ≡ false
    → IsOnly id (match_ids true (submission_line id s))
unfolding match_ids
match_ids-line id s h quiet =
    rw (line_id-line id s h, digits-match_ids id s h.0, match_ids-quiet true s quiet)
      ((refl, tt), refl)

trim_end-nonblank : (c : ℕ) (s : Text) → is_blank c ≡ false → text_eq (trim_end (c ∷ s)) [] ≡ false
unfolding trim_end text_eq
trim_end-nonblank c s h = by_rest (trim_end s) refl
  where
    by_rest : (rest : Text) → trim_end s ≡ rest → text_eq (trim_end (c ∷ s)) [] ≡ false
    by_rest [] e = rw (e, h) refl
    by_rest (d ∷ t) e = rw e refl

-- A text with a unit that is not blank is not blank.
trim-nonblank :
    (x : Text) (c : ℕ) (s : Text) → is_blank c ≡ false → text_eq (trim (x ++ (c ∷ s))) [] ≡ false
unfolding trim_start
trim-nonblank [] c s h = rw h (trim_end-nonblank c s h)
trim-nonblank (d ∷ x) c s h = elim (Bool-cases (is_blank d)) [
  | inl hit ↦ rw hit (trim-nonblank x c s h)
  | inr miss ↦ rw miss (trim_end-nonblank d _ miss)
]

drop_returns-append : (x s : Text) → drop_returns (x ++ s) ≡ drop_returns x ++ drop_returns s
unfolding drop_returns
drop_returns-append [] s = refl
drop_returns-append (c ∷ x) s = elim (Bool-cases (c == 13)) [
  | inl hit ↦ rw hit (drop_returns-append x s)
  | inr miss ↦ rw (miss, drop_returns-append x s) refl
]

drop_returns-line :
    (id s : Text)
    → IsId id
    → drop_returns (submission_line id s) ≡ submission_line id (drop_returns s)
unfolding drop_returns
drop_returns-line id s h = rw (digits-drop_returns id s h.0) refl

drop_returns-newline : (s : Text) → drop_returns (10 ∷ s) ≡ 10 ∷ drop_returns s
unfolding drop_returns
drop_returns-newline s = refl

starts_line : (id s : Text) → skip_blanks (submission_line id s) ≡ submission_line id s
unfolding skip_blanks
starts_line id s = refl

-- A line break in front of a unit that is not blank
trim-nonblank_behind :
    (x : Text) (c : ℕ) (s : Text)
    → is_blank c ≡ false
    → text_eq (trim (x ++ (10 ∷ c ∷ s))) [] ≡ false
unfolding trim_start
trim-nonblank_behind [] c s h = trim-nonblank (10 ∷ []) c s h
trim-nonblank_behind (d ∷ x) c s h = elim (Bool-cases (is_blank d)) [
  | inl hit ↦ rw hit (trim-nonblank_behind x c s h)
  | inr miss ↦ rw miss (trim_end-nonblank d _ miss)
]

-- Without carriage returns, the output is not blank, and there is no other id in it.
parse_bounded :
    (before : Option Text) (id after : Text)
    → IsId id
    → IsQuietFront before
    → IsQuiet after
    → (text_eq (trim (drop_returns (behind before (submission_line id after)))) [] ≡ false)
      × IsOnly id (match_ids true (drop_returns (behind before (submission_line id after))))
parse_bounded none id after h front quiet =
    rw (drop_returns-line id after h)
      (trim-nonblank [] b'S' _ refl, match_ids-line id (drop_returns after) h quiet)
parse_bounded (some before) id after h front quiet =
    let line = submission_line id (drop_returns after) in
    rw
      (
        drop_returns-append before (10 ∷ submission_line id after),
        drop_returns-newline (submission_line id after),
        drop_returns-line id after h,
      )
      (
        trim-nonblank_behind (drop_returns before) b'S' _ refl,
        match_ids-over id true (drop_returns before) line (submitted_id-line id _ h)
            (starts_line id _) front (match_ids-line id (drop_returns after) h quiet),
      )

-- An output that fits within the limit, in which `sbatch` writes the line of a number, be it behind
-- other lines or in front of other text, and in which, but for carriage returns, neither the lines
-- before nor the text behind contain the words `Submitted batch job`: the number is found.
pub parse_slurm_job_submission-submission_line :
    (last_bytes : ℕ → Text → Text) (max : ℕ) (before : Option Text) (id after : Text)
    → IsId id
    → IsQuietFront before
    → IsQuiet after
    → leb (byte_length (behind before (submission_line id after))) max ≡ true
    → parse_slurm_job_submission last_bytes max (str (behind before (submission_line id after)))
      ≡ submitted id
unfolding parse_slurm_job_submission
parse_slurm_job_submission-submission_line last_bytes max before id after h front quiet fits =
    let (some_text, only) = parse_bounded before id after h front quiet in
    rw (fits, some_text) (only_id-IsOnly id _ only)
