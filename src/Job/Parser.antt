-- ===== src/Job/Parser.antt =====
-- What `parseSlurmJobSubmission` of extension/js/job_output_parser.js finds.
use slaif_connect.Base.{
  ℕ, ◌≡◌, refl, Bool, true, false, Option, none, some, List, [], ◌∷◌, Text, lit, arith, All, all,
  text_eq, starts_with, leb, is_digit, is_blank, drop, length, trim, Bool-cases, inl, inr,
}
use slaif_connect.Base.Value.{Value}
use slaif_connect.Job.{
  ends_line, closes, skip_blanks, digits_of, closed_id, id_behind, submitted_id, line_id, push_id,
  match_ids, drop_returns, submitted, refused, only_id, bound_scheduler_output,
  parse_slurm_job_submission,
}

-- A number as `sbatch` writes it
abbrev pub IsId : Text → Type 0
IsId id = (all is_digit id ≡ true) × (leb 1 (length id) ≡ true)

abbrev pub IsFound : Option Text → Type 0
IsFound none = Unit {0}
IsFound (some id) = IsId id

digits_of-digits : (s : Text) → all is_digit (digits_of s).0 ≡ true
unfolding digits_of
digits_of-digits [] = refl
digits_of-digits (c ∷ s) = elim (Bool-cases (is_digit c)) [
  | inl hit ↦ rw hit (rw hit (digits_of-digits s))
  | inr miss ↦ rw miss refl
]

closed_id-IsFound : (parts : Text × Text) → all is_digit parts.0 ≡ true → IsFound (closed_id parts)
closed_id-IsFound ([], rest) h = tt
closed_id-IsFound (d ∷ ds, rest) h = elim (Bool-cases (closes rest)) [
  | inl hit ↦ rw hit (h, ground arith)
  | inr miss ↦ rw miss tt
]

id_behind-IsFound : (s : Text) → IsFound (id_behind s)
id_behind-IsFound [] = tt
id_behind-IsFound (c ∷ s) = elim (Bool-cases (is_blank c)) [
  | inl hit ↦ rw hit (closed_id-IsFound _ (digits_of-digits (skip_blanks s)))
  | inr miss ↦ rw miss tt
]

submitted_id-IsFound : (s : Text) → IsFound (submitted_id s)
unfolding submitted_id
submitted_id-IsFound s = elim (Bool-cases (starts_with s (lit "Submitted batch job"))) [
  | inl hit ↦ rw hit (id_behind-IsFound (drop 19 s))
  | inr miss ↦ rw miss tt
]

line_id-IsFound : (s : Text) → IsFound (line_id s)
unfolding line_id
line_id-IsFound s = elim (Bool-cases (starts_with s (lit "sbatch:"))) [
  | inl hit ↦ rw hit (submitted_id-IsFound (skip_blanks (drop 7 s)))
  | inr miss ↦ rw miss (submitted_id-IsFound s)
]

push_id-IsId :
    (found : Option Text) (ids : List Text)
    → IsFound found
    → All IsId ids
    → All IsId (push_id found ids)
push_id-IsId none ids h are = are
push_id-IsId (some id) ids h are = (h, are)

match_ids-IsId : (at_start : Bool) (s : Text) → All IsId (match_ids at_start s)
unfolding match_ids
match_ids-IsId at_start [] = tt
match_ids-IsId true (c ∷ s) =
    push_id-IsId (line_id (c ∷ s)) _ (line_id-IsFound (c ∷ s)) (match_ids-IsId (ends_line c) s)
match_ids-IsId false (c ∷ s) = match_ids-IsId (ends_line c) s

only_id-IsId : (ids : List Text) (id : Text) → All IsId ids → only_id ids ≡ submitted id → IsId id
only_id-IsId [] id are h = cc
only_id-IsId (first ∷ ids) id (is, are) h =
    elim (Bool-cases (all (λ other. text_eq first other) ids)) [
      | inl hit ↦
          let found : submitted first ≡ submitted id = rw hit at h in
          let same : first ≡ id = cc in rw (← same) is
      | inr miss ↦ let other : refused (lit "ambiguous_job_id") ≡ submitted id = rw miss at h in cc
    ]

module _ (last_bytes : ℕ → Text → Text) where
  -- What is found to be submitted is a number.
  pub parse_slurm_job_submission-IsId :
      (max : ℕ) (output : Value) (id : Text)
      → parse_slurm_job_submission last_bytes max output ≡ submitted id
      → IsId id
  unfolding parse_slurm_job_submission
  parse_slurm_job_submission-IsId max output id h =
      elim (Bool-cases
        (text_eq (trim (drop_returns (bound_scheduler_output last_bytes max output))) [])) [
          | inl hit ↦ let other : refused (lit "empty_output") ≡ submitted id = rw hit at h in cc
          | inr miss ↦ only_id-IsId _ id (match_ids-IsId true _) (rw miss at h)
        ]
