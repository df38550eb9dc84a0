-- ===== src/Job/Over.antt =====
-- The ids of extension/js/job_output_parser.js behind lines that announce no job.
use slaif_connect.Base.{
  ◌≡◌, refl, Bool, true, false, Option, none, some, List, [], ◌∷◌, ◌++◌, Text, lit, arith, All, all,
  text_eq, text_eq_iff, starts_with, contains, leb, is_blank, drop, length, Bool-cases, inl, inr,
}
use slaif_connect.Job.{
  ends_line, skip_blanks, submitted_id, line_id, push_id, match_ids, submitted, only_id,
}
use slaif_connect.Job.Quiet.{
  announcement, starts_with-contains, contains-drop, starts_with-over_none, starts_with-append,
  drop-starts_with,
}

-- What may be found at the start of a line: nothing, or this id
abbrev IsNoOther : Text → Option Text → Type 0
IsNoOther id none = Unit {0}
IsNoOther id (some other) = other ≡ id

-- Ids are found, and all of them are this one.
abbrev pub IsOnly : Text → List Text → Type 0
IsOnly id ids = All (λ other. other ≡ id) ids × (leb 1 (length ids) ≡ true)

push_id-IsOnly :
    (id : Text) (found : Option Text) (ids : List Text)
    → IsNoOther id found
    → IsOnly id ids
    → IsOnly id (push_id found ids)
push_id-IsOnly id none ids h only = only
push_id-IsOnly id (some other) ids h only = ((h, only.0), ground arith)

same_ids :
    (first id : Text) (ids : List Text)
    → first ≡ id
    → All (λ other. other ≡ id) ids
    → all (λ other. text_eq first other) ids ≡ true
same_ids first id [] h are = refl
same_ids first id (other ∷ ids) h are =
    let same : first ≡ other = cc in
    rw ((text_eq_iff first other).1 same, same_ids first id ids h are.1) refl

pub only_id-IsOnly : (id : Text) (ids : List Text) → IsOnly id ids → only_id ids ≡ submitted id
only_id-IsOnly id [] only = cc
only_id-IsOnly id (first ∷ ids) only = rw (same_ids first id ids only.0.0 only.0.1, only.0.0) refl

not_announced :
    (x s : Text) → starts_with x announcement ≡ false → submitted_id (x ++ (10 ∷ s)) ≡ none
unfolding submitted_id
not_announced x s h = rw (starts_with-over_none x s announcement refl h) refl

submitted_id-over :
    (id x s : Text)
    → submitted_id s ≡ some id
    → skip_blanks s ≡ s
    → contains x announcement ≡ false
    → IsNoOther id (submitted_id (skip_blanks (x ++ (10 ∷ s))))
unfolding skip_blanks contains
submitted_id-over id [] s h starts quiet = rw (starts, h) refl
submitted_id-over id (c ∷ x) s h starts quiet =
    let rest : contains x announcement ≡ false = ground (arith, quiet) in
    elim (Bool-cases (is_blank c)) [
      | inl hit ↦ rw hit (submitted_id-over id x s h starts rest)
      | inr miss ↦
          rw (miss, not_announced (c ∷ x) s (starts_with-contains (c ∷ x) announcement quiet)) tt
    ]

line_id-over :
    (id x s : Text)
    → submitted_id s ≡ some id
    → skip_blanks s ≡ s
    → contains x announcement ≡ false
    → IsNoOther id (line_id (x ++ (10 ∷ s)))
unfolding line_id submitted_id
line_id-over id x s h starts quiet = elim (Bool-cases (starts_with x (lit "sbatch:"))) [
  | inl hit ↦
      let over : starts_with (x ++ (10 ∷ s)) (lit "sbatch:") ≡ true =
        starts_with-append x (10 ∷ s) (lit "sbatch:") hit in
      rw (over, drop-starts_with x (10 ∷ s) (lit "sbatch:") hit)
        (submitted_id-over id (drop 7 x) s h starts (contains-drop 7 x announcement quiet))
  | inr miss ↦
      rw
        (
          starts_with-over_none x s (lit "sbatch:") refl miss,
          starts_with-over_none x s announcement refl (starts_with-contains x announcement quiet),
        )
        tt
]

pub match_ids-over :
    (id : Text) (at_start : Bool) (x s : Text)
    → submitted_id s ≡ some id
    → skip_blanks s ≡ s
    → contains x announcement ≡ false
    → IsOnly id (match_ids true s)
    → IsOnly id (match_ids at_start (x ++ (10 ∷ s)))
unfolding match_ids contains
match_ids-over id true [] s h starts quiet only =
    push_id-IsOnly id (line_id (10 ∷ s)) _ (line_id-over id [] s h starts quiet) only
match_ids-over id false [] s h starts quiet only = only
match_ids-over id true (c ∷ x) s h starts quiet only =
    let rest : contains x announcement ≡ false = ground (arith, quiet) in
    push_id-IsOnly id (line_id (c ∷ (x ++ (10 ∷ s)))) _ (line_id-over id (c ∷ x) s h starts quiet)
      (match_ids-over id (ends_line c) x s h starts rest only)
match_ids-over id false (c ∷ x) s h starts quiet only =
    let rest : contains x announcement ≡ false = ground (arith, quiet) in
    match_ids-over id (ends_line c) x s h starts rest only
