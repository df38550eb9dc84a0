-- ===== src/Job/Quiet.antt =====
-- Texts in which no job is announced, to extension/js/job_output_parser.js.
use slaif_connect.Base.{
  ℕ, zero, suc, ◌≡◌, refl, Bool, true, false, not, none, [], ◌∷◌, ◌++◌, Text, lit, arith, all,
  starts_with, contains, ◌==◌, is_blank, drop, length, Bool-cases, inl, inr,
}
use slaif_connect.Job.{ends_line, skip_blanks, submitted_id, line_id, match_ids}

abbrev pub announcement : Text
announcement = lit "Submitted batch job"

abbrev pub is_one_line : Text → Bool
is_one_line p = all (λ c. not (c == 10)) p

pub starts_with-contains : (s p : Text) → contains s p ≡ false → starts_with s p ≡ false
unfolding contains
starts_with-contains [] p h = h
starts_with-contains (c ∷ s) p h = ground (arith, h)

pub contains-drop : (n : ℕ) (s p : Text) → contains s p ≡ false → contains (drop n s) p ≡ false
unfolding contains
contains-drop zero s p h = h
contains-drop (suc n) [] p h = h
contains-drop (suc n) (c ∷ s) p h =
    let rest : contains s p ≡ false = ground (arith, h) in contains-drop n s p rest

contains-skip_blanks : (s p : Text) → contains s p ≡ false → contains (skip_blanks s) p ≡ false
unfolding contains skip_blanks
contains-skip_blanks [] p h = h
contains-skip_blanks (c ∷ s) p h =
    let rest : contains s p ≡ false = ground (arith, h) in
    elim (Bool-cases (is_blank c)) [
      | inl hit ↦ rw hit (contains-skip_blanks s p rest)
      | inr miss ↦ rw miss h
    ]

-- A prefix of one line does not reach over the end of a line.
starts_with-over :
    (x s p : Text)
    → is_one_line p ≡ true
    → starts_with (x ++ (10 ∷ s)) p ≡ true
    → starts_with x p ≡ true
unfolding starts_with
starts_with-over x s [] one h = ground arith
starts_with-over [] s (c ∷ p) one h = ground (arith, one, h)
starts_with-over (d ∷ x) s (c ∷ p) one h =
    let rest = starts_with-over x s p (ground (arith, one)) (ground (arith, h)) in
    ground (arith, h, rest)

pub starts_with-over_none :
    (x s p : Text)
    → is_one_line p ≡ true
    → starts_with x p ≡ false
    → starts_with (x ++ (10 ∷ s)) p ≡ false
starts_with-over_none x s p one h = elim (Bool-cases (starts_with (x ++ (10 ∷ s)) p)) [
  | inl hit ↦ let over = starts_with-over x s p one hit in cc
  | inr miss ↦ miss
]

pub starts_with-append : (x s p : Text) → starts_with x p ≡ true → starts_with (x ++ s) p ≡ true
unfolding starts_with
starts_with-append [] s [] h = ground arith
starts_with-append (d ∷ x) s [] h = refl
starts_with-append [] s (c ∷ p) h = cc
starts_with-append (d ∷ x) s (c ∷ p) h =
    let rest = starts_with-append x s p (ground (arith, h)) in ground (arith, h, rest)

pub drop-starts_with :
    (x s p : Text) → starts_with x p ≡ true → drop (length p) (x ++ s) ≡ drop (length p) x ++ s
unfolding starts_with
drop-starts_with x s [] h = refl
drop-starts_with [] s (c ∷ p) h = cc
drop-starts_with (d ∷ x) s (c ∷ p) h = drop-starts_with x s p (ground (arith, h))

-- Where no job is announced, no id is found.
submitted_id-quiet : (s : Text) → contains s announcement ≡ false → submitted_id s ≡ none
unfolding submitted_id
submitted_id-quiet s h = rw (starts_with-contains s announcement h) refl

line_id-quiet : (s : Text) → contains s announcement ≡ false → line_id s ≡ none
unfolding line_id
line_id-quiet s h = elim (Bool-cases (starts_with s (lit "sbatch:"))) [
  | inl hit ↦ rw hit (
      submitted_id-quiet _ (contains-skip_blanks _ announcement (contains-drop 7 s announcement h)))
  | inr miss ↦ rw miss (submitted_id-quiet s h)
]

pub match_ids-quiet :
    (at_start : Bool) (s : Text) → contains s announcement ≡ false → match_ids at_start s ≡ []
unfolding match_ids contains
match_ids-quiet at_start [] h = refl
match_ids-quiet true (c ∷ s) h =
    let rest : contains s announcement ≡ false = ground (arith, h) in
    rw (line_id-quiet (c ∷ s) h) (match_ids-quiet (ends_line c) s rest)
match_ids-quiet false (c ∷ s) h =
    let rest : contains s announcement ≡ false = ground (arith, h) in
    match_ids-quiet (ends_line c) s rest
