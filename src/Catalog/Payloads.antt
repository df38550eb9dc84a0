-- ===== src/Catalog/Payloads.antt =====
-- What extension/js/payload_catalog.js accepts as the definition of a payload.
use slaif_connect.Base.{
  ℕ, ◌≤◌, ◌≡◌, ◌⊎◌, inl, inr, refl, Bool, true, false, not, Text, lit, includes, text_eq,
  text_eq_iff, arith, ok, ◌>>◌, guards, guards_iff, ap, >>=-eq-ok, Bool-cases, if◌then◌else◌,
  guards->>-eq-ok,
}
use slaif_connect.Base.Value.{
  Value, Fields, undef, null, bool, num, str, arr, obj, int, frac, nan, infinity, pos, negsuc,
  get_field, is_text, is_one_of, is_true, is_integer_in, nat_of,
}
use slaif_connect.Forbidden.{Occurs, walk_iff}
use slaif_connect.Catalog.{
  forbidden_payload_fields, allowed_payload_types, allowed_mvp_payload_ids,
  assert_no_forbidden_payload_fields, validate_payload_id, validate_fast_diagnostic,
  validate_interactive_llm, validate_common_payload, validate_payload_definition,
}

-- A whole number of the range
abbrev pub InRange : ℕ → ℕ → Value → Type 0
InRange lo hi v = (n : ℕ) × (v ≡ num (int (pos n))) × (lo ≤ n) × (n ≤ hi)

pub is_integer_in-InRange :
    (lo hi : ℕ) (v : Value) → not (is_integer_in lo hi v) ≡ false → InRange lo hi v
is_integer_in-InRange lo hi (num (int (pos n))) h = (n, refl, ground arith, ground arith)
is_integer_in-InRange lo hi (num (int (negsuc n))) h = cc
is_integer_in-InRange lo hi (num (frac z d)) h = cc
is_integer_in-InRange lo hi (num nan) h = cc
is_integer_in-InRange lo hi (num (infinity s)) h = cc
is_integer_in-InRange lo hi undef h = cc
is_integer_in-InRange lo hi null h = cc
is_integer_in-InRange lo hi (bool b) h = cc
is_integer_in-InRange lo hi (str s) h = cc
is_integer_in-InRange lo hi (arr xs) h = cc
is_integer_in-InRange lo hi (obj fs) h = cc

is_true_eq : (v : Value) → not (is_true v) ≡ false → v ≡ bool true
is_true_eq (bool true) h = refl
is_true_eq (bool false) h = cc
is_true_eq (num n) h = cc
is_true_eq undef h = cc
is_true_eq null h = cc
is_true_eq (str s) h = cc
is_true_eq (arr xs) h = cc
is_true_eq (obj fs) h = cc

-- A diagnostic that runs for at most an hour and prints at most a mebibyte
pub record IsFast (fs : Fields) : Type 0 where
  pub typed : is_text (lit "fast_diagnostic") (get_field (lit "type") fs) ≡ true
  pub runtime : InRange 1 3600 (get_field (lit "maxRuntimeSeconds") fs)
  pub output : InRange 1 1048576 (get_field (lit "maxOutputBytes") fs)

-- A chat that ends within a day, is idle for no longer than it lasts, and connects outwards
pub record IsInteractive (fs : Fields) : Type 0 where
  pub typed : is_text (lit "interactive_llm") (get_field (lit "type") fs) ≡ true
  pub outbound : get_field (lit "requiresOutboundWorkloadConnection") fs ≡ bool true
  pub session : InRange 1 86400 (get_field (lit "maxSessionSeconds") fs)
  pub idle : InRange 1 3600 (get_field (lit "idleTimeoutSeconds") fs)
  pub idle-le-session : idle.0 ≤ session.0
  pub prompt : InRange 1 262144 (get_field (lit "maxPromptBytes") fs)
  pub tokens : InRange 1 32768 (get_field (lit "maxOutputTokens") fs)

pub record IsPayload (id : Text) (payload : Value) : Type 0 where
  pub known : includes allowed_mvp_payload_ids id ≡ true
  pub fields : Fields
  pub is_object : payload ≡ obj fields
  pub clean : (k : Text) → includes forbidden_payload_fields k ≡ true → ¬ (Occurs k payload)
  pub kind : IsFast fields ⊎ IsInteractive fields

pub validate_payload_id-eq-ok :
    (v : Value) (id : Text)
    → validate_payload_id v ≡ ok id
    → (v ≡ str id) × (includes allowed_mvp_payload_ids id ≡ true)
unfolding validate_payload_id
validate_payload_id-eq-ok (str s) id h =
    let (tests, last) = guards->>-eq-ok _ (ok s) h in
    let same : s ≡ id = ground arith in rw (← same) (refl, ground (arith, tests.1.0))
validate_payload_id-eq-ok undef id h = cc
validate_payload_id-eq-ok null id h = cc
validate_payload_id-eq-ok (bool b) id h = cc
validate_payload_id-eq-ok (num n) id h = cc
validate_payload_id-eq-ok (arr xs) id h = cc
validate_payload_id-eq-ok (obj fs) id h = cc

validate_fast_diagnostic-IsFast :
    (fs : Fields)
    → is_text (lit "fast_diagnostic") (get_field (lit "type") fs) ≡ true
    → validate_fast_diagnostic fs ≡ ok tt
    → IsFast fs
unfolding validate_fast_diagnostic
validate_fast_diagnostic-IsFast fs typed h =
    let (runtime, (output, more)) = (guards_iff _).0 h in
    record {
      typed = typed;
      runtime = is_integer_in-InRange 1 3600 _ runtime;
      output = is_integer_in-InRange 1 1048576 _ output;
    }

validate_interactive_llm-IsInteractive :
    (id : Text) (fs : Fields)
    → is_text (lit "interactive_llm") (get_field (lit "type") fs) ≡ true
    → validate_interactive_llm id fs ≡ ok tt
    → IsInteractive fs
unfolding validate_interactive_llm
validate_interactive_llm-IsInteractive id fs typed h =
    let (
      model,
      (runtime, (gpu, (outbound, (session, (idle, (order, (prompt, (tokens, none_left)))))))),
    ) =
      (guards_iff _).0 h in
    let s = is_integer_in-InRange 1 86400 (get_field (lit "maxSessionSeconds") fs) session in
    let i = is_integer_in-InRange 1 3600 (get_field (lit "idleTimeoutSeconds") fs) idle in
    record {
      typed = typed;
      outbound = is_true_eq _ outbound;
      session = s;
      idle = i;
      idle-le-session = ground (arith, order, ap nat_of s.1, ap nat_of i.1);
      prompt = is_integer_in-InRange 1 262144 _ prompt;
      tokens = is_integer_in-InRange 1 32768 _ tokens;
    }

one_of_two :
    (v : Value)
    → not (is_one_of allowed_payload_types v) ≡ false
    → (is_text (lit "fast_diagnostic") v ≡ true) ⊎ (is_text (lit "interactive_llm") v ≡ true)
unfolding includes
one_of_two (str s) h = elim (Bool-cases (text_eq s (lit "fast_diagnostic"))) [
  | inl fast ↦ inl fast
  | inr other ↦ inr (
      ground (
        arith,
        text_eq_iff s (lit "fast_diagnostic"),
        text_eq_iff (lit "fast_diagnostic") s,
        text_eq_iff s (lit "interactive_llm"),
        text_eq_iff (lit "interactive_llm") s,
      ))
]
one_of_two undef h = cc
one_of_two null h = cc
one_of_two (bool b) h = cc
one_of_two (num n) h = cc
one_of_two (arr xs) h = cc
one_of_two (obj fs) h = cc

by_type :
    (id : Text) (fs : Fields) (fast llm : Bool)
    → is_text (lit "fast_diagnostic") (get_field (lit "type") fs) ≡ fast
    → is_text (lit "interactive_llm") (get_field (lit "type") fs) ≡ llm
    → not (is_one_of allowed_payload_types (get_field (lit "type") fs)) ≡ false
    → (if fast
        then validate_fast_diagnostic fs
        else if llm
        then validate_interactive_llm id fs
        else ok tt)
      ≡ ok tt
    → IsFast fs ⊎ IsInteractive fs
by_type id fs true llm a b one h = inl (validate_fast_diagnostic-IsFast fs a h)
by_type id fs false true a b one h = inr (validate_interactive_llm-IsInteractive id fs b h)
by_type id fs false false a b one h = elim (one_of_two (get_field (lit "type") fs) one) [
  | inl fast ↦ absurd (ground arith)
  | inr llm ↦ absurd (ground arith)
]

pub same_id :
    (v : Value) (id : Text) → validate_payload_id v ≡ ok id → validate_payload_id (str id) ≡ ok id
same_id v id h = rw ((validate_payload_id-eq-ok v id h).0) at h

validate_common_payload-eq-ok :
    (payload : Value) (fs : Fields)
    → validate_common_payload payload ≡ ok fs
    → (payload ≡ obj fs)
      × (assert_no_forbidden_payload_fields payload ≡ ok tt)
      × (not (is_one_of allowed_payload_types (get_field (lit "type") fs)) ≡ false)
unfolding validate_common_payload
validate_common_payload-eq-ok (obj gs) fs h =
    let (done, all, last) =
      >>=-eq-ok (assert_no_forbidden_payload_fields (obj gs) >> guards _) (λ u. ok gs) h in
    let (u, clean, tests) =
      >>=-eq-ok (assert_no_forbidden_payload_fields (obj gs)) (λ u. guards _) all in
    let same : gs ≡ fs = ground arith in rw (← same) (refl, clean, ((guards_iff _).0 tests).0)
validate_common_payload-eq-ok undef fs h = cc
validate_common_payload-eq-ok null fs h = cc
validate_common_payload-eq-ok (bool b) fs h = cc
validate_common_payload-eq-ok (num n) fs h = cc
validate_common_payload-eq-ok (str s) fs h = cc
validate_common_payload-eq-ok (arr xs) fs h = cc

-- A definition that is accepted is a payload: an object with no forbidden key at any depth, and of one
-- of two kinds whose numbers are within their bounds.
pub validate_payload_definition-IsPayload :
    (id : Text) (payload : Value)
    → validate_payload_definition id payload ≡ ok tt
    → IsPayload id payload
unfolding validate_payload_definition assert_no_forbidden_payload_fields
validate_payload_definition-IsPayload id payload h =
    let (safe, named, rest) = >>=-eq-ok (validate_payload_id (str id)) _ h in
    let (fs, common, typed) = >>=-eq-ok (validate_common_payload payload) _ rest in
    let (is, clean, one) = validate_common_payload-eq-ok payload fs common in
    record {
      known =
          let (is, known) = validate_payload_id-eq-ok (str id) safe named in
          let same : id ≡ safe = ground arith in rw same known;
      fields = fs;
      is_object = is;
      clean = (walk_iff forbidden_payload_fields (lit "forbidden_payload_field") payload).0 clean;
      kind = by_type id fs _ _ refl refl one typed;
    }
