-- ===== src/Workload/PromptLimits.antt =====
-- What `validatePromptMessage` of server/workloads/workload_protocol.js lets through.
use slaif_connect.Base.{
  ℕ, ◌+◌, ◌≤◌, ◌≡◌, refl, Bool, true, false, not, ◌||◌, List, [], ◌∷◌, Text, lit, ltb, length, All,
  Result, ok, ◌>>=◌, ◌>>◌, reject, arith, includes, >>=-eq-ok,
}
use slaif_connect.Base.Value.{
  Value, Items, undef, null, bool, num, str, arr, obj, nil, cons, get_field,
}
use slaif_connect.Workload.Bytes.{byte_length}
use slaif_connect.Workload.Forbidden.{assert_no_forbidden}
use slaif_connect.Workload.Fields.{
  Limits, validate_session_id, validate_prompt_id, assert_type_and_version, assert_bounded_string,
  allowed_prompt_roles,
}
use slaif_connect.Workload.Prompt.{
  Prompt, Entry, validate_role, validate_entry, validate_entries, validate_messages, items_length,
  validate_prompt_message, validate_prompt_options, options_or_empty,
}

abbrev pub total_bytes : List Entry → ℕ
total_bytes [] = 0
total_bytes (e ∷ es) = byte_length e.content + total_bytes es

abbrev pub HasRole : Entry → Type 0
HasRole e = includes allowed_prompt_roles e.role ≡ true

reject-eq-ok : (b : Bool) (e : Text) → reject b e ≡ ok tt → b ≡ false
reject-eq-ok true e h = cc
reject-eq-ok false e h = refl

validate_role-HasRole :
    (v : Value) (role : Text)
    → validate_role v ≡ ok role
    → includes allowed_prompt_roles role ≡ true
unfolding validate_role
validate_role-HasRole (str s) role h =
    let unknown = not (includes allowed_prompt_roles s) in
    let (u, passes, e) = >>=-eq-ok (reject unknown (lit "invalid_role")) (λ u. ok s) h in
    let known : not (includes allowed_prompt_roles s) ≡ false =
      reject-eq-ok (not (includes allowed_prompt_roles s)) (lit "invalid_role") passes in
    ground arith
validate_role-HasRole undef role h = cc
validate_role-HasRole null role h = cc
validate_role-HasRole (bool b) role h = cc
validate_role-HasRole (num n) role h = cc
validate_role-HasRole (arr xs) role h = cc
validate_role-HasRole (obj fs) role h = cc

validate_entry-ok :
    (limits : Limits) (total : ℕ) (v : Value) (e : Entry)
    → validate_entry limits total v ≡ ok e
    → HasRole e × (total + byte_length e.content ≤ limits.max_prompt_bytes)
unfolding validate_entry
validate_entry-ok limits total (obj fs) e h =
    let (role, chosen, rest) =
      >>=-eq-ok (assert_no_forbidden (obj fs) >> validate_role (get_field (lit "role") fs)) _ h in
    let (u, clean, named) = >>=-eq-ok (assert_no_forbidden (obj fs)) _ chosen in
    let (content, bounded, last) =
      >>=-eq-ok
        (assert_bounded_string (lit "content") limits.max_prompt_bytes
          (get_field (lit "content") fs))
        _ rest in
    let size = total + byte_length content in
    let (w, fits, same) =
      >>=-eq-ok (reject (ltb limits.max_prompt_bytes size) (lit "prompt_too_large"))
        (λ u. ok (record { role = role; content = content })) last in
    let small : ltb limits.max_prompt_bytes (total + byte_length content) ≡ false =
      reject-eq-ok _ (lit "prompt_too_large") fits in
    let made : record { role = role; content = content } ≡ e = ground arith in
    rw (← made) (validate_role-HasRole _ role named, ground arith)
validate_entry-ok limits total undef e h = cc
validate_entry-ok limits total null e h = cc
validate_entry-ok limits total (bool b) e h = cc
validate_entry-ok limits total (num n) e h = cc
validate_entry-ok limits total (str s) e h = cc
validate_entry-ok limits total (arr xs) e h = cc

validate_entries-ok :
    (limits : Limits) (total : ℕ) (xs : Items) (es : List Entry)
    → total ≤ limits.max_prompt_bytes
    → validate_entries limits total xs ≡ ok es
    → All HasRole es
      × (total + total_bytes es ≤ limits.max_prompt_bytes)
      × (length es ≡ items_length xs)
unfolding validate_entries
validate_entries-ok limits total nil es room h =
    let made : [] ≡ es = ground arith in rw (← made) (tt, omega (arith, room), refl)
validate_entries-ok limits total (cons v xs) es room h =
    let (e, one, rest) =
      >>=-eq-ok (validate_entry limits total v)
        (λ e. validate_entries limits (total + byte_length e.content) xs >>= λ es. ok (e ∷ es)) h in
    let (more, others, same) =
      >>=-eq-ok (validate_entries limits (total + byte_length e.content) xs) (λ es. ok (e ∷ es))
        rest in
    let (role, fits) = validate_entry-ok limits total v e one in
    let (roles, bounded, counted) =
      validate_entries-ok limits (total + byte_length e.content) xs more fits others in
    let made : e ∷ more ≡ es = ground arith in
    rw (← made) ((role, roles), omega (arith, bounded), omega (arith, counted))

validate_messages-ok :
    (limits : Limits) (v : Value) (es : List Entry)
    → validate_messages limits v ≡ ok es
    → All HasRole es
      × (total_bytes es ≤ limits.max_prompt_bytes)
      × (1 ≤ length es)
      × (length es ≤ limits.max_messages)
unfolding validate_messages
validate_messages-ok limits (arr xs) es h =
    let outside = ltb (items_length xs) 1 || ltb limits.max_messages (items_length xs) in
    let (u, counted, rest) =
      >>=-eq-ok (reject outside (lit "invalid_messages")) (λ u. validate_entries limits 0 xs) h in
    let within : (ltb (items_length xs) 1 || ltb limits.max_messages (items_length xs)) ≡ false =
      reject-eq-ok _ (lit "invalid_messages") counted in
    let (roles, bounded, same) = validate_entries-ok limits 0 xs es (omega arith) rest in
    (roles, omega (arith, bounded), ground arith, ground arith)
validate_messages-ok limits undef es h = cc
validate_messages-ok limits null es h = cc
validate_messages-ok limits (bool b) es h = cc
validate_messages-ok limits (num n) es h = cc
validate_messages-ok limits (str s) es h = cc
validate_messages-ok limits (obj fs) es h = cc

abbrev the_prompt : Prompt → Result Text Prompt
the_prompt p = ok p

ok_messages : (p q : Prompt) → the_prompt p ≡ the_prompt q → p.messages ≡ q.messages
ok_messages p q h = let same : p ≡ q = ground arith in rw same refl

-- A prompt that is accepted has between one message and the limit, every role is an allowed one, and
-- the contents of all its messages together are no longer than the limit in bytes of UTF-8.
pub validate_prompt_message-IsWithin :
    (limits : Limits) (message : Value) (p : Prompt)
    → validate_prompt_message limits message ≡ ok p
    → All HasRole p.messages
      × (total_bytes p.messages ≤ limits.max_prompt_bytes)
      × (1 ≤ length p.messages)
      × (length p.messages ≤ limits.max_messages)
unfolding validate_prompt_message
validate_prompt_message-IsWithin limits message p h =
    let (fs, typed, rest) = >>=-eq-ok (assert_type_and_version (lit "slaif.prompt") message) _ h in
    let (messages, chosen, last) =
      >>=-eq-ok (_ >> validate_messages limits (get_field (lit "messages") fs)) _ rest in
    let (u, ids, listed) =
      >>=-eq-ok
        (validate_session_id (get_field (lit "sessionId") fs)
          >> validate_prompt_id (get_field (lit "promptId") fs))
        _ chosen in
    let (options, set, same) =
      >>=-eq-ok (validate_prompt_options limits (options_or_empty (get_field (lit "options") fs))) _
        last in
    let made : messages ≡ p.messages =
      ok_messages
        (record {
          session_id = get_field (lit "sessionId") fs;
          prompt_id = get_field (lit "promptId") fs;
          messages = messages;
          options = options;
        })
        p same in
    rw (← made) (validate_messages-ok limits _ messages listed)
