-- ===== src/Policy.antt =====
-- extension/js/slaif_policy.js and slaif_policy_signature.js, with the part of session.js that
-- remembers the policy that was accepted last. An error is its message.
use slaif_connect.Base.{
  contains, trim, ℕ, Bool, true, false, not, ◌||◌, ◌&&◌, zero, suc, Option, none, some, List, [],
  ◌∷◌, ◌++◌, Text, lit, text_eq, starts_with, ltb, ◌==◌, is_word, prefix_match, Result, ok, err,
  ◌>>=◌, ◌>>◌, guards, if◌then◌else◌,
}
use slaif_connect.Base.Value.{Value, str}
pub mod Rollback
pub mod Command
pub mod Tests

-- The record of a policy that was accepted, as far as it is read again
pub record Accepted : Type 0 where
  pub policy_id : Text
  pub sequence : ℕ
  pub fingerprint : Text

unfoldable pub evaluate_policy_rollback : Accepted → Option Accepted → Result Text (Unit {0})
evaluate_policy_rollback policy none = ok tt
evaluate_policy_rollback policy (some previous) =
    if not (text_eq previous.policy_id policy.policy_id)
    then ok tt
    else guards (
        (ltb policy.sequence previous.sequence, lit "signed policy rollback rejected")
        ∷ (
          previous.sequence == policy.sequence
              && not (text_eq previous.fingerprint [])
              && not (text_eq previous.fingerprint policy.fingerprint),
          lit "signed policy sequence reuse with different fingerprint rejected",
        )
        ∷ [])

-- `rememberProductionPolicy` on the record that is stored; in local development nothing is stored.
unfoldable pub remember_production_policy :
    Bool → Accepted → Option Accepted → Result Text (Option Accepted)
remember_production_policy allow_local_dev policy stored =
    if allow_local_dev
    then ok stored
    else evaluate_policy_rollback policy stored >> ok (some policy)

-- One session after the other: a policy that is refused leaves what is stored.
abbrev pub after : Option Accepted → Result Text (Option Accepted) → Option Accepted
after stored (ok next) = next
after stored (err message) = stored

unfoldable pub remember_all : List (Bool × Accepted) → Option Accepted → Option Accepted
remember_all [] stored = stored
remember_all ((dev, policy) ∷ rest) stored =
    remember_all rest (after stored (remember_production_policy dev policy stored))

abbrev pub placeholder : Text
placeholder = lit "$" ++ (lit "{" ++ lit "SESSION_ID}")

-- `/\$\{(?!SESSION_ID\})/.test(template)`
unfoldable pub has_other_placeholder : Text → Bool
has_other_placeholder [] = false
has_other_placeholder (c ∷ s) =
    (starts_with (c ∷ s) (b'$' ∷ b'{' ∷ []) && not (starts_with (c ∷ s) placeholder))
    || has_other_placeholder s

-- `[\r\n\0]`
abbrev pub is_control : ℕ → Bool
is_control c = c == 13 || c == 10 || c == 0

-- `pattern.test(s)` for a class of units
unfoldable pub any_unit : (ℕ → Bool) → Text → Bool
any_unit p [] = false
any_unit p (c ∷ s) = p c || any_unit p s

unfoldable pub validate_remote_command_template : Value → Text → Bool → Result Text (Unit {0})
validate_remote_command_template (str template) alias pilot = guards (
    (
      text_eq (trim template) [],
      lit "policy host " ++ (alias ++ lit " has empty remoteCommandTemplate"),
    )
    ∷ (
      not pilot && not (contains template placeholder),
      lit "policy host " ++ (alias ++ (lit " command template must include \\" ++ placeholder)),
    )
    ∷ (
      has_other_placeholder template,
      lit "policy host " ++ (alias ++ lit " command template contains unsupported placeholders"),
    )
    ∷ (
      any_unit is_control template,
      lit "policy host " ++ (alias ++ lit " command template contains control characters"),
    )
    ∷ [])
validate_remote_command_template _ alias pilot =
    err (lit "policy host " ++ (alias ++ lit " has empty remoteCommandTemplate"))

-- `template.replaceAll('${SESSION_ID}', id)`; the number is that of the units of a placeholder that
-- are still to be passed over.
unfoldable pub replace_from : Text → ℕ → Text → Text
replace_from id n [] = []
replace_from id (suc n) (c ∷ s) = replace_from id n s
replace_from id zero (c ∷ s) =
    let replaced = replace_from id 12 s in
    let kept = replace_from id zero s in
    if starts_with (c ∷ s) placeholder then id ++ replaced else c ∷ kept

unfoldable pub build_remote_command : Text → Value → Result Text Text
build_remote_command template (str id) =
    guards (
      (not (prefix_match (lit "sess_") is_word 8 128 id), lit "invalid SLAIF session id: " ++ id)
      ∷ [])
    >> ok (replace_from id zero template)
build_remote_command template _ = err (lit "invalid SLAIF session id")
