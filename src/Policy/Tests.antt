-- ===== src/Policy/Tests.antt =====
-- The theorems on the policies of the extension at small inputs.
use slaif_connect.Base.{
  contains, trim_start, trim_end, ℕ, ◌≡◌, refl, false, some, List, [], ◌∷◌, ◌++◌, Text, lit, Bool,
  text_eq, starts_with, is_word, class_match, prefix_match, guards, ok,
}
use slaif_connect.Base.Value.{str}
use slaif_connect.Policy.{
  Accepted, evaluate_policy_rollback, remember_production_policy, remember_all, placeholder,
  has_other_placeholder, is_control, any_unit, validate_remote_command_template, replace_from,
  build_remote_command,
}
use slaif_connect.Policy.Rollback.{IsOf, IsNoOlder, remember_all-IsNoOlder}
use slaif_connect.Policy.Command.{opening, build_remote_command-clean}

abbrev record_of : Text → ℕ → Accepted
record_of id n = record { policy_id = id; sequence = n; fingerprint = lit "print" }

abbrev stored : Accepted
stored = record_of (lit "policy") 5

abbrev runs : List (Bool × Accepted)
runs = (false, record_of (lit "policy") 4) ∷ (false, record_of (lit "policy") 7) ∷ []

is_of : (n : ℕ) → (d : Bool) → IsOf (lit "policy") (d, record_of (lit "policy") n)
unfolding text_eq
is_of n d = (refl, refl)

remember_all-IsNoOlder_example :
    (new : Accepted) × (remember_all runs (some stored) ≡ some new) × IsNoOlder stored new
remember_all-IsNoOlder_example =
    remember_all-IsNoOlder (lit "policy") runs stored (is_of 5 false)
      (is_of 4 false, (is_of 7 false, tt))

-- One record is stored, so the sequence of a policy is forgotten when another is accepted.
forgotten :
    remember_all
      ((false, record_of (lit "other") 1) ∷ (false, record_of (lit "policy") 4) ∷ [])
      (some stored)
    ≡ some (record_of (lit "policy") 4)
unfolding remember_all remember_production_policy evaluate_policy_rollback text_eq
forgotten = refl

abbrev template : Text
template = lit "run --id " ++ (placeholder ++ lit " -v")

abbrev session : Text
session = lit "sess_01234567"

abbrev command : Text
command = lit "run --id sess_01234567 -v"

is_valid : validate_remote_command_template (str template) (lit "vega") false ≡ ok tt
unfolding validate_remote_command_template guards trim_start trim_end text_eq contains starts_with
    has_other_placeholder any_unit
is_valid = refl

is_built : build_remote_command template (str session) ≡ ok command
unfolding build_remote_command guards prefix_match class_match is_word replace_from starts_with
is_built = refl

build_remote_command-clean_example :
    (contains command opening ≡ false) × (any_unit is_control command ≡ false)
build_remote_command-clean_example =
    build_remote_command-clean template (lit "vega") command (str session) false is_valid is_built
