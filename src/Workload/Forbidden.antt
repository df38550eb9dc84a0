-- ===== src/Workload/Forbidden.antt =====
-- `assertNoForbiddenWorkloadFields` of server/workloads/workload_protocol.js.
use slaif_connect.Base.{◌≡◌, true, List, [], ◌∷◌, Text, lit, includes, Result, ok, err, ◌↔◌}
use slaif_connect.Base.Value.{Value}
use slaif_connect.Forbidden.{walk, walk_iff, walk-error, Occurs}

abbrev pub forbidden_workload_fields : List Text
forbidden_workload_fields =
    lit "command"
    ∷ lit "shellCommand"
    ∷ lit "remoteCommand"
    ∷ lit "sshCommand"
    ∷ lit "script"
    ∷ lit "scriptText"
    ∷ lit "jobScript"
    ∷ lit "password"
    ∷ lit "passphrase"
    ∷ lit "otp"
    ∷ lit "privateKey"
    ∷ lit "sshPrivateKey"
    ∷ lit "launchToken"
    ∷ lit "relayToken"
    ∷ lit "jobReportToken"
    ∷ lit "workloadToken"
    ∷ lit "token"
    ∷ lit "Authorization"
    ∷ lit "authorization"
    ∷ []

abbrev pub forbidden_error : Text
forbidden_error = lit "forbidden_workload_field"

unfoldable pub assert_no_forbidden : Value → Result Text (Unit {0})
assert_no_forbidden = walk forbidden_workload_fields forbidden_error

-- A value passes exactly when no forbidden key stands in it at any depth, inside arrays and objects.
pub assert_no_forbidden_iff :
    (v : Value)
    → (assert_no_forbidden v ≡ ok tt)
      ↔ ((k : Text) → includes forbidden_workload_fields k ≡ true → ¬ (Occurs k v))
unfolding assert_no_forbidden
assert_no_forbidden_iff = walk_iff forbidden_workload_fields forbidden_error

pub assert_no_forbidden-error :
    (v : Value) (k : Text)
    → includes forbidden_workload_fields k ≡ true
    → Occurs k v
    → assert_no_forbidden v ≡ err forbidden_error
unfolding assert_no_forbidden
assert_no_forbidden-error = walk-error forbidden_workload_fields forbidden_error
