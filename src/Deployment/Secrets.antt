-- ===== src/Deployment/Secrets.antt =====
-- What `getSafeDeploymentSummary` of server/config/deployment_config.js tells of the token store's URL.
use slaif_connect.Base.{◌≡◌, sym, ◌∙◌, Text, Result, ok, ok_inj}
use slaif_connect.Base.Value.{Value}

same_value :
    {A : Type 0} {first second : Result Text A} {a b : A}
    → first ≡ second
    → first ≡ ok a
    → second ≡ ok b
    → a ≡ b
same_value e h k = ok_inj (sym h ∙ e ∙ k)
