-- ===== src/Relay/Types.antt =====
-- The data of server/relay/relay.js, and what the relay makes of an alias.
use slaif_connect.Base.{
  ℕ, ◌≡◌, Bool, true, Option, none, some, Text, is_word, class_match, to_lower,
  class_match-to_lower, to_lower_idem, arith, if◌then◌else◌,
}
use slaif_connect.Base.Table.{Table}
use slaif_connect.Base.Value.{Value, ℤ}
use slaif_connect.Tokens.Types.{Scalar}

-- What a relay token stands for. A resolver of the caller's may leave out the expiry.
pub record Session : Type 0 where
  pub session_id : Option Text
  pub user_id : Scalar
  pub hpc : Text
  pub expires_at : Option ℕ
  pub token_fingerprint : Option Text
  pub metadata : Table Scalar

-- An entry of the file of allowed hosts.
pub record Host : Type 0 where
  pub host : Value
  pub port : Value

pub record Target : Type 0 where
  pub alias : Text
  pub host : Text
  pub port : ℤ

-- `/^[a-z0-9_-]{1,64}$/i.test(alias)`
unfoldable pub validate_alias : Text → Bool
validate_alias alias = class_match is_word 1 64 alias

unfoldable pub normalize_alias : Text → Option Text
normalize_alias alias = if validate_alias alias then some (to_lower alias) else none

-- A normalized alias is an alias, and normalizing it again changes nothing.
pub normalize_alias_idem :
    (alias safe : Text)
    → normalize_alias alias ≡ some safe
    → (validate_alias safe ≡ true) × (normalize_alias safe ≡ some safe)
unfolding normalize_alias validate_alias
normalize_alias_idem alias safe h =
    ground (arith, class_match-to_lower 1 64 alias, to_lower_idem alias)
