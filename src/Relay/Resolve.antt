-- ===== src/Relay/Resolve.antt =====
-- `resolveRelayToken` and `targetForSession` of server/relay/relay.js. `now` is what `Date.now()` reads.
use slaif_connect.Base.{
  ℕ, ◌+◌, Bool, true, false, not, Option, none, some, List, [], ◌∷◌, Text, lit, text_eq, leb,
  length, ◌==◌, if◌then◌else◌, Result, ok, err,
}
use slaif_connect.Base.{split}
use slaif_connect.Base.Table.{Table, get}
use slaif_connect.Base.Value.{Value, str, num, int}
use slaif_connect.Tokens.Types.{Scalar, TokenError, TokenRecord, Expected, absent, relay_scope}
use slaif_connect.Tokens.Check.{entry}
use slaif_connect.Tokens.Registry.{Registry, consume_token, validate_token}
use slaif_connect.Relay.Types.{Session, Host, Target, normalize_alias}

-- An entry of `devTokenMap`; a field that is missing is `none`.
pub record DevEntry : Type 0 where
  pub hpc : Option Text
  pub alias : Option Text
  pub session_id : Option Text
  pub user_id : Option Text
  pub expires_at : Option ℕ

-- Who knows the tokens: a function of the caller's, a token registry, whose tokens are consumed or
-- only validated, or nobody.
pub data Authority : Type 0 where
  resolver : (Text → Option Session) → Authority
  registry : Bool → Authority
  nobody : Authority

pub record TokenOptions : Type 0 where
  pub authority : Authority
  pub dev_mode : Bool
  pub dev_token_map : Table DevEntry
  pub expected_session_id : Option Text
  pub expected_hpc : Option Text
  pub origin : Option Text
  pub token_ttl_ms : ℕ

abbrev relay_expected : TokenOptions → Expected
relay_expected o = record {
  scope = some relay_scope;
  session_id = o.expected_session_id;
  hpc = o.expected_hpc;
  origin = o.origin;
  metadata = absent;
}

-- `normalizeAlias` of a value of metadata
abbrev scalar_alias : Scalar → Option Text
scalar_alias (Scalar.text s) = normalize_alias s
scalar_alias _ = none

abbrev is_truthy : Scalar → Bool
is_truthy Scalar.undef = false
is_truthy Scalar.null = false
is_truthy (Scalar.flag b) = b
is_truthy (Scalar.count n) = not (n == 0)
is_truthy (Scalar.text []) = false
is_truthy (Scalar.text (c ∷ s)) = true

abbrev metadata_alias : Table Scalar → Option Text
metadata_alias m =
    if is_truthy (entry (lit "hpc") m)
    then scalar_alias (entry (lit "hpc") m)
    else scalar_alias (entry (lit "alias") m)

-- `normalizeAlias(record.hpc || record.metadata?.hpc || record.metadata?.alias)`
unfoldable pub record_alias : Option Text → Table Scalar → Option Text
record_alias (some (c ∷ s)) m = normalize_alias (c ∷ s)
record_alias (some []) m = metadata_alias m
record_alias none m = metadata_alias m

abbrev record_session : TokenRecord → Option Text → Option Session
record_session r none = none
record_session r (some hpc) = some (record {
  session_id = r.session_id;
  user_id = entry (lit "userId") r.metadata;
  hpc = hpc;
  expires_at = some r.expires_at;
  token_fingerprint = some r.fingerprint;
  metadata = r.metadata;
})

abbrev settle_registry :
    Result TokenError TokenRecord × Registry → Result TokenError (Option Session) × Registry
settle_registry (ok r, s) = (ok (record_session r (record_alias r.hpc r.metadata)), s)
settle_registry (err e, s) = (err e, s)

-- `a || b` on texts that may be missing
abbrev or_text : Option Text → Option Text → Option Text
or_text (some (c ∷ s)) b = some (c ∷ s)
or_text (some []) b = b
or_text none b = b

abbrev text_or : Option Text → Text → Text
text_or (some (c ∷ s)) d = c ∷ s
text_or (some []) d = d
text_or none d = d

-- `entry.expiresAt || Date.now() + tokenTtlMs`
abbrev expiry_or : Option ℕ → ℕ → ℕ
expiry_or none d = d
expiry_or (some t) d = if t == 0 then d else t

abbrev optional_alias : Option Text → Option Text
optional_alias none = none
optional_alias (some a) = normalize_alias a

abbrev dev_session : Text → Text → Text → ℕ → Session
dev_session session_id user_id hpc expires_at = record {
  session_id = some session_id;
  user_id = Scalar.text user_id;
  hpc = hpc;
  expires_at = some expires_at;
  token_fingerprint = none;
  metadata = [];
}

abbrev entry_session : ℕ → DevEntry → Option Text → Option Session
entry_session later e none = none
entry_session later e (some hpc) = some (
    dev_session (text_or e.session_id (lit "sess_dev_token")) (text_or e.user_id (lit "dev-user"))
      hpc (expiry_or e.expires_at later))

abbrev demo_session : ℕ → Text → Option Text → Option Session
demo_session later session_id none = none
demo_session later session_id (some hpc) = some (dev_session session_id (lit "demo-user") hpc later)

-- `demo:<hpc-alias>:<session-id>`
abbrev demo_token : ℕ → List Text → Option Session
demo_token later (head ∷ alias ∷ session_id ∷ []) =
    if text_eq head (lit "demo")
    then demo_session later session_id (normalize_alias alias)
    else none
demo_token later _ = none

abbrev dev_token : ℕ → Text → Option DevEntry → Option Session
dev_token later token (some e) = entry_session later e (optional_alias (or_text e.hpc e.alias))
dev_token later token none =
    if text_eq token (lit "dev-token-test-sshd")
    then some (dev_session (lit "sess_dev_test_sshd") (lit "dev-user") (lit "test-sshd") later)
    else demo_token later (split b':' token)

module _ (sha256 : Text → Text) where
  abbrev consult :
      ℕ → TokenOptions → Text → Registry → Authority → Result TokenError (Option Session) × Registry
  consult now o token s (resolver f) = (ok (f token), s)
  consult now o token s (registry true) =
      settle_registry (consume_token sha256 now s (some token) (relay_expected o))
  consult now o token s (registry false) =
      settle_registry (validate_token sha256 now s (some token) (relay_expected o))
  consult now o token s nobody =
      if o.dev_mode
      then (ok (dev_token (now + o.token_ttl_ms) token (get token o.dev_token_map)), s)
      else (ok none, s)

  -- `s` is the registry of tokens, if the options name it.
  unfoldable pub resolve_relay_token :
      ℕ → TokenOptions → Value → Registry → Result TokenError (Option Session) × Registry
  resolve_relay_token now o (str token) s =
      if leb 8 (length token) then consult now o token s o.authority else (ok none, s)
  resolve_relay_token now o _ s = (ok none, s)

-- What `targetForSession` finds: no target, a target, or an entry that makes it throw.
pub data Lookup : Type 0 where
  no_target : Lookup
  target : Target → Lookup
  bad_entry : Lookup

abbrev pub host_target : Text → Value → Value → Lookup
host_target alias (str host) (num (int port)) =
    target (record { alias = alias; host = host; port = port })
host_target alias _ _ = bad_entry

abbrev pub entry_target : Text → Option Host → Lookup
entry_target alias none = no_target
entry_target alias (some h) = host_target alias h.host h.port

abbrev pub alias_target : Table Host → Option Text → Lookup
alias_target hosts none = no_target
alias_target hosts (some alias) = entry_target alias (get alias hosts)

unfoldable pub target_for_session : Session → Table Host → Lookup
target_for_session s hosts = alias_target hosts (normalize_alias s.hpc)
