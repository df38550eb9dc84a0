-- ===== src/Relay/Connection.antt =====
-- The handlers of one WebSocket connection of server/relay/relay.js. A handler takes the table of
-- active connections and the variables of its connection, and returns both; what it does to the
-- outside is a list of effects, oldest first. `await` splits the handler of a message into three.
use slaif_connect.Base.{
  ℕ, ◌+◌, ◌-◌, Bool, true, false, ◌||◌, Option, none, some, List, [], ◌∷◌, ◌++◌, Text, lit, text_eq,
  ltb, length, ◌==◌, if◌then◌else◌, Result, ok, err,
}
use slaif_connect.Base.Table.{Table}
use slaif_connect.Base.Value.{Value, Fields, end, field, obj, str, undef, property}
use slaif_connect.Relay.Types.{Session, Host, Target}
use slaif_connect.Relay.Resolve.{target_for_session, Lookup, no_target, target, bad_entry}
use slaif_connect.Relay.Active.{increment_active, decrement_active}

-- The options of `createRelayServer` that the handlers read, with `JSON.parse` of the text of a
-- message, which is `none` where it throws.
pub record Options : Type 0 where
  pub allowed_hosts : Table Host
  pub max_auth_message_bytes : ℕ
  pub idle_timeout_ms : ℕ
  pub max_connection_ms : ℕ
  pub max_connections_per_session : ℕ
  pub parse_json : List ℕ → Option Value

-- The fields of an audit event: the session that it names, the outcome, the reason or error code, and
-- the token, which the audit logger redacts.
pub record AuditFields : Type 0 where
  pub session : Option Session
  pub outcome : Text
  pub reason : Text
  pub token : Value

pub data Effect : Type 0 where
  audit : Text → AuditFields → Effect
  -- a metric, its outcome or direction or reason, its reason, and by how much it grows
  metric : Text → Text → Text → ℕ → Effect
  -- the gauge of active connections, and the observed duration
  gauge duration : ℕ → Effect
  close : ℕ → Text → Effect
  resolve : Value → Effect
  connect : Target → Effect
  send_ok : Effect
  send_chunk tcp_write : List ℕ → Effect
  tcp_destroy : Effect

pub data Socket : Type 0 where
  no_socket open_socket destroyed : Socket

-- The variables of the closure of `wss.on('connection')`; a timer is armed or not. `resolving` and
-- `connecting` count the messages that wait for a token, and for a TCP connection.
pub record Conn : Type 0 where
  pub authed : Bool
  pub tcp : Socket
  pub session : Option Session
  pub target : Option Target
  pub active_key : Option Text
  pub closed : Bool
  pub unauthenticated_timer : Bool
  pub idle_timer : Bool
  pub max_connection_timer : Bool
  pub connected_at : Option ℕ
  pub ws_to_tcp_bytes : ℕ
  pub tcp_to_ws_bytes : ℕ
  pub resolving : ℕ
  pub connecting : ℕ
  pub effects : List Effect

abbrev pub emit : Conn → List Effect → Conn
emit c es = record c { effects = c.effects ++ es }

abbrev pub note : Option Session → Text → Text → AuditFields
note session outcome reason = record {
  session = session;
  outcome = outcome;
  reason = reason;
  token = undef;
}

-- A new connection: its timer for the authentication runs.
abbrev pub opened : Conn
opened = record {
  authed = false;
  tcp = no_socket;
  session = none;
  target = none;
  active_key = none;
  closed = false;
  unauthenticated_timer = true;
  idle_timer = false;
  max_connection_timer = false;
  connected_at = none;
  ws_to_tcp_bytes = 0;
  tcp_to_ws_bytes = 0;
  resolving = 0;
  connecting = 0;
  effects = audit (lit "relay.connection_open") (note none [] []) ∷ [];
}

pub record Message : Type 0 where
  pub is_binary : Bool
  pub bytes : List ℕ

-- Why a message is rejected: the code of the close frame, and the reason.
pub record Rejection : Type 0 where
  pub close_code : ℕ
  pub reason : Text

abbrev pub rejection : ℕ → Text → Rejection
rejection code reason = record { close_code = code; reason = reason }

-- `key in o` for an own field
unfoldable pub has_field : Text → Fields → Bool
has_field key end = false
has_field key (field j v fs) = text_eq j key || has_field key fs

abbrev pub names_target : Fields → Bool
names_target fs =
    has_field (lit "host") fs || has_field (lit "port") fs || has_field (lit "target") fs

abbrev pub is_text : Text → Value → Bool
is_text t (str s) = text_eq s t
is_text t _ = false

-- The tests of a parsed message. What is no object has no field `type`.
unfoldable pub check_auth : Option Value → Result Rejection Value
check_auth none = err (rejection 1008 (lit "bad_auth_json"))
check_auth (some (obj fs)) =
    if is_text (lit "auth") (property (lit "type") (obj fs))
    then if names_target fs
      then err (rejection 1008 (lit "client_target_not_allowed"))
      else ok (property (lit "relayToken") (obj fs))
    else err (rejection 1008 (lit "bad_auth_type"))
check_auth (some _) = err (rejection 1008 (lit "bad_auth_type"))

unfoldable pub check_message : Options → Message → Result Rejection Value
check_message o m =
    if m.is_binary
    then err (rejection 1008 (lit "auth_required"))
    else if ltb o.max_auth_message_bytes (length m.bytes)
    then err (rejection 1009 (lit "auth_message_too_large"))
    else check_auth (o.parse_json m.bytes)

-- The two audit events, the metric and the close frame of a rejected authentication.
abbrev pub rejected : Rejection → Option Session → Value → List Effect
rejected r session token =
    audit (lit "relay.auth_rejected")
      (record { session = session; outcome = []; reason = r.reason; token = token })
    ∷ audit (lit "relay.auth.rejected")
        (record { session = session; outcome = lit "rejected"; reason = r.reason; token = token })
    ∷ metric (lit "slaif_relay_auth_total") (lit "rejected") r.reason 1
    ∷ close r.close_code r.reason
    ∷ []

abbrev pub reset_idle_timer : Options → Conn → Conn
reset_idle_timer o c =
    if c.authed then if o.idle_timeout_ms == 0 then c else record c { idle_timer = true } else c

-- The handler up to the first `await`.
abbrev pub begin_auth : Conn → Result Rejection Value → Conn
begin_auth c (err r) = emit c (rejected r none undef)
begin_auth c (ok token) = record (emit c (resolve token ∷ [])) { resolving = c.resolving + 1 }

abbrev pub forward : Options → Conn → List ℕ → Conn
forward o c bytes =
    emit (record (reset_idle_timer o c) { ws_to_tcp_bytes = c.ws_to_tcp_bytes + length bytes })
      (metric (lit "slaif_relay_bytes_total") (lit "ws_to_tcp") [] (length bytes)
        ∷ tcp_write bytes
        ∷ [])

abbrev pub relay_message : Options → Conn → Message → Socket → Conn
relay_message o c m open_socket = forward o c m.bytes
relay_message o c m _ = emit c (close 1011 (lit "tcp_not_connected") ∷ [])

unfoldable pub on_message : Options → Message → Conn → Conn
on_message o m c =
    if c.authed
    then if m.is_binary
      then relay_message o c m c.tcp
      else emit c (close 1003 (lit "binary_required") ∷ [])
    else begin_auth (emit c (audit (lit "relay.auth.started") (note none (lit "started") []) ∷ []))
        (check_message o m)

-- What `await resolveRelayToken` gives: the code of the error, or a session or null.
pub record Resolution : Type 0 where
  pub token : Value
  pub outcome : Result Text (Option Session)

abbrev is_past : ℕ → Option ℕ → Bool
is_past now none = false
is_past now (some t) = ltb t now

abbrev refused : Text → Rejection
refused = rejection 1008

abbrev pub take_place :
    Conn → Target → Result (Unit {0}) (Option Text × Table ℕ) → Table ℕ → Table ℕ × Conn
take_place c t (err _) active =
    (active, emit c (rejected (refused (lit "connection_limit_exceeded")) c.session undef))
take_place c t (ok (key, taken)) active =
    (taken, record (emit c (connect t ∷ [])) { active_key = key; connecting = c.connecting + 1 })

abbrev pub choose_target : Options → Table ℕ → Conn → Lookup → Table ℕ × Conn
choose_target o active c bad_entry = (
  active,
  emit c (
      audit (lit "relay.error") (note c.session [] (lit "relay_error"))
      ∷ close 1011 (lit "relay_error")
      ∷ []),
)
choose_target o active c no_target = (
  active,
  emit (record c { target = none }) (rejected (refused (lit "target_not_allowed")) c.session undef),
)
choose_target o active c (target t) =
    take_place (record c { target = some t }) t
      (increment_active o.max_connections_per_session c.session active) active

abbrev pub admit_session : Options → Table ℕ → Conn → Value → Session → Bool → Table ℕ × Conn
admit_session o active c token s true =
    (active, emit c (rejected (refused (lit "invalid_or_expired_token")) none token))
admit_session o active c token s false =
    choose_target o active c (target_for_session s o.allowed_hosts)

abbrev pub settle_session : Options → ℕ → Table ℕ → Conn → Value → Option Session → Table ℕ × Conn
settle_session o now active c token none = (
  active,
  emit (record c { session = none })
      (rejected (refused (lit "invalid_or_expired_token")) none token),
)
settle_session o now active c token (some s) =
    admit_session o active (record c { session = some s }) token s (is_past now s.expires_at)

abbrev pub settle_resolution :
    Options → ℕ → Table ℕ → Conn → Value → Result Text (Option Session) → Table ℕ × Conn
settle_resolution o now active c token (err code) =
    (active, emit c (rejected (refused code) none token))
settle_resolution o now active c token (ok s) = settle_session o now active c token s

-- The handler from the first `await` to the second.
unfoldable pub on_resolved : Options → ℕ → Resolution → Table ℕ → Conn → Table ℕ × Conn
on_resolved o now r active c =
    settle_resolution o now active (record c { resolving = c.resolving - 1 }) r.token r.outcome

-- What the outer `catch` does; a session or a target that is null makes the code throw.
abbrev pub relay_error : Option Session → List Effect
relay_error session =
    audit (lit "relay.error") (note session [] (lit "relay_error"))
    ∷ close 1011 (lit "relay_error")
    ∷ []

abbrev pub connected_effects : Option Session → Option Target → ℕ → List Effect
connected_effects (some s) (some t) actives =
    audit (lit "relay.auth.accepted") (note (some s) (lit "accepted") [])
    ∷ audit (lit "relay.connected") (note (some s) [] [])
    ∷ metric (lit "slaif_relay_auth_total") (lit "accepted") [] 1
    ∷ metric (lit "slaif_relay_connections_total") (lit "connected") [] 1
    ∷ gauge actives
    ∷ []
connected_effects (some s) none actives = relay_error (some s)
connected_effects none t actives = relay_error none

-- The handler behind the second `await`.
unfoldable pub on_connected : Options → ℕ → Table ℕ → Conn → Conn
on_connected o now active c =
    emit
      (reset_idle_timer o (record c {
        connecting = c.connecting - 1;
        tcp = open_socket;
        authed = true;
        connected_at = some now;
        unauthenticated_timer = false;
        max_connection_timer = if o.max_connection_ms == 0 then c.max_connection_timer else true;
      }))
      (send_ok ∷ connected_effects c.session c.target (length active))

abbrev pub failed_effects : Text → Option Session → Option Target → List Effect
failed_effects code (some s) (some t) =
    audit (lit "relay.tcp_connect_failed") (note (some s) [] code)
    ∷ audit (lit "relay.error") (note (some s) (lit "rejected") code)
    ∷ close 1011 (lit "tcp_connect_failed")
    ∷ []
failed_effects code (some s) none = relay_error (some s)
failed_effects code none t = relay_error none

-- `connectTcp` has thrown; `code` is `error.code || 'tcp_connect_failed'`.
unfoldable pub on_connect_failed : Text → Table ℕ → Conn → Table ℕ × Conn
on_connect_failed code active c = (
  decrement_active c.active_key active,
  emit (record c { connecting = c.connecting - 1; active_key = none })
      (failed_effects code c.session c.target),
)

-- `is_open` tells whether the WebSocket is open.
unfoldable pub on_tcp_data : Options → List ℕ → Bool → Conn → Conn
on_tcp_data o chunk is_open c =
    emit (record (reset_idle_timer o c) { tcp_to_ws_bytes = c.tcp_to_ws_bytes + length chunk })
      (metric (lit "slaif_relay_bytes_total") (lit "tcp_to_ws") [] (length chunk)
        ∷ (if is_open then send_chunk chunk ∷ [] else []))

unfoldable pub on_tcp_closed : Conn → Conn
on_tcp_closed c = emit (record c { tcp = destroyed }) (close 1000 (lit "tcp_closed") ∷ [])

unfoldable pub on_tcp_error : Conn → Conn
on_tcp_error c = emit (record c { tcp = destroyed }) (close 1011 (lit "tcp_error") ∷ [])

unfoldable pub on_auth_timeout : Conn → Conn
on_auth_timeout c =
    emit (record c { unauthenticated_timer = false })
      (audit (lit "relay.auth_timeout") (note none [] [])
        ∷ audit (lit "relay.timeout") (note none (lit "rejected") (lit "auth_timeout"))
        ∷ metric (lit "slaif_relay_timeouts_total") (lit "auth_timeout") [] 1
        ∷ close 1008 (lit "auth_timeout")
        ∷ [])

unfoldable pub on_idle_timeout : Conn → Conn
on_idle_timeout c =
    emit (record c { idle_timer = false })
      (audit (lit "relay.idle_timeout") (note c.session [] [])
        ∷ audit (lit "relay.timeout") (note c.session (lit "closed") (lit "idle_timeout"))
        ∷ metric (lit "slaif_relay_timeouts_total") (lit "idle_timeout") [] 1
        ∷ close 1000 (lit "idle_timeout")
        ∷ [])

unfoldable pub on_max_lifetime : Conn → Conn
on_max_lifetime c =
    emit (record c { max_connection_timer = false })
      (audit (lit "relay.max_lifetime_exceeded") (note c.session [] [])
        ∷ audit (lit "relay.timeout") (note c.session (lit "closed") (lit "max_lifetime_exceeded"))
        ∷ metric (lit "slaif_relay_timeouts_total") (lit "max_lifetime_exceeded") [] 1
        ∷ close 1000 (lit "max_lifetime_exceeded")
        ∷ [])

abbrev pub destroy_socket : Socket → List Effect
destroy_socket open_socket = tcp_destroy ∷ []
destroy_socket _ = []

abbrev pub closed_socket : Socket → Socket
closed_socket open_socket = destroyed
closed_socket s = s

abbrev pub observed : ℕ → Option ℕ → List Effect
observed now none = []
observed now (some t) = if t == 0 then [] else duration (now - t) ∷ []

unfoldable pub on_close : ℕ → Table ℕ → Conn → Table ℕ × Conn
on_close now active c = if c.closed then (active, c) else (
  decrement_active c.active_key active,
  emit
      (record c {
        closed = true;
        unauthenticated_timer = false;
        idle_timer = false;
        max_connection_timer = false;
        tcp = closed_socket c.tcp;
      })
      (gauge (length (decrement_active c.active_key active)) ∷ destroy_socket c.tcp
        ++ (observed now c.connected_at
            ++ (audit (lit "relay.connection_close") (note c.session [] [])
                ∷ audit (lit "relay.closed") (note c.session (lit "closed") [])
                ∷ []))),
)
