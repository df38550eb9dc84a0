-- ===== src/Relay/Tests.antt =====
-- The theorems on server/relay/relay.js at one relay: a client with a token, and its TCP connection.
use slaif_connect.Base.{
  ℕ, ◌≡◌, refl, class_match, is_word, lower, false, none, some, [], ◌∷◌, lit, All, ok, arith,
  text_eq,
}
use slaif_connect.Base.Table.{Table, get}
use slaif_connect.Base.Value.{num, int, pos, str, obj, field, end, get_field}
use slaif_connect.Tokens.Types.{Scalar}
use slaif_connect.Relay.Types.{Session, Host, normalize_alias, validate_alias}
use slaif_connect.Relay.Active.{IsWithin, count, active_key, increment_active}
use slaif_connect.Relay.Resolve.{target_for_session}
use slaif_connect.Relay.Connection.{
  Options, Conn, Message, Resolution, opened, has_field, check_auth, check_message, on_message,
  on_resolved, on_connect_failed, on_close,
}
use slaif_connect.Relay.Steps.{
  World, Step, Reach, handle, message, resolved, connected, opens, acts, idle_world, start, next,
}
use slaif_connect.Base.{◌↔◌, ◌≤◌, length}
use slaif_connect.Relay.Auth.{IsAuth, on_message-asks_iff}
use slaif_connect.Relay.Permitted.{Permitted}
use slaif_connect.Relay.Safety.{Reach-IsSafe}
use slaif_connect.Relay.Limit.{Reach-IsWithin, place_returned, close_then_fail}

abbrev sample_host : Host
sample_host = record { host = str (lit "10.0.0.1"); port = num (int (pos 22)) }

abbrev sample_options : Options
sample_options = record {
  allowed_hosts = (lit "vega", sample_host) ∷ [];
  max_auth_message_bytes = 8192;
  idle_timeout_ms = 1000;
  max_connection_ms = 5000;
  max_connections_per_session = 2;
  parse_json = λ bytes. some (
      obj (field (lit "type") (str (lit "auth")) (field (lit "relayToken") (str (lit "tok")) end)));
}

abbrev sample_message : Message
sample_message = record { is_binary = false; bytes = b'{' ∷ [] }

abbrev sample_session : Session
sample_session = record {
  session_id = some (lit "s1");
  user_id = Scalar.undef;
  hpc = lit "vega";
  expires_at = some 9000;
  token_fingerprint = none;
  metadata = [];
}

abbrev sample_resolution : Resolution
sample_resolution = record { token = str (lit "tok"); outcome = ok (some sample_session) }

abbrev asked : Conn
asked = (handle sample_options (message sample_message) [] opened).1

abbrev placed : Table ℕ × Conn
placed = handle sample_options (resolved 100 sample_resolution) [] asked

abbrev relayed : Table ℕ × Conn
relayed = handle sample_options (connected 200) placed.0 placed.1

abbrev sample_world : World
sample_world = record { active = relayed.0; conns = relayed.1 ∷ [] }

abbrev first_world : World
first_world = record { active = []; conns = opened ∷ [] }

abbrev asked_world : World
asked_world = record { active = []; conns = asked ∷ [] }

abbrev placed_world : World
placed_world = record { active = placed.0; conns = placed.1 ∷ [] }

opens_Step : Step sample_options idle_world first_world
opens_Step = opens refl

asks_Step : Step sample_options first_world asked_world
unfolding handle
asks_Step = acts [] [] opened (message sample_message) refl refl refl

resolves_Step : Step sample_options asked_world placed_world
unfolding handle on_message check_message check_auth has_field get_field text_eq
resolves_Step = acts [] [] asked (resolved 100 sample_resolution) refl (omega arith) refl

connects_Step : Step sample_options placed_world sample_world
unfolding handle on_message check_message check_auth has_field on_resolved target_for_session
    normalize_alias validate_alias increment_active active_key class_match is_word get get_field
    text_eq lower
connects_Step = acts [] [] placed.1 (connected 200) refl (omega arith) refl

sample_Reach : Reach sample_options sample_world
sample_Reach = next (next (next (next start opens_Step) asks_Step) resolves_Step) connects_Step

Reach-IsSafe_example :
    All (λ c. All (Permitted sample_options.allowed_hosts c.authed) c.effects) sample_world.conns
Reach-IsSafe_example = Reach-IsSafe sample_options sample_world sample_Reach

Reach-IsWithin_example : IsWithin 2 sample_world.active
Reach-IsWithin_example = Reach-IsWithin sample_options sample_world sample_Reach

place_returned_example :
    (get
        (lit "s1:vega")
        (on_connect_failed
          (lit "ECONNREFUSED")
          (on_resolved sample_options 100 sample_resolution [] opened).0
          (on_resolved sample_options 100 sample_resolution [] opened).1).0
      ≡ none)
    × (get
          (lit "s1:vega")
          (on_close 300
            (on_resolved sample_options 100 sample_resolution [] opened).0
            (on_resolved sample_options 100 sample_resolution [] opened).1).0
        ≡ none)
unfolding get
place_returned_example =
    place_returned sample_options 100 300 sample_resolution (lit "ECONNREFUSED") [] opened
      (lit "s1:vega") tt refl refl

abbrev connecting_conn : Conn
connecting_conn = record opened { active_key = some (lit "s1:vega"); connecting = 1 }

close_then_fail_example :
    count
      (lit "s1:vega")
      (on_connect_failed
        (lit "ECONNREFUSED")
        (on_close 300 ((lit "s1:vega", 2) ∷ []) connecting_conn).0
        (on_close 300 ((lit "s1:vega", 2) ∷ []) connecting_conn).1).0
    ≡ 0
unfolding get text_eq
close_then_fail_example =
    close_then_fail 300 (lit "ECONNREFUSED") ((lit "s1:vega", 2) ∷ []) connecting_conn
      (lit "s1:vega") 0 refl refl refl

on_message-asks_iff_example : ((on_message sample_options sample_message opened).resolving ≡ 1) ↔ (
    (sample_message.is_binary ≡ false)
    × (length sample_message.bytes ≤ 8192)
    × IsAuth (sample_options.parse_json sample_message.bytes))
on_message-asks_iff_example = on_message-asks_iff sample_options sample_message opened refl
