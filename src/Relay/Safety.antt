-- ===== src/Relay/Safety.antt =====
-- The handlers of server/relay/relay.js from the TCP connection on: which hosts the relay connects
-- to, and for whom it carries bytes.
use slaif_connect.Base.{
  ℕ, ◌+◌, ◌-◌, ◌≡◌, refl, Bool, true, false, Option, none, some, List, [], ◌∷◌, Text, All, length,
  if◌then◌else◌, ◌==◌,
}
use slaif_connect.Base.Table.{Table}
use slaif_connect.Relay.Types.{Session, Target, Host}
use slaif_connect.Relay.Connection.{
  Options, Conn, Effect, Socket, audit, metric, gauge, duration, close, resolve, connect, send_ok,
  send_chunk, tcp_write, tcp_destroy, on_connected, on_connect_failed, on_tcp_data, on_tcp_closed,
  on_tcp_error, on_auth_timeout, on_idle_timeout, on_max_lifetime, on_close, no_socket, open_socket,
  destroyed, reset_idle_timer, connected_effects, failed_effects, destroy_socket, observed,
  closed_socket,
}
use slaif_connect.Relay.Steps.{
  World, Reach, Event, Enabled, handle, Reach-Invariant, message, resolved, connected,
  connect_failed, tcp_data, tcp_closed, tcp_error, auth_timeout, idle_timeout, max_lifetime, closes,
}
use slaif_connect.Relay.Permitted.{
  Permitted, IsSafe, All-append, if_holds, emit-IsSafe, reset-IsSafe, on_message-IsSafe,
  on_resolved-IsSafe,
}

Permitted-later :
    (hosts : Table Host) (authed : Bool) (e : Effect)
    → Permitted hosts authed e
    → Permitted hosts true e
Permitted-later hosts authed (audit a b) h = tt
Permitted-later hosts authed (metric a b d n) h = tt
Permitted-later hosts authed (gauge n) h = tt
Permitted-later hosts authed (duration n) h = tt
Permitted-later hosts authed (close n t) h = tt
Permitted-later hosts authed (resolve v) h = tt
Permitted-later hosts authed (connect t) h = h
Permitted-later hosts authed send_ok h = refl
Permitted-later hosts authed (send_chunk b) h = refl
Permitted-later hosts authed (tcp_write b) h = refl
Permitted-later hosts authed tcp_destroy h = tt

All-later :
    (hosts : Table Host) (authed : Bool) (es : List Effect)
    → All (Permitted hosts authed) es
    → All (Permitted hosts true) es
All-later hosts authed [] h = tt
All-later hosts authed (e ∷ es) h =
    (Permitted-later hosts authed e h.0, All-later hosts authed es h.1)

connected_effects-Permitted :
    (hosts : Table Host) (b : Bool) (s : Option Session) (t : Option Target) (n : ℕ)
    → All (Permitted hosts b) (connected_effects s t n)
connected_effects-Permitted hosts b (some s) (some t) n = (tt, (tt, (tt, (tt, (tt, tt)))))
connected_effects-Permitted hosts b (some s) none n = (tt, (tt, tt))
connected_effects-Permitted hosts b none t n = (tt, (tt, tt))

failed_effects-Permitted :
    (hosts : Table Host) (b : Bool) (code : Text) (s : Option Session) (t : Option Target)
    → All (Permitted hosts b) (failed_effects code s t)
failed_effects-Permitted hosts b code (some s) (some t) = (tt, (tt, (tt, tt)))
failed_effects-Permitted hosts b code (some s) none = (tt, (tt, tt))
failed_effects-Permitted hosts b code none t = (tt, (tt, tt))

on_connected-IsSafe :
    (o : Options) (now : ℕ) (active : Table ℕ) (c : Conn)
    → IsSafe o.allowed_hosts c
    → IsSafe o.allowed_hosts (on_connected o now active c)
unfolding on_connected
on_connected-IsSafe o now active c i =
    let conn = record c {
      connecting = c.connecting - 1;
      tcp = open_socket;
      authed = true;
      connected_at = some now;
      unauthenticated_timer = false;
      max_connection_timer = if o.max_connection_ms == 0 then c.max_connection_timer else true;
    } in
    let j = reset-IsSafe o conn (record {
      permitted = All-later o.allowed_hosts c.authed c.effects i.permitted;
      guarded = λ e. refl;
    }) in
    let on : (reset_idle_timer o conn).authed ≡ true =
      if_holds (λ (x : Conn). x.authed ≡ true) (o.idle_timeout_ms == 0) _ _ (λ z. refl)
        (λ z. refl) in
    emit-IsSafe o.allowed_hosts _ _ j
      (on, connected_effects-Permitted o.allowed_hosts _ c.session c.target _)

destroy_socket-Permitted :
    (hosts : Table Host) (b : Bool) (s : Socket) → All (Permitted hosts b) (destroy_socket s)
destroy_socket-Permitted hosts b no_socket = tt
destroy_socket-Permitted hosts b open_socket = (tt, tt)
destroy_socket-Permitted hosts b destroyed = tt

observed-Permitted :
    (hosts : Table Host) (b : Bool) (now : ℕ) (t : Option ℕ)
    → All (Permitted hosts b) (observed now t)
observed-Permitted hosts b now none = tt
observed-Permitted hosts b now (some t) =
    if_holds (All (Permitted hosts b)) (t == 0) _ _ (λ z. tt) (λ z. (tt, tt))

closed_socket_lem : (s : Socket) → ¬ (closed_socket s ≡ open_socket)
closed_socket_lem no_socket e = cc
closed_socket_lem open_socket e = cc
closed_socket_lem destroyed e = cc

on_close-IsSafe :
    (o : Options) (now : ℕ) (active : Table ℕ) (c : Conn)
    → IsSafe o.allowed_hosts c
    → IsSafe o.allowed_hosts (on_close now active c).1
unfolding on_close
on_close-IsSafe o now active c i =
    let P = Permitted o.allowed_hosts c.authed in
    if_holds (λ (x : Table ℕ × Conn). IsSafe o.allowed_hosts x.1) c.closed _ _ (λ z. i)
      (λ z.
        emit-IsSafe o.allowed_hosts _ _
          (record { permitted = i.permitted; guarded = λ e. absurd (closed_socket_lem c.tcp e) })
          (
            tt,
            All-append P (destroy_socket c.tcp) _
                (destroy_socket-Permitted o.allowed_hosts c.authed c.tcp)
                (All-append P (observed now c.connected_at) _
                  (observed-Permitted o.allowed_hosts c.authed now c.connected_at) (tt, (tt, tt))),
          ))

on_tcp_data-IsSafe :
    (o : Options) (chunk : List ℕ) (is_open : Bool) (c : Conn)
    → c.tcp ≡ open_socket
    → IsSafe o.allowed_hosts c
    → IsSafe o.allowed_hosts (on_tcp_data o chunk is_open c)
unfolding on_tcp_data
on_tcp_data-IsSafe o chunk is_open c e i =
    let j = reset-IsSafe o c i in
    let stays : (reset_idle_timer o c).tcp ≡ open_socket =
      if_holds (λ (x : Conn). x.tcp ≡ open_socket) c.authed _ _
        (λ on. if_holds (λ (x : Conn). x.tcp ≡ open_socket) _ _ _ (λ z. e) (λ z. e)) (λ off. e) in
    emit-IsSafe o.allowed_hosts
      (record (reset_idle_timer o c) { tcp_to_ws_bytes = c.tcp_to_ws_bytes + length chunk }) _
      (record { permitted = j.permitted; guarded = j.guarded })
      (
        tt,
        if_holds (All (Permitted o.allowed_hosts (reset_idle_timer o c).authed)) is_open _ _
            (λ z. (j.guarded stays, tt)) (λ z. tt),
      )

same_effects :
    (hosts : Table Host) (c : Conn) (u m i : Bool) (n : ℕ) (key : Option Text)
    → IsSafe hosts c
    → IsSafe hosts (record c {
      unauthenticated_timer = u;
      idle_timer = i;
      max_connection_timer = m;
      connecting = n;
      active_key = key;
    })
same_effects hosts c u m i n key h = record { permitted = h.permitted; guarded = h.guarded }

destroyed-IsSafe :
    (hosts : Table Host) (c : Conn) → IsSafe hosts c → IsSafe hosts (record c { tcp = destroyed })
destroyed-IsSafe hosts c i = record {
  permitted = i.permitted;
  guarded = λ e. absurd (closed_socket_lem destroyed e);
}

handle-IsSafe :
    (o : Options) (e : Event) (active : Table ℕ) (c : Conn)
    → Enabled e c
    → IsSafe o.allowed_hosts c
    → IsSafe o.allowed_hosts (handle o e active c).1
unfolding handle on_connect_failed on_tcp_closed on_tcp_error on_auth_timeout on_idle_timeout
    on_max_lifetime
handle-IsSafe o (message m) active c on i = on_message-IsSafe o m c i
handle-IsSafe o (resolved now r) active c on i = on_resolved-IsSafe o now r active c i
handle-IsSafe o (connected now) active c on i = on_connected-IsSafe o now active c i
handle-IsSafe o (connect_failed code) active c on i =
    emit-IsSafe o.allowed_hosts _ _ (same_effects o.allowed_hosts c _ _ _ _ none i)
      (failed_effects-Permitted o.allowed_hosts c.authed code c.session c.target)
handle-IsSafe o (tcp_data chunk is_open) active c on i = on_tcp_data-IsSafe o chunk is_open c on i
handle-IsSafe o tcp_closed active c on i =
    emit-IsSafe o.allowed_hosts _ _ (destroyed-IsSafe o.allowed_hosts c i) (tt, tt)
handle-IsSafe o tcp_error active c on i =
    emit-IsSafe o.allowed_hosts _ _ (destroyed-IsSafe o.allowed_hosts c i) (tt, tt)
handle-IsSafe o auth_timeout active c on i =
    emit-IsSafe o.allowed_hosts _ _ (same_effects o.allowed_hosts c _ _ _ _ _ i)
      (tt, (tt, (tt, (tt, tt))))
handle-IsSafe o idle_timeout active c on i =
    emit-IsSafe o.allowed_hosts _ _ (same_effects o.allowed_hosts c _ _ _ _ _ i)
      (tt, (tt, (tt, (tt, tt))))
handle-IsSafe o max_lifetime active c on i =
    emit-IsSafe o.allowed_hosts _ _ (same_effects o.allowed_hosts c _ _ _ _ _ i)
      (tt, (tt, (tt, (tt, tt))))
handle-IsSafe o (closes now) active c on i = on_close-IsSafe o now active c i

-- In every world that the relay can reach, in whatever order the events of its connections come, each
-- TCP connection that it asked for goes to the very host and port of the entry that the configured
-- hosts have under the target's alias, which is one to 64 word characters or dashes, and a connection that sent the message `ok`, or a byte of traffic either way, is authenticated.
pub Reach-IsSafe :
    (o : Options) (w : World)
    → Reach o w
    → All (λ c. All (Permitted o.allowed_hosts c.authed) c.effects) w.conns
Reach-IsSafe o w r =
    go w.conns
      (Reach-Invariant o (IsSafe o.allowed_hosts) (λ active. Unit)
        (record { permitted = (tt, tt); guarded = λ e. cc }) tt
        (λ e active c on u i. (tt, handle-IsSafe o e active c on i)) r).each
  where
    go :
        (cs : List Conn)
        → All (IsSafe o.allowed_hosts) cs
        → All (λ c. All (Permitted o.allowed_hosts c.authed) c.effects) cs
    go [] h = tt
    go (c ∷ cs) h = (h.0.permitted, go cs h.1)
