-- ===== src/Relay/Permitted.antt =====
-- What a connection of server/relay/relay.js may do to the outside, and the handlers of its messages
-- up to the TCP connection.
use slaif_connect.Base.{
  ℕ, ◌+◌, ◌≡◌, refl, Bool, true, false, Option, none, some, List, [], ◌∷◌, ◌++◌, Text, All, length,
  if◌then◌else◌, Result, ok, err, ◌==◌,
}
use slaif_connect.Base.Table.{Table, get}
use slaif_connect.Base.Value.{Value, str, num, int}
use slaif_connect.Relay.Types.{
  Session, Target, Host, validate_alias, normalize_alias, normalize_alias_idem,
}
use slaif_connect.Relay.Resolve.{
  target_for_session, host_target, entry_target, alias_target, Lookup, no_target, target, bad_entry,
}
use slaif_connect.Relay.Connection.{
  Options, Conn, Effect, Message, Resolution, Rejection, Socket, resolve, connect, send_ok,
  send_chunk, tcp_write, on_message, on_resolved, check_message, no_socket, open_socket, destroyed,
  emit, begin_auth, take_place, choose_target, settle_session, admit_session, settle_resolution,
  reset_idle_timer, relay_message,
}

-- A target whose host and port the configured hosts have under its alias.
pub record IsConfigured (hosts : Table Host) (t : Target) : Type 0 where
  pub entry : Host
  pub is_alias : validate_alias t.alias ≡ true
  pub listed : get t.alias hosts ≡ some entry
  pub is_host : entry.host ≡ str t.host
  pub is_port : entry.port ≡ num (int t.port)

host_target-IsConfigured :
    (hosts : Table Host) (alias : Text) (entry : Host) (host port : Value) (t : Target)
    → validate_alias alias ≡ true
    → get alias hosts ≡ some entry
    → entry.host ≡ host
    → entry.port ≡ port
    → host_target alias host port ≡ target t
    → IsConfigured hosts t
host_target-IsConfigured hosts alias entry (str host) (num (int port)) t valid is is_host is_port
      h =
    let made : record { alias = alias; host = host; port = port } ≡ t = cc in
    rw (← made) (record {
      entry = entry;
      is_alias = valid;
      listed = is;
      is_host = is_host;
      is_port = is_port;
    })
host_target-IsConfigured hosts alias entry host port t valid is is_host is_port h = cc

target_for_session-IsConfigured :
    (s : Session) (hosts : Table Host) (t : Target)
    → target_for_session s hosts ≡ target t
    → IsConfigured hosts t
unfolding target_for_session
target_for_session-IsConfigured s hosts t h = by_alias (normalize_alias s.hpc) refl h
  where
    by_entry :
        (alias : Text) (entry : Option Host)
        → validate_alias alias ≡ true
        → get alias hosts ≡ entry
        → entry_target alias entry ≡ target t
        → IsConfigured hosts t
    by_entry alias none valid e found = cc
    by_entry alias (some entry) valid e found =
        host_target-IsConfigured hosts alias entry entry.host entry.port t valid e refl refl found

    by_alias :
        (alias : Option Text)
        → normalize_alias s.hpc ≡ alias
        → alias_target hosts alias ≡ target t
        → IsConfigured hosts t
    by_alias none e found = cc
    by_alias (some alias) e found =
        by_entry alias (get alias hosts) (normalize_alias_idem s.hpc alias e).0 refl found

-- Connections go to configured targets, and traffic is for authenticated connections only.
abbrev pub Permitted : Table Host → Bool → Effect → Type 0
Permitted hosts authed (connect t) = IsConfigured hosts t
Permitted hosts authed send_ok = authed ≡ true
Permitted hosts authed (send_chunk bytes) = authed ≡ true
Permitted hosts authed (tcp_write bytes) = authed ≡ true
Permitted hosts authed _ = Unit

pub record IsSafe (hosts : Table Host) (c : Conn) : Type 0 where
  pub permitted : All (Permitted hosts c.authed) c.effects
  pub guarded : c.tcp ≡ open_socket → c.authed ≡ true

pub All-append :
    (P : Effect → Type 0) (xs ys : List Effect) → All P xs → All P ys → All P (xs ++ ys)
All-append P [] ys h g = g
All-append P (x ∷ xs) ys h g = (h.0, All-append P xs ys h.1 g)

pub emit-IsSafe :
    (hosts : Table Host) (c : Conn) (es : List Effect)
    → IsSafe hosts c
    → All (Permitted hosts c.authed) es
    → IsSafe hosts (emit c es)
emit-IsSafe hosts c es i h = record {
  permitted = All-append (Permitted hosts c.authed) c.effects es i.permitted h;
  guarded = i.guarded;
}

-- A property of both branches.
pub if_holds :
    {A : Type 0} (P : A → Type 0) (b : Bool) (x y : A)
    → (b ≡ true → P x)
    → (b ≡ false → P y)
    → P (if b then x else y)
if_holds P true x y h g = h refl
if_holds P false x y h g = g refl

pub reset-IsSafe :
    (o : Options) (c : Conn)
    → IsSafe o.allowed_hosts c
    → IsSafe o.allowed_hosts (reset_idle_timer o c)
reset-IsSafe o c i =
    let P = IsSafe o.allowed_hosts in
    let armed = record c { idle_timer = true } in
    if_holds P c.authed (if o.idle_timeout_ms == 0 then c else armed) c
      (λ on.
        if_holds P (o.idle_timeout_ms == 0) c armed (λ off. i)
          (λ on. record { permitted = i.permitted; guarded = i.guarded }))
      (λ off. i)

begin_auth-IsSafe :
    (o : Options) (c : Conn) (r : Result Rejection Value)
    → IsSafe o.allowed_hosts c
    → IsSafe o.allowed_hosts (begin_auth c r)
begin_auth-IsSafe o c (err r) i = emit-IsSafe o.allowed_hosts c _ i (tt, (tt, (tt, (tt, tt))))
begin_auth-IsSafe o c (ok token) i =
    let j = emit-IsSafe o.allowed_hosts c (resolve token ∷ []) i (tt, tt) in
    record { permitted = j.permitted; guarded = j.guarded }

relay_message-IsSafe :
    (o : Options) (c : Conn) (m : Message) (s : Socket)
    → c.tcp ≡ s
    → IsSafe o.allowed_hosts c
    → IsSafe o.allowed_hosts (relay_message o c m s)
relay_message-IsSafe o c m no_socket e i = emit-IsSafe o.allowed_hosts c _ i (tt, tt)
relay_message-IsSafe o c m destroyed e i = emit-IsSafe o.allowed_hosts c _ i (tt, tt)
relay_message-IsSafe o c m open_socket e i =
    let j = reset-IsSafe o c i in
    let k : IsSafe o.allowed_hosts
        (record (reset_idle_timer o c) { ws_to_tcp_bytes = c.ws_to_tcp_bytes + length m.bytes }) =
      record { permitted = j.permitted; guarded = j.guarded } in
    let stays : (reset_idle_timer o c).tcp ≡ open_socket =
      if_holds (λ (x : Conn). x.tcp ≡ open_socket) c.authed _ _
        (λ on. if_holds (λ (x : Conn). x.tcp ≡ open_socket) _ _ _ (λ z. e) (λ z. e)) (λ off. e) in
    emit-IsSafe o.allowed_hosts _ _ k (tt, (j.guarded stays, tt))

pub on_message-IsSafe :
    (o : Options) (m : Message) (c : Conn)
    → IsSafe o.allowed_hosts c
    → IsSafe o.allowed_hosts (on_message o m c)
unfolding on_message
on_message-IsSafe o m c i =
    let P = IsSafe o.allowed_hosts in
    if_holds P c.authed _ _
      (λ on.
        if_holds P m.is_binary _ _ (λ binary. relay_message-IsSafe o c m c.tcp refl i)
          (λ text. emit-IsSafe o.allowed_hosts c _ i (tt, tt)))
      (λ off.
        begin_auth-IsSafe o _ (check_message o m) (emit-IsSafe o.allowed_hosts c _ i (tt, tt)))

take_place-IsSafe :
    (o : Options) (c : Conn) (t : Target) (r : Result (Unit {0}) (Option Text × Table ℕ))
    (active : Table ℕ)
    → IsConfigured o.allowed_hosts t
    → IsSafe o.allowed_hosts c
    → IsSafe o.allowed_hosts (take_place c t r active).1
take_place-IsSafe o c t (err e) active known i =
    emit-IsSafe o.allowed_hosts c _ i (tt, (tt, (tt, (tt, tt))))
take_place-IsSafe o c t (ok (key, taken)) active known i =
    let j = emit-IsSafe o.allowed_hosts c (connect t ∷ []) i (known, tt) in
    record { permitted = j.permitted; guarded = j.guarded }

choose_target-IsSafe :
    (o : Options) (active : Table ℕ) (c : Conn) (l : Lookup) (s : Session)
    → target_for_session s o.allowed_hosts ≡ l
    → IsSafe o.allowed_hosts c
    → IsSafe o.allowed_hosts (choose_target o active c l).1
choose_target-IsSafe o active c bad_entry s e i = emit-IsSafe o.allowed_hosts c _ i (tt, (tt, tt))
choose_target-IsSafe o active c no_target s e i =
    emit-IsSafe o.allowed_hosts (record c { target = none }) _
      (record { permitted = i.permitted; guarded = i.guarded }) (tt, (tt, (tt, (tt, tt))))
choose_target-IsSafe o active c (target t) s e i =
    take_place-IsSafe o (record c { target = some t }) t _ active
      (target_for_session-IsConfigured s o.allowed_hosts t e)
      (record { permitted = i.permitted; guarded = i.guarded })

admit_session-IsSafe :
    (o : Options) (active : Table ℕ) (c : Conn) (token : Value) (s : Session) (past : Bool)
    → IsSafe o.allowed_hosts c
    → IsSafe o.allowed_hosts (admit_session o active c token s past).1
admit_session-IsSafe o active c token s true i =
    emit-IsSafe o.allowed_hosts c _ i (tt, (tt, (tt, (tt, tt))))
admit_session-IsSafe o active c token s false i =
    choose_target-IsSafe o active c (target_for_session s o.allowed_hosts) s refl i

settle_session-IsSafe :
    (o : Options) (now : ℕ) (active : Table ℕ) (c : Conn) (token : Value) (s : Option Session)
    → IsSafe o.allowed_hosts c
    → IsSafe o.allowed_hosts (settle_session o now active c token s).1
settle_session-IsSafe o now active c token none i =
    emit-IsSafe o.allowed_hosts (record c { session = none }) _
      (record { permitted = i.permitted; guarded = i.guarded }) (tt, (tt, (tt, (tt, tt))))
settle_session-IsSafe o now active c token (some s) i =
    admit_session-IsSafe o active (record c { session = some s }) token s _
      (record { permitted = i.permitted; guarded = i.guarded })

settle_resolution-IsSafe :
    (o : Options) (now : ℕ) (active : Table ℕ) (c : Conn) (token : Value)
    (r : Result Text (Option Session))
    → IsSafe o.allowed_hosts c
    → IsSafe o.allowed_hosts (settle_resolution o now active c token r).1
settle_resolution-IsSafe o now active c token (err code) i =
    emit-IsSafe o.allowed_hosts c _ i (tt, (tt, (tt, (tt, tt))))
settle_resolution-IsSafe o now active c token (ok s) i =
    settle_session-IsSafe o now active c token s i

pub on_resolved-IsSafe :
    (o : Options) (now : ℕ) (r : Resolution) (active : Table ℕ) (c : Conn)
    → IsSafe o.allowed_hosts c
    → IsSafe o.allowed_hosts (on_resolved o now r active c).1
unfolding on_resolved
on_resolved-IsSafe o now r active c i =
    settle_resolution-IsSafe o now active _ r.token r.outcome
      (record { permitted = i.permitted; guarded = i.guarded })
