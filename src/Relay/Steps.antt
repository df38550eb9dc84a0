-- ===== src/Relay/Steps.antt =====
-- The relay of server/relay/relay.js as a step relation: any connection may have its next event, and
-- new connections may come.
use slaif_connect.Base.{ℕ, ◌<◌, ◌≡◌, Bool, true, false, List, [], ◌∷◌, ◌++◌, Text, All}
use slaif_connect.Base.Table.{Table}
use slaif_connect.Relay.Connection.{
  Options, Conn, Message, Resolution, opened, open_socket, on_message, on_resolved, on_connected,
  on_connect_failed, on_tcp_data, on_tcp_closed, on_tcp_error, on_auth_timeout, on_idle_timeout,
  on_max_lifetime, on_close,
}

pub data Event : Type 0 where
  message : Message → Event
  resolved : ℕ → Resolution → Event
  connected : ℕ → Event
  connect_failed : Text → Event
  tcp_data : List ℕ → Bool → Event
  tcp_closed tcp_error auth_timeout idle_timeout max_lifetime : Event
  closes : ℕ → Event

unfoldable pub handle : Options → Event → Table ℕ → Conn → Table ℕ × Conn
handle o (message m) active c = (active, on_message o m c)
handle o (resolved now r) active c = on_resolved o now r active c
handle o (connected now) active c = (active, on_connected o now active c)
handle o (connect_failed code) active c = on_connect_failed code active c
handle o (tcp_data chunk is_open) active c = (active, on_tcp_data o chunk is_open c)
handle o tcp_closed active c = (active, on_tcp_closed c)
handle o tcp_error active c = (active, on_tcp_error c)
handle o auth_timeout active c = (active, on_auth_timeout c)
handle o idle_timeout active c = (active, on_idle_timeout c)
handle o max_lifetime active c = (active, on_max_lifetime c)
handle o (closes now) active c = on_close now active c

-- When an event can come. A message may come while earlier ones wait, and an answer after the close.
abbrev pub Enabled : Event → Conn → Type 0
Enabled (message m) c = c.closed ≡ false
Enabled (resolved now r) c = 0 < c.resolving
Enabled (connected now) c = 0 < c.connecting
Enabled (connect_failed code) c = 0 < c.connecting
Enabled (tcp_data chunk is_open) c = c.tcp ≡ open_socket
Enabled tcp_closed c = c.tcp ≡ open_socket
Enabled tcp_error c = c.tcp ≡ open_socket
Enabled auth_timeout c = c.unauthenticated_timer ≡ true
Enabled idle_timeout c = c.idle_timer ≡ true
Enabled max_lifetime c = c.max_connection_timer ≡ true
Enabled (closes now) c = c.closed ≡ false

pub record World : Type 0 where
  pub active : Table ℕ
  pub conns : List Conn

pub data Step (o : Options) (w v : World) : Type 0 where
  opens : v ≡ record w { conns = opened ∷ w.conns } → Step o w v
  acts :
      (before after : List Conn) (c : Conn) (e : Event)
      → w.conns ≡ before ++ (c ∷ after)
      → Enabled e c
      → v ≡ record {
        active = (handle o e w.active c).0;
        conns = before ++ ((handle o e w.active c).1 ∷ after);
      }
      → Step o w v

abbrev pub idle_world : World
idle_world = record { active = []; conns = [] }

pub data Reach (o : Options) : World → Type 0 where
  start : Reach o idle_world
  next : {w v : World} → Reach o w → Step o w v → Reach o v

-- An invariant of the table and of each connection holds in every world that can be reached.
module _ (o : Options) (P : Conn → Type 0) (Q : Table ℕ → Type 0) (fresh : P opened)
    (nothing : Q [])
    (kept : (e : Event) (active : Table ℕ) (c : Conn)
      → Enabled e c
      → Q active
      → P c
      → Q (handle o e active c).0 × P (handle o e active c).1) where
  pub record Invariant (w : World) : Type 0 where
    pub table : Q w.active
    pub each : All P w.conns

  split_All : (xs ys : List Conn) → All P (xs ++ ys) → All P xs × All P ys
  split_All [] ys h = (tt, h)
  split_All (x ∷ xs) ys h = let (a, b) = split_All xs ys h.1 in ((h.0, a), b)

  join_All : (xs ys : List Conn) → All P xs → All P ys → All P (xs ++ ys)
  join_All [] ys h g = g
  join_All (x ∷ xs) ys h g = (h.0, join_All xs ys h.1 g)

  Step-Invariant : {w v : World} → Step o w v → Invariant w → Invariant v
  Step-Invariant (opens e) i = rw e (record { table = i.table; each = (fresh, i.each) })
  Step-Invariant {w} (acts before after c e at on to) i =
      let (left, right) = split_All before (c ∷ after) (rw at at i.each) in
      let (table, conn) = kept e w.active c on i.table right.0 in
      rw to (record {
        table = table;
        each = join_All before ((handle o e w.active c).1 ∷ after) left (conn, right.1);
      })

  pub Reach-Invariant : {w : World} → Reach o w → Invariant w
  Reach-Invariant start = record { table = nothing; each = tt }
  Reach-Invariant (next r s) = Step-Invariant s (Reach-Invariant r)
