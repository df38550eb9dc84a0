-- ===== src/Relay/Limit.antt =====
-- The limit of connections of one session in server/relay/relay.js, and who gives a place back.
use slaif_connect.Base.{
  ℕ, ◌+◌, ◌-◌, ◌≡◌, refl, Bool, true, false, Option, none, some, Text, text_eq_refl, arith, Result,
  ok, err,
}
use slaif_connect.Base.Table.{Table, get, get-put, get-delete}
use slaif_connect.Base.Value.{Value}
use slaif_connect.Relay.Types.{Session, Target}
use slaif_connect.Relay.Resolve.{Lookup, no_target, target, bad_entry}
use slaif_connect.Relay.Active.{
  IsWithin, increment_active, decrement_active, increment_active-IsWithin,
  decrement_active-IsWithin, decrement-increment, count,
}
use slaif_connect.Relay.Connection.{
  Options, Conn, Resolution, on_resolved, on_connect_failed, on_close, take_place, choose_target,
  admit_session, settle_resolution,
}
use slaif_connect.Relay.Steps.{
  World, Reach, Event, handle, Reach-Invariant, message, resolved, connected, connect_failed,
  tcp_data, tcp_closed, tcp_error, auth_timeout, idle_timeout, max_lifetime, closes,
}

module _ (o : Options) (active : Table ℕ) (w : IsWithin o.max_connections_per_session active) where
  take_place-IsWithin :
      (c : Conn) (t : Target) (s : Option Session) (r : Result (Unit {0}) (Option Text × Table ℕ))
      → increment_active o.max_connections_per_session s active ≡ r
      → IsWithin o.max_connections_per_session (take_place c t r active).0
  take_place-IsWithin c t s (err e) h = w
  take_place-IsWithin c t s (ok (key, taken)) h =
      increment_active-IsWithin o.max_connections_per_session s active taken key w h

  choose_target-IsWithin :
      (c : Conn) (l : Lookup)
      → IsWithin o.max_connections_per_session (choose_target o active c l).0
  choose_target-IsWithin c bad_entry = w
  choose_target-IsWithin c no_target = w
  choose_target-IsWithin c (target t) = take_place-IsWithin _ t c.session _ refl

  admit_session-IsWithin :
      (c : Conn) (token : Value) (s : Session) (past : Bool)
      → IsWithin o.max_connections_per_session (admit_session o active c token s past).0
  admit_session-IsWithin c token s true = w
  admit_session-IsWithin c token s false = choose_target-IsWithin c _

  settle_resolution-IsWithin :
      (now : ℕ) (c : Conn) (token : Value) (r : Result Text (Option Session))
      → IsWithin o.max_connections_per_session (settle_resolution o now active c token r).0
  settle_resolution-IsWithin now c token (err code) = w
  settle_resolution-IsWithin now c token (ok none) = w
  settle_resolution-IsWithin now c token (ok (some s)) = admit_session-IsWithin _ token s _

  close-IsWithin :
      (now : ℕ) (c : Conn) (b : Bool)
      → c.closed ≡ b
      → IsWithin o.max_connections_per_session (on_close now active c).0
  unfolding on_close
  close-IsWithin now c true e = rw e w
  close-IsWithin now c false e =
      rw e (decrement_active-IsWithin o.max_connections_per_session c.active_key active w)

  handle-IsWithin :
      (e : Event) (c : Conn) → IsWithin o.max_connections_per_session (handle o e active c).0
  unfolding handle on_resolved on_connect_failed
  handle-IsWithin (message m) c = w
  handle-IsWithin (resolved now r) c = settle_resolution-IsWithin now _ r.token r.outcome
  handle-IsWithin (connected now) c = w
  handle-IsWithin (connect_failed code) c =
      decrement_active-IsWithin o.max_connections_per_session c.active_key active w
  handle-IsWithin (tcp_data chunk is_open) c = w
  handle-IsWithin tcp_closed c = w
  handle-IsWithin tcp_error c = w
  handle-IsWithin auth_timeout c = w
  handle-IsWithin idle_timeout c = w
  handle-IsWithin max_lifetime c = w
  handle-IsWithin (closes now) c = close-IsWithin now c c.closed refl

-- In every world that the relay can reach, the table of active connections has only counts from one
-- to the limit of connections of one session.
pub Reach-IsWithin :
    (o : Options) (w : World) → Reach o w → IsWithin o.max_connections_per_session w.active
Reach-IsWithin o w r =
    (Reach-Invariant o (λ c. Unit) (IsWithin o.max_connections_per_session) tt tt
      (λ e active c on i u. (handle-IsWithin o active i e c, tt)) r).table

-- What a handler of a resolution leaves to be given back.
abbrev Returned : Table ℕ → Text → Conn → Table ℕ × Conn → Type 0
Returned active j c w =
    (get j (decrement_active w.1.active_key w.0) ≡ get j active) × (w.1.closed ≡ c.closed)

untouched :
    (active : Table ℕ) (j : Text) (c : Conn)
    → c.active_key ≡ none
    → get j (decrement_active c.active_key active) ≡ get j active
unfolding decrement_active
untouched active j c e = rw e refl

module _ (o : Options) (active : Table ℕ) (j : Text)
    (w : IsWithin o.max_connections_per_session active) where
  take_place-Returned :
      (c : Conn) (t : Target) (s : Option Session) (r : Result (Unit {0}) (Option Text × Table ℕ))
      → c.active_key ≡ none
      → increment_active o.max_connections_per_session s active ≡ r
      → Returned active j c (take_place c t r active)
  take_place-Returned c t s (err e) idle h = (untouched active j c idle, refl)
  take_place-Returned c t s (ok (key, taken)) idle h =
      (decrement-increment o.max_connections_per_session s active taken key j w h, refl)

  choose_target-Returned :
      (c : Conn) (l : Lookup)
      → c.active_key ≡ none
      → Returned active j c (choose_target o active c l)
  choose_target-Returned c bad_entry idle = (untouched active j c idle, refl)
  choose_target-Returned c no_target idle = (untouched active j c idle, refl)
  choose_target-Returned c (target t) idle =
      take_place-Returned (record c { target = some t }) t c.session _ idle refl

  admit_session-Returned :
      (c : Conn) (token : Value) (s : Session) (past : Bool)
      → c.active_key ≡ none
      → Returned active j c (admit_session o active c token s past)
  admit_session-Returned c token s true idle = (untouched active j c idle, refl)
  admit_session-Returned c token s false idle = choose_target-Returned c _ idle

  settle_resolution-Returned :
      (now : ℕ) (c : Conn) (token : Value) (r : Result Text (Option Session))
      → c.active_key ≡ none
      → Returned active j c (settle_resolution o now active c token r)
  settle_resolution-Returned now c token (err code) idle = (untouched active j c idle, refl)
  settle_resolution-Returned now c token (ok none) idle = (untouched active j c idle, refl)
  settle_resolution-Returned now c token (ok (some s)) idle =
      admit_session-Returned (record c { session = some s }) token s _ idle

close_live :
    (later : ℕ) (active : Table ℕ) (c : Conn)
    → c.closed ≡ false
    → ((on_close later active c).0 ≡ decrement_active c.active_key active)
      × ((on_close later active c).1.active_key ≡ c.active_key)
unfolding on_close
close_live later active c live = rw live (refl, refl)

count-decrement_active :
    (key : Text) (active : Table ℕ)
    → count key (decrement_active (some key) active) ≡ count key active - 1
unfolding decrement_active
count-decrement_active key active = ground (
  arith,
  get-put key key (count key active - 1) active,
  get-delete key key active,
  text_eq_refl key,
)

-- When a connection that holds no place has its token resolved, and then its TCP connection fails or it
-- closes, every count is what it was before: the place that was taken is given back.
pub place_returned :
    (o : Options) (now later : ℕ) (r : Resolution) (code : Text) (active : Table ℕ) (c : Conn)
    (j : Text)
    → IsWithin o.max_connections_per_session active
    → c.closed ≡ false
    → c.active_key ≡ none
    → (get j
          (on_connect_failed code
            (on_resolved o now r active c).0
            (on_resolved o now r active c).1).0
        ≡ get j active)
      × (get j (on_close later (on_resolved o now r active c).0 (on_resolved o now r active c).1).0
          ≡ get j active)
unfolding on_resolved on_connect_failed
place_returned o now later r code active c j w live idle =
    let (back, same) =
      settle_resolution-Returned o active j w now (record c { resolving = c.resolving - 1 }) r.token
        r.outcome idle in
    let step =
      close_live later (on_resolved o now r active c).0 (on_resolved o now r active c).1
        (rw same live) in
    (back, rw step.0 back)

-- A connection that closes while its TCP connection is being made, and whose connection then fails,
-- gives its place back twice, the second time that of another connection of its session.
pub close_then_fail :
    (later : ℕ) (code : Text) (active : Table ℕ) (c : Conn) (key : Text) (n : ℕ)
    → c.closed ≡ false
    → c.active_key ≡ some key
    → count key active ≡ n + 2
    → count key (on_connect_failed code (on_close later active c).0 (on_close later active c).1).0
      ≡ n
unfolding on_connect_failed
close_then_fail later code active c key n live holds counted =
    let (table, held) = close_live later active c live in
    rw (table, held, holds)
      (ground (
        arith,
        count-decrement_active key active,
        count-decrement_active key (decrement_active (some key) active),
      ))
