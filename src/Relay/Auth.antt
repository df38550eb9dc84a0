-- ===== src/Relay/Auth.antt =====
-- Which messages of a connection that is not authenticated make server/relay/relay.js ask for a token.
use slaif_connect.Base.{
  ◌+◌, ◌≤◌, ◌≡◌, ◌↔◌, refl, Bool, true, false, Option, none, some, lit, ltb, length, arith, Result,
  ok, err, Text, text_eq, text_eq_iff, Bool-cases, inl, inr, ap, if◌then◌else◌, [], ◌∷◌,
}
use slaif_connect.Base.Value.{
  Value, Fields, undef, null, bool, num, str, arr, obj, end, field, get_field, text_of,
}
use slaif_connect.Relay.Connection.{
  Options, Conn, Message, Rejection, begin_auth, check_auth, check_message, on_message,
  names_target, has_field, rejection, is_text, emit, note, audit,
}

-- The object has a field with this key, whatever its value.
pub data HasKey (key : Text) : Fields → Type 0 where
  here : {v : Value} {fs : Fields} → HasKey key (field key v fs)
  later : {j : Text} {v : Value} {fs : Fields} → HasKey key fs → HasKey key (field j v fs)

-- An object of type `auth` with no host, port or target of its own
abbrev pub IsAuth : Option Value → Type 0
IsAuth (some (obj fs)) =
    (get_field (lit "type") fs ≡ str (lit "auth"))
    × ¬ (HasKey (lit "host") fs)
    × ¬ (HasKey (lit "port") fs)
    × ¬ (HasKey (lit "target") fs)
IsAuth _ = ⊥

has_field-HasKey : (key : Text) (fs : Fields) → has_field key fs ≡ true → HasKey key fs
unfolding has_field
has_field-HasKey key end h = cc
has_field-HasKey key (field j v fs) h = elim (Bool-cases (text_eq j key)) [
  | inl hit ↦ let same = (text_eq_iff j key).0 hit in rw same here
  | inr miss ↦ later (has_field-HasKey key fs (rw miss at h))
]

HasKey-has_field : (key : Text) (fs : Fields) → HasKey key fs → has_field key fs ≡ true
unfolding has_field
HasKey-has_field key (field j v fs) here = rw ((text_eq_iff key key).1 refl) refl
HasKey-has_field key (field j v fs) (later h) =
    let rest = HasKey-has_field key fs h in ground (arith, rest)
HasKey-has_field key end h = elim h [ ]

missing_iff : (key : Text) (fs : Fields) → (has_field key fs ≡ false) ↔ ¬ (HasKey key fs)
missing_iff key fs = (
  λ none_there there.
      let found = HasKey-has_field key fs there in ground (arith, none_there, found),
  λ missing. elim (Bool-cases (has_field key fs)) [
    | inl found ↦ absurd (missing (has_field-HasKey key fs found))
    | inr none_there ↦ none_there
  ],
)

names_target_iff :
    (fs : Fields)
    → (names_target fs ≡ false)
      ↔ (¬ (HasKey (lit "host") fs) × ¬ (HasKey (lit "port") fs) × ¬ (HasKey (lit "target") fs))
names_target_iff fs =
    let host = missing_iff (lit "host") fs in
    let port = missing_iff (lit "port") fs in
    let target = missing_iff (lit "target") fs in
    (
      λ h. (host.0 (ground (arith, h)), port.0 (ground (arith, h)), target.0 (ground (arith, h))),
      λ (a, b, c).
          let no_host = host.1 a in
          let no_port = port.1 b in
          let no_target = target.1 c in rw (no_host, no_port, no_target) refl,
    )

is_text_iff : (s : Text) (v : Value) → (is_text s v ≡ true) ↔ (v ≡ str s)
is_text_iff s (str t) =
    let (to, from) = text_eq_iff t s in (λ h. ap str (to h), λ e. from (ap text_of e))
is_text_iff s undef = (λ h. cc, λ e. cc)
is_text_iff s null = (λ h. cc, λ e. cc)
is_text_iff s (bool b) = (λ h. cc, λ e. cc)
is_text_iff s (num n) = (λ h. cc, λ e. cc)
is_text_iff s (arr xs) = (λ h. cc, λ e. cc)
is_text_iff s (obj fs) = (λ h. cc, λ e. cc)

abbrev IsOk : Result Rejection Value → Type 0
IsOk (ok token) = Unit
IsOk (err r) = ⊥

begin_auth-IsOk :
    (c : Conn) (r : Result Rejection Value)
    → ((begin_auth c r).resolving ≡ c.resolving + 1) ↔ IsOk r
begin_auth-IsOk c (ok token) = (λ e. tt, λ h. refl)
begin_auth-IsOk c (err x) = (λ e. omega (arith, e), λ h. absurd h)

typed_and_plain :
    (typed named : Bool) (r q : Rejection) (token : Value)
    → IsOk (if typed then if named then err r else ok token else err q)
      ↔ ((typed ≡ true) × (named ≡ false))
typed_and_plain true false r q token = (λ h. (refl, refl), λ h. tt)
typed_and_plain true true r q token = (λ h. absurd h, λ h. cc)
typed_and_plain false named r q token = (λ h. absurd h, λ h. cc)

check_auth-IsAuth : (v : Option Value) → IsOk (check_auth v) ↔ IsAuth v
unfolding check_auth
check_auth-IsAuth none = (λ h. h, λ h. h)
check_auth-IsAuth (some (obj fs)) =
    let (to, from) =
      typed_and_plain (is_text (lit "auth") (get_field (lit "type") fs)) (names_target fs)
        (rejection 1008 (lit "client_target_not_allowed")) (rejection 1008 (lit "bad_auth_type"))
        (get_field (lit "relayToken") fs) in
    let typed = is_text_iff (lit "auth") (get_field (lit "type") fs) in
    let plain = names_target_iff fs in
    (
      λ h.
          let (is, none_named) = to h in
          let (a, b, c) = plain.0 none_named in (typed.0 is, a, b, c),
      λ (is, a, b, c). from (typed.1 is, plain.1 (a, b, c)),
    )
check_auth-IsAuth (some undef) = (λ h. h, λ h. h)
check_auth-IsAuth (some null) = (λ h. h, λ h. h)
check_auth-IsAuth (some (bool b)) = (λ h. h, λ h. h)
check_auth-IsAuth (some (num n)) = (λ h. h, λ h. h)
check_auth-IsAuth (some (str s)) = (λ h. h, λ h. h)
check_auth-IsAuth (some (arr xs)) = (λ h. h, λ h. h)

text_and_short :
    (binary long : Bool) (r q : Rejection) (m : Result Rejection Value)
    → IsOk (if binary then err r else if long then err q else m)
      ↔ ((binary ≡ false) × (long ≡ false) × IsOk m)
text_and_short true long r q m = (λ h. absurd h, λ h. cc)
text_and_short false true r q m = (λ h. absurd h, λ h. cc)
text_and_short false false r q m = (λ h. (refl, refl, h), λ h. h.2)

check_message-IsOk :
    (o : Options) (m : Message)
    → IsOk (check_message o m) ↔ (
        (m.is_binary ≡ false)
        × (ltb o.max_auth_message_bytes (length m.bytes) ≡ false)
        × IsOk (check_auth (o.parse_json m.bytes)))
unfolding check_message
check_message-IsOk o m =
    text_and_short m.is_binary (ltb o.max_auth_message_bytes (length m.bytes)) _ _
      (check_auth (o.parse_json m.bytes))

otherwise : {A : Type 0} (b : Bool) (x y : A) → b ≡ false → (if b then x else y) ≡ y
otherwise true x y h = cc
otherwise false x y h = refl

asks-IsOk :
    (o : Options) (m : Message) (c : Conn)
    → c.authed ≡ false
    → ((on_message o m c).resolving ≡ c.resolving + 1) ↔ IsOk (check_message o m)
unfolding on_message
asks-IsOk o m c waiting =
    let started = emit c (audit (lit "relay.auth.started") (note none (lit "started") []) ∷ []) in
    let same : on_message o m c
        ≡ begin_auth (emit c (audit (lit "relay.auth.started") (note none (lit "started") []) ∷ []))
            (check_message o m) =
      otherwise c.authed _ (begin_auth started (check_message o m)) waiting in
    rw same (begin_auth-IsOk started (check_message o m))

-- On a connection that is not authenticated, a message makes the relay ask for a token exactly when it
-- is text, no longer than the limit, and JSON for an object of type `auth` in which the client names
-- no host, port or target of its own.
pub on_message-asks_iff :
    (o : Options) (m : Message) (c : Conn)
    → c.authed ≡ false
    → ((on_message o m c).resolving ≡ c.resolving + 1) ↔ (
        (m.is_binary ≡ false)
        × (length m.bytes ≤ o.max_auth_message_bytes)
        × IsAuth (o.parse_json m.bytes))
on_message-asks_iff o m c waiting =
    let asks = asks-IsOk o m c waiting in
    let checks = check_message-IsOk o m in
    let auth = check_auth-IsAuth (o.parse_json m.bytes) in
    (
      λ e.
          let (text, short, reads) = checks.0 (asks.0 e) in
          (text, ground (arith, short), auth.0 reads),
      λ (text, short, reads). asks.1 (checks.1 (text, ground (arith, short), auth.1 reads)),
    )
