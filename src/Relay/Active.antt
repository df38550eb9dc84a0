-- ===== src/Relay/Active.antt =====
-- `activeConnections` of server/relay/relay.js: how many connections each session has at each host.
use slaif_connect.Base.{
  ℕ, ◌+◌, ◌-◌, ◌≤◌, ◌≡◌, Option, none, some, [], ◌∷◌, ◌++◌, Text, lit, text_eq_refl, text_eq_iff,
  leb, arith, if◌then◌else◌, Result, ok, err, Option-cases, inl, inr, Bool-cases,
}
use slaif_connect.Base.Table.{
  Table, get, put, delete, get-put, get-delete, Values, put-Values, delete-Values, get-Values,
}
use slaif_connect.Relay.Types.{Session}

abbrev pub amount : Option ℕ → ℕ
amount none = 0
amount (some n) = n

abbrev pub count : Text → Table ℕ → ℕ
count key active = amount (get key active)

-- `${session.sessionId}:${session.hpc}`, or null for a session without one of them.
unfoldable pub active_key : Option Session → Option Text
active_key none = none
active_key (some s) = elim s.session_id [
  | none ↦ none
  | some [] ↦ none
  | some (c ∷ id) ↦ elim s.hpc [ [] ↦ none | d ∷ hpc ↦ some ((c ∷ id) ++ (lit ":" ++ (d ∷ hpc))) ]
]

-- The error of `incrementActive` says that the limit is exceeded.
abbrev add_one : ℕ → Table ℕ → Option Text → Result (Unit {0}) (Option Text × Table ℕ)
add_one most active none = ok (none, active)
add_one most active (some key) =
    if leb most (count key active)
    then err tt
    else ok (some key, put key (count key active + 1) active)

unfoldable pub increment_active :
    ℕ → Option Session → Table ℕ → Result (Unit {0}) (Option Text × Table ℕ)
increment_active most session active = add_one most active (active_key session)

unfoldable pub decrement_active : Option Text → Table ℕ → Table ℕ
decrement_active none active = active
decrement_active (some key) active =
    if leb (count key active) 1 then delete key active else put key (count key active - 1) active

-- Each count is at least one and at most the limit.
abbrev pub IsWithin : ℕ → Table ℕ → Type 0
IsWithin most = Values λ n. (1 ≤ n) × (n ≤ most)

pub increment_active-IsWithin :
    (most : ℕ) (s : Option Session) (active after : Table ℕ) (key : Option Text)
    → IsWithin most active
    → increment_active most s active ≡ ok (key, after)
    → IsWithin most after
unfolding increment_active
increment_active-IsWithin most s active after key w e = elim (Option-cases (active_key s)) [
  | inl no_key ↦ let step = rw no_key at e in let same : after ≡ active = ground arith in rw same w
  | inr (k, named) ↦
      let step = rw named at e in
      let room : count k active + 1 ≤ most = ground arith in
      let same : after ≡ put k (count k active + 1) active = ground arith in
      rw same
        (put-Values (λ n. (1 ≤ n) × (n ≤ most)) k (count k active + 1) active (omega arith, room) w)
]

pub decrement_active-IsWithin :
    (most : ℕ) (key : Option Text) (active : Table ℕ)
    → IsWithin most active
    → IsWithin most (decrement_active key active)
unfolding decrement_active
decrement_active-IsWithin most none active w = w
decrement_active-IsWithin most (some k) active w = elim (Option-cases (get k active)) [
  | inl missing ↦ rw missing (delete-Values (λ n. (1 ≤ n) × (n ≤ most)) k active w)
  | inr (n, found) ↦
      let bounds = get-Values (λ n. (1 ≤ n) × (n ≤ most)) k active n w found in
      rw found (elim (Bool-cases (leb n 1)) [
        | inl last ↦ rw last (delete-Values (λ n. (1 ≤ n) × (n ≤ most)) k active w)
        | inr more ↦
            rw more (put-Values (λ n. (1 ≤ n) × (n ≤ most)) k (n - 1) active (ground arith) w)
      ])
]

-- Taking a place and giving it back leaves every count as it was.
pub decrement-increment :
    (most : ℕ) (s : Option Session) (active after : Table ℕ) (key : Option Text) (j : Text)
    → IsWithin most active
    → increment_active most s active ≡ ok (key, after)
    → get j (decrement_active key after) ≡ get j active
unfolding increment_active decrement_active
decrement-increment most s active after key j w e = elim (Option-cases (active_key s)) [
  | inl no_key ↦ let step = rw no_key at e in ground arith
  | inr (k, named) ↦
      let step = rw named at e in
      let same : after ≡ put k (count k active + 1) active = ground arith in
      let which : key ≡ some k = ground arith in
      rw (which, same)
        (elim (Option-cases (get k active)) [
          | inl missing ↦ rw missing (
              ground (
                arith,
                get-put k k 1 active,
                get-put k j 1 active,
                get-delete k j (put k 1 active),
                text_eq_refl k,
                text_eq_iff k j,
              ))
          | inr (n, found) ↦
              let bounds = get-Values (λ x. (1 ≤ x) × (x ≤ most)) k active n w found in
              let again = put k (n + 1) active in
              rw found (
                ground (
                  arith,
                  get-put k k (n + 1) active,
                  get-put k j (n + 1) active,
                  get-put k j (n + 1 - 1) again,
                  text_eq_refl k,
                  text_eq_iff k j,
                ))
        ])
]
