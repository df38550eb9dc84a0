-- ===== src/Base/Results.antt =====
-- Code that throws: a value, or the error that was thrown.
use mathlib.Core.Path.{◌≡◌, refl}
use mathlib.Core.Bool.{Bool, true, false}
use mathlib.Core.Logic.{◌↔◌}
use mathlib.Core.List.{List, [], ◌∷◌}
use slaif_connect.Base.Lists.{All}
use mathlib.Core.Logic.{◌⊎◌, inl, inr}

pub data Result (E A : Type 0) : Type 0 where
  err : E → Result E A
  ok : A → Result E A

-- `abbrev` lets a chain whose first part is known compute.
infixl 5 ◌>>=◌
abbrev pub ◌>>=◌ : {E A B : Type 0} → Result E A → (A → Result E B) → Result E B
err problem >>= then_do = err problem
ok value >>= then_do = then_do value

-- `if (test) { throw e; }`
abbrev pub reject : {E : Type 0} → Bool → E → Result E (Unit {0})
reject true e = err e
reject false e = ok tt

infixl 5 ◌>>◌
abbrev pub ◌>>◌ : {E B : Type 0} → Result E (Unit {0}) → Result E B → Result E B
first >> second = first >>= λ done. second

-- What a chain that has a value went through.
pub >>=-eq-ok :
    {E A B : Type 0} (first : Result E A) (then_do : A → Result E B) {last : B}
    → (first >>= then_do) ≡ ok last
    → (value : A) × (first ≡ ok value) × (then_do value ≡ ok last)
>>=-eq-ok (err problem) then_do same = cc
>>=-eq-ok (ok value) then_do same = (value, refl, same)

pub Result-cases :
    {E A : Type 0} (outcome : Result E A)
    → ((value : A) × (outcome ≡ ok value)) ⊎ ((problem : E) × (outcome ≡ err problem))
Result-cases (err problem) = inr (problem, refl)
Result-cases (ok value) = inl (value, refl)

-- Tests one after the other, each with what is thrown where it holds.
unfoldable pub guards : {E : Type 0} → List (Bool × E) → Result E (Unit {0})
guards [] = ok tt
guards ((test, problem) ∷ rest) = reject test problem >> guards rest

-- Nothing is thrown exactly when no test holds.
pub guards_iff :
    {E : Type 0} (tests : List (Bool × E)) → (guards tests ≡ ok tt) ↔ All (λ t. t.0 ≡ false) tests
unfolding guards
guards_iff [] = (λ h. tt, λ h. refl)
guards_iff ((true, problem) ∷ rest) = (λ h. cc, λ h. cc (h.0))
guards_iff ((false, problem) ∷ rest) =
    (λ h. (refl, (guards_iff rest).0 h), λ h. (guards_iff rest).1 h.1)

-- What code that returns went through: its tests, and the rest of it.
pub guards->>-eq-ok :
    {E A : Type 0} (tests : List (Bool × E)) (rest : Result E A) {value : A}
    → (guards tests >>= λ done. rest) ≡ ok value
    → All (λ t. t.0 ≡ false) tests × (rest ≡ ok value)
guards->>-eq-ok tests rest h =
    let (done, passed, same) = >>=-eq-ok (guards tests) (λ done. rest) h in
    ((guards_iff tests).0 passed, same)

pub guards->>-ok :
    {E A : Type 0} (tests : List (Bool × E)) (rest : Result E A)
    → All (λ t. t.0 ≡ false) tests
    → (guards tests >>= λ done. rest) ≡ rest
guards->>-ok tests rest h = rw ((guards_iff tests).1 h) refl

pub ok_inj : {E A : Type 0} {a b : A} → ◌≡◌ {A = Result E A} (ok a) (ok b) → a ≡ b
ok_inj h = cc
