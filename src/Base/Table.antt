-- ===== src/Base/Table.antt =====
-- `Map` with string keys, in insertion order.
use mathlib.Core.Path.{◌≡◌, refl}
use mathlib.Core.Bool.{Bool, false}
use mathlib.Core.Logic.{inl, inr}
use mathlib.Core.Option.{Option, none, some}
use mathlib.Core.List.{List, [], ◌∷◌}
use native.Mathlib.Omega.{arith}
use slaif_connect.Base.Tests.{if◌then◌else◌, Bool-cases}
use slaif_connect.Base.Strings.{Text, text_eq, text_eq_iff}

abbrev pub Table : Type 0 → Type 0
Table V = List (Text × V)

module _ {V : Type 0} where
  -- `map.get(k)`
  unfoldable pub get : Text → Table V → Option V
  get k [] = none
  get k ((j, v) ∷ m) = if text_eq j k then some v else get k m

  -- `map.set(k, v)`, which keeps the place of a key that is there.
  unfoldable pub put : Text → V → Table V → Table V
  put k v [] = (k, v) ∷ []
  put k v ((j, w) ∷ m) = if text_eq j k then (j, v) ∷ m else (j, w) ∷ put k v m

  -- `map.delete(k)`
  unfoldable pub delete : Text → Table V → Table V
  delete k [] = []
  delete k ((j, w) ∷ m) = let rest = delete k m in if text_eq j k then rest else (j, w) ∷ rest

  -- The entries whose value passes the test.
  unfoldable pub retain : (V → Bool) → Table V → Table V
  retain p [] = []
  retain p ((j, w) ∷ m) = let rest = retain p m in if p w then (j, w) ∷ rest else rest

  pub get-put :
      (k j : Text) (v : V) (m : Table V)
      → get j (put k v m) ≡ (if text_eq k j then some v else get j m)
  unfolding get put
  get-put k j v [] = refl
  get-put k j v ((i, w) ∷ m) =
      ground (arith, text_eq_iff k j, text_eq_iff i k, text_eq_iff i j, get-put k j v m)

  pub get-delete :
      (k j : Text) (m : Table V) → get j (delete k m) ≡ (if text_eq k j then none else get j m)
  unfolding get delete
  get-delete k j [] = ground arith
  get-delete k j ((i, w) ∷ m) =
      ground (arith, text_eq_iff k j, text_eq_iff i k, text_eq_iff i j, get-delete k j m)

  -- No key stands twice.
  abbrev pub IsUnique : Table V → Type 0
  IsUnique [] = Unit
  IsUnique ((j, w) ∷ m) = (get j m ≡ none) × IsUnique m

  -- Every value has the property.
  abbrev pub Values : (V → Type 0) → Table V → Type 0
  Values P [] = Unit
  Values P ((j, w) ∷ m) = P w × Values P m

  pub get-put_ne :
      (k j : Text) (v : V) (m : Table V) → text_eq k j ≡ false → get j (put k v m) ≡ get j m
  get-put_ne k j v m h = rw (get-put k j v m, h)

  pub get-put_self : (k : Text) (v : V) (m : Table V) → get k (put k v m) ≡ some v
  get-put_self k v m = ground (arith, get-put k k v m, text_eq_iff k k)

  pub put-IsUnique : (k : Text) (v : V) (m : Table V) → IsUnique m → IsUnique (put k v m)
  unfolding put get
  put-IsUnique k v [] u = (refl, tt)
  put-IsUnique k v ((i, w) ∷ m) u =
      ground (arith, get-put k i v m, text_eq_iff i k, text_eq_iff k i, put-IsUnique k v m u.1)

  pub delete-IsUnique : (k : Text) (m : Table V) → IsUnique m → IsUnique (delete k m)
  unfolding delete get
  delete-IsUnique k [] u = tt
  delete-IsUnique k ((i, w) ∷ m) u = ground (arith, get-delete k i m, delete-IsUnique k m u.1)

  pub get-retain-none :
      (p : V → Bool) (k : Text) (m : Table V) → get k m ≡ none → get k (retain p m) ≡ none
  unfolding get retain
  get-retain-none p k [] h = refl
  get-retain-none p k ((i, w) ∷ m) h = ground (arith, get-retain-none p k m)

  abbrev pub keep_if : (V → Bool) → Option V → Option V
  keep_if p none = none
  keep_if p (some v) = if p v then some v else none

  -- With distinct keys, `retain` keeps exactly the entries that pass.
  pub get-retain :
      (p : V → Bool) (k : Text) (m : Table V)
      → IsUnique m
      → get k (retain p m) ≡ keep_if p (get k m)
  unfolding get retain
  get-retain p k [] u = refl
  get-retain p k ((i, w) ∷ m) u =
      ground (arith, text_eq_iff i k, get-retain-none p i m, get-retain p k m u.1)

  pub retain-IsUnique : (p : V → Bool) (m : Table V) → IsUnique m → IsUnique (retain p m)
  unfolding retain
  retain-IsUnique p [] u = tt
  retain-IsUnique p ((i, w) ∷ m) u = ground (arith, get-retain-none p i m, retain-IsUnique p m u.1)

  pub get-Values :
      (P : V → Type 0) (k : Text) (m : Table V) (v : V) → Values P m → get k m ≡ some v → P v
  unfolding get
  get-Values P k [] v h e = cc
  get-Values P k ((i, w) ∷ m) v h e = elim (Bool-cases (text_eq i k)) [
    | inl hit ↦ ground arith
    | inr miss ↦ get-Values P k m v h.1 (ground arith)
  ]

  pub put-Values :
      (P : V → Type 0) (k : Text) (v : V) (m : Table V) → P v → Values P m → Values P (put k v m)
  unfolding put
  put-Values P k v [] p h = (p, tt)
  put-Values P k v ((i, w) ∷ m) p h = ground (arith, put-Values P k v m p h.1)

  pub delete-Values : (P : V → Type 0) (k : Text) (m : Table V) → Values P m → Values P (delete k m)
  unfolding delete
  delete-Values P k [] h = tt
  delete-Values P k ((i, w) ∷ m) h = ground (arith, delete-Values P k m h.1)

  pub retain-Values :
      (P : V → Type 0) (p : V → Bool) (m : Table V) → Values P m → Values P (retain p m)
  unfolding retain
  retain-Values P p [] h = tt
  retain-Values P p ((i, w) ∷ m) h = ground (arith, retain-Values P p m h.1)
