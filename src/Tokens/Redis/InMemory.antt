-- ===== src/Tokens/Redis/InMemory.antt =====
-- A server in memory that has the laws of Redis: the assumptions on the service can be met.
use slaif_connect.Base.{
  ℕ, ◌+◌, ◌≤◌, ◌≡◌, refl, Bool, true, false, Option, none, some, List, [], ◌∷◌, Text, text_eq,
  text_eq_iff, any, arith, if◌then◌else◌, Option-cases, inl, inr,
}
use slaif_connect.Base.Table.{Table, put, delete, get-put, get-delete}
use slaif_connect.Base.Table
use slaif_connect.Tokens.Redis.Server.{Redis, Stored, until, replaced}

-- A value and the instant at which it is dropped.
abbrev pub Cell : Type 0
Cell = Stored × ℕ

abbrev pub read : ℕ → Option Cell → Option Stored
read t none = none
read t (some (v, d)) = until d t v

abbrev pub get : ℕ → Table Cell → Text → Option Stored
get t s k = read t (Table.get k s)

abbrev pub settle_new : Table Cell → Text → Cell → Option Stored → Bool × Table Cell
settle_new s k c none = (true, put k c s)
settle_new s k c (some v) = (false, s)

abbrev pub rewritten : Table Cell → Text → Stored → Option Cell → Table Cell
rewritten s k v none = s
rewritten s k v (some (w, d)) = put k (v, d) s

abbrev pub keys : Table Cell → List Text
keys [] = []
keys ((k, c) ∷ s) = k ∷ keys s

pub keys_complete :
    (at : ℕ) (s : Table Cell) (k : Text) (v : Stored)
    → get at s k ≡ some v
    → any (text_eq k) (keys s) ≡ true
unfolding Table.get
keys_complete at [] k v h = cc
keys_complete at ((j, c) ∷ s) k v h =
    ground (arith, text_eq_iff k j, text_eq_iff j k, keys_complete at s k v)

pub get-set_new :
    (at : ℕ) (s : Table Cell) (k : Text) (v : Stored) (px : ℕ)
    → get at s k ≡ none
    → ((settle_new s k (v, at + px) (get at s k)).0 ≡ true)
      × ((t : ℕ) (j : Text)
          → at ≤ t
          → get t (settle_new s k (v, at + px) (get at s k)).1 j
            ≡ (if text_eq k j then until (at + px) t v else get t s j))
get-set_new at s k v px h = rw h (refl, λ t j later. rw (get-put k j (v, at + px) s) (ground arith))

pub set_new-taken :
    (at : ℕ) (s : Table Cell) (k : Text) (v w : Stored) (px : ℕ)
    → get at s k ≡ some w
    → ((settle_new s k (v, at + px) (get at s k)).0 ≡ false)
      × ((settle_new s k (v, at + px) (get at s k)).1 ≡ s)
set_new-taken at s k v w px h = rw h (refl, refl)

pub get-set :
    (at : ℕ) (s : Table Cell) (k : Text) (v : Stored) (px t : ℕ) (j : Text)
    → at ≤ t
    → get t (put k (v, at + px) s) j ≡ (if text_eq k j then until (at + px) t v else get t s j)
get-set at s k v px t j later = rw (get-put k j (v, at + px) s) (ground arith)

pub get-set_keep_ttl :
    (at : ℕ) (s : Table Cell) (k : Text) (v w : Stored) (t : ℕ) (j : Text)
    → get at s k ≡ some w
    → at ≤ t
    → get t (rewritten s k v (Table.get k s)) j
      ≡ (if text_eq k j then replaced (get t s k) v else get t s j)
get-set_keep_ttl at s k v w t j h later = elim (Option-cases (Table.get k s)) [
  | inl missing ↦ let impossible = rw missing at h in cc
  | inr ((x, d), found) ↦ rw (found, get-put k j (v, d) s) (ground arith)
]

pub get-del :
    (s : Table Cell) (k : Text) (t : ℕ) (j : Text)
    → get t (delete k s) j ≡ (if text_eq k j then none else get t s j)
get-del s k t j = rw (get-delete k j s) (ground arith)

abbrev pub in_memory : Redis
in_memory = record {
  State = Table Cell;
  get = get;
  set_new = λ at s k v px. settle_new s k (v, at + px) (get at s k);
  set = λ at s k v px. put k (v, at + px) s;
  set_keep_ttl = λ at s k v. rewritten s k v (Table.get k s);
  del = λ s k. delete k s;
  scan = λ at s. keys s;
  pairs_order = λ m. m;
  get-set_new = get-set_new;
  set_new-taken = set_new-taken;
  get-set = get-set;
  get-set_keep_ttl = get-set_keep_ttl;
  get-del = get-del;
  scan-complete = keys_complete;
  pairs_order-all = λ P m h. h;
  pairs_order-only = λ P m h. h;
}
