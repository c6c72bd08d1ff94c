-- ===== src/Prelude/Maps.antt =====
-- `BTreeMap` with integer keys: an association list that `insert` keeps in the order of the keys,
-- which is the order of iteration.
use Prim.Native.Nat.{ℕ, ◌+◌, ◌≤◌}
use mathlib.Core.Path.{◌≡◌, refl}
use mathlib.Core.Bool.{Bool, true, false}
use mathlib.Core.List.{List, [], ◌∷◌}
use mathlib.Core.Option.{Option, none, some}
use native.Mathlib.Omega.{arith}
use polkadot_p2p_connect.Prelude.Tests.{ltb, ◌==◌, if◌then◌else◌}
use polkadot_p2p_connect.Prelude.Lists.{length}

abbrev pub Map {ℓ} : Type ℓ → Type ℓ
Map V = List (ℕ × V)

module _ {ℓ} {V : Type ℓ} where
  abbrev pub get : ℕ → Map V → Option V
  get k [] = none
  get k ((j, v) ∷ m) = if j == k then some v else get k m

  abbrev pub contains_key : ℕ → Map V → Bool
  contains_key k m = elim (get k m) [ none ↦ false | some _ ↦ true ]

  abbrev pub insert : ℕ → V → Map V → Map V
  insert k v [] = (k, v) ∷ []
  insert k v ((j, w) ∷ m) =
      if ltb k j then (k, v) ∷ (j, w) ∷ m else if j == k then (k, v) ∷ m else (j, w) ∷ insert k v m

  abbrev pub remove : ℕ → Map V → Map V
  remove k [] = []
  remove k ((j, w) ∷ m) = if j == k then remove k m else (j, w) ∷ remove k m

module _ {ℓ} {V : Type ℓ} where
  pub get-insert :
      (j k : ℕ) (v : V) (m : Map V) → get j (insert k v m) ≡ (if k == j then some v else get j m)
  get-insert j k v [] = refl
  get-insert j k v ((i, w) ∷ m) = ground (arith, get-insert j k v m)

  pub get-remove : (j k : ℕ) (m : Map V) → get j (remove k m) ≡ (if k == j then none else get j m)
  get-remove j k [] = ground arith
  get-remove j k ((i, w) ∷ m) = ground (arith, get-remove j k m)

  pub length-insert : (k : ℕ) (v : V) (m : Map V) → length (insert k v m) ≤ length m + 1
  length-insert k v [] = omega arith
  length-insert k v ((i, w) ∷ m) = ground (arith, length-insert k v m)

  pub length-remove : (k : ℕ) (m : Map V) → length (remove k m) ≤ length m
  length-remove k [] = omega arith
  length-remove k ((i, w) ∷ m) = ground (arith, length-remove k m)

-- A property of every entry.
module _ {ℓ κ} {V : Type ℓ} where
  abbrev pub Entries : (ℕ → V → Type κ) → Map V → Type κ
  Entries P [] = Unit
  Entries P ((k, v) ∷ m) = P k v × Entries P m

module _ {ℓ κ} {V : Type ℓ} (P : ℕ → V → Type κ) where
  pub insert-Entries : (k : ℕ) (v : V) (m : Map V) → P k v → Entries P m → Entries P (insert k v m)
  insert-Entries k v [] p h = (p, tt)
  insert-Entries k v ((j, w) ∷ m) p h = ground (arith, insert-Entries k v m p)

  pub remove-Entries : (k : ℕ) (m : Map V) → Entries P m → Entries P (remove k m)
  remove-Entries k [] h = tt
  remove-Entries k ((j, w) ∷ m) h = ground (arith, remove-Entries k m)

  pub get-Entries : (k : ℕ) (v : V) (m : Map V) → Entries P m → get k m ≡ some v → P k v
  get-Entries k v [] h e = cc
  get-Entries k v ((j, w) ∷ m) h e = ground (arith, get-Entries k v m)
