-- ===== src/Prelude/NatDict.antt =====
-- A JavaScript object whose keys are array indices: its entries are read in ascending order of
-- the keys, whatever the order in which they were written.
use Prim.Native.Nat.{ℕ, ◌<◌}
use mathlib.Core.Path.{◌≡◌, refl}
use mathlib.Core.Option.{Option, none, some}
use mathlib.Core.List.{List, [], ◌∷◌}
use native.Mathlib.Omega.{arith}
use kaja.Prelude.Tests.{ltb, nat_eq, if◌then◌else◌}

abbrev pub NatDict {ℓ} : Type ℓ → Type ℓ
NatDict V = List (ℕ × V)

module _ {ℓ} {V : Type ℓ} where
  abbrev pub lookup : ℕ → NatDict V → Option V
  lookup k [] = none
  lookup k ((j, v) ∷ m) = if nat_eq j k then some v else lookup k m

  abbrev pub insert : ℕ → V → NatDict V → NatDict V
  insert k v [] = (k, v) ∷ []
  insert k v ((j, w) ∷ m) =
      let rest = insert k v m in
      if nat_eq j k then (k, v) ∷ m else (if ltb k j then (k, v) ∷ (j, w) ∷ m else (j, w) ∷ rest)

  abbrev pub remove : ℕ → NatDict V → NatDict V
  remove k [] = []
  remove k ((j, v) ∷ m) = let rest = remove k m in if nat_eq j k then rest else (j, v) ∷ rest

  -- The keys ascend, all above `k`.
  abbrev pub Above : ℕ → NatDict V → Type 0
  Above k [] = Unit
  Above k ((j, v) ∷ m) = (k < j) × Above j m

  abbrev pub IsAscending : NatDict V → Type 0
  IsAscending [] = Unit
  IsAscending ((j, v) ∷ m) = Above j m

  pub lookup-insert :
      (k j : ℕ) (v : V) (m : NatDict V)
      → lookup j (insert k v m) ≡ (if nat_eq k j then some v else lookup j m)
  lookup-insert k j v [] = refl
  lookup-insert k j v ((i, w) ∷ m) = ground (arith, lookup-insert k j v m)

  pub lookup-remove :
      (k j : ℕ) (m : NatDict V) → lookup j (remove k m) ≡ (if nat_eq k j then none else lookup j m)
  lookup-remove k j [] = ground arith
  lookup-remove k j ((i, w) ∷ m) = ground (arith, lookup-remove k j m)
