-- ===== src/Prelude/Dict/Keys.antt =====
-- The order of the keys of a `Map`.
use Prim.Native.Nat.{ℕ, zero, suc, ◌<◌}
use Prim.Native.String.{String}
use mathlib.Core.Path.{◌≡◌, refl}
use mathlib.Core.Bool.{true, false}
use mathlib.Core.Option.{some}
use mathlib.Core.List.{List, [], ◌∷◌, ◌++◌}
use native.Mathlib.Omega.{arith}
use text.Mathlib.Text.{◌==◌}
use text.Mathlib.TextEquality.{eq_iff}
use kaja.Prelude.Lists.{length, last?, drop}
use kaja.Prelude.Dict.{Dict, insert, remove, has, keys}

pub last?-append {ℓ} : {A : Type ℓ} (xs : List A) (x : A) → last? (xs ++ x ∷ []) ≡ some x
last?-append [] x = refl
last?-append (y ∷ []) x = refl
last?-append (y ∷ z ∷ xs) x = last?-append (z ∷ xs) x

last?-cons : (j k : String) (ks : List String) → last? ks ≡ some k → last? (j ∷ ks) ≡ some k
last?-cons j k [] h = cc
last?-cons j k (i ∷ ks) h = h

module _ {ℓ} {V : Type ℓ} where
  pub keys-insert-has :
      (k : String) (v : V) (m : Dict V) → has k m ≡ true → keys (insert k v m) ≡ keys m
  keys-insert-has k v [] h = cc
  keys-insert-has k v ((j, w) ∷ m) h = ground (arith, keys-insert-has k v m, eq_iff j k)

  pub keys-insert_new :
      (k : String) (v : V) (m : Dict V) → has k m ≡ false → keys (insert k v m) ≡ keys m ++ k ∷ []
  keys-insert_new k v [] h = refl
  keys-insert_new k v ((j, w) ∷ m) h = ground (arith, keys-insert_new k v m, eq_iff j k)

  pub has-remove : (k : String) (m : Dict V) → has k (remove k m) ≡ false
  has-remove k [] = refl
  has-remove k ((j, w) ∷ m) = ground (arith, has-remove k m)

  pub last?-insert_new :
      (k : String) (v : V) (m : Dict V) → has k m ≡ false → last? (keys (insert k v m)) ≡ some k
  last?-insert_new k v m h = rw (keys-insert_new k v m h) (last?-append (keys m) k)

  pub has_of_last? : (k : String) (m : Dict V) → last? (keys m) ≡ some k → has k m ≡ true
  has_of_last? k [] h = cc
  has_of_last? k ((j, w) ∷ []) h = ground (arith, eq_iff j k)
  has_of_last? k ((j, w) ∷ (i, v) ∷ m) h = ground (arith, has_of_last? k ((i, v) ∷ m) h)

  pub last?-drop : (n : ℕ) (m : Dict V) → n < length m → last? (keys (drop n m)) ≡ last? (keys m)
  last?-drop n [] h = elim h [ ]
  last?-drop zero (e ∷ m) h = refl
  last?-drop (suc zero) ((j, w) ∷ []) h = absurd (omega arith)
  last?-drop (suc (suc n)) ((j, w) ∷ []) h = absurd (omega arith)
  last?-drop (suc n) ((j, w) ∷ (i, v) ∷ m) h = last?-drop n ((i, v) ∷ m) (omega arith)

  pub last?-remove :
      (j k : String) (m : Dict V)
      → last? (keys m) ≡ some k
      → (k == j) ≡ false
      → last? (keys (remove j m)) ≡ some k
  last?-remove j k [] h e = cc
  last?-remove j k ((i, w) ∷ []) h e = ground (arith, eq_iff i j, eq_iff k j)
  last?-remove j k ((i, w) ∷ (l, v) ∷ m) h e =
      ground
        (arith, last?-remove j k ((l, v) ∷ m) h e, last?-cons i k (keys (remove j ((l, v) ∷ m))))
