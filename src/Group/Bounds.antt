-- ===== src/Group/Bounds.antt =====
-- ui/src/consoles.ts: the length of a group's log, its marks and its failures.
use kaja.Prelude.{
  ℕ, ◌+◌, ◌≤◌, ◌<◌, ◌≡◌, refl, ◌∙◌, String, true, false, some, List, [], ◌∷◌, ◌++◌, length, filter,
  leb, ltb, length-append, arith, Bool-cases, inl, inr, All, eq_refl,
}
use kaja.Prelude.Dict
use kaja.Prelude.Dict.{Dict, lookup-insert}
use kaja.Run.{Run, ConsoleItem}
use kaja.Group.{
  Group, Failed, new_group, append, patched, mark, account, enlist, is_drawing, has_error,
}
use kaja.Group.Notices.{late_failures}

pub record IsSound (g : Group) : Type 0 where
  pub bounded : length g.items ≤ 20000
  pub drawn : g.drawn_at ≤ g.seq
  pub failed : All (λ (f : Failed). f.seq ≤ g.seq) (Dict.values g.failed)

All-insert :
    (n : ℕ) (k : String) (f : Failed) (m : Dict Failed)
    → All (λ (x : Failed). x.seq ≤ n) (Dict.values m)
    → f.seq ≤ n
    → All (λ (x : Failed). x.seq ≤ n) (Dict.values (Dict.insert k f m))
All-insert n k f [] h p = (p, tt)
All-insert n k f ((j, w) ∷ m) h p = ground (arith, All-insert n k f m h.1 p)

All-later :
    (n : ℕ) (xs : List Failed)
    → All (λ (x : Failed). x.seq ≤ n) xs
    → All (λ (x : Failed). x.seq ≤ n + 1) xs
All-later n [] h = tt
All-later n (x ∷ xs) h = (omega arith, All-later n xs h.1)

-- The three counts that the log and the notices go by are those of the group's fields.
mark-IsSound : (ref : ℕ) (item : ConsoleItem) (g : Group) → IsSound g → IsSound (mark ref item g)
unfolding mark
mark-IsSound ref item g h = elim (Bool-cases (is_drawing item)) [
  | inl drawing ↦ rw drawing (record { bounded = h.bounded; drawn = omega arith; failed = later })
  | inr other ↦ elim (Bool-cases (has_error item)) [
    | inl failing ↦
        rw (other, failing)
          (record {
            bounded = h.bounded;
            drawn = omega arith;
            failed = All-insert (g.seq + 1) item.id _ g.failed later (omega arith);
          })
    | inr fine ↦
        rw (other, fine) (record { bounded = h.bounded; drawn = omega arith; failed = later })
  ]
]
  where
    later : All (λ (x : Failed). x.seq ≤ g.seq + 1) (Dict.values g.failed)
    later = All-later g.seq (Dict.values g.failed) h.failed

append-bounded :
    (ref : ℕ) (refs : List ℕ) → leb 20000 (length refs) ≡ false → length (refs ++ ref ∷ []) ≤ 20000
append-bounded ref refs room = ground (arith, length-append refs (ref ∷ []))

filter-none :
    (n m : ℕ) (xs : List Failed)
    → n ≤ m
    → All (λ (x : Failed). x.seq ≤ n) xs
    → filter (λ (x : Failed). ltb m x.seq) xs ≡ []
filter-none n m [] p h = refl
filter-none n m (x ∷ xs) p h = ground (arith, filter-none n m xs p h.1)

module _ (ref : ℕ) (item : ConsoleItem) (g : Group) (h : IsSound g) where
  pub append-IsSound : IsSound (append ref item g).0
  unfolding append account
  append-IsSound = elim (Bool-cases (leb 20000 (length g.items))) [
    | inl full ↦ rw full (record { bounded = h.bounded; drawn = h.drawn; failed = h.failed })
    | inr room ↦ rw room (
        mark-IsSound ref item _ (record {
          bounded = append-bounded ref g.items room;
          drawn = h.drawn;
          failed = h.failed;
        }))
  ]

  pub patched-IsSound : IsSound (patched ref item g)
  unfolding patched account
  patched-IsSound =
      mark-IsSound ref item _ (record { bounded = h.bounded; drawn = h.drawn; failed = h.failed })

module _ (ref : ℕ) (item : ConsoleItem) (g : Group) (h : IsSound g) where
  -- When the bounded counts hold of a group with room in its log, and an item that draws is
  -- appended, no failure of the group is left that was not drawn over.
  pub late_failures-append-drawing :
      (room : leb 20000 (length g.items) ≡ false) (drawing : is_drawing item ≡ true)
      → late_failures (append ref item g).0 ≡ []
  unfolding append account enlist mark late_failures
  late_failures-append-drawing room drawing =
      rw (room, drawing)
        (filter-none g.seq (g.seq + 1) (Dict.values g.failed) (omega arith) h.failed)

  -- When the counts hold of a group with room in its log, and a failed call that draws nothing is
  -- appended, the group records the failure, as one that is later than everything drawn.
  pub failed-append :
      (room : leb 20000 (length g.items) ≡ false) (silent : is_drawing item ≡ false)
      (failing : has_error item ≡ true)
      → (Dict.lookup item.id (append ref item g).0.failed
          ≡ some (record { item = ref; seq = g.seq + 1 }))
        × ((append ref item g).0.drawn_at < g.seq + 1)
  unfolding append account enlist mark
  failed-append room silent failing =
      let failed : Failed = record { item = ref; seq = g.seq + 1 } in
      rw (room, silent, failing)
        (
          lookup-insert item.id item.id failed g.failed ∙ rw (eq_refl item.id) refl,
          omega (arith, h.drawn),
        )

pub new_group-IsSound : (run : Run) → IsSound (new_group run)
unfolding new_group
new_group-IsSound run = record { bounded = omega arith; drawn = omega arith; failed = tt }
