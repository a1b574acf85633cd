-- ===== src/FileConsole/Numbers.antt =====
-- ui/src/consoles.ts: the numbers of a file's runs, and how many it keeps.
use kaja.Prelude.{
  ℕ, zero, suc, ◌-◌, ◌≤◌, ◌<◌, ◌≡◌, refl, ◌∙◌, some, List, [], ◌∷◌, ◌++◌, length, drop, leb,
  length-append, length-drop, arith, Bool-cases, inl, inr, All, last?,
}
use kaja.Prelude.Dict
use kaja.Prelude.Dict.{Dict, lookup-insert, lookup-remove}
use kaja.Prelude.Dict.Keys.{last?-append}
use kaja.Run.{Run}
use kaja.Group.{new_group}
use kaja.FileConsole.{FileConsole}
use kaja.FileConsole.Runs.{start_run, trim_runs, next_run_number, highest_number, number_of}

numbers_below :
    (runs : List Run) (n : ℕ) → highest_number runs ≤ n → All (λ run. number_of run ≤ n) runs
numbers_below [] n h = tt
numbers_below (run ∷ runs) n h = (ground arith, numbers_below runs n (ground arith))

last?-drop {ℓ} : {A : Type ℓ} (n : ℕ) (xs : List A) → n < length xs → last? (drop n xs) ≡ last? xs
last?-drop n [] h = elim h [ ]
last?-drop zero (x ∷ xs) h = refl
last?-drop (suc zero) (x ∷ []) h = absurd (omega arith)
last?-drop (suc (suc n)) (x ∷ []) h = absurd (omega arith)
last?-drop (suc n) (x ∷ y ∷ xs) h = last?-drop n (y ∷ xs) (omega arith)

pub length-trim_runs : (c : FileConsole) → length (trim_runs c).runs ≤ 25
unfolding trim_runs
length-trim_runs c = elim (Bool-cases (leb (length c.runs) 25)) [
  | inl few ↦ rw few (ground arith)
  | inr many ↦ rw many (rw (length-drop (length c.runs - 25) c.runs) (omega arith))
]

last?-trim_runs : (c : FileConsole) → 1 ≤ length c.runs → last? (trim_runs c).runs ≡ last? c.runs
unfolding trim_runs
last?-trim_runs c h = elim (Bool-cases (leb (length c.runs) 25)) [
  | inl few ↦ rw few refl
  | inr many ↦ rw many (last?-drop (length c.runs - 25) c.runs (omega arith))
]

All-map {ℓ κ μ} :
    {A : Type ℓ} {P : A → Type κ} {Q : A → Type μ} (f : (a : A) → P a → Q a) (xs : List A)
    → All P xs
    → All Q xs
All-map f [] h = tt
All-map f (x ∷ xs) h = (f x h.0, All-map f xs h.1)

module _ (run : Run) (c : FileConsole) where
  abbrev pub numbered : Run
  numbered = record run { number = some (next_run_number c) }

  abbrev started : FileConsole
  started = record c {
    runs = c.runs ++ numbered ∷ [];
    group_heap = c.group_heap ++ new_group numbered ∷ [];
    groups = Dict.insert numbered.id (length c.group_heap) c.groups;
  }

  -- After a press of Run the file keeps at most 25 runs, the last of them is the one that was
  -- pressed, and its number is above the number of every run that the file had.
  pub start_run-numbered :
      (length (start_run run c).runs ≤ 25)
      × (last? (start_run run c).runs ≡ some numbered)
      × All (λ older. number_of older < number_of numbered) c.runs
  unfolding start_run next_run_number
  start_run-numbered = (
    length-trim_runs started,
    last?-trim_runs started (omega (arith, length-append c.runs (numbered ∷ [])))
        ∙ last?-append c.runs numbered,
    below (numbers_below c.runs (highest_number c.runs) (omega arith)),
  )
    where
      below :
          All (λ older. number_of older ≤ highest_number c.runs) c.runs
          → All (λ older. number_of older < number_of numbered) c.runs
      below h = All-map (λ r. omega arith) c.runs h
