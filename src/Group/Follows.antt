-- ===== src/Group/Follows.antt =====
-- ui/src/runs.ts: the selection that follows the runs of a file.
use kaja.Prelude.{
  ◌≤◌, length, ◌≡◌, refl, ap, Bool, true, Option, some, List, [], ◌∷◌, any, last?, arith,
  Bool-cases, Option-cases, inl, inr, ◌==◌, eq_refl,
}
use kaja.Run.{RunSelection, ConsoleItem}
use kaja.Group.{Group}
use kaja.Group.Rows.{follow_selection, newest_selection, keeps_selection}

-- A selection of one of the runs.
abbrev pub is_among : List Group → RunSelection → Bool
is_among groups selection = any (λ (g : Group). g.run.id == selection.run_id) groups

any-last? :
    (p : Group → Bool) (groups : List Group) {g : Group}
    → last? groups ≡ some g
    → p g ≡ true
    → any p groups ≡ true
any-last? p [] e h = absurd (cc e)
any-last? p (x ∷ []) {g} e h = ground (arith, ap p same)
  where
    same : x ≡ g
    same = ground (arith, e)
any-last? p (x ∷ y ∷ groups) e h = ground (arith, any-last? p (y ∷ groups) e h)

last?-some {ℓ} : {A : Type ℓ} (xs : List A) → 1 ≤ length xs → (x : A) × (last? xs ≡ some x)
last?-some [] h = absurd (omega arith)
last?-some (x ∷ []) h = (x, refl)
last?-some (x ∷ y ∷ xs) h = last?-some (y ∷ xs) (omega arith)

keeps_selection-among :
    (groups : List Group) (newest : Group) (is_new_run tailing : Bool) (selection : RunSelection)
    → keeps_selection groups newest is_new_run tailing selection ≡ true
    → is_among groups selection ≡ true
keeps_selection-among groups newest is_new_run tailing selection h = ground arith

module _ (heap : List ConsoleItem) (current : Option RunSelection) (groups : List Group)
    (is_new_run tailing : Bool) where
  abbrev Chosen : Type 0
  Chosen =
      (selection : RunSelection) × (follow_selection heap current groups is_new_run tailing
        ≡ some selection)
      × (is_among groups selection ≡ true)

  follow_newest : {newest : Group} → last? groups ≡ some newest → Chosen
  unfolding follow_selection
  follow_newest {newest} e = elim (Option-cases current) [
    | inl unset ↦ (newest_selection heap newest, rw (e, follow_selection) (rw unset refl), among)
    | inr (selection, set_to) ↦
        elim (Bool-cases (keeps_selection groups newest is_new_run tailing selection)) [
          | inl keeps ↦ (
            selection,
            rw (e, follow_selection) (rw set_to (rw keeps refl)),
            keeps_selection-among groups newest is_new_run tailing selection keeps,
          )
          | inr leaves ↦ (
            newest_selection heap newest,
            rw (e, follow_selection) (rw set_to (rw leaves refl)),
            among,
          )
        ]
  ]
    where
      among : is_among groups (newest_selection heap newest) ≡ true
      among = any-last? (λ (g : Group). g.run.id == newest.run.id) groups e (eq_refl newest.run.id)

  -- When there is a run at all, there is a selection after following, and it is of one of the runs
  -- that there are, whatever was selected before.
  pub follow_selection-among :
      1 ≤ length groups
      → (selection : RunSelection) × (follow_selection heap current groups is_new_run tailing
          ≡ some selection)
        × (is_among groups selection ≡ true)
  follow_selection-among h = let (newest, e) = last?-some groups h in follow_newest e
