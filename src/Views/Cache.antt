-- ===== src/Views/Cache.antt =====
-- ui/src/views.ts: what the pane keeps mounted when a view is shown or visited.
use kaja.Prelude.{
  suc, ◌+◌, ◌≤◌, ◌≡◌, refl, ◌⊎◌, inl, inr, true, Option, none, some, List, [], ◌∷◌, arith, leb, max,
  all, filter, length, Bool-cases, if◌then◌else◌,
}
use kaja.Views.{View, holds_work, drop_free, show, mounted_limit}

-- What is known of the views that are left when one is let go.
abbrev Lets : List View → Option (List View) → Type 0
Lets views none = all holds_work views ≡ true
Lets views (some kept) =
    (filter holds_work kept ≡ filter holds_work views) × (length kept + 1 ≡ length views)

Lets-cons :
    (view : View) (views : List View) (dropped : Option (List View))
    → Lets views dropped
    → Lets (view ∷ views) (elim dropped [
      | some kept ↦ some (view ∷ kept)
      | none ↦ if holds_work view then none else some views
    ])
Lets-cons view views (some kept) (work, one_less) = (ground (arith, work), omega (arith, one_less))
Lets-cons view views none work = elim (Bool-cases (holds_work view)) [
  | inl works ↦ rw works (rw works work)
  | inr free ↦ rw free (ground arith, omega arith)
]

drop_free-Lets : (views : List View) → Lets views (drop_free views)
unfolding drop_free
drop_free-Lets [] = refl
drop_free-Lets (view ∷ views) = Lets-cons view views (drop_free views) (drop_free-Lets views)

Shows : View → List View → List View → Type 0
Shows view views after =
    (filter holds_work after ≡ filter holds_work (view ∷ views))
    × ((length after ≤ max 10 (length views)) ⊎ (all holds_work views ≡ true))

show_full :
    (view : View) (views : List View) (dropped : Option (List View))
    → Lets views dropped
    → Shows view views (elim dropped [ some kept ↦ view ∷ kept | none ↦ view ∷ views ])
unfolding Shows
show_full view views (some kept) (work, one_less) = (ground (arith, work), inl (omega arith))
show_full view views none work = (refl, inr work)

-- Showing a view never drops a view that holds edits: those that are mounted afterwards, in their
-- order, are the shown one, if it is such, and all that there were. The number of mounted views
-- does not pass 10 and what it was, unless every view there was holds edits.
pub show_lem :
    (view : View) (views : List View)
    → (filter holds_work (show view views) ≡ filter holds_work (view ∷ views))
      × ((length (show view views) ≤ max 10 (length views)) ⊎ (all holds_work views ≡ true))
unfolding show Shows
show_lem view views = elim (Bool-cases (leb (suc (length views)) mounted_limit)) [
  | inl room ↦ rw room (refl, inl (ground arith))
  | inr full ↦ rw full (show_full view views (drop_free views) (drop_free-Lets views))
]
