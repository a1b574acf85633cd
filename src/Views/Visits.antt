-- ===== src/Views/Visits.antt =====
-- ui/src/views.ts: `visit`, which brings a view to the front.
use kaja.Prelude.{
  ℕ, suc, ◌+◌, ◌≡◌, refl, String, Bool, true, false, Option, none, some, List, [], ◌∷◌, ◌++◌, arith,
  any, take, drop, get_elem?, find_index?, sum_by, Bool-cases, inl, inr, if◌then◌else◌,
}
use kaja.Views.{View, has_id, visit}

module _ (p : View → Bool) where
  -- What is known of the place of the first view that passes a test.
  abbrev Found : List View → Option ℕ → Type 0
  Found views none = any p views ≡ false
  Found views (some i) =
      (view : View) × (get_elem? views i ≡ some view)
      × (p view ≡ true)
      × ((f : View → ℕ) → f view + sum_by f (take i views ++ drop (suc i) views) ≡ sum_by f views)

  Found-cons :
      (view : View) (views : List View) (rest : Option ℕ)
      → Found views rest
      → Found
          (view ∷ views)
          (if p view then some 0 else elim rest [ none ↦ none | some i ↦ some (suc i) ])
  Found-cons view views rest h = elim (Bool-cases (p view)) [
    | inl here ↦ rw here (view, refl, here, λ f. refl)
    | inr later ↦ rw later (go rest h later)
  ]
    where
      go :
          (found : Option ℕ)
          → Found views found
          → p view ≡ false
          → Found (view ∷ views) (elim found [ none ↦ none | some i ↦ some (suc i) ])
      go none k other = ground arith
      go (some i) (found, there, passes, sums) other =
          (found, there, passes, λ f. omega (arith, sums f))

  find_index?-Found : (views : List View) → Found views (find_index? p views)
  find_index?-Found [] = refl
  find_index?-Found (view ∷ views) =
      Found-cons view views (find_index? p views) (find_index?-Found views)

-- The view that the pane shows is the first.
abbrev pub is_shown : String → List View → Bool
is_shown id [] = false
is_shown id (view ∷ views) = has_id id view

-- Visiting a view that is mounted shows it, and keeps every view that was mounted, each as often.
pub visit_lem :
    (id : String) (views : List View)
    → any (has_id id) views ≡ true
    → (is_shown id (visit id views) ≡ true)
      × ((f : View → ℕ) → sum_by f (visit id views) ≡ sum_by f views)
unfolding visit
visit_lem id views mounted =
    go (find_index? (has_id id) views) refl (find_index?-Found (has_id id) views)
  where
    go :
        (found : Option ℕ)
        → find_index? (has_id id) views ≡ found
        → Found (has_id id) views found
        → (is_shown id (visit id views) ≡ true)
          × ((f : View → ℕ) → sum_by f (visit id views) ≡ sum_by f views)
    go none e gone = absurd (ground arith)
    go (some i) e (view, there, passes, sums) = rw (e, visit) (rw (there, visit) (passes, sums))
