-- ===== src/Drafts/Orders.antt =====
-- ui/src/drafts.ts: the order of the drafts in the sidebar, and what the sweep spares.
use kaja.Prelude.{
  any, ℕ, ◌+◌, ◌≡◌, refl, sym, ◌∙◌, String, Bool, true, false, not, ◌&&◌, ◌||◌, leb, is_some,
  if◌then◌else◌, ◌==◌, List, [], ◌∷◌, arith, filter, sum_by, length, All, Bool-cases, inl, inr,
}
use kaja.Drafts.{
  Draft, before, insert_sorted, order_drafts, untouched_drafts, edited_drafts, is_agent_draft,
  prune_drafts, survives, is_untouched,
}

-- A draft that was run or edited.
abbrev pub is_worked : Draft → Bool
is_worked d = d.ran || not (d.code == d.generated_code)

abbrev pub is_newer : Draft → Draft → Bool
is_newer a b = leb b.updated_at a.updated_at

-- The agent's drafts stand first, then those that were run or edited, then the untouched ones; among
-- those of one kind, the ones last updated stand first.
pub stands_before : Draft → Draft → Bool
stands_before a b =
    if is_some a.agent_client
    then not (is_some b.agent_client) || is_newer a b
    else (not (is_some b.agent_client)
        && (if is_worked a
            then not (is_worked b) || is_newer a b
            else (not (is_worked b) && is_newer a b)))

pub IsOrdered : List Draft → Type 0
IsOrdered [] = Unit
IsOrdered (d ∷ ds) = All (λ e. stands_before d e ≡ true) ds × IsOrdered ds

before_lem : (a b : Draft) → before a b ≡ stands_before a b
unfolding before is_untouched stands_before
before_lem a b = ground arith

before_total : (a b : Draft) → before a b ≡ false → stands_before b a ≡ true
unfolding before is_untouched stands_before
before_total a b h = ground arith

before_trans :
    (a b c : Draft) → stands_before a b ≡ true → stands_before b c ≡ true → stands_before a c ≡ true
unfolding stands_before
before_trans a b c h k = ground arith

All-before :
    (a b : Draft) (ds : List Draft)
    → stands_before a b ≡ true
    → All (λ e. stands_before b e ≡ true) ds
    → All (λ e. stands_before a e ≡ true) ds
All-before a b [] h k = tt
All-before a b (d ∷ ds) h k = (before_trans a b d h k.0, All-before a b ds h k.1)

All-insert_sorted :
    (a d : Draft) (ds : List Draft)
    → stands_before a d ≡ true
    → All (λ e. stands_before a e ≡ true) ds
    → All (λ e. stands_before a e ≡ true) (insert_sorted d ds)
unfolding insert_sorted
All-insert_sorted a d [] h k = (h, tt)
All-insert_sorted a d (e ∷ es) h k = elim (Bool-cases (before d e)) [
  | inl first ↦ rw first (h, k)
  | inr later ↦ rw later (k.0, All-insert_sorted a d es h k.1)
]

insert_sorted-IsOrdered :
    (d : Draft) (ds : List Draft) → IsOrdered ds → IsOrdered (insert_sorted d ds)
unfolding insert_sorted IsOrdered
insert_sorted-IsOrdered d [] h = (tt, tt)
insert_sorted-IsOrdered d (e ∷ es) h = elim (Bool-cases (before d e)) [
  | inl first ↦
      let ahead = sym (before_lem d e) ∙ first in rw first ((ahead, All-before d e es ahead h.0), h)
  | inr later ↦
      rw later
        (All-insert_sorted e d es (before_total d e later) h.0, insert_sorted-IsOrdered d es h.1)
]

sum_by-insert_sorted :
    (f : Draft → ℕ) (d : Draft) (ds : List Draft)
    → sum_by f (insert_sorted d ds) ≡ f d + sum_by f ds
unfolding insert_sorted
sum_by-insert_sorted f d [] = refl
sum_by-insert_sorted f d (e ∷ es) = elim (Bool-cases (before d e)) [
  | inl first ↦ rw first refl
  | inr later ↦ rw later (omega (arith, sum_by-insert_sorted f d es))
]

order_drafts-sorts : (ds : List Draft) → IsOrdered (order_drafts ds)
unfolding order_drafts
order_drafts-sorts [] = unfold IsOrdered in tt
order_drafts-sorts (d ∷ ds) = insert_sorted-IsOrdered d (order_drafts ds) (order_drafts-sorts ds)

sum_by-order_drafts : (f : Draft → ℕ) (ds : List Draft) → sum_by f (order_drafts ds) ≡ sum_by f ds
unfolding order_drafts
sum_by-order_drafts f [] = refl
sum_by-order_drafts f (d ∷ ds) =
    sum_by-insert_sorted f d (order_drafts ds) ∙ omega (arith, sum_by-order_drafts f ds)

-- In the sidebar the agent's drafts stand first, then those that were run or edited, then the
-- untouched ones, and those of one kind from the last updated to the first. The order holds the
-- drafts it was given, each as often: any number summed over both lists is the same.
pub order_drafts-IsOrdered :
    (ds : List Draft)
    → IsOrdered (order_drafts ds) × ((f : Draft → ℕ) → sum_by f (order_drafts ds) ≡ sum_by f ds)
order_drafts-IsOrdered ds = (order_drafts-sorts ds, λ f. sum_by-order_drafts f ds)

-- The numbers of the agent's drafts, the untouched and the edited ones add up to the number of
-- drafts.
pub length-drafts :
    (ds : List Draft)
    → length (filter is_agent_draft ds) + (length (untouched_drafts ds) + length (edited_drafts ds))
      ≡ length ds
unfolding untouched_drafts edited_drafts
length-drafts [] = refl
length-drafts (d ∷ ds) = ground (arith, length-drafts ds)

-- A draft that was run or edited, or that is an agent's.
abbrev pub is_work : Draft → Bool
is_work d = d.ran || not (d.code == d.generated_code) || is_some d.agent_client

-- A draft that is open, or that was updated in the last seven days.
abbrev pub is_spared : ℕ → List String → Draft → Bool
is_spared now open_ids d = any (λ id. id == d.id) open_ids || leb now (d.updated_at + 604800000)

-- A sweep never removes a draft that was run or edited, nor an agent's, whatever its age and the
-- time are, and it keeps those drafts in their order; of the others it leaves those that are open or
-- were updated in the last seven days, and no more. Without a sweep every draft stays.
pub edited-prune_drafts :
    (ds : List Draft) (now : ℕ) (open_ids : List String) (sweep : Bool)
    → (filter is_work (prune_drafts ds now open_ids sweep) ≡ filter is_work ds)
      × (filter (λ d. not (is_work d)) (prune_drafts ds now open_ids sweep)
          ≡ filter (λ d. not (is_work d) && (not sweep || is_spared now open_ids d)) ds)
unfolding prune_drafts is_untouched survives
edited-prune_drafts [] now open_ids false = (refl, refl)
edited-prune_drafts (d ∷ ds) now open_ids false =
    (refl, ground (arith, (edited-prune_drafts ds now open_ids false).1))
edited-prune_drafts [] now open_ids true = (refl, refl)
edited-prune_drafts (d ∷ ds) now open_ids true =
    let (worked, others) = edited-prune_drafts ds now open_ids true in
    (ground (arith, worked), ground (arith, others))
