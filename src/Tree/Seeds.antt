-- ===== src/Tree/Seeds.antt =====
-- ui/src/treeExpansion.ts: seeding the folds of some apps from the ledger and from their sizes.
use kaja.Prelude.{
  ℕ, ◌+◌, String, Bool, not, ◌&&◌, ◌||◌, Option, none, some, List, [], ◌∷◌, leb, nat_eq, any, find?,
  if◌then◌else◌, ◌==◌, ◌++◌, eq_iff, ◌∙◌, ◌≡◌, arith, Bool-cases, Option-cases, inl, inr,
}
use kaja.Prelude.Dict
use kaja.Prelude.Dict.{Dict, lookup-insert}
use kaja.Tree.{
  Fold, FoldMap, TreeApp, MethodUse, use_path, auto_open_nodes, auto_rows, recent_paths,
}

abbrev pub contains : List String → String → Bool
contains ids id = any (λ other. other == id) ids

-- `open`: only a node that was never touched is written.
unfoldable pub open_node : String → FoldMap → FoldMap
open_node node_id folds = elim (Dict.lookup node_id folds) [
  | none ↦ Dict.insert node_id Fold.opened folds
  | some _ ↦ folds
]

unfoldable pub open_all : List String → FoldMap → FoldMap
unfolding open_node
open_all [] folds = folds
open_all (node_id ∷ rest) folds = open_all rest (open_node node_id folds)

-- What the loop over the ledger carries.
pub record Seeding : Type 0 where
  pub folds : FoldMap
  pub spoken_for : List String
  pub paths : ℕ

abbrev found_path : List TreeApp → MethodUse → Option (String × List String)
found_path apps use' = elim (find? (λ (app : TreeApp). app.name == use'.app) apps) [
  | none ↦ none
  | some app ↦ elim (use_path app use') [ none ↦ none | some path ↦ some (app.name, path) ]
]

abbrev spend : List String → String × List String → Seeding → Seeding
spend targets (name, path) s = record {
  folds = if contains targets name then open_all path s.folds else s.folds;
  spoken_for = s.spoken_for ++ name ∷ [];
  paths = s.paths + 1;
}

abbrev spend_found : List String → Option (String × List String) → Seeding → Seeding
spend_found targets none s = s
spend_found targets (some found) s = spend targets found s

unfoldable pub seed_ledger : List TreeApp → List String → List MethodUse → Seeding → Seeding
unfolding open_all
seed_ledger apps targets [] s = s
seed_ledger apps targets (use' ∷ ledger) s =
    let rest = seed_ledger apps targets ledger (spend_found targets (found_path apps use') s) in
    if leb recent_paths s.paths then s else rest

abbrev opens_by_size : List String → List String → Seeding → TreeApp → Bool
opens_by_size targets new_apps s app =
    contains targets app.name
    && not (contains s.spoken_for app.name)
    && (nat_eq s.paths 0 || contains new_apps app.name)

unfoldable pub seed_sizes : List TreeApp → List String → List String → Seeding → FoldMap → FoldMap
unfolding open_all
seed_sizes [] targets new_apps s folds = folds
seed_sizes (app ∷ apps) targets new_apps s folds = seed_sizes apps targets new_apps s (
    if opens_by_size targets new_apps s app
    then open_all (auto_open_nodes app auto_rows) folds
    else folds)

unfoldable pub seed_folds :
    List TreeApp → List String → FoldMap → List MethodUse → List String → FoldMap
unfolding seed_ledger seed_sizes
seed_folds apps targets folds ledger new_apps =
    let s =
      seed_ledger apps targets ledger (record { folds = folds; spoken_for = []; paths = 0 }) in
    seed_sizes apps targets new_apps s s.folds

-- A node that was touched is never written again.
Keeps : String → Fold → FoldMap → FoldMap → Type 0
Keeps node_id fold before after =
    Dict.lookup node_id before ≡ some fold → Dict.lookup node_id after ≡ some fold

module _ (node_id : String) (fold : Fold) where
  lookup-open_node :
      (other : String) (folds : FoldMap) → Keeps node_id fold folds (open_node other folds)
  unfolding Keeps open_node
  lookup-open_node other folds h = elim (Option-cases (Dict.lookup other folds)) [
    | inl fresh ↦
        rw (fresh, open_node)
          (lookup-insert other node_id Fold.opened folds ∙ ground (arith, eq_iff other node_id))
    | inr (was, here) ↦ rw (here, open_node) h
  ]

  lookup-open_all :
      (ids : List String) (folds : FoldMap) → Keeps node_id fold folds (open_all ids folds)
  unfolding Keeps open_all
  lookup-open_all [] folds h = h
  lookup-open_all (id ∷ ids) folds h =
      lookup-open_all ids (open_node id folds) (lookup-open_node id folds h)

  lookup-spend_found :
      (targets : List String) (found : Option (String × List String)) (s : Seeding)
      → Keeps node_id fold s.folds (spend_found targets found s).folds
  unfolding Keeps
  lookup-spend_found targets none s h = h
  lookup-spend_found targets (some (name, path)) s h = elim (Bool-cases (contains targets name)) [
    | inl target ↦ rw target (lookup-open_all path s.folds h)
    | inr other ↦ rw other h
  ]

  lookup-seed_ledger :
      (apps : List TreeApp) (targets : List String) (ledger : List MethodUse) (s : Seeding)
      → Keeps node_id fold s.folds (seed_ledger apps targets ledger s).folds
  unfolding Keeps seed_ledger
  lookup-seed_ledger apps targets [] s h = h
  lookup-seed_ledger apps targets (use' ∷ ledger) s h =
      elim (Bool-cases (leb recent_paths s.paths)) [
        | inl spent ↦ rw spent h
        | inr more ↦ rw more (
            lookup-seed_ledger apps targets ledger (spend_found targets (found_path apps use') s)
              (lookup-spend_found targets (found_path apps use') s h))
      ]

  lookup-seed_sizes :
      (apps : List TreeApp) (targets new_apps : List String) (s : Seeding) (folds : FoldMap)
      → Keeps node_id fold folds (seed_sizes apps targets new_apps s folds)
  unfolding Keeps seed_sizes
  lookup-seed_sizes [] targets new_apps s folds h = h
  lookup-seed_sizes (app ∷ apps) targets new_apps s folds h =
      lookup-seed_sizes apps targets new_apps s _
        (elim (Bool-cases (opens_by_size targets new_apps s app)) [
          | inl sized ↦ rw sized (lookup-open_all (auto_open_nodes app auto_rows) folds h)
          | inr other ↦ rw other h
        ])

  -- Seeding never changes a node that the user has opened or shut, whatever the apps, the ledger
  -- and the targets are.
  pub lookup-seed_folds :
      (apps : List TreeApp) (targets : List String) (folds : FoldMap) (ledger : List MethodUse)
      (new_apps : List String)
      → Dict.lookup node_id folds ≡ some fold
      → Dict.lookup node_id (seed_folds apps targets folds ledger new_apps) ≡ some fold
  unfolding seed_folds Keeps
  lookup-seed_folds apps targets folds ledger new_apps h =
      let start : Seeding = record { folds = folds; spoken_for = []; paths = 0 } in
      let s = seed_ledger apps targets ledger start in
      lookup-seed_sizes apps targets new_apps s s.folds
        (lookup-seed_ledger apps targets ledger start h)
