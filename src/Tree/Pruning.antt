-- ===== src/Tree/Pruning.antt =====
-- ui/src/treeExpansion.ts: dropping the folds of nodes that are gone.
use kaja.Prelude.{
  String, Bool, ◌||◌, List, [], ◌∷◌, ◌++◌, any, length, map, nat_eq, is_nil, if◌then◌else◌,
}
use kaja.Prelude.Text.{◌+++◌, is_prefix}
use kaja.Prelude.Dict
use kaja.Tree.{
  FoldMap, TreeApp, app_node_id, package_node_id, service_node_id, has_multiple_packages,
  group_services_by_package,
}
use kaja.Tree.Seeds.{contains}

unfoldable pub live_nodes : List TreeApp → List String
unfolding app_node_id package_node_id service_node_id has_multiple_packages
    group_services_by_package
live_nodes [] = []
live_nodes (app ∷ apps) =
    app_node_id app.name
    ∷ ((if has_multiple_packages app.services
          then map (package_node_id app.name) (Dict.keys (group_services_by_package app.services))
          else [])
        ++ (map (service_node_id app.name) app.services ++ live_nodes apps))

unfoldable pub spared_prefixes : List TreeApp → List String → List String
spared_prefixes [] compiling = []
spared_prefixes (app ∷ apps) compiling =
    (if contains compiling app.name || is_nil app.services
      then ("pkg:" +++ app.name +++ "/") ∷ ("svc:" +++ app.name +++ "/") ∷ []
      else [])
    ++ spared_prefixes apps compiling

unfoldable pub is_kept : List TreeApp → List String → String → Bool
unfolding live_nodes spared_prefixes
is_kept apps compiling node_id =
    contains (live_nodes apps) node_id
    || any (λ prefix. is_prefix prefix node_id) (spared_prefixes apps compiling)

unfoldable pub keep_folds : (String → Bool) → FoldMap → FoldMap
keep_folds p [] = []
keep_folds p ((node_id, fold) ∷ folds) =
    let rest = keep_folds p folds in if p node_id then (node_id, fold) ∷ rest else rest

unfoldable pub prune_folds : FoldMap → List TreeApp → List String → FoldMap
unfolding is_kept keep_folds
prune_folds folds apps compiling =
    let kept = keep_folds (is_kept apps compiling) folds in
    if nat_eq (length kept) (length folds) then folds else kept
