-- ===== src/Tree.antt =====
-- ui/src/treeExpansion.ts: what the sidebar tree opens with, and the ledger of recent calls. The
-- nodes of an app are identified by texts; folds are an object with such texts as keys.
pub mod Seeds
pub mod Ledger
pub mod Pruning
use kaja.Prelude.{
  ℕ, zero, suc, ◌+◌, ◌-◌, String, Bool, true, false, not, ◌&&◌, ◌||◌, Option, none, some, List, [],
  ◌∷◌, ◌++◌, ltb, leb, nat_eq, any, length, take, map, find?, filter, is_nil, is_some, sum_by,
  if◌then◌else◌, ◌==◌,
}
use kaja.Prelude.Dict
use kaja.Prelude.Dict.{Dict}
use kaja.Prelude.Text.{◌+++◌, is_prefix}

pub data Fold : Type 0 where
  opened shut : Fold

abbrev pub FoldMap : Type 0
FoldMap = Dict Fold

pub record Service : Type 0 where
  pub name : String
  pub package_name : String
  pub methods : List String

pub record TreeApp : Type 0 where
  pub name : String
  pub services : List Service

pub record MethodUse : Type 0 where
  pub app : String
  pub package_name : String
  pub service : String
  pub method : String

abbrev pub recent_paths : ℕ
recent_paths = 3

abbrev pub auto_rows : ℕ
auto_rows = 12

abbrev pub ledger_limit : ℕ
ledger_limit = 200

unfoldable pub app_node_id : String → String
app_node_id app_name = "app:" +++ app_name

unfoldable pub package_node_id : String → String → String
package_node_id app_name package_name = "pkg:" +++ app_name +++ "/" +++ package_name

unfoldable pub service_node_id : String → Service → String
service_node_id app_name service =
    "svc:" +++ app_name +++ "/" +++ service.package_name +++ "." +++ service.name

unfoldable pub has_multiple_packages : List Service → Bool
has_multiple_packages [] = false
has_multiple_packages (first ∷ services) =
    any (λ (s : Service). not (s.package_name == first.package_name)) (first ∷ services)

-- The packages in the order of their first services, each with its services.
abbrev add_service : Service → Dict (List Service) → Dict (List Service)
add_service service groups = elim (Dict.lookup service.package_name groups) [
  | none ↦ Dict.insert service.package_name (service ∷ []) groups
  | some existing ↦ Dict.insert service.package_name (existing ++ service ∷ []) groups
]

unfoldable pub group_services : List Service → Dict (List Service) → Dict (List Service)
group_services [] groups = groups
group_services (service ∷ services) groups = group_services services (add_service service groups)

unfoldable pub group_services_by_package : List Service → Dict (List Service)
unfolding group_services
group_services_by_package services = group_services services []

unfoldable pub is_open : FoldMap → String → Bool
is_open folds node_id = elim (Dict.lookup node_id folds) [ some Fold.opened ↦ true | _ ↦ false ]

-- The levels below an app, outermost first.
unfoldable pub level_sizes : TreeApp → List ℕ
unfolding has_multiple_packages group_services_by_package
level_sizes app =
    let services = length app.services in
    let methods = sum_by (λ (s : Service). length s.methods) app.services in
    if has_multiple_packages app.services
    then length (group_services_by_package app.services) ∷ services ∷ methods ∷ []
    else services ∷ methods ∷ []

unfoldable pub rows_at_depth : TreeApp → ℕ → ℕ
unfolding level_sizes
rows_at_depth app depth = sum_by (λ size. size) (take depth (level_sizes app))

abbrev package_nodes : TreeApp → List String
package_nodes app =
    map (package_node_id app.name) (Dict.keys (group_services_by_package app.services))

abbrev service_nodes : TreeApp → List Service → List String
service_nodes app services = map (service_node_id app.name) services

unfoldable pub nodes_at_depth : TreeApp → ℕ → List String
unfolding has_multiple_packages group_services_by_package app_node_id package_node_id
    service_node_id
nodes_at_depth app depth =
    let multiple = has_multiple_packages app.services in
    let second =
      if leb 2 depth
      then (if multiple then package_nodes app else service_nodes app app.services)
      else [] in
    let third = if leb 3 depth && multiple then service_nodes app app.services else [] in
    if ltb depth 1 then [] else app_node_id app.name ∷ (second ++ third)

-- The loop from `depth` down to 2.
unfoldable pub auto_depth : TreeApp → ℕ → ℕ → ℕ
unfolding rows_at_depth
auto_depth app budget zero = 1
auto_depth app budget (suc zero) = 1
auto_depth app budget (suc (suc depth)) =
    let shallower = auto_depth app budget (suc depth) in
    if leb (rows_at_depth app (suc (suc depth))) budget then suc (suc depth) else shallower

unfoldable pub auto_open_nodes : TreeApp → ℕ → List String
unfolding auto_depth nodes_at_depth
auto_open_nodes app budget = nodes_at_depth app (auto_depth app budget (length (level_sizes app)))

abbrev is_service_of : MethodUse → Service → Bool
is_service_of use' service =
    service.name == use'.service && service.package_name == use'.package_name

unfoldable pub use_path : TreeApp → MethodUse → Option (List String)
unfolding has_multiple_packages app_node_id package_node_id service_node_id
use_path app use' = elim (find? (is_service_of use') app.services) [
  | none ↦ none
  | some service ↦
      if any (λ method. method == use'.method) service.methods
      then some (
          app_node_id app.name
          ∷ ((if has_multiple_packages app.services
                then package_node_id app.name service.package_name ∷ []
                else [])
              ++ service_node_id app.name service ∷ []))
      else none
]

-- The loop of `subtreeNodes` over the packages.
unfoldable pub package_subtree : TreeApp → String → Dict (List Service) → List String
unfolding package_node_id service_node_id
package_subtree app node_id [] = []
package_subtree app node_id ((package_name, services) ∷ groups) =
    if node_id == package_node_id app.name package_name
    then service_nodes app services
    else package_subtree app node_id groups

unfoldable pub subtree_nodes : TreeApp → String → List String
unfolding package_subtree has_multiple_packages group_services_by_package app_node_id
subtree_nodes app node_id =
    if node_id == app_node_id app.name
    then (if has_multiple_packages app.services then package_nodes app else [])
      ++ service_nodes app app.services
    else package_subtree app node_id (group_services_by_package app.services)
