-- ===== src/Tests/Sidebar.antt =====
-- The theorems on tables, the tree, the drafts and the views, at examples.
use kaja.Prelude.{
  ◌||◌, not, ℕ, ◌≡◌, ◌≤◌, ◌⊎◌, ◌&&◌, refl, arith, some, none, List, [], ◌∷◌, true, false, length,
  String, if◌then◌else◌, nat_eq, filter, all, max, sum_by,
}
use kaja.Prelude.Dict
use kaja.Block.{TableBlock, CellStatus}
use kaja.Block.Cells.{status_at, cell_status, with_cell_status, status_at-with_cell_status}
use kaja.TableView.{TableView, table_window, rows_at, page_size_of}
use kaja.TableView.Window.{rows-table_window}
use kaja.Tree.{TreeApp, Service, MethodUse, Fold, FoldMap}
use kaja.Tree.Seeds.{seed_folds, lookup-seed_folds}
use kaja.Tree.Ledger.{with_use, is_front, IsDistinct, with_use-IsDistinct}
use kaja.Drafts.{Draft, order_drafts, prune_drafts}
use kaja.Drafts.Orders.{is_work, is_spared, IsOrdered, order_drafts-IsOrdered, edited-prune_drafts}
use kaja.Views.{View, Shown, TableEdit, holds_work, show}
use kaja.Views.Cache.{show_lem}
use kaja.Views.Visits.{is_shown, visit_lem}
use kaja.Views.{visit}

-- A page of one row, and a cell that is on its way.
abbrev users_table : TableBlock
users_table = record {
  columns = "id" ∷ "name" ∷ [];
  rows = ("1" ∷ "Ada" ∷ []) ∷ ("2" ∷ "Bob" ∷ []) ∷ ("3" ∷ "Eve" ∷ []) ∷ [];
  cells = some ((1, (1, record { error = none; retry = false }) ∷ []) ∷ []);
  live = false;
  loading = false;
  exhausted = true;
  server_search = false;
  loaded_search = none;
  expired = false;
  page_size = some 1;
  total = none;
  error = none;
}

abbrev failed_cell : CellStatus
failed_cell = record { error = some "timeout"; retry = true }

status_at-with_cell_status_example :
    status_at (with_cell_status users_table 1 0 (some failed_cell)) 1 1
    ≡ (if nat_eq 1 1 && nat_eq 0 1 then some failed_cell else cell_status users_table 1 1)
status_at-with_cell_status_example =
    status_at-with_cell_status users_table 1 0 (some failed_cell) 1 1

abbrev same_text : String → String
same_text s = s

abbrev searched : TableView
searched = record { page = 1; search = "b" }

rows-table_window_example :
    ((table_window same_text users_table searched).rows
      ≡ rows_at users_table.rows (table_window same_text users_table searched).indices)
    × (length (table_window same_text users_table searched).rows ≤ page_size_of users_table)
rows-table_window_example = rows-table_window same_text users_table searched

abbrev users_service : Service
users_service = record { name = "Users"; package_name = "acme"; methods = "GetUser" ∷ [] }

abbrev users_app : TreeApp
users_app = record { name = "users"; services = users_service ∷ [] }

abbrev get_user : MethodUse
get_user = record { app = "users"; package_name = "acme"; service = "Users"; method = "GetUser" }

abbrev shut_app : FoldMap
shut_app = ("app:users", Fold.shut) ∷ []

lookup-seed_folds_example :
    Dict.lookup "app:users" (seed_folds (users_app ∷ []) ("users" ∷ []) shut_app (get_user ∷ []) [])
    ≡ some Fold.shut
lookup-seed_folds_example =
    lookup-seed_folds "app:users" Fold.shut (users_app ∷ []) ("users" ∷ []) shut_app (get_user ∷ [])
      [] refl

one_use-IsDistinct : IsDistinct (get_user ∷ [])
unfolding IsDistinct
one_use-IsDistinct = (refl, tt)

abbrev list_users : MethodUse
list_users = record get_user { method = "ListUsers" }

with_use-IsDistinct_example :
    IsDistinct (with_use (get_user ∷ []) list_users)
    × (length (with_use (get_user ∷ []) list_users) ≤ 200)
    × (is_front (with_use (get_user ∷ []) list_users) list_users ≡ true)
with_use-IsDistinct_example =
    with_use-IsDistinct (get_user ∷ []) list_users one_use-IsDistinct (omega arith)

abbrev buffer : Draft
buffer = record {
  id = "d1";
  title = "GetUser";
  code = "x";
  generated_code = "x";
  ran = false;
  origin_app_name = some "users";
  agent_client = none;
  created_at = 1;
  updated_at = 5;
}

abbrev drafts : List Draft
drafts = buffer ∷ record buffer { id = "d2"; code = "y"; updated_at = 3 } ∷ []

abbrev agent_drafts : List Draft
agent_drafts = record buffer { id = "d3"; code = "z"; agent_client = some "cli" } ∷ drafts

order_drafts-IsOrdered_example :
    IsOrdered (order_drafts agent_drafts)
    × ((f : Draft → ℕ) → sum_by f (order_drafts agent_drafts) ≡ sum_by f agent_drafts)
order_drafts-IsOrdered_example = order_drafts-IsOrdered agent_drafts

edited-prune_drafts_example :
    (filter is_work (prune_drafts agent_drafts 1000000000 [] true) ≡ filter is_work agent_drafts)
    × (filter (λ d. not (is_work d)) (prune_drafts agent_drafts 1000000000 [] true)
        ≡ filter (λ d. not (is_work d) && (not true || is_spared 1000000000 [] d)) agent_drafts)
edited-prune_drafts_example = edited-prune_drafts agent_drafts 1000000000 [] true

abbrev compiler_view : View
compiler_view = record { id = "compiler-1"; seq = 1; shown = Shown.compiler }

abbrev variables_view : View
variables_view = record { id = "variables-2"; seq = 2; shown = Shown.variables TableEdit.table }

show_lem_example :
    (filter holds_work (show compiler_view (variables_view ∷ []))
      ≡ filter holds_work (compiler_view ∷ variables_view ∷ []))
    × ((length (show compiler_view (variables_view ∷ [])) ≤ max 10 (length (variables_view ∷ [])))
        ⊎ (all holds_work (variables_view ∷ []) ≡ true))
show_lem_example = show_lem compiler_view (variables_view ∷ [])

visit_lem_example :
    (is_shown "variables-2" (visit "variables-2" (compiler_view ∷ variables_view ∷ [])) ≡ true)
    × ((f : View → ℕ)
        → sum_by f (visit "variables-2" (compiler_view ∷ variables_view ∷ []))
          ≡ sum_by f (compiler_view ∷ variables_view ∷ []))
visit_lem_example = visit_lem "variables-2" (compiler_view ∷ variables_view ∷ []) refl
