-- ===== src/Views.antt =====
-- ui/src/views.ts: the views that the pane keeps mounted, most recently visited first. The editor's
-- models are their identifiers and what they hold is left to the editor; `seq` is the counter of
-- the module, threaded through.
pub mod Cache
pub mod Visits
use kaja.Prelude.{
  ℕ, zero, suc, ◌+◌, ◌-◌, String, Bool, true, false, not, ◌&&◌, ◌||◌, Option, none, some, List, [],
  ◌∷◌, ◌++◌, ltb, leb, length, take, drop, find?, find_index?, filter, map, get_elem?,
  if◌then◌else◌, ◌==◌,
}
use kaja.Prelude.Text.{◌+++◌, decimal}

abbrev pub mounted_limit : ℕ
mounted_limit = 10

pub record Script : Type 0 where
  pub path : String
  pub name : String
  pub folder : String

pub data FormMode : Type 0 where
  create edit : FormMode

pub data FormEdit : Type 0 where
  form json : FormEdit

pub data TableEdit : Type 0 where
  table json : TableEdit

-- What a view shows: its document.
pub data Shown : Type 0 where
  compiler : Shown
  draft : String → Shown
  definition : String → ℕ → ℕ → Shown
  app_form : FormMode → Option String → FormEdit → Shown
  script : Script → Shown
  variables : TableEdit → Shown

pub record View : Type 0 where
  pub id : String
  pub seq : ℕ
  pub shown : Shown

abbrev pub type_of : Shown → String
type_of Shown.compiler = "compiler"
type_of (Shown.draft _) = "draft"
type_of (Shown.definition _ _ _) = "definition"
type_of (Shown.app_form _ _ _) = "appForm"
type_of (Shown.script _) = "script"
type_of (Shown.variables _) = "variables"

-- The views and the module's counter.
pub record Pane : Type 0 where
  pub views : List View
  pub sequence : ℕ

unfoldable pub next_view : Shown → ℕ → View
unfolding decimal
next_view shown sequence = record {
  id = type_of shown +++ "-" +++ decimal (sequence + 1);
  seq = sequence + 1;
  shown = shown;
}

-- A form holds edits that exist nowhere else.
abbrev pub holds_work : View → Bool
holds_work view = elim view.shown [
  | Shown.variables _ ↦ true
  | Shown.app_form _ _ _ ↦ true
  | _ ↦ false
]

abbrev pub has_id : String → View → Bool
has_id id view = view.id == id

unfoldable pub visit : String → List View → List View
visit id views = elim (find_index? (has_id id) views) [
  | none ↦ views
  | some index ↦ elim (get_elem? views index) [
    | none ↦ views
    | some view ↦ view ∷ (take index views ++ drop (suc index) views)
  ]
]

-- The loop from the tail: the last view that is free to go, if there is one.
unfoldable pub drop_free : List View → Option (List View)
drop_free [] = none
drop_free (view ∷ views) = elim (drop_free views) [
  | some kept ↦ some (view ∷ kept)
  | none ↦ if holds_work view then none else some views
]

-- The view that is shown is never the one that goes.
unfoldable pub show : View → List View → List View
unfolding drop_free
show view views =
    if leb (suc (length views)) mounted_limit
    then view ∷ views
    else elim (drop_free views) [ some kept ↦ view ∷ kept | none ↦ view ∷ views ]

unfoldable pub drop_view : String → List View → List View
drop_view id views = filter (λ (view : View). not (view.id == id)) views

abbrev pub show_new : Shown → Pane → Pane
show_new shown pane = record {
  views = show (next_view shown pane.sequence) pane.views;
  sequence = pane.sequence + 1;
}

-- Visiting the view that shows the document, or showing a new one.
unfoldable pub visit_or_show : (Shown → Bool) → Shown → Pane → Pane
unfolding visit show next_view
visit_or_show same shown pane = elim (find? (λ (view : View). same view.shown) pane.views) [
  | some existing ↦ record pane { views = visit existing.id pane.views }
  | none ↦ show_new shown pane
]

abbrev pub is_draft : String → Shown → Bool
is_draft draft_id (Shown.draft id) = id == draft_id
is_draft draft_id _ = false

unfoldable pub show_draft : String → Pane → Pane
unfolding visit_or_show
show_draft draft_id = visit_or_show (is_draft draft_id) (Shown.draft draft_id)

abbrev pub is_script : String → Shown → Bool
is_script path (Shown.script found) = found.path == path
is_script path _ = false

-- The script of the view that is found is refreshed in place.
unfoldable pub show_script : Script → Pane → Pane
unfolding visit show next_view
show_script now pane = elim (find? (λ (view : View). is_script now.path view.shown) pane.views) [
  | some existing ↦ record pane {
    views = visit existing.id (
        map
          (λ (view : View).
            if view.id == existing.id then record view { shown = Shown.script now } else view)
          pane.views);
  }
  | none ↦ show_new (Shown.script now) pane
]

unfoldable pub show_definition : String → ℕ → ℕ → Pane → Pane
unfolding show next_view
show_definition model line column = show_new (Shown.definition model line column)

abbrev same_mode : FormMode → FormMode → Bool
same_mode FormMode.create FormMode.create = true
same_mode FormMode.edit FormMode.edit = true
same_mode _ _ = false

abbrev same_name : Option String → Option String → Bool
same_name none none = true
same_name (some a) (some b) = a == b
same_name _ _ = false

abbrev pub is_app_form : FormMode → Option String → Shown → Bool
is_app_form mode name (Shown.app_form m n _) = same_mode m mode && same_name n name
is_app_form mode name _ = false

-- `name` is the name of the initial data, where there is any.
unfoldable pub show_app_form : FormMode → Option String → Pane → Pane
unfolding visit_or_show
show_app_form mode name =
    visit_or_show (is_app_form mode name) (Shown.app_form mode name FormEdit.form)

abbrev pub is_variables : Shown → Bool
is_variables (Shown.variables _) = true
is_variables _ = false

unfoldable pub show_variables : Pane → Pane
unfolding visit_or_show
show_variables = visit_or_show is_variables (Shown.variables TableEdit.table)

abbrev pub is_compiler : Shown → Bool
is_compiler Shown.compiler = true
is_compiler _ = false

unfoldable pub show_compiler : Pane → Pane
unfolding visit_or_show
show_compiler = visit_or_show is_compiler Shown.compiler

abbrev set_form_edit : FormEdit → Shown → Shown
set_form_edit mode (Shown.app_form m n _) = Shown.app_form m n mode
set_form_edit mode shown = shown

unfoldable pub set_app_form_edit_mode : String → FormEdit → List View → List View
set_app_form_edit_mode id mode views =
    map
      (λ (view : View).
        if view.id == id then record view { shown = set_form_edit mode view.shown } else view)
      views

abbrev set_table_edit : TableEdit → Shown → Shown
set_table_edit mode (Shown.variables _) = Shown.variables mode
set_table_edit mode shown = shown

unfoldable pub set_variables_edit_mode : String → TableEdit → List View → List View
set_variables_edit_mode id mode views =
    map
      (λ (view : View).
        if view.id == id then record view { shown = set_table_edit mode view.shown } else view)
      views
