-- ===== src/Consoles/Files.antt =====
-- ui/src/consoles.ts: the files that have a console, and what the user chose about each.
use kaja.Prelude.{
  ℕ, String, Bool, true, false, ◌&&◌, Option, none, some, [], ◌∷◌, if◌then◌else◌, ◌==◌,
}
use kaja.Prelude.Dict
use kaja.Prelude.Dict.{Dict}
use kaja.Run.{ConsoleTab, ConsoleView, LogFloor, RunSelection}
use kaja.FileConsole
use kaja.FileConsole.{FileConsole, FoundBlock}
use kaja.FileConsole.Runs
use kaja.FileConsole.Runs.{Stored}
use kaja.Consoles.{Consoles, ensure, store, write, evict, touch, flags_changed, is_mru}
use kaja.Consoles.Writes.{for_file}

-- A file whose store was read is not read again.
unfoldable pub adopt_stored_runs : String → Option Stored → ℕ → Consoles → Consoles
unfolding ensure evict touch
adopt_stored_runs file_id stored now s =
    let (c, s') = ensure file_id now s in
    if c.loaded
    then store file_id c s'
    else touch file_id true (evict (store file_id (Runs.adopt stored c) s'))

abbrev text_opt_eq : Option String → Option String → Bool
text_opt_eq none none = true
text_opt_eq (some a) (some b) = a == b
text_opt_eq _ _ = false

-- `a?.runId === b?.runId && a?.itemId === b?.itemId`
abbrev pub same_selection : Option RunSelection → Option RunSelection → Bool
same_selection none none = true
same_selection (some a) (some b) = a.run_id == b.run_id && text_opt_eq a.item_id b.item_id
same_selection _ _ = false

abbrev pub same_tab : ConsoleTab → ConsoleTab → Bool
same_tab ConsoleTab.request ConsoleTab.request = true
same_tab ConsoleTab.response ConsoleTab.response = true
same_tab ConsoleTab.headers ConsoleTab.headers = true
same_tab _ _ = false

abbrev pub same_view : Option ConsoleView → ConsoleView → Bool
same_view (some ConsoleView.calls) ConsoleView.calls = true
same_view (some ConsoleView.canvas) ConsoleView.canvas = true
same_view _ _ = false

abbrev pub same_floor : LogFloor → LogFloor → Bool
same_floor LogFloor.off LogFloor.off = true
same_floor LogFloor.error LogFloor.error = true
same_floor LogFloor.warn LogFloor.warn = true
same_floor LogFloor.all LogFloor.all = true
same_floor _ _ = false

-- A choice that is already made tells nobody.
unfoldable pub choose :
    (FileConsole → Bool) → (FileConsole → FileConsole) → ℕ → String → Consoles → Consoles
unfolding ensure touch
choose same change now file_id s =
    let (c, s') = ensure file_id now s in
    if same c then store file_id c s' else touch file_id true (store file_id (change c) s')

unfoldable pub set_selection : Option String → Option RunSelection → ℕ → Consoles → Consoles
unfolding choose
set_selection file_id selection now = for_file file_id (
    choose (λ c. same_selection c.selection selection) (λ c. record c { selection = selection })
      now)

unfoldable pub set_tab : Option String → ConsoleTab → ℕ → Consoles → Consoles
unfolding choose
set_tab file_id tab now =
    for_file file_id (choose (λ c. same_tab c.tab tab) (λ c. record c { tab = tab }) now)

unfoldable pub set_view : Option String → ConsoleView → ℕ → Consoles → Consoles
unfolding choose
set_view file_id view now =
    for_file file_id (choose (λ c. same_view c.view view) (λ c. record c { view = some view }) now)

unfoldable pub set_log_floor : Option String → LogFloor → ℕ → Consoles → Consoles
unfolding choose
set_log_floor file_id floor now =
    for_file file_id
      (choose (λ c. same_floor c.log_floor floor) (λ c. record c { log_floor = floor }) now)

unfoldable pub clear_file : String → ℕ → Consoles → Consoles
unfolding write touch flags_changed
clear_file file_id now s = flags_changed (touch file_id true (write file_id now (Runs.clear now) s))

-- `if (this.#mru === oldId) this.#mru = null`
abbrev pub forget_mru : String → Option String → Option String
forget_mru old_id mru = if is_mru mru old_id then none else mru

unfoldable pub rename_file : String → String → Consoles → Consoles
unfolding touch flags_changed
rename_file old_id new_id s = elim (Dict.lookup old_id s.files) [
  | none ↦ s
  | some c ↦ flags_changed (
      touch new_id true (
        touch old_id true (record s {
          files = Dict.insert new_id (Runs.rename new_id c) (Dict.remove old_id s.files);
          mru = forget_mru old_id s.mru;
        })))
]

-- `takeFile`: the console that is taken, and what is left.
unfoldable pub take_file : String → Consoles → Option FileConsole × Consoles
unfolding touch flags_changed
take_file file_id s = elim (Dict.lookup file_id s.files) [
  | none ↦ (none, s)
  | some c ↦ (
    some c,
    flags_changed (
        touch file_id true
          (record s { files = Dict.remove file_id s.files; mru = forget_mru file_id s.mru })),
  )
]

unfoldable pub put_file : String → FileConsole → Consoles → Consoles
unfolding evict touch flags_changed
put_file file_id c s = flags_changed (
    touch file_id true (
      evict (record s {
        files = Dict.insert file_id c (Dict.remove file_id s.files);
        mru = some file_id;
      })))

unfoldable pub drop_file : String → Consoles → Consoles
unfolding take_file
drop_file file_id s = (take_file file_id s).1

pub record FoundIn : Type 0 where
  pub file_id : String
  pub found : FoundBlock

-- The first file, in the order of the map, that holds the block.
unfoldable pub find_in : String → Dict FileConsole → Option FoundIn
find_in block_id [] = none
find_in block_id ((id, c) ∷ files) = elim (FileConsole.find_block c block_id) [
  | some found ↦ some (record { file_id = id; found = found })
  | none ↦ find_in block_id files
]

unfoldable pub find_block : String → Consoles → Option FoundIn
unfolding find_in
find_block block_id s = find_in block_id s.files
