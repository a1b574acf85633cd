-- ===== src/FileConsole/Bounds.antt =====
-- ui/src/consoles.ts: the bounds of a file's console, and the steps that could break them: a payload
-- that is held and a run too many.
use kaja.Prelude.{
  ℕ, ◌-◌, ◌≤◌, ◌≡◌, refl, ◌∙◌, Option, none, some, [], ◌∷◌, ◌++◌, length, leb, arith, Bool-cases,
  Option-cases, inl, inr, get_elem?,
}
use kaja.FileConsole.{FileConsole}
use kaja.FileConsole.Record.{hold, release_at, slot_at, advance}
use kaja.FileConsole.Runs.{trim_runs}
use kaja.FileConsole.Queue.{IsQueue, hold_lem}
use kaja.FileConsole.Numbers.{length-trim_runs}
use kaja.FileConsole.Keeps.{AreSound, Keeps}

-- What holds of a console while its runs are being put together.
pub record IsLoose (c : FileConsole) : Type 0 where
  pub queue : IsQueue c
  pub groups : AreSound c.group_heap

-- At most 25 runs, a queue of at most 500 payloads, and groups whose logs have at most 20,000 items
-- and whose marks do not pass their counters.
pub record IsBounded (c : FileConsole) : Type 0 where
  pub runs : length c.runs ≤ 25
  pub queue : IsQueue c
  pub groups : AreSound c.group_heap

pub Keeps-IsQueue : (c d : FileConsole) → Keeps c d → IsQueue c → IsQueue d
Keeps-IsQueue c d k q = record {
  head = rw (k.held, k.holding) q.head;
  bounded = rw (k.held, k.holding) q.bounded;
  cut = rw k.held q.cut;
}

pub Keeps-IsBounded : (c d : FileConsole) → Keeps c d → IsBounded c → IsBounded d
Keeps-IsBounded c d k h = record {
  runs = rw k.runs h.runs;
  queue = Keeps-IsQueue c d k h.queue;
  groups = k.groups h.groups;
}

release_at-rest :
    (slot : Option ℕ) (c : FileConsole)
    → ((release_at slot c).runs ≡ c.runs) × ((release_at slot c).group_heap ≡ c.group_heap)
release_at-rest none c = (refl, refl)
release_at-rest (some ref) c = elim (Option-cases (get_elem? c.item_heap ref)) [
  | inl gone ↦ rw (gone, release_at) (refl, refl)
  | inr (item, here) ↦ rw (here, release_at) (refl, refl)
]

advance-rest :
    (c : FileConsole) → ((advance c).runs ≡ c.runs) × ((advance c).group_heap ≡ c.group_heap)
advance-rest c = (ground arith, ground arith)

hold-rest :
    (ref : ℕ) (c : FileConsole)
    → ((hold ref c).runs ≡ c.runs) × ((hold ref c).group_heap ≡ c.group_heap)
unfolding hold
hold-rest ref c =
    let pushed : FileConsole = record c { holding = c.holding ++ some ref ∷ [] } in
    elim (Bool-cases (leb (length pushed.holding - pushed.held) 500)) [
      | inl few ↦ rw few (refl, refl)
      | inr many ↦
          (let moved = release_at-rest (slot_at pushed.holding pushed.held) (advance pushed) in
            let other = advance-rest pushed in rw many (moved.0 ∙ other.0, moved.1 ∙ other.1))
    ]

pub hold-IsBounded : (ref : ℕ) (c : FileConsole) → IsBounded c → IsBounded (hold ref c)
hold-IsBounded ref c h = record {
  runs = rw ((hold-rest ref c).0) h.runs;
  queue = (hold_lem ref c h.queue).0;
  groups = rw ((hold-rest ref c).1) h.groups;
}

trim_runs-rest :
    (c : FileConsole)
    → ((trim_runs c).holding ≡ c.holding)
      × ((trim_runs c).held ≡ c.held)
      × ((trim_runs c).group_heap ≡ c.group_heap)
unfolding trim_runs
trim_runs-rest c = elim (Bool-cases (leb (length c.runs) 25)) [
  | inl few ↦ rw few (refl, refl, refl)
  | inr many ↦ rw many (refl, refl, refl)
]

pub trim_runs-IsBounded : (c : FileConsole) → IsLoose c → IsBounded (trim_runs c)
trim_runs-IsBounded c h =
    let (holding, held, groups) = trim_runs-rest c in
    record {
      runs = length-trim_runs c;
      queue = record {
        head = rw (held, holding) h.queue.head;
        bounded = rw (held, holding) h.queue.bounded;
        cut = rw held h.queue.cut;
      };
      groups = rw groups h.groups;
    }
