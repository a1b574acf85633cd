-- ===== src/Live/Single.antt =====
-- ui/src/kaja.ts: the pulls of a table that are not over, and which of them `pulling` names.
pub mod Flights
pub mod Cells
pub mod Flows
use kaja.Prelude.{
  ℕ, ◌≡◌, Bool, true, false, not, ◌&&◌, Option, none, some, List, nat_eq, ltb, all, filter, length,
  is_some, if◌then◌else◌,
}
use kaja.Live.{LiveTable, Pull}

abbrev pub is_named : Option ℕ → Pull → Bool
is_named none pull = false
is_named (some id) pull = nat_eq id pull.id

-- What the pulls read and write of a table.
pub record Flight : Type 0 where
  pub pulls : List Pull
  pub pulling : Option ℕ
  pub next_pull : ℕ
  pub generation : ℕ
  pub loading : Bool

abbrev pub flight : LiveTable → Flight
flight t = record {
  pulls = t.pulls;
  pulling = t.pulling;
  next_pull = t.next_pull;
  generation = t.generation;
  loading = t.block.loading;
}

-- A pull is of an earlier generation, or it is the one that is named.
abbrev pub is_ranked : ℕ → Option ℕ → ℕ → Pull → Bool
is_ranked generation pulling next pull =
    ltb pull.id next
    && (if nat_eq pull.generation generation
        then is_named pulling pull
        else ltb pull.generation generation && not (is_named pulling pull))

-- The pulls of a generation.
abbrev pub of_generation : ℕ → List Pull → List Pull
of_generation generation pulls = filter (λ (pull : Pull). nat_eq pull.generation generation) pulls

pub record IsSingle (s : Flight) : Type 0 where
  pub ranked : all (is_ranked s.generation s.pulling s.next_pull) s.pulls ≡ true
  pub single : length (of_generation s.generation s.pulls) ≡ (if s.loading then 1 else 0)
  pub named : is_some s.pulling ≡ s.loading
