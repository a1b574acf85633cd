-- ===== src/Live/Single/Flights.antt =====
-- ui/src/kaja.ts: how pulls begin and end, as to the one that is named.
use kaja.Prelude.{
  ℕ, suc, ◌≡◌, refl, Bool, true, false, ◌&&◌, Option, none, some, List, [], ◌∷◌, ◌++◌, arith, ltb,
  all, find?, length,
}
use kaja.Live.{Pull}
use kaja.Live.Pulls.{remove_pull, clear_pulling}
use kaja.Live.Single.{Flight, IsSingle, is_ranked, is_named, of_generation}

-- A pull of an earlier generation.
abbrev pub is_older : ℕ → ℕ → Pull → Bool
is_older generation next pull = ltb pull.id next && ltb pull.generation generation

abbrev pub begun : ℕ → Flight → Flight
begun want s = record {
  pulls = s.pulls ++ (record { id = s.next_pull; want = want; generation = s.generation }) ∷ [];
  pulling = some s.next_pull;
  next_pull = suc s.next_pull;
  generation = s.generation;
  loading = true;
}

abbrev pub ended : ℕ → Flight → Flight
ended id s = record s { pulls = remove_pull id s.pulls; pulling = clear_pulling id s.pulling }

abbrev pub finished : ℕ → Flight → Flight
finished id s = record (ended id s) { loading = false }

pub older_of_idle :
    (generation next : ℕ) (pulling : Option ℕ) (pulls : List Pull)
    → all (is_ranked generation pulling next) pulls ≡ true
    → length (of_generation generation pulls) ≡ 0
    → all (is_older generation next) pulls ≡ true
older_of_idle generation next pulling [] h e = refl
older_of_idle generation next pulling (pull ∷ pulls) h e =
    ground (arith, older_of_idle generation next pulling pulls)

pub older_of_restart :
    (generation next : ℕ) (pulling : Option ℕ) (pulls : List Pull)
    → all (is_ranked generation pulling next) pulls ≡ true
    → all (is_older (suc generation) next) pulls ≡ true
older_of_restart generation next pulling [] h = refl
older_of_restart generation next pulling (pull ∷ pulls) h =
    ground (arith, older_of_restart generation next pulling pulls)

ranked-begun :
    (generation next want : ℕ) (pulls : List Pull)
    → all (is_older generation next) pulls ≡ true
    → all
        (is_ranked generation (some next) (suc next))
        (pulls ++ (record { id = next; want = want; generation = generation }) ∷ [])
      ≡ true
ranked-begun generation next want [] h = ground arith
ranked-begun generation next want (pull ∷ pulls) h =
    ground (arith, ranked-begun generation next want pulls)

single-begun :
    (generation next want : ℕ) (pulls : List Pull)
    → all (is_older generation next) pulls ≡ true
    → length (
        of_generation generation
          (pulls ++ (record { id = next; want = want; generation = generation }) ∷ []))
      ≡ 1
single-begun generation next want [] h = ground arith
single-begun generation next want (pull ∷ pulls) h =
    ground (arith, single-begun generation next want pulls)

pub begun-IsSingle :
    (want : ℕ) (s : Flight)
    → all (is_older s.generation s.next_pull) s.pulls ≡ true
    → IsSingle (begun want s)
begun-IsSingle want s h = record {
  ranked = ranked-begun s.generation s.next_pull want s.pulls h;
  single = single-begun s.generation s.next_pull want s.pulls h;
  named = refl;
}

ranked-finished :
    (generation next id : ℕ) (pulls : List Pull)
    → all (is_ranked generation (some id) next) pulls ≡ true
    → all (is_ranked generation none next) (remove_pull id pulls) ≡ true
ranked-finished generation next id [] h = refl
ranked-finished generation next id (pull ∷ pulls) h =
    ground (arith, ranked-finished generation next id pulls)

single-finished :
    (generation next id : ℕ) (pulls : List Pull)
    → all (is_ranked generation (some id) next) pulls ≡ true
    → length (of_generation generation (remove_pull id pulls)) ≡ 0
single-finished generation next id [] h = refl
single-finished generation next id (pull ∷ pulls) h =
    ground (arith, single-finished generation next id pulls)

pub finished-IsSingle :
    (id : ℕ) (s : Flight) → s.pulling ≡ some id → IsSingle s → IsSingle (finished id s)
finished-IsSingle id s e h =
    let ranked : all (is_ranked s.generation (some id) s.next_pull) s.pulls ≡ true =
      ground (arith, e, h.ranked) in
    record {
      ranked = ground (arith, e, ranked-finished s.generation s.next_pull id s.pulls ranked);
      single = single-finished s.generation s.next_pull id s.pulls ranked;
      named = ground (arith, e);
    }

ranked-ended :
    (generation next id : ℕ) (pulling : Option ℕ) (pulls : List Pull)
    → all (is_ranked generation pulling next) pulls ≡ true
    → all (is_ranked generation pulling next) (remove_pull id pulls) ≡ true
ranked-ended generation next id pulling [] h = refl
ranked-ended generation next id pulling (pull ∷ pulls) h =
    ground (arith, ranked-ended generation next id pulling pulls)

single-ended :
    (generation next id : ℕ) (pulling : Option ℕ) (pulls : List Pull)
    → all (is_ranked generation pulling next) pulls ≡ true
    → is_named pulling (record { id = id; want = 0; generation = 0 }) ≡ false
    → length (of_generation generation (remove_pull id pulls))
      ≡ length (of_generation generation pulls)
single-ended generation next id pulling [] h e = refl
single-ended generation next id pulling (pull ∷ pulls) h e =
    ground (arith, single-ended generation next id pulling pulls)

-- The end of a pull that is not the one named.
pub ended-IsSingle :
    (id : ℕ) (s : Flight)
    → is_named s.pulling (record { id = id; want = 0; generation = 0 }) ≡ false
    → IsSingle s
    → IsSingle (ended id s)
ended-IsSingle id s e h =
    let unmoved : clear_pulling id s.pulling ≡ s.pulling = ground (arith, e) in
    record {
      ranked =
          ground
            (arith, unmoved, ranked-ended s.generation s.next_pull id s.pulling s.pulls h.ranked);
      single =
          ground (
            arith,
            h.single,
            single-ended s.generation s.next_pull id s.pulling s.pulls h.ranked e,
          );
      named = ground (arith, unmoved, h.named);
    }

pub ranked-find? :
    (p : Pull → Bool) (generation next : ℕ) (pulling : Option ℕ) (pulls : List Pull) (pull : Pull)
    → all (is_ranked generation pulling next) pulls ≡ true
    → find? p pulls ≡ some pull
    → is_ranked generation pulling next pull ≡ true
ranked-find? p generation next pulling [] pull h e = cc
ranked-find? p generation next pulling (first ∷ pulls) pull h e =
    ground (arith, ranked-find? p generation next pulling pulls pull)
