-- ===== src/Run/Verdict.antt =====
-- ui/src/runs.ts: the counters of `ItemStats` beside the items that arrived.
use kaja.Prelude.{
  ℕ, String, ◌≡◌, refl, sym, ap, ◌∙◌, Bool, true, false, ◌||◌, List, [], ◌∷◌, ltb, any, map, sum_by,
  arith,
}
use kaja.Prelude.Dict
use kaja.Prelude.Dict.{Dict, sum_by-insert, held-le}
use kaja.Run.{
  ConsoleItem, RunStatus, pending, streaming, success, error, status_eq, item_status,
  item_in_flight,
}
use kaja.Run.Stats.{
  ItemStats, Counted, empty, add, count_of, stats_status, worst_of, worst_status, in_flight,
  item_duration,
}

abbrev bit : Bool → ℕ
bit true = 1
bit false = 0

-- How many items were last counted with a status, or in flight.
tally : RunStatus → Dict Counted → ℕ
tally x of = sum_by (λ c. bit (status_eq x c.status)) (Dict.values of)

flying : Dict Counted → ℕ
flying of = sum_by (λ c. bit c.in_flight) (Dict.values of)

record IsCounted (s : ItemStats) : Type 0 where
  counts : (x : RunStatus) → count_of x s.counts ≡ tally x s.of
  flying : s.in_flight_count ≡ flying s.of

module _ (item : ConsoleItem) (s : ItemStats) where
  abbrev now : Counted
  now = record {
    status = item_status item;
    in_flight = item_in_flight item;
    duration = item_duration item;
  }

  tally-add :
      (x : RunStatus)
      → count_of x s.counts ≡ tally x s.of
      → count_of x (add item s).counts ≡ tally x (add item s).of
  unfolding add tally
  tally-add pending h = ground (
    arith,
    sum_by-insert (λ c. bit (status_eq pending c.status)) item.id now s.of,
    held-le (λ c. bit (status_eq pending c.status)) item.id s.of,
  )
  tally-add x h = ground (
    arith,
    sum_by-insert (λ c. bit (status_eq x c.status)) item.id now s.of,
    held-le (λ c. bit (status_eq x c.status)) item.id s.of,
  )

  flying-add :
      s.in_flight_count ≡ flying s.of → (add item s).in_flight_count ≡ flying (add item s).of
  unfolding add flying
  flying-add h = ground (
    arith,
    sum_by-insert (λ c. bit c.in_flight) item.id now s.of,
    held-le (λ c. bit c.in_flight) item.id s.of,
  )

  of-add : (add item s).of ≡ Dict.insert item.id now s.of
  unfolding add
  of-add = ground arith

  add-IsCounted : IsCounted s → IsCounted (add item s)
  add-IsCounted h = record { counts = λ x. tally-add x (h.counts x); flying = flying-add h.flying }

IsCounted-empty : IsCounted empty
unfolding empty tally flying
IsCounted-empty = record {
  counts = elim [ pending ↦ refl | streaming ↦ refl | success ↦ refl | error ↦ refl ];
  flying = refl;
}

-- A sum of bits is positive exactly if some bit is set.
ltb-sum_by {ℓ} :
    {A : Type ℓ} (p : A → Bool) (xs : List A) → ltb 0 (sum_by (λ x. bit (p x)) xs) ≡ any p xs
ltb-sum_by p [] = refl
ltb-sum_by p (x ∷ xs) = ground (arith, ltb-sum_by p xs)

any-map {ℓ κ} :
    {A : Type ℓ} {B : Type κ} (p : B → Bool) (f : A → B) (xs : List A)
    → any p (map f xs) ≡ any (λ x. p (f x)) xs
any-map p f [] = refl
any-map p f (x ∷ xs) = ground (arith, any-map p f xs)

ltb-count_of :
    (s : ItemStats) (x : RunStatus)
    → IsCounted s
    → ltb 0 (count_of x s.counts)
      ≡ any (status_eq x) (map (λ (c : Counted). c.status) (Dict.values s.of))
unfolding tally
ltb-count_of s x h =
    rw (h.counts x, any-map) (ltb-sum_by (λ c. status_eq x c.status) (Dict.values s.of))

stats_status-eq-worst_of :
    (s : ItemStats)
    → IsCounted s
    → stats_status s ≡ worst_of (map (λ (c : Counted). c.status) (Dict.values s.of))
unfolding stats_status worst_of
stats_status-eq-worst_of s h =
    ground (arith, ltb-count_of s error h, ltb-count_of s pending h, ltb-count_of s streaming h)

-- The console hands over an item each time that something about it moves.
pub arrive : List ConsoleItem → ItemStats → ItemStats
arrive [] s = s
arrive (item ∷ items) s = arrive items (add item s)

-- The items that arrived, in the order of their first arrivals, each as it was at its last.
pub latest : List ConsoleItem → Dict ConsoleItem → Dict ConsoleItem
latest [] kept = kept
latest (item ∷ items) kept = latest items (Dict.insert item.id item kept)

counted : Dict ConsoleItem → Dict Counted
counted [] = []
counted ((k, item) ∷ kept) = (k, now item empty) ∷ counted kept

counted-insert :
    (k : String) (item : ConsoleItem) (kept : Dict ConsoleItem)
    → counted (Dict.insert k item kept) ≡ Dict.insert k (now item empty) (counted kept)
unfolding counted
counted-insert k item [] = refl
counted-insert k item ((j, i) ∷ kept) = ground (arith, counted-insert k item kept)

arrive-latest :
    (items : List ConsoleItem) (s : ItemStats) (kept : Dict ConsoleItem)
    → IsCounted s
    → s.of ≡ counted kept
    → IsCounted (arrive items s) × ((arrive items s).of ≡ counted (latest items kept))
unfolding arrive latest
arrive-latest [] s kept h e = (h, e)
arrive-latest (item ∷ items) s kept h e =
    arrive-latest items (add item s) (Dict.insert item.id item kept) (add-IsCounted item s h) (
      of-add item s
      ∙ ap (Dict.insert item.id (now item s)) e
      ∙ sym (counted-insert item.id item kept))

map-counted :
    (kept : Dict ConsoleItem)
    → map (λ (c : Counted). c.status) (Dict.values (counted kept))
      ≡ map item_status (Dict.values kept)
unfolding counted
map-counted [] = refl
map-counted ((k, item) ∷ kept) = ap (◌∷◌ (item_status item)) (map-counted kept)

-- However often the items of a set arrive, and in whatever order their changes come, the status
-- that the counters give is the worst of the statuses that the items had when each of them last
-- arrived: an error before a pending one, then a streaming one, and pending where nothing came.
pub stats_status-arrive :
    (items : List ConsoleItem)
    → stats_status (arrive items empty) ≡ worst_status (Dict.values (latest items []))
unfolding worst_status
stats_status-arrive items =
    let (h, e) = arrive-latest items empty [] IsCounted-empty (unfold empty counted in refl) in
    stats_status-eq-worst_of (arrive items empty) h
    ∙ ap (λ of. worst_of (map (λ (c : Counted). c.status) (Dict.values of))) e
    ∙ ap worst_of (map-counted (latest items []))

flying-counted :
    (kept : Dict ConsoleItem)
    → any (λ (c : Counted). c.in_flight) (Dict.values (counted kept))
      ≡ any item_in_flight (Dict.values kept)
unfolding counted
flying-counted [] = refl
flying-counted ((k, item) ∷ kept) = ap (◌||◌ (item_in_flight item)) (flying-counted kept)

-- The counters say that something is in flight exactly if some item was when it last arrived.
pub in_flight-arrive :
    (items : List ConsoleItem)
    → in_flight (arrive items empty) ≡ any item_in_flight (Dict.values (latest items []))
in_flight-arrive items =
    let (h, e) = arrive-latest items empty [] IsCounted-empty (unfold empty counted in refl) in
    rw (h.flying, e)
      (unfold flying in
        ltb-sum_by (λ (c : Counted). c.in_flight) (Dict.values (counted (latest items []))))
    ∙ flying-counted (latest items [])
