-- ===== src/Tests/Memory.antt =====
-- The theorems on remembered values, at an example field.
use kaja.Prelude.{◌≡◌, refl, true, some, [], ◌∷◌, arith, all, get_elem?}
use kaja.TypeMemory.{ScalarValue, ValueOrigin, ValueSource, remember, remembered, recall_values}
use kaja.TypeMemory.Bounds.{Seen, is_small, remember_all, small-remember_all}
use kaja.TypeMemory.Recall.{each_once, recall_values-remember}

abbrev listing : ValueSource
listing = record { method = "Movies.ListMovies"; origin = ValueOrigin.response }

abbrev seen : Seen
seen = record {
  type_name = "movies.v1.Movie";
  field_name = "title";
  value = ScalarValue.str "Alien";
  scalar_type = some 9;
  source = listing;
  now = 1000;
}

small-remember_all_example : all is_small (remember_all (seen ∷ seen ∷ []) []) ≡ true
small-remember_all_example = small-remember_all (seen ∷ seen ∷ []) [] refl

recall_values-remember_example :
    (each_once (
        recall_values "movies.v1.Movie" "title"
          (some 9)
          (remember "movies.v1.Movie" "title" (ScalarValue.str "Alien") (some 9) listing 1000 []))
      ≡ true)
    × (get_elem?
          (recall_values "movies.v1.Movie" "title"
            (some 9)
            (remember "movies.v1.Movie" "title" (ScalarValue.str "Alien") (some 9) listing 1000 []))
          0
        ≡ some (remembered "movies.v1.Movie" "title" (ScalarValue.str "Alien") listing 1000))
recall_values-remember_example =
    recall_values-remember "movies.v1.Movie" "title" (ScalarValue.str "Alien") (some 9) (some 9)
      listing 1000 [] (omega arith)
