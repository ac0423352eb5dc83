-- ===== src/Metrics/Tests.antt =====
-- Examples for the metrics, with numbers for doubles.
use el_cache.Common.{ℕ, ◌+◌, ◌/◌, ◌≡◌, false, List, [], ◌∷◌, leb, arith, length, ◌%◌, u64_mod}
use el_cache.Text.{decimal}
use el_cache.Metrics.{Doubles, new_histogram, snapshot}
use el_cache.Metrics.Buckets.{observe_all, tally, Ascending, snapshot-observe_all}

abbrev counts : Doubles
counts = record {
  Double = ℕ;
  zero_point = 0;
  less_equal = leb;
  add = λ a b. a + b;
  divide = λ a n. a / n;
  of_size = λ n. n;
  to_size = λ a. a;
  is_inf = λ a. false;
  fixed = λ digits a. decimal a;
}

abbrev bounds : List ℕ
bounds = 5 ∷ 10 ∷ []

last-Ascending : Ascending counts (10 ∷ [])
last-Ascending = (tt, tt)

bounds-Ascending : Ascending counts bounds
bounds-Ascending = ((λ v h. ground arith, tt), last-Ascending)

abbrev values : List ℕ
values = 7 ∷ 1 ∷ 12 ∷ []

snapshot-observe_all_example :
    ((snapshot counts (observe_all counts (new_histogram counts bounds) values)).buckets
      ≡ tally counts bounds values)
    × ((snapshot counts (observe_all counts (new_histogram counts bounds) values)).count
        ≡ length values % u64_mod)
snapshot-observe_all_example = snapshot-observe_all counts bounds values bounds-Ascending
