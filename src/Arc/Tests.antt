-- ===== src/Arc/Tests.antt =====
-- Concrete runs of `ARCCache`, and its theorems at concrete inputs. `double` is in thousandths.
use el_cache.Common.{
  ℕ, ◌+◌, ◌-◌, ◌*◌, ◌/◌, ◌≡◌, ◌≤◌, refl, List, [], ◌∷◌, true, false, some, arith, ltb, ℕ_discrete,
  add64, sub64, mul64, ◌≢◌, max,
}
use el_cache.Arc.Lists.{pop_back, total_size, find, erase, ghost_contains, ghost_erase}
use el_cache.Arc.Counting.{sum_sizes}
use el_cache.Arc.Evict.{resident_size}
use el_cache.Arc.Invariant.{IsValid, init-IsValid}
use el_cache.Arc.Put.{put-IsValid}
use el_cache.Arc.Reads.{lookup, get-lookup, Keeps}
use el_cache.Arc.Store.{put-lookup}
use el_cache.Arc.Space.{put_fits}
use el_cache.Arc.Adaptation.{DoubleLaws, InRange, put-InRange}
use el_cache.Arc.{
  Doubles, Cache, init, contains, get, put, remove, evict_one, evict_t1, evict_t2, evict_loop,
  evict_for_size, store_t1, store_t2, trim_ghosts, update_t1, update_t2,
}

abbrev thousandths : Doubles
thousandths = record {
  Double = ℕ;
  zero_point = 0;
  one = 1000;
  add = λ a b. a + b;
  sub = λ a b. a - b;
  ratio = λ a b. a * 1000 / b;
  of_size = λ n. n * 1000;
  to_size = λ a. a / 1000;
  less = ltb;
}

thousandths-DoubleLaws : DoubleLaws thousandths
thousandths-DoubleLaws = record {
  irreflexive = λ a. ground arith;
  size_nonneg = λ n. ground arith;
  one_nonneg = refl;
  ratio_nonneg = λ a b. ground arith;
  add_nonneg = λ a b h k. ground arith;
  sub_bounded = λ a b c h k. ground arith;
}

-- What the tests compute with.
program : Unit {0}
unfolding pop_back total_size find erase ghost_contains ghost_erase init contains get put remove
    evict_one evict_t1 evict_t2 evict_loop evict_for_size store_t1 store_t2 trim_ghosts update_t1
    update_t2 add64 sub64 mul64 ℕ_discrete
program = tt

-- A value is its own size.
abbrev size_fn : ℕ → ℕ
size_fn v = v

abbrev fill : Cache ℕ ℕ ℕ → List (ℕ × ℕ) → Cache ℕ ℕ ℕ
fill c [] = c
fill c ((k, v) ∷ l) = fill (put thousandths ℕ_discrete size_fn c k v).0 l

abbrev full : Cache ℕ ℕ ℕ
full = fill (init thousandths 10) ((1, 4) ∷ (2, 5) ∷ [])

evicts_oldest : (put thousandths ℕ_discrete size_fn full 3 4).1 ≡ (1, 4) ∷ []
unfolding program
evicts_oldest = refl

remembers_evicted : (put thousandths ℕ_discrete size_fn full 3 4).0.b1 ≡ 1 ∷ []
unfolding program
remembers_evicted = refl

-- The eviction of a value, and a second use of another.
abbrev used : Cache ℕ ℕ ℕ
used = (get thousandths ℕ_discrete (put thousandths ℕ_discrete size_fn full 3 4).0 2).0

used_lists : (used.b1 ≡ 1 ∷ []) × (used.current_size ≡ 9) × (used.hits ≡ 1)
unfolding program
used_lists = (refl, refl, refl)

-- A key that was evicted not long ago comes back; with `b2` empty the ratio that is added is 0.
readapts : (put thousandths ℕ_discrete size_fn used 1 4).0.p ≡ 0
unfolding program
readapts = refl

full-IsValid : IsValid thousandths ℕ_discrete full
full-IsValid =
    put-IsValid thousandths ℕ_discrete size_fn _ 2 5
      (put-IsValid thousandths ℕ_discrete size_fn _ 1 4 (init-IsValid thousandths ℕ_discrete 10))

put-IsValid_example : IsValid thousandths ℕ_discrete (put thousandths ℕ_discrete size_fn full 3 4).0
put-IsValid_example = put-IsValid thousandths ℕ_discrete size_fn full 3 4 full-IsValid

get-lookup_example :
    ((get thousandths ℕ_discrete full 2).1 ≡ lookup ℕ_discrete 2 full)
    × ((q : ℕ)
        → lookup ℕ_discrete q (get thousandths ℕ_discrete full 2).0 ≡ lookup ℕ_discrete q full)
get-lookup_example = get-lookup thousandths ℕ_discrete full 2 full-IsValid

put-lookup_example :
    (lookup ℕ_discrete 3 (put thousandths ℕ_discrete size_fn full 3 4).0 ≡ some 4)
    × ((q : ℕ)
        → q ≢ 3
        → Keeps ℕ_discrete q full
            (put thousandths ℕ_discrete size_fn full 3 4).0
            (put thousandths ℕ_discrete size_fn full 3 4).1)
put-lookup_example = put-lookup thousandths ℕ_discrete size_fn full 3 4 full-IsValid

full_holds :
    (contains thousandths ℕ_discrete full 3 ≡ false)
    × (contains thousandths ℕ_discrete full 2 ≡ true)
unfolding program
full_holds = (refl, refl)

full-resident_size : resident_size full ≡ 9
unfolding program sum_sizes
full-resident_size = refl

put_fits_example : resident_size (put thousandths ℕ_discrete size_fn full 3 4).0 ≤ max 10 4
unfolding program
put_fits_example =
    put_fits thousandths ℕ_discrete size_fn full 3 4 full_holds.0 full-IsValid.accounted
      (omega (arith, full-resident_size))

full-InRange : InRange thousandths full
unfolding program
full-InRange = record { not_below = refl; not_above = refl }

put-InRange_example : InRange thousandths (put thousandths ℕ_discrete size_fn full 3 4).0
put-InRange_example =
    put-InRange thousandths thousandths-DoubleLaws ℕ_discrete size_fn full 3 4 full-InRange
