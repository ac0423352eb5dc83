-- ===== src/Arc/Evict.antt =====
-- `evict_one` and `evict_for_size` of `ARCCache`: what they keep, and when the loop ends.
use el_cache.Common.{
  ℕ, zero, suc, ◌+◌, ◌%◌, ◌≡◌, ◌≤◌, ◌<◌, refl, ◌∙◌, inl, inr, List, [], ◌∷◌, true, false, arith,
  length, sub64, u64_mod, Bool-cases, Option-cases,
}
use el_cache.Arc.Lists.{empty, pop_back}
use el_cache.Arc.Counting.{
  sum_sizes, count, count_key, sum_sizes-pop_back, count_key-pop_back, pop_back-none,
}
use el_cache.Arc.{Doubles, Cache, evict_t1, evict_t2, evict_one, must_evict, evict_loop}

module _ {K V P : Type 0} where
  -- The bytes of the entries.
  abbrev pub resident_size : Cache K V P → ℕ
  resident_size c = sum_sizes c.t1 + sum_sizes c.t2

  -- `current_size` is the size of the entries, as a `size_t`.
  abbrev pub IsAccounted : Cache K V P → Type 0
  IsAccounted c = c.current_size ≡ resident_size c % u64_mod

  abbrev pub entry_count : Cache K V P → ℕ
  entry_count c = length c.t1 + length c.t2

length_zero-empty : {A : Type 0} (l : List A) → length l ≡ 0 → empty l ≡ true
length_zero-empty [] h = refl
length_zero-empty (x ∷ l) h = absurd (omega arith)

-- How often a key stands in the four lists together.
abbrev pub directory : {K V P : Type 0} → Discrete K → K → Cache K V P → ℕ
directory dec q c =
    count_key dec q c.t1 + count_key dec q c.t2 + (count dec q c.b1 + count dec q c.b2)

module _ {K V : Type 0} (d : Doubles) where
  -- What a step of eviction does not change.
  pub record Evicts (dec : Discrete K) (c c' : Cache K V d.Double) : Type 0 where
    pub capacity : c'.capacity ≡ c.capacity
    pub p : c'.p ≡ c.p
    pub hits : c'.hits ≡ c.hits
    pub misses : c'.misses ≡ c.misses
    pub same_directory : (q : K) → directory dec q c' ≡ directory dec q c
    pub accounted : IsAccounted c → IsAccounted c'
    pub smaller : entry_count c' ≤ entry_count c
    pub less : resident_size c' ≤ resident_size c

  module _ (dec : Discrete K) where
    Evicts-refl : (c : Cache K V d.Double) → Evicts dec c c
    Evicts-refl c = record {
      capacity = refl;
      p = refl;
      hits = refl;
      misses = refl;
      same_directory = λ q. refl;
      accounted = λ h. h;
      smaller = omega arith;
      less = omega arith;
    }

    Evicts-trans : {a b c : Cache K V d.Double} → Evicts dec a b → Evicts dec b c → Evicts dec a c
    Evicts-trans f g = record {
      capacity = g.capacity ∙ f.capacity;
      p = g.p ∙ f.p;
      hits = g.hits ∙ f.hits;
      misses = g.misses ∙ f.misses;
      same_directory = λ q. g.same_directory q ∙ f.same_directory q;
      accounted = λ h. g.accounted (f.accounted h);
      smaller = omega (arith, f.smaller, g.smaller);
      less = omega (arith, f.less, g.less);
    }

    evict_t1-Evicts :
        (c : Cache K V d.Double) (evicted : List (K × V)) → Evicts dec c (evict_t1 d c evicted).0
    unfolding evict_t1 count sub64
    evict_t1-Evicts c evicted = elim (Option-cases (pop_back c.t1)) [
      | inl last ↦ rw (last, evict_t1) (Evicts-refl c)
      | inr ((e, rest), found) ↦
          let (sizes, lengths) = sum_sizes-pop_back c.t1 rest e found in
          rw (found, evict_t1)
            (record {
              capacity = refl;
              p = refl;
              hits = refl;
              misses = refl;
              same_directory = λ q. omega (arith, count_key-pop_back dec q c.t1 rest e found);
              accounted = λ h. omega arith;
              smaller = omega arith;
              less = omega arith;
            })
    ]

    evict_t2-Evicts :
        (c : Cache K V d.Double) (evicted : List (K × V)) → Evicts dec c (evict_t2 d c evicted).0
    unfolding evict_t2 count sub64
    evict_t2-Evicts c evicted = elim (Option-cases (pop_back c.t2)) [
      | inl last ↦ rw (last, evict_t2) (Evicts-refl c)
      | inr ((e, rest), found) ↦
          let (sizes, lengths) = sum_sizes-pop_back c.t2 rest e found in
          rw (found, evict_t2)
            (record {
              capacity = refl;
              p = refl;
              hits = refl;
              misses = refl;
              same_directory = λ q. omega (arith, count_key-pop_back dec q c.t2 rest e found);
              accounted = λ h. omega arith;
              smaller = omega arith;
              less = omega arith;
            })
    ]

    pub evict_one-Evicts :
        (c : Cache K V d.Double) (evicted : List (K × V)) → Evicts dec c (evict_one d c evicted).0
    unfolding evict_one
    evict_one-Evicts c evicted =
        ground (arith, evict_t1-Evicts c evicted, evict_t2-Evicts c evicted, Evicts-refl c)

    pub evict_loop-Evicts :
        (fuel needed : ℕ) (s : Cache K V d.Double × List (K × V))
        → Evicts dec s.0 (evict_loop d fuel needed s).0
    unfolding evict_loop
    evict_loop-Evicts zero needed s = Evicts-refl s.0
    evict_loop-Evicts (suc fuel) needed s = elim (Bool-cases (must_evict d s.0 needed)) [
      | inl more ↦ rw more (
          Evicts-trans (evict_one-Evicts s.0 s.1)
            (evict_loop-Evicts fuel needed (evict_one d s.0 s.1)))
      | inr done ↦ rw done (Evicts-refl s.0)
    ]

  evict_t1_shrinks :
      (c : Cache K V d.Double) (evicted : List (K × V))
      → empty c.t1 ≡ false
      → entry_count (evict_t1 d c evicted).0 < entry_count c
  unfolding evict_t1
  evict_t1_shrinks c evicted h = elim (Option-cases (pop_back c.t1)) [
    | inl last ↦ ground (arith, pop_back-none c.t1 last)
    | inr ((e, rest), found) ↦
        rw (found, evict_t1) (omega (arith, sum_sizes-pop_back c.t1 rest e found))
  ]

  evict_t2_shrinks :
      (c : Cache K V d.Double) (evicted : List (K × V))
      → empty c.t2 ≡ false
      → entry_count (evict_t2 d c evicted).0 < entry_count c
  unfolding evict_t2
  evict_t2_shrinks c evicted h = elim (Option-cases (pop_back c.t2)) [
    | inl last ↦ ground (arith, pop_back-none c.t2 last)
    | inr ((e, rest), found) ↦
        rw (found, evict_t2) (omega (arith, sum_sizes-pop_back c.t2 rest e found))
  ]

  -- A step that the loop makes takes an entry away.
  evict_one_shrinks :
      (c : Cache K V d.Double) (evicted : List (K × V)) (needed : ℕ)
      → must_evict d c needed ≡ true
      → entry_count (evict_one d c evicted).0 < entry_count c
  unfolding evict_one
  evict_one_shrinks c evicted needed h =
      ground (arith, evict_t1_shrinks c evicted, evict_t2_shrinks c evicted)

  -- With fuel for each entry the loop ends by its condition.
  pub evict_loop_ends :
      (fuel needed : ℕ) (s : Cache K V d.Double × List (K × V))
      → entry_count s.0 ≤ fuel
      → must_evict d (evict_loop d fuel needed s).0 needed ≡ false
  unfolding evict_loop
  evict_loop_ends zero needed s h =
      ground (arith, length_zero-empty s.0.t1 (omega arith), length_zero-empty s.0.t2 (omega arith))
  evict_loop_ends (suc fuel) needed s h = elim (Bool-cases (must_evict d s.0 needed)) [
    | inl more ↦ rw more (
        evict_loop_ends fuel needed (evict_one d s.0 s.1)
          (omega (arith, evict_one_shrinks s.0 s.1 needed more)))
    | inr done ↦ rw done done
  ]
