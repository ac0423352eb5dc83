-- ===== src/Arc/Store.antt =====
-- `put` of `ARCCache` against the abstract view: it stores the value, and loses no other value that it
-- does not return as evicted.
use el_cache.Common.{ℕ, ◌+◌, ◌≡◌, ◌≤◌, refl, sym, ◌∙◌, inl, inr, List, [], none, some, arith, ◌≢◌}
use el_cache.Arc.Lists.{Entry, find, push_front, erase, ghost_erase}
use el_cache.Arc.Counting.{
  count_key, same_self, find_cons, find_absent, find-erase_ne, count-ghost_erase,
}
use el_cache.Arc.Evict.{directory}
use el_cache.Arc.Invariant.{IsValid, in_t1, in_t2, absent, slot, trim_ghosts-directory}
use el_cache.Arc.Put.{put-IsValid, ghost, in_b1, in_b2, new}
use el_cache.Arc.Reads.{lookup, Keeps}
use el_cache.Arc.Loss.{evict_loop-Reports}
use el_cache.Arc.{
  Doubles, Cache, put, update_t1, update_t2, store_t1, store_t2, trim_ghosts, grow_p, shrink_p,
  evict_for_size,
}

module _ {K V : Type 0} (d : Doubles) (dec : Discrete K) where
  first_in_t1 :
      (c : Cache K V d.Double) (key : K) (v : V) (s : ℕ) (l : List (Entry K V))
      → c.t1 ≡ push_front key v s l
      → lookup dec key c ≡ some v
  unfolding lookup
  first_in_t1 c key v s l h =
      ground (arith, find_cons dec key (record { key = key; value = v; size = s }) l)

  first_in_t2 :
      (c : Cache K V d.Double) (key : K) (v : V) (s : ℕ) (l : List (Entry K V))
      → c.t2 ≡ push_front key v s l
      → directory dec key c ≤ 1
      → lookup dec key c ≡ some v
  unfolding lookup
  first_in_t2 c key v s l h once =
      let pushed : count_key dec key c.t2 ≡ count_key dec key l + 1 =
        rw h (unfold count_key in omega (arith, same_self dec key)) in
      ground (
        arith,
        find_absent dec key c.t1 (omega arith),
        find_cons dec key (record { key = key; value = v; size = s }) l,
      )

  evict_for_size-Keeps :
      (q : K) (c : Cache K V d.Double) (needed : ℕ)
      → directory dec q c ≤ 1
      → Keeps dec q c (evict_for_size d c needed []).0 (evict_for_size d c needed []).1
  unfolding evict_for_size
  evict_for_size-Keeps q c needed once = (evict_loop-Reports d dec q _ needed (c, []) once).keeps

  -- A key that is pushed changes no other look-up.
  push_t1-lookup :
      (q key : K) (c c' : Cache K V d.Double) (v : V) (s : ℕ)
      → q ≢ key
      → c'.t1 ≡ push_front key v s c.t1
      → c'.t2 ≡ c.t2
      → lookup dec q c' ≡ lookup dec q c
  unfolding lookup
  push_t1-lookup q key c c' v s ne h1 h2 =
      ground (arith, find_cons dec q (record { key = key; value = v; size = s }) c.t1)

  push_t2-lookup :
      (q key : K) (c c' : Cache K V d.Double) (v : V) (s : ℕ)
      → q ≢ key
      → c'.t2 ≡ push_front key v s c.t2
      → c'.t1 ≡ c.t1
      → lookup dec q c' ≡ lookup dec q c
  unfolding lookup
  push_t2-lookup q key c c' v s ne h1 h2 =
      ground (arith, find_cons dec q (record { key = key; value = v; size = s }) c.t2)

  Keeps-after :
      (q : K) (a b c : Cache K V d.Double) (l : List (K × V))
      → lookup dec q c ≡ lookup dec q b
      → Keeps dec q a b l
      → Keeps dec q a c l
  Keeps-after q a b c l e (inl f) = inl (e ∙ f)
  Keeps-after q a b c l e (inr (v, had, gone, listed)) = inr (v, had, e ∙ gone, listed)

  Keeps-before :
      (q : K) (a b c : Cache K V d.Double) (l : List (K × V))
      → lookup dec q b ≡ lookup dec q a
      → Keeps dec q b c l
      → Keeps dec q a c l
  Keeps-before q a b c l e (inl f) = inl (f ∙ e)
  Keeps-before q a b c l e (inr (v, had, gone, listed)) = inr (v, sym e ∙ had, gone, listed)

  store_t1-Keeps :
      (q key : K) (c : Cache K V d.Double) (v : V) (s : ℕ)
      → q ≢ key
      → directory dec q c ≤ 1
      → Keeps dec q c (store_t1 d c key v s).0 (store_t1 d c key v s).1
  unfolding store_t1
  store_t1-Keeps q key c v s ne once =
      Keeps-after q c (evict_for_size d c s []).0 _ _
        (push_t1-lookup q key (evict_for_size d c s []).0 _ v s ne refl refl)
        (evict_for_size-Keeps q c s once)

  store_t2-Keeps :
      (q key : K) (c : Cache K V d.Double) (v : V) (s : ℕ)
      → q ≢ key
      → directory dec q c ≤ 1
      → Keeps dec q c (store_t2 d c key v s).0 (store_t2 d c key v s).1
  unfolding store_t2
  store_t2-Keeps q key c v s ne once =
      Keeps-after q c (evict_for_size d c s []).0 _ _
        (push_t2-lookup q key (evict_for_size d c s []).0 _ v s ne refl refl)
        (evict_for_size-Keeps q c s once)

  trim_ghosts-lookup :
      (q : K) (c : Cache K V d.Double) → lookup dec q (trim_ghosts d c) ≡ lookup dec q c
  unfolding trim_ghosts lookup
  trim_ghosts-lookup q c = ground arith

  -- The lists of entries alone decide a look-up.
  lookup_fields :
      (q : K) (c c' : Cache K V d.Double)
      → c'.t1 ≡ c.t1
      → c'.t2 ≡ c.t2
      → lookup dec q c' ≡ lookup dec q c
  unfolding lookup
  lookup_fields q c c' h1 h2 = ground arith

  store_t2-lookup_self :
      (c : Cache K V d.Double) (key : K) (v : V) (s : ℕ)
      → directory dec key (store_t2 d c key v s).0 ≤ 1
      → lookup dec key (store_t2 d c key v s).0 ≡ some v
  unfolding store_t2
  store_t2-lookup_self c key v s once =
      first_in_t2 _ key v s (evict_for_size d c s []).0.t2 refl once

  store_t1-lookup_self :
      (c : Cache K V d.Double) (key : K) (v : V) (s : ℕ)
      → lookup dec key (store_t1 d c key v s).0 ≡ some v
  unfolding store_t1
  store_t1-lookup_self c key v s = first_in_t1 _ key v s (evict_for_size d c s []).0.t1 refl

  -- The entries that `put` starts from, its arguments aside: what it does once it has chosen its case.
  pub data PutCase (size_fn : V → ℕ) (c : Cache K V d.Double) (key : K) (v : V) : Type 0 where
    updates_t1 :
        (e : Entry K V)
        → find dec key c.t1 ≡ some e
        → put d dec size_fn c key v ≡ (update_t1 d dec c key v (size_fn v) e, [])
        → PutCase size_fn c key v
    updates_t2 :
        (e : Entry K V)
        → find dec key c.t1 ≡ none
        → find dec key c.t2 ≡ some e
        → put d dec size_fn c key v ≡ (update_t2 d dec c key v (size_fn v) e, [])
        → PutCase size_fn c key v
    stores_t2 :
        (c' : Cache K V d.Double)
        → c'.t1 ≡ c.t1
        → c'.t2 ≡ c.t2
        → c'.capacity ≡ c.capacity
        → c'.current_size ≡ c.current_size
        → ((q : K) → directory dec q c' ≤ directory dec q c)
        → find dec key c.t1 ≡ none
        → find dec key c.t2 ≡ none
        → put d dec size_fn c key v ≡ store_t2 d c' key v (size_fn v)
        → PutCase size_fn c key v
    stores_t1 :
        find dec key c.t1 ≡ none
        → find dec key c.t2 ≡ none
        → put d dec size_fn c key v ≡ store_t1 d (trim_ghosts d c) key v (size_fn v)
        → PutCase size_fn c key v

  pub put_cases :
      (size_fn : V → ℕ) (c : Cache K V d.Double) (key : K) (v : V) → PutCase size_fn c key v
  unfolding put
  put_cases size_fn c key v = elim (slot dec c key) [
    | in_t1 e hit ↦ updates_t1 e hit (rw (hit, put))
    | in_t2 e miss hit ↦ updates_t2 e miss hit (rw (miss, hit, put))
    | absent miss miss' ↦ elim (ghost dec c key) [
      | in_b1 held ↦
          stores_t2 (record c { p = grow_p d c; b1 = ghost_erase dec key c.b1 }) refl refl refl refl
            (λ q. omega (arith, count-ghost_erase dec q key c.b1 held)) miss miss'
            (rw (miss, miss', held, put))
      | in_b2 lacking held ↦
          stores_t2 (record c { p = shrink_p d c; b2 = ghost_erase dec key c.b2 }) refl refl refl
            refl (λ q. omega (arith, count-ghost_erase dec q key c.b2 held)) miss miss'
            (rw (miss, miss', lacking, held, put))
      | new lacking lacking' ↦ stores_t1 miss miss' (rw (miss, miss', lacking, lacking', put))
    ]
  ]

  module _ (size_fn : V → ℕ) where
    put-lookup_self :
        (c : Cache K V d.Double) (key : K) (v : V)
        → directory dec key (put d dec size_fn c key v).0 ≤ 1
        → lookup dec key (put d dec size_fn c key v).0 ≡ some v
    unfolding update_t1 update_t2
    put-lookup_self c key v once = elim (put_cases size_fn c key v) [
      | updates_t1 e hit eq ↦ first_in_t2 _ key v (size_fn v) c.t2 (rw eq) once
      | updates_t2 e miss hit eq ↦ first_in_t2 _ key v (size_fn v) (erase dec key c.t2) (rw eq) once
      | stores_t2 c' h1 h2 same_cap size h3 miss miss' eq ↦
          rw eq (store_t2-lookup_self c' key v (size_fn v) (rw eq at once))
      | stores_t1 miss miss' eq ↦ rw eq (store_t1-lookup_self (trim_ghosts d c) key v (size_fn v))
    ]

    put-Keeps :
        (q key : K) (c : Cache K V d.Double) (v : V)
        → q ≢ key
        → directory dec q c ≤ 1
        → Keeps dec q c (put d dec size_fn c key v).0 (put d dec size_fn c key v).1
    unfolding update_t1 update_t2
    put-Keeps q key c v ne once =
        let pushed = λ (l : List (Entry K V)).
          find_cons dec q (record { key = key; value = v; size = size_fn v }) l in
        elim (put_cases size_fn c key v) [
          | updates_t1 e hit eq ↦
              rw eq (
                inl (unfold lookup in ground (arith, find-erase_ne dec q key c.t1 ne, pushed c.t2)))
          | updates_t2 e miss hit eq ↦ rw eq (
              inl (
                unfold lookup in
                ground (arith, find-erase_ne dec q key c.t2 ne, pushed (erase dec key c.t2))))
          | stores_t2 c' h1 h2 same_cap size h3 miss miss' eq ↦ rw eq (
              Keeps-before q c c' _ _ (lookup_fields q c c' h1 h2)
                (store_t2-Keeps q key c' v (size_fn v) ne (omega (arith, h3 q))))
          | stores_t1 miss miss' eq ↦ rw eq (
              Keeps-before q c (trim_ghosts d c) _ _ (trim_ghosts-lookup q c) (
                store_t1-Keeps q key (trim_ghosts d c) v (size_fn v) ne
                  (omega (arith, trim_ghosts-directory d dec c q))))
        ]

    -- On a valid cache `put` stores the value of its key; any other key keeps its value, or loses it
    -- and is in the returned list with it.
    pub put-lookup :
        (c : Cache K V d.Double) (key : K) (v : V)
        → IsValid d dec c
        → (lookup dec key (put d dec size_fn c key v).0 ≡ some v)
          × ((q : K)
              → q ≢ key
              → Keeps dec q c (put d dec size_fn c key v).0 (put d dec size_fn c key v).1)
    put-lookup c key v h = (
      put-lookup_self c key v ((put-IsValid d dec size_fn c key v h).distinct key),
      λ q ne. put-Keeps q key c v ne (h.distinct q),
    )
