-- ===== src/Arc/Loss.antt =====
-- What `put` of `ARCCache` does to the values of the keys: it stores the new one, and every value that
-- it drops is in the list that it returns.
use el_cache.Common.{
  Listed, Listed-append_left, Listed-append_right, ℕ, zero, suc, ◌≡◌, ◌≤◌, refl, ap, sym, subst,
  ◌∙◌, inl, inr, List, [], ◌∷◌, ◌++◌, none, some, arith, Bool-cases, Option-cases, ◌≢◌,
}
use el_cache.Arc.Lists.{Entry, pop_back}
use el_cache.Arc.Counting.{
  count_key, same_self, find_absent, count_key-pop_back, find-pop_back_ne, find-pop_back,
}
use el_cache.Arc.Evict.{directory, evict_one-Evicts}
use el_cache.Arc.Reads.{lookup, Keeps}
use el_cache.Arc.{Doubles, Cache, evict_t1, evict_t2, evict_one, evict_loop, must_evict}

module _ {K V : Type 0} (d : Doubles) (dec : Discrete K) where
  -- The list of evicted entries only grows, and a key keeps its value or is in it.
  pub record Reports (q : K) (c : Cache K V d.Double) (evicted : List (K × V))
      (s : Cache K V d.Double × List (K × V)) : Type 0 where
    pub grows : (x : K × V) → Listed x evicted → Listed x s.1
    pub keeps : Keeps dec q c s.0 s.1

  Reports-refl :
      (q : K) (c : Cache K V d.Double) (evicted : List (K × V)) → Reports q c evicted (c, evicted)
  Reports-refl q c evicted = record { grows = λ x h. h; keeps = inl refl }

  Keeps-trans :
      (q : K) (a b c : Cache K V d.Double) (l m : List (K × V))
      → ((x : K × V) → Listed x l → Listed x m)
      → Keeps dec q a b l
      → Keeps dec q b c m
      → Keeps dec q a c m
  Keeps-trans q a b c l m grows (inl e) (inl f) = inl (f ∙ e)
  Keeps-trans q a b c l m grows (inl e) (inr (v, had, gone, listed)) =
      inr (v, sym e ∙ had, gone, listed)
  Keeps-trans q a b c l m grows (inr (v, had, gone, listed)) (inl f) =
      inr (v, had, f ∙ gone, grows (q, v) listed)
  Keeps-trans q a b c l m grows (inr (v, had, gone, listed)) (inr (w, had', gone', listed')) = cc

  Reports-trans :
      (q : K) (a b : Cache K V d.Double) (l m : List (K × V))
      (s : Cache K V d.Double × List (K × V))
      → Reports q a l (b, m)
      → Reports q b m s
      → Reports q a l s
  Reports-trans q a b l m s f g = record {
    grows = λ x h. g.grows x (f.grows x h);
    keeps = Keeps-trans q a b s.0 m s.1 g.grows f.keeps g.keeps;
  }

  -- The entry that an eviction takes had its value, and its key is left with none.
  popped_t1 :
      (c c' : Cache K V d.Double) (rest : List (Entry K V)) (e : Entry K V)
      → pop_back c.t1 ≡ some (e, rest)
      → directory dec e.key c ≤ 1
      → c'.t1 ≡ rest
      → c'.t2 ≡ c.t2
      → (lookup dec e.key c ≡ some e.value) × (lookup dec e.key c' ≡ none)
  unfolding lookup
  popped_t1 c c' rest e found once h1 h2 =
      let counted = count_key-pop_back dec e.key c.t1 rest e found in
      let self = same_self dec e.key in
      let alone : count_key dec e.key rest ≡ 0 = omega arith in
      (
        ground (arith, find-pop_back dec c.t1 rest e found alone),
        ground (arith, find_absent dec e.key rest alone, find_absent dec e.key c.t2 (omega arith)),
      )

  popped_t2 :
      (c c' : Cache K V d.Double) (rest : List (Entry K V)) (e : Entry K V)
      → pop_back c.t2 ≡ some (e, rest)
      → directory dec e.key c ≤ 1
      → c'.t2 ≡ rest
      → c'.t1 ≡ c.t1
      → (lookup dec e.key c ≡ some e.value) × (lookup dec e.key c' ≡ none)
  unfolding lookup
  popped_t2 c c' rest e found once h1 h2 =
      let counted = count_key-pop_back dec e.key c.t2 rest e found in
      let self = same_self dec e.key in
      let alone : count_key dec e.key rest ≡ 0 = omega arith in
      let missed = find_absent dec e.key c.t1 (omega arith) in
      (
        ground (arith, missed, find-pop_back dec c.t2 rest e found alone),
        ground (arith, missed, find_absent dec e.key rest alone),
      )

  -- The evicted entry is put at the end of the list; other keys keep their values.
  popped-Keeps :
      (q : K) (c c' : Cache K V d.Double) (evicted : List (K × V)) (e : Entry K V)
      → (q ≡ e.key → (lookup dec e.key c ≡ some e.value) × (lookup dec e.key c' ≡ none))
      → (q ≢ e.key → lookup dec q c' ≡ lookup dec q c)
      → Keeps dec q c c' (evicted ++ ((e.key, e.value) ∷ []))
  popped-Keeps q c c' evicted e own other = elim (dec q e.key) [
    | yes p ↦
        let (had, gone) = own p in
        inr (
          e.value,
          ap (λ k. lookup dec k c) p ∙ had,
          ap (λ k. lookup dec k c') p ∙ gone,
          Listed-append_right (q, e.value) evicted _ (inl (ap (λ k. (k, e.value)) p)),
        )
    | no ne ↦ inl (other ne)
  ]

  evict_t1-Reports :
      (q : K) (c : Cache K V d.Double) (evicted : List (K × V))
      → directory dec q c ≤ 1
      → Reports q c evicted (evict_t1 d c evicted)
  unfolding evict_t1
  evict_t1-Reports q c evicted once = elim (Option-cases (pop_back c.t1)) [
    | inl last ↦ rw (last, evict_t1) (Reports-refl q c evicted)
    | inr ((e, rest), found) ↦
        rw (found, evict_t1)
          (record {
            grows = λ x h. Listed-append_left x evicted _ h;
            keeps =
                popped-Keeps q c _ evicted e
                  (λ p.
                    popped_t1 c _ rest e found (subst (λ k. directory dec k c ≤ 1) p once) refl
                      refl)
                  (λ ne.
                    unfold lookup in ground (arith, find-pop_back_ne dec q c.t1 rest e found ne));
          })
  ]

  evict_t2-Reports :
      (q : K) (c : Cache K V d.Double) (evicted : List (K × V))
      → directory dec q c ≤ 1
      → Reports q c evicted (evict_t2 d c evicted)
  unfolding evict_t2
  evict_t2-Reports q c evicted once = elim (Option-cases (pop_back c.t2)) [
    | inl last ↦ rw (last, evict_t2) (Reports-refl q c evicted)
    | inr ((e, rest), found) ↦
        rw (found, evict_t2)
          (record {
            grows = λ x h. Listed-append_left x evicted _ h;
            keeps =
                popped-Keeps q c _ evicted e
                  (λ p.
                    popped_t2 c _ rest e found (subst (λ k. directory dec k c ≤ 1) p once) refl
                      refl)
                  (λ ne.
                    unfold lookup in ground (arith, find-pop_back_ne dec q c.t2 rest e found ne));
          })
  ]

  evict_one-Reports :
      (q : K) (c : Cache K V d.Double) (evicted : List (K × V))
      → directory dec q c ≤ 1
      → Reports q c evicted (evict_one d c evicted)
  unfolding evict_one
  evict_one-Reports q c evicted once = ground (
    arith,
    evict_t1-Reports q c evicted once,
    evict_t2-Reports q c evicted once,
    Reports-refl q c evicted,
  )

  pub evict_loop-Reports :
      (q : K) (fuel needed : ℕ) (s : Cache K V d.Double × List (K × V))
      → directory dec q s.0 ≤ 1
      → Reports q s.0 s.1 (evict_loop d fuel needed s)
  unfolding evict_loop
  evict_loop-Reports q zero needed s once = Reports-refl q s.0 s.1
  evict_loop-Reports q (suc fuel) needed s once = elim (Bool-cases (must_evict d s.0 needed)) [
    | inl more ↦
        let next = evict_one d s.0 s.1 in
        let same = (evict_one-Evicts d dec s.0 s.1).same_directory q in
        rw more (
          Reports-trans q s.0 next.0 s.1 next.1 _ (evict_one-Reports q s.0 s.1 once)
            (evict_loop-Reports q fuel needed next (omega arith)))
    | inr done ↦ rw done (Reports-refl q s.0 s.1)
  ]
