-- ===== src/Arc/Counting.antt =====
-- How often a key stands in a list, and the sum of the entries' sizes: what each list operation of
-- `ARCCache` does to them, and to look-ups.
use el_cache.Common.{
  ℕ, suc, ◌≤◌, ◌+◌, ◌≡◌, ◌≢◌, inl, inr, refl, List, [], ◌∷◌, none, some, true, false, ite, arith,
  sym, subst, add64, ◌%◌, u64_mod, length, Option-cases,
}
use el_cache.Arc.Lists.{
  Entry, pop_back, total_loop, total_size, find, erase, ghost_contains, ghost_erase,
}

-- The sum of the sizes, without wrap-around.
unfoldable pub sum_sizes : {K V : Type 0} → List (Entry K V) → ℕ
sum_sizes [] = 0
sum_sizes (e ∷ l) = e.size + sum_sizes l

pub pop_back-none : {A : Type 0} (l : List A) → pop_back l ≡ none → l ≡ []
unfolding pop_back
pop_back-none [] h = refl
pop_back-none (x ∷ l) h = ground (arith, pop_back-none l)

module _ {K V : Type 0} where
  total_loop-sum_sizes :
      (n : ℕ) (l : List (Entry K V)) → total_loop (n % u64_mod) l ≡ (n + sum_sizes l) % u64_mod
  unfolding total_loop sum_sizes
  total_loop-sum_sizes n [] = omega arith
  total_loop-sum_sizes n (e ∷ l) =
      let wrap : add64 (n % u64_mod) e.size ≡ (n + e.size) % u64_mod =
        unfold add64 in omega arith in
      rw wrap (omega (arith, total_loop-sum_sizes (n + e.size) l))

  pub total_size-sum_sizes : (l : List (Entry K V)) → total_size l ≡ sum_sizes l % u64_mod
  unfolding total_size
  total_size-sum_sizes l = omega (arith, total_loop-sum_sizes 0 l)

  pub sum_sizes-pop_back :
      (l rest : List (Entry K V)) (e : Entry K V)
      → pop_back l ≡ some (e, rest)
      → (sum_sizes l ≡ sum_sizes rest + e.size) × (length l ≡ suc (length rest))
  unfolding pop_back sum_sizes
  sum_sizes-pop_back [] rest e h = cc
  sum_sizes-pop_back (x ∷ l) rest e h = elim (Option-cases (pop_back l)) [
    | inl last ↦ ground (arith, last, pop_back-none l last)
    | inr ((e', rest'), found) ↦ ground (arith, found, sum_sizes-pop_back l rest' e' found)
  ]

module _ {K : Type 0} (dec : Discrete K) where
  -- 1 if the keys are equal.
  abbrev pub same : K → K → ℕ
  same a b = ite (dec a b) 1 0

  pub same_self : (a : K) → same a a ≡ 1
  same_self a = ground arith

  unfoldable pub count : K → List K → ℕ
  count q [] = 0
  count q (k ∷ l) = same k q + count q l

  pub count-ghost_erase :
      (q key : K) (l : List K)
      → ghost_contains dec key l ≡ true
      → count q l ≡ count q (ghost_erase dec key l) + same key q
  unfolding count ghost_contains ghost_erase
  count-ghost_erase q key [] h = cc
  count-ghost_erase q key (k ∷ l) h = ground (arith, count-ghost_erase q key l)

  pub count-ghost_contains :
      (key : K) (l : List K) → ghost_contains dec key l ≡ false → count key l ≡ 0
  unfolding count ghost_contains
  count-ghost_contains key [] h = refl
  count-ghost_contains key (k ∷ l) h = ground (arith, count-ghost_contains key l)

  pub ghost_erase_absent :
      (key : K) (l : List K) → ghost_contains dec key l ≡ false → ghost_erase dec key l ≡ l
  unfolding ghost_contains ghost_erase
  ghost_erase_absent key [] h = refl
  ghost_erase_absent key (k ∷ l) h = ground (arith, ghost_erase_absent key l)

  pub count-pop_back :
      (q : K) (l rest : List K) (e : K)
      → pop_back l ≡ some (e, rest)
      → count q l ≡ count q rest + same e q
  unfolding pop_back count
  count-pop_back q [] rest e h = cc
  count-pop_back q (x ∷ l) rest e h = elim (Option-cases (pop_back l)) [
    | inl last ↦ ground (arith, last, pop_back-none l last)
    | inr ((e', rest'), found) ↦ ground (arith, found, count-pop_back q l rest' e' found)
  ]

-- The same of a list of entries, by their keys.
module _ {K V : Type 0} (dec : Discrete K) where
  unfoldable pub count_key : K → List (Entry K V) → ℕ
  count_key q [] = 0
  count_key q (e ∷ l) = same dec e.key q + count_key q l

  -- What a successful look-up and the erasure of its entry do.
  pub find-erase :
      (key : K) (l : List (Entry K V)) (e : Entry K V)
      → find dec key l ≡ some e
      → (e.key ≡ key)
        × (sum_sizes l ≡ sum_sizes (erase dec key l) + e.size)
        × (length l ≡ suc (length (erase dec key l)))
  unfolding find erase sum_sizes
  find-erase key [] e h = cc
  find-erase key (x ∷ l) e h = ground (arith, find-erase key l e)

  -- A look-up by the key of what a look-up found finds it again.
  pub find_own :
      (key : K) (l : List (Entry K V)) (e : Entry K V)
      → find dec key l ≡ some e
      → find dec e.key l ≡ some e
  find_own key l e h = subst (λ k. find dec k l ≡ some e) (sym (find-erase key l e h).0) h

  pub count_key-erase :
      (q key : K) (l : List (Entry K V)) (e : Entry K V)
      → find dec key l ≡ some e
      → count_key q l ≡ count_key q (erase dec key l) + same dec key q
  unfolding find erase count_key
  count_key-erase q key [] e h = cc
  count_key-erase q key (x ∷ l) e h = ground (arith, count_key-erase q key l e)

  pub count_key-find-none :
      (key : K) (l : List (Entry K V)) → find dec key l ≡ none → count_key key l ≡ 0
  unfolding find count_key
  count_key-find-none key [] h = refl
  count_key-find-none key (x ∷ l) h = ground (arith, count_key-find-none key l)

  pub find_absent : (key : K) (l : List (Entry K V)) → count_key key l ≡ 0 → find dec key l ≡ none
  unfolding find count_key
  find_absent key [] h = refl
  find_absent key (x ∷ l) h = ground (arith, find_absent key l)

  pub count_key-pop_back :
      (q : K) (l rest : List (Entry K V)) (e : Entry K V)
      → pop_back l ≡ some (e, rest)
      → count_key q l ≡ count_key q rest + same dec e.key q
  unfolding pop_back count_key
  count_key-pop_back q [] rest e h = cc
  count_key-pop_back q (x ∷ l) rest e h = elim (Option-cases (pop_back l)) [
    | inl last ↦ ground (arith, last, pop_back-none l last)
    | inr ((e', rest'), found) ↦ ground (arith, found, count_key-pop_back q l rest' e' found)
  ]

  -- Where its key stands once, an erased key is gone.
  pub find-erase_self :
      (key : K) (l : List (Entry K V)) (e : Entry K V)
      → find dec key l ≡ some e
      → count_key key l ≤ 1
      → find dec key (erase dec key l) ≡ none
  find-erase_self key l e h once =
      find_absent key (erase dec key l)
        (omega (arith, count_key-erase key key l e h, same_self dec key))

  pub find_cons :
      (q : K) (e : Entry K V) (l : List (Entry K V))
      → find dec q (e ∷ l) ≡ ite (dec e.key q) (some e) (find dec q l)
  unfolding find
  find_cons q e l = refl

  -- A look-up of another key does not see an erasure.
  pub find-erase_ne :
      (q key : K) (l : List (Entry K V)) → q ≢ key → find dec q (erase dec key l) ≡ find dec q l
  unfolding find erase
  find-erase_ne q key [] h = refl
  find-erase_ne q key (x ∷ l) h = ground (arith, find-erase_ne q key l)

  -- Nor that of the last entry.
  pub find-pop_back_ne :
      (q : K) (l rest : List (Entry K V)) (e : Entry K V)
      → pop_back l ≡ some (e, rest)
      → q ≢ e.key
      → find dec q rest ≡ find dec q l
  unfolding pop_back find
  find-pop_back_ne q [] rest e h ne = cc
  find-pop_back_ne q (x ∷ l) rest e h ne = elim (Option-cases (pop_back l)) [
    | inl last ↦ ground (arith, last, pop_back-none l last)
    | inr ((e', rest'), found) ↦ ground (arith, found, find-pop_back_ne q l rest' e' found)
  ]

  -- Where its key stands once, the last entry is the one that a look-up finds.
  pub find-pop_back :
      (l rest : List (Entry K V)) (e : Entry K V)
      → pop_back l ≡ some (e, rest)
      → count_key e.key rest ≡ 0
      → find dec e.key l ≡ some e
  unfolding pop_back find count_key
  find-pop_back [] rest e h ne = cc
  find-pop_back (x ∷ l) rest e h ne = elim (Option-cases (pop_back l)) [
    | inl last ↦ ground (arith, last, pop_back-none l last)
    | inr ((e', rest'), found) ↦ ground (arith, found, find-pop_back l rest' e' found)
  ]
