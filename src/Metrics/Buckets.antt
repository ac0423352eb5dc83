-- ===== src/Metrics/Buckets.antt =====
-- The buckets of a snapshot against a count of the observations (src/http/metrics.cpp).
use el_cache.Common.{
  ℕ, suc, ◌%◌, ◌≡◌, refl, sym, ap, subst, ◌∙◌, true, List, [], ◌∷◌, if◌then◌else◌, add64, map,
  u64_mod, All, length, Bool-cases, inl, inr, arith,
}
use el_cache.Metrics.{
  Doubles, LatencyHistogram, new_histogram, count_in, observe, cumulate, snapshot,
}

module _ (t : Doubles) where
  -- The observations in the order in which they are made, the last one first.
  unfoldable pub observe_all : LatencyHistogram t → List t.Double → LatencyHistogram t
  unfolding observe
  observe_all h [] = h
  observe_all h (v ∷ vs) = observe t (observe_all h vs) v

  -- How many of the values are at most a bound.
  abbrev pub at_most : t.Double → List t.Double → ℕ
  at_most b [] = 0
  at_most b (v ∷ vs) = if t.less_equal v b then suc (at_most b vs) else at_most b vs

  -- A value that is at most one bound is at most each later one.
  abbrev pub Ascending : List t.Double → Type 0
  Ascending [] = Unit
  Ascending (b ∷ l) =
      All (λ b'. (v : t.Double) → t.less_equal v b ≡ true → t.less_equal v b' ≡ true) l
      × Ascending l

  -- One more in each bucket whose bound is not below a value.
  raise : t.Double → List (t.Double × ℕ) → List (t.Double × ℕ)
  raise v [] = []
  raise v ((b, n) ∷ l) = (b, if t.less_equal v b then add64 n 1 else n) ∷ raise v l

  bounds_of : List (t.Double × ℕ) → List t.Double
  bounds_of [] = []
  bounds_of ((b, n) ∷ l) = b ∷ bounds_of l

  carry : (c n : ℕ) → add64 (add64 c 1) n ≡ add64 (add64 c n) 1
  unfolding add64
  carry c n = omega arith

  carry_in : (c n : ℕ) → add64 c (add64 n 1) ≡ add64 (add64 c n) 1
  unfolding add64
  carry_in c n = omega arith

  -- A value below all the bounds: one more from the start.
  cumulate-suc :
      (v : t.Double) (c : ℕ) (l : List (t.Double × ℕ))
      → All (λ b. t.less_equal v b ≡ true) (bounds_of l)
      → cumulate t (add64 c 1) l ≡ raise v (cumulate t c l)
  unfolding cumulate raise bounds_of
  cumulate-suc v c [] h = refl
  cumulate-suc v c ((b, n) ∷ l) h =
      rw (h.0, carry c n)
        (ap (λ z. (b, add64 (add64 c n) 1) ∷ z) (cumulate-suc v (add64 c n) l h.1))

  later_bounds :
      (v b : t.Double) (l : List t.Double)
      → All (λ b'. (w : t.Double) → t.less_equal w b ≡ true → t.less_equal w b' ≡ true) l
      → t.less_equal v b ≡ true
      → All (λ b'. t.less_equal v b' ≡ true) l
  later_bounds v b [] h k = tt
  later_bounds v b (b' ∷ l) h k = (h.0 v k, later_bounds v b l h.1 k)

  cumulate-count_in :
      (v : t.Double) (c : ℕ) (l : List (t.Double × ℕ))
      → Ascending (bounds_of l)
      → cumulate t c (count_in t v l) ≡ raise v (cumulate t c l)
  unfolding cumulate raise bounds_of count_in
  cumulate-count_in v c [] h = refl
  cumulate-count_in v c ((b, n) ∷ l) h = elim (Bool-cases (t.less_equal v b)) [
    | inl e ↦
        rw (e, carry_in c n)
          (ap (λ z. (b, add64 (add64 c n) 1) ∷ z)
            (cumulate-suc v (add64 c n) l (later_bounds v b (bounds_of l) h.0 e)))
    | inr e ↦ rw e (ap (λ z. (b, add64 c n) ∷ z) (cumulate-count_in v (add64 c n) l h.1))
  ]

  bounds_of-count_in :
      (v : t.Double) (l : List (t.Double × ℕ)) → bounds_of (count_in t v l) ≡ bounds_of l
  unfolding bounds_of count_in
  bounds_of-count_in v [] = refl
  bounds_of-count_in v ((b, n) ∷ l) = elim (Bool-cases (t.less_equal v b)) [
    | inl e ↦ rw e refl
    | inr e ↦ rw e (ap (λ z. b ∷ z) (bounds_of-count_in v l))
  ]

  bounds_of-map : (bounds : List t.Double) → bounds_of (map (λ b. (b, 0)) bounds) ≡ bounds
  unfolding bounds_of
  bounds_of-map [] = refl
  bounds_of-map (b ∷ bounds) = ap (λ z. b ∷ z) (bounds_of-map bounds)

  bounds_of-observe_all :
      (bounds vs : List t.Double)
      → bounds_of (observe_all (new_histogram t bounds) vs).buckets ≡ bounds
  unfolding observe_all new_histogram
  bounds_of-observe_all bounds [] = bounds_of-map bounds
  bounds_of-observe_all bounds (v ∷ vs) =
      bounds_of-count_in v (observe_all (new_histogram t bounds) vs).buckets
      ∙ bounds_of-observe_all bounds vs

  -- The bounds with the numbers of the values that are at most each, in 64 bits.
  unfoldable pub tally : List t.Double → List t.Double → List (t.Double × ℕ)
  tally [] vs = []
  tally (b ∷ bounds) vs = (b, at_most b vs % u64_mod) ∷ tally bounds vs

  cumulate-fresh :
      (bounds : List t.Double) → cumulate t 0 (map (λ b. (b, 0)) bounds) ≡ tally bounds []
  unfolding cumulate tally
  cumulate-fresh [] = refl
  cumulate-fresh (b ∷ bounds) = ap (λ z. (b, 0) ∷ z) (cumulate-fresh bounds)

  next_in : (x : ℕ) → add64 (x % u64_mod) 1 ≡ suc x % u64_mod
  unfolding add64
  next_in x = omega arith

  raise-tally :
      (v : t.Double) (bounds vs : List t.Double) → raise v (tally bounds vs) ≡ tally bounds (v ∷ vs)
  unfolding raise tally
  raise-tally v [] vs = refl
  raise-tally v (b ∷ bounds) vs = elim (Bool-cases (t.less_equal v b)) [
    | inl e ↦
        rw (e, next_in (at_most b vs))
          (ap (λ z. (b, suc (at_most b vs) % u64_mod) ∷ z) (raise-tally v bounds vs))
    | inr e ↦ rw e (ap (λ z. (b, at_most b vs % u64_mod) ∷ z) (raise-tally v bounds vs))
  ]

  buckets-tally :
      (bounds vs : List t.Double)
      → Ascending bounds
      → cumulate t 0 (observe_all (new_histogram t bounds) vs).buckets ≡ tally bounds vs
  unfolding observe_all new_histogram
  buckets-tally bounds [] h = cumulate-fresh bounds
  buckets-tally bounds (v ∷ vs) h =
      cumulate-count_in v 0 (observe_all (new_histogram t bounds) vs).buckets
        (subst Ascending (sym (bounds_of-observe_all bounds vs)) h)
      ∙ ap (raise v) (buckets-tally bounds vs h)
      ∙ raise-tally v bounds vs

  count-length :
      (bounds vs : List t.Double)
      → (observe_all (new_histogram t bounds) vs).count ≡ length vs % u64_mod
  unfolding observe_all new_histogram
  count-length bounds [] = refl
  count-length bounds (v ∷ vs) = ap (λ n. add64 n 1) (count-length bounds vs) ∙ next_in (length vs)

  -- With ascending bounds, after any observations: the snapshot of a new histogram has in the bucket of
  -- each bound the number of all the values that are at most the bound, and as its count the number of
  -- the values, both in 64 bits.
  pub snapshot-observe_all :
      (bounds vs : List t.Double)
      → Ascending bounds
      → ((snapshot t (observe_all (new_histogram t bounds) vs)).buckets ≡ tally bounds vs)
        × ((snapshot t (observe_all (new_histogram t bounds) vs)).count ≡ length vs % u64_mod)
  unfolding snapshot
  snapshot-observe_all bounds vs h = (buckets-tally bounds vs h, count-length bounds vs)
