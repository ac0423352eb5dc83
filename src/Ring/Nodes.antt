-- ===== src/Ring/Nodes.antt =====
-- `get_nodes`: it ends, and what it returns.
use el_cache.Common.{
  ℕ, zero, suc, ◌+◌, ◌-◌, ◌≡◌, ◌⊎◌, inl, inr, refl, ◌∙◌, sym, subst, ◌≤◌, ◌<◌, some, List, [], ◌∷◌,
  ltb, ◌==◌, length, arith, Bool-cases, Listed, Nodup, length-Nodup, All, ℕ_discrete, min, max,
}
use el_cache.Ring.{HashRing, at_begin, walk, lower_bound, wanted, get_nodes}
use el_cache.Ring.Walk.{owners, Walked, IsAnswer, answered, passed, walk-Segment}
use el_cache.Ring.Points.{owner_at, IsOwned, IsRing}

length-lower_bound : (hash : ℕ) (l : List (ℕ × ℕ)) → length (lower_bound hash l) ≤ length l
unfolding lower_bound
length-lower_bound hash [] = omega arith
length-lower_bound hash ((p, n) ∷ l) = ground (arith, length-lower_bound hash l)

Listed-lower_bound :
    (hash x : ℕ) (l : List (ℕ × ℕ)) → Listed x (owners (lower_bound hash l)) → Listed x (owners l)
unfolding lower_bound
Listed-lower_bound hash x [] = λ h. h
Listed-lower_bound hash x ((p, n) ∷ l) = elim (Bool-cases (ltb p hash)) [
  | inl lt ↦ rw (lt, lower_bound) (λ h. inr (Listed-lower_bound hash x l h))
  | inr ge ↦ rw (ge, lower_bound) (λ h. h)
]

owner_at-owners : (q n : ℕ) (l : List (ℕ × ℕ)) → owner_at q l ≡ some n → Listed n (owners l)
unfolding owner_at
owner_at-owners q n [] h = absurd (ground arith)
owner_at-owners q n ((p, m) ∷ l) h = elim (Bool-cases (p == q)) [
  | inl e ↦ inl (ground (arith, h, e))
  | inr o ↦ inr (owner_at-owners q n l (ground (arith, h, o)))
]

owned-owners :
    (point : ℕ → ℕ → ℕ) (V : ℕ) (nodes : List ℕ) (l : List (ℕ × ℕ))
    → All (IsOwned point V nodes) l
    → (x : ℕ) → Listed x (owners l)
    → Listed x nodes
owned-owners point V nodes [] h x k = absurd k
owned-owners point V nodes ((p, n) ∷ l) h x (inl e) = subst (λ y. Listed y nodes) (sym e) h.0.0
owned-owners point V nodes ((p, n) ∷ l) h x (inr k) = owned-owners point V nodes l h.1 x k

-- At the end of the ring the walk goes on at its beginning.
walk_wraps :
    (m total count : ℕ) (e : ℕ × ℕ) (l : List (ℕ × ℕ)) (seen result : List ℕ)
    → 0 < m
    → walk m total count (e ∷ l) [] seen result ≡ walk m total count (e ∷ l) (e ∷ l) seen result
unfolding walk at_begin
walk_wraps zero total count e l seen result h = absurd (omega arith)
walk_wraps (suc m) total count e l seen result h = refl

module _ (nodes : List ℕ) (count : ℕ) (e : ℕ × ℕ) (l : List (ℕ × ℕ)) (distinct : Nodup nodes)
    (own : (x : ℕ) → Listed x (owners (e ∷ l)) → Listed x nodes)
    (all : (x : ℕ) → Listed x nodes → Listed x (owners (e ∷ l))) (le : count ≤ length nodes) where
  -- A walk over the whole ring finds its answer.
  second_round :
      (m : ℕ) (seen result : List ℕ)
      → Walked nodes count seen result
      → length seen < length nodes
      → (r : List ℕ) × (walk (length (e ∷ l) + m) (length nodes) count (e ∷ l) (e ∷ l) seen result
          ≡ some r)
        × IsAnswer nodes count r
  second_round m seen result w room =
      elim (walk-Segment nodes count m (e ∷ l) (e ∷ l) seen result own le w room) [
        | answered r runs a ↦ (r, runs, a)
        | passed seen' result' runs w' left grows takes ↦
            absurd (
              omega
                (arith, length-Nodup ℕ_discrete nodes seen' distinct (λ x h. takes x (all x h))))
      ]

  full_round :
      (m : ℕ) (seen result : List ℕ)
      → length (e ∷ l) ≤ m
      → Walked nodes count seen result
      → length seen < length nodes
      → (r : List ℕ) × (walk m (length nodes) count (e ∷ l) (e ∷ l) seen result ≡ some r)
        × IsAnswer nodes count r
  full_round m seen result enough w room =
      let eq : length (e ∷ l) + (m - length (e ∷ l)) ≡ m = omega arith in
      subst
        (λ x.
          (r : List ℕ) × (walk x (length nodes) count (e ∷ l) (e ∷ l) seen result ≡ some r)
          × IsAnswer nodes count r)
        eq (second_round (m - length (e ∷ l)) seen result w room)

  walk-IsAnswer :
      (it : List (ℕ × ℕ)) (fuel : ℕ)
      → ((x : ℕ) → Listed x (owners it) → Listed x nodes)
      → length it + length (e ∷ l) ≤ fuel
      → 0 < length nodes
      → (r : List ℕ) × (walk fuel (length nodes) count (e ∷ l) it [] [] ≡ some r)
        × IsAnswer nodes count r
  walk-IsAnswer it fuel part enough some_node =
      let m : ℕ = fuel - length it in
      let eq : fuel ≡ length it + m = omega arith in
      let start : Walked nodes count [] [] = record {
        distinct = tt;
        same_length = refl;
        shown = λ x h. h;
        taken = λ x h. h;
        known = λ x h. absurd h;
        bounded = omega arith;
      } in
      rw eq (elim (walk-Segment nodes count m (e ∷ l) it [] [] part le start some_node) [
        | answered r runs a ↦ (r, runs, a)
        | passed seen' result' runs w' left grows takes ↦
            let (r, runs', a) = full_round m seen' result' (omega arith) w' left in
            (r, runs ∙ walk_wraps m (length nodes) count e l seen' result' (omega arith) ∙ runs', a)
      ])

-- The number of nodes that are due: `count` or, for a count of 0, one, and no more than there are.
abbrev pub due : HashRing → ℕ → ℕ
due r count = min (max 1 count) (length r.nodes)

wanted-due : (r : HashRing) (count : ℕ) → 0 < length r.nodes → wanted r count ≡ due r count
wanted-due r count h = ground arith

Listed-length : (x : ℕ) (l : List ℕ) → Listed x l → 0 < length l
Listed-length x [] h = absurd h
Listed-length x (n ∷ l) h = omega arith

empty_length : (l : List ℕ) → ((n : ℕ) → ¬ (Listed n l)) → length l ≡ 0
empty_length [] h = refl
empty_length (n ∷ l) h = absurd (h n (inl refl))

empty_due : (r : HashRing) (count : ℕ) → ((n : ℕ) → ¬ (Listed n r.nodes)) → 0 ≡ due r count
empty_due r count h = omega (arith, empty_length r.nodes h)

get_nodes_empty : (r : HashRing) (hash count : ℕ) → r.ring ≡ [] → get_nodes r hash count ≡ some []
unfolding get_nodes
get_nodes_empty r hash count e = rw (e, get_nodes) refl

get_nodes_walks :
    (r : HashRing) (hash count : ℕ) (e : ℕ × ℕ) (l : List (ℕ × ℕ)) (res : List ℕ)
    → r.ring ≡ e ∷ l
    → walk
        (length (e ∷ l) + length (e ∷ l))
        (length r.nodes)
        (wanted r count)
        (e ∷ l)
        (lower_bound hash (e ∷ l))
        []
        []
      ≡ some res
    → get_nodes r hash count ≡ some res
unfolding get_nodes
get_nodes_walks r hash count e l res eq h = rw (eq, get_nodes, eq) h

List-cases :
    (l : List (ℕ × ℕ)) → (l ≡ []) ⊎ ((e : ℕ × ℕ) × ((rest : List (ℕ × ℕ)) × (l ≡ e ∷ rest)))
List-cases [] = inl refl
List-cases (e ∷ l) = inr (e, (l, refl))

-- On a well-formed ring `get_nodes` ends, and returns as many nodes as are due, all of them nodes of the
-- ring and all different.
pub get_nodes-IsAnswer :
    (point : ℕ → ℕ → ℕ) (r : HashRing) (hash count : ℕ)
    → IsRing point r
    → (res : List ℕ) × (get_nodes r hash count ≡ some res) × IsAnswer r.nodes (due r count) res
get_nodes-IsAnswer point r hash count h = elim (List-cases r.ring) [
  | inl e ↦ (
    [],
    get_nodes_empty r hash count e,
    record {
      distinct = tt;
      known = λ x k. absurd k;
      exact = empty_due r count (λ n k.
          subst (λ l. Listed n (owners l)) e
            (owner_at-owners (point n 0) n r.ring (h.present n k)));
    },
  )
  | inr (e, (l, eq)) ↦
      let own : (x : ℕ) → Listed x (owners (e ∷ l)) → Listed x r.nodes = λ x.
        subst (λ ring. Listed x (owners ring) → Listed x r.nodes) eq
          (owned-owners point r.virtual_nodes r.nodes r.ring h.owned x) in
      let all : (x : ℕ) → Listed x r.nodes → Listed x (owners (e ∷ l)) = λ x k.
        subst (λ ring. Listed x (owners ring)) eq
          (owner_at-owners (point x 0) x r.ring (h.present x k)) in
      let some_node : 0 < length r.nodes = Listed-length e.1 r.nodes (own e.1 (inl refl)) in
      let (res, runs, a) =
        walk-IsAnswer r.nodes (wanted r count) e l h.distinct own all
          (omega (arith, wanted-due r count some_node)) (lower_bound hash (e ∷ l))
          (length (e ∷ l) + length (e ∷ l)) (λ x k. own x (Listed-lower_bound hash x (e ∷ l) k))
          (omega (arith, length-lower_bound hash (e ∷ l))) some_node in
      (
        res,
        get_nodes_walks r hash count e l res eq runs,
        subst (λ c. IsAnswer r.nodes c res) (wanted-due r count some_node) a,
      )
]
