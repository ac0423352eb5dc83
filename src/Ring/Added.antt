-- ===== src/Ring/Added.antt =====
-- What `HashRing::add_node` (src/network/cluster.cpp) does to the points and the nodes.
use el_cache.Common.{
  ℕ, zero, suc, ◌+◌, ◌≡◌, ◌≢◌, refl, ◌≤◌, ◌<◌, Bool, true, false, some, List, [], ◌∷◌, ltb, ◌==◌,
  arith, Bool-cases, inl, inr, All,
}
use el_cache.Ring.{HashRing, has_node, set_point, set_points, add_node}
use el_cache.Ring.Points.{
  owner_at, All-imp, All-set_point, owner_at-set_points, set_points_first, IsRing, IsApart,
  add_node-IsRing,
}

abbrev pub IsBehind : ℕ → ℕ × ℕ → Type 0
IsBehind p e = p < e.0

-- The points rise, as the keys of `std::map` do.
abbrev pub IsOrdered : List (ℕ × ℕ) → Type 0
IsOrdered [] = Unit {0}
IsOrdered (e ∷ l) = All (IsBehind e.0) l × IsOrdered l

set_point-IsOrdered : (p id : ℕ) (l : List (ℕ × ℕ)) → IsOrdered l → IsOrdered (set_point p id l)
unfolding set_point
set_point-IsOrdered p id [] h = (tt, tt)
set_point-IsOrdered p id ((p', n) ∷ l) h = elim (Bool-cases (ltb p p')) [
  | inl lt ↦
      let below : p < p' = ground (arith, lt) in
      rw (lt, set_point)
        ((below, All-imp (IsBehind p') (IsBehind p) l (λ e k. omega (arith, k, below)) h.0), h)
  | inr ge ↦ elim (Bool-cases (p == p')) [
    | inl e ↦
        let same : p ≡ p' = ground (arith, e) in
        rw (ge, set_point, e)
          (All-imp (IsBehind p') (IsBehind p) l (λ x k. omega (arith, k, same)) h.0, h.1)
    | inr ne ↦
        rw (ge, set_point, ne)
          (
            All-set_point (IsBehind p') p id l h.0 (ground (arith, ge, ne)),
            set_point-IsOrdered p id l h.1,
          )
  ]
]

module _ (point : ℕ → ℕ → ℕ) (id : ℕ) where
  set_points-IsOrdered :
      (rounds i : ℕ) (l : List (ℕ × ℕ)) → IsOrdered l → IsOrdered (set_points point rounds i id l)
  unfolding set_points
  set_points-IsOrdered zero i l h = h
  set_points-IsOrdered (suc rounds) i l h =
      set_points-IsOrdered rounds (suc i) (set_point (point id i) id l)
        (set_point-IsOrdered (point id i) id l h)

  -- Every virtual node of the loop is on the ring afterwards.
  set_points_placed :
      (rounds i j : ℕ) (l : List (ℕ × ℕ))
      → i ≤ j
      → j < i + rounds
      → owner_at (point id j) (set_points point rounds i id l) ≡ some id
  unfolding set_points
  set_points_placed zero i j l low high = absurd (omega arith)
  set_points_placed (suc rounds) i j l low high = elim (Bool-cases (j == i)) [
    | inl e ↦
        let same : j ≡ i = ground (arith, e) in
        rw same (set_points_first point id (suc rounds) i l (omega arith))
    | inr ne ↦
        set_points_placed rounds (suc i) j (set_point (point id i) id l) (ground (arith, low, ne))
          (omega arith)
  ]

-- A node that is there already changes nothing; a new one owns all its virtual nodes, and the other
-- points keep their owners.
abbrev pub Change : (ℕ → ℕ → ℕ) → HashRing → ℕ → HashRing → Bool → Type 0
Change point r id r' true = r' ≡ r
Change point r id r' false =
    (r'.nodes ≡ id ∷ r.nodes)
    × ((j : ℕ) → j < r.virtual_nodes → owner_at (point id j) r'.ring ≡ some id)
    × ((q : ℕ)
        → ((j : ℕ) → j < r.virtual_nodes → point id j ≢ q)
        → owner_at q r'.ring ≡ owner_at q r.ring)

pub record IsAdded (point : ℕ → ℕ → ℕ) (r : HashRing) (id : ℕ) (r' : HashRing) : Type 0 where
  pub well_formed : IsRing point r'
  pub ordered : IsOrdered r'.ring
  pub changed : Change point r id r' (has_node r.nodes id)

module _ (point : ℕ → ℕ → ℕ) (r : HashRing) (id : ℕ) where
  -- Adding a node, none of whose virtual nodes falls on the first one of another node, keeps the ring well
  -- formed and its points in order. A node that is there already changes nothing; after a new one all its
  -- virtual nodes are on the ring and belong to it, and every other point belongs to whom it belonged.
  pub add_node-IsAdded :
      IsRing point r
      → IsApart point r id
      → IsOrdered r.ring
      → IsAdded point r id (add_node point r id)
  unfolding add_node
  add_node-IsAdded h far sorted = elim (Bool-cases (has_node r.nodes id)) [
    | inl old ↦ record {
      well_formed = add_node-IsRing point r id h far;
      ordered = rw (old, add_node) sorted;
      changed = rw (old, add_node) refl;
    }
    | inr new ↦ record {
      well_formed = add_node-IsRing point r id h far;
      ordered = rw (new, add_node) (set_points-IsOrdered point id r.virtual_nodes 0 r.ring sorted);
      changed =
          rw (new, add_node)
            (
              refl,
              (λ j b.
                  set_points_placed point id r.virtual_nodes 0 j r.ring (omega arith)
                    (omega (arith, b))),
              λ q ne.
                  owner_at-set_points point id q r.virtual_nodes 0 r.ring
                    (λ j b. ne j (omega (arith, b))),
            );
    }
  ]
