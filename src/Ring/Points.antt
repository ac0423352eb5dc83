-- ===== src/Ring/Points.antt =====
-- The points of the ring: who owns them, and what adding and removing a node does to them.
use el_cache.Common.{
  ℕ, zero, suc, ◌+◌, ◌≡◌, ◌≢◌, inl, inr, refl, subst, ◌≤◌, ◌<◌, Option, none, some, List, [], ◌∷◌,
  ltb, ◌==◌, if◌then◌else◌, arith, Bool-cases, Listed, Nodup, All,
}
use el_cache.Ring.{
  HashRing, has_node, erase_node, set_point, erase_point, set_points, erase_points, add_node,
  remove_node,
}
use el_cache.Ring.Walk.{has_node-not_Listed}

-- The node of a point: a look-up in `ring_`.
unfoldable pub owner_at : ℕ → List (ℕ × ℕ) → Option ℕ
owner_at q [] = none
owner_at q ((p, n) ∷ l) = if p == q then some n else owner_at q l

owner_at-set_point :
    (q p id : ℕ) (l : List (ℕ × ℕ))
    → owner_at q (set_point p id l) ≡ (if p == q then some id else owner_at q l)
unfolding owner_at set_point
owner_at-set_point q p id [] = refl
owner_at-set_point q p id ((p', n) ∷ l) = ground (arith, owner_at-set_point q p id l)

owner_at-erase_point :
    (q p : ℕ) (l : List (ℕ × ℕ)) → p ≢ q → owner_at q (erase_point p l) ≡ owner_at q l
unfolding owner_at erase_point
owner_at-erase_point q p [] ne = refl
owner_at-erase_point q p ((p', n) ∷ l) ne = ground (arith, owner_at-erase_point q p l ne)

module _ (P Q : ℕ × ℕ → Type 0) where
  pub All-imp : (l : List (ℕ × ℕ)) → ((e : ℕ × ℕ) → P e → Q e) → All P l → All Q l
  All-imp [] f h = tt
  All-imp (e ∷ l) f h = (f e h.0, All-imp l f h.1)

  pub All-both : (l : List (ℕ × ℕ)) → All P l → All Q l → All (λ e. P e × Q e) l
  All-both [] h k = tt
  All-both (e ∷ l) h k = ((h.0, k.0), All-both l h.1 k.1)

module _ (P : ℕ × ℕ → Type 0) where
  pub All-set_point : (p id : ℕ) (l : List (ℕ × ℕ)) → All P l → P (p, id) → All P (set_point p id l)
  unfolding set_point
  All-set_point p id [] h k = (k, tt)
  All-set_point p id ((p', n) ∷ l) h k = elim (Bool-cases (ltb p p')) [
    | inl lt ↦ rw (lt, set_point) (k, h)
    | inr ge ↦ elim (Bool-cases (p == p')) [
      | inl e ↦ rw (ge, set_point, e) (k, h.1)
      | inr ne ↦ rw (ge, set_point, ne) (h.0, All-set_point p id l h.1 k)
    ]
  ]

  All-erase_point : (p : ℕ) (l : List (ℕ × ℕ)) → All P l → All P (erase_point p l)
  unfolding erase_point
  All-erase_point p [] h = tt
  All-erase_point p ((p', n) ∷ l) h = elim (Bool-cases (p' == p)) [
    | inl e ↦ rw (e, erase_point) (All-erase_point p l h.1)
    | inr ne ↦ rw (ne, erase_point) (h.0, All-erase_point p l h.1)
  ]

erase_point_gone : (p : ℕ) (l : List (ℕ × ℕ)) → All (λ e. e.0 ≢ p) (erase_point p l)
unfolding erase_point
erase_point_gone p [] = tt
erase_point_gone p ((p', n) ∷ l) = elim (Bool-cases (p' == p)) [
  | inl e ↦ rw (e, erase_point) (erase_point_gone p l)
  | inr ne ↦ rw (ne, erase_point) (ground (arith, ne), erase_point_gone p l)
]

any : (l : List (ℕ × ℕ)) → All (λ e. Unit {0}) l
any [] = tt
any (e ∷ l) = (tt, any l)

-- The loops over the virtual nodes `i` to `i + rounds`.
module _ (point : ℕ → ℕ → ℕ) (id : ℕ) where
  pub owner_at-set_points :
      (q rounds i : ℕ) (l : List (ℕ × ℕ))
      → ((j : ℕ) → j < i + rounds → point id j ≢ q)
      → owner_at q (set_points point rounds i id l) ≡ owner_at q l
  unfolding set_points
  owner_at-set_points q zero i l h = refl
  owner_at-set_points q (suc rounds) i l h =
      let ne = h i (omega arith) in
      let step =
        owner_at-set_points q rounds (suc i) (set_point (point id i) id l)
          (λ j k. h j (omega arith)) in
      ground (arith, step, ne, owner_at-set_point q (point id i) id l)

  set_points_own :
      (q rounds i : ℕ) (l : List (ℕ × ℕ))
      → owner_at q l ≡ some id
      → owner_at q (set_points point rounds i id l) ≡ some id
  unfolding set_points
  set_points_own q zero i l h = h
  set_points_own q (suc rounds) i l h =
      set_points_own q rounds (suc i) (set_point (point id i) id l)
        (ground (arith, h, owner_at-set_point q (point id i) id l))

  pub set_points_first :
      (rounds i : ℕ) (l : List (ℕ × ℕ))
      → 0 < rounds
      → owner_at (point id i) (set_points point rounds i id l) ≡ some id
  unfolding set_points
  set_points_first zero i l h = absurd (omega arith)
  set_points_first (suc rounds) i l h =
      set_points_own (point id i) rounds (suc i) (set_point (point id i) id l)
        (ground (arith, owner_at-set_point (point id i) (point id i) id l))

  owner_at-erase_points :
      (q rounds i : ℕ) (l : List (ℕ × ℕ))
      → ((j : ℕ) → j < i + rounds → point id j ≢ q)
      → owner_at q (erase_points point rounds i id l) ≡ owner_at q l
  unfolding erase_points
  owner_at-erase_points q zero i l h = refl
  owner_at-erase_points q (suc rounds) i l h =
      let ne = h i (omega arith) in
      let step =
        owner_at-erase_points q rounds (suc i) (erase_point (point id i) l)
          (λ j k. h j (omega arith)) in
      ground (arith, step, owner_at-erase_point q (point id i) l ne)

  module _ (P : ℕ × ℕ → Type 0) where
    All-set_points :
        (rounds i : ℕ) (l : List (ℕ × ℕ))
        → All P l
        → ((j : ℕ) → j < i + rounds → P (point id j, id))
        → All P (set_points point rounds i id l)
    unfolding set_points
    All-set_points zero i l h k = h
    All-set_points (suc rounds) i l h k =
        All-set_points rounds (suc i) (set_point (point id i) id l)
          (All-set_point P (point id i) id l h (k i (omega arith))) (λ j b. k j (omega arith))

    All-erase_points :
        (rounds i : ℕ) (l : List (ℕ × ℕ)) → All P l → All P (erase_points point rounds i id l)
    unfolding erase_points
    All-erase_points zero i l h = h
    All-erase_points (suc rounds) i l h =
        All-erase_points rounds (suc i) (erase_point (point id i) l)
          (All-erase_point P (point id i) l h)

  -- A point that is none of those erased.
  abbrev Avoids : ℕ → ℕ → ℕ × ℕ → Type 0
  Avoids rounds i e = (j : ℕ) → i ≤ j → j < i + rounds → e.0 ≢ point id j

  Avoids-step :
      (rounds i : ℕ) (e : ℕ × ℕ)
      → (e.0 ≢ point id i) × Avoids rounds (suc i) e
      → Avoids (suc rounds) i e
  Avoids-step rounds i e h j low high = elim (Bool-cases (j == i)) [
    | inl same ↦ let eq : j ≡ i = ground arith in rw eq h.0
    | inr other ↦ h.1 j (ground arith) (omega arith)
  ]

  erase_points-Avoids :
      (rounds i : ℕ) (l : List (ℕ × ℕ)) → All (Avoids rounds i) (erase_points point rounds i id l)
  unfolding erase_points
  erase_points-Avoids zero i l =
      All-imp (λ e. Unit {0}) (Avoids zero i) l (λ e h j a b. absurd (omega arith)) (any l)
  erase_points-Avoids (suc rounds) i l =
      let rest : List (ℕ × ℕ) = erase_point (point id i) l in
      All-imp (λ e. (e.0 ≢ point id i) × Avoids rounds (suc i) e) (Avoids (suc rounds) i)
        (erase_points point rounds (suc i) id rest) (Avoids-step rounds i)
        (All-both (λ e. e.0 ≢ point id i) (Avoids rounds (suc i))
          (erase_points point rounds (suc i) id rest)
          (All-erase_points (λ e. e.0 ≢ point id i) rounds (suc i) rest
            (erase_point_gone (point id i) l))
          (erase_points-Avoids rounds (suc i) rest))

-- The point belongs to the node: it is one of its virtual nodes.
abbrev pub IsOwned : (ℕ → ℕ → ℕ) → ℕ → List ℕ → ℕ × ℕ → Type 0
IsOwned point virtual_nodes nodes e =
    Listed e.1 nodes × ((i : ℕ) × ((i < virtual_nodes) × (e.0 ≡ point e.1 i)))

-- The nodes are distinct, every point is a virtual node of one of them, and the first virtual node of
-- each is on the ring.
pub record IsRing (point : ℕ → ℕ → ℕ) (r : HashRing) : Type 0 where
  pub some_points : 0 < r.virtual_nodes
  pub distinct : Nodup r.nodes
  pub owned : All (IsOwned point r.virtual_nodes r.nodes) r.ring
  pub present : (n : ℕ) → Listed n r.nodes → owner_at (point n 0) r.ring ≡ some n

-- No virtual node of `id` falls on the first one of another node.
pub record IsApart (point : ℕ → ℕ → ℕ) (r : HashRing) (id : ℕ) : Type 0 where
  pub apart :
      (n : ℕ) → Listed n r.nodes → n ≢ id → (i : ℕ) → i < r.virtual_nodes → point id i ≢ point n 0

Listed-erase_node : (l : List ℕ) (id x : ℕ) → Listed x l → x ≢ id → Listed x (erase_node l id)
unfolding erase_node
Listed-erase_node [] id x h ne = absurd h
Listed-erase_node (n ∷ l) id x h ne = elim (Bool-cases (n == id)) [
  | inl e ↦
      rw (e, erase_node)
        (elim h [
          | inl e' ↦ absurd (ne (ground (arith, e, e')))
          | inr k ↦ Listed-erase_node l id x k ne
        ])
  | inr o ↦
      rw (o, erase_node) (elim h [ inl e' ↦ inl e' | inr k ↦ inr (Listed-erase_node l id x k ne) ])
]

Listed-erase_node_back :
    (l : List ℕ) (id x : ℕ) → Listed x (erase_node l id) → Listed x l × (x ≢ id)
unfolding erase_node
Listed-erase_node_back [] id x = λ h. absurd h
Listed-erase_node_back (n ∷ l) id x = elim (Bool-cases (n == id)) [
  | inl e ↦ rw (e, erase_node) (λ k. let (a, b) = Listed-erase_node_back l id x k in (inr a, b))
  | inr o ↦
      rw (o, erase_node)
        (λ k. elim k [
          | inl e' ↦ (inl e', λ z. ground (arith, o, e', z))
          | inr m ↦ let (a, b) = Listed-erase_node_back l id x m in (inr a, b)
        ])
]

erase_node-Nodup : (l : List ℕ) (id : ℕ) → Nodup l → Nodup (erase_node l id)
unfolding erase_node
erase_node-Nodup [] id h = tt
erase_node-Nodup (n ∷ l) id h = elim (Bool-cases (n == id)) [
  | inl e ↦ rw (e, erase_node) (erase_node-Nodup l id h.1)
  | inr o ↦
      rw (o, erase_node) ((λ k. h.0 (Listed-erase_node_back l id n k).0), erase_node-Nodup l id h.1)
]

pub empty_ring-IsRing :
    (point : ℕ → ℕ → ℕ) (virtual_nodes : ℕ)
    → 0 < virtual_nodes
    → IsRing point (record { virtual_nodes = virtual_nodes; ring = []; nodes = [] })
empty_ring-IsRing point virtual_nodes h = record {
  some_points = h;
  distinct = tt;
  owned = tt;
  present = λ n k. absurd k;
}

-- A point that was not erased belongs to another node.
owned_elsewhere :
    (point : ℕ → ℕ → ℕ) (V : ℕ) (nodes : List ℕ) (id : ℕ) (e : ℕ × ℕ)
    → IsOwned point V nodes e × Avoids point id V 0 e
    → e.1 ≢ id
owned_elsewhere point V nodes id e (own, avoids) z =
    let (i, (below, at)) = own.1 in
    avoids i (omega arith) (omega arith) (subst (λ x. e.0 ≡ point x i) z at)

module _ (point : ℕ → ℕ → ℕ) (r : HashRing) (id : ℕ) where
  -- Adding a node keeps the ring well formed, if none of its virtual nodes falls on the first one of
  -- another node.
  pub add_node-IsRing : IsRing point r → IsApart point r id → IsRing point (add_node point r id)
  unfolding add_node
  add_node-IsRing h far = elim (Bool-cases (has_node r.nodes id)) [
    | inl old ↦ rw (old, add_node) h
    | inr new ↦
        let V : ℕ = r.virtual_nodes in
        rw (new, add_node)
          (record {
            some_points = h.some_points;
            distinct = (has_node-not_Listed r.nodes id new, h.distinct);
            owned =
                All-set_points point id (IsOwned point V (id ∷ r.nodes)) V 0 r.ring
                  (All-imp (IsOwned point V r.nodes) (IsOwned point V (id ∷ r.nodes)) r.ring
                    (λ e k. (inr k.0, k.1)) h.owned)
                  (λ j b. (inl refl, (j, (omega arith, refl))));
            present = λ n k. elim k [
              | inl e ↦ rw e (set_points_first point id V 0 r.ring h.some_points)
              | inr old ↦
                  let ne : n ≢ id =
                    λ e. has_node-not_Listed r.nodes id new (subst (λ x. Listed x r.nodes) e old) in
                  rw
                    (owner_at-set_points point id (point n 0) V 0 r.ring
                      (λ j b. far.apart n old ne j (omega arith)))
                    (h.present n old)
            ];
          })
  ]

  -- Removing a node keeps the ring well formed, if none of its virtual nodes falls on the first one of
  -- another node; an unknown node changes nothing.
  pub remove_node-IsRing :
      IsRing point r → IsApart point r id → IsRing point (remove_node point r id)
  unfolding remove_node
  remove_node-IsRing h far = elim (Bool-cases (has_node r.nodes id)) [
    | inr unknown ↦ rw (unknown, remove_node) h
    | inl known ↦
        let V : ℕ = r.virtual_nodes in
        let left : List (ℕ × ℕ) = erase_points point V 0 id r.ring in
        rw (known, remove_node)
          (record {
            some_points = h.some_points;
            distinct = erase_node-Nodup r.nodes id h.distinct;
            owned =
                All-imp (λ e. IsOwned point V r.nodes e × Avoids point id V 0 e)
                  (IsOwned point V (erase_node r.nodes id)) left
                  (λ e k. (
                    Listed-erase_node r.nodes id e.1 k.0.0 (owned_elsewhere point V r.nodes id e k),
                    k.0.1,
                  ))
                  (All-both (IsOwned point V r.nodes) (Avoids point id V 0) left
                    (All-erase_points point id (IsOwned point V r.nodes) V 0 r.ring h.owned)
                    (erase_points-Avoids point id V 0 r.ring));
            present = λ n k.
                let (old, ne) = Listed-erase_node_back r.nodes id n k in
                rw
                  (owner_at-erase_points point id (point n 0) V 0 r.ring
                    (λ j b. far.apart n old ne j (omega arith)))
                  (h.present n old);
          })
  ]
