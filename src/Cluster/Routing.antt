-- ===== src/Cluster/Routing.antt =====
-- The ring and the table of nodes say the same, so no node that the ring chose is missing from the table.
use el_cache.Common.{
  ℕ, ◌≡◌, ◌≢◌, refl, sym, none, some, List, [], ◌∷◌, ltb, ◌==◌, arith, Bool-cases, Option-cases,
  inl, inr, Listed, subst,
}
use el_cache.Codec.Fields.{NodeInfo}
use el_cache.Ring.{HashRing, add_node, has_node}
use el_cache.Ring.Walk.{IsAnswer}
use el_cache.Ring.Points.{IsRing, IsApart, add_node-IsRing}
use el_cache.Ring.Nodes.{due, get_nodes-IsAnswer}
use el_cache.Cluster.{
  Cluster, ClusterNode, find_node, change_node, update, handle_node_update, known_of, nodes_for_key,
  or_default,
}

-- Each node of the ring is in the table.
pub record IsCluster (point : ℕ → ℕ → ℕ) (c : Cluster) : Type 0 where
  pub ring_IsRing : IsRing point c.ring
  pub known :
      (id : ℕ) → Listed id c.ring.nodes → (n : ClusterNode) × (find_node id c.nodes ≡ some n)

abbrev pub ids_of : List ClusterNode → List ℕ
ids_of [] = []
ids_of (n ∷ l) = n.info.id ∷ ids_of l

find_node_id :
    (id : ℕ) (n : ClusterNode) (nodes : List ClusterNode)
    → find_node id nodes ≡ some n
    → n.info.id ≡ id
unfolding find_node
find_node_id id n [] h = absurd (ground arith)
find_node_id id n (m ∷ l) h = elim (Bool-cases (m.info.id == id)) [
  | inl here ↦ ground (arith, h, here)
  | inr behind ↦ find_node_id id n l (ground (arith, h, behind))
]

ids_of-known_of :
    (nodes : List ClusterNode) (ids : List ℕ)
    → ((id : ℕ) → Listed id ids → (n : ClusterNode) × (find_node id nodes ≡ some n))
    → ids_of (known_of nodes ids) ≡ ids
unfolding known_of
ids_of-known_of nodes [] h = refl
ids_of-known_of nodes (id ∷ l) h =
    let (n, found) = h id (inl refl) in
    let same = find_node_id id n nodes found in
    rw (found, known_of, same, ids_of-known_of nodes l (λ i k. h i (inr k))) refl

-- On a well-formed cluster `nodes_for_key` ends and loses no node: it returns as many as are due for the
-- count, or for the replication factor where the count is 0, all different and all in the ring.
pub nodes_for_key-IsAnswer :
    (point : ℕ → ℕ → ℕ) (c : Cluster) (hash count : ℕ)
    → IsCluster point c
    → (l : List ClusterNode) × (nodes_for_key c hash count ≡ some l)
      × IsAnswer c.ring.nodes (due c.ring (or_default c count)) (ids_of l)
unfolding nodes_for_key
nodes_for_key-IsAnswer point c hash count h =
    let (ids, e, answer) =
      get_nodes-IsAnswer point c.ring hash (or_default c count) h.ring_IsRing in
    let same = ids_of-known_of c.nodes ids (λ id k. h.known id (answer.known id k)) in
    (
      known_of c.nodes ids,
      rw (e, nodes_for_key) refl,
      subst (λ l. IsAnswer c.ring.nodes (due c.ring (or_default c count)) l) (sym same) answer,
    )

find_node-change_node :
    (id : ℕ) (info : NodeInfo) (n : ClusterNode) (nodes : List ClusterNode)
    → find_node id nodes ≡ some n
    → (m : ClusterNode) × (find_node id (change_node info.id (update info) nodes) ≡ some m)
unfolding find_node change_node update
find_node-change_node id info n [] h = absurd (ground arith)
find_node-change_node id info n (m ∷ l) h = elim (Bool-cases (m.info.id == info.id)) [
  | inl here ↦ elim (Bool-cases (ltb m.info.generation info.generation)) [
    | inl newer ↦ elim (Bool-cases (m.info.id == id)) [
      | inl found ↦ (record m { info = info }, ground (arith, here, newer, found))
      | inr behind ↦ (n, ground (arith, h, here, newer, behind))
    ]
    | inr older ↦ (n, ground (arith, h, here, older))
  ]
  | inr elsewhere ↦ elim (Bool-cases (m.info.id == id)) [
    | inl found ↦ (m, ground (arith, elsewhere, found))
    | inr behind ↦
        let (k, e) = find_node-change_node id info n l (ground (arith, h, behind)) in
        (k, ground (arith, e, elsewhere, behind))
  ]
]

before_add_node :
    (point : ℕ → ℕ → ℕ) (r : HashRing) (new id : ℕ)
    → Listed id (add_node point r new).nodes
    → id ≢ new
    → Listed id r.nodes
unfolding add_node
before_add_node point r new id k ne = elim (Bool-cases (has_node r.nodes new)) [
  | inl old ↦
      let e : add_node point r new ≡ r = rw (old, add_node) refl in
      subst (λ q. Listed id q.nodes) e k
  | inr fresh ↦
      let e : (add_node point r new).nodes ≡ new ∷ r.nodes = rw (fresh, add_node) refl in
      elim (subst (λ l. Listed id l) e k) [ inl same ↦ absurd (ne same) | inr there ↦ there ]
]

-- Where an id of the ring with a new node stands.
known-add_node :
    (point : ℕ → ℕ → ℕ) (c : Cluster) (info : NodeInfo)
    → IsCluster point c
    → (id : ℕ) → Listed id (add_node point c.ring info.id).nodes
    → (n : ClusterNode) × (find_node id (record { info = info; connection = none } ∷ c.nodes)
        ≡ some n)
unfolding find_node
known-add_node point c info h id k = elim (Bool-cases (info.id == id)) [
  | inl e ↦ (record { info = info; connection = none }, ground (arith, e))
  | inr other ↦
      let (n, found) =
        h.known id (before_add_node point c.ring info.id id k (ground (arith, other))) in
      (n, ground (arith, found, other))
]

-- News of a node keep the cluster well formed, if a new node has no virtual node on the first one of
-- another node.
pub handle_node_update-IsCluster :
    (point : ℕ → ℕ → ℕ) (c : Cluster) (info : NodeInfo)
    → IsCluster point c
    → IsApart point c.ring info.id
    → IsCluster point (handle_node_update point c info)
unfolding handle_node_update
handle_node_update-IsCluster point c info h far = elim (Option-cases (find_node info.id c.nodes)) [
  | inl new ↦
      rw (new, handle_node_update)
        (record {
          ring_IsRing = add_node-IsRing point c.ring info.id h.ring_IsRing far;
          known = known-add_node point c info h;
        })
  | inr (n, found) ↦
      rw (found, handle_node_update)
        (record {
          ring_IsRing = h.ring_IsRing;
          known = λ id k. let (m, e) = h.known id k in find_node-change_node id info m c.nodes e;
        })
]
