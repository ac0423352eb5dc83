-- ===== src/Cluster/Gossip.antt =====
-- What gossip tells a node, and whom it tells in turn.
use el_cache.Common.{
  ℕ, zero, suc, ◌≡◌, ◌≤◌, ◌≢◌, refl, sym, ap, ◌∙◌, min, max, Bool, true, none, some, List, [], ◌∷◌,
  ltb, leb, ◌==◌, if◌then◌else◌, length, take, arith, Bool-cases, Option-cases, inl, inr, Listed,
  subst, length-take,
}
use el_cache.Codec.Fields.{NodeInfo}
use el_cache.Cluster.{
  Cluster, ClusterNode, find_node, change_node, update, handle_node_update, hear, handle_push,
  is_active, active_of, active_nodes, targets, gossip_round,
}

-- The generation of what the table says of a node; 0 for one that it does not have.
abbrev pub generation_of : ℕ → List ClusterNode → ℕ
generation_of id nodes = elim (find_node id nodes) [ none ↦ 0 | some n ↦ n.info.generation ]

-- The latest generation among `g` and the news of a node.
unfoldable pub latest : ℕ → List NodeInfo → ℕ → ℕ
latest id [] g = g
latest id (info ∷ l) g = latest id l (if info.id == id then max g info.generation else g)

generation-change_node :
    (id : ℕ) (info : NodeInfo) (n : ClusterNode) (nodes : List ClusterNode)
    → find_node info.id nodes ≡ some n
    → generation_of id (change_node info.id (update info) nodes) ≡ (
        if info.id == id
        then max (generation_of id nodes) info.generation
        else generation_of id nodes)
unfolding find_node change_node update
generation-change_node id info n [] h = absurd (ground arith)
generation-change_node id info n (m ∷ l) h = elim (Bool-cases (m.info.id == info.id)) [
  | inl here ↦ elim (Bool-cases (ltb m.info.generation info.generation)) [
    | inl newer ↦ ground (arith, h, here, newer)
    | inr older ↦ ground (arith, h, here, older)
  ]
  | inr behind ↦ ground (arith, generation-change_node id info n l (ground (arith, h, behind)))
]

generation-new :
    (id : ℕ) (info : NodeInfo) (nodes : List ClusterNode)
    → find_node info.id nodes ≡ none
    → generation_of id (record { info = info; connection = none } ∷ nodes) ≡ (
        if info.id == id
        then max (generation_of id nodes) info.generation
        else generation_of id nodes)
unfolding find_node
generation-new id info nodes h = elim (Bool-cases (info.id == id)) [
  | inl e ↦
      let same : info.id ≡ id = ground (arith, e) in
      let missing : find_node id nodes ≡ none = ap (λ i. find_node i nodes) (sym same) ∙ h in
      ground (arith, e, missing)
  | inr e ↦ ground (arith, e)
]

module _ (point : ℕ → ℕ → ℕ) (now id : ℕ) where
  generation-hear :
      (c : Cluster) (info : NodeInfo)
      → generation_of id (hear point now c info).nodes ≡ (
          if info.id == id
          then max (generation_of id c.nodes) info.generation
          else generation_of id c.nodes)
  unfolding hear handle_node_update
  generation-hear c info = elim (Option-cases (find_node info.id c.nodes)) [
    | inl new ↦
        let e : (hear point now c info).nodes
            ≡ record { info = info; connection = none } ∷ c.nodes =
          rw (new, hear, handle_node_update) refl in
        ap (generation_of id) e ∙ generation-new id info c.nodes new
    | inr (n, found) ↦
        let e : (hear point now c info).nodes ≡ change_node info.id (update info) c.nodes =
          rw (found, hear, handle_node_update) refl in
        ap (generation_of id) e ∙ generation-change_node id info n c.nodes found
  ]

  -- After a gossip message, the table has of every node the latest generation among what it had and the
  -- news of the message, in whichever order they stand.
  pub generation-handle_push :
      (l : List NodeInfo) (c : Cluster)
      → generation_of id (handle_push point c now l).nodes ≡ latest id l (generation_of id c.nodes)
  unfolding handle_push latest
  generation-handle_push [] c = refl
  generation-handle_push (info ∷ l) c =
      generation-handle_push l (hear point now c info) ∙ ap (latest id l) (generation-hear c info)

-- A node that may be told something over its connection.
abbrev pub IsReachable : ℕ → (ℕ → Bool) → ClusterNode → Type 0
IsReachable local_id is_connected x =
    (x.info.id ≢ local_id)
    × ((conn : ℕ) × ((x.connection ≡ some conn) × (is_connected conn ≡ true)))

-- A node to which a round may send.
pub record IsTarget (c : Cluster) (is_connected : ℕ → Bool) (n : ClusterNode) : Type 0 where
  pub active : is_active n ≡ true
  pub listed : Listed n c.nodes
  pub reachable : IsReachable c.local_id is_connected n

Listed-take : (n : ℕ) (x : ClusterNode) (l : List ClusterNode) → Listed x (take n l) → Listed x l
Listed-take zero x l h = absurd h
Listed-take (suc n) x [] h = h
Listed-take (suc n) x (y ∷ l) (inl e) = inl e
Listed-take (suc n) x (y ∷ l) (inr h) = inr (Listed-take n x l h)

Listed-active_of :
    (x : ClusterNode) (l : List ClusterNode)
    → Listed x (active_of l)
    → Listed x l × (is_active x ≡ true)
unfolding active_of
Listed-active_of x [] h = absurd h
Listed-active_of x (n ∷ l) h = elim (Bool-cases (is_active n)) [
  | inl on ↦
      let e : active_of (n ∷ l) ≡ n ∷ active_of l = rw (on, active_of) refl in
      elim (subst (λ m. Listed x m) e h) [
        | inl same ↦ (inl same, ap is_active same ∙ on)
        | inr k ↦ let r = Listed-active_of x l k in (inr r.0, r.1)
      ]
  | inr off ↦
      let e : active_of (n ∷ l) ≡ active_of l = rw (off, active_of) refl in
      let r = Listed-active_of x l (subst (λ m. Listed x m) e h) in (inr r.0, r.1)
]

module _ (local_id : ℕ) (is_connected : ℕ → Bool) where
  Listed-targets :
      (x : ClusterNode) (l : List ClusterNode)
      → Listed x (targets local_id is_connected l)
      → Listed x l × IsReachable local_id is_connected x
  unfolding targets
  Listed-targets x [] h = absurd h
  Listed-targets x (n ∷ l) h =
      let rest : List ClusterNode = targets local_id is_connected l in
      let later : Listed x rest → Listed x (n ∷ l) × IsReachable local_id is_connected x =
        λ k. let r = Listed-targets x l k in (inr r.0, r.1) in
      elim (Bool-cases (n.info.id == local_id)) [
        | inl own ↦
            let e : targets local_id is_connected (n ∷ l) ≡ rest = rw (own, targets) refl in
            later (subst (λ m. Listed x m) e h)
        | inr other ↦ elim (Option-cases n.connection) [
          | inl lost ↦
              let e : targets local_id is_connected (n ∷ l) ≡ rest =
                rw (other, targets, lost) refl in
              later (subst (λ m. Listed x m) e h)
          | inr (conn, there) ↦ elim (Bool-cases (is_connected conn)) [
            | inr closed ↦
                let e : targets local_id is_connected (n ∷ l) ≡ rest =
                  rw (other, targets, there) (rw closed refl) in
                later (subst (λ m. Listed x m) e h)
            | inl live ↦
                let e : targets local_id is_connected (n ∷ l) ≡ n ∷ rest =
                  ground (arith, other, there, live) in
                elim (subst (λ m. Listed x m) e h) [
                  | inl same ↦ (
                    inl same,
                    subst (λ y. IsReachable local_id is_connected y) (sym same)
                        ((λ k. absurd (ground (arith, k, other))), (conn, (there, live))),
                  )
                  | inr k ↦ later k
                ]
          ]
        ]
      ]

  length-targets : (l : List ClusterNode) → length (targets local_id is_connected l) ≤ length l
  unfolding targets
  length-targets [] = omega arith
  length-targets (n ∷ l) = elim (Option-cases n.connection) [
    | inl lost ↦ ground (arith, lost, length-targets l)
    | inr (conn, there) ↦ ground (arith, there, length-targets l)
  ]

length-take-min : (n m : ℕ) (l : List ClusterNode) → length (take (min n m) l) ≤ n
length-take-min n m l = omega (arith, length-take (min n m) l)

-- A round of gossip tells no more nodes than its fanout, each of them an active node of the table that is
-- not the node itself and has an open connection, if the shuffle only reorders the nodes.
pub gossip_round-IsTarget :
    (c : Cluster) (shuffle : List ClusterNode → List ClusterNode) (is_connected : ℕ → Bool)
    → ((x : ClusterNode) (l : List ClusterNode) → Listed x (shuffle l) → Listed x l)
    → (length (gossip_round c shuffle is_connected).1 ≤ c.gossip_fanout)
      × ((x : ClusterNode)
          → Listed x (gossip_round c shuffle is_connected).1
          → IsTarget c is_connected x)
unfolding gossip_round
gossip_round-IsTarget c shuffle is_connected reorders =
    let nodes : List ClusterNode = active_nodes c in
    let chosen : List ClusterNode = take (min c.gossip_fanout (length nodes)) (shuffle nodes) in
    elim (Bool-cases (leb (length nodes) 1)) [
      | inl alone ↦ rw alone (omega arith, λ x h. absurd h)
      | inr several ↦ rw several (
        omega (
          arith,
          length-targets c.local_id is_connected chosen,
          length-take-min c.gossip_fanout (length nodes) (shuffle nodes),
        ),
        λ x h.
            let r = Listed-targets c.local_id is_connected x chosen h in
            let a = Listed-active_of x c.nodes (
              reorders x nodes
                (Listed-take (min c.gossip_fanout (length nodes)) x (shuffle nodes) r.0)) in
            record { active = a.1; listed = a.0; reachable = r.1 },
      )
    ]
