-- ===== src/Cluster/Tests.antt =====
-- Examples for the cluster: a node that hears of others.
use el_cache.Common.{
  ℕ, ◌+◌, ◌*◌, ◌≡◌, ◌≤◌, refl, true, none, some, List, [], ◌∷◌, length, arith, inl, inr, Listed,
  Bool,
}
use el_cache.Codec.Fields.{NodeInfo}
use el_cache.Ring.{add_node, has_node}
use el_cache.Ring.Walk.{IsAnswer}
use el_cache.Ring.Points.{IsApart, empty_ring-IsRing, add_node-IsRing}
use el_cache.Ring.Nodes.{due}
use el_cache.Cluster.{
  Cluster, ClusterNode, find_node, handle_node_update, handle_push, nodes_for_key, or_default,
  new_cluster, gossip_round, change_node, handle_connection, hello, unhandled, active_of,
  handle_messages, handle_message, handle_hello, targets,
}
use el_cache.Cluster.Gossip.{
  generation_of, latest, generation-handle_push, IsTarget, gossip_round-IsTarget,
}
use el_cache.Cluster.Routing.{
  IsCluster, ids_of, nodes_for_key-IsAnswer, handle_node_update-IsCluster,
}

-- Points that no two nodes share.
abbrev spread : ℕ → ℕ → ℕ
spread id i = 10 * id + i

abbrev info_of : ℕ → ℕ → NodeInfo
info_of id generation = record {
  id = id;
  address = [];
  port = 9000;
  memory_capacity = 100;
  memory_used = 0;
  disk_capacity = 0;
  disk_used = 0;
  generation = generation;
  state = 2;
  last_seen = 0;
}

abbrev alone : Cluster
alone =
    new_cluster spread (info_of 5 1) (record { virtual_nodes = 2; ring = []; nodes = [] }) 2 3 30

alone-IsCluster : IsCluster spread alone
unfolding new_cluster find_node add_node has_node
alone-IsCluster = record {
  ring_IsRing =
      add_node-IsRing spread (record { virtual_nodes = 2; ring = []; nodes = [] }) 5
        (empty_ring-IsRing spread 2 (omega arith)) (record { apart = λ n k ne i b. absurd k });
  known = λ id k. elim k [
    | inl e ↦ (record { info = info_of 5 1; connection = none }, ground (arith, e))
    | inr z ↦ absurd z
  ];
}

nodes_for_key-IsAnswer_example :
    (l : List ClusterNode) × (nodes_for_key alone 77 0 ≡ some l)
    × IsAnswer alone.ring.nodes (due alone.ring (or_default alone 0)) (ids_of l)
nodes_for_key-IsAnswer_example = nodes_for_key-IsAnswer spread alone 77 0 alone-IsCluster

seven-IsApart : IsApart spread alone.ring 7
unfolding new_cluster add_node has_node
seven-IsApart = record {
  apart = λ n k ne i b e. elim k [ inl five ↦ absurd (omega arith) | inr z ↦ absurd z ];
}

handle_node_update-IsCluster_example :
    IsCluster spread (handle_node_update spread alone (info_of 7 4))
handle_node_update-IsCluster_example =
    handle_node_update-IsCluster spread alone (info_of 7 4) alone-IsCluster seven-IsApart

abbrev news : List NodeInfo
news = info_of 7 4 ∷ info_of 7 9 ∷ info_of 7 6 ∷ []

generation-handle_push_example :
    generation_of 7 (handle_push spread alone 100 news).nodes
    ≡ latest 7 news (generation_of 7 alone.nodes)
generation-handle_push_example = generation-handle_push spread 100 7 news alone

-- A node that said hello on the connection 1, and then asked for something.
abbrev pair : Cluster
pair = (handle_connection spread alone 1 100 (hello (info_of 7 4) ∷ unhandled ∷ [])).0

abbrev all_open : ℕ → Bool
all_open conn = true

gossip_round-IsTarget_example :
    (length (gossip_round pair (λ l. l) all_open).1 ≤ pair.gossip_fanout)
    × ((x : ClusterNode)
        → Listed x (gossip_round pair (λ l. l) all_open).1
        → IsTarget pair all_open x)
gossip_round-IsTarget_example = gossip_round-IsTarget pair (λ l. l) all_open (λ x l h. h)

tells_the_other : ids_of (gossip_round pair (λ l. l) all_open).1 ≡ 7 ∷ []
unfolding gossip_round active_of handle_connection handle_messages handle_message handle_hello
    change_node handle_node_update find_node new_cluster targets
tells_the_other = refl
