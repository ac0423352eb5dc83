-- ===== src/Cluster.antt =====
-- `Cluster`, `ClusterNode` and `GossipProtocol` (include/elcache/cluster.hpp, src/network/cluster.cpp): what a
-- node knows of the others, and what it tells them. A connection is a number, and whether it is open an
-- argument; the time and the shuffle of a round are arguments too. An operation runs as a whole.
use el_cache.Common.{
  ℕ, zero, suc, ◌+◌, ◌-◌, min, Bool, true, false, not, Option, none, some, List, [], ◌∷◌, ◌++◌, ltb,
  leb, ◌==◌, if◌then◌else◌, length, take, sub64, add64,
}
use el_cache.Codec.Fields.{NodeInfo}
use el_cache.Ring.{HashRing, add_node, get_nodes, get_chunk_nodes}
use el_cache.Hash.{Hash128}
pub mod Gossip
pub mod Routing
pub mod Remote
pub mod Exchanges
pub mod Answers
mod Tests

pub record ClusterNode : Type 0 where
  pub info : NodeInfo
  pub connection : Option ℕ

-- `local_id` is the key of `local_node_`, which the table shares; `joined` has the nodes of which the
-- callbacks were told, and `last_heard` is that of the gossip.
pub record Cluster : Type 0 where
  pub local_id : ℕ
  pub nodes : List ClusterNode
  pub ring : HashRing
  pub joined : List ℕ
  pub last_heard : List (ℕ × ℕ)
  pub replication_factor : ℕ
  pub gossip_fanout : ℕ
  pub failure_detection_timeout : ℕ

-- `NodeInfo::Active`
abbrev pub is_active : ClusterNode → Bool
is_active n = n.info.state == 2

unfoldable pub available_memory : ClusterNode → ℕ
available_memory n = sub64 n.info.memory_capacity n.info.memory_used

unfoldable pub available_disk : ClusterNode → ℕ
available_disk n = sub64 n.info.disk_capacity n.info.disk_used

-- A node keeps what it knows unless the news has a later generation.
unfoldable pub update : NodeInfo → ClusterNode → ClusterNode
update info n = if ltb n.info.generation info.generation then record n { info = info } else n

abbrev pub set_connection : ℕ → ClusterNode → ClusterNode
set_connection conn n = record n { connection = some conn }

-- The table of nodes, searched from the front.
unfoldable pub find_node : ℕ → List ClusterNode → Option ClusterNode
find_node id [] = none
find_node id (n ∷ l) = if n.info.id == id then some n else find_node id l

unfoldable pub change_node : ℕ → (ClusterNode → ClusterNode) → List ClusterNode → List ClusterNode
change_node id f [] = []
change_node id f (n ∷ l) = if n.info.id == id then f n ∷ l else n ∷ change_node id f l

abbrev pub get_node : Cluster → ℕ → Option ClusterNode
get_node c id = find_node id c.nodes

unfoldable pub active_of : List ClusterNode → List ClusterNode
active_of [] = []
active_of (n ∷ l) = if is_active n then n ∷ active_of l else active_of l

abbrev pub active_nodes : Cluster → List ClusterNode
active_nodes c = active_of c.nodes

-- The nodes of the table among some ids, in their order.
unfoldable pub known_of : List ClusterNode → List ℕ → List ClusterNode
known_of nodes [] = []
known_of nodes (id ∷ ids) = elim (find_node id nodes) [
  | none ↦ known_of nodes ids
  | some n ↦ n ∷ known_of nodes ids
]

abbrev pub or_default : Cluster → ℕ → ℕ
or_default c count = if count == 0 then c.replication_factor else count

-- At the hash of the key; `none` means that `get_nodes` does not end.
unfoldable pub nodes_for_key : Cluster → ℕ → ℕ → Option (List ClusterNode)
nodes_for_key c hash count = elim (get_nodes c.ring hash (or_default c count)) [
  | none ↦ none
  | some ids ↦ some (known_of c.nodes ids)
]

unfoldable pub nodes_for_chunk : Cluster → Hash128 → ℕ → Option (List ClusterNode)
nodes_for_chunk c chunk count = elim (get_chunk_nodes c.ring chunk (or_default c count)) [
  | none ↦ none
  | some ids ↦ some (known_of c.nodes ids)
]

pub record Stats : Type 0 where
  pub total_nodes : ℕ
  pub active : ℕ
  pub total_memory_capacity : ℕ
  pub total_disk_capacity : ℕ
  pub total_memory_used : ℕ
  pub total_disk_used : ℕ

-- One node counted.
unfoldable pub count_node : ClusterNode → Stats → Stats
count_node n s = record s {
  active = if is_active n then s.active + 1 else s.active;
  total_memory_capacity = add64 s.total_memory_capacity n.info.memory_capacity;
  total_disk_capacity = add64 s.total_disk_capacity n.info.disk_capacity;
  total_memory_used = add64 s.total_memory_used n.info.memory_used;
  total_disk_used = add64 s.total_disk_used n.info.disk_used;
}

unfoldable pub count_nodes : List ClusterNode → Stats → Stats
count_nodes [] s = s
count_nodes (n ∷ l) s = count_nodes l (count_node n s)

unfoldable pub stats : Cluster → Stats
stats c = count_nodes c.nodes (record {
  total_nodes = length c.nodes;
  active = 0;
  total_memory_capacity = 0;
  total_disk_capacity = 0;
  total_memory_used = 0;
  total_disk_used = 0;
})

-- `last_heard_[id] = now`
unfoldable pub set_heard : ℕ → ℕ → List (ℕ × ℕ) → List (ℕ × ℕ)
set_heard id now [] = (id, now) ∷ []
set_heard id now ((i, t) ∷ l) = if i == id then (id, now) ∷ l else (i, t) ∷ set_heard id now l

-- The loop of `check_failures`, which only forgets when it heard of a node.
unfoldable pub still_heard : ℕ → ℕ → List (ℕ × ℕ) → List (ℕ × ℕ)
still_heard now timeout [] = []
still_heard now timeout ((id, t) ∷ l) =
    if ltb timeout (now - t) then still_heard now timeout l else (id, t) ∷ still_heard now timeout l

unfoldable pub check_failures : Cluster → ℕ → Cluster
check_failures c now = record c {
  last_heard = still_heard now c.failure_detection_timeout c.last_heard;
}

-- The connections of a round: of the chosen nodes, without the node itself.
unfoldable pub targets : ℕ → (ℕ → Bool) → List ClusterNode → List ClusterNode
targets local_id is_connected [] = []
targets local_id is_connected (n ∷ l) =
    let rest = targets local_id is_connected l in
    if n.info.id == local_id then rest else elim n.connection [
      | none ↦ rest
      | some conn ↦ if is_connected conn then n ∷ rest else rest
    ]

unfoldable pub infos : List ClusterNode → List NodeInfo
infos [] = []
infos (n ∷ l) = n.info ∷ infos l

-- What a round sends, and to which nodes.
unfoldable pub gossip_round :
    Cluster → (List ClusterNode → List ClusterNode) → (ℕ → Bool) → List NodeInfo × List ClusterNode
gossip_round c shuffle is_connected =
    let nodes : List ClusterNode = active_nodes c in
    if leb (length nodes) 1 then ([], []) else (
      infos c.nodes,
      targets c.local_id is_connected (take (min c.gossip_fanout (length nodes)) (shuffle nodes)),
    )

-- The messages that a connection brings; the code does nothing with those of the other types.
pub data Incoming : Type 0 where
  hello : NodeInfo → Incoming
  push : List NodeInfo → Incoming
  pull : Incoming
  ack : List NodeInfo → Incoming
  unhandled : Incoming

module _ (point : ℕ → ℕ → ℕ) where
  -- The constructor, with the local node.
  unfoldable pub new_cluster : NodeInfo → HashRing → ℕ → ℕ → ℕ → Cluster
  new_cluster info empty_ring replication_factor gossip_fanout timeout = record {
    local_id = info.id;
    nodes = record { info = info; connection = none } ∷ [];
    ring = add_node point empty_ring info.id;
    joined = [];
    last_heard = [];
    replication_factor = replication_factor;
    gossip_fanout = gossip_fanout;
    failure_detection_timeout = timeout;
  }

  unfoldable pub handle_node_update : Cluster → NodeInfo → Cluster
  handle_node_update c info = elim (get_node c info.id) [
    | some n ↦ record c { nodes = change_node info.id (update info) c.nodes }
    | none ↦ record c {
      nodes = record { info = info; connection = none } ∷ c.nodes;
      ring = add_node point c.ring info.id;
      joined = c.joined ++ (info.id ∷ []);
    }
  ]

  -- One node of a gossip message.
  unfoldable pub hear : ℕ → Cluster → NodeInfo → Cluster
  hear now c info =
      let c' = handle_node_update c info in
      record c' { last_heard = set_heard info.id now c'.last_heard }

  unfoldable pub handle_push : Cluster → ℕ → List NodeInfo → Cluster
  handle_push c now [] = c
  handle_push c now (info ∷ l) = handle_push (hear now c info) now l

  unfoldable pub handle_ack : Cluster → ℕ → List NodeInfo → Cluster
  handle_ack c now [] = c
  handle_ack c now (info ∷ l) = handle_ack (hear now c info) now l

  -- A `Hello`: the table, and the acknowledgement with what the node says of itself.
  unfoldable pub handle_hello : Cluster → ℕ → NodeInfo → Cluster × Option NodeInfo
  handle_hello c conn info =
      let c' = handle_node_update c info in
      let told = record c' { nodes = change_node info.id (set_connection conn) c'.nodes } in
      (told, elim (get_node told told.local_id) [ none ↦ none | some n ↦ some n.info ])

  unfoldable pub handle_message : Cluster → ℕ → Incoming → Cluster
  handle_message c now (hello info) = c
  handle_message c now (push l) = handle_push c now l
  handle_message c now pull = c
  handle_message c now (ack l) = handle_ack c now l
  handle_message c now unhandled = c

  unfoldable pub handle_messages : Cluster → ℕ → List Incoming → Cluster
  handle_messages c now [] = c
  handle_messages c now (m ∷ l) = handle_messages (handle_message c now m) now l

  -- A connection from its first message to its end: the cluster, and the one message that is sent back.
  unfoldable pub handle_connection : Cluster → ℕ → ℕ → List Incoming → Cluster × Option NodeInfo
  handle_connection c conn now [] = (c, none)
  handle_connection c conn now (hello info ∷ l) =
      let r = handle_hello c conn info in (handle_messages r.0 now l, r.1)
  handle_connection c conn now (push first ∷ l) = (handle_messages c now l, none)
  handle_connection c conn now (pull ∷ l) = (handle_messages c now l, none)
  handle_connection c conn now (ack first ∷ l) = (handle_messages c now l, none)
  handle_connection c conn now (unhandled ∷ l) = (handle_messages c now l, none)
