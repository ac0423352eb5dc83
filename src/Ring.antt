-- ===== src/Ring.antt =====
-- `HashRing` (include/elcache/cluster.hpp, src/network/cluster.cpp): consistent hashing of keys to nodes.
-- `std::map` is a list of pairs in ascending order, and `std::set` a list. A node is its `NodeId`'s number.
use el_cache.Common.{
  ℕ, zero, suc, ◌+◌, ◌*◌, ◌/◌, ◌^◌, Bool, true, false, not, ◌&&◌, Option, none, some, List, [], ◌∷◌,
  ◌++◌, ltb, leb, ◌==◌, if◌then◌else◌, mul64, length, min,
}
use el_cache.Hash.{Hash128, xor64, golden}
pub mod Points
pub mod Added
pub mod Walk
pub mod Nodes
mod Tests

-- One of the steps that mix the bits: `combined ^= combined >> 33`.
abbrev mix : ℕ → ℕ
mix combined = xor64 combined (combined / 2 ^ 33)

unfoldable pub hash_point : ℕ → ℕ → ℕ
hash_point id replica = mix (
    mul64 (mix (mul64 (mix (xor64 id (mul64 replica golden))) 0xFF51AFD7ED558CCD))
      0xC4CEB9FE1A85EC53)

pub record HashRing : Type 0 where
  pub virtual_nodes : ℕ
  pub ring : List (ℕ × ℕ)
  pub nodes : List ℕ

-- `nodes_.count(id)`
unfoldable pub has_node : List ℕ → ℕ → Bool
has_node [] id = false
has_node (n ∷ l) id = if n == id then true else has_node l id

-- `nodes_.erase(id)`
unfoldable pub erase_node : List ℕ → ℕ → List ℕ
erase_node [] id = []
erase_node (n ∷ l) id = if n == id then erase_node l id else n ∷ erase_node l id

-- `ring_[point] = id`
unfoldable pub set_point : ℕ → ℕ → List (ℕ × ℕ) → List (ℕ × ℕ)
set_point point id [] = (point, id) ∷ []
set_point point id ((p, n) ∷ l) =
    if ltb point p
    then (point, id) ∷ (p, n) ∷ l
    else if point == p
    then (point, id) ∷ l
    else (p, n) ∷ set_point point id l

-- `ring_.erase(point)`
unfoldable pub erase_point : ℕ → List (ℕ × ℕ) → List (ℕ × ℕ)
erase_point point [] = []
erase_point point ((p, n) ∷ l) =
    if p == point then erase_point point l else (p, n) ∷ erase_point point l

-- The loops over the virtual nodes from `i`.
unfoldable pub set_points : (ℕ → ℕ → ℕ) → ℕ → ℕ → ℕ → List (ℕ × ℕ) → List (ℕ × ℕ)
set_points point zero i id ring = ring
set_points point (suc rounds) i id ring =
    set_points point rounds (suc i) id (set_point (point id i) id ring)

unfoldable pub erase_points : (ℕ → ℕ → ℕ) → ℕ → ℕ → ℕ → List (ℕ × ℕ) → List (ℕ × ℕ)
erase_points point zero i id ring = ring
erase_points point (suc rounds) i id ring =
    erase_points point rounds (suc i) id (erase_point (point id i) ring)

-- `point` is `hash_point`; the proofs name what they ask of it.
unfoldable pub add_node : (ℕ → ℕ → ℕ) → HashRing → ℕ → HashRing
add_node point r id =
    if has_node r.nodes id
    then r
    else record r { nodes = id ∷ r.nodes; ring = set_points point r.virtual_nodes 0 id r.ring }

unfoldable pub remove_node : (ℕ → ℕ → ℕ) → HashRing → ℕ → HashRing
remove_node point r id =
    if has_node r.nodes id
    then record r {
      nodes = erase_node r.nodes id;
      ring = erase_points point r.virtual_nodes 0 id r.ring;
    }
    else r

unfoldable pub lower_bound : ℕ → List (ℕ × ℕ) → List (ℕ × ℕ)
lower_bound hash [] = []
lower_bound hash ((p, n) ∷ l) = if ltb p hash then lower_bound hash l else (p, n) ∷ l

-- A node of the walk: `seen`, and `result`.
unfoldable pub visit : ℕ → List ℕ → List ℕ → List ℕ × List ℕ
visit id seen result = if has_node seen id then (seen, result) else (id ∷ seen, result ++ (id ∷ []))

-- `if (it == ring_.end()) it = ring_.begin();`
unfoldable pub at_begin : List (ℕ × ℕ) → List (ℕ × ℕ) → List (ℕ × ℕ)
at_begin ring [] = ring
at_begin ring (e ∷ it) = e ∷ it

-- The loop of `get_nodes` on fuel, at the iterator `it`; `none` means that the fuel ran out. A walk on
-- an empty ring does not happen.
unfoldable pub walk : ℕ → ℕ → ℕ → List (ℕ × ℕ) → List (ℕ × ℕ) → List ℕ → List ℕ → Option (List ℕ)
walk zero total count ring it seen result = none
walk (suc fuel) total count ring it seen result = elim (at_begin ring it) [
  | [] ↦ none
  | (p, id) ∷ next ↦
      let v = visit id seen result in
      let rest = walk fuel total count ring next v.0 v.1 in
      if ltb (length result) count
      then if leb total (length v.0) then some v.1 else rest
      else some result
]

-- The count that `get_nodes` asks for.
abbrev pub wanted : HashRing → ℕ → ℕ
wanted r count = let n : ℕ = min count (length r.nodes) in if n == 0 then 1 else n

-- `get_nodes` at the hash of a key. The walk passes the whole ring
-- after the part behind `hash`, so twice its length is fuel enough where each node has a point.
unfoldable pub get_nodes : HashRing → ℕ → ℕ → Option (List ℕ)
get_nodes r hash count = elim r.ring [
  | [] ↦ some []
  | e ∷ l ↦
      walk (length r.ring + length r.ring) (length r.nodes) (wanted r count) r.ring
        (lower_bound hash r.ring) [] []
]

-- `get_nodes` for a chunk: the same walk from the lower half of its hash.
unfoldable pub get_chunk_nodes : HashRing → Hash128 → ℕ → Option (List ℕ)
get_chunk_nodes r chunk count = get_nodes r chunk.low count

-- `!nodes.empty() && nodes[0] == node`
unfoldable pub is_first : List ℕ → ℕ → Bool
is_first [] node = false
is_first (n ∷ l) node = n == node

unfoldable pub is_responsible : HashRing → ℕ → ℕ → Option Bool
is_responsible r node hash = elim (get_nodes r hash 1) [
  | none ↦ none
  | some nodes ↦ some (is_first nodes node)
]
