-- ===== src/Ring/Tests.antt =====
-- Examples for `HashRing`.
use el_cache.Common.{
  ℕ, zero, suc, ◌≡◌, ◌≢◌, ◌<◌, ◌==◌, refl, inl, inr, List, [], ◌∷◌, none, some, false, arith, mul64,
}
use el_cache.Hash.{xor64, xor_bits}
use el_cache.Ring.{
  HashRing, hash_point, has_node, erase_node, set_point, erase_point, set_points, erase_points,
  add_node, remove_node, lower_bound, visit, at_begin, walk, get_nodes,
}
use el_cache.Ring.Walk.{IsAnswer}
use el_cache.Ring.Added.{IsOrdered, IsAdded, add_node-IsAdded}
use el_cache.Ring.Points.{IsRing, IsApart, empty_ring-IsRing, add_node-IsRing}
use el_cache.Ring.Nodes.{due, get_nodes-IsAnswer}

abbrev no_nodes : HashRing
no_nodes = record { virtual_nodes = 2; ring = []; nodes = [] }

-- A ring of one node, and of two.
abbrev one_node : HashRing
one_node = add_node hash_point no_nodes 5

abbrev two_nodes : HashRing
two_nodes = add_node hash_point one_node 9

-- What the tests compute with.
program : Unit {0}
unfolding hash_point xor64 xor_bits mul64 has_node erase_node set_point erase_point set_points
    erase_points add_node remove_node lower_bound visit at_begin walk get_nodes
program = tt

finds_both : get_nodes two_nodes 0 2 ≡ some (9 ∷ 5 ∷ [])
unfolding program
finds_both = refl

-- Two nodes with all points in common: the walk looks for the second one for ever.
loses_node :
    get_nodes (record { virtual_nodes = 1; ring = (7, 2) ∷ []; nodes = 2 ∷ 1 ∷ [] }) 0 2 ≡ none
unfolding program
loses_node = refl

one_node-IsRing : IsRing hash_point one_node
one_node-IsRing =
    add_node-IsRing hash_point no_nodes 5 (empty_ring-IsRing hash_point 2 (omega arith))
      (record { apart = λ n k ne i b. absurd k })

-- No virtual node of 9 falls on the first one of 5.
points_differ :
    ((hash_point 9 0 == hash_point 5 0) ≡ false) × ((hash_point 9 1 == hash_point 5 0) ≡ false)
unfolding program
points_differ = (refl, refl)

ninth_differs : (i : ℕ) → i < 2 → hash_point 9 i ≢ hash_point 5 0
ninth_differs zero b = ground (arith, points_differ)
ninth_differs (suc zero) b = ground (arith, points_differ)
ninth_differs (suc (suc i)) b = absurd (omega arith)

nine-IsApart : IsApart hash_point one_node 9
unfolding add_node has_node
nine-IsApart = record {
  apart = λ n k ne i b. elim k [ inl e ↦ rw e (ninth_differs i b) | inr z ↦ absurd z ];
}

one_node-IsOrdered : IsOrdered one_node.ring
unfolding program
one_node-IsOrdered = omega arith

add_node-IsAdded_example : IsAdded hash_point one_node 9 two_nodes
add_node-IsAdded_example =
    add_node-IsAdded hash_point one_node 9 one_node-IsRing nine-IsApart one_node-IsOrdered

two_nodes-IsRing : IsRing hash_point two_nodes
two_nodes-IsRing = add_node-IsRing hash_point one_node 9 one_node-IsRing nine-IsApart

get_nodes-IsAnswer_example :
    (res : List ℕ) × (get_nodes two_nodes 77 2 ≡ some res)
    × IsAnswer two_nodes.nodes (due two_nodes 2) res
get_nodes-IsAnswer_example = get_nodes-IsAnswer hash_point two_nodes 77 2 two_nodes-IsRing

nine-IsApart_there : IsApart hash_point two_nodes 9
unfolding add_node has_node
nine-IsApart_there = record {
  apart = λ n k ne i b. elim k [
    | inl e ↦ absurd (ne e)
    | inr k' ↦ elim k' [ inl e ↦ rw e (ninth_differs i b) | inr z ↦ absurd z ]
  ];
}
