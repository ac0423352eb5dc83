-- ===== src/Ring/Walk.antt =====
-- The walk of `get_nodes` along the ring.
use el_cache.Common.{
  ℕ, suc, ◌+◌, ◌≡◌, inl, inr, refl, sym, subst, ◌≤◌, ◌<◌, true, false, some, List, [], ◌∷◌, ltb,
  leb, ◌==◌, length, length-append, arith, Bool-cases, Listed, Listed-append_left,
  Listed-append_right, Listed-append_cases, Nodup, Nodup-append_one,
}
use el_cache.Ring.{has_node, visit, at_begin, walk}

pub Listed-has_node : (l : List ℕ) (id : ℕ) → has_node l id ≡ true → Listed id l
unfolding has_node
Listed-has_node [] id h = absurd (ground arith)
Listed-has_node (n ∷ l) id h = elim (Bool-cases (n == id)) [
  | inl e ↦ inl (ground arith)
  | inr ne ↦ inr (Listed-has_node l id (ground arith))
]

pub has_node-not_Listed : (l : List ℕ) (id : ℕ) → has_node l id ≡ false → ¬ (Listed id l)
unfolding has_node
has_node-not_Listed [] id h k = k
has_node-not_Listed (n ∷ l) id h (inl e) = ground arith
has_node-not_Listed (n ∷ l) id h (inr k) = has_node-not_Listed l id (ground arith) k

-- The nodes of the points.
abbrev pub owners : List (ℕ × ℕ) → List ℕ
owners [] = []
owners ((p, n) ∷ l) = n ∷ owners l

-- What holds of `seen` and `result` between two rounds.
pub record Walked (nodes : List ℕ) (count : ℕ) (seen result : List ℕ) : Type 0 where
  pub distinct : Nodup result
  pub same_length : length seen ≡ length result
  pub shown : (x : ℕ) → Listed x result → Listed x seen
  pub taken : (x : ℕ) → Listed x seen → Listed x result
  pub known : (x : ℕ) → Listed x result → Listed x nodes
  pub bounded : length result ≤ count

visit-Walked :
    (nodes : List ℕ) (count id : ℕ) (seen result : List ℕ)
    → Walked nodes count seen result
    → Listed id nodes
    → length result < count
    → Walked nodes count (visit id seen result).0 (visit id seen result).1
unfolding visit
visit-Walked nodes count id seen result w k more = elim (Bool-cases (has_node seen id)) [
  | inl old ↦ rw (old, visit) w
  | inr new ↦
      rw (new, visit)
        (record {
          distinct =
              Nodup-append_one result id w.distinct
                (λ h. has_node-not_Listed seen id new (w.shown id h));
          same_length = omega (arith, length-append result (id ∷ []), w.same_length);
          shown = λ x h. elim (Listed-append_cases x result (id ∷ []) h) [
            | inl a ↦ inr (w.shown x a)
            | inr b ↦ elim b [ inl e ↦ inl e | inr z ↦ absurd z ]
          ];
          taken = λ x h. elim h [
            | inl e ↦ Listed-append_right x result (id ∷ []) (inl e)
            | inr a ↦ Listed-append_left x result (id ∷ []) (w.taken x a)
          ];
          known = λ x h. elim (Listed-append_cases x result (id ∷ []) h) [
            | inl a ↦ w.known x a
            | inr b ↦ elim b [ inl e ↦ subst (λ y. Listed y nodes) (sym e) k | inr z ↦ absurd z ]
          ];
          bounded = omega (arith, length-append result (id ∷ []));
        })
]

visit-grows :
    (id : ℕ) (seen result : List ℕ) → (x : ℕ) → Listed x seen → Listed x (visit id seen result).0
unfolding visit
visit-grows id seen result x h = elim (Bool-cases (has_node seen id)) [
  | inl old ↦ rw (old, visit) h
  | inr new ↦ rw (new, visit) (inr h)
]

visit-takes : (id : ℕ) (seen result : List ℕ) → Listed id (visit id seen result).0
unfolding visit
visit-takes id seen result = elim (Bool-cases (has_node seen id)) [
  | inl old ↦ rw (old, visit) (Listed-has_node seen id old)
  | inr new ↦ rw (new, visit) (inl refl)
]

-- The answer of a walk: `count` nodes, all different.
pub record IsAnswer (nodes : List ℕ) (count : ℕ) (r : List ℕ) : Type 0 where
  pub distinct : Nodup r
  pub known : (x : ℕ) → Listed x r → Listed x nodes
  pub exact : length r ≡ count

-- A walk along a part of the ring has found its answer, or goes on with all nodes of the part seen.
pub data Segment (nodes : List ℕ) (count m : ℕ) (ring xs : List (ℕ × ℕ)) (seen result : List ℕ)
    : Type 0 where
  answered :
      (r : List ℕ)
      → walk (length xs + m) (length nodes) count ring xs seen result ≡ some r
      → IsAnswer nodes count r
      → Segment nodes count m ring xs seen result
  passed :
      (seen' result' : List ℕ)
      → walk (length xs + m) (length nodes) count ring xs seen result
        ≡ walk m (length nodes) count ring [] seen' result'
      → Walked nodes count seen' result'
      → length seen' < length nodes
      → ((x : ℕ) → Listed x seen → Listed x seen')
      → ((x : ℕ) → Listed x (owners xs) → Listed x seen')
      → Segment nodes count m ring xs seen result

module _ (nodes : List ℕ) (count m : ℕ) (ring : List (ℕ × ℕ)) where
  -- A round that goes on, and the two that end the walk.
  round_next :
      (f p id : ℕ) (xs : List (ℕ × ℕ)) (seen result : List ℕ)
      → length result < count
      → length (visit id seen result).0 < length nodes
      → walk (suc f) (length nodes) count ring ((p, id) ∷ xs) seen result
        ≡ walk f (length nodes) count ring xs (visit id seen result).0 (visit id seen result).1
  unfolding walk at_begin
  round_next f p id xs seen result more room =
      let a : ltb (length result) count ≡ true = ground arith in
      let b : leb (length nodes) (length (visit id seen result).0) ≡ false = ground arith in
      rw (a, walk, b) refl

  round_full :
      (f p id : ℕ) (xs : List (ℕ × ℕ)) (seen result : List ℕ)
      → length result < count
      → length nodes ≤ length (visit id seen result).0
      → walk (suc f) (length nodes) count ring ((p, id) ∷ xs) seen result
        ≡ some (visit id seen result).1
  unfolding walk at_begin
  round_full f p id xs seen result more full =
      let a : ltb (length result) count ≡ true = ground arith in
      let b : leb (length nodes) (length (visit id seen result).0) ≡ true = ground arith in
      rw (a, walk, b) refl

  round_enough :
      (f p id : ℕ) (xs : List (ℕ × ℕ)) (seen result : List ℕ)
      → count ≤ length result
      → walk (suc f) (length nodes) count ring ((p, id) ∷ xs) seen result ≡ some result
  unfolding walk at_begin
  round_enough f p id xs seen result enough =
      let a : ltb (length result) count ≡ false = ground arith in rw (a, walk) refl

  enough-IsAnswer :
      (seen result : List ℕ)
      → Walked nodes count seen result
      → count ≤ length result
      → IsAnswer nodes count result
  enough-IsAnswer seen result w h = record {
    distinct = w.distinct;
    known = w.known;
    exact = omega (arith, w.bounded);
  }

  Segment-step :
      (p id : ℕ) (xs : List (ℕ × ℕ)) (seen result : List ℕ)
      → length result < count
      → length (visit id seen result).0 < length nodes
      → Segment nodes count m ring xs (visit id seen result).0 (visit id seen result).1
      → Segment nodes count m ring ((p, id) ∷ xs) seen result
  Segment-step p id xs seen result more room s =
      let e : suc (length xs) + m ≡ suc (length xs + m) = omega arith in
      let go = round_next (length xs + m) p id xs seen result more room in
      elim s [
        | answered r runs a ↦ answered r (rw (e, go) runs) a
        | passed seen' result' runs w left grows takes ↦
            passed seen' result' (rw (e, go) runs) w left
              (λ x h. grows x (visit-grows id seen result x h))
              (λ x h. elim h [
                | inl e' ↦
                    subst (λ y. Listed y seen') (sym e') (grows id (visit-takes id seen result))
                | inr k ↦ takes x k
              ])
      ]

  pub walk-Segment :
      (xs : List (ℕ × ℕ)) (seen result : List ℕ)
      → ((x : ℕ) → Listed x (owners xs) → Listed x nodes)
      → count ≤ length nodes
      → Walked nodes count seen result
      → length seen < length nodes
      → Segment nodes count m ring xs seen result
  walk-Segment [] seen result own le w room =
      let e : 0 + m ≡ m = omega arith in
      passed seen result (rw e refl) w room (λ x h. h) (λ x h. absurd h)
  walk-Segment ((p, id) ∷ xs) seen result own le w room =
      let f : ℕ = length xs + m in
      let e : suc (length xs) + m ≡ suc f = omega arith in
      elim (Bool-cases (ltb (length result) count)) [
        | inr enough ↦
            answered result (rw (e, round_enough f p id xs seen result (ground arith)) refl)
              (enough-IsAnswer seen result w (ground arith))
        | inl more ↦
            let w' = visit-Walked nodes count id seen result w (own id (inl refl)) (ground arith) in
            elim (Bool-cases (ltb (length (visit id seen result).0) (length nodes))) [
              | inr full ↦
                  answered (visit id seen result).1
                    (rw (e, round_full f p id xs seen result (ground arith) (ground arith)) refl)
                    (enough-IsAnswer (visit id seen result).0 (visit id seen result).1 w'
                      (ground (arith, full, w'.same_length)))
              | inl free ↦ Segment-step p id xs seen result (ground arith) (ground arith) (
                  walk-Segment xs (visit id seen result).0 (visit id seen result).1
                    (λ x h. own x (inr h)) le w' (ground arith))
            ]
      ]
