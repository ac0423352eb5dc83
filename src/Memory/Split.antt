-- ===== src/Memory/Split.antt =====
-- `MemoryCache::split_value`: the chunks of a value.
use el_cache.Common.{
  take-min_length, drop_all, ℕ, zero, suc, ◌+◌, ◌-◌, ◌*◌, ◌≡◌, ◌≤◌, ◌<◌, refl, subst, true, false,
  Option, none, some, List, [], ◌∷◌, ◌++◌, arith, Bool-cases, inl, inr, ltb, if◌then◌else◌, length,
  length-drop, take, drop, get_elem?, min, drop-drop, take-append-drop,
}
use el_cache.Range.{chunk_size}
use el_cache.Memory.{split_loop, split_value}

-- Chunk `k` of a value: its bytes from `k * chunk_size`, `chunk_size` of them or those that are left.
unfoldable pub chunk_at : ℕ → List ℕ → List ℕ
chunk_at k value = take chunk_size (drop (k * chunk_size) value)

-- Chunks one after another.
abbrev pub joined : List (List ℕ) → List ℕ
joined [] = []
joined (bytes ∷ chunks) = bytes ++ joined chunks

-- A round of the loop that takes a chunk, and the end of the loop.
split_loop_more :
    (fuel offset : ℕ) (value : List ℕ)
    → offset < length value
    → split_loop (suc fuel) offset value
      ≡ take (min chunk_size (length value - offset)) (drop offset value)
        ∷ split_loop fuel (offset + min chunk_size (length value - offset)) value
unfolding split_loop
split_loop_more fuel offset value h =
    let more : ltb offset (length value) ≡ true = ground arith in rw (more, split_loop) refl

split_loop_end :
    (fuel offset : ℕ) (value : List ℕ) → length value ≤ offset → split_loop fuel offset value ≡ []
unfolding split_loop
split_loop_end zero offset value h = refl
split_loop_end (suc fuel) offset value h =
    let over : ltb offset (length value) ≡ false = ground arith in rw (over, split_loop) refl

joined-split_loop :
    (fuel offset : ℕ) (value : List ℕ)
    → length value - offset ≤ fuel
    → joined (split_loop fuel offset value) ≡ drop offset value
joined-split_loop zero offset value h =
    rw (split_loop_end zero offset value (omega arith), drop_all offset value (omega arith)) refl
joined-split_loop (suc fuel) offset value h = elim (Bool-cases (ltb offset (length value))) [
  | inl more ↦
      let n : ℕ = min chunk_size (length value - offset) in
      rw
        (
          split_loop_more fuel offset value (ground arith),
          joined-split_loop fuel (offset + n) value (ground arith),
          ← drop-drop offset n value,
        )
        (take-append-drop n (drop offset value))
  | inr over ↦
      rw
        (
          split_loop_end (suc fuel) offset value (ground arith),
          drop_all offset value (ground arith),
        )
        refl
]

-- The chunks of a value, one after another, are the value.
pub joined-split_value : (value : List ℕ) → joined (split_value value) ≡ value
unfolding split_value
joined-split_value value = joined-split_loop (length value) 0 value (omega arith)

abbrev chunk_or_none : ℕ → List ℕ → Option (List ℕ)
chunk_or_none k value =
    if ltb (k * chunk_size) (length value) then some (chunk_at k value) else none

chunk_or_none_end :
    (k : ℕ) (value : List ℕ) → length value ≤ k * chunk_size → chunk_or_none k value ≡ none
chunk_or_none_end k value h =
    let over : ltb (k * chunk_size) (length value) ≡ false = ground arith in rw over refl

first_chunk :
    (k : ℕ) (value : List ℕ)
    → take (min chunk_size (length value - k * chunk_size)) (drop (k * chunk_size) value)
      ≡ chunk_at k value
unfolding chunk_at
first_chunk k value =
    rw (← length-drop (k * chunk_size) value)
      (take-min_length chunk_size (drop (k * chunk_size) value))

chunk_or_none-some :
    (k : ℕ) (value : List ℕ)
    → k * chunk_size < length value
    → chunk_or_none k value ≡ some (chunk_at k value)
chunk_or_none-some k value h =
    let more : ltb (k * chunk_size) (length value) ≡ true = ground arith in rw more refl

-- The chunks of a round, given those of the rest from the next chunk on.
round_chunks :
    (j fuel k : ℕ) (value : List ℕ)
    → k * chunk_size < length value
    → ((i : ℕ)
        → get_elem? (split_loop fuel (suc k * chunk_size) value) i
          ≡ chunk_or_none (suc k + i) value)
    → get_elem?
        (take (min chunk_size (length value - k * chunk_size)) (drop (k * chunk_size) value)
          ∷ split_loop fuel (k * chunk_size + min chunk_size (length value - k * chunk_size)) value)
        j
      ≡ chunk_or_none (k + j) value
round_chunks zero fuel k value h rest =
    let e : k + 0 ≡ k = omega arith in
    rw (e, chunk_or_none-some k value h, first_chunk k value) refl
round_chunks (suc j) fuel k value h rest =
    elim (Bool-cases (ltb (suc k * chunk_size) (length value))) [
      | inl more ↦
          let e : k * chunk_size + min chunk_size (length value - k * chunk_size)
              ≡ suc k * chunk_size =
            ground arith in
          let e' : k + suc j ≡ suc k + j = omega arith in rw (e, e', rest j) refl
      | inr over ↦
          rw
            (
              split_loop_end fuel (k * chunk_size + min chunk_size (length value - k * chunk_size))
                  value (ground arith),
              chunk_or_none_end (k + suc j) value (ground arith),
            )
            refl
    ]

get_elem?-split_loop :
    (fuel k : ℕ) (value : List ℕ)
    → length value - k * chunk_size ≤ fuel
    → (j : ℕ) → get_elem? (split_loop fuel (k * chunk_size) value) j ≡ chunk_or_none (k + j) value
get_elem?-split_loop zero k value h j =
    rw
      (
        split_loop_end zero (k * chunk_size) value (omega arith),
        chunk_or_none_end (k + j) value (omega arith),
      )
      refl
get_elem?-split_loop (suc fuel) k value h j =
    elim (Bool-cases (ltb (k * chunk_size) (length value))) [
      | inr over ↦
          rw
            (
              split_loop_end (suc fuel) (k * chunk_size) value (ground arith),
              chunk_or_none_end (k + j) value (ground arith),
            )
            refl
      | inl more ↦ rw (split_loop_more fuel (k * chunk_size) value (ground arith)) (
          round_chunks j fuel k value (ground arith)
            (get_elem?-split_loop fuel (suc k) value (ground arith)))
    ]

-- Chunk `k` of a value has its bytes from `k * chunk_size`, and there is one exactly where the value
-- is longer than that.
pub get_elem?-split_value :
    (value : List ℕ) (k : ℕ)
    → get_elem? (split_value value) k
      ≡ (if ltb (k * chunk_size) (length value) then some (chunk_at k value) else none)
unfolding split_value
get_elem?-split_value value k =
    let e : 0 * chunk_size ≡ 0 = omega arith in
    let e' : 0 + k ≡ k = omega arith in
    subst (λ x. get_elem? (split_loop (length value) 0 value) k ≡ chunk_or_none x value) e'
      (subst (λ x. get_elem? (split_loop (length value) x value) k ≡ chunk_or_none (0 + k) value) e
        (get_elem?-split_loop (length value) 0 value (omega arith) k))
