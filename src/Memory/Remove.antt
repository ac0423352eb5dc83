-- ===== src/Memory/Remove.antt =====
-- `MemoryCache::remove`: what it takes away, and what it leaves.
use el_cache.Common.{
  ℕ, ◌≡◌, ◌≢◌, refl, Bool, true, false, Option, none, some, List, [], ◌∷◌, arith, if◌then◌else◌,
  ite, Option-cases, inl, inr, ◌⊎◌,
}
use mathlib.Core.Logic.{if_pos, if_neg}
use el_cache.Arc.{Doubles, Cache}
use el_cache.Arc
use el_cache.Arc.Invariant.{IsValid, remove-IsValid}
use el_cache.Arc.Reads.{lookup, remove-lookup}
use el_cache.Memory.{
  remove_chunks, remove_descriptor, get_descriptor, MemoryCache, Stored, ok, not_found, remove,
}

module _ {K : Type 0} (dec_key : Discrete K) {ChunkId : Type 0} where
  pub get_descriptor-remove_descriptor_self :
      (key : K) (l : List (K × Stored ChunkId))
      → get_descriptor dec_key key (remove_descriptor dec_key key l) ≡ none
  unfolding get_descriptor remove_descriptor
  get_descriptor-remove_descriptor_self key [] = refl
  get_descriptor-remove_descriptor_self key ((k, x) ∷ l) =
      ground (arith, get_descriptor-remove_descriptor_self key l)

  get_descriptor-remove_descriptor_ne :
      (key q : K) (l : List (K × Stored ChunkId))
      → q ≢ key
      → get_descriptor dec_key q (remove_descriptor dec_key key l) ≡ get_descriptor dec_key q l
  unfolding get_descriptor remove_descriptor
  get_descriptor-remove_descriptor_ne key q [] ne = refl
  get_descriptor-remove_descriptor_ne key q ((k, x) ∷ l) ne =
      ground (arith, get_descriptor-remove_descriptor_ne key q l)

module _ {ChunkId : Type 0} (d : Doubles) (dec : Discrete ChunkId)
    (content_id : List ℕ → ChunkId) where
  none_anyway : {A : Type 0} (b : Bool) (z : Option A) → z ≡ none → (if b then none else z) ≡ none
  none_anyway true z h = refl
  none_anyway false z h = h

  -- An identifier is one of the list.
  unfoldable pub is_member : ChunkId → List ChunkId → Bool
  is_member q [] = false
  is_member q (id ∷ ids) = ite (dec q id) true (is_member q ids)

  remove_chunks-IsValid :
      (ids : List ChunkId) (c : Cache ChunkId (List ℕ) d.Double)
      → IsValid d dec c
      → IsValid d dec (remove_chunks d dec content_id c ids)
  unfolding remove_chunks
  remove_chunks-IsValid [] c v = v
  remove_chunks-IsValid (id ∷ ids) c v =
      remove_chunks-IsValid ids (Arc.remove d dec c id).0 (remove-IsValid d dec c id v)

  remove_chunks-lookup :
      (ids : List ChunkId) (c : Cache ChunkId (List ℕ) d.Double)
      → IsValid d dec c
      → (q : ChunkId)
      → lookup dec q (remove_chunks d dec content_id c ids)
        ≡ (if is_member q ids then none else lookup dec q c)
  unfolding remove_chunks is_member
  remove_chunks-lookup [] c v q = refl
  remove_chunks-lookup (id ∷ ids) c v q =
      let step =
        remove_chunks-lookup ids (Arc.remove d dec c id).0 (remove-IsValid d dec c id v) q in
      let one = remove-lookup d dec c id v in
      elim (dec q id) [
        | yes p ↦
            let gone : lookup dec q (Arc.remove d dec c id).0 ≡ none = rw p one.0 in
            rw (if_pos (dec q id) p, step) (none_anyway (is_member q ids) _ gone)
        | no ne ↦ rw (if_neg (dec q id) ne, step, one.2 q ne) refl
      ]

module _ {K ChunkId : Type 0} (dec_key : Discrete K) (d : Doubles) (dec : Discrete ChunkId)
    (content_id : List ℕ → ChunkId) (key_size : K → ℕ) where
  -- What `remove` leaves of a key with a descriptor: no descriptor, and none of its chunks.
  pub record Removes (s s' : MemoryCache K ChunkId d.Double) (key : K) (ids : List ChunkId)
      : Type 0 where
    pub valid : IsValid d dec s'.chunk_cache
    pub gone : get_descriptor dec_key key s'.descriptors ≡ none
    pub others :
        (q : K)
        → q ≢ key
        → get_descriptor dec_key q s'.descriptors ≡ get_descriptor dec_key q s.descriptors
    pub chunks :
        (q : ChunkId)
        → lookup dec q s'.chunk_cache
          ≡ (if is_member d dec content_id q ids then none else lookup dec q s.chunk_cache)

  -- On a valid cache: `remove` reports a key without a descriptor and changes nothing. Otherwise it takes
  -- away the descriptor of the key alone, and every chunk whose identifier the descriptor lists, whatever
  -- other descriptors list it too; it keeps all other chunks.
  pub remove-Removes :
      (s : MemoryCache K ChunkId d.Double) (key : K)
      → IsValid d dec s.chunk_cache
      → ((get_descriptor dec_key key s.descriptors ≡ none)
          × (remove dec_key d dec content_id key_size s key ≡ (s, not_found)))
        ⊎ ((x : Stored ChunkId) × (get_descriptor dec_key key s.descriptors ≡ some x)
            × ((remove dec_key d dec content_id key_size s key).1 ≡ ok)
            × Removes s (remove dec_key d dec content_id key_size s key).0 key x.desc.chunks)
  unfolding remove
  remove-Removes s key v = elim (Option-cases (get_descriptor dec_key key s.descriptors)) [
    | inl e ↦ inl (e, rw (e, remove) refl)
    | inr (x, e) ↦
        rw (e, remove)
          (inr (
            x,
            refl,
            refl,
            record {
              valid = remove_chunks-IsValid d dec content_id x.desc.chunks s.chunk_cache v;
              gone = get_descriptor-remove_descriptor_self dec_key key s.descriptors;
              others = λ q ne. get_descriptor-remove_descriptor_ne dec_key key q s.descriptors ne;
              chunks = remove_chunks-lookup d dec content_id x.desc.chunks s.chunk_cache v;
            },
          ))
  ]
