-- ===== src/Disk/Space.antt =====
-- The space that the index accounts for, and what eviction frees.
use el_cache.Common.{
  ℕ, ◌+◌, ◌≡◌, ◌≤◌, ◌<◌, refl, ap, ◌∙◌, subst, Completion, returned, threw, Completion-cases, Bool,
  true, false, List, [], ◌∷◌, ltb, ◌==◌, if◌then◌else◌, ◌||◌, length, add64, add64_exact,
  sub64_exact, u64_mod, arith, Bool-cases, Option-cases, inl, inr, ◌⊎◌,
}
use mathlib.Core.Logic.{if_pos, if_neg}
use el_cache.Memory.{get_descriptor}
use el_cache.Disk.{
  FilePath, FileSystem, DiskCache, AccessEntry, insert_access, take_access, has_chunk, put_chunk,
  remove_chunk, remove_chunks, evict_entry, evict_loop, evict, remove, chunk_path, descriptor_path,
}

unfoldable pub sum_sizes : {ChunkId : Type 0} → List (AccessEntry ChunkId) → ℕ
sum_sizes [] = 0
sum_sizes (e ∷ l) = e.size + sum_sizes l

-- `current_size_` is the size of the entries in the order of access.
pub record IsCounted {Files K ChunkId : Type 0} (s : DiskCache Files K ChunkId) : Type 0 where
  pub counted : s.current_size ≡ sum_sizes s.access_order
  pub bound : s.current_size < u64_mod

module _ {ChunkId : Type 0} (dec : Discrete ChunkId) where
  sum_sizes-take_access :
      (id : ChunkId) (l : List (AccessEntry ChunkId))
      → (take_access dec id l).0 + sum_sizes (take_access dec id l).1 ≡ sum_sizes l
  unfolding sum_sizes take_access
  sum_sizes-take_access id [] = refl
  sum_sizes-take_access id (e ∷ l) =
      let rest = take_access dec id l in
      elim (dec e.id id) [
        | yes p ↦
            rw
              (if_pos {C = ℕ × List (AccessEntry ChunkId)} (dec e.id id) p (e.size, l)
                (rest.0, e ∷ rest.1))
              refl
        | no ne ↦
            rw
              (if_neg {C = ℕ × List (AccessEntry ChunkId)} (dec e.id id) ne (e.size, l)
                (rest.0, e ∷ rest.1))
              (omega (arith, sum_sizes-take_access id l))
      ]

-- No entry has the time.
unfoldable pub is_fresh : {ChunkId : Type 0} → ℕ → List (AccessEntry ChunkId) → Bool
is_fresh now [] = true
is_fresh now (e ∷ l) = if e.last_access == now then false else is_fresh now l

sum_sizes-insert_access :
    {ChunkId : Type 0} (e : AccessEntry ChunkId) (l : List (AccessEntry ChunkId))
    → is_fresh e.last_access l ≡ true
    → sum_sizes (insert_access e l) ≡ e.size + sum_sizes l
unfolding sum_sizes insert_access is_fresh
sum_sizes-insert_access e [] h = refl
sum_sizes-insert_access e (x ∷ l) h = elim (Bool-cases (ltb e.last_access x.last_access)) [
  | inl earlier ↦ rw earlier refl
  | inr later ↦ elim (Bool-cases (x.last_access == e.last_access)) [
    | inl same ↦ absurd (ground (arith, h, same))
    | inr differs ↦
        ground (arith, later, differs, sum_sizes-insert_access e l (ground (arith, h, differs)))
  ]
]

module _ {K ChunkId : Type 0} (dec_key : Discrete K) (dec : Discrete ChunkId)
    (fs : FileSystem K ChunkId) (content_id : List ℕ → ChunkId) (key_size : K → ℕ)
    (key_bytes : K → List ℕ) (id_bytes : ChunkId → List ℕ) where
  -- An eviction that returns has conserved the bytes and freed enough, or all; it throws only where the
  -- deletion of a file does.
  abbrev pub Ends : ℕ → ℕ → ℕ → DiskCache fs.Files K ChunkId → Completion ℕ → Type 0
  Ends target needed total s (returned n) =
      (n + s.current_size ≡ total)
      × ((s.access_order ≡ []) ⊎ ((s.current_size ≤ target) × (needed ≤ n)))
  Ends target needed total s threw =
      (files : fs.Files) × (path : FilePath K ChunkId) × ((fs.delete_file files path).1 ≡ threw)

  -- What an eviction of `target` and `needed` leaves, of `s` with `evicted` bytes gone already.
  pub record IsFreed (target needed : ℕ) (s : DiskCache fs.Files K ChunkId) (evicted : ℕ)
      (r : DiskCache fs.Files K ChunkId × Completion ℕ) : Type 0 where
    pub still_counted : IsCounted r.0
    pub shrunk : r.0.current_size ≤ s.current_size
    pub ended : Ends target needed (evicted + s.current_size) r.0 r.1

  remove_chunk-IsCounted :
      (s : DiskCache fs.Files K ChunkId) (id : ChunkId)
      → IsCounted s
      → IsCounted (remove_chunk dec_key dec fs content_id key_size key_bytes id_bytes s id).0
  unfolding remove_chunk
  remove_chunk-IsCounted s id h =
      let e = sum_sizes-take_access dec id s.access_order in
      let x =
        sub64_exact s.current_size (take_access dec id s.access_order).0 h.bound
          (omega (arith, h.counted, e)) in
      elim (Bool-cases (has_chunk dec id s.chunk_paths)) [
        | inl there ↦
            rw there (record {
              counted = omega (arith, x, h.counted, e);
              bound = omega (arith, x, h.bound);
            })
        | inr gone ↦ rw gone (record { counted = h.counted; bound = h.bound })
      ]

  evict_loop-IsFreed :
      (target needed : ℕ) (l : List (AccessEntry ChunkId)) (s : DiskCache fs.Files K ChunkId)
      (evicted : ℕ)
      → s.access_order ≡ l
      → IsCounted s
      → evicted + s.current_size < u64_mod
      → IsFreed target needed s evicted (
          evict_loop dec_key dec fs content_id key_size key_bytes id_bytes target needed l s
            evicted)
  unfolding evict_loop evict_entry sum_sizes
  evict_loop-IsFreed target needed [] s evicted e h b = record {
    still_counted = h;
    shrunk = omega arith;
    ended = (refl, inl e);
  }
  evict_loop-IsFreed target needed (x ∷ l) s evicted e h b =
      let s' : DiskCache fs.Files K ChunkId =
        (evict_entry dec_key dec fs content_id key_size key_bytes id_bytes s x l).0 in
      let split : s.current_size ≡ x.size + sum_sizes l = h.counted ∙ ap sum_sizes e in
      let left = sub64_exact s.current_size x.size h.bound (omega (arith, split)) in
      let gone = add64_exact evicted x.size (omega (arith, split, b)) in
      let h' : IsCounted s' = record {
        counted = omega (arith, left, split);
        bound = omega (arith, left, h.bound);
      } in
      let b' : add64 evicted x.size + s'.current_size < u64_mod =
        omega (arith, left, gone, split, b) in
      let out : DiskCache fs.Files K ChunkId × Completion ℕ =
        evict_loop dec_key dec fs content_id key_size key_bytes id_bytes target needed l s'
          (add64 evicted x.size) in
      let r = evict_loop-IsFreed target needed l s' (add64 evicted x.size) refl h' b' in
      elim (Bool-cases (ltb target s.current_size || ltb evicted needed)) [
        | inl more ↦ elim (Completion-cases (fs.delete_file s.files (chunk_path x.id)).1) [
          | inl (b, back) ↦
              let total : add64 evicted x.size + s'.current_size ≡ evicted + s.current_size =
                omega (arith, left, gone, split) in
              rw (more, back)
                (record {
                  still_counted = r.still_counted;
                  shrunk = omega (arith, r.shrunk, left, split);
                  ended = subst (λ n. Ends target needed n out.0 out.1) total r.ended;
                })
          | inr up ↦
              rw (more, up)
                (record {
                  still_counted = h';
                  shrunk = omega (arith, left, split);
                  ended = (s.files, chunk_path x.id, up);
                })
        ]
        | inr over ↦ rw over (record {
          still_counted = h;
          shrunk = omega arith;
          ended = (refl, inr (ground arith, ground arith));
        })
      ]

  -- Eviction ends, and throws only where the deletion of a file does. Where `current_size_` is the size of
  -- the entries, it stays so, also after an exception. Without one, what was evicted and what is left make
  -- up what was there, and either no entry is left, or the rest is within the target and as much as is
  -- needed is gone.
  pub evict-IsFreed :
      (target needed : ℕ) (s : DiskCache fs.Files K ChunkId)
      → IsCounted s
      → IsFreed target needed s 0
          (evict dec_key dec fs content_id key_size key_bytes id_bytes s target needed)
  unfolding evict
  evict-IsFreed target needed s h =
      evict_loop-IsFreed target needed s.access_order s 0 refl h (omega (arith, h.bound))

  remove_chunks-IsCounted :
      (ids : List ChunkId) (s : DiskCache fs.Files K ChunkId)
      → IsCounted s
      → IsCounted (remove_chunks dec_key dec fs content_id key_size key_bytes id_bytes s ids).0
  unfolding remove_chunks remove_chunk
  remove_chunks-IsCounted [] s h = h
  remove_chunks-IsCounted (id ∷ ids) s h =
      let h' = remove_chunk-IsCounted s id h in
      elim (Completion-cases (fs.delete_file s.files (chunk_path id)).1) [
        | inl (b, back) ↦ rw (remove_chunks, back) (remove_chunks-IsCounted ids _ h')
        | inr up ↦ rw (remove_chunks, up) h'
      ]

  -- Removing a value keeps `current_size_` the size of the entries.
  pub remove-IsCounted :
      (s : DiskCache fs.Files K ChunkId) (key : K)
      → IsCounted s
      → IsCounted (remove dec_key dec fs content_id key_size key_bytes id_bytes s key).0
  unfolding remove
  remove-IsCounted s key h = elim (Option-cases (get_descriptor dec_key key s.descriptors)) [
    | inl none_of ↦ rw (none_of, remove) h
    | inr (x, found) ↦
        let r = remove_chunks-IsCounted x.desc.chunks s h in
        let out =
          remove_chunks dec_key dec fs content_id key_size key_bytes id_bytes s x.desc.chunks in
        elim (Completion-cases out.1) [
          | inr up ↦ rw (found, remove, up) r
          | inl (u, back) ↦
              elim (Completion-cases (fs.delete_file out.0.files (descriptor_path key)).1) [
                | inr up ↦
                    rw (found, remove, back, up) (record { counted = r.counted; bound = r.bound })
                | inl (b, gone) ↦
                    rw (found, remove, back, gone) (record { counted = r.counted; bound = r.bound })
              ]
        ]
  ]

  -- Putting a chunk, at a time that no entry has, keeps `current_size_` the size of the entries, whether
  -- the file is written or not.
  pub put_chunk-IsCounted :
      (s : DiskCache fs.Files K ChunkId) (now : ℕ) (bytes : List ℕ)
      → IsCounted s
      → is_fresh now s.access_order ≡ true
      → s.current_size + length bytes < u64_mod
      → IsCounted (put_chunk dec_key dec fs content_id key_size key_bytes id_bytes s now bytes).0
  unfolding put_chunk
  put_chunk-IsCounted s now bytes h fresh room =
      let entry : AccessEntry ChunkId = record {
        id = content_id bytes;
        last_access = now;
        size = length bytes;
      } in
      let sum = sum_sizes-insert_access entry s.access_order fresh in
      let grown = add64_exact s.current_size (length bytes) room in
      elim (Bool-cases (fs.write_file s.files (chunk_path (content_id bytes)) bytes).1) [
        | inl written ↦ rw written (record {
          counted = omega (arith, sum, grown, h.counted);
          bound = omega (arith, grown, room);
        })
        | inr failed ↦ rw failed (record { counted = h.counted; bound = h.bound })
      ]
