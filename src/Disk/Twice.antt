-- ===== src/Disk/Twice.antt =====
-- A chunk that is put twice.
use el_cache.Common.{
  ℕ, ◌+◌, ◌≡◌, ◌<◌, refl, ap, ◌∙◌, Bool, true, false, List, [], ◌∷◌, ltb, ◌==◌, length, add64,
  sub64, add64_exact, sub64_exact, u64_mod, arith,
}
use mathlib.Core.Logic.{if_pos}
use el_cache.Disk.{
  FileSystem, DiskCache, AccessEntry, insert_access, take_access, has_chunk, erase_path, put_chunk,
  remove_chunk, chunk_path, FilePath,
}

module _ {K ChunkId : Type 0} (dec_key : Discrete K) (dec : Discrete ChunkId)
    (fs : FileSystem K ChunkId) (content_id : List ℕ → ChunkId) (key_size : K → ℕ)
    (key_bytes : K → List ℕ) (id_bytes : ChunkId → List ℕ) where
  put_chunk_written :
      (s : DiskCache fs.Files K ChunkId) (now : ℕ) (bytes : List ℕ)
      → ((files : fs.Files) (path : FilePath K ChunkId) (b : List ℕ)
          → (fs.write_file files path b).1 ≡ true)
      → (put_chunk dec_key dec fs content_id key_size key_bytes id_bytes s now bytes).0 ≡ record s {
        files = (fs.write_file s.files (chunk_path (content_id bytes)) bytes).0;
        chunk_paths = content_id bytes ∷ erase_path dec (content_id bytes) s.chunk_paths;
        current_size = add64 s.current_size (length bytes);
        access_order =
            insert_access
              (record { id = content_id bytes; last_access = now; size = length bytes })
              s.access_order;
      }
  unfolding put_chunk
  put_chunk_written s now bytes writes =
      rw (writes s.files (chunk_path (content_id bytes)) bytes) refl

  erase_only : (id : ChunkId) → erase_path dec id (id ∷ []) ≡ []
  unfolding erase_path
  erase_only id = if_pos {C = List ChunkId} (dec id id) refl [] (id ∷ [])

  removed_first :
      (s : DiskCache fs.Files K ChunkId) (e : AccessEntry ChunkId) (l : List (AccessEntry ChunkId))
      → s.chunk_paths ≡ e.id ∷ []
      → s.access_order ≡ e ∷ l
      → let left = (remove_chunk dec_key dec fs content_id key_size key_bytes id_bytes s e.id).0 in
        (left.chunk_paths ≡ []) × (left.current_size ≡ sub64 s.current_size e.size)
  unfolding remove_chunk has_chunk take_access
  removed_first s e l paths order =
      let there : has_chunk dec e.id s.chunk_paths ≡ true =
        ap (has_chunk dec e.id) paths ∙ if_pos {C = Bool} (dec e.id e.id) refl true false in
      let taken : take_access dec e.id s.access_order ≡ (e.size, l) =
        ap (take_access dec e.id) order
        ∙ if_pos {C = ℕ × List (AccessEntry ChunkId)} (dec e.id e.id) refl (e.size, l)
            ((take_access dec e.id l).0, e ∷ (take_access dec e.id l).1) in
      rw there
        (ap (erase_path dec e.id) paths ∙ erase_only e.id, ap (λ t. sub64 s.current_size t.0) taken)

  -- Where the file system writes every file and the index is empty: a chunk that is put a second time, later,
  -- is counted twice, and removing it takes it from the index but leaves its size.
  pub remove_chunk-put_chunk :
      (s : DiskCache fs.Files K ChunkId) (now now' : ℕ) (bytes : List ℕ)
      → ((files : fs.Files) (path : FilePath K ChunkId) (b : List ℕ)
          → (fs.write_file files path b).1 ≡ true)
      → s.access_order ≡ []
      → s.chunk_paths ≡ []
      → s.current_size ≡ 0
      → now < now'
      → length bytes + length bytes < u64_mod
      → let once =
          (put_chunk dec_key dec fs content_id key_size key_bytes id_bytes s now bytes).0 in
        let twice =
          (put_chunk dec_key dec fs content_id key_size key_bytes id_bytes once now' bytes).0 in
        let left =
          (remove_chunk dec_key dec fs content_id key_size key_bytes id_bytes twice
            (content_id bytes)).0 in
        (has_chunk dec (content_id bytes) left.chunk_paths ≡ false)
        × (left.current_size ≡ length bytes)
  unfolding insert_access has_chunk erase_path
  remove_chunk-put_chunk s now now' bytes writes no_entries no_paths empty later small =
      let id : ChunkId = content_id bytes in
      let entry : ℕ → AccessEntry ChunkId =
        λ t. record { id = id; last_access = t; size = length bytes } in
      let once = (put_chunk dec_key dec fs content_id key_size key_bytes id_bytes s now bytes).0 in
      let first = put_chunk_written s now bytes writes in
      let second = put_chunk_written once now' bytes writes in
      let before : ltb now' now ≡ false = ground arith in
      let other : (now == now') ≡ false = ground arith in
      let order₁ : once.access_order ≡ entry now ∷ [] =
        ap (λ t. t.access_order) first ∙ ap (insert_access (entry now)) no_entries in
      let sorted : insert_access (entry now') (entry now ∷ []) ≡ entry now ∷ entry now' ∷ [] =
        rw (before, other) refl in
      let paths₁ : once.chunk_paths ≡ id ∷ [] =
        ap (λ t. t.chunk_paths) first ∙ ap (λ l. id ∷ erase_path dec id l) no_paths in
      let size₁ : once.current_size ≡ length bytes =
        ap (λ t. t.current_size) first
        ∙ ap (λ n. add64 n (length bytes)) empty
        ∙ add64_exact 0 (length bytes) (omega arith)
        ∙ omega arith in
      let size₂ =
        ap (λ t. t.current_size) second
        ∙ ap (λ n. add64 n (length bytes)) size₁
        ∙ add64_exact (length bytes) (length bytes) small in
      let r =
        removed_first _ (entry now) (entry now' ∷ [])
          (ap (λ t. t.chunk_paths) second
            ∙ ap (λ l. id ∷ erase_path dec id l) paths₁
            ∙ ap (λ l. id ∷ l) (erase_only id))
          (ap (λ t. t.access_order) second ∙ ap (insert_access (entry now')) order₁ ∙ sorted) in
      (
        ap (has_chunk dec id) r.0,
        r.1
            ∙ ap (λ n. sub64 n (length bytes)) size₂
            ∙ sub64_exact (length bytes + length bytes) (length bytes) small (omega arith)
            ∙ omega arith,
      )
