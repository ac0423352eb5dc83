-- ===== src/Disk/Tests.antt =====
-- Examples for the disk cache, over a list of files.
use el_cache.Common.{
  ℕ, ◌+◌, ◌*◌, refl, true, returned, List, [], ◌∷◌, ◌==◌, if◌then◌else◌, arith, ℕ_discrete,
}
use el_cache.Disk.{FilePath, chunk_path, descriptor_path, FileSystem, DiskCache, put_chunk, evict}
use el_cache.Disk.Space.{
  sum_sizes, is_fresh, IsCounted, IsFreed, evict-IsFreed, put_chunk-IsCounted,
}

abbrev number_of : FilePath ℕ ℕ → ℕ
number_of (chunk_path id) = 2 * id
number_of (descriptor_path key) = 2 * key + 1

abbrev file_bytes : ℕ → List (ℕ × List ℕ) → List ℕ
file_bytes n [] = []
file_bytes n ((m, bytes) ∷ l) = if m == n then bytes else file_bytes n l

abbrev other_files : ℕ → List (ℕ × List ℕ) → List (ℕ × List ℕ)
other_files n [] = []
other_files n ((m, bytes) ∷ l) = if m == n then other_files n l else (m, bytes) ∷ other_files n l

abbrev file_list : FileSystem ℕ ℕ
file_list = record {
  Files = List (ℕ × List ℕ);
  read_file = λ files path. file_bytes (number_of path) files;
  write_file = λ files path bytes. ((number_of path, bytes) ∷ files, true);
  delete_file = λ files path. (other_files (number_of path) files, returned true);
}

abbrev sum : List ℕ → ℕ
sum [] = 0
sum (b ∷ bs) = b + sum bs

abbrev cache : List ℕ → ℕ → DiskCache (List (ℕ × List ℕ)) ℕ ℕ
cache ids size = record {
  files = [];
  descriptors = [];
  chunk_paths = ids;
  access_order = [];
  hits = 0;
  misses = 0;
  bytes_read = 0;
  bytes_written = 0;
  evictions = 0;
  current_size = size;
}

-- Two entries of 10 and 20 bytes.
abbrev two_entries : DiskCache (List (ℕ × List ℕ)) ℕ ℕ
two_entries = record (cache (1 ∷ 2 ∷ []) 30) {
  access_order =
      record { id = 1; last_access = 5; size = 10 }
      ∷ record { id = 2; last_access = 6; size = 20 }
      ∷ [];
}

two_entries-IsCounted : IsCounted two_entries
unfolding sum_sizes
two_entries-IsCounted = record { counted = refl; bound = omega arith }

no_bytes : ℕ → List ℕ
no_bytes n = []

evict-IsFreed_example :
    IsFreed ℕ_discrete ℕ_discrete file_list sum
      (λ k. 3)
      no_bytes
      no_bytes
      25
      5
      two_entries
      0
      (evict ℕ_discrete ℕ_discrete file_list sum (λ k. 3) no_bytes no_bytes two_entries 25 5)
evict-IsFreed_example =
    evict-IsFreed ℕ_discrete ℕ_discrete file_list sum (λ k. 3) no_bytes no_bytes 25 5 two_entries
      two_entries-IsCounted

put_chunk-IsCounted_example :
    IsCounted
      (put_chunk ℕ_discrete ℕ_discrete file_list sum
        (λ k. 3)
        no_bytes
        no_bytes
        two_entries
        7
        (4 ∷ 5 ∷ [])).0
unfolding is_fresh
put_chunk-IsCounted_example =
    put_chunk-IsCounted ℕ_discrete ℕ_discrete file_list sum (λ k. 3) no_bytes no_bytes two_entries 7
      (4 ∷ 5 ∷ []) two_entries-IsCounted refl (omega arith)
