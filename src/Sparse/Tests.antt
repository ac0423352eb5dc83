-- ===== src/Sparse/Tests.antt =====
-- Concrete sparse entries, and the theorems on them at concrete inputs.
use el_cache.Common.{
  ℕ, ◌≡◌, ◌<◌, ◌↔◌, refl, List, [], ◌∷◌, true, none, some, arith, add64, ℕ_discrete, get_or,
}
use mathlib.Core.Option
use el_cache.Sparse.{
  SparseEntry, SparseCache, incomplete, new_entry, copy, mark, write_range, all_written,
  is_complete, find, erase, replace, create, write, finalize, remove, entry_exists,
}
use el_cache.Sparse.Write.{IsSized}
use el_cache.Sparse.History.{run, expected, Agrees, run-expected, run-is_complete}

-- What the tests compute with.
program : Unit {0}
unfolding new_entry copy mark write_range all_written is_complete find erase replace create write
    finalize remove entry_exists run add64 ℕ_discrete
program = tt

abbrev writes : List (ℕ × List ℕ)
writes = (2, 7 ∷ 8 ∷ []) ∷ (0, 1 ∷ 2 ∷ 3 ∷ []) ∷ (3, 9 ∷ 9 ∷ []) ∷ []

abbrev four : SparseEntry
four = new_entry 4

runs : Option.map (λ (e : SparseEntry). e.data_bytes) (run four writes) ≡ some (1 ∷ 2 ∷ 3 ∷ 8 ∷ [])
unfolding program
runs = refl

abbrev table : SparseCache ℕ
table = (5, four) ∷ []

finalizes_early : (finalize ℕ_discrete table 5).1 ≡ incomplete
unfolding program
finalizes_early = refl

run-expected_example :
    (e : SparseEntry) × (run (new_entry 4) writes ≡ some e)
    × (e.total_size ≡ 4)
    × IsSized e
    × ((j : ℕ) → Agrees e j (expected 4 writes j none))
run-expected_example = run-expected 4 writes (omega arith) (omega arith)

run-is_complete_example :
    (e : SparseEntry) × (run (new_entry 4) writes ≡ some e)
    × ((is_complete e ≡ true)
        ↔ ((j : ℕ) → j < 4 → expected 4 writes j none ≡ some (get_or e.data_bytes j 0)))
run-is_complete_example = run-is_complete 4 writes (omega arith) (omega arith)

table-Distinct : (find ℕ_discrete 5 [] ≡ none) × Unit {0}
unfolding find
table-Distinct = (refl, tt)
