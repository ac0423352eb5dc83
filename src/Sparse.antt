-- ===== src/Sparse.antt =====
-- `SparseEntry` and `SparseCache` (include/elcache/sparse_cache.hpp): values that are written range by
-- range. A key is a `std::string`; only its equality counts, so keys are any type that decides it.
use el_cache.Common.{
  ℕ, zero, suc, ◌+◌, ◌≡◌, Bool, true, false, Option, none, some, List, [], ◌∷◌, ltb, leb,
  if◌then◌else◌, add64, length, set, replicate, ite,
}
pub mod Write
pub mod History
pub mod Table
mod Tests

pub record SparseEntry : Type 0 where
  pub total_size : ℕ
  pub data_bytes : List ℕ
  pub written : List Bool
  pub finalized : Bool

unfoldable pub new_entry : ℕ → SparseEntry
new_entry size = record {
  total_size = size;
  data_bytes = replicate size 0;
  written = replicate size false;
  finalized = false;
}

-- `memcpy(data.data() + offset, buf, len)`, byte by byte.
unfoldable pub copy : List ℕ → ℕ → List ℕ → List ℕ
copy bytes offset [] = bytes
copy bytes offset (b ∷ bs) = copy (set bytes offset b) (suc offset) bs

-- The loop that marks `len` positions from `offset`.
unfoldable pub mark : List Bool → ℕ → ℕ → List Bool
mark flags offset zero = flags
mark flags offset (suc len) = mark (set flags offset true) (suc offset) len

-- `fault` is a write outside the buffers, which the source leaves undefined.
pub data Outcome {ℓ} (A : Type ℓ) : Type ℓ where
  refused : Outcome A
  done : A → Outcome A
  fault : Outcome A

unfoldable pub write_range : SparseEntry → ℕ → List ℕ → Outcome SparseEntry
unfolding copy mark add64
write_range e offset buf =
    if ltb e.total_size (add64 offset (length buf))
    then refused
    else if leb (offset + length buf) (length e.data_bytes)
    then done (record e {
      data_bytes = copy e.data_bytes offset buf;
      written = mark e.written offset (length buf);
    })
    else fault

unfoldable pub all_written : List Bool → Bool
all_written [] = true
all_written (w ∷ ws) = if w then all_written ws else false

unfoldable pub is_complete : SparseEntry → Bool
unfolding all_written
is_complete e = all_written e.written

-- `entries_`
abbrev pub SparseCache : Type 0 → Type 0
SparseCache K = List (K × SparseEntry)

-- The three return codes of `finalize`: 0, 1 and 2.
pub data Finalized : Type 0 where
  success : List ℕ → Finalized
  not_found : Finalized
  incomplete : Finalized

module _ {K : Type 0} (dec : Discrete K) where
  unfoldable pub find : K → SparseCache K → Option SparseEntry
  find key [] = none
  find key ((k, e) ∷ l) = ite (dec k key) (some e) (find key l)

  unfoldable pub erase : K → SparseCache K → SparseCache K
  erase key [] = []
  erase key ((k, e) ∷ l) = ite (dec k key) l ((k, e) ∷ erase key l)

  -- A write through the pointer that a look-up found.
  unfoldable pub replace : K → SparseEntry → SparseCache K → SparseCache K
  replace key e' [] = []
  replace key e' ((k, e) ∷ l) = ite (dec k key) ((k, e') ∷ l) ((k, e) ∷ replace key e' l)

  unfoldable pub create : SparseCache K → K → ℕ → SparseCache K × Bool
  unfolding new_entry
  create c key total_size = elim (find key c) [
    | some e ↦ (c, false)
    | none ↦ ((key, new_entry total_size) ∷ c, true)
  ]

  unfoldable pub write : SparseCache K → K → ℕ → List ℕ → Outcome (SparseCache K)
  write c key offset buf = elim (find key c) [
    | none ↦ refused
    | some e ↦ elim (write_range e offset buf) [
      | refused ↦ refused
      | done e' ↦ done (replace key e' c)
      | fault ↦ fault
    ]
  ]

  unfoldable pub finalize : SparseCache K → K → SparseCache K × Finalized
  finalize c key = elim (find key c) [
    | none ↦ (c, not_found)
    | some e ↦ if is_complete e then (erase key c, success e.data_bytes) else (c, incomplete)
  ]

  unfoldable pub entry_exists : SparseCache K → K → Bool
  entry_exists c key = elim (find key c) [ none ↦ false | some e ↦ true ]

  unfoldable pub get_total_size : SparseCache K → K → ℕ
  get_total_size c key = elim (find key c) [ none ↦ 0 | some e ↦ e.total_size ]

  unfoldable pub remove : SparseCache K → K → SparseCache K × Bool
  remove c key = (erase key c, entry_exists c key)

  pub entry_count : SparseCache K → ℕ
  entry_count c = length c
