-- ===== src/Sparse/Write.antt =====
-- `SparseEntry::write_range` on one entry: which bytes and marks it changes, and where it faults.
use el_cache.Common.{
  ℕ, zero, suc, ◌+◌, ◌-◌, ◌≡◌, ◌≤◌, ◌<◌, ◌⊎◌, inl, inr, Bool-cases, Bool, true, false, List, [],
  ◌∷◌, refl, ltb, leb, ◌==◌, if◌then◌else◌, ◌&&◌, arith, u64_mod, length, set, get_or, length-set,
  get_or-set, get_or-set_self, length-replicate,
}
use el_cache.Sparse.{SparseEntry, new_entry, copy, mark, write_range, refused, done, fault}

-- The position lies in the range.
abbrev pub covers : ℕ → ℕ → ℕ → Bool
covers offset len j = leb offset j && ltb j (offset + len)

length-copy : (bytes : List ℕ) (o : ℕ) (buf : List ℕ) → length (copy bytes o buf) ≡ length bytes
unfolding copy
length-copy bytes o [] = refl
length-copy bytes o (b ∷ bs) =
    omega (arith, length-copy (set bytes o b) (suc o) bs, length-set bytes o b)

length-mark : (flags : List Bool) (o n : ℕ) → length (mark flags o n) ≡ length flags
unfolding mark
length-mark flags o zero = refl
length-mark flags o (suc n) =
    omega (arith, length-mark (set flags o true) (suc o) n, length-set {0} flags o true)

get_or-cons :
    (b : ℕ) (bs : List ℕ) (i : ℕ)
    → get_or (b ∷ bs) i 0 ≡ (if i == 0 then b else get_or bs (i - 1) 0)
get_or-cons b bs zero = refl
get_or-cons b bs (suc i) = ground arith

get_or-copy :
    (bytes : List ℕ) (o : ℕ) (buf : List ℕ) (j : ℕ)
    → o + length buf ≤ length bytes
    → get_or (copy bytes o buf) j 0
      ≡ (if covers o (length buf) j then get_or buf (j - o) 0 else get_or bytes j 0)
unfolding copy
get_or-copy bytes o [] j h = ground arith
get_or-copy bytes o (b ∷ bs) j h =
    let fits : suc o + length bs ≤ length (set bytes o b) =
      omega (arith, length-set {0} bytes o b) in
    ground (
      arith,
      get_or-copy (set bytes o b) (suc o) bs j fits,
      get_or-set bytes o j b 0,
      get_or-set_self bytes o b 0,
      get_or-cons b bs (j - o),
    )

get_or-mark :
    (flags : List Bool) (o n j : ℕ)
    → o + n ≤ length flags
    → get_or (mark flags o n) j false ≡ (if covers o n j then true else get_or flags j false)
unfolding mark
get_or-mark flags o zero j h = ground arith
get_or-mark flags o (suc n) j h =
    let fits : suc o + n ≤ length (set flags o true) = omega (arith, length-set {0} flags o true) in
    ground (
      arith,
      get_or-mark (set flags o true) (suc o) n j fits,
      get_or-set flags o j true false,
      get_or-set_self flags o true false,
    )

-- The buffers of an entry have its size, and that is a `uint64_t`.
pub record IsSized (e : SparseEntry) : Type 0 where
  pub data_length : length e.data_bytes ≡ e.total_size
  pub written_length : length e.written ≡ e.total_size
  pub in_range : e.total_size < u64_mod

pub new_entry-IsSized : (size : ℕ) → size < u64_mod → IsSized (new_entry size)
unfolding new_entry
new_entry-IsSized size h = record {
  data_length = length-replicate size 0;
  written_length = length-replicate size false;
  in_range = h;
}

-- What an accepted write does: it stores the buffer at the offset, marks these positions, and keeps
-- every other byte and mark.
pub record Writes (e : SparseEntry) (offset : ℕ) (buf : List ℕ) (e' : SparseEntry) : Type 0 where
  pub sized : IsSized e'
  pub same_size : e'.total_size ≡ e.total_size
  pub bytes :
      (j : ℕ)
      → get_or e'.data_bytes j 0 ≡ (
          if covers offset (length buf) j
          then get_or buf (j - offset) 0
          else get_or e.data_bytes j 0)
  pub marks :
      (j : ℕ)
      → get_or e'.written j false
        ≡ (if covers offset (length buf) j then true else get_or e.written j false)

-- On an entry with buffers of its size, a write whose end fits in 64 bits is refused exactly when the
-- end lies beyond the size; otherwise it stores the buffer at the offset, marks these positions, and
-- keeps every other byte and mark.
pub write_range-Writes :
    (e : SparseEntry) (offset : ℕ) (buf : List ℕ)
    → IsSized e
    → offset + length buf < u64_mod
    → ((e.total_size < offset + length buf) × (write_range e offset buf ≡ refused))
      ⊎ ((offset + length buf ≤ e.total_size)
          × ((e' : SparseEntry) × (write_range e offset buf ≡ done e') × Writes e offset buf e'))
unfolding write_range
write_range-Writes e offset buf v h = elim (Bool-cases (ltb e.total_size (offset + length buf))) [
  | inl beyond ↦ inl (ground arith, ground arith)
  | inr within ↦
      let fits : offset + length buf ≤ e.total_size = ground arith in
      let e' : SparseEntry = record e {
        data_bytes = copy e.data_bytes offset buf;
        written = mark e.written offset (length buf);
      } in
      inr (
        fits,
        (
          e',
          ground arith,
          record {
            sized = record {
              data_length = omega (arith, length-copy e.data_bytes offset buf);
              written_length = omega (arith, length-mark e.written offset (length buf));
              in_range = v.in_range;
            };
            same_size = refl;
            bytes = λ j. get_or-copy e.data_bytes offset buf j (omega arith);
            marks = λ j. get_or-mark e.written offset (length buf) j (omega arith);
          },
        ),
      )
]

-- A write whose end wraps around 2 ^ 64 to at most the size passes the test and faults.
pub write_range_wraps :
    (e : SparseEntry) (offset : ℕ) (buf : List ℕ)
    → IsSized e
    → offset < u64_mod
    → length buf < u64_mod
    → u64_mod ≤ offset + length buf
    → offset + length buf ≤ u64_mod + e.total_size
    → write_range e offset buf ≡ fault
unfolding write_range
write_range_wraps e offset buf v ho hb wraps small = ground arith
