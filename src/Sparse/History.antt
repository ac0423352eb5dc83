-- ===== src/Sparse/History.antt =====
-- A whole history of writes to one `SparseEntry`: each position holds the byte of the last accepted
-- write that covers it.
use el_cache.Common.{
  ℕ, zero, suc, ◌+◌, ◌-◌, ◌≡◌, ◌≤◌, ◌<◌, ◌↔◌, Bool, true, false, List, [], ◌∷◌, refl, ◌∙◌, leb,
  if◌then◌else◌, ◌&&◌, arith, Bool-cases, inl, inr, u64_mod, length, get_or, All, Option, none,
  some,
}
use el_cache.Sparse.{
  SparseEntry, new_entry, write_range, refused, done, fault, is_complete, all_written,
}
use el_cache.Sparse.Write.{covers, IsSized, Writes, write_range-Writes, new_entry-IsSized}

-- The writes in their order, with their offsets; a refused one changes nothing, and `none` is a fault.
unfoldable pub run : SparseEntry → List (ℕ × List ℕ) → Option SparseEntry
run e [] = some e
run e ((offset, buf) ∷ ws) = elim (write_range e offset buf) [
  | refused ↦ run e ws
  | done e' ↦ run e' ws
  | fault ↦ none
]

-- The byte of the last write that lies within the size and covers the position.
abbrev pub expected : ℕ → List (ℕ × List ℕ) → ℕ → Option ℕ → Option ℕ
expected size [] j held = held
expected size ((offset, buf) ∷ ws) j held = expected size ws j (
    if leb (offset + length buf) size && covers offset (length buf) j
    then some (get_or buf (j - offset) 0)
    else held)

abbrev pub Ends : ℕ × List ℕ → Type 0
Ends w = w.0 + length w.1 < u64_mod

-- A position of the entry agrees with what is expected there.
abbrev pub Agrees : SparseEntry → ℕ → Option ℕ → Type 0
Agrees e j none = get_or e.written j false ≡ false
Agrees e j (some b) = (get_or e.written j false ≡ true) × (get_or e.data_bytes j 0 ≡ b)

keep-Agrees :
    (e e' : SparseEntry) (offset : ℕ) (buf : List ℕ) (j : ℕ) (held : Option ℕ)
    → Writes e offset buf e'
    → covers offset (length buf) j ≡ false
    → Agrees e j held
    → Agrees e' j held
keep-Agrees e e' offset buf j none w miss a = ground (arith, miss, w.marks j)
keep-Agrees e e' offset buf j (some b) w miss a = ground (arith, miss, w.bytes j, w.marks j)

-- What is expected after a write.
abbrev after_write : ℕ → ℕ → List ℕ → ℕ → Option ℕ → Option ℕ
after_write size offset buf j held =
    if leb (offset + length buf) size && covers offset (length buf) j
    then some (get_or buf (j - offset) 0)
    else held

step-Agrees :
    (e e' : SparseEntry) (size offset : ℕ) (buf : List ℕ) (j : ℕ) (held : Option ℕ)
    → offset + length buf ≤ size
    → Writes e offset buf e'
    → Agrees e j held
    → Agrees e' j (after_write size offset buf j held)
step-Agrees e e' size offset buf j held fits w a =
    let within : leb (offset + length buf) size ≡ true = ground arith in
    elim (Bool-cases (covers offset (length buf) j)) [
      | inl hit ↦ rw (within, hit) (ground (arith, hit, w.marks j), ground (arith, hit, w.bytes j))
      | inr miss ↦ rw (within, miss) (keep-Agrees e e' offset buf j held w miss a)
    ]

refused-Agrees :
    (e : SparseEntry) (size offset : ℕ) (buf : List ℕ) (j : ℕ) (held : Option ℕ)
    → size < offset + length buf
    → Agrees e j held
    → Agrees e j (after_write size offset buf j held)
refused-Agrees e size offset buf j held beyond a =
    let outside : leb (offset + length buf) size ≡ false = ground arith in rw outside a

run-Agrees :
    (ws : List (ℕ × List ℕ)) (e : SparseEntry) (size : ℕ) (held : ℕ → Option ℕ)
    → e.total_size ≡ size
    → IsSized e
    → All Ends ws
    → ((j : ℕ) → Agrees e j (held j))
    → (e' : SparseEntry) × (run e ws ≡ some e')
      × (e'.total_size ≡ size)
      × IsSized e'
      × ((j : ℕ) → Agrees e' j (expected size ws j (held j)))
unfolding run
run-Agrees [] e size held same v ends a = (e, refl, same, v, a)
run-Agrees ((offset, buf) ∷ ws) e size held same v ends a =
    elim (write_range-Writes e offset buf v ends.0) [
      | inl (beyond, stays) ↦
          rw (stays, run)
            (run-Agrees ws e size (λ j. after_write size offset buf j (held j)) same v ends.1
              (λ j. refused-Agrees e size offset buf j (held j) (omega arith) (a j)))
      | inr (fits, (e', runs, w)) ↦
          rw (runs, run)
            (run-Agrees ws e' size (λ j. after_write size offset buf j (held j))
              (w.same_size ∙ same) w.sized ends.1
              (λ j. step-Agrees e e' size offset buf j (held j) (omega arith) w (a j)))
    ]

new_entry-Agrees : (size j : ℕ) → Agrees (new_entry size) j none
unfolding new_entry
new_entry-Agrees zero j = refl
new_entry-Agrees (suc size) zero = refl
new_entry-Agrees (suc size) (suc j) = new_entry-Agrees size j

-- For writes whose ends fit in 64 bits: none of them faults, and afterwards a position is marked exactly when
-- a write within the size covered it; then it holds the byte of the last such write.
pub run-expected :
    (size : ℕ) (ws : List (ℕ × List ℕ))
    → size < u64_mod
    → All Ends ws
    → (e : SparseEntry) × (run (new_entry size) ws ≡ some e)
      × (e.total_size ≡ size)
      × IsSized e
      × ((j : ℕ) → Agrees e j (expected size ws j none))
run-expected size ws h ends =
    run-Agrees ws (new_entry size) size (λ j. none) (unfold new_entry in refl)
      (new_entry-IsSized size h) ends (new_entry-Agrees size)

all_written_iff :
    (flags : List Bool)
    → (all_written flags ≡ true) ↔ ((j : ℕ) → j < length flags → get_or flags j false ≡ true)
unfolding all_written
all_written_iff [] = (λ h j lt. elim lt [ ], λ h. refl)
all_written_iff (true ∷ flags) = (
  λ h. first flags ((all_written_iff flags).0 h),
  λ h. (all_written_iff flags).1 (λ j lt. h (suc j) (omega arith)),
)
  where
    first :
        (flags : List Bool)
        → ((j : ℕ) → j < length flags → get_or flags j false ≡ true)
        → (j : ℕ) → j < suc (length flags)
        → get_or (true ∷ flags) j false ≡ true
    first flags h zero lt = refl
    first flags h (suc j) lt = h j (omega arith)
all_written_iff (false ∷ flags) = (λ h. cc, λ h. h 0 (omega arith))

Agrees-some :
    (e : SparseEntry) (j : ℕ) (o : Option ℕ)
    → get_or e.written j false ≡ true
    → Agrees e j o
    → o ≡ some (get_or e.data_bytes j 0)
Agrees-some e j none w a = ground arith
Agrees-some e j (some b) w a = ground arith

Agrees-marked :
    (e : SparseEntry) (j : ℕ) (o : Option ℕ) (b : ℕ)
    → o ≡ some b
    → Agrees e j o
    → get_or e.written j false ≡ true
Agrees-marked e j none b h a = cc
Agrees-marked e j (some b') b h a = a.0

-- For writes whose ends fit in 64 bits: the entry that they leave is complete exactly when each position is
-- covered by a write within the size, and then its bytes are those of the last such writes.
pub run-is_complete :
    (size : ℕ) (ws : List (ℕ × List ℕ))
    → size < u64_mod
    → All Ends ws
    → (e : SparseEntry) × (run (new_entry size) ws ≡ some e)
      × ((is_complete e ≡ true)
          ↔ ((j : ℕ) → j < size → expected size ws j none ≡ some (get_or e.data_bytes j 0)))
unfolding is_complete
run-is_complete size ws h ends =
    let (e, runs, same, sized, agrees) = run-expected size ws h ends in
    let total = all_written_iff e.written in
    let n = sized.written_length in
    (
      e,
      runs,
      (
        λ c j lt. Agrees-some e j (expected size ws j none) (total.0 c j (omega arith)) (agrees j),
        λ all. total.1 (λ j lt.
            Agrees-marked e j (expected size ws j none) (get_or e.data_bytes j 0)
              (all j (omega arith)) (agrees j)),
      ),
    )
