-- ===== src/Range/Overlap.antt =====
-- The tests and the intersection of two ranges, in terms of the bytes that lie in them.
use el_cache.Common.{ℕ, ◌+◌, ◌-◌, ◌≡◌, ◌≤◌, ◌<◌, ◌↔◌, true, false, arith, u64_mod}
use el_cache.Range.{Range, overlaps, intersect, contains, is_empty}

-- The byte at a position lies in a range.
abbrev pub Within : ℕ → Range → Type 0
Within i r = (r.offset ≤ i) × (i < r.offset + r.length)

-- The end of the range is a `uint64_t`.
abbrev pub Fits : Range → Type 0
Fits r = r.offset + r.length < u64_mod

-- For ranges whose ends fit in 64 bits: a position lies in the intersection exactly when it lies in
-- both ranges.
pub Within-intersect :
    (a b : Range) (i : ℕ) → Fits a → Fits b → Within i (intersect a b) ↔ (Within i a × Within i b)
unfolding intersect
Within-intersect a b i ha hb = (λ h. ground arith, λ h. ground arith)

-- For ranges whose ends fit in 64 bits: a non-empty range is contained in another exactly when each of its positions lies in it.
pub contains_iff :
    (a b : Range)
    → Fits a
    → Fits b
    → 0 < b.length
    → (contains a b ≡ true) ↔ ((i : ℕ) → Within i b → Within i a)
unfolding contains
contains_iff a b ha hb pos =
    (λ h i w. ground arith, λ h. ground (arith, h b.offset, h (b.offset + b.length - 1)))

-- For non-empty ranges whose ends fit in 64 bits: they overlap exactly when their intersection is not empty.
pub overlaps-intersect :
    (a b : Range)
    → Fits a
    → Fits b
    → 0 < a.length
    → 0 < b.length
    → (overlaps a b ≡ true) ↔ (is_empty (intersect a b) ≡ false)
unfolding overlaps intersect is_empty
overlaps-intersect a b ha hb pa pb = (λ h. ground arith, λ h. ground arith)
