-- ===== src/Sparse/Table.antt =====
-- `SparseCache`: the table of entries, and what each operation does to every key.
use el_cache.Common.{
  ℕ, ◌≡◌, ◌≢◌, ◌⊎◌, inl, inr, refl, subst, true, false, Option, none, some, List, [], ◌∷◌, arith,
  Option-cases, Bool-cases,
}
use mathlib.Core.Logic.{if_pos, if_neg}
use el_cache.Sparse.{
  SparseEntry, new_entry, SparseCache, Outcome, refused, done, fault, success, not_found,
  incomplete, find, erase, replace, create, write, write_range, finalize, remove, is_complete,
  entry_exists,
}

module _ {K : Type 0} (dec : Discrete K) where
  -- No key stands twice.
  abbrev pub Distinct : SparseCache K → Type 0
  Distinct [] = Unit {0}
  Distinct ((k, e) ∷ l) = (find dec k l ≡ none) × Distinct l

  find-replace_self :
      (key : K) (e e' : SparseEntry) (c : SparseCache K)
      → find dec key c ≡ some e
      → find dec key (replace dec key e' c) ≡ some e'
  unfolding find replace
  find-replace_self key e e' [] h = cc
  find-replace_self key e e' ((k, x) ∷ l) h = ground (arith, find-replace_self key e e' l)

  find-replace_ne :
      (key q : K) (e' : SparseEntry) (c : SparseCache K)
      → q ≢ key
      → find dec q (replace dec key e' c) ≡ find dec q c
  unfolding find replace
  find-replace_ne key q e' [] h = refl
  find-replace_ne key q e' ((k, x) ∷ l) h = ground (arith, find-replace_ne key q e' l)

  pub find-erase_self :
      (key : K) (c : SparseCache K) → Distinct c → find dec key (erase dec key c) ≡ none
  unfolding find erase
  find-erase_self key [] h = refl
  find-erase_self key ((k, x) ∷ l) (fresh, rest) = elim (dec k key) [
    | yes p ↦ ground (arith, subst (λ z. find dec z l ≡ none) p fresh)
    | no ne ↦ ground (arith, find-erase_self key l rest)
  ]

  find-erase_ne :
      (key q : K) (c : SparseCache K) → q ≢ key → find dec q (erase dec key c) ≡ find dec q c
  unfolding find erase
  find-erase_ne key q [] h = refl
  find-erase_ne key q ((k, x) ∷ l) h = ground (arith, find-erase_ne key q l)

  find-replace-none :
      (key q : K) (e' : SparseEntry) (c : SparseCache K)
      → find dec q c ≡ none
      → find dec q (replace dec key e' c) ≡ none
  unfolding find replace
  find-replace-none key q e' [] h = refl
  find-replace-none key q e' ((k, x) ∷ l) h = ground (arith, find-replace-none key q e' l)

  find-erase-none :
      (key q : K) (c : SparseCache K) → find dec q c ≡ none → find dec q (erase dec key c) ≡ none
  unfolding find erase
  find-erase-none key q [] h = refl
  find-erase-none key q ((k, x) ∷ l) h = ground (arith, find-erase-none key q l)

  replace-Distinct :
      (key : K) (e' : SparseEntry) (c : SparseCache K)
      → Distinct c
      → Distinct (replace dec key e' c)
  unfolding replace
  replace-Distinct key e' [] h = tt
  replace-Distinct key e' ((k, x) ∷ l) (fresh, rest) = elim (dec k key) [
    | yes p ↦ rw (if_pos _ p) (fresh, rest)
    | no ne ↦ rw (if_neg _ ne) (find-replace-none key k e' l fresh, replace-Distinct key e' l rest)
  ]

  erase-Distinct : (key : K) (c : SparseCache K) → Distinct c → Distinct (erase dec key c)
  unfolding erase
  erase-Distinct key [] h = tt
  erase-Distinct key ((k, x) ∷ l) (fresh, rest) = elim (dec k key) [
    | yes p ↦ rw (if_pos _ p) rest
    | no ne ↦ rw (if_neg _ ne) (find-erase-none key k l fresh, erase-Distinct key l rest)
  ]

  -- A table that differs from another at one key, where it has the given entry or none.
  pub record Updates (c c' : SparseCache K) (key : K) (o : Option SparseEntry) : Type 0 where
    pub distinct : Distinct c'
    pub here : find dec key c' ≡ o
    pub others : (q : K) → q ≢ key → find dec q c' ≡ find dec q c

  find-cons_self :
      (key : K) (e : SparseEntry) (c : SparseCache K) → find dec key ((key, e) ∷ c) ≡ some e
  unfolding find
  find-cons_self key e c = ground arith

  find-cons_ne :
      (key q : K) (e : SparseEntry) (c : SparseCache K)
      → q ≢ key
      → find dec q ((key, e) ∷ c) ≡ find dec q c
  unfolding find
  find-cons_ne key q e c h = ground arith

  -- On a table without repeated keys, `create` refuses a key that is there and changes nothing, and
  -- gives any other key a new entry of the size, keeping all other keys.
  pub create-Updates :
      (c : SparseCache K) (key : K) (size : ℕ)
      → Distinct c
      → (((create dec c key size).1 ≡ false)
          × ((create dec c key size).0 ≡ c)
          × (find dec key c ≢ none))
        ⊎ (((create dec c key size).1 ≡ true)
            × (find dec key c ≡ none)
            × Updates c (create dec c key size).0 key (some (new_entry size)))
  unfolding create
  create-Updates c key size h = elim (Option-cases (find dec key c)) [
    | inr (e, hit) ↦ rw (hit, create) (inl (refl, refl, λ z. cc))
    | inl miss ↦
        rw (miss, create)
          (inr (
            refl,
            refl,
            record {
              distinct = (miss, h);
              here = find-cons_self key (new_entry size) c;
              others = λ q ne. find-cons_ne key q (new_entry size) c ne;
            },
          ))
  ]

  Outcome-cases :
      {A : Type 0} (o : Outcome A) → (o ≡ refused) ⊎ ((o ≡ fault) ⊎ ((a : A) × (o ≡ done a)))
  Outcome-cases refused = inl refl
  Outcome-cases fault = inr (inl refl)
  Outcome-cases (done a) = inr (inr (a, refl))

  -- On a table without repeated keys, a write to an unknown key is refused, and one to an entry does what
  -- `SparseEntry::write_range` does: it is refused, or faults, or gives the key the entry that
  -- `write_range` makes and keeps all other keys.
  pub write-Updates :
      (c : SparseCache K) (key : K) (offset : ℕ) (buf : List ℕ)
      → Distinct c
      → ((find dec key c ≡ none) × (write dec c key offset buf ≡ refused))
        ⊎ ((e : SparseEntry) × (find dec key c ≡ some e)
            × (((write_range e offset buf ≡ refused) × (write dec c key offset buf ≡ refused))
                ⊎ (((write_range e offset buf ≡ fault) × (write dec c key offset buf ≡ fault))
                    ⊎ ((e' : SparseEntry) × (c' : SparseCache K) × (write_range e offset buf
                          ≡ done e')
                        × (write dec c key offset buf ≡ done c')
                        × Updates c c' key (some e')))))
  unfolding write
  write-Updates c key offset buf h = elim (Option-cases (find dec key c)) [
    | inl miss ↦ inl (miss, ground (arith, miss))
    | inr (e, hit) ↦ inr (
      e,
      hit,
      elim (Outcome-cases (write_range e offset buf)) [
        | inl r ↦ inl (r, ground (arith, hit, r))
        | inr (inl r) ↦ inr (inl (r, ground (arith, hit, r)))
        | inr (inr (e', r)) ↦ inr (
            inr (
              e',
              replace dec key e' c,
              r,
              ground (arith, hit, r),
              record {
                distinct = replace-Distinct key e' c h;
                here = find-replace_self key e e' c hit;
                others = λ q ne. find-replace_ne key q e' c ne;
              },
            ))
      ],
    )
  ]

  erase-Updates : (c : SparseCache K) (key : K) → Distinct c → Updates c (erase dec key c) key none
  erase-Updates c key h = record {
    distinct = erase-Distinct key c h;
    here = find-erase_self key c h;
    others = λ q ne. find-erase_ne key q c ne;
  }

  -- On a table without repeated keys: `finalize` reports an unknown key; it keeps an incomplete entry
  -- and the whole table; and it hands the bytes of a complete entry over and removes only that entry.
  pub finalize-Updates :
      (c : SparseCache K) (key : K)
      → Distinct c
      → ((find dec key c ≡ none) × (finalize dec c key ≡ (c, not_found)))
        ⊎ ((e : SparseEntry) × (find dec key c ≡ some e)
            × (((is_complete e ≡ false) × (finalize dec c key ≡ (c, incomplete)))
                ⊎ ((is_complete e ≡ true)
                    × ((finalize dec c key).1 ≡ success e.data_bytes)
                    × Updates c (finalize dec c key).0 key none)))
  unfolding finalize
  finalize-Updates c key h = elim (Option-cases (find dec key c)) [
    | inl miss ↦ inl (miss, ground (arith, miss))
    | inr (e, hit) ↦ inr (
      e,
      hit,
      elim (Bool-cases (is_complete e)) [
        | inl whole ↦ inr (
          whole,
          ground (arith, hit, whole),
          rw (hit, finalize) (rw whole (erase-Updates c key h)),
        )
        | inr part ↦ inl (part, ground (arith, hit, part))
      ],
    )
  ]

  -- On a table without repeated keys, `remove` says whether the key was there, and afterwards it is
  -- not; all other keys stay.
  pub remove-Updates :
      (c : SparseCache K) (key : K)
      → Distinct c
      → ((remove dec c key).1 ≡ entry_exists dec c key) × Updates c (remove dec c key).0 key none
  unfolding remove
  remove-Updates c key h = (refl, erase-Updates c key h)
