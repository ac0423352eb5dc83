-- ===== src/Arc/Invariant.antt =====
-- The invariant of `ARCCache`, and that every operation keeps it: no key stands twice in the four
-- lists, and `current_size` is the size of the entries.
use el_cache.Common.{
  ℕ, ◌+◌, ◌≡◌, ◌≤◌, refl, inl, inr, List, [], none, some, arith, add64, sub64, Bool-cases,
  Option-cases,
}
use el_cache.Arc.Lists.{Entry, pop_back, find, ghost_contains, ghost_erase}
use el_cache.Arc.Counting.{
  sum_sizes, count, count_key, same, find-erase, find_own, count_key-erase, count-ghost_erase,
  ghost_erase_absent, count-pop_back,
}
use el_cache.Arc.Evict.{IsAccounted, directory, Evicts, evict_loop-Evicts}
use el_cache.Arc.{
  Doubles, Cache, init, clear, drop_last, evict_for_size, store_t1, store_t2, trim_ghosts, get,
  remove,
}

drop_last-count :
    {K : Type 0} (dec : Discrete K) (q : K) (l : List K) → count dec q (drop_last l) ≤ count dec q l
drop_last-count dec q l = elim (Option-cases (pop_back l)) [
  | inl last ↦ rw (last, drop_last) (omega arith)
  | inr ((e, rest), found) ↦
      rw (found, drop_last) (omega (arith, count-pop_back dec q l rest e found))
]

ghost_erase-count :
    {K : Type 0} (dec : Discrete K) (q key : K) (l : List K)
    → count dec q (ghost_erase dec key l) ≤ count dec q l
ghost_erase-count dec q key l = elim (Bool-cases (ghost_contains dec key l)) [
  | inl held ↦ omega (arith, count-ghost_erase dec q key l held)
  | inr lacking ↦ rw (ghost_erase_absent dec key l lacking) (omega arith)
]

-- Where an operation finds its key: in `t1`, in `t2`, or in neither.
pub data Slot {K V P : Type 0} (dec : Discrete K) (c : Cache K V P) (key : K) : Type 0 where
  in_t1 : (e : Entry K V) → find dec key c.t1 ≡ some e → Slot dec c key
  in_t2 : (e : Entry K V) → find dec key c.t1 ≡ none → find dec key c.t2 ≡ some e → Slot dec c key
  absent : find dec key c.t1 ≡ none → find dec key c.t2 ≡ none → Slot dec c key

pub slot : {K V P : Type 0} (dec : Discrete K) (c : Cache K V P) (key : K) → Slot dec c key
slot dec c key = elim (Option-cases (find dec key c.t1)) [
  | inr (e, hit) ↦ in_t1 e hit
  | inl miss ↦ elim (Option-cases (find dec key c.t2)) [
    | inr (e, hit) ↦ in_t2 e miss hit
    | inl miss' ↦ absent miss miss'
  ]
]

module _ {K V : Type 0} (d : Doubles) (dec : Discrete K) where
  pub record IsValid (c : Cache K V d.Double) : Type 0 where
    pub distinct : (q : K) → directory dec q c ≤ 1
    pub accounted : IsAccounted c

  pub evict_for_size-Evicts :
      (c : Cache K V d.Double) (needed : ℕ) → Evicts d dec c (evict_for_size d c needed []).0
  unfolding evict_for_size
  evict_for_size-Evicts c needed = evict_loop-Evicts d dec _ needed (c, [])

  pub store_t2-directory :
      (c : Cache K V d.Double) (key : K) (v : V) (s : ℕ) (q : K)
      → directory dec q (store_t2 d c key v s).0 ≡ directory dec q c + same dec key q
  unfolding store_t2 count_key
  store_t2-directory c key v s q = omega (arith, (evict_for_size-Evicts c s).same_directory q)

  pub store_t1-directory :
      (c : Cache K V d.Double) (key : K) (v : V) (s : ℕ) (q : K)
      → directory dec q (store_t1 d c key v s).0 ≡ directory dec q c + same dec key q
  unfolding store_t1 count_key
  store_t1-directory c key v s q = omega (arith, (evict_for_size-Evicts c s).same_directory q)

  pub store_t2-IsAccounted :
      (c : Cache K V d.Double) (key : K) (v : V) (s : ℕ)
      → IsAccounted c
      → IsAccounted (store_t2 d c key v s).0
  unfolding store_t2 sum_sizes add64
  store_t2-IsAccounted c key v s h = omega (arith, (evict_for_size-Evicts c s).accounted h)

  pub store_t1-IsAccounted :
      (c : Cache K V d.Double) (key : K) (v : V) (s : ℕ)
      → IsAccounted c
      → IsAccounted (store_t1 d c key v s).0
  unfolding store_t1 sum_sizes add64
  store_t1-IsAccounted c key v s h = omega (arith, (evict_for_size-Evicts c s).accounted h)

  pub trim_ghosts-directory :
      (c : Cache K V d.Double) (q : K) → directory dec q (trim_ghosts d c) ≤ directory dec q c
  unfolding trim_ghosts
  trim_ghosts-directory c q = ground (arith, drop_last-count dec q c.b1, drop_last-count dec q c.b2)

  pub trim_ghosts-IsAccounted :
      (c : Cache K V d.Double) → IsAccounted c → IsAccounted (trim_ghosts d c)
  unfolding trim_ghosts
  trim_ghosts-IsAccounted c h = ground arith

  -- `get` moves keys about and keeps each of them.
  get-directory :
      (c : Cache K V d.Double) (key q : K) → directory dec q (get d dec c key).0 ≡ directory dec q c
  unfolding get count_key
  get-directory c key q = elim (slot dec c key) [
    | in_t1 e hit ↦ rw (hit, get) (omega (arith, count_key-erase dec q key c.t1 e hit))
    | in_t2 e miss hit ↦
        rw (miss, hit, get)
          (omega (arith, count_key-erase dec q e.key c.t2 e (find_own dec key c.t2 e hit)))
    | absent miss miss' ↦ rw (miss, miss', get) refl
  ]

  get-IsAccounted :
      (c : Cache K V d.Double) (key : K) → IsAccounted c → IsAccounted (get d dec c key).0
  unfolding get sum_sizes
  get-IsAccounted c key h = elim (slot dec c key) [
    | in_t1 e hit ↦ rw (hit, get) (omega (arith, find-erase dec key c.t1 e hit))
    | in_t2 e miss hit ↦
        rw (miss, hit, get)
          (omega (arith, find-erase dec e.key c.t2 e (find_own dec key c.t2 e hit)))
    | absent miss miss' ↦ rw (miss, miss', get) h
  ]

  -- A successful `get`, a miss and every eviction keep the invariant.
  pub get-IsValid : (c : Cache K V d.Double) (key : K) → IsValid c → IsValid (get d dec c key).0
  get-IsValid c key v = record {
    distinct = λ q. omega (arith, get-directory c key q, v.distinct q);
    accounted = get-IsAccounted c key v.accounted;
  }

  pub remove-directory :
      (c : Cache K V d.Double) (key q : K)
      → directory dec q (remove d dec c key).0 ≤ directory dec q c
  unfolding remove
  remove-directory c key q = elim (slot dec c key) [
    | in_t1 e hit ↦ rw (hit, remove) (omega (arith, count_key-erase dec q key c.t1 e hit))
    | in_t2 e miss hit ↦
        rw (miss, hit, remove) (omega (arith, count_key-erase dec q key c.t2 e hit))
    | absent miss miss' ↦
        rw (miss, miss', remove)
          (omega (arith, ghost_erase-count dec q key c.b1, ghost_erase-count dec q key c.b2))
  ]

  remove-IsAccounted :
      (c : Cache K V d.Double) (key : K) → IsAccounted c → IsAccounted (remove d dec c key).0
  unfolding remove sub64
  remove-IsAccounted c key h = elim (slot dec c key) [
    | in_t1 e hit ↦ rw (hit, remove) (omega (arith, find-erase dec key c.t1 e hit))
    | in_t2 e miss hit ↦ rw (miss, hit, remove) (omega (arith, find-erase dec key c.t2 e hit))
    | absent miss miss' ↦ rw (miss, miss', remove) h
  ]

  -- `remove` keeps the invariant.
  pub remove-IsValid :
      (c : Cache K V d.Double) (key : K) → IsValid c → IsValid (remove d dec c key).0
  remove-IsValid c key v = record {
    distinct = λ q. omega (arith, remove-directory c key q, v.distinct q);
    accounted = remove-IsAccounted c key v.accounted;
  }

  -- A new cache and a cleared one satisfy the invariant.
  pub init-IsValid : (capacity : ℕ) → IsValid (init d capacity)
  unfolding init count count_key sum_sizes
  init-IsValid capacity = record { distinct = λ q. omega arith; accounted = omega arith }

  pub clear-IsValid : (c : Cache K V d.Double) → IsValid (clear d c)
  unfolding clear count count_key sum_sizes
  clear-IsValid c = record { distinct = λ q. omega arith; accounted = omega arith }
