-- ===== src/Arc.antt =====
-- `ARCCache` (include/elcache/arc_cache.hpp): the adaptive replacement cache. Each public method takes
-- the cache's lock for its whole run, so a method is one function from state to state.
use el_cache.Common.{
  ℕ, zero, suc, ◌+◌, List, [], ◌∷◌, ◌++◌, Bool, true, false, not, ◌&&◌, ◌||◌, Option, none, some,
  ltb, leb, if◌then◌else◌, add64, sub64, mul64, length,
}
pub mod Lists
pub mod Counting
pub mod Evict
pub mod Invariant
pub mod Put
pub mod Reads
pub mod Loss
pub mod Store
pub mod Space
pub mod Adaptation
mod Tests
pub use Lists.{Entry}
use Lists.{
  empty, pop_back, total_size, push_front, find, erase, move_to_front, ghost_contains, ghost_erase,
}

-- `double`, which only the adaptation parameter uses: the operations that the class calls.
pub record Doubles : Type 1 where
  pub Double : Type 0
  pub zero_point : Double
  pub one : Double
  pub add : Double → Double → Double
  pub sub : Double → Double → Double
  -- `static_cast<double>(a) / b`
  pub ratio : ℕ → ℕ → Double
  pub of_size : ℕ → Double
  pub to_size : Double → ℕ
  pub less : Double → Double → Bool

-- `std::min` and `std::max`
abbrev pub min_double : (d : Doubles) → d.Double → d.Double → d.Double
min_double d a b = if d.less b a then b else a

abbrev pub max_double : (d : Doubles) → d.Double → d.Double → d.Double
max_double d a b = if d.less a b then b else a

-- `t1` and `t2` hold entries, `b1` and `b2` the keys of evicted ones; `p` is the target size of `t1`.
pub record Cache (K V : Type 0) (P : Type 0) : Type 0 where
  pub capacity : ℕ
  pub t1 : List (Entry K V)
  pub t2 : List (Entry K V)
  pub b1 : List K
  pub b2 : List K
  pub p : P
  pub current_size : ℕ
  pub hits : ℕ
  pub misses : ℕ

abbrev pub entry_value : {K V : Type 0} → Option (Entry K V) → Option V
entry_value none = none
entry_value (some e) = some e.value

abbrev pub is_found : {A : Type 0} → Option A → Bool
is_found none = false
is_found (some a) = true

-- Case 5 of `put_impl` drops the oldest key of a ghost list.
abbrev pub drop_last : {A : Type 0} → List A → List A
drop_last l = elim (pop_back l) [ none ↦ l | some (k, rest) ↦ rest ]

module _ {K V : Type 0} (d : Doubles) where
  pub init : ℕ → Cache K V d.Double
  init capacity = record {
    capacity = capacity;
    t1 = [];
    t2 = [];
    b1 = [];
    b2 = [];
    p = d.zero_point;
    current_size = 0;
    hits = 0;
    misses = 0;
  }

  pub clear : Cache K V d.Double → Cache K V d.Double
  clear c = record c { t1 = []; t2 = []; b1 = []; b2 = []; p = d.zero_point; current_size = 0 }

  -- The two branches of `evict_one`.
  unfoldable pub evict_t1 : Cache K V d.Double → List (K × V) → Cache K V d.Double × List (K × V)
  evict_t1 c evicted = elim (pop_back c.t1) [
    | none ↦ (c, evicted)
    | some (e, rest) ↦ (
      record c { t1 = rest; current_size = sub64 c.current_size e.size; b1 = e.key ∷ c.b1 },
      evicted ++ ((e.key, e.value) ∷ []),
    )
  ]

  unfoldable pub evict_t2 : Cache K V d.Double → List (K × V) → Cache K V d.Double × List (K × V)
  evict_t2 c evicted = elim (pop_back c.t2) [
    | none ↦ (c, evicted)
    | some (e, rest) ↦ (
      record c { t2 = rest; current_size = sub64 c.current_size e.size; b2 = e.key ∷ c.b2 },
      evicted ++ ((e.key, e.value) ∷ []),
    )
  ]

  unfoldable pub evict_one : Cache K V d.Double → List (K × V) → Cache K V d.Double × List (K × V)
  evict_one c evicted =
      if not (empty c.t1) && (ltb (d.to_size c.p) (total_size c.t1) || empty c.t2)
      then evict_t1 c evicted
      else if not (empty c.t2)
      then evict_t2 c evicted
      else (c, evicted)

  -- The condition of the loop of `evict_for_size`.
  abbrev pub must_evict : Cache K V d.Double → ℕ → Bool
  must_evict c needed =
      ltb c.capacity (add64 c.current_size needed) && (not (empty c.t1) || not (empty c.t2))

  unfoldable pub evict_loop :
      ℕ → ℕ → Cache K V d.Double × List (K × V) → Cache K V d.Double × List (K × V)
  evict_loop zero needed s = s
  evict_loop (suc fuel) needed s =
      let rest = evict_loop fuel needed (evict_one s.0 s.1) in
      if must_evict s.0 needed then rest else s

  -- Each round evicts an entry, so their number is fuel enough.
  unfoldable pub evict_for_size :
      Cache K V d.Double → ℕ → List (K × V) → Cache K V d.Double × List (K × V)
  evict_for_size c needed evicted = evict_loop (length c.t1 + length c.t2) needed (c, evicted)

  -- Room for a new value, which then becomes the first entry of `t2` or of `t1`.
  unfoldable pub store_t2 : Cache K V d.Double → K → V → ℕ → Cache K V d.Double × List (K × V)
  store_t2 c key value value_size =
      let (c', evicted) = evict_for_size c value_size [] in
      (
        record c' {
          t2 = push_front key value value_size c'.t2;
          current_size = add64 c'.current_size value_size;
        },
        evicted,
      )

  unfoldable pub store_t1 : Cache K V d.Double → K → V → ℕ → Cache K V d.Double × List (K × V)
  store_t1 c key value value_size =
      let (c', evicted) = evict_for_size c value_size [] in
      (
        record c' {
          t1 = push_front key value value_size c'.t1;
          current_size = add64 c'.current_size value_size;
        },
        evicted,
      )

  -- Cases 3 and 4: the key was evicted not long ago, and `p` is adapted.
  abbrev pub grow_p : Cache K V d.Double → d.Double
  grow_p c =
      let delta : d.Double =
        if leb (length c.b1) (length c.b2) then d.one else d.ratio (length c.b2) (length c.b1) in
      min_double d (d.add c.p delta) (d.of_size c.capacity)

  abbrev pub shrink_p : Cache K V d.Double → d.Double
  shrink_p c =
      let delta : d.Double =
        if leb (length c.b2) (length c.b1) then d.one else d.ratio (length c.b1) (length c.b2) in
      max_double d (d.sub c.p delta) d.zero_point

  unfoldable pub trim_ghosts : Cache K V d.Double → Cache K V d.Double
  trim_ghosts c =
      let total_ghost : ℕ = add64 (length c.b1) (length c.b2) in
      if leb c.capacity (add64 (length c.t1) (length c.b1))
      then record c { b1 = drop_last c.b1 }
      else if leb (mul64 c.capacity 2) (add64 (add64 (length c.t1) (length c.t2)) total_ghost)
      then record c { b2 = drop_last c.b2 }
      else c

module _ {K V : Type 0} (d : Doubles) (dec : Discrete K) where
  pub contains : Cache K V d.Double → K → Bool
  contains c key = is_found (find dec key c.t1) || is_found (find dec key c.t2)

  -- `get_impl`
  unfoldable pub get : Cache K V d.Double → K → Cache K V d.Double × Option V
  get c key = elim (find dec key c.t1) [
    | some e ↦
        let t2 : List (Entry K V) = push_front key e.value e.size c.t2 in
        (
          record c { t1 = erase dec key c.t1; t2 = t2; hits = add64 c.hits 1 },
          entry_value (find dec key t2),
        )
    | none ↦ elim (find dec key c.t2) [
      | some e ↦ (record c { t2 = move_to_front dec e c.t2; hits = add64 c.hits 1 }, some e.value)
      | none ↦ (record c { misses = add64 c.misses 1 }, none)
    ]
  ]

  -- Cases 1 and 2 of `put_impl`: the key is in `t1`, or in `t2`.
  unfoldable pub update_t1 : Cache K V d.Double → K → V → ℕ → Entry K V → Cache K V d.Double
  update_t1 c key value value_size e = record c {
    current_size = add64 (sub64 c.current_size e.size) value_size;
    t1 = erase dec key c.t1;
    t2 = push_front key value value_size c.t2;
  }

  unfoldable pub update_t2 : Cache K V d.Double → K → V → ℕ → Entry K V → Cache K V d.Double
  update_t2 c key value value_size e = record c {
    current_size = add64 (sub64 c.current_size e.size) value_size;
    t2 = push_front key value value_size (erase dec key c.t2);
  }

  -- `put_impl`
  unfoldable pub put : (V → ℕ) → Cache K V d.Double → K → V → Cache K V d.Double × List (K × V)
  put size_fn c key value = elim (find dec key c.t1) [
    | some e ↦ (update_t1 c key value (size_fn value) e, [])
    | none ↦ elim (find dec key c.t2) [
      | some e ↦ (update_t2 c key value (size_fn value) e, [])
      | none ↦
          if ghost_contains dec key c.b1
          then store_t2 d (record c { p = grow_p d c; b1 = ghost_erase dec key c.b1 }) key value
              (size_fn value)
          else if ghost_contains dec key c.b2
          then store_t2 d (record c { p = shrink_p d c; b2 = ghost_erase dec key c.b2 }) key value
              (size_fn value)
          else store_t1 d (trim_ghosts d c) key value (size_fn value)
    ]
  ]

  -- `remove_impl`
  unfoldable pub remove : Cache K V d.Double → K → Cache K V d.Double × Bool
  remove c key = elim (find dec key c.t1) [
    | some e ↦
        (record c { current_size = sub64 c.current_size e.size; t1 = erase dec key c.t1 }, true)
    | none ↦ elim (find dec key c.t2) [
      | some e ↦
          (record c { current_size = sub64 c.current_size e.size; t2 = erase dec key c.t2 }, true)
      | none ↦ (record c { b1 = ghost_erase dec key c.b1; b2 = ghost_erase dec key c.b2 }, false)
    ]
  ]
