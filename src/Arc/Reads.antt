-- ===== src/Arc/Reads.antt =====
-- What a look-up in `ARCCache` sees after each operation.
use el_cache.Common.{Listed, ◌≡◌, sym, subst, ◌⊎◌, List, Option, none, some, arith, ◌≢◌}
use el_cache.Arc.Lists.{find, erase}
use el_cache.Arc.Counting.{
  find-erase, find-erase_self, find_cons, same_self, count_key-erase, find_absent, find-erase_ne,
}
use el_cache.Arc.Invariant.{IsValid, in_t1, in_t2, absent, slot}
use el_cache.Arc.{Doubles, Cache, entry_value, get, remove, contains, is_found}

-- The abstract view: the value that each key has.
unfoldable pub lookup : {K V P : Type 0} → Discrete K → K → Cache K V P → Option V
lookup dec q c = elim (find dec q c.t1) [
  | some e ↦ some e.value
  | none ↦ entry_value (find dec q c.t2)
]

-- A key keeps its value, or loses it and is reported with it.
abbrev pub Keeps :
    {K V P : Type 0} → Discrete K → K → Cache K V P → Cache K V P → List (K × V) → Type 0
Keeps {V} dec q c c' evicted =
    (lookup dec q c' ≡ lookup dec q c)
    ⊎ ((v : V) × (lookup dec q c ≡ some v) × (lookup dec q c' ≡ none) × Listed (q, v) evicted)

module _ {K V : Type 0} (d : Doubles) (dec : Discrete K) where
  get_value : (c : Cache K V d.Double) (key : K) → (get d dec c key).1 ≡ lookup dec key c
  unfolding get lookup
  get_value c key = elim (slot dec c key) [
    | in_t1 e hit ↦ ground (arith, hit, find_cons dec key (record e { key = key }) c.t2)
    | in_t2 e miss hit ↦ ground (arith, miss, hit)
    | absent miss miss' ↦ ground (arith, miss, miss')
  ]

  lookup-get_self :
      (c : Cache K V d.Double) (key : K)
      → IsValid d dec c
      → lookup dec key (get d dec c key).0 ≡ lookup dec key c
  unfolding get lookup
  lookup-get_self c key v = elim (slot dec c key) [
    | in_t1 e hit ↦
        let gone = find-erase_self dec key c.t1 e hit (omega (arith, v.distinct key)) in
        ground (arith, hit, gone, find_cons dec key (record e { key = key }) c.t2)
    | in_t2 e miss hit ↦ ground (
      arith,
      miss,
      hit,
      find-erase dec key c.t2 e hit,
      find_cons dec key e (erase dec e.key c.t2),
    )
    | absent miss miss' ↦ ground (arith, miss, miss')
  ]

  lookup-get_ne :
      (c : Cache K V d.Double) (key q : K)
      → q ≢ key
      → lookup dec q (get d dec c key).0 ≡ lookup dec q c
  unfolding get lookup
  lookup-get_ne c key q ne = elim (slot dec c key) [
    | in_t1 e hit ↦
        ground (
          arith,
          hit,
          find-erase_ne dec q key c.t1 ne,
          find_cons dec q (record e { key = key }) c.t2,
        )
    | in_t2 e miss hit ↦ ground (
      arith,
      miss,
      hit,
      find-erase dec key c.t2 e hit,
      find-erase_ne dec q e.key c.t2,
      find_cons dec q e (erase dec e.key c.t2),
    )
    | absent miss miss' ↦ ground (arith, miss, miss')
  ]

  -- On a valid cache `get` returns the value of the key in the abstract view, and changes the value of no key.
  pub get-lookup :
      (c : Cache K V d.Double) (key : K)
      → IsValid d dec c
      → ((get d dec c key).1 ≡ lookup dec key c)
        × ((q : K) → lookup dec q (get d dec c key).0 ≡ lookup dec q c)
  get-lookup c key v = (
    get_value c key,
    λ q. elim (dec q key) [
      | yes p ↦
          subst (λ x. lookup dec x (get d dec c key).0 ≡ lookup dec x c) (sym p)
            (lookup-get_self c key v)
      | no ne ↦ lookup-get_ne c key q ne
    ],
  )

  -- A key is contained exactly when it has a value.
  contains-lookup :
      (c : Cache K V d.Double) (key : K) → contains d dec c key ≡ is_found (lookup dec key c)
  unfolding contains lookup
  contains-lookup c key = ground arith

  lookup-remove_self :
      (c : Cache K V d.Double) (key : K)
      → IsValid d dec c
      → lookup dec key (remove d dec c key).0 ≡ none
  unfolding remove lookup
  lookup-remove_self c key v = elim (slot dec c key) [
    | in_t1 e hit ↦
        let once = v.distinct key in
        let erased = count_key-erase dec key key c.t1 e hit in
        ground (
          arith,
          hit,
          find-erase_self dec key c.t1 e hit (omega arith),
          find_absent dec key c.t2 (omega (arith, same_self dec key)),
        )
    | in_t2 e miss hit ↦
        ground
          (arith, miss, hit, find-erase_self dec key c.t2 e hit (omega (arith, v.distinct key)))
    | absent miss miss' ↦ ground (arith, miss, miss')
  ]

  lookup-remove_ne :
      (c : Cache K V d.Double) (key q : K)
      → q ≢ key
      → lookup dec q (remove d dec c key).0 ≡ lookup dec q c
  unfolding remove lookup
  lookup-remove_ne c key q ne =
      ground (arith, find-erase_ne dec q key c.t1 ne, find-erase_ne dec q key c.t2 ne)

  -- On a valid cache `remove` takes the value of the key away, says whether there was one, and changes the value
  -- of no other key.
  pub remove-lookup :
      (c : Cache K V d.Double) (key : K)
      → IsValid d dec c
      → (lookup dec key (remove d dec c key).0 ≡ none)
        × ((remove d dec c key).1 ≡ is_found (lookup dec key c))
        × ((q : K) → q ≢ key → lookup dec q (remove d dec c key).0 ≡ lookup dec q c)
  unfolding remove lookup
  remove-lookup c key v = (lookup-remove_self c key v, ground arith, lookup-remove_ne c key)
