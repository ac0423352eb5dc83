-- ===== src/Coordinator/Reads.antt =====
-- What a read of the coordinator returns after a write, and after a removal.
use el_cache.Common.{
  ℕ, ◌≡◌, refl, ◌∙◌, sym, ap, subst, Bool, true, false, ◌==◌, inl, inr, Option, none, some, List,
  ◌∷◌, Bool-cases, Option-cases, if◌then◌else◌, length,
}
use el_cache.Memory.{ReadOptions, ReadResult, missed, miss}
use el_cache.Coordinator.{
  Layer, Remote, Coordinator, WriteOptions, DeleteOptions, accepted, is_ok, is_hit, fetch_loop,
  keep_fetched, fetched_options, or_else, try_memory, try_disk, try_cluster, get, put_memory,
  put_disk, put, remove,
}
use el_cache.Coordinator.Layers.{Forgets}

module _ {K : Type 0} (m d : Layer K) (c : Remote K) where
  try_memory_accepts :
      (s : Coordinator m d c) (x : m.State) (key : K) (opts : ReadOptions)
      → s.memory ≡ some x
      → s.prefer_local ≡ true
      → accepted opts (m.get x key opts).1 ≡ true
      → try_memory m d c s key opts
        ≡ (record s { memory = some (m.get x key opts).0 }, some (m.get x key opts).1)
  unfolding try_memory
  try_memory_accepts s x key opts e local good = rw (e, try_memory, local, good) refl

  -- An answer of memory that the coordinator accepts is returned, and no other layer is asked.
  pub get_from_memory :
      (s : Coordinator m d c) (x : m.State) (key : K) (opts : ReadOptions)
      → s.memory ≡ some x
      → s.prefer_local ≡ true
      → accepted opts (m.get x key opts).1 ≡ true
      → ((get m d c s key opts).1 ≡ (m.get x key opts).1)
        × ((get m d c s key opts).0.disk ≡ s.disk)
        × ((get m d c s key opts).0.cluster ≡ s.cluster)
  unfolding get
  get_from_memory s x key opts e local good =
      rw (try_memory_accepts s x key opts e local good, get) (refl, refl, refl)

  put_memory_writes :
      (x : m.State) (key : K) (value : List ℕ) (opts : WriteOptions)
      → opts.no_memory ≡ false
      → put_memory m d c (some x) key value opts
        ≡ (some (m.put x key value opts).0, (m.put x key value opts).1, true)
  unfolding put_memory
  put_memory_writes x key value opts kept = rw (kept, put_memory) refl

  pub put-memory :
      (s : Coordinator m d c) (x : m.State) (key : K) (value : List ℕ) (opts : WriteOptions)
      → s.memory ≡ some x
      → opts.no_memory ≡ false
      → ((put m d c s key value opts).0.memory ≡ some (m.put x key value opts).0)
        × ((put m d c s key value opts).0.prefer_local ≡ s.prefer_local)
  unfolding put
  put-memory s x key value opts e kept =
      let w = put_memory_writes x key value opts kept in
      elim (Bool-cases (is_ok (m.put x key value opts).1)) [
        | inr bad ↦ rw (e, put, w, bad) (refl, refl)
        | inl good ↦ elim (Bool-cases (is_ok (put_disk m d c s.disk key value opts).1)) [
          | inr bad' ↦ rw (e, put, w, good, bad') (refl, refl)
          | inl good' ↦ rw (e, put, w, good, good') (refl, refl)
        ]
      ]

  -- A layer whose answer is not accepted leaves the read to the next one.
  try_memory_refuses :
      (s : Coordinator m d c) (key : K) (opts : ReadOptions)
      → ((x : m.State) → s.memory ≡ some x → accepted opts (m.get x key opts).1 ≡ false)
      → ((try_memory m d c s key opts).1 ≡ none)
        × ((try_memory m d c s key opts).0.disk ≡ s.disk)
        × ((try_memory m d c s key opts).0.has_seeds ≡ s.has_seeds)
  unfolding try_memory
  try_memory_refuses s key opts h = elim (Option-cases s.memory) [
    | inl e ↦ rw (e, try_memory) (refl, refl, refl)
    | inr (x, e) ↦ elim (Bool-cases s.prefer_local) [
      | inl local ↦ rw (e, try_memory, local, h x e) (refl, refl, refl)
      | inr remote ↦ rw (e, try_memory, remote) (refl, refl, refl)
    ]
  ]

  try_disk_refuses :
      (s : Coordinator m d c) (key : K) (opts : ReadOptions)
      → ((x : d.State) → s.disk ≡ some x → accepted opts (d.get x key opts).1 ≡ false)
      → ((try_disk m d c s key opts).1 ≡ none)
        × ((try_disk m d c s key opts).0.has_seeds ≡ s.has_seeds)
  unfolding try_disk
  try_disk_refuses s key opts h = elim (Option-cases s.disk) [
    | inl e ↦ rw (e, try_disk) (refl, refl)
    | inr (x, e) ↦ rw (e, try_disk, h x e) (refl, refl)
  ]

  try_cluster_alone :
      (s : Coordinator m d c) (key : K) (opts : ReadOptions)
      → s.has_seeds ≡ false
      → (try_cluster m d c s key opts).1 ≡ none
  unfolding try_cluster
  try_cluster_alone s key opts h = elim (Option-cases s.cluster) [
    | inl e ↦ rw (e, try_cluster) refl
    | inr (x, e) ↦ rw (e, try_cluster, h) refl
  ]

  or_else-none :
      (a : Coordinator m d c × Option ReadResult)
      (f : Coordinator m d c → Coordinator m d c × Option ReadResult)
      → a.1 ≡ none
      → or_else m d c a f ≡ f a.0
  or_else-none a f h = rw (h, or_else) refl

  -- Without seed nodes, a read that no layer answers is a miss.
  get_unanswered :
      (s : Coordinator m d c) (key : K) (opts : ReadOptions)
      → ((x : m.State) → s.memory ≡ some x → accepted opts (m.get x key opts).1 ≡ false)
      → ((x : d.State) → s.disk ≡ some x → accepted opts (d.get x key opts).1 ≡ false)
      → s.has_seeds ≡ false
      → (get m d c s key opts).1 ≡ missed miss
  unfolding get
  get_unanswered s key opts hm hd alone =
      let a = try_memory m d c s key opts in
      let (skipped, disk, seeds) = try_memory_refuses s key opts hm in
      let b = try_disk m d c a.0 key opts in
      let (skipped', seeds') = try_disk_refuses a.0 key opts (λ x e. hd x (sym disk ∙ e)) in
      let e = or_else-none a (λ s'. try_disk m d c s' key opts) skipped in
      let e' =
        or_else-none (or_else m d c a (λ s'. try_disk m d c s' key opts))
          (λ s'. try_cluster m d c s' key opts) (ap (λ r. r.1) e ∙ skipped') in
      let off : (try_cluster m d c (or_else m d c a (λ s'. try_disk m d c s' key opts)).0 key
            opts).1
          ≡ none =
        rw e (try_cluster_alone b.0 key opts (seeds' ∙ seeds ∙ alone)) in
      subst (λ r. (elim r.1 [ some x ↦ x | none ↦ missed miss ]) ≡ missed miss) (sym e')
        (rw off refl)

  -- What a removal leaves of a layer.
  after_remove :
      (l : Layer K) (o : Option l.State) (key : K) (opts : ReadOptions) (from : Bool)
      → Forgets l
      → from ≡ true
      → (x : l.State)
      → (elim o [ none ↦ none | some y ↦ some (if from then (l.remove y key).0 else y) ]) ≡ some x
      → accepted opts (l.get x key opts).1 ≡ false
  after_remove l none key opts from f on x e = cc
  after_remove l (some y) key opts from f on x e =
      let e' : some (l.remove y key).0 ≡ some x = rw on at e in
      let q : (l.remove y key).0 ≡ x = cc in
      subst (λ z. accepted opts (l.get z key opts).1 ≡ false) q (f.forgets y key opts)

  -- After a removal from memory and disk, without seed nodes, a read of the key is a miss, whatever its
  -- options are, if the two layers answer no read of a key after they removed it.
  pub get-remove :
      (s : Coordinator m d c) (key : K) (opts : DeleteOptions) (how : ReadOptions)
      → Forgets m
      → Forgets d
      → opts.from_memory ≡ true
      → opts.from_disk ≡ true
      → s.has_seeds ≡ false
      → (get m d c (remove m d c s key opts).0 key how).1 ≡ missed miss
  unfolding remove
  get-remove s key opts how fm fd in_memory on_disk alone =
      get_unanswered (remove m d c s key opts).0 key how
        (after_remove m s.memory key how opts.from_memory fm in_memory)
        (after_remove d s.disk key how opts.from_disk fd on_disk) alone

  try_memory_misses :
      (s : Coordinator m d c) (x : m.State) (key : K) (opts : ReadOptions)
      → s.memory ≡ some x
      → s.prefer_local ≡ true
      → accepted opts (m.get x key opts).1 ≡ false
      → try_memory m d c s key opts ≡ (record s { memory = some (m.get x key opts).0 }, none)
  unfolding try_memory
  try_memory_misses s x key opts e local bad = rw (e, try_memory, local, bad) refl

  try_disk_absent :
      (s : Coordinator m d c) (key : K) (opts : ReadOptions)
      → s.disk ≡ none
      → try_disk m d c s key opts ≡ (s, none)
  unfolding try_disk
  try_disk_absent s key opts e = simp (e, try_disk)

  fetch_first :
      (n : ℕ) (nodes : List ℕ) (memory : Option m.State) (y : c.State) (key : K)
      (opts : ReadOptions) (last : ReadResult)
      → (n == c.local_node y) ≡ false
      → is_hit (c.remote_get y n key opts).1 ≡ true
      → fetch_loop m d c (n ∷ nodes) memory y key opts last ≡ (
        keep_fetched m d c memory key (c.remote_get y n key opts).1,
        (c.remote_get y n key opts).0,
        (c.remote_get y n key opts).1,
      )
  unfolding fetch_loop
  fetch_first n nodes memory y key opts last other found = rw (other, fetch_loop, found) refl

  try_cluster_hits :
      (s : Coordinator m d c) (x : m.State) (y : c.State) (n : ℕ) (nodes : List ℕ) (key : K)
      (opts : ReadOptions)
      → s.memory ≡ some x
      → s.cluster ≡ some y
      → s.has_seeds ≡ true
      → c.nodes_for_key y key ≡ n ∷ nodes
      → (n == c.local_node y) ≡ false
      → is_hit (c.remote_get y n key opts).1 ≡ true
      → (length (c.remote_get y n key opts).1.data_bytes == 0) ≡ false
      → try_cluster m d c s key opts ≡ (
        record s {
          memory = some (m.put x key (c.remote_get y n key opts).1.data_bytes fetched_options).0;
          cluster = some (c.remote_get y n key opts).0;
        },
        some (c.remote_get y n key opts).1,
      )
  unfolding try_cluster keep_fetched
  try_cluster_hits s x y n nodes key opts em ec seeds list other found some_bytes =
      let first = fetch_first n nodes (some x) y key opts (missed miss) other found in
      rw (ec, em, try_cluster, list, first, seeds, found, some_bytes, keep_fetched) refl

  -- A hit of the first other node, after memory had no answer and without a disk: it is returned, and its
  -- bytes are put into memory under the key.
  pub get_fetched :
      (s : Coordinator m d c) (x : m.State) (y : c.State) (n : ℕ) (nodes : List ℕ) (key : K)
      (opts : ReadOptions)
      → s.memory ≡ some x
      → s.prefer_local ≡ true
      → accepted opts (m.get x key opts).1 ≡ false
      → s.disk ≡ none
      → s.cluster ≡ some y
      → s.has_seeds ≡ true
      → c.nodes_for_key y key ≡ n ∷ nodes
      → (n == c.local_node y) ≡ false
      → is_hit (c.remote_get y n key opts).1 ≡ true
      → (length (c.remote_get y n key opts).1.data_bytes == 0) ≡ false
      → ((get m d c s key opts).1 ≡ (c.remote_get y n key opts).1)
        × ((get m d c s key opts).0.memory
            ≡ some
                (m.put
                  (m.get x key opts).0
                  key
                  (c.remote_get y n key opts).1.data_bytes
                  fetched_options).0)
        × ((get m d c s key opts).0.prefer_local ≡ true)
  unfolding get
  get_fetched s x y n nodes key opts em local bad ed ec seeds list other found some_bytes =
      let s' : Coordinator m d c = record s { memory = some (m.get x key opts).0 } in
      let hits =
        try_cluster_hits s' (m.get x key opts).0 y n nodes key opts refl ec seeds list other found
          some_bytes in
      let whole =
        ap
          (λ a.
            or_else m d c (or_else m d c a (λ t. try_disk m d c t key opts))
              (λ t. try_cluster m d c t key opts))
          (try_memory_misses s x key opts em local bad)
        ∙ ap (λ a. or_else m d c a (λ t. try_cluster m d c t key opts))
            (try_disk_absent s' key opts ed)
        ∙ hits in
      (
        ap (λ b. elim b.1 [ some r ↦ r | none ↦ missed miss ]) whole,
        ap (λ b. b.0.memory) whole,
        ap (λ b. b.0.prefer_local) whole ∙ local,
      )
