-- ===== src/Chunk/Missing.antt =====
-- `PartialValue::missing_ranges`: it ends, and its ranges are the positions whose chunks are missing.
use el_cache.Common.{
  ℕ, zero, suc, ◌+◌, ◌-◌, ◌*◌, ◌/◌, ◌%◌, ◌≡◌, ◌≤◌, ◌<◌, ◌↔◌, ◌⊎◌, inl, inr, ap, subst, ◌∙◌, true,
  false, some, List, [], ◌∷◌, ltb, leb, ◌==◌, if◌then◌else◌, ◌||◌, arith, add64, sub64, add64_exact,
  u64_mod, Bool-cases, dec_lt, min, max, All,
}
use el_cache.Range.{Range, end, chunk_size}
use el_cache.Chunk.{PartialValue, has_chunk, merge, missing_round, missing_loop, missing_ranges}

-- The position lies in one of the ranges.
abbrev pub Covered : List Range → ℕ → Type 0
Covered [] x = ⊥
Covered (r ∷ rs) x = ((r.offset ≤ x) × (x < r.offset + r.length)) ⊎ Covered rs x

abbrev Bounded : ℕ → Range → Type 0
Bounded n r = r.offset + r.length ≤ n

-- To add a range that starts where all the others have ended adds its positions.
merge-Covered :
    (rs : List Range) (start len x : ℕ)
    → start + len < u64_mod
    → All (Bounded start) rs
    → Covered (merge rs start len) x ↔ (Covered rs x ⊎ ((start ≤ x) × (x < start + len)))
unfolding merge end add64
merge-Covered [] start len x h b = (λ c. ground arith, λ c. ground arith)
merge-Covered (r ∷ []) start len x h b = (λ c. ground arith, λ c. ground arith)
merge-Covered (r ∷ r' ∷ rs) start len x h b =
    let (f, g) = merge-Covered (r' ∷ rs) start len x h b.1 in
    (
      λ c. elim c [
        | inl a ↦ inl (inl a)
        | inr c' ↦ elim (f c') [ inl a ↦ inl (inr a) | inr a ↦ inr a ]
      ],
      λ c. elim c [
        | inl c' ↦ elim c' [ inl a ↦ inl a | inr a ↦ inr (g (inl a)) ]
        | inr a ↦ inr (g (inr a))
      ],
    )

merge-Bounded :
    (rs : List Range) (start len : ℕ)
    → start + len < u64_mod
    → All (Bounded start) rs
    → All (Bounded (start + len)) (merge rs start len)
unfolding merge end add64
merge-Bounded [] start len h b = omega arith
merge-Bounded (r ∷ []) start len h b = ground arith
merge-Bounded (r ∷ r' ∷ rs) start len h b = (omega arith, merge-Bounded (r' ∷ rs) start len h b.1)

module _ {ChunkId : Type 0} (p : PartialValue ChunkId) (lo eff : ℕ) where
  -- The position lies from `lo` up to `n`, and its chunk is missing.
  abbrev pub Missing : ℕ → ℕ → Type 0
  Missing n x = (lo ≤ x) × (x < n) × (has_chunk p (x / chunk_size) ≡ false)

  -- The ranges end by `current`, and are the missing positions before it.
  record Found (current : ℕ) (missing : List Range) : Type 0 where
    bounded : All (Bounded (min eff current)) missing
    exact : (x : ℕ) → Covered missing x ↔ Missing (min eff current) x

  module _ (small : p.total_size + chunk_size < u64_mod) (within : eff ≤ p.total_size) where
    round_advances :
        (current : ℕ) (missing : List Range)
        → current < eff
        → current < (missing_round p eff current missing).0
    unfolding missing_round add64
    round_advances current missing h = omega arith

    All-mono : (m n : ℕ) (rs : List Range) → m ≤ n → All (Bounded m) rs → All (Bounded n) rs
    All-mono m n [] h b = tt
    All-mono m n (r ∷ rs) h b = (omega arith, All-mono m n rs h b.1)

    -- Where the chunk of a position ends, within the size.
    abbrev chunk_stop : ℕ → ℕ
    chunk_stop current = min (current / chunk_size * chunk_size + chunk_size) p.total_size

    round_lem :
        (current : ℕ) (missing : List Range)
        → current < eff
        → missing_round p eff current missing ≡ (
          chunk_stop current,
          if has_chunk p (current / chunk_size)
              then missing
              else merge missing current (min eff (chunk_stop current) - current),
        )
    unfolding missing_round add64 sub64
    round_lem current missing h =
        let stop : min ((current / chunk_size * chunk_size + chunk_size) % u64_mod) p.total_size
            ≡ chunk_stop current =
          omega arith in
        let start : max current (current / chunk_size * chunk_size) ≡ current = omega arith in
        let len : (min eff (chunk_stop current) + u64_mod - current % u64_mod) % u64_mod
            ≡ min eff (chunk_stop current) - current =
          omega arith in
        rw (stop, start, len)

    -- The positions up to the end of the chunk have the same chunk.
    same_chunk :
        (current x : ℕ)
        → current ≤ x
        → x < chunk_stop current
        → has_chunk p (x / chunk_size) ≡ has_chunk p (current / chunk_size)
    same_chunk current x h k =
        let e : x / chunk_size ≡ current / chunk_size = omega arith in ap (has_chunk p) e

    held-Found :
        (current : ℕ) (missing : List Range)
        → current < eff
        → has_chunk p (current / chunk_size) ≡ true
        → Found current missing
        → Found (chunk_stop current) missing
    held-Found current missing h held found = record {
      bounded =
          All-mono (min eff current) (min eff (chunk_stop current)) missing (omega arith)
            found.bounded;
      exact = λ x.
          let (f, g) = found.exact x in
          (
            λ c. let (a, b, d) = f c in (a, omega arith, d),
            λ m. elim (dec_lt x current) [
              | yes below ↦ g (m.0, omega arith, m.2)
              | no over ↦
                  let at : has_chunk p (x / chunk_size) ≡ true =
                    same_chunk current x (omega arith) (omega arith) ∙ held in
                  let off = m.2 in absurd (ground (arith, at, off))
            ],
          );
    }

    lacking-Found :
        (current : ℕ) (missing : List Range)
        → lo ≤ current
        → current < eff
        → has_chunk p (current / chunk_size) ≡ false
        → Found current missing
        → Found
            (chunk_stop current)
            (merge missing current (min eff (chunk_stop current) - current))
    lacking-Found current missing above h lacking found =
        let start : min eff current ≡ current = omega arith in
        let stop : current + (min eff (chunk_stop current) - current)
            ≡ min eff (chunk_stop current) =
          omega arith in
        let bounded : All (Bounded current) missing =
          subst (λ n. All (Bounded n) missing) start found.bounded in
        record {
          bounded =
              subst
                (λ n.
                  All (Bounded n) (merge missing current (min eff (chunk_stop current) - current)))
                stop (merge-Bounded missing current _ (omega arith) bounded);
          exact = λ x.
              let (f, g) = found.exact x in
              let (u, v) =
                merge-Covered missing current (min eff (chunk_stop current) - current) x
                  (omega arith) bounded in
              (
                λ c. elim (u c) [
                  | inl c' ↦ (let (a, b, d) = f c' in (a, omega arith, d))
                  | inr r ↦
                      (omega arith, omega arith, same_chunk current x r.0 (omega arith) ∙ lacking)
                ],
                λ m. v (elim (dec_lt x current) [
                  | yes below ↦ inl (g (m.0, omega arith, m.2))
                  | no over ↦ inr (omega arith, omega arith)
                ]),
              );
        }

    round-Found :
        (current : ℕ) (missing : List Range)
        → lo ≤ current
        → current < eff
        → Found current missing
        → Found (missing_round p eff current missing).0 (missing_round p eff current missing).1
    round-Found current missing above h found =
        elim (Bool-cases (has_chunk p (current / chunk_size))) [
          | inl held ↦
              rw (round_lem current missing h) (rw held (held-Found current missing h held found))
          | inr lacking ↦
              rw (round_lem current missing h)
                (rw lacking (lacking-Found current missing above h lacking found))
        ]

    missing_loop-Found :
        (fuel current : ℕ) (missing : List Range)
        → lo ≤ current
        → eff - current < fuel
        → Found current missing
        → (rs : List Range) × (missing_loop fuel p eff current missing ≡ some rs)
          × ((x : ℕ) → Covered rs x ↔ Missing eff x)
    unfolding missing_loop
    missing_loop-Found zero current missing above enough found = absurd (omega arith)
    missing_loop-Found (suc fuel) current missing above enough found =
        elim (Bool-cases (ltb current eff)) [
          | inl more ↦
              let less : current < eff = ground arith in
              let step = round_advances current missing less in
              let (rs, runs, exact) =
                missing_loop-Found fuel (missing_round p eff current missing).0
                  (missing_round p eff current missing).1 (omega arith) (omega arith)
                  (round-Found current missing above less found) in
              (rs, rw more runs, exact)
          | inr stop ↦
              let e : min eff current ≡ eff = ground arith in
              (
                missing,
                rw stop,
                λ x. subst (λ n. Covered missing x ↔ Missing n x) e (found.exact x),
              )
        ]

module _ {ChunkId : Type 0} where
  missing_ranges_runs :
      (p : PartialValue ChunkId) (range : Range) {rs : List Range}
      → ((range.length == 0) || leb p.total_size range.offset) ≡ false
      → range.offset + range.length < u64_mod
      → (let eff : ℕ = min (range.offset + range.length) p.total_size in
          missing_loop (suc (eff - range.offset)) p eff range.offset [] ≡ some rs)
      → missing_ranges p range ≡ some rs
  unfolding missing_ranges end
  missing_ranges_runs p range something fits runs =
      let e : add64 range.offset range.length ≡ range.offset + range.length =
        add64_exact range.offset range.length fits in
      rw (something, e) runs

  -- For a value smaller than 2 ^ 64 less one chunk, and a range whose end fits in 64 bits, the loop
  -- ends, and a position is in one of the ranges exactly when it lies in the range and in the value
  -- and its chunk is not available.
  pub missing_ranges-exact :
      (p : PartialValue ChunkId) (range : Range)
      → p.total_size + chunk_size < u64_mod
      → range.offset + range.length < u64_mod
      → (rs : List Range) × (missing_ranges p range ≡ some rs)
        × ((x : ℕ)
            → Covered rs x ↔ (
                (range.offset ≤ x)
                × (x < range.offset + range.length)
                × (x < p.total_size)
                × (has_chunk p (x / chunk_size) ≡ false)))
  unfolding missing_ranges
  missing_ranges-exact p range small fits =
      elim (Bool-cases ((range.length == 0) || leb p.total_size range.offset)) [
        | inl nothing ↦
            ([], rw nothing, λ x. (λ c. absurd c, λ m. absurd (ground (arith, nothing))))
        | inr something ↦
            let lo : ℕ = range.offset in
            let eff : ℕ = min (range.offset + range.length) p.total_size in
            let inside : lo < eff = ground arith in
            let (rs, runs, exact) =
              missing_loop-Found p lo eff small (omega arith) (suc (eff - lo)) lo [] (omega arith)
                (omega arith)
                (record {
                  bounded = tt;
                  exact = λ x. (λ c. absurd c, λ m. absurd (omega arith));
                }) in
            (
              rs,
              missing_ranges_runs p range something fits runs,
              λ x.
                  let (f, g) = exact x in
                  (
                    λ c. let (a, b, d) = f c in (a, omega arith, omega arith, d),
                    λ m. g (m.0, omega arith, m.3),
                  ),
            )
      ]
