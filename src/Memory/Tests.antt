-- ===== src/Memory/Tests.antt =====
-- Examples for `MemoryCache`: keys and chunk identifiers are numbers, and the content hash is the sum of
-- the bytes.
use el_cache.Common.{
  ℕ, ◌+◌, ◌-◌, ◌/◌, ◌≡◌, ◌⊎◌, refl, List, [], ◌∷◌, false, none, some, arith, ltb, ℕ_discrete,
}
use el_cache.Arc.{Doubles, Cache}
use el_cache.Arc
use el_cache.Arc.Invariant.{init-IsValid}
use el_cache.Memory.Get.{slice_of}
use el_cache.Memory.PutGet.{metadata_of, get-put, small-IsResident, put-IsValid_cache}
use el_cache.Memory.Remove.{Removes, remove-Removes}
use el_cache.Memory.{
  MemoryCache, Stored, ReadOptions, requested, get, put, remove, split_value, split_loop,
  get_descriptor, not_found, ok,
}

abbrev counts : Doubles
counts = record {
  Double = ℕ;
  zero_point = 0;
  one = 1;
  add = λ a b. a + b;
  sub = λ a b. a - b;
  ratio = λ a b. a / b;
  of_size = λ n. n;
  to_size = λ a. a;
  less = ltb;
}

abbrev sum : List ℕ → ℕ
sum [] = 0
sum (b ∷ bs) = b + sum bs

abbrev key_size : ℕ → ℕ
key_size k = 3

abbrev empty_cache : MemoryCache ℕ ℕ ℕ
empty_cache = record {
  chunk_cache = Arc.init counts 100;
  descriptors = [];
  hits = 0;
  misses = 0;
  partial_hits = 0;
  bytes_read = 0;
  bytes_written = 0;
  evictions = 0;
}

abbrev five_bytes : List ℕ
five_bytes = 4 ∷ 8 ∷ 15 ∷ 16 ∷ 23 ∷ []

abbrev middle : ReadOptions
middle = record { allow_partial = false; range = some (record { offset = 1; length = 2 }) }

splits_once : split_value five_bytes ≡ five_bytes ∷ []
unfolding split_value split_loop
splits_once = refl

get-put_example :
    (get ℕ_discrete counts ℕ_discrete sum key_size
      (put ℕ_discrete counts ℕ_discrete sum key_size empty_cache 10 7 five_bytes (some 5) 0).0
      12
      7
      middle).1
    ≡ slice_of five_bytes (record { offset = 1; length = 2 }) (metadata_of 10 five_bytes (some 5) 0)
unfolding requested
get-put_example =
    get-put ℕ_discrete counts ℕ_discrete sum key_size empty_cache 10 7 five_bytes (some 5) 0 12
      middle (omega arith) (omega arith) (init-IsValid counts ℕ_discrete 100)
      (small-IsResident ℕ_discrete counts ℕ_discrete sum key_size empty_cache 10 7 five_bytes
        (some 5) 0 (omega arith) (omega arith) (omega arith) (init-IsValid counts ℕ_discrete 100))
      (omega arith) (omega arith) (omega arith)

-- The cache after a `put` of the key 7.
abbrev filled : MemoryCache ℕ ℕ ℕ
filled = (put ℕ_discrete counts ℕ_discrete sum key_size empty_cache 10 7 five_bytes none 0).0

remove-Removes_example :
    ((get_descriptor ℕ_discrete 7 filled.descriptors ≡ none)
      × (remove ℕ_discrete counts ℕ_discrete sum key_size filled 7 ≡ (filled, not_found)))
    ⊎ ((x : Stored ℕ) × (get_descriptor ℕ_discrete 7 filled.descriptors ≡ some x)
        × ((remove ℕ_discrete counts ℕ_discrete sum key_size filled 7).1 ≡ ok)
        × Removes ℕ_discrete counts ℕ_discrete sum key_size filled
            (remove ℕ_discrete counts ℕ_discrete sum key_size filled 7).0
            7
            x.desc.chunks)
remove-Removes_example = remove-Removes ℕ_discrete counts ℕ_discrete sum key_size filled 7 (
    put-IsValid_cache ℕ_discrete counts ℕ_discrete sum key_size empty_cache 10 7 five_bytes none 0
      (omega arith) (omega arith) (init-IsValid counts ℕ_discrete 100))
