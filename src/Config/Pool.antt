-- ===== src/Config/Pool.antt =====
-- `PoolConfig` written by `Config::to_json` and read by `Config::load_json` (src/core/config.cpp).
use el_cache.Common.{
  ℕ, ◌^◌, ◌≡◌, ◌<◌, refl, ap, ◌∙◌, Bool, true, false, ◌||◌, none, some, drop, List, ◌∷◌, ◌++◌,
}
use mathlib.Core.List.{append_assoc}
use el_cache.Text.{codes, decimal, starts_with}
use el_cache.Text.Numbers.{Digits, decimal-Digits}
use el_cache.Config.{PoolConfig, load_pool}
use el_cache.Config.Printing.{pool_json, bool_text}
use el_cache.Config.Json.{
  quoted, colon, at_key, behind, behind_colon, get_int, get_bool, get_object, object_part,
}
use el_cache.Config.Objects.{
  absent, at_key-append, at_key-Digits, object_part-Digits, get_int-decimal,
}

-- What stands behind the numbers, up to the brace that closes the object.
abbrev flags_part : Bool → Bool → List ℕ
flags_part reads writes =
    codes ",\n    \"accept_remote_reads\": "
    ++ bool_text reads
    ++ codes ",\n    \"accept_remote_writes\": "
    ++ bool_text writes
    ++ codes "\n  }"

abbrev disk_key : List ℕ
disk_key = codes ",\n    \"disk_contribution\": "

abbrev memory_key : List ℕ
memory_key = codes "{\n    \"memory_contribution\": "

-- The object that `pool_json` writes.
pool_object : PoolConfig → List ℕ
pool_object p =
    memory_key
    ++ (decimal p.memory_contribution
        ++ (disk_key
            ++ (decimal p.disk_contribution
                ++ flags_part p.accept_remote_reads p.accept_remote_writes)))

object_part-flags :
    (reads writes : Bool) (r : List ℕ)
    → object_part 1 (flags_part reads writes ++ r) ≡ flags_part reads writes
unfolding object_part
object_part-flags true true r = refl
object_part-flags true false r = refl
object_part-flags false true r = refl
object_part-flags false false r = refl

pool_json-pool_object :
    (p : PoolConfig) → pool_json p ≡ codes "  \"pool\": " ++ (pool_object p ++ codes ",\n")
unfolding pool_json pool_object
pool_json-pool_object p = simp append_assoc

-- The object up to its closing brace, whatever stands behind it.
object_part-parts :
    (m d f r : List ℕ)
    → Digits m
    → Digits d
    → object_part 1 (f ++ r) ≡ f
    → object_part 1 ((m ++ (disk_key ++ (d ++ f))) ++ r) ≡ m ++ (disk_key ++ (d ++ f))
unfolding object_part
object_part-parts m d f r hm hd hf =
    let tail : object_part 1 ((d ++ f) ++ r) ≡ d ++ f =
      ap (object_part 1) (append_assoc d f r)
      ∙ object_part-Digits 0 d (f ++ r) hd
      ∙ ap (λ z. d ++ z) hf in
    ap (object_part 1) (append_assoc m (disk_key ++ (d ++ f)) r)
    ∙ object_part-Digits 0 m ((disk_key ++ (d ++ f)) ++ r) hm
    ∙ ap (λ z. m ++ (disk_key ++ z)) tail

get_object-pool_json : (p : PoolConfig) → get_object (codes "pool") (pool_json p) ≡ pool_object p
unfolding get_object pool_object object_part
get_object-pool_json p =
    ap (get_object (codes "pool")) (pool_json-pool_object p)
    ∙ ap (λ z. memory_key ++ z)
        (object_part-parts (decimal p.memory_contribution) (decimal p.disk_contribution)
          (flags_part p.accept_remote_reads p.accept_remote_writes) (codes ",\n")
          (decimal-Digits p.memory_contribution) (decimal-Digits p.disk_contribution)
          (object_part-flags p.accept_remote_reads p.accept_remote_writes (codes ",\n")))

behind_colon-at_key :
    (key a b : List ℕ) → at_key key a ≡ at_key key b → behind_colon key a ≡ behind_colon key b
unfolding behind_colon
behind_colon-at_key key a b e = ap (λ z. elim z [ none ↦ none | some s ↦ behind colon s ]) e

get_bool-behind_colon :
    (key a b : List ℕ) (default : Bool)
    → behind_colon key a ≡ behind_colon key b
    → get_bool key default a ≡ get_bool key default b
unfolding get_bool
get_bool-behind_colon key a b default e = rw (e, get_bool) refl

-- A key that is no number's stands behind the first number, and one that is neither behind both.
at_key-disk_key :
    (key : List ℕ) (p : PoolConfig)
    → absent (quoted key) memory_key (
        decimal p.memory_contribution
        ++ (disk_key
            ++ (decimal p.disk_contribution
                ++ flags_part p.accept_remote_reads p.accept_remote_writes)))
      ≡ true
    → at_key key (pool_object p)
      ≡ at_key key (
          disk_key
          ++ (decimal p.disk_contribution
              ++ flags_part p.accept_remote_reads p.accept_remote_writes))
unfolding pool_object
at_key-disk_key key p h =
    at_key-append key memory_key _ h
    ∙ at_key-Digits key (decimal p.memory_contribution) _ (decimal-Digits p.memory_contribution)

at_key-flags_part :
    (key : List ℕ) (p : PoolConfig)
    → absent
        (quoted key)
        disk_key
        (decimal p.disk_contribution ++ flags_part p.accept_remote_reads p.accept_remote_writes)
      ≡ true
    → at_key key (
        disk_key
        ++ (decimal p.disk_contribution ++ flags_part p.accept_remote_reads p.accept_remote_writes))
      ≡ at_key key (flags_part p.accept_remote_reads p.accept_remote_writes)
at_key-flags_part key p h =
    at_key-append key disk_key _ h
    ∙ at_key-Digits key (decimal p.disk_contribution) _ (decimal-Digits p.disk_contribution)

get_int-memory :
    (p : PoolConfig)
    → p.memory_contribution < 2 ^ 63
    → get_int (codes "memory_contribution") 0 (pool_object p) ≡ some p.memory_contribution
unfolding pool_object behind_colon
get_int-memory p h =
    get_int-decimal (codes "memory_contribution") (pool_object p) _ p.memory_contribution 0 44 refl
      refl h

get_int-disk :
    (p : PoolConfig)
    → p.disk_contribution < 2 ^ 63
    → get_int (codes "disk_contribution") 0 (pool_object p) ≡ some p.disk_contribution
unfolding behind_colon
get_int-disk p h =
    let flags = flags_part p.accept_remote_reads p.accept_remote_writes in
    let place = at_key-disk_key (codes "disk_contribution") p refl in
    let found : behind_colon (codes "disk_contribution")
          (disk_key ++ (decimal p.disk_contribution ++ flags))
        ≡ some (32 ∷ (decimal p.disk_contribution ++ flags)) =
      refl in
    get_int-decimal (codes "disk_contribution") (pool_object p) (drop 1 flags) p.disk_contribution 0
      44
      (behind_colon-at_key (codes "disk_contribution") (pool_object p)
          (disk_key ++ (decimal p.disk_contribution ++ flags)) place
        ∙ found)
      refl h

-- The first flag is read as true where one of the two is; the second as it stands.
get_bool-reads :
    (reads writes : Bool)
    → get_bool (codes "accept_remote_reads") true (flags_part reads writes) ≡ (reads || writes)
unfolding get_bool
get_bool-reads true true = refl
get_bool-reads true false = refl
get_bool-reads false true = refl
get_bool-reads false false = refl

get_bool-writes :
    (reads writes : Bool)
    → get_bool (codes "accept_remote_writes") true (flags_part reads writes) ≡ writes
unfolding get_bool
get_bool-writes true true = refl
get_bool-writes true false = refl
get_bool-writes false true = refl
get_bool-writes false false = refl

get_bool-flags_part :
    (key : List ℕ) (p : PoolConfig)
    → at_key key (pool_object p)
      ≡ at_key key (flags_part p.accept_remote_reads p.accept_remote_writes)
    → get_bool key true (pool_object p)
      ≡ get_bool key true (flags_part p.accept_remote_reads p.accept_remote_writes)
get_bool-flags_part key p e =
    get_bool-behind_colon key (pool_object p) _ true (behind_colon-at_key key (pool_object p) _ e)

-- The part that `to_json` writes for the pool, standing alone, with contributions that an `int64_t` holds:
-- from the object that `get_object` finds there, the pool's step of `load_json` takes the numbers and the
-- second flag as they were; the first flag is set where either of the two was, so that a pool that refuses
-- remote reads and takes remote writes is read as one that takes both.
pub load_pool-pool_json :
    (p : PoolConfig)
    → p.memory_contribution < 2 ^ 63
    → p.disk_contribution < 2 ^ 63
    → load_pool (get_object (codes "pool") (pool_json p))
      ≡ some (record p { accept_remote_reads = p.accept_remote_reads || p.accept_remote_writes })
unfolding load_pool starts_with
load_pool-pool_json p hm hd =
    ap load_pool (get_object-pool_json p)
    ∙ rw
        (
          get_int-memory p hm,
          load_pool,
          get_int-disk p hd,
          get_bool-flags_part (codes "accept_remote_reads") p (
                at_key-disk_key (codes "accept_remote_reads") p refl
                ∙ at_key-flags_part (codes "accept_remote_reads") p refl)
              ∙ get_bool-reads p.accept_remote_reads p.accept_remote_writes,
          get_bool-flags_part (codes "accept_remote_writes") p (
                at_key-disk_key (codes "accept_remote_writes") p refl
                ∙ at_key-flags_part (codes "accept_remote_writes") p refl)
              ∙ get_bool-writes p.accept_remote_reads p.accept_remote_writes,
        )
        refl
