-- ===== src/Codec/Reads.antt =====
-- A decoder reads an encoding: it returns the value and leaves what follows. Rules for decoders in
-- sequence.
use el_cache.Common.{ℕ, ◌≡◌, List, ◌++◌, refl}
use mathlib.Core.List.{append_assoc}
use el_cache.Codec.Parsing.{Parser, ok, ◌>>=◌, pure}

pub record Reads {A : Type 0} (p : Parser A) (bytes : List ℕ) (a : A) : Type 0 where
  pub reads : (rest : List ℕ) → p (bytes ++ rest) ≡ ok (a, rest)

pub Reads-bind :
    {A B : Type 0} {m : Parser A} (f : A → Parser B) {xs ys : List ℕ} {a : A} {b : B}
    → Reads m xs a
    → Reads (f a) ys b
    → Reads (m >>= f) (xs ++ ys) b
unfolding ◌>>=◌
Reads-bind f {xs} {ys} r s = record {
  reads = λ rest. rw (append_assoc xs ys rest, ◌>>=◌, r.reads (ys ++ rest)) (s.reads rest);
}

-- The last step of a sequence, before the result is made.
pub Reads-last :
    {A B : Type 0} {m : Parser A} (g : A → B) {xs : List ℕ} {a : A}
    → Reads m xs a
    → Reads (m >>= λ x. pure (g x)) xs (g a)
unfolding ◌>>=◌ pure
Reads-last g r = record { reads = λ rest. rw (◌>>=◌, r.reads rest) refl }
