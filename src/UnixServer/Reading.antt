-- ===== src/UnixServer/Reading.antt =====
-- The steps in which a handler reads a payload: a read past its end is a fault, and a failed test of its
-- length an early return.
use el_cache.Common.{ℕ, Bool, true, false, Option, none, some, List}
use el_cache.Wire.{bytes_at, number_at}

pub data Read {ℓ} (A : Type ℓ) : Type ℓ where
  got : A → Read A
  short : Read A
  fault : Read A

infixl 5 ◌>>=◌ ◌>>◌
abbrev pub ◌>>=◌ {ℓ κ} : {A : Type ℓ} {B : Type κ} → Read A → (A → Read B) → Read B
got a >>= f = f a
short >>= f = short
fault >>= f = fault

abbrev pub ◌>>◌ {ℓ} : {B : Type ℓ} → Read (Unit {0}) → Read B → Read B
m >> k = m >>= λ _. k

abbrev pub ensure : Bool → Read (Unit {0})
ensure true = got tt
ensure false = short

abbrev pub from_option {ℓ} : {A : Type ℓ} → Option A → Read A
from_option none = fault
from_option (some a) = got a

abbrev pub number : List ℕ → ℕ → ℕ → Read ℕ
number payload pos n = from_option (number_at payload pos n)

abbrev pub bytes : List ℕ → ℕ → ℕ → Read (List ℕ)
bytes payload pos n = from_option (bytes_at payload pos n)
