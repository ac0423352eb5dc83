-- ===== src/Common/Slices.antt =====
-- `take` and `drop` together: slices of a list of bytes.
use Prim.Native.Nat.{ℕ, zero, suc, ◌+◌, ◌-◌, ◌≤◌, min}
use mathlib.Core.Path.{◌≡◌, refl}
use mathlib.Core.List.{List, [], ◌∷◌, ◌++◌}
use native.Mathlib.Omega.{arith}
use el_cache.Common.Lists.{length, take, drop}

pub take-nil : (n : ℕ) → take {A = ℕ} n [] ≡ []
take-nil zero = refl
take-nil (suc n) = refl

pub take-take : (m n : ℕ) (xs : List ℕ) → m ≤ n → take m (take n xs) ≡ take m xs
take-take zero n xs h = refl
take-take (suc m) zero xs h = absurd (omega arith)
take-take (suc m) (suc n) [] h = refl
take-take (suc m) (suc n) (x ∷ xs) h = rw (take-take m n xs (omega arith)) refl

pub drop-take : (m n : ℕ) (xs : List ℕ) → drop m (take n xs) ≡ take (n - m) (drop m xs)
drop-take zero n xs = let e : n - 0 ≡ n = omega arith in rw e refl
drop-take (suc m) zero xs = let e : 0 - suc m ≡ 0 = omega arith in rw e refl
drop-take (suc m) (suc n) [] = rw (take-nil (suc n - suc m)) refl
drop-take (suc m) (suc n) (x ∷ xs) =
    let e : suc n - suc m ≡ n - m = omega arith in rw (e, drop-take m n xs) refl

pub take-append_take : (m n : ℕ) (xs : List ℕ) → take m xs ++ take n (drop m xs) ≡ take (m + n) xs
take-append_take zero n xs = let e : 0 + n ≡ n = omega arith in rw e refl
take-append_take (suc m) n [] = rw (take-nil n, take-nil (suc m + n)) refl
take-append_take (suc m) n (x ∷ xs) =
    let e : suc m + n ≡ suc (m + n) = omega arith in rw (e, take-append_take m n xs) refl

pub take-min_length : (n : ℕ) (xs : List ℕ) → take (min n (length xs)) xs ≡ take n xs
take-min_length zero xs = let e : min 0 (length xs) ≡ 0 = omega arith in rw e refl
take-min_length (suc n) [] = let e : min (suc n) 0 ≡ 0 = omega arith in rw e refl
take-min_length (suc n) (x ∷ xs) =
    let e : min (suc n) (suc (length xs)) ≡ suc (min n (length xs)) = omega arith in
    rw (e, take-min_length n xs) refl

pub drop_all : (n : ℕ) (xs : List ℕ) → length xs ≤ n → drop n xs ≡ []
drop_all zero [] h = refl
drop_all zero (x ∷ xs) h = absurd (omega arith)
drop_all (suc n) [] h = refl
drop_all (suc n) (x ∷ xs) h = drop_all n xs (omega arith)

pub take_all : (n : ℕ) (xs : List ℕ) → length xs ≤ n → take n xs ≡ xs
take_all zero [] h = refl
take_all zero (x ∷ xs) h = absurd (omega arith)
take_all (suc n) [] h = refl
take_all (suc n) (x ∷ xs) h = rw (take_all n xs (omega arith)) refl

-- The next bytes, however many are left, and those behind them.
pub take-min_append :
    (m n : ℕ) (xs : List ℕ)
    → take (min m (length xs)) xs ++ take n (drop (min m (length xs)) xs) ≡ take (m + n) xs
take-min_append zero n xs =
    let e : min 0 (length xs) ≡ 0 = omega arith in
    let e' : 0 + n ≡ n = omega arith in rw (e, e') refl
take-min_append (suc m) n [] =
    let e : min (suc m) 0 ≡ 0 = omega arith in rw (e, take-nil n, take-nil (suc m + n)) refl
take-min_append (suc m) n (x ∷ xs) =
    let e : min (suc m) (suc (length xs)) ≡ suc (min m (length xs)) = omega arith in
    let e' : suc m + n ≡ suc (m + n) = omega arith in rw (e, e', take-min_append m n xs) refl
