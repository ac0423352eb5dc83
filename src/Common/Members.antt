-- ===== src/Common/Members.antt =====
-- Members of a list, lists without repetition, and their lengths.
use Prim.Native.Nat.{suc, ◌≤◌}
use mathlib.Core.Path.{◌≡◌, refl, sym, subst}
use mathlib.Core.Logic.{◌≢◌, ◌⊎◌, inl, inr, ite, if_pos, if_neg}
use mathlib.Core.List.{List, [], ◌∷◌, ◌++◌}
use native.Mathlib.Omega.{arith}
use el_cache.Common.Lists.{length}

abbrev pub Listed : {A : Type 0} → A → List A → Type 0
Listed x [] = ⊥
Listed x (y ∷ l) = (x ≡ y) ⊎ Listed x l

pub Listed-append_left : {A : Type 0} (x : A) (l m : List A) → Listed x l → Listed x (l ++ m)
Listed-append_left x [] m h = absurd h
Listed-append_left x (y ∷ l) m (inl e) = inl e
Listed-append_left x (y ∷ l) m (inr h) = inr (Listed-append_left x l m h)

pub Listed-append_right : {A : Type 0} (x : A) (l m : List A) → Listed x m → Listed x (l ++ m)
Listed-append_right x [] m h = h
Listed-append_right x (y ∷ l) m h = inr (Listed-append_right x l m h)

pub Listed-append_cases :
    {A : Type 0} (x : A) (l m : List A) → Listed x (l ++ m) → Listed x l ⊎ Listed x m
Listed-append_cases x [] m h = inr h
Listed-append_cases x (y ∷ l) m (inl e) = inl (inl e)
Listed-append_cases x (y ∷ l) m (inr h) = elim (Listed-append_cases x l m h) [
  | inl a ↦ inl (inr a)
  | inr b ↦ inr b
]

abbrev pub Nodup : {A : Type 0} → List A → Type 0
Nodup [] = Unit {0}
Nodup (x ∷ l) = ¬ (Listed x l) × Nodup l

module _ {A : Type 0} (dec : Discrete A) where
  -- The list without the first `x`.
  without : A → List A → List A
  without x [] = []
  without x (y ∷ l) = ite (dec x y) l (y ∷ without x l)

  length-without : (x : A) (l : List A) → Listed x l → length l ≡ suc (length (without x l))
  unfolding without
  length-without x [] h = absurd h
  length-without x (y ∷ l) h = elim (dec x y) [
    | yes p ↦ rw (if_pos (dec x y) p) refl
    | no ne ↦
        rw (if_neg (dec x y) ne)
          (elim h [ inl e ↦ absurd (ne e) | inr k ↦ omega (arith, length-without x l k) ])
  ]

  Listed-without : (x y : A) (l : List A) → y ≢ x → Listed y l → Listed y (without x l)
  unfolding without
  Listed-without x y [] ne h = absurd h
  Listed-without x y (z ∷ l) ne h = elim (dec x z) [
    | yes p ↦
        rw (if_pos (dec x z) p)
          (elim h [ inl e ↦ absurd (ne (subst (λ w. y ≡ w) (sym p) e)) | inr k ↦ k ])
    | no nz ↦
        rw (if_neg (dec x z) nz)
          (elim h [ inl e ↦ inl e | inr k ↦ inr (Listed-without x y l ne k) ])
  ]

  -- Distinct members of another list are no more than it has.
  pub length-Nodup :
      (xs ys : List A) → Nodup xs → ((x : A) → Listed x xs → Listed x ys) → length xs ≤ length ys
  length-Nodup [] ys h sub = omega arith
  length-Nodup (x ∷ xs) ys h sub = omega (
    arith,
    length-without x ys (sub x (inl refl)),
    length-Nodup xs (without x ys) h.1
        (λ y k. Listed-without x y ys (λ e. h.0 (subst (λ w. Listed w xs) e k)) (sub y (inr k))),
  )

pub Nodup-append_one :
    {A : Type 0} (l : List A) (x : A) → Nodup l → ¬ (Listed x l) → Nodup (l ++ x ∷ [])
Nodup-append_one [] x h new = ((λ k. k), tt)
Nodup-append_one (y ∷ l) x h new = (
  λ k. elim (Listed-append_cases y l (x ∷ []) k) [
    | inl a ↦ h.0 a
    | inr b ↦ elim b [ inl e ↦ new (inl (sym e)) | inr z ↦ z ]
  ],
  Nodup-append_one l x h.1 (λ k. new (inr k)),
)
