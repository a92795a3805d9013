-- ===== src/Base/Member.antt =====
-- Membership in a list of strings: Go's loops over a slice and its look-up in a set.
use mathlib.Core.Path.{◌≡◌, refl, sym}
use mathlib.Core.Logic.{◌↔◌, ◌≢◌, inl, inr}
use mathlib.Core.Bool.{Bool, true, false, ◌||◌}
use mathlib.Core.List.{List, [], ◌∷◌, ◌++◌, Memᴰ}
use native.Mathlib.Omega.{arith}
use canterbury.Base.Tests.{Bool-cases}
use canterbury.Base.Texts.{Bytes, ◌=s=◌, =s=_sound, =s=_iff}

unfoldable pub elem : Bytes → List Bytes → Bool
elem x [] = false
elem x (y ∷ ys) = y =s= x || elem x ys

pub elem-Memᴰ : (x : Bytes) (ys : List Bytes) → elem x ys ≡ true → Memᴰ x ys
unfolding elem
elem-Memᴰ x [] h = cc
elem-Memᴰ x (y ∷ ys) h = elim (Bool-cases (y =s= x)) [
  | inl same ↦ Memᴰ.head (sym (=s=_sound y x same))
  | inr other ↦ Memᴰ.tail (elem-Memᴰ x ys (ground arith))
]

pub Memᴰ-elem : (x : Bytes) {ys : List Bytes} → Memᴰ x ys → elem x ys ≡ true
unfolding elem
Memᴰ-elem x (Memᴰ.head {x = y} e) = ground (arith, =s=_iff y x, e)
Memᴰ-elem x (Memᴰ.tail {x = y} m) = ground (arith, Memᴰ-elem x m)

pub elem_iff : (x : Bytes) (ys : List Bytes) → (elem x ys ≡ true) ↔ Memᴰ x ys
elem_iff x ys = (elem-Memᴰ x ys, Memᴰ-elem x)

-- A list with no string twice.
abbrev pub Distinct : List Bytes → Type 0
Distinct [] = Unit
Distinct (x ∷ xs) = (elem x xs ≡ false) × Distinct xs

pub elem-append : (x : Bytes) (ys zs : List Bytes) → elem x (ys ++ zs) ≡ (elem x ys || elem x zs)
unfolding elem
elem-append x [] zs = refl
elem-append x (y ∷ ys) zs = ground (arith, elem-append x ys zs)

pub elem-concat : (x y : Bytes) (ys : List Bytes) → elem x (ys ++ y ∷ []) ≡ (elem x ys || y =s= x)
unfolding elem
elem-concat x y [] = ground arith
elem-concat x y (z ∷ ys) = ground (arith, elem-concat x y ys)

=s=_comm : (x y : Bytes) → (x =s= y) ≡ (y =s= x)
=s=_comm x y = ground (arith, =s=_iff x y, =s=_iff y x)

pub Distinct-concat :
    (xs : List Bytes) (x : Bytes) → Distinct xs → elem x xs ≡ false → Distinct (xs ++ x ∷ [])
unfolding elem
Distinct-concat [] x d h = (refl, tt)
Distinct-concat (y ∷ ys) x (fresh, d) h =
    (ground (arith, elem-concat y x ys, =s=_comm x y), Distinct-concat ys x d (ground arith))

pub Memᴰ-of-ne-nil : (xs : List Bytes) → xs ≢ [] → (x : Bytes) × Memᴰ x xs
Memᴰ-of-ne-nil [] ne = absurd (ne refl)
Memᴰ-of-ne-nil (x ∷ xs) ne = (x, Memᴰ.head refl)

pub not-Memᴰ-nil : {x : Bytes} → ¬ (Memᴰ x [])
unfolding elem
not-Memᴰ-nil {x} m = cc (Memᴰ-elem x m)
