-- ===== src/Base/Texts.antt =====
-- A Go string is its sequence of bytes.
use Prim.Native.Nat.{ℕ}
use Prim.Native.Char.{code}
use Prim.Native.String.{String}
use mathlib.Core.Path.{◌≡◌, refl}
use mathlib.Core.Logic.{◌↔◌}
use mathlib.Core.Bool.{Bool, true, false, ◌&&◌}
use mathlib.Core.List.{List, [], ◌∷◌}
use native.Mathlib.Omega.{arith}
use canterbury.Base.Tests.{◌==◌}

abbrev pub Bytes : Type 0
Bytes = List ℕ

-- The bytes of an ASCII literal.
abbrev pub codes : String → Bytes
codes String.[] = []
codes (String.◌∷◌ c s) = code c ∷ codes s

-- `a == b` on strings.
infix 50 ◌=s=◌
unfoldable pub ◌=s=◌ : Bytes → Bytes → Bool
[] =s= [] = true
(a ∷ s) =s= (b ∷ t) = a == b && s =s= t
_ =s= _ = false

pub =s=_sound : (s t : Bytes) → (s =s= t) ≡ true → s ≡ t
unfolding ◌=s=◌
=s=_sound [] [] h = refl
=s=_sound (a ∷ s) (b ∷ t) h = ground (arith, =s=_sound s t)
=s=_sound [] (b ∷ t) h = cc
=s=_sound (a ∷ s) [] h = cc

pub =s=_refl : (s : Bytes) → (s =s= s) ≡ true
unfolding ◌=s=◌
=s=_refl [] = refl
=s=_refl (a ∷ s) = ground (arith, =s=_refl s)

pub =s=_iff : (s t : Bytes) → ((s =s= t) ≡ true) ↔ (s ≡ t)
=s=_iff s t = (=s=_sound s t, λ e. rw e (=s=_refl t))
