-- ===== src/Prelude/Order.antt =====
-- Python's order on `str`: by code points, from the left. `min` and `sorted` go by such an order.
use Prim.Native.String.{String}
use Prim.Native.Char.{code}
use mathlib.Core.Path.{◌≡◌, refl}
use mathlib.Core.Logic.{◌⊎◌, inl, inr}
use mathlib.Core.Bool.{Bool, true, false, ◌&&◌, ◌||◌}
use native.Mathlib.Omega.{arith}
use text.Mathlib.TextEquality.{Char-path}
use supvisors.Prelude.Tests.{Name, ltb, nat_beq}

unfoldable pub name_le : Name → Name → Bool
name_le String.[] t = true
name_le (String.◌∷◌ c s) String.[] = false
name_le (String.◌∷◌ c s) (String.◌∷◌ d t) =
    ltb (code c) (code d) || (nat_beq (code c) (code d) && name_le s t)

pub name_le_refl : (s : Name) → name_le s s ≡ true
unfolding name_le
name_le_refl String.[] = refl
name_le_refl (String.◌∷◌ c s) = ground (arith, name_le_refl s)

pub name_le_total : (s t : Name) → (name_le s t ≡ true) ⊎ (name_le t s ≡ true)
unfolding name_le
name_le_total String.[] t = inl refl
name_le_total (String.◌∷◌ c s) String.[] = inr refl
name_le_total (String.◌∷◌ c s) (String.◌∷◌ d t) = ground (arith, name_le_total s t)

pub name_le_trans : (s t u : Name) → name_le s t ≡ true → name_le t u ≡ true → name_le s u ≡ true
unfolding name_le
name_le_trans String.[] t u h k = refl
name_le_trans (String.◌∷◌ c s) String.[] u h k = absurd (ground arith)
name_le_trans (String.◌∷◌ c s) (String.◌∷◌ d t) String.[] h k = absurd (ground arith)
name_le_trans (String.◌∷◌ c s) (String.◌∷◌ d t) (String.◌∷◌ e u) h k =
    ground (arith, name_le_trans s t u)

pub name_le_antisymm : (s t : Name) → name_le s t ≡ true → name_le t s ≡ true → s ≡ t
unfolding name_le
name_le_antisymm String.[] String.[] h k = refl
name_le_antisymm String.[] (String.◌∷◌ d t) h k = absurd (ground arith)
name_le_antisymm (String.◌∷◌ c s) String.[] h k = absurd (ground arith)
name_le_antisymm (String.◌∷◌ c s) (String.◌∷◌ d t) h k =
    λ i. String.◌∷◌ (same_head i) (name_le_antisymm s t (ground arith) (ground arith) i)
  where
    same_head : c ≡ d
    same_head = Char-path c d (ground arith)
