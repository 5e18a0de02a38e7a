-- ===== src/Prelude/Text.antt =====
-- Python's `str` as the list of its code points, with equality and the order of sorting.
use Prim.Native.Char.{code}
use Prim.Native.String.{String}
use Prim.Native.Nat.{ℕ}
use mathlib.Core.Path.{◌≡◌, refl}
use mathlib.Core.Bool.{Bool, true, false, ◌&&◌, ◌||◌}
use mathlib.Core.Logic.{◌↔◌}
use mathlib.Core.List.{List, [], ◌∷◌}
use native.Mathlib.Omega.{arith}
use skodun.Prelude.Tests.{◌==◌, ltb}
use skodun.Prelude.Lists.{is_empty}

abbrev pub Text : Type 0
Text = List ℕ

-- A literal.
abbrev pub codes : String → Text
codes String.[] = []
codes (String.◌∷◌ c s) = code c ∷ codes s

unfoldable pub text_eq : Text → Text → Bool
text_eq [] [] = true
text_eq [] (b ∷ t) = false
text_eq (a ∷ s) [] = false
text_eq (a ∷ s) (b ∷ t) = a == b && text_eq s t

pub text_eq_iff : (s t : Text) → (text_eq s t ≡ true) ↔ (s ≡ t)
unfolding text_eq
text_eq_iff [] [] = ground arith
text_eq_iff [] (b ∷ t) = ground arith
text_eq_iff (a ∷ s) [] = ground arith
text_eq_iff (a ∷ s) (b ∷ t) = ground (arith, text_eq_iff s t)

pub text_eq_refl : (s : Text) → text_eq s s ≡ true
text_eq_refl s = (text_eq_iff s s).1 refl

-- `s in words`.
unfoldable pub is_in : Text → List Text → Bool
unfolding text_eq
is_in s [] = false
is_in s (w ∷ ws) = text_eq s w || is_in s ws

-- `s < t` on texts: the first code point that differs decides.
unfoldable pub text_lt : Text → Text → Bool
text_lt s [] = false
text_lt [] (b ∷ t) = true
text_lt (a ∷ s) (b ∷ t) = ltb a b || (a == b && text_lt s t)

-- `not <` is transitive: the order is total.
pub text_lt-trans_not :
    (s t u : Text) → text_lt t s ≡ false → text_lt u t ≡ false → text_lt u s ≡ false
unfolding text_lt
text_lt-trans_not [] t [] p q = refl
text_lt-trans_not [] t (c ∷ u) p q = refl
text_lt-trans_not (a ∷ s) [] u p q = ground arith
text_lt-trans_not (a ∷ s) (b ∷ t) [] p q = ground arith
text_lt-trans_not (a ∷ s) (b ∷ t) (c ∷ u) p q = ground (arith, text_lt-trans_not s t u)

pub text_lt-asym : (s t : Text) → text_lt s t ≡ true → text_lt t s ≡ false
unfolding text_lt
text_lt-asym s [] p = ground arith
text_lt-asym [] (b ∷ t) p = refl
text_lt-asym (a ∷ s) (b ∷ t) p = ground (arith, text_lt-asym s t)

pub text_lt-total : (s t : Text) → text_lt s t ≡ false → text_lt t s ≡ false → s ≡ t
unfolding text_lt
text_lt-total [] [] p q = refl
text_lt-total [] (b ∷ t) p q = ground arith
text_lt-total (a ∷ s) [] p q = ground arith
text_lt-total (a ∷ s) (b ∷ t) p q = ground (arith, text_lt-total s t)

-- `s.startswith(part)`
unfoldable pub starts_with : Text → Text → Bool
starts_with [] s = true
starts_with (p ∷ ps) [] = false
starts_with (p ∷ ps) (c ∷ s) = p == c && starts_with ps s

-- `part in s`
unfoldable pub contains : Text → Text → Bool
unfolding starts_with
contains part [] = is_empty part
contains part (c ∷ s) = starts_with part (c ∷ s) || contains part s
