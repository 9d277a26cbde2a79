-- ===== src/Prelude/Text.antt =====
-- Strings as lists of bytes.
use Prim.Native.String.{String}
use Prim.Native.Char.{code}
use inferflux.Prelude.{ℕ, ◌==◌, ◌≡◌, refl, Bool, true, false, ◌&&◌, List, [], ◌∷◌, arith}

-- The bytes of a `std::string`.
abbrev pub Text : Type 0
Text = List ℕ

-- The bytes of a literal.
abbrev pub codes : String → List ℕ
codes String.[] = []
codes (String.◌∷◌ c s) = code c ∷ codes s

unfoldable pub same : Text → Text → Bool
same [] [] = true
same [] (y ∷ ys) = false
same (x ∷ xs) [] = false
same (x ∷ xs) (y ∷ ys) = x == y && same xs ys

unfoldable pub is_empty : Text → Bool
is_empty [] = true
is_empty (x ∷ xs) = false

pub same_sound : (x y : Text) → same x y ≡ true → x ≡ y
unfolding same
same_sound [] [] e = refl
same_sound [] (y ∷ ys) e = cc
same_sound (x ∷ xs) [] e = cc
same_sound (x ∷ xs) (y ∷ ys) e = ground (arith, same_sound xs ys)

pub same_self : (x : Text) → same x x ≡ true
unfolding same
same_self [] = refl
same_self (x ∷ xs) = ground (arith, same_self xs)
