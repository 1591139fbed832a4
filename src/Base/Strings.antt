-- ===== src/Base/Strings.antt =====
-- A Go string is a sequence of bytes: equality, order by bytes, and literals.
use Prim.Native.Char.{code}
use Prim.Native.String.{String}
use nakama_playflow.Base.Tests.{ltb, nat_eqb, Eq, if◌then◌else◌}
use Prim.Native.Nat.{ℕ}
use mathlib.Core.Path.{◌≡◌, refl}
use mathlib.Core.Logic.{◌↔◌, ◌⊎◌}
use mathlib.Core.Bool.{Bool, true, false}
use mathlib.Core.List.{List, [], ◌∷◌}
use native.Mathlib.Omega.{arith}

abbrev pub Text : Type 0
Text = List ℕ

-- The bytes of an ASCII literal.
abbrev pub bytes : String → Text
bytes String.[] = []
bytes (String.◌∷◌ c s) = code c ∷ bytes s

unfoldable pub text_eqb : Text → Text → Bool
text_eqb [] [] = true
text_eqb (x ∷ xs) (y ∷ ys) = if nat_eqb x y then text_eqb xs ys else false
text_eqb _ _ = false

instance abbrev pub text_eq : Eq Text
text_eq = record { beq = text_eqb }

-- `a < b` on strings.
unfoldable pub text_ltb : Text → Text → Bool
text_ltb [] [] = false
text_ltb [] (y ∷ ys) = true
text_ltb (x ∷ xs) [] = false
text_ltb (x ∷ xs) (y ∷ ys) = if nat_eqb x y then text_ltb xs ys else ltb x y

abbrev pub is_empty : Text → Bool
is_empty [] = true
is_empty (x ∷ xs) = false

pub text_eqb_refl : (a : Text) → text_eqb a a ≡ true
unfolding text_eqb
text_eqb_refl [] = refl
text_eqb_refl (x ∷ xs) = ground (arith, text_eqb_refl xs)

pub text_eqb-eq : (a b : Text) → text_eqb a b ≡ true → a ≡ b
unfolding text_eqb
text_eqb-eq [] [] h = refl
text_eqb-eq [] (y ∷ ys) h = cc
text_eqb-eq (x ∷ xs) [] h = cc
text_eqb-eq (x ∷ xs) (y ∷ ys) h = ground (arith, text_eqb-eq xs ys)

pub text_eqb_iff : (a b : Text) → (text_eqb a b ≡ true) ↔ (a ≡ b)
text_eqb_iff a b = (text_eqb-eq a b, λ e. cc (text_eqb_refl a, e))

pub text_ltb_irrefl : (a : Text) → text_ltb a a ≡ false
unfolding text_ltb
text_ltb_irrefl [] = refl
text_ltb_irrefl (x ∷ xs) = ground (arith, text_ltb_irrefl xs)

pub text_ltb_trans :
    (a b c : Text) → text_ltb a b ≡ true → text_ltb b c ≡ true → text_ltb a c ≡ true
unfolding text_ltb
text_ltb_trans [] [] c h k = cc
text_ltb_trans [] (y ∷ ys) [] h k = cc
text_ltb_trans [] (y ∷ ys) (z ∷ zs) h k = refl
text_ltb_trans (x ∷ xs) [] c h k = cc
text_ltb_trans (x ∷ xs) (y ∷ ys) [] h k = cc
text_ltb_trans (x ∷ xs) (y ∷ ys) (z ∷ zs) h k = ground (arith, text_ltb_trans xs ys zs)

-- Of two different strings one is below the other.
pub text_ltb_total : (a b : Text) → (a ≡ b) ⊎ ((text_ltb a b ≡ true) ⊎ (text_ltb b a ≡ true))
unfolding text_ltb
text_ltb_total [] [] = ground arith
text_ltb_total [] (y ∷ ys) = ground arith
text_ltb_total (x ∷ xs) [] = ground arith
text_ltb_total (x ∷ xs) (y ∷ ys) = ground (arith, text_ltb_total xs ys)
