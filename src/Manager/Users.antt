-- ===== src/Manager/Users.antt =====
-- Lists of users (`validUsers`, `contains` and `sameUsers` of pkg/fleetmanager/manager.go).
use nakama_playflow.Base.{
  Bool, true, false, not, ◌&&◌, List, [], ◌∷◌, ◌++◌, ◌≡◌, refl, arith, text_eqb_iff, Text, text_eq,
  text_ltb, ◌==◌, nat_eq, leb, is_empty, length, sort, if◌then◌else◌,
}

-- `len(users) != 2` is the last clause.
unfoldable pub valid_users : List Text → Bool
valid_users (a ∷ b ∷ []) =
    not (is_empty a) && not (is_empty b) && not (a == b) && leb (length a) 128 && leb (length b) 128
valid_users _ = false

unfoldable pub contains : List Text → Text → Bool
contains [] user = false
contains (u ∷ users) user = if u == user then true else contains users user

-- The loop that compares two sorted slices of one length.
unfoldable pub all_equal : List Text → List Text → Bool
all_equal [] [] = true
all_equal (x ∷ xs) (y ∷ ys) = if x == y then all_equal xs ys else false
all_equal _ _ = false

unfoldable pub same_users : List Text → List Text → Bool
same_users a b =
    if length a == length b then all_equal (sort text_ltb a) (sort text_ltb b) else false

-- No text is there twice.
abbrev pub IsDistinct : List Text → Type 0
IsDistinct [] = Unit
IsDistinct (x ∷ xs) = (contains xs x ≡ false) × IsDistinct xs

pub contains-append :
    (xs ys : List Text) (u : Text)
    → contains (xs ++ ys) u ≡ (if contains xs u then true else contains ys u)
unfolding contains
contains-append [] ys u = refl
contains-append (x ∷ xs) ys u = ground (arith, contains-append xs ys u)

pub append_one-IsDistinct :
    (xs : List Text) (x : Text)
    → IsDistinct xs
    → contains xs x ≡ false
    → IsDistinct (xs ++ (x ∷ []))
unfolding contains
append_one-IsDistinct [] x d h = (refl, tt)
append_one-IsDistinct (y ∷ ys) x d h = (
  ground (arith, contains-append ys (x ∷ []) y, d.0, text_eqb_iff y x, text_eqb_iff x y),
  append_one-IsDistinct ys x d.1 (ground arith),
)
