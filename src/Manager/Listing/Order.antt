-- ===== src/Manager/Listing/Order.antt =====
-- Sorting texts that differ (`sort.Strings`), and what a filter and a cut do to the result.
use nakama_playflow.Base.{
  ℕ, zero, suc, ◌≡◌, refl, inl, inr, Bool, true, false, List, [], ◌∷◌, Text, text_ltb,
  text_ltb_trans, text_ltb_irrefl, text_ltb_total, text_eqb, text_eqb_iff, arith, All, All-keep,
  All-take, keep, take, drop, place, sort, if-cases, if◌then◌else◌, Bool-cases,
}
use nakama_playflow.Manager.Users.{contains, IsDistinct}
use nakama_playflow.Manager.Listing.Last.{last}

-- Each element is below all that follow.
abbrev pub IsRising : List Text → Type 0
IsRising [] = Unit
IsRising (x ∷ xs) = All (λ y. text_ltb x y ≡ true) xs × IsRising xs

-- Below an element is below all that are above it.
All-below :
    (x y : Text) (zs : List Text)
    → text_ltb x y ≡ true
    → All (λ z. text_ltb y z ≡ true) zs
    → All (λ z. text_ltb x z ≡ true) zs
All-below x y [] h a = tt
All-below x y (z ∷ zs) h a = (text_ltb_trans x y z h a.0, All-below x y zs h a.1)

place-All :
    (x y : Text) (zs : List Text)
    → text_ltb y x ≡ true
    → All (λ z. text_ltb y z ≡ true) zs
    → All (λ z. text_ltb y z ≡ true) (place text_ltb x zs)
unfolding place
place-All x y [] h a = (h, tt)
place-All x y (z ∷ zs) h a = elim (Bool-cases (text_ltb z x)) [
  | inl e ↦ rw e (a.0, place-All x y zs h a.1)
  | inr e ↦ rw e (h, a)
]

above : (x y : Text) → text_ltb y x ≡ false → text_eqb y x ≡ false → text_ltb x y ≡ true
above x y h e = ground (arith, text_ltb_total x y, text_eqb_iff y x)

place-IsRising :
    (x : Text) (ys : List Text)
    → contains ys x ≡ false
    → IsRising ys
    → IsRising (place text_ltb x ys)
unfolding place contains
place-IsRising x [] c r = (tt, tt)
place-IsRising x (y ∷ ys) c r = elim (Bool-cases (text_eqb y x)) [
  | inl e ↦ cc (rw e at c)
  | inr d ↦ elim (Bool-cases (text_ltb y x)) [
    | inl e ↦ rw e (place-All x y ys e r.0, place-IsRising x ys (rw d at c) r.1)
    | inr e ↦ rw e ((above x y e d, All-below x y ys (above x y e d) r.0), r)
  ]
]

contains-place :
    (x u : Text) (ys : List Text)
    → contains (place text_ltb x ys) u ≡ (if text_eqb x u then true else contains ys u)
unfolding place contains
contains-place x u [] = refl
contains-place x u (y ∷ ys) = ground (arith, contains-place x u ys)

pub contains-sort : (u : Text) (xs : List Text) → contains (sort text_ltb xs) u ≡ contains xs u
unfolding sort contains
contains-sort u [] = refl
contains-sort u (x ∷ xs) = ground (arith, contains-place x u (sort text_ltb xs), contains-sort u xs)

pub sort-IsRising : (xs : List Text) → IsDistinct xs → IsRising (sort text_ltb xs)
unfolding sort
sort-IsRising [] d = tt
sort-IsRising (x ∷ xs) d =
    place-IsRising x (sort text_ltb xs) (rw (contains-sort x xs) d.0) (sort-IsRising xs d.1)

-- What holds of the elements holds of them sorted.
place-All_of {κ} :
    (P : Text → Type κ) (x : Text) (ys : List Text) → P x → All P ys → All P (place text_ltb x ys)
unfolding place
place-All_of P x [] h a = (h, tt)
place-All_of P x (y ∷ ys) h a =
    if-cases (All P) (text_ltb y x) (λ _. (a.0, place-All_of P x ys h a.1)) (λ _. (h, a))

pub sort-All {κ} : (P : Text → Type κ) (xs : List Text) → All P xs → All P (sort text_ltb xs)
unfolding sort
sort-All P [] a = tt
sort-All P (x ∷ xs) a = place-All_of P x (sort text_ltb xs) a.0 (sort-All P xs a.1)

place_front :
    (x : Text) (zs : List Text) → All (λ z. text_ltb z x ≡ false) zs → place text_ltb x zs ≡ x ∷ zs
unfolding place
place_front x [] a = refl
place_front x (z ∷ zs) a = rw (a.0) refl

not_below :
    (x y : Text) (zs : List Text)
    → text_ltb y x ≡ false
    → All (λ z. text_ltb y z ≡ true) zs
    → All (λ z. text_ltb z x ≡ false) zs
not_below x y [] h a = tt
not_below x y (z ∷ zs) h a = (ground (arith, text_ltb_trans y z x, a.0), not_below x y zs h a.1)

keep-place :
    (p : Text → Bool) (x : Text) (ys : List Text)
    → IsRising ys
    → keep p (place text_ltb x ys) ≡ (if p x then place text_ltb x (keep p ys) else keep p ys)
unfolding place
keep-place p x [] r = refl
keep-place p x (y ∷ ys) r = elim (Bool-cases (text_ltb y x)) [
  | inl e ↦ elim (Bool-cases (p y)) [
    | inl f ↦ ground (arith, keep-place p x ys r.1)
    | inr f ↦ rw (e, f) (keep-place p x ys r.1)
  ]
  | inr e ↦ elim (Bool-cases (p y)) [
    | inl f ↦ ground arith
    | inr f ↦
        rw
          (
            e,
            f,
            place_front x (keep p ys)
                (All-keep (λ z. text_ltb z x ≡ false) p ys (not_below x y ys e r.0)),
          )
          refl
  ]
]

pub keep-sort :
    (p : Text → Bool) (xs : List Text)
    → IsDistinct xs
    → keep p (sort text_ltb xs) ≡ sort text_ltb (keep p xs)
unfolding sort
keep-sort p [] d = refl
keep-sort p (x ∷ xs) d = elim (Bool-cases (p x)) [
  | inl e ↦
      rw (keep-place p x (sort text_ltb xs) (sort-IsRising xs d.1), e, keep-sort p xs d.1) refl
  | inr e ↦ rw (keep-place p x (sort text_ltb xs) (sort-IsRising xs d.1), e) (keep-sort p xs d.1)
]

keep_all :
    (x : Text) (xs : List Text)
    → All (λ y. text_ltb x y ≡ true) xs
    → keep (λ y. text_ltb x y) xs ≡ xs
keep_all x [] a = refl
keep_all x (y ∷ ys) a = rw (a.0, keep_all x ys a.1) refl

pub last-All {κ} :
    (P : Text → Type κ) (x : Text) (xs : List Text) → All P (x ∷ xs) → P (last (x ∷ xs))
unfolding last
last-All P x [] a = a.0
last-All P x (y ∷ ys) a = last-All P y ys a.1

-- Of a rising list, what is above the last of a page is what follows the page.
pub keep_above_last :
    (n : ℕ) (x : Text) (xs : List Text)
    → IsRising (x ∷ xs)
    → keep (λ y. text_ltb (last (take (suc n) (x ∷ xs))) y) (x ∷ xs) ≡ drop (suc n) (x ∷ xs)
unfolding last
keep_above_last zero x xs r = rw (text_ltb_irrefl x) (keep_all x xs r.0)
keep_above_last (suc n) x [] r = rw (text_ltb_irrefl x) refl
keep_above_last (suc n) x (y ∷ ys) r = rw (first, keep_above_last n y ys r.1) refl
  where
    first : text_ltb (last (y ∷ take n ys)) x ≡ false
    first =
        let up =
          last-All (λ z. text_ltb x z ≡ true) y (take n ys)
            (All-take (λ z. text_ltb x z ≡ true) (suc n) (y ∷ ys) r.0) in
        ground (arith, text_ltb_trans x (last (y ∷ take n ys)) x, text_ltb_irrefl x)
