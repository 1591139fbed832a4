-- ===== src/Base/Scan/Laws.antt =====
-- A text of two parts that a separator joins is split into the two.
use nakama_playflow.Base.Scan.{split_on, join_head, digits_from, parse_int, show_from, show}
use nakama_playflow.Base.Number.{pos}
use nakama_playflow.Base.Tests.{ltb, nat_eqb, nat_eqb_iff, Bool-cases}
use nakama_playflow.Base.Lists.{All}
use nakama_playflow.Base.Strings.{Text}
use Prim.Native.Nat.{ℕ, zero, suc, ◌+◌, ◌/◌, ◌%◌, ◌^◌, ◌≤◌, ◌<◌}
use mathlib.Core.Path.{◌≡◌, refl, sym, ap, ◌∙◌}
use mathlib.Core.Logic.{◌≢◌, inl, inr}
use mathlib.Core.Option.{some}
use mathlib.Core.List.{List, [], ◌∷◌, ◌++◌}
use native.Mathlib.Omega.{arith}

abbrev pub Lacks : ℕ → Text → Type 0
Lacks sep s = All (λ c. c ≢ sep) s

pub split_on_one : (sep : ℕ) (s : Text) → Lacks sep s → split_on sep s ≡ s ∷ []
unfolding split_on
split_on_one sep [] h = refl
split_on_one sep (c ∷ s) h = ground (arith, split_on_one sep s)

pub split_on_two :
    (sep : ℕ) (p q : Text) → Lacks sep p → Lacks sep q → split_on sep (p ++ sep ∷ q) ≡ p ∷ q ∷ []
unfolding split_on
split_on_two sep [] q h k = ground (arith, split_on_one sep q)
split_on_two sep (c ∷ p) q h k = ground (arith, split_on_two sep p q)

-- The parts with the separator between them.
abbrev pub join_with : ℕ → List Text → Text
join_with sep [] = []
join_with sep (p ∷ []) = p
join_with sep (p ∷ q ∷ ps) = p ++ sep ∷ join_with sep (q ∷ ps)

join_with-join_head :
    (sep c : ℕ) (ps : List Text) → join_with sep (join_head c ps) ≡ c ∷ join_with sep ps
join_with-join_head sep c [] = refl
join_with-join_head sep c (p ∷ []) = refl
join_with-join_head sep c (p ∷ q ∷ ps) = refl

join_head_some :
    (c : ℕ) (ps : List Text) → (p : Text) × (qs : List Text) × (join_head c ps ≡ p ∷ qs)
join_head_some c [] = (c ∷ [], [], refl)
join_head_some c (p ∷ ps) = (c ∷ p, ps, refl)

split_on_some : (sep : ℕ) (s : Text) → (p : Text) × (ps : List Text) × (split_on sep s ≡ p ∷ ps)
unfolding split_on
split_on_some sep [] = ([], [], refl)
split_on_some sep (c ∷ s) = elim (Bool-cases (nat_eqb c sep)) [
  | inl e ↦ ([], split_on sep s, rw e)
  | inr e ↦ let (p, qs, f) = join_head_some c (split_on sep s) in (p, qs, rw e f)
]

pub join_with-split_on : (sep : ℕ) (s : Text) → join_with sep (split_on sep s) ≡ s
unfolding split_on
join_with-split_on sep [] = refl
join_with-split_on sep (c ∷ s) = elim (Bool-cases (nat_eqb c sep)) [
  | inl e ↦
      let (p, ps, f) = split_on_some sep s in
      rw (e, f) (cc (sym f, join_with-split_on sep s, (nat_eqb_iff c sep).0 e))
  | inr e ↦
      rw e (join_with-join_head sep c (split_on sep s) ∙ ap (λ t. c ∷ t) (join_with-split_on sep s))
]

digits_from-show_from :
    (fuel n : ℕ) (acc : Text) → n < fuel → digits_from 0 (show_from fuel n acc) ≡ digits_from n acc
unfolding digits_from show_from
digits_from-show_from zero n acc h = absurd (omega arith)
digits_from-show_from (suc fuel) n acc h = elim (Bool-cases (ltb n 10)) [
  | inl e ↦ ground arith
  | inr e ↦
      rw e (digits_from-show_from fuel (n / 10) ((48 + n % 10) ∷ acc) (ground arith) ∙ ground arith)
]

-- The first character of a number is a digit.
show_from_some :
    (fuel n : ℕ) (acc : Text)
    → n < fuel
    → (c : ℕ) × (s : Text) × (show_from fuel n acc ≡ c ∷ s) × (48 ≤ c)
unfolding show_from
show_from_some zero n acc h = absurd (omega arith)
show_from_some (suc fuel) n acc h = elim (Bool-cases (ltb n 10)) [
  | inl e ↦ (48 + n, acc, rw e refl, omega arith)
  | inr e ↦
      let (c, s, f, g) = show_from_some fuel (n / 10) ((48 + n % 10) ∷ acc) (ground arith) in
      (c, s, rw e f, g)
]

-- A number that is printed is read back.
pub parse_int-show : (n : ℕ) → n < 2 ^ 63 → parse_int (show n) ≡ some (pos n)
unfolding parse_int show
parse_int-show n h =
    let (c, s, f, g) = show_from_some (suc n) n [] (omega arith) in
    let d : digits_from 0 (c ∷ s) ≡ some n =
      ap (digits_from 0) (sym f) ∙ digits_from-show_from (suc n) n [] (omega arith) in
    ap parse_int f ∙ ground arith
