-- ===== src/Base/Scan.antt =====
-- What the program uses of Go's `strings` and `strconv`.
pub mod Laws
use nakama_playflow.Base.Tests.{ltb, leb, nat_eqb, nat_eq, ◌==◌, if◌then◌else◌}
use nakama_playflow.Base.Strings.{Text}
use nakama_playflow.Base.Number.{ℤ, pos, negsuc}
use Prim.Native.Nat.{ℕ, zero, suc, ◌+◌, ◌-◌, ◌*◌, ◌/◌, ◌%◌, ◌^◌}
use mathlib.Core.Bool.{Bool, true, false, ◌&&◌, ◌||◌}
use mathlib.Core.Option.{Option, none, some}
use mathlib.Core.List.{List, [], ◌∷◌, map}

-- `strings.Split` by one character.
abbrev pub join_head : ℕ → List Text → List Text
join_head c [] = (c ∷ []) ∷ []
join_head c (p ∷ ps) = (c ∷ p) ∷ ps

unfoldable pub split_on : ℕ → Text → List Text
split_on sep [] = [] ∷ []
split_on sep (c ∷ s) = let rest = split_on sep s in if c == sep then [] ∷ rest else join_head c rest

-- `strings.HasPrefix`.
unfoldable pub has_prefix : Text → Text → Bool
has_prefix s [] = true
has_prefix [] (p ∷ ps) = false
has_prefix (c ∷ s) (p ∷ ps) = c == p && has_prefix s ps

-- `strings.ToUpper` on the letters of ASCII.
unfoldable pub upper : Text → Text
upper s = map (λ c. if leb 97 c && leb c 122 then c - 32 else c) s

-- `strings.ContainsRune`, for a character of ASCII.
unfoldable pub has_char : ℕ → Text → Bool
has_char x [] = false
has_char x (c ∷ s) = if c == x then true else has_char x s

-- How far a space of Unicode is read, in the bytes of UTF-8: `between` from one to the next.
pub data Space : Type 0 where
  between after_c2 after_e1 after_e1_9a after_e2 after_e2_80 after_e2_81 after_e3 after_e3_80 :
      Space

abbrev pub space_step : Space → ℕ → Option Space
space_step Space.between c =
    if leb 9 c && leb c 13 || c == 32
    then some Space.between
    else if c == 0xc2
    then some Space.after_c2
    else if c == 0xe1
    then some Space.after_e1
    else if c == 0xe2
    then some Space.after_e2
    else if c == 0xe3
    then some Space.after_e3
    else none
space_step Space.after_c2 c = if c == 0x85 || c == 0xa0 then some Space.between else none
space_step Space.after_e1 c = if c == 0x9a then some Space.after_e1_9a else none
space_step Space.after_e1_9a c = if c == 0x80 then some Space.between else none
space_step Space.after_e2 c =
    if c == 0x80 then some Space.after_e2_80 else if c == 0x81 then some Space.after_e2_81 else none
space_step Space.after_e2_80 c =
    if leb 0x80 c && leb c 0x8a || c == 0xa8 || c == 0xa9 || c == 0xaf
    then some Space.between
    else none
space_step Space.after_e2_81 c = if c == 0x9f then some Space.between else none
space_step Space.after_e3 c = if c == 0x80 then some Space.after_e3_80 else none
space_step Space.after_e3_80 c = if c == 0x80 then some Space.between else none

abbrev pub is_between : Space → Bool
is_between Space.between = true
is_between _ = false

unfoldable pub blank_from : Space → Text → Bool
blank_from state [] = is_between state
blank_from state (c ∷ s) = elim (space_step state c) [
  | none ↦ false
  | some next ↦ blank_from next s
]

-- Whether `strings.TrimSpace` leaves nothing.
unfoldable pub is_blank : Text → Bool
unfolding blank_from
is_blank s = blank_from Space.between s

-- `mark` is what follows the last whole space.
unfoldable pub trim_left_from : Space → Text → Text → Text
trim_left_from state mark [] = if is_between state then [] else mark
trim_left_from state mark (c ∷ s) = elim (space_step state c) [
  | none ↦ mark
  | some next ↦ trim_left_from next (if is_between next then s else mark) s
]

unfoldable pub trim_right : Text → Text
unfolding is_blank
trim_right [] = []
trim_right (c ∷ s) = let rest = trim_right s in if is_blank (c ∷ s) then [] else c ∷ rest

-- `strings.TrimSpace`.
unfoldable pub trim_space : Text → Text
unfolding trim_left_from trim_right
trim_space s = trim_right (trim_left_from Space.between s s)

-- Decimal digits, one at least.
unfoldable pub digits_from : ℕ → Text → Option ℕ
digits_from acc [] = some acc
digits_from acc (c ∷ s) = if leb 48 c && leb c 57 then digits_from (acc * 10 + (c - 48)) s else none

abbrev pub digits : Text → Option ℕ
digits [] = none
digits (c ∷ s) = digits_from 0 (c ∷ s)

abbrev pub negative : ℕ → ℤ
negative n = if n == 0 then pos 0 else negsuc (n - 1)

-- `strconv.ParseInt` to the base 10, for 64 bits; `strconv.Atoi` is the same where `int` has 64 bits.
unfoldable pub parse_int : Text → Option ℤ
unfolding digits_from
parse_int [] = none
parse_int (c ∷ s) =
    if c == b'-'
    then elim (digits s) [
      | none ↦ none
      | some n ↦ if leb n (2 ^ 63) then some (negative n) else none
    ]
    else elim (digits (if c == b'+' then s else c ∷ s)) [
      | none ↦ none
      | some n ↦ if ltb n (2 ^ 63) then some (pos n) else none
    ]

-- `fmt.Sprint` of a number, by its last digit first.
unfoldable pub show_from : ℕ → ℕ → Text → Text
show_from zero n acc = acc
show_from (suc fuel) n acc =
    let rest = show_from fuel (n / 10) ((48 + n % 10) ∷ acc) in
    if ltb n 10 then (48 + n) ∷ acc else rest

unfoldable pub show : ℕ → Text
unfolding show_from
show n = show_from (suc n) n []
