-- ===== src/Base/Base64.antt =====
-- `base64.RawURLEncoding`: three bytes to four characters, with no padding. A decoder skips carriage
-- returns and line feeds, and ignores the low bits that the last character has to spare.
pub mod Laws
use nakama_playflow.Base.Tests.{ltb, leb, nat_eqb, if◌then◌else◌}
use nakama_playflow.Base.Strings.{Text}
use Prim.Native.Nat.{ℕ, ◌+◌, ◌-◌, ◌*◌, ◌/◌, ◌%◌}
use mathlib.Core.Bool.{◌&&◌, ◌||◌}
use mathlib.Core.Option.{Option, none, some}
use mathlib.Core.Option
use mathlib.Core.List.{List, [], ◌∷◌, map}

-- The alphabet `A-Z a-z 0-9 - _`.
unfoldable pub digit : ℕ → ℕ
digit v =
    if ltb v 26
    then v + 65
    else if ltb v 52
    then v + 71
    else if ltb v 62
    then v - 4
    else if nat_eqb v 62
    then 45
    else 95

unfoldable pub digit_value : ℕ → Option ℕ
digit_value c =
    if leb 65 c && leb c 90
    then some (c - 65)
    else if leb 97 c && leb c 122
    then some (c - 71)
    else if leb 48 c && leb c 57
    then some (c + 4)
    else if nat_eqb c 45
    then some 62
    else if nat_eqb c 95
    then some 63
    else none

unfoldable pub sextets : Text → List ℕ
sextets [] = []
sextets (a ∷ []) = a / 4 ∷ a % 4 * 16 ∷ []
sextets (a ∷ b ∷ []) = a / 4 ∷ (a % 4 * 16 + b / 16) ∷ b % 16 * 4 ∷ []
sextets (a ∷ b ∷ c ∷ r) = a / 4 ∷ (a % 4 * 16 + b / 16) ∷ (b % 16 * 4 + c / 64) ∷ c % 64 ∷ sextets r

unfoldable pub encode : Text → Text
unfolding digit sextets
encode b = map digit (sextets b)

unfoldable pub values : Text → Option (List ℕ)
unfolding digit_value
values [] = some []
values (c ∷ s) =
    let rest = values s in
    if nat_eqb c 10 || nat_eqb c 13
    then rest
    else elim (digit_value c) [ none ↦ none | some v ↦ Option.map (λ vs. v ∷ vs) rest ]

unfoldable pub octets : List ℕ → Option Text
octets [] = some []
octets (x ∷ []) = none
octets (x ∷ y ∷ []) = some ((x * 4 + y / 16) ∷ [])
octets (x ∷ y ∷ z ∷ []) = some ((x * 4 + y / 16) ∷ (y % 16 * 16 + z / 4) ∷ [])
octets (x ∷ y ∷ z ∷ w ∷ r) =
    Option.map (λ b. (x * 4 + y / 16) ∷ (y % 16 * 16 + z / 4) ∷ (z % 4 * 64 + w) ∷ b) (octets r)

unfoldable pub decode : Text → Option Text
unfolding values octets
decode s = elim (values s) [ none ↦ none | some vs ↦ octets vs ]
