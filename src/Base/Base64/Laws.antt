-- ===== src/Base/Base64/Laws.antt =====
-- What is encoded is read back, and an encoding has no full stop.
use nakama_playflow.Base.Base64.{digit, digit_value, sextets, encode, values, octets, decode}
use nakama_playflow.Base.Lists.{All}
use nakama_playflow.Base.Strings.{Text}
use Prim.Native.Nat.{ℕ, ◌<◌}
use mathlib.Core.Path.{◌≡◌, refl}
use mathlib.Core.Logic.{◌≢◌, ◌⊎◌}
use mathlib.Core.Option.{some}
use mathlib.Core.List.{List, [], ◌∷◌, map}
use native.Mathlib.Omega.{arith}

abbrev pub IsBytes : Text → Type 0
IsBytes b = All (λ x. x < 256) b

digit_value-digit : (v : ℕ) → v < 64 → digit_value (digit v) ≡ some v
unfolding digit digit_value
digit_value-digit v h = ground arith

digit_printable : (v : ℕ) → (46 < digit v) ⊎ (digit v ≡ 45)
unfolding digit
digit_printable v = ground arith

values-map-digit : (vs : List ℕ) → All (λ v. v < 64) vs → values (map digit vs) ≡ some vs
unfolding values
values-map-digit [] h = refl
values-map-digit (v ∷ vs) h =
    ground (arith, digit_value-digit v, digit_printable v, values-map-digit vs)

sextets_small : (b : Text) → IsBytes b → All (λ v. v < 64) (sextets b)
unfolding sextets
sextets_small [] h = tt
sextets_small (x ∷ []) h = omega arith
sextets_small (x ∷ y ∷ []) h = omega arith
sextets_small (x ∷ y ∷ z ∷ r) h =
    (omega arith, (omega arith, (omega arith, (omega arith, sextets_small r h.1.1.1))))

octets-sextets : (b : Text) → IsBytes b → octets (sextets b) ≡ some b
unfolding octets sextets
octets-sextets [] h = refl
octets-sextets (x ∷ []) h = ground arith
octets-sextets (x ∷ y ∷ []) h = ground arith
octets-sextets (x ∷ y ∷ z ∷ r) h = ground (arith, octets-sextets r)

pub decode-encode : (b : Text) → IsBytes b → decode (encode b) ≡ some b
unfolding decode encode
decode-encode b h =
    rw (decode, values-map-digit (sextets b) (sextets_small b h)) (octets-sextets b h)

no_stop : (vs : List ℕ) → All (λ c. c ≢ 46) (map digit vs)
no_stop [] = tt
no_stop (v ∷ vs) = (λ e. absurd (ground (arith, digit_printable v)), no_stop vs)

pub encode_no_stop : (b : Text) → All (λ c. c ≢ 46) (encode b)
unfolding encode
encode_no_stop b = no_stop (sextets b)
