-- ===== src/Base/Outcome.antt =====
-- The outcome of a call: a value or an error (pkg/fleetmanager/manager.go and lifecycle.go).
use mathlib.Core.Path.{◌≡◌, refl}
use mathlib.Core.Bool.{Bool, true, false}

-- The sentinel errors of the package. `invalid` is an error made by `fmt.Errorf`, whose text no
-- caller reads, and `nil_pointer` is the panic of a nil dereference.
pub data Error : Type 0 where
  not_found busy forbidden lease_held invalid nil_pointer : Error

-- What a Go function that returns a value and an error comes back with.
pub data Result {ℓ} (A : Type ℓ) : Type ℓ where
  err : Error → Result A
  ok : A → Result A

pub ok-injective {ℓ} : {A : Type ℓ} {x y : A} → ok x ≡ ok y → x ≡ y
ok-injective e = cc

-- An early `return err` unless a test holds.
abbrev pub guard : Bool → Error → Result (Unit {0})
guard false reason = err reason
guard true reason = ok tt

-- `if err != nil { return err }` after a call.
infixl 5 ◌>>=◌ ◌>>◌
abbrev pub ◌>>=◌ {ℓ κ} : {A : Type ℓ} {B : Type κ} → Result A → (A → Result B) → Result B
err reason >>= next = err reason
ok value >>= next = next value

-- If the whole succeeded, so did the call, and the rest on its value.
pub >>=-eq-ok {ℓ κ} :
    {A : Type ℓ} {B : Type κ} (call : Result A) (next : A → Result B) {last : B}
    → (call >>= next) ≡ ok last
    → (value : A) × (call ≡ ok value) × (next value ≡ ok last)
>>=-eq-ok (err reason) next h = cc
>>=-eq-ok (ok value) next h = (value, refl, h)

abbrev pub ◌>>◌ {ℓ} : {B : Type ℓ} → Result (Unit {0}) → Result B → Result B
check >> rest = check >>= λ _. rest
