-- ===== src/System/Tests/Tokens.antt =====
-- A token of the fleet (pkg/fleetmanager/token.go), signed and verified.
use nakama_playflow.Base.{
  ◌≡◌, refl, bytes, arith, if◌then◌else◌, ok, err, Error, split_on, text_eqb,
}
use nakama_playflow.Base.Base64.{encode, decode}
use nakama_playflow.System.Tests.{claims, crypto}
use nakama_playflow.Token.{encoded, sign, admissible, verify_admission}
use nakama_playflow.Token.Laws.{verify_admission-sign, IsGenuine, verify_admission_sound}

verify_admission-sign_example :
    verify_admission crypto (bytes "key") (sign crypto (bytes "key") claims) 10
    ≡ (if admissible claims 10 then ok claims else err Error.invalid)
unfolding sign encoded encode
verify_admission-sign_example =
    verify_admission-sign crypto (bytes "key") claims 10 (omega arith, tt) (omega arith, tt) refl
      (omega arith)

-- `Yw` is `c`, and `bQ` is `m`.
verify_admission_sound_example : IsGenuine crypto (bytes "key") (bytes "Yw.bQ") 10 claims
unfolding verify_admission admissible split_on text_eqb decode
verify_admission_sound_example =
    verify_admission_sound crypto (bytes "key") (bytes "Yw.bQ") 10 claims refl
