-- ===== src/Token.antt =====
-- Admission tokens (pkg/fleetmanager/token.go). HMAC-SHA256 and the JSON of claims are the standard
-- library's, and enter as the functions of `Crypto`.
pub mod Laws
use nakama_playflow.Base.{
  ℕ, ◌+◌, Bool, false, not, ◌&&◌, ◌||◌, List, [], ◌∷◌, ◌++◌, Option, none, some, Text, text_eq,
  ◌==◌, nat_eq, ltb, leb, is_empty, length, ℤ, pos, negsuc, split_on, if◌then◌else◌, Result, ok,
  err, Error,
}
use nakama_playflow.Base.Base64
use nakama_playflow.Base.Base64.{encode}

pub record AdmissionClaims : Type 0 where
  pub schema_version : ℤ
  pub user_id : Text
  pub worker_id : Text
  pub boot_id : Text
  pub room_id : Text
  pub allocation_id : Text
  pub reservation_id : Text
  pub seat : ℤ
  pub epoch : ℤ
  pub expires_at : ℤ
  pub nonce : Text
  pub resume : Bool

-- `mac key message`, and `json.Marshal` and `json.Unmarshal` at claims.
pub record Crypto : Type 0 where
  pub mac : Text → Text → Text
  pub marshal : AdmissionClaims → Text
  pub unmarshal : Text → Option AdmissionClaims

-- `derive`.
abbrev pub derive : Crypto → Text → Text → Text
derive c key purpose = c.mac key purpose

-- `encoded`.
unfoldable pub encoded : Text → Text
encoded key = encode key

-- `sign`: the payload, a full stop and the signature.
unfoldable pub sign : Crypto → Text → AdmissionClaims → Text
sign c key claims =
    let payload = encoded (c.marshal claims) in payload ++ b'.' ∷ encoded (derive c key payload)

abbrev pub at_least : ℕ → ℤ → Bool
at_least n (pos k) = leb n k
at_least n (negsuc k) = false

abbrev pub at_most : ℕ → ℤ → Bool
at_most n (pos k) = leb k n
at_most n (negsuc k) = leb 0 n

-- The negation of the last test of `VerifyAdmission`.
unfoldable pub admissible : AdmissionClaims → ℕ → Bool
admissible claims now =
    at_least 1 claims.schema_version
    && at_most 1 claims.schema_version
    && not (is_empty claims.user_id)
    && not (is_empty claims.worker_id)
    && not (is_empty claims.boot_id)
    && not (is_empty claims.room_id)
    && not (is_empty claims.allocation_id)
    && not (is_empty claims.reservation_id)
    && not (is_empty claims.nonce)
    && at_least 1 claims.epoch
    && at_least 0 claims.seat
    && at_least (now + 1) claims.expires_at
    && at_most (now + 60) claims.expires_at

abbrev pub check_claims : ℕ → Option AdmissionClaims → Result AdmissionClaims
check_claims now none = err Error.invalid
check_claims now (some claims) = if admissible claims now then ok claims else err Error.invalid

abbrev pub read_payload : Crypto → ℕ → Option Text → Result AdmissionClaims
read_payload c now none = err Error.invalid
read_payload c now (some raw) = check_claims now (c.unmarshal raw)

-- `hmac.Equal` on the signature that was decoded.
abbrev pub is_signature : Option Text → Text → Bool
is_signature none want = false
is_signature (some got) want = got == want

-- The parts that the full stops separate.
abbrev pub check_parts : Crypto → Text → ℕ → List Text → Result AdmissionClaims
check_parts c key now (payload ∷ signature ∷ []) =
    if not (is_signature (Base64.decode signature) (derive c key payload))
    then err Error.invalid
    else read_payload c now (Base64.decode payload)
check_parts c key now _ = err Error.invalid

-- `VerifyAdmission`.
unfoldable pub verify_admission : Crypto → Text → Text → ℕ → Result AdmissionClaims
verify_admission c key token now =
    if ltb 4096 (length token)
    then err Error.invalid
    else check_parts c key now (split_on b'.' token)
