-- ===== src/Token/Laws.antt =====
-- Signing and verifying (`sign` and `VerifyAdmission`, pkg/fleetmanager/token.go).
use nakama_playflow.Base.{
  ℕ, ◌≤◌, ◌≡◌, refl, sym, inl, inr, true, false, List, [], ◌∷◌, ◌++◌, Option, none, some, Text,
  text_eqb-eq, text_eqb_refl, arith, nat_eq, ltb, length, split_on, if◌then◌else◌, ok, err, Error,
  Bool-cases, Option-cases, subst, ok-injective,
}
use nakama_playflow.Base.Base64
use nakama_playflow.Base.Base64.{encode}
use nakama_playflow.Base.Base64.Laws.{IsBytes, decode-encode, encode_no_stop}
use nakama_playflow.Base.Scan.Laws.{split_on_two, join_with, join_with-split_on}
use nakama_playflow.Token.{
  AdmissionClaims, Crypto, derive, encoded, sign, admissible, read_payload, is_signature,
  check_parts, verify_admission,
}

-- A token that was signed verifies under the key that signed it, to the very claims, exactly if these
-- are admissible at the instant of the check; else it is refused. The token must keep to 4096 bytes,
-- the codec must read its own output at these claims, and yield bytes, as the hash must.
pub verify_admission-sign :
    (c : Crypto) (key : Text) (claims : AdmissionClaims) (now : ℕ)
    → IsBytes (c.marshal claims)
    → IsBytes (c.mac key (encoded (c.marshal claims)))
    → c.unmarshal (c.marshal claims) ≡ some claims
    → length (sign c key claims) ≤ 4096
    → verify_admission c key (sign c key claims) now
      ≡ (if admissible claims now then ok claims else err Error.invalid)
unfolding verify_admission sign encoded
verify_admission-sign c key claims now b d u l =
    rw
      (
        short,
        split_on_two b'.' (encode (c.marshal claims))
            (encode (c.mac key (encode (c.marshal claims)))) (encode_no_stop (c.marshal claims))
            (encode_no_stop (c.mac key (encode (c.marshal claims)))),
        decode-encode (c.mac key (encode (c.marshal claims))) d,
        text_eqb_refl (c.mac key (encode (c.marshal claims))),
        decode-encode (c.marshal claims) b,
        u,
      )
      refl
  where
    short : ltb 4096 (length (sign c key claims)) ≡ false
    short = ground arith

-- What a token that was accepted is made of.
pub record IsGenuine (c : Crypto) (key token : Text) (now : ℕ) (claims : AdmissionClaims)
    : Type 0 where
  pub payload : Text
  pub signature : Text
  pub raw : Text
  pub parts : token ≡ payload ++ b'.' ∷ signature
  pub signed : Base64.decode signature ≡ some (derive c key payload)
  pub read : Base64.decode payload ≡ some raw
  pub claimed : c.unmarshal raw ≡ some claims
  pub fresh : admissible claims now ≡ true

payload_cases :
    (c : Crypto) (now : ℕ) (claims : AdmissionClaims) (read : Option Text)
    → read_payload c now read ≡ ok claims
    → (raw : Text) × (read ≡ some raw)
      × (c.unmarshal raw ≡ some claims)
      × (admissible claims now ≡ true)
payload_cases c now claims none h = cc
payload_cases c now claims (some raw) h = elim (Option-cases (c.unmarshal raw)) [
  | inl e ↦ cc (rw e at h)
  | inr (d, e) ↦ elim (Bool-cases (admissible d now)) [
    | inr f ↦ cc (rw (e, f) at h)
    | inl f ↦
        let same : d ≡ claims = ok-injective (rw (e, f) at h) in
        (
          raw,
          refl,
          subst (λ x. c.unmarshal raw ≡ some x) same e,
          subst (λ x. admissible x now ≡ true) same f,
        )
  ]
]

is_signature-eq : (o : Option Text) (want : Text) → is_signature o want ≡ true → o ≡ some want
is_signature-eq none want h = cc
is_signature-eq (some got) want h = cc (text_eqb-eq got want h)

parts_cases :
    (c : Crypto) (key token : Text) (now : ℕ) (claims : AdmissionClaims) (ps : List Text)
    → join_with b'.' ps ≡ token
    → check_parts c key now ps ≡ ok claims
    → IsGenuine c key token now claims
parts_cases c key token now claims [] j h = cc
parts_cases c key token now claims (p ∷ []) j h = cc
parts_cases c key token now claims (p ∷ q ∷ []) j h =
    elim (Bool-cases (is_signature (Base64.decode q) (derive c key p))) [
      | inr e ↦ cc (rw e at h)
      | inl e ↦
          let (raw, f, u, a) = payload_cases c now claims (Base64.decode p) (rw e at h) in
          record {
            payload = p;
            signature = q;
            raw = raw;
            parts = sym j;
            signed = is_signature-eq (Base64.decode q) (derive c key p) e;
            read = f;
            claimed = u;
            fresh = a;
          }
    ]
parts_cases c key token now claims (p ∷ q ∷ r ∷ ps) j h = cc

-- A token is accepted only if it is two parts with a full stop between them, of which the second is
-- the keyed hash of the first, and the first holds the claims that are returned, which are admissible
-- at the instant of the check.
pub verify_admission_sound :
    (c : Crypto) (key token : Text) (now : ℕ) (claims : AdmissionClaims)
    → verify_admission c key token now ≡ ok claims
    → IsGenuine c key token now claims
unfolding verify_admission
verify_admission_sound c key token now claims h = elim (Bool-cases (ltb 4096 (length token))) [
  | inl e ↦ cc (rw e at h)
  | inr e ↦
      parts_cases c key token now claims (split_on b'.' token) (join_with-split_on b'.' token)
        (rw e at h)
]
