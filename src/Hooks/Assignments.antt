-- ===== src/Hooks/Assignments.antt =====
-- The answer of the assignment calls (`assignmentRPC`, pkg/fleetmanager/nakama.go).
use nakama_playflow.Base.{
  ℕ, ◌≡◌, refl, inl, inr, Bool, false, Option, none, some, Text, text_eq, text_eqb, text_eqb-eq,
  is_empty, bytes, Bool-cases, Option-cases, Values, Unique, Result, ok, err,
}
use nakama_playflow.State.{State, Worker}
use nakama_playflow.Token.{Crypto}
use nakama_playflow.Manager.{Manager}
use nakama_playflow.Manager.Assignment.{Assignment, assignment}
use nakama_playflow.Manager.Assignment.Admission.{IsNamed, Serves, assignment-Serves}
use nakama_playflow.Hooks.{
  RuntimeError, accepted, reply_with, AssignmentRequest, check_text, check_field, profile_error,
  AssignmentCodec, read_request, assignment_rpc,
}

-- A field of the profile that is given is the string that is expected.
pub GivenIs : (decode_text : Text → Option (Option Text)) (expected : Text) → Option Text → Type 0
GivenIs decode_text expected none = Unit
GivenIs decode_text expected (some raw) = decode_text raw ≡ some (some expected)

text_given :
    (expected mismatch : Text) (read : Option (Option Text)) (rest : Option RuntimeError)
    → check_text expected mismatch read rest ≡ none
    → (read ≡ some (some expected)) × (rest ≡ none)
text_given expected mismatch none rest h = cc
text_given expected mismatch (some none) rest h = cc
text_given expected mismatch (some (some v)) rest h = elim (Bool-cases (text_eqb v expected)) [
  | inl e ↦ (rw (text_eqb-eq v expected e) refl, rw e at h)
  | inr e ↦ cc (rw e at h)
]

field_given :
    (decode_text : Text → Option (Option Text)) (expected mismatch : Text) (raw : Option Text)
    (rest : Option RuntimeError)
    → check_field decode_text expected mismatch raw rest ≡ none
    → GivenIs decode_text expected raw × (rest ≡ none)
unfolding GivenIs
field_given decode_text expected mismatch none rest h = (tt, h)
field_given decode_text expected mismatch (some raw) rest h =
    text_given expected mismatch (decode_text raw) rest h

-- What an answer is made of.
pub record IsAnswer (c : Crypto) (codec : AssignmentCodec) (m : Manager) (user payload nonce : Text)
    (resume : Bool) (now : ℕ) (s : State) (body : Text) : Type 0 where
  pub request : AssignmentRequest
  pub out : Assignment
  pub read : read_request codec payload ≡ some request
  pub same_build : GivenIs codec.decode_text m.cfg.build_hash request.build_hash
  pub same_region : GivenIs codec.decode_text m.cfg.region request.region
  pub written : codec.marshal out ≡ body
  pub serves : Serves c m user request.allocation_id nonce resume now s out

replied :
    {A B : Type 0} (f : A → B) (r : Result A) (b : B)
    → reply_with f r ≡ accepted b
    → (a : A) × (r ≡ ok a) × (f a ≡ b)
replied f (err e) b h = cc
replied f (ok a) b h = (a, refl, cc)

-- An answer of the assignment calls is the encoding of an assignment about a stored room that the user
-- who asks is in, the one that the request names if it names one; it has no token, or one for that user,
-- that room and the worker that the room is on. A build or a region that the request gives, empty or null
-- too, is the manager's. Keys are unique, allocations are named, with seats kept for a minute at most,
-- workers have identifiers, and the nonce is not empty.
pub assignment_rpc-IsAnswer :
    (c : Crypto) (codec : AssignmentCodec) (m : Manager) (user payload nonce : Text) (resume : Bool)
    (now : ℕ) (s : State) (body : Text)
    → is_empty nonce ≡ false
    → Unique s.allocations
    → Values (IsNamed now) s.allocations
    → Values (λ (w : Worker). is_empty w.id ≡ false) s.workers
    → assignment_rpc c codec m user payload resume nonce now s ≡ accepted body
    → IsAnswer c codec m user payload nonce resume now s body
unfolding assignment_rpc
assignment_rpc-IsAnswer c codec m user payload nonce resume now s body n u va vw h =
    elim (Bool-cases (is_empty user)) [
      | inl e ↦ cc (rw e at h)
      | inr e ↦ elim (Option-cases (read_request codec payload)) [
        | inl f ↦ cc (rw (e, f) at h)
        | inr (r, f) ↦ elim (Option-cases (profile_error codec.decode_text m r)) [
          | inr (x, g) ↦ cc (rw (e, f, g) at h)
          | inl g ↦
              let (out, k, w) =
                replied codec.marshal (assignment c m user r.allocation_id resume nonce now s) body
                  (rw (e, f, g) at h) in
              let build =
                field_given codec.decode_text m.cfg.build_hash (bytes "fleet_build_mismatch")
                  r.build_hash
                  (check_field codec.decode_text m.cfg.region (bytes "fleet_region_mismatch")
                    r.region none)
                  g in
              let region =
                field_given codec.decode_text m.cfg.region (bytes "fleet_region_mismatch") r.region
                  none build.1 in
              record {
                request = r;
                out = out;
                read = f;
                same_build = build.0;
                same_region = region.0;
                written = w;
                serves =
                    assignment-Serves c m user r.allocation_id nonce resume now s out e n u va vw k;
              }
        ]
      ]
    ]
