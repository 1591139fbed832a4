-- ===== src/Hooks.antt =====
-- What the game server of Nakama calls (pkg/fleetmanager/nakama.go): the hooks of the matchmaker and the
-- remote calls of players. SHA-256 in hexadecimal digits and the JSON decoder and encoder are arguments.
pub mod Matches
pub mod Assignments
use nakama_playflow.Base.{
  ℕ, Bool, true, not, List, [], ◌∷◌, ◌++◌, Option, none, some, Text, text_eq, text_ltb, ◌==◌,
  is_empty, bytes, lookup, sort, if◌then◌else◌, Result, ok, err, Error,
}
use nakama_playflow.Base.Scan.Laws.{join_with}
use nakama_playflow.State.{State}
use nakama_playflow.Token.{Crypto}
use nakama_playflow.Manager.{Manager}
use nakama_playflow.Manager.Calls.{allocate, cancel}
use nakama_playflow.Manager.Assignment.{Assignment, assignment}

-- An error of Nakama's runtime: a message and a code of gRPC.
pub record RuntimeError : Type 0 where
  pub message : Text
  pub code : ℕ

abbrev pub runtime : Text → ℕ → RuntimeError
runtime message code = record { message = message; code = code }

-- What a hook comes back with.
pub data Verdict {ℓ} (A : Type ℓ) : Type ℓ where
  refused : RuntimeError → Verdict A
  accepted : A → Verdict A

-- `runtimeError`.
unfoldable pub runtime_error : Error → RuntimeError
runtime_error Error.not_found = runtime (bytes "assignment not found") 5
runtime_error Error.forbidden = runtime (bytes "forbidden") 7
runtime_error Error.busy = runtime (bytes "assignment unavailable") 9
runtime_error e = runtime (bytes "fleet operation failed") 13

-- `validateClientProfile`, of which `none` is nil.
unfoldable pub validate_client_profile : Manager → Text → Text → Option RuntimeError
validate_client_profile m build_hash region =
    if not (build_hash == m.cfg.build_hash)
    then some (runtime (bytes "fleet_build_mismatch") 9)
    else if not (region == m.cfg.region)
    then some (runtime (bytes "fleet_region_mismatch") 9)
    else none

-- A key of a map of strings that is missing reads as the empty string.
abbrev pub or_empty : Option Text → Text
or_empty none = []
or_empty (some v) = v

abbrev pub pass {ℓ} : {A : Type ℓ} → Option RuntimeError → A → Verdict A
pass none a = accepted a
pass (some e) a = refused e

-- The hook before `MatchmakerAdd`, which passes the envelope on as it is. `none` is an envelope with
-- another message, else these are its string properties.
unfoldable pub matchmaker_add {ℓ} :
    {Envelope : Type ℓ}
    → (Envelope → Option (List (Text × Text)))
    → Manager
    → Envelope
    → Verdict Envelope
matchmaker_add properties_of m envelope = elim (properties_of envelope) [
  | none ↦ refused (runtime (bytes "invalid matchmaker request") 3)
  | some properties ↦
      pass
        (validate_client_profile m (or_empty (lookup (bytes "build_hash") properties))
          (or_empty (lookup (bytes "region") properties)))
        envelope
]

-- A property of an entry is a string or a number.
pub data Property : Type 0 where
  text : Text → Property
  number : Property

pub record MatchEntry : Type 0 where
  pub properties : List (Text × Property)
  pub user_id : Text
  pub ticket : Text

-- `value, _ := props[name].(string)`.
abbrev pub text_property : Option Property → Text
text_property none = []
text_property (some (Property.text v)) = v
text_property (some Property.number) = []

abbrev pub entry_error : Manager → MatchEntry → Option RuntimeError
entry_error m entry =
    validate_client_profile m (text_property (lookup (bytes "build_hash") entry.properties))
      (text_property (lookup (bytes "region") entry.properties))

-- One round of the loop over the entries, before the rest.
abbrev pub add_entry :
    MatchEntry → Verdict (List Text × List Text) → Verdict (List Text × List Text)
add_entry entry (refused e) = refused e
add_entry entry (accepted (users, tickets)) =
    accepted (entry.user_id ∷ users, entry.ticket ∷ tickets)

unfoldable pub collect : Manager → List MatchEntry → Verdict (List Text × List Text)
collect m [] = accepted ([], [])
collect m (entry ∷ entries) =
    let rest = add_entry entry (collect m entries) in
    elim (entry_error m entry) [ some e ↦ refused e | none ↦ rest ]

-- The key of a match, in which the order of the tickets does not count.
unfoldable pub match_key : (Text → Text) → List Text → Text
match_key sha tickets = bytes "matchmaker:" ++ sha (join_with 10 (sort text_ltb tickets))

abbrev pub reply_with {ℓ κ} : {A : Type ℓ} {B : Type κ} → (A → B) → Result A → Verdict B
reply_with f (err e) = refused (runtime_error e)
reply_with f (ok a) = accepted (f a)

abbrev pub allocate_match :
    (Text → Text) → Manager → ℕ → State → Verdict (List Text × List Text) → State × Verdict Text
allocate_match sha m now s (refused e) = (s, refused e)
allocate_match sha m now s (accepted (users, tickets)) =
    let (t, answer) = allocate m users (match_key sha tickets) now s in
    (t, reply_with (λ _. []) answer)

-- The hook on a match that was made.
unfoldable pub matched :
    (Text → Text) → Manager → List MatchEntry → ℕ → State → State × Verdict Text
unfolding collect
matched sha m (a ∷ b ∷ []) now s = allocate_match sha m now s (collect m (a ∷ b ∷ []))
matched sha m entries now s = (s, refused (runtime (bytes "DM requires two players") 3))

-- The call `fleet_assignment_cancel_v1`. `decode` is the JSON decoder at the request's only field,
-- which is empty if it is missing.
unfoldable pub cancel_rpc :
    (Text → Option Text) → Manager → Text → Text → ℕ → State → State × Verdict Text
cancel_rpc decode m user payload now s =
    if is_empty user
    then (s, refused (runtime (bytes "user authentication required") 16))
    else if is_empty (or_empty (decode payload))
    then (s, refused (runtime (bytes "allocation_id required") 3))
    else (let (t, answer) = cancel m user (or_empty (decode payload)) now s in
        (t, reply_with (λ _. bytes "{\"accepted\":true}") answer))

-- `assignmentRequest`. A field that is raw JSON is `none` if it is missing.
pub record AssignmentRequest : Type 0 where
  pub allocation_id : Text
  pub build_hash : Option Text
  pub region : Option Text

abbrev pub empty_request : AssignmentRequest
empty_request = record { allocation_id = []; build_hash = none; region = none }

-- One round of the loop over the fields of the profile, with the rest of it. `decode_text` is the JSON
-- decoder at a pointer to a string.
abbrev pub check_text :
    Text → Text → Option (Option Text) → Option RuntimeError → Option RuntimeError
check_text expected mismatch none rest = some (runtime (bytes "invalid payload") 3)
check_text expected mismatch (some none) rest = some (runtime mismatch 9)
check_text expected mismatch (some (some v)) rest =
    if v == expected then rest else some (runtime mismatch 9)

abbrev pub check_field :
    (Text → Option (Option Text))
    → Text
    → Text
    → Option Text
    → Option RuntimeError
    → Option RuntimeError
check_field decode_text expected mismatch none rest = rest
check_field decode_text expected mismatch (some raw) rest =
    check_text expected mismatch (decode_text raw) rest

abbrev pub profile_error :
    (Text → Option (Option Text)) → Manager → AssignmentRequest → Option RuntimeError
profile_error decode_text m r =
    check_field decode_text m.cfg.build_hash (bytes "fleet_build_mismatch") r.build_hash
      (check_field decode_text m.cfg.region (bytes "fleet_region_mismatch") r.region none)

-- The JSON codec at the request, at a field of it, and at the assignment.
pub record AssignmentCodec : Type 0 where
  pub decode : Text → Option AssignmentRequest
  pub decode_text : Text → Option (Option Text)
  pub marshal : Assignment → Text

abbrev pub read_request : AssignmentCodec → Text → Option AssignmentRequest
read_request codec payload = if is_empty payload then some empty_request else codec.decode payload

-- `assignmentRPC`, with the nonce and the instant that `Assignment` reads. It changes nothing.
unfoldable pub assignment_rpc :
    Crypto → AssignmentCodec → Manager → Text → Text → Bool → Text → ℕ → State → Verdict Text
assignment_rpc c codec m user payload resume nonce now s =
    if is_empty user
    then refused (runtime (bytes "user authentication required") 16)
    else elim (read_request codec payload) [
      | none ↦ refused (runtime (bytes "invalid payload") 3)
      | some r ↦ elim (profile_error codec.decode_text m r) [
        | some e ↦ refused e
        | none ↦ reply_with codec.marshal (assignment c m user r.allocation_id resume nonce now s)
      ]
    ]
