-- ===== src/Client/Operations.antt =====
-- The operations on one instance (`Start`, `Get` and `Stop`, internal/playflow/client.go).
use nakama_playflow.Base.{
  ℕ, Bool, true, false, not, ◌&&◌, ◌||◌, Option, some, Text, text_eq, ◌==◌, nat_eq, leb, is_empty,
  length, bytes, ℤ, pos, negsuc, is_blank, exists, if◌then◌else◌,
}
use nakama_playflow.Provider.{Instance}
use nakama_playflow.Provider.Request.{StartRequest, PortConfig}
use nakama_playflow.Client.Errors.{local_error, Outcome, done, failed}
use nakama_playflow.Client.Requests.{Call, Input, request}

abbrev pub is_id_char : ℕ → Bool
is_id_char c =
    leb b'a' c && leb c b'z'
    || leb b'A' c && leb c b'Z'
    || leb b'0' c && leb c b'9'
    || c == b'-'
    || c == b'_'

-- `validID`. No byte of a character beyond ASCII is one that it accepts.
unfoldable pub valid_id : Text → Bool
valid_id id = not (is_empty id) && leb (length id) 128 && not (exists (λ c. not (is_id_char c)) id)

abbrev pub is_negative : ℤ → Bool
is_negative (pos n) = false
is_negative (negsuc n) = true

-- Zero, or one minute to one day.
abbrev pub is_ttl : ℤ → Bool
is_ttl (pos n) = n == 0 || leb 60 n && leb n 86400
is_ttl (negsuc n) = false

abbrev pub is_port : ℤ → Bool
is_port (pos n) = leb 1 n && leb n 65535
is_port (negsuc n) = false

abbrev pub valid_port : PortConfig → Bool
valid_port p =
    not (is_blank p.name)
    && is_port p.internal_port
    && (p.protocol == bytes "udp" || p.protocol == bytes "tcp")
    && not (p.tls_enabled && not (p.protocol == bytes "tcp"))

abbrev pub check_started : Outcome Instance → Outcome Instance
check_started (failed e) = failed e
check_started (done i) =
    if not (valid_id i.instance_id) || is_empty i.status
    then failed (record (local_error (bytes "start") (bytes "invalid_instance_response")) {
      outcome_unknown = true;
    })
    else done i

-- `Start`. `marshal` is `json.Marshal` at a request, and `decode` is `json.Unmarshal` at an instance.
unfoldable pub start :
    (StartRequest → Input) → (Text → Option Instance) → StartRequest → Call → Outcome Instance
unfolding valid_id
start marshal decode input call =
    if is_blank input.name || is_blank input.region
    then failed (local_error (bytes "start") (bytes "name_and_region_required"))
    else if is_negative input.version || not (is_ttl input.ttl)
    then failed (local_error (bytes "start") (bytes "invalid_version_or_ttl"))
    else if exists (λ p. not (valid_port p)) input.port_configs
    then failed (local_error (bytes "start") (bytes "invalid_port_config"))
    else check_started (request (bytes "start") true (marshal input) decode call)

abbrev pub check_got : Text → Outcome Instance → Outcome Instance
check_got id (failed e) = failed e
check_got id (done i) =
    if not (i.instance_id == id) || is_empty i.status
    then failed (local_error (bytes "get") (bytes "invalid_instance_response"))
    else done i

-- `Get`.
unfoldable pub get : (Text → Option Instance) → Text → Call → Outcome Instance
unfolding valid_id
get decode id call =
    if not (valid_id id)
    then failed (local_error (bytes "get") (bytes "invalid_instance_id"))
    else check_got id (request (bytes "get") false Input.no_input decode call)

-- An instance that is missing is stopped already.
abbrev pub check_stopped : Outcome (Unit {0}) → Outcome (Unit {0})
check_stopped (done x) = done x
check_stopped (failed e) = if e.status_code == 404 then done tt else failed e

-- `Stop`, which reads no output.
unfoldable pub stop : Text → Call → Outcome (Unit {0})
unfolding valid_id
stop id call =
    if not (valid_id id)
    then failed (local_error (bytes "stop") (bytes "invalid_instance_id"))
    else check_stopped (request (bytes "stop") false Input.no_input (λ _. some tt) call)
