-- ===== src/Config/Environment.antt =====
-- The variables that a fleet passes to its game servers (`parseServerEnvironment` and
-- `validateServerEnvironment`, pkg/fleetmanager/config.go).
pub mod Laws
use nakama_playflow.Base.{
  ℕ, Bool, true, false, not, ◌&&◌, ◌||◌, List, [], ◌∷◌, Option, none, some, Text, text_eq, ◌==◌,
  nat_eq, leb, ltb, is_empty, length, bytes, lookup, insert, has_prefix, upper, has_char, is_blank,
  valid_utf8, if◌then◌else◌, Result, ok, err, Error, ◌>>=◌, ◌>>◌, guard,
}

abbrev pub max_bytes : ℕ
max_bytes = 32768

abbrev pub max_entries : ℕ
max_entries = 64

abbrev pub max_value_bytes : ℕ
max_value_bytes = 8192

-- `[A-Za-z_]`, and with digits after the first character.
abbrev pub is_name_char : Bool → ℕ → Bool
is_name_char later c =
    leb b'A' c && leb c b'Z'
    || leb b'a' c && leb c b'z'
    || c == b'_'
    || later && (leb b'0' c && leb c b'9')

unfoldable pub is_name_from : Bool → Text → Bool
is_name_from later [] = true
is_name_from later (c ∷ s) = is_name_char later c && is_name_from true s

abbrev pub reserved : Text
reserved = bytes "FLEET_"

unfoldable pub valid_entry : Text → Text → Bool
unfolding is_name_from
valid_entry name value =
    not (is_empty name)
    && leb (length name) 128
    && not (has_prefix (upper name) reserved)
    && is_name_from false name
    && leb (length value) max_value_bytes
    && valid_utf8 value
    && not (has_char 0 value)

-- The loop over the variables.
unfoldable pub valid_entries : List (Text × Text) → Bool
unfolding valid_entry
valid_entries [] = true
valid_entries ((name, value) ∷ rest) = valid_entry name value && valid_entries rest

-- `validateServerEnvironment`. `marshal` is `json.Marshal` at a map of strings, which does not fail.
unfoldable pub validate_server_environment :
    (List (Text × Text) → Text) → List (Text × Text) → Result (Unit {0})
validate_server_environment marshal values =
    if not (leb (length values) max_entries)
      || not (valid_entries values)
      || not (leb (length (marshal values)) max_bytes)
    then err Error.invalid
    else ok tt

-- What the calls of `json.Decoder` yield one after the other: a brace, a bracket that closes, a name,
-- a value that is a string or not, another token, or an error.
pub data Token : Type 0 where
  opening closing bracket other other_value broken : Token
  name value : Text → Token

-- The loop over the members while the decoder has more, with what is left of the input.
unfoldable pub members : List Token → List (Text × Text) → Result (List (Text × Text) × List Token)
members [] values = ok (values, [])
members (Token.closing ∷ r) values = ok (values, Token.closing ∷ r)
members (Token.bracket ∷ r) values = ok (values, Token.bracket ∷ r)
members (Token.name key ∷ Token.value text ∷ r) values =
    let rest = members r (insert key text values) in
    elim (lookup key values) [
      | some old ↦ err Error.invalid
      | none ↦ if ltb max_entries (length (insert key text values)) then err Error.invalid else rest
    ]
members (token ∷ r) values = err Error.invalid

-- The closing brace, and nothing after it.
abbrev pub close_object : List (Text × Text) × List Token → Result (List (Text × Text))
close_object (values, Token.closing ∷ []) = ok values
close_object (values, _) = err Error.invalid

abbrev pub object : List Token → Result (List (Text × Text))
object (Token.opening ∷ r) = members r [] >>= λ read. close_object read
object _ = err Error.invalid

-- `parseServerEnvironment`. `scan` is the decoder.
unfoldable pub parse_server_environment :
    (Text → List Token) → (List (Text × Text) → Text) → Text → Result (List (Text × Text))
unfolding members validate_server_environment
parse_server_environment scan marshal raw =
    if ltb max_bytes (length raw) || not (valid_utf8 raw)
    then err Error.invalid
    else if is_blank raw
    then ok []
    else (object (scan raw) >>= λ values.
        validate_server_environment marshal values >>= λ _. ok values)
