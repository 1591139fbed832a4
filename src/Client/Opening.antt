-- ===== src/Client/Opening.antt =====
-- A client is made (`NewClient`, internal/playflow/client.go). `url.Parse` and `net.ParseIP`, with
-- `IsLoopback`, are arguments.
pub mod Secure
use nakama_playflow.Base.{
  ℕ, ◌*◌, Bool, true, false, not, ◌&&◌, ◌||◌, List, [], ◌∷◌, Option, none, some, Text, text_eq,
  ◌==◌, nat_eq, leb, is_empty, bytes, has_char, Url, ℤ, pos, negsuc, if◌then◌else◌, Result, ok, err,
  Error,
}
use nakama_playflow.Client.Requests.{second}

-- `Client`, of which the timeout is the one of the HTTP client, in nanoseconds. Redirects are refused.
pub record Client : Type 0 where
  pub base_url : Url
  pub api_key : Text
  pub timeout : ℕ

abbrev pub default_base_url : Text
default_base_url = bytes "https://api.computeflow.cloud/api"

abbrev pub request_timeout : ℕ
request_timeout = 15 * second

abbrev pub or_default : Text → Text
or_default base_url = if is_empty base_url then default_base_url else base_url

-- `strings.TrimRight` by one character: what is cut is a suffix of such characters.
abbrev pub put_before : ℕ → ℕ → Text → Text
put_before x c [] = if c == x then [] else c ∷ []
put_before x c (d ∷ s) = c ∷ d ∷ s

unfoldable pub trim_right : ℕ → Text → Text
trim_right x [] = []
trim_right x (c ∷ s) = put_before x c (trim_right x s)

abbrev pub is_plain : Url → Bool
is_plain u =
    not (is_empty u.host)
    && not u.has_user
    && is_empty u.raw_query
    && is_empty u.fragment
    && is_empty u.opaque
    && is_empty u.raw_path

-- `none` is a host that is no IP address.
abbrev pub is_loopback : Option Bool → Bool
is_loopback none = false
is_loopback (some b) = b

abbrev pub is_local : (Text → Option Bool) → Text → Bool
is_local parse_ip host =
    host == bytes "localhost" || host == bytes "playflow-mock" || is_loopback (parse_ip host)

-- `parse_ip` reads an IP address and says whether it is of this machine; `to_lower` is `strings.ToLower`.
abbrev pub is_secure : (Text → Option Bool) → (Text → Text) → Url → Bool
is_secure parse_ip to_lower u =
    u.scheme == bytes "https" || u.scheme == bytes "http" && is_local parse_ip (to_lower u.hostname)

-- The timeout of the HTTP client that is passed, if any.
abbrev pub timeout_of : Option ℤ → ℕ
timeout_of none = request_timeout
timeout_of (some (negsuc n)) = request_timeout
timeout_of (some (pos n)) = if leb n 0 || not (leb n request_timeout) then request_timeout else n

abbrev pub open_client :
    (Text → Option Bool) → (Text → Text) → Text → Option ℤ → Option Url → Result Client
open_client parse_ip to_lower api_key http none = err Error.invalid
open_client parse_ip to_lower api_key http (some u) =
    if not (is_plain u)
    then err Error.invalid
    else if not (is_secure parse_ip to_lower u)
    then err Error.invalid
    else if not (trim_right b'/' u.path == bytes "/api")
    then err Error.invalid
    else if is_empty api_key || has_char 13 api_key || has_char 10 api_key
    then err Error.invalid
    else ok (record {
      base_url = record u { path = trim_right b'/' u.path };
      api_key = api_key;
      timeout = timeout_of http;
    })

-- `NewClient`.
unfoldable pub new_client :
    (Text → Option Url)
    → (Text → Option Bool)
    → (Text → Text)
    → Text
    → Text
    → Option ℤ
    → Result Client
unfolding trim_right
new_client parse_url parse_ip to_lower base_url api_key http =
    open_client parse_ip to_lower api_key http (parse_url (or_default base_url))
