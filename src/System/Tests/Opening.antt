-- ===== src/System/Tests/Opening.antt =====
-- A client for the address of the provider (internal/playflow/client.go).
use nakama_playflow.Base.{refl, false, [], none, some, bytes, text_eqb, has_char, Url}
use nakama_playflow.Client.Opening.{Client, new_client, trim_right, request_timeout}
use nakama_playflow.Client.Opening.Secure.{IsSecure, new_client-IsSecure}

-- The URL with a slash at its end, as it is parsed.
abbrev url : Url
url = record {
  scheme = bytes "https";
  opaque = [];
  has_user = false;
  host = bytes "h";
  hostname = bytes "h";
  path = bytes "/api/";
  raw_path = [];
  raw_query = [];
  fragment = [];
}

abbrev client : Client
client = record {
  base_url = record url { path = bytes "/api" };
  api_key = bytes "key";
  timeout = request_timeout;
}

new_client-IsSecure_example : IsSecure (λ host. none) (λ host. host) (some url) client
unfolding new_client trim_right text_eqb has_char
new_client-IsSecure_example =
    new_client-IsSecure (λ raw. some url) (λ host. none) (λ host. host) [] (bytes "key") none client
      refl
