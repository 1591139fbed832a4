-- ===== src/Client/Opening/Secure.antt =====
-- What a client that is made keeps to (internal/playflow/client.go).
use nakama_playflow.Base.{
  ◌≤◌, ◌≡◌, refl, subst, inl, inr, ◌⊎◌, Bool, true, false, ◌||◌, Option, none, some, Text, text_eq,
  text_eqb-eq, ◌==◌, arith, bytes, has_char, is_empty, Url, ℤ, pos, negsuc, Bool-cases, ok,
  ok-injective, nat_eq,
}
use nakama_playflow.Client.Opening.{
  Client, request_timeout, or_default, trim_right, is_plain, is_local, is_secure, timeout_of,
  open_client, new_client,
}

pub record IsSecure (parse_ip : Text → Option Bool) (to_lower : Text → Text) (parsed : Option Url)
    (c : Client) : Type 0 where
  pub origin : Url
  pub read : parsed ≡ some origin
  pub same_host : c.base_url.host ≡ origin.host
  pub no_user : c.base_url.has_user ≡ false
  pub encrypted :
      (c.base_url.scheme ≡ bytes "https")
      ⊎ ((c.base_url.scheme ≡ bytes "http")
          × (is_local parse_ip (to_lower c.base_url.hostname) ≡ true))
  pub path : c.base_url.path ≡ bytes "/api"
  pub key_there : is_empty c.api_key ≡ false
  pub one_line : (has_char 13 c.api_key ≡ false) × (has_char 10 c.api_key ≡ false)
  pub bounded : (1 ≤ c.timeout) × (c.timeout ≤ request_timeout)

timeout_bounds : (http : Option ℤ) → (1 ≤ timeout_of http) × (timeout_of http ≤ request_timeout)
timeout_bounds none = (omega arith, omega arith)
timeout_bounds (some (negsuc n)) = (omega arith, omega arith)
timeout_bounds (some (pos n)) = ground arith

secure_cases :
    (parse_ip : Text → Option Bool) (to_lower : Text → Text) (u : Url)
    → is_secure parse_ip to_lower u ≡ true
    → (u.scheme ≡ bytes "https")
      ⊎ ((u.scheme ≡ bytes "http") × (is_local parse_ip (to_lower u.hostname) ≡ true))
secure_cases parse_ip to_lower u h = elim (Bool-cases (u.scheme == bytes "https")) [
  | inl e ↦ inl (text_eqb-eq u.scheme (bytes "https") e)
  | inr e ↦ inr (text_eqb-eq u.scheme (bytes "http") (ground arith), ground arith)
]

opened :
    (parse_ip : Text → Option Bool) (to_lower : Text → Text) (api_key : Text) (http : Option ℤ)
    (u : Url) (c : Client)
    → open_client parse_ip to_lower api_key http (some u) ≡ ok c
    → IsSecure parse_ip to_lower (some u) c
opened parse_ip to_lower api_key http u c h = elim (Bool-cases (is_plain u)) [
  | inr e ↦ cc (rw e at h)
  | inl e ↦ elim (Bool-cases (is_secure parse_ip to_lower u)) [
    | inr f ↦ cc (rw (e, f) at h)
    | inl f ↦ elim (Bool-cases (trim_right b'/' u.path == bytes "/api")) [
      | inr g ↦ cc (rw (e, f, g) at h)
      | inl g ↦ elim (Bool-cases (is_empty api_key || has_char 13 api_key || has_char 10 api_key)) [
        | inl k ↦ cc (rw (e, f, g, k) at h)
        | inr k ↦
            subst (IsSecure parse_ip to_lower (some u)) (ok-injective (rw (e, f, g, k) at h))
              (record {
                origin = u;
                read = refl;
                same_host = refl;
                no_user = ground arith;
                encrypted = secure_cases parse_ip to_lower u f;
                path = text_eqb-eq (trim_right b'/' u.path) (bytes "/api") g;
                key_there = ground arith;
                one_line = (ground arith, ground arith);
                bounded = timeout_bounds http;
              })
      ]
    ]
  ]
]

-- A client that is made talks to the host of the URL that it was given, over HTTPS, or over HTTP to this
-- machine or the local mock alone; under the path `/api` exactly, with no user in the URL, with a key
-- for the API that is one line and not empty, and with a timeout of up to 15 seconds, never none.
pub new_client-IsSecure :
    (parse_url : Text → Option Url) (parse_ip : Text → Option Bool) (to_lower : Text → Text)
    (base_url api_key : Text) (http : Option ℤ) (c : Client)
    → new_client parse_url parse_ip to_lower base_url api_key http ≡ ok c
    → IsSecure parse_ip to_lower (parse_url (or_default base_url)) c
unfolding new_client
new_client-IsSecure parse_url parse_ip to_lower base_url api_key http c h =
    made (parse_url (or_default base_url)) h
  where
    made :
        (o : Option Url)
        → open_client parse_ip to_lower api_key http o ≡ ok c
        → IsSecure parse_ip to_lower o c
    made none k = cc
    made (some u) k = opened parse_ip to_lower api_key http u c k
