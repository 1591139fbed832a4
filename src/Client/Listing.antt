-- ===== src/Client/Listing.antt =====
-- The pages of instances (`List`, internal/playflow/client.go).
use nakama_playflow.Base.{
  ℕ, zero, suc, ◌+◌, Bool, not, ◌||◌, List, [], ◌∷◌, ◌++◌, Option, none, some, Text, ◌==◌, nat_eq,
  ltb, is_empty, length, bytes, ℤ, pos, negsuc, if◌then◌else◌,
}
use nakama_playflow.Manager.{contains}
use nakama_playflow.Provider.{Instance}
use nakama_playflow.Client.Errors.{local_error, Outcome, done, failed}
use nakama_playflow.Client.Operations.{valid_id}

-- `listResponse`; `Total` is not read.
pub record ListResponse : Type 0 where
  pub servers : List Instance
  pub limit : ℤ
  pub offset : ℤ
  pub has_more : Option Bool

abbrev pub page_size : ℕ
page_size = 100

abbrev pub max_list_pages : ℕ
max_list_pages = 100

abbrev pub list_error {ℓ} : {A : Type ℓ} → Text → Outcome A
list_error reason = failed (local_error (bytes "list") reason)

-- The loop over the servers of a page, with the instances so far and the identifiers that were seen.
unfoldable pub add_servers :
    List Instance → List Instance → List Text → Outcome (List Instance × List Text)
unfolding contains
add_servers [] instances seen = done (instances, seen)
add_servers (i ∷ servers) instances seen =
    let known = contains seen i.instance_id in
    let rest =
      add_servers servers (if known then instances else instances ++ (i ∷ []))
        (if known then seen else seen ++ (i.instance_id ∷ [])) in
    if not (valid_id i.instance_id) || is_empty i.status
    then list_error (bytes "invalid_instance_response")
    else rest

-- The limit of a page that is in order.
abbrev pub page_limit : ℕ → ListResponse → Option Bool → ℤ → ℤ → Option (Bool × ℕ)
page_limit offset r none limit o = none
page_limit offset r (some more) (negsuc l) o = none
page_limit offset r (some more) (pos l) (negsuc o) = none
page_limit offset r (some more) (pos l) (pos o) =
    if not (o == offset) || ltb l 1 || ltb page_size l || ltb l (length r.servers)
    then none
    else some (more, l)

-- The loop over the pages that are left. `fetch page offset` is the request for a page.
unfoldable pub list_from :
    (ℕ → ℕ → Outcome ListResponse) → ℕ → ℕ → ℕ → List Instance → List Text → Outcome (List Instance)
unfolding add_servers
list_from fetch zero page offset instances seen = list_error (bytes "pagination_limit_exceeded")
list_from fetch (suc left) page offset instances seen = elim (fetch page offset) [
  | failed e ↦ failed e
  | done r ↦ elim (page_limit offset r r.has_more r.limit r.offset) [
    | none ↦ list_error (bytes "invalid_pagination")
    | some (more, limit) ↦ elim (add_servers r.servers instances seen) [
      | failed e ↦ failed e
      | done (instances', seen') ↦
          if more
          then list_from fetch left (page + 1) (offset + limit) instances' seen'
          else done instances'
    ]
  ]
]

-- `List`.
unfoldable pub list : (ℕ → ℕ → Outcome ListResponse) → Outcome (List Instance)
unfolding list_from
list fetch = list_from fetch max_list_pages 0 0 [] []
