-- ===== src/Manager/Listing.antt =====
-- The calls that read instances (`Get` and `List`, pkg/fleetmanager/manager.go).
mod Last
pub mod Order
pub mod Contents
pub mod Pages
use nakama_playflow.Base.{
  ℕ, Bool, not, ◌&&◌, ◌||◌, List, [], ◌∷◌, Option, none, some, Text, text_eq, text_ltb, ◌==◌, leb,
  ltb, is_empty, length, take, lookup, sort, ℤ, pos, negsuc, if◌then◌else◌, Result, ok, err, Error,
  ◌>>=◌,
}
use nakama_playflow.Base.Base64.{decode}
use nakama_playflow.State.{State, Worker, Status, status_eq}
use nakama_playflow.Token.{encoded}
use nakama_playflow.Manager.Listing.Last.{last}
use nakama_playflow.Manager.Instance.{InstanceInfo, instance_info, status_text}

abbrev pub info_of : Option Worker → Result InstanceInfo
info_of none = err Error.not_found
info_of (some w) = if w.state == Status.stopped then err Error.not_found else ok (instance_info w)

-- `Get`.
unfoldable pub get : Text → State → Result InstanceInfo
get worker_id s = info_of (lookup worker_id s.workers)

-- The query of `List`, which JSON holds.
pub record Filter : Type 0 where
  pub state : Text
  pub region : Text

abbrev pub wants : Filter → Worker → Bool
wants f w =
    not (w.state == Status.stopped)
    && (is_empty f.state || f.state == status_text w.state)
    && (is_empty f.region || f.region == w.region)

-- The loop over the workers: the identifiers above the cursor's that the filter wants.
unfoldable pub listed : Filter → Text → List (Text × Worker) → List Text
listed f after [] = []
listed f after ((wid, w) ∷ ws) =
    let rest = listed f after ws in if text_ltb after wid && wants f w then wid ∷ rest else rest

-- The loop over the page.
unfoldable pub infos : State → List Text → Result (List InstanceInfo)
infos s [] = ok []
infos s (i ∷ ids) = elim (lookup i s.workers) [
  | none ↦ err Error.nil_pointer
  | some w ↦ infos s ids >>= λ out. ok (instance_info w ∷ out)
]

abbrev pub next_cursor : ℕ → List Text → Text
next_cursor limit ids = if ltb limit (length ids) then encoded (last (take limit ids)) else []

unfoldable pub page : Filter → ℕ → Text → State → Result (List InstanceInfo × Text)
unfolding listed last infos
page f limit after s =
    let ids = sort text_ltb (listed f after s.workers) in
    infos s (take limit ids) >>= λ out. ok (out, next_cursor limit ids)

abbrev pub page_after : Filter → ℕ → Option Text → State → Result (List InstanceInfo × Text)
page_after f limit none s = err Error.invalid
page_after f limit (some after) s = page f limit after s

abbrev pub page_for : Option Filter → ℕ → Text → State → Result (List InstanceInfo × Text)
page_for none limit cursor s = err Error.invalid
page_for (some f) limit cursor s =
    if is_empty cursor then page f limit [] s else page_after f limit (decode cursor) s

-- `List`. The query is `none` if it is not empty and the JSON decoder refuses it; an empty one is the
-- empty filter.
unfoldable pub list : Option Filter → ℤ → Text → State → Result (List InstanceInfo × Text)
unfolding page
list query (negsuc n) cursor s = err Error.invalid
list query (pos limit) cursor s =
    if ltb limit 1 || ltb 100 limit then err Error.invalid else page_for query limit cursor s
