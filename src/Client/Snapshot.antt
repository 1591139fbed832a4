-- ===== src/Client/Snapshot.antt =====
-- What the list of instances holds (`List`, internal/playflow/client.go).
use nakama_playflow.Base.{
  ℕ, zero, suc, ◌+◌, ◌≡◌, refl, sym, ap, subst, ◌∙◌, inl, inr, ◌⊎◌, Bool, true, false, not, ◌||◌,
  List, [], ◌∷◌, ◌++◌, Option, none, some, Text, text_eqb_refl, nat_eq, is_empty, ℤ, pos, negsuc,
  All, arith, Bool-cases, Option-cases,
}
use nakama_playflow.Manager.{contains, IsDistinct, contains-append, append_one-IsDistinct}
use nakama_playflow.Provider.{Instance}
use nakama_playflow.Client.Errors.{ApiError, Outcome, done, failed}
use nakama_playflow.Client.Operations.{valid_id}
use nakama_playflow.Client.Listing.{
  ListResponse, max_list_pages, add_servers, page_limit, list_from, list,
}

-- The instances of pages that were read one after the other, from an offset to the page that is the
-- last: each page begins where the one before it ended.
pub data Walked (fetch : ℕ → ℕ → Outcome ListResponse) : ℕ → ℕ → List Instance → Type 0 where
  final :
      {page offset : ℕ} (r : ListResponse)
      → fetch page offset ≡ done r
      → r.has_more ≡ some false
      → Walked fetch page offset r.servers
  onward :
      {page offset : ℕ} (r : ListResponse) (limit : ℕ) {rest : List Instance}
      → fetch page offset ≡ done r
      → r.has_more ≡ some true
      → r.limit ≡ pos limit
      → Walked fetch (page + 1) (offset + limit) rest
      → Walked fetch page offset (r.servers ++ rest)

abbrev pub ids : List Instance → List Text
ids [] = []
ids (i ∷ is) = i.instance_id ∷ ids is

abbrev IsWhole : Instance → Type 0
IsWhole i = (valid_id i.instance_id ≡ true) × (is_empty i.status ≡ false)

-- The instances so far, with the identifiers that were seen.
record IsTally (instances : List Instance) (seen : List Text) : Type 0 where
  same : ids instances ≡ seen
  distinct : IsDistinct seen
  whole : All IsWhole instances

ids-append : (xs ys : List Instance) → ids (xs ++ ys) ≡ ids xs ++ ids ys
ids-append [] ys = refl
ids-append (x ∷ xs) ys = ap (λ r. x.instance_id ∷ r) (ids-append xs ys)

All_append_one :
    (P : Instance → Type 0) (xs : List Instance) (x : Instance)
    → All P xs
    → P x
    → All P (xs ++ (x ∷ []))
All_append_one P [] x a p = (p, tt)
All_append_one P (y ∷ ys) x a p = (a.0, All_append_one P ys x a.1 p)

add-IsTally :
    (i : Instance) (instances : List Instance) (seen : List Text)
    → IsTally instances seen
    → IsWhole i
    → contains seen i.instance_id ≡ false
    → IsTally (instances ++ (i ∷ [])) (seen ++ (i.instance_id ∷ []))
add-IsTally i instances seen t w h = record {
  same = ids-append instances (i ∷ []) ∙ ap (λ r. r ++ (i.instance_id ∷ [])) t.same;
  distinct = append_one-IsDistinct seen i.instance_id t.distinct h;
  whole = All_append_one IsWhole instances i t.whole w;
}

-- All that was seen is kept, and the servers of the page are seen.
abbrev Keeps : List Text → List Text → Type 0
Keeps seen seen' = (u : Text) → contains seen u ≡ true → contains seen' u ≡ true

abbrev Seen : List Instance → List Text → Type 0
Seen servers seen = All (λ (i : Instance). contains seen i.instance_id ≡ true) servers

Seen-Keeps :
    (servers : List Instance) (a b : List Text) → Keeps a b → Seen servers a → Seen servers b
Seen-Keeps [] a b k s = tt
Seen-Keeps (i ∷ is) a b k s = (k i.instance_id s.0, Seen-Keeps is a b k s.1)

abbrev Added : List Instance → List Text → Outcome (List Instance × List Text) → Type 0
Added servers seen (failed e) = Unit {0}
Added servers seen (done (instances', seen')) =
    IsTally instances' seen' × Keeps seen seen' × Seen servers seen'

Added-after :
    (i : Instance) (servers : List Instance) (seen seen1 : List Text)
    (r : Outcome (List Instance × List Text))
    → Keeps seen seen1
    → contains seen1 i.instance_id ≡ true
    → Added servers seen1 r
    → Added (i ∷ servers) seen r
Added-after i servers seen seen1 (failed e) k c a = tt
Added-after i servers seen seen1 (done (is, s')) k c a =
    (a.0, λ u h. a.1 u (k u h), (a.1 i.instance_id c, a.2))

IsWhole-of :
    (i : Instance) → (not (valid_id i.instance_id) || is_empty i.status) ≡ false → IsWhole i
IsWhole-of i h = ground arith

add_servers-Added :
    (servers instances : List Instance) (seen : List Text)
    → IsTally instances seen
    → Added servers seen (add_servers servers instances seen)
unfolding add_servers
add_servers-Added [] instances seen t = (t, λ u h. h, tt)
add_servers-Added (i ∷ servers) instances seen t =
    elim (Bool-cases (not (valid_id i.instance_id) || is_empty i.status)) [
      | inl e ↦ rw e tt
      | inr e ↦ elim (Bool-cases (contains seen i.instance_id)) [
        | inl c ↦
            rw (e, c)
              (Added-after i servers seen seen (add_servers servers instances seen) (λ u h. h) c
                (add_servers-Added servers instances seen t))
        | inr c ↦
            let seen1 = seen ++ (i.instance_id ∷ []) in
            rw (e, c)
              (Added-after i servers seen seen1 (add_servers servers (instances ++ (i ∷ [])) seen1)
                (λ u h. rw (contains-append seen (i.instance_id ∷ []) u, h) refl)
                (rw
                  (
                    contains-append seen (i.instance_id ∷ []) i.instance_id,
                    c,
                    text_eqb_refl i.instance_id,
                  )
                  refl)
                (add_servers-Added servers (instances ++ (i ∷ [])) seen1
                  (add-IsTally i instances seen t (IsWhole-of i e) c)))
      ]
    ]

Outcome-cases {ℓ} :
    {A : Type ℓ} (o : Outcome A) → ((a : A) × (o ≡ done a)) ⊎ ((e : ApiError) × (o ≡ failed e))
Outcome-cases (done a) = inl (a, refl)
Outcome-cases (failed e) = inr (e, refl)

page_limit-eq :
    (offset : ℕ) (r : ListResponse) (has_more : Option Bool) (limit o : ℤ) (more : Bool) (l : ℕ)
    → page_limit offset r has_more limit o ≡ some (more, l)
    → (has_more ≡ some more) × (limit ≡ pos l)
page_limit-eq offset r none limit o more l h = cc
page_limit-eq offset r (some b) (negsuc k) o more l h = cc
page_limit-eq offset r (some b) (pos k) (negsuc o) more l h = cc
page_limit-eq offset r (some b) (pos k) (pos o) more l h = ground arith

-- What was found from a page on.
record Found (fetch : ℕ → ℕ → Outcome ListResponse) (page offset : ℕ) (seen : List Text)
    (out : List Instance) : Type 0 where
  all : List Instance
  walked : Walked fetch page offset all
  distinct : IsDistinct (ids out)
  whole : All IsWhole out
  kept : Keeps seen (ids out)
  covered : Seen all (ids out)

done-injective {ℓ} : {A : Type ℓ} {a b : A} → done a ≡ done b → a ≡ b
done-injective h = cc

Seen-append :
    (xs ys : List Instance) (seen : List Text) → Seen xs seen → Seen ys seen → Seen (xs ++ ys) seen
Seen-append [] ys seen a b = b
Seen-append (x ∷ xs) ys seen a b = (a.0, Seen-append xs ys seen a.1 b)

ended :
    (fetch : ℕ → ℕ → Outcome ListResponse) (page offset : ℕ) (seen seen1 : List Text)
    (r : ListResponse) (instances out : List Instance)
    → fetch page offset ≡ done r
    → r.has_more ≡ some false
    → Added r.servers seen (done (instances, seen1))
    → instances ≡ out
    → Found fetch page offset seen out
ended fetch page offset seen seen1 r instances out e f a h =
    subst (Found fetch page offset seen) h (record {
      all = r.servers;
      walked = final r e f;
      distinct = subst IsDistinct (sym a.0.same) a.0.distinct;
      whole = a.0.whole;
      kept = λ u k. subst (λ s. contains s u ≡ true) (sym a.0.same) (a.1 u k);
      covered = subst (Seen r.servers) (sym a.0.same) a.2;
    })

continued :
    (fetch : ℕ → ℕ → Outcome ListResponse) (page offset limit : ℕ) (seen seen1 : List Text)
    (r : ListResponse) (instances out : List Instance)
    → fetch page offset ≡ done r
    → r.has_more ≡ some true
    → r.limit ≡ pos limit
    → Added r.servers seen (done (instances, seen1))
    → Found fetch (page + 1) (offset + limit) seen1 out
    → Found fetch page offset seen out
continued fetch page offset limit seen seen1 r instances out e f l a n = record {
  all = r.servers ++ n.all;
  walked = onward r limit e f l n.walked;
  distinct = n.distinct;
  whole = n.whole;
  kept = λ u k. n.kept u (a.1 u k);
  covered =
      Seen-append r.servers n.all (ids out) (Seen-Keeps r.servers seen1 (ids out) n.kept a.2)
        n.covered;
}

list_from-Found :
    (fetch : ℕ → ℕ → Outcome ListResponse) (left page offset : ℕ) (instances : List Instance)
    (seen : List Text) (out : List Instance)
    → IsTally instances seen
    → list_from fetch left page offset instances seen ≡ done out
    → Found fetch page offset seen out
unfolding list_from
list_from-Found fetch zero page offset instances seen out t h = cc
list_from-Found fetch (suc left) page offset instances seen out t h =
    elim (Outcome-cases (fetch page offset)) [
      | inr (x, e) ↦ cc (rw (list_from, e) at h)
      | inl (r, e) ↦ elim (Option-cases (page_limit offset r r.has_more r.limit r.offset)) [
        | inl f ↦ cc (rw (list_from, e, f) at h)
        | inr (ml, f) ↦ elim (Outcome-cases (add_servers r.servers instances seen)) [
          | inr (x, g) ↦ cc (rw (list_from, e, f, g) at h)
          | inl (is, g) ↦
              let p = page_limit-eq offset r r.has_more r.limit r.offset ml.0 ml.1 f in
              let a =
                subst (Added r.servers seen) g (add_servers-Added r.servers instances seen t) in
              elim (Bool-cases ml.0) [
                | inr m ↦
                    ended fetch page offset seen is.1 r is.0 out e (p.0 ∙ ap some m) a
                      (done-injective (rw (list_from, e, f, g, m) at h))
                | inl m ↦
                    continued fetch page offset ml.1 seen is.1 r is.0 out e (p.0 ∙ ap some m) p.1 a
                      (list_from-Found fetch left (page + 1) (offset + ml.1) is.0 is.1 out a.0
                        (rw (list_from, e, f, g, m) at h))
              ]
        ]
      ]
    ]

-- What a list that is returned is, next to the pages.
pub record IsSnapshot (fetch : ℕ → ℕ → Outcome ListResponse) (out : List Instance) : Type 0 where
  pub all : List Instance
  pub walked : Walked fetch 0 0 all
  pub distinct : IsDistinct (ids out)
  pub whole :
      All (λ (i : Instance). (valid_id i.instance_id ≡ true) × (is_empty i.status ≡ false)) out
  pub covered : All (λ (i : Instance). contains (ids out) i.instance_id ≡ true) all

-- A list of instances that is returned has no identifier twice, only identifiers and states that are
-- in order, and an entry for each instance of every page from the first to one that the provider calls
-- the last, where each page begins where the one before it ended: it is never part of a listing.
pub list-IsSnapshot :
    (fetch : ℕ → ℕ → Outcome ListResponse) (out : List Instance)
    → list fetch ≡ done out
    → IsSnapshot fetch out
unfolding list
list-IsSnapshot fetch out h =
    let f =
      list_from-Found fetch max_list_pages 0 0 [] [] out
        (record { same = refl; distinct = tt; whole = tt }) h in
    record {
      all = f.all;
      walked = f.walked;
      distinct = f.distinct;
      whole = f.whole;
      covered = f.covered;
    }
