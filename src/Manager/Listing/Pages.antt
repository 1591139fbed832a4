-- ===== src/Manager/Listing/Pages.antt =====
-- Walking through the pages of `List` (pkg/fleetmanager/manager.go).
use nakama_playflow.Base.{
  ℕ, zero, suc, ◌≤◌, ◌<◌, ◌≡◌, refl, sym, ap, subst, ◌∙◌, inl, inr, true, false, ◌||◌, List, [],
  ◌∷◌, ◌++◌, some, Text, text_ltb, arith, All, All-take, take, drop, length, length-drop,
  take-append-drop, lookup, Option-cases, Unique, is_empty, pos, ltb, if◌then◌else◌, Bool-cases,
  Result, ok, err, Error, ◌>>=◌,
}
use nakama_playflow.Base.Base64.{encode, sextets}
use nakama_playflow.Base.Base64.Laws.{IsBytes, decode-encode}
use nakama_playflow.State.{State}
use nakama_playflow.Token.{encoded}
use nakama_playflow.Manager.Instance.{InstanceInfo, instance_info}
use nakama_playflow.Manager.Listing.Last.{last}
use nakama_playflow.Manager.Listing.Order.{IsRising, sort-IsRising, sort-All, last-All}
use nakama_playflow.Manager.Listing.{Filter, listed, infos, page, list}
use nakama_playflow.Manager.Listing.Contents.{
  HasByteKeys, listed-IsBytes, listed-IsDistinct, listed-All, matching, matching_left, Stored,
  listed-Stored,
}

-- What `infos` does to a list in two parts.
abbrev joined : Result (List InstanceInfo) → Result (List InstanceInfo) → Result (List InstanceInfo)
joined a b = a >>= λ out. b >>= λ more. ok (out ++ more)

joined_cons :
    (i : InstanceInfo) (a b : Result (List InstanceInfo))
    → (joined a b >>= λ out. ok (i ∷ out)) ≡ joined (a >>= λ out. ok (i ∷ out)) b
joined_cons i (ok a) (ok b) = refl
joined_cons i (ok a) (err e) = refl
joined_cons i (err e) b = refl

joined_nil : (b : Result (List InstanceInfo)) → b ≡ joined (ok []) b
joined_nil (ok b) = refl
joined_nil (err e) = refl

infos-append :
    (s : State) (xs ys : List Text) → infos s (xs ++ ys) ≡ joined (infos s xs) (infos s ys)
unfolding infos
infos-append s [] ys = joined_nil (infos s ys)
infos-append s (x ∷ xs) ys = elim (Option-cases (lookup x s.workers)) [
  | inl e ↦ rw (infos, e) refl
  | inr (w, e) ↦ rw (infos, e, infos-append s xs ys) (joined_cons _ (infos s xs) (infos s ys))
]

-- A client that follows the cursors from page to page, with the pages that it is willing to read.
pub walk : Filter → ℕ → ℕ → Text → State → Result (List InstanceInfo)
walk f limit zero cursor s = err Error.busy
walk f limit (suc fuel) cursor s = list (some f) (pos limit) cursor s >>= λ p.
    if is_empty p.1 then ok p.0 else (walk f limit fuel p.1 s >>= λ more. ok (p.0 ++ more))

full_page :
    (r : Result (List InstanceInfo)) (rest : Text → Result (List InstanceInfo))
    → ((r >>= λ out. ok (out, [])) >>= λ (p : List InstanceInfo × Text).
        if is_empty p.1 then ok p.0 else (rest p.1 >>= λ more. ok (p.0 ++ more)))
      ≡ r
full_page (ok out) rest = refl
full_page (err e) rest = refl

cut_page :
    (r : Result (List InstanceInfo)) (rest : Text → Result (List InstanceInfo)) (c : Text)
    → is_empty c ≡ false
    → ((r >>= λ out. ok (out, c)) >>= λ (p : List InstanceInfo × Text).
        if is_empty p.1 then ok p.0 else (rest p.1 >>= λ more. ok (p.0 ++ more)))
      ≡ joined r (rest c)
cut_page (ok out) rest c h = rw h refl
cut_page (err e) rest c h = refl

take_all {ℓ} : {A : Type ℓ} (n : ℕ) (xs : List A) → length xs ≤ n → take n xs ≡ xs
take_all zero [] h = refl
take_all zero (x ∷ xs) h = absurd (omega arith)
take_all (suc n) [] h = refl
take_all (suc n) (x ∷ xs) h = ap (λ ys. x ∷ ys) (take_all n xs (omega arith))

encode_some : (x : ℕ) (b : Text) → is_empty (encode (x ∷ b)) ≡ false
unfolding encode sextets
encode_some x [] = refl
encode_some x (y ∷ []) = refl
encode_some x (y ∷ z ∷ b) = refl

not_above_nothing : (after : Text) → text_ltb after [] ≡ true → ⊥
unfolding text_ltb
not_above_nothing [] h = cc
not_above_nothing (x ∷ xs) h = cc

-- A cursor opens the page after the identifier that it encodes.
list_cursor :
    (f : Filter) (n x : ℕ) (b : Text) (s : State)
    → n < 100
    → IsBytes (x ∷ b)
    → list (some f) (pos (suc n)) (encoded (x ∷ b)) s ≡ page f (suc n) (x ∷ b) s
unfolding list encoded
list_cursor f n x b s h k = rw (small, encode_some x b, decode-encode (x ∷ b) k) refl
  where
    small : (ltb (suc n) 1 || ltb 100 (suc n)) ≡ false
    small = ground arith

module _ (f : Filter) (n : ℕ) (s : State) (u : Unique s.workers) (k : HasByteKeys s.workers)
    (h : n < 100) where
  -- The next page starts at the cursor of this one.
  walk_on :
      (fuel : ℕ) (after : Text) (ids : List Text)
      → matching f after s ≡ ids
      → length ids < suc fuel
      → ltb (suc n) (length ids) ≡ true
      → ((next cursor : Text)
          → list (some f) (pos (suc n)) cursor s ≡ page f (suc n) next s
          → length (matching f next s) < fuel
          → walk f (suc n) fuel cursor s ≡ infos s (matching f next s))
      → (is_empty (encoded (last (take (suc n) ids))) ≡ false)
        × (walk f (suc n) fuel (encoded (last (take (suc n) ids))) s ≡ infos s (drop (suc n) ids))
  unfolding encoded
  walk_on fuel after [] e l t rest = absurd (ground arith)
  walk_on fuel after (x ∷ xs) e l t rest =
      opened (last (x ∷ take n xs))
        (last-All (λ i. text_ltb after i ≡ true) x (take n xs)
          (All-take (λ i. text_ltb after i ≡ true) (suc n) (x ∷ xs) up))
        (last-All IsBytes x (take n xs) (All-take IsBytes (suc n) (x ∷ xs) printable))
        (matching_left f after n s x xs u e)
    where
      up : All (λ i. text_ltb after i ≡ true) (x ∷ xs)
      up = subst (All (λ i. text_ltb after i ≡ true)) e (
          sort-All (λ i. text_ltb after i ≡ true) (listed f after s.workers)
            (listed-All f after s.workers))

      printable : All IsBytes (x ∷ xs)
      printable =
          subst (All IsBytes) e
            (sort-All IsBytes (listed f after s.workers) (listed-IsBytes f after s.workers k))

      shorter : length (drop n xs) < fuel
      shorter = ground (arith, length-drop n xs)

      opened :
          (next : Text)
          → text_ltb after next ≡ true
          → IsBytes next
          → matching f next s ≡ drop n xs
          → (is_empty (encoded next) ≡ false)
            × (walk f (suc n) fuel (encoded next) s ≡ infos s (drop n xs))
      opened [] a b m = absurd (not_above_nothing after a)
      opened (c ∷ i) a b m = (
        encode_some c i,
        rest (c ∷ i) (encoded (c ∷ i)) (list_cursor f n c i s h b) (rw m shorter) ∙ ap (infos s) m,
      )

  walk-infos :
      (fuel : ℕ) (after cursor : Text)
      → list (some f) (pos (suc n)) cursor s ≡ page f (suc n) after s
      → length (matching f after s) < fuel
      → walk f (suc n) fuel cursor s ≡ infos s (matching f after s)
  unfolding walk page
  walk-infos zero after cursor o l = absurd (omega arith)
  walk-infos (suc fuel) after cursor o l =
      elim (Bool-cases (ltb (suc n) (length (matching f after s)))) [
        | inr e ↦
            rw (o, e, take_all (suc n) (matching f after s) (ground arith))
              (full_page (infos s (matching f after s)) (λ c. walk f (suc n) fuel c s))
        | inl e ↦
            let (i, w) = walk_on fuel after (matching f after s) refl l e (walk-infos fuel) in
            rw (o, e)
              (cut_page (infos s (take (suc n) (matching f after s))) (λ c. walk f (suc n) fuel c s)
                  (encoded (last (take (suc n) (matching f after s)))) i
                ∙ ap (joined (infos s (take (suc n) (matching f after s)))) w
                ∙ sym (
                    infos-append s (take (suc n) (matching f after s))
                      (drop (suc n) (matching f after s)))
                ∙ ap (infos s) (take-append-drop (suc n) (matching f after s)))
      ]

infos_total :
    (s : State) (ids : List Text)
    → All (Stored s) ids
    → (out : List InstanceInfo) × (infos s ids ≡ ok out)
unfolding infos
infos_total s [] a = ([], refl)
infos_total s (i ∷ ids) a =
    let (out, e) = infos_total s ids a.1 in
    let (w, g) = a.0 in (instance_info w ∷ out, rw (infos, g, e) refl)

-- A client that follows the cursors of `List` from the first page on, with any limit from 1 to 100,
-- gets each instance that the filter wants once, in the order of the identifiers, after at most one
-- page more than there are such instances: the walk through the pages is the whole list at once. Keys
-- are unique and are sequences of bytes.
pub walk_complete :
    (f : Filter) (limit fuel : ℕ) (s : State)
    → Unique s.workers
    → HasByteKeys s.workers
    → 1 ≤ limit
    → limit ≤ 100
    → length (matching f [] s) < fuel
    → IsRising (matching f [] s)
      × ((out : List InstanceInfo) × (infos s (matching f [] s) ≡ ok out)
          × (walk f limit fuel [] s ≡ ok out))
unfolding list
walk_complete f zero fuel s u k h h' l = absurd (omega arith)
walk_complete f (suc n) fuel s u k h h' l =
    let (out, e) =
      infos_total s (matching f [] s)
        (sort-All (Stored s) (listed f [] s.workers) (listed-Stored f s)) in
    (
      sort-IsRising (listed f [] s.workers) (listed-IsDistinct f [] s.workers u),
      (out, e, walk-infos f n s u k (omega arith) fuel [] [] (rw small refl) l ∙ e),
    )
  where
    small : (ltb (suc n) 1 || ltb 100 (suc n)) ≡ false
    small = ground arith
