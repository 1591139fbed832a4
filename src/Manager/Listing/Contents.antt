-- ===== src/Manager/Listing/Contents.antt =====
-- What a page is cut from: the identifiers above a cursor that the filter wants (`List`,
-- pkg/fleetmanager/manager.go).
use nakama_playflow.Base.{
  ℕ, suc, ◌≤◌, ◌≡◌, refl, sym, ap, subst, ◌∙◌, inl, inr, true, false, ◌&&◌, List, [], ◌∷◌, some,
  Text, text_ltb, text_ltb_trans, text_eqb, text_eqb_refl, arith, All, All-take, keep, take, drop,
  sort, copies, lookup, copies-lookup, Unique-rest, first_once, Option-cases, Unique, if-cases,
  Bool-cases,
}
use nakama_playflow.Base.Base64.Laws.{IsBytes}
use nakama_playflow.State.{State, Worker}
use nakama_playflow.Manager.Users.{contains, IsDistinct}
use nakama_playflow.Manager.Listing.Last.{last}
use nakama_playflow.Manager.Listing.Order.{
  sort-IsRising, sort-All, keep-sort, keep_above_last, last-All,
}
use nakama_playflow.Manager.Listing.{Filter, wants, listed}

-- What is above a cursor that is above another one.
pub listed_above :
    (f : Filter) (after next : Text) (ws : List (Text × Worker))
    → text_ltb after next ≡ true
    → listed f next ws ≡ keep (λ k. text_ltb next k) (listed f after ws)
unfolding listed
listed_above f after next [] h = refl
listed_above f after next ((wid, w) ∷ ws) h =
    ground (arith, listed_above f after next ws h, text_ltb_trans after next wid)

pub listed-All :
    (f : Filter) (after : Text) (ws : List (Text × Worker))
    → All (λ k. text_ltb after k ≡ true) (listed f after ws)
unfolding listed
listed-All f after [] = tt
listed-All f after ((wid, w) ∷ ws) = elim (Bool-cases (text_ltb after wid)) [
  | inr e ↦ rw e (listed-All f after ws)
  | inl e ↦ rw e (
      if-cases (All (λ k. text_ltb after k ≡ true)) (wants f w) (λ _. (e, listed-All f after ws))
        (λ _. listed-All f after ws))
]

-- The keys that are sequences of bytes.
abbrev pub HasByteKeys : List (Text × Worker) → Type 0
HasByteKeys ws = All (λ (e : Text × Worker). IsBytes e.0) ws

pub listed-IsBytes :
    (f : Filter) (after : Text) (ws : List (Text × Worker))
    → HasByteKeys ws
    → All IsBytes (listed f after ws)
unfolding listed
listed-IsBytes f after [] h = tt
listed-IsBytes f after ((wid, w) ∷ ws) h =
    if-cases (All IsBytes) (text_ltb after wid && wants f w)
      (λ _. (h.0, listed-IsBytes f after ws h.1)) (λ _. listed-IsBytes f after ws h.1)

pub listed-copies :
    (f : Filter) (after k : Text) (ws : List (Text × Worker))
    → contains (listed f after ws) k ≡ true
    → 1 ≤ copies k ws
unfolding listed contains copies
listed-copies f after k [] h = cc
listed-copies f after k ((wid, w) ∷ ws) h = ground (arith, listed-copies f after k ws)

pub listed-IsDistinct :
    (f : Filter) (after : Text) (ws : List (Text × Worker))
    → Unique ws
    → IsDistinct (listed f after ws)
unfolding listed
listed-IsDistinct f after [] u = tt
listed-IsDistinct f after ((wid, w) ∷ ws) u =
    if-cases IsDistinct (text_ltb after wid && wants f w)
      (λ _. (absent, listed-IsDistinct f after ws (Unique-rest wid w ws u)))
      (λ _. listed-IsDistinct f after ws (Unique-rest wid w ws u))
  where
    absent : contains (listed f after ws) wid ≡ false
    absent = elim (Bool-cases (contains (listed f after ws) wid)) [
      | inl e ↦ absurd (omega (arith, listed-copies f after wid ws e, first_once wid w ws u))
      | inr e ↦ e
    ]

-- All the identifiers that the filter wants above a cursor, in order.
abbrev pub matching : Filter → Text → State → List Text
matching f after s = sort text_ltb (listed f after s.workers)

-- After a page that is full, what is left is what is above its last identifier.
pub matching_left :
    (f : Filter) (after : Text) (n : ℕ) (s : State) (x : Text) (xs : List Text)
    → Unique s.workers
    → matching f after s ≡ x ∷ xs
    → matching f (last (take (suc n) (x ∷ xs))) s ≡ drop (suc n) (x ∷ xs)
matching_left f after n s x xs u e =
    ap (sort text_ltb) (listed_above f after next s.workers up)
    ∙ sym (
        keep-sort (λ k. text_ltb next k) (listed f after s.workers)
          (listed-IsDistinct f after s.workers u))
    ∙ ap (keep (λ k. text_ltb next k)) e
    ∙ keep_above_last n x xs
        (rw e at (sort-IsRising (listed f after s.workers) (listed-IsDistinct f after s.workers u)))
  where
    next : Text
    next = last (take (suc n) (x ∷ xs))

    up : text_ltb after next ≡ true
    up =
        last-All (λ k. text_ltb after k ≡ true) x (take n xs)
          (All-take (λ k. text_ltb after k ≡ true) (suc n) (x ∷ xs)
            (subst (All (λ k. text_ltb after k ≡ true)) e (
              sort-All (λ k. text_ltb after k ≡ true) (listed f after s.workers)
                (listed-All f after s.workers))))

abbrev pub Stored : State → Text → Type 0
Stored s i = (w : Worker) × (lookup i s.workers ≡ some w)

pub All-contains {κ} :
    (P : Text → Type κ) (xs : List Text) → ((i : Text) → contains xs i ≡ true → P i) → All P xs
unfolding contains
All-contains P [] h = tt
All-contains P (x ∷ xs) h = (
  h x (rw (text_eqb_refl x) refl),
  All-contains P xs (λ i c. h i (if-cases (λ b. b ≡ true) (text_eqb x i) (λ _. refl) (λ _. c))),
)

pub listed-Stored : (f : Filter) (s : State) → All (Stored s) (listed f [] s.workers)
listed-Stored f s = All-contains (Stored s) (listed f [] s.workers) λ i c.
    elim (Option-cases (lookup i s.workers)) [
      | inr p ↦ p
      | inl e ↦
          absurd (omega (arith, listed-copies f [] i s.workers c, copies-lookup i s.workers e))
    ]
