-- ===== src/Lifecycle/Choosing.antt =====
-- How a worker is chosen for a room (the inner loop of `Tick`, pkg/fleetmanager/lifecycle.go).
use nakama_playflow.Base.{
  ℕ, ◌<◌, ◌≡◌, refl, sym, ◌∙◌, inl, inr, ◌⊎◌, Bool, true, false, ◌&&◌, List, [], ◌∷◌, none, some,
  Text, text_ltb, text_ltb_irrefl, text_ltb_trans, ltb, nat_eq, arith, All, if◌then◌else◌, if-cases,
  subst,
}
use mathlib.Core.List.{Memᴰ}
use nakama_playflow.State.{State, Worker, Allocation, occupied}
use nakama_playflow.Manager.{Manager}
use nakama_playflow.Lifecycle.Placement.{Choice, suits, improves, choose}

module _ (m : Manager) (now : ℕ) (a : Allocation) (s : State) where
  -- A worker that may take the room and has one free.
  abbrev pub fits : Worker → Bool
  fits w = suits m now a w && ltb (occupied s w.id) w.max_rooms

  -- No fuller than the chosen one, and not before it by identifier if it is as full.
  abbrev pub IsBeaten : Worker → Choice → Type 0
  IsBeaten w none = ⊥
  IsBeaten w (some (cid, c, best)) =
      (occupied s w.id < best) ⊎ ((occupied s w.id ≡ best) × (text_ltb w.id c.id ≡ false))

  -- What is chosen fits, with its load.
  abbrev pub IsSound : Choice → Type 0
  IsSound none = Unit {0}
  IsSound (some (cid, c, best)) =
      (suits m now a c ≡ true) × (best ≡ occupied s c.id) × (best < c.max_rooms)

  abbrev pub Beaten : Text × Worker → Choice → Type 0
  Beaten e c = fits e.1 ≡ true → IsBeaten e.1 c

  Beaten-trans :
      (w v : Worker) (wid : Text) (c : Choice)
      → IsBeaten w c
      → improves v (occupied s v.id) c ≡ true
      → IsBeaten w (some (wid, v, occupied s v.id))
  Beaten-trans w v wid none b i = absurd b
  Beaten-trans w v wid (some (cid, c, best)) b i = ground (arith, text_ltb_trans w.id v.id c.id)

  not_better : (w : Worker) (c : Choice) → improves w (occupied s w.id) c ≡ false → IsBeaten w c
  not_better w none i = cc
  not_better w (some (cid, c, best)) i = ground arith

  not_itself : (w : Worker) (wid : Text) → IsBeaten w (some (wid, w, occupied s w.id))
  not_itself w wid = inr (refl, text_ltb_irrefl w.id)

  -- One round of the loop.
  abbrev round : Text → Worker → Choice → Choice
  round wid w c =
      if suits m now a w && (ltb (occupied s w.id) w.max_rooms && improves w (occupied s w.id) c)
      then some (wid, w, occupied s w.id)
      else c

  round-IsSound : (wid : Text) (w : Worker) (c : Choice) → IsSound c → IsSound (round wid w c)
  round-IsSound wid w c h =
      if-cases IsSound
        (suits m now a w && (ltb (occupied s w.id) w.max_rooms && improves w (occupied s w.id) c))
        (λ e. (ground arith, refl, ground arith)) (λ _. h)

  split_and : (p q r : Bool) → (p && (q && r)) ≡ false → (p && q) ≡ true → r ≡ false
  split_and p q r h e = ground arith

  third : (p q r : Bool) → (p && (q && r)) ≡ true → r ≡ true
  third p q r h = ground arith

  round-Beaten : (wid : Text) (w : Worker) (c : Choice) → Beaten (wid, w) (round wid w c)
  round-Beaten wid w c f =
      if-cases (IsBeaten w)
        (suits m now a w && (ltb (occupied s w.id) w.max_rooms && improves w (occupied s w.id) c))
        (λ _. not_itself w wid)
        (λ e. not_better w c (
          split_and (suits m now a w) (ltb (occupied s w.id) w.max_rooms)
            (improves w (occupied s w.id) c) e f))

  round_keeps : (wid : Text) (w v : Worker) (c : Choice) → IsBeaten v c → IsBeaten v (round wid w c)
  round_keeps wid w v c b =
      if-cases (IsBeaten v)
        (suits m now a w && (ltb (occupied s w.id) w.max_rooms && improves w (occupied s w.id) c))
        (λ e. Beaten-trans v w wid c b (
          third (suits m now a w) (ltb (occupied s w.id) w.max_rooms)
            (improves w (occupied s w.id) c) e))
        (λ _. b)

  choose_keeps :
      (ws : List (Text × Worker)) (v : Worker) (c : Choice)
      → IsBeaten v c
      → IsBeaten v (choose m now a s ws c)
  unfolding choose
  choose_keeps [] v c b = b
  choose_keeps ((wid, w) ∷ ws) v c b = choose_keeps ws v (round wid w c) (round_keeps wid w v c b)

  choose-IsSound :
      (ws : List (Text × Worker)) (c : Choice) → IsSound c → IsSound (choose m now a s ws c)
  unfolding choose
  choose-IsSound [] c h = h
  choose-IsSound ((wid, w) ∷ ws) c h = choose-IsSound ws (round wid w c) (round-IsSound wid w c h)

  choose-Beaten :
      (ws : List (Text × Worker)) (c : Choice) → All (λ e. Beaten e (choose m now a s ws c)) ws
  unfolding choose
  choose-Beaten [] c = tt
  choose-Beaten ((wid, w) ∷ ws) c = (
    λ f. choose_keeps ws w (round wid w c) (round-Beaten wid w c f),
    choose-Beaten ws (round wid w c),
  )

  -- The choice is an entry of the list.
  abbrev pub IsFrom : List (Text × Worker) → Choice → Type 0
  IsFrom ws none = Unit {0}
  IsFrom ws (some (wid, w, n)) = Memᴰ (wid, w) ws

  IsFrom-tail :
      (e : Text × Worker) (ws : List (Text × Worker)) (c : Choice) → IsFrom ws c → IsFrom (e ∷ ws) c
  IsFrom-tail e ws none h = tt
  IsFrom-tail e ws (some (wid, w, n)) h = Memᴰ.tail h

  round-IsFrom :
      (wid : Text) (w : Worker) (ws : List (Text × Worker)) (c : Choice)
      → (round wid w c ≡ c) ⊎ IsFrom ((wid, w) ∷ ws) (round wid w c)
  round-IsFrom wid w ws c =
      if-cases (λ (r : Choice). (r ≡ c) ⊎ IsFrom ((wid, w) ∷ ws) r)
        (suits m now a w && (ltb (occupied s w.id) w.max_rooms && improves w (occupied s w.id) c))
        (λ _. inr (Memᴰ.head refl)) (λ _. inl refl)

  choose-IsFrom :
      (ws : List (Text × Worker)) (c : Choice)
      → (choose m now a s ws c ≡ c) ⊎ IsFrom ws (choose m now a s ws c)
  unfolding choose
  choose-IsFrom [] c = inl refl
  choose-IsFrom ((wid, w) ∷ ws) c = elim (choose-IsFrom ws (round wid w c)) [
    | inr f ↦ inr (IsFrom-tail (wid, w) ws (choose m now a s ws (round wid w c)) f)
    | inl e ↦ elim (round-IsFrom wid w ws c) [
      | inl e' ↦ inl (e ∙ e')
      | inr f ↦ inr (subst (IsFrom ((wid, w) ∷ ws)) (sym e) f)
    ]
  ]

  none-IsFrom : (ws : List (Text × Worker)) (c : Choice) → (c ≡ none) ⊎ IsFrom ws c → IsFrom ws c
  none-IsFrom ws c (inl e) = subst (IsFrom ws) (sym e) tt
  none-IsFrom ws c (inr f) = f

  -- Of the workers of a list, the one chosen is an entry of the list, suits the room, has a room
  -- free, and is the fullest that does, the least by identifier among equals; if none is chosen, no
  -- worker of the list suits and has a room free.
  pub choose_best :
      (ws : List (Text × Worker))
      → IsFrom ws (choose m now a s ws none)
        × IsSound (choose m now a s ws none)
        × All (λ e. Beaten e (choose m now a s ws none)) ws
  choose_best ws = (
    none-IsFrom ws (choose m now a s ws none) (choose-IsFrom ws none),
    choose-IsSound ws none tt,
    choose-Beaten ws none,
  )
