-- ===== src/Lifecycle/Notify/Told.antt =====
-- What `notify` leaves of each allocation (pkg/fleetmanager/lifecycle.go).
use nakama_playflow.Base.{
  ℕ, ◌≡◌, refl, sym, ap, ◌∙◌, subst, inl, inr, Bool, true, false, List, [], ◌∷◌, Option, none, some,
  Text, text_eq, text_eqb, text_eqb_iff, text_eqb-eq, copies, nat_eqb, leb, arith, lookup,
  lookup-insert, Unique, Unique-rest, Unique-lookup, first_once, lookup-copies, All, Bool-cases,
  Option-cases, if◌then◌else◌, nat_eq,
}
use nakama_playflow.State.{State, Allocation}
use nakama_playflow.State.Store.{update}
use nakama_playflow.Manager.Admin.{notified_run}
use nakama_playflow.Lifecycle.Notify.{tells_all, tell, tell_each, notify}

-- Nobody else does anything.
abbrev pub alone : Allocation → State → State
alone a t = t

-- An allocation after its users were told, or not.
abbrev pub noted : (Text → Allocation → Bool) → Allocation → Allocation
noted send a =
    if leb a.revision a.notified_revision
    then a
    else if tells_all send a
    then record a { notified_revision = a.revision }
    else a

abbrev pub noted_some : (Text → Allocation → Bool) → Option Allocation → Option Allocation
noted_some send none = none
noted_some send (some a) = some (noted send a)

-- What one round does to the allocation that it is about, and to the others.
noted_at :
    (t : State) (a : Allocation) (k : Text)
    → lookup a.id t.allocations ≡ some a
    → lookup k (update t (notified_run a.id a.revision)).0.allocations ≡ (
        if text_eqb a.id k
        then some (record a { notified_revision = a.revision })
        else lookup k t.allocations)
unfolding update notified_run
noted_at t a k e =
    rw (e, update, notified_run, same a.revision)
      (lookup-insert a.id k (record a { notified_revision = a.revision }) t.allocations)
  where
    same : (n : ℕ) → nat_eqb n n ≡ true
    same n = ground arith

kept_at :
    (m : List (Text × Allocation)) (a : Allocation) (k : Text)
    → lookup a.id m ≡ some a
    → lookup k m ≡ (if text_eqb a.id k then some a else lookup k m)
kept_at m a k e = elim (Bool-cases (text_eqb a.id k)) [
  | inl f ↦ rw f (subst (λ j. lookup j m ≡ some a) (text_eqb-eq a.id k f) e)
  | inr f ↦ rw f refl
]

tell-lookup :
    (send : Text → Allocation → Bool) (t : State) (a : Allocation) (k : Text)
    → lookup a.id t.allocations ≡ some a
    → lookup k (tell send a t).allocations
      ≡ (if text_eqb a.id k then some (noted send a) else lookup k t.allocations)
tell-lookup send t a k e = elim (Bool-cases (leb a.revision a.notified_revision)) [
  | inl f ↦ rw f (kept_at t.allocations a k e)
  | inr f ↦ elim (Bool-cases (tells_all send a)) [
    | inl g ↦ rw (f, g) (noted_at t a k e)
    | inr g ↦ rw (f, g) (kept_at t.allocations a k e)
  ]
]

-- Whichever of an entry of the snapshot and one of the store there is.
abbrev told : (Text → Allocation → Bool) → Option Allocation → Option Allocation → Option Allocation
told send none o = o
told send (some a) o = some (noted send a)

keys_differ :
    (k : Text) (es : List (Text × Allocation))
    → copies k es ≡ 0
    → All (λ (e : Text × Allocation). text_eqb k e.0 ≡ false) es
unfolding copies
keys_differ k [] h = tt
keys_differ k ((j, a) ∷ es) h =
    (ground (arith, text_eqb_iff j k, text_eqb_iff k j), keys_differ k es (ground arith))

abbrev Holds : State → List (Text × Allocation) → Type 0
Holds t es = All (λ (e : Text × Allocation). lookup e.0 t.allocations ≡ some e.1) es

Holds-tell :
    (send : Text → Allocation → Bool) (t : State) (a : Allocation) (es : List (Text × Allocation))
    → lookup a.id t.allocations ≡ some a
    → All (λ (e : Text × Allocation). text_eqb a.id e.0 ≡ false) es
    → Holds t es
    → Holds (tell send a t) es
Holds-tell send t a [] e d h = tt
Holds-tell send t a ((j, b) ∷ es) e d h =
    (tell-lookup send t a j e ∙ rw d.0 h.0, Holds-tell send t a es e d.1 h.1)

abbrev pub IsKeyed : List (Text × Allocation) → Type 0
IsKeyed es = All (λ (e : Text × Allocation). e.1.id ≡ e.0) es

tell_each-lookup :
    (send : Text → Allocation → Bool) (es : List (Text × Allocation)) (t : State) (k : Text)
    → Unique es
    → IsKeyed es
    → Holds t es
    → lookup k (tell_each send alone es t).allocations
      ≡ told send (lookup k es) (lookup k t.allocations)
unfolding tell_each lookup
tell_each-lookup send [] t k u i h = refl
tell_each-lookup send ((aid, a) ∷ es) t k u i h =
    let free = first_once aid a es u in
    let stored : lookup a.id t.allocations ≡ some a =
      subst (λ j. lookup j t.allocations ≡ some a) (sym i.0) h.0 in
    let others : All (λ (e : Text × Allocation). text_eqb a.id e.0 ≡ false) es =
      subst (λ j. All (λ (e : Text × Allocation). text_eqb j e.0 ≡ false) es) (sym i.0)
        (keys_differ aid es free) in
    let later =
      tell_each-lookup send es (tell send a t) k (Unique-rest aid a es u) i.1
        (Holds-tell send t a es stored others h.1) in
    elim (Bool-cases (text_eqb aid k)) [
      | inl e ↦ rw e (
          later
          ∙ rw (subst (λ j. lookup j es ≡ none) (text_eqb-eq aid k e) (lookup-copies aid es free)) (
              tell-lookup send t a k stored
              ∙ rw (subst (λ j. text_eqb j k ≡ true) (sym i.0) e) refl))
      | inr e ↦ rw e (
          later
          ∙ ap (told send (lookup k es)) (
              tell-lookup send t a k stored
              ∙ rw (subst (λ j. text_eqb j k ≡ false) (sym i.0) e) refl))
    ]

-- After the controller has told the players, with no other transaction in between, each allocation is what it was, with its notified revision
-- raised to its revision exactly if it was behind and a notification was sent to each of its users; and
-- no allocation is new or gone. Keys are unique and are the identifiers.
pub notify-lookup :
    (send : Text → Allocation → Bool) (s : State) (k : Text)
    → Unique s.allocations
    → IsKeyed s.allocations
    → lookup k (notify send alone s).allocations ≡ noted_some send (lookup k s.allocations)
unfolding notify
notify-lookup send s k u i =
    tell_each-lookup send s.allocations s k u i (Unique-lookup s.allocations u)
    ∙ elim (Option-cases (lookup k s.allocations)) [ inl e ↦ rw e refl | inr (a, e) ↦ rw e refl ]
