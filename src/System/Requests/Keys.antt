-- ===== src/System/Requests/Keys.antt =====
-- Each request has a key of its own, which one allocation answers (`allocation`,
-- pkg/fleetmanager/manager.go).
use nakama_playflow.Base.{
  ℕ, ◌+◌, insert-Unique, Option-cases, ◌≡◌, refl, ap, subst, inl, inr, false, List, Option, none,
  some, Text, text_eq, text_eqb, text_eqb_iff, arith, lookup, insert, Unique, ok, nat_eq,
  Bool-cases,
}
use nakama_playflow.State.{State, Allocation}
use nakama_playflow.Manager.{
  allocation, find_request, answer_request, open_allocation, new_allocation,
}
use nakama_playflow.System.Requests.{
  OneLive, allocated, allocation-OneLive, passed, hit, miss, same_key,
}
use nakama_playflow.Evolution.Phases.{Kept, Steady}
use nakama_playflow.System.Events.{Event, apply}
use nakama_playflow.System.History.{apply-Steady}
use nakama_playflow.System.Requests.{apply-OneLive}

-- No two allocations have the key of one request.
abbrev pub KeyOnce : State → Type 0
KeyOnce s =
    (j k : Text) (a b : Allocation)
    → text_eqb j k ≡ false
    → lookup j s.allocations ≡ some a
    → lookup k s.allocations ≡ some b
    → text_eqb a.request_key b.request_key ≡ false

pub record InOrder (s : State) : Type 0 where
  pub unique : Unique s.allocations
  pub one_live : OneLive s
  pub key_once : KeyOnce s

insert-KeyOnce :
    (s t : State) (aid : Text) (a : Allocation)
    → t.allocations ≡ insert aid a s.allocations
    → KeyOnce s
    → ((k : Text) (b : Allocation)
        → lookup k s.allocations ≡ some b
        → text_eqb b.request_key a.request_key ≡ false)
    → KeyOnce t
insert-KeyOnce s t aid a g h fit j k b c d eb ec = elim (Bool-cases (text_eqb aid j)) [
  | inl nj ↦ elim (Bool-cases (text_eqb aid k)) [
    | inl nk ↦ cc (same_key aid j k nj nk, d)
    | inr ok' ↦
        subst (λ x. text_eqb x.request_key c.request_key ≡ false)
          (hit aid j a b s.allocations nj eb')
          (flipped c.request_key a.request_key (fit k c (miss aid k a c s.allocations ok' ec')))
  ]
  | inr oj ↦ elim (Bool-cases (text_eqb aid k)) [
    | inl nk ↦
        subst (λ x. text_eqb b.request_key x.request_key ≡ false)
          (hit aid k a c s.allocations nk ec') (fit j b (miss aid j a b s.allocations oj eb'))
    | inr ok' ↦
        h j k b c d (miss aid j a b s.allocations oj eb') (miss aid k a c s.allocations ok' ec')
  ]
]
  where
    eb' : lookup j (insert aid a s.allocations) ≡ some b
    eb' = rw g at eb

    ec' : lookup k (insert aid a s.allocations) ≡ some c
    ec' = rw g at ec

    flipped : (x y : Text) → text_eqb x y ≡ false → text_eqb y x ≡ false
    flipped x y n = ground (arith, text_eqb_iff x y, text_eqb_iff y x)

answer-KeyOnce :
    (fresh : ℕ → Text) (users : List Text) (key : Text) (now timeout : ℕ) (s : State)
    (found : Option (Text × Allocation))
    → find_request s.allocations users key ≡ ok found
    → KeyOnce s
    → KeyOnce (answer_request fresh users key now timeout s found).0
answer-KeyOnce fresh users key now timeout s (some f) e h = h
answer-KeyOnce fresh users key now timeout s none e h =
    insert-KeyOnce s (open_allocation fresh users key now timeout s).0 (fresh s.drawn)
      (new_allocation (fresh s.drawn) (fresh (s.drawn + 1)) users key now timeout) refl h
      (λ k b g. (passed s.allocations users key k b e g).0)

-- Where an allocation comes from: one that was there, with the same key.
record Root (k : Text) (b : Allocation) (m : List (Text × Allocation)) : Type 0 where
  before : Allocation
  found : lookup k m ≡ some before
  key : b.request_key ≡ before.request_key

root :
    (k : Text) (b : Allocation) (m n : List (Text × Allocation))
    → Steady m n
    → lookup k n ≡ some b
    → Root k b m
root k b m n f g = elim (Option-cases (lookup k m)) [
  | inl e ↦ cc (f.closed k e, g)
  | inr (a, e) ↦ record { before = a; found = e; key = (subst (Kept a) g (f.kept k a e)).same_key }
]

apply-KeyOnce : (e : Event) (s : State) → Unique s.allocations → KeyOnce s → KeyOnce (apply e s)
apply-KeyOnce e s u h j k b c d eb ec =
    let f = apply-Steady e s u in
    let rb = root j b s.allocations (apply e s).allocations f eb in
    let rc = root k c s.allocations (apply e s).allocations f ec in
    rw (rb.key, rc.key) (h j k rb.before rc.before d rb.found rc.found)

-- No transaction that adds no allocation upsets the requests.
pub apply-InOrder : (e : Event) (s : State) → InOrder s → InOrder (apply e s)
apply-InOrder e s i = record {
  unique = (apply-Steady e s i.unique).unique i.unique;
  one_live = apply-OneLive e s i.unique i.one_live;
  key_once = apply-KeyOnce e s i.unique i.key_once;
}

answer-Unique :
    (fresh : ℕ → Text) (users : List Text) (key : Text) (now timeout : ℕ) (s : State)
    (found : Option (Text × Allocation))
    → Unique s.allocations
    → Unique (answer_request fresh users key now timeout s found).0.allocations
answer-Unique fresh users key now timeout s (some f) u = u
answer-Unique fresh users key now timeout s none u =
    insert-Unique (fresh s.drawn)
      (new_allocation (fresh s.drawn) (fresh (s.drawn + 1)) users key now timeout) s.allocations u

-- And nor does a request.
pub allocation-InOrder :
    (fresh : ℕ → Text) (users : List Text) (key : Text) (now timeout : ℕ) (s t : State)
    (entry : Text × Allocation)
    → allocation fresh users key now timeout s ≡ ok (t, entry)
    → InOrder s
    → InOrder t
allocation-InOrder fresh users key now timeout s t entry h order =
    let a = allocated fresh users key now timeout s t entry h in
    let same : (answer_request fresh users key now timeout s a.found).0 ≡ t =
      ap (λ p. p.0) a.answered in
    record {
      unique =
          subst (λ (u : State). Unique u.allocations) same
            (answer-Unique fresh users key now timeout s a.found order.unique);
      one_live = allocation-OneLive fresh users key now timeout s t entry h order.one_live;
      key_once =
          subst KeyOnce same
            (answer-KeyOnce fresh users key now timeout s a.found a.scanned order.key_once);
    }
