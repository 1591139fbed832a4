-- ===== src/System/Reachable.antt =====
-- The states that a fleet reaches from the empty one, by calls of `Allocate`
-- (pkg/fleetmanager/manager.go) and by the transactions that add no allocation.
use nakama_playflow.Base.{
  ℕ, ◌+◌, ◌≡◌, refl, List, [], ◌∷◌, Text, arith, lookup, copies, Result, ok, err, >>=-eq-ok, subst,
}
use nakama_playflow.State.{State, Allocation, empty_state}
use nakama_playflow.State.Store.{update}
use nakama_playflow.Manager.{Manager, allocation}
use nakama_playflow.Manager.Calls.{allocate_run}
use nakama_playflow.System.Events.{Event, apply}
use nakama_playflow.System.Requests.Keys.{KeyOnce, InOrder, allocation-InOrder, apply-InOrder}
use nakama_playflow.System.Requests.{OneLive}

pub data Turn : Type 0 where
  asks : Manager → List Text → Text → ℕ → Turn
  does : Event → Turn

unfoldable pub turn : Turn → State → State
turn (asks m users key now) s = (update s (allocate_run m users key now)).0
turn (does e) s = apply e s

unfoldable pub reach : List Turn → State → State
unfolding turn
reach [] s = s
reach (x ∷ xs) s = reach xs (turn x s)

granted-InOrder :
    (m : Manager) (users : List Text) (key : Text) (now : ℕ) (s t : State) (id : Text)
    → allocate_run m users key now s ≡ ok (t, id)
    → InOrder s
    → InOrder t
unfolding allocate_run
granted-InOrder m users key now s t id h i =
    let (answer, e, g) =
      >>=-eq-ok (allocation m.fresh users key now m.cfg.allocation_timeout s)
        (λ answer. ok (answer.0, answer.1.1.id)) h in
    subst InOrder (same answer g)
      (allocation-InOrder m.fresh users key now m.cfg.allocation_timeout s answer.0 answer.1 e i)
  where
    same :
        (answer : State × (Text × Allocation))
        → ◌≡◌ {A = Result (State × Text)} (ok (answer.0, answer.1.1.id)) (ok (t, id))
        → answer.0 ≡ t
    same answer g = cc

updated-InOrder :
    (s : State) (fn : State → Result (State × Text))
    → ((t : State) (id : Text) → fn s ≡ ok (t, id) → InOrder s → InOrder t)
    → InOrder s
    → InOrder (update s fn).0
unfolding update
updated-InOrder s fn h i = cases (fn s) refl
  where
    cases :
        (r : Result (State × Text))
        → fn s ≡ r
        → InOrder
            (elim r as (λ _. State × Result Text) [
              | ok (next, a) ↦ (record next { revision = next.revision + 1 }, ok a)
              | err e ↦ (s, err e)
            ]).0
    cases (ok (t, id)) e =
        let k = h t id e i in
        record { unique = k.unique; one_live = k.one_live; key_once = k.key_once }
    cases (err x) e = i

turn-InOrder : (x : Turn) (s : State) → InOrder s → InOrder (turn x s)
unfolding turn
turn-InOrder (asks m users key now) s i =
    updated-InOrder s (allocate_run m users key now)
      (λ t id. granted-InOrder m users key now s t id) i
turn-InOrder (does e) s i = apply-InOrder e s i

reach-InOrder : (xs : List Turn) (s : State) → InOrder s → InOrder (reach xs s)
unfolding reach
reach-InOrder [] s i = i
reach-InOrder (x ∷ xs) s i = reach-InOrder xs (turn x s) (turn-InOrder x s i)

empty-InOrder : InOrder empty_state
unfolding empty_state copies lookup
empty-InOrder = record {
  unique = λ k. omega arith;
  one_live = λ j k a b d ea eb la lb user ca. cc ea;
  key_once = λ j k a b d ea eb. cc ea;
}

-- In every state that a fleet reaches from the empty one by calls of `Allocate` and transactions that
-- add no allocation, in whatever order, no user is in two live allocations.
pub reach-OneLive : (xs : List Turn) → OneLive (reach xs empty_state)
reach-OneLive xs = (reach-InOrder xs empty_state empty-InOrder).one_live

-- In every state that a fleet reaches from the empty one by calls of `Allocate` and transactions that
-- add no allocation, in whatever order, no two allocations answer requests of one key.
pub reach-KeyOnce : (xs : List Turn) → KeyOnce (reach xs empty_state)
reach-KeyOnce xs = (reach-InOrder xs empty_state empty-InOrder).key_once
