-- ===== src/System/Replay.antt =====
-- The same request has the same answer (`allocation` and `Allocate`, pkg/fleetmanager/manager.go).
use nakama_playflow.Base.{
  ℕ, ◌+◌, ◌≡◌, refl, ap, ◌∙◌, inl, inr, true, not, ◌&&◌, List, [], ◌∷◌, Option, none, some, Text,
  text_eqb, text_eqb_refl, text_ltb, text_eq, nat_eqb, arith, lookup, insert, ok, ok-injective,
  >>=-eq-ok, length, sort, leb, is_empty, Bool-cases, subst,
}
use nakama_playflow.State.{State, Allocation, terminal}
use nakama_playflow.Manager.{
  Manager, allocation, find_request, answer_request, new_allocation, holds_user, same_users,
  all_equal, valid_users,
}
use nakama_playflow.Manager.Calls.{allocate_run}
use nakama_playflow.System.Requests.{allocated}
use nakama_playflow.System.Requests.Keys.{InOrder, allocation-InOrder}
use nakama_playflow.System.Requests.Shuffled.{IsLive, IsShuffled, find_shuffled}

all_equal_refl : (xs : List Text) → all_equal xs xs ≡ true
unfolding all_equal
all_equal_refl [] = refl
all_equal_refl (x ∷ xs) = ground (arith, text_eqb_refl x, all_equal_refl xs)

same_length : (n : ℕ) → nat_eqb n n ≡ true
same_length n = ground arith

same_users_refl : (users : List Text) → same_users users users ≡ true
unfolding same_users
same_users_refl users = rw (same_length (length users)) (all_equal_refl (sort text_ltb users))

-- A scan that found nothing finds the entry that is then put under a key of its own.
find_inserted :
    (m : List (Text × Allocation)) (users : List Text) (aid : Text) (a : Allocation)
    → a.user_ids ≡ users
    → find_request m users a.request_key ≡ ok none
    → lookup aid m ≡ none
    → find_request (insert aid a m) users a.request_key ≡ ok (some (aid, a))
unfolding find_request lookup insert
find_inserted [] users aid a u h e = rw (text_eqb_refl a.request_key, u, same_users_refl users)
find_inserted ((j, b) ∷ m) users aid a u h e = elim (Bool-cases (text_eqb j aid)) [
  | inl q ↦ absurd (ground arith)
  | inr q ↦ elim (Bool-cases (text_eqb b.request_key a.request_key)) [
    | inl r ↦ absurd (ground arith)
    | inr r ↦ elim (Bool-cases (not (terminal b.state) && holds_user b users)) [
      | inl c ↦ absurd (ground arith)
      | inr c ↦ rw (q, r, c) (find_inserted m users aid a u (rw (r, c) at h) (rw q at e))
    ]
  ]
]

-- The entry that `allocation` gives is the one that the next scan stops at.
find_answer :
    (fresh : ℕ → Text) (users : List Text) (key : Text) (now timeout : ℕ) (s : State)
    (found : Option (Text × Allocation))
    → find_request s.allocations users key ≡ ok found
    → lookup (fresh s.drawn) s.allocations ≡ none
    → let (t, entry) = answer_request fresh users key now timeout s found in
      find_request t.allocations users key ≡ ok (some entry)
find_answer fresh users key now timeout s (some f) e h = e
find_answer fresh users key now timeout s none e h =
    find_inserted s.allocations users (fresh s.drawn)
      (new_allocation (fresh s.drawn) (fresh (s.drawn + 1)) users key now timeout) refl e h

-- A request that was granted is the one that the next scan for it stops at, and the requests are in
-- order after it too.
pub granted_again :
    (m : Manager) (users : List Text) (key : Text) (now : ℕ) (s t : State) (id : Text)
    → allocate_run m users key now s ≡ ok (t, id)
    → lookup (m.fresh s.drawn) s.allocations ≡ none
    → InOrder s
    → (entry : Text × Allocation) × ((valid_users users
          && not (is_empty key)
          && leb (length key) 256)
        ≡ true)
      × (find_request t.allocations users key ≡ ok (some entry))
      × (entry.1.id ≡ id)
      × InOrder t
unfolding allocate_run
granted_again m users key now s t id h free order =
    let (answer, e, g) =
      >>=-eq-ok (allocation m.fresh users key now m.cfg.allocation_timeout s)
        (λ answer. ok (answer.0, answer.1.1.id)) h in
    let same : (answer.0, answer.1.1.id) ≡ (t, id) = ok-injective g in
    let a = allocated m.fresh users key now m.cfg.allocation_timeout s answer.0 answer.1 e in
    let next : find_request answer.0.allocations users key ≡ ok (some answer.1) =
      subst
        (λ (p : State × (Text × Allocation)).
          find_request p.0.allocations users key ≡ ok (some p.1))
        a.answered
        (find_answer m.fresh users key now m.cfg.allocation_timeout s a.found a.scanned free) in
    (
      answer.1,
      a.valid,
      subst (λ (u : State). find_request u.allocations users key ≡ ok (some answer.1))
          (ap (λ p. p.0) same) next,
      ap (λ p. p.1) same,
      subst InOrder (ap (λ p. p.0) same) (
          allocation-InOrder m.fresh users key now m.cfg.allocation_timeout s answer.0 answer.1 e
            order),
    )

-- A request that the scan finds an answer to is granted, and changes nothing.
pub found_again :
    (m : Manager) (users : List Text) (key : Text) (now : ℕ) (t : State) (entry : Text × Allocation)
    → (valid_users users && not (is_empty key) && leb (length key) 256) ≡ true
    → find_request t.allocations users key ≡ ok (some entry)
    → allocate_run m users key now t ≡ ok (t, entry.1.id)
unfolding allocate_run allocation
found_again m users key now t entry v e = rw (v, e)

-- A request that was granted, made again with its key and its users at any later time before another
-- transaction, gives the same allocation and changes nothing, in whatever order the second call walks the
-- map. The new identifier must not be taken; keys are unique, requests have keys of their own, and no user
-- is in two live allocations; and the allocation that answers is not over.
pub allocate_run-replay :
    (m : Manager) (users : List Text) (key : Text) (now now' : ℕ) (s t : State) (id : Text)
    (es : List (Text × Allocation))
    → allocate_run m users key now s ≡ ok (t, id)
    → lookup (m.fresh s.drawn) s.allocations ≡ none
    → InOrder s
    → IsLive key t
    → IsShuffled t es
    → allocate_run m users key now' (record t { allocations = es })
      ≡ ok (record t { allocations = es }, id)
allocate_run-replay m users key now now' s t id es h free order live shuffled =
    let (entry, v, e, same, after) = granted_again m users key now s t id h free order in
    found_again m users key now' (record t { allocations = es }) entry v
      (find_shuffled users key t entry es e after live shuffled)
    ∙ ap (λ i. ok (record t { allocations = es }, i)) same
