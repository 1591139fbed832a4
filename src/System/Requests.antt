-- ===== src/System/Requests.antt =====
-- Requests for a room: one live allocation to a user, and the same answer to the same request
-- (`allocation` and `Allocate`, pkg/fleetmanager/manager.go).
pub mod Keys
pub mod Shuffled
use nakama_playflow.Base.{
  ℕ, ◌+◌, ◌≡◌, refl, sym, inl, inr, Bool, true, false, not, ◌&&◌, List, [], ◌∷◌, Option, none, some,
  Text, text_eq, text_eqb, text_eqb_iff, arith, lookup, insert, lookup-insert, Unique, Result, ok,
  err, Error, ◌>>=◌, guard, exists, length, leb, is_empty, Bool-cases, Option-cases, subst,
  ok-injective,
}
use mathlib.Core.Option.{some-injective}
use nakama_playflow.State.{State, Allocation, terminal}
use nakama_playflow.Manager.{
  allocation, find_request, answer_request, open_allocation, new_allocation, holds_user,
  valid_users, contains,
}
use nakama_playflow.Evolution.Phases.{Evolves, Kept, Steady}
use nakama_playflow.System.Events.{Event, apply}
use nakama_playflow.System.History.{apply-Steady}

-- No user is in two live allocations.
abbrev pub OneLive : State → Type 0
OneLive s =
    (j k : Text) (a b : Allocation)
    → text_eqb j k ≡ false
    → lookup j s.allocations ≡ some a
    → lookup k s.allocations ≡ some b
    → terminal a.state ≡ false
    → terminal b.state ≡ false
    → (user : Text) → contains a.user_ids user ≡ true
    → contains b.user_ids user ≡ false

-- Where an allocation that is live comes from: one that was live, with the same users.
record Origin (k : Text) (b : Allocation) (m : List (Text × Allocation)) : Type 0 where
  before : Allocation
  found : lookup k m ≡ some before
  live : terminal before.state ≡ false
  users : b.user_ids ≡ before.user_ids

Origin-at :
    (k : Text) (b a : Allocation) (m n : List (Text × Allocation))
    → Kept a (lookup k n)
    → lookup k m ≡ some a
    → lookup k n ≡ some b
    → terminal b.state ≡ false
    → Origin k b m
Origin-at k b a m n h e g live = from (subst (Kept a) g h)
  where
    still : Evolves a b → (terminal a.state ≡ true) → ⊥
    still f over = cc (live, (f.frozen over).0, over)

    from : Evolves a b → Origin k b m
    from f = record {
      before = a;
      found = e;
      live = elim (Bool-cases (terminal a.state)) [ inl over ↦ absurd (still f over) | inr l ↦ l ];
      users = f.same_users;
    }

origin :
    (k : Text) (b : Allocation) (m n : List (Text × Allocation))
    → Steady m n
    → lookup k n ≡ some b
    → terminal b.state ≡ false
    → Origin k b m
origin k b m n f g live = elim (Option-cases (lookup k m)) [
  | inl e ↦ cc (f.closed k e, g)
  | inr (a, e) ↦ Origin-at k b a m n (f.kept k a e) e g live
]

-- No transaction that adds no allocation puts a user in two live allocations, if keys are unique and
-- no user was in two before.
pub apply-OneLive : (e : Event) (s : State) → Unique s.allocations → OneLive s → OneLive (apply e s)
apply-OneLive e s u h j k a b d ea eb la lb user ca =
    let f = apply-Steady e s u in
    let oa = origin j a s.allocations (apply e s).allocations f ea la in
    let ob = origin k b s.allocations (apply e s).allocations f eb lb in
    let none_there =
      h j k oa.before ob.before d oa.found ob.found oa.live ob.live user
        (subst (λ us. contains us user ≡ true) oa.users ca) in
    subst (λ us. contains us user ≡ false) (sym ob.users) none_there

-- What the loop has seen of an allocation when it finds nothing.
pub passed :
    (m : List (Text × Allocation)) (users : List Text) (key k : Text) (b : Allocation)
    → find_request m users key ≡ ok none
    → lookup k m ≡ some b
    → (text_eqb b.request_key key ≡ false) × (terminal b.state ≡ false → holds_user b users ≡ false)
unfolding find_request lookup
passed [] users key k b h e = cc
passed ((j, a) ∷ m) users key k b h e = elim (Bool-cases (text_eqb a.request_key key)) [
  | inl r ↦ absurd (ground arith)
  | inr r ↦ elim (Bool-cases (not (terminal a.state) && holds_user a users)) [
    | inl c ↦ absurd (ground arith)
    | inr c ↦ elim (Bool-cases (text_eqb j k)) [
      | inl q ↦ ground arith
      | inr q ↦ passed m users key k b (ground arith) (ground arith)
    ]
  ]
]

exists_false :
    (p : Text → Bool) (xs : List Text) (u : Text)
    → exists p xs ≡ false
    → contains xs u ≡ true
    → p u ≡ false
unfolding contains
exists_false p [] u h c = cc
exists_false p (x ∷ xs) u h c = ground (arith, exists_false p xs u, text_eqb_iff x u)

disjoint_left :
    (b : Allocation) (users : List Text) (u : Text)
    → holds_user b users ≡ false
    → contains users u ≡ true
    → contains b.user_ids u ≡ false
unfolding holds_user
disjoint_left b users u h c = exists_false (contains b.user_ids) users u h c

disjoint_right :
    (b : Allocation) (users : List Text) (u : Text)
    → holds_user b users ≡ false
    → contains b.user_ids u ≡ true
    → contains users u ≡ false
disjoint_right b users u h c = elim (Bool-cases (contains users u)) [
  | inr n ↦ n
  | inl y ↦ cc (disjoint_left b users u h y, c)
]

pub hit :
    (aid j : Text) (a b : Allocation) (m : List (Text × Allocation))
    → text_eqb aid j ≡ true
    → lookup j (insert aid a m) ≡ some b
    → a ≡ b
hit aid j a b m h e = some-injective a b (rw (lookup-insert aid j a m, h) at e)

pub miss :
    (aid j : Text) (a b : Allocation) (m : List (Text × Allocation))
    → text_eqb aid j ≡ false
    → lookup j (insert aid a m) ≡ some b
    → lookup j m ≡ some b
miss aid j a b m h e = rw (lookup-insert aid j a m, h) at e

pub same_key :
    (aid j k : Text) → text_eqb aid j ≡ true → text_eqb aid k ≡ true → text_eqb j k ≡ true
same_key aid j k h e = ground (arith, text_eqb_iff aid j, text_eqb_iff aid k, text_eqb_iff j k)

-- A new allocation of users whom no live allocation holds.
insert-OneLive :
    (s t : State) (aid : Text) (a : Allocation)
    → t.allocations ≡ insert aid a s.allocations
    → OneLive s
    → ((k : Text) (b : Allocation)
        → lookup k s.allocations ≡ some b
        → terminal b.state ≡ false
        → holds_user b a.user_ids ≡ false)
    → OneLive t
insert-OneLive s t aid a g h fit j k b c d eb ec lb lc user cb =
    elim (Bool-cases (text_eqb aid j)) [
      | inl nj ↦ elim (Bool-cases (text_eqb aid k)) [
        | inl nk ↦ cc (same_key aid j k nj nk, d)
        | inr ok' ↦
            disjoint_left c a.user_ids user (fit k c (miss aid k a c s.allocations ok' ec') lc) (
              subst (λ x. contains x.user_ids user ≡ true)
                (sym (hit aid j a b s.allocations nj eb')) cb)
      ]
      | inr oj ↦ elim (Bool-cases (text_eqb aid k)) [
        | inl nk ↦
            subst (λ x. contains x.user_ids user ≡ false) (hit aid k a c s.allocations nk ec')
              (disjoint_right b a.user_ids user (fit j b (miss aid j a b s.allocations oj eb') lb)
                cb)
        | inr ok' ↦
            h j k b c d (miss aid j a b s.allocations oj eb') (miss aid k a c s.allocations ok' ec')
              lb lc user cb
      ]
    ]
  where
    eb' : lookup j (insert aid a s.allocations) ≡ some b
    eb' = rw g at eb

    ec' : lookup k (insert aid a s.allocations) ≡ some c
    ec' = rw g at ec

found_cases :
    (fresh : ℕ → Text) (users : List Text) (key : Text) (now timeout : ℕ) (s : State)
    (found : Option (Text × Allocation))
    → find_request s.allocations users key ≡ ok found
    → OneLive s
    → OneLive (answer_request fresh users key now timeout s found).0
found_cases fresh users key now timeout s (some f) e h = h
found_cases fresh users key now timeout s none e h =
    insert-OneLive s (open_allocation fresh users key now timeout s).0 (fresh s.drawn)
      (new_allocation (fresh s.drawn) (fresh (s.drawn + 1)) users key now timeout) refl h
      (λ k b g live. (passed s.allocations users key k b e g).1 live)

-- What a successful `allocation` went through.
pub record Allocated (fresh : ℕ → Text) (users : List Text) (key : Text) (now timeout : ℕ)
    (s t : State) (entry : Text × Allocation) : Type 0 where
  pub valid : (valid_users users && not (is_empty key) && leb (length key) 256) ≡ true
  pub found : Option (Text × Allocation)
  pub scanned : find_request s.allocations users key ≡ ok found
  pub answered : answer_request fresh users key now timeout s found ≡ (t, entry)

pub allocated :
    (fresh : ℕ → Text) (users : List Text) (key : Text) (now timeout : ℕ) (s t : State)
    (entry : Text × Allocation)
    → allocation fresh users key now timeout s ≡ ok (t, entry)
    → Allocated fresh users key now timeout s t entry
unfolding allocation
allocated fresh users key now timeout s t entry h =
    guarded (valid_users users && not (is_empty key) && leb (length key) 256) refl h
  where
    scanned_by :
        (valid_users users && not (is_empty key) && leb (length key) 256) ≡ true
        → (r : Result (Option (Text × Allocation))) → find_request s.allocations users key ≡ r
        → (r >>= λ f. ok (answer_request fresh users key now timeout s f)) ≡ ok (t, entry)
        → Allocated fresh users key now timeout s t entry
    scanned_by v (ok f) e g = record {
      valid = v;
      found = f;
      scanned = e;
      answered = ok-injective g;
    }
    scanned_by v (err x) e g = cc

    guarded :
        (b : Bool)
        → (valid_users users && not (is_empty key) && leb (length key) 256) ≡ b
        → (guard b Error.invalid >>= λ _. find_request s.allocations users key >>= λ f.
            ok (answer_request fresh users key now timeout s f))
          ≡ ok (t, entry)
        → Allocated fresh users key now timeout s t entry
    guarded true v g = scanned_by v (find_request s.allocations users key) refl g
    guarded false v g = cc

-- An allocation that is made or found again by a request leaves no user in two live allocations, if
-- none was in two before.
pub allocation-OneLive :
    (fresh : ℕ → Text) (users : List Text) (key : Text) (now timeout : ℕ) (s t : State)
    (entry : Text × Allocation)
    → allocation fresh users key now timeout s ≡ ok (t, entry)
    → OneLive s
    → OneLive t
allocation-OneLive fresh users key now timeout s t entry h one =
    let a = allocated fresh users key now timeout s t entry h in
    subst (λ (p : State × (Text × Allocation)). OneLive p.0) a.answered
      (found_cases fresh users key now timeout s a.found a.scanned one)
