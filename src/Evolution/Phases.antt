-- ===== src/Evolution/Phases.antt =====
-- The diagram of an allocation's phases, and how an allocation may differ from what it was. The room's
-- line of docs/architecture.md is the diagram, with the ways out that the code has besides: a room may
-- complete before it was active, and may fail, be cancelled or expire.
use nakama_playflow.Base.{
  ℕ, ◌+◌, is_empty, ◌≤◌, ◌<◌, ◌≡◌, refl, ◌⊎◌, ◌≢◌, inl, inr, Bool, true, false, not, ◌&&◌, List,
  Option, none, some, Text, arith, lookup, insert, map_values, drop_if, Unique, lookup-insert,
  lookup-map_values, lookup-drop_if, insert-Unique, map_values-Unique, drop_if-Unique, text_eqb,
  text_eqb-eq, Bool-cases, ◌==◌, if◌then◌else◌, sym, subst, ◌∙◌,
}
use nakama_playflow.State.{Allocation, Phase, terminal, phase_eq}

-- Neither over nor being cancelled.
abbrev pub is_live : Phase → Bool
is_live p = not (terminal p) && not (p == Phase.cancelling)

-- A phase, and whether the allocation is without a worker.
abbrev pub Stage : Type 0
Stage = Phase × Bool

abbrev pub stage_of : Allocation → Stage
stage_of a = (a.state, is_empty a.worker_id)

-- An allocation with a worker is cancelled or expires through `cancelling` alone; one without a worker
-- may end at once. A room may close before it was active.
infix 40 ◌⟶◌ ◌⟶*◌
pub data ◌⟶◌ : Stage → Stage → Type 0 where
  place : {b c : Bool} → (Phase.waiting_capacity, b) ⟶ (Phase.preparing, c)
  confirm : {b : Bool} → (Phase.preparing, b) ⟶ (Phase.prepared, b)
  assign : {b : Bool} → (Phase.prepared, b) ⟶ (Phase.assigned, b)
  start : {b : Bool} → (Phase.assigned, b) ⟶ (Phase.active, b)
  leave : {b : Bool} → (Phase.assigned, b) ⟶ (Phase.completed, b)
  complete : {b : Bool} → (Phase.active, b) ⟶ (Phase.completed, b)
  withdraw : {p : Phase} → is_live p ≡ true → (p, false) ⟶ (Phase.cancelling, false)
  expire : {p : Phase} → terminal p ≡ false → (p, true) ⟶ (Phase.expired, true)
  give_up : {p : Phase} → terminal p ≡ false → (p, true) ⟶ (Phase.cancelled, true)
  clear_expired : {b : Bool} → (Phase.cancelling, b) ⟶ (Phase.expired, b)
  clear_cancelled : {b : Bool} → (Phase.cancelling, b) ⟶ (Phase.cancelled, b)
  fail : {p : Phase} {b : Bool} → terminal p ≡ false → (p, b) ⟶ (Phase.failed, b)

pub data ◌⟶*◌ : Stage → Stage → Type 0 where
  here : {p : Stage} → p ⟶* p
  step : {p q r : Stage} → p ⟶ q → q ⟶* r → p ⟶* r

pub ⟶*_trans : {p q r : Stage} → p ⟶* q → q ⟶* r → p ⟶* r
⟶*_trans here t = t
⟶*_trans (step e s) t = step e (⟶*_trans s t)

-- The number of edges of a path.
unfoldable pub edges : {p q : Stage} → p ⟶* q → ℕ
edges here = 0
edges (step e s) = 1 + edges s

edges_trans : {p q r : Stage} (s : p ⟶* q) (t : q ⟶* r) → edges (⟶*_trans s t) ≡ edges s + edges t
unfolding edges ⟶*_trans
edges_trans here t = omega arith
edges_trans (step e s) t = omega (arith, edges_trans s t)

-- What an allocation keeps for its life, and how its phase and revision move: each edge of the path that
-- its phase takes has raised the revision.
pub record Evolves (a b : Allocation) : Type 0 where
  pub same_id : b.id ≡ a.id
  pub same_key : b.request_key ≡ a.request_key
  pub same_room : b.room_id ≡ a.room_id
  pub same_users : b.user_ids ≡ a.user_ids
  pub same_epoch : b.epoch ≡ a.epoch
  pub later : a.revision ≤ b.revision
  pub marked : (b.state ≡ a.state) ⊎ (a.revision < b.revision)
  pub path : stage_of a ⟶* stage_of b
  pub paced : a.revision + edges path ≤ b.revision
  pub anchored : (a.state ≡ Phase.waiting_capacity) ⊎ (b.worker_id ≡ a.worker_id)
  pub frozen :
      terminal a.state ≡ true
      → (b.state ≡ a.state)
        × (b.revision ≡ a.revision)
        × (b.worker_id ≡ a.worker_id)
        × (b.sessions ≡ a.sessions)

pub Evolves-refl : (a : Allocation) → Evolves a a
unfolding edges
Evolves-refl a = record {
  same_id = refl;
  same_key = refl;
  same_room = refl;
  same_users = refl;
  same_epoch = refl;
  later = omega arith;
  marked = inl refl;
  path = here;
  paced = omega arith;
  anchored = inr refl;
  frozen = λ h. (refl, refl, refl, refl);
}

marked_trans :
    {a b c : Allocation}
    → Evolves a b
    → Evolves b c
    → (c.state ≡ a.state) ⊎ (a.revision < c.revision)
marked_trans f g = ground arith

frozen_trans :
    {a b c : Allocation}
    → Evolves a b
    → Evolves b c
    → terminal a.state ≡ true
    → (c.state ≡ a.state)
      × (c.revision ≡ a.revision)
      × (c.worker_id ≡ a.worker_id)
      × (c.sessions ≡ a.sessions)
frozen_trans f g h = ground (arith, f.frozen h, g.frozen)

-- No edge leads back to the queue.
enters : {p q : Stage} → p ⟶ q → q.0 ≢ Phase.waiting_capacity
enters place h = cc
enters confirm h = cc
enters assign h = cc
enters start h = cc
enters leave h = cc
enters complete h = cc
enters (withdraw l) h = cc
enters (expire l) h = cc
enters (give_up l) h = cc
enters clear_expired h = cc
enters clear_cancelled h = cc
enters (fail l) h = cc

onward :
    {p q : Stage} (r : Stage)
    → p ⟶ q
    → (r.0 ≡ q.0) ⊎ (r.0 ≢ Phase.waiting_capacity)
    → r.0 ≢ Phase.waiting_capacity
onward r e (inl h) w = enters e (sym h ∙ w)
onward r e (inr n) w = n w

leaves : {p q : Stage} → p ⟶* q → (q.0 ≡ p.0) ⊎ (q.0 ≢ Phase.waiting_capacity)
leaves here = inl refl
leaves {q = r} (step e s) = inr (onward r e (leaves s))

anchored_trans :
    {a b c : Allocation}
    → Evolves a b
    → Evolves b c
    → (a.state ≡ Phase.waiting_capacity) ⊎ (c.worker_id ≡ a.worker_id)
anchored_trans f g = elim f.anchored [
  | inl w ↦ inl w
  | inr e ↦ elim g.anchored [
    | inr e' ↦ inr (e' ∙ e)
    | inl w ↦ elim (leaves f.path) [ inl p ↦ inl (sym p ∙ w) | inr n ↦ absurd (n w) ]
  ]
]

pub Evolves-trans : {a b c : Allocation} → Evolves a b → Evolves b c → Evolves a c
Evolves-trans f g = record {
  same_id = g.same_id ∙ f.same_id;
  same_key = g.same_key ∙ f.same_key;
  same_room = g.same_room ∙ f.same_room;
  same_users = g.same_users ∙ f.same_users;
  same_epoch = g.same_epoch ∙ f.same_epoch;
  later = omega (arith, f.later, g.later);
  marked = marked_trans f g;
  path = ⟶*_trans f.path g.path;
  paced = omega (arith, f.paced, g.paced, edges_trans f.path g.path);
  anchored = anchored_trans f g;
  frozen = frozen_trans f g;
}

-- What becomes of an allocation in a map: it is there and has evolved, or it is gone, and was over
-- when it went.
abbrev pub Kept : Allocation → Option Allocation → Type 0
Kept a none = (b : Allocation) × Evolves a b × (terminal b.state ≡ true)
Kept a (some b) = Evolves a b

-- No allocation is added, and each that was there is kept.
pub record Steady (m n : List (Text × Allocation)) : Type 0 where
  pub kept : (k : Text) (a : Allocation) → lookup k m ≡ some a → Kept a (lookup k n)
  pub closed : (k : Text) → lookup k m ≡ none → lookup k n ≡ none
  pub unique : Unique m → Unique n

pub Steady-refl : (m : List (Text × Allocation)) → Steady m m
Steady-refl m = record { kept = λ k a h. rw h (Evolves-refl a); closed = λ k h. h; unique = λ u. u }

Kept-after : {a b : Allocation} → Evolves a b → (o : Option Allocation) → Kept b o → Kept a o
Kept-after f none (c, g, t) = (c, Evolves-trans f g, t)
Kept-after f (some c) g = Evolves-trans f g

Kept-trans :
    {n o : List (Text × Allocation)} (a : Allocation) (k : Text)
    → Steady n o
    → (b : Option Allocation) → lookup k n ≡ b
    → Kept a b
    → Kept a (lookup k o)
Kept-trans a k g none e h = rw (g.closed k e) h
Kept-trans {o = o} a k g (some b) e h = Kept-after h (lookup k o) (g.kept k b e)

pub Steady-trans : {m n o : List (Text × Allocation)} → Steady m n → Steady n o → Steady m o
Steady-trans {n = n} f g = record {
  kept = λ k a h. Kept-trans a k g (lookup k n) refl (f.kept k a h);
  closed = λ k h. g.closed k (f.closed k h);
  unique = λ u. g.unique (f.unique u);
}

insert-Kept :
    (j k : Text) (a b c : Allocation) (m : List (Text × Allocation))
    → lookup j m ≡ some a
    → Evolves a b
    → lookup k m ≡ some c
    → Kept c (lookup k (insert j b m))
insert-Kept j k a b c m h f e = rw (lookup-insert j k b m) (elim (Bool-cases (text_eqb j k)) [
  | inl t ↦ rw t (subst (λ x. Evolves x b) (same t) f)
  | inr t ↦ rw (t, e) (Evolves-refl c)
])
  where
    same : text_eqb j k ≡ true → a ≡ c
    same t = cc (text_eqb-eq j k t)

insert_closed :
    (j k : Text) (a b : Allocation) (m : List (Text × Allocation))
    → lookup j m ≡ some a
    → lookup k m ≡ none
    → lookup k (insert j b m) ≡ none
insert_closed j k a b m h e = ground (arith, lookup-insert j k b m, text_eqb-eq j k)

-- A write to an allocation that is there.
pub insert-Steady :
    (j : Text) (a b : Allocation) (m : List (Text × Allocation))
    → lookup j m ≡ some a
    → Evolves a b
    → Steady m (insert j b m)
insert-Steady j a b m h f = record {
  kept = λ k c e. insert-Kept j k a b c m h f e;
  closed = λ k e. insert_closed j k a b m h e;
  unique = insert-Unique j b m;
}

-- A loop that writes to every allocation.
pub map_values-Steady :
    (f : Allocation → Allocation) (m : List (Text × Allocation))
    → ((a : Allocation) → Evolves a (f a))
    → Steady m (map_values f m)
map_values-Steady f m h = record {
  kept = λ k a e. rw (lookup-map_values f k m, e) (h a);
  closed = λ k e. rw (lookup-map_values f k m, e);
  unique = map_values-Unique f m;
}

drop-Kept :
    (p : Allocation → Bool) (a : Allocation)
    → (p a ≡ true → terminal a.state ≡ true)
    → Kept a (if p a then none else some a)
drop-Kept p a h = elim (Bool-cases (p a)) [
  | inl e ↦ rw e (a, Evolves-refl a, h e)
  | inr e ↦ rw e (Evolves-refl a)
]

-- A deletion of allocations that are over.
pub drop_if-Steady :
    (p : Allocation → Bool) (m : List (Text × Allocation))
    → ((a : Allocation) → p a ≡ true → terminal a.state ≡ true)
    → Steady m (drop_if p m)
drop_if-Steady p m h = record {
  kept = λ k a e. rw (lookup-drop_if p k m, e) (drop-Kept p a (h a));
  closed = λ k e. rw (lookup-drop_if p k m, e);
  unique = drop_if-Unique p m;
}
