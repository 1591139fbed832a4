-- ===== src/System/Requests/Shuffled.antt =====
-- Go draws a new order at each walk of a map: the scan for the allocation that answers a request stops at
-- the same one in any order (`allocation`, pkg/fleetmanager/manager.go).
use nakama_playflow.Base.{
  ◌≡◌, refl, sym, ap, subst, inl, inr, Bool, true, false, not, ◌&&◌, List, [], ◌∷◌, some, Text,
  text_eq, text_ltb, text_eqb, text_eqb-eq, text_eqb_iff, arith, lookup, Unique, Unique-lookup, All,
  ok, exists, sort, nat_eq, Bool-cases, ok-injective,
}
use mathlib.Core.Option.{some-injective}
use nakama_playflow.State.{State, Allocation, terminal}
use nakama_playflow.Manager.{find_request, holds_user, contains, same_users, all_equal}
use nakama_playflow.Manager.Listing.Order.{contains-sort}
use nakama_playflow.System.Requests.Keys.{InOrder}

-- The allocation that answers a request is not over.
abbrev pub IsLive : Text → State → Type 0
IsLive key s =
    All
      (λ (e : Text × Allocation). text_eqb e.1.request_key key ≡ true → terminal e.1.state ≡ false)
      s.allocations

-- The same map, in another order.
pub record IsShuffled (s : State) (es : List (Text × Allocation)) : Type 0 where
  pub unique : Unique es
  pub same : (k : Text) → lookup k es ≡ lookup k s.allocations

-- What the scan has seen of the entry that it stops at.
module _ (P : Text × Allocation → Type 0) where
  stopped_at :
      (m : List (Text × Allocation)) (users : List Text) (key : Text) (e : Text × Allocation)
      → All P m
      → find_request m users key ≡ ok (some e)
      → P e × (text_eqb e.1.request_key key ≡ true) × (same_users e.1.user_ids users ≡ true)
  unfolding find_request
  stopped_at [] users key e h f = cc
  stopped_at ((j, a) ∷ m) users key e h f = elim (Bool-cases (text_eqb a.request_key key)) [
    | inl r ↦ elim (Bool-cases (same_users a.user_ids users)) [
      | inl q ↦
          subst
            (λ e.
              P e × (text_eqb e.1.request_key key ≡ true) × (same_users e.1.user_ids users ≡ true))
            (some-injective (j, a) e (ok-injective (rw (r, q) at f))) (h.0, r, q)
      | inr q ↦ cc (rw (r, q) at f)
    ]
    | inr r ↦ elim (Bool-cases (not (terminal a.state) && holds_user a users)) [
      | inl c ↦ cc (rw (r, c) at f)
      | inr c ↦ stopped_at m users key e h.1 (rw (r, c) at f)
    ]
  ]

-- An allocation that the scan goes past.
abbrev Passes : List Text → Text → Allocation → Type 0
Passes users key b =
    (text_eqb b.request_key key ≡ false) × ((not (terminal b.state) && holds_user b users) ≡ false)

find_among :
    (n : List (Text × Allocation)) (users : List Text) (key aid : Text) (a : Allocation)
    → text_eqb a.request_key key ≡ true
    → same_users a.user_ids users ≡ true
    → lookup aid n ≡ some a
    → All (λ (e : Text × Allocation). text_eqb e.0 aid ≡ false → Passes users key e.1) n
    → find_request n users key ≡ ok (some (aid, a))
unfolding find_request lookup
find_among [] users key aid a r q h p = cc
find_among ((j, b) ∷ n) users key aid a r q h p = elim (Bool-cases (text_eqb j aid)) [
  | inr o ↦ rw ((p.0 o).0, (p.0 o).1) (find_among n users key aid a r q (rw o at h) p.1)
  | inl o ↦
      let same : b ≡ a = some-injective b a (rw o at h) in rw (text_eqb-eq j aid o, same, r, q) refl
]

all_equal-eq : (xs ys : List Text) → all_equal xs ys ≡ true → xs ≡ ys
unfolding all_equal
all_equal-eq [] [] h = refl
all_equal-eq [] (y ∷ ys) h = cc
all_equal-eq (x ∷ xs) [] h = cc
all_equal-eq (x ∷ xs) (y ∷ ys) h = elim (Bool-cases (text_eqb x y)) [
  | inl e ↦ rw (text_eqb-eq x y e, all_equal-eq xs ys (rw e at h)) refl
  | inr e ↦ cc (rw e at h)
]

-- Lists that count as the same hold the same users.
same_users-contains :
    (xs ys : List Text) (u : Text) → same_users xs ys ≡ true → contains xs u ≡ contains ys u
unfolding same_users
same_users-contains xs ys u h =
    let e : sort text_ltb xs ≡ sort text_ltb ys = all_equal-eq _ _ (ground arith) in
    rw (sym (contains-sort u xs), sym (contains-sort u ys)) (ap (λ zs. contains zs u) e)

exists_none :
    (p : Text → Bool) (us : List Text)
    → ((u : Text) → contains us u ≡ true → p u ≡ false)
    → exists p us ≡ false
unfolding contains
exists_none p [] h = refl
exists_none p (x ∷ us) h =
    rw (h x (ground (arith, text_eqb_iff x x))) (exists_none p us (λ u c. h u (ground arith)))

module _ (users : List Text) (key : Text) (t : State) (order : InOrder t) (aid : Text)
    (a : Allocation) (stored : lookup aid t.allocations ≡ some a)
    (asked : text_eqb a.request_key key ≡ true) (fit : same_users a.user_ids users ≡ true)
    (live : terminal a.state ≡ false) where
  -- The scan goes past every other allocation.
  other-Passes :
      (j : Text) (b : Allocation)
      → lookup j t.allocations ≡ some b
      → text_eqb j aid ≡ false
      → Passes users key b
  unfolding holds_user
  other-Passes j b e d = (
    subst (λ x. text_eqb b.request_key x ≡ false) (text_eqb-eq a.request_key key asked)
        (order.key_once j aid b a d e stored),
    elim (Bool-cases (terminal b.state)) [
      | inl over ↦ rw over refl
      | inr l ↦ rw (l, exists_none (contains b.user_ids) users (apart l)) refl
    ],
  )
    where
      swapped : text_eqb aid j ≡ false
      swapped = ground (arith, text_eqb_iff aid j, text_eqb_iff j aid)

      apart :
          terminal b.state ≡ false
          → (u : Text) → contains users u ≡ true
          → contains b.user_ids u ≡ false
      apart l u c =
          order.one_live aid j a b swapped stored e live l u
            (rw (same_users-contains a.user_ids users u fit) c)

  others-Pass :
      (es n : List (Text × Allocation))
      → ((k : Text) → lookup k es ≡ lookup k t.allocations)
      → All (λ (e : Text × Allocation). lookup e.0 es ≡ some e.1) n
      → All (λ (e : Text × Allocation). text_eqb e.0 aid ≡ false → Passes users key e.1) n
  others-Pass es [] same h = tt
  others-Pass es ((j, b) ∷ n) same h =
      (λ d. other-Passes j b (rw (same j) at h.0) d, others-Pass es n same h.1)

-- The scan stops at the same allocation in any order.
pub find_shuffled :
    (users : List Text) (key : Text) (t : State) (entry : Text × Allocation)
    (es : List (Text × Allocation))
    → find_request t.allocations users key ≡ ok (some entry)
    → InOrder t
    → IsLive key t
    → IsShuffled t es
    → find_request es users key ≡ ok (some entry)
find_shuffled users key t (aid, a) es f order live shuffled =
    let (stored, asked, fit) =
      stopped_at (λ (e : Text × Allocation). lookup e.0 t.allocations ≡ some e.1) t.allocations
        users key (aid, a) (Unique-lookup t.allocations order.unique) f in
    let (alive, _, _) =
      stopped_at
        (λ (e : Text × Allocation).
          text_eqb e.1.request_key key ≡ true → terminal e.1.state ≡ false)
        t.allocations users key (aid, a) live f in
    find_among es users key aid a asked fit (rw (shuffled.same aid) stored) (
      others-Pass users key t order aid a stored asked fit (alive asked) es es shuffled.same
        (Unique-lookup es shuffled.unique))
