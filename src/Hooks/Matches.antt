-- ===== src/Hooks/Matches.antt =====
-- A match that is made, and made again (`RegisterMatchmakerMatched`, pkg/fleetmanager/nakama.go).
use nakama_playflow.Base.{
  ℕ, ◌+◌, ◌≡◌, refl, sym, ap, ◌∙◌, All, false, subst, inl, inr, ◌⊎◌, true, not, ◌&&◌, List, [], ◌∷◌,
  none, some, Text, text_eq, text_eqb, text_eqb_iff, text_ltb, text_ltb_total, text_ltb_irrefl,
  text_ltb_trans, nat_eq, leb, is_empty, length, arith, lookup, sort, place, Option-cases, Result,
  ok, err, Error,
}
use nakama_playflow.State.{State, Allocation, terminal}
use nakama_playflow.State.Store.{update}
use nakama_playflow.Manager.{Manager, same_users, valid_users, find_request, holds_user}
use nakama_playflow.Manager.Calls.{allocate, allocate_run}
use nakama_playflow.System.Replay.{granted_again, found_again}
use nakama_playflow.System.Requests.Keys.{InOrder}
use nakama_playflow.System.Requests.Shuffled.{IsLive, IsShuffled, find_shuffled}
use nakama_playflow.Hooks.{
  Verdict, refused, accepted, MatchEntry, entry_error, collect, match_key, matched,
}

-- Two texts are sorted alike in either order.
sort-swap : (x y : Text) → sort text_ltb (x ∷ y ∷ []) ≡ sort text_ltb (y ∷ x ∷ [])
unfolding sort place
sort-swap x y = elim (text_ltb_total x y) [
  | inl e ↦ rw e refl
  | inr (inl l) ↦ ground (arith, l, text_ltb_irrefl x, text_ltb_trans x y x l)
  | inr (inr l) ↦ ground (arith, l, text_ltb_irrefl y, text_ltb_trans y x y l)
]

same_users-swap :
    (us : List Text) (x y : Text) → same_users us (x ∷ y ∷ []) ≡ same_users us (y ∷ x ∷ [])
unfolding same_users
same_users-swap us x y = rw (sort-swap x y) refl

holds_user-swap :
    (a : Allocation) (x y : Text) → holds_user a (x ∷ y ∷ []) ≡ holds_user a (y ∷ x ∷ [])
unfolding holds_user
holds_user-swap a x y = ground arith

find_request-swap :
    (es : List (Text × Allocation)) (x y key : Text)
    → find_request es (x ∷ y ∷ []) key ≡ find_request es (y ∷ x ∷ []) key
unfolding find_request
find_request-swap [] x y key = refl
find_request-swap ((aid, a) ∷ es) x y key =
    rw (same_users-swap a.user_ids x y, holds_user-swap a x y, find_request-swap es x y key) refl

text_eqb_sym : (x y : Text) → text_eqb x y ≡ text_eqb y x
text_eqb_sym x y = ground (arith, text_eqb_iff x y, text_eqb_iff y x)

valid_users-swap : (x y : Text) → valid_users (x ∷ y ∷ []) ≡ valid_users (y ∷ x ∷ [])
unfolding valid_users
valid_users-swap x y = ground (arith, text_eqb_sym x y)

match_key-swap :
    (sha : Text → Text) (x y : Text) → match_key sha (x ∷ y ∷ []) ≡ match_key sha (y ∷ x ∷ [])
unfolding match_key
match_key-swap sha x y = rw (sort-swap x y) refl

-- A request that is granted and finds its answer does so with the users in the other order.
found_swapped :
    (m : Manager) (x y key : Text) (now : ℕ) (t : State) (entry : Text × Allocation)
    → (valid_users (x ∷ y ∷ []) && not (is_empty key) && leb (length key) 256) ≡ true
    → find_request t.allocations (x ∷ y ∷ []) key ≡ ok (some entry)
    → allocate_run m (y ∷ x ∷ []) key now t ≡ ok (t, entry.1.id)
found_swapped m x y key now t entry v e =
    found_again m (y ∷ x ∷ []) key now t entry (rw (valid_users-swap y x) v)
      (rw (find_request-swap t.allocations y x key) e)

-- The state after a transaction that succeeded with this one.
abbrev committed : State → State
committed u = record u { revision = u.revision + 1 }

-- What a match that is accepted was granted.
pub record IsGranted (sha : Text → Text) (m : Manager) (a b : MatchEntry) (now : ℕ) (s t : State)
    : Type 0 where
  pub first_fits : entry_error m a ≡ none
  pub second_fits : entry_error m b ≡ none
  pub after : State
  pub id : Text
  pub granted :
      allocate_run m (a.user_id ∷ b.user_id ∷ []) (match_key sha (a.ticket ∷ b.ticket ∷ [])) now s
      ≡ ok (after, id)
  pub stored : committed after ≡ t

collect_two :
    (m : Manager) (a b : MatchEntry)
    → entry_error m a ≡ none
    → entry_error m b ≡ none
    → collect m (a ∷ b ∷ []) ≡ accepted (a.user_id ∷ b.user_id ∷ [], a.ticket ∷ b.ticket ∷ [])
unfolding collect
collect_two m a b e f = rw (e, f, collect) refl

allocated_cases :
    (m : Manager) (users : List Text) (key : Text) (now : ℕ) (s : State) (r : Result (State × Text))
    → allocate_run m users key now s ≡ r
    → ((e : Error) × (allocate m users key now s ≡ (s, err e)))
      ⊎ ((u : State) × (id : Text) × (r ≡ ok (u, id))
          × (allocate m users key now s ≡ (committed u, ok id)))
unfolding allocate update
allocated_cases m users key now s (err e) h = inl (e, rw (h, allocate, update) refl)
allocated_cases m users key now s (ok (u, id)) h = inr (u, id, refl, rw (h, allocate, update) refl)

-- How a match ends.
Ends :
    (sha : Text → Text) (m : Manager) (a b : MatchEntry) (now : ℕ) (s : State)
    → State × Verdict Text
    → Type 0
Ends sha m a b now s (t, refused e) = t ≡ s
Ends sha m a b now s (t, accepted r) = (r ≡ []) × IsGranted sha m a b now s t

two-Ends :
    (sha : Text → Text) (m : Manager) (a b : MatchEntry) (now : ℕ) (s : State)
    → Ends sha m a b now s (matched sha m (a ∷ b ∷ []) now s)
unfolding matched Ends
two-Ends sha m a b now s = elim (Option-cases (entry_error m a)) [
  | inr (x, e) ↦ rw (e, collect) refl
  | inl e ↦ elim (Option-cases (entry_error m b)) [
    | inr (x, f) ↦ rw (e, f, collect) refl
    | inl f ↦
        let users = a.user_id ∷ b.user_id ∷ [] in
        let key = match_key sha (a.ticket ∷ b.ticket ∷ []) in
        elim (allocated_cases m users key now s (allocate_run m users key now s) refl) [
          | inl (x, g) ↦ rw (collect_two m a b e f, g) refl
          | inr (u, id, g, h) ↦
              rw (collect_two m a b e f, h)
                (
                  refl,
                  record {
                    first_fits = e;
                    second_fits = f;
                    after = u;
                    id = id;
                    granted = g;
                    stored = refl;
                  },
                )
        ]
  ]
]

-- What the hook on a match promises of its entries.
pub record IsMatch (sha : Text → Text) (m : Manager) (entries : List MatchEntry) (now : ℕ)
    (s t : State) : Type 0 where
  pub first : MatchEntry
  pub second : MatchEntry
  pub both : entries ≡ first ∷ second ∷ []
  pub granted : IsGranted sha m first second now s t

-- The outcomes of the hook.
pub MatchEnds :
    (sha : Text → Text) (m : Manager) (entries : List MatchEntry) (now : ℕ) (s : State)
    → State × Verdict Text
    → Type 0
MatchEnds sha m entries now s (t, refused e) = t ≡ s
MatchEnds sha m entries now s (t, accepted r) = (r ≡ []) × IsMatch sha m entries now s t

two_end :
    (sha : Text → Text) (m : Manager) (a b : MatchEntry) (now : ℕ) (s : State)
    (end : State × Verdict Text)
    → Ends sha m a b now s end
    → MatchEnds sha m (a ∷ b ∷ []) now s end
unfolding Ends MatchEnds
two_end sha m a b now s (t, refused e) h = h
two_end sha m a b now s (t, accepted r) h =
    (h.0, record { first = a; second = b; both = refl; granted = h.1 })

-- A match is refused, and then nothing has changed; or it is accepted with no match for Nakama to
-- open, and then it has two entries, each with the build and the region of the manager, and the new
-- state is the one in which their users' request for a room, under the key of the tickets, is granted.
pub matched-MatchEnds :
    (sha : Text → Text) (m : Manager) (entries : List MatchEntry) (now : ℕ) (s : State)
    → MatchEnds sha m entries now s (matched sha m entries now s)
unfolding matched MatchEnds
matched-MatchEnds sha m [] now s = refl
matched-MatchEnds sha m (a ∷ []) now s = refl
matched-MatchEnds sha m (a ∷ b ∷ []) now s =
    two_end sha m a b now s (matched sha m (a ∷ b ∷ []) now s) (two-Ends sha m a b now s)
matched-MatchEnds sha m (a ∷ b ∷ c ∷ entries) now s = refl

granted_match :
    (sha : Text → Text) (m : Manager) (a b : MatchEntry) (now : ℕ) (s : State) (id : Text)
    → entry_error m a ≡ none
    → entry_error m b ≡ none
    → allocate_run m (a.user_id ∷ b.user_id ∷ []) (match_key sha (a.ticket ∷ b.ticket ∷ [])) now s
      ≡ ok (s, id)
    → matched sha m (a ∷ b ∷ []) now s ≡ (committed s, accepted [])
unfolding matched allocate update
granted_match sha m a b now s id e f g = rw (collect_two m a b e f, g, allocate, update) refl

Ends-IsGranted :
    (sha : Text → Text) (m : Manager) (a b : MatchEntry) (now : ℕ) (s t : State) (r : Text)
    (end : State × Verdict Text)
    → Ends sha m a b now s end
    → end ≡ (t, accepted r)
    → IsGranted sha m a b now s t
unfolding Ends
Ends-IsGranted sha m a b now s t r end h e = (subst (Ends sha m a b now s) e h).1

-- What is said of the allocations of one state holds of those of another that has the same.
abbrev IsLiveIn : Text → List (Text × Allocation) → Type 0
IsLiveIn key es =
    All
      (λ (e : Text × Allocation). text_eqb e.1.request_key key ≡ true → terminal e.1.state ≡ false)
      es

IsShuffled-eq :
    (s t : State) (es : List (Text × Allocation))
    → s.allocations ≡ t.allocations
    → IsShuffled s es
    → IsShuffled t es
IsShuffled-eq s t es e h = record { unique = h.unique; same = λ k. h.same k ∙ ap (lookup k) e }

-- A match that was accepted is accepted again before another transaction, with its entries in either
-- order, at any later time, and in whatever order the second call walks the map, and gets no second room:
-- nothing changes but the revision of the document. The identifier that the first call drew must not be
-- taken; keys are unique, requests have keys of their own, and no user is in two live allocations; and the
-- allocation that answers is not over.
pub matched_once :
    (sha : Text → Text) (m : Manager) (a b : MatchEntry) (now now' : ℕ) (s t : State) (r : Text)
    (es : List (Text × Allocation))
    → lookup (m.fresh s.drawn) s.allocations ≡ none
    → matched sha m (a ∷ b ∷ []) now s ≡ (t, accepted r)
    → InOrder s
    → IsLive (match_key sha (a.ticket ∷ b.ticket ∷ [])) t
    → IsShuffled t es
    → let u = record t { allocations = es } in
      (matched sha m (a ∷ b ∷ []) now' u ≡ (record u { revision = u.revision + 1 }, accepted []))
      × (matched sha m (b ∷ a ∷ []) now' u ≡ (record u { revision = u.revision + 1 }, accepted []))
matched_once sha m a b now now' s t r es free h order live shuffled =
    let g =
      Ends-IsGranted sha m a b now s t r (matched sha m (a ∷ b ∷ []) now s)
        (two-Ends sha m a b now s) h in
    let key = match_key sha (a.ticket ∷ b.ticket ∷ []) in
    let (entry, v, e, same, after) =
      granted_again m (a.user_id ∷ b.user_id ∷ []) key now s g.after g.id g.granted free order in
    let stored : t.allocations ≡ g.after.allocations =
      ap (λ (x : State). x.allocations) (sym g.stored) in
    let found : find_request es (a.user_id ∷ b.user_id ∷ []) key ≡ ok (some entry) =
      find_shuffled (a.user_id ∷ b.user_id ∷ []) key g.after entry es e after
        (subst (IsLiveIn key) stored live) (IsShuffled-eq t g.after es stored shuffled) in
    let u = record t { allocations = es } in
    (
      granted_match sha m a b now' u entry.1.id g.first_fits g.second_fits
          (found_again m (a.user_id ∷ b.user_id ∷ []) key now' u entry v found),
      granted_match sha m b a now' u entry.1.id g.second_fits g.first_fits (
          rw (match_key-swap sha b.ticket a.ticket)
            (found_swapped m a.user_id b.user_id key now' u entry v found)),
    )
