-- ===== src/Lifecycle/Notify/Honest.antt =====
-- That `notify` notes no revision its users were not told of, whatever others do meanwhile
-- (pkg/fleetmanager/lifecycle.go).
use nakama_playflow.Base.{
  ℕ, ◌+◌, insert, ◌≡◌, sym, subst, inl, inr, Bool, true, List, [], ◌∷◌, some, Text, text_eq,
  text_eqb, text_eqb-eq, nat_eqb, leb, arith, lookup, lookup-insert, All, Bool-cases, Option-cases,
  if-cases, ◌≤◌, nat_eq,
}
use mathlib.Core.Option.{some-injective}
use nakama_playflow.State.{State, Allocation}
use nakama_playflow.State.Store.{update}
use nakama_playflow.Manager.Admin.{notified_run}
use nakama_playflow.Lifecycle.Notify.{tells_all, tell, tell_each, notify}

-- No allocation is noted at a revision that it has not reached, and one that is noted at its own revision
-- has had its users told of that revision.
abbrev pub IsHonest : (Text → ℕ → Type 0) → State → Type 0
IsHonest Told s =
    (k : Text) (b : Allocation)
    → lookup k s.allocations ≡ some b
    → (b.notified_revision ≤ b.revision) × (b.notified_revision ≡ b.revision → Told k b.revision)

module _ (Told : Text → ℕ → Type 0) where
  written-IsHonest :
      (aid : Text) (a : Allocation) (s : State)
      → Told aid a.revision
      → IsHonest Told s
      → IsHonest Told (record s {
        allocations = insert aid (record a { notified_revision = a.revision }) s.allocations;
        revision = s.revision + 1;
      })
  written-IsHonest aid a s known h k b e = elim (Bool-cases (text_eqb aid k)) [
    | inr f ↦ h k b (rw (lookup-insert aid k noted_now s.allocations, f) at e)
    | inl f ↦
        subst
          (λ b.
            (b.notified_revision ≤ b.revision)
            × (b.notified_revision ≡ b.revision → Told k b.revision))
          (some-injective noted_now b (rw (lookup-insert aid k noted_now s.allocations, f) at e))
          (omega arith, λ q. subst (λ j. Told j a.revision) (text_eqb-eq aid k f) known)
  ]
    where
      noted_now : Allocation
      noted_now = record a { notified_revision = a.revision }

  -- A note that players were told of a revision, written to whatever is stored by then.
  pub noted-IsHonest :
      (aid : Text) (revision : ℕ) (s : State)
      → Told aid revision
      → IsHonest Told s
      → IsHonest Told (update s (notified_run aid revision)).0
  unfolding update notified_run
  noted-IsHonest aid revision s known h = elim (Option-cases (lookup aid s.allocations)) [
    | inl e ↦ rw (e, update, notified_run) h
    | inr (b, e) ↦ elim (Bool-cases (nat_eqb b.revision revision)) [
      | inr f ↦ rw (e, update, notified_run, f) h
      | inl f ↦
          let same : revision ≡ b.revision = ground arith in
          rw (e, update, notified_run, f)
            (subst
              (λ n. IsHonest Told (record s {
                allocations = insert aid (record b { notified_revision = n }) s.allocations;
                revision = s.revision + 1;
              }))
              (sym same) (written-IsHonest aid b s (subst (Told aid) same known) h))
    ]
  ]

  module _ (send : Text → Allocation → Bool) (between : Allocation → State → State)
      (honest : (a : Allocation) (s : State) → IsHonest Told s → IsHonest Told (between a s)) where
    tell-IsHonest :
        (a : Allocation) (t : State)
        → (tells_all send a ≡ true → Told a.id a.revision)
        → IsHonest Told t
        → IsHonest Told (tell send a t)
    tell-IsHonest a t tells h =
        if-cases (IsHonest Told) (leb a.revision a.notified_revision) (λ _. h)
          (λ _.
            if-cases (IsHonest Told) (tells_all send a)
              (λ e. noted-IsHonest a.id a.revision t (tells e) h) (λ _. h))

    tell_each-IsHonest :
        (es : List (Text × Allocation)) (t : State)
        → All (λ (e : Text × Allocation). tells_all send e.1 ≡ true → Told e.1.id e.1.revision) es
        → IsHonest Told t
        → IsHonest Told (tell_each send between es t)
    unfolding tell_each
    tell_each-IsHonest [] t tells h = h
    tell_each-IsHonest ((aid, a) ∷ es) t tells h =
        tell_each-IsHonest es (tell send a (between a t)) tells.1
          (tell-IsHonest a (between a t) tells.0 (honest a t h))

-- Whatever others do between the view and the updates of `notify`, no allocation is noted at a revision
-- that it has not reached, and one that is noted at its own revision has had its users told of that
-- revision, if this is so at the start and others keep it so, and if sending to all of the users of an
-- allocation of the view tells them of its revision.
pub notify-IsHonest :
    (Told : Text → ℕ → Type 0) (send : Text → Allocation → Bool)
    (between : Allocation → State → State) (s : State)
    → All
        (λ (e : Text × Allocation). tells_all send e.1 ≡ true → Told e.1.id e.1.revision)
        s.allocations
    → ((a : Allocation) (t : State) → IsHonest Told t → IsHonest Told (between a t))
    → IsHonest Told s
    → IsHonest Told (notify send between s)
unfolding notify
notify-IsHonest Told send between s tells honest h =
    tell_each-IsHonest Told send between honest s.allocations s tells h
