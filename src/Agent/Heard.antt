-- ===== src/Agent/Heard.antt =====
-- What a heartbeat leaves of the sequence number, the boot and the state of its worker
-- (`heartbeatHTTP`, pkg/fleetmanager/http.go).
use nakama_playflow.Base.{
  ℕ, ◌+◌, ◌≡◌, refl, inl, inr, true, false, not, ◌||◌, List, [], ◌∷◌, some, Text, text_eq, text_eqb,
  text_eqb_refl, arith, lookup, insert, lookup-insert, Option-cases, if-cases, subst, ◌==◌, ltb,
  each, each_ok, keys, length, nat_eq, Result, ok, err,
}
use nakama_playflow.State.{
  State, Worker, Allocation, Command, Order, terminal, phase_eq, order_eq, status_eq,
}
use nakama_playflow.Manager.{Manager}
use nakama_playflow.Lifecycle.{on_worker, on_allocation}
use nakama_playflow.Agent.Reports.{CommandResult, HeartbeatRequest, RoomReport}
use nakama_playflow.Agent.Rooms.{add_players, see_room, see_allocation, see_report, see_reports}
use nakama_playflow.Agent.Results.{close, note_drain, fail, apply_to, apply_result}
use nakama_playflow.Agent.Heartbeat.{is_dead, refresh, reset_players}
use nakama_playflow.Agent.Spares.{Spares, settle_found-Spares, fail-Spares}

module _ (wid boot_id : Text) (sequence : ℕ) where
  -- The worker has sent this heartbeat, or a later one, from this boot, and is not gone.
  abbrev pub IsHeard : Worker → Type 0
  IsHeard w =
      (text_eqb w.boot_id boot_id ≡ true)
      × (is_dead w.state ≡ false)
      × (ltb w.last_sequence sequence ≡ false)

  abbrev pub Heard : State → Type 0
  Heard s = (w : Worker) × (lookup wid s.workers ≡ some w) × IsHeard w

  abbrev pub HeardTo : Result State → Type 0
  HeardTo (ok t) = Heard t
  HeardTo (err e) = Unit {0}

  pub Heard-write :
      (w : Worker) (s : State) → IsHeard w → Heard (record s { workers = insert wid w s.workers })
  Heard-write w s h = (w, rw (lookup-insert wid wid w s.workers, text_eqb_refl wid) refl, h)

  Heard-read : (w : Worker) (s : State) → lookup wid s.workers ≡ some w → Heard s → IsHeard w
  Heard-read w s e (v, f, h) = subst IsHeard same h
    where
      same : v ≡ w
      same = cc (e, f)

  pub Heard-Spares : (s : State) (r : Result State) → Spares s r → Heard s → HeardTo r
  Heard-Spares s (ok t) k (w, e, h) = (w, rw k e, h)
  Heard-Spares s (err x) k h = tt

  note_drain-IsHeard : (c : Command) (w : Worker) → IsHeard w → IsHeard (note_drain wid c w)
  note_drain-IsHeard c w h = if-cases IsHeard (c.type == Order.drain) (λ _. h) (λ _. h)

  apply_to-Heard :
      (m : Manager) (now : ℕ) (result : CommandResult) (w : Worker) (c : Command) (s : State)
      → lookup wid s.workers ≡ some w
      → Heard s
      → HeardTo (apply_to m now wid result w c s)
  apply_to-Heard m now result w c s e h =
      if-cases HeardTo (not (c.worker_id == w.id)) (λ _. tt)
        (λ _.
          if-cases HeardTo c.done (λ _. h)
            (λ _.
              if-cases HeardTo result.success
                (λ _.
                  Heard-Spares noted _
                    (settle_found-Spares m now c (note_drain wid c w) noted
                      (lookup c.allocation_id s.allocations))
                    (Heard-write (note_drain wid c w) (close result.command_id c s)
                      (note_drain-IsHeard c w (Heard-read w s e h))))
                (λ _.
                  Heard-Spares s (ok (fail m now result.command_id c s))
                    (fail-Spares m now result.command_id c s) h)))
    where
      noted : State
      noted = record (close result.command_id c s) {
        workers = insert wid (note_drain wid c w) s.workers;
      }

  pub apply_result-Heard :
      (m : Manager) (now : ℕ) (result : CommandResult) (s : State)
      → Heard s
      → HeardTo (apply_result m now wid result s)
  unfolding apply_result
  apply_result-Heard m now result s h = elim (Option-cases (lookup result.command_id s.commands)) [
    | inl e ↦ rw (e, apply_result) tt
    | inr (c, e) ↦ rw (e, apply_result, h.1) (apply_to-Heard m now result h.0 c s h.1 h)
  ]

  HeardTo-next :
      (r : Result State) (rest : State → Result State)
      → HeardTo r
      → ((t : State) → Heard t → HeardTo (rest t))
      → HeardTo (elim r [ ok t ↦ rest t | err e ↦ err e ])
  HeardTo-next (ok t) rest h g = g t h
  HeardTo-next (err e) rest h g = tt

  pub each_ok-Heard {ℓ} :
      {A : Type ℓ} (body : A → State → Result State)
      → ((x : A) (s : State) → Heard s → HeardTo (body x s))
      → (xs : List A) (s : State) → Heard s
      → HeardTo (each_ok body xs s)
  unfolding each_ok
  each_ok-Heard body h [] s k = k
  each_ok-Heard body h (x ∷ xs) s k =
      HeardTo-next (body x s) (each_ok body xs) (h x s k) (λ t. each_ok-Heard body h xs t)

  each-Heard {ℓ} :
      {A : Type ℓ} (body : A → State → State)
      → ((x : A) (s : State) → Heard s → Heard (body x s))
      → (xs : List A) (s : State) → Heard s
      → Heard (each body xs s)
  unfolding each
  each-Heard body h [] s k = k
  each-Heard body h (x ∷ xs) s k = each-Heard body h xs (body x s) (h x s k)

  add_players-Heard : (n : ℕ) (s : State) → Heard s → Heard (add_players wid n s)
  add_players-Heard n s h =
      rw (h.1, add_players) (Heard-write (record h.0 { player_count = h.0.player_count + n }) s h.2)

  see_allocation-Heard :
      (m : Manager) (now : ℕ) (worker_id : Text) (room : RoomReport) (aid : Text) (a : Allocation)
      (s : State)
      → Heard s
      → Heard (see_allocation m now wid worker_id room aid a s)
  see_allocation-Heard m now worker_id room aid a s h =
      if-cases Heard
        (not (a.room_id == room.room_id) || not (a.worker_id == worker_id) || terminal a.state)
        (λ _. h)
        (λ _.
          if-cases Heard (see_room m now room a).1
            (λ _. add_players-Heard (length room.user_ids) seen h) (λ _. h))
    where
      seen : State
      seen = record s { allocations = insert aid (see_room m now room a).0 s.allocations }

  on_allocation-Heard :
      (body : Text → Allocation → State → State)
      → ((aid : Text) (a : Allocation) (s : State) → Heard s → Heard (body aid a s))
      → (aid : Text) (s : State) → Heard s
      → Heard (on_allocation body aid s)
  on_allocation-Heard body h aid s k = elim (Option-cases (lookup aid s.allocations)) [
    | inl e ↦ rw (e, on_allocation) k
    | inr (a, e) ↦ rw (e, on_allocation) (h aid a s k)
  ]

  pub see_reports-Heard :
      (m : Manager) (now : ℕ) (worker_id : Text) (rooms : List RoomReport) (s : State)
      → Heard s
      → Heard (see_reports m now wid worker_id rooms s)
  unfolding see_reports see_report
  see_reports-Heard m now worker_id rooms =
      each-Heard (see_report m now wid worker_id)
        (λ room s.
          each-Heard (on_allocation (see_allocation m now wid worker_id room))
            (on_allocation-Heard (see_allocation m now wid worker_id room)
              (see_allocation-Heard m now worker_id room))
            (keys s.allocations) s)
        rooms

  pub reset-Heard : (s : State) → Heard s → Heard (on_worker reset_players wid s)
  reset-Heard s h = rw (h.1, on_worker) (Heard-write (record h.0 { player_count = 0 }) s h.2)

pub refresh-IsHeard :
    (input : HeartbeatRequest) (now : ℕ) (w : Worker)
    → (w.boot_id == input.boot_id) ≡ true
    → is_dead w.state ≡ false
    → IsHeard input.worker_id input.boot_id input.sequence (refresh input now w)
refresh-IsHeard input now w b d = (ground arith, ground arith, ground arith)
