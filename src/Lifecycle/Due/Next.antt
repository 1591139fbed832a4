-- ===== src/Lifecycle/Due/Next.antt =====
-- What the operation of a tick is (`Tick`, pkg/fleetmanager/lifecycle.go).
use nakama_playflow.Base.{
  ℕ, ◌≡◌, ◌≢◌, refl, inl, inr, true, false, List, [], ◌∷◌, some, Text, text_ltb, text_ltb_irrefl,
  text_ltb_trans, text_ltb_total, nat_eqb, arith, lookup, Unique, Unique-lookup, All, Bool-cases,
  if-cases, sort, take, nat_eq,
}
use nakama_playflow.Base.Sort.Least.{StartsWithLeast, sort-StartsWithLeast}
use nakama_playflow.State.{State, Worker, status_eq}
use nakama_playflow.Lifecycle.Due.{
  is_due, due_ids, due_at, earlier, due_before, picked, Operation, operation,
}

earlier_asym : (m n : ℕ) (a b : Text) → earlier m n a b ≡ true → earlier n m b a ≡ false
earlier_asym m n a b h = elim (Bool-cases (nat_eqb m n)) [
  | inl e ↦ ground (arith, text_ltb_irrefl a, text_ltb_trans a b a)
  | inr e ↦ ground arith
]

earlier_irrefl : (m : ℕ) (a : Text) → earlier m m a a ≡ false
earlier_irrefl m a = ground (arith, text_ltb_irrefl a)

text_chain : (a b c : Text) → text_ltb a b ≡ false → text_ltb b c ≡ false → text_ltb a c ≡ false
text_chain a b c h k = elim (text_ltb_total a b) [
  | inl e ↦ rw e k
  | inr (inl e) ↦ cc (e, h)
  | inr (inr e) ↦ elim (Bool-cases (text_ltb a c)) [
    | inr f ↦ f
    | inl f ↦ cc (text_ltb_trans b a c e f, k)
  ]
]

earlier_chain :
    (l m n : ℕ) (a b c : Text)
    → earlier l m a b ≡ false
    → earlier m n b c ≡ false
    → earlier l n a c ≡ false
earlier_chain l m n a b c h k = ground (arith, text_chain a b c)

before_asym : (s : State) (a b : Text) → due_before s a b ≡ true → due_before s b a ≡ false
unfolding due_before
before_asym s a b = earlier_asym (due_at (lookup a s.workers)) (due_at (lookup b s.workers)) a b

before_irrefl : (s : State) (a : Text) → due_before s a a ≡ false
unfolding due_before
before_irrefl s a = earlier_irrefl (due_at (lookup a s.workers)) a

before_chain :
    (s : State) (a b c : Text)
    → due_before s a b ≡ false
    → due_before s b c ≡ false
    → due_before s a c ≡ false
unfolding due_before
before_chain s a b c =
    earlier_chain (due_at (lookup a s.workers)) (due_at (lookup b s.workers))
      (due_at (lookup c s.workers)) a b c

-- An identifier at which a worker is due that something is done for.
pub IsReady : ℕ → State → Text → Type 0
IsReady now s wid =
    (w : Worker) × (lookup wid s.workers ≡ some w)
    × (is_due now w ≡ true)
    × (operation now w ≢ Operation.idle)

due_operation : (now : ℕ) (w : Worker) → is_due now w ≡ true → operation now w ≢ Operation.idle
unfolding is_due operation
due_operation now w h e = ground (arith, h, e)

due_ids-All :
    (now : ℕ) (P : Text → Type 0) (ws : List (Text × Worker))
    → All (λ (e : Text × Worker). is_due now e.1 ≡ true → P e.0) ws
    → All P (due_ids now ws)
unfolding due_ids
due_ids-All now P [] a = tt
due_ids-All now P ((wid, w) ∷ ws) a =
    if-cases (All P) (is_due now w) (λ e. (a.0 e, due_ids-All now P ws a.1))
      (λ _. due_ids-All now P ws a.1)

All-due_ids :
    (now : ℕ) (P : Text → Type 0) (ws : List (Text × Worker))
    → All P (due_ids now ws)
    → All (λ (e : Text × Worker). is_due now e.1 ≡ true → P e.0) ws
unfolding due_ids
All-due_ids now P [] a = tt
All-due_ids now P ((wid, w) ∷ ws) a = elim (Bool-cases (is_due now w)) [
  | inl e ↦ let b : All P (wid ∷ due_ids now ws) = rw e at a in (λ _. b.0, All-due_ids now P ws b.1)
  | inr e ↦ (λ f. cc (e, f), All-due_ids now P ws (rw e at a))
]

-- What is picked: no worker is due; or the one that is picked is stored, is due, has something done for
-- it, and no other worker that is due comes before it.
pub IsNext : ℕ → State → List Text → Type 0
IsNext now s [] = All (λ (e : Text × Worker). is_due now e.1 ≡ false) s.workers
IsNext now s (wid ∷ rest) =
    (rest ≡ [])
    × IsReady now s wid
    × All (λ (e : Text × Worker). is_due now e.1 ≡ true → due_before s e.0 wid ≡ false) s.workers

IsReady-entries :
    (now : ℕ) (s : State) (ws : List (Text × Worker))
    → All (λ (e : Text × Worker). lookup e.0 s.workers ≡ some e.1) ws
    → All (λ (e : Text × Worker). is_due now e.1 ≡ true → IsReady now s e.0) ws
unfolding IsReady
IsReady-entries now s [] a = tt
IsReady-entries now s ((wid, w) ∷ ws) a =
    (λ h. (w, a.0, h, due_operation now w h), IsReady-entries now s ws a.1)

none_due :
    (now : ℕ) (ws : List (Text × Worker))
    → due_ids now ws ≡ []
    → All (λ (e : Text × Worker). is_due now e.1 ≡ false) ws
unfolding due_ids
none_due now [] h = tt
none_due now ((wid, w) ∷ ws) h = elim (Bool-cases (is_due now w)) [
  | inl e ↦ cc (rw e at h)
  | inr e ↦ (e, none_due now ws (rw e at h))
]

first-IsNext :
    (now : ℕ) (s : State) (sorted : List Text)
    → StartsWithLeast
        (due_before s)
        (IsReady now s)
        (before_asym s)
        (before_irrefl s)
        (before_chain s)
        (due_ids now s.workers)
        sorted
    → IsNext now s (take 1 sorted)
unfolding IsNext
first-IsNext now s [] h = none_due now s.workers h
first-IsNext now s (wid ∷ rest) h =
    (refl, h.0, All-due_ids now (λ i. due_before s i wid ≡ false) s.workers h.1)

-- A tick picks one worker at most for an operation at the provider. If no worker is due, it picks none;
-- else it picks one that is stored and due, that something is done for, and of which no other that is
-- due comes before in time or, at the same time, in the order of the identifiers. Keys are unique.
pub picked-IsNext : (now : ℕ) (s : State) → Unique s.workers → IsNext now s (picked now s)
unfolding picked
picked-IsNext now s u = first-IsNext now s (sort (due_before s) (due_ids now s.workers)) (
    sort-StartsWithLeast (due_before s) (IsReady now s) (before_asym s) (before_irrefl s)
      (before_chain s) (due_ids now s.workers)
      (due_ids-All now (IsReady now s) s.workers
        (IsReady-entries now s s.workers (Unique-lookup s.workers u))))
