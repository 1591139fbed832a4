-- ===== src/Manager/Assignment/Admission.antt =====
-- What `Assignment` answers, and what a token that it hands out claims
use nakama_playflow.Base.{
  ℕ, ◌+◌, ◌≤◌, ◌<◌, ◌≡◌, refl, subst, inl, inr, ◌⊎◌, Bool, true, false, ◌||◌, List, [], ◌∷◌, Option,
  none, some, Text, text_eq, text_eqb, ◌==◌, is_empty, arith, lookup, All, Values, lookup-Values,
  Unique, pos, Bool-cases, Result, ok, err, ok-injective,
}
use nakama_playflow.State.{State, Worker, Allocation, Session, Phase, phase_eq, status_eq}
use nakama_playflow.Token.{AdmissionClaims, Crypto, sign, admissible}
use nakama_playflow.Manager.Core.{Manager}
use nakama_playflow.Manager.Users.{contains}
use nakama_playflow.Manager.Assignment.{
  Assignment, pick, is_reachable, expiry, claims_of, admission_key, admit, admit_until, seat_of,
  on_server, assign, assign_picked, assignment, plain_assignment,
}
use nakama_playflow.Manager.Assignment.Picked.{IsPicked, pick-IsPicked}

-- The identifiers of an allocation are there, and its seats are kept for a minute at most.
pub record IsNamed (now : ℕ) (a : Allocation) : Type 0 where
  pub id_there : is_empty a.id ≡ false
  pub room_there : is_empty a.room_id ≡ false
  pub epoch_there : 1 ≤ a.epoch
  pub seats : All (λ (x : Session). (is_empty x.id ≡ false) × (x.expires_at ≤ now + 60)) a.sessions

-- One of the seats.
abbrev pub IsSeat : Session → List Session → Type 0
IsSeat x [] = ⊥
IsSeat x (y ∷ ys) = (y ≡ x) ⊎ IsSeat x ys

-- An assignment is about a room: it is stored, is the one that was asked for if one was, and is the
-- user's, and the assignment shows it as it is.
pub record IsAbout (user allocation_id : Text) (s : State) (out : Assignment) (room : Allocation)
    : Type 0 where
  pub key : Text
  pub stored : lookup key s.allocations ≡ some room
  pub asked : is_empty allocation_id ≡ false → key ≡ allocation_id
  pub member : contains room.user_ids user ≡ true
  pub same_id : out.allocation_id ≡ room.id
  pub same_room : out.room_id ≡ room.room_id
  pub same_state : out.state ≡ room.state
  pub same_revision : out.revision ≡ room.revision
  pub same_worker : out.worker_id ≡ room.worker_id

-- The way in which an assignment about a room admits a user.
pub record Admits (c : Crypto) (m : Manager) (user nonce : Text) (resume : Bool) (now : ℕ)
    (s : State) (out : Assignment) (room : Allocation) : Type 0 where
  pub worker : Worker
  pub seat : Session
  pub claims : AdmissionClaims
  pub stored : lookup room.worker_id s.workers ≡ some worker
  pub reachable : is_reachable m now worker ≡ true
  pub seated : IsSeat seat room.sessions
  pub own_seat : (seat.user_id == user) ≡ true
  pub token : out.admission_token ≡ sign c (admission_key c m worker.id) claims
  pub for_user : claims.user_id ≡ user
  pub for_worker : claims.worker_id ≡ worker.id
  pub for_boot : claims.boot_id ≡ worker.boot_id
  pub for_room : claims.room_id ≡ room.room_id
  pub for_allocation : claims.allocation_id ≡ room.id
  pub for_epoch : claims.epoch ≡ pos room.epoch
  pub for_reservation : claims.reservation_id ≡ seat.id
  pub for_seat : claims.seat ≡ pos seat.seat
  pub for_nonce : claims.nonce ≡ nonce
  pub for_resume : claims.resume ≡ resume
  pub until : pos out.expires_at ≡ claims.expires_at
  pub fresh : admissible claims now ≡ true

-- An assignment is about a room of the user, and has no token or admits the user to that room.
pub record Serves (c : Crypto) (m : Manager) (user allocation_id nonce : Text) (resume : Bool)
    (now : ℕ) (s : State) (out : Assignment) : Type 0 where
  pub room : Allocation
  pub about : IsAbout user allocation_id s out room
  pub admits : (out.admission_token ≡ []) ⊎ Admits c m user nonce resume now s out room

expiry_bounds :
    (now : ℕ) (resume : Bool) (x : Session) (expires : ℕ)
    → expiry now resume x ≡ ok expires
    → x.expires_at ≤ now + 60
    → (now < expires) × (expires ≤ now + 60)
unfolding expiry
expiry_bounds now resume x expires h l = ground arith

module _ (c : Crypto) (m : Manager) (user allocation_id nonce : Text) (resume : Bool) (now : ℕ)
    (s : State) (user_there : is_empty user ≡ false) (nonce_there : is_empty nonce ≡ false) where
  module _ (w : Worker) (a : Allocation) (picked : IsPicked user s allocation_id (some a)) where
    about :
        (out : Assignment)
        → out.allocation_id ≡ a.id
        → out.room_id ≡ a.room_id
        → out.state ≡ a.state
        → out.revision ≡ a.revision
        → out.worker_id ≡ a.worker_id
        → IsAbout user allocation_id s out a
    about out i r p n v = record {
      key = picked.0;
      stored = picked.1;
      asked = picked.3;
      member = picked.2;
      same_id = i;
      same_room = r;
      same_state = p;
      same_revision = n;
      same_worker = v;
    }

    claims_fresh :
        (x : Session) (expires : ℕ)
        → is_empty w.id ≡ false
        → is_empty w.boot_id ≡ false
        → IsNamed now a
        → is_empty x.id ≡ false
        → (now < expires) × (expires ≤ now + 60)
        → admissible (claims_of user w a x expires nonce resume) now ≡ true
    unfolding admissible
    claims_fresh x expires wi wb n xi b = ground (arith, n.id_there, n.room_there, n.epoch_there)

    seated :
        (xs : List Session) (out : Assignment)
        → ((x : Session) → IsSeat x xs → IsSeat x a.sessions)
        → is_empty w.id ≡ false
        → lookup a.worker_id s.workers ≡ some w
        → is_reachable m now w ≡ true
        → IsNamed now a
        → All (λ (x : Session). (is_empty x.id ≡ false) × (x.expires_at ≤ now + 60)) xs
        → seat_of c m user w a nonce resume now xs ≡ ok out
        → Serves c m user allocation_id nonce resume now s out
    unfolding seat_of admit
    seated [] out inside wi e r o v h = cc
    seated (x ∷ xs) out inside wi e r o v h = elim (Bool-cases (text_eqb x.user_id user)) [
      | inr f ↦ seated xs out (λ y i. inside y (inr i)) wi e r o v.1 (rw f at h)
      | inl f ↦ ended f (expiry now resume x) refl (rw f at h)
    ]
      where
        given :
            text_eqb x.user_id user ≡ true
            → (expires : ℕ) → expiry now resume x ≡ ok expires
            → Serves c m user allocation_id nonce resume now s
                (admit c m user w a x nonce resume expires)
        given f expires g = record {
          room = a;
          about = about _ refl refl refl refl refl;
          admits = inr (record {
            worker = w;
            seat = x;
            claims = claims_of user w a x expires nonce resume;
            stored = e;
            reachable = r;
            seated = inside x (inl refl);
            own_seat = f;
            token = refl;
            for_user = refl;
            for_worker = refl;
            for_boot = refl;
            for_room = refl;
            for_allocation = refl;
            for_epoch = refl;
            for_reservation = refl;
            for_seat = refl;
            for_nonce = refl;
            for_resume = refl;
            until = refl;
            fresh =
                claims_fresh x expires wi (ground (arith)) o v.0.0
                  (expiry_bounds now resume x expires g v.0.1);
          });
        }

        ended :
            text_eqb x.user_id user ≡ true
            → (ends : Result ℕ) → expiry now resume x ≡ ends
            → admit_until c m user w a x nonce resume ends ≡ ok out
            → Serves c m user allocation_id nonce resume now s out
        ended f (err q) g k = cc
        ended f (ok expires) g k =
            subst (Serves c m user allocation_id nonce resume now s) (ok-injective k)
              (given f expires g)

  module _ (named : Values (IsNamed now) s.allocations)
      (workers_named : Values (λ (w : Worker). is_empty w.id ≡ false) s.workers) where
    served :
        (a : Allocation) (o : Option Worker) (out : Assignment)
        → lookup a.worker_id s.workers ≡ o
        → IsPicked user s allocation_id (some a)
        → on_server c m user a nonce resume now o ≡ ok out
        → Serves c m user allocation_id nonce resume now s out
    served a none out e i k = cc
    served a (some w) out e i k = elim (Bool-cases (is_reachable m now w)) [
      | inr f ↦ cc (rw f at k)
      | inl f ↦
          let n = lookup-Values (IsNamed now) i.0 s.allocations a named i.1 in
          seated w a i a.sessions out (λ x h. h)
            (lookup-Values (λ (w : Worker). is_empty w.id ≡ false) a.worker_id s.workers w
              workers_named e)
            e f n n.seats (rw f at k)
    ]

    plain :
        (a : Allocation)
        → IsPicked user s allocation_id (some a)
        → Serves c m user allocation_id nonce resume now s (plain_assignment m a)
    plain a i = record {
      room = a;
      about = record {
        key = i.0;
        stored = i.1;
        asked = i.3;
        member = i.2;
        same_id = refl;
        same_room = refl;
        same_state = refl;
        same_revision = refl;
        same_worker = refl;
      };
      admits = inl refl;
    }

    found :
        (o : Option Allocation) (out : Assignment)
        → IsPicked user s allocation_id o
        → assign c m user nonce resume now s o ≡ ok out
        → Serves c m user allocation_id nonce resume now s out
    found none out i k = cc
    found (some a) out i k =
        elim (Bool-cases (a.state == Phase.assigned || a.state == Phase.active)) [
          | inl f ↦ served a (lookup a.worker_id s.workers) out refl i (rw f at k)
          | inr f ↦
              subst (Serves c m user allocation_id nonce resume now s) (ok-injective (rw f at k))
                (plain a i)
        ]

-- Whoever asks for an assignment and gets one gets it about a stored room that the user is in, and that
-- was asked for if one was, shown as it is; with no token, or with one that the key of the room's worker
-- signs, which is up and was heard of in time. The claims name the user, that worker, its boot, the room
-- and its epoch, one of its seats that is the user's, and the nonce, and are admissible at that instant.
-- Keys are unique, allocations are named, with seats kept for a minute at most, workers have identifiers,
-- and the user and the nonce are not empty.
pub assignment-Serves :
    (c : Crypto) (m : Manager) (user allocation_id nonce : Text) (resume : Bool) (now : ℕ)
    (s : State) (out : Assignment)
    → is_empty user ≡ false
    → is_empty nonce ≡ false
    → Unique s.allocations
    → Values (IsNamed now) s.allocations
    → Values (λ (w : Worker). is_empty w.id ≡ false) s.workers
    → assignment c m user allocation_id resume nonce now s ≡ ok out
    → Serves c m user allocation_id nonce resume now s out
unfolding assignment
assignment-Serves c m user allocation_id nonce resume now s out ut nt u va vw h =
    picked (pick user allocation_id s) refl h
  where
    picked :
        (r : Result (Option Allocation))
        → pick user allocation_id s ≡ r
        → assign_picked c m user nonce resume now s r ≡ ok out
        → Serves c m user allocation_id nonce resume now s out
    picked (err q) e k = cc
    picked (ok o) e k =
        found c m user allocation_id nonce resume now s ut nt va vw o out
          (pick-IsPicked user s allocation_id o u e) k
