-- ===== src/Manager/Opening/Agreement.antt =====
-- Managers that share a store (`New`, pkg/fleetmanager/manager.go).
use nakama_playflow.Base.{
  ◌+◌, ◌≡◌, sym, ap, ◌∙◌, subst, inl, inr, false, not, ◌&&◌, Option, Text, text_eq, text_eqb-eq,
  ◌==◌, is_empty, arith, exists_value, Url, Bool-cases, Result, ok, err,
}
use nakama_playflow.Config.{Config}
use nakama_playflow.Config.Validate.{validate}
use nakama_playflow.State.{State}
use nakama_playflow.State.Store.{update}
use nakama_playflow.Token.{Crypto}
use nakama_playflow.Manager.Core.{Manager}
use nakama_playflow.Manager.Admin.{is_foreign, profile_run}
use nakama_playflow.Manager.Opening.{Fingerprints, profile_parts, profile_of, register, new_manager}

-- What a store is like that a manager was made on.
pub record IsRegistered (profile : Text) (m : Manager) (s t : State) : Type 0 where
  pub free : is_empty s.profile ≡ false → s.profile ≡ profile
  pub noted : t.profile ≡ profile
  pub same_workers : t.workers ≡ s.workers
  pub own_workers : exists_value (is_foreign m) s.workers ≡ false

stored :
    (profile : Text) (m : Manager) (s t : State)
    → (not (is_empty s.profile) && not (s.profile == profile)) ≡ false
    → exists_value (is_foreign m) s.workers ≡ false
    → record s { profile = profile; revision = s.revision + 1 } ≡ t
    → IsRegistered profile m s t
stored profile m s t f w e = record {
  free = λ h. text_eqb-eq s.profile profile (ground arith);
  noted = sym (ap (λ u. u.profile) e);
  same_workers = sym (ap (λ u. u.workers) e);
  own_workers = w;
}

profile_run-IsRegistered :
    (profile : Text) (m : Manager) (s t : State)
    → ◌≡◌ {A = State × Result (Unit {0})} (update s (profile_run m profile)) (t, ok tt)
    → IsRegistered profile m s t
unfolding update profile_run
profile_run-IsRegistered profile m s t h =
    let answer : (update s (profile_run m profile)).1 ≡ ok tt = ap (λ p. p.1) h in
    let next : (update s (profile_run m profile)).0 ≡ t = ap (λ p. p.0) h in
    elim (Bool-cases (not (is_empty s.profile) && not (s.profile == profile))) [
      | inl e ↦ cc (rw (e, update, profile_run) at answer)
      | inr e ↦ elim (Bool-cases (exists_value (is_foreign m) s.workers)) [
        | inl f ↦ cc (rw (e, f, update, profile_run) at answer)
        | inr f ↦ stored profile m s t e f (rw (e, f, update, profile_run) at next)
      ]
    ]

made_on :
    (profile : Text) (m : Manager) (s t : State) (r : Result (Unit {0}))
    → ◌≡◌ {A = State × Result (Unit {0})} (register profile m s r) (t, ok tt)
    → IsRegistered profile m s t
made_on profile m s t (err e) h = cc
made_on profile m s t (ok x) h = profile_run-IsRegistered profile m s t h

-- Two configurations that stand for one pool.
pub record IsSamePool (a b : Config) : Type 0 where
  pub build : a.build_hash ≡ b.build_hash
  pub region : a.region ≡ b.region
  pub version : a.provider_version ≡ b.provider_version
  pub rooms : a.max_rooms ≡ b.max_rooms
  pub port : a.port_name ≡ b.port_name
  pub size : a.compute_size ≡ b.compute_size

parts-IsSamePool :
    (c : Crypto) (f : Fingerprints) (a b : Config)
    → profile_parts c f a ≡ profile_parts c f b
    → IsSamePool a b
parts-IsSamePool c f a b h = record {
  build = cc;
  region = cc;
  version = cc;
  rooms = cc;
  port = cc;
  size = cc;
}

-- Two managers that are made on one store one after the other are for one pool: their configurations
-- agree on the build, the region, the version at the provider, the number of rooms, the port and the
-- size of a server, and every worker that the store has is of that build and region. The fingerprint of
-- the first must not be empty, nor collide with the one of the second.
pub new_manager-IsSamePool :
    (parse_url : Text → Option Url) (c : Crypto) (f : Fingerprints) (m n : Manager) (s t u : State)
    → is_empty (profile_of c f m.cfg) ≡ false
    → (profile_of c f m.cfg ≡ profile_of c f n.cfg
        → profile_parts c f m.cfg ≡ profile_parts c f n.cfg)
    → new_manager parse_url c f m s ≡ (t, ok tt)
    → new_manager parse_url c f n t ≡ (u, ok tt)
    → IsSamePool m.cfg n.cfg
      × (exists_value (is_foreign m) u.workers ≡ false)
      × (exists_value (is_foreign n) u.workers ≡ false)
unfolding new_manager
new_manager-IsSamePool parse_url c f m n s t u there injective h k =
    let a = made_on (profile_of c f m.cfg) m s t (validate parse_url f.marshal_values m.cfg) h in
    let b = made_on (profile_of c f n.cfg) n t u (validate parse_url f.marshal_values n.cfg) k in
    let same : profile_of c f m.cfg ≡ profile_of c f n.cfg =
      sym a.noted ∙ b.free (subst (λ p. is_empty p ≡ false) (sym a.noted) there) in
    (
      parts-IsSamePool c f m.cfg n.cfg (injective same),
      subst (λ ws. exists_value (is_foreign m) ws ≡ false) (sym (b.same_workers ∙ a.same_workers))
          a.own_workers,
      subst (λ ws. exists_value (is_foreign n) ws ≡ false) (sym b.same_workers) b.own_workers,
    )
