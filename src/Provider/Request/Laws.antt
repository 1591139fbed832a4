-- ===== src/Provider/Request/Laws.antt =====
-- What a server is told when it starts (`start`, pkg/fleetmanager/lifecycle.go).
use nakama_playflow.Base.{
  ◌<◌, ◌^◌, ◌≡◌, refl, sym, ap, ◌∙◌, inl, inr, true, false, List, [], ◌∷◌, ◌++◌, some, Text,
  text_eqb, text_eqb-eq, text_eqb_iff, arith, bytes, lookup, insert, lookup-insert, copies, Unique,
  show, All, has_prefix, upper, pos, parse_int, Bool-cases, Option,
}
use nakama_playflow.Base.Scan.Laws.{parse_int-show}
use nakama_playflow.State.{Worker}
use nakama_playflow.Token.{Crypto, derive, encoded}
use nakama_playflow.Manager.{Manager}
use nakama_playflow.Config.Environment.{reserved}
use nakama_playflow.Config.Environment.Laws.{IsVariable}
use nakama_playflow.Provider.Request.{own_variables, add_variables, start_request}

-- A name that the controller keeps for itself is left alone by the custom variables.
add_variables_kept :
    (name : Text) (values variables : List (Text × Text))
    → has_prefix (upper name) reserved ≡ true
    → All (λ (e : Text × Text). IsVariable e.0 e.1) values
    → lookup name (add_variables values variables) ≡ lookup name variables
unfolding add_variables
add_variables_kept name [] variables h a = refl
add_variables_kept name ((key, value) ∷ rest) variables h a =
    add_variables_kept name rest (insert key value variables) h a.1
    ∙ rw (lookup-insert key name value variables, other) refl
  where
    other : text_eqb key name ≡ false
    other = elim (Bool-cases (text_eqb key name)) [
      | inr e ↦ e
      | inl e ↦ cc (a.0.free, h, ap (λ k. has_prefix (upper k) reserved) (text_eqb-eq key name e))
    ]

copies_rest :
    (name key value : Text) (rest : List (Text × Text)) → Unique ((key, value) ∷ rest) → Unique rest
unfolding copies
copies_rest name key value rest u k = ground (arith, u k)

absent_rest :
    (key value : Text) (rest : List (Text × Text))
    → Unique ((key, value) ∷ rest)
    → copies key rest ≡ 0
unfolding copies
absent_rest key value rest u = ground (arith, u key, text_eqb_iff key key)

add_variables_absent :
    (name : Text) (values variables : List (Text × Text))
    → copies name values ≡ 0
    → lookup name (add_variables values variables) ≡ lookup name variables
unfolding add_variables copies
add_variables_absent name [] variables h = refl
add_variables_absent name ((key, value) ∷ rest) variables h =
    add_variables_absent name rest (insert key value variables) (ground arith)
    ∙ ground (arith, lookup-insert key name value variables)

add_variables_given :
    (name value : Text) (values variables : List (Text × Text))
    → Unique values
    → lookup name values ≡ some value
    → lookup name (add_variables values variables) ≡ some value
unfolding add_variables lookup
add_variables_given name value [] variables u e = cc
add_variables_given name value ((key, v) ∷ rest) variables u e =
    elim (Bool-cases (text_eqb key name)) [
      | inr f ↦
          add_variables_given name value rest (insert key v variables)
            (copies_rest name key v rest u) (rw f at e)
      | inl f ↦
          add_variables_absent name rest (insert key v variables)
            (rw (sym (text_eqb-eq key name f)) (absent_rest key v rest u))
          ∙ rw (lookup-insert key name v variables, f) (rw f at e)
    ]

-- The controller's own variables reach the server whatever custom variables there are, if these are
-- well formed: its identifier, the token that it starts with, the key of its admission tokens, the
-- address and the build of the controller, and its number of rooms, which the server reads back as it
-- is. Each custom variable reaches it too, if no name is there twice.
pub start_request-lookup :
    (c : Crypto) (m : Manager) (w : Worker)
    → All (λ (e : Text × Text). IsVariable e.0 e.1) m.cfg.server_environment
    → Unique m.cfg.server_environment
    → w.max_rooms < 2 ^ 63
    → let told : Text → Option Text =
        λ name. lookup name (start_request c m w).environment_variables in
      (told (bytes "FLEET_WORKER_ID") ≡ some w.id)
      × (told (bytes "FLEET_BOOTSTRAP_TOKEN")
          ≡ some (encoded (derive c m.cfg.signing_key (bytes "bootstrap:" ++ w.id))))
      × (told (bytes "FLEET_ADMISSION_KEY")
          ≡ some (encoded (derive c m.cfg.signing_key (bytes "admission:" ++ w.id))))
      × (told (bytes "FLEET_CONTROL_URL") ≡ some m.cfg.control_url)
      × (told (bytes "FLEET_BUILD_HASH") ≡ some m.cfg.build_hash)
      × (told (bytes "FLEET_MAX_ROOMS") ≡ some (show w.max_rooms))
      × (parse_int (show w.max_rooms) ≡ some (pos w.max_rooms))
      × ((name value : Text)
          → lookup name m.cfg.server_environment ≡ some value
          → told name ≡ some value)
unfolding start_request lookup text_eqb has_prefix upper
start_request-lookup c m w a u h = (
  kept (bytes "FLEET_WORKER_ID") refl,
  kept (bytes "FLEET_BOOTSTRAP_TOKEN") refl,
  kept (bytes "FLEET_ADMISSION_KEY") refl,
  kept (bytes "FLEET_CONTROL_URL") refl,
  kept (bytes "FLEET_BUILD_HASH") refl,
  kept (bytes "FLEET_MAX_ROOMS") refl,
  parse_int-show w.max_rooms h,
  λ name value. add_variables_given name value m.cfg.server_environment (own_variables c m w) u,
)
  where
    kept :
        (name : Text)
        → has_prefix (upper name) reserved ≡ true
        → lookup name (add_variables m.cfg.server_environment (own_variables c m w))
          ≡ lookup name (own_variables c m w)
    kept name r = add_variables_kept name m.cfg.server_environment (own_variables c m w) r a
