-- ===== src/Config/Environment/Laws.antt =====
-- What an environment that was accepted is like (pkg/fleetmanager/config.go).
use nakama_playflow.Base.{
  ℕ, ◌≤◌, ◌≡◌, ◌≢◌, sym, subst, inl, inr, ◌⊎◌, true, false, not, ◌||◌, List, [], ◌∷◌, Text, nat_eq,
  ltb, is_empty, length, lookup, insert, copies, Unique, insert-Unique, has_prefix, upper, has_char,
  is_blank, valid_utf8, arith, All, Bool-cases, Option-cases, Result, ok, err, ◌>>=◌, >>=-eq-ok,
  ok-injective,
}
use nakama_playflow.Config.Environment.{
  Token, reserved, is_name_from, valid_entry, valid_entries, validate_server_environment, members,
  close_object, object, parse_server_environment, max_bytes, max_entries,
}

-- A letter of ASCII or an underscore.
abbrev IsLetter : ℕ → Type 0
IsLetter c = ((b'A' ≤ c) × (c ≤ b'Z')) ⊎ (((b'a' ≤ c) × (c ≤ b'z')) ⊎ (c ≡ b'_'))

abbrev IsDigit : ℕ → Type 0
IsDigit c = (b'0' ≤ c) × (c ≤ b'9')

abbrev IsName : Text → Type 0
IsName [] = ⊥
IsName (c ∷ s) = IsLetter c × All (λ x. IsLetter x ⊎ IsDigit x) s

pub record IsVariable (name value : Text) : Type 0 where
  pub named : IsName name
  pub short : length name ≤ 128
  pub free : has_prefix (upper name) reserved ≡ false
  pub small : length value ≤ 8192
  pub text : valid_utf8 value ≡ true
  pub no_nul : All (λ c. c ≢ 0) value

pub record IsEnvironment (marshal : List (Text × Text) → Text) (values : List (Text × Text))
    : Type 0 where
  pub unique : Unique values
  pub few : length values ≤ 64
  pub variables : All (λ (e : Text × Text). IsVariable e.0 e.1) values
  pub encoded_small : length (marshal values) ≤ 32768

name_rest : (s : Text) → is_name_from true s ≡ true → All (λ x. IsLetter x ⊎ IsDigit x) s
unfolding is_name_from
name_rest [] h = tt
name_rest (c ∷ s) h = (ground arith, name_rest s (ground arith))

entry-IsName : (name : Text) → is_empty name ≡ false → is_name_from false name ≡ true → IsName name
unfolding is_name_from
entry-IsName [] e h = cc
entry-IsName (c ∷ s) e h = (ground arith, name_rest s (ground arith))

no_nul_in : (s : Text) → has_char 0 s ≡ false → All (λ c. c ≢ 0) s
unfolding has_char
no_nul_in [] h = tt
no_nul_in (c ∷ s) h = (λ e. absurd (ground arith), no_nul_in s (ground arith))

valid_entry-IsVariable : (name value : Text) → valid_entry name value ≡ true → IsVariable name value
unfolding valid_entry
valid_entry-IsVariable name value h = record {
  named = entry-IsName name (ground arith) (ground arith);
  short = ground arith;
  free = ground arith;
  small = ground arith;
  text = ground arith;
  no_nul = no_nul_in value (ground arith);
}

pub valid_entries-All :
    (values : List (Text × Text))
    → valid_entries values ≡ true
    → All (λ (e : Text × Text). IsVariable e.0 e.1) values
unfolding valid_entries
valid_entries-All [] h = tt
valid_entries-All ((name, value) ∷ rest) h =
    (valid_entry-IsVariable name value (ground arith), valid_entries-All rest (ground arith))

pub validated :
    (marshal : List (Text × Text) → Text) (values : List (Text × Text))
    → validate_server_environment marshal values ≡ ok tt
    → Unique values
    → IsEnvironment marshal values
unfolding validate_server_environment
validated marshal values h u = record {
  unique = u;
  few = ground arith;
  variables = valid_entries-All values (ground arith);
  encoded_small = ground arith;
}

nothing-Unique : Unique {V = Text} []
unfolding copies
nothing-Unique k = omega arith

abbrev ReadsUnique : Result (List (Text × Text) × List Token) → Type 0
ReadsUnique (ok (values, r)) = Unique values
ReadsUnique (err e) = Unit {0}

members-Unique :
    (tokens : List Token) (values : List (Text × Text))
    → Unique values
    → ReadsUnique (members tokens values)
unfolding members
members-Unique [] values u = u
members-Unique (Token.closing ∷ r) values u = u
members-Unique (Token.bracket ∷ r) values u = u
members-Unique (Token.opening ∷ r) values u = tt
members-Unique (Token.other ∷ r) values u = tt
members-Unique (Token.other_value ∷ r) values u = tt
members-Unique (Token.broken ∷ r) values u = tt
members-Unique (Token.value v ∷ r) values u = tt
members-Unique (Token.name key ∷ []) values u = tt
members-Unique (Token.name key ∷ Token.value v ∷ r) values u =
    elim (Option-cases (lookup key values)) [
      | inr (old, e) ↦ rw (members, e) tt
      | inl e ↦ elim (Bool-cases (ltb max_entries (length (insert key v values)))) [
        | inl f ↦ rw (members, e, f) tt
        | inr f ↦
            rw (members, e, f)
              (members-Unique r (insert key v values) (insert-Unique key v values u))
      ]
    ]
members-Unique (Token.name key ∷ Token.opening ∷ r) values u = tt
members-Unique (Token.name key ∷ Token.closing ∷ r) values u = tt
members-Unique (Token.name key ∷ Token.bracket ∷ r) values u = tt
members-Unique (Token.name key ∷ Token.other ∷ r) values u = tt
members-Unique (Token.name key ∷ Token.other_value ∷ r) values u = tt
members-Unique (Token.name key ∷ Token.broken ∷ r) values u = tt
members-Unique (Token.name key ∷ Token.name v ∷ r) values u = tt

ReadsUnique-eq :
    (r : Result (List (Text × Text) × List Token)) (values : List (Text × Text)) (rest : List Token)
    → ReadsUnique r
    → r ≡ ok (values, rest)
    → Unique values
ReadsUnique-eq (ok (v, q)) values rest u e =
    subst (λ (p : List (Text × Text) × List Token). Unique p.0) (ok-injective e) u
ReadsUnique-eq (err x) values rest u e = cc

close_object-eq :
    (got : List (Text × Text)) (r : List Token) (values : List (Text × Text))
    → close_object (got, r) ≡ ok values
    → got ≡ values
close_object-eq got [] values h = cc
close_object-eq got (Token.closing ∷ []) values h = ok-injective h
close_object-eq got (Token.closing ∷ t ∷ r) values h = cc
close_object-eq got (Token.opening ∷ r) values h = cc
close_object-eq got (Token.bracket ∷ r) values h = cc
close_object-eq got (Token.other ∷ r) values h = cc
close_object-eq got (Token.other_value ∷ r) values h = cc
close_object-eq got (Token.broken ∷ r) values h = cc
close_object-eq got (Token.name n ∷ r) values h = cc
close_object-eq got (Token.value n ∷ r) values h = cc

object-Unique :
    (tokens : List Token) (values : List (Text × Text)) → object tokens ≡ ok values → Unique values
object-Unique [] values h = cc
object-Unique (Token.closing ∷ r) values h = cc
object-Unique (Token.bracket ∷ r) values h = cc
object-Unique (Token.other ∷ r) values h = cc
object-Unique (Token.other_value ∷ r) values h = cc
object-Unique (Token.broken ∷ r) values h = cc
object-Unique (Token.name n ∷ r) values h = cc
object-Unique (Token.value n ∷ r) values h = cc
object-Unique (Token.opening ∷ r) values h =
    let (read, e, g) = >>=-eq-ok (members r []) (λ read. close_object read) h in
    subst Unique (close_object-eq read.0 read.1 values g)
      (ReadsUnique-eq (members r []) read.0 read.1 (members-Unique r [] nothing-Unique) e)

-- Whatever the JSON decoder yields, an environment that is parsed is empty, for an input of spaces, or
-- has no name twice, 64 variables at most, names of letters, digits and underscores that are within
-- 128 bytes, begin with no digit and are not reserved for the controller in any case, values of UTF-8
-- without NUL within 8 KiB, and an encoding within 32 KiB.
pub parse-IsEnvironment :
    (scan : Text → List Token) (marshal : List (Text × Text) → Text) (raw : Text)
    (values : List (Text × Text))
    → parse_server_environment scan marshal raw ≡ ok values
    → (values ≡ []) ⊎ IsEnvironment marshal values
unfolding parse_server_environment
parse-IsEnvironment scan marshal raw values h =
    elim (Bool-cases (ltb max_bytes (length raw) || not (valid_utf8 raw))) [
      | inl e ↦ cc (rw e at h)
      | inr e ↦ elim (Bool-cases (is_blank raw)) [
        | inl f ↦ inl (sym (ok-injective (rw (e, f) at h)))
        | inr f ↦ inr (checked (rw (e, f) at h))
      ]
    ]
  where
    checked :
        (object (scan raw) >>= λ got. validate_server_environment marshal got >>= λ _. ok got)
          ≡ ok values
        → IsEnvironment marshal values
    checked g =
        let (got, e, k) =
          >>=-eq-ok (object (scan raw))
            (λ got. validate_server_environment marshal got >>= λ _. ok got) g in
        let (u, v, w) = >>=-eq-ok (validate_server_environment marshal got) (λ _. ok got) k in
        subst (IsEnvironment marshal) (ok-injective w)
          (validated marshal got v (object-Unique (scan raw) got e))
