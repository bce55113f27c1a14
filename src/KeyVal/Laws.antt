-- ===== src/KeyVal/Laws.antt =====
-- keyval.rs: what the operations do to the values under each name.
use ws_platform.Common.{
  Text, Option, none, some, true, false, ◌≡◌, refl, ◌≢◌, sym, List, [], ◌∷◌, ◌++◌, Eq, lookup,
  insert, lookup-insert, lookup-remove, lookup-same, get_or, if◌then◌else◌, arith, inl, inr,
  Option-cases, Bool-cases, append-nil, IsMap, lookup-IsFresh, or_else,
}
use ws_platform.KeyVal.{
  Key, key, Value, single, multi, KeyVal, front_value, get_arg, get, exact, entry, replace, set,
  add, batch_add, batch_replace,
}

module _ {T : Type 0} ⦃e : Eq Key⦄ where
  -- The abstract view: the values under a key, in the order of their arrival.
  abbrev pub values : Key → KeyVal T → List T
  values k m = get_or (lookup k m) []

  values-insert :
      (k j : Key) (vs : List T) (m : KeyVal T)
      → values j (insert k vs m) ≡ (if e.same k j then vs else values j m)
  values-insert k j vs m = rw (lookup-insert k j vs m) (ground arith)

  -- `add` puts one value at the end of its key's values, and touches no other key.
  pub values-add :
      (name : Text) (j : Key) (v : T) (m : KeyVal T)
      → values j (add name v m) ≡ (if e.same (key name) j then values j m ++ v ∷ [] else values j m)
  unfolding add
  values-add name j v m =
      rw (values-insert (key name) j _ m) (ground (arith, lookup-same (key name) j m))

  abbrev pub listed : Option T → List T
  listed none = []
  listed (some v) = v ∷ []

  -- `replace` leaves its one value, or none, under its key, and touches no other key.
  pub values-replace :
      (name : Text) (j : Key) (v : Option T) (m : KeyVal T)
      → values j (replace name v m) ≡ (if e.same (key name) j then listed v else values j m)
  unfolding replace
  values-replace name j (some v) m = values-insert (key name) j (v ∷ []) m
  values-replace name j none m = rw (lookup-remove (key name) j m) (ground arith)

  -- What `get` answers for the values of a name.
  abbrev pub answer : List T → Option (Value T)
  answer [] = none
  answer (v ∷ []) = some (single v)
  answer (v ∷ w ∷ vs) = some (multi (v ∷ w ∷ vs))

  front_value-answer : (vs : List T) → front_value false vs ≡ answer vs
  front_value-answer [] = refl
  front_value-answer (v ∷ []) = refl
  front_value-answer (v ∷ w ∷ vs) = ground arith

  -- `get` gives a single value as such, and several together.
  pub get-values : (name : Text) (m : KeyVal T) → get name m ≡ answer (values (key name) m)
  unfolding get get_arg
  get-values name m = elim (Option-cases (lookup (key name) m)) [
    | inl e ↦ rw (e, get_arg)
    | inr (vs, e) ↦ rw (e, get_arg) (front_value-answer vs)
  ]

  abbrev pub first : List T → Option T
  first [] = none
  first (v ∷ vs) = some v

  exact-values : (name : Text) (m : KeyVal T) → exact name m ≡ first (values (key name) m)
  unfolding exact get_arg
  exact-values name m = elim (Option-cases (lookup (key name) m)) [
    | inl e ↦ rw (e, get_arg)
    | inr ([], e) ↦ rw (e, get_arg)
    | inr (v ∷ vs, e) ↦ rw (e, get_arg) (ground arith)
  ]

  -- `exact` never meets its `unreachable!()`, and its answer is the oldest value of the name.
  pub exact-first :
      (name : Text) (m : KeyVal T)
      → ((ll : List T) → get_arg name true m ≢ some (multi ll))
        × (exact name m ≡ first (values (key name) m))
  unfolding get_arg
  exact-first name m = (
    (λ ll. elim (Option-cases (lookup (key name) m)) [
      | inl e ↦ rw (e, get_arg) (λ q. cc)
      | inr ([], e) ↦ rw (e, get_arg) (λ q. cc)
      | inr (v ∷ vs, e) ↦ rw (e, get_arg) (λ q. ground arith)
    ]),
    exact-values name m,
  )

  -- A name that was set has that value exactly, and the other names keep theirs.
  pub exact-set :
      (name other : Text) (v : T) (m : KeyVal T)
      → exact other (set name v m)
        ≡ (if e.same (key name) (key other) then some v else exact other m)
  unfolding set
  exact-set name other v m =
      rw
        (
          exact-values other (replace name (some v) m),
          exact-values other m,
          values-replace name (key other) (some v) m,
        )
        (ground arith)

  -- `batch_add` appends the values of its argument, name by name, if the argument holds each key once,
  -- as a hash map does.
  pub values-batch_add :
      (j : Key) (args m : KeyVal T)
      → IsMap args
      → values j (batch_add args m) ≡ values j m ++ values j args
  unfolding batch_add lookup
  values-batch_add j [] m h = sym (append-nil (values j m))
  values-batch_add j ((k, vs) ∷ args) m (f, h) =
      rw (values-batch_add j args (insert k (entry k m ++ vs) m) h, values-insert k j _ m)
        elim (Bool-cases (e.same k j)) [
          | inl hit ↦
              rw
                (
                  hit,
                  lookup-same k j m hit,
                  sym (lookup-same k j args hit),
                  lookup-IsFresh k args f,
                )
                (append-nil _)
          | inr miss ↦ rw miss
        ]

  -- `batch_replace` overrides the names of its argument, and keeps the others.
  pub lookup-batch_replace :
      (j : Key) (args m : KeyVal T)
      → IsMap args
      → lookup j (batch_replace args m) ≡ or_else (lookup j args) (lookup j m)
  unfolding batch_replace lookup
  lookup-batch_replace j [] m h = refl
  lookup-batch_replace j ((k, vs) ∷ args) m (f, h) =
      rw (lookup-batch_replace j args (insert k vs m) h, lookup-insert k j vs m)
        elim (Bool-cases (e.same k j)) [
          | inl hit ↦ rw (hit, sym (lookup-same k j args hit), lookup-IsFresh k args f)
          | inr miss ↦ rw miss
        ]
