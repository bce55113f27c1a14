-- ===== src/Router/Named/Laws.antt =====
-- http/routers/named.rs: the routes as a table from names and methods to contexts.
use ws_platform.Common.{
  Text, Option, none, some, Bool, true, false, not, ◌&&◌, ◌||◌, ◌≡◌, refl, sym, ◌∙◌, List, [], ◌∷◌,
  is_some, get_or, or_else, lookup, remove, text_key, text_eq, text_eq_iff, if◌then◌else◌, arith,
  lookup-remove, All,
}
use ws_platform.Router.{method_key, any_method, none_left, lookup-or_insert}
use ws_platform.Router.Named.{NamedRouter, matched, add_loop, add, remove_loop, remove_route, get}

module _ {C : Type 0} where
  -- What is stored for a name and a method: the first route of that name counts.
  unfoldable pub slot : Text → Text → NamedRouter C → Option C
  slot name m [] = none
  slot name m (r ∷ rs) =
      let rest = slot name m rs in if matched name r then lookup m r.context else rest

  abbrev pub IsNew : Text → NamedRouter C → Type 0
  IsNew name rs = All (λ r. text_eq r.name name ≡ false) rs

  -- No name has two routes.
  abbrev pub IsUnique : NamedRouter C → Type 0
  IsUnique [] = Unit
  IsUnique (r ∷ rs) = IsNew r.name rs × IsUnique rs

  -- `get` answers with the context of the method, else with that of any method.
  pub get-slot :
      (method name : Text) (routes : NamedRouter C)
      → get method name routes ≡ or_else (slot name method routes) (slot name any_method routes)
  unfolding get slot
  get-slot method name [] = refl
  get-slot method name (r ∷ rs) = ground (arith, get-slot method name rs)

  slot-add_loop :
      (name key : Text) (c : C) (routes : NamedRouter C) (other m : Text)
      → slot other m (add_loop name key c routes).0 ≡ (
          if text_eq name other && text_eq key m
          then some (get_or (slot name key routes) c)
          else slot other m routes)
  unfolding add_loop slot
  slot-add_loop name key c [] other m = ground arith
  slot-add_loop name key c (r ∷ rs) other m = ground (
    arith,
    slot-add_loop name key c rs other m,
    lookup-or_insert key m c r.context,
    text_eq_iff r.name name,
    text_eq_iff r.name other,
    text_eq_iff name other,
    text_eq_iff key m,
  )

  flag-add_loop :
      (name key : Text) (c : C) (routes : NamedRouter C)
      → (add_loop name key c routes).1 ≡ not (is_some (slot name key routes))
  unfolding add_loop slot
  flag-add_loop name key c [] = refl
  flag-add_loop name key c (r ∷ rs) = ground (arith, flag-add_loop name key c rs)

  -- `add` writes the slot of its name and method if it is empty, keeps what is there otherwise, and
  -- says which; it touches no other slot.
  pub slot-add :
      (name : Text) (method : Option Text) (c : C) (routes : NamedRouter C) (other m : Text)
      → (slot other m (add name method c routes).0 ≡ (
          if text_eq name other && text_eq (method_key method) m
          then some (get_or (slot name (method_key method) routes) c)
          else slot other m routes))
        × ((add name method c routes).1 ≡ not (is_some (slot name (method_key method) routes)))
  unfolding add
  slot-add name method c routes other m = (
    slot-add_loop name (method_key method) c routes other m,
    flag-add_loop name (method_key method) c routes,
  )

  add_loop-IsNew :
      (name key other : Text) (c : C) (routes : NamedRouter C)
      → text_eq name other ≡ false
      → IsNew other routes
      → IsNew other (add_loop name key c routes).0
  unfolding add_loop
  add_loop-IsNew name key other c [] p h = (p, tt)
  add_loop-IsNew name key other c (r ∷ rs) p h =
      ground (arith, add_loop-IsNew name key other c rs p h.1)

  add_loop-IsUnique :
      (name key : Text) (c : C) (routes : NamedRouter C)
      → IsUnique routes
      → IsUnique (add_loop name key c routes).0
  unfolding add_loop
  add_loop-IsUnique name key c [] u = (tt, tt)
  add_loop-IsUnique name key c (r ∷ rs) u = ground (
    arith,
    add_loop-IsUnique name key c rs u.1,
    add_loop-IsNew name key r.name c rs,
    text_eq_iff r.name name,
    text_eq_iff name r.name,
  )

  pub slot-IsNew :
      (name m : Text) (routes : NamedRouter C) → IsNew name routes → slot name m routes ≡ none
  unfolding slot
  slot-IsNew name m [] h = refl
  slot-IsNew name m (r ∷ rs) h = ground (arith, slot-IsNew name m rs h.1)

  lookup-none_left :
      (k m : Text) (cs : List (Text × C))
      → none_left (remove k cs) ≡ true
      → (if text_eq k m then none else lookup m cs) ≡ none
  lookup-none_left k m cs h = sym (lookup-remove k m cs) ∙ gone (remove k cs) h
    where
      gone : (ds : List (Text × C)) → none_left ds ≡ true → lookup m ds ≡ none
      gone [] h = unfold lookup in refl
      gone (d ∷ ds) h = cc

  slot-remove_loop :
      (name key : Text) (routes : NamedRouter C) (other m : Text)
      → IsUnique routes
      → slot other m (remove_loop name key routes).0
        ≡ (if text_eq name other && text_eq key m then none else slot other m routes)
  unfolding remove_loop slot
  slot-remove_loop name key [] other m u = ground arith
  slot-remove_loop name key (r ∷ rs) other m u = ground (
    arith,
    slot-remove_loop name key rs other m u.1,
    lookup-remove key m r.context,
    lookup-none_left key m r.context,
    slot-IsNew other m rs,
    text_eq_iff r.name name,
    text_eq_iff r.name other,
    text_eq_iff name other,
    text_eq_iff key m,
    u,
  )

  -- Whether a route has the name.
  abbrev pub has : Text → NamedRouter C → Bool
  has name [] = false
  has name (r ∷ rs) = matched name r || has name rs

  flag-remove_loop :
      (name key : Text) (routes : NamedRouter C) → (remove_loop name key routes).1 ≡ has name routes
  unfolding remove_loop
  flag-remove_loop name key [] = refl
  flag-remove_loop name key (r ∷ rs) = ground (arith, flag-remove_loop name key rs)

  -- `remove` empties the slot of its name and method and no other; its flag says only that the name
  -- had a route.
  pub named_slot-remove_route :
      (name : Text) (method : Option Text) (routes : NamedRouter C) (other m : Text)
      → IsUnique routes
      → (slot other m (remove_route name method routes).0 ≡ (
          if text_eq name other && text_eq (method_key method) m
          then none
          else slot other m routes))
        × ((remove_route name method routes).1 ≡ has name routes)
  unfolding remove_route
  named_slot-remove_route name method routes other m u = (
    slot-remove_loop name (method_key method) routes other m u,
    flag-remove_loop name (method_key method) routes,
  )

  -- On a table whose names are distinct, `add` writes the slot of its name and method if it is empty and
  -- says so, `remove` empties it and says whether the name had a route, and neither touches another
  -- slot.
  pub add-remove-slot :
      (name : Text) (method : Option Text) (c : C) (routes : NamedRouter C) (other m : Text)
      → IsUnique routes
      → ((slot other m (add name method c routes).0 ≡ (
            if text_eq name other && text_eq (method_key method) m
            then some (get_or (slot name (method_key method) routes) c)
            else slot other m routes))
          × ((add name method c routes).1 ≡ not (is_some (slot name (method_key method) routes))))
        × ((slot other m (remove_route name method routes).0 ≡ (
              if text_eq name other && text_eq (method_key method) m
              then none
              else slot other m routes))
            × ((remove_route name method routes).1 ≡ has name routes))
  add-remove-slot name method c routes other m u =
      (slot-add name method c routes other m, named_slot-remove_route name method routes other m u)

  remove_loop-IsNew :
      (name key other : Text) (routes : NamedRouter C)
      → IsNew other routes
      → IsNew other (remove_loop name key routes).0
  unfolding remove_loop
  remove_loop-IsNew name key other [] h = tt
  remove_loop-IsNew name key other (r ∷ rs) h =
      ground (arith, remove_loop-IsNew name key other rs h.1, h)

  remove_loop-IsUnique :
      (name key : Text) (routes : NamedRouter C)
      → IsUnique routes
      → IsUnique (remove_loop name key routes).0
  unfolding remove_loop
  remove_loop-IsUnique name key [] u = tt
  remove_loop-IsUnique name key (r ∷ rs) u =
      ground
        (arith, remove_loop-IsUnique name key rs u.1, remove_loop-IsNew name key r.name rs u.0, u)

  -- `add` and `remove` keep the names of the routes distinct.
  pub add-remove-IsUnique :
      (name : Text) (method : Option Text) (c : C) (routes : NamedRouter C)
      → IsUnique routes
      → IsUnique (add name method c routes).0 × IsUnique (remove_route name method routes).0
  unfolding add remove_route
  add-remove-IsUnique name method c routes u = (
    add_loop-IsUnique name (method_key method) c routes u,
    remove_loop-IsUnique name (method_key method) routes u,
  )
