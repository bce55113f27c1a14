-- ===== src/Router/Named.antt =====
-- http/routers/named.rs: routes by the whole name, which begins with `@`.
pub mod Laws
pub mod Faults
use mathlib.Core.Option
use ws_platform.Common.{
  Text, Option, none, some, Bool, true, false, not, List, [], ◌∷◌, is_some, lookup, insert, remove,
  text_key, text_eq, if◌then◌else◌,
}
use ws_platform.Router.{method_key, pick, or_insert, none_left}

pub record NamedRoute (C : Type 0) : Type 0 where
  pub name : Text
  pub context : List (Text × C)

abbrev pub NamedRouter : Type 0 → Type 0
NamedRouter C = List (NamedRoute C)

module _ {C : Type 0} where
  -- `NamedRoute::new`, with its first context.
  abbrev pub new_route : Text → Text → C → NamedRoute C
  new_route name m c = record { name = name; context = (m, c) ∷ [] }

  -- `matched`.
  abbrev pub matched : Text → NamedRoute C → Bool
  matched path r = text_eq r.name path

  -- The loop of `add`; the flag is the second part of its result.
  unfoldable pub add_loop : Text → Text → C → NamedRouter C → NamedRouter C × Bool
  unfolding lookup insert
  add_loop name m c [] = (new_route name m c ∷ [], true)
  add_loop name m c (r ∷ rs) =
      let rest = add_loop name m c rs in
      if matched name r
      then (record r { context = or_insert m c r.context } ∷ rs, not (is_some (lookup m r.context)))
      else (r ∷ rest.0, rest.1)

  unfoldable pub add : Text → Option Text → C → NamedRouter C → NamedRouter C × Bool
  unfolding add_loop
  add name method c routes = add_loop name (method_key method) c routes

  -- The match arm of `replace`, on the routes that follow the one that it removes: the code goes on
  -- with the route that has moved into its place. No result is a panic.
  abbrev pub replace_next : Text → C → NamedRouter C → Option (NamedRouter C)
  replace_next m c [] = none
  replace_next m c (r ∷ rs) = some (record r { context = or_insert m c r.context } ∷ rs)

  unfoldable pub replace_loop : Text → Text → C → NamedRouter C → Option (NamedRouter C)
  unfolding lookup insert
  replace_loop name m c [] = some (new_route name m c ∷ [])
  replace_loop name m c (r ∷ rs) =
      let rest = replace_loop name m c rs in
      if matched name r then replace_next m c rs else Option.map (λ rs'. r ∷ rs') rest

  unfoldable pub replace : Text → Option Text → C → NamedRouter C → Option (NamedRouter C)
  unfolding replace_loop
  replace name method c routes = replace_loop name (method_key method) c routes

  unfoldable pub remove_loop : Text → Text → NamedRouter C → NamedRouter C × Bool
  unfolding remove
  remove_loop name m [] = ([], false)
  remove_loop name m (r ∷ rs) =
      let rest = remove_loop name m rs in
      if matched name r
      then (
        if none_left (remove m r.context)
            then rs
            else record r { context = remove m r.context } ∷ rs,
        true,
      )
      else (r ∷ rest.0, rest.1)

  unfoldable pub remove_route : Text → Option Text → NamedRouter C → NamedRouter C × Bool
  unfolding remove_loop
  remove_route name method routes = remove_loop name (method_key method) routes

  -- `get`, for the method and the path of the request.
  unfoldable pub get : Text → Text → NamedRouter C → Option C
  unfolding lookup
  get method name [] = none
  get method name (r ∷ rs) =
      let rest = get method name rs in if matched name r then pick method r.context else rest

  abbrev pub map_context : Text → (C → C) → List (Text × C) → List (Text × C)
  map_context m f cs = elim (lookup m cs) [ none ↦ cs | some c ↦ insert m (f c) cs ]

  -- A write through the reference that `add` returns.
  unfoldable pub write_context : Text → Text → (C → C) → NamedRouter C → NamedRouter C
  unfolding lookup insert
  write_context name m f [] = []
  write_context name m f (r ∷ rs) =
      let rest = write_context name m f rs in
      if matched name r then record r { context = map_context m f r.context } ∷ rs else r ∷ rest

  unfoldable pub upsert : C → Text → Option Text → (C → Bool → C) → NamedRouter C → NamedRouter C
  unfolding add write_context
  upsert default name method f routes =
      let (routes', added) = add name method default routes in
      write_context name (method_key method) (λ c. f c added) routes'
