-- ===== src/Router/Regex.antt =====
-- http/routers/re.rs: routes by regular expression, longer patterns first. The crate `regex` is not part
-- of the repository: it is the argument `Engine`.
pub mod Laws
use mathlib.Core.Option
use ws_platform.Common.{
  Text, codes, Option, none, some, Bool, true, false, not, List, [], ◌∷◌, ◌++◌, length, is_some,
  ltb, lookup, insert, remove, text_key, text_eq, if◌then◌else◌, Eq,
}
use ws_platform.Error.{Result, ok, err, ◌>>=◌, CoreError, throw}
use ws_platform.KeyVal.{Key, KeyVal, set}
use ws_platform.Variable.{Variable, simple}
use ws_platform.Router.{method_key, pick, or_insert, none_left}

-- `Regex::new`, with the text of its error, and `captures` with `capture_names`: the named groups that
-- took part in the match, with their texts, in the order of the names.
pub record Engine : Type 1 where
  pub Re : Type 0
  pub compile : Text → Result Text Re
  pub captures : Re → Text → Option (List (Text × Text))

pub record RegexRoute (Re C : Type 0) : Type 0 where
  pub pattern : Text
  pub re : Re
  pub context : List (Text × C)

-- The writes of the variables of the request.
abbrev pub set_vars :
    {R : Type 0} ⦃e : Eq Key⦄ → List (Text × Text) → KeyVal (Variable R) → KeyVal (Variable R)
set_vars [] vars = vars
set_vars ((name, val) ∷ captured) vars = set_vars captured (set name (simple val) vars)

module _ (engine : Engine) {C : Type 0} where
  open engine use {Re, compile, captures}

  -- `RegexRoute::new`, with its first context.
  abbrev pub new_route : Text → Text → C → Result CoreError (RegexRoute Re C)
  new_route pattern m c = elim (compile pattern) [
    | ok re ↦ ok (record { pattern = pattern; re = re; context = (m, c) ∷ [] })
    | err e ↦ throw (codes "Invalid pattern: " ++ e)
  ]

  -- The loop of `add`; the flag is the second part of its result.
  unfoldable pub add_loop :
      Text → Text → C → List (RegexRoute Re C) → Result CoreError (List (RegexRoute Re C) × Bool)
  unfolding lookup insert
  add_loop pattern m c [] = do r ← new_route pattern m c; ok (r ∷ [], true)
  add_loop pattern m c (r ∷ rs) =
      let rest = add_loop pattern m c rs in
      if text_eq r.pattern pattern
      then ok
          (record r { context = or_insert m c r.context } ∷ rs, not (is_some (lookup m r.context)))
      else if ltb (length r.pattern) (length pattern)
      then (do new ← new_route pattern m c; ok (new ∷ r ∷ rs, true))
      else (do (rs', added) ← rest; ok (r ∷ rs', added))

  unfoldable pub add :
      Text
      → Option Text
      → C
      → List (RegexRoute Re C)
      → Result CoreError (List (RegexRoute Re C) × Bool)
  unfolding add_loop
  add pattern method c routes = add_loop pattern (method_key method) c routes

  -- The match arm of `replace`, on the routes that follow the one that it removes: the code goes on with
  -- the route that has moved into its place. No result is a panic.
  abbrev pub replace_next :
      Text → C → List (RegexRoute Re C) → Option (Result CoreError (List (RegexRoute Re C)))
  replace_next m c [] = none
  replace_next m c (r ∷ rs) = some (ok (record r { context = or_insert m c r.context } ∷ rs))

  abbrev pub keep_route :
      RegexRoute Re C
      → Option (Result CoreError (List (RegexRoute Re C)))
      → Option (Result CoreError (List (RegexRoute Re C)))
  keep_route r rest = Option.map (λ res. do rs ← res; ok (r ∷ rs)) rest

  unfoldable pub replace_loop :
      Text → Text → C → List (RegexRoute Re C) → Option (Result CoreError (List (RegexRoute Re C)))
  replace_loop pattern m c [] = some (do r ← new_route pattern m c; ok (r ∷ []))
  replace_loop pattern m c (r ∷ rs) =
      let rest = replace_loop pattern m c rs in
      if text_eq r.pattern pattern
      then replace_next m c rs
      else if ltb (length r.pattern) (length pattern)
      then some (do new ← new_route pattern m c; ok (new ∷ r ∷ rs))
      else keep_route r rest

  unfoldable pub replace :
      Text
      → Option Text
      → C
      → List (RegexRoute Re C)
      → Option (Result CoreError (List (RegexRoute Re C)))
  unfolding replace_loop
  replace pattern method c routes = replace_loop pattern (method_key method) c routes

  abbrev pub map_context : Text → (C → C) → List (Text × C) → List (Text × C)
  map_context m f cs = elim (lookup m cs) [ none ↦ cs | some c ↦ insert m (f c) cs ]

  -- A write through the reference that `add` returns.
  unfoldable pub write_context :
      Text → Text → (C → C) → List (RegexRoute Re C) → List (RegexRoute Re C)
  unfolding lookup insert
  write_context pattern m f [] = []
  write_context pattern m f (r ∷ rs) =
      let rest = write_context pattern m f rs in
      if text_eq r.pattern pattern
      then record r { context = map_context m f r.context } ∷ rs
      else r ∷ rest

  unfoldable pub upsert :
      C
      → Text
      → Option Text
      → (C → Bool → C)
      → List (RegexRoute Re C)
      → Result CoreError (List (RegexRoute Re C))
  unfolding add write_context
  upsert default pattern method f routes = do
    (routes', added) ← add pattern method default routes
    ok (write_context pattern (method_key method) (λ c. f c added) routes')

  unfoldable pub remove_loop : Text → Text → List (RegexRoute Re C) → List (RegexRoute Re C) × Bool
  unfolding remove
  remove_loop pattern m [] = ([], false)
  remove_loop pattern m (r ∷ rs) =
      let rest = remove_loop pattern m rs in
      if text_eq r.pattern pattern
      then (
        if none_left (remove m r.context)
            then rs
            else record r { context = remove m r.context } ∷ rs,
        true,
      )
      else (r ∷ rest.0, rest.1)

  unfoldable pub remove_route :
      Text → Option Text → List (RegexRoute Re C) → List (RegexRoute Re C) × Bool
  unfolding remove_loop
  remove_route pattern method routes = remove_loop pattern (method_key method) routes

  -- The routes that the loop of `get` stops at: the first whose expression matches, with the variables.
  unfoldable pub first_match :
      Text → List (RegexRoute Re C) → Option (RegexRoute Re C × List (Text × Text))
  first_match path [] = none
  first_match path (r ∷ rs) =
      let rest = first_match path rs in
      elim (captures r.re path) [ none ↦ rest | some vars ↦ some (r, vars) ]

  -- `get`, for the method and the path of the request and with its variables: those of the match are
  -- set only if there is a context.
  unfoldable pub get :
      {R : Type 0} ⦃e : Eq Key⦄
      → Text
      → Text
      → KeyVal (Variable R)
      → List (RegexRoute Re C)
      → Option C × KeyVal (Variable R)
  unfolding first_match lookup set
  get method path vars routes = elim (first_match path routes) [
    | none ↦ (none, vars)
    | some (r, captured) ↦ elim (pick method r.context) [
      | none ↦ (none, vars)
      | some c ↦ (some c, set_vars captured vars)
    ]
  ]
