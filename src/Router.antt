-- ===== src/Router.antt =====
-- http/routers: three route tables, by path words, by name and by regular expression. The `RwLock` that
-- each holds for a call, and the guards of result.rs that keep it locked while the caller uses the
-- context, are left out: a call is one step here. A reference to a stored context is its place.
pub mod Trie
pub mod Named
pub mod Regex
use ws_platform.Common.{
  Text, codes, Bool, true, false, Option, none, some, List, [], ◌∷◌, ◌≡◌, arith, lookup, insert,
  text_key, get_or, or_else, is_some, if◌then◌else◌, lookup-insert, text_eq, text_eq_iff,
}

-- `method.unwrap_or("*")`.
abbrev pub any_method : Text
any_method = codes "*"

abbrev pub method_key : Option Text → Text
method_key method = get_or method any_method

-- The context of the method, or that of any method.
abbrev pub pick {ℓ} : {C : Type ℓ} → Text → List (Text × C) → Option C
pick method contexts = or_else (lookup method contexts) (lookup any_method contexts)

-- `contexts.entry(method).or_insert(context)`: a context that is there stays.
abbrev pub or_insert {ℓ} : {C : Type ℓ} → Text → C → List (Text × C) → List (Text × C)
or_insert method c contexts =
    if is_some (lookup method contexts) then contexts else insert method c contexts

-- `context.is_empty()`.
abbrev pub none_left {ℓ} : {C : Type ℓ} → List (Text × C) → Bool
none_left [] = true
none_left (c ∷ contexts) = false

pub lookup-or_insert {ℓ} :
    {C : Type ℓ} (k m : Text) (c : C) (contexts : List (Text × C))
    → lookup m (or_insert k c contexts)
      ≡ (if text_eq k m then some (get_or (lookup m contexts) c) else lookup m contexts)
lookup-or_insert k m c contexts = ground (arith, lookup-insert k m c contexts, text_eq_iff k m)
