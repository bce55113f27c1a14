-- ===== src/KeyVal.antt =====
-- keyval.rs: the multimap of headers, query arguments and variables. Equality of keys is that of
-- `unicase::Ascii`, which is not part of the repository: it is the argument `Eq Key` here, an
-- equivalence, as Rust's `Eq` requires.
pub mod Laws
use ws_platform.Common.{
  Text, Option, none, some, Bool, true, false, ◌||◌, List, [], ◌∷◌, ◌++◌, Eq, lookup, insert,
  remove, get_or, length, ◌==◌, if◌then◌else◌,
}

-- `Key(Ascii<String>)`; `Key::from` is its constructor.
pub record Key : Type 0 where
  pub name : Text

abbrev pub key : Text → Key
key name = record { name = name }

pub data Value (T : Type 0) : Type 0 where
  single : T → Value T
  multi : List T → Value T

abbrev pub KeyVal : Type 0 → Type 0
KeyVal T = List (Key × List T)

module _ {T : Type 0} ⦃e : Eq Key⦄ where
  -- The match on `ll.front()`.
  abbrev pub front_value : Bool → List T → Option (Value T)
  front_value exact [] = none
  front_value exact (s ∷ ll) =
      if (length (s ∷ ll) == 1) || exact then some (single s) else some (multi (s ∷ ll))

  unfoldable pub get_arg : Text → Bool → KeyVal T → Option (Value T)
  unfolding lookup
  get_arg name exact m = elim (lookup (key name) m) [ none ↦ none | some ll ↦ front_value exact ll ]

  unfoldable pub get : Text → KeyVal T → Option (Value T)
  get name m = get_arg name false m

  -- The last arm is `unreachable!()`.
  abbrev pub exact_value : Option (Value T) → Option T
  exact_value none = none
  exact_value (some (single a)) = some a
  exact_value (some (multi ll)) = none

  unfoldable pub exact : Text → KeyVal T → Option T
  unfolding get_arg
  exact name m = exact_value (get_arg name true m)

  -- `self.0.entry(key).or_default()`.
  abbrev pub entry : Key → KeyVal T → List T
  entry k m = get_or (lookup k m) []

  unfoldable pub replace : Text → Option T → KeyVal T → KeyVal T
  unfolding insert remove
  replace name (some value) m = insert (key name) (value ∷ []) m
  replace name none m = remove (key name) m

  unfoldable pub set : Text → T → KeyVal T → KeyVal T
  unfolding replace
  set name value m = replace name (some value) m

  unfoldable pub add : Text → T → KeyVal T → KeyVal T
  unfolding lookup insert
  add name value m = insert (key name) (entry (key name) m ++ value ∷ []) m

  unfoldable pub batch_add : KeyVal T → KeyVal T → KeyVal T
  unfolding lookup insert
  batch_add [] m = m
  batch_add ((k, values) ∷ args) m = batch_add args (insert k (entry k m ++ values) m)

  unfoldable pub batch_replace : KeyVal T → KeyVal T → KeyVal T
  unfolding insert
  batch_replace [] m = m
  batch_replace ((k, values) ∷ args) m = batch_replace args (insert k values m)

  abbrev pub clear : KeyVal T → KeyVal T
  clear m = []

  unfoldable pub remove_name : Text → KeyVal T → KeyVal T
  unfolding remove
  remove_name name m = remove (key name) m
