-- ===== src/Tests/Tables.antt =====
-- The routers by name and by expression on small tables.
use ws_platform.Common.{
  ℕ, Text, codes, Option, none, some, not, ◌&&◌, ◌≡◌, refl, List, [], ◌∷◌, is_some, get_or, lookup,
  insert, text_key, text_eq, if◌then◌else◌, arith, strip_prefix,
}
use ws_platform.Error.{Result, ok, err}
use ws_platform.KeyVal.{KeyVal, set, replace}
use ws_platform.Variable.{Variable, simple}
use ws_platform.Router.{any_method}
use ws_platform.Router.Named
use ws_platform.Router.Named.{NamedRouter}
use ws_platform.Router.Named.Laws.{IsUnique, slot, add-remove-slot, has}
use ws_platform.Router.Regex
use ws_platform.Router.Regex.{Engine, RegexRoute}
use ws_platform.Router.Regex.Laws
use ws_platform.Router.Regex.Laws.{IsOrdered}
use ws_platform.Tests.Shared.{ascii_key}

abbrev named : NamedRouter ℕ
named =
    record { name = codes "@a"; context = (any_method, 1) ∷ [] }
    ∷ record { name = codes "@b"; context = (codes "GET", 2) ∷ [] }
    ∷ []

named-IsUnique : IsUnique named
named-IsUnique = ((refl, tt), (tt, tt))

add-remove-slot_example :
    ((slot (codes "@b") any_method (Named.add (codes "@b") none 3 named).0 ≡ (
        if text_eq (codes "@b") (codes "@b") && text_eq any_method any_method
        then some (get_or (slot (codes "@b") any_method named) 3)
        else slot (codes "@b") any_method named))
      × ((Named.add (codes "@b") none 3 named).1
          ≡ not (is_some (slot (codes "@b") any_method named))))
    × ((slot (codes "@b") any_method (Named.remove_route (codes "@b") none named).0 ≡ (
          if text_eq (codes "@b") (codes "@b") && text_eq any_method any_method
          then none
          else slot (codes "@b") any_method named))
        × ((Named.remove_route (codes "@b") none named).1 ≡ has (codes "@b") named))
add-remove-slot_example =
    add-remove-slot (codes "@b") none 3 named (codes "@b") any_method named-IsUnique

-- `replace` of `@a` by 9 leaves `@b`, with 9 for any method.
abbrev replaced : NamedRouter ℕ
replaced = record { name = codes "@b"; context = (codes "GET", 2) ∷ (any_method, 9) ∷ [] } ∷ []

-- Expressions that match the texts they begin, and name the rest.
abbrev prefix_captures : Text → Text → Option (List (Text × Text))
prefix_captures re path = elim (strip_prefix re path) [
  | none ↦ none
  | some rest ↦ some ((codes "rest", rest) ∷ [])
]

abbrev compile_prefix : Text → Result Text Text
compile_prefix [] = err (codes "empty")
compile_prefix (c ∷ p) = ok (c ∷ p)

abbrev prefixes : Engine
prefixes = record { Re = Text; compile = compile_prefix; captures = prefix_captures }

abbrev by_prefix : List (RegexRoute Text ℕ)
by_prefix =
    record { pattern = codes "/ab"; re = codes "/ab"; context = (any_method, 1) ∷ [] }
    ∷ record { pattern = codes "/a"; re = codes "/a"; context = (any_method, 2) ∷ [] }
    ∷ []

by_prefix-IsOrdered : IsOrdered by_prefix
by_prefix-IsOrdered = (((omega arith, refl), tt), (tt, tt))

abbrev no_vars : KeyVal (Variable ℕ)
no_vars = []

abbrev rest_var : KeyVal (Variable ℕ)
rest_var = (record { name = codes "rest" }, simple (codes "c") ∷ []) ∷ []

get-Longest_example :
    Laws.Chosen prefixes ⦃e = ascii_key⦄
      (codes "GET")
      (codes "/abc")
      no_vars
      by_prefix
      (1, rest_var)
unfolding Regex.get Regex.first_match lookup set replace insert
get-Longest_example =
    Laws.get-Longest prefixes ⦃e = ascii_key⦄ (codes "GET") (codes "/abc") no_vars rest_var
      by_prefix 1 by_prefix-IsOrdered refl
