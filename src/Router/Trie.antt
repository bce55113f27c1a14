-- ===== src/Router/Trie.antt =====
-- http/routers/trie.rs: routes by the words of a path. `{name}` stands for any word and gives it a name.
pub mod Slots
pub mod Table
pub mod Search
pub mod Invariant
pub mod RoundTrip
pub mod Upsert
use ws_platform.Common.{
  ℕ, Text, codes, Option, none, some, Bool, true, false, not, ◌&&◌, List, [], ◌∷◌, ◌++◌, map,
  length, is_some, or_else, lookup, insert, remove, text_key, Eq, text_eq, split, trim_start,
  trim_end, ◌==◌, if◌then◌else◌,
}
use ws_platform.KeyVal.{Key, KeyVal, set}
use ws_platform.Variable.{Variable, simple}
use ws_platform.Router.{method_key, pick}

pub record Data (C : Type 0) : Type 0 where
  pub context : C
  pub uri_parts : List (Option Text)

-- The map `words` of a node is a data type of its own, since it holds nodes.
mutual
  pub data TrieNode (C : Type 0) : Type 0 where
    node : Words C → List (Text × Data C) → TrieNode C

  pub data Words (C : Type 0) : Type 0 where
    nil : Words C
    cons : Text → TrieNode C → Words C → Words C

module _ {C : Type 0} where
  abbrev pub words : TrieNode C → Words C
  words (node ws cs) = ws

  abbrev pub contexts : TrieNode C → List (Text × Data C)
  contexts (node ws cs) = cs

  -- `TrieNode::new` and `default`.
  abbrev pub new_node : TrieNode C
  new_node = node nil []

  -- `words.is_empty()`.
  abbrev pub is_empty : TrieNode C → Bool
  is_empty (node nil cs) = true
  is_empty (node (cons k n ws) cs) = false

  -- `words.get(word)`.
  unfoldable pub find_word : Text → Words C → Option (TrieNode C)
  find_word k nil = none
  find_word k (cons j n ws) = if text_eq j k then some n else find_word k ws

  -- `words.entry(word).or_default()`, with what is done to the node.
  unfoldable pub modify : Text → (TrieNode C → TrieNode C) → Words C → Words C
  modify k f nil = cons k (f new_node) nil
  modify k f (cons j n ws) = if text_eq j k then cons j (f n) ws else cons j n (modify k f ws)

  -- The walk of `insert` down the words of a path, with what is done to the node that it reaches.
  unfoldable pub descend : List Text → (TrieNode C → TrieNode C) → TrieNode C → TrieNode C
  unfolding modify
  descend [] f n = f n
  descend (k ∷ ks) f (node ws cs) = node (modify k (descend ks f) ws) cs

  -- The walk of `remove`, which creates nothing.
  unfoldable pub node_at : List Text → TrieNode C → Option (TrieNode C)
  unfolding find_word
  node_at [] n = some n
  node_at (k ∷ ks) (node ws cs) = elim (find_word k ws) [ none ↦ none | some n ↦ node_at ks n ]

-- `word.trim_start_matches("{").trim_end_matches("}")`.
abbrev pub variable_name : Text → Text
variable_name word = trim_end b'}' (trim_start b'{' word)

-- The key under which a word of a path is stored, and the entry that it adds to `uri_parts`.
abbrev pub is_literal : Text → Bool
is_literal word = length (variable_name word) == length word

abbrev pub word_key : Text → Text
word_key word = if is_literal word then word else codes "*"

abbrev pub word_part : Text → Option Text
word_part word = if is_literal word then none else some (variable_name word)

abbrev pub path_words : Text → List Text
path_words path = split b'/' path

module _ {C : Type 0} where
  -- Whether the node that a walk reaches holds the method: false where the walk creates it.
  abbrev pub holds : Text → Option (TrieNode C) → Bool
  holds method none = false
  holds method (some n) = is_some (lookup method (contexts n))

  -- The end of `insert`: a context that is there stays, unless `replace` is set.
  abbrev pub put_context : Text → Data C → Bool → TrieNode C → TrieNode C
  put_context method d replace (node ws cs) =
      if is_some (lookup method cs) && not replace then node ws cs else node ws (insert method d cs)

  -- `insert`: the new root and the flag that is returned. It never fails.
  unfoldable pub insert_route : Text → Option Text → C → Bool → TrieNode C → TrieNode C × Bool
  unfolding descend node_at lookup insert
  insert_route path method context replace root =
      let keys = map word_key (path_words path) in
      let d : Data C = record { context = context; uri_parts = map word_part (path_words path) } in
      let m = method_key method in
      (
        descend keys (put_context m d replace) root,
        if holds m (node_at keys root) then not replace else true,
      )

  unfoldable pub add : Text → Option Text → C → TrieNode C → TrieNode C × Bool
  add path method context root = insert_route path method context false root

  unfoldable pub replace : Text → Option Text → C → TrieNode C → TrieNode C × Bool
  replace path method context root = insert_route path method context true root

  abbrev pub map_context : Text → (C → C) → TrieNode C → TrieNode C
  map_context m f (node ws cs) = elim (lookup m cs) [
    | none ↦ node ws cs
    | some d ↦ node ws (insert m (record d { context = f d.context }) cs)
  ]

  -- `upsert`: `f` is given the context in its place, and the flag of `add`.
  unfoldable pub upsert : C → Text → Option Text → (C → Bool → C) → TrieNode C → TrieNode C
  unfolding add insert_route
  upsert default path method f root =
      let (root', added) = add path method default root in
      descend (map word_key (path_words path)) (map_context (method_key method) (λ c. f c added))
        root'

  abbrev pub drop_context : Text → TrieNode C → TrieNode C
  drop_context m (node ws cs) = node ws (remove m cs)

  -- `remove` goes down by the words as they are written.
  unfoldable pub remove_route : Text → Option Text → TrieNode C → TrieNode C × Bool
  unfolding descend node_at lookup remove
  remove_route path method root = elim (node_at (path_words path) root) [
    | none ↦ (root, false)
    | some n ↦ (
      descend (path_words path) (drop_context (method_key method)) root,
      is_some (lookup (method_key method) (contexts n)),
    )
  ]

  abbrev pub marked : Bool → Option (Data C) → Option (Data C × Bool)
  marked whole none = none
  marked whole (some d) = some (d, whole)

  -- The end of `traverse`: without a match, the last context passed over at a `*`.
  abbrev pub or_star :
      Option (Data C × Bool) × Option (Data C) → Option (Data C × Bool) × Option (Data C)
  or_star (some f, star) = (some f, star)
  or_star (none, star) = (marked false star, star)

  -- `traverse`, with the field `star` passed along; the list holds the parts from `i` on.
  unfoldable pub traverse :
      Text
      → List Text
      → TrieNode C
      → Option (Data C)
      → Option (Data C)
      → Option (Data C × Bool) × Option (Data C)
  unfolding find_word lookup
  traverse method [] n d star = (marked true (pick method (contexts n)), or_else d star)
  traverse method (part ∷ parts) n d star =
      let star' = or_else d star in
      let la = find_word (codes "*") (words n) in
      elim (find_word part (words n)) [
        | none ↦ elim la [
          | none ↦ (marked false (pick method (contexts n)), star')
          | some a ↦ or_star (traverse method parts a (pick method (contexts n)) star')
        ]
        | some l ↦
            let (f, star'') = traverse method parts l none star' in
            elim f [
              | some found ↦ (some found, star'')
              | none ↦ elim la [
                | none ↦ or_star (none, star'')
                | some a ↦ or_star (traverse method parts a (pick method (contexts n)) star'')
              ]
            ]
      ]

-- The outcome of `get`.
pub data Found (C R : Type 0) : Type 0 where
  missing panics : Found C R
  found : C → Bool → KeyVal (Variable R) → Found C R

module _ {R : Type 0} ⦃e : Eq Key⦄ where
  -- The loop over `uri_parts`; no result is the panic of `parts[index]`.
  unfoldable pub bind_vars :
      List (Option Text) → List Text → KeyVal (Variable R) → Option (KeyVal (Variable R))
  unfolding set
  bind_vars [] parts vars = some vars
  bind_vars (none ∷ us) [] vars = bind_vars us [] vars
  bind_vars (some v ∷ us) [] vars = none
  bind_vars (none ∷ us) (p ∷ ps) vars = bind_vars us ps vars
  bind_vars (some v ∷ us) (p ∷ ps) vars = bind_vars us ps (set v (simple p) vars)

module _ {C R : Type 0} ⦃e : Eq Key⦄ where
  abbrev pub answer : List Text → KeyVal (Variable R) → Option (Data C × Bool) → Found C R
  answer parts vars none = missing
  answer parts vars (some (d, exact)) = elim (bind_vars d.uri_parts parts vars) [
    | none ↦ panics
    | some vars' ↦ found d.context exact vars'
  ]

  -- `get`, for the method and the path of the request and with its variables.
  unfoldable pub get : Text → Text → KeyVal (Variable R) → TrieNode C → Found C R
  unfolding traverse bind_vars
  get method uri vars root =
      if is_empty root
      then missing
      else answer (path_words uri) vars (traverse method (path_words uri) root none none).0
