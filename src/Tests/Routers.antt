-- ===== src/Tests/Routers.antt =====
-- The routers on small tables.
use ws_platform.Common.{
  ℕ, Text, codes, none, some, true, false, ◌&&◌, ◌≡◌, refl, [], ◌∷◌, map, is_some, lookup, text_key,
  text_eq, if◌then◌else◌, All,
}
use ws_platform.KeyVal.{KeyVal}
use ws_platform.Variable.{Variable, simple}
use ws_platform.Router.{any_method}
use ws_platform.Router.Trie
use ws_platform.Router.Trie.{
  TrieNode, Data, new_node, insert_route, path_words, word_key, word_part, Found, found, missing,
  traverse,
}
use ws_platform.Router.Trie.Slots.{words_eq}
use ws_platform.Router.Trie.Table
use ws_platform.Router.Trie.Table.{slot}
use ws_platform.Router.Trie.Invariant
use ws_platform.Router.Trie.Invariant.{IsTree}
use ws_platform.Router.Trie.RoundTrip
use ws_platform.Tests.Shared.{ascii_key}

abbrev variable_path : Text
variable_path = codes "/a/{x}"

abbrev tree : TrieNode ℕ
tree = (insert_route variable_path none 1 false new_node).0

tree-IsTree : IsTree tree
tree-IsTree =
    Invariant.insert_route-IsTree variable_path none 1 false new_node Invariant.new_node-IsTree

abbrev no_vars : KeyVal (Variable ℕ)
no_vars = []

-- A request for `/a/7` gets the context of `/a/{x}`, with `x` set to `7`.
tree_run :
    Trie.get ⦃e = ascii_key⦄ (codes "GET") (codes "/a/7") no_vars tree
    ≡ found 1 true ((record { name = codes "x" }, simple (codes "7") ∷ []) ∷ [])
unfolding Trie.get Trie.traverse Trie.bind_vars insert_route Trie.descend Trie.modify Trie.find_word
tree_run = refl

get-add_example :
    Trie.get ⦃e = ascii_key⦄
      (codes "GET")
      (codes "/a/b")
      no_vars
      (Trie.add (codes "/a/b") (some (codes "GET")) 2 tree).0
    ≡ found 2 true no_vars
unfolding insert_route Trie.descend Trie.modify Trie.find_word Trie.node_at lookup
get-add_example =
    RoundTrip.get-add ⦃e = ascii_key⦄ (codes "/a/b") (codes "GET") 2 tree no_vars
      (refl, (refl, (refl, tt))) refl

get-Answers_example :
    Invariant.Answers ⦃e = ascii_key⦄
      (codes "GET")
      (path_words (codes "/a/7"))
      tree
      (Trie.get ⦃e = ascii_key⦄ (codes "GET") (codes "/a/7") no_vars tree)
get-Answers_example =
    Invariant.get-Answers ⦃e = ascii_key⦄ (codes "GET") (codes "/a/7") no_vars tree tree-IsTree

slot-insert_route_example :
    slot
      (codes "" ∷ codes "b" ∷ [])
      (codes "GET")
      (insert_route (codes "/b") (some (codes "GET")) 3 true tree).0
    ≡ (if words_eq (map word_key (path_words (codes "/b"))) (codes "" ∷ codes "b" ∷ [])
          && text_eq (codes "GET") (codes "GET")
        then some (record { context = 3; uri_parts = map word_part (path_words (codes "/b")) })
        else slot (codes "" ∷ codes "b" ∷ []) (codes "GET") tree)
slot-insert_route_example =
    Table.slot-insert_route (codes "/b") (some (codes "GET")) 3 true tree
      (codes "" ∷ codes "b" ∷ []) (codes "GET")

slot-remove_route_example :
    (slot (codes "" ∷ codes "a" ∷ []) any_method (Trie.remove_route (codes "/a") none tree).0 ≡ (
      if words_eq (path_words (codes "/a")) (codes "" ∷ codes "a" ∷ [])
        && text_eq any_method any_method
      then none
      else slot (codes "" ∷ codes "a" ∷ []) any_method tree))
    × ((Trie.remove_route (codes "/a") none tree).1
        ≡ is_some (slot (path_words (codes "/a")) any_method tree))
slot-remove_route_example =
    Table.slot-remove_route (codes "/a") none tree (codes "" ∷ codes "a" ∷ []) any_method

insert-remove-IsTree_example :
    IsTree (insert_route (codes "/b") none 2 true tree).0
    × IsTree (Trie.remove_route (codes "/b") none tree).0
insert-remove-IsTree_example =
    Invariant.insert-remove-IsTree (codes "/b") none 2 true tree tree-IsTree

-- The word in braces is not literal.
variable_path-IsVariable : ¬ All Invariant.IsLiteral (path_words variable_path)
variable_path-IsVariable (a, (b, (c, rest))) = cc
