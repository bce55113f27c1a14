-- ===== src/Router/Trie/Upsert.antt =====
-- http/routers/trie.rs: `upsert`, the way in which the server adds its routes.
use ws_platform.Common.{
  Text, Option, none, some, Bool, true, false, ◌≡◌, refl, ap, ◌∙◌, List, map, text_key,
  text_eq_refl, arith, All, Eq, lookup, lookup-insert, get_or, or_else,
}
use ws_platform.KeyVal.{Key, KeyVal}
use ws_platform.Variable.{Variable}
use ws_platform.Router.{any_method}
use ws_platform.Router.Trie.{
  Data, TrieNode, node, words, contexts, new_node, node_at, word_key, word_part, path_words,
  map_context, upsert, add, insert_route, get, found, descend, is_empty,
}
use ws_platform.Router.Trie.Slots.{words_eq_refl, contexts_at-descend}
use ws_platform.Router.Trie.Table.{slot, contexts_at-get_or}
use ws_platform.Router.Trie.Search.{traverse-exact}
use ws_platform.Router.Trie.Invariant.{IsLiteral}
use ws_platform.Router.Trie.RoundTrip.{
  word_keys-literal, bind_vars-literal, map-ne-nil, split-ne-nil, descend-not_empty, slot-add,
  get_found,
}

module _ {C : Type 0} where
  words-map_context : (m : Text) (f : C → C) (n : TrieNode C) → words (map_context m f n) ≡ words n
  words-map_context m f (node ws cs) = ground arith

  lookup-map_context :
      (m : Text) (f : C → C) (n : TrieNode C) (d : Data C)
      → lookup m (contexts n) ≡ some d
      → lookup m (contexts (map_context m f n)) ≡ some (record d { context = f d.context })
  lookup-map_context m f (node ws cs) d e =
      ground (arith, e, lookup-insert m m (record d { context = f d.context }) cs, text_eq_refl m)

  slot-descend :
      (keys : List Text) (m : Text) (f : C → C) (root : TrieNode C) (d : Data C)
      → slot keys m root ≡ some d
      → slot keys m (descend keys (map_context m f) root)
        ≡ some (record d { context = f d.context })
  slot-descend keys m f root d e =
      ap (lookup m) (
        contexts_at-descend keys keys (map_context m f) root (words-map_context m f)
        ∙ rw (words_eq_refl keys) refl)
      ∙ lookup-map_context m f (get_or (node_at keys root) new_node) d
          (ap (lookup m) (contexts_at-get_or keys root) ∙ e)

  -- The slot of a path without variables that was free.
  slot-upsert :
      (default : C) (path method : Text) (f : C → Bool → C) (root : TrieNode C)
      → All IsLiteral (path_words path)
      → slot (path_words path) method root ≡ none
      → (b : Bool) × (slot (path_words path) method (upsert default path (some method) f root)
          ≡ some (record { context = f default b; uri_parts = map word_part (path_words path) }))
  unfolding upsert add
  slot-upsert default path method f root literal free =
      let ws = path_words path in
      let (root', added) = insert_route path (some method) default false root in
      (
        added,
        ap (λ ks. slot ws method (descend ks (map_context method (λ c. f c added)) root'))
              (word_keys-literal ws literal)
            ∙ slot-descend ws method (λ c. f c added) root'
                (record { context = default; uri_parts = map word_part ws })
                (slot-add path method default root literal free),
      )

  upsert-not_empty :
      (default : C) (path : Text) (method : Option Text) (f : C → Bool → C) (root : TrieNode C)
      → is_empty (upsert default path method f root) ≡ false
  unfolding upsert
  upsert-not_empty default path method f root =
      descend-not_empty (map word_key (path_words path)) _ _
        (map-ne-nil word_key (path_words path) (split-ne-nil b'/' path))

module _ {C R : Type 0} ⦃e : Eq Key⦄ where
  -- `upsert` of a path without variables whose slot is free: a request for that path and method gets the
  -- context that the function makes of the default, whatever else the tree has.
  pub get-upsert :
      (default : C) (path method : Text) (f : C → Bool → C) (root : TrieNode C)
      (vars : KeyVal (Variable R))
      → All IsLiteral (path_words path)
      → slot (path_words path) method root ≡ none
      → (b : Bool) × (get method path vars (upsert default path (some method) f root)
          ≡ found (f default b) true vars)
  get-upsert default path method f root vars literal free =
      let ws = path_words path in
      let (b, at) = slot-upsert default path method f root literal free in
      let d : Data C = record { context = f default b; uri_parts = map word_part ws } in
      let root' = upsert default path (some method) f root in
      (
        b,
        get_found method path vars vars root' d (upsert-not_empty default path (some method) f root)
            (traverse-exact method ws root' none none d
              (ap (λ o. or_else o (slot ws any_method root')) at))
            (bind_vars-literal ws ws vars literal),
      )
