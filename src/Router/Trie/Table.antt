-- ===== src/Router/Trie/Table.antt =====
-- http/routers/trie.rs: the table after `add`, `replace` and `remove`.
use ws_platform.Common.{
  Text, Option, none, some, Bool, true, not, ◌&&◌, ◌≡◌, refl, List, map, is_some, get_or, or_else,
  lookup, text_key, lookup-insert, lookup-remove, text_eq, text_eq_iff, arith, if◌then◌else◌,
  Bool-cases, Option-cases, inl, inr,
}
use ws_platform.Router.{method_key}
use ws_platform.Router.Trie.{
  Data, TrieNode, node, words, contexts, new_node, node_at, path_words, word_key, word_part,
  put_context, insert_route, drop_context, remove_route, holds,
}
use ws_platform.Router.Trie.Slots.{words_eq, words_eq-eq, contexts_at, contexts_at-descend}

module _ {C : Type 0} where
  -- What is stored at a place for a method.
  abbrev pub slot : List Text → Text → TrieNode C → Option (Data C)
  slot ks m root = lookup m (contexts_at ks root)

  holds-slot :
      (keys : List Text) (m : Text) (root : TrieNode C)
      → holds m (node_at keys root) ≡ is_some (slot keys m root)
  unfolding lookup
  holds-slot keys m root = elim (Option-cases (node_at keys root)) [
    | inl e ↦ rw e
    | inr (n, e) ↦ rw e
  ]

  pub contexts_at-get_or :
      (keys : List Text) (root : TrieNode C)
      → contexts (get_or (node_at keys root) new_node) ≡ contexts_at keys root
  contexts_at-get_or keys root = elim (Option-cases (node_at keys root)) [
    | inl e ↦ rw e
    | inr (n, e) ↦ rw e
  ]

  words-put_context :
      (m : Text) (d : Data C) (replace : Bool) (n : TrieNode C)
      → words (put_context m d replace n) ≡ words n
  words-put_context m d replace (node ws cs) = ground arith

  lookup-put_context :
      (key m : Text) (d : Data C) (replace : Bool) (n : TrieNode C)
      → lookup m (contexts (put_context key d replace n)) ≡ (
          if text_eq key m
          then (if replace then some d else or_else (lookup key (contexts n)) (some d))
          else lookup m (contexts n))
  lookup-put_context key m d replace (node ws cs) =
      ground (arith, lookup-insert key m d cs, text_eq_iff key m)

  -- The table after `add` or `replace`: one slot is written, unless it is taken and is not to be
  -- replaced; all others are as they were.
  pub slot-insert_route :
      (path : Text) (method : Option Text) (context : C) (replace : Bool) (root : TrieNode C)
      (ks : List Text) (m : Text)
      → let keys = map word_key (path_words path) in
        let d : Data C = record {
          context = context;
          uri_parts = map word_part (path_words path);
        } in
        slot ks m (insert_route path method context replace root).0 ≡ (
          if words_eq keys ks && text_eq (method_key method) m
          then (if replace then some d else or_else (slot keys (method_key method) root) (some d))
          else slot ks m root)
  unfolding insert_route
  slot-insert_route path method context replace root ks m =
      let keys = map word_key (path_words path) in
      let key = method_key method in
      let d : Data C = record { context = context; uri_parts = map word_part (path_words path) } in
      rw
        (contexts_at-descend keys ks (put_context key d replace) root
          (words-put_context key d replace))
        elim (Bool-cases (words_eq keys ks)) [
          | inl here ↦ rw (
            here,
            lookup-put_context key m d replace (get_or (node_at keys root) new_node),
            contexts_at-get_or keys root,
            ← words_eq-eq keys ks here,
          )
          | inr elsewhere ↦ rw elsewhere
        ]

  -- The flag: false only where `replace` overwrites a context that was there.
  pub insert_route-flag :
      (path : Text) (method : Option Text) (context : C) (replace : Bool) (root : TrieNode C)
      → (insert_route path method context replace root).1 ≡ (
          if is_some (slot (map word_key (path_words path)) (method_key method) root)
          then not replace
          else true)
  unfolding insert_route
  insert_route-flag path method context replace root =
      rw (holds-slot (map word_key (path_words path)) (method_key method) root)

  words-drop_context : (m : Text) (n : TrieNode C) → words (drop_context m n) ≡ words n
  words-drop_context m (node ws cs) = refl

  lookup-drop_context :
      (key m : Text) (n : TrieNode C)
      → lookup m (contexts (drop_context key n))
        ≡ (if text_eq key m then none else lookup m (contexts n))
  lookup-drop_context key m (node ws cs) = lookup-remove key m cs

  -- The table after `remove`, which takes the words as they are written: that slot is empty, all
  -- others are as they were, and the flag says whether there was anything.
  pub slot-remove_route :
      (path : Text) (method : Option Text) (root : TrieNode C) (ks : List Text) (m : Text)
      → (slot ks m (remove_route path method root).0 ≡ (
          if words_eq (path_words path) ks && text_eq (method_key method) m
          then none
          else slot ks m root))
        × ((remove_route path method root).1
            ≡ is_some (slot (path_words path) (method_key method) root))
  unfolding remove_route
  slot-remove_route path method root ks m =
      let keys = path_words path in
      let key = method_key method in
      elim (Option-cases (node_at keys root)) [
        | inl e ↦
            rw (e, remove_route)
              elim (Bool-cases (words_eq keys ks)) [
                | inl here ↦ rw (here, ← words_eq-eq keys ks here, e) (ground arith, refl)
                | inr elsewhere ↦ rw elsewhere (refl, refl)
              ]
        | inr (n, e) ↦
            rw
              (
                e,
                remove_route,
                contexts_at-descend keys ks (drop_context key) root (words-drop_context key),
              )
              elim (Bool-cases (words_eq keys ks)) [
                | inl here ↦
                    rw
                      (
                        here,
                        lookup-drop_context key m (get_or (node_at keys root) new_node),
                        contexts_at-get_or keys root,
                        ← words_eq-eq keys ks here,
                      )
                      (refl, refl)
                | inr elsewhere ↦ rw elsewhere (refl, refl)
              ]
      ]
