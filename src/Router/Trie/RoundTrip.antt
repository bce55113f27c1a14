-- ===== src/Router/Trie/RoundTrip.antt =====
-- http/routers/trie.rs: what was added is what `get` returns.
use ws_platform.Common.{
  ℕ, Text, Option, none, some, Bool, true, false, ◌≡◌, refl, ◌≢◌, List, [], ◌∷◌, map, text_key,
  text_eq_refl, arith, All, split, cons_head, Eq,
}
use ws_platform.KeyVal.{Key, KeyVal}
use ws_platform.Variable.{Variable}
use ws_platform.Router.Trie.{
  Data, TrieNode, node, nil, cons, descend, modify, is_empty, word_key, word_part, path_words,
  insert_route, traverse, bind_vars, get, answer, found, add,
}
use ws_platform.Router.Trie.Slots.{words_eq_refl}
use ws_platform.Router.Trie.Table.{slot, slot-insert_route}
use ws_platform.Router.Trie.Search.{traverse-exact}
use ws_platform.Router.Trie.Invariant.{IsLiteral}

cons_head-ne-nil : (c : ℕ) (ws : List Text) → cons_head c ws ≢ []
cons_head-ne-nil c [] e = cc
cons_head-ne-nil c (w ∷ ws) e = cc

pub map-ne-nil : (f : Text → Text) (ws : List Text) → ws ≢ [] → map f ws ≢ []
map-ne-nil f [] h = λ e. h refl
map-ne-nil f (w ∷ ws) h = λ e. cc

pub split-ne-nil : (sep : ℕ) (s : Text) → split sep s ≢ []
split-ne-nil sep [] e = cc
split-ne-nil sep (c ∷ s) e = ground (arith, cons_head-ne-nil c (split sep s))

pub word_keys-literal : (ws : List Text) → All IsLiteral ws → map word_key ws ≡ ws
word_keys-literal [] h = refl
word_keys-literal (w ∷ ws) (p, h) = rw (p, word_keys-literal ws h)

pub bind_vars-literal :
    {R : Type 0} ⦃e : Eq Key⦄ (ws ps : List Text) (vars : KeyVal (Variable R))
    → All IsLiteral ws
    → bind_vars (map word_part ws) ps vars ≡ some vars
unfolding bind_vars
bind_vars-literal [] ps vars h = refl
bind_vars-literal (w ∷ ws) [] vars (p, h) = rw p (bind_vars-literal ws [] vars h)
bind_vars-literal (w ∷ ws) (q ∷ ps) vars (p, h) = rw p (bind_vars-literal ws ps vars h)

module _ {C : Type 0} where
  pub descend-not_empty :
      (ks : List Text) (f : TrieNode C → TrieNode C) (root : TrieNode C)
      → ks ≢ []
      → is_empty (descend ks f root) ≡ false
  unfolding descend modify
  descend-not_empty [] f root h = absurd (h refl)
  descend-not_empty (k ∷ ks) f (node nil cs) h = refl
  descend-not_empty (k ∷ ks) f (node (cons j n ws) cs) h = ground arith

  pub slot-add :
      (path method : Text) (context : C) (root : TrieNode C)
      → All IsLiteral (path_words path)
      → slot (path_words path) method root ≡ none
      → slot (path_words path) method (insert_route path (some method) context false root).0
        ≡ some (record { context = context; uri_parts = map word_part (path_words path) })
  slot-add path method context root literal free =
      let ws = path_words path in
      rw (
        slot-insert_route path (some method) context false root ws method,
        word_keys-literal ws literal,
        words_eq_refl ws,
        text_eq_refl method,
        free,
      )

  insert_route-not_empty :
      (path : Text) (method : Option Text) (context : C) (replace : Bool) (root : TrieNode C)
      → is_empty (insert_route path method context replace root).0 ≡ false
  unfolding insert_route
  insert_route-not_empty path method context replace root =
      descend-not_empty (map word_key (path_words path)) _ root
        (map-ne-nil word_key (path_words path) (split-ne-nil b'/' path))

module _ {C R : Type 0} ⦃e : Eq Key⦄ where
  pub get_found :
      (method uri : Text) (vars vars' : KeyVal (Variable R)) (root : TrieNode C) (d : Data C)
      → is_empty root ≡ false
      → (traverse method (path_words uri) root none none).0 ≡ some (d, true)
      → bind_vars d.uri_parts (path_words uri) vars ≡ some vars'
      → get method uri vars root ≡ found d.context true vars'
  unfolding get
  get_found method uri vars vars' root d p q r = rw (p, get, q, r, answer)

  -- A route without variables that was not there before: after `add`, a request for that very path and
  -- method gets its context, whatever other routes with `*` the tree has; the match is exact and
  -- the variables of the request stay as they are.
  pub get-add :
      (path method : Text) (context : C) (root : TrieNode C) (vars : KeyVal (Variable R))
      → All IsLiteral (path_words path)
      → slot (path_words path) method root ≡ none
      → get method path vars (add path (some method) context root).0 ≡ found context true vars
  unfolding add
  get-add path method context root vars literal free =
      let ws = path_words path in
      let d : Data C = record { context = context; uri_parts = map word_part ws } in
      let root' = (insert_route path (some method) context false root).0 in
      get_found method path vars vars root' d
        (insert_route-not_empty path (some method) context false root)
        (traverse-exact method ws root' none none d
          (rw (slot-add path method context root literal free)))
        (bind_vars-literal ws ws vars literal)
