-- ===== src/Router/Trie/Slots.antt =====
-- http/routers/trie.rs: the tree as a table from places, which are lists of words with a method, to
-- contexts; what insert and remove do to it.
use ws_platform.Common.{
  Text, Option, none, some, Bool, true, false, ◌&&◌, ◌≡◌, refl, sym, ap, ◌∙◌, List, [], ◌∷◌, get_or,
  text_key, text_eq, text_eq_iff, text_eq_refl, arith, if◌then◌else◌, Bool-cases, Option-cases, inl,
  inr,
}
use ws_platform.Router.Trie.{
  Data, TrieNode, node, Words, nil, cons, words, contexts, new_node, find_word, modify, descend,
  node_at,
}

abbrev pub words_eq : List Text → List Text → Bool
words_eq [] [] = true
words_eq [] (j ∷ js) = false
words_eq (k ∷ ks) [] = false
words_eq (k ∷ ks) (j ∷ js) = text_eq k j && words_eq ks js

pub words_eq_refl : (ks : List Text) → words_eq ks ks ≡ true
words_eq_refl [] = refl
words_eq_refl (k ∷ ks) = rw (text_eq_refl k, words_eq_refl ks)

pub words_eq-eq : (ks js : List Text) → words_eq ks js ≡ true → ks ≡ js
words_eq-eq [] [] h = refl
words_eq-eq [] (j ∷ js) h = cc
words_eq-eq (k ∷ ks) [] h = cc
words_eq-eq (k ∷ ks) (j ∷ js) h = ground (arith, text_eq_iff k j, words_eq-eq ks js)

module _ {C : Type 0} where
  -- The contexts at a place; a place that the tree does not have holds none.
  abbrev pub contexts_of : Option (TrieNode C) → List (Text × Data C)
  contexts_of none = []
  contexts_of (some n) = contexts n

  abbrev pub contexts_at : List Text → TrieNode C → List (Text × Data C)
  contexts_at ks root = contexts_of (node_at ks root)

  pub find_word-modify :
      (k j : Text) (f : TrieNode C → TrieNode C) (ws : Words C)
      → find_word j (modify k f ws)
        ≡ (if text_eq k j then some (f (get_or (find_word k ws) new_node)) else find_word j ws)
  unfolding find_word modify
  find_word-modify k j f nil = refl
  find_word-modify k j f (cons i n ws) =
      ground (arith, find_word-modify k j f ws, text_eq_iff k j, text_eq_iff i k, text_eq_iff i j)

  -- The contexts below a map of words.
  abbrev below : Text → List Text → Words C → List (Text × Data C)
  below k ks ws = contexts_of (elim (find_word k ws) [ none ↦ none | some n ↦ node_at ks n ])

  contexts_at-words :
      (k : Text) (ks : List Text) (n : TrieNode C) → contexts_at (k ∷ ks) n ≡ below k ks (words n)
  unfolding node_at
  contexts_at-words k ks (node ws cs) = refl

  -- A node that was just made has nothing below it.
  node_at-new : (ks : List Text) → get_or (node_at ks (new_node {C = C})) new_node ≡ new_node
  unfolding node_at find_word
  node_at-new [] = refl
  node_at-new (k ∷ ks) = refl

  pub contexts_at-new : (ks : List Text) → contexts_at ks (new_node {C = C}) ≡ []
  unfolding node_at find_word
  contexts_at-new [] = refl
  contexts_at-new (k ∷ ks) = refl

  contexts_at-child :
      (k : Text) (ks : List Text) (ws : Words C)
      → contexts_at ks (get_or (find_word k ws) new_node) ≡ below k ks ws
  contexts_at-child k ks ws = elim (Option-cases (find_word k ws)) [
    | inl e ↦ rw e (contexts_at-new ks)
    | inr (n, e) ↦ rw e
  ]

  node_at-child :
      (k : Text) (keys : List Text) (ws : Words C) (cs : List (Text × Data C))
      → get_or (node_at keys (get_or (find_word k ws) new_node)) new_node
        ≡ get_or (node_at (k ∷ keys) (node ws cs)) new_node
  unfolding node_at
  node_at-child k keys ws cs = elim (Option-cases (find_word k ws)) [
    | inl e ↦ rw (e, node_at) (node_at-new keys)
    | inr (n, e) ↦ rw (e, node_at)
  ]

  -- What is done at one place changes the contexts of that place only, if it leaves the words alone.
  pub contexts_at-descend :
      (keys ks : List Text) (f : TrieNode C → TrieNode C) (root : TrieNode C)
      → ((n : TrieNode C) → words (f n) ≡ words n)
      → contexts_at ks (descend keys f root) ≡ (
          if words_eq keys ks
          then contexts (f (get_or (node_at keys root) new_node))
          else contexts_at ks root)
  unfolding descend
  contexts_at-descend [] [] f root keep = unfold node_at in refl
  contexts_at-descend [] (k ∷ ks) f root keep =
      contexts_at-words k ks (f root)
      ∙ ap (below k ks) (keep root)
      ∙ sym (contexts_at-words k ks root)
  contexts_at-descend (k ∷ keys) [] f (node ws cs) keep = unfold node_at in refl
  contexts_at-descend (k ∷ keys) (j ∷ ks) f (node ws cs) keep =
      rw
        (
          contexts_at-words j ks (node (modify k (descend keys f) ws) cs),
          contexts_at-words j ks (node ws cs),
          find_word-modify k j (descend keys f) ws,
        )
        elim (Bool-cases (text_eq k j)) [
          | inl hit ↦ rw (
            hit,
            ← (text_eq_iff k j).0 hit,
            contexts_at-descend keys ks f (get_or (find_word k ws) new_node) keep,
            node_at-child k keys ws cs,
            contexts_at-child k ks ws,
          )
          | inr miss ↦ rw miss
        ]
