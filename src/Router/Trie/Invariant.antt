-- ===== src/Router/Trie/Invariant.antt =====
-- http/routers/trie.rs: the invariant of the tree, and its use for `get` and `remove`.
use ws_platform.Common.{
  ◌≤◌, Text, Option, none, some, Bool, true, false, ◌≡◌, refl, sym, ap, ◌∙◌, ◌≢◌, List, [], ◌∷◌,
  map, length, is_some, lookup, text_key, text_eq_iff, arith, Option-cases, Bool-cases, inl, inr,
  ◌⊎◌, All, length-map,
}
use ws_platform.KeyVal.{Key, KeyVal}
use ws_platform.Common.{Eq}
use ws_platform.Variable.{Variable}
use ws_platform.Router.{any_method, method_key}
use ws_platform.Router.Trie.{
  Data, TrieNode, new_node, is_empty, is_literal, word_key, word_part, path_words, insert_route,
  remove_route, traverse, bind_vars, get, answer, Found, missing, panics, found,
}
use ws_platform.Router.Trie.Slots.{words_eq-eq, contexts_at-new}
use ws_platform.Router.Trie.Table.{slot, slot-insert_route, slot-remove_route}
use ws_platform.Router.Trie.Search.{Fits, traverse-Serves}

abbrev pub IsLiteral : Text → Type 0
IsLiteral word = is_literal word ≡ true

-- Words are stored without braces, and a context knows the variable, if any, of each word above it.
pub record IsTree {C : Type 0} (root : TrieNode C) : Type 0 where
  pub literal :
      (ks : List Text) (m : Text) (d : Data C) → slot ks m root ≡ some d → All IsLiteral ks
  pub aligned :
      (ks : List Text) (m : Text) (d : Data C)
      → slot ks m root ≡ some d
      → length d.uri_parts ≡ length ks

pub word_key-IsLiteral : (w : Text) → IsLiteral (word_key w)
word_key-IsLiteral w = elim (Bool-cases (is_literal w)) [ inl e ↦ rw e e | inr e ↦ rw e refl ]

word_keys-IsLiteral : (ws : List Text) → All IsLiteral (map word_key ws)
word_keys-IsLiteral [] = tt
word_keys-IsLiteral (w ∷ ws) = (word_key-IsLiteral w, word_keys-IsLiteral ws)

abbrev new_data : {C : Type 0} → Text → C → Data C
new_data path context = record { context = context; uri_parts = map word_part (path_words path) }

module _ {C : Type 0} where
  -- What is stored after an insertion is the new context or was stored before.
  insert_route_origin :
      (path : Text) (method : Option Text) (context : C) (replace : Bool) (root : TrieNode C)
      (ks : List Text) (m : Text) (d : Data C)
      → slot ks m (insert_route path method context replace root).0 ≡ some d
      → ((ks ≡ map word_key (path_words path)) × (d ≡ new_data path context))
        ⊎ (slot ks m root ≡ some d)
  insert_route_origin path method context replace root ks m d e =
      let keys = map word_key (path_words path) in
      ground (
        arith,
        slot-insert_route path method context replace root ks m,
        words_eq-eq keys ks,
        text_eq_iff (method_key method) m,
      )

  -- `add` and `replace` keep the tree well formed: words are stored without braces, and each context
  -- knows one part for each word above it.
  pub insert_route-IsTree :
      (path : Text) (method : Option Text) (context : C) (replace : Bool) (root : TrieNode C)
      → IsTree root
      → IsTree (insert_route path method context replace root).0
  insert_route-IsTree path method context replace root t = record {
    literal = λ ks m d e. elim (insert_route_origin path method context replace root ks m d e) [
      | inl (same, _) ↦ rw same (word_keys-IsLiteral (path_words path))
      | inr old ↦ t.literal ks m d old
    ];
    aligned = λ ks m d e. elim (insert_route_origin path method context replace root ks m d e) [
      | inl (same, new) ↦
          rw (same, new)
            (length-map (path_words path) word_part ∙ sym (length-map (path_words path) word_key))
      | inr old ↦ t.aligned ks m d old
    ];
  }

  remove_route_origin :
      (path : Text) (method : Option Text) (root : TrieNode C) (ks : List Text) (m : Text)
      (d : Data C)
      → slot ks m (remove_route path method root).0 ≡ some d
      → slot ks m root ≡ some d
  remove_route_origin path method root ks m d e =
      let (after, _) = slot-remove_route path method root ks m in ground (arith, after, e)

  -- `remove` keeps the tree well formed too.
  pub remove_route-IsTree :
      (path : Text) (method : Option Text) (root : TrieNode C)
      → IsTree root
      → IsTree (remove_route path method root).0
  remove_route-IsTree path method root t = record {
    literal = λ ks m d e. t.literal ks m d (remove_route_origin path method root ks m d e);
    aligned = λ ks m d e. t.aligned ks m d (remove_route_origin path method root ks m d e);
  }

  -- `add`, `replace` and `remove` keep the tree well formed: words are stored without braces, and each
  -- context knows one part for each word above it.
  pub insert-remove-IsTree :
      (path : Text) (method : Option Text) (context : C) (replace : Bool) (root : TrieNode C)
      → IsTree root
      → IsTree (insert_route path method context replace root).0
        × IsTree (remove_route path method root).0
  insert-remove-IsTree path method context replace root t = (
    insert_route-IsTree path method context replace root t,
    remove_route-IsTree path method root t,
  )

  slot-new : (ks : List Text) (m : Text) (d : Data C) → slot ks m (new_node {C = C}) ≢ some d
  unfolding lookup
  slot-new ks m d = rw (contexts_at-new {C = C} ks) (λ e. cc)

  pub new_node-IsTree : IsTree (new_node {C = C})
  new_node-IsTree = record {
    literal = λ ks m d e. absurd (slot-new ks m d e);
    aligned = λ ks m d e. absurd (slot-new ks m d e);
  }

  -- On a well formed tree, `remove` of a path with a variable returns false and changes no slot: it looks
  -- for the word in braces, which `insert` does not store.
  pub remove_route-variable :
      (path : Text) (method : Option Text) (root : TrieNode C)
      → IsTree root
      → ¬ All IsLiteral (path_words path)
      → ((remove_route path method root).1 ≡ false)
        × ((ks : List Text) (m : Text)
            → slot ks m (remove_route path method root).0 ≡ slot ks m root)
  remove_route-variable path method root t v =
      let keys = path_words path in
      let gone : slot keys (method_key method) root ≡ none =
        elim (Option-cases (slot keys (method_key method) root)) [
          | inl e ↦ e
          | inr (d, e) ↦ absurd (v (t.literal keys (method_key method) d e))
        ] in
      (
        (slot-remove_route path method root [] []).1 ∙ ap is_some gone,
        λ ks m. ground (
          arith,
          (slot-remove_route path method root ks m).0,
          gone,
          words_eq-eq keys ks,
          text_eq_iff (method_key method) m,
        ),
      )

-- The loop over the variables stays within the parts of the path.
bind_vars_total :
    {R : Type 0} ⦃e : Eq Key⦄ (us : List (Option Text)) (ps : List Text)
    (vars : KeyVal (Variable R))
    → length us ≤ length ps
    → (vars' : KeyVal (Variable R)) × (bind_vars us ps vars ≡ some vars')
unfolding bind_vars
bind_vars_total [] ps vars h = (vars, refl)
bind_vars_total (none ∷ us) [] vars h = absurd (omega arith)
bind_vars_total (some v ∷ us) [] vars h = absurd (omega arith)
bind_vars_total (none ∷ us) (p ∷ ps) vars h = bind_vars_total us ps vars (omega arith)
bind_vars_total (some v ∷ us) (p ∷ ps) vars h = bind_vars_total us ps _ (omega arith)

length-Fits : (whole : Bool) (ks ps : List Text) → Fits whole ks ps → length ks ≤ length ps
length-Fits whole [] [] f = omega arith
length-Fits whole [] (p ∷ ps) f = omega arith
length-Fits whole (k ∷ ks) [] f = absurd f
length-Fits whole (k ∷ ks) (p ∷ ps) f = omega (arith, length-Fits whole ks ps f.1)

module _ {C R : Type 0} ⦃e : Eq Key⦄ where
  -- The outcomes of `get` that are a match.
  abbrev pub Answers : Text → List Text → TrieNode C → Found C R → Type 0
  Answers method parts root missing = Unit
  Answers method parts root panics = ⊥
  Answers method parts root (found c whole vars) =
      (ks : List Text) × (m : Text) × (d : Data C) × Fits whole ks parts
      × ((m ≡ method) ⊎ (m ≡ any_method))
      × (slot ks m root ≡ some d)
      × (d.context ≡ c)

  answer-Answers :
      (method : Text) (parts : List Text) (root : TrieNode C) (vars : KeyVal (Variable R))
      (r : Option (Data C × Bool))
      → IsTree root
      → (traverse method parts root none none).0 ≡ r
      → Answers method parts root (answer parts vars r)
  answer-Answers method parts root vars none t same = tt
  answer-Answers method parts root vars (some (d, whole)) t same =
      let (ks, m, fits, serves, stored) = traverse-Serves method parts root d whole same in
      let (vars', bound) =
        bind_vars_total d.uri_parts parts vars
          (omega (arith, t.aligned ks m d stored, length-Fits whole ks parts fits)) in
      rw (bound, answer) (ks, m, d, fits, serves, stored, refl)

  -- On every well formed tree, `get` does not panic, and a context that it returns is stored
  -- under words that fit the path (the whole path if the flag is set, else its beginning), for the
  -- method of the request or for any method.
  pub get-Answers :
      (method uri : Text) (vars : KeyVal (Variable R)) (root : TrieNode C)
      → IsTree root
      → Answers method (path_words uri) root (get method uri vars root)
  unfolding get
  get-Answers method uri vars root t = elim (Bool-cases (is_empty root)) [
    | inl e ↦ rw (e, get) tt
    | inr e ↦ rw (e, get) (answer-Answers method (path_words uri) root vars _ t refl)
  ]
