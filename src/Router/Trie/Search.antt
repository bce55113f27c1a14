-- ===== src/Router/Trie/Search.antt =====
-- http/routers/trie.rs, `get`: which slot serves a path.
use ws_platform.Common.{
  Text, codes, Option, none, some, Bool, true, false, ◌≡◌, refl, ◌∙◌, List, [], ◌∷◌, or_else,
  lookup, text_key, arith, Option-cases, inl, inr, ◌⊎◌,
}
use ws_platform.Router.{pick, any_method}
use ws_platform.Router.Trie.{
  Data, TrieNode, node, words, contexts, find_word, node_at, traverse, marked, or_star,
}
use ws_platform.Router.Trie.Table.{slot}

-- How the words of a place fit the parts of a path: word by word, or `*` at any part. A place that is
-- not whole may stop early.
abbrev pub Fits : Bool → List Text → List Text → Type 0
Fits whole [] [] = Unit
Fits whole [] (p ∷ ps) = whole ≡ false
Fits whole (k ∷ ks) [] = ⊥
Fits whole (k ∷ ks) (p ∷ ps) = ((k ≡ p) ⊎ (k ≡ codes "*")) × Fits whole ks ps

abbrev pub Serves : Text → Text → Type 0
Serves m method = (m ≡ method) ⊎ (m ≡ any_method)

module _ {C : Type 0} where
  traverse_literal :
      (method p : Text) (ps : List Text) (n l : TrieNode C) (d star : Option (Data C))
      → find_word p (words n) ≡ some l
      → (r : Data C × Bool) → (traverse method ps l none (or_else d star)).0 ≡ some r
      → (traverse method (p ∷ ps) n d star).0 ≡ some r
  unfolding traverse
  traverse_literal method p ps n l d star e r h = rw (e, traverse, h)

  slot-child :
      (p : Text) (ps : List Text) (m : Text) (n l : TrieNode C)
      → find_word p (words n) ≡ some l
      → slot (p ∷ ps) m n ≡ slot ps m l
  unfolding node_at
  slot-child p ps m (node ws cs) l e = rw (e, node_at)

  slot-nil : (m : Text) (n : TrieNode C) → slot [] m n ≡ lookup m (contexts n)
  unfolding node_at
  slot-nil m n = refl

  slot-no_child :
      (p : Text) (ps : List Text) (m : Text) (n : TrieNode C)
      → find_word p (words n) ≡ none
      → slot (p ∷ ps) m n ≡ none
  unfolding node_at lookup
  slot-no_child p ps m (node ws cs) e = rw (e, node_at)

  traverse-nil :
      (method : Text) (n : TrieNode C) (d star : Option (Data C))
      → traverse method [] n d star ≡ (marked true (pick method (contexts n)), or_else d star)
  unfolding traverse
  traverse-nil method n d star = refl

  -- A slot stored under the very words of the path wins over every `*`, and the match is whole: the
  -- context of the method if there is one, else that of any method.
  pub traverse-exact :
      (method : Text) (parts : List Text) (n : TrieNode C) (d star : Option (Data C)) (x : Data C)
      → or_else (slot parts method n) (slot parts any_method n) ≡ some x
      → (traverse method parts n d star).0 ≡ some (x, true)
  traverse-exact method [] n d star x h =
      rw (traverse-nil method n d star, ← slot-nil method n, ← slot-nil any_method n, h)
  traverse-exact method (p ∷ ps) n d star x h = elim (Option-cases (find_word p (words n))) [
    | inl e ↦ cc (slot-no_child p ps method n e, slot-no_child p ps any_method n e)
    | inr (l, e) ↦
        traverse_literal method p ps n l d star e (x, true)
          (traverse-exact method ps l none (or_else d star) x
            (rw (← slot-child p ps method n l e, ← slot-child p ps any_method n l e) h))
  ]

  -- What may be said of a result, and of the context that is kept for a fallback.
  abbrev pub Kept : (Data C → Bool → Type 0) → Option (Data C) → Type 0
  Kept Good none = Unit
  Kept Good (some d) = Good d false

  abbrev pub Ends : (Data C → Bool → Type 0) → Option (Data C × Bool) → Type 0
  Ends Good none = Unit
  Ends Good (some (d, whole)) = Good d whole

  -- Everything that serves some of the parts from the node on is good.
  abbrev pub Sound : (Data C → Bool → Type 0) → Text → List Text → TrieNode C → Type 0
  Sound Good method parts n =
      (ks : List Text) (m : Text) (d : Data C) (whole : Bool)
      → Fits whole ks parts
      → Serves m method
      → slot ks m n ≡ some d
      → Good d whole

  Kept-or_else :
      (Good : Data C → Bool → Type 0) (d star : Option (Data C))
      → Kept Good d
      → Kept Good star
      → Kept Good (or_else d star)
  Kept-or_else Good none star h k = k
  Kept-or_else Good (some d) star h k = h

  or_star-Ends :
      (Good : Data C → Bool → Type 0) (r : Option (Data C × Bool)) (star : Option (Data C))
      → Ends Good r × Kept Good star
      → Ends Good (or_star (r, star)).0 × Kept Good (or_star (r, star)).1
  or_star-Ends Good none none h = h
  or_star-Ends Good none (some d) h = (h.1, h.1)
  or_star-Ends Good (some r) star h = h

  pick-Sound :
      (Good : Data C → Bool → Type 0) (method : Text) (parts : List Text) (n : TrieNode C)
      (whole : Bool)
      → Sound Good method parts n
      → Fits whole [] parts
      → Ends Good (marked whole (pick method (contexts n)))
  pick-Sound Good method parts n whole sound fits =
      elim (Option-cases (lookup method (contexts n))) [
        | inl e ↦ elim (Option-cases (lookup any_method (contexts n))) [
          | inl f ↦ rw (e, f) tt
          | inr (d, f) ↦
              rw (e, f) (sound [] any_method d whole fits (inr refl) (slot-nil any_method n ∙ f))
        ]
        | inr (d, e) ↦ rw e (sound [] method d whole fits (inl refl) (slot-nil method n ∙ e))
      ]

  Kept-marked :
      (Good : Data C → Bool → Type 0) (o : Option (Data C))
      → Ends Good (marked false o)
      → Kept Good o
  Kept-marked Good none h = tt
  Kept-marked Good (some d) h = h

  Sound-child :
      (Good : Data C → Bool → Type 0) (method k p : Text) (ps : List Text) (n l : TrieNode C)
      → Sound Good method (p ∷ ps) n
      → ((k ≡ p) ⊎ (k ≡ codes "*"))
      → find_word k (words n) ≡ some l
      → Sound Good method ps l
  Sound-child Good method k p ps n l sound hit e ks m d whole fits serves stored =
      sound (k ∷ ks) m d whole (hit, fits) serves (slot-child k ks m n l e ∙ stored)

  traverse_leaf :
      (method p : Text) (ps : List Text) (n : TrieNode C) (d star : Option (Data C))
      → find_word p (words n) ≡ none
      → find_word (codes "*") (words n) ≡ none
      → traverse method (p ∷ ps) n d star
        ≡ (marked false (pick method (contexts n)), or_else d star)
  unfolding traverse
  traverse_leaf method p ps n d star e f = rw (e, f, traverse)

  traverse_any :
      (method p : Text) (ps : List Text) (n a : TrieNode C) (d star : Option (Data C))
      → find_word p (words n) ≡ none
      → find_word (codes "*") (words n) ≡ some a
      → traverse method (p ∷ ps) n d star
        ≡ or_star (traverse method ps a (pick method (contexts n)) (or_else d star))
  unfolding traverse
  traverse_any method p ps n a d star e f = rw (e, f, traverse)

  -- What follows the search below the word itself.
  abbrev then_any :
      Text
      → List Text
      → TrieNode C
      → Option (TrieNode C)
      → Option (Data C × Bool) × Option (Data C)
      → Option (Data C × Bool) × Option (Data C)
  then_any method ps n la (some found, star) = (some found, star)
  then_any method ps n none (none, star) = or_star (none, star)
  then_any method ps n (some a) (none, star) =
      or_star (traverse method ps a (pick method (contexts n)) star)

  traverse_both :
      (method p : Text) (ps : List Text) (n l : TrieNode C) (d star : Option (Data C))
      → find_word p (words n) ≡ some l
      → traverse method (p ∷ ps) n d star
        ≡ then_any method ps n
            (find_word (codes "*") (words n))
            (traverse method ps l none (or_else d star))
  unfolding traverse
  traverse_both method p ps n l d star e = rw (e, traverse) (ground arith)

  then_any-Ends :
      (Good : Data C → Bool → Type 0) (method : Text) (ps : List Text) (n : TrieNode C)
      (la : Option (TrieNode C)) (r : Option (Data C × Bool)) (star : Option (Data C))
      → ((a : TrieNode C) (s : Option (Data C))
          → la ≡ some a
          → Kept Good s
          → let (q, t) = traverse method ps a (pick method (contexts n)) s in
            Ends Good q × Kept Good t)
      → Ends Good r × Kept Good star
      → let (q, t) = then_any method ps n la (r, star) in Ends Good q × Kept Good t
  then_any-Ends Good method ps n la (some found) star rec h = h
  then_any-Ends Good method ps n none none star rec h = or_star-Ends Good none star h
  then_any-Ends Good method ps n (some a) none star rec h =
      or_star-Ends Good _ _ (rec a star refl h.1)

  traverse-Ends :
      (Good : Data C → Bool → Type 0) (method : Text) (parts : List Text) (n : TrieNode C)
      (d star : Option (Data C))
      → Sound Good method parts n
      → Kept Good d
      → Kept Good star
      → let (r, s) = traverse method parts n d star in Ends Good r × Kept Good s
  traverse-Ends Good method [] n d star sound h k =
      rw (traverse-nil method n d star)
        (pick-Sound Good method [] n true sound tt, Kept-or_else Good d star h k)
  traverse-Ends Good method (p ∷ ps) n d star sound h k =
      let star' = Kept-or_else Good d star h k in
      let here =
        Kept-marked Good (pick method (contexts n))
          (pick-Sound Good method (p ∷ ps) n false sound refl) in
      elim (Option-cases (find_word p (words n))) [
        | inl e ↦ elim (Option-cases (find_word (codes "*") (words n))) [
          | inl f ↦
              rw (traverse_leaf method p ps n d star e f)
                (pick-Sound Good method (p ∷ ps) n false sound refl, star')
          | inr (a, f) ↦ rw (traverse_any method p ps n a d star e f) (
              or_star-Ends Good _ _ (
                traverse-Ends Good method ps a (pick method (contexts n)) (or_else d star)
                  (Sound-child Good method (codes "*") p ps n a sound (inr refl) f) here star'))
        ]
        | inr (l, e) ↦ rw (traverse_both method p ps n l d star e) (
            then_any-Ends Good method ps n (find_word (codes "*") (words n))
              (traverse method ps l none (or_else d star)).0
              (traverse method ps l none (or_else d star)).1
              (λ a s f below.
                traverse-Ends Good method ps a (pick method (contexts n)) s
                  (Sound-child Good method (codes "*") p ps n a sound (inr refl) f) here below)
              (traverse-Ends Good method ps l none (or_else d star)
                (Sound-child Good method p p ps n l sound (inl refl) e) tt star'))
      ]

  -- Whatever `traverse` finds from the root is stored at a place that fits the path, for the method of
  -- the request or for any method; the place fits the whole path if the flag says so.
  pub traverse-Serves :
      (method : Text) (parts : List Text) (root : TrieNode C) (d : Data C) (whole : Bool)
      → (traverse method parts root none none).0 ≡ some (d, whole)
      → (ks : List Text) × (m : Text) × Fits whole ks parts
        × Serves m method
        × (slot ks m root ≡ some d)
  traverse-Serves method parts root d whole e =
      let (found, kept) =
        traverse-Ends
          (λ x w.
            (ks : List Text) × (m : Text) × Fits w ks parts
            × Serves m method
            × (slot ks m root ≡ some x))
          method parts root none none (λ ks m x w fits serves stored. (ks, m, fits, serves, stored))
          tt tt in
      rw e at found
