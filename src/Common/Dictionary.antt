-- ===== src/Common/Dictionary.antt =====
-- `std::collections::HashMap` as an association list. Rust's `Eq` on the keys is an equivalence; an
-- insertion at an equal key keeps the old key. Iteration goes along the list: the program may
-- not rely on the order, which the standard library leaves open.
use mathlib.Core.Path.{◌≡◌, refl, subst}
use mathlib.Core.Bool.{Bool, true, false}
use mathlib.Core.Option.{Option, none, some}
use mathlib.Core.List.{List, [], ◌∷◌}
use native.Mathlib.Omega.{arith}
use ws_platform.Common.Tests.{if◌then◌else◌, Bool-cases}
use ws_platform.Common.Lists.{All}
use mathlib.Core.Logic.{inl, inr}
use ws_platform.Common.Strings.{Text, text_eq, text_eq_iff}

pub record Eq {ℓ} (K : Type ℓ) : Type ℓ where
  pub same : K → K → Bool
  pub same_refl : (a : K) → same a a ≡ true
  pub same_sym : (a b : K) → same a b ≡ same b a
  pub same_trans : (a b c : K) → same a b ≡ true → same b c ≡ true → same a c ≡ true

pub text_eq_refl : (s : Text) → text_eq s s ≡ true
text_eq_refl s = (text_eq_iff s s).1 refl

pub text_eq_sym : (s t : Text) → text_eq s t ≡ text_eq t s
text_eq_sym s t = ground (arith, text_eq_iff s t, text_eq_iff t s)

pub text_eq_trans : (s t u : Text) → text_eq s t ≡ true → text_eq t u ≡ true → text_eq s u ≡ true
text_eq_trans s t u p q = ground (arith, text_eq_iff s t, text_eq_iff t u, text_eq_iff s u)

instance abbrev pub text_key : Eq Text
text_key = record {
  same = text_eq;
  same_refl = text_eq_refl;
  same_sym = text_eq_sym;
  same_trans = text_eq_trans;
}

module _ {ℓ κ} {K : Type ℓ} {V : Type κ} ⦃e : Eq K⦄ where
  unfoldable pub lookup : K → List (K × V) → Option V
  lookup k [] = none
  lookup k ((j, v) ∷ m) = if e.same j k then some v else lookup k m

  unfoldable pub insert : K → V → List (K × V) → List (K × V)
  insert k v [] = (k, v) ∷ []
  insert k v ((j, w) ∷ m) = if e.same j k then (j, v) ∷ m else (j, w) ∷ insert k v m

  unfoldable pub remove : K → List (K × V) → List (K × V)
  remove k [] = []
  remove k ((j, w) ∷ m) = if e.same j k then remove k m else (j, w) ∷ remove k m

  -- Two equal keys find the same entry.
  pub lookup-same : (k j : K) (m : List (K × V)) → e.same k j ≡ true → lookup k m ≡ lookup j m
  unfolding lookup
  lookup-same k j [] h = refl
  lookup-same k j ((i, w) ∷ m) h =
      ground (arith, lookup-same k j m h, e.same_trans i k j, e.same_trans i j k, e.same_sym k j)

  pub lookup-insert :
      (k j : K) (v : V) (m : List (K × V))
      → lookup j (insert k v m) ≡ (if e.same k j then some v else lookup j m)
  unfolding lookup insert
  lookup-insert k j v [] = refl
  lookup-insert k j v ((i, w) ∷ m) = ground (
    arith,
    lookup-insert k j v m,
    e.same_trans i k j,
    e.same_trans i j k,
    e.same_trans k i j,
    e.same_sym k j,
    e.same_sym k i,
  )

  pub lookup-remove :
      (k j : K) (m : List (K × V))
      → lookup j (remove k m) ≡ (if e.same k j then none else lookup j m)
  unfolding lookup remove
  lookup-remove k j [] = ground arith
  lookup-remove k j ((i, w) ∷ m) = ground (
    arith,
    lookup-remove k j m,
    e.same_trans i k j,
    e.same_trans i j k,
    e.same_trans k i j,
    e.same_sym k j,
    e.same_sym k i,
  )

  -- What is found is an entry, under an equal key.
  pub lookup-All {μ} :
      (P : K × V → Type μ) (k : K) (m : List (K × V)) (v : V)
      → All P m
      → lookup k m ≡ some v
      → (j : K) × (e.same j k ≡ true) × P (j, v)
  unfolding lookup
  lookup-All P k [] v h found = cc
  lookup-All P k ((j, w) ∷ m) v (p, h) found = elim (Bool-cases (e.same j k)) [
    | inl hit ↦ let same : w ≡ v = ground arith in (j, hit, subst (λ u. P (j, u)) same p)
    | inr miss ↦ lookup-All P k m v h (ground arith)
  ]

  -- A hash map holds each key once.
  abbrev pub IsFresh : K → List (K × V) → Type 0
  IsFresh k [] = Unit
  IsFresh k ((j, w) ∷ m) = (e.same j k ≡ false) × IsFresh k m

  abbrev pub IsMap : List (K × V) → Type 0
  IsMap [] = Unit
  IsMap ((k, v) ∷ m) = IsFresh k m × IsMap m

  pub lookup-IsFresh : (k : K) (m : List (K × V)) → IsFresh k m → lookup k m ≡ none
  unfolding lookup
  lookup-IsFresh k [] h = refl
  lookup-IsFresh k ((j, w) ∷ m) (p, h) = rw (p, lookup) (lookup-IsFresh k m h)

  insert-IsFresh :
      (k j : K) (v : V) (m : List (K × V))
      → e.same k j ≡ false
      → IsFresh j m
      → IsFresh j (insert k v m)
  unfolding insert
  insert-IsFresh k j v [] p h = (p, tt)
  insert-IsFresh k j v ((i, w) ∷ m) p (q, h) = ground (arith, insert-IsFresh k j v m p h, q)

  pub insert-IsMap : (k : K) (v : V) (m : List (K × V)) → IsMap m → IsMap (insert k v m)
  unfolding insert
  insert-IsMap k v [] h = (tt, tt)
  insert-IsMap k v ((i, w) ∷ m) (f, h) =
      ground (arith, insert-IsMap k v m h, insert-IsFresh k i v m, e.same_sym i k, f)

  remove-IsFresh : (k j : K) (m : List (K × V)) → IsFresh j m → IsFresh j (remove k m)
  unfolding remove
  remove-IsFresh k j [] h = tt
  remove-IsFresh k j ((i, w) ∷ m) (q, h) = ground (arith, remove-IsFresh k j m h, q)

  pub remove-IsMap : (k : K) (m : List (K × V)) → IsMap m → IsMap (remove k m)
  unfolding remove
  remove-IsMap k [] h = tt
  remove-IsMap k ((i, w) ∷ m) (f, h) = ground (arith, remove-IsMap k m h, remove-IsFresh k i m f)
