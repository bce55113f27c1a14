-- ===== src/Http/Expand.antt =====
-- http/mod.rs: `HttpRequest::expand`, which gives a template the headers, arguments and variables of a
-- request. A variable may stand for another template: the depth of the calls is bounded here, and no
-- result is a stack that overflows. `self` is the request, as the handlers of lazy variables see it.
use ws_platform.Common.{
  ℕ, zero, suc, ◌≤◌, ◌<◌, ◌≡◌, refl, Text, codes, Option, none, some, List, [], ◌∷◌, ◌++◌, Eq,
  strip_prefix, get_or, arith, inl, inr, Option-cases,
}
use mathlib.Core.Option
use ws_platform.KeyVal.{Key, KeyVal, exact}
use ws_platform.Variable.{Variable, Part, text, var, simple, cv, lazy}

pub record Scope (R : Type 0) : Type 0 where
  pub headers : KeyVal Text
  pub args : KeyVal Text
  pub vars : KeyVal (Variable R)
  pub self : R

abbrev pub before : Text → Option Text → Option Text
before t none = none
before t (some u) = some (t ++ u)

abbrev pub value_before : Option (Option Text) → Option Text → Option Text
value_before none rest = none
value_before (some v) rest = before (get_or v []) rest

-- `expand_with`, for a closure that may not return.
abbrev pub expand_in : (Text → Option (Option Text)) → List Part → Option Text
expand_in f [] = some []
expand_in f (text t ∷ ps) = before t (expand_in f ps)
expand_in f (var v ∷ ps) = value_before (f v) (expand_in f ps)

-- The variables in a template have a rank below this number.
abbrev pub PartsBelow : (Text → ℕ) → ℕ → List Part → Type 0
PartsBelow rank n [] = Unit
PartsBelow rank n (text t ∷ ps) = PartsBelow rank n ps
PartsBelow rank n (var v ∷ ps) = (rank v < n) × PartsBelow rank n ps

PartsBelow-mono :
    (rank : Text → ℕ) (n m : ℕ) (ps : List Part)
    → n ≤ m
    → PartsBelow rank n ps
    → PartsBelow rank m ps
PartsBelow-mono rank n m [] h b = tt
PartsBelow-mono rank n m (text t ∷ ps) h b = PartsBelow-mono rank n m ps h b
PartsBelow-mono rank n m (var v ∷ ps) h (x, b) = (omega (arith, x), PartsBelow-mono rank n m ps h b)

abbrev Returns : {A : Type 0} → Option A → Type 0
Returns {A = A} o = (a : A) × (o ≡ some a)

before-Returns : (t : Text) (o : Option Text) → Returns o → Returns (before t o)
before-Returns t o (u, h) = rw h (t ++ u, refl)

value_before-Returns :
    (f : Option (Option Text)) (o : Option Text)
    → Returns f
    → Returns o
    → Returns (value_before f o)
value_before-Returns f o (v, k) (u, h) = rw (k, h) (get_or v [] ++ u, refl)

module _ {R : Type 0} ⦃e : Eq Key⦄ where
  -- `self.inner.vars.exact(var)`, and its expansion.
  abbrev pub expand_found : (Variable R → Option Text) → Option (Variable R) → Option (Option Text)
  expand_found expand none = some none
  expand_found expand (some v) = Option.map some (expand v)

  -- The closure that is given to `expand_with`.
  abbrev pub value_of : Scope R → (Variable R → Option Text) → Text → Option (Option Text)
  value_of s expand name = elim (strip_prefix (codes "http_") name) [
    | some header ↦ some (exact header s.headers)
    | none ↦ elim (strip_prefix (codes "arg_") name) [
      | some arg ↦ some (exact arg s.args)
      | none ↦ expand_found expand (exact name s.vars)
    ]
  ]

  unfoldable pub expand : ℕ → Scope R → Variable R → Option Text
  unfolding exact
  expand zero s v = none
  expand (suc depth) s v =
      let nested = expand depth s in
      elim v [
        | simple t ↦ some t
        | lazy h ↦ some (h s.self)
        | cv parts ↦ expand_in (value_of s nested) parts
      ]

  abbrev pub Below : (Text → ℕ) → ℕ → Variable R → Type 0
  Below rank n (simple t) = Unit
  Below rank n (lazy h) = Unit
  Below rank n (cv parts) = PartsBelow rank n parts

  -- Every variable is made of variables of a lower rank.
  abbrev pub IsRanked : (Text → ℕ) → Scope R → Type 0
  IsRanked rank s =
      (name : Text) (v : Variable R) → exact name s.vars ≡ some v → Below rank (rank name) v

  Below-mono :
      (rank : Text → ℕ) (n m : ℕ) (v : Variable R) → n ≤ m → Below rank n v → Below rank m v
  Below-mono rank n m (simple t) h b = tt
  Below-mono rank n m (lazy f) h b = tt
  Below-mono rank n m (cv ps) h b = PartsBelow-mono rank n m ps h b

  value_of-Returns :
      (s : Scope R) (nested : Variable R → Option Text) (name : Text)
      → ((v : Variable R) → exact name s.vars ≡ some v → Returns (nested v))
      → Returns (value_of s nested name)
  value_of-Returns s nested name h = elim (Option-cases (strip_prefix (codes "http_") name)) [
    | inr (header, e) ↦ rw e (exact header s.headers, refl)
    | inl e ↦ elim (Option-cases (strip_prefix (codes "arg_") name)) [
      | inr (arg, k) ↦ rw (e, k) (exact arg s.args, refl)
      | inl k ↦ elim (Option-cases (exact name s.vars)) [
        | inl free ↦ rw (e, k, free) (none, refl)
        | inr (v, bound) ↦ let (t, r) = h v bound in rw (e, k, bound, r) (some t, refl)
      ]
    ]
  ]

  expand_in-Returns :
      (s : Scope R) (nested : Variable R → Option Text) (ps : List Part) (rank : Text → ℕ) (n : ℕ)
      → PartsBelow rank n ps
      → ((name : Text) (v : Variable R)
          → rank name < n
          → exact name s.vars ≡ some v
          → Returns (nested v))
      → Returns (expand_in (value_of s nested) ps)
  expand_in-Returns s nested [] rank n b h = ([], refl)
  expand_in-Returns s nested (text t ∷ ps) rank n b h =
      before-Returns t _ (expand_in-Returns s nested ps rank n b h)
  expand_in-Returns s nested (var v ∷ ps) rank n (x, b) h =
      value_before-Returns _ _ (value_of-Returns s nested v (λ w e. h v w x e))
        (expand_in-Returns s nested ps rank n b h)

  -- A template is expanded when the variables can be ranked, so that each is made of lower ones: a depth
  -- of one call more than the rank of what stands in the template suffices.
  pub expand-returns :
      (rank : Text → ℕ) (n : ℕ) (s : Scope R) (v : Variable R)
      → IsRanked rank s
      → Below rank n v
      → (t : Text) × (expand (suc n) s v ≡ some t)
  unfolding expand
  expand-returns rank n s (simple t) k b = (t, refl)
  expand-returns rank n s (lazy h) k b = (h s.self, refl)
  expand-returns rank zero s (cv ps) k b =
      expand_in-Returns s (expand zero s) ps rank zero b
        (λ name v less e. absurd (omega (arith, less)))
  expand-returns rank (suc n) s (cv ps) k b =
      expand_in-Returns s (expand (suc n) s) ps rank (suc n) b (λ name v less e.
        expand-returns rank n s v k
          (Below-mono rank (rank name) n v (omega (arith, less)) (k name v e)))

  -- A variable that stands for itself alone is expanded at no depth, as long as its name is not that of a
  -- header or an argument.
  pub expand-cyclic :
      (depth : ℕ) (s : Scope R) (name : Text)
      → strip_prefix (codes "http_") name ≡ none
      → strip_prefix (codes "arg_") name ≡ none
      → exact name s.vars ≡ some (cv (var name ∷ []))
      → expand depth s (cv (var name ∷ [])) ≡ none
  unfolding expand
  expand-cyclic zero s name p q e = refl
  expand-cyclic (suc depth) s name p q e =
      rw (p, q, e, expand-cyclic depth s name p q e, expand) refl
