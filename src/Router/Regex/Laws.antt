-- ===== src/Router/Regex/Laws.antt =====
-- http/routers/re.rs: the order of the routes, and the route that answers.
use ws_platform.Common.{
  ℕ, Text, Option, none, some, Bool, true, false, ◌≡◌, List, [], ◌∷◌, length, ltb, text_key,
  text_eq, text_eq_iff, Eq, ◌≤◌, ◌<◌, arith, All, ◌≢◌, inl, inr, Bool-cases, Option-cases, ap,
  subst, ◌∙◌,
}
use ws_platform.Error.{Result, ok, err, ◌>>=◌, CoreError}
use ws_platform.KeyVal.{Key, KeyVal}
use ws_platform.Variable.{Variable}
use ws_platform.Router.{method_key, pick}
use ws_platform.Router.Regex.{
  Engine, RegexRoute, new_route, add_loop, add, remove_loop, remove_route, first_match, set_vars,
  get,
}

module _ {Re C : Type 0} where
  -- No pattern of the routes is longer than this, and none is this one.
  abbrev pub Below : Text → List (RegexRoute Re C) → Type 0
  Below pattern rs =
      All (λ r. (length r.pattern ≤ length pattern) × (text_eq r.pattern pattern ≡ false)) rs

  -- The routes stand by decreasing length of their patterns, and no pattern has two routes.
  abbrev pub IsOrdered : List (RegexRoute Re C) → Type 0
  IsOrdered [] = Unit
  IsOrdered (r ∷ rs) = Below r.pattern rs × IsOrdered rs

  abbrev pub Accepted : Result CoreError (List (RegexRoute Re C) × Bool) → Type 0
  Accepted (ok (rs, added)) = IsOrdered rs
  Accepted (err e) = Unit

  Below-shorter :
      (p q : Text) (rs : List (RegexRoute Re C)) → length p < length q → Below p rs → Below q rs
  Below-shorter p q [] h b = tt
  Below-shorter p q (r ∷ rs) h ((l, n), b) = (
    (omega arith, ground (arith, text_eq_iff r.pattern q, ap length {x = r.pattern} {y = q})),
    Below-shorter p q rs h b,
  )

module _ (engine : Engine) {C : Type 0} where
  open engine use {Re, compile, captures}

  abbrev pub Added : Text → Result CoreError (List (RegexRoute Re C) × Bool) → Type 0
  Added p (ok (rs, added)) = Below p rs
  Added p (err e) = Unit

  new_route-Below :
      (q p m : Text) (c : C) (added : Bool) (rs : List (RegexRoute Re C))
      → Below q rs
      → length p ≤ length q
      → text_eq p q ≡ false
      → Added q (do r ← new_route engine p m c; ok (r ∷ rs, added))
  new_route-Below q p m c added rs b l n = ground arith

  keep-Below :
      (q : Text) (r : RegexRoute Re C) (res : Result CoreError (List (RegexRoute Re C) × Bool))
      → length r.pattern ≤ length q
      → text_eq r.pattern q ≡ false
      → Added q res
      → Added q (do (rs', added) ← res; ok (r ∷ rs', added))
  keep-Below q r (ok (rs, added)) l n b = ((l, n), b)
  keep-Below q r (err e) l n b = tt

  add_loop-Below :
      (q p m : Text) (c : C) (rs : List (RegexRoute Re C))
      → Below q rs
      → length p ≤ length q
      → text_eq p q ≡ false
      → Added q (add_loop engine p m c rs)
  unfolding add_loop
  add_loop-Below q p m c [] b l n = new_route-Below q p m c true [] b l n
  add_loop-Below q p m c (r ∷ rs) ((k, d), b) l n = elim (Bool-cases (text_eq r.pattern p)) [
    | inl hit ↦ rw (hit, add_loop) ((k, d), b)
    | inr miss ↦ elim (Bool-cases (ltb (length r.pattern) (length p))) [
      | inl longer ↦
          rw (miss, longer, add_loop) (new_route-Below q p m c true (r ∷ rs) ((k, d), b) l n)
      | inr not_longer ↦
          rw (miss, not_longer, add_loop)
            (keep-Below q r (add_loop engine p m c rs) k d (add_loop-Below q p m c rs b l n))
    ]
  ]

  new_route-Accepted :
      (p m : Text) (c : C) (added : Bool) (rs : List (RegexRoute Re C))
      → Below p rs
      → IsOrdered rs
      → Accepted (do r ← new_route engine p m c; ok (r ∷ rs, added))
  new_route-Accepted p m c added rs b o = ground arith

  keep-Accepted :
      (r : RegexRoute Re C) (res : Result CoreError (List (RegexRoute Re C) × Bool))
      → Added r.pattern res
      → Accepted res
      → Accepted (do (rs', added) ← res; ok (r ∷ rs', added))
  keep-Accepted r (ok (rs, added)) b o = (b, o)
  keep-Accepted r (err e) b o = tt

  add_loop-IsOrdered :
      (p m : Text) (c : C) (rs : List (RegexRoute Re C))
      → IsOrdered rs
      → Accepted (add_loop engine p m c rs)
  unfolding add_loop
  add_loop-IsOrdered p m c [] o = new_route-Accepted p m c true [] tt tt
  add_loop-IsOrdered p m c (r ∷ rs) (b, o) = elim (Bool-cases (text_eq r.pattern p)) [
    | inl hit ↦ rw (hit, add_loop) (b, o)
    | inr miss ↦ elim (Bool-cases (ltb (length r.pattern) (length p))) [
      | inl longer ↦
          rw (miss, longer, add_loop)
            (new_route-Accepted p m c true (r ∷ rs)
              ((ground arith, miss), Below-shorter r.pattern p rs (ground arith) b) (b, o))
      | inr not_longer ↦
          rw (miss, not_longer, add_loop)
            (keep-Accepted r (add_loop engine p m c rs)
              (add_loop-Below r.pattern p m c rs b (ground arith)
                (ground (arith, text_eq_iff p r.pattern, text_eq_iff r.pattern p)))
              (add_loop-IsOrdered p m c rs o))
    ]
  ]

  -- `add`, where the pattern compiles, keeps the routes in decreasing length of their patterns and their
  -- patterns distinct.
  pub add-IsOrdered :
      (p : Text) (method : Option Text) (c : C) (rs : List (RegexRoute Re C))
      → IsOrdered rs
      → Accepted (add engine p method c rs)
  unfolding add
  add-IsOrdered p method c rs o = add_loop-IsOrdered p (method_key method) c rs o

  remove_loop-Below :
      (q p m : Text) (rs : List (RegexRoute Re C))
      → Below q rs
      → Below q (remove_loop engine p m rs).0
  unfolding remove_loop
  remove_loop-Below q p m [] b = tt
  remove_loop-Below q p m (r ∷ rs) ((k, d), b) = ground (arith, remove_loop-Below q p m rs b)

  remove_loop-IsOrdered :
      (p m : Text) (rs : List (RegexRoute Re C))
      → IsOrdered rs
      → IsOrdered (remove_loop engine p m rs).0
  unfolding remove_loop
  remove_loop-IsOrdered p m [] o = tt
  remove_loop-IsOrdered p m (r ∷ rs) (b, o) =
      ground (arith, remove_loop-IsOrdered p m rs o, remove_loop-Below r.pattern p m rs b)

  -- `remove` keeps the routes in decreasing length of their patterns and their patterns distinct.
  pub remove_route-IsOrdered :
      (p : Text) (method : Option Text) (rs : List (RegexRoute Re C))
      → IsOrdered rs
      → IsOrdered (remove_route engine p method rs).0
  unfolding remove_route
  remove_route-IsOrdered p method rs o = remove_loop-IsOrdered p (method_key method) rs o

  -- `add`, where the pattern compiles, and `remove` keep the routes in decreasing length of their
  -- patterns, and their patterns distinct.
  pub add-remove-IsOrdered :
      (p : Text) (method : Option Text) (c : C) (rs : List (RegexRoute Re C))
      → IsOrdered rs
      → Accepted (add engine p method c rs) × IsOrdered (remove_route engine p method rs).0
  add-remove-IsOrdered p method c rs o =
      (add-IsOrdered p method c rs o, remove_route-IsOrdered p method rs o)

  -- Every route whose expression matches the path has a pattern that is at most that long.
  abbrev pub Longest : Text → ℕ → List (RegexRoute Re C) → Type 0
  Longest path n rs = All (λ r. captures r.re path ≢ none → length r.pattern ≤ n) rs

  Below-Longest :
      (path p : Text) (rs : List (RegexRoute Re C)) → Below p rs → Longest path (length p) rs
  Below-Longest path p [] b = tt
  Below-Longest path p (r ∷ rs) ((l, n), b) = (λ h. l, Below-Longest path p rs b)

  -- What `first_match` says of the routes.
  abbrev pub Matched :
      Text → List (RegexRoute Re C) → Option (RegexRoute Re C × List (Text × Text)) → Type 0
  Matched path rs none = All (λ r. captures r.re path ≡ none) rs
  Matched path rs (some (r, vars)) =
      (captures r.re path ≡ some vars) × Longest path (length r.pattern) rs

  skip-Matched :
      (path : Text) (r : RegexRoute Re C) (rs : List (RegexRoute Re C))
      (found : Option (RegexRoute Re C × List (Text × Text)))
      → captures r.re path ≡ none
      → Matched path rs found
      → Matched path (r ∷ rs) found
  skip-Matched path r rs none e h = (e, h)
  skip-Matched path r rs (some (r', vars)) e (h, l) = (h, (λ k. absurd (k e), l))

  pub first_match-Longest :
      (path : Text) (rs : List (RegexRoute Re C))
      → IsOrdered rs
      → Matched path rs (first_match engine path rs)
  unfolding first_match
  first_match-Longest path [] o = tt
  first_match-Longest path (r ∷ rs) (b, o) = elim (Option-cases (captures r.re path)) [
    | inr (vars, e) ↦ rw (e, first_match) (e, (λ h. omega arith, Below-Longest path r.pattern rs b))
    | inl e ↦
        rw (e, first_match)
          (skip-Matched path r rs (first_match engine path rs) e (first_match-Longest path rs o))
  ]

  -- What an answer of `get` comes from.
  abbrev pub Chosen :
      {R : Type 0} ⦃e : Eq Key⦄
      → Text
      → Text
      → KeyVal (Variable R)
      → List (RegexRoute Re C)
      → C × KeyVal (Variable R)
      → Type 0
  Chosen method path vars rs (c, vars') =
      (r : RegexRoute Re C) × (captured : List (Text × Text)) × (captures r.re path ≡ some captured)
      × Longest path (length r.pattern) rs
      × (pick method r.context ≡ some c)
      × (set_vars captured vars ≡ vars')

  -- On ordered routes, a context that `get` returns is that of the method, or of any method, of a route
  -- whose expression matches the path, and no route that matches the path has a longer pattern; the
  -- variables are those of that match.
  pub get-Longest :
      {R : Type 0} ⦃e : Eq Key⦄ (method path : Text) (vars vars' : KeyVal (Variable R))
      (rs : List (RegexRoute Re C)) (c : C)
      → IsOrdered rs
      → get engine method path vars rs ≡ (some c, vars')
      → Chosen method path vars rs (c, vars')
  unfolding get
  get-Longest {R = R} method path vars vars' rs c o found =
      elim (Option-cases (first_match engine path rs)) [
        | inl e ↦ cc
        | inr ((r, captured), e) ↦
            let (hit, longest) : Matched path rs (some (r, captured)) =
              subst (Matched path rs) e (first_match-Longest path rs o) in
            elim (Option-cases (pick method r.context)) [
              | inl none_found ↦ cc
              | inr (c', picked) ↦
                  let same : ◌≡◌ {A = Option C × KeyVal (Variable R)}
                      (some c', set_vars captured vars) (some c, vars') =
                    ground arith in
                  (r, captured, hit, longest, picked ∙ ap (λ p. p.0) same, ap (λ p. p.1) same)
            ]
      ]
