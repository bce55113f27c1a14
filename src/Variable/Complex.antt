-- ===== src/Variable/Complex.antt =====
-- variable.rs: `Variable::complex`, which splits a template at its variables, `${name}`. The expression
-- `(\$\{[^}]+})` matches a `${`, one byte at least that is no `}`, as many as there are, and a `}`.
use ws_platform.Common.{
  ℕ, zero, suc, ◌+◌, ◌-◌, ◌≤◌, ◌≡◌, ◌≢◌, refl, sym, ap, ◌∙◌, Text, codes, Option, none, some, List,
  [], ◌∷◌, ◌++◌, length, All, text_length, trim_any, trim_end, trim_start, strip_prefix, subst,
  All-append, append_assoc, append-nil, arith, ◌==◌, if◌then◌else◌, length-append,
}
use mathlib.Core.List.{reverse, reverse-reverse, reverse-append}
use ws_platform.Variable.{Part, text, var, Variable, cv}

-- The bytes up to the first `}`, and those behind it.
unfoldable pub until_close : Text → Option (Text × Text)
until_close [] = none
until_close (c ∷ s) =
    let rest = until_close s in
    if c == b'}' then some ([], s) else elim rest [ none ↦ none | some (n, t) ↦ some (c ∷ n, t) ]

-- A match needs a name that is not empty.
abbrev pub named : Option (Text × Text) → Option (Text × Text)
named none = none
named (some ([], t)) = none
named (some (c ∷ n, t)) = some (c ∷ n, t)

abbrev pub opened : Option Text → Option (Text × Text)
opened none = none
opened (some s) = named (until_close s)

-- A match at the beginning of the text: the name between the brackets, and what follows.
unfoldable pub match_var : Text → Option (Text × Text)
unfolding until_close
match_var s = opened (strip_prefix (codes "${") s)

-- `trim_start_matches("${")` and `trim_end_matches("}")`.
abbrev pub trim_name : Text → Text
trim_name n = trim_end b'}' (trim_any (codes "${" ∷ []) (text_length n) n)

-- The loop over the matches; `before` is the text since the last one. Each round takes a byte.
unfoldable pub pieces : ℕ → Text → Text → List Part
unfolding match_var
pieces zero before s = text (before ++ s) ∷ []
pieces (suc rounds) before [] = text before ∷ []
pieces (suc rounds) before (c ∷ s) =
    let next = pieces rounds (before ++ c ∷ []) s in
    elim (match_var (c ∷ s)) [
      | none ↦ next
      | some (name, rest) ↦ text before ∷ var (trim_name name) ∷ pieces rounds [] rest
    ]

unfoldable pub complex : {R : Type 0} → Text → Variable R
unfolding pieces
complex s = cv (pieces (length s) [] s)

-- The template of a list of texts, each before a variable, and of a text at the end.
abbrev pub template : List (Text × Text) → Text → Text
template [] last = last
template ((t, v) ∷ ps) last = t ++ (codes "${" ++ (v ++ b'}' ∷ template ps last))

abbrev pub parts_of : List (Text × Text) → Text → List Part
parts_of [] last = text last ∷ []
parts_of ((t, v) ∷ ps) last = text t ∷ var v ∷ parts_of ps last

-- A text and a name as they are between variables.
abbrev pub IsPlain : Text → Type 0
IsPlain = All (λ c. c ≢ b'$')

abbrev pub IsName : Text → Type 0
IsName v = (v ≢ []) × All (λ c. (c ≢ b'$') × (c ≢ b'}')) v

until_close-name :
    (v s : Text) → All (λ c. (c ≢ b'$') × (c ≢ b'}')) v → until_close (v ++ b'}' ∷ s) ≡ some (v, s)
unfolding until_close
until_close-name [] s h = refl
until_close-name (c ∷ v) s (x, h) = ground (arith, until_close-name v s h, x.1)

match_var-name : (v s : Text) → IsName v → match_var (codes "${" ++ (v ++ b'}' ∷ s)) ≡ some (v, s)
unfolding match_var
match_var-name [] s (h, k) = absurd (h refl)
match_var-name (c ∷ v) s (h, k) = rw (until_close-name (c ∷ v) s k) refl

match_var-plain : (c : ℕ) (s : Text) → c ≢ b'$' → match_var (c ∷ s) ≡ none
unfolding match_var
match_var-plain c s h = ground arith

pieces-plain :
    (t before s : Text) (n rounds : ℕ)
    → IsPlain t
    → n ≡ length t + rounds
    → pieces n before (t ++ s) ≡ pieces rounds (before ++ t) s
unfolding pieces
pieces-plain [] before s n rounds h e =
    let same : n ≡ rounds = omega (arith, e) in rw (append-nil before, same) refl
pieces-plain (c ∷ t) before s zero rounds h e = absurd (omega (arith, e))
pieces-plain (c ∷ t) before s (suc n) rounds (x, h) e =
    rw (match_var-plain c (t ++ s) x, pieces)
      (pieces-plain t (before ++ c ∷ []) s n rounds h (omega (arith, e))
        ∙ ap (λ b. pieces rounds b s) (append_assoc before (c ∷ []) t))

-- Nothing of a name is trimmed.
trim_start-other : (v : Text) → All (λ c. c ≢ b'}') v → trim_start b'}' v ≡ v
trim_start-other [] h = refl
trim_start-other (c ∷ v) (x, h) = ground arith

All-reverse : (P : ℕ → Type 0) (v : Text) → All P v → All P (reverse v)
All-reverse P [] h = tt
All-reverse P (c ∷ v) (x, h) =
    subst (All P) (sym (reverse-append (c ∷ []) v))
      (All-append P (reverse v) (c ∷ []) (All-reverse P v h) (x, tt))

no_close : (v : Text) → All (λ c. (c ≢ b'$') × (c ≢ b'}')) v → All (λ c. c ≢ b'}') v
no_close [] h = tt
no_close (c ∷ v) ((x, y), h) = (y, no_close v h)

trim_name-name : (v : Text) → IsName v → trim_name v ≡ v
trim_name-name [] (h, k) = absurd (h refl)
trim_name-name (c ∷ v) (h, k) =
    let front : trim_any (codes "${" ∷ []) (text_length (c ∷ v)) (c ∷ v) ≡ c ∷ v =
      ground (arith, k.0) in
    ap (trim_end b'}') front
    ∙ ap reverse (
        trim_start-other (reverse (c ∷ v))
          (All-reverse (λ d. d ≢ b'}') (c ∷ v) (no_close (c ∷ v) k)))
    ∙ reverse-reverse (c ∷ v)

pieces-var :
    (v before s : Text) (n : ℕ)
    → IsName v
    → pieces (suc n) before (codes "${" ++ (v ++ b'}' ∷ s)) ≡ text before ∷ var v ∷ pieces n [] s
unfolding pieces
pieces-var v before s n h = rw (match_var-name v s h, pieces, trim_name-name v h) refl

abbrev pub IsTemplate : List (Text × Text) → Text → Type 0
IsTemplate [] last = IsPlain last
IsTemplate ((t, v) ∷ ps) last = IsPlain t × IsName v × IsTemplate ps last

pieces-end : (n : ℕ) (before : Text) → pieces n before [] ≡ text before ∷ []
unfolding pieces
pieces-end zero before = rw (append-nil before) refl
pieces-end (suc n) before = refl

length-template :
    (t v : Text) (ps : List (Text × Text)) (last : Text)
    → length (template ((t, v) ∷ ps) last) ≡ length t + length v + length (template ps last) + 3
length-template t v ps last = omega (
  arith,
  length-append t (codes "${" ++ (v ++ b'}' ∷ template ps last)),
  length-append v (b'}' ∷ template ps last),
)

pieces-template :
    (ps : List (Text × Text)) (last : Text) (n : ℕ)
    → length (template ps last) ≤ n
    → IsTemplate ps last
    → pieces n [] (template ps last) ≡ parts_of ps last
unfolding pieces
pieces-template [] last n h k =
    ap (pieces n []) (sym (append-nil last))
    ∙ pieces-plain last [] [] n (n - length last) k (omega arith)
    ∙ pieces-end (n - length last) last
pieces-template ((t, v) ∷ ps) last n h (p, q, k) =
    let m = n - length t - 1 in
    pieces-plain t [] (codes "${" ++ (v ++ b'}' ∷ template ps last)) n (suc m) p
      (omega (arith, length-template t v ps last))
    ∙ pieces-var v t (template ps last) m q
    ∙ ap (λ r. text t ∷ var v ∷ r)
        (pieces-template ps last m (omega (arith, length-template t v ps last)) k)

-- A template is split into the texts and the variables that it is written from: texts without `$`, and
-- names that are not empty and have no `$` and no `}`.
pub complex-template :
    {R : Type 0} (ps : List (Text × Text)) (last : Text)
    → IsTemplate ps last
    → complex {R = R} (template ps last) ≡ cv (parts_of ps last)
unfolding complex
complex-template ps last k =
    ap cv (pieces-template ps last (length (template ps last)) (omega arith) k)
