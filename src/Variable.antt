-- ===== src/Variable.antt =====
-- variable.rs: values that are texts, templates or handlers. `R` is the type of the request that a
-- handler is given.
pub mod Complex
use ws_platform.Common.{Text, Option, List, [], ◌∷◌, ◌++◌, get_or}

pub data Part : Type 0 where
  text var : Text → Part

pub data Variable (R : Type 0) : Type 0 where
  simple : Text → Variable R
  cv : List Part → Variable R
  lazy : (R → Text) → Variable R

-- One round of the loop over the parts of a template; an unknown name gives the empty text.
abbrev pub expand_part : (Text → Option Text) → Part → Text
expand_part f (text t) = t
expand_part f (var v) = get_or (f v) []

abbrev pub expand_parts : (Text → Option Text) → List Part → Text
expand_parts f [] = []
expand_parts f (p ∷ ps) = expand_part f p ++ expand_parts f ps

unfoldable pub expand_with : {R : Type 0} → Variable R → (Text → Option Text) → R → Text
expand_with (simple s) f r = s
expand_with (cv parts) f r = expand_parts f parts
expand_with (lazy h) f r = h r
