-- ===== src/Router/Named/Faults.antt =====
-- http/routers/named.rs: a fault of `replace`.
use mathlib.Core.Option
use ws_platform.Common.{
  Text, Option, none, some, true, ◌≡◌, [], ◌∷◌, text_key, text_eq_iff, arith, Bool-cases, inl, inr,
}
use ws_platform.Router.{method_key, or_insert}
use ws_platform.Router.Named.{NamedRouter, matched, replace_next, replace_loop, replace}
use ws_platform.Router.Named.Laws.{slot, IsNew, IsUnique, has, slot-IsNew}

module _ {C : Type 0} where
  slot-replace_next :
      (name m key : Text) (c : C) (rs out : NamedRouter C)
      → IsNew name rs
      → replace_next key c rs ≡ some out
      → slot name m out ≡ none
  unfolding slot
  slot-replace_next name m key c [] out h e = cc
  slot-replace_next name m key c (r ∷ rs) out (p, h) e =
      let same : record r { context = or_insert key c r.context } ∷ rs ≡ out = ground arith in
      rw (← same, p) (slot-IsNew name m rs h)

  slot-replace_loop :
      (name key : Text) (c : C) (routes out : NamedRouter C)
      → IsUnique routes
      → has name routes ≡ true
      → replace_loop name key c routes ≡ some out
      → (m : Text) → slot name m out ≡ none
  unfolding replace_loop slot
  slot-replace_loop name key c [] out u h e m = cc
  slot-replace_loop name key c (r ∷ rs) out u h e m = elim (Bool-cases (matched name r)) [
    | inl hit ↦
        slot-replace_next name m key c rs out (rw (← (text_eq_iff r.name name).0 hit) u.0)
          (ground arith)
    | inr miss ↦
        let (rs', inner, same) = (Option.map-eq-some_iff _ _).0 (rw (miss, replace_loop) at e) in
        rw (← same, miss) (slot-replace_loop name key c rs rs' u.1 (rw miss at h) inner m)
  ]

  -- A fault: `replace` of a name that has a route takes that route away and puts the context under
  -- the next route's name, or panics. Where it returns, the name has no context for any method, the
  -- new one included.
  pub slot-replace_fault :
      (name : Text) (method : Option Text) (c : C) (routes out : NamedRouter C)
      → IsUnique routes
      → has name routes ≡ true
      → replace name method c routes ≡ some out
      → (m : Text) → slot name m out ≡ none
  unfolding replace
  slot-replace_fault name method c routes out u h e m =
      slot-replace_loop name (method_key method) c routes out u h e m
