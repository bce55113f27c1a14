-- ===== src/Core/Listeners/Unique.antt =====
-- core/io.rs: the table of the listeners as a set of addresses.
use ws_platform.Common.{
  ℕ, ◌≡◌, refl, Text, Option, none, some, Bool, true, false, not, ◌||◌, ◌&&◌, sym, ap, subst, ◌∙◌,
  List, [], ◌∷◌, text_eq, text_eq_iff, arith, inl, inr, Bool-cases, Option-cases, if◌then◌else◌,
  get_or,
}
use mathlib.Core.Option
use ws_platform.Error.{ok, done, declined, Code}
use ws_platform.Core.{Options, default_options}
use ws_platform.Core.Listeners.{
  Io, Server, OneOf, valid, invalid, removed, address, address_of, readd, add_loop, add_listener,
  remove_loop, remove_listener,
}

abbrev pub NoAddress : Text → List (ℕ × Server) → Type 0
NoAddress a [] = Unit
NoAddress a ((t, s) ∷ servers) = (text_eq (address s) a ≡ false) × NoAddress a servers

-- No two servers have one address.
abbrev pub IsUnique : List (ℕ × Server) → Type 0
IsUnique [] = Unit
IsUnique ((t, s) ∷ servers) = NoAddress (address s) servers × IsUnique servers

-- The address is listened on, or will be when it can be bound.
abbrev pub wanted : Text → Server → Bool
wanted addr (valid a opts t) = text_eq a addr
wanted addr (invalid a opts t) = text_eq a addr
wanted addr (removed one) = false

abbrev pub listens : Text → List (ℕ × Server) → Bool
listens addr [] = false
listens addr ((t, s) ∷ servers) = wanted addr s || listens addr servers

NoAddress-listens :
    (a : Text) (servers : List (ℕ × Server)) → NoAddress a servers → listens a servers ≡ false
NoAddress-listens a [] h = refl
NoAddress-listens a ((t, valid b opts u) ∷ servers) (x, h) =
    ground (arith, NoAddress-listens a servers h)
NoAddress-listens a ((t, invalid b opts u) ∷ servers) (x, h) =
    ground (arith, NoAddress-listens a servers h)
NoAddress-listens a ((t, removed one) ∷ servers) (x, h) = NoAddress-listens a servers h

readd-address :
    (opts : Options) (token : ℕ) (s : Server) → address (readd opts token s).0 ≡ address s
readd-address opts token (valid a o t) = refl
readd-address opts token (invalid a o t) = refl
readd-address opts token (removed (OneOf.valid a)) = refl
readd-address opts token (removed (OneOf.invalid a)) = refl

readd-wanted :
    (opts : Options) (token : ℕ) (s : Server) (a : Text)
    → wanted a (readd opts token s).0 ≡ text_eq (address s) a
readd-wanted opts token (valid b o t) a = refl
readd-wanted opts token (invalid b o t) a = refl
readd-wanted opts token (removed (OneOf.valid b)) a = refl
readd-wanted opts token (removed (OneOf.invalid b)) a = refl

wanted-address : (a : Text) (s : Server) → wanted a s ≡ true → text_eq (address s) a ≡ true
wanted-address a (valid b o t) h = h
wanted-address a (invalid b o t) h = h
wanted-address a (removed one) h = ground arith

readd-code :
    (opts : Options) (token : ℕ) (s : Server)
    → (readd opts token s).1 ≡ (if wanted (address s) s then declined else done)
readd-code opts token (valid b o t) = rw ((text_eq_iff b b).1 refl)
readd-code opts token (invalid b o t) = rw ((text_eq_iff b b).1 refl)
readd-code opts token (removed (OneOf.valid b)) = refl
readd-code opts token (removed (OneOf.invalid b)) = refl

or_false : (a b : Bool) → b ≡ false → a ≡ (a || b)
or_false a b h = ground arith

abbrev Added : Text → List (ℕ × Server) → Option (List (ℕ × Server) × Code) → Type 0
Added addr servers none = NoAddress addr servers
Added addr servers (some (servers', code)) =
    ((a : Text) → listens a servers' ≡ (text_eq addr a || listens a servers))
    × (code ≡ (if listens addr servers then declined else done))
    × ((a : Text) → NoAddress a servers → NoAddress a servers')
    × IsUnique servers'

Added-cons :
    (addr : Text) (t : ℕ) (s : Server) (servers : List (ℕ × Server))
    (r : Option (List (ℕ × Server) × Code))
    → text_eq (address s) addr ≡ false
    → NoAddress (address s) servers
    → Added addr servers r
    → Added addr ((t, s) ∷ servers) (Option.map (λ p. ((t, s) ∷ p.0, p.1)) r)
Added-cons addr t s servers none miss n h = (miss, h)
Added-cons addr t s servers (some (servers', code)) miss n (l, c, k, u) = (
  λ a. ground (arith, l a),
  ground (arith, c, wanted-address addr s),
  λ a h. (h.0, k a h.1),
  (k (address s) n, u),
)

add_loop-Added :
    (addr : Text) (opts : Options) (servers : List (ℕ × Server))
    → IsUnique servers
    → Added addr servers (add_loop addr opts servers)
unfolding add_loop
add_loop-Added addr opts [] u = tt
add_loop-Added addr opts ((t, s) ∷ servers) (n, u) = elim (Bool-cases (text_eq (address s) addr)) [
  | inr miss ↦
      rw (miss, add_loop)
        (Added-cons addr t s servers (add_loop addr opts servers) miss n
          (add_loop-Added addr opts servers u))
  | inl hit ↦
      let e : address s ≡ addr = (text_eq_iff (address s) addr).0 hit in
      let free : listens addr servers ≡ false =
        rw (sym e) (NoAddress-listens (address s) servers n) in
      rw (hit, add_loop)
        (
          λ a.
              let same : text_eq (address s) a ≡ text_eq addr a = ap (λ b. text_eq b a) e in
              ground (arith, readd-wanted opts t s a, wanted-address a s, same),
          (readd-code opts t s
              ∙ ap (λ b. if b then declined else done)
                  (ap (λ b. wanted b s) e ∙ or_false (wanted addr s) (listens addr servers) free)),
          λ a h. (rw (readd-address opts t s) h.0, h.1),
          (rw (readd-address opts t s) n, u),
        )
]

-- `add_listener` adds the address to those that are listened on and no other, says DECLINED exactly when
-- it was one of them, and keeps the addresses of the table different.
pub add_listener-Adds :
    (addr : Text) (opts : Option Options) (io : Io)
    → IsUnique io.servers
    → let (io', code) = add_listener addr opts io in
      ((a : Text) → listens a io'.servers ≡ (text_eq addr a || listens a io.servers))
      × (code ≡ ok (if listens addr io.servers then declined else done))
      × IsUnique io'.servers
unfolding add_listener
add_listener-Adds addr opts io u =
    let added = add_loop-Added addr (get_or opts default_options) io.servers u in
    elim (Option-cases (add_loop addr (get_or opts default_options) io.servers)) [
      | inl e ↦
          let n : NoAddress addr io.servers = rw e at added in
          rw (e, add_listener) (λ a. refl, rw (NoAddress-listens addr io.servers n) refl, (n, u))
      | inr ((servers, code), e) ↦
          let (l, c, k, v) = subst (Added addr io.servers) e added in
          rw (e, add_listener) (l, ap ok c, v)
    ]

remove_loop-NoAddress :
    (addr a : Text) (servers : List (ℕ × Server))
    → NoAddress a servers
    → NoAddress a (remove_loop addr servers)
unfolding remove_loop
remove_loop-NoAddress addr a [] h = tt
remove_loop-NoAddress addr a ((t, valid b o u) ∷ servers) (x, h) =
    ground (arith, remove_loop-NoAddress addr a servers h, x)
remove_loop-NoAddress addr a ((t, invalid b o u) ∷ servers) (x, h) =
    ground (arith, remove_loop-NoAddress addr a servers h, x)
remove_loop-NoAddress addr a ((t, removed one) ∷ servers) (x, h) =
    (x, remove_loop-NoAddress addr a servers h)

remove_loop-IsUnique :
    (addr : Text) (servers : List (ℕ × Server))
    → IsUnique servers
    → IsUnique (remove_loop addr servers)
unfolding remove_loop
remove_loop-IsUnique addr [] u = tt
remove_loop-IsUnique addr ((t, valid b o v) ∷ servers) (n, u) =
    ground (arith, remove_loop-IsUnique addr servers u, remove_loop-NoAddress addr b servers n, n)
remove_loop-IsUnique addr ((t, invalid b o v) ∷ servers) (n, u) =
    ground (arith, remove_loop-IsUnique addr servers u, remove_loop-NoAddress addr b servers n, n)
remove_loop-IsUnique addr ((t, removed one) ∷ servers) (n, u) =
    (remove_loop-NoAddress addr (address_of one) servers n, remove_loop-IsUnique addr servers u)

listens-remove_loop :
    (addr a : Text) (servers : List (ℕ × Server))
    → IsUnique servers
    → listens a (remove_loop addr servers) ≡ (not (text_eq addr a) && listens a servers)
unfolding remove_loop
listens-remove_loop addr a [] u = ground arith
listens-remove_loop addr a ((t, valid b o v) ∷ servers) (n, u) = ground (
  arith,
  listens-remove_loop addr a servers u,
  text_eq_iff b addr,
  text_eq_iff b a,
  text_eq_iff addr a,
  NoAddress-listens b servers n,
)
listens-remove_loop addr a ((t, invalid b o v) ∷ servers) (n, u) = ground (
  arith,
  listens-remove_loop addr a servers u,
  text_eq_iff b addr,
  text_eq_iff b a,
  text_eq_iff addr a,
  NoAddress-listens b servers n,
)
listens-remove_loop addr a ((t, removed one) ∷ servers) (n, u) =
    listens-remove_loop addr a servers u

-- `remove_listener` takes the address from those that are listened on, and no other, and keeps the
-- addresses of the table different.
pub remove_listener-Removes :
    (addr : Text) (io : Io)
    → IsUnique io.servers
    → ((a : Text)
        → listens a (remove_listener addr io).servers
          ≡ (not (text_eq addr a) && listens a io.servers))
      × IsUnique (remove_listener addr io).servers
unfolding remove_listener
remove_listener-Removes addr io u =
    (λ a. listens-remove_loop addr a io.servers u, remove_loop-IsUnique addr io.servers u)

-- The table of the listeners is the set of the addresses that are listened on: `add_listener` adds one
-- and says DECLINED exactly when it was there, `remove_listener` takes one out, and both keep the
-- addresses of the table different.
pub add-remove-Listens :
    (addr : Text) (opts : Option Options) (io : Io)
    → IsUnique io.servers
    → (let (io', code) = add_listener addr opts io in
        ((a : Text) → listens a io'.servers ≡ (text_eq addr a || listens a io.servers))
        × (code ≡ ok (if listens addr io.servers then declined else done))
        × IsUnique io'.servers)
      × (((a : Text)
            → listens a (remove_listener addr io).servers
              ≡ (not (text_eq addr a) && listens a io.servers))
          × IsUnique (remove_listener addr io).servers)
add-remove-Listens addr opts io u =
    (add_listener-Adds addr opts io u, remove_listener-Removes addr io u)
