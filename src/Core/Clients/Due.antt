-- ===== src/Core/Clients/Due.antt =====
-- core/io.rs: the connections that are closed when their time has come.
use ws_platform.Common.{
  ℕ, suc, Option, none, some, false, List, [], ◌∷◌, ◌≡◌, ltb, ◌==◌, ◌≤◌, ◌<◌, refl, All,
  lookup-remove, lookup-insert, ◌∙◌, ltb→lt, subst, suc, Bool-cases, inl, inr, lookup, insert,
  remove, arith,
}
use ws_platform.Core.{Options}
use ws_platform.Core.Clients.{
  Item, idle, Deadlines, Loop, set_timeout, key_eq, nat_sym, nat_refl, token_key, track, insert_key,
  remove_key, expire_loop, expire, accept,
}
use ws_platform.Core.Clients.Expiry.{
  Kept, Tracked, IsTracked, deadline, From, IsSorted, remove-Tracked, From-mono,
}

-- No key says that the connection is due.
abbrev pub NotDue : ℕ → ℕ → Deadlines → Type 0
NotDue now token = All (λ k. k.1 ≡ token → now < k.0)

From-Kept :
    (now token : ℕ) (exp : Option ℕ) (ks : Deadlines)
    → From now ks
    → Kept ks token exp
    → ((e : ℕ) → exp ≡ some e → now ≤ e)
From-Kept now token none ks f k e h = absurd (cc)
From-Kept now token (some x) [] f k e h = absurd (ground arith)
From-Kept now token (some x) (j ∷ ks) (g, f) k e h = elim (Bool-cases (key_eq (x, token) j)) [
  | inl same ↦ ground (arith, g, h, same)
  | inr other ↦ From-Kept now token (some x) ks f (rw other at k) e h
]

remove_key-first : (k : ℕ × ℕ) (ks : Deadlines) → remove_key k (k ∷ ks) ≡ ks
unfolding remove_key
remove_key-first k ks = ground arith

Below-NotDue : (now token : ℕ) (ks : Deadlines) → All (λ k. k.1 < token) ks → NotDue now token ks
Below-NotDue now token [] h = tt
Below-NotDue now token (k ∷ ks) (x, h) =
    (λ e. absurd (omega (arith, x, e)), Below-NotDue now token ks h)

insert_key-Below :
    (token : ℕ) (k : ℕ × ℕ) (ks : Deadlines)
    → k.1 < token
    → All (λ j. j.1 < token) ks
    → All (λ j. j.1 < token) (insert_key k ks)
unfolding insert_key
insert_key-Below token k [] x h = (x, tt)
insert_key-Below token k (j ∷ ks) x (y, h) = ground (arith, insert_key-Below token k ks x h, y)

track-NotDue :
    (now token other : ℕ) (exp : Option ℕ) (ks : Deadlines)
    → other < token
    → All (λ j. j.1 < token) ks
    → NotDue now token (track other exp ks)
track-NotDue now token other none ks x h = Below-NotDue now token ks h
track-NotDue now token other (some e) ks x h =
    Below-NotDue now token (insert_key (e, other) ks) (insert_key-Below token (e, other) ks x h)

module _ {Q P : Type 0} where
  remove-lookup :
      (token other : ℕ) (cs : List (ℕ × Item Q P))
      → (token == other) ≡ false
      → lookup token (remove other cs) ≡ lookup token cs
  remove-lookup token other cs d = lookup-remove other token cs ∙ rw (nat_sym other token, d) refl

  expire_loop-lookup :
      (now token : ℕ) (ks : Deadlines) (cs : List (ℕ × Item Q P))
      → NotDue now token ks
      → lookup token (expire_loop now ks cs).1 ≡ lookup token cs
  unfolding expire_loop
  expire_loop-lookup now token [] cs h = refl
  expire_loop-lookup now token ((exp, t) ∷ ks) cs (x, h) = elim (Bool-cases (ltb now exp)) [
    | inl later ↦ rw (later, expire_loop) refl
    | inr due ↦
        let d : (token == t) ≡ false = ground (arith, x) in
        rw (due, expire_loop)
          (expire_loop-lookup now token ks (remove t cs) h ∙ remove-lookup token t cs d)
  ]

  Due-free :
      (now : ℕ) (ks : Deadlines) (cs : List (ℕ × Item Q P))
      → From (suc now) ks
      → Tracked ks cs
      → All (λ c. (e : ℕ) → deadline c.1 ≡ some e → now < e) cs
  Due-free now ks [] f h = tt
  Due-free now ks ((t, c) ∷ cs) f (x, h) =
      (λ e k. omega (arith, From-Kept (suc now) t (deadline c) ks f x e k), Due-free now ks cs f h)

  expire_loop-Due :
      (now : ℕ) (ks : Deadlines) (cs : List (ℕ × Item Q P))
      → IsSorted ks
      → Tracked ks cs
      → let (ks', cs') = expire_loop now ks cs in
        From (suc now) ks' × Tracked ks' cs' × IsSorted ks'
  unfolding expire_loop
  expire_loop-Due now [] cs s h = (tt, h, tt)
  expire_loop-Due now ((exp, t) ∷ ks) cs (f, s) h = elim (Bool-cases (ltb now exp)) [
    | inl later ↦
        rw (later, expire_loop)
          (
            (
              omega (arith, ltb→lt now exp later),
              From-mono (suc now) exp ks (omega (arith, ltb→lt now exp later)) f,
            ),
            h,
            (f, s),
          )
    | inr due ↦
        rw (due, expire_loop)
          (expire_loop-Due now ks (remove t cs) s (
            subst (λ js. Tracked js (remove t cs)) (remove_key-first (exp, t) ks)
              (remove-Tracked t (some exp) ((exp, t) ∷ ks) cs h)))
  ]

  -- Closing the connections that are timed out, in a loop where every connection that is to be closed
  -- has its key and the keys are in order, as in every loop that is reached from an empty one: none
  -- stays whose time has come, except a client that was accepted and has not sent anything; a
  -- connection stays if no key says that it is due; and the timeouts are kept up.
  pub expire-Due :
      (l : Loop Q P)
      → IsTracked l
      → All (λ c. (e : ℕ) → deadline c.1 ≡ some e → l.now < e) (expire l).clients
        × ((token : ℕ)
            → NotDue l.now token l.keepalive
            → lookup token (expire l).clients ≡ lookup token l.clients)
        × IsTracked (expire l)
  unfolding expire
  expire-Due l v =
      let (f, t, s) = expire_loop-Due l.now l.keepalive l.clients v.sorted v.tracked in
      (
        Due-free l.now (expire_loop l.now l.keepalive l.clients).0
            (expire_loop l.now l.keepalive l.clients).1 f t,
        λ token h. expire_loop-lookup l.now token l.keepalive l.clients h,
        record { tracked = t; sorted = s },
      )

  -- A new connection is not closed when its request timeout is over, at no time: its key names the
  -- listener. The tokens of the keys so far, and that of the listener, are below the new token.
  pub accept_untimed :
      (server_token fd later : ℕ) (opts : Options) (l : Loop Q P)
      → server_token < l.unique_token
      → All (λ k. k.1 < l.unique_token) l.keepalive
      → lookup l.unique_token
          (expire (record (accept server_token opts fd l) { now = later })).clients
        ≡ some (
            idle (
              set_timeout l.now opts.request_timeout
                (record { fd = fd; exp = none; opts = opts; requests = 0 })))
  unfolding accept expire
  accept_untimed server_token fd later opts l less below =
      let c =
        set_timeout l.now opts.request_timeout
          (record { fd = fd; exp = none; opts = opts; requests = 0 }) in
      expire_loop-lookup later l.unique_token (track server_token c.exp l.keepalive)
        (insert l.unique_token (idle c) l.clients)
        (track-NotDue later l.unique_token server_token c.exp l.keepalive less below)
      ∙ lookup-insert l.unique_token l.unique_token (idle c) l.clients
      ∙ rw (nat_refl l.unique_token) refl
