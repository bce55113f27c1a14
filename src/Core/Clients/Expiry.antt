-- ===== src/Core/Clients/Expiry.antt =====
-- core/io.rs: the keys of the connections that may expire, and the end of those that do.
use ws_platform.Common.{
  ℕ, Option, none, some, Bool, true, false, List, [], ◌∷◌, ◌≡◌, ◌==◌, ◌||◌, ◌≤◌, refl, All,
  if◌then◌else◌, Bool-cases, inl, inr, insert, remove, arith,
}
use ws_platform.Core.Clients.{
  Item, idle, request, response, Deadlines, key_eq, insert_key, remove_key, token_key, Loop,
  connection, track, untrack,
}

abbrev pub has : ℕ × ℕ → Deadlines → Bool
has k [] = false
has k (j ∷ js) = key_eq k j || has k js

pub has-insert_key :
    (k j : ℕ × ℕ) (ks : Deadlines) → has k (insert_key j ks) ≡ (key_eq k j || has k ks)
unfolding insert_key
has-insert_key k j [] = refl
has-insert_key k j (i ∷ ks) = ground (arith, has-insert_key k j ks)

has-remove_key :
    (k j : ℕ × ℕ) (ks : Deadlines) → key_eq k j ≡ false → has k (remove_key j ks) ≡ has k ks
unfolding remove_key
has-remove_key k j [] h = refl
has-remove_key k j (i ∷ ks) h = ground (arith, has-remove_key k j ks h)

-- The keys are in the order of their times.
abbrev pub From : ℕ → Deadlines → Type 0
From n = All (λ k. n ≤ k.0)

abbrev pub IsSorted : Deadlines → Type 0
IsSorted [] = Unit
IsSorted (k ∷ ks) = From k.0 ks × IsSorted ks

insert_key-From :
    (n : ℕ) (k : ℕ × ℕ) (ks : Deadlines) → n ≤ k.0 → From n ks → From n (insert_key k ks)
unfolding insert_key
insert_key-From n k [] h f = (h, tt)
insert_key-From n k (j ∷ ks) h (g, f) = ground (arith, insert_key-From n k ks h f, g)

pub From-mono : (n m : ℕ) (ks : Deadlines) → n ≤ m → From m ks → From n ks
From-mono n m [] h f = tt
From-mono n m (k ∷ ks) h (g, f) = (omega (arith, g), From-mono n m ks h f)

pub insert_key-IsSorted : (k : ℕ × ℕ) (ks : Deadlines) → IsSorted ks → IsSorted (insert_key k ks)
unfolding insert_key
insert_key-IsSorted k [] s = (tt, tt)
insert_key-IsSorted k (j ∷ ks) (f, s) =
    ground (arith, insert_key-IsSorted k ks s, insert_key-From j.0 k ks, From-mono k.0 j.0 ks, f)

remove_key-From : (n : ℕ) (k : ℕ × ℕ) (ks : Deadlines) → From n ks → From n (remove_key k ks)
unfolding remove_key
remove_key-From n k [] f = tt
remove_key-From n k (j ∷ ks) (g, f) = ground (arith, remove_key-From n k ks f, g)

pub remove_key-IsSorted : (k : ℕ × ℕ) (ks : Deadlines) → IsSorted ks → IsSorted (remove_key k ks)
unfolding remove_key
remove_key-IsSorted k [] s = tt
remove_key-IsSorted k (j ∷ ks) (f, s) =
    ground (arith, remove_key-IsSorted k ks s, remove_key-From j.0 k ks f, f)

-- A connection that expires has its key.
abbrev pub Kept : Deadlines → ℕ → Option ℕ → Type 0
Kept ks token none = Unit
Kept ks token (some exp) = has (exp, token) ks ≡ true

Kept-track :
    (token other : ℕ) (exp e : Option ℕ) (ks : Deadlines)
    → Kept ks token e
    → Kept (track other exp ks) token e
Kept-track token other none e ks h = h
Kept-track token other (some x) none ks h = tt
Kept-track token other (some x) (some e) ks h =
    ground (arith, has-insert_key (e, token) (x, other) ks, h)

pub Kept-untrack :
    (token other : ℕ) (exp e : Option ℕ) (ks : Deadlines)
    → (token == other) ≡ false
    → Kept ks token e
    → Kept (untrack other exp ks) token e
Kept-untrack token other none e ks d h = h
Kept-untrack token other (some x) none ks d h = tt
Kept-untrack token other (some x) (some e) ks d h =
    ground (arith, has-remove_key (e, token) (x, other) ks, h, d)

pub Kept-own : (token : ℕ) (exp : Option ℕ) (ks : Deadlines) → Kept (track token exp ks) token exp
Kept-own token none ks = tt
Kept-own token (some x) ks = ground (arith, has-insert_key (x, token) (x, token) ks)

module _ {Q P : Type 0} where
  -- When a connection is closed: a client that was accepted and has not sent anything has no such time,
  -- as its key names the listener.
  abbrev pub deadline : Item Q P → Option ℕ
  deadline (idle c) = if c.requests == 0 then none else c.exp
  deadline (request c q) = c.exp
  deadline (response c p peer) = c.exp

  abbrev pub Tracked : Deadlines → List (ℕ × Item Q P) → Type 0
  Tracked ks = All (λ c. Kept ks c.0 (deadline c.1))

  pub Kept-put :
      (token : ℕ) (item : Item Q P) (ks : Deadlines)
      → Kept (track token (connection item).exp ks) token (deadline item)
  Kept-put token (idle c) ks = elim (Bool-cases (c.requests == 0)) [
    | inl new ↦ rw new tt
    | inr old ↦ rw old (Kept-own token c.exp ks)
  ]
  Kept-put token (request c q) ks = Kept-own token c.exp ks
  Kept-put token (response c p peer) ks = Kept-own token c.exp ks

  -- Every connection that is to be closed has its key, and the keys are in order.
  pub record IsTracked (l : Loop Q P) : Type 0 where
    pub tracked : Tracked l.keepalive l.clients
    pub sorted : IsSorted l.keepalive

  pub Tracked-track :
      (token : ℕ) (exp : Option ℕ) (ks : Deadlines) (cs : List (ℕ × Item Q P))
      → Tracked ks cs
      → Tracked (track token exp ks) cs
  Tracked-track token exp ks [] h = tt
  Tracked-track token exp ks ((t, c) ∷ cs) (x, h) =
      (Kept-track t token exp (deadline c) ks x, Tracked-track token exp ks cs h)

  pub insert-Tracked :
      (token : ℕ) (item : Item Q P) (ks : Deadlines) (cs : List (ℕ × Item Q P))
      → Kept ks token (deadline item)
      → Tracked ks cs
      → Tracked ks (insert token item cs)
  unfolding insert
  insert-Tracked token item ks [] k h = (k, tt)
  insert-Tracked token item ks ((t, c) ∷ cs) k (x, h) = elim (Bool-cases (t == token)) [
    | inl same ↦ let e : t ≡ token = ground arith in rw (same, insert) (rw e k, h)
    | inr other ↦ rw (other, insert) (x, insert-Tracked token item ks cs k h)
  ]

  pub remove-Tracked :
      (token : ℕ) (exp : Option ℕ) (ks : Deadlines) (cs : List (ℕ × Item Q P))
      → Tracked ks cs
      → Tracked (untrack token exp ks) (remove token cs)
  unfolding remove
  remove-Tracked token exp ks [] h = tt
  remove-Tracked token exp ks ((t, c) ∷ cs) (x, h) = elim (Bool-cases (t == token)) [
    | inl same ↦ rw (same, remove) (remove-Tracked token exp ks cs h)
    | inr other ↦
        rw (other, remove)
          (Kept-untrack t token exp (deadline c) ks other x, remove-Tracked token exp ks cs h)
  ]
