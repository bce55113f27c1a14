-- ===== src/Buffer/Laws.antt =====
-- buffer.rs: the reading side, against the text that is still unread.
use ws_platform.Common.{
  ℕ, ◌+◌, ◌-◌, ◌≤◌, ◌<◌, min, Text, some, true, false, ◌≡◌, refl, [], ◌∷◌, ◌++◌, length, take, drop,
  arith, ap, ◌∙◌, sym, window-cons, take_none, take-take, length-append, length-take, length-drop,
  take-append_self, window-drop,
}
use ws_platform.Buffer.{Buffer, getc, filled, at_end, tail, chunk, len}

-- The positions are in order and within the data.
pub record IsValid (b : Buffer) : Type 0 where
  pub read : b.rpos ≤ b.end
  pub sent : b.wpos ≤ b.end
  pub held : b.end ≤ length b.bytes

-- What the parsers have still to see.
abbrev pub unread : Buffer → Text
unread b = take (b.end - b.rpos) (drop b.rpos b.bytes)

pub length-unread : (b : Buffer) → IsValid b → length (unread b) ≡ b.end - b.rpos
length-unread b v = omega (
  arith,
  length-take (b.end - b.rpos) (drop b.rpos b.bytes),
  length-drop b.rpos b.bytes,
  v.read,
  v.held,
)

-- A byte is taken from the front of the unread text, and the positions stay in order; a
-- parser that tests `end` first never meets the panic.
pub getc-unread :
    (b : Buffer)
    → IsValid b
    → at_end b ≡ false
    → (c : ℕ) × (b' : Buffer) × (getc b ≡ some (c, b'))
      × (unread b ≡ c ∷ unread b')
      × IsValid b'
      × (b'.end ≡ b.end)
unfolding getc at_end
getc-unread b v h =
    let lt : b.rpos < b.end = ground arith in
    let (c, got, cut) = window-cons b.rpos b.end b.bytes lt v.held in
    (
      c,
      record b { rpos = b.rpos + 1 },
      rw (got, getc),
      cut,
      record { read = omega (arith, lt); sent = v.sent; held = v.held },
      refl,
    )

pub at_end-unread : (b : Buffer) → IsValid b → at_end b ≡ true → unread b ≡ []
unfolding at_end
at_end-unread b v h = take_none (b.end - b.rpos) _ (ground (arith, v.read))

pub tail-unread :
    (b : Buffer)
    → IsValid b
    → (b' : Buffer) × (tail b ≡ some (unread b, b')) × (unread b' ≡ []) × IsValid b'
unfolding tail
tail-unread b v = (
  record b { rpos = b.end },
  ground (arith, v.read, v.held),
  take_none (b.end - b.end) _ (omega arith),
  record { read = omega arith; sent = v.sent; held = v.held },
)

pub chunk-unread :
    (n : ℕ) (b : Buffer)
    → IsValid b
    → (b' : Buffer) × (chunk n b ≡ some (take n (unread b), b'))
      × (unread b' ≡ drop n (unread b))
      × IsValid b'
unfolding chunk
chunk-unread n b v =
    let end = min (b.rpos + n) b.end in
    let cut : take (end - b.rpos) (drop b.rpos b.bytes) ≡ take n (unread b) =
      ap (λ k. take k (drop b.rpos b.bytes)) (omega (arith, v.read))
      ∙ sym (take-take n (b.end - b.rpos) (drop b.rpos b.bytes)) in
    (
      record b { rpos = end },
      ground (arith, v.read, v.held, cut),
      window-drop n b.rpos b.end b.bytes v.read,
      record { read = omega arith; sent = v.sent; held = v.held },
    )

pub len-unread : (b : Buffer) → IsValid b → len b ≡ some (length (unread b))
unfolding len
len-unread b v = ground (arith, length-unread b v, v.read)

-- A read into a buffer whose positions are all 0 delivers exactly what was received.
pub filled-unread :
    (received : Text) (g : Buffer)
    → (g.rpos ≡ 0) × (g.wpos ≡ 0) × (g.end ≡ 0)
    → (unread (filled received g) ≡ received) × IsValid (filled received g)
unfolding filled
filled-unread received g (r, w, e) = (
  rw (r, e)
      (ap (λ k. take k (received ++ drop (length received) g.bytes)) (omega arith)
        ∙ take-append_self received _),
  record {
    read = omega arith;
    sent = omega arith;
    held = omega (arith, length-append received (drop (length received) g.bytes));
  },
)
