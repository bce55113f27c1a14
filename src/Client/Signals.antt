-- ===== src/Client/Signals.antt =====
-- The socket as a stream of bytes and conditions, however its bytes are cut into reads.
use ws_platform.Common.{
  ℕ, zero, suc, ◌-◌, ◌<◌, Text, Option, none, some, ◌≡◌, refl, List, [], ◌∷◌, ◌++◌, length, take,
  drop, map, arith, ltb, ◌==◌, if◌then◌else◌, take-append-drop, append_assoc, ◌∙◌, sym, ap,
  Bool-cases, inl, inr, length-take, length-drop, take-all, take_none, take-nil, length-append,
  length-replicate, replicate, ltb→lt, map-append, ◌≢◌, ◌⊎◌, ◌*◌,
}
use ws_platform.Error.{Result, ok, err, Code, done, again, declined, CoreError}
use ws_platform.Buffer.{Buffer}
use ws_platform.Buffer
use ws_platform.Buffer.Laws
use ws_platform.Buffer.Laws.{IsValid, unread}
use ws_platform.Client.{
  interrupted, timed_out, would_block, other, Incoming, arrived, Client, leftover, read_buffer,
  read_result, read_loop, read,
}

-- A byte, or the condition with which a read returns.
pub data Signal : Type 0 where
  byte : ℕ → Signal
  stop : Result CoreError Code → Signal

abbrev pub bytes_of : Text → List Signal
bytes_of = map byte

abbrev pub condition : Option (Result CoreError Code) → List Signal → List Signal
condition none rest = rest
condition (some r) rest = stop r ∷ rest

abbrev pub signals : List Incoming → List Signal
signals [] = []
signals (arrived [] ∷ script) = stop (ok declined) ∷ signals script
signals (arrived (c ∷ t) ∷ script) = byte c ∷ bytes_of t ++ signals script
signals (Incoming.failed k ∷ script) = condition (read_result (err k)) (signals script)

-- The signals that a client has still to deliver.
abbrev pub ahead : Client → List Signal
ahead c = bytes_of (unread c.buf) ++ signals c.incoming

-- How a read uses up the signals: it delivers bytes that come next, or the condition that comes next.
abbrev pub Delivers : List Signal → Buffer → List Incoming → Result CoreError Code → Type 0
Delivers ss b script r =
    ((r ≡ ok done) × (unread b ≢ []) × (ss ≡ bytes_of (unread b) ++ signals script))
    ⊎ ((r ≢ ok done) × (unread b ≡ []) × (ss ≡ stop r ∷ signals script))
    ⊎ ((r ≡ ok again) × (unread b ≡ []) × (ss ≡ []) × (script ≡ []))

-- A buffer that was reset, perhaps with room made already.
abbrev IsFresh : Buffer → Type 0
IsFresh b = (b.rpos ≡ 0) × (b.wpos ≡ 0) × (b.end ≡ 0)

length-resize : (n : ℕ) (bs : Text) → length (Buffer.resize n bs) ≡ n
length-resize n bs = ground (
  arith,
  length-append bs (replicate (n - length bs) 0),
  length-replicate {A = ℕ} (n - length bs) 0,
  length-take n bs,
)

grow-IsFresh : (b : Buffer) → IsFresh b → IsFresh (Buffer.grow b)
unfolding Buffer.grow
grow-IsFresh b f = ground arith

grow-room : (b : Buffer) → IsFresh b → 0 < length (Buffer.grow b).bytes
unfolding Buffer.grow
grow-room b f =
    ground (arith, length-resize (if length b.bytes == 0 then 4096 else length b.bytes * 2) b.bytes)

IsFresh-unread : (b : Buffer) → IsFresh b → unread b ≡ []
IsFresh-unread b f = take_none (b.end - b.rpos) _ (omega arith)

signals-arrived :
    (t : Text) (script : List Incoming)
    → t ≢ []
    → signals (arrived t ∷ script) ≡ bytes_of t ++ signals script
signals-arrived [] script h = absurd (h refl)
signals-arrived (c ∷ t) script h = refl

signals-leftover :
    (n : ℕ) (t : Text) (script : List Incoming)
    → 0 < n
    → t ≢ []
    → signals (arrived t ∷ script) ≡ bytes_of (take n t) ++ signals (leftover n t script)
signals-leftover n t script p q = elim (Bool-cases (ltb n (length t))) [
  | inl more ↦ rw more (
      signals-arrived t script q
      ∙ ap (λ u. bytes_of u ++ signals script) (sym (take-append-drop n t))
      ∙ ap (λ u. u ++ signals script) (map-append byte (take n t) (drop n t))
      ∙ append_assoc (bytes_of (take n t)) (bytes_of (drop n t)) (signals script)
      ∙ ap (◌++◌ (bytes_of (take n t))) (
          sym (
            signals-arrived (drop n t) script
              λ e. omega (arith, ap length e, length-drop n t, ltb→lt n (length t) more))))
  | inr all ↦ rw all (
      signals-arrived t script q
      ∙ ap (λ u. bytes_of u ++ signals script) (sym (take-all n t (ground arith))))
]

read_eof :
    (script : List Incoming) (b : Buffer)
    → let (b', script', res) = read_buffer (arrived []) script b in
      (b' ≡ Buffer.filled [] (Buffer.grow b))
      × (script' ≡ script)
      × (read_result res ≡ some (ok declined))
unfolding read_buffer
read_eof script b = rw (take-nil (length (Buffer.grow b).bytes)) (refl, ground arith, refl)

take-ne-nil : (n c : ℕ) (t : Text) → 0 < n → take n (c ∷ t) ≢ []
take-ne-nil zero c t h e = omega arith
take-ne-nil (suc n) c t h e = cc

read_some :
    (c : ℕ) (t : Text) (script : List Incoming) (b : Buffer)
    → IsFresh b
    → let (b', script', res) = read_buffer (arrived (c ∷ t)) script b in
      (read_result res ≡ some (ok done))
      × IsValid b'
      × (unread b' ≢ [])
      × (signals (arrived (c ∷ t) ∷ script) ≡ bytes_of (unread b') ++ signals script')
unfolding read_buffer
read_some c t script b f =
    let g = Buffer.grow b in
    let n = length g.bytes in
    let room = grow-room b f in
    let (got, valid) = Laws.filled-unread (take n (c ∷ t)) g (grow-IsFresh b f) in
    (
      ground (arith, length-take n (c ∷ t)),
      valid,
      rw got (take-ne-nil n c t room),
      rw got (signals-leftover n (c ∷ t) script room (λ e. cc)),
    )

grow-stops : (b : Buffer) → IsFresh b → IsValid (Buffer.grow b) × (unread (Buffer.grow b) ≡ [])
grow-stops b f =
    let k = grow-IsFresh b f in
    (record { read = omega arith; sent = omega arith; held = omega arith }, IsFresh-unread _ k)

read_loop_returns :
    (b : Buffer) (answer : Incoming) (script : List Incoming) {r : Result CoreError Code}
    → read_result (read_buffer answer script b).2 ≡ some r
    → read_loop b (answer ∷ script)
      ≡ ((read_buffer answer script b).0, (read_buffer answer script b).1, r)
unfolding read_loop
read_loop_returns b answer script e = rw (e, read_loop)

read_loop_retries :
    (b : Buffer) (script : List Incoming)
    → read_loop b (Incoming.failed interrupted ∷ script) ≡ read_loop (Buffer.grow b) script
unfolding read_loop read_buffer
read_loop_retries b script = refl

read_loop-Delivers :
    (b : Buffer) (script : List Incoming)
    → IsFresh b
    → let (b', script', r) = read_loop b script in
      IsValid b' × Delivers (signals script) b' script' r
unfolding read_loop
read_loop-Delivers b [] f = let (v, u) = grow-stops b f in (v, inr (inr (refl, u, refl, refl)))
read_loop-Delivers b (arrived [] ∷ script) f =
    let (same, rest, res) = read_eof script b in
    let (u, v) = Laws.filled-unread [] _ (grow-IsFresh b f) in
    rw (read_loop_returns b (arrived []) script res, same, rest) (v, inr (inl ((λ e. cc), u, refl)))
read_loop-Delivers b (arrived (c ∷ t) ∷ script) f =
    let (res, v, u, s) = read_some c t script b f in
    rw (read_loop_returns b (arrived (c ∷ t)) script res) (v, inl (refl, u, s))
read_loop-Delivers b (Incoming.failed interrupted ∷ script) f =
    rw (read_loop_retries b script) (read_loop-Delivers (Buffer.grow b) script (grow-IsFresh b f))
read_loop-Delivers b (Incoming.failed timed_out ∷ script) f =
    let (v, u) = grow-stops b f in unfold read_buffer in (v, inr (inl ((λ e. cc), u, refl)))
read_loop-Delivers b (Incoming.failed would_block ∷ script) f =
    let (v, u) = grow-stops b f in unfold read_buffer in (v, inr (inl ((λ e. cc), u, refl)))
read_loop-Delivers b (Incoming.failed (other e) ∷ script) f =
    let (v, u) = grow-stops b f in unfold read_buffer in (v, inr (inl ((λ q. cc), u, refl)))

-- `read` drops what was left in the buffer and delivers the next signals of the socket: the bytes
-- that follow, in order and at least one, with `OK`; or the condition that follows, with an empty
-- buffer. A socket that is not ready gives `AGAIN`.
pub read-Delivers :
    (c : Client)
    → let (c', r) = read c in IsValid c'.buf × Delivers (signals c.incoming) c'.buf c'.incoming r
unfolding read Buffer.reset
read-Delivers c = read_loop-Delivers _ c.incoming (refl, refl, refl)
