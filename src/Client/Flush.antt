-- ===== src/Client/Flush.antt =====
-- client_context.rs: what `flush` sends.
use ws_platform.Common.{
  ℕ, ◌+◌, ◌-◌, ◌≤◌, Text, Option, none, some, Bool, false, ◌≡◌, refl, List, [], ◌∷◌, ◌++◌, length,
  arith, take-all, take-append_le, drop-append_le, length-append, length-take, length-drop,
  take-nil, drop-nil, window-drop, take_none, ==_iff, ◌==◌, zero, suc, min, ltb, inl, inr,
  Bool-cases, Option-cases, take, drop, append_assoc, ap, subst, ◌∙◌, sym,
}
use native.Mathlib.Numerals.{unary_clauses}
use ws_platform.Error.{Result, ok, err, Code, done, again, CoreError}
use ws_platform.Buffer.{Buffer}
use ws_platform.Buffer
use ws_platform.Client.{
  Client, ErrorKind, Outgoing, write, flush, flush_loop, write_buffer, flush_result, sent_on,
  would_block, interrupted, other, timed_out,
}

-- The positions of a buffer that is written out.
pub record IsWritable (b : Buffer) : Type 0 where
  pub written : b.wpos ≤ b.end
  pub stored : b.end ≤ length b.bytes

-- The bytes that `flush` has still to send.
unfoldable pub pending : Buffer → Text
pending b = take (b.end - b.wpos) (drop b.wpos b.bytes)

-- How a flush of `c` ends: nothing is lost or sent twice, and `OK` says that all is sent.
abbrev pub Flushed : Client → Client × Option (Result CoreError (Code × ℕ)) → Type 0
Flushed c (c', none) = ⊥
Flushed c (c', some r) =
    (c'.sent ++ pending c'.buf ≡ c.sent ++ pending c.buf)
    × IsWritable c'.buf
    × ((n : ℕ) → r ≡ ok (done, n) → pending c'.buf ≡ [])

unsent-pending : (b : Buffer) → IsWritable b → Buffer.unsent b ≡ some (pending b)
unfolding Buffer.unsent pending
unsent-pending b w = ground (arith, w.written, w.stored)

length-pending : (b : Buffer) → IsWritable b → length (pending b) ≡ b.end - b.wpos
unfolding pending
length-pending b w = omega (
  arith,
  w.written,
  w.stored,
  length-take (b.end - b.wpos) (drop b.wpos b.bytes),
  length-drop b.wpos b.bytes,
)

take-min : (n : ℕ) (bs : Text) → take n bs ++ drop (min n (length bs)) bs ≡ bs
take-min n [] = rw (take-nil {A = ℕ} n, drop-nil {A = ℕ} (min n 0)) refl
take-min zero (b ∷ bs) = simp unary_clauses refl
take-min (suc n) (b ∷ bs) = simp unary_clauses (ap (λ t. b ∷ t) (take-min n bs))

-- What one write takes and leaves.
abbrev Written : Buffer → Buffer × Result ErrorKind (Bool × ℕ) × Text → Type 0
Written b (b', res, bs) =
    (bs ++ pending b' ≡ pending b)
    × IsWritable b'
    × ((n : ℕ) → flush_result res ≡ some (ok (done, n)) → pending b' ≡ [])

pending-wrote :
    (k : ℕ) (b : Buffer)
    → b.wpos + k ≤ b.end
    → pending (record b { wpos = b.wpos + k }) ≡ drop k (pending b)
unfolding pending
pending-wrote k b h =
    let e : min (b.wpos + k) b.end ≡ b.wpos + k = omega arith in
    let moved = window-drop k b.wpos b.end b.bytes (omega arith) in
    subst
      (λ i.
        take (b.end - i) (drop i b.bytes) ≡ drop k (take (b.end - b.wpos) (drop b.wpos b.bytes)))
      e moved

pending_none : (b : Buffer) → b.wpos ≡ b.end → pending b ≡ []
unfolding pending
pending_none b h = take_none (b.end - b.wpos) (drop b.wpos b.bytes) (omega arith)

wrote-Written :
    (n : ℕ) (b : Buffer)
    → IsWritable b
    → let k = min n (length (pending b)) in
      let (b', all) = Buffer.wrote k b in Written b (b', ok (all, k), take n (pending b))
unfolding Buffer.wrote
wrote-Written n b w =
    let k = min n (length (pending b)) in
    let fits : b.wpos + k ≤ b.end = omega (arith, length-pending b w, w.written) in
    let b' : Buffer = record b { wpos = b.wpos + k } in
    let kept : take n (pending b) ++ pending b' ≡ pending b =
      rw (pending-wrote k b fits) (take-min n (pending b)) in
    let w' : IsWritable b' = record { written = fits; stored = w.stored } in
    elim (Bool-cases ((b.wpos + k) == b.end)) [
      | inl all ↦ rw all (kept, w', λ m q. pending_none b' ((==_iff _ _).0 all))
      | inr left ↦ rw left (kept, w', λ m q. cc)
    ]

failed-Written : (k : ErrorKind) (b : Buffer) → IsWritable b → Written b (b, err k, [])
failed-Written interrupted b w = (refl, w, λ m q. cc)
failed-Written timed_out b w = (refl, w, λ m q. cc)
failed-Written would_block b w = (refl, w, λ m q. cc)
failed-Written (other e) b w = (refl, w, λ m q. cc)

write_buffer-Written :
    (answer : Outgoing) (b : Buffer)
    → IsWritable b
    → (out : Buffer × Result ErrorKind (Bool × ℕ) × Text) × (write_buffer answer b ≡ some out)
      × Written b out
unfolding write_buffer
write_buffer-Written (Outgoing.accepts n) b w =
    let k = min n (length (pending b)) in
    let out : Buffer × Result ErrorKind (Bool × ℕ) × Text =
      ((Buffer.wrote k b).0, ok ((Buffer.wrote k b).1, k), take n (pending b)) in
    (out, rw (unsent-pending b w, write_buffer) refl, wrote-Written n b w)
write_buffer-Written (Outgoing.failed k) b w =
    ((b, err k, []), rw (unsent-pending b w, write_buffer) refl, failed-Written k b w)

ended : (c : Client) → IsWritable c.buf → ltb c.buf.wpos c.buf.end ≡ false → pending c.buf ≡ []
ended c w h = pending_none c.buf (ground (arith, w.written))

over-Flushed :
    (c : Client)
    → IsWritable c.buf
    → ltb c.buf.wpos c.buf.end ≡ false
    → Flushed c (c, some (ok (done, 0)))
over-Flushed c w h = (refl, w, λ n q. ended c w h)

sent_on-Flushed :
    (c : Client) (script : List Outgoing) (b : Buffer) (res : Result ErrorKind (Bool × ℕ))
    (bs : Text) (r : Result CoreError (Code × ℕ))
    → Written c.buf (b, res, bs)
    → flush_result res ≡ some r
    → Flushed c (sent_on c script b bs, some r)
sent_on-Flushed c script b res bs r (kept, w', all) e = (
  append_assoc c.sent bs (pending b) ∙ ap (λ t. c.sent ++ t) kept,
  w',
  λ n q. all n (e ∙ ap some q),
)

go_on-Flushed :
    (c : Client) (script : List Outgoing) (b : Buffer) (bs : Text)
    (out : Client × Option (Result CoreError (Code × ℕ)))
    → bs ++ pending b ≡ pending c.buf
    → Flushed (sent_on c script b bs) out
    → Flushed c out
go_on-Flushed c script b bs (c', none) kept h = h
go_on-Flushed c script b bs (c', some r) kept (same, w', all) =
    (same ∙ append_assoc c.sent bs (pending b) ∙ ap (λ t. c.sent ++ t) kept, w', all)

flush_loop-Flushed :
    (script : List Outgoing) (c : Client) → IsWritable c.buf → Flushed c (flush_loop script c)
unfolding flush_loop write_buffer
flush_loop-Flushed [] c w = elim (Bool-cases (ltb c.buf.wpos c.buf.end)) [
  | inr over ↦ rw (over, flush_loop) (over-Flushed c w over)
  | inl left ↦
      rw (left, unsent-pending c.buf w, flush_loop, write_buffer)
        (sent_on-Flushed c [] c.buf (err would_block) [] (ok (again, 0))
          (failed-Written would_block c.buf w) refl)
]
flush_loop-Flushed (answer ∷ script) c w = elim (Bool-cases (ltb c.buf.wpos c.buf.end)) [
  | inr over ↦ rw (over, flush_loop) (over-Flushed c w over)
  | inl left ↦
      let ((b, res, bs), e, (kept, w', all)) = write_buffer-Written answer c.buf w in
      let c' = sent_on c script b bs in
      elim (Option-cases (flush_result res)) [
        | inr (r, q) ↦
            rw (left, e, q, flush_loop) (sent_on-Flushed c script b res bs r (kept, w', all) q)
        | inl q ↦
            rw (left, e, q, flush_loop)
              (go_on-Flushed c script b bs (flush_loop script c') kept
                (flush_loop-Flushed script c' w'))
      ]
]

-- On a buffer whose write positions are in order, `flush` returns on every socket; what it sent and what
-- it has still to send are together what there was to send, in order; with `OK` nothing is left; the
-- positions stay in order.
pub flush-Flushed : (c : Client) → IsWritable c.buf → Flushed c (flush c)
unfolding flush
flush-Flushed c w = flush_loop-Flushed c.outgoing c w

-- On a buffer in order that holds nothing behind its end, `write` adds the text to what `flush` sends.
pub write-pending :
    (s : Text) (c : Client)
    → IsWritable c.buf
    → c.buf.end ≡ length c.buf.bytes
    → pending (write s c).buf ≡ pending c.buf ++ s
unfolding write pending Buffer.extend
write-pending s c w full =
    let b = c.buf in
    take-all (b.end + length s - b.wpos) (drop b.wpos (b.bytes ++ s))
      (omega (arith, length-append b.bytes s, length-drop b.wpos (b.bytes ++ s)))
    ∙ drop-append_le b.wpos b.bytes s (omega (arith, w.written))
    ∙ ap (λ t. t ++ s)
        (sym (
          take-all (b.end - b.wpos) (drop b.wpos b.bytes)
            (omega (arith, length-drop b.wpos b.bytes))))

-- On a buffer with that much room behind its end, which a read leaves, what `flush` sends after a `write`
-- is old contents of the buffer and none of the text.
pub write-stale :
    (s : Text) (c : Client)
    → c.buf.wpos ≤ c.buf.end
    → c.buf.end + length s ≤ length c.buf.bytes
    → pending (write s c).buf
      ≡ take (c.buf.end + length s - c.buf.wpos) (drop c.buf.wpos c.buf.bytes)
unfolding write pending Buffer.extend
write-stale s c h room =
    let b = c.buf in
    rw (drop-append_le b.wpos b.bytes s (omega arith)) (
      take-append_le (b.end + length s - b.wpos) (drop b.wpos b.bytes) s
        (omega (arith, length-drop b.wpos b.bytes)))
