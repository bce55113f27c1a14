-- ===== src/Http/Proxy/Faults.antt =====
-- http/plugins/proxy.rs: a chunk whose size overflows.
use ws_platform.Common.{
  ℕ, suc, ◌+◌, ◌-◌, ◌^◌, Text, none, some, true, false, ◌≡◌, refl, List, [], ◌∷◌, ◌++◌, length,
  arith, ap, sym, ◌∙◌, subst,
}
use ws_platform.Error.{ok, done}
use ws_platform.Buffer.Laws.{IsValid}
use ws_platform.Client.{Client}
use ws_platform.Client.Signals.{Signal, byte, bytes_of, ahead}
use ws_platform.Http.Scan.{run, enough}
use ws_platform.Http.Response.{chunked}
use ws_platform.Http.Proxy.{Proxied, Parsed, enter, st_body, past}
use ws_platform.Http.Proxy.Body.{
  parse_hex, step_chunk, set_chunk, read_chunk, after_chunk, append_chunk, chunk_loop, read_body,
}
use ws_platform.Http.Proxy.Follows.{
  Follows, chunk_signals, read_chunk-Follows, then_signals, bytes_signals,
}
use ws_platform.Http.Proxy.Chunks.{IsLine, run_line, run_size}
use ws_platform.Http.Proxy.ChunkedBody.{and_then-done}

-- The largest size that is accepted.
abbrev pub huge : ℕ
huge = 2 ^ 64 - 1

chunk_signals-huge :
    (h : Text) (x : ℕ) (p : Proxied) (ss : List Signal)
    → IsLine h
    → parse_hex h ≡ ok huge
    → chunk_signals (set_chunk [] none p) (bytes_of h ++ (byte 13 ∷ byte 10 ∷ byte x ∷ ss))
      ≡ (set_chunk (x ∷ []) (some huge) p, ss, ok done)
unfolding chunk_signals run step_chunk
chunk_signals-huge h x p ss l e =
    ap (λ o. then_signals o (λ p. bytes_signals p.context.chunk.1 p))
      (run_line h [] p (byte 13 ∷ byte 10 ∷ byte x ∷ ss) l
        ∙ run_size h huge p (byte x ∷ ss) e (omega arith))

after_chunk-huge :
    (x : ℕ) (p : Proxied) (next : Proxied → Client → Parsed) (c : Client)
    → (after_chunk next (set_chunk (x ∷ []) (some huge) p) c).2 ≡ none
unfolding append_chunk
after_chunk-huge x p next c = refl

-- On a response in chunks between two of them, a chunk that claims the size 2 ^ 64 - 1 and has one byte
-- makes `read_body` panic, however the bytes are cut into reads: the length that ends the chunk has
-- wrapped round to 1, and the slice of the data is out of range.
pub read_body-huge :
    (h : Text) (x : ℕ) (ss : List Signal) (p : Proxied) (c : Client)
    → IsLine h
    → parse_hex h ≡ ok huge
    → IsValid c.buf
    → ahead c ≡ bytes_of h ++ (byte 13 ∷ byte 10 ∷ byte x ∷ ss)
    → past st_body p ≡ false
    → p.response.content_length ≡ none
    → chunked p.response ≡ true
    → p.context.chunk ≡ ([], none)
    → (read_body p c).2 ≡ none
unfolding read_body chunk_loop
read_body-huge h x ss p c l e v a early len k begun =
    let p' = enter st_body p in
    let q = set_chunk [] none p' in
    let same : q ≡ p' = ap (λ k. set_chunk k.0 k.1 p') (sym begun) in
    let full = set_chunk (x ∷ []) (some huge) p' in
    let fuel = suc (length c.buf.bytes) + enough c in
    let got =
      subst (Follows (read_chunk q c))
        (ap (λ t. chunk_signals q t) a ∙ chunk_signals-huge h x p' ss l e)
        (read_chunk-Follows q c v) in
    let next = after_chunk (chunk_loop fuel) in
    let panics : (chunk_loop (suc fuel) q c).2 ≡ none =
      ap (λ o. o.2) (and_then-done (read_chunk q c) full ss next got)
      ∙ after_chunk-huge x p' (chunk_loop fuel) (read_chunk q c).1 in
    rw (early, len, k, read_body) (subst (λ x. (chunk_loop (suc fuel) x c).2 ≡ none) same panics)
