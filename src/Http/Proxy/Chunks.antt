-- ===== src/Http/Proxy/Chunks.antt =====
-- http/plugins/proxy.rs: the body of a response that is sent in chunks.
use ws_platform.Common.{
  ℕ, zero, suc, ◌+◌, ◌^◌, ◌%◌, ◌<◌, Text, none, some, true, false, ◌≡◌, ◌≢◌, refl, List, [], ◌∷◌,
  ◌++◌, length, arith, All, ◌==◌, ap, sym, ◌∙◌, append_assoc, length-append, append-nil,
}
use ws_platform.Error.{ok, done}
use ws_platform.Client.Signals.{Signal, byte, bytes_of}
use ws_platform.Http.Scan.{run}
use ws_platform.Http.Request.Line.{read_more, push}
use ws_platform.Http.Response.{append_body}
use ws_platform.Http.Proxy.{Proxied}
use ws_platform.Http.Proxy.Body.{
  parse_hex, step_size, step_chunk, set_chunk, closed_body, on_response,
}
use ws_platform.Http.Proxy.Follows.{chunk_signals, then_signals, bytes_signals}

abbrev pub crlf : Text
crlf = 13 ∷ 10 ∷ []

-- A chunk as it is sent: the text of its size, and its data.
abbrev pub Chunk : Type 0
Chunk = Text × Text

abbrev pub IsLine : Text → Type 0
IsLine = All (λ c. (c ≢ 13) × (c ≢ 10))

-- The text is a size in hexadecimal, which is that of the data.
pub record IsChunk (h : Chunk) : Type 0 where
  pub line : IsLine h.0
  pub size : parse_hex h.0 ≡ ok (length h.1)
  pub full : 0 < length h.1
  pub small : 2 + length h.1 < 2 ^ 64

-- The chunks, the line of the last chunk, and what follows.
abbrev pub encoded : List Chunk → Text → List Signal → List Signal
encoded [] z ss = bytes_of z ++ (byte 13 ∷ byte 10 ∷ ss)
encoded ((h, d) ∷ cs) z ss =
    bytes_of h ++ (byte 13 ∷ byte 10 ∷ (bytes_of (d ++ crlf) ++ encoded cs z ss))

-- The response with the data of the chunks.
abbrev pub appended : List Chunk → Proxied → Proxied
appended [] p = p
appended ((h, d) ∷ cs) p = appended cs (set_chunk [] none (on_response (append_body d) p))

pub run_line :
    (h acc : Text) (p : Proxied) (ss : List Signal)
    → IsLine h
    → run step_size (read_more closed_body) (set_chunk acc none p) (bytes_of h ++ ss)
      ≡ run step_size (read_more closed_body) (set_chunk (acc ++ h) none p) ss
unfolding run step_size
run_line [] acc p ss l = rw (append-nil acc) refl
run_line (c ∷ h) acc p ss ((a, b), l) =
    let cr : (c == 13) ≡ false = ground (arith, a) in
    let lf : (c == 10) ≡ false = ground (arith, b) in
    rw (cr, lf, run, step_size)
      (run_line h (acc ++ c ∷ []) p ss l ∙ rw (sym (append_assoc acc (c ∷ []) h)) refl)

pub run_size :
    (t : Text) (n : ℕ) (p : Proxied) (ss : List Signal)
    → parse_hex t ≡ ok n
    → 0 < n
    → run step_size (read_more closed_body) (set_chunk t none p) (byte 13 ∷ byte 10 ∷ ss)
      ≡ (set_chunk [] (some n) p, ss, ok done)
unfolding run step_size
run_size t zero p ss e h = absurd (omega arith)
run_size t (suc n) p ss e h = rw (e, run, step_size) refl

run_last :
    (t : Text) (p : Proxied) (ss : List Signal)
    → parse_hex t ≡ ok 0
    → run step_size (read_more closed_body) (set_chunk t none p) (byte 13 ∷ byte 10 ∷ ss)
      ≡ (set_chunk [] none p, ss, ok done)
unfolding run step_size
run_last t p ss e = rw (e, run, step_size) refl

run_data :
    (size : ℕ) (d acc : Text) (p : Proxied) (ss : List Signal)
    → 2 + size < 2 ^ 64
    → length acc + length d ≡ 2 + size
    → 0 < length d
    → run (step_chunk size) (read_more closed_body) (set_chunk acc (some size) p) (bytes_of d ++ ss)
      ≡ (set_chunk (acc ++ d) (some size) p, ss, ok done)
unfolding run step_chunk
run_data size [] acc p ss small whole h = absurd (omega (arith, h))
run_data size (c ∷ []) acc p ss small whole h =
    let last : (((2 + size) % 2 ^ 64) == length (push c acc)) ≡ true =
      ground (arith, length-append acc (c ∷ []), small, whole) in
    rw (last, run, step_chunk) refl
run_data size (c ∷ b ∷ d) acc p ss small whole h =
    let more : (((2 + size) % 2 ^ 64) == length (push c acc)) ≡ false =
      ground (arith, length-append acc (c ∷ []), small, whole) in
    rw (more, run, step_chunk)
      (run_data size (b ∷ d) (acc ++ c ∷ []) p ss small
          (omega (arith, length-append acc (c ∷ []), whole)) (omega arith)
        ∙ rw (sym (append_assoc acc (c ∷ []) (b ∷ d))) refl)

-- A response between two chunks.
abbrev pub IsBetween : Proxied → Type 0
IsBetween p = p.context.chunk ≡ ([], none)

pub chunk_signals-chunk :
    (h d : Text) (p : Proxied) (ss : List Signal)
    → IsChunk (h, d)
    → chunk_signals
        (set_chunk [] none p)
        (bytes_of h ++ (byte 13 ∷ byte 10 ∷ (bytes_of (d ++ crlf) ++ ss)))
      ≡ (set_chunk (d ++ crlf) (some (length d)) p, ss, ok done)
unfolding chunk_signals
chunk_signals-chunk h d p ss c =
    let rest = bytes_of (d ++ crlf) ++ ss in
    ap (λ o. then_signals o (λ p. bytes_signals p.context.chunk.1 p))
      (run_line h [] p (byte 13 ∷ byte 10 ∷ rest) c.line
        ∙ run_size h (length d) p rest c.size c.full)
    ∙ run_data (length d) (d ++ crlf) [] p ss c.small (omega (arith, length-append d crlf))
        (omega (arith, length-append d crlf))

pub chunk_signals-last :
    (z : Text) (p : Proxied) (ss : List Signal)
    → IsLine z
    → parse_hex z ≡ ok 0
    → chunk_signals (set_chunk [] none p) (bytes_of z ++ (byte 13 ∷ byte 10 ∷ ss))
      ≡ (set_chunk [] none p, ss, ok done)
unfolding chunk_signals
chunk_signals-last z p ss l e =
    ap (λ o. then_signals o (λ p. bytes_signals p.context.chunk.1 p))
      (run_line z [] p (byte 13 ∷ byte 10 ∷ ss) l ∙ run_last z p ss e)
