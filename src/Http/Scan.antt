-- ===== src/Http/Scan.antt =====
-- The loop that every parser of http/internal/request.rs runs: take the bytes of the buffer one by
-- one, and read more when it is used up. The state `S` is what the parser changes.
use ws_platform.Common.{
  ℕ, zero, suc, ◌-◌, ◌≤◌, ◌<◌, Text, Option, none, some, true, false, ◌≡◌, refl, ◌≢◌, List, [], ◌∷◌,
  ◌++◌, length, arith, ap, ◌∙◌, inl, inr, Bool-cases, length-append, length-map, take_none, drop,
  ◌⊎◌,
}
use ws_platform.Error.{Result, ok, err, Code, done, again, declined, CoreError, HttpResult}
use ws_platform.Buffer.{Buffer}
use ws_platform.Buffer
use ws_platform.Buffer.Laws
use ws_platform.Buffer.Laws.{IsValid, unread}
use ws_platform.Client.{Client, read}
use ws_platform.Client.Signals.{
  Signal, byte, stop, bytes_of, signals, ahead, Delivers, read-Delivers,
}

-- What a parser does with one byte: go on, or return. `panics` stands for an index out of range.
pub data Verdict (S : Type 0) : Type 0 where
  more : S → Verdict S
  returns : S → HttpResult → Verdict S
  panics : Verdict S

module _ {S : Type 0} (step : S → ℕ → Verdict S) where
  -- `while !client.buf.end() { match client.buf.getc() { … } }`
  unfoldable pub drain : ℕ → S → Buffer → Buffer × Verdict S
  drain zero s b = (b, more s)
  drain (suc rounds) s b = elim (Buffer.at_end b) [
    | true ↦ (b, more s)
    | false ↦ elim (Buffer.getc b) [
      | none ↦ (b, panics)
      | some (c, b') ↦ elim (step s c) [ more s' ↦ drain rounds s' b' | other ↦ (b', other) ]
    ]
  ]

  -- The arms of `match client.read()`, where `closed` says what the parser returns for a read that
  -- brought no bytes, given the length of the buffer (`none` where `len` panics), and `again` is the next round of the loop.
  abbrev pub after_read :
      (S → Client → S × Client × Option HttpResult)
      → (Option ℕ → Result CoreError Code → HttpResult)
      → S
      → Client × Result CoreError Code
      → S × Client × Option HttpResult
  after_read round closed s (c, ok done) = round s c
  after_read round closed s (c, ok again) = (s, c, some (closed (Buffer.len c.buf) (ok again)))
  after_read round closed s (c, ok declined) =
      (s, c, some (closed (Buffer.len c.buf) (ok declined)))
  after_read round closed s (c, err e) = (s, c, some (closed (Buffer.len c.buf) (err e)))

  abbrev pub after_drain :
      (S → Client → S × Client × Option HttpResult)
      → (Option ℕ → Result CoreError Code → HttpResult)
      → S
      → Client
      → Buffer × Verdict S
      → S × Client × Option HttpResult
  after_drain round closed s c (b, more s') =
      after_read round closed s' (read (record c { buf = b }))
  after_drain round closed s c (b, returns s' r) = (s', record c { buf = b }, some r)
  after_drain round closed s c (b, panics) = (s, c, none)

  -- `loop { while … ; match client.read() { … } }`. No result means that the parser panicked or that
  -- the fuel ran out.
  unfoldable pub scan :
      (Option ℕ → Result CoreError Code → HttpResult)
      → ℕ
      → S
      → Client
      → S × Client × Option HttpResult
  scan closed zero s c = (s, c, none)
  scan closed (suc fuel) s c =
      let round = scan closed fuel in
      after_drain round closed s c (drain (c.buf.end - c.buf.rpos) s c.buf)

  -- The parser over the signals of the socket: no buffer, no chunks.
  unfoldable pub run :
      (Option ℕ → Result CoreError Code → HttpResult)
      → S
      → List Signal
      → S × List Signal × HttpResult
  run closed s [] = (s, [], closed (some 0) (ok again))
  run closed s (stop r ∷ ss) = (s, ss, closed (some 0) r)
  run closed s (byte c ∷ ss) = elim (step s c) [
    | more s' ↦ run closed s' ss
    | returns s' r ↦ (s', ss, r)
    | panics ↦ (s, ss, closed (some 0) (ok again))
  ]

pub length_pos : (t : Text) → t ≢ [] → 0 < length t
length_pos [] h = absurd (h refl)
length_pos (c ∷ t) h = omega arith

empty_len : (b : Buffer) → IsValid b → unread b ≡ [] → Buffer.len b ≡ some 0
empty_len b v u = rw (Laws.len-unread b v, u) refl

-- Fuel that suffices: one round for each signal that the socket has still to give, and one more.
abbrev pub enough : Client → ℕ
enough c = suc (length (signals c.incoming))

module _ {S : Type 0} (step : S → ℕ → Verdict S) (total : (s : S) (c : ℕ) → step s c ≢ panics)
    (closed : Option ℕ → Result CoreError Code → HttpResult) where
  abbrev Drained : S → Text → Buffer → Verdict S → Type 0
  Drained s text b (more s') =
      (unread b ≡ [])
      × ((ss : List Signal) → run step closed s (bytes_of text ++ ss) ≡ run step closed s' ss)
  Drained s text b (returns s' r) =
      (ss : List Signal)
      → run step closed s (bytes_of text ++ ss) ≡ (s', bytes_of (unread b) ++ ss, r)
  Drained s text b panics = ⊥

  Verdict-cases :
      (v : Verdict S)
      → ((s' : S) × (v ≡ more s'))
        ⊎ ((s' : S) × (r : HttpResult) × (v ≡ returns s' r))
        ⊎ (v ≡ panics)
  Verdict-cases (more s') = inl (s', refl)
  Verdict-cases (returns s' r) = inr (inl (s', r, refl))
  Verdict-cases panics = inr (inr refl)

  run-more :
      (s s' : S) (c : ℕ) (ss : List Signal)
      → step s c ≡ more s'
      → run step closed s (byte c ∷ ss) ≡ run step closed s' ss
  unfolding run
  run-more s s' c ss e = rw (e, run)

  run-returns :
      (s s' : S) (c : ℕ) (r : HttpResult) (ss : List Signal)
      → step s c ≡ returns s' r
      → run step closed s (byte c ∷ ss) ≡ (s', ss, r)
  unfolding run
  run-returns s s' c r ss e = rw (e, run)

  Drained-more :
      (s s' : S) (c : ℕ) (text : Text) (b : Buffer) (v : Verdict S)
      → step s c ≡ more s'
      → Drained s' text b v
      → Drained s (c ∷ text) b v
  Drained-more s s' c text b (more t) e (u, d) = (u, λ ss. run-more s s' c _ e ∙ d ss)
  Drained-more s s' c text b (returns t r) e d = λ ss. run-more s s' c _ e ∙ d ss
  Drained-more s s' c text b panics e d = d

  drain-Drained :
      (rounds : ℕ) (s : S) (b : Buffer)
      → IsValid b
      → b.end - b.rpos ≤ rounds
      → let (b', v) = drain step rounds s b in IsValid b' × Drained s (unread b) b' v
  unfolding drain
  drain-Drained zero s b v h =
      let u = take_none (b.end - b.rpos) (drop b.rpos b.bytes) (omega arith) in
      (v, (u, λ ss. ap (λ t. run step closed s (bytes_of t ++ ss)) u))
  drain-Drained (suc rounds) s b v h = elim (Bool-cases (Buffer.at_end b)) [
    | inl over ↦
        let u = Laws.at_end-unread b v over in
        rw (over, drain) (v, (u, λ ss. ap (λ t. run step closed s (bytes_of t ++ ss)) u))
    | inr left ↦
        let (c, b', got, cut, v', same) = Laws.getc-unread b v left in
        elim (Verdict-cases (step s c)) [
          | inl (s', e) ↦
              let (v'', d) =
                drain-Drained rounds s' b' v' (
                  omega (arith, Laws.length-unread b v, Laws.length-unread b' v', ap length cut)) in
              rw (left, got, cut, e, drain)
                (v'', Drained-more s s' c (unread b') (drain step rounds s' b').0 _ e d)
          | inr (inl (s', r, e)) ↦
              rw (left, got, cut, e, drain) (v', λ ss. run-returns s s' c r _ e)
          | inr (inr e) ↦ absurd (total s c e)
        ]
  ]

  abbrev pub Agrees : S × Client × Option HttpResult → S × List Signal × HttpResult → Type 0
  Agrees (s, c, r) (t, ss, q) = (s ≡ t) × (r ≡ some q) × (ahead c ≡ ss) × IsValid c.buf

  after_read_stops :
      (round : S → Client → S × Client × Option HttpResult) (s : S) (c : Client)
      (r : Result CoreError Code)
      → r ≢ ok done
      → after_read step round closed s (c, r) ≡ (s, c, some (closed (Buffer.len c.buf) r))
  after_read_stops round s c (ok done) h = absurd (h refl)
  after_read_stops round s c (ok again) h = refl
  after_read_stops round s c (ok declined) h = refl
  after_read_stops round s c (err e) h = refl

  after_read-Agrees :
      (round : S → Client → S × Client × Option HttpResult) (s : S) (ss : List Signal) (c : Client)
      (r : Result CoreError Code)
      → IsValid c.buf
      → Delivers ss c.buf c.incoming r
      → (length (signals c.incoming) < length ss → Agrees (round s c) (run step closed s (ahead c)))
      → Agrees (after_read step round closed s (c, r)) (run step closed s ss)
  unfolding run
  after_read-Agrees round s ss c r v (inl (e, u, d)) ih =
      rw (e, d)
        (ih (
          rw d (
            omega (
              arith,
              length-append (bytes_of (unread c.buf)) (signals c.incoming),
              length-map (unread c.buf) byte,
              length_pos (unread c.buf) u,
            ))))
  after_read-Agrees round s ss c r v (inr (inl (e, u, d))) ih =
      rw (d, after_read_stops round s c r e, empty_len c.buf v u, run) (refl, refl, rw u, v)
  after_read-Agrees round s ss c r v (inr (inr (e, u, n, k))) ih =
      rw (e, n, empty_len c.buf v u, run) (refl, refl, rw (u, k), v)

  after_drain-Agrees :
      (round : S → Client → S × Client × Option HttpResult) (s : S) (c : Client) (b : Buffer)
      (v : Verdict S)
      → IsValid b
      → Drained s (unread c.buf) b v
      → ((s' : S) (c' : Client)
          → IsValid c'.buf
          → length (signals c'.incoming) < length (signals c.incoming)
          → Agrees (round s' c') (run step closed s' (ahead c')))
      → Agrees (after_drain step round closed s c (b, v)) (run step closed s (ahead c))
  after_drain-Agrees round s c b (more s') w (u, d) ih =
      let (c', r) = read (record c { buf = b }) in
      let (w', gives) = read-Delivers (record c { buf = b }) in
      rw (d (signals c.incoming))
        (after_read-Agrees round s' (signals c.incoming) c' r w' gives (ih s' c' w'))
  after_drain-Agrees round s c b (returns s' r) w d ih =
      rw (d (signals c.incoming)) (refl, refl, refl, w)
  after_drain-Agrees round s c b panics w d ih = absurd d

  -- The parser that reads in chunks does what the parser over the signals does: it returns, with the
  -- same result and the same state, and leaves the same signals to come.
  pub scan-run :
      (fuel : ℕ) (s : S) (c : Client)
      → IsValid c.buf
      → length (signals c.incoming) < fuel
      → Agrees (scan step closed fuel s c) (run step closed s (ahead c))
  unfolding scan
  scan-run zero s c v h = absurd (omega arith)
  scan-run (suc fuel) s c v h =
      let (w, d) = drain-Drained (c.buf.end - c.buf.rpos) s c.buf v (omega arith) in
      after_drain-Agrees (scan step closed fuel) s c (drain step (c.buf.end - c.buf.rpos) s c.buf).0
        (drain step (c.buf.end - c.buf.rpos) s c.buf).1 w d
        λ s' c' w' less. scan-run fuel s' c' w' (omega arith)
