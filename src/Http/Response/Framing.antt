-- ===== src/Http/Response/Framing.antt =====
-- http/internal/response.rs: how the framing headers of a response agree with its state.
use ws_platform.Common.{
  ℕ, zero, suc, ◌≤◌, ◌<◌, Text, codes, Option, none, some, Bool, true, false, not, ◌&&◌, ◌≡◌, refl,
  ap, ◌∙◌, List, [], ◌∷◌, ◌++◌, length, ltb, Eq, arith, split, Bool-cases, Option-cases, inl, inr,
  ◌⊎◌, get_or, lookup-remove, trim,
}
use mathlib.Core.Option
use Prim.Native.Nat.{bit_or}
use ws_platform.KeyVal
use ws_platform.KeyVal.{Key, key, KeyVal}
use ws_platform.KeyVal.Laws
use ws_platform.KeyVal.Laws.{values}
use ws_platform.Http.Types.{HttpProtocol, http10, http11}
use ws_platform.Http.Encoding.{is_chunked, set_chunked, clear_chunked}
use ws_platform.Http.Encoding
use ws_platform.Http.Request.{HttpRequest}
use ws_platform.Http.Response.{
  HttpResponse, without_body, by_length, bodiless, read_encoding, frame, decimal, header_exact,
  append_body, chunked, replace_header, covering,
}

-- A set of the five codings, as a number, and the chunked bit in it.
abbrev well_set : ℕ → Bool
well_set te =
    ltb (bit_or te 1) 32
    && ltb (bit_or te 2) 32
    && ltb (bit_or te 4) 32
    && ltb (bit_or te 8) 32
    && ltb (bit_or te 16) 32
    && not (is_chunked (clear_chunked te))
    && is_chunked (set_chunked te)

sets_upto : ℕ → Bool
sets_upto zero = well_set zero
sets_upto (suc te) = sets_upto te && well_set (suc te)

sets_upto-well_set : (last te : ℕ) → te < suc last → sets_upto last ≡ true → well_set te ≡ true
unfolding sets_upto
sets_upto-well_set zero zero below all = all
sets_upto-well_set zero (suc te) below all = absurd (omega arith)
sets_upto-well_set (suc last) te below all = ground (arith, all, sets_upto-well_set last te)

all_sets : sets_upto 31 ≡ true
unfolding sets_upto
all_sets = refl

parse_below : (v : Text) (te : ℕ) → te < 32 → Encoding.parse v te < 32
unfolding Encoding.parse
parse_below v te h = ground (arith, sets_upto-well_set 31 te h all_sets)

parse_all-below : (vs : List Text) (te : ℕ) → te < 32 → Encoding.parse_all vs te < 32
unfolding Encoding.parse_all
parse_all-below [] te h = h
parse_all-below (v ∷ vs) te h =
    parse_all-below vs (Encoding.parse (trim v) te) (parse_below (trim v) te h)

new-below : (h : Option Text) → Encoding.new h < 32
unfolding Encoding.new
new-below none = omega arith
new-below (some t) = parse_all-below (split b',' t) 0 (omega arith)

-- The chunked bit of the codings that a header names, after it is cleared and after it is set.
new-chunked :
    (h : Option Text)
    → (is_chunked (clear_chunked (Encoding.new h)) ≡ false)
      × (is_chunked (set_chunked (Encoding.new h)) ≡ true)
new-chunked h =
    let fine = sets_upto-well_set 31 (Encoding.new h) (new-below h) all_sets in
    (ground (arith, fine), ground (arith, fine))

Protocol-cases : (p : HttpProtocol) → (p ≡ http10) ⊎ (p ≡ http11)
Protocol-cases http10 = inl refl
Protocol-cases http11 = inr refl

module _ ⦃e : Eq Key⦄ where
  exact_other :
      (name other : Text) (v : Option Text) (m : KeyVal Text)
      → e.same (key name) (key other) ≡ false
      → KeyVal.exact other (KeyVal.replace name v m) ≡ KeyVal.exact other m
  exact_other name other v m apart = rw (
    (Laws.exact-first other (KeyVal.replace name v m)).1,
    (Laws.exact-first other m).1,
    Laws.values-replace name (key other) v m,
    apart,
  )

  removed : (name : Text) (m : KeyVal Text) → values (key name) (KeyVal.remove_name name m) ≡ []
  unfolding KeyVal.remove_name
  removed name m = rw (lookup-remove (key name) (key name) m, e.same_refl (key name))

  exact_removed :
      (name : Text) (m : KeyVal Text) → KeyVal.exact name (KeyVal.remove_name name m) ≡ none
  unfolding KeyVal.remove_name
  exact_removed name m =
      rw ((Laws.exact-first name (KeyVal.remove_name name m)).1) (ap Laws.first (removed name m))

  exact_put : (name v : Text) (m : KeyVal Text) → KeyVal.exact name (KeyVal.set name v m) ≡ some v
  exact_put name v m = rw (Laws.exact-set name name v m, e.same_refl (key name))

  abbrev length_name : Text
  length_name = codes "Content-Length"

  abbrev coding_name : Text
  coding_name = codes "Transfer-Encoding"

  -- The header and the state of a framed response agree, for a protocol.
  abbrev pub Framed : HttpProtocol → HttpResponse → Type 0
  Framed protocol r =
      (chunked r ≡ true → r.content_length ≡ none)
      × (header_exact length_name r ≡ Option.map decimal r.content_length)
      × (bodiless r.status ≡ false → protocol ≡ http11 → r.content_length ≡ none → chunked r ≡ true)
      × (bodiless r.status ≡ true → r.body ≡ none)

  without_body-Framed :
      (protocol : HttpProtocol) (r : HttpResponse)
      → bodiless r.status ≡ true
      → Framed protocol (without_body (read_encoding r))
  without_body-Framed protocol r h =
      let coding = header_exact coding_name r in
      (λ q. refl, exact_removed length_name r.headers, λ b q n. cc, λ b. refl)

  by_length-Framed :
      (request : HttpRequest) (r : HttpResponse)
      → bodiless r.status ≡ false
      → Framed request.protocol (by_length request (read_encoding r))
  by_length-Framed request r h =
      let (off, on) = new-chunked (header_exact coding_name r) in
      elim (Option-cases r.content_length) [
        | inr (n, e) ↦ rw e (
          λ q. cc (off, q),
          exact_put length_name (decimal n) r.headers,
          λ b q m. cc,
          λ b. cc (h, b),
        )
        | inl e ↦ elim (Protocol-cases request.protocol) [
          | inl old ↦
              rw (e, old)
                (λ q. refl, exact_removed length_name r.headers, λ b q m. cc, λ b. cc (h, b))
          | inr current ↦
              rw (e, current)
                (λ q. refl, exact_removed length_name r.headers, λ b q m. on, λ b. cc (h, b))
        ]
      ]

  put_coding-Framed :
      (protocol : HttpProtocol) (v : Option Text) (r : HttpResponse)
      → e.same (key coding_name) (key length_name) ≡ false
      → Framed protocol r
      → Framed protocol (replace_header coding_name v r)
  put_coding-Framed protocol v r apart (single, shown, delimited, bare) =
      elim (Bool-cases r.headers_sent) [
        | inl over ↦ rw over (single, shown, delimited, bare)
        | inr open_still ↦
            rw open_still (
              single,
              exact_other coding_name length_name v r.headers apart ∙ shown,
              delimited,
              bare,
            )
      ]

  -- The step of `flush_headers` that settles how the body is delimited, where the keys `Transfer-Encoding`
  -- and `Content-Length` differ: a chunked response has no content length; the header `Content-Length` is
  -- the content length in decimal, and is absent without one; over HTTP/1.1 a response that may have
  -- a body and has no content length is chunked; a response without a body by its status has none.
  pub frame-Framed :
      (request : HttpRequest) (r : HttpResponse)
      → e.same (key coding_name) (key length_name) ≡ false
      → Framed request.protocol (frame request r)
  unfolding frame
  frame-Framed request r apart = elim (Bool-cases (bodiless r.status)) [
    | inl bare ↦
        rw (bare, frame)
          (put_coding-Framed request.protocol _ (without_body (read_encoding r)) apart
            (without_body-Framed request.protocol r bare))
    | inr full ↦
        rw (full, frame)
          (put_coding-Framed request.protocol _ (by_length request (read_encoding r)) apart
            (by_length-Framed request r full))
  ]

-- How a body that is appended to relates to the content length.
abbrev pub Appended : Text → HttpResponse → HttpResponse → Type 0
Appended chunk r r' =
    (r'.body ≡ some (get_or r.body [] ++ chunk))
    × (chunked r ≡ true → r'.content_length ≡ r.content_length)
    × (chunked r ≡ false
        → r.headers_sent ≡ false
        → (n : ℕ) × (r'.content_length ≡ some n) × (length (get_or r.body [] ++ chunk) ≤ n))

covering-le : (len : ℕ) (o : Option ℕ) → len ≤ covering len o
covering-le len none = omega arith
covering-le len (some n) = ground arith

-- `append_body` adds the bytes to the body; on a chunked response it leaves the content length, and on
-- another whose headers are not sent the content length covers the body.
pub append_body-Appended :
    (chunk : Text) (r : HttpResponse) → Appended chunk r (append_body chunk r)
unfolding append_body
append_body-Appended chunk r =
    let len = length (get_or r.body [] ++ chunk) in
    elim (Bool-cases (chunked r)) [
      | inl on ↦ rw (on, append_body) (refl, λ q. refl, λ q. cc)
      | inr off ↦ elim (Bool-cases r.headers_sent) [
        | inl over ↦ rw (off, over, append_body) (refl, λ q. refl, λ q h. cc)
        | inr open_still ↦
            rw (off, open_still, append_body)
              (
                refl,
                λ q. cc,
                λ q h. (covering len r.content_length, refl, covering-le len r.content_length),
              )
      ]
    ]
