-- ===== src/Http/Response/Wire.antt =====
-- http/internal/response.rs: what `send_body_chunk` and `flush_headers` hand to the connection.
use ws_platform.Common.{
  Text, codes, some, true, false, ◌≡◌, refl, sym, ap, ◌∙◌, ◌++◌, length, arith, Eq, Bool-cases, inl,
  inr, append_assoc, subst, if◌then◌else◌, length-append,
}
use ws_platform.Error.{ok, done, HttpResult, http_throw}
use ws_platform.Buffer.{Buffer}
use ws_platform.Buffer
use ws_platform.KeyVal.{Key}
use ws_platform.Client.{Client, write}
use ws_platform.Client.Flush.{IsWritable, pending, write-pending}
use ws_platform.Http.Encoding.{is_chunked}
use ws_platform.Http.Response.{Exchange, hexadecimal, crlf}
use ws_platform.Http.Response.Send.{send_body_chunk, put_chunk, flush_headers, write_headers}

-- A connection that only writes: all that the buffer holds is up to its end.
pub record IsSending (c : Client) : Type 0 where
  pub writable : IsWritable c.buf
  pub full : c.buf.end ≡ length c.buf.bytes

pub write-IsSending : (s : Text) (c : Client) → IsSending c → IsSending (write s c)
unfolding write Buffer.extend
write-IsSending s c h = record {
  writable = record {
    written = omega (arith, h.writable.written);
    stored = omega (arith, h.writable.stored, length-append c.buf.bytes s);
  };
  full = omega (arith, h.full, length-append c.buf.bytes s);
}

pub sending-pending :
    (s : Text) (c : Client) → IsSending c → pending (write s c).buf ≡ pending c.buf ++ s
sending-pending s c h = write-pending s c h.writable h.full

-- A call that ended with this exchange and result returned `OK`, leaves a connection that only writes, and
-- added one chunk to what is to be sent: the length in hexadecimal and the data, each with a line
-- end.
abbrev pub ChunkAdded : Text → Exchange → Exchange × HttpResult → Type 0
ChunkAdded text x out =
    (out.1 ≡ ok done)
    × IsSending out.0.client
    × (pending out.0.client.buf
        ≡ pending x.client.buf ++ hexadecimal (length text) ++ crlf ++ text ++ crlf)

module _ ⦃e : Eq Key⦄ where
  flush_headers_sent :
      (f g : Exchange → Exchange) (x : Exchange)
      → x.inner.headers_sent ≡ true
      → flush_headers f g x ≡ x
  unfolding flush_headers
  flush_headers_sent f g x sent = rw (sent, flush_headers)

  marks_sent :
      (f g : Exchange → Exchange) (x : Exchange) → (flush_headers f g x).inner.headers_sent ≡ true
  unfolding flush_headers write_headers
  marks_sent f g x = elim (Bool-cases x.inner.headers_sent) [
    | inl sent ↦ ap (λ y. y.inner.headers_sent) (flush_headers_sent f g x sent) ∙ sent
    | inr open_still ↦ rw (open_still, flush_headers)
  ]

  -- The headers go out once: whatever the header filters do, a second `flush_headers` changes nothing.
  pub flush_headers_once :
      (f g : Exchange → Exchange) (x : Exchange)
      → flush_headers f g (flush_headers f g x) ≡ flush_headers f g x
  flush_headers_once f g x = flush_headers_sent f g (flush_headers f g x) (marks_sent f g x)

  put_chunk-ChunkAdded :
      (text : Text) (x : Exchange)
      → IsSending x.client
      → is_chunked x.inner.transfer_encoding ≡ true
      → ChunkAdded text x (put_chunk (λ t. t) (some text) x)
  unfolding put_chunk
  put_chunk-ChunkAdded text x h chunked =
      let size = hexadecimal (length text) ++ crlf in
      let h1 = write-IsSending size x.client h in
      let h2 = write-IsSending text (write size x.client) h1 in
      let h3 = write-IsSending crlf (write text (write size x.client)) h2 in
      let last = write crlf (write text (write size x.client)) in
      let adds : pending last.buf
          ≡ pending x.client.buf ++ hexadecimal (length text) ++ crlf ++ text ++ crlf =
        sending-pending crlf (write text (write size x.client)) h2
        ∙ ap (λ z. z ++ crlf) (sending-pending text (write size x.client) h1)
        ∙ ap (λ z. (z ++ text) ++ crlf) (sending-pending size x.client h)
        ∙ ap (λ z. (z ++ text) ++ crlf)
            (sym (append_assoc (pending x.client.buf) (hexadecimal (length text)) crlf)) in
      rw (chunked, put_chunk) (refl, h3, adds)

  -- On a chunked response whose headers are sent and whose body is not, over a connection that only writes
  -- and without a filter that changes the data, `send_body_chunk` returns `OK`, leaves a connection that
  -- only writes, and adds one chunk to what is to be sent: the length in hexadecimal and the data, each
  -- with a line end.
  pub send_body_chunk-ChunkAdded :
      (f g : Exchange → Exchange) (text : Text) (x : Exchange)
      → IsSending x.client
      → x.inner.headers_sent ≡ true
      → x.inner.body_sent ≡ false
      → is_chunked x.inner.transfer_encoding ≡ true
      → ChunkAdded text x (send_body_chunk f g (λ t. t) (some text) x)
  unfolding send_body_chunk
  send_body_chunk-ChunkAdded f g text x h sent open_still chunked =
      let go_on : send_body_chunk f g (λ t. t) (some text) x ≡ put_chunk (λ t. t) (some text) x =
        ap
          (λ b.
            if b
            then (x, http_throw (codes "send_body_chunk: Body already sent"))
            else put_chunk (λ t. t) (some text) (flush_headers f g x))
          open_still
        ∙ ap (put_chunk (λ t. t) (some text)) (flush_headers_sent f g x sent) in
      subst (ChunkAdded text x) (sym go_on) (put_chunk-ChunkAdded text x h chunked)
