-- ===== src/Tests/Shared.antt =====
-- What the tests share: keys that ignore the case of ASCII letters, as `unicase::Ascii` does, a
-- decoder that leaves texts as they are, and sockets that deliver given chunks.
use ws_platform.Common.{
  Text, List, [], Bool, Eq, text_eq, text_eq_refl, text_eq_sym, text_eq_trans, to_ascii_lowercase,
  arith, length,
}
use ws_platform.Buffer.{empty}
use ws_platform.Buffer.Laws.{IsValid}
use ws_platform.Client.{Client, Incoming, Outgoing}
use ws_platform.Client.Flush.{IsWritable}
use ws_platform.KeyVal.{Key}
use ws_platform.Http.Request.{Decoder}

abbrev pub same_key : Key → Key → Bool
same_key a b = text_eq (to_ascii_lowercase a.name) (to_ascii_lowercase b.name)

instance abbrev pub ascii_key : Eq Key
ascii_key = record {
  same = same_key;
  same_refl = λ a. text_eq_refl (to_ascii_lowercase a.name);
  same_sym = λ a b. text_eq_sym (to_ascii_lowercase a.name) (to_ascii_lowercase b.name);
  same_trans = λ a b c.
      text_eq_trans (to_ascii_lowercase a.name) (to_ascii_lowercase b.name)
        (to_ascii_lowercase c.name);
}

abbrev pub plain : Decoder
plain = record { url_decode = λ t. t; from_utf8_lossy = λ t. t }

-- A connection whose socket is to do this.
abbrev pub connection : List Incoming → List Outgoing → Client
connection incoming outgoing = record {
  buf = empty;
  incoming = incoming;
  outgoing = outgoing;
  sent = [];
}

pub empty-IsValid : IsValid empty
empty-IsValid = record { read = omega arith; sent = omega arith; held = omega arith }

-- A buffer that holds a text of which nothing is read yet.
abbrev pub holding : Text → Client → Client
holding t c = record c { buf = record { bytes = t; rpos = 0; wpos = 0; end = length t } }

pub holding-IsValid : (t : Text) (c : Client) → IsValid (holding t c).buf
holding-IsValid t c = record { read = omega arith; sent = omega arith; held = omega arith }

pub holding-IsWritable : (t : Text) (c : Client) → IsWritable (holding t c).buf
holding-IsWritable t c = record { written = omega arith; stored = omega arith }
