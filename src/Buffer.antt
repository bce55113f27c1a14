-- ===== src/Buffer.antt =====
-- buffer.rs: the byte buffer between a socket and the parsers. A result `none` is a panic (an index
-- or a slice out of range). Positions are unbounded numbers: they stay below the length of `bytes`,
-- which is held in memory.
pub mod Laws
use ws_platform.Common.{
  ℕ, zero, suc, ◌+◌, ◌-◌, ◌*◌, ◌/◌, ◌≤◌, min, Text, Option, none, some, Bool, true, false, ◌&&◌,
  List, [], ◌∷◌, ◌++◌, length, get_elem?, take, drop, replicate, ltb, leb, ◌==◌, if◌then◌else◌,
}

-- The field `data` of the source is `bytes` here.
pub record Buffer : Type 0 where
  pub bytes : Text
  pub rpos : ℕ
  pub wpos : ℕ
  pub end : ℕ

-- `Buffer::default`; a capacity is not part of the value.
abbrev pub empty : Buffer
empty = record { bytes = []; rpos = 0; wpos = 0; end = 0 }

-- `&data[from..to]`.
abbrev pub slice : Text → ℕ → ℕ → Option Text
slice bs from to =
    if leb from to && leb to (length bs) then some (take (to - from) (drop from bs)) else none

unfoldable pub reset : Buffer → Buffer
reset b = record { bytes = []; rpos = 0; wpos = 0; end = 0 }

unfoldable pub getc : Buffer → Option (ℕ × Buffer)
getc b = elim (get_elem? b.bytes b.rpos) [
  | none ↦ none
  | some c ↦ some (c, record b { rpos = b.rpos + 1 })
]

-- `Vec::resize(n, 0)`.
abbrev pub resize : ℕ → Text → Text
resize n bs = if leb n (length bs) then take n bs else bs ++ replicate (n - length bs) 0

-- The part of `read` before the system call.
unfoldable pub grow : Buffer → Buffer
grow b =
    if leb (length b.bytes / 2) b.end
    then record b {
      bytes = resize (if length b.bytes == 0 then 4096 else length b.bytes * 2) b.bytes;
    }
    else b

-- The system call puts what it received at the front of the slice that it is given.
abbrev pub overwrite : Text → Text → Text
overwrite received bs = received ++ drop (length received) bs

-- The part of `read` after the system call, which received `received`.
unfoldable pub filled : Text → Buffer → Buffer
filled received b = record b { bytes = overwrite received b.bytes; end = b.end + length received }

-- `write` hands this slice to the system call; `none` is a panic.
unfoldable pub unsent : Buffer → Option Text
unsent b = slice b.bytes b.wpos b.end

-- The system call took `sz` bytes; the result says whether all is sent.
unfoldable pub wrote : ℕ → Buffer → Buffer × Bool
wrote sz b = (record b { wpos = b.wpos + sz }, (b.wpos + sz) == b.end)

unfoldable pub extend : Text → Buffer → Buffer
extend s b = record b { bytes = b.bytes ++ s; end = b.end + length s }

-- The method `end`.
unfoldable pub at_end : Buffer → Bool
at_end b = leb b.end b.rpos

unfoldable pub tail : Buffer → Option (Text × Buffer)
tail b = elim (slice b.bytes b.rpos b.end) [
  | none ↦ none
  | some bs ↦ some (bs, record b { rpos = b.end })
]

unfoldable pub chunk : ℕ → Buffer → Option (Text × Buffer)
chunk len b =
    let end = min (b.rpos + len) b.end in
    elim (slice b.bytes b.rpos end) [ none ↦ none | some bs ↦ some (bs, record b { rpos = end }) ]

-- The method `len`. Its subtraction panics where `rpos` is past `end`.
unfoldable pub len : Buffer → Option ℕ
len b = if leb b.rpos b.end then some (b.end - b.rpos) else none
