-- ===== src/Http/Encoding.antt =====
-- http/mod.rs, `TransferEncoding`: a set of codings in the bits of a u16. `parse` compares bytes, so
-- a coding in capitals is skipped.
use Prim.Native.Nat.{bit_and, bit_or}
pub mod Laws
use ws_platform.Common.{
  ℕ, Text, codes, Option, none, some, Bool, true, false, List, [], ◌∷◌, ◌++◌, not, ◌==◌, text_eq,
  split, join, trim, if◌then◌else◌,
}

abbrev pub chunked : ℕ
chunked = 1

abbrev pub compress : ℕ
compress = 2

abbrev pub deflate : ℕ
deflate = 4

abbrev pub gzip : ℕ
gzip = 8

abbrev pub identity : ℕ
identity = 16

-- `self.0 & bit != 0`.
abbrev pub has : ℕ → ℕ → Bool
has bit te = not (bit_and te bit == 0)

-- `is_chunked`; `is_compress` to `is_identity` are `has` at their bits.
abbrev pub is_chunked : ℕ → Bool
is_chunked = has chunked

unfoldable pub parse : Text → ℕ → ℕ
parse v te =
    if text_eq v (codes "chunked")
    then bit_or te chunked
    else if text_eq v (codes "compress")
    then bit_or te compress
    else if text_eq v (codes "deflate")
    then bit_or te deflate
    else if text_eq v (codes "gzip")
    then bit_or te gzip
    else if text_eq v (codes "identity")
    then bit_or te identity
    else te

unfoldable pub parse_all : List Text → ℕ → ℕ
unfolding parse
parse_all [] te = te
parse_all (v ∷ vs) te = parse_all vs (parse (trim v) te)

-- `TransferEncoding::new`.
unfoldable pub new : Option Text → ℕ
unfolding parse_all
new none = 0
new (some h) = parse_all (split b',' h) 0

-- `impl Display for TransferEncoding`: the list that it joins.
abbrev pub names : ℕ → List Text
names te =
    (if has chunked te then codes "chunked" ∷ [] else [])
    ++ (if has compress te then codes "compress" ∷ [] else [])
    ++ (if has deflate te then codes "deflate" ∷ [] else [])
    ++ (if has gzip te then codes "gzip" ∷ [] else [])
    ++ (if has identity te then codes "identity" ∷ [] else [])

unfoldable pub format : ℕ → Option Text
format te = if te == 0 then none else some (join (codes ", ") (names te))

-- `self.0 |= CHUNKED` and `self.0 &= !CHUNKED`, over 16 bits.
abbrev pub set_chunked : ℕ → ℕ
set_chunked te = bit_or te chunked

abbrev pub clear_chunked : ℕ → ℕ
clear_chunked te = bit_and te 0xfffe
