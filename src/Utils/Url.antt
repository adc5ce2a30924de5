-- ===== src/Utils/Url.antt =====
-- `from_hex`, `to_hex`, `url_encode` and `url_decode` of utils.c, on bytes below 256.
-- The result is what is written to the buffer, less the NUL at the end.
pub mod RoundTrip
use Prim.Native.Nat.{bit_or}
use stros.Prelude.{
  ℕ, ◌+◌, ◌-◌, ◌*◌, ◌/◌, ◌%◌, Bool, true, false, ◌||◌, List, [], ◌∷◌, ◌++◌, ltb, leb, ◌==◌,
  if◌then◌else◌,
}
use stros.CString.{CString, isdigit, isalnum, tolower}

-- `char from_hex(char)`: the low byte of the result.
unfoldable pub from_hex : ℕ → ℕ
unfolding tolower
from_hex ch = if isdigit ch then ch - b'0' else (tolower ch + 256 - b'a' + 10) % 256

-- `hex[code & 15]`
unfoldable pub to_hex : ℕ → ℕ
to_hex code = let d = code % 16 in if ltb d 10 then b'0' + d else b'a' + (d - 10)

-- `isalnum(c) || c == '-' || c == '_' || c == '.' || c == '~'`
unfoldable pub is_plain : ℕ → Bool
is_plain c = isalnum c || c == b'-' || c == b'_' || c == b'.' || c == b'~'

-- What one round of `url_encode` writes.
unfoldable pub encode_byte : ℕ → CString
encode_byte c =
    if is_plain c
    then c ∷ []
    else if c == 32
    then b'+' ∷ []
    else b'%' ∷ to_hex (c / 16) ∷ to_hex (c % 16) ∷ []

unfoldable pub url_encode : CString → CString
unfolding encode_byte to_hex is_plain
url_encode [] = []
url_encode (c ∷ s) = encode_byte c ++ url_encode s

-- `from_hex(a) << 4 | from_hex(b)`, stored in a `char`.
unfoldable pub hex_pair : ℕ → ℕ → ℕ
unfolding from_hex
hex_pair a b = bit_or (from_hex a * 16 % 256) (from_hex b)

unfoldable pub decode_plain : ℕ → ℕ
decode_plain c = if c == b'+' then 32 else c

-- A `%` with fewer than two characters behind it is dropped.
unfoldable pub url_decode : CString → CString
unfolding hex_pair decode_plain
url_decode [] = []
url_decode (c ∷ []) = if c == b'%' then [] else decode_plain c ∷ []
url_decode (c ∷ a ∷ []) =
    if c == b'%' then url_decode (a ∷ []) else decode_plain c ∷ url_decode (a ∷ [])
url_decode (c ∷ a ∷ b ∷ s) = elim (c == b'%') [
  | true ↦ hex_pair a b ∷ url_decode s
  | false ↦ decode_plain c ∷ url_decode (a ∷ b ∷ s)
]
