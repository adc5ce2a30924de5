-- ===== src/Utils/Url/RoundTrip.antt =====
-- `url_encode` and `url_decode` together, and their buffers.
use stros.Prelude.{
  ℕ, ◌+◌, ◌*◌, ◌/◌, ◌%◌, ◌<◌, ◌≤◌, ◌≡◌, refl, ◌∙◌, ap, inl, inr, Bool, true, false, ◌&&◌, ◌||◌, not,
  [], ◌∷◌, ◌++◌, arith, ◌==◌, if◌then◌else◌, length, length-append, All, Bool-cases, all_below,
  of-all_below,
}
use stros.CString.{CString}
use stros.Utils.Url.{to_hex, is_plain, encode_byte, url_encode, hex_pair, decode_plain, url_decode}

abbrev pub IsBytes : CString → Type 0
IsBytes = All (λ c. c < 256)

-- The three forms of an encoded byte, and how each is read back.
reads_back : ℕ → Bool
reads_back c =
    if is_plain c
    then not (c == b'%') && decode_plain c == c
    else c == 32 || hex_pair (to_hex (c / 16)) (to_hex (c % 16)) == c

reads_back_all : all_below 256 reads_back ≡ true
unfolding all_below reads_back hex_pair is_plain to_hex decode_plain
reads_back_all = refl

decode-cons :
    (c : ℕ) (s : CString) → (c == b'%') ≡ false → url_decode (c ∷ s) ≡ decode_plain c ∷ url_decode s
unfolding url_decode
decode-cons c [] h = rw h
decode-cons c (a ∷ []) h = rw h
decode-cons c (a ∷ b ∷ s) h = rw (h, url_decode)

decode_escape :
    (a b : ℕ) (s : CString) → url_decode (b'%' ∷ a ∷ b ∷ s) ≡ hex_pair a b ∷ url_decode s
unfolding url_decode
decode_escape a b s = refl

decode_space : (s : CString) → url_decode (b'+' ∷ s) ≡ 32 ∷ url_decode s
unfolding decode_plain
decode_space s = decode-cons b'+' s refl

module _ (c : ℕ) (s : CString) where
  decode-encode_plain :
      is_plain c ≡ true → reads_back c ≡ true → url_decode (encode_byte c ++ s) ≡ c ∷ url_decode s
  unfolding reads_back encode_byte
  decode-encode_plain plain h =
      let kept : ((c == b'%') ≡ false) × (decode_plain c ≡ c) = ground arith in
      rw (plain, decode-cons c s kept.0, kept.1)

  decode-encode_space :
      is_plain c ≡ false → (c == 32) ≡ true → url_decode (encode_byte c ++ s) ≡ c ∷ url_decode s
  unfolding encode_byte
  decode-encode_space other space =
      rw (other, space) (decode_space s ∙ ap (λ k. k ∷ url_decode s) (ground arith))

  decode-encode_coded :
      is_plain c ≡ false
      → (c == 32) ≡ false
      → reads_back c ≡ true
      → url_decode (encode_byte c ++ s) ≡ c ∷ url_decode s
  unfolding reads_back encode_byte
  decode-encode_coded other coded h =
      let kept : hex_pair (to_hex (c / 16)) (to_hex (c % 16)) ≡ c = ground arith in
      rw (other, coded, decode_escape, kept)

  decode-encode_byte : reads_back c ≡ true → url_decode (encode_byte c ++ s) ≡ c ∷ url_decode s
  decode-encode_byte h = elim (Bool-cases (is_plain c)) [
    | inl plain ↦ decode-encode_plain plain h
    | inr other ↦ elim (Bool-cases (c == 32)) [
      | inl space ↦ decode-encode_space other space
      | inr coded ↦ decode-encode_coded other coded h
    ]
  ]

-- Decoding what was encoded gives the string back, for every string of bytes.
pub url_decode-url_encode : (s : CString) → IsBytes s → url_decode (url_encode s) ≡ s
unfolding url_encode
url_decode-url_encode [] h = unfold url_decode in refl
url_decode-url_encode (c ∷ s) (hc, hs) = rw (
  decode-encode_byte c (url_encode s) (of-all_below 256 reads_back c reads_back_all hc),
  url_decode-url_encode s hs,
)

length-encode_byte : (c : ℕ) → length (encode_byte c) ≤ 3
unfolding encode_byte is_plain
length-encode_byte c = ground arith

-- The buffer of `strlen(str) * 3 + 1` bytes holds what is written and the NUL.
pub length-url_encode : (s : CString) → length (url_encode s) + 1 ≤ length s * 3 + 1
unfolding url_encode
length-url_encode [] = omega arith
length-url_encode (c ∷ s) =
    omega (
      arith,
      length-append (encode_byte c) (url_encode s),
      length-encode_byte c,
      length-url_encode s,
    )

-- The buffer of `strlen(str) + 1` bytes holds what is written and the NUL.
pub length-url_decode : (s : CString) → length (url_decode s) + 1 ≤ length s + 1
unfolding url_decode
length-url_decode [] = omega arith
length-url_decode (c ∷ []) = ground arith
length-url_decode (c ∷ a ∷ []) = ground (arith, length-url_decode (a ∷ []))
length-url_decode (c ∷ a ∷ b ∷ s) =
    ground (arith, length-url_decode s, length-url_decode (a ∷ b ∷ s))
