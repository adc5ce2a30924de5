-- ===== src/Api/Data/RoundTrip.antt =====
-- A string message on both sides.
use stros.Prelude.{
  ℕ, zero, suc, ◌+◌, ◌%◌, ◌<◌, ◌≤◌, ◌≡◌, refl, ◌∙◌, ap, true, false, ◌||◌, List, [], ◌∷◌, ◌++◌,
  append_assoc, arith, ltb, leb, some, ok, length, length-append, take, All, pos,
}
use stros.CString.{CString}
use stros.Utils.Hash.{header_hash_size, hash}
use stros.Rpc.Http.Decode.{NoNul, until_nul_plain}
use stros.Api.Types.{type_string}
use stros.Api.Topic.{Topic}
use stros.Api.Header.{int_bytes}
use stros.Api.Data.{taken, tcp_send_data, ros_string, ros_data}

All-take {ℓ κ} : {A : Type ℓ} (P : A → Type κ) (n : ℕ) (xs : List A) → All P xs → All P (take n xs)
All-take P zero xs h = tt
All-take P (suc n) [] h = tt
All-take P (suc n) (x ∷ xs) (h, hs) = (h, All-take P n xs hs)

take_of_append {ℓ} :
    {A : Type ℓ} (n : ℕ) (xs ys : List A) → n ≤ length xs → take n (xs ++ ys) ≡ take n xs
take_of_append zero xs ys h = refl
take_of_append (suc n) [] ys h = absurd (omega arith)
take_of_append (suc n) (x ∷ xs) ys h = ap (λ r. x ∷ r) (take_of_append n xs ys (omega arith))

pub take_all {ℓ} : {A : Type ℓ} (n : ℕ) (xs : List A) → length xs ≤ n → take n xs ≡ xs
take_all zero [] h = refl
take_all zero (x ∷ xs) h = absurd (omega arith)
take_all (suc n) [] h = refl
take_all (suc n) (x ∷ xs) h = ap (λ r. x ∷ r) (take_all n xs (omega arith))

sized_string :
    (size b1 b2 b3 : ℕ) (text junk : CString)
    → size < 128
    → size ≤ length text
    → NoNul text
    → ros_string (size ∷ b1 ∷ b2 ∷ b3 ∷ (text ++ junk)) ≡ ok (take size text)
unfolding ros_string
sized_string size b1 b2 b3 text junk small le plain =
    let fits : (leb 128 size || ltb (length (b1 ∷ b2 ∷ b3 ∷ (text ++ junk))) (3 + size)) ≡ false =
      ground (arith, length-append text junk) in
    rw
      (
        fits,
        take_of_append size text junk le,
        until_nul_plain (take size text) (All-take _ size text plain),
      )
      refl

-- The receiver keeps no more of a text than the low byte of its length says: where this byte is
-- below 128 and the text has no NUL, `ros_string` gives its first `length % 256` bytes, whatever
-- follows in the buffer.
pub ros_string-int_bytes :
    (text junk : CString)
    → length text % 256 < 128
    → NoNul text
    → ros_string (int_bytes (length text) ++ (text ++ junk)) ≡ ok (take (length text % 256) text)
unfolding int_bytes
ros_string-int_bytes text junk small plain =
    sized_string (length text % 256) _ _ _ text junk small (omega arith) plain

length-sized : (text : CString) → length (int_bytes (length text) ++ text) ≡ length text + 4
unfolding int_bytes
length-sized text = omega arith

pub got :
    (text junk : CString)
    → length text < 128
    → NoNul text
    → ros_string (int_bytes (length text) ++ (text ++ junk)) ≡ ok text
got text junk small plain =
    ros_string-int_bytes text junk (omega arith) plain
    ∙ ap ok (take_all (length text % 256) text (omega arith))

-- A string message of fewer than 128 bytes, none of them NUL, that is sent whole is framed by its
-- size and read back as it was, whatever follows in the buffer of the receiver, for a topic whose
-- type hashes to `TYPE_STRING`.
pub ros_data-tcp_send_data :
    (tp : Topic) (text junk : CString)
    → tp.payload ≡ some text
    → hash tp.type header_hash_size ≡ type_string
    → length text < 128
    → NoNul text
    → (raw : CString) × (tcp_send_data
          (record { first = true; second = true; third = pos (length text) })
          tp
        ≡ (int_bytes (length raw) ++ raw, pos (length text)))
      × (ros_data (raw ++ junk) (hash tp.type header_hash_size) ≡ ok text)
unfolding tcp_send_data ros_data taken
ros_data-tcp_send_data tp text junk has string small plain = (
  int_bytes (length text) ++ text,
  rw (has, string, take_all (length text) text (omega arith), length-sized text) refl,
  rw string (simp append_assoc (got text junk small plain)),
)
