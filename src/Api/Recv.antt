-- ===== src/Api/Recv.antt =====
-- `recv` as api.c calls it, into a four-byte integer and into the buffer of 1024 bytes. A socket that
-- has no byte left has been closed by its peer, or its timeout passes: an argument says which.
use stros.Prelude.{
  ℕ, ◌+◌, ◌*◌, ◌^◌, ◌<◌, ◌≤◌, ◌≡◌, refl, ap, Bool, false, [], ◌∷◌, ◌++◌, arith, ltb, if◌then◌else◌,
  Option, none, some, Run, ok, fault, length, take, drop, take-append, drop-append,
}
use stros.CString.{CString}
use stros.Rpc.Http.{Socket, max_buff}
use stros.Api.Header.{int_bytes}

-- The value of four bytes, the lowest first.
unfoldable pub int_value : CString → ℕ
int_value (a ∷ b ∷ c ∷ d ∷ rest) = a + 256 * b + 65536 * c + 16777216 * d
int_value _ = 0

-- `recv(sock, &size, 4, 0)`: fewer bytes replace only the lower ones of the old value.
unfoldable pub recv_int : ℕ → Socket → ℕ × Socket
unfolding int_bytes int_value
recv_int old sock =
    (int_value (take 4 sock ++ drop (length (take 4 sock)) (int_bytes old)), drop 4 sock)

-- What `recv` returns for the bytes that it delivered; `none` is -1.
unfoldable pub recv_result : Bool → CString → Option ℕ
recv_result timed_out [] = if timed_out then none else some 0
recv_result timed_out (c ∷ s) = some (length (c ∷ s))

-- `recv(sock, buf, size, 0)`: the bytes delivered, the buffer after, the socket after. More than
-- the buffer holds is written past its end.
unfoldable pub recv_buf : ℕ → CString → Socket → Run (CString × CString × Socket)
recv_buf size buf sock =
    if ltb max_buff (length (take size sock))
    then fault
    else ok (take size sock, take size sock ++ drop (length (take size sock)) buf, drop size sock)

int_value-int_bytes : (n : ℕ) → n < 2 ^ 32 → int_value (int_bytes n) ≡ n
unfolding int_value int_bytes
int_value-int_bytes n h = omega arith

-- An integer that was sent is received, whatever stood there.
pub recv_int-int_bytes :
    (old n : ℕ) (rest : Socket) → n < 2 ^ 32 → recv_int old (int_bytes n ++ rest) ≡ (n, rest)
unfolding recv_int
recv_int-int_bytes old n rest h = ap (λ v. (v, rest)) (int_value-int_bytes n h)

-- A text that fits the buffer is received whole, in front of what stood behind it.
pub recv_buf-append :
    (text buf : CString) (rest : Socket)
    → length text ≤ 1024
    → recv_buf (length text) buf (text ++ rest) ≡ ok (text, text ++ drop (length text) buf, rest)
unfolding recv_buf
recv_buf-append text buf rest h =
    let fits : ltb 1024 (length text) ≡ false = ground arith in
    rw (take-append text rest (length text) refl, drop-append text rest (length text) refl, fits)
      refl
