-- ===== src/Api/Data.antt =====
-- String messages over TCPROS: `tcp_send_data`, `tcp_send_string`, `ros_data` and `ros_string` of
-- api.c.
pub mod RoundTrip
use stros.Prelude.{
  ℕ, zero, suc, ◌+◌, Bool, true, false, ◌||◌, not, [], ◌∷◌, ◌++◌, ltb, leb, ◌==◌, if◌then◌else◌,
  Option, none, some, Run, ok, fault, ◌>>=◌, length, take, drop, ℤ, pos, negsuc,
}
use stros.CString.{CString}
use stros.Utils.Hash.{header_hash_size, hash}
use stros.Rpc.Http.{until_nul}
use stros.Api.Types.{type_string}
use stros.Api.Topic.{Topic}
use stros.Api.Header.{int_bytes}

-- How the sends of `tcp_send_string` end: whether the first two fail, and what the third returns.
pub record Sends : Type 0 where
  pub first : Bool
  pub second : Bool
  pub third : ℤ

-- The bytes that a `send` of the text took, by its result.
unfoldable pub taken : ℤ → CString → CString
taken (pos n) s = take n s
taken (negsuc n) s = []

-- `tcp_send_string`: the bytes that go out, and the result.
unfoldable pub tcp_send_string : Sends → CString → CString × ℤ
unfolding taken
tcp_send_string sends text =
    if not sends.first
    then ([], negsuc 0)
    else if not sends.second
    then (int_bytes (length text + 4), negsuc 0)
    else (
      int_bytes (length text + 4) ++ (int_bytes (length text) ++ taken sends.third text),
      sends.third,
    )

abbrev pub no_bytes : CString × ℤ
no_bytes = ([], negsuc 0)

-- `tcp_send_data`
unfoldable pub tcp_send_data : Sends → Topic → CString × ℤ
unfolding tcp_send_string hash
tcp_send_data sends tp = elim tp.payload [
  | none ↦ no_bytes
  | some text ↦
      if hash tp.type header_hash_size == type_string then tcp_send_string sends text else no_bytes
]

-- `ros_string` on the bytes of a buffer: the size is the signed byte `*raw`. What the callback reads
-- of the copy ends at its first NUL.
unfoldable pub ros_string : CString → Run CString
unfolding until_nul
ros_string [] = fault
ros_string (size ∷ raw) =
    if leb 128 size || ltb (length raw) (3 + size)
    then fault
    else ok (until_nul (take size (drop 3 raw)))

-- `ros_data`: the bytes that the callback is given.
unfoldable pub ros_data : CString → ℕ → Run CString
unfolding ros_string
ros_data raw type_h = if type_h == type_string then ros_string raw else ok raw
