-- ===== src/Rpc/Http.antt =====
-- `rpc_read_buf`, `rpc_read_line` and `decode_rpc_data` of rpc.c.
-- A socket is the list of the bytes that it will still deliver; at its end `recv` returns no byte,
-- because the peer has closed or the receive timeout has passed.
pub mod Read
pub mod Decode
pub mod Fuel
pub mod Lines
pub mod Message
use stros.Prelude.{
  ℕ, zero, suc, ◌+◌, ◌-◌, Bool, true, false, ◌&&◌, ◌||◌, not, List, [], ◌∷◌, ◌==◌, ltb,
  if◌then◌else◌, Option, none, some, is_some, Run, ok, fault, ◌>>=◌, ℤ, pos, negsuc, length, take,
  drop,
}
use stros.CString.{CString, codes, equ, iequ, strsep, atoi}
use stros.Utils.Trim.{trim}

abbrev pub Socket : Type 0
Socket = List ℕ

abbrev pub newline : ℕ
newline = 10

abbrev pub max_buff : ℕ
max_buff = 1024

-- The loop of `rpc_read_buf` with room for so many bytes: what it stores, and the socket after.
unfoldable pub read_loop : ℕ → Socket → CString × Socket
read_loop zero sock = ([], sock)
read_loop (suc room) [] = ([], [])
read_loop (suc room) (c ∷ sock) = elim (c == newline) [
  | true ↦ (c ∷ [], sock)
  | false ↦ let (buf, rest) = read_loop room sock in (c ∷ buf, rest)
]

-- `rpc_read_buf`: the bytes in front of the NUL that it writes, as many as it returns.
unfoldable pub rpc_read_buf : Socket → ℕ → CString × Socket
unfolding read_loop
rpc_read_buf sock size = read_loop (size - 1) sock

-- `strdup` of a buffer: it ends at the first NUL.
unfoldable pub until_nul : CString → CString
until_nul [] = []
until_nul (c ∷ s) = elim (c == 0) [ true ↦ [] | false ↦ c ∷ until_nul s ]

unfoldable pub rpc_read_line : Socket → CString × Socket
unfolding rpc_read_buf until_nul
rpc_read_line sock = let (buf, rest) = rpc_read_buf sock max_buff in (until_nul buf, rest)

-- The variables of `decode_rpc_data`: whether `ctype` is set, and `clen`.
pub record Head : Type 0 where
  pub ctype : Option CString
  pub clen : ℤ

abbrev pub no_head : Head
no_head = record { ctype = none; clen = negsuc 0 }

-- `strsep(&line, ":")` on what the first call left; NULL gives NULL, and `trim` does not take it.
unfoldable pub next_token : Option CString → Run CString
unfolding strsep
next_token none = fault
next_token (some line) = ok (strsep (codes ":") line).0

-- One line of the header, its first token cut off and trimmed.
unfoldable pub field_step : Head → CString → Option CString → Run Head
unfolding next_token trim iequ
field_step head token line =
    if iequ token (codes "Content-Type")
    then (do
      t ← next_token line
      t ← trim t 32
      t ← trim t newline
      t ← trim t 13
      ok (record head { ctype = some t }))
    else if iequ token (codes "Content-Length")
    then (do t ← next_token line; t ← trim t 32; ok (record head { clen = atoi t }))
    else ok head

-- The body of the loop of `decode_rpc_data`, less the reading of the next line.
unfoldable pub header_step : Head → CString → Run Head
unfolding field_step strsep trim
header_step head line = do
  let (token, rest) = strsep (codes ":") line
  token ← trim token 32
  field_step head token rest

-- `strlen(line) > 0 && strcmp("\r\n", line)`
unfoldable pub is_header_line : CString → Bool
unfolding equ
is_header_line [] = false
is_header_line (c ∷ line) = not (equ (codes "\r\n") (c ∷ line))

-- A run of the loop: `none` where the fuel ran out, apart from every result and from `fault`.
abbrev pub LoopRun : Type 0
LoopRun = Option (Run (Head × Socket))

-- The rounds after a line, given what the line came to.
unfoldable pub next_round : (Head → Socket → LoopRun) → Socket → Run Head → LoopRun
next_round loop rest fault = some fault
next_round loop rest (ok head) = loop head rest

-- One round, given the line and the rounds after it.
unfoldable pub header_round : (Head → Socket → LoopRun) → Head → CString → Socket → LoopRun
unfolding next_round
header_round loop head line rest =
    if is_header_line line
    then next_round loop rest (header_step head line)
    else some (ok (head, rest))

-- The loop over the header lines, on fuel: each round with a line takes a byte off the socket.
unfoldable pub header_loop : ℕ → Head → Socket → LoopRun
unfolding header_round
header_loop zero head sock = none
header_loop (suc f) head sock =
    let (line, rest) = rpc_read_line sock in header_round (header_loop f) head line rest

-- The bytes of the body. The code ignores what `recv` returns, so a byte that does not come leaves
-- the buffer undefined there; `for (size_t i = 0; i < clen; ++i)` does not end for a negative one.
unfoldable pub read_body : ℤ → Socket → Run (CString × Socket)
unfolding until_nul
read_body (negsuc n) sock = fault
read_body (pos n) sock =
    if ltb (length sock) n then fault else ok (until_nul (take n sock), drop n sock)

abbrev pub is_minus_one : ℤ → Bool
is_minus_one (pos n) = false
is_minus_one (negsuc n) = n == 0

-- `ctype == NULL || clen == -1`
unfoldable pub is_bad_head : Head → Bool
is_bad_head head = not (is_some head.ctype) || is_minus_one head.clen

unfoldable pub finish_decode : Head → Socket → Run (Option CString × Socket)
unfolding is_bad_head read_body
finish_decode head sock =
    if is_bad_head head
    then ok (none, sock)
    else (do (body, rest) ← read_body head.clen sock; ok (some body, rest))

-- The result of a loop that ended.
unfoldable pub loop_result : LoopRun → Run (Head × Socket)
loop_result none = fault
loop_result (some r) = r

-- `decode_rpc_data`: the body, or `none` for NULL, and the socket after.
unfoldable pub decode_rpc_data : Socket → Run (Option CString × Socket)
unfolding header_loop loop_result finish_decode
decode_rpc_data client = do
  (head, rest) ← loop_result (header_loop (length client + 1) no_head client)
  finish_decode head rest
