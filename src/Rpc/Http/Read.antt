-- ===== src/Rpc/Http/Read.antt =====
-- What `rpc_read_buf` reads, and why the loop over the header lines ends.
use stros.Prelude.{
  ℕ, zero, suc, ◌-◌, ◌≤◌, ◌<◌, ◌≡◌, refl, ap, inl, inr, false, [], ◌∷◌, ◌++◌, arith, ◌==◌, length,
  Bool-cases, All,
}
use stros.CString.{CString}
use stros.Rpc.Http.{Socket, newline, read_loop, rpc_read_buf}

-- The buffer and what is left of the socket are the socket; the buffer is not overrun.
read_loop-append :
    (room : ℕ) (sock : Socket)
    → let r = read_loop room sock in (r.0 ++ r.1 ≡ sock) × (length r.0 ≤ room)
unfolding read_loop
read_loop-append zero sock = (refl, omega arith)
read_loop-append (suc room) [] = (refl, omega arith)
read_loop-append (suc room) (c ∷ sock) = elim (Bool-cases (c == newline)) [
  | inl e ↦ rw (e, read_loop) (refl, omega arith)
  | inr e ↦
      let ih = read_loop-append room sock in
      rw (e, read_loop) (ap (λ r. c ∷ r) ih.0, omega (arith, ih.1))
]

-- `rpc_read_buf` stores the bytes that it takes off the socket, in order, and never more than
-- `size - 1`, so that the NUL behind them fits the buffer, for a size that is not 0.
pub rpc_read_buf-append :
    (sock : Socket) (size : ℕ)
    → 0 < size
    → let r = rpc_read_buf sock size in (r.0 ++ r.1 ≡ sock) × (length r.0 < size)
unfolding rpc_read_buf
rpc_read_buf-append sock size h =
    let r = read_loop-append (size - 1) sock in (r.0, omega (arith, r.1))

-- A line: no newline before its end.
abbrev pub NoNewline : CString → Type 0
NoNewline = All (λ c. (c == newline) ≡ false)

-- A line that fits is read up to its newline, and no further.
pub read_loop_line :
    (line : CString) (rest : Socket) (room : ℕ)
    → NoNewline line
    → length line < room
    → read_loop room (line ++ newline ∷ rest) ≡ (line ++ newline ∷ [], rest)
unfolding read_loop
read_loop_line line rest zero h fits = absurd (omega arith)
read_loop_line [] rest (suc room) h fits = refl
read_loop_line (c ∷ line) rest (suc room) (hc, h) fits =
    rw (hc, read_loop, read_loop_line line rest room h (omega arith))
