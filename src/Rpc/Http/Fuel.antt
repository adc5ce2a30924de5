-- ===== src/Rpc/Http/Fuel.antt =====
-- The fuel of the loop over the header lines.
use stros.Prelude.{
  zero, suc, ◌<◌, ◌≡◌, refl, ap, inl, some, inr, true, [], ◌∷◌, ◌++◌, arith, length, length-append,
  Run, ok, Bool-cases, ℕ,
}
use stros.CString.{CString}
use stros.Rpc.Http.{
  Socket, rpc_read_buf, until_nul, rpc_read_line, Head, is_header_line, header_step, LoopRun,
  next_round, header_round, header_loop,
}
use stros.Rpc.Http.Read.{rpc_read_buf-append}
use stros.Rpc.Http.Decode.{header_loop_lem}

-- A line that the loop goes on for took at least one byte.
read_line_shorter :
    (sock : Socket)
    → is_header_line (rpc_read_line sock).0 ≡ true
    → length (rpc_read_line sock).1 < length sock
unfolding rpc_read_line
read_line_shorter sock h =
    shorter (rpc_read_buf sock 1024) (rpc_read_buf-append sock 1024 (omega arith)).0 h
  where
    shorter :
        (r : CString × Socket)
        → r.0 ++ r.1 ≡ sock
        → is_header_line (until_nul r.0) ≡ true
        → length r.1 < length sock
    shorter ([], rest) e line = absurd (unfold is_header_line in cc)
    shorter (c ∷ buf, rest) e line = omega (arith, ap length e, length-append (c ∷ buf) rest)

module _ (k k' : Head → Socket → LoopRun) (head : Head) (line : CString) (rest : Socket) where
  -- A round ends in one way with two loops behind it that do.
  header_round_ends :
      (is_header_line line ≡ true
        → (h : Head) → (r : Run (Head × Socket)) × (k h rest ≡ some r) × (k' h rest ≡ some r))
      → (r : Run (Head × Socket)) × (header_round k head line rest ≡ some r)
        × (header_round k' head line rest ≡ some r)
  unfolding header_round
  header_round_ends ends = elim (Bool-cases (is_header_line line)) [
    | inl e ↦ rw e (next_round_ends (header_step head line) (ends e))
    | inr e ↦ rw e (ok (head, rest), refl, refl)
  ]
    where
      next_round_ends :
          (m : Run Head)
          → ((h : Head) → (r : Run (Head × Socket)) × (k h rest ≡ some r) × (k' h rest ≡ some r))
          → (r : Run (Head × Socket)) × (next_round k rest m ≡ some r)
            × (next_round k' rest m ≡ some r)
      next_round_ends (ok h) both = unfold next_round in both h
      next_round_ends Run.fault both = unfold next_round in (Run.fault, refl, refl)

-- The loop over the header lines ends: with any fuel above the number of bytes that the socket
-- holds it does not run out of fuel, whatever the bytes are, and any two such amounts give the
-- same result. So the loop takes at most one round more than there are bytes.
pub header_loop-fuel :
    (f g : ℕ) (head : Head) (sock : Socket)
    → length sock < f
    → length sock < g
    → (r : Run (Head × Socket)) × (header_loop f head sock ≡ some r)
      × (header_loop g head sock ≡ some r)
header_loop-fuel zero g head sock hf hg = absurd (omega arith)
header_loop-fuel (suc f) zero head sock hf hg = absurd (omega arith)
header_loop-fuel (suc f) (suc g) head sock hf hg =
    rw (header_loop_lem f head sock, header_loop_lem g head sock)
      (header_round_ends (header_loop f) (header_loop g) head (rpc_read_line sock).0
        (rpc_read_line sock).1
        (λ line h.
          header_loop-fuel f g h (rpc_read_line sock).1 (omega (arith, read_line_shorter sock line))
            (omega (arith, read_line_shorter sock line))))
