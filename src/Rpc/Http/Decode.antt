-- ===== src/Rpc/Http/Decode.antt =====
-- The rounds of the loop over the header lines.
use stros.Prelude.{
  ℕ, zero, suc, ◌≤◌, ◌<◌, ◌≡◌, refl, ◌∙◌, sym, inl, inr, true, false, [], ◌∷◌, ◌++◌, arith, ◌==◌,
  length, Run, ok, fault, some, Bool-cases, All, All-append,
}
use stros.CString.{CString}
use stros.Rpc.Http.{
  Socket, newline, read_loop, rpc_read_buf, until_nul, rpc_read_line, Head, is_header_line,
  header_step, LoopRun, next_round, header_round, header_loop,
}
use stros.Rpc.Http.Read.{NoNewline, read_loop_line}

pub header_loop_lem :
    (f : ℕ) (head : Head) (sock : Socket)
    → header_loop (suc f) head sock
      ≡ header_round (header_loop f) head (rpc_read_line sock).0 (rpc_read_line sock).1
unfolding header_loop
header_loop_lem f head sock = refl

module _ (k k' : Head → Socket → LoopRun) (line : CString) (rest : Socket) where
  -- A round that ends does so with any loop behind it that agrees where the first one ends.
  header_round_mono :
      (head : Head) (r : Run (Head × Socket))
      → ((h : Head) → k h rest ≡ some r → k' h rest ≡ some r)
      → header_round k head line rest ≡ some r
      → header_round k' head line rest ≡ some r
  unfolding header_round
  header_round_mono head r agree h = elim (Bool-cases (is_header_line line)) [
    | inl e ↦ rw e (next_round_mono (header_step head line) (rw e at h))
    | inr e ↦ rw e (rw e at h)
  ]
    where
      next_round_mono :
          (m : Run Head) → next_round k rest m ≡ some r → next_round k' rest m ≡ some r
      next_round_mono fault h = unfold next_round in h
      next_round_mono (ok x) h = unfold next_round in agree x h

-- More fuel does not change a run that ends.
pub header_loop_mono :
    (f g : ℕ) (head : Head) (sock : Socket) (r : Run (Head × Socket))
    → f ≤ g
    → header_loop f head sock ≡ some r
    → header_loop g head sock ≡ some r
header_loop_mono zero g head sock r le h = unfold header_loop in cc
header_loop_mono (suc f) zero head sock r le h = absurd (omega arith)
header_loop_mono (suc f) (suc g) head sock r le h =
    header_loop_lem g head sock
    ∙ header_round_mono (header_loop f) (header_loop g) _ _ head r
        (λ x. header_loop_mono f g x (rpc_read_line sock).1 r (omega arith))
        (sym (header_loop_lem f head sock) ∙ h)

-- No NUL.
abbrev pub NoNul : CString → Type 0
NoNul = All (λ c. (c == 0) ≡ false)

pub until_nul_plain : (s : CString) → NoNul s → until_nul s ≡ s
unfolding until_nul
until_nul_plain [] h = refl
until_nul_plain (c ∷ s) (hc, hs) = rw (hc, until_nul, until_nul_plain s hs)

-- A line of a header, with its newline taken off.
pub record IsLine (line : CString) : Type 0 where
  pub one : NoNewline line
  pub text : NoNul line
  pub short : length line < 1023
  pub field : is_header_line (line ++ newline ∷ []) ≡ true

rpc_read_line_line :
    (line : CString) (rest : Socket)
    → IsLine line
    → rpc_read_line (line ++ newline ∷ rest) ≡ (line ++ newline ∷ [], rest)
unfolding rpc_read_line rpc_read_buf
rpc_read_line_line line rest is = rw (
  read_loop_line line rest 1023 is.one is.short,
  until_nul_plain (line ++ newline ∷ []) (All-append _ line _ is.text (refl, tt)),
)

-- One round of the loop.
pub header_loop_line :
    (f : ℕ) (head head' : Head) (line : CString) (rest : Socket)
    → IsLine line
    → header_step head (line ++ newline ∷ []) ≡ ok head'
    → header_loop (suc f) head (line ++ newline ∷ rest) ≡ header_loop f head' rest
header_loop_line f head head' line rest is step =
    rw (header_loop_lem, rpc_read_line_line line rest is)
      (unfold header_round in rw (is.field, step))

-- The line `\r\n` ends the head.
pub header_loop_end :
    (f : ℕ) (head : Head) (rest : Socket)
    → header_loop (suc f) head (13 ∷ newline ∷ rest) ≡ some (ok (head, rest))
unfolding header_loop rpc_read_line rpc_read_buf read_loop is_header_line until_nul
header_loop_end f head rest = refl
