-- ===== src/Utils/Format.antt =====
-- `__s`, `__time` and `server_time` of utils.c. Formatting and the calendar are the C library's.
use stros.Prelude.{
  ℕ, ◌+◌, ◌-◌, ◌≡◌, refl, ap, Bool, true, false, [], ◌∷◌, ◌++◌, Option, none, some, Run, ok, fault,
  length, take, take-append, append-nil, ◌==◌, if◌then◌else◌, arith, All,
}
use stros.CString.{CString}

take_whole : (s : CString) → take (length s + 1 - 1) s ≡ s
take_whole s =
    let whole : take (length s + 1 - 1) (s ++ []) ≡ s = take-append s [] _ (omega arith) in
    rw append-nil at whole

-- `vsnprintf(data, size, fstring, arguments)`: what it stores in front of the NUL, and what it
-- returns, nothing for a negative number.
module _ {Arguments : Type 0} (vsnprintf : ℕ → CString → Arguments → CString × Option ℕ) where
  abbrev stored : Option ℕ → CString → Arguments → Run CString
  stored none fstring arguments = fault
  stored (some n) fstring arguments = ok (vsnprintf (n + 1) fstring arguments).0

  -- `__s`, where `malloc` returns memory if `room` is true. The memory has no text when the format
  -- is refused.
  unfoldable pub s_text : Bool → CString → Arguments → Run CString
  s_text room fstring arguments =
      if room then stored (vsnprintf 0 fstring arguments).1 fstring arguments else ok []

  -- The text that a format and its arguments stand for is stored as far as there is room for it, and
  -- its length is returned.
  pub record Prints (printed : CString → Arguments → CString) : Type 0 where
    pub stores :
        (size : ℕ) (fstring : CString) (arguments : Arguments)
        → (vsnprintf size fstring arguments).0 ≡ take (size - 1) (printed fstring arguments)
    pub returns :
        (size : ℕ) (fstring : CString) (arguments : Arguments)
        → (vsnprintf size fstring arguments).1 ≡ some (length (printed fstring arguments))

  -- `__s` returns the whole text.
  pub s_text-printed :
      (printed : CString → Arguments → CString) (fstring : CString) (arguments : Arguments)
      → Prints printed
      → s_text true fstring arguments ≡ ok (printed fstring arguments)
  unfolding s_text
  s_text-printed printed fstring arguments prints =
      rw (prints.returns, prints.stores) (ap ok (take_whole (printed fstring arguments)))

-- Up to the first newline, which becomes the NUL.
unfoldable pub cut_newline : CString → CString
cut_newline [] = []
cut_newline (c ∷ s) = let rest = cut_newline s in if c == 10 then [] else c ∷ rest

-- The line in front of the newline that ends what `asctime` returns.
pub cut_newline-append :
    (s rest : CString) → All (λ c. (c == 10) ≡ false) s → cut_newline (s ++ 10 ∷ rest) ≡ s
unfolding cut_newline
cut_newline-append [] rest h = refl
cut_newline-append (c ∷ s) rest (hc, h) = rw (hc, cut_newline-append s rest h) refl

module _ {Time Calendar : Type 0} (localtime : Time → Option Calendar)
    (asctime : Calendar → CString) where
  abbrev time_of : Option Calendar → Run CString
  time_of none = fault
  time_of (some t) = ok (cut_newline (asctime t))

  -- `__time`; `asctime(NULL)` is undefined.
  unfoldable pub time_text : Time → Run CString
  unfolding cut_newline
  time_text time = time_of (localtime time)

  -- `server_time`, where `now` is what `time(NULL)` returns.
  unfoldable pub server_time : Time → Run CString
  unfolding time_text
  server_time now = time_text now
