-- ===== src/Utils/Trim.antt =====
-- `trim` of utils.c. The first loop reads `p[l - 1]` with no test of `l`, so on a string that holds
-- nothing but the character it reads in front of the buffer.
pub mod Laws
use stros.Prelude.{
  ℕ, zero, suc, ◌+◌, Bool, true, false, [], ◌∷◌, ◌==◌, if◌then◌else◌, length, get_or, take, Run, ok,
  fault, ◌>>=◌,
}
use stros.CString.{CString}

-- `while (p[l - 1] == delim) p[--l] = 0;`
unfoldable pub trim_end : ℕ → ℕ → CString → Run CString
trim_end delim zero p = fault
trim_end delim (suc l) p = elim (get_or p l 0 == delim) [
  | true ↦ trim_end delim l (take l p)
  | false ↦ ok p
]

-- `while (*p && *p == delim) ++p, --l;`
unfoldable pub trim_start : ℕ → CString → CString
trim_start delim [] = []
trim_start delim (c ∷ p) = elim (c == delim) [ true ↦ trim_start delim p | false ↦ c ∷ p ]

-- The string in the buffer after the call.
unfoldable pub trim : CString → ℕ → Run CString
unfolding trim_end trim_start
trim str delim = do p ← trim_end delim (length str) str; ok (trim_start delim p)
