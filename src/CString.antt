-- ===== src/CString.antt =====
-- C strings and the functions of the C library that the program uses on them.
-- A string is the list of its bytes before the NUL; a byte is a number below 256.
pub mod Compare
pub mod Decimal
pub mod Tokens
use Prim.Native.Char.{code}
use Prim.Native.String.{String}
use stros.Prelude.{
  ℕ, zero, suc, ◌+◌, ◌-◌, ◌*◌, ◌/◌, ◌%◌, ◌<◌, Bool, true, false, ◌&&◌, ◌||◌, List, [], ◌∷◌, ◌++◌,
  Option, none, some, ltb, leb, ◌==◌, if◌then◌else◌, ℤ, pos, negsuc, neg, ◌^◌, Run, ok, fault,
}

abbrev pub CString : Type 0
CString = List ℕ

-- The bytes of an ASCII literal.
abbrev pub codes : String → CString
codes String.[] = []
codes (String.◌∷◌ c s) = code c ∷ codes s

-- `strcmp(a, b) == 0`
unfoldable pub equ : CString → CString → Bool
equ [] [] = true
equ (a ∷ s) (b ∷ t) = a == b && equ s t
equ _ _ = false

unfoldable pub tolower : ℕ → ℕ
tolower c = if leb b'A' c && leb c b'Z' then c + 32 else c

-- `strcasecmp(a, b) == 0`
unfoldable pub iequ : CString → CString → Bool
unfolding tolower
iequ [] [] = true
iequ (a ∷ s) (b ∷ t) = tolower a == tolower b && iequ s t
iequ _ _ = false

abbrev pub isdigit : ℕ → Bool
isdigit c = leb b'0' c && leb c b'9'

abbrev pub isalnum : ℕ → Bool
isalnum c = isdigit c || (leb b'a' c && leb c b'z') || (leb b'A' c && leb c b'Z')

abbrev pub isspace : ℕ → Bool
isspace c = c == 32 || (leb 9 c && leb c 13)

-- The digits of a number, by fuel; `suc n` is enough.
unfoldable pub digits_fuel : ℕ → ℕ → CString
digits_fuel zero n = []
digits_fuel (suc f) n = elim (ltb n 10) [
  | true ↦ (b'0' + n) ∷ []
  | false ↦ digits_fuel f (n / 10) ++ (b'0' + n % 10) ∷ []
]

-- `%u`
unfoldable pub digits : ℕ → CString
unfolding digits_fuel
digits n = digits_fuel (suc n) n

-- `%d`
unfoldable pub decimal : ℤ → CString
unfolding digits
decimal (pos n) = digits n
decimal (negsuc n) = b'-' ∷ digits (suc n)

-- The value of the digits that a string begins with.
unfoldable pub scan : ℕ → CString → ℕ
scan acc [] = acc
scan acc (c ∷ s) = elim (isdigit c) [ true ↦ scan (acc * 10 + (c - b'0')) s | false ↦ acc ]

unfoldable pub scan_signed : CString → ℤ
unfolding scan
scan_signed [] = pos 0
scan_signed (c ∷ s) =
    if c == b'-' then neg (scan 0 s) else if c == b'+' then pos (scan 0 s) else pos (scan 0 (c ∷ s))

-- `atoi`: leading space, a sign, digits, as a number of any size. Past the range of `int` C leaves
-- the behaviour undefined; `int_range` is the test of it where a port is read.
unfoldable pub atoi : CString → ℤ
unfolding scan_signed
atoi [] = pos 0
atoi (c ∷ s) = elim (isspace c) [ true ↦ atoi s | false ↦ scan_signed (c ∷ s) ]

-- A number that an `int` of 32 bits holds.
abbrev pub in_int : ℤ → Bool
in_int (pos n) = ltb n (2 ^ 31)
in_int (negsuc n) = ltb n (2 ^ 31)

-- What `atoi` gives for an `int`: past its range the behaviour is undefined.
unfoldable pub int_range : ℤ → Run ℤ
int_range i = if in_int i then ok i else fault

-- `strchr(s, c) != NULL`, for a character that is not the NUL.
unfoldable pub contains : CString → ℕ → Bool
contains [] c = false
contains (d ∷ s) c = d == c || contains s c

-- `strsep(&s, delim)`: the token, and what `s` points to behind it (`none` is NULL).
unfoldable pub strsep : CString → CString → CString × Option CString
unfolding contains
strsep delim [] = ([], none)
strsep delim (c ∷ s) =
    let (token, rest) = strsep delim s in
    if contains delim c then ([], some s) else (c ∷ token, rest)

-- The tokens of `while ((token = strsep(&s, delim)))`, in one pass; `cur` is the token so far.
unfoldable pub strsep_all : CString → CString → CString → List CString
unfolding contains
strsep_all delim cur [] = cur ∷ []
strsep_all delim cur (c ∷ s) = elim (contains delim c) [
  | true ↦ cur ∷ strsep_all delim [] s
  | false ↦ strsep_all delim (cur ++ c ∷ []) s
]

-- `s` begins with `t`.
unfoldable pub starts_with : CString → CString → Bool
starts_with s [] = true
starts_with [] (c ∷ t) = false
starts_with (a ∷ s) (c ∷ t) = a == c && starts_with s t

-- `strstr(s, t) != NULL`
unfoldable pub strstr : CString → CString → Bool
unfolding starts_with
strstr [] t = starts_with [] t
strstr (c ∷ s) t = starts_with (c ∷ s) t || strstr s t
