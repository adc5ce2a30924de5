-- ===== src/Utils/Match.antt =====
-- `match_int` and `match_float` of utils.c: the languages of the two regular expressions.
pub mod Laws
pub mod Pattern
pub mod Regex
use stros.Prelude.{Bool, true, false, ◌&&◌, ◌||◌, [], ◌∷◌, ◌==◌, if◌then◌else◌}
use stros.CString.{CString, isdigit}

-- `[0-9]*$`
unfoldable pub all_digits : CString → Bool
all_digits [] = true
all_digits (c ∷ s) = isdigit c && all_digits s

-- `[0-9]+$`
unfoldable pub some_digits : CString → Bool
unfolding all_digits
some_digits [] = false
some_digits (c ∷ s) = isdigit c && all_digits s

-- What is left behind `[-+]?`.
unfoldable pub skip_sign : CString → CString
skip_sign [] = []
skip_sign (c ∷ s) = if c == b'-' || c == b'+' then s else c ∷ s

-- `^[-+]?[0-9]+$`
unfoldable pub match_int : CString → Bool
unfolding some_digits skip_sign
match_int search = some_digits (skip_sign search)

-- `[0-9]*\.[0-9]+$`
unfoldable pub match_fraction : CString → Bool
unfolding some_digits
match_fraction [] = false
match_fraction (c ∷ s) = if c == b'.' then some_digits s else isdigit c && match_fraction s

-- `^[+-]?[0-9]*\.[0-9]+$`
unfoldable pub match_float : CString → Bool
unfolding match_fraction skip_sign
match_float search = match_fraction (skip_sign search)
