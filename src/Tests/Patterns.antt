-- ===== src/Tests/Patterns.antt =====
-- A regular expression library that knows the two patterns of numbers, and texts of dates.
use stros.Prelude.{◌≡◌, refl, ◌↔◌, Bool, true, false, List, none, some, ℕ, if◌then◌else◌, arith}
use stros.CString.{CString, codes, equ}
use stros.Utils.Match.{match_int, match_float}
use stros.Utils.Match.Pattern.{
  Piece, Matches, matches, matches_iff, print, int_pattern, float_pattern,
}
use stros.Utils.Match.Regex.{Regex, Knows, regex_int, regex_float, regex_match-patterns}

abbrev status : Bool → ℕ
status true = 0
status false = 1

abbrev patterns : Regex
patterns = record {
  Compiled = List Piece;
  regcomp = λ expr.
      if equ expr (print int_pattern)
      then some int_pattern
      else if equ expr (print float_pattern)
      then some float_pattern
      else none;
  regexec = λ ps s. status (matches ps s);
}

zero_iff : (b : Bool) → (status b ≡ 0) ↔ (b ≡ true)
zero_iff true = (λ h. refl, λ h. refl)
zero_iff false = (λ h. absurd (omega arith), λ h. absurd (cc))

executes : (ps : List Piece) (s : CString) → (patterns.regexec ps s ≡ 0) ↔ Matches ps s
executes ps s = (
  λ h. (matches_iff ps s).0 ((zero_iff (matches ps s)).0 h),
  λ m. (zero_iff (matches ps s)).1 ((matches_iff ps s).1 m),
)

int_pattern-Knows : Knows patterns int_pattern
unfolding equ
int_pattern-Knows = record { regex = int_pattern; compiles = refl; executes = executes int_pattern }

float_pattern-Knows : Knows patterns float_pattern
unfolding equ
float_pattern-Knows = record {
  regex = float_pattern;
  compiles = refl;
  executes = executes float_pattern;
}

regex_match-patterns_example :
    (regex_int patterns (codes "-12") ≡ match_int (codes "-12"))
    × (regex_float patterns (codes "-12") ≡ match_float (codes "-12"))
regex_match-patterns_example =
    regex_match-patterns patterns (codes "-12") int_pattern-Knows float_pattern-Knows
