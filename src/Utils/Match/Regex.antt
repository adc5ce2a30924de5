-- ===== src/Utils/Match/Regex.antt =====
-- `regex_match` and the two functions that call it.
use stros.Prelude.{
  ◌≡◌, refl, ap, ◌∙◌, ◌↔◌, Bool, true, false, ◌&&◌, ◌||◌, List, [], ◌∷◌, Option, none, some, ℕ,
  ◌==◌, if◌then◌else◌, arith, Bool-cases, inl, inr, ==_iff,
}
use stros.CString.{CString, codes, isdigit}
use stros.Utils.Match.{all_digits, some_digits, match_int, match_fraction, match_float}
use stros.Utils.Match.Pattern.{
  Atom, plus_minus, Piece, opt, accepts, star, once, dot, plus, digit, many, Matches, matches,
  matches_iff, print, int_pattern, float_pattern,
}

-- `regcomp` with `REG_ICASE | REG_EXTENDED`, which gives nothing for an error, and `regexec`, which
-- gives 0 for a match and another number for no match or an error.
pub record Regex : Type 1 where
  pub Compiled : Type 0
  pub regcomp : CString → Option Compiled
  pub regexec : Compiled → CString → ℕ

Bool_agree : (b c : Bool) → (b ≡ true → c ≡ true) → (c ≡ true → b ≡ true) → b ≡ c
Bool_agree true c f g = let h : c ≡ true = f refl in cc
Bool_agree false true f g = g refl
Bool_agree false false f g = refl

or_false : (b : Bool) → (b || false) ≡ b
or_false true = refl
or_false false = refl

if_same : (b : Bool) → (if b then true else false) ≡ b
if_same true = refl
if_same false = refl

module _ (R : Regex) where
  unfoldable pub regex_match : CString → CString → Bool
  regex_match expr search = elim (R.regcomp expr) [
    | none ↦ false
    | some regex ↦ if R.regexec regex search == 0 then true else false
  ]

  -- `match_int` and `match_float` as they are written.
  unfoldable pub regex_int : CString → Bool
  unfolding regex_match
  regex_int search = regex_match (codes "^[-+]?[0-9]+$") search

  unfoldable pub regex_float : CString → Bool
  unfolding regex_match
  regex_float search = regex_match (codes "^[+-]?[0-9]*\\.[0-9]+$") search

  -- The library compiles a pattern, and finds the texts that match it.
  pub record Knows (ps : List Piece) : Type 0 where
    pub regex : R.Compiled
    pub compiles : R.regcomp (print ps) ≡ some regex
    pub executes : (s : CString) → (R.regexec regex s ≡ 0) ↔ Matches ps s

  regex_match-matches :
      (ps : List Piece) (s : CString) → Knows ps → regex_match (print ps) s ≡ matches ps s
  unfolding regex_match
  regex_match-matches ps s known =
      let same : (R.regexec known.regex s == 0) ≡ matches ps s =
        Bool_agree (R.regexec known.regex s == 0) (matches ps s)
          (λ h.
            (matches_iff ps s).1 ((known.executes s).0 ((==_iff (R.regexec known.regex s) 0).0 h)))
          (λ h.
            (==_iff (R.regexec known.regex s) 0).1
              ((known.executes s).1 ((matches_iff ps s).0 h))) in
      rw (regex_match, known.compiles, same) (if_same (matches ps s))

many_digits : (s : CString) → many digit (matches []) s ≡ all_digits s
unfolding matches all_digits
many_digits [] = refl
many_digits (c ∷ s) = ground (arith, many_digits s)

matches_plus : (s : CString) → matches (plus digit ∷ []) s ≡ some_digits s
unfolding matches some_digits
matches_plus [] = refl
matches_plus (c ∷ s) = ap (λ b. isdigit c && b) (many_digits s)

-- One round of each kind of piece.
module _ (a : Atom) (ps : List Piece) (c : ℕ) (s : CString) where
  matches_opt : matches (opt a ∷ ps) (c ∷ s) ≡ (matches ps (c ∷ s) || (accepts a c && matches ps s))
  unfolding matches
  matches_opt = refl

  matches_star :
      matches (star a ∷ ps) (c ∷ s)
      ≡ (matches ps (c ∷ s) || (accepts a c && matches (star a ∷ ps) s))
  unfolding matches
  matches_star = refl

  matches_once : matches (once a ∷ ps) (c ∷ s) ≡ (accepts a c && matches ps s)
  unfolding matches
  matches_once = refl

matches-int_pattern : (s : CString) → matches int_pattern s ≡ match_int s
unfolding match_int
matches-int_pattern [] = unfold matches in refl
matches-int_pattern (c ∷ []) = rw (matches_opt, matches_plus, matches_plus) (ground arith)
matches-int_pattern (c ∷ d ∷ s) = rw (matches_opt, matches_plus, matches_plus) (ground arith)

abbrev fraction : List Piece
fraction = star digit ∷ once dot ∷ plus digit ∷ []

matches-fraction : (s : CString) → matches fraction s ≡ match_fraction s
unfolding match_fraction
matches-fraction [] = unfold matches in refl
matches-fraction (c ∷ s) =
    rw (matches_star, matches_once, matches_plus, matches-fraction s) (ground arith)

fraction_of_sign :
    (c : ℕ) (s : CString) → accepts plus_minus c ≡ true → match_fraction (c ∷ s) ≡ false
unfolding match_fraction
fraction_of_sign c s h = ground arith

fraction_behind_sign :
    (c : ℕ) (s : CString)
    → (match_fraction (c ∷ s) || (accepts plus_minus c && match_fraction s))
      ≡ match_fraction (if c == b'-' || c == b'+' then s else c ∷ s)
fraction_behind_sign c s = elim (Bool-cases (c == b'-' || c == b'+')) [
  | inl e ↦
      let sign : accepts plus_minus c ≡ true = ground arith in
      rw (fraction_of_sign c s sign, sign, e) refl
  | inr e ↦
      let other : accepts plus_minus c ≡ false = ground arith in
      rw (other, e) (or_false (match_fraction (c ∷ s)))
]

matches-float_pattern : (s : CString) → matches float_pattern s ≡ match_float s
unfolding match_float
matches-float_pattern [] = unfold matches in refl
matches-float_pattern (c ∷ s) =
    rw (matches_opt, matches-fraction, matches-fraction) (fraction_behind_sign c s)

module _ (R : Regex) where
  regex_int-match_int : (s : CString) → Knows R int_pattern → regex_int R s ≡ match_int s
  unfolding regex_int
  regex_int-match_int s known = regex_match-matches R int_pattern s known ∙ matches-int_pattern s

  regex_float-match_float : (s : CString) → Knows R float_pattern → regex_float R s ≡ match_float s
  unfolding regex_float
  regex_float-match_float s known =
      regex_match-matches R float_pattern s known ∙ matches-float_pattern s

  -- The texts that `regex_match` finds with the two expressions of `match_int` and `match_float`
  -- are those that the model's `match_int` and `match_float` accept: for a library that compiles
  -- the two expressions and executes them as `Matches` says.
  pub regex_match-patterns :
      (s : CString)
      → Knows R int_pattern
      → Knows R float_pattern
      → (regex_int R s ≡ match_int s) × (regex_float R s ≡ match_float s)
  regex_match-patterns s ints floats =
      (regex_int-match_int s ints, regex_float-match_float s floats)
