-- ===== src/Utils/Match/Pattern.antt =====
-- The extended regular expressions of `match_int` and `match_float`: how they are written, the texts
-- that they match from the first character to the last, and a test of that.
use stros.Prelude.{
  ◌≡◌, refl, ◌↔◌, Bool, true, false, ◌&&◌, ◌||◌, List, [], ◌∷◌, ◌++◌, ℕ, ◌==◌, arith, Bool-cases,
  inl, inr,
}
use stros.CString.{CString, codes, isdigit}

pub data Atom : Type 0 where
  minus_plus plus_minus digit dot : Atom

pub data Piece : Type 0 where
  once : Atom → Piece
  opt : Atom → Piece
  star : Atom → Piece
  plus : Atom → Piece

abbrev print_atom : Atom → CString
print_atom minus_plus = codes "[-+]"
print_atom plus_minus = codes "[+-]"
print_atom digit = codes "[0-9]"
print_atom dot = codes "\\."

abbrev print_piece : Piece → CString
print_piece (once a) = print_atom a
print_piece (opt a) = print_atom a ++ codes "?"
print_piece (star a) = print_atom a ++ codes "*"
print_piece (plus a) = print_atom a ++ codes "+"

abbrev print_pieces : List Piece → CString
print_pieces [] = codes "$"
print_pieces (p ∷ ps) = print_piece p ++ print_pieces ps

abbrev pub print : List Piece → CString
print ps = b'^' ∷ print_pieces ps

-- `^[-+]?[0-9]+$`
abbrev pub int_pattern : List Piece
int_pattern = opt minus_plus ∷ plus digit ∷ []

-- `^[+-]?[0-9]*\.[0-9]+$`
abbrev pub float_pattern : List Piece
float_pattern = opt plus_minus ∷ star digit ∷ once dot ∷ plus digit ∷ []

abbrev pub accepts : Atom → ℕ → Bool
accepts minus_plus c = c == b'-' || c == b'+'
accepts plus_minus c = c == b'+' || c == b'-'
accepts digit c = isdigit c
accepts dot c = c == b'.'

-- The whole text is matched.
pub data Matches : List Piece → CString → Type 0 where
  done : Matches [] []
  one :
      (a : Atom) (ps : List Piece) (c : ℕ) (s : CString)
      → accepts a c ≡ true
      → Matches ps s
      → Matches (once a ∷ ps) (c ∷ s)
  skip : (a : Atom) (ps : List Piece) (s : CString) → Matches ps s → Matches (opt a ∷ ps) s
  present :
      (a : Atom) (ps : List Piece) (s : CString) → Matches (once a ∷ ps) s → Matches (opt a ∷ ps) s
  stop : (a : Atom) (ps : List Piece) (s : CString) → Matches ps s → Matches (star a ∷ ps) s
  more :
      (a : Atom) (ps : List Piece) (s : CString)
      → Matches (once a ∷ star a ∷ ps) s
      → Matches (star a ∷ ps) s
  some_more :
      (a : Atom) (ps : List Piece) (s : CString)
      → Matches (once a ∷ star a ∷ ps) s
      → Matches (plus a ∷ ps) s

abbrev first : Atom → (CString → Bool) → CString → Bool
first a k [] = false
first a k (c ∷ s) = accepts a c && k s

abbrev pub many : Atom → (CString → Bool) → CString → Bool
many a k [] = k []
many a k (c ∷ s) = k (c ∷ s) || (accepts a c && many a k s)

unfoldable pub matches : List Piece → CString → Bool
matches [] [] = true
matches [] (c ∷ s) = false
matches (once a ∷ ps) s = first a (matches ps) s
matches (opt a ∷ ps) s = matches ps s || first a (matches ps) s
matches (star a ∷ ps) s = many a (matches ps) s
matches (plus a ∷ ps) s = first a (many a (matches ps)) s

module _ (a : Atom) (ps : List Piece) where
  first-Matches :
      (k : CString → Bool) (s : CString)
      → ((t : CString) → k t ≡ true → Matches ps t)
      → first a k s ≡ true
      → Matches (once a ∷ ps) s
  first-Matches k [] h e = absurd (cc)
  first-Matches k (c ∷ s) h e = one a ps c s (ground arith) (h s (ground arith))

  many-Matches :
      (k : CString → Bool) (s : CString)
      → ((t : CString) → k t ≡ true → Matches ps t)
      → many a k s ≡ true
      → Matches (star a ∷ ps) s
  many-Matches k [] h e = stop a ps [] (h [] e)
  many-Matches k (c ∷ s) h e = elim (Bool-cases (k (c ∷ s))) [
    | inl now ↦ stop a ps (c ∷ s) (h (c ∷ s) now)
    | inr later ↦
        let rest : accepts a c && many a k s ≡ true = rw later at e in
        more a ps (c ∷ s)
          (one a (star a ∷ ps) c s (ground arith) (many-Matches k s h (ground arith)))
  ]

pub matches-Matches : (ps : List Piece) (s : CString) → matches ps s ≡ true → Matches ps s
unfolding matches
matches-Matches [] [] e = done
matches-Matches [] (c ∷ s) e = absurd (cc)
matches-Matches (once a ∷ ps) s e = first-Matches a ps (matches ps) s (matches-Matches ps) e
matches-Matches (opt a ∷ ps) s e = elim (Bool-cases (matches ps s)) [
  | inl now ↦ skip a ps s (matches-Matches ps s now)
  | inr later ↦
      present a ps s (first-Matches a ps (matches ps) s (matches-Matches ps) (rw later at e))
]
matches-Matches (star a ∷ ps) s e = many-Matches a ps (matches ps) s (matches-Matches ps) e
matches-Matches (plus a ∷ ps) s e = some_more a ps s (
    first-Matches a (star a ∷ ps) (many a (matches ps)) s
      (λ t h. many-Matches a ps (matches ps) t (matches-Matches ps) h) e)

many-first :
    (a : Atom) (k : CString → Bool) (s : CString) → first a (many a k) s ≡ true → many a k s ≡ true
many-first a k [] e = absurd (cc)
many-first a k (c ∷ s) e = ground arith

many-now : (a : Atom) (k : CString → Bool) (s : CString) → k s ≡ true → many a k s ≡ true
many-now a k [] e = e
many-now a k (c ∷ s) e = ground arith

pub Matches-matches : {ps : List Piece} {s : CString} → Matches ps s → matches ps s ≡ true
unfolding matches
Matches-matches done = refl
Matches-matches (one a ps c s h m) = ground (arith, Matches-matches m)
Matches-matches (skip a ps s m) = ground (arith, Matches-matches m)
Matches-matches (present a ps s m) = ground (arith, Matches-matches m)
Matches-matches (stop a ps s m) = many-now a (matches ps) s (Matches-matches m)
Matches-matches (more a ps s m) = many-first a (matches ps) s (Matches-matches m)
Matches-matches (some_more a ps s m) = Matches-matches m

-- The test decides the matching.
pub matches_iff : (ps : List Piece) (s : CString) → (matches ps s ≡ true) ↔ Matches ps s
matches_iff ps s = (matches-Matches ps s, Matches-matches)
