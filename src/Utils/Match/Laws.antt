-- ===== src/Utils/Match/Laws.antt =====
-- The two number patterns: what they accept, and that no text is accepted by both.
use stros.Prelude.{
  ℕ, suc, ◌≡◌, ◌↔◌, ◌⊎◌, refl, inl, inr, true, false, ◌&&◌, ◌||◌, [], ◌∷◌, arith, ◌==◌, Bool-cases,
  ℤ, pos, negsuc,
}
use stros.CString.{CString, isdigit, decimal}
use stros.CString.Decimal.{IsDigits, digits-cons, digits-IsDigits}
use stros.Utils.Match.{all_digits, match_int, match_fraction, match_float}

-- The texts of integers: a sign or none, then digits.
pub data IsIntLiteral : CString → Type 0 where
  plain : (c : ℕ) (ds : CString) → IsDigits (c ∷ ds) → IsIntLiteral (c ∷ ds)
  signed :
      (sign c : ℕ) (ds : CString)
      → (sign ≡ b'-') ⊎ (sign ≡ b'+')
      → IsDigits (c ∷ ds)
      → IsIntLiteral (sign ∷ c ∷ ds)

all_digits-IsDigits : (s : CString) → all_digits s ≡ true → IsDigits s
unfolding all_digits
all_digits-IsDigits [] h = tt
all_digits-IsDigits (c ∷ s) h = ground (arith, all_digits-IsDigits s)

pub IsDigits-all_digits : (s : CString) → IsDigits s → all_digits s ≡ true
unfolding all_digits
IsDigits-all_digits [] h = refl
IsDigits-all_digits (c ∷ s) (hc, hs) = rw (hc, IsDigits-all_digits s hs)

match_int-IsIntLiteral : (s : CString) → match_int s ≡ true → IsIntLiteral s
unfolding match_int
match_int-IsIntLiteral [] h = cc
match_int-IsIntLiteral (c ∷ []) h = plain c [] (ground arith)
match_int-IsIntLiteral (c ∷ d ∷ s) h = elim (Bool-cases (c == b'-' || c == b'+')) [
  | inl sign ↦
      signed c d s (ground arith)
        (let e : isdigit d && all_digits s ≡ true = rw sign at h in all_digits-IsDigits (d ∷ s) e)
  | inr other ↦ plain c (d ∷ s) (
      let e : isdigit c && all_digits (d ∷ s) ≡ true = rw other at h in
      all_digits-IsDigits (c ∷ d ∷ s) e)
]

IsIntLiteral-match_int : {s : CString} → IsIntLiteral s → match_int s ≡ true
unfolding match_int
IsIntLiteral-match_int (plain c ds (hc, hs)) =
    let e : (c == b'-' || c == b'+') ≡ false = ground arith in rw (e, hc, IsDigits-all_digits ds hs)
IsIntLiteral-match_int (signed sign c ds hsign (hc, hs)) =
    let e : (sign == b'-' || sign == b'+') ≡ true = ground arith in
    rw (e, hc, IsDigits-all_digits ds hs)

-- `match_int` accepts a text exactly when it is a sign or none followed by one or more digits.
pub match_int_iff : (s : CString) → (match_int s ≡ true) ↔ IsIntLiteral s
match_int_iff s = (match_int-IsIntLiteral s, IsIntLiteral-match_int)

-- What `%d` prints is accepted.
pub match_int-decimal : (z : ℤ) → match_int (decimal z) ≡ true
unfolding decimal
match_int-decimal (pos n) =
    let (c, s, same, d) = digits-cons n in
    let ds : IsDigits (c ∷ s) = rw same at (digits-IsDigits n) in
    rw same (IsIntLiteral-match_int (plain c s ds))
match_int-decimal (negsuc n) =
    let (c, s, same, d) = digits-cons (suc n) in
    let ds : IsDigits (c ∷ s) = rw same at (digits-IsDigits (suc n)) in
    rw same (IsIntLiteral-match_int (signed b'-' c s (inl refl) ds))

fraction_of_digits : (s : CString) → IsDigits s → match_fraction s ≡ false
unfolding match_fraction
fraction_of_digits [] h = refl
fraction_of_digits (c ∷ s) (hc, hs) = ground (arith, fraction_of_digits s hs)

-- No text is accepted by both patterns.
pub match_float-match_int : (s : CString) → match_int s ≡ true → match_float s ≡ false
unfolding match_float
match_float-match_int s h = go (match_int-IsIntLiteral s h)
  where
    go : {t : CString} → IsIntLiteral t → match_float t ≡ false
    go (plain c ds (hc, hs)) =
        let e : (c == b'-' || c == b'+') ≡ false = ground arith in
        rw e (fraction_of_digits (c ∷ ds) (hc, hs))
    go (signed sign c ds hsign hds) =
        let e : (sign == b'-' || sign == b'+') ≡ true = ground arith in
        rw e (fraction_of_digits (c ∷ ds) hds)
