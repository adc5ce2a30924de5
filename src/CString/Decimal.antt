-- ===== src/CString/Decimal.antt =====
-- Decimal numbers: what `%d` prints, `atoi` reads.
use stros.Prelude.{
  ℕ, zero, suc, ◌+◌, ◌*◌, ◌/◌, ◌%◌, ◌<◌, ◌≡◌, refl, ◌∙◌, ap, inl, inr, true, false, [], ◌∷◌, ◌++◌,
  arith, append_assoc, ◌≤◌, ◌^◌, length, length-snoc, lt→ltb, ltb, ◌==◌, Bool-cases, ltb→lt, ℤ, pos,
  negsuc, neg, All, All-append,
}
use native.Mathlib.Nat.{pow-suc}
use stros.CString.{CString, isdigit, isspace, digits_fuel, digits, decimal, scan, atoi}

abbrev pub IsDigits : CString → Type 0
IsDigits = All (λ c. isdigit c ≡ true)

-- The text does not go on with a digit.
abbrev pub EndsNumber : CString → Type 0
EndsNumber [] = Unit
EndsNumber (c ∷ s) = isdigit c ≡ false

isdigit_add : (n : ℕ) → n < 10 → isdigit (b'0' + n) ≡ true
isdigit_add n h = ground arith

digits_fuel-IsDigits : (f n : ℕ) → IsDigits (digits_fuel f n)
unfolding digits_fuel
digits_fuel-IsDigits zero n = tt
digits_fuel-IsDigits (suc f) n = elim (Bool-cases (ltb n 10)) [
  | inl e ↦ rw (e, digits_fuel) (isdigit_add n (ltb→lt n 10 e), tt)
  | inr e ↦
      rw (e, digits_fuel)
        (All-append _ (digits_fuel f (n / 10)) _ (digits_fuel-IsDigits f (n / 10))
          (isdigit_add (n % 10) (omega arith), tt))
]

pub digits-IsDigits : (n : ℕ) → IsDigits (digits n)
unfolding digits
digits-IsDigits n = digits_fuel-IsDigits (suc n) n

-- A digit is no space and no sign.
pub digit_plain :
    (c : ℕ) → isdigit c ≡ true → (isspace c ≡ false) × ((c == b'-') ≡ false) × ((c == b'+') ≡ false)
digit_plain c h = ground arith

scan_digit : (acc d : ℕ) (s : CString) → d < 10 → scan acc ((b'0' + d) ∷ s) ≡ scan (acc * 10 + d) s
unfolding scan
scan_digit acc d s h = rw (isdigit_add d h, scan) (ap (λ k. scan (acc * 10 + k) s) (omega arith))

digits_fuel-scan :
    (f n : ℕ) (rest : CString) → n < f → scan 0 (digits_fuel f n ++ rest) ≡ scan n rest
unfolding digits_fuel
digits_fuel-scan zero n rest h = absurd (omega arith)
digits_fuel-scan (suc f) n rest h = elim (Bool-cases (ltb n 10)) [
  | inl e ↦
      rw (e, digits_fuel)
        (scan_digit 0 n rest (ltb→lt n 10 e) ∙ ap (λ k. scan k rest) (omega arith))
  | inr e ↦
      rw
        (
          e,
          digits_fuel,
          append_assoc,
          digits_fuel-scan f (n / 10) ((b'0' + n % 10) ∷ rest) (ground arith),
        )
        (scan_digit (n / 10) (n % 10) rest (omega arith) ∙ ap (λ k. scan k rest) (omega arith))
]

scan_end : (n : ℕ) (rest : CString) → EndsNumber rest → scan n rest ≡ n
unfolding scan
scan_end n [] h = refl
scan_end n (c ∷ s) h = rw (h, scan)

pub scan-digits : (n : ℕ) (rest : CString) → EndsNumber rest → scan 0 (digits n ++ rest) ≡ n
unfolding digits
scan-digits n rest h = digits_fuel-scan (suc n) n rest (omega arith) ∙ scan_end n rest h

digits_fuel-cons :
    (f n : ℕ) → n < f → (c : ℕ) × (s : CString) × (digits_fuel f n ≡ c ∷ s) × (isdigit c ≡ true)
unfolding digits_fuel
digits_fuel-cons zero n h = absurd (omega arith)
digits_fuel-cons (suc f) n h = elim (Bool-cases (ltb n 10)) [
  | inl e ↦ (b'0' + n, [], rw (e, digits_fuel), isdigit_add n (ltb→lt n 10 e))
  | inr e ↦
      let (c, s, same, d) = digits_fuel-cons f (n / 10) (ground arith) in
      (c, s ++ (b'0' + n % 10) ∷ [], rw (e, digits_fuel, same), d)
]

-- A printed number begins with a digit.
pub digits-cons : (n : ℕ) → (c : ℕ) × (s : CString) × (digits n ≡ c ∷ s) × (isdigit c ≡ true)
unfolding digits
digits-cons n = digits_fuel-cons (suc n) n (omega arith)

atoi_digits : (c : ℕ) (s : CString) → isdigit c ≡ true → atoi (c ∷ s) ≡ pos (scan 0 (c ∷ s))
unfolding atoi
atoi_digits c s h = let (space, minus, plus) = digit_plain c h in rw (space, atoi, minus, plus)

-- `atoi` reads back what `%d` printed, whatever stands behind the number.
pub atoi-decimal : (z : ℤ) (rest : CString) → EndsNumber rest → atoi (decimal z ++ rest) ≡ z
unfolding decimal
atoi-decimal (pos n) rest h =
    let (c, s, same, d) = digits-cons n in
    let whole : scan 0 (digits n ++ rest) ≡ n = scan-digits n rest h in
    rw same (atoi_digits c (s ++ rest) d ∙ ap pos (rw same at whole))
atoi-decimal (negsuc n) rest h = unfold atoi in ap neg (scan-digits (suc n) rest h)

length-digits_fuel : (f n k : ℕ) → n < 10 ^ suc k → length (digits_fuel f n) ≤ suc k
unfolding digits_fuel
length-digits_fuel zero n k h = omega arith
length-digits_fuel (suc f) n zero h =
    let small : ltb n 10 ≡ true = lt→ltb n 10 (omega arith) in rw (small, digits_fuel) (omega arith)
length-digits_fuel (suc f) n (suc k) h =
    let tenth : n / 10 < 10 ^ suc k = omega (arith, pow-suc 10 (suc k)) in
    let shorter = length-digits_fuel f (n / 10) k tenth in
    elim (Bool-cases (ltb n 10)) [
      | inl e ↦ rw (e, digits_fuel) (omega arith)
      | inr e ↦ rw (e, digits_fuel, length-snoc) (omega (arith, shorter))
    ]

-- A number below 10 ^ (k + 1) has at most k + 1 digits.
pub length-digits : (n k : ℕ) → n < 10 ^ suc k → length (digits n) ≤ suc k
unfolding digits
length-digits n k h = length-digits_fuel (suc n) n k h
