-- ===== src/Utils/Hash/Laws.antt =====
-- What `hash` computes: a polynomial in 31, reduced once.
use stros.Prelude.{ℕ, ◌+◌, ◌*◌, ◌%◌, ◌^◌, ◌<◌, ◌≡◌, ◌∙◌, ap, [], ◌∷◌, arith}
use stros.CString.{CString}
use stros.Utils.Hash.{char_value, hash_loop, hash}

-- The sum of the characters, the last times 1, each other times 31 times the weight behind it.
pub polynomial : ℕ → CString → ℕ
polynomial acc [] = acc
polynomial acc (c ∷ s) = polynomial (char_value c + 31 * acc) s

polynomial-mod :
    (s : CString) (a b : ℕ)
    → a % 2 ^ 32 ≡ b % 2 ^ 32
    → polynomial a s % 2 ^ 32 ≡ polynomial b s % 2 ^ 32
unfolding polynomial
polynomial-mod [] a b h = h
polynomial-mod (c ∷ s) a b h = polynomial-mod s _ _ (omega arith)

hash_loop-polynomial : (s : CString) (a : ℕ) → a < 2 ^ 32 → hash_loop a s ≡ polynomial a s % 2 ^ 32
unfolding hash_loop polynomial
hash_loop-polynomial [] a h = omega arith
hash_loop-polynomial (c ∷ s) a h =
    hash_loop-polynomial s _ (omega arith) ∙ polynomial-mod s _ _ (omega arith)

-- The hash of a text is the value of the polynomial with the text's characters for coefficients at
-- 31, reduced modulo 2 ^ 32 and then modulo the table's size: no wrap-around on the way is lost.
pub hash-polynomial : (key : CString) (size : ℕ) → hash key size ≡ polynomial 0 key % 2 ^ 32 % size
unfolding hash
hash-polynomial key size = ap (λ v. v % size) (hash_loop-polynomial key 0 (omega arith))

pub hash-lt : (key : CString) (size : ℕ) → 0 < size → hash key size < size
unfolding hash
hash-lt key size h = omega arith
