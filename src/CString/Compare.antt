-- ===== src/CString/Compare.antt =====
-- `strcmp` and `strcasecmp` decide what they stand for.
use stros.Prelude.{◌≡◌, refl, ◌↔◌, true, [], ◌∷◌, arith}
use stros.CString.{CString, equ, iequ}

pub equ_refl : (s : CString) → equ s s ≡ true
unfolding equ
equ_refl [] = refl
equ_refl (c ∷ s) = ground (arith, equ_refl s)

pub eq_of_equ : (s t : CString) → equ s t ≡ true → s ≡ t
unfolding equ
eq_of_equ [] [] h = refl
eq_of_equ [] (b ∷ t) h = cc
eq_of_equ (a ∷ s) [] h = cc
eq_of_equ (a ∷ s) (b ∷ t) h = ground (arith, eq_of_equ s t)

pub equ_iff : (s t : CString) → (equ s t ≡ true) ↔ (s ≡ t)
equ_iff s t = (eq_of_equ s t, λ e. rw e (equ_refl t))

pub equ_comm : (s t : CString) → equ s t ≡ equ t s
unfolding equ
equ_comm [] [] = refl
equ_comm [] (b ∷ t) = refl
equ_comm (a ∷ s) [] = refl
equ_comm (a ∷ s) (b ∷ t) = ground (arith, equ_comm s t)

pub iequ_refl : (s : CString) → iequ s s ≡ true
unfolding iequ
iequ_refl [] = refl
iequ_refl (c ∷ s) = ground (arith, iequ_refl s)
