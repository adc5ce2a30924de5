-- ===== src/Api/Header/Loop.antt =====
-- The rounds of the loop of `verify_ros_header` over the fields.
use stros.Prelude.{
  ℕ, zero, suc, ◌+◌, ◌-◌, ◌%◌, ◌≤◌, ◌<◌, ◌≡◌, refl, ◌∙◌, sym, inl, inr, true, false, ◌||◌, [], ◌∷◌,
  ◌++◌, arith, ltb, leb, ◌==◌, Run, ok, fault, ◌>>=◌, length, length-append, drop, take-append,
  drop-append, Bool-cases,
}
use stros.CString.{CString}
use stros.ItemList.{Floats}
use stros.Rpc.Http.Decode.{NoNul, until_nul_plain}
use stros.Api.Header.{
  int_bytes, header_field, Found, all_found, keep_field, field_round, fields_loop,
}

module _ ⦃fl : Floats⦄ where
  pub fields_loop_stop :
      (fuel : ℕ) (f : Found) (buf : CString) (left : ℕ)
      → (all_found f || left == 0) ≡ true
      → fields_loop fuel f buf left ≡ ok f
  unfolding fields_loop
  fields_loop_stop zero f buf left h = rw h
  fields_loop_stop (suc fuel) f buf left h = rw h

  fields_loop_go :
      (fuel : ℕ) (f : Found) (buf : CString) (left : ℕ)
      → (all_found f || left == 0) ≡ false
      → fields_loop (suc fuel) f buf left ≡ field_round (fields_loop fuel) f buf left
  unfolding fields_loop
  fields_loop_go fuel f buf left h = rw h

  bind_congr :
      (m : Run Found) (k k' : Found → Run Found)
      → ((x : Found) → k x ≡ k' x)
      → (m >>= k) ≡ (m >>= k')
  bind_congr (ok x) k k' same = same x
  bind_congr fault k k' same = refl

  field_round_congr :
      (k k' : Found → CString → ℕ → Run Found) (f : Found) (buf : CString) (left : ℕ)
      → ((x : Found) (b : CString) (n : ℕ) → n ≤ left - 4 → k x b n ≡ k' x b n)
      → field_round k f buf left ≡ field_round k' f buf left
  unfolding field_round
  field_round_congr k k' f [] left same = refl
  field_round_congr k k' f (size ∷ buf) left same =
      elim (Bool-cases (leb 128 size || ltb (length buf) (3 + size))) [
        | inl e ↦ rw e
        | inr e ↦ rw e (bind_congr _ _ _ (λ x. same x _ _ (omega arith)))
      ]

  none_left : (f : Found) (left : ℕ) → left ≤ 0 → (all_found f || left == 0) ≡ true
  none_left f left h = ground arith

  both_stop :
      (n m : ℕ) (f : Found) (buf : CString) (left : ℕ)
      → (all_found f || left == 0) ≡ true
      → fields_loop n f buf left ≡ fields_loop m f buf left
  both_stop n m f buf left e =
      fields_loop_stop n f buf left e ∙ sym (fields_loop_stop m f buf left e)

  -- Any two amounts of fuel that are not below the size of the header give the same run of the
  -- loop over its fields, so the loop ends within that many rounds.
  pub fields_loop-fuel :
      (n m : ℕ) (f : Found) (buf : CString) (left : ℕ)
      → left ≤ n
      → left ≤ m
      → fields_loop n f buf left ≡ fields_loop m f buf left
  fields_loop-fuel zero m f buf left hn hm = both_stop zero m f buf left (none_left f left hn)
  fields_loop-fuel (suc n) zero f buf left hn hm =
      both_stop (suc n) zero f buf left (none_left f left hm)
  fields_loop-fuel (suc n) (suc m) f buf left hn hm = elim (Bool-cases (all_found f || left == 0)) [
    | inl e ↦ both_stop (suc n) (suc m) f buf left e
    | inr e ↦
        fields_loop_go n f buf left e
        ∙ field_round_congr (fields_loop n) (fields_loop m) f buf left
            (λ x b k le. fields_loop-fuel n m x b k (omega arith) (omega arith))
        ∙ sym (fields_loop_go m f buf left e)
  ]

  module _ (k : Found → CString → ℕ → Run Found) (f : Found) (text rest : CString) (left : ℕ) where
    sized_field :
        (size b1 b2 b3 : ℕ)
        → length text ≡ size
        → size < 128
        → NoNul text
        → field_round k f (size ∷ b1 ∷ b2 ∷ b3 ∷ (text ++ rest)) left
          ≡ (keep_field f text >>= λ x. k x rest (left - (4 + size)))
    unfolding field_round
    sized_field size b1 b2 b3 e small plain =
        let fits : (leb 128 size || ltb (length (b1 ∷ b2 ∷ b3 ∷ (text ++ rest))) (3 + size))
            ≡ false =
          ground (arith, length-append text rest) in
        let behind : drop (3 + size) (b1 ∷ b2 ∷ b3 ∷ (text ++ rest)) ≡ rest =
          drop-append (b1 ∷ b2 ∷ b3 ∷ text) rest (3 + size) (omega arith) in
        rw (fits, take-append text rest size e, until_nul_plain text plain, behind) refl

    one_field :
        length text < 128
        → NoNul text
        → field_round k f (header_field text ++ rest) left
          ≡ (keep_field f text >>= λ x. k x rest (left - (4 + length text)))
    unfolding header_field int_bytes
    one_field small plain =
        let size : length text % 256 ≡ length text = omega arith in
        rw size (sized_field (length text) _ _ _ refl small plain)

  -- One field of fewer than 128 bytes, none of them NUL, is cut off and kept.
  pub fields_loop-header_field :
      (fuel : ℕ) (f : Found) (text rest : CString) (left : ℕ)
      → (all_found f || left == 0) ≡ false
      → length text < 128
      → NoNul text
      → fields_loop (suc fuel) f (header_field text ++ rest) left
        ≡ (keep_field f text >>= λ x. fields_loop fuel x rest (left - (4 + length text)))
  fields_loop-header_field fuel f text rest left going small plain =
      fields_loop_go fuel f (header_field text ++ rest) left going
      ∙ one_field (fields_loop fuel) f text rest left small plain
