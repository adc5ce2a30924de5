-- ===== src/ItemList/Pairs.antt =====
-- `split` on texts of two parts, and texts that are no numbers.
use stros.Prelude.{◌≡◌, ◌≢◌, refl, true, false, [], ◌∷◌, ◌++◌, arith, some, ℕ}
use stros.CString.{CString, contains}
use stros.CString.Tokens.{Lacks, strsep_all_cut, strsep_all_last}
use stros.Utils.Match.{all_digits, some_digits, skip_sign, match_int, match_fraction, match_float}
use stros.ItemList.{Floats, string, null, node, list_init, list_put, list_put_special, special}
use stros.ItemList.Put.{special_not_nil}
use stros.ItemList.Split.{split, split_loop, split_result}

module _ ⦃fl : Floats⦄ where
  pub two_items :
      (k v : CString)
      → k ≢ []
      → v ≢ []
      → split_result (split_loop list_init (k ∷ v ∷ [])) ≡ node (special k) (node (special v) null)
  unfolding split_loop split_result list_put_special list_put list_init
  two_items [] v hk hv = absurd (hk refl)
  two_items (c ∷ k) [] hk hv = absurd (hv refl)
  two_items (c ∷ k) (d ∷ v) hk hv = rw (special_not_nil (c ∷ k)) (rw (special_not_nil (c ∷ k)) refl)

  -- A text with the delimiter once inside is split in two.
  pub split_two :
      (d : ℕ) (k v : CString)
      → k ≢ []
      → v ≢ []
      → Lacks (d ∷ []) k
      → Lacks (d ∷ []) v
      → split (some (k ++ d ∷ v)) (some (d ∷ [])) ≡ node (special k) (node (special v) null)
  unfolding split
  split_two d k v hk hv lk lv =
      rw
        (
          strsep_all_cut (d ∷ []) k lk d v (unfold contains in ground arith),
          strsep_all_last (d ∷ []) v lv,
        )
        (two_items k v hk hv)

all_digits_colon : (s : CString) → contains s b':' ≡ true → all_digits s ≡ false
unfolding contains all_digits
all_digits_colon [] h = cc
all_digits_colon (c ∷ s) h = ground (arith, all_digits_colon s)

some_digits_colon : (s : CString) → contains s b':' ≡ true → some_digits s ≡ false
unfolding contains some_digits
some_digits_colon [] h = refl
some_digits_colon (c ∷ s) h = ground (arith, all_digits_colon s)

skip_sign_colon : (s : CString) → contains s b':' ≡ true → contains (skip_sign s) b':' ≡ true
unfolding contains skip_sign
skip_sign_colon [] h = h
skip_sign_colon (c ∷ s) h = ground arith

match_fraction_colon : (s : CString) → contains s b':' ≡ true → match_fraction s ≡ false
unfolding contains match_fraction
match_fraction_colon [] h = refl
match_fraction_colon (c ∷ s) h = ground (arith, match_fraction_colon s, some_digits_colon s)

-- A text with a colon is no number.
pub special_colon : ⦃fl : Floats⦄ → (s : CString) → contains s b':' ≡ true → special s ≡ string s
unfolding special match_int match_float
special_colon s h =
    rw
      (
        some_digits_colon (skip_sign s) (skip_sign_colon s h),
        match_fraction_colon (skip_sign s) (skip_sign_colon s h),
      )
      refl

pub contains_inside : (k v : CString) (d : ℕ) → contains (k ++ d ∷ v) d ≡ true
unfolding contains
contains_inside [] v d = ground arith
contains_inside (c ∷ k) v d = ground (arith, contains_inside k v d)
