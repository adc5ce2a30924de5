-- ===== src/CString/Tokens.antt =====
-- The loop over `strsep`, and where it cuts.
use stros.Prelude.{
  refl, ℕ, ◌∙◌, ◌≡◌, ◌∙◌, inl, inr, true, false, Option, none, some, List, [], ◌∷◌, ◌++◌,
  append-nil, append_assoc, All, Bool-cases,
}
use stros.CString.{CString, contains, strsep, strsep_all}

-- No character of the text is a delimiter.
abbrev pub Lacks : CString → CString → Type 0
Lacks delim = All (λ c. contains delim c ≡ false)

-- The tokens of what is left after a call of `strsep`.
abbrev pub more_tokens : CString → Option CString → List CString
more_tokens delim none = []
more_tokens delim (some s) = strsep_all delim [] s

strsep_all_cur :
    (delim s cur : CString)
    → strsep_all delim cur s ≡ (cur ++ (strsep delim s).0) ∷ more_tokens delim (strsep delim s).1
unfolding strsep strsep_all
strsep_all_cur delim [] cur = rw append-nil
strsep_all_cur delim (c ∷ s) cur = elim (Bool-cases (contains delim c)) [
  | inl e ↦ rw (e, strsep, strsep_all, append-nil)
  | inr e ↦ rw (e, strsep, strsep_all, strsep_all_cur delim s, append_assoc)
]

-- One round of the loop is one call of `strsep`.
pub strsep_all-strsep :
    (delim s : CString)
    → strsep_all delim [] s ≡ (strsep delim s).0 ∷ more_tokens delim (strsep delim s).1
strsep_all-strsep delim s = strsep_all_cur delim s []

strsep_all_plain :
    (delim s cur rest : CString)
    → Lacks delim s
    → strsep_all delim cur (s ++ rest) ≡ strsep_all delim (cur ++ s) rest
unfolding strsep_all
strsep_all_plain delim [] cur rest h = rw append-nil
strsep_all_plain delim (c ∷ s) cur rest (hc, hs) =
    rw (hc, strsep_all, strsep_all_plain delim s (cur ++ c ∷ []) rest hs, append_assoc)

module _ (delim token : CString) (plain : Lacks delim token) where
  pub strsep_all_last : strsep_all delim [] token ≡ token ∷ []
  unfolding strsep_all
  strsep_all_last =
      let whole : strsep_all delim [] (token ++ []) ≡ token ∷ [] =
        strsep_all_plain delim token [] [] plain in
      rw append-nil at whole

  pub strsep_all_cut :
      (d : ℕ) (rest : CString)
      → contains delim d ≡ true
      → strsep_all delim [] (token ++ d ∷ rest) ≡ token ∷ strsep_all delim [] rest
  unfolding strsep_all
  strsep_all_cut d rest h = strsep_all_plain delim token [] (d ∷ rest) plain ∙ rw (h, strsep_all)

-- A text with no delimiter is one token.
pub strsep_plain : (delim s : CString) → Lacks delim s → strsep delim s ≡ (s, none)
unfolding strsep
strsep_plain delim [] h = refl
strsep_plain delim (c ∷ s) (hc, hs) = rw (hc, strsep, strsep_plain delim s hs)
