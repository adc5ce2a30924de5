-- ===== src/Utils/Mime/Laws.antt =====
-- Extensions and their MIME types.
use stros.Prelude.{
  ℕ, ◌≡◌, ◌⊎◌, refl, inl, inr, true, false, List, [], ◌∷◌, ◌++◌, arith, some, ok, fault, Bool-cases,
}
use stros.CString.{CString, codes, strsep_all, contains}
use stros.CString.Tokens.{Lacks, strsep_all_last, strsep_all_cut, strsep_all-strsep}
use stros.Utils.Mime.{
  Mime, has_ext, octet_stream, find_ext, mime_from_ext, last_token, trim_hidden, ext_of, ext, mime,
  is_bin,
}

contains_middle : (s t : CString) (c : ℕ) → contains (s ++ c ∷ t) c ≡ true
unfolding contains
contains_middle [] t c = ground arith
contains_middle (d ∷ s) t c = ground (arith, contains_middle s t c)

-- A file name in front of its first dot: it is not empty.
module _ (c : ℕ) (stem : CString) (plain : Lacks (codes ".") (c ∷ stem)) where
  trim_hidden_plain : (rest : CString) → trim_hidden (c ∷ rest) ≡ ok (c ∷ rest)
  unfolding trim_hidden contains
  trim_hidden_plain rest = ground (arith, plain.0)

  -- Such a name is cut at that dot, and the rest goes through the loop.
  ext_of_stem :
      (rest : CString)
      → ext_of (c ∷ stem ++ b'.' ∷ rest) ≡ last_token (c ∷ stem) (strsep_all (codes ".") [] rest)
  unfolding ext_of contains
  ext_of_stem rest = rw (
    contains_middle (c ∷ stem) rest b'.',
    trim_hidden_plain (stem ++ b'.' ∷ rest),
    strsep_all_cut (codes ".") (c ∷ stem) plain b'.' rest refl,
  )

  -- The extension of a name with one dot, behind a first part and in front of an extension that
  -- are not empty, is what stands behind the dot.
  pub ext-append :
      (d : ℕ) (e : CString)
      → Lacks (codes ".") (d ∷ e)
      → ext (some (c ∷ stem ++ b'.' ∷ d ∷ e)) ≡ ok (some (d ∷ e))
  unfolding ext last_token
  ext-append d e last = rw (ext_of_stem (d ∷ e), strsep_all_last (codes ".") (d ∷ e) last)

  -- `mime` and `is_bin` of a name of a first part, a dot and an extension, neither of them empty
  -- nor with a dot inside, are those of the table for this extension.
  pub mime-append :
      (d : ℕ) (e : CString)
      → Lacks (codes ".") (d ∷ e)
      → (mime (some (c ∷ stem ++ b'.' ∷ d ∷ e)) ≡ ok (mime_from_ext (d ∷ e)).type)
        × (is_bin (some (c ∷ stem ++ b'.' ∷ d ∷ e)) ≡ ok (mime_from_ext (d ∷ e)).bin)
  unfolding mime is_bin last_token
  mime-append d e last =
      let found : ext_of (c ∷ stem ++ b'.' ∷ d ∷ e) ≡ ok (d ∷ e) =
        rw (ext_of_stem (d ∷ e), strsep_all_last (codes ".") (d ∷ e) last) in
      (rw found, rw found)

  -- Where two dots follow one another behind a first part that is not empty and has no dot, `ext`
  -- frees a pointer into the middle of its buffer.
  pub ext_two_dots : (rest : CString) → ext (some (c ∷ stem ++ b'.' ∷ b'.' ∷ rest)) ≡ fault
  unfolding ext last_token strsep_all
  ext_two_dots rest = rw (ext_of_stem (b'.' ∷ rest), strsep_all-strsep (codes ".") rest)

-- A name with no dot has the empty extension.
pub ext_no_dot : (file : CString) → contains file b'.' ≡ false → ext (some file) ≡ ok (some [])
unfolding ext
ext_no_dot file h = rw h

-- Each row of a table that `find_ext` searches is the table's own or the fallback.
pub find_ext_found :
    (ex : CString) (ms : List Mime)
    → (find_ext ex ms ≡ octet_stream) ⊎ (has_ext ex (find_ext ex ms).exts ≡ true)
unfolding find_ext
find_ext_found ex [] = inl refl
find_ext_found ex (m ∷ ms) = elim (Bool-cases (has_ext ex m.exts)) [
  | inl e ↦ rw e (inr e)
  | inr e ↦ rw e (find_ext_found ex ms)
]
