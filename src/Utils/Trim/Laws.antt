-- ===== src/Utils/Trim/Laws.antt =====
-- What `trim` leaves.
use stros.Prelude.{
  ℕ, zero, suc, ◌≡◌, refl, ◌∙◌, ap, false, [], ◌∷◌, ◌++◌, append_assoc, append-nil, ◌==◌, ==_refl,
  length, take-append, length-snoc, get_or-snoc, replicate, ok, fault,
}
use stros.CString.{CString}
use stros.Utils.Trim.{trim_end, trim_start, trim}

module _ (d : ℕ) where
  trim_end_step :
      (p : CString) → trim_end d (length (p ++ d ∷ [])) (p ++ d ∷ []) ≡ trim_end d (length p) p
  unfolding trim_end
  trim_end_step p = rw (
    length-snoc p d,
    get_or-snoc p [] d 0,
    ==_refl d,
    trim_end,
    take-append p (d ∷ []) (length p) refl,
  )

  trim_end_strip :
      (b : ℕ) (p : CString)
      → trim_end d (length (p ++ replicate b d)) (p ++ replicate b d) ≡ trim_end d (length p) p
  unfolding replicate
  trim_end_strip zero p = rw append-nil
  trim_end_strip (suc b) p =
      let whole : trim_end d (length ((p ++ d ∷ []) ++ replicate b d))
            ((p ++ d ∷ []) ++ replicate b d)
          ≡ trim_end d (length p) p =
        trim_end_strip b (p ++ d ∷ []) ∙ trim_end_step p in
      rw append_assoc at whole

  trim_end_stop :
      (q : CString) (e : ℕ)
      → (e == d) ≡ false
      → trim_end d (length (q ++ e ∷ [])) (q ++ e ∷ []) ≡ ok (q ++ e ∷ [])
  unfolding trim_end
  trim_end_stop q e h = rw (length-snoc q e, get_or-snoc q [] e 0, h, trim_end)

  trim_start_strip :
      (a c : ℕ) (r : CString) → (c == d) ≡ false → trim_start d (replicate a d ++ c ∷ r) ≡ c ∷ r
  unfolding trim_start replicate
  trim_start_strip zero c r h = rw (h, trim_start)
  trim_start_strip (suc a) c r h = rw (==_refl d, trim_start) (trim_start_strip a c r h)

  -- The text that neither begins nor ends with `d`.
  pub record IsCore (s : CString) : Type 0 where
    pub first : ℕ
    pub behind : CString
    pub begins : s ≡ first ∷ behind
    pub first_other : (first == d) ≡ false
    pub last : ℕ
    pub front : CString
    pub ends : s ≡ front ++ last ∷ []
    pub last_other : (last == d) ≡ false

  trim-end_core :
      (a b : ℕ) (core : CString)
      → IsCore core
      → trim_end d
          (length (replicate a d ++ (core ++ replicate b d)))
          (replicate a d ++ (core ++ replicate b d))
        ≡ ok (replicate a d ++ core)
  trim-end_core a b core h =
      let whole : trim_end d (length ((replicate a d ++ core) ++ replicate b d))
            ((replicate a d ++ core) ++ replicate b d)
          ≡ ok (replicate a d ++ core) =
        trim_end_strip b (replicate a d ++ core)
        ∙ rw (h.ends, ← append_assoc)
            (trim_end_stop (replicate a d ++ h.front) h.last h.last_other) in
      rw append_assoc at whole

  -- `trim` takes off every `d` in front of and behind a text that is not empty and neither begins
  -- nor ends with `d`.
  pub trim-core :
      (a b : ℕ) (core : CString)
      → IsCore core
      → trim (replicate a d ++ (core ++ replicate b d)) d ≡ ok core
  unfolding trim
  trim-core a b core h =
      rw (trim-end_core a b core h, h.begins)
        (ap ok (trim_start_strip a h.first h.behind h.first_other))

  -- On a string that holds nothing but `d`, the empty string included, the first loop of `trim`
  -- runs past the start of the buffer.
  pub trim-replicate : (n : ℕ) → trim (replicate n d) d ≡ fault
  unfolding trim
  trim-replicate n =
      let whole : trim_end d (length (replicate n d)) (replicate n d) ≡ fault =
        trim_end_strip n [] ∙ (unfold trim_end in refl) in
      rw whole
