-- ===== src/Utils/Files/Targets.antt =====
-- The paths that `removeAll` removes.
use stros.Prelude.{
  ℕ, zero, suc, ◌≡◌, refl, ◌≢◌, Bool, true, false, List, [], ◌∷◌, none, some, All, Bool-cases,
  Option-cases, inl, inr,
}
use stros.CString.{CString}
use stros.Utils.Files.{
  Files, s_isdir, is_dots, join, removed, removed_inside, each_entry, remove_all,
}
use stros.Utils.Files.Tree.{path}

-- A path that `removeAll(p, mode)` may remove: `p` with names behind it that are neither `.` nor
-- `..`, at least one of them unless `mode` is set.
abbrev pub Target : CString → Bool → CString → Type 0
Target p mode q =
    (xs : List CString) × (q ≡ path p xs)
    × All (λ x. is_dots x ≡ false) xs
    × (mode ≡ false → xs ≢ [])

Target-join :
    (p x q : CString) (mode : Bool) → is_dots x ≡ false → Target (join p x) true q → Target p mode q
unfolding path
Target-join p x q mode ok (xs, e, plain, _) = (x ∷ xs, e, (ok, plain), λ _ h. absurd (cc))

module _ (F : Files) (P : F.State → Type 0) where
  P_of_some : (s t : F.State) → some s ≡ some t → P s → P t
  P_of_some s t e h = let same : s ≡ t = cc in rw (← same) h

  abbrev Keeps : CString → Bool → Type 0
  Keeps p mode = (s : F.State) (q : CString) → Target p mode q → P s → P (F.remove s q)

  abbrev KeptBy : ℕ → Type 0
  KeptBy n =
      (s s' : F.State) (p : CString) (mode : Bool)
      → Keeps p mode
      → P s
      → remove_all F n s p mode ≡ some s'
      → P s'

  each_entry-kept :
      (n : ℕ) (p : CString) (mode : Bool) (names : List CString) (s s' : F.State)
      → KeptBy n
      → Keeps p mode
      → P s
      → each_entry F (λ t child. remove_all F n t child true) p s names ≡ some s'
      → P s'
  unfolding each_entry
  each_entry-kept n p mode [] s s' kept keeps h ran = P_of_some s s' ran h
  each_entry-kept n p mode (x ∷ names) s s' kept keeps h ran = elim (Bool-cases (is_dots x)) [
    | inl dots ↦ each_entry-kept n p mode names s s' kept keeps h (rw (each_entry, dots) at ran)
    | inr ok ↦ elim (Option-cases (remove_all F n s (join p x) true)) [
      | inl none_left ↦
          absurd (let no : none ≡ some s' = rw (each_entry, ok, none_left) at ran in cc)
      | inr (t, e) ↦
          each_entry-kept n p mode names t s' kept keeps
            (kept s t (join p x) true (λ r q target. keeps r q (Target-join p x q mode ok target)) h
              e)
            (rw (each_entry, ok, e) at ran)
    ]
  ]

  removed-kept :
      (p : CString) (mode : Bool) (s : F.State) → Keeps p mode → P s → P (removed F mode s p)
  unfolding path
  removed-kept p true s keeps h = keeps s p ([], refl, tt, λ no. absurd (cc)) h
  removed-kept p false s keeps h = h

  inside-kept :
      (n m : ℕ) (s s' : F.State) (p : CString) (mode : Bool)
      → KeptBy n
      → Keeps p mode
      → P s
      → removed_inside F (λ t child. remove_all F n t child true) p mode s m ≡ some s'
      → P s'
  inside-kept n m s s' p mode kept keeps h ran = elim (Bool-cases (s_isdir m)) [
    | inl kind ↦ elim (Option-cases (F.opendir s p)) [
      | inl shut ↦
          P_of_some _ s' (rw (removed_inside, kind, shut) at ran) (removed-kept p mode s keeps h)
      | inr (names, opened) ↦
          elim (Option-cases (each_entry F (λ t child. remove_all F n t child true) p s names)) [
            | inl none_left ↦ absurd (
                let no : none ≡ some s' = rw (removed_inside, kind, opened, none_left) at ran in cc)
            | inr (t, e) ↦
                P_of_some _ s' (rw (removed_inside, kind, opened, e) at ran)
                  (removed-kept p mode t keeps (each_entry-kept n p mode names s t kept keeps h e))
          ]
    ]
    | inr other ↦ P_of_some _ s' (rw (removed_inside, other) at ran) (removed-kept p mode s keeps h)
  ]

  -- Whatever the operating system answers, `removeAll` removes only its own path, this only if
  -- `mode` is set, and paths that continue it by names that are neither `.` nor `..`: where it
  -- returns, a property of the state that removing these keeps has been kept.
  pub remove_all-kept :
      (n : ℕ) (s s' : F.State) (p : CString) (mode : Bool)
      → ((t : F.State) (q : CString) → Target p mode q → P t → P (F.remove t q))
      → P s
      → remove_all F n s p mode ≡ some s'
      → P s'
  unfolding remove_all
  remove_all-kept zero s s' p mode keeps h ran = absurd (cc)
  remove_all-kept (suc n) s s' p mode keeps h ran = elim (Option-cases (F.stat s p)) [
    | inl absent ↦ P_of_some s s' (rw (remove_all, absent) at ran) h
    | inr (m, there) ↦
        inside-kept n m s s' p mode (remove_all-kept n) keeps h (rw (remove_all, there) at ran)
  ]
