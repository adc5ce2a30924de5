-- ===== src/Utils/Files/Kinds.antt =====
-- `_exist`, `is_dir` and `is_file` beside one another, and behind `removeAll`.
use stros.Prelude.{
  ℕ, ◌≤◌, ◌≡◌, refl, is_some, ◌∙◌, true, false, List, [], ◌∷◌, Option, none, some, arith,
  Bool-cases, ◌↔◌, inl, inr, pos,
}
use stros.CString.{CString}
use stros.Utils.Files.{
  Files, s_isdir, has_ifdir, dir_of_stat, file_of_dir, exist, is_dir, is_file, remove_all,
}
use stros.Utils.Files.Directory.{IsDirectory}
use stros.Utils.Files.Tree.{Tree, lookup, alter, gone, AreNames, path, IsTree, height}
use stros.Utils.Files.Tree.Change.{lookup-alter-gone, alter_below}
use stros.Utils.Files.Remove.{remove_all-alter}

-- Each directory has the bit that `is_dir` tests.
pub has_ifdir-s_isdir : (mode : ℕ) → s_isdir mode ≡ true → has_ifdir mode ≡ true
unfolding s_isdir has_ifdir
has_ifdir-s_isdir mode h = ground arith

file_of_dir_iff :
    (st : Option ℕ)
    → (file_of_dir (dir_of_stat st) ≡ pos 1) ↔ ((is_some st ≡ true) × (dir_of_stat st ≡ pos 0))
file_of_dir_iff none = (λ h. absurd (cc), λ h. absurd (let no : false ≡ true = h.0 in cc))
file_of_dir_iff (some mode) = elim (Bool-cases (has_ifdir mode)) [
  | inl e ↦ rw e (λ h. absurd (cc), λ h. absurd (let no : pos 1 ≡ pos 0 = h.1 in cc))
  | inr e ↦ rw e (λ h. (refl, refl), λ h. refl)
]

module _ (F : Files) where
  -- A path is a file for `is_file` if something is there and `is_dir` says that it is no directory.
  pub is_file_iff :
      (s : F.State) (f : CString)
      → (is_file F s f ≡ pos 1) ↔ ((exist F s f ≡ true) × (is_dir F s f ≡ pos 0))
  unfolding exist is_file
  is_file_iff s f = file_of_dir_iff (F.stat s f)

module _ (F : Files) (root : CString) (view : F.State → Option Tree)
    (L : IsDirectory F root view) where
  exist_of_none :
      (s : F.State) (v : Tree) (xs : List CString)
      → AreNames xs
      → view s ≡ alter xs gone v
      → exist F s (path root xs) ≡ false
  unfolding exist path alter
  exist_of_none s v [] plain seen = rw (L.stat-gone s seen) refl
  exist_of_none s v (x ∷ xs) plain seen =
      let (w, left) = alter_below x xs gone v in
      rw (L.stat-none s w (x ∷ xs) (seen ∙ left) plain (lookup-alter-gone (x ∷ xs) v w left)) refl

  -- What `removeAll` with `mode` removes does not exist afterwards.
  pub exist-remove_all :
      (n : ℕ) (s : F.State) (v : Tree) (xs : List CString) (t : Tree)
      → view s ≡ some v
      → AreNames xs
      → lookup xs v ≡ some t
      → IsTree t
      → height t ≤ n
      → (s' : F.State) × (remove_all F n s (path root xs) true ≡ some s')
        × (exist F s' (path root xs) ≡ false)
  exist-remove_all n s v xs t shown plain at tree small =
      let (s', ran, seen) =
        remove_all-alter F root view L n s v xs t true shown plain at tree small in
      (s', ran, exist_of_none s' v xs plain seen)
