-- ===== src/Utils/Files/Directory.antt =====
-- What the operating system does with the files below a directory, in terms of the directory's tree.
use stros.Prelude.{ℕ, ◌≡◌, Bool, true, false, ◌||◌, List, [], ◌∷◌, Option, none, some, All}
use stros.CString.{CString, equ}
use stros.Utils.Files.{Files, s_isdir, is_dots}
use stros.Utils.Files.Tree.{
  Tree, file, dir, Entries, lookup, alter, drop_leaf, is_name, AreNames, path, Each,
}

unfoldable pub listed : CString → List CString → Bool
listed k [] = false
listed k (x ∷ xs) = equ k x || listed k xs

-- What the directory `root` holds, as far as it has no links and the process may change it: `view`
-- gives its tree. Of the system calls this says that `stat` tells the directories from the rest and
-- fails where there is nothing; that `readdir` gives each entry, and beside the entries only `.` and
-- `..`; and that `remove` takes away a file or an empty directory, keeps a directory that is not
-- empty, and changes nothing else.
pub record IsDirectory (F : Files) (root : CString) (view : F.State → Option Tree) : Type 0 where
  pub stat-none :
      (s : F.State) (v : Tree) (xs : List CString)
      → view s ≡ some v
      → AreNames xs
      → lookup xs v ≡ none
      → F.stat s (path root xs) ≡ none
  pub stat-gone : (s : F.State) → view s ≡ none → F.stat s root ≡ none
  pub stat-file :
      (s : F.State) (v : Tree) (xs : List CString)
      → view s ≡ some v
      → AreNames xs
      → lookup xs v ≡ some file
      → (m : ℕ) × (F.stat s (path root xs) ≡ some m) × (s_isdir m ≡ false)
  pub stat-dir :
      (s : F.State) (v : Tree) (xs : List CString) (es : Entries)
      → view s ≡ some v
      → AreNames xs
      → lookup xs v ≡ some (dir es)
      → (m : ℕ) × (F.stat s (path root xs) ≡ some m) × (s_isdir m ≡ true)
  pub opendir-dir :
      (s : F.State) (v : Tree) (xs : List CString) (es : Entries)
      → view s ≡ some v
      → AreNames xs
      → lookup xs v ≡ some (dir es)
      → Each (λ k t. is_name k ≡ true) es
      → (names : List CString) × (F.opendir s (path root xs) ≡ some names)
        × All (λ x. (is_dots x || is_name x) ≡ true) names
        × Each (λ k t. listed k names ≡ true) es
  pub view-remove :
      (s : F.State) (v : Tree) (xs : List CString)
      → view s ≡ some v
      → AreNames xs
      → view (F.remove s (path root xs)) ≡ alter xs drop_leaf v
