-- ===== src/Utils/Files.antt =====
-- The functions of utils.c on files: `_exist`, `is_dir`, `is_file` and `removeAll`. The calls of the
-- operating system are the operations of a record over an unknown state.
pub mod Tree
pub mod Directory
pub mod Loop
pub mod Remove
pub mod Targets
pub mod Kinds
use stros.Prelude.{
  ℕ, zero, suc, ◌/◌, ◌%◌, Bool, true, false, not, ◌||◌, List, [], ◌∷◌, ◌++◌, Option, none, some,
  ◌==◌, if◌then◌else◌, is_some, ℤ, pos, negsuc,
}
use stros.CString.{CString, codes, equ}

-- `stat` gives `st_mode`, or nothing for -1. `opendir` gives the names that `readdir` returns before
-- it returns NULL, or nothing for NULL; those that are removed in between have been returned.
-- The result of `remove` is not read.
pub record Files : Type 1 where
  pub State : Type 0
  pub stat : State → CString → Option ℕ
  pub opendir : State → CString → Option (List CString)
  pub remove : State → CString → State

-- `S_ISDIR(mode)`: the four bits of the kind are those of `S_IFDIR`, 0040000.
unfoldable pub s_isdir : ℕ → Bool
s_isdir mode = (mode / 4096) % 16 == 4

-- `mode & S_IFDIR`: one bit.
unfoldable pub has_ifdir : ℕ → Bool
has_ifdir mode = (mode / 16384) % 2 == 1

-- The test of `.` and `..` in the loop of `removeAll`.
unfoldable pub is_dots : CString → Bool
is_dots name = equ name (codes ".") || equ name (codes "..")

-- `__s("%s/%s", path, dir->d_name)`
unfoldable pub join : CString → CString → CString
join path name = path ++ b'/' ∷ name

abbrev pub dir_of_stat : Option ℕ → ℤ
dir_of_stat none = negsuc 0
dir_of_stat (some mode) = if has_ifdir mode then pos 1 else pos 0

abbrev pub file_of_dir : ℤ → ℤ
file_of_dir (negsuc zero) = negsuc 0
file_of_dir (negsuc (suc n)) = pos 0
file_of_dir (pos zero) = pos 1
file_of_dir (pos (suc n)) = pos 0

module _ (F : Files) where
  unfoldable pub exist : F.State → CString → Bool
  exist s f = is_some (F.stat s f)

  unfoldable pub is_dir : F.State → CString → ℤ
  unfolding has_ifdir
  is_dir s f = dir_of_stat (F.stat s f)

  unfoldable pub is_file : F.State → CString → ℤ
  unfolding is_dir
  is_file s f = file_of_dir (is_dir s f)

  abbrev pub removed : Bool → F.State → CString → F.State
  removed true s path = F.remove s path
  removed false s path = s

  -- The loop over the entries of a directory, with the recursive call as `remove_child`.
  unfoldable pub each_entry :
      (F.State → CString → Option F.State) → CString → F.State → List CString → Option F.State
  unfolding is_dots join
  each_entry remove_child path s [] = some s
  each_entry remove_child path s (name ∷ names) = elim (is_dots name) [
    | true ↦ each_entry remove_child path s names
    | false ↦ elim (remove_child s (join path name)) [
      | none ↦ none
      | some t ↦ each_entry remove_child path t names
    ]
  ]

  abbrev listing :
      (F.State → CString → Option F.State)
      → CString
      → F.State
      → Option (List CString)
      → Option F.State
  listing remove_child path s none = some s
  listing remove_child path s (some names) = each_entry remove_child path s names

  -- What stands behind `stat(path, &st) == 0`.
  abbrev pub removed_inside :
      (F.State → CString → Option F.State) → CString → Bool → F.State → ℕ → Option F.State
  removed_inside remove_child path mode s st_mode =
      elim (if s_isdir st_mode then listing remove_child path s (F.opendir s path) else some s) [
        | none ↦ none
        | some t ↦ some (removed mode t path)
      ]

  -- `removeAll`, on fuel: nothing where the directories are nested more deeply.
  unfoldable pub remove_all : ℕ → F.State → CString → Bool → Option F.State
  unfolding each_entry s_isdir
  remove_all zero s path mode = none
  remove_all (suc n) s path mode = elim (F.stat s path) [
    | none ↦ some s
    | some st_mode ↦ removed_inside (λ t child. remove_all n t child true) path mode s st_mode
  ]
