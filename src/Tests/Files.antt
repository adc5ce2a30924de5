-- ===== src/Tests/Files.antt =====
-- Runs of `removeAll`, `is_dir` and `is_file`.
use stros.Prelude.{◌≡◌, refl, true, false, List, [], ◌∷◌, Option, some, All, arith, if◌then◌else◌}
use stros.CString.{CString, codes, equ, contains, strsep_all}
use stros.Utils.Files.{Files, s_isdir, has_ifdir, is_dots, remove_all}
use stros.Utils.Files.Tree.{Tree, file, dir, end, entry, find, lookup, alter, is_name, path, height}
use stros.Utils.Files.Tree.Emptied.{removal}
use stros.Utils.Files.Remove.{remove_all-alter}
use stros.Utils.Files.Targets.{Target, remove_all-kept}
use stros.Tests.Memory.{root, memory, whole, memory-IsDirectory}

abbrev inner : Tree
inner = dir (entry (codes "b") file end)

abbrev sample : Tree
sample = dir (entry (codes "a") file (entry (codes "d") inner end))

-- A block device has the bit of a directory.
has_ifdir_of_block_device : has_ifdir 25008 ≡ true
unfolding has_ifdir
has_ifdir_of_block_device = refl

s_isdir_of_block_device : s_isdir 25008 ≡ false
unfolding s_isdir
s_isdir_of_block_device = refl

remove_all_runs :
    remove_all memory 3 (some sample) (codes "t/d") true
    ≡ some (some (dir (entry (codes "a") file end)))
unfolding remove_all is_dots equ strsep_all lookup alter
remove_all_runs = refl

remove_all-alter_example :
    (s' : Option Tree) × (remove_all memory 3 (some sample) (path root (codes "d" ∷ [])) false
      ≡ some s')
    × (s' ≡ alter (codes "d" ∷ []) (removal false) sample)
unfolding lookup find is_name is_dots equ contains height
remove_all-alter_example =
    remove_all-alter memory root whole memory-IsDirectory 3 (some sample) sample (codes "d" ∷ [])
      inner false refl (refl, tt) refl (refl, tt, tt) (omega arith)

-- A system with one directory that keeps a list of what is removed.
abbrev recorded : Files
recorded = record {
  State = List CString;
  stat = λ s q. if equ q (codes "x") then some 16877 else some 33188;
  opendir = λ s q. some (codes "." ∷ codes "f" ∷ codes ".." ∷ codes "g" ∷ []);
  remove = λ s q. q ∷ s;
}

remove_all-kept_example : All (Target (codes "x") false) (codes "x/g" ∷ codes "x/f" ∷ [])
unfolding remove_all is_dots equ
remove_all-kept_example =
    remove_all-kept recorded (All (Target (codes "x") false)) 3 [] (codes "x/g" ∷ codes "x/f" ∷ [])
      (codes "x") false (λ t q target h. (target, h)) tt refl
