-- ===== src/Utils/Files/Tree/Emptied.antt =====
-- Directories that lose an entry, all their entries, and themselves.
use mathlib.Core.Path.{fun_ext}
use stros.Prelude.{
  ◌≤◌, ◌≡◌, refl, ◌∙◌, sym, ap, Bool, true, false, List, [], ◌∷◌, Option, some, arith,
}
use stros.CString.{CString}
use stros.Utils.Files.Tree.{
  Tree, file, dir, Entries, end, entry, and_then, forget, alter, gone, emptied, drop_leaf, height,
  height_entries,
}
use stros.Utils.Files.Tree.Change.{alter-alter}
use stros.Utils.Files.Tree.Entry.{alter_entry-gone}

pub height_entries-positive : (es : Entries) → 1 ≤ height_entries es
unfolding height
height_entries-positive end = omega arith
height_entries-positive (entry k t es) = omega (arith, height_entries-positive es)

-- What a path loses with one entry of its directory.
abbrev pub without : CString → Tree → Option Tree
without x file = some file
without x (dir es) = some (dir (forget x es))

pub alter_one-gone : (x : CString) (t : Tree) → alter (x ∷ []) gone t ≡ without x t
unfolding alter
alter_one-gone x file = refl
alter_one-gone x (dir es) = ap (λ r. some (dir r)) (alter_entry-gone x es)

pub file_there : (o : Option Tree) (u : Tree) → o ≡ some file → o ≡ some u → u ≡ file
file_there o u h l = cc

pub emptied_of_emptied :
    (o : Option Tree) (u : Tree) → o ≡ some (dir end) → o ≡ some u → emptied u ≡ some u
emptied_of_emptied o u h l = let same : u ≡ dir end = cc in rw same refl

emptied-without : (x : CString) (t : Tree) → and_then (without x t) emptied ≡ emptied t
emptied-without x file = refl
emptied-without x (dir es) = refl

pub alter-emptied_again :
    (x : CString) (xs : List CString) (v : Tree)
    → alter xs emptied v ≡ and_then (alter xs (without x) v) (alter xs emptied)
alter-emptied_again x xs v =
    sym
      (alter-alter xs (without x) emptied v ∙ ap (λ h. alter xs h v) (fun_ext (emptied-without x)))

leaf_after_emptied : (u : Tree) → and_then (emptied u) drop_leaf ≡ gone u
leaf_after_emptied file = refl
leaf_after_emptied (dir es) = refl

pub alter_leaf-gone :
    (xs : List CString) (v v' : Tree)
    → alter xs emptied v ≡ some v'
    → alter xs drop_leaf v' ≡ alter xs gone v
alter_leaf-gone xs v v' changed =
    let twice : and_then (alter xs emptied v) (alter xs drop_leaf) ≡ alter xs gone v =
      alter-alter xs emptied drop_leaf v ∙ ap (λ h. alter xs h v) (fun_ext leaf_after_emptied) in
    rw changed at twice

pub height_positive : (t : Tree) → 1 ≤ height t
unfolding height
height_positive file = omega arith
height_positive (dir es) = omega arith

-- What `removeAll` does to what stands at its path.
abbrev pub removal : Bool → Tree → Option Tree
removal true = gone
removal false = emptied
