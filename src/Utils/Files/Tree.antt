-- ===== src/Utils/Files/Tree.antt =====
-- The trees that a directory stands for, and the change of one place in a tree.
pub mod Entry
pub mod Change
pub mod Emptied
use Prim.Native.Nat.{max}
use stros.Prelude.{
  ℕ, suc, ◌≡◌, Bool, true, false, not, ◌||◌, List, [], ◌∷◌, Option, none, some, All, if◌then◌else◌,
}
use stros.CString.{CString, contains, equ}
use stros.Utils.Files.{is_dots, join}

-- Of two entries of one name the first counts.
mutual
  pub data Tree : Type 0 where
    file : Tree
    dir : Entries → Tree

  pub data Entries : Type 0 where
    end : Entries
    entry : CString → Tree → Entries → Entries

abbrev pub and_then : Option Tree → (Tree → Option Tree) → Option Tree
and_then none f = none
and_then (some t) f = f t

unfoldable pub find : CString → Entries → Option Tree
find x end = none
find x (entry k t es) = if equ k x then some t else find x es

-- What the names of a path lead to.
unfoldable pub lookup : List CString → Tree → Option Tree
unfolding find
lookup [] t = some t
lookup (x ∷ xs) file = none
lookup (x ∷ xs) (dir es) = elim (find x es) [ none ↦ none | some t ↦ lookup xs t ]

unfoldable pub forget : CString → Entries → Entries
forget x end = end
forget x (entry k t es) = let rest = forget x es in if equ k x then rest else entry k t rest

abbrev put_back : CString → Option Tree → CString → Entries → Entries
put_back k none x es = forget x es
put_back k (some t) x es = entry k t es

unfoldable pub alter_entry : CString → (Tree → Option Tree) → Entries → Entries
unfolding forget
alter_entry x f end = end
alter_entry x f (entry k t es) =
    let rest = alter_entry x f es in if equ k x then put_back k (f t) x es else entry k t rest

-- The tree with `f` applied at the end of a path; `none` takes an entry away.
unfoldable pub alter : List CString → (Tree → Option Tree) → Tree → Option Tree
unfolding alter_entry
alter [] f t = f t
alter (x ∷ xs) f file = some file
alter (x ∷ xs) f (dir es) = some (dir (alter_entry x (alter xs f) es))

-- Nothing is left.
abbrev pub gone : Tree → Option Tree
gone t = none

-- A directory loses its entries.
abbrev pub emptied : Tree → Option Tree
emptied file = some file
emptied (dir es) = some (dir end)

-- What `remove` does: a directory that is not empty stays.
abbrev pub drop_leaf : Tree → Option Tree
drop_leaf file = none
drop_leaf (dir end) = none
drop_leaf (dir (entry k t es)) = some (dir (entry k t es))

-- A name that a path can hold.
unfoldable pub is_name : CString → Bool
is_name x = not (is_dots x || contains x b'/' || equ x [])

abbrev pub AreNames : List CString → Type 0
AreNames = All (λ x. is_name x ≡ true)

-- The path of a place below a directory.
unfoldable pub path : CString → List CString → CString
path root [] = root
path root (x ∷ xs) = path (join root x) xs

-- All the names in a tree are names.
abbrev mutual
  pub IsTree : Tree → Type 0
  IsTree file = Unit
  IsTree (dir es) = AreEntries es

  pub AreEntries : Entries → Type 0
  AreEntries end = Unit
  AreEntries (entry k t es) = (is_name k ≡ true) × IsTree t × AreEntries es

-- One for a file; a directory has one more than the highest of its entries, and two if it has none.
unfoldable mutual
  pub height : Tree → ℕ
  height file = 1
  height (dir es) = suc (height_entries es)

  pub height_entries : Entries → ℕ
  height_entries end = 1
  height_entries (entry k t es) = max (height t) (height_entries es)

abbrev pub Each : (CString → Tree → Type 0) → Entries → Type 0
Each P end = Unit
Each P (entry k t es) = P k t × Each P es
