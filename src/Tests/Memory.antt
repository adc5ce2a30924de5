-- ===== src/Tests/Memory.antt =====
-- A file system in memory that meets what is asked of a directory.
use stros.Prelude.{
  ℕ, ◌≡◌, refl, ap, ◌∙◌, true, false, ◌||◌, List, [], ◌∷◌, ◌++◌, append-nil, append_assoc, Option,
  none, some, All, arith, if◌then◌else◌,
}
use stros.CString.{CString, codes, contains, equ, strsep_all}
use stros.CString.Compare.{equ_refl}
use stros.CString.Tokens.{Lacks, strsep_all_last, strsep_all_cut}
use stros.Utils.Files.{Files, s_isdir, is_dots, join}
use stros.Utils.Files.Tree.{
  Tree, file, dir, Entries, end, entry, lookup, alter, drop_leaf, is_name, AreNames, path, Each,
}
use stros.Utils.Files.Tree.Entry.{Each-map}
use stros.Utils.Files.Directory.{listed, IsDirectory}

abbrev pub root : CString
root = codes "t"

abbrev behind_root : List CString → Option (List CString)
behind_root [] = none
behind_root (x ∷ xs) = if equ x root then some xs else none

abbrev place : CString → Option (List CString)
place q = behind_root (strsep_all (codes "/") [] q)

abbrev names : Entries → List CString
names end = []
names (entry k t es) = k ∷ names es

abbrev looked_up : Option Tree → Option (List CString) → Option Tree
looked_up none xs = none
looked_up (some v) none = none
looked_up (some v) (some xs) = lookup xs v

abbrev mode_of : Option Tree → Option ℕ
mode_of none = none
mode_of (some file) = some 33188
mode_of (some (dir es)) = some 16877

abbrev entries_of : Option Tree → Option (List CString)
entries_of none = none
entries_of (some file) = none
entries_of (some (dir es)) = some (codes "." ∷ codes ".." ∷ names es)

abbrev removed_at : Option Tree → Option (List CString) → Option Tree
removed_at none xs = none
removed_at (some v) none = some v
removed_at (some v) (some xs) = alter xs drop_leaf v

abbrev pub memory : Files
memory = record {
  State = Option Tree;
  stat = λ s q. mode_of (looked_up s (place q));
  opendir = λ s q. entries_of (looked_up s (place q));
  remove = λ s q. removed_at s (place q);
}

abbrev pub whole : Option Tree → Option Tree
whole s = s

-- What stands behind the root in a path.
abbrev behind : List CString → CString
behind [] = []
behind (x ∷ xs) = b'/' ∷ (x ++ behind xs)

join_behind :
    (r x : CString) (xs : List CString) → join r x ++ behind xs ≡ r ++ b'/' ∷ (x ++ behind xs)
unfolding join
join_behind r x xs = append_assoc r (b'/' ∷ x) (behind xs)

path-behind : (r : CString) (xs : List CString) → path r xs ≡ r ++ behind xs
unfolding path
path-behind r [] = rw append-nil refl
path-behind r (x ∷ xs) = path-behind (join r x) xs ∙ join_behind r x xs

Lacks_slash : (x : CString) → contains x b'/' ≡ false → Lacks (codes "/") x
unfolding contains
Lacks_slash [] h = tt
Lacks_slash (c ∷ x) h = (ground arith, Lacks_slash x (ground arith))

is_name-contains : (x : CString) → is_name x ≡ true → contains x b'/' ≡ false
unfolding is_name
is_name-contains x h = ground arith

strsep_all-behind :
    (r : CString) (xs : List CString)
    → Lacks (codes "/") r
    → AreNames xs
    → strsep_all (codes "/") [] (r ++ behind xs) ≡ r ∷ xs
unfolding contains
strsep_all-behind r [] plain h = rw append-nil (strsep_all_last (codes "/") r plain)
strsep_all-behind r (x ∷ xs) plain (hx, h) =
    strsep_all_cut (codes "/") r plain b'/' (x ++ behind xs) refl
    ∙ ap (λ l. r ∷ l) (strsep_all-behind x xs (Lacks_slash x (is_name-contains x hx)) h)

place-path : (xs : List CString) → AreNames xs → place (path root xs) ≡ some xs
unfolding equ contains
place-path xs h = ap behind_root (
    ap (strsep_all (codes "/") []) (path-behind root xs)
    ∙ strsep_all-behind root xs (Lacks_slash root refl) h)

Each-listed : (es : Entries) → Each (λ k t. listed k (names es) ≡ true) es
unfolding listed
Each-listed end = tt
Each-listed (entry k t es) =
    (rw (equ_refl k) refl, Each-map _ _ (λ k' t' h. ground arith) es (Each-listed es))

listed_behind :
    (k : CString) (l : List CString)
    → listed k l ≡ true
    → listed k (codes "." ∷ codes ".." ∷ l) ≡ true
unfolding listed
listed_behind k l h = ground arith

names_shown :
    (es : Entries)
    → Each (λ k t. is_name k ≡ true) es
    → All (λ x. (is_dots x || is_name x) ≡ true) (names es)
names_shown end h = tt
names_shown (entry k t es) (hk, h) = (ground arith, names_shown es h)

module _ (v : Tree) (xs : List CString) (plain : AreNames xs) where
  looked_up-path :
      (o : Option Tree) → lookup xs v ≡ o → looked_up (some v) (place (path root xs)) ≡ o
  looked_up-path o h = rw (place-path xs plain) h

  removed_at-path : removed_at (some v) (place (path root xs)) ≡ alter xs drop_leaf v
  removed_at-path = rw (place-path xs plain) refl

pub memory-IsDirectory : IsDirectory memory root whole
unfolding s_isdir is_dots equ
memory-IsDirectory = record {
  stat-none = λ s v xs shown plain at. rw shown (ap mode_of (looked_up-path v xs plain none at));
  stat-gone = λ s shown. rw shown refl;
  stat-file = λ s v xs shown plain at.
      (33188, rw shown (ap mode_of (looked_up-path v xs plain (some file) at)), refl);
  stat-dir = λ s v xs es shown plain at.
      (16877, rw shown (ap mode_of (looked_up-path v xs plain (some (dir es)) at)), refl);
  opendir-dir = λ s v xs es shown plain at known. (
    codes "." ∷ codes ".." ∷ names es,
    rw shown (ap entries_of (looked_up-path v xs plain (some (dir es)) at)),
    (refl, (refl, names_shown es known)),
    Each-map _ _ (λ k t h. listed_behind k _ h) es (Each-listed es),
  );
  view-remove = λ s v xs shown plain. rw shown (removed_at-path v xs plain);
}
