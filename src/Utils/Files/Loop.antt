-- ===== src/Utils/Files/Loop.antt =====
-- The loop of `removeAll` over the entries of a directory that is a tree.
use mathlib.Core.Path.{fun_ext}
use stros.Prelude.{
  ℕ, zero, suc, ◌≤◌, ◌≡◌, refl, ◌∙◌, sym, ap, Bool, true, false, ◌||◌, List, [], ◌∷◌, ◌++◌, Option,
  none, some, All, All-append, arith, Bool-cases, Option-cases, inl, inr,
}
use stros.CString.{CString, equ}
use stros.CString.Compare.{eq_of_equ}
use stros.Utils.Files.{Files, is_dots, join, each_entry, remove_all}
use stros.Utils.Files.Directory.{IsDirectory, listed}
use stros.Utils.Files.Tree.{
  Tree, dir, Entries, end, entry, find, lookup, forget, alter, gone, emptied, is_name, AreNames,
  path, IsTree, AreEntries, height, height_entries, Each,
}
use stros.Utils.Files.Tree.Change.{
  alter-append, alter_kept, lookup-append, lookup_one, lookup-alter,
}
use stros.Utils.Files.Tree.Entry.{Each-forget, Each-map, Each-find}
use stros.Utils.Files.Tree.Emptied.{
  without, alter_one-gone, emptied_of_emptied, alter-emptied_again,
}

path-append_one :
    (root x : CString) (xs : List CString) → path root (xs ++ x ∷ []) ≡ join (path root xs) x
unfolding path
path-append_one root x [] = refl
path-append_one root x (y ∷ xs) = path-append_one (join root y) x xs

-- What is known of an entry that the loop has still to remove.
abbrev pub Left : ℕ → List CString → CString → Tree → Type 0
Left n names k t = (is_name k ≡ true) × IsTree t × (height t ≤ n) × (listed k names ≡ true)

Left-none : (n : ℕ) (es : Entries) → Each (Left n []) es → es ≡ end
unfolding listed
Left-none n end h = refl
Left-none n (entry k t es) ((_, _, _, l), h) = absurd (cc)

Left-other :
    (n : ℕ) (x : CString) (names : List CString) (k : CString) (t : Tree)
    → Left n (x ∷ names) k t
    → equ k x ≡ false
    → Left n names k t
unfolding listed
Left-other n x names k t (name, tree, small, l) e = (name, tree, small, rw (listed, e) at l)

-- `.` and `..` are no entries of a tree.
Left-dots :
    (n : ℕ) (x : CString) (names : List CString) (k : CString) (t : Tree)
    → is_dots x ≡ true
    → Left n (x ∷ names) k t
    → Left n names k t
unfolding is_name
Left-dots n x names k t dots (name, tree, small, l) = elim (Bool-cases (equ k x)) [
  | inl e ↦ absurd (let no : false ≡ true = rw (is_name, eq_of_equ k x e, dots) at name in cc)
  | inr e ↦ Left-other n x names k t (name, tree, small, l) e
]

pub Each-AreEntries :
    (n : ℕ) (es : Entries)
    → AreEntries es
    → height_entries es ≤ n
    → Each (λ k t. (is_name k ≡ true) × IsTree t × (height t ≤ n)) es
unfolding height
Each-AreEntries n end h l = tt
Each-AreEntries n (entry k t es) (hk, ht, h) l =
    ((hk, ht, omega arith), Each-AreEntries n es h (omega arith))

module _ (F : Files) where
  remove_all_absent :
      (n : ℕ) (s : F.State) (p : CString) (mode : Bool)
      → 1 ≤ n
      → F.stat s p ≡ none
      → remove_all F n s p mode ≡ some s
  unfolding remove_all
  remove_all_absent zero s p mode l h = absurd (omega arith)
  remove_all_absent (suc n) s p mode l h = rw (remove_all, h) refl

module _ (F : Files) (root : CString) (view : F.State → Option Tree)
    (L : IsDirectory F root view) where
  -- A call with this fuel takes away what stands at its path.
  abbrev pub Clears : ℕ → Type 0
  Clears n =
      (s : F.State) (v : Tree) (xs : List CString) (t : Tree)
      → view s ≡ some v
      → AreNames xs
      → lookup xs v ≡ some t
      → IsTree t
      → height t ≤ n
      → (s' : F.State) × (remove_all F n s (path root xs) true ≡ some s')
        × (view s' ≡ alter xs gone v)

  module _ (n : ℕ) (clears : Clears n) (positive : 1 ≤ n) where
    remove_child :
        (s : F.State) (v : Tree) (xs : List CString) (es : Entries) (x : CString)
        (names : List CString)
        → view s ≡ some v
        → AreNames xs
        → lookup xs v ≡ some (dir es)
        → is_name x ≡ true
        → Each (Left n names) es
        → (s' : F.State) × (v' : Tree) × (remove_all F n s (join (path root xs) x) true ≡ some s')
          × (view s' ≡ some v')
          × (alter xs (without x) v ≡ some v')
          × (lookup xs v' ≡ some (dir (forget x es)))
    remove_child s v xs es x names shown plain at name left =
        let (v', changed, at') =
          lookup-alter xs (without x) v (dir es) (dir (forget x es)) at refl in
        let whole : alter (xs ++ x ∷ []) gone v ≡ some v' =
          alter-append xs (x ∷ []) gone v
          ∙ ap (λ h. alter xs h v) (fun_ext (alter_one-gone x))
          ∙ changed in
        let place : lookup (xs ++ x ∷ []) v ≡ find x es =
          lookup-append xs (x ∷ []) v ∙ rw at (lookup_one x es) in
        let plain' : AreNames (xs ++ x ∷ []) =
          All-append (λ y. is_name y ≡ true) xs (x ∷ []) plain (name, tt) in
        elim (Option-cases (find x es)) [
          | inl absent ↦
              let none_there : lookup (xs ++ x ∷ []) v ≡ none = place ∙ absent in
              (
                s,
                v',
                remove_all_absent F n s _ true positive (
                    rw (path-append_one root x xs) at
                      (L.stat-none s v (xs ++ x ∷ []) shown plain' none_there)),
                shown
                    ∙ sym (
                        alter_kept (xs ++ x ∷ []) gone v
                          (λ u l. absurd (let no : some u ≡ none = sym l ∙ none_there in cc)))
                    ∙ whole,
                changed,
                at',
              )
          | inr (t, there) ↦
              let (_, tree, small, _) = Each-find (Left n names) x t es left there in
              let (s', ran, seen) =
                clears s v (xs ++ x ∷ []) t shown plain' (place ∙ there) tree small in
              (s', v', rw (path-append_one root x xs) at ran, seen ∙ whole, changed, at')
        ]

    -- The loop over the names of a directory, from any state in which the entries that are left are
    -- among the names that are left.
    pub each_entry-emptied :
        (names : List CString) (s : F.State) (v : Tree) (xs : List CString) (es : Entries)
        → view s ≡ some v
        → AreNames xs
        → lookup xs v ≡ some (dir es)
        → All (λ x. (is_dots x || is_name x) ≡ true) names
        → Each (Left n names) es
        → (s' : F.State) × (v' : Tree) × (each_entry F
              (λ t child. remove_all F n t child true)
              (path root xs)
              s
              names
            ≡ some s')
          × (view s' ≡ some v')
          × (alter xs emptied v ≡ some v')
          × (lookup xs v' ≡ some (dir end))
    unfolding each_entry
    each_entry-emptied [] s v xs es shown plain at known left =
        let none_left : es ≡ end = Left-none n es left in
        (
          s,
          v,
          refl,
          shown,
          alter_kept xs emptied v
              (λ u l. emptied_of_emptied (lookup xs v) u (at ∙ ap (λ r. some (dir r)) none_left) l),
          at ∙ ap (λ r. some (dir r)) none_left,
        )
    each_entry-emptied (x ∷ names) s v xs es shown plain at (ok, known) left =
        elim (Bool-cases (is_dots x)) [
          | inl dots ↦
              rw (each_entry, dots)
                (each_entry-emptied names s v xs es shown plain at known (
                  Each-map (Left n (x ∷ names)) (Left n names)
                    (λ k t h. Left-dots n x names k t dots h) es left))
          | inr other ↦
              let name : is_name x ≡ true = rw other at ok in
              let (s1, v1, ran, seen, changed, at1) =
                remove_child s v xs es x (x ∷ names) shown plain at name left in
              let (s', v', ran', seen', changed', at') =
                each_entry-emptied names s1 v1 xs (forget x es) seen plain at1 known (
                  Each-forget (Left n (x ∷ names)) (Left n names) x (Left-other n x names) es
                    left) in
              (
                s',
                v',
                rw (each_entry, other, ran) ran',
                seen',
                (alter-emptied_again x xs v ∙ rw changed changed'),
                at',
              )
        ]
