-- ===== src/Utils/Files/Remove.antt =====
-- `removeAll` on a directory that is a tree.
use stros.Prelude.{
  ℕ, zero, suc, ◌≤◌, ◌≡◌, refl, ◌∙◌, sym, Bool, true, false, List, Option, some, arith,
}
use stros.CString.{CString}
use stros.Utils.Files.{Files, s_isdir, removed, removed_inside, each_entry, remove_all}
use stros.Utils.Files.Directory.{IsDirectory}
use stros.Utils.Files.Tree.{
  Tree, file, dir, Entries, lookup, alter, gone, emptied, drop_leaf, is_name, AreNames, path,
  IsTree, AreEntries, height, height_entries, Each,
}
use stros.Utils.Files.Tree.Change.{alter_agree, alter_kept}
use stros.Utils.Files.Tree.Entry.{Each-map, Each-both}
use stros.Utils.Files.Tree.Emptied.{
  alter_leaf-gone, file_there, removal, height_positive, height_entries-positive,
}
use stros.Utils.Files.Loop.{Left, Each-AreEntries, Clears, each_entry-emptied}

module _ (F : Files) where
  remove_all_of_file :
      (n m : ℕ) (s : F.State) (p : CString) (mode : Bool)
      → F.stat s p ≡ some m
      → s_isdir m ≡ false
      → remove_all F (suc n) s p mode ≡ some (removed F mode s p)
  unfolding remove_all
  remove_all_of_file n m s p mode h k = rw (remove_all, h, removed_inside, k) refl

  remove_all_of_dir :
      (n m : ℕ) (s t : F.State) (p : CString) (mode : Bool) (names : List CString)
      → F.stat s p ≡ some m
      → s_isdir m ≡ true
      → F.opendir s p ≡ some names
      → each_entry F (λ r child. remove_all F n r child true) p s names ≡ some t
      → remove_all F (suc n) s p mode ≡ some (removed F mode t p)
  unfolding remove_all
  remove_all_of_dir n m s t p mode names h k o ran =
      rw (remove_all, h, removed_inside, k, o, ran) refl

module _ (F : Files) (root : CString) (view : F.State → Option Tree)
    (L : IsDirectory F root view) where
  view-removed_file :
      (s : F.State) (v : Tree) (xs : List CString) (mode : Bool)
      → view s ≡ some v
      → AreNames xs
      → lookup xs v ≡ some file
      → view (removed F mode s (path root xs)) ≡ alter xs (removal mode) v
  view-removed_file s v xs true shown plain at =
      L.view-remove s v xs shown plain
      ∙ alter_agree xs drop_leaf gone v
          (λ u l. let same : u ≡ file = file_there (lookup xs v) u at l in rw same refl)
  view-removed_file s v xs false shown plain at =
      shown
      ∙ sym (
          alter_kept xs emptied v
            (λ u l. let same : u ≡ file = file_there (lookup xs v) u at l in rw same refl))

  view-removed_dir :
      (s : F.State) (v v' : Tree) (xs : List CString) (mode : Bool)
      → view s ≡ some v'
      → AreNames xs
      → alter xs emptied v ≡ some v'
      → view (removed F mode s (path root xs)) ≡ alter xs (removal mode) v
  view-removed_dir s v v' xs true shown plain changed =
      L.view-remove s v' xs shown plain ∙ alter_leaf-gone xs v v' changed
  view-removed_dir s v v' xs false shown plain changed = shown ∙ sym changed

  remove_all_dir :
      (n : ℕ) (s : F.State) (v : Tree) (xs : List CString) (es : Entries) (mode : Bool)
      → Clears F root view L n
      → view s ≡ some v
      → AreNames xs
      → lookup xs v ≡ some (dir es)
      → AreEntries es
      → height_entries es ≤ n
      → (s' : F.State) × (remove_all F (suc n) s (path root xs) mode ≡ some s')
        × (view s' ≡ alter xs (removal mode) v)
  remove_all_dir n s v xs es mode clears shown plain at trees small =
      let (m, mode_of, kind) = L.stat-dir s v xs es shown plain at in
      let entries = Each-AreEntries n es trees small in
      let (names, opened, known, all_listed) =
        L.opendir-dir s v xs es shown plain at
          (Each-map _ (λ k t. is_name k ≡ true) (λ k t h. h.0) es entries) in
      let left : Each (Left n names) es =
        Each-map _ (Left n names) (λ k t h. (h.0.0, h.0.1, h.0.2, h.1)) es
          (Each-both _ _ es entries all_listed) in
      let (s', v', ran, seen, changed, _) =
        each_entry-emptied F root view L n clears (omega (arith, height_entries-positive es)) names
          s v xs es shown plain at known left in
      (
        removed F mode s' (path root xs),
        remove_all_of_dir F n m s s' _ mode names mode_of kind opened ran,
        view-removed_dir s' v v' xs mode seen plain changed,
      )

  -- `removeAll` takes away the tree at its path, or with `mode` 0 only what a directory there
  -- holds, and nothing else: it returns, with fuel for the height of the tree at its path, and
  -- what the files below the root are afterwards is what they were with just this place changed.
  -- This is for a place with something at it, whose names are neither empty nor `.` nor `..` and
  -- have no `/`, as have those below it, and for an operating system that meets `IsDirectory` at
  -- the root.
  pub remove_all-alter :
      (n : ℕ) (s : F.State) (v : Tree) (xs : List CString) (t : Tree) (mode : Bool)
      → view s ≡ some v
      → AreNames xs
      → lookup xs v ≡ some t
      → IsTree t
      → height t ≤ n
      → (s' : F.State) × (remove_all F n s (path root xs) mode ≡ some s')
        × (view s' ≡ alter xs (removal mode) v)
  unfolding height
  remove_all-alter zero s v xs t mode shown plain at tree small =
      absurd (omega (arith, height_positive t))
  remove_all-alter (suc n) s v xs file mode shown plain at tree small =
      let (m, mode_of, kind) = L.stat-file s v xs shown plain at in
      (
        removed F mode s (path root xs),
        remove_all_of_file F n m s _ mode mode_of kind,
        view-removed_file s v xs mode shown plain at,
      )
  remove_all-alter (suc n) s v xs (dir es) mode shown plain at tree small =
      remove_all_dir n s v xs es mode
        (λ s' v' xs' t' h p a i l. remove_all-alter n s' v' xs' t' true h p a i l) shown plain at
        tree (omega arith)
