-- ===== src/Utils/Files/Tree/Change.antt =====
-- The laws of a change of one place in a tree.
use mathlib.Core.Path.{fun_ext}
use stros.Prelude.{
  ◌≡◌, refl, ap, ◌∙◌, List, [], ◌∷◌, ◌++◌, Option, none, some, Option-cases, inl, inr,
}
use stros.CString.{CString}
use stros.Utils.Files.Tree.{
  Tree, file, dir, Entries, and_then, find, lookup, alter_entry, alter, gone,
}
use stros.Utils.Files.Tree.Entry.{
  alter_entry-alter_entry, alter_entry_agree, alter_entry-some, find-alter_entry,
}

-- Two changes of one place are one change.
pub alter-alter :
    (xs : List CString) (f g : Tree → Option Tree) (t : Tree)
    → and_then (alter xs f t) (alter xs g) ≡ alter xs (λ u. and_then (f u) g) t
unfolding alter
alter-alter [] f g t = refl
alter-alter (x ∷ xs) f g file = refl
alter-alter (x ∷ xs) f g (dir es) =
    ap (λ r. some (dir r))
      (alter_entry-alter_entry x (alter xs f) (alter xs g) es
        ∙ ap (λ h. alter_entry x h es) (fun_ext (alter-alter xs f g)))

pub alter-append :
    (xs ys : List CString) (f : Tree → Option Tree) (t : Tree)
    → alter (xs ++ ys) f t ≡ alter xs (alter ys f) t
unfolding alter
alter-append [] ys f t = refl
alter-append (x ∷ xs) ys f file = refl
alter-append (x ∷ xs) ys f (dir es) =
    ap (λ h. some (dir (alter_entry x h es))) (fun_ext (alter-append xs ys f))

pub lookup-append :
    (xs ys : List CString) (t : Tree) → lookup (xs ++ ys) t ≡ and_then (lookup xs t) (lookup ys)
unfolding lookup
lookup-append [] ys t = refl
lookup-append (x ∷ xs) ys file = refl
lookup-append (x ∷ xs) ys (dir es) = elim (Option-cases (find x es)) [
  | inl n ↦ rw (lookup, n) refl
  | inr (u, h) ↦ rw (lookup, h) (lookup-append xs ys u)
]

pub lookup_one : (x : CString) (es : Entries) → lookup (x ∷ []) (dir es) ≡ find x es
unfolding lookup
lookup_one x es = elim (Option-cases (find x es)) [
  | inl n ↦ rw (lookup, n) refl
  | inr (u, h) ↦ rw (lookup, h) refl
]

pub alter_agree :
    (xs : List CString) (f g : Tree → Option Tree) (t : Tree)
    → ((u : Tree) → lookup xs t ≡ some u → f u ≡ g u)
    → alter xs f t ≡ alter xs g t
unfolding alter lookup
alter_agree [] f g t h = h t refl
alter_agree (x ∷ xs) f g file h = refl
alter_agree (x ∷ xs) f g (dir es) h =
    ap (λ r. some (dir r))
      (alter_entry_agree x (alter xs f) (alter xs g) es
        (λ u l. alter_agree xs f g u (λ w m. h w (rw (lookup, l) m))))

alter-some : (xs : List CString) (t : Tree) → alter xs some t ≡ some t
unfolding alter
alter-some [] t = refl
alter-some (x ∷ xs) file = refl
alter-some (x ∷ xs) (dir es) =
    ap (λ r. some (dir r))
      (ap (λ h. alter_entry x h es) (fun_ext (alter-some xs)) ∙ alter_entry-some x es)

-- A change that keeps what stands at its place, if anything does, keeps the tree.
pub alter_kept :
    (xs : List CString) (f : Tree → Option Tree) (t : Tree)
    → ((u : Tree) → lookup xs t ≡ some u → f u ≡ some u)
    → alter xs f t ≡ some t
alter_kept xs f t h = alter_agree xs f some t h ∙ alter-some xs t

-- What a change puts at its place is found there.
pub lookup-alter :
    (xs : List CString) (f : Tree → Option Tree) (t u w : Tree)
    → lookup xs t ≡ some u
    → f u ≡ some w
    → (t' : Tree) × (alter xs f t ≡ some t') × (lookup xs t' ≡ some w)
unfolding alter lookup
lookup-alter [] f t u w h g = let same : t ≡ u = cc in (w, rw same g, refl)
lookup-alter (x ∷ xs) f file u w h g = absurd (cc)
lookup-alter (x ∷ xs) f (dir es) u w h g = elim (Option-cases (find x es)) [
  | inl n ↦ absurd (let no : none ≡ some u = rw (lookup, n) at h in cc)
  | inr (r, l) ↦
      let (r', changed, found) = lookup-alter xs f r u w (rw (lookup, l) at h) g in
      (
        dir (alter_entry x (alter xs f) es),
        refl,
        rw (lookup, find-alter_entry x (alter xs f) es, l, changed) found,
      )
]

-- Nothing is found where a change has taken something away.
pub lookup-alter-gone :
    (xs : List CString) (t w : Tree) → alter xs gone t ≡ some w → lookup xs w ≡ none
unfolding alter lookup
lookup-alter-gone [] t w h = absurd (cc)
lookup-alter-gone (x ∷ xs) file w h = let same : file ≡ w = cc in rw (← same) refl
lookup-alter-gone (x ∷ xs) (dir es) w h =
    let same : dir (alter_entry x (alter xs gone) es) ≡ w = cc in
    let there = find-alter_entry x (alter xs gone) es in
    elim (Option-cases (find x es)) [
      | inl n ↦ rw (← same, lookup, there, n) refl
      | inr (u, l) ↦ elim (Option-cases (alter xs gone u)) [
        | inl n ↦ rw (← same, lookup, there, l, n) refl
        | inr (u', e) ↦ rw (← same, lookup, there, l, e) (lookup-alter-gone xs u u' e)
      ]
    ]

-- A change below a tree leaves a tree.
pub alter_below :
    (x : CString) (xs : List CString) (f : Tree → Option Tree) (t : Tree)
    → (w : Tree) × (alter (x ∷ xs) f t ≡ some w)
unfolding alter
alter_below x xs f file = (file, refl)
alter_below x xs f (dir es) = (dir (alter_entry x (alter xs f) es), refl)
