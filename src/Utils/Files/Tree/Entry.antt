-- ===== src/Utils/Files/Tree/Entry.antt =====
-- The laws of the entries of a directory.
use stros.Prelude.{◌≡◌, refl, Option, none, some, false, Bool-cases, Option-cases, inl, inr}
use stros.CString.{CString, equ}
use stros.CString.Compare.{eq_of_equ}
use stros.Utils.Files.Tree.{
  Tree, Entries, end, entry, and_then, find, forget, alter_entry, gone, Each,
}

pub alter_entry-forget :
    (x : CString) (f : Tree → Option Tree) (es : Entries)
    → alter_entry x f (forget x es) ≡ forget x es
unfolding forget alter_entry
alter_entry-forget x f end = refl
alter_entry-forget x f (entry k t es) = elim (Bool-cases (equ k x)) [
  | inl e ↦ rw e (alter_entry-forget x f es)
  | inr e ↦ rw (e, alter_entry, e, alter_entry-forget x f es) refl
]

pub alter_entry-alter_entry :
    (x : CString) (f g : Tree → Option Tree) (es : Entries)
    → alter_entry x g (alter_entry x f es) ≡ alter_entry x (λ t. and_then (f t) g) es
unfolding alter_entry
alter_entry-alter_entry x f g end = refl
alter_entry-alter_entry x f g (entry k t es) = elim (Bool-cases (equ k x)) [
  | inl e ↦ elim (Option-cases (f t)) [
    | inl n ↦ rw (e, n) (alter_entry-forget x g es)
    | inr (u, h) ↦ rw (e, h, alter_entry, e) refl
  ]
  | inr e ↦ rw (e, alter_entry, e, alter_entry-alter_entry x f g es) refl
]

-- A change depends on what stands at its place alone.
pub alter_entry_agree :
    (x : CString) (f g : Tree → Option Tree) (es : Entries)
    → ((u : Tree) → find x es ≡ some u → f u ≡ g u)
    → alter_entry x f es ≡ alter_entry x g es
unfolding alter_entry find
alter_entry_agree x f g end h = refl
alter_entry_agree x f g (entry k t es) h = elim (Bool-cases (equ k x)) [
  | inl e ↦ rw (e, h t (rw e refl)) refl
  | inr e ↦ rw (e, alter_entry_agree x f g es (λ u l. h u (rw e l))) refl
]

pub alter_entry-some : (x : CString) (es : Entries) → alter_entry x some es ≡ es
unfolding alter_entry
alter_entry-some x end = refl
alter_entry-some x (entry k t es) = elim (Bool-cases (equ k x)) [
  | inl e ↦ rw e refl
  | inr e ↦ rw (e, alter_entry-some x es) refl
]

pub find-forget : (x : CString) (es : Entries) → find x (forget x es) ≡ none
unfolding find forget
find-forget x end = refl
find-forget x (entry k t es) = elim (Bool-cases (equ k x)) [
  | inl e ↦ rw e (find-forget x es)
  | inr e ↦ rw (e, find, e) (find-forget x es)
]

pub find-alter_entry :
    (x : CString) (f : Tree → Option Tree) (es : Entries)
    → find x (alter_entry x f es) ≡ and_then (find x es) f
unfolding alter_entry find
find-alter_entry x f end = refl
find-alter_entry x f (entry k t es) = elim (Bool-cases (equ k x)) [
  | inl e ↦ elim (Option-cases (f t)) [
    | inl n ↦ rw (e, n) (find-forget x es)
    | inr (u, h) ↦ rw (e, h, find, e) refl
  ]
  | inr e ↦ rw (e, find, e) (find-alter_entry x f es)
]

pub alter_entry-gone : (x : CString) (es : Entries) → alter_entry x gone es ≡ forget x es
unfolding alter_entry forget
alter_entry-gone x end = refl
alter_entry-gone x (entry k t es) = elim (Bool-cases (equ k x)) [
  | inl e ↦ rw e refl
  | inr e ↦ rw (e, alter_entry-gone x es) refl
]

-- What is left behind an entry that is forgotten has other names.
pub Each-forget :
    (P Q : CString → Tree → Type 0) (x : CString)
    → ((k : CString) (t : Tree) → P k t → equ k x ≡ false → Q k t)
    → (es : Entries) → Each P es
    → Each Q (forget x es)
unfolding forget
Each-forget P Q x pq end h = tt
Each-forget P Q x pq (entry k t es) (p, h) = elim (Bool-cases (equ k x)) [
  | inl e ↦ rw e (Each-forget P Q x pq es h)
  | inr e ↦ rw e (pq k t p e, Each-forget P Q x pq es h)
]

pub Each-map :
    (P Q : CString → Tree → Type 0)
    → ((k : CString) (t : Tree) → P k t → Q k t)
    → (es : Entries) → Each P es
    → Each Q es
Each-map P Q pq end h = tt
Each-map P Q pq (entry k t es) (p, h) = (pq k t p, Each-map P Q pq es h)

pub Each-both :
    (P Q : CString → Tree → Type 0) (es : Entries)
    → Each P es
    → Each Q es
    → Each (λ k t. P k t × Q k t) es
Each-both P Q end h g = tt
Each-both P Q (entry k t es) (p, h) (q, g) = ((p, q), Each-both P Q es h g)

pub Each-find :
    (P : CString → Tree → Type 0) (x : CString) (u : Tree) (es : Entries)
    → Each P es
    → find x es ≡ some u
    → P x u
unfolding find
Each-find P x u end h l = absurd (cc)
Each-find P x u (entry k t es) (p, h) l = elim (Bool-cases (equ k x)) [
  | inl e ↦
      let found : some t ≡ some u = rw e at l in
      let same : t ≡ u = cc in rw (← same, ← eq_of_equ k x e) p
  | inr e ↦ Each-find P x u es h (rw e at l)
]
