-- ===== src/Dictionary/Chain.antt =====
-- One chain: how often a key occurs, and what the writes to a chain do to a lookup.
use stros.Prelude.{
  ℕ, ◌+◌, ◌≤◌, ◌≡◌, refl, ap, inl, inr, true, List, [], ◌∷◌, ◌++◌, arith, if◌then◌else◌, Option,
  none, some, Bool-cases, Option-cases,
}
use stros.CString.{CString, equ}
use stros.CString.Compare.{equ_comm, eq_of_equ}
use stros.Dictionary.{Association, find, value_of, assign, unlink_next, unlink}

-- Two keys that are equal are compared alike with a third.
pub equ_congr : (k q x : CString) → equ q k ≡ true → equ q x ≡ equ k x
equ_congr k q x h = ap (λ s. equ s x) (eq_of_equ q k h)

module _ {ℓ} {V : Type ℓ} where
  -- How many nodes of a chain have the key.
  unfoldable pub occurs : CString → List (Association V) → ℕ
  occurs q [] = 0
  occurs q (np ∷ rest) = (if equ q np.key then 1 else 0) + occurs q rest

  pub find_absent : (q : CString) (c : List (Association V)) → occurs q c ≡ 0 → find q c ≡ none
  unfolding occurs find
  find_absent q [] h = refl
  find_absent q (np ∷ rest) h = ground (arith, find_absent q rest)

  pub occurs_absent : (q : CString) (c : List (Association V)) → find q c ≡ none → occurs q c ≡ 0
  unfolding occurs find
  occurs_absent q [] h = refl
  occurs_absent q (np ∷ rest) h = ground (arith, occurs_absent q rest)

  pub find-append :
      (q : CString) (a b : List (Association V))
      → find q (a ++ b) ≡ elim (find q a) [ none ↦ find q b | some np ↦ some np ]
  unfolding find
  find-append q [] b = refl
  find-append q (np ∷ a) b = ground (arith, find-append q a b)

  pub occurs-append :
      (q : CString) (a b : List (Association V)) → occurs q (a ++ b) ≡ occurs q a + occurs q b
  unfolding occurs
  occurs-append q [] b = omega arith
  occurs-append q (np ∷ a) b = omega (arith, occurs-append q a b)

  module _ (k q : CString) (v : V) where
    pub find-assign :
        (c : List (Association V)) (np : Association V)
        → find k c ≡ some np
        → value_of (find q (assign k v c)) ≡ (if equ q k then some v else value_of (find q c))
    unfolding find assign value_of
    find-assign [] np h = cc
    find-assign (a ∷ rest) np h =
        ground
          (arith, find-assign rest np, equ_congr k q a.key, equ_congr a.key q k, equ_comm a.key k)

    pub occurs-assign : (c : List (Association V)) → occurs q (assign k v c) ≡ occurs q c
    unfolding occurs assign
    occurs-assign [] = refl
    occurs-assign (a ∷ rest) = ground (arith, occurs-assign rest)

  -- The chain less its first node with the key.
  unfoldable pub erase : CString → List (Association V) → List (Association V)
  erase k [] = []
  erase k (np ∷ rest) = if equ k np.key then rest else np ∷ erase k rest

  -- The result of `unlink`, by whether the key was found.
  abbrev pub erased :
      CString → List (Association V) → Option (Association V) → Option (List (Association V))
  erased k c none = none
  erased k c (some np) = some (erase k c)

  unlink_next-erase :
      (k : CString) (np : Association V) (rest : List (Association V))
      → unlink_next k (np ∷ rest)
        ≡ elim (find k rest) [ none ↦ none | some x ↦ some (np ∷ erase k rest) ]
  unfolding unlink_next find erase
  unlink_next-erase k np [] = refl
  unlink_next-erase k np (next ∷ rest) = elim (Bool-cases (equ k next.key)) [
    | inl e ↦ rw (e, unlink_next) (rw (e, erase))
    | inr e ↦
        rw (e, unlink_next, unlink_next-erase k next rest)
          (elim (Option-cases (find k rest)) [ inl f ↦ rw f | inr (x, f) ↦ rw f (rw (e, erase)) ])
  ]

  -- The look-ahead loop drops the first node with the key, and fails when there is none.
  pub unlink-erase : (k : CString) (c : List (Association V)) → unlink k c ≡ erased k c (find k c)
  unfolding unlink find erase
  unlink-erase k [] = refl
  unlink-erase k (np ∷ rest) = elim (Bool-cases (equ k np.key)) [
    | inl e ↦ rw e (rw e)
    | inr e ↦
        rw (e, unlink_next-erase k np rest)
          (elim (Option-cases (find k rest)) [ inl f ↦ rw f | inr (x, f) ↦ rw f (rw e) ])
  ]

  module _ (k q : CString) where
    pub find-erase :
        (c : List (Association V))
        → occurs q c ≤ 1
        → find q (erase k c) ≡ (if equ q k then none else find q c)
    unfolding find erase occurs
    find-erase [] h = ground arith
    find-erase (a ∷ rest) h = ground (
      arith,
      find-erase rest,
      find_absent q rest,
      equ_congr k q a.key,
      equ_congr a.key q k,
      equ_comm a.key k,
    )

    pub occurs-erase : (c : List (Association V)) → occurs q (erase k c) ≤ occurs q c
    unfolding occurs erase
    occurs-erase [] = omega arith
    occurs-erase (a ∷ rest) = ground (arith, occurs-erase rest)
