-- ===== src/Dictionary/Validity.antt =====
-- The table's invariant: 1024 chains, every node in the home chain of its key, no key twice.
use stros.Prelude.{
  ℕ, zero, suc, ◌≤◌, ◌<◌, ◌≡◌, ◌≢◌, refl, ap, ◌∙◌, inl, inr, Bool, true, false, List, [], ◌∷◌,
  arith, Option, none, some, Bool-cases, Option-cases, length, get_or, set, replicate, length-set,
  length-replicate,
}
use stros.CString.{CString, equ}
use stros.CString.Compare.{eq_of_equ}
use stros.Dictionary.{
  hashsize, Association, Buckets, home, dict, find, dlookup, value_of, dvalue, link_front, assign,
  write_value, dput, replace_chain, dremove,
}
use stros.Dictionary.Chain.{occurs, occurs_absent, occurs-assign, occurs-erase, erase}
use stros.Dictionary.Lookup.{
  IsWide, home_congr, home-lt, get_or-set, dput_present, dput_absent, put_new, dremove_lem,
}

module _ {ℓ} {V : Type ℓ} where
  pub record IsValid (dic : Buckets V) : Type 0 where
    pub wide : IsWide dic
    pub once : (q : CString) (i : ℕ) → occurs q (get_or dic i []) ≤ 1
    pub placed : (q : CString) (i : ℕ) → home q ≢ i → occurs q (get_or dic i []) ≡ 0

  -- A write of the home chain of `k` keeps the invariant, if no other key occurs more often in the
  -- new chain than in the old, and `k` at most once.
  set-IsValid :
      (dic : Buckets V) (k : CString) (c : List (Association V))
      → IsValid dic
      → ((q : CString) → occurs q c ≤ 1)
      → ((q : CString) → home q ≢ home k → occurs q c ≡ 0)
      → IsValid (set dic (home k) c)
  set-IsValid dic k c v once placed =
      let inside : home k < length dic = omega (arith, v.wide, home-lt k) in
      record {
        wide = length-set dic (home k) c ∙ v.wide;
        once =
            λ q i. rw (get_or-set dic (home k) i c [] inside) (ground (arith, once q, v.once q i));
        placed = λ q i h.
            rw (get_or-set dic (home k) i c [] inside) (ground (arith, placed q, v.placed q i));
      }

  dict-valid : (n : ℕ) (i : ℕ) → get_or {A = List (Association V)} (replicate n []) i [] ≡ []
  unfolding replicate
  dict-valid zero i = refl
  dict-valid (suc n) zero = refl
  dict-valid (suc n) (suc i) = dict-valid n i

  -- The table that `dict` makes.
  unfoldable pub empty_table : Buckets V
  empty_table = replicate hashsize []

  pub dict-IsValid :
      (dict {V = V} ≡ some empty_table)
      × IsValid empty_table
      × ((q : CString) → dvalue (some empty_table) q ≡ none)
  unfolding dict empty_table occurs dvalue find value_of
  dict-IsValid = (
    refl,
    record {
      wide = length-replicate hashsize [];
      once = λ q i. rw (dict-valid hashsize i) (omega arith);
      placed = λ q i h. rw (dict-valid hashsize i);
    },
    λ q. rw (dict-valid hashsize (home q)),
  )

  module _ (dic : Buckets V) (k : CString) (valid : IsValid dic) where
    write_value-IsValid : (v : V) → IsValid (write_value dic k v)
    unfolding write_value
    write_value-IsValid v =
        let c = get_or dic (home k) [] in
        set-IsValid dic k (assign k v c) valid
          (λ q. rw (occurs-assign k q v c) (valid.once q (home k)))
          (λ q h. rw (occurs-assign k q v c) (valid.placed q (home k) h))

    link_front-IsValid : (junk : V) → dlookup (some dic) k ≡ none → IsValid (link_front dic k junk)
    unfolding link_front dlookup occurs
    link_front-IsValid junk absent =
        let c = get_or dic (home k) [] in
        let none_there : occurs k c ≡ 0 = occurs_absent k c absent in
        set-IsValid dic k (record { key = k; value = junk } ∷ c) valid
          (λ q. elim (Bool-cases (equ q k)) [
            | inl same ↦
                let none_here : occurs q c ≡ 0 =
                  ap (λ s. occurs s c) (eq_of_equ q k same) ∙ none_there in
                rw same (omega (arith, none_here))
            | inr other ↦ rw other (omega (arith, valid.once q (home k)))
          ])
          (λ q h. ground (arith, valid.placed q (home k) h, home_congr k q))

    erase-IsValid : IsValid (set dic (home k) (erase k (get_or dic (home k) [])))
    erase-IsValid =
        let c = get_or dic (home k) [] in
        set-IsValid dic k (erase k c) valid
          (λ q. omega (arith, occurs-erase k q c, valid.once q (home k)))
          (λ q h. omega (arith, occurs-erase k q c, valid.placed q (home k) h))

  -- A dictionary pointer to a valid table.
  abbrev pub PointsToValid : Option (Buckets V) → Type 0
  PointsToValid none = ⊥
  PointsToValid (some dic) = IsValid dic

  -- `dput` keeps the invariant of the table (1024 chains, every node in the home chain of its key,
  -- no key twice), whether or not there is memory and the key is there.
  pub dput-IsValid :
      (dic : Buckets V) (k : CString) (alloc : Bool) (junk v : V)
      → IsValid dic
      → PointsToValid (dput alloc junk (some dic) k v).0
  dput-IsValid dic k alloc junk v valid = elim (Option-cases (dlookup (some dic) k)) [
    | inr (np, e) ↦ rw (dput_present dic k alloc junk v np e) (write_value-IsValid dic k valid v)
    | inl e ↦
        rw (dput_absent dic k alloc junk v e)
          (elim alloc as (λ a. PointsToValid (put_new dic k a junk v).0) [
            | true ↦ write_value-IsValid _ k (link_front-IsValid dic k valid junk e) v
            | false ↦ valid
          ])
  ]

  -- `dremove` keeps the invariant of the table, whether or not the key is there.
  pub dremove-IsValid :
      (dic : Buckets V) (k : CString) → IsValid dic → PointsToValid (dremove (some dic) k).0
  unfolding replace_chain
  dremove-IsValid dic k valid = elim (Option-cases (dlookup (some dic) k)) [
    | inr (np, e) ↦ rw (dremove_lem dic k, e) (erase-IsValid dic k valid)
    | inl e ↦ rw (dremove_lem dic k, e) valid
  ]
