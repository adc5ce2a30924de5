-- ===== src/Dictionary/Lookup.antt =====
-- The laws of a finite map: what `dlookup` and `dvalue` read after `dput` and `dremove`.
use stros.Prelude.{
  ℕ, zero, suc, ◌≤◌, ◌<◌, ◌≡◌, refl, ap, sym, inl, inr, Bool, true, false, ◌&&◌, ◌||◌, List, [],
  ◌∷◌, arith, if◌then◌else◌, Option, none, some, is_some, Bool-cases, Option-cases, length, get_or,
  set, ◌==◌, length-set,
}
use stros.CString.{CString, equ}
use stros.CString.Compare.{equ_refl, eq_of_equ}
use stros.Utils.Hash.Laws.{hash-lt}
use stros.Dictionary.{
  hashsize, dhashsize, Association, Buckets, home, dlookup, value_of, dvalue, link_front, assign,
  write_value, dput, replace_chain, dremove,
}
use stros.Dictionary.Chain.{occurs, find-assign, unlink-erase, erase, erased, find-erase}

pub home-lt : (k : CString) → home k < dhashsize
unfolding home
home-lt k = hash-lt k dhashsize (omega arith)

-- The same key has the same home.
pub home_congr : (k q : CString) → equ q k ≡ true → home k ≡ home q
home_congr k q h = ap home (sym (eq_of_equ q k h))

pub get_or-set {ℓ} :
    {A : Type ℓ} (xs : List A) (i j : ℕ) (v d : A)
    → i < length xs
    → get_or (set xs i v) j d ≡ (if i == j then v else get_or xs j d)
get_or-set [] i j v d h = absurd (omega arith)
get_or-set (x ∷ xs) zero zero v d h = refl
get_or-set (x ∷ xs) zero (suc j) v d h = ground arith
get_or-set (x ∷ xs) (suc i) zero v d h = ground arith
get_or-set (x ∷ xs) (suc i) (suc j) v d h = ground (arith, get_or-set xs i j v d)

module _ {ℓ} {V : Type ℓ} where
  -- The table has its 1024 chains.
  abbrev pub IsWide : Buckets V → Type 0
  IsWide dic = length dic ≡ hashsize

  -- What a chain write at the home of `k` does to a lookup of `q`: another chain is not touched.
  pub find-set-home :
      (dic : Buckets V) (k q : CString) (c : List (Association V))
      → IsWide dic
      → get_or (set dic (home k) c) (home q) []
        ≡ (if home k == home q then c else get_or dic (home q) [])
  find-set-home dic k q c h = get_or-set dic (home k) (home q) c [] (omega (arith, home-lt k))

  IsWide-link_front :
      (dic : Buckets V) (k : CString) (junk : V) → IsWide dic → IsWide (link_front dic k junk)
  unfolding link_front
  IsWide-link_front dic k junk h = rw length-set h

  module _ (dic : Buckets V) (wide : IsWide dic) (k q : CString) where
    -- Where the key has a node, writing through it changes what is read at that key alone.
    pub dvalue-write_value :
        (v : V) (np : Association V)
        → dlookup (some dic) k ≡ some np
        → dvalue (some (write_value dic k v)) q ≡ (if equ q k then some v else dvalue (some dic) q)
    unfolding dvalue write_value
    dvalue-write_value v np h =
        let c = get_or dic (home k) [] in
        rw (find-set-home dic k q (assign k v c) wide)
          (ground (arith, find-assign k q v c np h, home_congr k q))

    -- A new node changes what is read at its key alone.
    dlookup-link_front :
        (junk : V)
        → dlookup (some dic) k ≡ none
        → dlookup (some (link_front dic k junk)) q
          ≡ (if equ q k then some (record { key = k; value = junk }) else dlookup (some dic) q)
    unfolding dlookup link_front
    dlookup-link_front junk h =
        let c = get_or dic (home k) [] in
        rw (find-set-home dic k q (record { key = k; value = junk } ∷ c) wide)
          (ground (arith, home_congr k q))

  pub dvalue_lem :
      (dic : Option (Buckets V)) (q : CString) → dvalue dic q ≡ value_of (dlookup dic q)
  unfolding dvalue
  dvalue_lem dic q = refl

  -- What `dput` leaves where the key is new, by whether there is memory.
  abbrev pub put_new : Buckets V → CString → Bool → V → V → Option (Buckets V) × Bool
  put_new dic k alloc junk v =
      if alloc then (some (write_value (link_front dic k junk) k v), true) else (some dic, false)

  module _ (dic : Buckets V) (k : CString) (alloc : Bool) (junk v : V) where
    pub dput_present :
        (np : Association V)
        → dlookup (some dic) k ≡ some np
        → dput alloc junk (some dic) k v ≡ (some (write_value dic k v), true)
    unfolding dput
    dput_present np e = rw e

    pub dput_absent :
        dlookup (some dic) k ≡ none → dput alloc junk (some dic) k v ≡ put_new dic k alloc junk v
    unfolding dput
    dput_absent e = rw e (ground arith)

  module _ (dic : Buckets V) (wide : IsWide dic) (k q : CString) where
    write_new :
        (junk v : V)
        → dlookup (some dic) k ≡ none
        → dvalue (some (write_value (link_front dic k junk) k v)) q
          ≡ (if equ q k then some v else dvalue (some dic) q)
    write_new junk v absent =
        let d = link_front dic k junk in
        let fresh : dlookup (some d) k ≡ some (record { key = k; value = junk }) =
          rw (dlookup-link_front dic wide k k junk absent, equ_refl k) in
        rw
          (dvalue-write_value d (IsWide-link_front dic k junk wide) k q v
            (record { key = k; value = junk }) fresh)
          (ground (
            arith,
            dvalue_lem (some d) q,
            dvalue_lem (some dic) q,
            dlookup-link_front dic wide k q junk absent,
          ))

    -- `dput` fails only where memory is short and the key is new. Where it succeeds the key reads
    -- the new value; any other key, and every key where it fails, reads what it read before. The
    -- table has its 1024 chains.
    pub dvalue-dput :
        (alloc : Bool) (junk v : V)
        → let r = dput alloc junk (some dic) k v in
          (r.1 ≡ (alloc || is_some (dlookup (some dic) k)))
          × (dvalue r.0 q ≡ (if r.1 && equ q k then some v else dvalue (some dic) q))
    dvalue-dput alloc junk v = elim (Option-cases (dlookup (some dic) k)) [
      | inr (np, e) ↦
          rw (dput_present dic k alloc junk v np e, e)
            (ground arith, dvalue-write_value dic wide k q v np e)
      | inl e ↦ rw (dput_absent dic k alloc junk v e, e) (absent alloc e)
    ]
      where
        absent :
            (a : Bool)
            → dlookup (some dic) k ≡ none
            → let r = put_new dic k a junk v in
              (r.1 ≡ (a || false))
              × (dvalue r.0 q ≡ (if r.1 && equ q k then some v else dvalue (some dic) q))
        absent true e = (refl, write_new junk v e)
        absent false e = (refl, refl)

  pub dremove_lem :
      (dic : Buckets V) (k : CString)
      → dremove (some dic) k
        ≡ replace_chain dic k (erased k (get_or dic (home k) []) (dlookup (some dic) k))
  unfolding dremove dlookup
  dremove_lem dic k = rw (unlink-erase k (get_or dic (home k) []))

  dvalue_absent :
      (dic : Buckets V) (k q : CString)
      → dlookup (some dic) k ≡ none
      → dvalue (some dic) q ≡ (if equ q k then none else dvalue (some dic) q)
  unfolding dvalue
  dvalue_absent dic k q e = elim (Bool-cases (equ q k)) [
    | inl same ↦ rw (same, eq_of_equ q k same, e)
    | inr other ↦ rw other
  ]

  dvalue-erase :
      (dic : Buckets V) (k q : CString)
      → IsWide dic
      → occurs q (get_or dic (home q) []) ≤ 1
      → dvalue (some (set dic (home k) (erase k (get_or dic (home k) [])))) q
        ≡ (if equ q k then none else dvalue (some dic) q)
  unfolding dvalue
  dvalue-erase dic k q wide once =
      let c = get_or dic (home k) [] in
      rw (find-set-home dic k q (erase k c) wide) (ground (arith, find-erase k q c, home_congr k q))

  -- `dremove` reports whether the key was bound. The key is then unbound, and each other key reads
  -- what it read before, in a table that has its 1024 chains and the key that is read at most once
  -- in its own chain.
  pub dvalue-dremove :
      (dic : Buckets V) (k q : CString)
      → IsWide dic
      → occurs q (get_or dic (home q) []) ≤ 1
      → let r = dremove (some dic) k in
        (r.1 ≡ is_some (dlookup (some dic) k))
        × (dvalue r.0 q ≡ (if equ q k then none else dvalue (some dic) q))
  dvalue-dremove dic k q wide once = elim (Option-cases (dlookup (some dic) k)) [
    | inl e ↦ rw (dremove_lem dic k, e) (unfold replace_chain in (refl, dvalue_absent dic k q e))
    | inr (np, e) ↦
        rw (dremove_lem dic k, e) (unfold replace_chain in (refl, dvalue-erase dic k q wide once))
  ]
