-- ===== src/Dictionary.antt =====
-- dictionary.c: a hash table of 1024 chains, of which hashing modulo 50 uses the first 50.
-- A dictionary pointer is an `Option`, `none` for NULL; a chain lists its nodes from the head. The
-- key of a linked node is not NULL, since the node is linked only after `strdup` has returned one.
pub mod Chain
pub mod Lookup
pub mod Validity
pub mod Iteration
pub mod History
use stros.Prelude.{
  ℕ, Bool, true, false, List, [], ◌∷◌, ◌++◌, if◌then◌else◌, Option, none, some, ℤ, pos, get_or, set,
  replicate,
}
use stros.CString.{CString, equ}
use stros.Utils.Hash.{hash}

abbrev pub hashsize : ℕ
hashsize = 1024

abbrev pub dhashsize : ℕ
dhashsize = 50

-- `association`, less its `next`.
pub record Association {ℓ} (V : Type ℓ) : Type ℓ where
  pub key : CString
  pub value : V

abbrev pub Buckets {ℓ} : Type ℓ → Type ℓ
Buckets V = List (List (Association V))

-- The chain that a key belongs to.
unfoldable pub home : CString → ℕ
home key = hash key dhashsize

module _ {ℓ} {V : Type ℓ} where
  unfoldable pub dict : Option (Buckets V)
  dict = some (replicate hashsize [])

  -- The loop of `dlookup` along a chain.
  unfoldable pub find : CString → List (Association V) → Option (Association V)
  find key [] = none
  find key (np ∷ rest) = if equ key np.key then some np else find key rest

  unfoldable pub dlookup : Option (Buckets V) → CString → Option (Association V)
  unfolding find home
  dlookup none key = none
  dlookup (some dic) key = find key (get_or dic (home key) [])

  unfoldable pub value_of : Option (Association V) → Option V
  value_of none = none
  value_of (some np) = some np.value

  -- `dvalue`, with `none` for NULL.
  unfoldable pub dvalue : Option (Buckets V) → CString → Option V
  unfolding dlookup value_of
  dvalue dic key = value_of (dlookup dic key)

  -- The new node in front of its chain. `junk` is what `malloc` left in its value.
  unfoldable pub link_front : Buckets V → CString → V → Buckets V
  unfolding home
  link_front dic key junk =
      set dic (home key) (record { key = key; value = junk } ∷ get_or dic (home key) [])

  -- `__put_el_with_key` on a dictionary that is not NULL, given what `dlookup` found; `alloc` says
  -- whether `malloc` and `strdup` succeed. `false` stands for the result NULL.
  unfoldable pub put_found :
      Bool → V → Buckets V → CString → Option (Association V) → Buckets V × Bool
  unfolding link_front
  put_found alloc junk dic key (some np) = (dic, true)
  put_found alloc junk dic key none =
      if alloc then (link_front dic key junk, true) else (dic, false)

  unfoldable pub put_el_with_key : Bool → V → Buckets V → CString → Buckets V × Bool
  unfolding put_found dlookup
  put_el_with_key alloc junk dic key = put_found alloc junk dic key (dlookup (some dic) key)

  -- `np->value = value` for the first node with the key.
  unfoldable pub assign : CString → V → List (Association V) → List (Association V)
  assign key v [] = []
  assign key v (np ∷ rest) =
      if equ key np.key then record np { value = v } ∷ rest else np ∷ assign key v rest

  unfoldable pub write_value : Buckets V → CString → V → Buckets V
  unfolding assign home
  write_value dic key v = set dic (home key) (assign key v (get_or dic (home key) []))

  -- `dput`; the result `false` is NULL.
  unfoldable pub dput : Bool → V → Option (Buckets V) → CString → V → Option (Buckets V) × Bool
  unfolding put_el_with_key write_value
  dput alloc junk none key v = (none, false)
  dput alloc junk (some dic) key v =
      let (d, placed) = put_el_with_key alloc junk dic key in
      if placed then (some (write_value d key v), true) else (some d, false)

  -- The loop of `dremove`, which looks one node ahead.
  unfoldable pub unlink_next : CString → List (Association V) → Option (List (Association V))
  unlink_next key [] = none
  unlink_next key (np ∷ []) = none
  unlink_next key (np ∷ next ∷ rest) = elim (equ key next.key) [
    | true ↦ some (np ∷ rest)
    | false ↦ elim (unlink_next key (next ∷ rest)) [ none ↦ none | some c ↦ some (np ∷ c) ]
  ]

  -- The test of the head, then the loop; `none` where the key is not in the chain.
  unfoldable pub unlink : CString → List (Association V) → Option (List (Association V))
  unfolding unlink_next
  unlink key [] = none
  unlink key (np ∷ rest) = if equ key np.key then some rest else unlink_next key (np ∷ rest)

  unfoldable pub replace_chain :
      Buckets V → CString → Option (List (Association V)) → Option (Buckets V) × Bool
  unfolding home
  replace_chain dic key none = (some dic, false)
  replace_chain dic key (some c) = (some (set dic (home key) c), true)

  -- `dremove`; the result is 1 or 0.
  unfoldable pub dremove : Option (Buckets V) → CString → Option (Buckets V) × Bool
  unfolding unlink replace_chain
  dremove none key = (none, false)
  dremove (some dic) key = replace_chain dic key (unlink key (get_or dic (home key) []))

  -- The nodes that `for_each_assoc` visits, in its order.
  unfoldable pub associations : Buckets V → List (Association V)
  associations [] = []
  associations (c ∷ cs) = c ++ associations cs

  -- `freedict` frees the table: the nodes that it leaves allocated.
  unfoldable pub freedict : Option (Buckets V) → List (Association V)
  unfolding associations
  freedict none = []
  freedict (some dic) = associations dic
