-- ===== src/ItemList/Split.antt =====
-- `split`: the tokens between delimiters that are not empty, each read as a number if it is one.
use stros.Prelude.{
  ◌≡◌, refl, List, [], ◌∷◌, ◌++◌, append_assoc, append-nil, arith, Option, none, some,
  if◌then◌else◌,
}
use stros.CString.{CString, strsep_all}
use stros.ItemList.{
  Floats, Value, Items, null, node, list_init, list_empty, list_put_special, special,
}
use stros.ItemList.Access.{elements}
use stros.ItemList.Put.{list_put-elements, special_not_nil}

module _ ⦃fl : Floats⦄ where
  -- The loop of `split`, over the tokens that `strsep` returns.
  unfoldable pub split_loop : Items → List CString → Items
  split_loop l [] = l
  split_loop l ([] ∷ tokens) = split_loop l tokens
  split_loop l ((c ∷ t) ∷ tokens) = split_loop (list_put_special l (c ∷ t)) tokens

  -- `if (l->type == RPC_TYPE_NIL) return NULL; return l;`
  unfoldable pub split_result : Items → Items
  split_result l = if list_empty l then null else l

  unfoldable pub split : Option CString → Option CString → Items
  unfolding split_loop split_result
  split none delim = null
  split (some str) none = null
  split (some str) (some delim) = split_result (split_loop list_init (strsep_all delim [] str))

  -- The values of the tokens that are not empty.
  pub token_values : List CString → List Value
  token_values [] = []
  token_values ([] ∷ tokens) = token_values tokens
  token_values ((c ∷ t) ∷ tokens) = special (c ∷ t) ∷ token_values tokens

  split_loop-elements :
      (tokens : List CString) (l : Items)
      → elements (split_loop l tokens) ≡ elements l ++ token_values tokens
  unfolding split_loop token_values list_put_special
  split_loop-elements [] l = rw append-nil
  split_loop-elements ([] ∷ tokens) l = split_loop-elements tokens l
  split_loop-elements ((c ∷ t) ∷ tokens) l = rw (
    split_loop-elements tokens,
    list_put-elements l (special (c ∷ t)) (special_not_nil (c ∷ t)),
    append_assoc,
  )

  split_result-elements : (l : Items) → elements (split_result l) ≡ elements l
  unfolding split_result elements list_empty
  split_result-elements null = refl
  split_result-elements (node v l) = ground arith

  -- The elements of a split are the values of the tokens that are not empty, in order, for a text
  -- and delimiters that are not NULL.
  pub split-elements :
      (str delim : CString)
      → elements (split (some str) (some delim)) ≡ token_values (strsep_all delim [] str)
  unfolding split
  split-elements str delim =
      rw (split_result-elements, split_loop-elements) (unfold elements list_init list_empty in refl)
