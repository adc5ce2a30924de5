-- ===== src/ItemList/Put.antt =====
-- `list_put` on the elements of a list.
use stros.Prelude.{◌≡◌, ap, inl, inr, false, [], ◌∷◌, ◌++◌, arith, Bool-cases}
use stros.CString.{CString}
use stros.ItemList.{Floats, Value, Items, null, node, is_nil, list_item, list_put, special}
use stros.ItemList.Access.{values, elements, values-link_last}

-- Appending a value that is not nil to any list, the fresh list and NULL included, appends it to
-- the elements.
pub list_put-elements :
    (l : Items) (v : Value)
    → is_nil v ≡ false
    → elements (list_put l (list_item v)) ≡ elements l ++ v ∷ []
unfolding list_put elements values
list_put-elements null v h = rw h
list_put-elements (node w l) v h = elim (Bool-cases (is_nil w)) [
  | inl e ↦ rw (e, h)
  | inr e ↦ rw (e, e) (ap (λ r. w ∷ r) (values-link_last l (list_item v)))
]

-- The values that the named variants append.
pub special_not_nil : ⦃fl : Floats⦄ → (s : CString) → is_nil (special s) ≡ false
unfolding special
special_not_nil s = ground arith
