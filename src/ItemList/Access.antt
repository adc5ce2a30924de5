-- ===== src/ItemList/Access.antt =====
-- Lists as sequences: what `list_size` and `list_at` read.
use stros.Prelude.{
  ℕ, zero, suc, ◌≤◌, ◌≡◌, refl, sym, ap, inl, inr, List, [], ◌∷◌, ◌++◌, arith, ltb, if◌then◌else◌,
  Option, none, some, length, get_elem?, Bool-cases, ℤ, pos, negsuc,
}
use stros.ItemList.{
  Value, Items, null, node, is_nil, link_last, count, list_size, walk, list_nth, list_at,
}

-- The values of the nodes in order.
unfoldable pub values : Items → List Value
values null = []
values (node v l) = v ∷ values l

unfoldable pub of_values : List Value → Items
of_values [] = null
of_values (v ∷ vs) = node v (of_values vs)

pub values-of_values : (vs : List Value) → values (of_values vs) ≡ vs
unfolding values of_values
values-of_values [] = refl
values-of_values (v ∷ vs) = ap (λ r. v ∷ r) (values-of_values vs)

-- A list that was built by `list_put`: it is not NULL, and is either the fresh list or holds at
-- its head a value that is not nil.
unfoldable pub elements : Items → List Value
unfolding values
elements null = []
elements (node v l) = if is_nil v then [] else v ∷ values l

pub values-link_last : (l it : Items) → values (link_last l it) ≡ values l ++ values it
unfolding values link_last
values-link_last null it = refl
values-link_last (node v l) it = ap (λ r. v ∷ r) (values-link_last l it)

pub count-values : (l : Items) → count l ≡ length (values l)
unfolding count values
count-values null = refl
count-values (node v l) = ap suc (count-values l)

-- `list_size` counts the elements.
pub list_size-elements : (l : Items) → list_size l ≡ length (elements l)
unfolding list_size elements
list_size-elements null = refl
list_size-elements (node v l) = ground (arith, count-values l)

-- The value at the head of what a pointer leads to.
unfoldable pub head_value : Items → Option Value
head_value null = none
head_value (node v l) = some v

head-walk : (l : Items) (i : ℕ) → head_value (walk l i) ≡ get_elem? (values l) i
unfolding head_value walk values
head-walk null zero = refl
head-walk null (suc i) = refl
head-walk (node v l) zero = refl
head-walk (node v l) (suc i) = head-walk l i

get_elem?-none {ℓ} : {A : Type ℓ} (xs : List A) (i : ℕ) → length xs ≤ i → get_elem? xs i ≡ none
get_elem?-none [] i h = refl
get_elem?-none (x ∷ xs) zero h = absurd (omega arith)
get_elem?-none (x ∷ xs) (suc i) h = get_elem?-none xs i (omega arith)

-- The element at an index, NULL for one out of range.
abbrev pub element : List Value → ℤ → Option Value
element xs (pos i) = get_elem? xs i
element xs (negsuc i) = none

list_nth-element : (l : Items) (i : ℕ) → head_value (list_nth l i) ≡ get_elem? (elements l) i
unfolding list_nth elements head_value
list_nth-element null i = ground arith
list_nth-element (node v l) i = elim (Bool-cases (is_nil v)) [
  | inl e ↦ rw e (ground arith)
  | inr e ↦ rw e (elim (Bool-cases (ltb i (count (node v l)))) [
    | inl inside ↦ rw inside (head-walk (node v l) i)
    | inr outside ↦
        rw outside
          (sym (get_elem?-none (values (node v l)) i (ground (arith, count-values (node v l)))))
  ])
]

-- `list_at` is the element at that index for every `int`: NULL below 0 and from the size on.
pub list_at-element : (l : Items) (idx : ℤ) → head_value (list_at l idx) ≡ element (elements l) idx
unfolding list_at
list_at-element l (negsuc n) = unfold head_value in refl
list_at-element l (pos i) = list_nth-element l i
