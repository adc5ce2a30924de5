-- ===== src/ItemList/Remove.antt =====
-- `list_remove`.
use stros.Prelude.{
  ℕ, zero, suc, ◌<◌, ◌≡◌, refl, ap, true, ◌∷◌, ◌++◌, arith, ltb, if◌then◌else◌, Option, some, none,
  ℤ, pos, negsuc, take, drop, lt→ltb,
}
use stros.ItemList.{Items, null, node, list_size, count}
use stros.ItemList.Access.{values}

-- `np->next = np->next->next` for the node `np` that is `idx` steps on.
unfoldable pub unlink_after : Items → ℕ → Items
unlink_after null idx = null
unlink_after (node v null) idx = node v null
unlink_after (node v (node w l)) zero = node v l
unlink_after (node v (node w l)) (suc idx) = node v (unlink_after (node w l) idx)

-- `list_remove`: what it returns, `none` where control reaches the end of the function with no
-- `return`, and the list that the caller's pointer leads to. At 0 only the parameter moves on.
unfoldable pub list_remove : Items → ℤ → Option ℤ × Items
unfolding unlink_after
list_remove l (negsuc n) = (some (pos 0), l)
list_remove l (pos zero) = if ltb 0 (list_size l) then (some (pos 1), l) else (some (pos 0), l)
list_remove l (pos (suc i)) =
    if ltb (suc i) (list_size l) then (none, unlink_after l i) else (some (pos 0), l)

values-unlink_after :
    (l : Items) (i : ℕ)
    → suc i < count l
    → values (unlink_after l i) ≡ take (suc i) (values l) ++ drop (suc (suc i)) (values l)
unfolding unlink_after values count
values-unlink_after null i h = refl
values-unlink_after (node v null) zero h = refl
values-unlink_after (node v null) (suc i) h = refl
values-unlink_after (node v (node w l)) zero h = refl
values-unlink_after (node v (node w l)) (suc i) h =
    ap (λ r. v ∷ r) (values-unlink_after (node w l) i (omega arith))

-- At an index inside the list, but not 0, `list_remove` takes out that element and no other, and
-- the function ends with no return value.
pub list_remove-inside :
    (l : Items) (i : ℕ)
    → suc i < list_size l
    → ((list_remove l (pos (suc i))).0 ≡ none)
      × (values (list_remove l (pos (suc i))).1
          ≡ take (suc i) (values l) ++ drop (suc (suc i)) (values l))
unfolding list_remove
list_remove-inside l i h =
    let inside : ltb (suc i) (list_size l) ≡ true = lt→ltb _ _ h in
    (rw inside, rw inside (values-unlink_after l i (unfold list_size in ground arith)))

-- At 0 the function reports a removal, and removes nothing.
pub list_remove_head : (l : Items) → 0 < list_size l → list_remove l (pos 0) ≡ (some (pos 1), l)
unfolding list_remove
list_remove_head l h = rw (lt→ltb 0 _ h)
