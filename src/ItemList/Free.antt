-- ===== src/ItemList/Free.antt =====
-- `list_free`: the nodes that it gives to `free`, those of the arrays inside included. Strings are
-- not freed.
use stros.Prelude.{ℕ, suc, ◌+◌}
use stros.ItemList.{
  Value, Items, nil, int, i4, bool, double, string, date, base64, array, null, node,
}

unfoldable mutual
  pub freed_in : Value → ℕ
  freed_in (array a) = freed_nodes a
  freed_in nil = 0
  freed_in (int z) = 0
  freed_in (i4 z) = 0
  freed_in (bool z) = 0
  freed_in (double d) = 0
  freed_in (string s) = 0
  freed_in (date s) = 0
  freed_in (base64 s) = 0

  pub freed_nodes : Items → ℕ
  freed_nodes null = 0
  freed_nodes (node v l) = suc (freed_in v + freed_nodes l)

-- The number of nodes freed, and the caller's pointer after the call.
unfoldable pub list_free : Items → ℕ × Items
unfolding freed_nodes
list_free l = (freed_nodes l, null)
