-- ===== src/ItemList/Print.antt =====
-- `as_string`, the form that the dump functions print.
use stros.Prelude.{[], ◌++◌}
use stros.CString.{CString, codes, decimal}
use stros.ItemList.{
  Floats, Value, Items, nil, int, i4, bool, double, string, date, base64, array, null, node,
}

-- A list whose head is NULL or nil prints as `[empty]`, also behind a comma.
unfoldable mutual
  pub value_string : ⦃fl : Floats⦄ → Value → CString
  value_string nil = []
  value_string ⦃fl⦄ (int z) = codes "int:" ++ decimal z
  value_string ⦃fl⦄ (i4 z) = codes "int:" ++ decimal z
  value_string ⦃fl⦄ (bool z) = codes "bool:" ++ decimal z
  value_string ⦃fl⦄ (double d) = codes "double:" ++ fl.format_lf d
  value_string ⦃fl⦄ (string s) = codes "string:" ++ s
  value_string ⦃fl⦄ (date s) = codes "date:" ++ s
  value_string ⦃fl⦄ (base64 s) = codes "b64:" ++ s
  value_string ⦃fl⦄ (array a) = codes "[" ++ (as_string a ++ codes "]")

  pub as_string : ⦃fl : Floats⦄ → Items → CString
  as_string null = codes "[empty]"
  as_string (node nil l) = codes "[empty]"
  as_string ⦃fl⦄ (node v null) = value_string v
  as_string ⦃fl⦄ (node v (node w l)) = value_string v ++ (codes ",\n" ++ as_string (node w l))
