-- ===== src/Rpc/Generate.antt =====
-- `item_to_xml` and `list_to_xml_params` of rpc.c. Text is not escaped.
use stros.Prelude.{[], ◌++◌}
use stros.CString.{CString, codes, decimal}
use stros.ItemList.{
  Floats, Value, Items, nil, int, i4, bool, double, string, date, base64, array, null, node,
}

-- `XML_VALUE`
abbrev pub xml_value : CString → CString
xml_value s = codes "<value>" ++ (s ++ codes "</value>\r\n")

module _ ⦃fl : Floats⦄ where
  -- `item_to_xml` reads the value of the node alone; the loop of the array case calls it on each.
  unfoldable mutual
    pub item_to_xml : Value → CString
    item_to_xml (base64 s) = xml_value (codes "<base64>" ++ (s ++ codes "</base64>"))
    item_to_xml (bool z) = xml_value (codes "<boolean>" ++ (decimal z ++ codes "</boolean>"))
    item_to_xml (double d) = xml_value (codes "<double>" ++ (fl.format_lf d ++ codes "</double>"))
    item_to_xml (date s) =
        xml_value (codes "<dateTime.iso8601>" ++ (s ++ codes "</dateTime.iso8601>"))
    item_to_xml (int z) = xml_value (codes "<int>" ++ (decimal z ++ codes "</int>"))
    item_to_xml (i4 z) = xml_value (codes "<int>" ++ (decimal z ++ codes "</int>"))
    item_to_xml (string s) = xml_value (codes "<string>" ++ (s ++ codes "</string>"))
    item_to_xml (array a) =
        xml_value
          (codes "<array>\r\n<data>\r\n" ++ (items_to_xml a ++ codes "</data>\r\n</array>\r\n"))
    item_to_xml nil = xml_value (codes "<nil/>\r\n")

    pub items_to_xml : Items → CString
    items_to_xml null = []
    items_to_xml (node v l) = item_to_xml v ++ items_to_xml l

  -- The loop of `list_to_xml_params`, `XML_PAR` round each item.
  unfoldable pub params_loop : Items → CString
  unfolding item_to_xml
  params_loop null = []
  params_loop (node v l) =
      codes "<param>\r\n" ++ (item_to_xml v ++ (codes "\r\n</param>\r\n" ++ params_loop l))

  -- `XML_PARS`
  unfoldable pub list_to_xml_params : Items → CString
  unfolding params_loop
  list_to_xml_params l = codes "<params>\r\n" ++ (params_loop l ++ codes "\r\n</params>\r\n")
