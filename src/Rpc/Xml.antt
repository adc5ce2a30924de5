-- ===== src/Rpc/Xml.antt =====
-- What the program reads of the documents that the XML library (3rd/xml) builds: the tag, the text
-- (NULL where there is none) and the children of an `XMLNode`. The library itself is a parameter
-- of the functions that call it.
use stros.Prelude.{ℕ, suc, Option}
use stros.CString.{CString}

mutual
  pub data XmlNode : Type 0 where
    element : CString → Option CString → XmlNodes → XmlNode

  pub data XmlNodes : Type 0 where
    no_nodes : XmlNodes
    child : XmlNode → XmlNodes → XmlNodes

-- `n_children`
unfoldable pub n_children : XmlNodes → ℕ
n_children no_nodes = 0
n_children (child n ns) = suc (n_children ns)
