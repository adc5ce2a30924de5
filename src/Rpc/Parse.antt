-- ===== src/Rpc/Parse.antt =====
-- `parse_rpc_value` of rpc.c: one value of a document is appended to a list.
use stros.Prelude.{ℕ, ◌==◌, if◌then◌else◌, Option, none, some, Run, ok, fault, ◌>>=◌}
use stros.CString.{CString, codes, equ, atoi}
use stros.Utils.Hash.{header_hash_size, hash}
use stros.ItemList.{
  Floats, Items, list_init, list_put_b64, list_put_b, list_put_special, list_put_date, list_put_i,
  list_put_s, list_put_array,
}
use stros.Rpc.Xml.{XmlNode, XmlNodes, element, no_nodes, child}

-- The cases of the switch over the hash of a tag.
pub data RpcType : Type 0 where
  base64 bool double date int i4 string array unsupported : RpcType

-- `RPC_TYPE_…` of utils.h.
unfoldable pub rpc_type : ℕ → RpcType
rpc_type h =
    if h == 335
    then base64
    else if h == 40
    then bool
    else if h == 977
    then double
    else if h == 49
    then date
    else if h == 1007
    then int
    else if h == 235
    then i4
    else if h == 17
    then string
    else if h == 601
    then array
    else unsupported

unfoldable pub tag_type : CString → RpcType
unfolding rpc_type
tag_type tag = rpc_type (hash tag header_hash_size)

module _ ⦃fl : Floats⦄ where
  -- The cases that read the text of the node; the C library's functions do not take NULL.
  unfoldable pub put_scalar : Items → RpcType → Option CString → Run Items
  put_scalar l base64 text = list_put_b64 l text
  put_scalar l date text = list_put_date l text
  put_scalar l string text = list_put_s l text
  put_scalar l bool none = fault
  put_scalar l bool (some t) = ok (list_put_b l (atoi t))
  put_scalar l int none = fault
  put_scalar l int (some t) = ok (list_put_i l (atoi t))
  put_scalar l i4 none = fault
  put_scalar l i4 (some t) = ok (list_put_i l (atoi t))
  put_scalar l double none = fault
  put_scalar l double (some t) = ok (list_put_special l t)
  put_scalar l array text = ok l
  put_scalar l unsupported text = ok l

  -- The switch, given what the array case appends.
  unfoldable pub dispatch : Items → RpcType → Option CString → Run Items → Run Items
  unfolding put_scalar
  dispatch l array text appended = appended
  dispatch l base64 text appended = put_scalar l base64 text
  dispatch l bool text appended = put_scalar l bool text
  dispatch l double text appended = put_scalar l double text
  dispatch l date text appended = put_scalar l date text
  dispatch l int text appended = put_scalar l int text
  dispatch l i4 text appended = put_scalar l i4 text
  dispatch l string text appended = put_scalar l string text
  dispatch l unsupported text appended = put_scalar l unsupported text

  unfoldable mutual
    unfolding dispatch

    -- The node itself if it is a `value`, else its first child if that is one.
    pub parse_rpc_value : Items → XmlNode → Run Items
    parse_rpc_value l (element tag text cs) =
        if equ tag (codes "value") then parse_content l cs else parse_wrapped l cs

    pub parse_wrapped : Items → XmlNodes → Run Items
    parse_wrapped l no_nodes = ok l
    parse_wrapped l (child (element tag text cs) rest) =
        if equ tag (codes "value") then parse_content l cs else ok l

    -- The first child of the `value` node tells the type.
    pub parse_content : Items → XmlNodes → Run Items
    parse_content l no_nodes = ok l
    parse_content l (child (element tag text cs) rest) =
        dispatch l (tag_type tag) text (parse_array l cs)

    -- An array has one child, `data`.
    pub parse_array : Items → XmlNodes → Run Items
    parse_array l no_nodes = ok l
    parse_array l (child (element tag text cs) no_nodes) =
        if equ tag (codes "data")
        then (do arr ← parse_items list_init cs; ok (list_put_array l arr))
        else ok l
    parse_array l (child n (child m rest)) = ok l

    -- The loop over the children of `data`.
    pub parse_items : Items → XmlNodes → Run Items
    parse_items arr no_nodes = ok arr
    parse_items arr (child n rest) = do arr' ← parse_rpc_value arr n; parse_items arr' rest
