-- ===== src/Request/Reply.antt =====
-- Responses: response.c.
use stros.Prelude.{
  ℕ, suc, Bool, true, false, [], ◌∷◌, ◌++◌, List, if◌then◌else◌, Option, none, some, Run, ok, fault,
  ◌>>=◌, drop, length,
}
use stros.CString.{CString, codes, equ}
use stros.ItemList.{Floats, Items, list_init}
use stros.ItemList.Free.{list_free}
use stros.Rpc.Xml.{XmlNode, XmlNodes, element, no_nodes, child, n_children}
use stros.Rpc.Parse.{parse_rpc_value}
use stros.Rpc.Generate.{list_to_xml_params}
use stros.Rpc.Http.{Socket, decode_rpc_data}
use stros.Rpc.Http.Message.{server_string}

-- `sprintf(buf, s)`: the string and its NUL over the start of the buffer.
unfoldable pub write_buf : CString → CString → CString
write_buf s buf = s ++ 0 ∷ drop (suc (length s)) buf

-- The five lines of `rpc_bad_request`.
abbrev pub bad_request_lines : List CString
bad_request_lines =
    codes "HTTP/1.0 400 BAD REQUEST\r\n"
    ∷ codes "Content-type: text/html\r\n"
    ∷ codes "\r\n"
    ∷ codes "<P>This is a XML-PRC server, "
    ∷ codes "you must respect this protocol.\r\n"
    ∷ []

-- `sprintf` and `send(client, buf, sizeof(buf), 0)` for each line: what goes out is the whole
-- buffer, whose contents before the first call are whatever the stack held.
unfoldable pub send_buffers : CString → List CString → List CString
unfolding write_buf
send_buffers buf [] = []
send_buffers buf (s ∷ lines) = write_buf s buf ∷ send_buffers (write_buf s buf) lines

unfoldable pub rpc_bad_request : CString → List CString
unfolding send_buffers
rpc_bad_request buf = send_buffers buf bad_request_lines

-- The sends of `rpc_dummy_response`, each of `strlen(buf)` bytes.
unfoldable pub rpc_dummy_response : List CString
rpc_dummy_response =
    codes "HTTP/1.0  200 OK\r\n"
    ∷ server_string
    ∷ codes "Content-Type: text/xml\r\n"
    ∷ codes "\r\n"
    ∷ codes "<result>OK got it</result>\r\n"
    ∷ []

-- `rpc_response_t`: `code` is `RESP_OK` or `RESP_FAULT`; `body` is `none` where it was never set.
pub record RpcResponse : Type 0 where
  pub code : Bool
  pub n_value : ℕ
  pub body : Option Items

unfoldable pub response_ok : ℕ → Items → RpcResponse
response_ok n l = record { code = true; n_value = n; body = some l }

module _ ⦃fl : Floats⦄ where
  -- The loop of `parse_response` over the children of `params`.
  unfoldable pub values_loop : Items → XmlNodes → Run Items
  values_loop l no_nodes = ok l
  values_loop l (child n rest) = do l' ← parse_rpc_value l n; values_loop l' rest

  -- The loop of `parse_fault_response` over the members of the `struct`: the second child of each
  -- that has two.
  unfoldable pub members_loop : Items → XmlNodes → Run Items
  members_loop l no_nodes = ok l
  members_loop l (child (element t x (child a (child b no_nodes))) rest) = do
    l' ← parse_rpc_value l b
    members_loop l' rest
  members_loop l (child n rest) = members_loop l rest

  -- `parse_fault_response`
  unfoldable pub parse_fault_response : Items → XmlNode → Run Items
  unfolding members_loop
  parse_fault_response l (element tag text no_nodes) = ok l
  parse_fault_response l (element tag text (child (element t x no_nodes) rest)) = ok l
  parse_fault_response l (element tag text (child (element t x (child m ms)) rest)) =
      if equ tag (codes "value")
      then (if equ t (codes "struct") then members_loop l (child m ms) else ok l)
      else ok l

  -- The `fault` branch.
  unfoldable pub fault_response : XmlNodes → Run RpcResponse
  unfolding parse_fault_response
  fault_response no_nodes = ok (record { code = false; n_value = 2; body = none })
  fault_response (child n rest) = do
    l ← parse_fault_response list_init n
    ok (record { code = false; n_value = 2; body = some l })

  -- `parse_response` on the only child of the root.
  unfoldable pub response_node : XmlNode → Run (Option RpcResponse)
  unfolding values_loop response_ok fault_response
  response_node (element tag text cs) =
      if equ tag (codes "params")
      then (do l ← values_loop list_init cs; ok (some (response_ok (n_children cs) l)))
      else if equ tag (codes "fault")
      then (do r ← fault_response cs; ok (some r))
      else ok none

  unfoldable pub response_root : Option XmlNode → Run (Option RpcResponse)
  unfolding response_node
  response_root (some (element tag text (child n no_nodes))) =
      if equ tag (codes "methodResponse") then response_node n else ok none
  response_root _ = ok none

  unfoldable pub response_of_text :
      (CString → Option XmlNode) → Option CString → Run (Option RpcResponse)
  unfolding response_root
  response_of_text parse_xml none = ok none
  response_of_text parse_xml (some resp) = response_root (parse_xml resp)

  -- `parse_response`; `none` is NULL.
  unfoldable pub parse_response :
      (CString → Option XmlNode) → Socket → Run (Option RpcResponse × Socket)
  unfolding response_of_text
  parse_response parse_xml client = do
    (resp, rest) ← decode_rpc_data client
    re ← response_of_text parse_xml resp
    ok (re, rest)

  -- `gen_rpc_response`
  unfoldable pub gen_rpc_response : Items → CString
  unfolding list_to_xml_params
  gen_rpc_response rq =
      codes "<?xml version=\"1.0\"?>\r\n<methodResponse>\r\n"
      ++ (list_to_xml_params rq ++ codes "\r\n</methodResponse>")

-- `free_response` reads `r->data`, which is undefined where it was never set; the nodes freed.
unfoldable pub free_response : RpcResponse → Run ℕ
unfolding list_free
free_response r = elim r.body [ none ↦ fault | some l ↦ ok (list_free l).0 ]
