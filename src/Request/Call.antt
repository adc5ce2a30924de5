-- ===== src/Request/Call.antt =====
-- Requests: `parse_rpc_method`, `gen_rpc_call`, `parse_request` and `request_socket` of request.c.
use stros.Prelude.{
  ℕ, Bool, not, [], ◌∷◌, ◌++◌, List, if◌then◌else◌, Option, none, some, Run, ok, fault, ◌>>=◌,
}
use stros.CString.{CString, codes, equ}
use stros.ItemList.{Floats, Items, list_init}
use stros.ItemList.Free.{list_free}
use stros.Rpc.Xml.{XmlNode, XmlNodes, element, no_nodes, child, n_children}
use stros.Rpc.Parse.{parse_rpc_value}
use stros.Rpc.Generate.{list_to_xml_params}
use stros.Rpc.Http.{Socket, decode_rpc_data}

-- `rpc_request_t`
pub record RpcRequest : Type 0 where
  pub method : CString
  pub n_params : ℕ
  pub params : Items

-- What `parse_request` does with a connection: which reply it sends, or the call of the handler.
pub data Served : Type 0 where
  bad_request : Served
  dummy_response : Served
  handled : RpcRequest → Served

unfoldable pub serve_method : Bool → Option RpcRequest → Served
serve_method has_handler none = bad_request
serve_method has_handler (some m) = if has_handler then handled m else dummy_response

unfoldable pub with_params : CString → ℕ → Option Items → Option RpcRequest
with_params method n none = none
with_params method n (some l) = some (record { method = method; n_params = n; params = l })

module _ ⦃fl : Floats⦄ where
  -- The loop over the children of `params`; `none` is the result NULL.
  unfoldable pub params_step : Items → XmlNodes → Run (Option Items)
  params_step l no_nodes = ok (some l)
  params_step l (child (element tag text cs) rest) =
      if equ tag (codes "param")
      then (parse_rpc_value l (element tag text cs) >>= λ l'. params_step l' rest)
      else ok none

  -- `parse_rpc_method` behind the test of the first tag; `strdup` does not take NULL.
  unfoldable pub method_params : Option CString → CString → XmlNodes → Run (Option RpcRequest)
  unfolding params_step with_params
  method_params none t cs = fault
  method_params (some method) t cs =
      if equ t (codes "params")
      then (do l ← params_step list_init cs; ok (with_params method (n_children cs) l))
      else ok none

  unfoldable pub parse_rpc_method : XmlNode → Run (Option RpcRequest)
  unfolding method_params
  parse_rpc_method
        (element tag text (child (element t1 text1 c1) (child (element t2 text2 c2) no_nodes))) =
      if equ t1 (codes "methodName") then method_params text1 t2 c2 else ok none
  parse_rpc_method _ = ok none

  -- `gen_rpc_call`
  unfoldable pub gen_rpc_call : RpcRequest → CString
  unfolding list_to_xml_params
  gen_rpc_call rq =
      codes "<?xml version=\"1.0\"?>\r\n<methodCall>\r\n<methodName>"
      ++ (rq.method
          ++ (codes "</methodName>\r\n"
              ++ (list_to_xml_params rq.params ++ codes "\r\n</methodCall>")))

  -- `parse_request` on the root element of the document.
  unfoldable pub serve_root : Bool → Option XmlNode → Run Served
  unfolding serve_method
  serve_root has_handler none = ok bad_request
  serve_root has_handler (some (element tag text cs)) =
      if equ tag (codes "methodCall")
      then (do m ← parse_rpc_method (element tag text cs); ok (serve_method has_handler m))
      else ok bad_request

  unfoldable pub serve_text : (CString → Option XmlNode) → Bool → Option CString → Run Served
  unfolding serve_root
  serve_text parse_xml has_handler none = ok bad_request
  serve_text parse_xml has_handler (some request) = serve_root has_handler (parse_xml request)

  -- `parse_request`; `has_handler` is `handler != NULL`.
  unfoldable pub parse_request : (CString → Option XmlNode) → Bool → Socket → Run (Served × Socket)
  unfolding serve_text
  parse_request parse_xml has_handler client = do
    (request, rest) ← decode_rpc_data client
    served ← serve_text parse_xml has_handler request
    ok (served, rest)

-- `free_request`: the list nodes that it frees.
unfoldable pub free_request : RpcRequest → ℕ
unfolding list_free
free_request r = (list_free r.params).0

-- The outcomes of the system calls of `request_socket`: the descriptor that `socket` returns, and
-- whether `inet_aton` and `connect` succeed. What `setsockopt` returns changes nothing.
pub record ConnectCalls : Type 0 where
  pub socket : Option ℕ
  pub aton : Bool
  pub connect : Bool

-- `request_socket`: the connected descriptor, and the descriptors that it closed.
unfoldable pub connect_socket : ConnectCalls → ℕ → Option ℕ × List ℕ
connect_socket calls fd =
    if not calls.aton
    then (none, fd ∷ [])
    else if not calls.connect
    then (none, fd ∷ [])
    else (some fd, [])

unfoldable pub request_socket : ConnectCalls → Option ℕ × List ℕ
unfolding connect_socket
request_socket calls = elim calls.socket [ none ↦ (none, []) | some fd ↦ connect_socket calls fd ]
