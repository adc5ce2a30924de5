-- ===== src/Request/RoundTrip.antt =====
-- A call and its answer between two nodes.
use stros.Prelude.{◌<◌, ◌^◌, length, ◌≡◌, ◌≢◌, refl, sym, true, [], ◌∷◌, ◌++◌, Option, some, ok}
use stros.CString.{CString, codes, equ}
use stros.ItemList.{Floats, Items, null, list_init, count}
use stros.Rpc.Xml.{XmlNode, element}
use stros.Rpc.Markup.{Content, chars, done, more, leaf_text, dom, dom_all}
use stros.Rpc.Plain.{IsPlainItems, puts_fresh}
use stros.Request.Call.{RpcRequest, parse_rpc_method, gen_rpc_call}
use stros.Request.Reply.{response_ok, response_node, response_root, gen_rpc_response}
use stros.Request.CallRoundTrip.{call_markup, response_markup}
use stros.Request.Params.{params_step-puts, values_loop-puts, n_children-params}
use stros.Rpc.Http.{Socket}
use stros.Rpc.Http.Message.{request_head, response_text, decode-request_head, decode-response_text}
use stros.Rpc.Http.Decode.{NoNul}
use stros.Request.Call.{serve_text, serve_root, serve_method, handled, parse_request}
use stros.Request.Reply.{response_of_text, parse_response}

module _ ⦃fl : Floats⦄ where
  -- The calls that arrive as they were sent.
  pub record IsSendable (rq : RpcRequest) : Type 0 where
    pub named : rq.method ≢ []
    pub plain : IsPlainItems rq.params
    pub filled : rq.params ≢ null
    pub counted : rq.n_params ≡ count rq.params

  module _ (other : Content → Option CString) where
    -- The tree of the document that `gen_rpc_call` writes.
    unfoldable pub call_root : RpcRequest → XmlNode
    call_root rq =
        element (codes "methodCall") (leaf_text other (call_markup rq))
          (dom_all other (call_markup rq))

    unfoldable pub response_tree : Items → XmlNode
    response_tree l =
        element (codes "methodResponse") (leaf_text other (response_markup l))
          (dom_all other (response_markup l))

    leaf_filled : (s : CString) → s ≢ [] → leaf_text other (more (chars s) done) ≡ some s
    unfolding leaf_text
    leaf_filled [] h = absurd (h refl)
    leaf_filled (c ∷ s) h = refl

    parse_rpc_method-call_root :
        (rq : RpcRequest) → IsSendable rq → parse_rpc_method (call_root rq) ≡ ok (some rq)
    unfolding parse_rpc_method call_root call_markup dom equ
    parse_rpc_method-call_root rq h =
        rw
          (
            leaf_filled rq.method h.named,
            params_step-puts other rq.params list_init h.plain,
            puts_fresh rq.params h.plain h.filled,
            n_children-params other rq.params,
            sym h.counted,
          )
          refl

    response_node-response_tree :
        (l : Items)
        → IsPlainItems l
        → l ≢ null
        → response_root (some (response_tree l)) ≡ ok (some (response_ok (count l) l))
    unfolding response_node response_root response_tree response_markup dom equ
    response_node-response_tree l plain ne =
        rw
          (
            values_loop-puts other l list_init plain,
            puts_fresh l plain ne,
            n_children-params other l,
          )
          refl

    serve_call :
        (rq : RpcRequest) → IsSendable rq → serve_root true (some (call_root rq)) ≡ ok (handled rq)
    unfolding serve_root call_root serve_method equ
    serve_call rq h =
        let whole : parse_rpc_method (call_root rq) ≡ ok (some rq) =
          parse_rpc_method-call_root rq h in
        rw whole refl

    module _ (parse_xml : CString → Option XmlNode) where
      -- A node that receives the call that `gen_rpc_call` writes for a request hands exactly that
      -- request to its handler, and takes exactly the message off the socket: for a named method
      -- whose parameters are plain (`IsPlainItems`), at least one and as many as it says, a text
      -- without NUL and of fewer than 10^9 bytes, and an XML library that parses the text as its
      -- document.
      pub parse_request-gen_rpc_call :
          (rq : RpcRequest) (rest : Socket)
          → IsSendable rq
          → NoNul (gen_rpc_call rq)
          → length (gen_rpc_call rq) < 10 ^ 9
          → parse_xml (gen_rpc_call rq) ≡ some (call_root rq)
          → parse_request parse_xml true
              (request_head (length (gen_rpc_call rq)) ++ (gen_rpc_call rq ++ rest))
            ≡ ok (handled rq, rest)
      unfolding parse_request serve_text
      parse_request-gen_rpc_call rq rest h plain small doc =
          rw (decode-request_head (gen_rpc_call rq) rest plain small, doc, serve_call rq h) refl

      -- The answer that `gen_rpc_response` writes for a list is read as a response that holds this
      -- list and its length, and nothing behind it is taken off the socket: for a list of at least
      -- one plain value, a text without NUL and of fewer than 10^9 bytes, and an XML library that
      -- parses the text as its document.
      pub parse_response-gen_rpc_response :
          (l : Items) (rest : Socket)
          → IsPlainItems l
          → l ≢ null
          → NoNul (gen_rpc_response l)
          → length (gen_rpc_response l) < 10 ^ 9
          → parse_xml (gen_rpc_response l) ≡ some (response_tree l)
          → parse_response parse_xml (response_text (gen_rpc_response l) ++ rest)
            ≡ ok (some (response_ok (count l) l), rest)
      unfolding parse_response response_of_text
      parse_response-gen_rpc_response l rest h ne plain small doc =
          rw
            (
              decode-response_text (gen_rpc_response l) rest plain small,
              doc,
              response_node-response_tree l h ne,
            )
            refl
