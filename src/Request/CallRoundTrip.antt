-- ===== src/Request/CallRoundTrip.antt =====
-- The trees that the texts of calls and answers are written from.
use stros.Prelude.{◌≡◌, refl, ◌∙◌, sym, [], ◌++◌, append_assoc, append-nil}
use stros.CString.{codes}
use stros.ItemList.{Floats, Value, Items, null, node}
use stros.Rpc.Generate.{item_to_xml, params_loop, list_to_xml_params}
use stros.Rpc.Markup.{
  Content, elem, done, more, render, render_all, leaf, crlf, inner, markup, render-markup,
}
use stros.Request.Call.{RpcRequest, gen_rpc_call}
use stros.Request.Reply.{gen_rpc_response}

module _ ⦃fl : Floats⦄ where
  -- The content of `params`.
  unfoldable pub params_markup : Items → Content
  params_markup null = more crlf done
  params_markup (node v l) =
      more (elem (codes "param") (more crlf (markup v (more crlf done))))
        (more crlf (params_markup l))

  unfoldable pub call_markup : RpcRequest → Content
  call_markup rq = more crlf (
      more (leaf (codes "methodName") rq.method) (
        more crlf (
          more (elem (codes "params") (more crlf (params_markup rq.params)))
            (more crlf (more crlf done)))))

  unfoldable pub response_markup : Items → Content
  response_markup l =
      more crlf
        (more (elem (codes "params") (more crlf (params_markup l))) (more crlf (more crlf done)))

  -- The text of a value is its element.
  item_to_xml-inner :
      (v : Value)
      → item_to_xml v ≡ codes "<value>" ++ (render_all (inner v) ++ codes "</value>\r\n")
  unfolding render
  item_to_xml-inner v =
      let whole : render_all (markup v done) ≡ item_to_xml v ++ [] = render-markup v done in
      sym (append-nil (item_to_xml v)) ∙ sym whole ∙ simp append_assoc

  render-params_markup : (l : Items) → render_all (params_markup l) ≡ params_loop l ++ codes "\r\n"
  unfolding render params_markup params_loop
  render-params_markup null = refl
  render-params_markup (node v l) = simp (append_assoc, render-params_markup l, item_to_xml-inner v)

  -- The text of a call is the XML declaration and the tree of its name and parameters, written
  -- without escaping the characters of a text.
  pub gen_rpc_call-render :
      (rq : RpcRequest)
      → gen_rpc_call rq
        ≡ codes "<?xml version=\"1.0\"?>\r\n" ++ render (elem (codes "methodCall") (call_markup rq))
  unfolding gen_rpc_call render call_markup list_to_xml_params
  gen_rpc_call-render rq = simp (append_assoc, render-params_markup rq.params)

  -- So is that of an answer.
  pub gen_rpc_response-render :
      (l : Items)
      → gen_rpc_response l
        ≡ codes "<?xml version=\"1.0\"?>\r\n"
          ++ render (elem (codes "methodResponse") (response_markup l))
  unfolding gen_rpc_response render response_markup list_to_xml_params
  gen_rpc_response-render l = simp (append_assoc, render-params_markup l)
