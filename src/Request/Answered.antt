-- ===== src/Request/Answered.antt =====
-- `send_post_request` with a peer that answers as request.c and response.c write messages.
use stros.Prelude.{◌<◌, ◌^◌, length, ◌≡◌, ◌≢◌, refl, [], ◌∷◌, ◌++◌, ℕ, Option, some, ok}
use stros.CString.{CString}
use stros.ItemList.{Floats, Items, null, count}
use stros.Rpc.Xml.{XmlNode}
use stros.Rpc.Markup.{Content}
use stros.Rpc.Plain.{IsPlainItems}
use stros.Rpc.Http.{Socket}
use stros.Rpc.Http.Decode.{NoNul}
use stros.Rpc.Http.Message.{request_text, response_text}
use stros.Request.Call.{RpcRequest, ConnectCalls, request_socket, gen_rpc_call}
use stros.Request.Reply.{gen_rpc_response, response_ok}
use stros.Request.RoundTrip.{IsSendable, call_root, response_tree, parse_response-gen_rpc_response}
use stros.Request.Exchange.{Exchanged, send_post_request}

-- What a caller has of an exchange that is answered with a list.
abbrev pub answered : CString → ℕ → Items → Exchanged
answered payload fd l = record {
  sent = request_text payload;
  closed = fd ∷ [];
  answer = some (response_ok (count l) l);
}

module _ ⦃fl : Floats⦄ where
  -- A text that an XML library reads as the document of a call, and that fits its message.
  pub record IsCall (other : Content → Option CString) (parse_xml : CString → Option XmlNode)
      (rq : RpcRequest) : Type 0 where
    pub sendable : IsSendable rq
    pub plain : NoNul (gen_rpc_call rq)
    pub small : length (gen_rpc_call rq) < 10 ^ 9
    pub parsed : parse_xml (gen_rpc_call rq) ≡ some (call_root other rq)

  -- The same of the answer with a list.
  pub record IsAnswer (other : Content → Option CString) (parse_xml : CString → Option XmlNode)
      (l : Items) : Type 0 where
    pub whole : IsPlainItems l
    pub filled : l ≢ null
    pub plain : NoNul (gen_rpc_response l)
    pub small : length (gen_rpc_response l) < 10 ^ 9
    pub parsed : parse_xml (gen_rpc_response l) ≡ some (response_tree other l)

  module _ (other : Content → Option CString) (parse_xml : CString → Option XmlNode) where
    -- A call that reaches a peer, which answers it with a list, brings this list back to the
    -- caller: the call has been sent as a message, and the connection is closed.
    pub send_post_request-response_text :
        (calls : ConnectCalls) (fd : ℕ) (payload : CString) (l : Items) (rest : Socket)
        → request_socket calls ≡ (some fd, [])
        → IsAnswer other parse_xml l
        → send_post_request parse_xml calls (response_text (gen_rpc_response l) ++ rest) payload
          ≡ ok (answered payload fd l)
    unfolding send_post_request
    send_post_request-response_text calls fd payload l rest connected h =
        let read =
          parse_response-gen_rpc_response other parse_xml l rest h.whole h.filled h.plain h.small
            h.parsed in
        rw (connected, read) refl
