-- ===== src/Node/Listen/Follow.antt =====
-- A subscriber that follows its publisher: the question and the answer between two nodes.
use stros.Prelude.{ℕ, suc, ◌≡◌, refl, true, List, [], ◌∷◌, ◌++◌, Option, some, ok, pos}
use stros.CString.{CString, codes}
use stros.Utils.Hash.{hash}
use stros.Dictionary.{dvalue}
use stros.ItemList.{
  Floats, string, array, null, node, list_init, list_put, list_at, list_size, value_s, value_i,
  value_array, count,
}
use stros.Rpc.Xml.{XmlNode}
use stros.Rpc.Markup.{Content}
use stros.Rpc.Http.{Socket}
use stros.Rpc.Http.Message.{request_text, response_text}
use stros.Request.Call.{RpcRequest, request_socket, gen_rpc_call, handled}
use stros.Request.Reply.{gen_rpc_response, response_ok}
use stros.Request.Answered.{IsCall, IsAnswer, send_post_request-response_text}
use stros.Api.Topic.{Topic, RosNode, active, refresh}
use stros.Api.Handler.{sends, xml_rpc_api_handler}
use stros.Api.Handler.Answers.{address_answer, request_topic-address_answer}
use stros.Api.Stream.{is_up}
use stros.Node.Accept.{stros_accept_request, stros_accept_request-request_text}
use stros.Node.Listen.{
  looping, ready, Listener, Reach, Happening, moved, request_xml, ask, test_uri, take_answer,
  happen, happen_all, subscriber_listener, visit, is_refresh,
}

-- The question for a topic.
abbrev pub request_call : ℕ → Topic → RpcRequest
request_call n sub = record {
  method = codes "requestTopic";
  n_params = n;
  params = node (string sub.callerid) (
      node (string sub.topic)
        (node (array (node (array (node (string (codes "TCPROS")) null)) null)) null));
}

module _ ⦃fl : Floats⦄ where
  -- The text of a question does not depend on the number of parameters that it says it has.
  gen_rpc_call-request_call :
      (n k : ℕ) (sub : Topic)
      → gen_rpc_call (request_call n sub) ≡ gen_rpc_call (request_call k sub)
  unfolding gen_rpc_call
  gen_rpc_call-request_call n k sub = refl

  request_xml-request_call :
      (sub : Topic) (n : ℕ) → request_xml sub n ≡ ok (gen_rpc_call (request_call n sub))
  unfolding request_xml list_init list_put
  request_xml-request_call sub n = refl

  handler_answers :
      (nd : RosNode) (sub tp : Topic) (host : CString)
      → dvalue nd.publishers sub.topic ≡ some tp
      → tp.uri ≡ some host
      → xml_rpc_api_handler nd (request_call 3 sub)
        ≡ ok (nd, sends (response_text (gen_rpc_response (address_answer host tp.port))))
  unfolding xml_rpc_api_handler hash
  handler_answers nd sub tp host known at =
      request_topic-address_answer nd (request_call 3 sub).params sub.topic host tp
        (unfold list_at value_s in refl) known at

  -- A listener after it has taken an address and visited it.
  abbrev pub settled : Listener → CString → ℕ → Listener
  settled s host port = record s {
    sub = record s.sub { status = active };
    spot = looping;
    ip = some host;
    port = pos (suc port);
    visits = s.visits ++ (host, pos (suc port)) ∷ [];
  }

  pub take_answer-address_answer :
      (s : Listener) (host : CString) (port n : ℕ)
      → take_answer s (some (response_ok n (address_answer host (pos (suc port)))))
        ≡ ok (record s {
          sub = record s.sub { status = active };
          spot = ready;
          ip = some host;
          port = pos (suc port);
        })
  unfolding take_answer response_ok address_answer value_array value_s value_i list_at list_size
      count
  take_answer-address_answer s host port n = refl

  module _ (other : Content → Option CString) (parse_xml : CString → Option XmlNode) where
    -- A listener that looks for its publisher, and a contact that the publisher answers on.
    pub record IsAsking (s : Listener) (reach : Reach) (fd : ℕ) (host : CString) (port : ℕ)
        : Type 0 where
      pub ros_ok : s.ros_ok ≡ true
      pub spot : s.spot ≡ looping
      pub uri : CString
      pub at : s.sub.uri ≡ some uri
      pub status : s.sub.status ≡ refresh
      pub connected : request_socket reach.calls ≡ (some fd, [])
      pub rest : Socket
      pub answers :
          reach.peer
          ≡ response_text (gen_rpc_response (address_answer host (pos (suc port)))) ++ rest
      pub answer : IsAnswer other parse_xml (address_answer host (pos (suc port)))

    -- One way through the loop, with a contact for the question.
    abbrev pub way : Reach → (ℕ → Reach) → List Happening
    way reach others =
        moved (others 0)
        ∷ moved (others 1)
        ∷ moved (others 2)
        ∷ moved (others 3)
        ∷ moved reach
        ∷ moved (others 4)
        ∷ moved (others 5)
        ∷ []

    -- The accesses of a listener that is answered.
    follow_lem :
        (xml : CString) (s : Listener) (reach : Reach) (others : ℕ → Reach) (fd : ℕ)
        (host : CString) (port : ℕ)
        → IsAsking s reach fd host port
        → happen_all parse_xml xml s (way reach others) ≡ ok (settled s host port)
    unfolding happen_all happen subscriber_listener visit is_refresh is_up ask test_uri count
        address_answer
    follow_lem xml s reach others fd host port h =
        let exchanged =
          send_post_request-response_text other parse_xml reach.calls fd xml
            (address_answer host (pos (suc port))) h.rest h.connected h.answer in
        rw
          (
            h.spot,
            h.ros_ok,
            h.status,
            h.at,
            h.answers,
            exchanged,
            take_answer-address_answer _ host port 1,
          )
          refl

    -- A subscriber finds its publisher. The text that its listener asks with is the call
    -- `requestTopic` for its topic; the server of the publisher's node hands this call to its
    -- handler, and the handler answers, changing nothing, with the address of the publisher; a
    -- listener that is marked to connect again, asks while nobody changes its topic and gets this
    -- answer is active after one way through its loop, and has called `tcp_ros_request` once, with
    -- exactly this address. This is for a node that publishes the topic at a host and a port above
    -- 0, texts that fit their messages, and an XML library that parses them as their documents.
    pub happen_all-xml_rpc_api_handler :
        (nd : RosNode) (tp : Topic) (s : Listener) (reach : Reach) (others : ℕ → Reach) (fd n : ℕ)
        (host : CString) (port : ℕ) (junk rest : CString)
        → IsCall other parse_xml (request_call 3 s.sub)
        → IsAsking s reach fd host port
        → dvalue nd.publishers s.sub.topic ≡ some tp
        → tp.uri ≡ some host
        → tp.port ≡ pos (suc port)
        → (xml : CString) × (request_xml s.sub n ≡ ok xml)
          × (stros_accept_request parse_xml junk (request_text xml ++ rest)
              ≡ ok (record { served = handled (request_call 3 s.sub); closed = true; rest = rest }))
          × (xml_rpc_api_handler nd (request_call 3 s.sub)
              ≡ ok (
                nd,
                sends (response_text (gen_rpc_response (address_answer host (pos (suc port))))),
              ))
          × (happen_all parse_xml xml s (way reach others) ≡ ok (settled s host port))
    happen_all-xml_rpc_api_handler nd tp s reach others fd n host port junk rest c h known at
          there =
        (
          gen_rpc_call (request_call n s.sub),
          request_xml-request_call s.sub n,
          rw (gen_rpc_call-request_call n 3 s.sub) (
              stros_accept_request-request_text other parse_xml (request_call 3 s.sub) junk rest
                c.sendable c.plain c.small c.parsed),
          rw (← there) (handler_answers nd s.sub tp host known at),
          follow_lem (gen_rpc_call (request_call n s.sub)) s reach others fd host port h,
        )
