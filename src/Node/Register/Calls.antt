-- ===== src/Node/Register/Calls.antt =====
-- What the master is told of the topics of a node, and what a subscriber takes from its answer.
use stros.Prelude.{ℕ, ◌<◌, ◌^◌, ◌≡◌, refl, true, [], ◌∷◌, ◌++◌, Option, some, ok, pos}
use stros.CString.{CString, codes}
use stros.ItemList.{
  Floats, Items, int, string, array, null, node, list_init, list_put, list_at, value_array, count,
}
use stros.Rpc.Xml.{XmlNode}
use stros.Rpc.Markup.{Content}
use stros.Rpc.Http.{Socket}
use stros.Rpc.Http.Message.{request_text, response_text}
use stros.Request.Call.{RpcRequest, request_socket, gen_rpc_call, handled}
use stros.Request.Reply.{gen_rpc_response, response_ok, free_response}
use stros.Request.Answered.{IsCall, IsAnswer, answered, send_post_request-response_text}
use stros.Api.Topic.{Topic, RosNode}
use stros.Api.Handler.{at_address}
use stros.Api.Handler.Urls.{IsHost, node_url, extract_url-node_url}
use stros.Node.Accept.{stros_accept_request, stros_accept_request-request_text}
use stros.Node.Register.{Contact, running, Deployed, register, deploy_publisher, deploy_subscriber}

-- The call for a topic.
abbrev pub register_call : CString → RosNode → CString → ℕ → Topic → RpcRequest
register_call method nd api n tp = record {
  method = method;
  n_params = n;
  params =
      node (string nd.id) (node (string tp.topic) (node (string tp.type) (node (string api) null)));
}

-- The answer of a master to `registerSubscriber`: the code 1, a text, and the urls of the
-- publishers.
abbrev pub master_answer : CString → Items → Items
master_answer text urls =
    node (array (node (int (pos 1)) (node (string text) (node (array urls) null)))) null

module _ ⦃fl : Floats⦄ where
  -- The text of a call does not depend on the number of parameters that it says it has.
  pub gen_rpc_call-register_call :
      (method : CString) (nd : RosNode) (api : CString) (n k : ℕ) (tp : Topic)
      → gen_rpc_call (register_call method nd api n tp)
        ≡ gen_rpc_call (register_call method nd api k tp)
  unfolding gen_rpc_call
  gen_rpc_call-register_call method nd api n k tp = refl

  -- A contact that reaches a master which answers with a list, and can start its thread.
  pub record IsAnswered (other : Content → Option CString) (parse_xml : CString → Option XmlNode)
      (contact : Contact) (fd : ℕ) (l : Items) : Type 0 where
    pub connected : request_socket contact.calls ≡ (some fd, [])
    pub rest : Socket
    pub answers : contact.peer ≡ response_text (gen_rpc_response l) ++ rest
    pub list : IsAnswer other parse_xml l
    pub thread : contact.thread ≡ true

  module _ (other : Content → Option CString) (parse_xml : CString → Option XmlNode) (nd : RosNode)
      (api : CString) (n : ℕ) (contact : Contact) (fd : ℕ) where
    abbrev pub call_text : CString → Topic → CString
    call_text method tp = gen_rpc_call (register_call method nd api n tp)

    register-IsAnswered :
        (method : CString) (tp : Topic) (l : Items)
        → IsAnswered other parse_xml contact fd l
        → register parse_xml nd (some api) n method contact tp
          ≡ ok (answered (call_text method tp) fd l, response_ok (count l) l)
    unfolding register list_init list_put
    register-IsAnswered method tp l h =
        let exchanged =
          send_post_request-response_text other parse_xml contact.calls fd (call_text method tp) l
            h.rest h.connected h.list in
        rw (h.answers, exchanged) refl

    -- What the master understands of a call for a topic that reaches it, being a server as the
    -- node's own one.
    understood :
        (method : CString) (tp : Topic) (junk rest : CString)
        → IsCall other parse_xml (register_call method nd api 4 tp)
        → stros_accept_request parse_xml junk (request_text (call_text method tp) ++ rest)
          ≡ ok (record {
            served = handled (register_call method nd api 4 tp);
            closed = true;
            rest = rest;
          })
    understood method tp junk rest h = rw (gen_rpc_call-register_call method nd api n 4 tp) (
        stros_accept_request-request_text other parse_xml (register_call method nd api 4 tp) junk
          rest h.sendable h.plain h.small h.parsed)

    pub deploy_publisher-IsAnswered :
        (tp : Topic) (l : Items)
        → IsAnswered other parse_xml contact fd l
        → deploy_publisher parse_xml nd (some api) n contact tp
          ≡ ok (record {
            exchange = answered (call_text (codes "registerPublisher") tp) fd l;
            outcome = running tp;
          })
    unfolding deploy_publisher response_ok free_response
    deploy_publisher-IsAnswered tp l h =
        rw (register-IsAnswered (codes "registerPublisher") tp l h, h.thread) refl

    pub deploy_subscriber-IsAnswered :
        (sub : Topic) (text host : CString) (port : ℕ) (more : Items)
        → IsAnswered other parse_xml contact fd
            (master_answer text (node (string (node_url host port)) more))
        → IsHost host
        → port < 2 ^ 31
        → deploy_subscriber parse_xml nd (some api) n contact sub
          ≡ ok (
            at_address sub (some host) (pos port),
            record {
              exchange =
                  answered
                    (call_text (codes "registerSubscriber") sub)
                    fd
                    (master_answer text (node (string (node_url host port)) more));
              outcome = running (at_address sub (some host) (pos port));
            },
          )
    unfolding deploy_subscriber response_ok free_response list_at value_array request_text
        at_address node_url
    deploy_subscriber-IsAnswered sub text host port more h hh small =
        let l = master_answer text (node (string (node_url host port)) more) in
        rw
          (
            register-IsAnswered (codes "registerSubscriber") sub l h,
            extract_url-node_url sub host port more hh small,
            h.thread,
          )
          refl

    -- A publisher is made known to the master and gets its thread: the call that is sent, taken by
    -- a server such as the node's own, is `registerPublisher` with four parameters, the names of
    -- the node and of the topic, the type, and the url of the node; the connection is closed. This
    -- is for a master that is reached and answers with a list of plain values, a thread that can
    -- be made, and texts that fit their messages and an XML library that parses them as their
    -- documents.
    pub deploy_publisher-stros_accept_request :
        (tp : Topic) (l : Items) (junk rest : CString)
        → IsAnswered other parse_xml contact fd l
        → IsCall other parse_xml (register_call (codes "registerPublisher") nd api 4 tp)
        → (d : Deployed) × (deploy_publisher parse_xml nd (some api) n contact tp ≡ ok d)
          × (d.outcome ≡ running tp)
          × (d.exchange.closed ≡ fd ∷ [])
          × (stros_accept_request parse_xml junk (d.exchange.sent ++ rest)
              ≡ ok (record {
                served = handled (register_call (codes "registerPublisher") nd api 4 tp);
                closed = true;
                rest = rest;
              }))
    deploy_publisher-stros_accept_request tp l junk rest h c = (
      record {
        exchange = answered (call_text (codes "registerPublisher") tp) fd l;
        outcome = running tp;
      },
      deploy_publisher-IsAnswered tp l h,
      refl,
      refl,
      understood (codes "registerPublisher") tp junk rest c,
    )

    -- A subscriber is made known to the master in the same way, by `registerSubscriber`, and the
    -- topic that its thread starts with already has the host and the port of the first publisher
    -- that the master names, and is marked to be connected. This is for a master that is reached
    -- and answers with the code 1, a text and a list that begins with a url `http://host:port/`,
    -- of a host that is a text without `/` and `:` and no number and a port below 2 ^ 31, for a
    -- thread that can be made, and texts that fit their messages and an XML library that parses
    -- them as their documents.
    pub deploy_subscriber-stros_accept_request :
        (sub : Topic) (text host : CString) (port : ℕ) (more : Items) (junk rest : CString)
        → IsAnswered other parse_xml contact fd
            (master_answer text (node (string (node_url host port)) more))
        → IsHost host
        → port < 2 ^ 31
        → IsCall other parse_xml (register_call (codes "registerSubscriber") nd api 4 sub)
        → (d : Deployed) × (deploy_subscriber parse_xml nd (some api) n contact sub
            ≡ ok (at_address sub (some host) (pos port), d))
          × (d.outcome ≡ running (at_address sub (some host) (pos port)))
          × (d.exchange.closed ≡ fd ∷ [])
          × (stros_accept_request parse_xml junk (d.exchange.sent ++ rest)
              ≡ ok (record {
                served = handled (register_call (codes "registerSubscriber") nd api 4 sub);
                closed = true;
                rest = rest;
              }))
    deploy_subscriber-stros_accept_request sub text host port more junk rest h hh small c =
        let l = master_answer text (node (string (node_url host port)) more) in
        (
          record {
            exchange = answered (call_text (codes "registerSubscriber") sub) fd l;
            outcome = running (at_address sub (some host) (pos port));
          },
          deploy_subscriber-IsAnswered sub text host port more h hh small,
          refl,
          refl,
          understood (codes "registerSubscriber") sub junk rest c,
        )
