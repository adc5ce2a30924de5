-- ===== src/Node/Life/Stop.antt =====
-- What a node tells the master when it stops, and how its own address is read.
use stros.Prelude.{
  ℕ, suc, ◌<◌, ◌^◌, ◌≡◌, refl, ◌∙◌, sym, ap, false, List, [], ◌∷◌, ◌++◌, Option, some, Run, ok,
  fault, >>=-eq-ok, deref, pos, Bool,
}
use stros.CString.{CString, codes}
use stros.Dictionary.{Association, Buckets, associations}
use stros.ItemList.{Floats, Items, string, null, node, list_init, list_put}
use stros.Rpc.Xml.{XmlNode}
use stros.Rpc.Http.Message.{request_text}
use stros.Request.Call.{RpcRequest, gen_rpc_call}
use stros.Request.Exchange.{Exchanged, send_post_request, exchange_on}
use stros.Request.Call.{request_socket}
use stros.Api.Topic.{Topic, RosNode}
use stros.Api.Handler.{at_address, extract_url}
use stros.Api.Handler.Urls.{IsHost, extract_url-bare_url}
use stros.Node.Master.{unregister}
use stros.Node.Register.{Contact, visited}
use stros.Node.Register.Answered.{exchange_answered, deref-some}
use stros.Node.Life.{Stopped, unregister_loop, stros_stop, node_api}

-- The call that takes a topic back.
abbrev pub unregister_call : CString → CString → ℕ → Topic → RpcRequest
unregister_call method api n tp = record {
  method = method;
  n_params = n;
  params = node (string tp.callerid) (node (string tp.topic) (node (string api) null));
}

-- The messages of exchanges, in order.
abbrev pub sent_by : List Exchanged → List CString
sent_by [] = []
sent_by (e ∷ es) = e.sent ∷ sent_by es

module _ ⦃fl : Floats⦄ (parse_xml : CString → Option XmlNode) (api : CString) (n : ℕ) where
  -- The messages for the topics that are visited.
  unfoldable pub unregister_texts : CString → List (Association Topic) → List CString
  unregister_texts method [] = []
  unregister_texts method (np ∷ nps) =
      request_text (gen_rpc_call (unregister_call method api n np.value))
      ∷ unregister_texts method nps

  unregister-sent :
      (method : CString) (contact : Contact) (tp : Topic) (r : Exchanged × Bool)
      → unregister parse_xml contact.back_calls contact.back_peer tp (some api) method n ≡ ok r
      → r.0.sent ≡ request_text (gen_rpc_call (unregister_call method api n tp))
  unfolding unregister send_post_request list_init list_put
  unregister-sent method contact tp r h =
      let (e, exchanged, next) =
        >>=-eq-ok
          (exchange_on parse_xml contact.back_peer (gen_rpc_call (unregister_call method api n tp))
            (request_socket contact.back_calls))
          _ h in
      let (answer, got, last) = >>=-eq-ok (deref e.answer) _ next in
      sym (ap sent_of last)
      ∙ exchange_answered parse_xml contact.back_peer _ (request_socket contact.back_calls) e answer
          exchanged (deref-some e.answer answer got)
    where
      sent_of : Run (Exchanged × Bool) → CString
      sent_of fault = []
      sent_of (ok r) = r.0.sent

  unregister_loop-sent_by :
      (method : CString) (contacts : ℕ → Contact) (i : ℕ) (nps : List (Association Topic))
      (es : List Exchanged)
      → unregister_loop parse_xml (some api) n method contacts i nps ≡ ok es
      → sent_by es ≡ unregister_texts method nps
  unfolding unregister_loop unregister_texts
  unregister_loop-sent_by method contacts i [] es h = cc
  unregister_loop-sent_by method contacts i (np ∷ nps) es h =
      let (r, one, next) =
        >>=-eq-ok
          (unregister parse_xml (contacts i).back_calls (contacts i).back_peer np.value (some api)
            method n)
          _ h in
      let (more, rest, last) =
        >>=-eq-ok (unregister_loop parse_xml (some api) n method contacts (suc i) nps) _ next in
      let head = unregister-sent method (contacts i) np.value r one in
      let tail = unregister_loop-sent_by method contacts (suc i) nps more rest in
      let here : r.0 ∷ more ≡ es = cc in rw (← here, head, tail) refl

  sent_by-append : (es ds : List Exchanged) → sent_by (es ++ ds) ≡ sent_by es ++ sent_by ds
  sent_by-append [] ds = refl
  sent_by-append (e ∷ es) ds = ap (λ r. e.sent ∷ r) (sent_by-append es ds)

  -- A node that comes through `stros_stop` has sent the master one message for each topic of its
  -- tables, first `unregisterPublisher` for the publishers and then `unregisterSubscriber` for the
  -- subscribers, each in the order in which `for_each_assoc` visits them and with the caller id
  -- and the name of the topic and the url of the node; and `stros_ok` is false after it.
  pub stros_stop-sent_by :
      (nd : RosNode) (pubs subs : Buckets Topic) (pub_contacts sub_contacts : ℕ → Contact)
      (s : Stopped)
      → nd.publishers ≡ some pubs
      → nd.subscribers ≡ some subs
      → stros_stop parse_xml (some api) n nd pub_contacts sub_contacts ≡ ok s
      → (sent_by s.calls
          ≡ unregister_texts (codes "unregisterPublisher") (associations pubs)
            ++ unregister_texts (codes "unregisterSubscriber") (associations subs))
        × (s.ros_ok ≡ false)
  unfolding stros_stop visited
  stros_stop-sent_by nd pubs subs pub_contacts sub_contacts s hp hs h =
      let (es, first, next) =
        >>=-eq-ok
          (unregister_loop parse_xml (some api) n (codes "unregisterPublisher") pub_contacts 0
            (associations pubs))
          _ (rw (hp, hs) at h) in
      let (ds, second, last) =
        >>=-eq-ok
          (unregister_loop parse_xml (some api) n (codes "unregisterSubscriber") sub_contacts 0
            (associations subs))
          _ next in
      let over : record { calls = es ++ ds; ros_ok = false } ≡ s = cc in
      (
        rw
            (
              ← over,
              sent_by-append es ds,
              unregister_loop-sent_by _ pub_contacts 0 (associations pubs) es first,
              unregister_loop-sent_by _ sub_contacts 0 (associations subs) ds second,
            )
            refl,
        ap (λ x. x.ros_ok) (sym over),
      )

module _ ⦃fl : Floats⦄ where
  -- The url that a deployed node gives to the master is read by a subscriber, to whom the master
  -- passes it on, as the host and the port of the node's own server: for a host that is a text
  -- without `/` and `:` and no number, and a port below 2 ^ 31.
  pub extract_url-node_api :
      (sub : Topic) (ip : CString) (port : ℕ) (more : Items)
      → IsHost ip
      → port < 2 ^ 31
      → extract_url sub (node (string (node_api ip port)) more)
        ≡ ok (at_address sub (some ip) (pos port))
  unfolding node_api
  extract_url-node_api sub ip port more h small = extract_url-bare_url sub ip port more h small
