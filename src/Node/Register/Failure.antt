-- ===== src/Node/Register/Failure.antt =====
-- The runs of the loops of `stros_deploy_publishers` and `stros_deploy_subscribers`: their messages,
-- and a master that is not there.
use stros.Prelude.{
  ℕ, suc, ◌≡◌, refl, ◌∙◌, sym, ap, List, [], ◌∷◌, Option, some, none, Run, ok, fault, ◌>>=◌,
  >>=-eq-ok, deref, if◌then◌else◌,
}
use stros.CString.{CString, codes}
use stros.ItemList.{Floats, list_init, list_put}
use stros.Dictionary.{Association, Buckets, associations}
use stros.Rpc.Xml.{XmlNode}
use stros.Rpc.Http.Message.{request_text}
use stros.Request.Call.{request_socket, gen_rpc_call}
use stros.Request.Reply.{RpcResponse, free_response}
use stros.Request.Exchange.{Exchanged, send_post_request, exchange_on}
use stros.Api.Topic.{Topic, RosNode}
use stros.Node.Register.{
  Contact, refused, Deployed, sents, start_thread, accept_subscriber, register, deploy_publisher,
  deploy_subscriber, visited, written_back, publishers_loop, subscribers_loop,
  stros_deploy_publishers, stros_deploy_subscribers,
}
use stros.Node.Register.Answered.{exchange_answered, deref-some}
use stros.Node.Register.Calls.{register_call}

module _ ⦃fl : Floats⦄ (parse_xml : CString → Option XmlNode) (nd : RosNode) (api : CString)
    (n : ℕ) where
  -- The message that makes a topic known.
  abbrev pub register_text : CString → Topic → CString
  register_text method tp = request_text (gen_rpc_call (register_call method nd api n tp))

  -- The messages for the topics that are visited.
  unfoldable pub register_texts : CString → List (Association Topic) → List CString
  register_texts method [] = []
  register_texts method (np ∷ nps) = register_text method np.value ∷ register_texts method nps

  register-sent :
      (method : CString) (contact : Contact) (tp : Topic) (e : Exchanged) (answer : RpcResponse)
      → register parse_xml nd (some api) n method contact tp ≡ ok (e, answer)
      → e.sent ≡ register_text method tp
  unfolding register send_post_request list_init list_put
  register-sent method contact tp e answer h =
      let (e', exchanged, next) =
        >>=-eq-ok
          (exchange_on parse_xml contact.peer (gen_rpc_call (register_call method nd api n tp))
            (request_socket contact.calls))
          _ h in
      let (answer', got, last) = >>=-eq-ok (deref e'.answer) _ next in
      sym (ap sent_of last)
      ∙ exchange_answered parse_xml contact.peer _ (request_socket contact.calls) e' answer'
          exchanged (deref-some e'.answer answer' got)
    where
      sent_of : Run (Exchanged × RpcResponse) → CString
      sent_of fault = []
      sent_of (ok r) = r.0.sent

  -- What a round makes of its result, behind two steps that end.
  made :
      {A B : Type 0} (first : Run A) (second : Run ℕ) (make : A → B) (r : B)
      → (first >>= λ a. (second >>= λ k. ok (make a))) ≡ ok r
      → (a : A) × (make a ≡ r)
  made fault second make r h = cc
  made (ok a) fault make r h = cc
  made (ok a) (ok k) make r h = (a, cc)

  deploy_publisher-sent :
      (contact : Contact) (tp : Topic) (d : Deployed)
      → deploy_publisher parse_xml nd (some api) n contact tp ≡ ok d
      → d.exchange.sent ≡ register_text (codes "registerPublisher") tp
  unfolding deploy_publisher
  deploy_publisher-sent contact tp d h =
      let (r, registered, next) =
        >>=-eq-ok (register parse_xml nd (some api) n (codes "registerPublisher") contact tp) _ h in
      let (outcome, last) =
        made
          (if r.1.code
            then start_thread parse_xml nd (some api) n (codes "unregisterPublisher") contact tp
            else ok refused)
          (free_response r.1) (λ o. record { exchange = r.0; outcome = o }) d next in
      sym (ap (λ x. x.exchange.sent) last)
      ∙ register-sent (codes "registerPublisher") contact tp r.0 r.1 registered

  deploy_subscriber-sent :
      (contact : Contact) (tp sub : Topic) (d : Deployed)
      → deploy_subscriber parse_xml nd (some api) n contact tp ≡ ok (sub, d)
      → d.exchange.sent ≡ register_text (codes "registerSubscriber") tp
  unfolding deploy_subscriber
  deploy_subscriber-sent contact tp sub d h =
      let (r, registered, next) =
        >>=-eq-ok (register parse_xml nd (some api) n (codes "registerSubscriber") contact tp) _
          h in
      let (outcome, last) =
        made
          (if r.1.code
            then accept_subscriber parse_xml nd (some api) n contact tp r.1
            else ok (tp, refused))
          (free_response r.1) (λ o. (o.0, record { exchange = r.0; outcome = o.1 })) (sub, d)
          next in
      sym (ap (λ x. x.1.exchange.sent) last)
      ∙ register-sent (codes "registerSubscriber") contact tp r.0 r.1 registered

  publishers_loop-sents :
      (contacts : ℕ → Contact) (i : ℕ) (nps : List (Association Topic)) (ds : List Deployed)
      → publishers_loop parse_xml nd (some api) n contacts i nps ≡ ok ds
      → sents ds ≡ register_texts (codes "registerPublisher") nps
  unfolding publishers_loop register_texts
  publishers_loop-sents contacts i [] ds h = cc
  publishers_loop-sents contacts i (np ∷ nps) ds h =
      let (d, one, next) =
        >>=-eq-ok (deploy_publisher parse_xml nd (some api) n (contacts i) np.value) _ h in
      let (more, rest, last) =
        >>=-eq-ok (publishers_loop parse_xml nd (some api) n contacts (suc i) nps) _ next in
      let head = deploy_publisher-sent (contacts i) np.value d one in
      let tail = publishers_loop-sents contacts (suc i) nps more rest in
      let here : d ∷ more ≡ ds = cc in rw (← here, head, tail) refl

  subscribers_loop-sents :
      (contacts : ℕ → Contact) (i : ℕ) (nps subs : List (Association Topic)) (ds : List Deployed)
      → subscribers_loop parse_xml nd (some api) n contacts i nps ≡ ok (subs, ds)
      → sents ds ≡ register_texts (codes "registerSubscriber") nps
  unfolding subscribers_loop register_texts
  subscribers_loop-sents contacts i [] subs ds h = cc
  subscribers_loop-sents contacts i (np ∷ nps) subs ds h =
      let (r, one, next) =
        >>=-eq-ok (deploy_subscriber parse_xml nd (some api) n (contacts i) np.value) _ h in
      let (more, rest, last) =
        >>=-eq-ok (subscribers_loop parse_xml nd (some api) n contacts (suc i) nps) _ next in
      let head = deploy_subscriber-sent (contacts i) np.value r.0 r.1 one in
      let tail = subscribers_loop-sents contacts (suc i) nps more.0 more.1 rest in
      let here : r.1 ∷ more.1 ≡ ds = cc in rw (← here, head, tail) refl

  module _ (contacts : ℕ → Contact) where
    pub stros_deploy_publishers-sents :
        (pubs : Buckets Topic) (ds : List Deployed)
        → nd.publishers ≡ some pubs
        → stros_deploy_publishers parse_xml nd (some api) n contacts ≡ ok ds
        → sents ds ≡ register_texts (codes "registerPublisher") (associations pubs)
    unfolding stros_deploy_publishers visited
    stros_deploy_publishers-sents pubs ds hp h =
        publishers_loop-sents contacts 0 (associations pubs) ds (rw hp at h)

    pub stros_deploy_subscribers-sents :
        (subs : Buckets Topic) (es : List Deployed) (nd' : RosNode)
        → nd.subscribers ≡ some subs
        → stros_deploy_subscribers parse_xml nd (some api) n contacts ≡ ok (nd', es)
        → sents es ≡ register_texts (codes "registerSubscriber") (associations subs)
    unfolding stros_deploy_subscribers visited
    stros_deploy_subscribers-sents subs es nd' hs h =
        let (r, looped, last) =
          >>=-eq-ok (subscribers_loop parse_xml nd (some api) n contacts 0 (associations subs)) _
            (rw hs at h) in
        rw (← (let same : r.1 ≡ es = cc in same))
          (subscribers_loop-sents contacts 0 (associations subs) r.0 r.1 looped)

    -- Only the subscribers of the node are written.
    pub stros_deploy_subscribers-written_back :
        (subs : Buckets Topic) (es : List Deployed) (nd' : RosNode)
        → nd.subscribers ≡ some subs
        → stros_deploy_subscribers parse_xml nd (some api) n contacts ≡ ok (nd', es)
        → (l : List (Association Topic)) × (written_back nd l ≡ nd')
    unfolding stros_deploy_subscribers visited
    stros_deploy_subscribers-written_back subs es nd' hs h =
        let (r, looped, last) =
          >>=-eq-ok (subscribers_loop parse_xml nd (some api) n contacts 0 (associations subs)) _
            (rw hs at h) in
        (r.0, cc)

    -- Where no socket comes of the first contact, the answer that is not there is read.
    pub stros_deploy_publishers_unreached :
        (pubs : Buckets Topic) (np : Association Topic) (nps : List (Association Topic))
        (closed : List ℕ)
        → nd.publishers ≡ some pubs
        → associations pubs ≡ np ∷ nps
        → request_socket (contacts 0).calls ≡ (none, closed)
        → stros_deploy_publishers parse_xml nd (some api) n contacts ≡ fault
    unfolding stros_deploy_publishers visited publishers_loop deploy_publisher register
        send_post_request list_init list_put
    stros_deploy_publishers_unreached pubs np nps closed hp first down = rw (hp, first, down) refl

    pub stros_deploy_subscribers_unreached :
        (subs : Buckets Topic) (np : Association Topic) (nps : List (Association Topic))
        (closed : List ℕ)
        → nd.subscribers ≡ some subs
        → associations subs ≡ np ∷ nps
        → request_socket (contacts 0).calls ≡ (none, closed)
        → stros_deploy_subscribers parse_xml nd (some api) n contacts ≡ fault
    unfolding stros_deploy_subscribers visited subscribers_loop deploy_subscriber register
        send_post_request list_init list_put
    stros_deploy_subscribers_unreached subs np nps closed hs first down = rw (hs, first, down) refl

    -- A node that subscribes to nothing calls nobody for it.
    pub stros_deploy_subscribers_none :
        (subs : Buckets Topic)
        → nd.subscribers ≡ some subs
        → associations subs ≡ []
        → stros_deploy_subscribers parse_xml nd (some api) n contacts ≡ ok (nd, [])
    unfolding stros_deploy_subscribers visited subscribers_loop written_back
    stros_deploy_subscribers_none subs hs empty = rw (hs, empty) refl
