-- ===== src/Node/Register.antt =====
-- `stros_deploy_publishers` and `stros_deploy_subscribers` of stros.c: the topics of a node made
-- known to the master, and a thread for each. The loops visit what `for_each_assoc` visits.
pub mod Answered
pub mod Calls
pub mod Failure
use stros.Prelude.{
  ℕ, suc, Bool, true, false, List, [], ◌∷◌, ◌++◌, if◌then◌else◌, Option, some, none, Run, ok, fault,
  ◌>>=◌, deref, pos,
}
use stros.CString.{CString, codes}
use stros.ItemList.{Floats, Items, list_init, list_put_s, list_at, value_array}
use stros.Dictionary.{Association, Buckets, associations}
use stros.Rpc.Xml.{XmlNode}
use stros.Rpc.Http.{Socket}
use stros.Request.Call.{RpcRequest, ConnectCalls, gen_rpc_call}
use stros.Request.Reply.{RpcResponse, free_response}
use stros.Request.Exchange.{Exchanged, send_post_request}
use stros.Api.Topic.{Topic, RosNode}
use stros.Api.Handler.{extract_url, with_subscriber}
use stros.Node.Master.{unregister}

-- One topic meets the world: the system calls of its connection to the master and what the master
-- sends, whether `pthread_create` succeeds, and the same of the connection of `unregister`.
pub record Contact : Type 0 where
  pub calls : ConnectCalls
  pub peer : Socket
  pub thread : Bool
  pub back_calls : ConnectCalls
  pub back_peer : Socket

-- What became of a topic: a thread runs, with the topic as its start finds it, the thread could not be made and the topic was taken back,
-- or the master refused it.
pub data Outcome : Type 0 where
  running : Topic → Outcome
  taken_back : Exchanged → Outcome
  refused : Outcome

pub record Deployed : Type 0 where
  pub exchange : Exchanged
  pub outcome : Outcome

-- The messages of a run, in order.
abbrev pub sents : List Deployed → List CString
sents [] = []
sents (d ∷ ds) = d.exchange.sent ∷ sents ds

-- The nodes that `for_each_assoc` visits; it reads the table even where it is NULL.
unfoldable pub visited : Option (Buckets Topic) → Run (List (Association Topic))
unfolding associations
visited dic = do d ← deref dic; ok (associations d)

-- The subscribers written back to where their pointers lead.
unfoldable pub written_back : RosNode → List (Association Topic) → RosNode
written_back nd [] = nd
written_back nd (np ∷ rest) = written_back (with_subscriber nd np.key np.value) rest

module _ ⦃fl : Floats⦄ where
  -- The parameters of the call.
  unfoldable pub register_params : RosNode → Option CString → Topic → Run Items
  unfolding list_put_s
  register_params nd api tp = do
    l ← list_put_s list_init (some nd.id)
    l ← list_put_s l (some tp.topic)
    l ← list_put_s l (some tp.type)
    list_put_s l api

  module _ (parse_xml : CString → Option XmlNode) (nd : RosNode) (api : Option CString)
      (n : ℕ) where
    -- The call of the master; `n` is what `malloc` left in `n_params`. The answer is read even
    -- where it is NULL.
    unfoldable pub register : CString → Contact → Topic → Run (Exchanged × RpcResponse)
    unfolding register_params
    register method contact tp = do
      params ← register_params nd api tp
      e ←
          send_post_request parse_xml contact.calls contact.peer
            (gen_rpc_call (record { method = method; n_params = n; params = params }))
      answer ← deref e.answer
      ok (e, answer)

    -- `pthread_create`, and `unregister` where it fails.
    unfoldable pub start_thread : CString → Contact → Topic → Run Outcome
    start_thread method contact tp = if contact.thread then ok (running tp) else (do
      (e, code) ← unregister parse_xml contact.back_calls contact.back_peer tp api method n
      ok (taken_back e))

    -- One round of `stros_deploy_publishers`.
    unfoldable pub deploy_publisher : Contact → Topic → Run Deployed
    unfolding register start_thread
    deploy_publisher contact tp = do
      (e, answer) ← register (codes "registerPublisher") contact tp
      outcome ←
          if answer.code then start_thread (codes "unregisterPublisher") contact tp else ok refused
      freed ← free_response answer
      ok (record { exchange = e; outcome = outcome })

    -- `list_at(data->data->value.array,2)->value.array`
    unfoldable pub publisher_urls : RpcResponse → Run Items
    publisher_urls answer = do
      body ← deref answer.body
      l ← value_array body
      value_array (list_at l (pos 2))

    -- What follows where the master accepted a subscriber: it has the address of the publisher
    -- before its thread starts.
    unfoldable pub accept_subscriber : Contact → Topic → RpcResponse → Run (Topic × Outcome)
    unfolding publisher_urls start_thread
    accept_subscriber contact sub answer = do
      l ← publisher_urls answer
      sub' ← extract_url sub l
      outcome ← start_thread (codes "unregisterSubscriber") contact sub'
      ok (sub', outcome)

    -- One round of `stros_deploy_subscribers`: the subscriber after it.
    unfoldable pub deploy_subscriber : Contact → Topic → Run (Topic × Deployed)
    unfolding register accept_subscriber
    deploy_subscriber contact sub = do
      (e, answer) ← register (codes "registerSubscriber") contact sub
      (sub', outcome) ←
          if answer.code then accept_subscriber contact sub answer else ok (sub, refused)
      freed ← free_response answer
      ok (sub', record { exchange = e; outcome = outcome })

    -- The loop of `stros_deploy_publishers`, the contacts by the number of the round.
    unfoldable pub publishers_loop :
        (ℕ → Contact) → ℕ → List (Association Topic) → Run (List Deployed)
    unfolding deploy_publisher
    publishers_loop contacts i [] = ok []
    publishers_loop contacts i (np ∷ rest) = do
      d ← deploy_publisher (contacts i) np.value
      ds ← publishers_loop contacts (suc i) rest
      ok (d ∷ ds)

    -- The loop of `stros_deploy_subscribers`: the subscribers after it, with their keys.
    unfoldable pub subscribers_loop :
        (ℕ → Contact)
        → ℕ
        → List (Association Topic)
        → Run (List (Association Topic) × List Deployed)
    unfolding deploy_subscriber
    subscribers_loop contacts i [] = ok ([], [])
    subscribers_loop contacts i (np ∷ rest) = do
      (sub, d) ← deploy_subscriber (contacts i) np.value
      (subs, ds) ← subscribers_loop contacts (suc i) rest
      ok (record np { value = sub } ∷ subs, d ∷ ds)

  unfoldable pub stros_deploy_publishers :
      (CString → Option XmlNode)
      → RosNode
      → Option CString
      → ℕ
      → (ℕ → Contact)
      → Run (List Deployed)
  unfolding visited publishers_loop
  stros_deploy_publishers parse_xml nd api n contacts = do
    nps ← visited nd.publishers
    publishers_loop parse_xml nd api n contacts 0 nps

  unfoldable pub stros_deploy_subscribers :
      (CString → Option XmlNode)
      → RosNode
      → Option CString
      → ℕ
      → (ℕ → Contact)
      → Run (RosNode × List Deployed)
  unfolding visited subscribers_loop written_back
  stros_deploy_subscribers parse_xml nd api n contacts = do
    nps ← visited nd.subscribers
    (subs, ds) ← subscribers_loop parse_xml nd api n contacts 0 nps
    ok (written_back nd subs, ds)
