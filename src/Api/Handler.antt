-- ===== src/Api/Handler.antt =====
-- The calls that a node answers: `xml_rpc_api_handler`, `publisherUpdate`, `extract_url` and
-- `requestTopic` of api.c. The dictionaries hold pointers to the topics, so a change through one is
-- a change of the value under its key.
pub mod Urls
pub mod Answers
use stros.Prelude.{
  ℕ, Bool, true, false, [], ◌∷◌, ◌++◌, ◌==◌, if◌then◌else◌, Option, none, some, Run, ok, fault,
  ◌>>=◌, ℤ, pos,
}
use stros.CString.{CString, codes, decimal, int_range}
use stros.Utils.Hash.{header_hash_size, hash}
use stros.ItemList.{
  Floats, Items, list_init, list_size, list_at, list_put_i, list_put_s, list_put_array, value_s,
  value_i, value_array,
}
use stros.ItemList.Split.{split}
use stros.Dictionary.{Buckets, dvalue, write_value}
use stros.Rpc.Http.Message.{response_text}
use stros.Request.Call.{RpcRequest}
use stros.Request.Reply.{gen_rpc_response}
use stros.Api.Topic.{Status, refresh, Topic, RosNode}

-- What goes out to the caller: `rpc_bad_request`, `rpc_dummy_response`, a text, or nothing.
pub data Reply : Type 0 where
  bad_request : Reply
  dummy_response : Reply
  sends : CString → Reply
  silent : Reply

abbrev pub rq_publisher_update : ℕ
rq_publisher_update = 485

abbrev pub rq_request_topic : ℕ
rq_request_topic = 992

-- The subscriber with its publisher's address; the status makes its listener connect again.
unfoldable pub at_address : Topic → Option CString → ℤ → Topic
at_address sub uri port = record sub { uri = uri; port = port; status = refresh }

-- The dictionary with the topic that its pointer under a key leads to changed.
unfoldable pub change : Option (Buckets Topic) → CString → Topic → Option (Buckets Topic)
unfolding write_value
change none key tp = none
change (some dic) key tp = some (write_value dic key tp)

unfoldable pub with_subscriber : RosNode → CString → Topic → RosNode
unfolding change
with_subscriber nd key tp = record nd { subscribers = change nd.subscribers key tp }

-- `"ready on %s:%d"`
unfoldable pub ready_on : CString → ℤ → CString
ready_on uri port = codes "ready on " ++ (uri ++ b':' ∷ decimal port)

unfoldable pub ready_text : Topic → Option CString
ready_text tp = elim tp.uri [ none ↦ none | some uri ↦ some (ready_on uri tp.port) ]

module _ ⦃fl : Floats⦄ where
  -- `extract_url` on a list that is not empty. The port comes of the `atoi` within `split`.
  unfoldable pub first_url : Topic → Items → Run Topic
  unfolding at_address int_range
  first_url sub l = do
    url ← value_s (list_at l (pos 0))
    let l1 = split (some url) (some (codes "/"))
    url1 ← value_s (list_at l1 (pos 1))
    let l2 = split (some url1) (some (codes ":"))
    uri ← value_s (list_at l2 (pos 0))
    number ← value_i (list_at l2 (pos 1))
    port ← int_range number
    ok (at_address sub (some uri) port)

  unfoldable pub extract_url : Topic → Items → Run Topic
  unfolding first_url
  extract_url sub l = if list_size l == 0 then ok (at_address sub none (pos 0)) else first_url sub l

  -- `publisherUpdate`, given the subscriber that `dvalue` found.
  unfoldable pub update_found : RosNode → Items → CString → Option Topic → Run (RosNode × Reply)
  unfolding with_subscriber
  update_found nd params topic none = ok (nd, bad_request)
  update_found nd params topic (some sub) = do
    l ← value_array (list_at params (pos 2))
    sub1 ← extract_url sub l
    ok (with_subscriber nd topic sub1, dummy_response)

  unfoldable pub publisher_update : RosNode → Items → Run (RosNode × Reply)
  unfolding update_found
  publisher_update nd params = do
    topic ← value_s (list_at params (pos 1))
    update_found nd params topic (dvalue nd.subscribers topic)

  -- The list `l2` of `requestTopic`; `pub->uri` may be NULL.
  unfoldable pub tcpros_address : Topic → Run Items
  unfolding list_put_s list_put_i list_init
  tcpros_address tp = do
    l2 ← list_put_s list_init (some (codes "TCPROS"))
    l2 ← list_put_s l2 tp.uri
    ok (list_put_i l2 tp.port)

  -- The list `l`.
  unfoldable pub topic_answer : Topic → Run Items
  unfolding tcpros_address ready_text
  topic_answer tp = do
    l2 ← tcpros_address tp
    l1 ← list_put_s (list_put_i list_init (pos 1)) (ready_text tp)
    ok (list_put_array list_init (list_put_array l1 l2))

  unfoldable pub topic_found : Option Topic → Run Reply
  unfolding topic_answer gen_rpc_response response_text
  topic_found none = ok bad_request
  topic_found (some tp) = do l ← topic_answer tp; ok (sends (response_text (gen_rpc_response l)))

  unfoldable pub request_topic : RosNode → Items → ℕ → Run (RosNode × Reply)
  unfolding topic_found
  request_topic nd params n =
      if n == 3
      then (do
        topic ← value_s (list_at params (pos 1))
        reply ← topic_found (dvalue nd.publishers topic)
        ok (nd, reply))
      else ok (nd, bad_request)

  -- `xml_rpc_api_handler`; the method of a request is never NULL.
  unfoldable pub xml_rpc_api_handler : RosNode → RpcRequest → Run (RosNode × Reply)
  unfolding publisher_update request_topic hash
  xml_rpc_api_handler nd request =
      if hash request.method header_hash_size == rq_publisher_update
      then publisher_update nd request.params
      else if hash request.method header_hash_size == rq_request_topic
      then request_topic nd request.params request.n_params
      else ok (nd, silent)
