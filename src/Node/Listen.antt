-- ===== src/Node/Listen.antt =====
-- `subscriber_listener` of stros.c: the thread that asks the publisher of a topic for its address
-- and connects to it. A run interleaves its accesses with what the other threads do to the topic:
-- each test and each read of what the threads share is an access of its own. Which server the uri
-- and the port that are read lead to, be they of one address or of two, is data of the run.
pub mod Follow
pub mod Settle
pub mod Halt
pub mod Leaving
pub mod Return
use stros.Prelude.{
  ℕ, suc, zero, Bool, true, false, ◌&&◌, List, [], ◌∷◌, ◌++◌, ◌==◌, if◌then◌else◌, Option, some,
  none, Run, ok, fault, ◌>>=◌, deref, ℤ, pos, negsuc,
}
use stros.CString.{CString, codes}
use stros.ItemList.{
  Floats, Items, list_init, list_put_s, list_put_array, list_size, list_at, value_s, value_i,
  value_array,
}
use stros.Rpc.Xml.{XmlNode}
use stros.Rpc.Http.{Socket}
use stros.Request.Call.{RpcRequest, ConnectCalls, gen_rpc_call}
use stros.Request.Reply.{RpcResponse}
use stros.Request.Exchange.{Exchanged, send_post_request}
use stros.Api.Topic.{Status, active, down, refresh, Topic}
use stros.Api.Handler.{at_address}
use stros.Api.Stream.{is_up}

-- Where the thread stands: before `stros_ok()`, before the read of the status in the test of the
-- loop, before the test of `sub->uri`, before that of the status as `TOPIC_REFRESH`, before the
-- call of `send_post_request`, which reads `sub->uri` again, with its answer, before the test of
-- `ip` and `port`, or returned.
pub data Spot : Type 0 where
  looping : Spot
  status_test : Spot
  uri_test : Spot
  refresh_test : Spot
  asking : Spot
  asked : Option RpcResponse → Spot
  ready : Spot
  ended : Spot

-- `ros_ok`, the subscriber, the thread with its `ip` and `port`, and the addresses that it called
-- `tcp_ros_request` with, in order.
pub record Listener : Type 0 where
  pub ros_ok : Bool
  pub sub : Topic
  pub spot : Spot
  pub ip : Option CString
  pub port : ℤ
  pub visits : List (CString × ℤ)

-- What the world has for one access: how the connection for `requestTopic` comes about, and what
-- the publisher sends on it.
pub record Reach : Type 0 where
  pub calls : ConnectCalls
  pub peer : Socket

-- `publisherUpdate` from another thread, `stros_toggle(false)`, and an access of the thread.
pub data Happening : Type 0 where
  told : Option CString → ℤ → Happening
  halted : Happening
  moved : Reach → Happening

unfoldable pub is_refresh : Status → Bool
is_refresh refresh = true
is_refresh active = false
is_refresh down = false

abbrev pub above_zero : ℤ → Bool
above_zero (pos zero) = false
above_zero (pos (suc n)) = true
above_zero (negsuc n) = false

-- `if(ip && port > 0) tcp_ros_request(ip,port,sub);`
unfoldable pub visit : Option CString → ℤ → List (CString × ℤ) → List (CString × ℤ)
visit none port visits = visits
visit (some ip) port visits = if above_zero port then visits ++ (ip, port) ∷ [] else visits

-- `if(sub->uri)`
unfoldable pub test_uri : Listener → Option CString → Listener
test_uri s none = record s { spot = looping }
test_uri s (some uri) = record s { spot = refresh_test }

module _ ⦃fl : Floats⦄ where
  -- The parameters of the call, whose text is made once, before the loop.
  unfoldable pub request_params : Topic → Run Items
  unfolding list_put_s list_put_array
  request_params sub = do
    params ← list_put_s list_init (some sub.callerid)
    params ← list_put_s params (some sub.topic)
    l2 ← list_put_s list_init (some (codes "TCPROS"))
    ok (list_put_array params (list_put_array list_init l2))

  -- The text `xml`; `n` is what `malloc` left in `n_params`.
  unfoldable pub request_xml : Topic → ℕ → Run CString
  unfolding request_params
  request_xml sub n = do
    params ← request_params sub
    ok (gen_rpc_call (record { method = codes "requestTopic"; n_params = n; params = params }))

  -- The list that the answer holds behind its code and its text.
  unfoldable pub answer_address : RpcResponse → Run Items
  answer_address resp = do
    body ← deref resp.body
    l ← value_array body
    value_array (list_at l (pos 2))

  -- The status, `ip` and `port` from an address of three items.
  unfoldable pub take_address : Listener → Items → Run Listener
  take_address s l1 =
      if list_size l1 == 3
      then (do
        ip ← value_s (list_at l1 (pos 1))
        port ← value_i (list_at l1 (pos 2))
        ok (record s {
          sub = record s.sub { status = active };
          spot = ready;
          ip = some ip;
          port = port;
        }))
      else ok (record s { spot = ready })

  -- `if(resp && resp->code)`
  unfoldable pub take_answer : Listener → Option RpcResponse → Run Listener
  unfolding answer_address take_address
  take_answer s none = ok (record s { spot = ready })
  take_answer s (some resp) =
      if resp.code
      then (do l1 ← answer_address resp; take_address s l1)
      else ok (record s { spot = ready })

  module _ (parse_xml : CString → Option XmlNode) (xml : CString) where
    -- `send_post_request(sub->uri, sub->port, xml)`, given `sub->uri`. Where the address has been
    -- taken away since its test, `inet_aton` reads NULL, unless there is no socket before that.
    unfoldable pub ask : Reach → Option CString → Run Exchanged
    ask reach (some uri) = send_post_request parse_xml reach.calls reach.peer xml
    ask reach none = elim reach.calls.socket [
      | none ↦ send_post_request parse_xml reach.calls reach.peer xml
      | some fd ↦ fault
    ]

    -- One access of the thread.
    unfoldable pub subscriber_listener : Reach → Listener → Spot → Run Listener
    unfolding ask test_uri take_answer visit is_refresh is_up
    subscriber_listener reach s looping =
        ok (record s { spot = if s.ros_ok then status_test else ended })
    subscriber_listener reach s status_test =
        ok (record s { spot = if is_up s.sub.status then uri_test else ended })
    subscriber_listener reach s uri_test = ok (test_uri s s.sub.uri)
    subscriber_listener reach s refresh_test =
        ok (record s { spot = if is_refresh s.sub.status then asking else ready })
    subscriber_listener reach s asking = do
      e ← ask reach s.sub.uri
      ok (record s { spot = asked e.answer })
    subscriber_listener reach s (asked resp) = take_answer s resp
    subscriber_listener reach s ready =
        ok (record s { spot = looping; visits = visit s.ip s.port s.visits })
    subscriber_listener reach s ended = ok s

    unfoldable pub happen : Listener → Happening → Run Listener
    unfolding subscriber_listener at_address
    happen s (told uri port) = ok (record s { sub = at_address s.sub uri port })
    happen s halted = ok (record s { ros_ok = false })
    happen s (moved reach) = subscriber_listener reach s s.spot

    unfoldable pub happen_all : Listener → List Happening → Run Listener
    unfolding happen
    happen_all s [] = ok s
    happen_all s (h ∷ hs) = happen s h >>= λ t. happen_all t hs
