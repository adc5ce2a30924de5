-- ===== src/Api/Stream.antt =====
-- A publisher at work: `publish` of stros.c and the loop of `publish_tcp_data` of api.c, one thread
-- for each connection, over one topic. An event is one atomic access; a run is any list of events.
-- The three reads of the wait are one access: what they read changes in one direction each while
-- the thread waits.
pub mod Bound
pub mod Stop
pub mod Origin
pub mod Flow
pub mod Exact
pub mod Arrive
pub mod Missed
use stros.Prelude.{
  ℕ, zero, suc, ◌+◌, Bool, true, false, ◌&&◌, not, List, [], ◌∷◌, ◌++◌, ◌==◌, if◌then◌else◌, Option,
  none, some, ℤ, pos, negsuc,
}
use stros.CString.{CString}
use stros.Rpc.Http.{is_minus_one}
use stros.Api.Topic.{Status, active, down, refresh, Topic}
use stros.Api.Data.{Sends, tcp_send_data}
use stros.Node.Topics.{publish}

-- Where the thread of a connection stands: before the wait, before the lock that takes the mark
-- off, before `tcp_send_data`, before the test of the loop (with whether it sent), or returned.
pub data Place : Type 0 where
  absent : Place
  waiting : Place
  marking : Place
  sending : Place
  testing : Bool → Place
  returned : Place

-- A connection: where its thread stands, and what each call of `tcp_send_data` put on its socket.
pub record Conn : Type 0 where
  pub place : Place
  pub out : List CString

-- `ros_ok`, the topic, and the connections by number.
pub record Stream : Type 0 where
  pub ros_ok : Bool
  pub topic : Topic
  pub conns : ℕ → Conn

-- `publish`, `stros_toggle(false)`, the start of the thread of a connection after the headers, and
-- an access of a thread, with how its sends would end.
pub data Event : Type 0 where
  published : CString → Event
  stopped : Event
  connected : ℕ → Event
  moved : ℕ → Sends → Event

-- The status as a condition.
unfoldable pub is_up : Status → Bool
is_up active = true
is_up refresh = true
is_up down = false

-- `stros_ok() && conn->pub->status`
unfoldable pub goes_on : Bool → Topic → Bool
unfolding is_up
goes_on ros_ok tp = ros_ok && is_up tp.status

-- `stros_toggle`
unfoldable pub stros_toggle : Bool → Stream → Stream
stros_toggle value s = record s { ros_ok = value }

-- One access of the thread.
unfoldable pub publish_tcp_data : Sends → Bool → Topic → Conn → Place → Topic × Conn
unfolding goes_on
publish_tcp_data sends ros_ok tp c absent = (tp, c)
publish_tcp_data sends ros_ok tp c waiting =
    if not tp.data_ok && goes_on ros_ok tp then (tp, c) else (tp, record c { place = marking })
publish_tcp_data sends ros_ok tp c marking =
    (record tp { data_ok = false }, record c { place = sending })
publish_tcp_data sends ros_ok tp c sending =
    let (bytes, result) = tcp_send_data sends tp in
    (tp, record { place = testing (not (is_minus_one result)); out = c.out ++ bytes ∷ [] })
publish_tcp_data sends ros_ok tp c (testing sent) =
    (tp, record c { place = if goes_on ros_ok tp && sent then waiting else returned })
publish_tcp_data sends ros_ok tp c returned = (tp, c)

unfoldable pub started : Place → Place
started absent = waiting
started p = p

unfoldable pub update : (ℕ → Conn) → ℕ → Conn → ℕ → Conn
update conns i c j = if i == j then c else conns j

unfoldable pub step : Stream → Event → Stream
unfolding publish_tcp_data update started stros_toggle publish
step s (published msg) = record s { topic = publish s.topic msg }
step s stopped = stros_toggle false s
step s (connected i) = record s {
  conns = update s.conns i (record (s.conns i) { place = started (s.conns i).place });
}
step s (moved i sends) =
    let (tp, c) = publish_tcp_data sends s.ros_ok s.topic (s.conns i) (s.conns i).place in
    record s { topic = tp; conns = update s.conns i c }

unfoldable pub steps : Stream → List Event → Stream
unfolding step
steps s [] = s
steps s (e ∷ es) = steps (step s e) es

-- How often a run calls `publish`.
unfoldable pub publishes : List Event → ℕ
publishes [] = 0
publishes (published msg ∷ es) = suc (publishes es)
publishes (e ∷ es) = publishes es

-- A topic with no connection yet, as `stros_node_deploy` finds it.
unfoldable pub fresh : Topic → Stream
fresh tp = record { ros_ok = true; topic = tp; conns = λ i. record { place = absent; out = [] } }
