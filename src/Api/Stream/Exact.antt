-- ===== src/Api/Stream/Exact.antt =====
-- Texts that are published one at a time, each sent before the next.
use stros.Prelude.{
  ℕ, ◌<◌, ◌≡◌, refl, ◌∙◌, ap, Bool, true, false, List, [], ◌∷◌, ◌++◌, append-nil, append_assoc,
  ◌==◌, ==_iff, some, ok, length, pos, All,
}
use stros.CString.{CString}
use stros.Utils.Hash.{header_hash_size, hash}
use stros.ItemList.{Floats}
use stros.Request.Call.{ConnectCalls, request_socket}
use stros.Api.Types.{type_string}
use stros.Api.Topic.{Topic}
use stros.Api.Data.{Sends, tcp_send_string, tcp_send_data}
use stros.Api.Connection.{Round, closing, tcp_ros_request}
use stros.Api.Connection.Greeting.{header_of, IsGreeted}
use stros.Api.Connection.Delivery.{frame, frames, served, IsMessage}
use stros.Api.Connection.Transfer.{tcp_ros_request-frames}
use stros.Node.Topics.{publish}
use stros.Api.Stream.{
  Conn, Stream, Event, published, connected, moved, absent, fresh, started, waiting, marking,
  sending, testing, goes_on, publish_tcp_data, step, steps,
}
use stros.Api.Stream.Bound.{update_at}
use stros.Api.Stream.Flow.{stream, IsWhole, tcp_send_string-IsWhole}

-- A text is published and the thread of a connection goes once through its loop.
abbrev pub turn : ℕ → Sends → CString → List Event → List Event
turn i sends text es =
    published text ∷ moved i sends ∷ moved i sends ∷ moved i sends ∷ moved i sends ∷ es

unfoldable pub turns : ℕ → Sends → List CString → List Event
turns i sends [] = []
turns i sends (text ∷ texts) = turn i sends text (turns i sends texts)

module _ (i : ℕ) (ros_ok : Bool) where
  -- The node, the topic and one connection of a state.
  record At (tp : Topic) (c : Conn) (s : Stream) : Type 0 where
    ok_is : s.ros_ok ≡ ros_ok
    topic_is : s.topic ≡ tp
    conn_is : s.conns i ≡ c

  same_index : (i == i) ≡ true
  same_index = (==_iff i i).1 refl

  At-published :
      (tp : Topic) (c : Conn) (s : Stream) (text : CString)
      → At tp c s
      → At (publish tp text) c (step s (published text))
  unfolding step
  At-published tp c s text h = record {
    ok_is = h.ok_is;
    topic_is = ap (λ t. publish t text) h.topic_is;
    conn_is = h.conn_is;
  }

  At-moved :
      (tp : Topic) (c : Conn) (s : Stream) (sends : Sends)
      → At tp c s
      → let r = publish_tcp_data sends ros_ok tp c c.place in At r.0 r.1 (step s (moved i sends))
  unfolding step
  At-moved tp c s sends h =
      let r : publish_tcp_data sends s.ros_ok s.topic (s.conns i) (s.conns i).place
          ≡ publish_tcp_data sends ros_ok tp c c.place =
        rw (h.ok_is, h.topic_is, h.conn_is) refl in
      record {
        ok_is = h.ok_is;
        topic_is = ap (λ x. x.0) r;
        conn_is = update_at s.conns i i _ same_index ∙ ap (λ x. x.1) r;
      }

  abbrev with_text : Topic → CString → Topic
  with_text tp text = record tp { data_ok = false; payload = some text }

  abbrev at_wait : List CString → Conn
  at_wait out = record { place = waiting; out = out }

  tcp_send_data-with_text :
      (tp : Topic) (text : CString) (sends : Sends) (w : IsWhole sends)
      → hash tp.type header_hash_size ≡ type_string
      → length text < 128
      → tcp_send_data sends (with_text tp text) ≡ (frame text, pos w.room)
  unfolding tcp_send_data
  tcp_send_data-with_text tp text sends w string small =
      let bytes = tcp_send_string-IsWhole sends text w small in
      let result : (tcp_send_string sends text).1 ≡ pos w.room =
        unfold tcp_send_string in rw (w.first, w.second) w.third in
      rw string (rw (← bytes, ← result) refl)

  At-turn :
      (tp : Topic) (out : List CString) (s : Stream) (sends : Sends) (text : CString)
      → At tp (at_wait out) s
      → goes_on ros_ok tp ≡ true
      → hash tp.type header_hash_size ≡ type_string
      → IsWhole sends
      → length text < 128
      → At (with_text tp text) (at_wait (out ++ frame text ∷ [])) (steps s (turn i sends text []))
  unfolding steps publish publish_tcp_data goes_on
  At-turn tp out s sends text h goes string w small =
      let h1 = At-published tp (at_wait out) s text h in
      let h2 = At-moved (publish tp text) (at_wait out) _ sends h1 in
      let h3 = At-moved (publish tp text) (record { place = marking; out = out }) _ sends h2 in
      let h4 = At-moved (with_text tp text) (record { place = sending; out = out }) _ sends h3 in
      let sent = tcp_send_data-with_text tp text sends w string small in
      let h4' : At (with_text tp text)
          (record { place = testing true; out = out ++ frame text ∷ [] })
          (steps s (published text ∷ moved i sends ∷ moved i sends ∷ moved i sends ∷ [])) =
        rw sent at h4 in
      let h5 =
        At-moved (with_text tp text) (record { place = testing true; out = out ++ frame text ∷ [] })
          _ sends h4' in
      rw goes at h5

  framed : List CString → List CString
  framed [] = []
  framed (text ∷ texts) = frame text ∷ framed texts

  At-turns :
      (tp : Topic) (out : List CString) (s : Stream) (sends : Sends) (texts : List CString)
      → At tp (at_wait out) s
      → goes_on ros_ok tp ≡ true
      → hash tp.type header_hash_size ≡ type_string
      → IsWhole sends
      → All IsMessage texts
      → (tp' : Topic) × At tp' (at_wait (out ++ framed texts)) (steps s (turns i sends texts))
  unfolding steps turns goes_on framed
  At-turns tp out s sends [] h goes string w small = (tp, rw append-nil h)
  At-turns tp out s sends (text ∷ texts) h goes string w (m, ms) =
      let here = At-turn tp out s sends text h goes string w m.small in
      let (tp', rest) =
        At-turns (with_text tp text) (out ++ frame text ∷ []) (steps s (turn i sends text [])) sends
          texts here goes string w ms in
      (tp', rw (append_assoc out (frame text ∷ []) (framed texts)) at rest)

  stream-framed : (texts : List CString) → stream (framed texts) ≡ frames texts
  unfolding stream frames framed
  stream-framed [] = refl
  stream-framed (text ∷ texts) = ap (λ r. frame text ++ r) (stream-framed texts)

-- What a turn adds to what a connection was sent.
pub turn-out :
    (s : Stream) (i : ℕ) (sends : Sends) (text : CString)
    → (s.conns i).place ≡ waiting
    → goes_on s.ros_ok s.topic ≡ true
    → hash s.topic.type header_hash_size ≡ type_string
    → IsWhole sends
    → length text < 128
    → ((steps s (turn i sends text [])).conns i).out ≡ (s.conns i).out ++ frame text ∷ []
turn-out s i sends text at goes string w small =
    let waits : At i s.ros_ok s.topic (at_wait i s.ros_ok (s.conns i).out) s = record {
      ok_is = refl;
      topic_is = refl;
      conn_is = ap (λ p. record (s.conns i) { place = p }) at;
    } in
    ap (λ c. c.out)
      (At-turn i s.ros_ok s.topic (s.conns i).out s sends text waits goes string w small).conn_is

At-connected :
    (i : ℕ) (tp : Topic) → At i true tp (at_wait i true []) (step (fresh tp) (connected i))
unfolding step fresh started
At-connected i tp = record {
  ok_is = refl;
  topic_is = refl;
  conn_is = update_at (λ j. record { place = absent; out = [] }) i i _ (same_index i true);
}

-- Every text arrives, once and in order, where the publisher waits for each to be sent: after a
-- subscriber has connected, a run that publishes texts, each followed by one way of the
-- connection's thread through its loop, puts exactly their frames on the connection, and the
-- subscriber that receives them gives its callback exactly these texts, until it is stopped, and
-- the empty one at the end, as `served` says. This is for a node that goes on, a run in which no
-- other connection of the topic moves, texts of fewer than 128 bytes, none of them NUL, of the
-- type of strings, for sends that take what they are given, and for a connection that is made
-- between two topics of one name and type that a header can carry.
pub tcp_ros_request-turns :
    ⦃fl : Floats⦄ (tp sub : Topic) (i : ℕ) (sends : Sends) (texts : List CString)
    (calls : ConnectCalls) (fd : ℕ) (timed_out : Bool) (junk : CString) (rounds : List Round)
    → goes_on true tp ≡ true
    → IsWhole sends
    → All IsMessage texts
    → IsGreeted tp
    → IsGreeted sub
    → tp.topic ≡ sub.topic
    → tp.type ≡ sub.type
    → hash sub.type header_hash_size ≡ type_string
    → request_socket calls ≡ (some fd, [])
    → let out = ((steps (fresh tp) (connected i ∷ turns i sends texts)).conns i).out in
      (stream out ≡ frames texts)
      × (tcp_ros_request sub calls timed_out junk rounds (header_of tp ++ stream out)
          ≡ ok (record {
            sent = header_of sub;
            delivered = served rounds texts;
            closed = closing (served rounds texts) fd;
          }))
unfolding steps
tcp_ros_request-turns tp sub i sends texts calls fd timed_out junk rounds goes w ms ht hs same_topic
      same_type string connects =
    let its_type : hash tp.type header_hash_size ≡ type_string = rw same_type string in
    let (tp', at) =
      At-turns i true tp [] (step (fresh tp) (connected i)) sends texts (At-connected i tp) goes
        its_type w ms in
    let same = ap (λ c. stream c.out) at.conn_is ∙ stream-framed i true texts in
    (
      same,
      rw same (
          tcp_ros_request-frames tp sub calls fd timed_out junk rounds texts ht hs same_topic
            same_type string connects ms),
    )
