-- ===== src/Tests/Threads.antt =====
-- Runs of a publisher with several events, and of what they mean to a subscriber.
use stros.Prelude.{
  ◌+◌, ◌≡◌, ◌≤◌, refl, true, false, not, List, [], ◌∷◌, ◌++◌, ok, arith, pos, length, All,
}
use stros.CString.{CString, codes}
use stros.Utils.Hash.{hash}
use stros.Rpc.Http.Decode.{NoNul}
use stros.Api.Topic.{Topic}
use stros.Api.Data.{Sends}
use stros.Api.Connection.{closing, tcp_ros_request}
use stros.Api.Connection.Greeting.{header_of}
use stros.Api.Connection.Delivery.{frame, frames, served}
use stros.Api.Stream.{
  Stream, Event, published, stopped, connected, moved, waiting, returned, steps, publishes, fresh,
  goes_on,
}
use stros.Api.Stream.Bound.{mark, length-steps}
use stros.Api.Stream.Stop.{moves, steps-returned}
use stros.Api.Stream.Origin.{IsFrame, OfEvents, steps-IsFrame}
use stros.Api.Stream.{is_up}
use stros.Api.Stream.Exact.{turn, turns, tcp_ros_request-turns}
use stros.Api.Stream.Flow.{stream, IsWhole, IsReadable}
use stros.Api.Stream.Arrive.{tcp_ros_request-turn}
use stros.Api.Stream.{step, publish_tcp_data, update}
use stros.Api.Data.{tcp_send_data}
use stros.Node.Topics.{publish}
use stros.Tests.Setup.{one_float}
use stros.Tests.Headers.{chatter}
use stros.Api.Stream.{started}
use stros.Api.Stream.Missed.{steps_missed}
use stros.Tests.Streams.{
  is_string, chatter-IsGreeted, quiet-IsGreeted, rounds, reached, reached_socket, texts,
  texts-IsMessage,
}

abbrev quiet : Topic
quiet = record chatter { data_ok = false }

abbrev whole : Sends
whole = record { first = true; second = true; third = pos 200 }

-- A subscriber comes, a text is published and sent, the node stops.
abbrev events : List Event
events =
    connected 0
    ∷ moved 0 whole
    ∷ published (codes "hi")
    ∷ moved 0 whole
    ∷ moved 0 whole
    ∷ moved 0 whole
    ∷ moved 0 whole
    ∷ stopped
    ∷ []

length-steps_example :
    length ((steps (fresh quiet) events).conns 0).out
    ≤ publishes events
      + mark (not (goes_on (steps (fresh quiet) events).ros_ok (steps (fresh quiet) events).topic))
length-steps_example = length-steps quiet events 0 refl

AnySends : Sends → Type 0
AnySends sends = Unit

events_plain : OfEvents NoNul AnySends events
unfolding AnySends
events_plain = (tt, (ground arith, (tt, (tt, (tt, (tt, tt))))))

-- Two connections that wait.
abbrev both_wait : Stream
both_wait = steps (fresh quiet) (connected 0 ∷ connected 1 ∷ [])

steps-IsFrame_example : All (IsFrame NoNul AnySends) ((steps (fresh quiet) events).conns 0).out
steps-IsFrame_example = steps-IsFrame NoNul AnySends quiet events 0 (ground arith) events_plain

whole-IsWhole : IsWhole whole
whole-IsWhole = record {
  first = refl;
  second = refl;
  room = 200;
  third = refl;
  enough = omega arith;
}

hi-IsReadable : IsReadable NoNul (codes "hi")
hi-IsReadable = (record { small = omega arith; plain = ground arith }, ground arith)

hello-IsReadable : IsReadable NoNul (codes "hello")
hello-IsReadable = (record { small = omega arith; plain = ground arith }, ground arith)

events-IsReadable : OfEvents (IsReadable NoNul) IsWhole events
events-IsReadable = (
  whole-IsWhole,
  (hi-IsReadable, (whole-IsWhole, (whole-IsWhole, (whole-IsWhole, (whole-IsWhole, tt))))),
)

-- A run that leaves a subscriber waiting behind a first text.
abbrev before : List Event
before =
    connected 0
    ∷ published (codes "hi")
    ∷ moved 0 whole
    ∷ moved 0 whole
    ∷ moved 0 whole
    ∷ moved 0 whole
    ∷ []

before-IsReadable : OfEvents (IsReadable NoNul) IsWhole before
before-IsReadable =
    (hi-IsReadable, (whole-IsWhole, (whole-IsWhole, (whole-IsWhole, (whole-IsWhole, tt)))))

tcp_ros_request-turn_example :
    let u = steps (steps (fresh quiet) before) (turn 0 whole (codes "hello") []) in
    (texts : List CString) × (tcp_ros_request ⦃fl = one_float⦄ chatter reached false
        (codes "old")
        rounds
        (header_of ⦃fl = one_float⦄ quiet ++ stream (u.conns 0).out)
      ≡ ok (record {
        sent = header_of ⦃fl = one_float⦄ chatter;
        delivered = served rounds (texts ++ codes "hello" ∷ []);
        closed = closing (served rounds (texts ++ codes "hello" ∷ [])) 7;
      }))
    × All NoNul texts
    × (length texts ≤ publishes before)
unfolding steps step fresh update started goes_on is_up publish_tcp_data publish tcp_send_data hash
tcp_ros_request-turn_example =
    tcp_ros_request-turn NoNul ⦃fl = one_float⦄ quiet chatter before 0 whole (codes "hello") reached
      7 false (codes "old") rounds refl hello-IsReadable before-IsReadable refl refl whole-IsWhole
      hello-IsReadable.0 quiet-IsGreeted chatter-IsGreeted refl refl is_string reached_socket

steps_missed_example :
    (((steps both_wait (turn 0 whole (codes "hi") [])).conns 0).out
      ≡ (both_wait.conns 0).out ++ frame (codes "hi") ∷ [])
    × ((steps both_wait (
            published (codes "hi")
            ∷ moved 0 whole
            ∷ moved 0 whole
            ∷ moved 1 whole
            ∷ moved 0 whole
            ∷ [])).conns
          1
        ≡ both_wait.conns 1)
unfolding steps step fresh update started goes_on is_up
steps_missed_example =
    steps_missed both_wait 0 1 (codes "hi") whole (moved 1 whole ∷ moved 0 whole ∷ []) refl
      (refl, refl, refl) (refl, refl, refl) is_string whole-IsWhole (omega arith) tt

-- What the run put on the connection.
sent_hi : stream ((steps (fresh quiet) events).conns 0).out ≡ frames (codes "hi" ∷ [])
unfolding steps step publish_tcp_data publish stream frames tcp_send_data hash update fresh
sent_hi = refl

abbrev at_wait : Stream
at_wait = record {
  ros_ok = false;
  topic = quiet;
  conns = λ i. record { place = waiting; out = [] };
}

abbrev four : List Event
four = moved 3 whole ∷ moved 3 whole ∷ published (codes "x") ∷ moved 3 whole ∷ moved 3 whole ∷ []

over : goes_on at_wait.ros_ok at_wait.topic ≡ false
unfolding goes_on
over = refl

enough : 4 ≤ moves 3 four
unfolding moves
enough = omega arith

steps-returned_example : ((steps at_wait four).conns 3).place ≡ returned
steps-returned_example = steps-returned at_wait four 3 over (λ e. cc) enough

chatter_goes : goes_on true quiet ≡ true
unfolding goes_on is_up
chatter_goes = refl

tcp_ros_request-turns_example :
    let out = ((steps (fresh quiet) (connected 0 ∷ turns 0 whole texts)).conns 0).out in
    (stream out ≡ frames texts)
    × (tcp_ros_request ⦃fl = one_float⦄ chatter reached false
          (codes "old")
          rounds
          (header_of ⦃fl = one_float⦄ quiet ++ stream out)
        ≡ ok (record {
          sent = header_of ⦃fl = one_float⦄ chatter;
          delivered = served rounds texts;
          closed = closing (served rounds texts) 7;
        }))
tcp_ros_request-turns_example =
    tcp_ros_request-turns ⦃fl = one_float⦄ quiet chatter 0 whole texts reached 7 false (codes "old")
      rounds chatter_goes whole-IsWhole texts-IsMessage quiet-IsGreeted chatter-IsGreeted refl refl
      is_string reached_socket
