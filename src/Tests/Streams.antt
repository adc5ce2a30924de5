-- ===== src/Tests/Streams.antt =====
-- Runs of TCPROS connections.
use stros.Prelude.{◌≡◌, refl, true, false, List, [], ◌∷◌, ◌++◌, some, ok, arith, length, All}
use stros.CString.{CString, codes}
use stros.Utils.Hash.{header_hash_size, hash}
use stros.Request.Call.{ConnectCalls, request_socket}
use stros.Api.Types.{type_string}
use stros.Api.Header.{header_fields, gen_tcp_header_for}
use stros.Api.Connection.{
  Round, Session, closing, greet_subscriber, greet_publisher, tcp_ros_request,
}
use stros.Api.Connection.Greeting.{IsGreeted, header_of, greet_publisher-greet_subscriber}
use stros.Api.Connection.Delivery.{IsMessage, frames, served}
use stros.Api.Connection.Transfer.{tcp_ros_request-frames, tcp_ros_request-closed}
use stros.Tests.Setup.{one_float}
use stros.Tests.Headers.{std_string, chatter, chatter-IsAnnounced}

pub is_string : hash std_string header_hash_size ≡ type_string
unfolding hash
is_string = refl

pub chatter-IsGreeted : IsGreeted ⦃fl = one_float⦄ chatter
chatter-IsGreeted = record {
  announced = chatter-IsAnnounced;
  known = λ e. omega (arith, is_string, e);
}

pub quiet-IsGreeted : IsGreeted ⦃fl = one_float⦄ (record chatter { data_ok = false })
quiet-IsGreeted = record {
  announced = record {
    callerid = chatter-IsAnnounced.callerid;
    short_callerid = chatter-IsAnnounced.short_callerid;
    topic = chatter-IsAnnounced.topic;
    topic_text = chatter-IsAnnounced.topic_text;
    short_topic = chatter-IsAnnounced.short_topic;
    type = chatter-IsAnnounced.type;
    type_text = chatter-IsAnnounced.type_text;
    short_type = chatter-IsAnnounced.short_type;
  };
  known = chatter-IsGreeted.known;
}

greet_publisher-greet_subscriber_example :
    (gen_tcp_header_for chatter ≡ ok (header_of ⦃fl = one_float⦄ chatter))
    × (greet_subscriber ⦃fl = one_float⦄ chatter true
          (codes "old")
          9
          (header_of ⦃fl = one_float⦄ chatter ++ [])
        ≡ ok (some (header_of ⦃fl = one_float⦄ chatter), []))
    × (greet_publisher ⦃fl = one_float⦄ chatter false
          (codes "x")
          0
          (header_of ⦃fl = one_float⦄ chatter ++ codes "more")
        ≡ ok
            (some (hash std_string header_hash_size), length (header_fields chatter), codes "more"))
greet_publisher-greet_subscriber_example =
    greet_publisher-greet_subscriber ⦃fl = one_float⦄ chatter chatter true false (codes "old")
      (codes "x") 9 0 [] (codes "more") chatter-IsGreeted chatter-IsGreeted refl refl

abbrev going : Round
going = record { timed_out = false; goes_on = true }

abbrev pub rounds : List Round
rounds = going ∷ going ∷ going ∷ []

abbrev pub texts : List CString
texts = codes "hi" ∷ codes "there" ∷ []

pub texts-IsMessage : All IsMessage texts
texts-IsMessage = (
  record { small = omega arith; plain = ground arith },
  (record { small = omega arith; plain = ground arith }, tt),
)

-- The empty text behind the last message.
served_texts : (served rounds texts).given ≡ codes "hi" ∷ codes "there" ∷ [] ∷ []
unfolding served
served_texts = refl

abbrev pub reached : ConnectCalls
reached = record { socket = some 7; aton = true; connect = true }

pub reached_socket : request_socket reached ≡ (some 7, [])
unfolding request_socket
reached_socket = refl

abbrev session : Session
session = record {
  sent = header_of ⦃fl = one_float⦄ chatter;
  delivered = served rounds texts;
  closed = closing (served rounds texts) 7;
}

abbrev wire : CString
wire = header_of ⦃fl = one_float⦄ chatter ++ frames texts

tcp_ros_request-frames_example :
    tcp_ros_request ⦃fl = one_float⦄ chatter reached false (codes "old") rounds wire ≡ ok session
tcp_ros_request-frames_example =
    tcp_ros_request-frames ⦃fl = one_float⦄ chatter chatter reached 7 false (codes "old") rounds
      texts chatter-IsGreeted chatter-IsGreeted refl refl is_string reached_socket texts-IsMessage

session_run :
    tcp_ros_request ⦃fl = one_float⦄ chatter reached false (codes "old") rounds wire ≡ ok session
session_run =
    tcp_ros_request-frames ⦃fl = one_float⦄ chatter chatter reached 7 false (codes "old") rounds
      texts chatter-IsGreeted chatter-IsGreeted refl refl is_string reached_socket texts-IsMessage

session_ended : session.delivered.ended ≡ true
unfolding served
session_ended = refl

tcp_ros_request-closed_example : session.closed ≡ 7 ∷ []
tcp_ros_request-closed_example =
    tcp_ros_request-closed ⦃fl = one_float⦄ chatter reached false (codes "old") rounds wire 7
      session refl session_run session_ended
