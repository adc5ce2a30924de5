-- ===== src/Tests/Serving.antt =====
-- A run of the listener of a publisher.
use stros.Prelude.{
  ◌≡◌, refl, true, false, List, [], ◌∷◌, Option, some, none, ok, fault, pos, replicate,
}
use stros.CString.{codes, equ}
use stros.Utils.Hash.{hash}
use stros.ItemList.{Items, string, null, node, list_at, value_s}
use stros.Dictionary.{Buckets, dvalue, dput}
use stros.Dictionary.Validity.{IsValid, empty_table, dict-IsValid, PointsToValid, dput-IsValid}
use stros.Rpc.Http.Message.{response_text}
use stros.Api.Topic.{Topic, RosNode}
use stros.Api.Handler.{sends, request_topic}
use stros.Node.Master.{StartupCalls, socket_startup}
use stros.Node.Serve.{Poll, serving, listens, listening_at, publisher_listener}
use stros.Node.Serve.Address.{accepts_of, with_publisher, request_topic-publisher_listener}
use stros.Tests.Setup.{one_float}
use stros.Tests.Headers.{chatter, nd}
use stros.Tests.Listening.{answer_message, reached, parser}

-- A publisher without an address.
abbrev unplaced : Topic
unplaced = record chatter { uri = none; port = pos 0 }

abbrev no_topics : Buckets Topic
no_topics = empty_table

unfoldable unplaced_topics : Buckets Topic
unplaced_topics = elim (dput true chatter (some no_topics) (codes "/chatter") unplaced).0 [
  | none ↦ no_topics
  | some dic ↦ dic
]

unplaced_topics-IsValid : IsValid unplaced_topics
unfolding unplaced_topics
unplaced_topics-IsValid =
    of_pointer (dput true chatter (some no_topics) (codes "/chatter") unplaced).0
      (dput-IsValid no_topics (codes "/chatter") true chatter unplaced dict-IsValid.1)
  where
    of_pointer :
        (p : Option (Buckets Topic))
        → PointsToValid p
        → IsValid (elim p [ none ↦ no_topics | some dic ↦ dic ])
    of_pointer none h = absurd h
    of_pointer (some dic) h = h

unplaced_known : dvalue (some unplaced_topics) (codes "/chatter") ≡ some unplaced
unfolding unplaced_topics dput dvalue replicate hash equ empty_table
unplaced_known = refl

abbrev early : RosNode
early = record nd { publishers = some unplaced_topics }

abbrev params : Items
params = node (string (codes "/n")) (node (string (codes "/chatter")) null)

named : value_s (list_at params (pos 1)) ≡ ok (codes "/chatter")
unfolding value_s list_at
named = refl

abbrev startup : StartupCalls
startup = record { socket = some 3; bind = true; name = some 5000; listen = true }

started : socket_startup startup 0 ≡ (some 3, 5000)
unfolding socket_startup
started = refl

abbrev rounds : List Poll
rounds =
    record { goes_on = true; selected = true; is_set = true; accepted = some 8; thread = true }
    ∷ record { goes_on = false; selected = true; is_set = false; accepted = none; thread = true }
    ∷ []

request_topic-publisher_listener_example :
    let placed = listening_at unplaced (codes "10.0.0.7") 5000 in
    (request_topic ⦃fl = one_float⦄ early params 3 ≡ fault)
    × (publisher_listener ⦃fl = one_float⦄ parser startup reached [] unplaced none 0
          (codes "10.0.0.7")
          rounds
        ≡ ok (listens placed (serving 3 5000 (accepts_of rounds))))
    × (request_topic ⦃fl = one_float⦄ (with_publisher early (codes "/chatter") placed) params 3
        ≡ ok (with_publisher early (codes "/chatter") placed, sends (response_text answer_message)))
request_topic-publisher_listener_example =
    request_topic-publisher_listener ⦃fl = one_float⦄ parser early unplaced_topics params
      (codes "/chatter") (codes "10.0.0.7") unplaced startup reached [] none 0 3 4999 rounds refl
      unplaced_topics-IsValid.wide named unplaced_known refl started
