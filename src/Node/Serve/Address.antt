-- ===== src/Node/Serve/Address.antt =====
-- The accept loops as a whole, and the address that a publisher has before and after its listener.
use stros.Prelude.{
  ℕ, suc, ◌≡◌, refl, ◌∙◌, ap, Bool, true, false, not, ◌&&◌, List, [], ◌∷◌, ◌==◌, Option, some, none,
  ok, fault, pos, arith, if◌then◌else◌,
}
use stros.CString.{CString}
use stros.CString.Compare.{equ_refl}
use stros.Dictionary.{Buckets, dvalue}
use stros.Dictionary.Lookup.{IsWide, dvalue-write_value}
use stros.Api.Handler.Urls.{found_node}
use stros.ItemList.{Floats, Items, list_at, value_s, list_init}
use stros.Rpc.Xml.{XmlNode}
use stros.Rpc.Http.{Socket}
use stros.Rpc.Http.Message.{response_text}
use stros.Request.Call.{ConnectCalls}
use stros.Request.Reply.{gen_rpc_response}
use stros.Api.Topic.{Topic, RosNode}
use stros.Api.Handler.{sends, change, topic_answer, topic_found, request_topic}
use stros.Api.Handler.Answers.{address_answer, request_topic-address_answer}
use stros.Node.Master.{StartupCalls, socket_startup}
use stros.Node.Serve.{
  Poll, Accepts, take_client, accept_round, accept_loop, serving, xmlprc_run, listens, listening_at,
  publisher_listener,
}

-- The rounds before the first whose test fails.
unfoldable pub rounds_before : List Poll → List Poll
rounds_before [] = []
rounds_before (r ∷ rounds) = let rest = rounds_before rounds in if r.goes_on then r ∷ rest else []

abbrev client_of : Option ℕ → List ℕ → List ℕ
client_of none rest = rest
client_of (some client) rest = client ∷ rest

-- The connections that come in, of the rounds chosen by whether their thread can be made.
unfoldable pub clients : (Bool → Bool) → List Poll → List ℕ
clients which [] = []
clients which (r ∷ rounds) =
    let rest = clients which rounds in
    if r.selected && r.is_set && which r.thread then client_of r.accepted rest else rest

unfoldable pub all_go_on : List Poll → Bool
all_go_on [] = true
all_go_on (r ∷ rounds) = r.goes_on && all_go_on rounds

-- The loop without its steps.
abbrev pub accepts_of : List Poll → Accepts
accepts_of rounds = record {
  handed = clients (λ thread. thread) (rounds_before rounds);
  lost = clients not (rounds_before rounds);
  ended = not (all_go_on rounds);
}

abbrev round : Bool → Bool → Bool → Option ℕ → Bool → Poll
round goes_on selected is_set accepted thread = record {
  goes_on = goes_on;
  selected = selected;
  is_set = is_set;
  accepted = accepted;
  thread = thread;
}

accept_round-accepts_of :
    (g s i : Bool) (a : Option ℕ) (t : Bool) (rounds : List Poll)
    → accept_round (round g s i a t) (accepts_of rounds) ≡ accepts_of (round g s i a t ∷ rounds)
unfolding accept_round take_client rounds_before clients all_go_on
accept_round-accepts_of false s i a t rounds = refl
accept_round-accepts_of true false i a t rounds = refl
accept_round-accepts_of true true false a t rounds = refl
accept_round-accepts_of true true true none true rounds = refl
accept_round-accepts_of true true true none false rounds = refl
accept_round-accepts_of true true true (some client) true rounds = refl
accept_round-accepts_of true true true (some client) false rounds = refl

accept_loop-accepts_of : (rounds : List Poll) → accept_loop rounds ≡ accepts_of rounds
unfolding accept_loop
accept_loop-accepts_of [] = unfold rounds_before clients all_go_on in refl
accept_loop-accepts_of (r ∷ rounds) =
    ap (accept_round r) (accept_loop-accepts_of rounds)
    ∙ accept_round-accepts_of r.goes_on r.selected r.is_set r.accepted r.thread rounds

-- The server of a node hands every connection that it accepts before it is stopped to a thread of
-- its own, in order, except those for which no thread can be made, which it leaves open; a `select`
-- that fails, one that times out and a failed `accept` change nothing. It closes its own socket
-- where it is stopped, and only there. This is for any rounds, from a socket that could be set up.
pub xmlprc_run-accepts_of :
    (calls : StartupCalls) (port sock port' : ℕ) (rounds : List Poll)
    → socket_startup calls port ≡ (some sock, port')
    → xmlprc_run calls port rounds ≡ some (serving sock port' (accepts_of rounds))
unfolding xmlprc_run
xmlprc_run-accepts_of calls port sock port' rounds h = rw (h, accept_loop-accepts_of rounds) refl

-- The node with a publisher changed under its topic.
unfoldable pub with_publisher : RosNode → CString → Topic → RosNode
unfolding change
with_publisher nd key tp = record nd { publishers = change nd.publishers key tp }

module _ ⦃fl : Floats⦄ (parse_xml : CString → Option XmlNode) where
  unlisted :
      (nd : RosNode) (params : Items) (topic : CString) (tp : Topic)
      → value_s (list_at params (pos 1)) ≡ ok topic
      → dvalue nd.publishers topic ≡ some tp
      → tp.uri ≡ none
      → request_topic nd params 3 ≡ fault
  unfolding request_topic topic_found topic_answer list_init
  unlisted nd params topic tp named known nowhere = rw (named, known, nowhere) refl

  listed :
      (nd : RosNode) (dic : Buckets Topic) (topic : CString) (tp tp' : Topic)
      → nd.publishers ≡ some dic
      → IsWide dic
      → dvalue (some dic) topic ≡ some tp
      → dvalue (with_publisher nd topic tp').publishers topic ≡ some tp'
  unfolding with_publisher
  listed nd dic topic tp tp' has wide known =
      let (np, e) = found_node dic topic tp known in
      rw (has, dvalue-write_value dic wide topic topic tp' np e, equ_refl topic) refl

  -- A publisher whose listener has not come as far as its address makes the node that is asked for
  -- it read a NULL text; once the listener has set up its socket the same question is answered
  -- with the address that the listener has. This is for a topic in the table that has no uri, as
  -- `create_publisher` leaves it, a table with its 1024 chains, a call of three parameters that
  -- names the topic, and a socket that can be set up at a port above 0.
  pub request_topic-publisher_listener :
      (nd : RosNode) (dic : Buckets Topic) (params : Items) (topic ip : CString) (tp : Topic)
      (startup : StartupCalls) (calls : ConnectCalls) (peer : Socket) (api : Option CString)
      (n sock port : ℕ) (rounds : List Poll)
      → nd.publishers ≡ some dic
      → IsWide dic
      → value_s (list_at params (pos 1)) ≡ ok topic
      → dvalue (some dic) topic ≡ some tp
      → tp.uri ≡ none
      → socket_startup startup 0 ≡ (some sock, suc port)
      → (request_topic nd params 3 ≡ fault)
        × (publisher_listener parse_xml startup calls peer tp api n ip rounds
            ≡ ok (
                listens
                  (listening_at tp ip (suc port))
                  (serving sock (suc port) (accepts_of rounds))))
        × (let nd' = with_publisher nd topic (listening_at tp ip (suc port)) in
            request_topic nd' params 3
            ≡ ok (
              nd',
              sends (response_text (gen_rpc_response (address_answer ip (pos (suc port))))),
            ))
  unfolding publisher_listener listening_at
  request_topic-publisher_listener nd dic params topic ip tp startup calls peer api n sock port
        rounds has wide named known nowhere started =
      let found : dvalue nd.publishers topic ≡ some tp = rw has known in
      let tp' = listening_at tp ip (suc port) in
      let above : (suc port == 0) ≡ false = ground arith in
      (
        unlisted nd params topic tp named found nowhere,
        rw (started, accept_loop-accepts_of rounds, above) refl,
        request_topic-address_answer (with_publisher nd topic tp') params topic ip tp' named
            (listed nd dic topic tp tp' has wide known) refl,
      )
