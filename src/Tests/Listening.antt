-- ===== src/Tests/Listening.antt =====
-- Runs of the listeners of a subscriber and of a publisher.
use stros.Prelude.{
  ℕ, ◌≡◌, ◌≢◌, ◌^◌, refl, inr, true, false, List, [], ◌∷◌, ◌++◌, Option, some, none, ok, pos,
  length, ltb→lt, replicate,
}
use stros.CString.{CString, codes, decimal, equ}
use stros.ItemList.{null, count}
use stros.Rpc.Xml.{XmlNode}
use stros.Rpc.Plain.{IsPlain, IsPlainItems}
use stros.Rpc.Http.Message.{request_text, response_text}
use stros.Request.Call.{RpcRequest, ConnectCalls, request_socket, gen_rpc_call, handled}
use stros.Request.Reply.{gen_rpc_response, response_ok}
use stros.Request.RoundTrip.{call_root, response_tree}
use stros.Request.Answered.{IsCall}
use stros.Api.Topic.{Topic, active}
use stros.Api.Handler.{sends, at_address, xml_rpc_api_handler}
use stros.Api.Handler.Answers.{address_answer}
use stros.Node.Accept.{stros_accept_request}
use stros.Node.Listen.{
  looping, ready, ended, asked, Listener, Reach, Happening, told, halted, moved, request_xml,
  happen_all,
}
use stros.Node.Listen.Follow.{request_call, IsAsking, way, settled, happen_all-xml_rpc_api_handler}
use stros.Node.Listen.Settle.{is_quiet, happen_all-told}
use stros.Tests.Setup.{
  one_float, no_text, knows_two, knows_first, knows_second, no_nul, no_nul-NoNul,
}
use stros.Tests.Headers.{chatter, nd, known, answer, answer-NoNul, answer_small}

-- A subscriber of the topic that has just been told of its publisher.
abbrev sub : Topic
sub = at_address chatter (some (codes "10.0.0.7")) (pos 4000)

abbrev question : RpcRequest
question = request_call 3 sub

abbrev message : CString
message = gen_rpc_call ⦃fl = one_float⦄ question

abbrev pub answer_message : CString
answer_message = gen_rpc_response ⦃fl = one_float⦄ answer

abbrev pub parser : CString → Option XmlNode
parser =
    knows_two message (call_root ⦃fl = one_float⦄ no_text question) answer_message
      (response_tree ⦃fl = one_float⦄ no_text answer)

other_text : equ answer_message message ≡ false
unfolding gen_rpc_call gen_rpc_response equ address_answer
other_text = refl

question-IsPlainItems : IsPlainItems ⦃fl = one_float⦄ question.params
unfolding IsPlain at_address
question-IsPlainItems =
    (λ e. cc, (λ e. cc, (inr ((inr ((λ e. cc, tt), λ e. cc), tt), λ e. cc), tt)))

question-IsCall : IsCall ⦃fl = one_float⦄ no_text parser question
unfolding gen_rpc_call decimal no_nul count at_address
question-IsCall = record {
  sendable = record {
    named = λ e. cc;
    plain = question-IsPlainItems;
    filled = λ e. cc;
    counted = refl;
  };
  plain = no_nul-NoNul message refl;
  small = ltb→lt (length message) (10 ^ 9) refl;
  parsed = knows_first message answer_message _ _;
}

answer-IsPlainItems : IsPlainItems ⦃fl = one_float⦄ answer
unfolding IsPlain address_answer
answer-IsPlainItems =
    (inr ((tt, (λ e. cc, (inr ((λ e. cc, (λ e. cc, (tt, tt))), λ e. cc), tt))), λ e. cc), tt)

answer-ne-null : answer ≢ null
unfolding address_answer
answer-ne-null e = cc

abbrev pub reached : ConnectCalls
reached = record { socket = some 7; aton = true; connect = true }

abbrev reach : Reach
reach = record { calls = reached; peer = response_text answer_message ++ [] }

abbrev start : Listener
start = record { ros_ok = true; sub = sub; spot = looping; ip = none; port = pos 0; visits = [] }

start-IsAsking : IsAsking ⦃fl = one_float⦄ no_text parser start reach 7 (codes "10.0.0.7") 4999
unfolding request_socket at_address
start-IsAsking = record {
  ros_ok = refl;
  spot = refl;
  uri = codes "10.0.0.7";
  at = refl;
  status = refl;
  connected = refl;
  rest = [];
  answers = refl;
  answer = record {
    whole = answer-IsPlainItems;
    filled = answer-ne-null;
    plain = answer-NoNul;
    small = answer_small;
    parsed = knows_second message answer_message _ _ other_text;
  };
}

happen_all-xml_rpc_api_handler_example :
    (xml : CString) × (request_xml ⦃fl = one_float⦄ sub 5 ≡ ok xml)
    × (stros_accept_request ⦃fl = one_float⦄ parser [] (request_text xml ++ codes "x")
        ≡ ok (record { served = handled question; closed = true; rest = codes "x" }))
    × (xml_rpc_api_handler ⦃fl = one_float⦄ nd question
        ≡ ok (nd, sends (response_text answer_message)))
    × (happen_all ⦃fl = one_float⦄ parser xml start
          (way ⦃fl = one_float⦄ no_text parser reach (λ i. reach))
        ≡ ok (settled ⦃fl = one_float⦄ start (codes "10.0.0.7") 4999))
unfolding at_address
happen_all-xml_rpc_api_handler_example =
    happen_all-xml_rpc_api_handler ⦃fl = one_float⦄ no_text parser nd chatter start reach
      (λ i. reach) 7 5 (codes "10.0.0.7") 4999 [] (codes "x") question-IsCall start-IsAsking known
      refl refl

-- An answer is there when another address arrives.
abbrev holding : Listener
holding = record start {
  spot = asked (some (response_ok 1 (address_answer (codes "10.0.0.7") (pos 5000))));
}

abbrev later : List Happening
later = moved reach ∷ moved reach ∷ halted ∷ moved reach ∷ []

later_quiet : is_quiet later ≡ true
unfolding is_quiet
later_quiet = refl

happen_all-told_example :
    (t : Listener) × (k : ℕ) × (happen_all ⦃fl = one_float⦄ parser [] holding
        (told (some (codes "10.0.0.9")) (pos 4001) ∷ moved reach ∷ later)
      ≡ ok t)
    × (t.visits ≡ [] ++ replicate k (codes "10.0.0.7", pos 5000))
    × (t.sub ≡ record (at_address sub (some (codes "10.0.0.9")) (pos 4001)) { status = active })
happen_all-told_example =
    happen_all-told ⦃fl = one_float⦄ parser [] (codes "10.0.0.7") 4999 holding 1
      (some (codes "10.0.0.9")) (pos 4001) reach later refl later_quiet

abbrev stopping : Listener
stopping = record start {
  ros_ok = false;
  spot = ready;
  ip = some (codes "10.0.0.7");
  port = pos 5000;
}

abbrev last : List Happening
last = moved reach ∷ told none (pos 0) ∷ moved reach ∷ []

-- The node stops while its listener holds an answer.
abbrev cut : Listener
cut = record holding { ros_ok = false }

abbrev seven : List Happening
seven =
    moved reach
    ∷ moved reach
    ∷ moved reach
    ∷ moved reach
    ∷ moved reach
    ∷ moved reach
    ∷ moved reach
    ∷ []

abbrev gone : Listener
gone = record cut {
  sub = record sub { status = active };
  spot = ended;
  ip = some (codes "10.0.0.7");
  port = pos 5000;
  visits = (codes "10.0.0.7", pos 5000) ∷ [];
}
