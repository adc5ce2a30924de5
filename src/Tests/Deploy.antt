-- ===== src/Tests/Deploy.antt =====
-- Runs of the deployment and the stop of a node.
use stros.Prelude.{arith}
use stros.Prelude.{
  ◌≡◌, ◌<◌, ◌^◌, refl, inr, true, false, [], ◌∷◌, ◌++◌, Option, some, ok, pos, length, ltb→lt,
}
use stros.CString.{CString, codes, decimal, equ}
use stros.ItemList.{Items, string, null, node, count}
use stros.Rpc.Xml.{XmlNode}
use stros.Rpc.Plain.{IsPlain, IsPlainItems}
use stros.Rpc.Http.Decode.{NoNul}
use stros.Rpc.Http.Message.{response_text}
use stros.Request.Call.{RpcRequest, ConnectCalls, request_socket, gen_rpc_call, handled}
use stros.Request.Reply.{gen_rpc_response}
use stros.Request.RoundTrip.{call_root, response_tree}
use stros.Request.Answered.{IsCall}
use stros.Api.Handler.{at_address}
use stros.Api.Handler.Urls.{node_url}
use stros.Node.Accept.{stros_accept_request}
use stros.Node.Register.{Contact, Deployed, running, deploy_publisher, deploy_subscriber}
use stros.Node.Register.Calls.{
  register_call, IsAnswered, master_answer, deploy_publisher-stros_accept_request,
  deploy_subscriber-stros_accept_request,
}
use stros.Tests.Setup.{
  one_float, no_text, knows_two, knows_first, knows_second, no_nul, no_nul-NoNul,
}
use stros.Tests.Headers.{chatter, nd, address-IsHost}

abbrev pub api : CString
api = codes "http://10.0.0.7:4000"

abbrev pub urls : Items
urls = node (string (node_url (codes "10.0.0.8") 6000)) null

abbrev pub answer : Items
answer = master_answer (codes "ok") urls

abbrev pub answer_message : CString
answer_message = gen_rpc_response ⦃fl = one_float⦄ answer

abbrev register : CString → RpcRequest
register method = register_call method nd api 4 chatter

abbrev pub message : CString → CString
message method = gen_rpc_call ⦃fl = one_float⦄ (register method)

-- An XML library that knows the call and the answer.
abbrev parser : CString → CString → Option XmlNode
parser method =
    knows_two (message method) (call_root ⦃fl = one_float⦄ no_text (register method)) answer_message
      (response_tree ⦃fl = one_float⦄ no_text answer)

pub answer-IsPlainItems : IsPlainItems ⦃fl = one_float⦄ answer
unfolding IsPlain node_url
answer-IsPlainItems = (inr ((tt, (λ e. cc, (inr ((λ e. cc, tt), λ e. cc), tt))), λ e. cc), tt)

pub answer-NoNul : NoNul answer_message
unfolding gen_rpc_response no_nul decimal node_url
answer-NoNul = no_nul-NoNul answer_message refl

pub answer_small : length answer_message < 10 ^ 9
unfolding gen_rpc_response decimal node_url
answer_small = ltb→lt (length answer_message) (10 ^ 9) refl

abbrev pub rpub : CString
rpub = codes "registerPublisher"

abbrev pub rsub : CString
rsub = codes "registerSubscriber"

call-IsPlainItems : (method : CString) → IsPlainItems ⦃fl = one_float⦄ (register method).params
unfolding IsPlain
call-IsPlainItems method = (λ e. cc, (λ e. cc, (λ e. cc, (λ e. cc, tt))))

publisher-IsCall : IsCall ⦃fl = one_float⦄ no_text (parser rpub) (register rpub)
unfolding gen_rpc_call decimal no_nul count
publisher-IsCall = record {
  sendable = record {
    named = λ e. cc;
    plain = call-IsPlainItems rpub;
    filled = λ e. cc;
    counted = refl;
  };
  plain = no_nul-NoNul (message rpub) refl;
  small = ltb→lt (length (message rpub)) (10 ^ 9) refl;
  parsed = knows_first (message rpub) answer_message _ _;
}

subscriber-IsCall : IsCall ⦃fl = one_float⦄ no_text (parser rsub) (register rsub)
unfolding gen_rpc_call decimal no_nul count
subscriber-IsCall = record {
  sendable = record {
    named = λ e. cc;
    plain = call-IsPlainItems rsub;
    filled = λ e. cc;
    counted = refl;
  };
  plain = no_nul-NoNul (message rsub) refl;
  small = ltb→lt (length (message rsub)) (10 ^ 9) refl;
  parsed = knows_first (message rsub) answer_message _ _;
}

abbrev pub reached : ConnectCalls
reached = record { socket = some 7; aton = true; connect = true }

abbrev pub contact : Contact
contact = record {
  calls = reached;
  peer = response_text answer_message ++ [];
  thread = true;
  back_calls = reached;
  back_peer = response_text answer_message ++ [];
}

other_text : (method : CString) → equ answer_message (message method) ≡ false
unfolding gen_rpc_call gen_rpc_response equ
other_text method = refl

contact-IsAnswered :
    (method : CString) → IsAnswered ⦃fl = one_float⦄ no_text (parser method) contact 7 answer
unfolding request_socket
contact-IsAnswered method = record {
  connected = refl;
  rest = [];
  answers = refl;
  list = record {
    whole = answer-IsPlainItems;
    filled = λ e. cc;
    plain = answer-NoNul;
    small = answer_small;
    parsed = knows_second (message method) answer_message _ _ (other_text method);
  };
  thread = refl;
}

deploy_publisher-stros_accept_request_example :
    (d : Deployed) × (deploy_publisher ⦃fl = one_float⦄
        (parser rpub)
        nd
        (some api)
        99
        contact
        chatter
      ≡ ok d)
    × (d.outcome ≡ running chatter)
    × (d.exchange.closed ≡ 7 ∷ [])
    × (stros_accept_request ⦃fl = one_float⦄ (parser rpub) [] (d.exchange.sent ++ codes "x")
        ≡ ok (record { served = handled (register rpub); closed = true; rest = codes "x" }))
deploy_publisher-stros_accept_request_example =
    deploy_publisher-stros_accept_request ⦃fl = one_float⦄ no_text (parser rpub) nd api 99 contact 7
      chatter answer [] (codes "x") (contact-IsAnswered rpub) publisher-IsCall

deploy_subscriber-stros_accept_request_example :
    (d : Deployed) × (deploy_subscriber ⦃fl = one_float⦄
        (parser rsub)
        nd
        (some api)
        99
        contact
        chatter
      ≡ ok (at_address chatter (some (codes "10.0.0.8")) (pos 6000), d))
    × (d.outcome ≡ running (at_address chatter (some (codes "10.0.0.8")) (pos 6000)))
    × (d.exchange.closed ≡ 7 ∷ [])
    × (stros_accept_request ⦃fl = one_float⦄ (parser rsub) [] (d.exchange.sent ++ codes "x")
        ≡ ok (record { served = handled (register rsub); closed = true; rest = codes "x" }))
deploy_subscriber-stros_accept_request_example =
    deploy_subscriber-stros_accept_request ⦃fl = one_float⦄ no_text (parser rsub) nd api 99 contact
      7 chatter (codes "ok") (codes "10.0.0.8") 6000 null [] (codes "x") (contact-IsAnswered rsub)
      address-IsHost (omega arith) subscriber-IsCall
