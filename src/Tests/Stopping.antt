-- ===== src/Tests/Stopping.antt =====
-- Runs of the loops of a deployment and of the stop of a node.
use stros.Prelude.{ℕ, ◌≡◌, refl, true, false, List, [], ◌∷◌, ◌++◌, Option, some, ok, pos}
use stros.CString.{CString, codes, equ}
use stros.Dictionary.{dput, associations}
use stros.Dictionary.Validity.{empty_table}
use stros.Utils.Hash.{hash}
use stros.Prelude.{replicate}
use stros.Rpc.Xml.{XmlNode}
use stros.Rpc.Http.Message.{response_text}
use stros.Request.Call.{request_socket, gen_rpc_call}
use stros.Request.RoundTrip.{response_tree}
use stros.Api.Topic.{Topic, RosNode}
use stros.Api.Handler.{at_address}
use stros.Node.Register.{Contact, Deployed, running}
use stros.Node.Register.Calls.{IsAnswered}
use stros.Node.Register.{written_back, visited, publishers_loop}
use stros.Node.Master.{unregister}
use stros.Node.Life.{Stopped, unregister_loop, stros_stop}
use stros.Node.Life.Stop.{unregister_call, sent_by, unregister_texts, stros_stop-sent_by}
use stros.Request.Answered.{answered, send_post_request-response_text}
use stros.Request.Reply.{response_ok}
use stros.Request.Exchange.{Exchanged}
use stros.ItemList.{list_init, list_put}
use stros.CString.{digits}
use stros.Node.Life.{node_api}
use stros.Node.Register.{publishers_loop}
use stros.Tests.Setup.{one_float, no_text}
use stros.Tests.Headers.{chatter, nd, topics}
use stros.Tests.Deploy.{
  answer, answer-IsPlainItems, answer-NoNul, answer_message, answer_small, api, contact, message,
  reached, rpub, rsub,
}

-- The same with an XML library that knows the answer alone.
abbrev pub same_tree : CString → Option XmlNode
same_tree text = some (response_tree ⦃fl = one_float⦄ no_text answer)

pub same-IsAnswered : IsAnswered ⦃fl = one_float⦄ no_text same_tree contact 7 answer
unfolding request_socket
same-IsAnswered = record {
  connected = refl;
  rest = [];
  answers = refl;
  list = record {
    whole = answer-IsPlainItems;
    filled = λ e. cc;
    plain = answer-NoNul;
    small = answer_small;
    parsed = refl;
  };
  thread = refl;
}

one_topic : associations topics ≡ record { key = codes "/chatter"; value = chatter } ∷ []
unfolding associations topics dput replicate hash equ empty_table
one_topic = refl

abbrev pub sure : ℕ → Contact
sure i = contact

abbrev told : Topic
told = at_address chatter (some (codes "10.0.0.8")) (pos 6000)

abbrev done : CString → Topic → Deployed
done method tp = record { exchange = answered (message method) 7 answer; outcome = running tp }

abbrev after : RosNode
after = written_back nd (record { key = codes "/chatter"; value = told } ∷ [])

pub api_is : node_api (codes "10.0.0.7") 4000 ≡ api
unfolding node_api digits
api_is = refl

abbrev all_sent : List CString
all_sent = (done rsub told).exchange.sent ∷ (done rpub chatter).exchange.sent ∷ []

abbrev taken_back : CString → Exchanged
taken_back method =
    answered (gen_rpc_call ⦃fl = one_float⦄ (unregister_call method api 4 chatter)) 7 answer

unregister_run :
    (method : CString)
    → unregister ⦃fl = one_float⦄ same_tree reached
        (response_text answer_message ++ [])
        chatter
        (some api)
        method
        4
      ≡ ok (taken_back method, true)
unfolding unregister list_init list_put response_ok
unregister_run method =
    rw
      (send_post_request-response_text ⦃fl = one_float⦄ no_text same_tree reached 7
        (gen_rpc_call ⦃fl = one_float⦄ (unregister_call method api 4 chatter)) answer []
        same-IsAnswered.connected same-IsAnswered.list)
      refl

abbrev stopped : Stopped
stopped = record {
  calls = taken_back (codes "unregisterPublisher") ∷ taken_back (codes "unregisterSubscriber") ∷ [];
  ros_ok = false;
}

stop_run : stros_stop ⦃fl = one_float⦄ same_tree (some api) 4 nd sure sure ≡ ok stopped
unfolding stros_stop visited unregister_loop
stop_run =
    rw
      (
        one_topic,
        unregister_run (codes "unregisterPublisher"),
        unregister_run (codes "unregisterSubscriber"),
      )
      refl

stros_stop-sent_by_example :
    (sent_by stopped.calls
      ≡ unregister_texts ⦃fl = one_float⦄ same_tree api 4
          (codes "unregisterPublisher")
          (associations topics)
        ++ unregister_texts ⦃fl = one_float⦄ same_tree api 4
            (codes "unregisterSubscriber")
            (associations topics))
    × (stopped.ros_ok ≡ false)
stros_stop-sent_by_example =
    stros_stop-sent_by ⦃fl = one_float⦄ same_tree api 4 nd topics topics sure sure stopped refl refl
      stop_run
