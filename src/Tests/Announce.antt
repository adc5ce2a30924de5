-- ===== src/Tests/Announce.antt =====
-- A program that makes a node, creates a publisher and deploys the node.
use stros.Prelude.{
  ℕ, fault, ◌≡◌, refl, true, false, List, [], ◌∷◌, ◌++◌, Option, some, none, ok, replicate,
}
use stros.CString.{CString, codes, equ, digits}
use stros.Utils.Hash.{hash}
use stros.Dictionary.{dict, dput, associations}
use stros.Api.Topic.{Topic, RosNode}
use stros.Node.Config.{Entry, default_master_uri, default_master_port, stros_init_node}
use stros.Node.Topics.{create_publisher, new_publisher}
use stros.Node.Topics.Program.{Setup, published, configured, last_setup, new_topic}
use stros.Node.Register.{
  Contact, Deployed, running, visited, written_back, publishers_loop, subscribers_loop,
  stros_deploy_publishers, stros_deploy_subscribers,
}
use stros.Node.Register.Calls.{register_call, deploy_publisher-IsAnswered}
use stros.Node.Register.Failure.{register_text}
use stros.Node.Life.{deployed, node_api, stros_node_deploy}
use stros.Node.Life.Announce.{method_of, messages, stros_node_deploy-last_setup}
use stros.Request.Call.{gen_rpc_call, request_socket}
use stros.Node.Life.Unreached.{stros_node_deploy-request_socket}
use stros.Request.Answered.{answered}
use stros.Tests.Setup.{one_float, no_text}
use stros.Tests.Headers.{chatter, std_string}
use stros.Tests.Deploy.{answer, api, contact, rpub}
use stros.Tests.Stopping.{same_tree, same-IsAnswered, sure, api_is}

abbrev no_config : CString → Option (List Entry)
no_config file = none

abbrev talker : RosNode
talker = record {
  id = codes "/talker_7";
  master_uri = default_master_uri;
  master_port = default_master_port;
  subscribers = dict;
  publishers = dict;
}

made : stros_init_node no_config 7 (some (codes "/talker")) none ≡ some talker
unfolding stros_init_node digits
made = refl

-- The second call for the topic replaces the first.
abbrev first_call : Setup
first_call = record {
  side = published;
  junk = chatter;
  old = false;
  topic = codes "/chatter";
  type = codes "std_msgs/Int8";
}

abbrev call : Setup
call = record first_call { type = std_string }

abbrev calls : List Setup
calls = first_call ∷ call ∷ []

abbrev ready : RosNode
ready = configured talker calls

visits :
    visited ready.publishers
    ≡ ok (
        record {
          key = codes "/chatter";
          value = new_publisher talker (codes "/chatter") std_string;
        }
        ∷ [])
unfolding configured create_publisher dput dict replicate hash equ visited associations
    new_publisher
visits = refl

abbrev topic : Topic
topic = new_publisher talker (codes "/chatter") std_string

abbrev done : Deployed
done = record {
  exchange =
      answered (gen_rpc_call ⦃fl = one_float⦄ (register_call rpub ready api 4 topic)) 7 answer;
  outcome = running topic;
}

subscribers_run :
    stros_deploy_subscribers ⦃fl = one_float⦄ same_tree ready (some api) 4 sure ≡ ok (ready, [])
unfolding stros_deploy_subscribers visited subscribers_loop configured create_publisher dict
    replicate associations written_back
subscribers_run = refl

publishers_run :
    stros_deploy_publishers ⦃fl = one_float⦄ same_tree ready (some api) 4 sure ≡ ok (done ∷ [])
unfolding stros_deploy_publishers publishers_loop
publishers_run =
    rw
      (
        visits,
        deploy_publisher-IsAnswered ⦃fl = one_float⦄ no_text same_tree ready api 4 contact 7 topic
            answer same-IsAnswered,
      )
      refl

run :
    stros_node_deploy ⦃fl = one_float⦄ same_tree 4 ready true (codes "10.0.0.7") 4000 none sure sure
    ≡ ok (deployed api ready [] (done ∷ []) (done.exchange.sent ∷ []))
unfolding stros_node_deploy
run = rw (api_is, subscribers_run, publishers_run) refl

last_call : last_setup published (codes "/chatter") none calls ≡ some call
unfolding last_setup equ
last_call = refl

stros_node_deploy-last_setup_example :
    (before after : List CString) × (messages published [] (done ∷ [])
      ≡ before
        ++ register_text ⦃fl = one_float⦄ same_tree talker
            (node_api (codes "10.0.0.7") 4000)
            4
            (method_of published)
            (new_topic published talker call)
          ∷ after)
stros_node_deploy-last_setup_example =
    stros_node_deploy-last_setup ⦃fl = one_float⦄ same_tree 4 no_config 7 (some (codes "/talker"))
      none talker ready calls (codes "10.0.0.7") api 4000 none sure sure [] (done ∷ [])
      (done.exchange.sent ∷ []) published (codes "/chatter") call made last_call run

abbrev cut_off : ℕ → Contact
cut_off i = record contact { calls = record { socket = none; aton = true; connect = true } }

stros_node_deploy-request_socket_example :
    stros_node_deploy ⦃fl = one_float⦄ same_tree 4 ready true
      (codes "10.0.0.7")
      4000
      none
      cut_off
      cut_off
    ≡ fault
unfolding request_socket
stros_node_deploy-request_socket_example =
    stros_node_deploy-request_socket ⦃fl = one_float⦄ same_tree 4 no_config 7
      (some (codes "/talker")) none talker calls (codes "10.0.0.7") 4000 none cut_off cut_off [] []
      published (codes "/chatter") call made last_call refl refl
