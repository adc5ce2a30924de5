-- ===== src/Tests/Headers.antt =====
-- Runs of connection headers, messages and the calls of the master.
use stros.Prelude.{
  ◌≡◌, ◌<◌, ◌^◌, refl, true, ltb→lt, [], ◌∷◌, ◌++◌, Option, none, some, ok, arith, pos, length,
  take, ◌%◌, if◌then◌else◌, replicate,
}
use stros.CString.{CString, codes, contains, decimal, equ}
use stros.Utils.Hash.{header_hash_size, hash}
use stros.ItemList.{Items, string, array, null, node, special, list_at, value_s, value_array}
use stros.Utils.Match.{match_int, match_float}
use stros.Rpc.Xml.{XmlNode}
use stros.Rpc.Http.Decode.{NoNul}
use stros.Request.Reply.{gen_rpc_response, response_ok, parse_response}
use stros.Request.RoundTrip.{response_tree}
use stros.Dictionary.{Buckets, dvalue, dput}
use stros.Dictionary.Validity.{IsValid, empty_table, dict-IsValid, PointsToValid, dput-IsValid}
use stros.Api.Topic.{Topic, RosNode, active}
use stros.Api.Header.{
  int_bytes, header_fields, gen_tcp_header_for, Found, nothing_found, fields_loop,
  verify_ros_header,
}
use stros.Api.Header.Check.{Fits, verify_ros_header-Fits}
use stros.Api.Header.RoundTrip.{IsAnnounced, verify_ros_header-gen_tcp_header_for}
use stros.Api.Data.{ros_string}
use stros.Api.Data.RoundTrip.{ros_string-int_bytes}
use stros.Api.Handler.{sends, dummy_response, at_address, request_topic, publisher_update}
use stros.Api.Handler.Answers.{address_answer, request_topic-parse_response}
use stros.Api.Handler.Urls.{IsHost, node_url, publisher_update-node_url}
use stros.Tests.Setup.{one_float, no_text, knows, knows_lem, no_nul, no_nul-NoNul}

abbrev pub std_string : CString
std_string = codes "std_msgs/String"

abbrev pub chatter : Topic
chatter = record {
  callerid = codes "/talker";
  topic = codes "/chatter";
  type = std_string;
  uri = some (codes "10.0.0.7");
  port = pos 5000;
  status = active;
  data_ok = true;
  payload = some (codes "hello");
}

pub chatter-IsAnnounced : IsAnnounced ⦃fl = one_float⦄ chatter
unfolding contains special match_int match_float
chatter-IsAnnounced = record {
  callerid = record { filled = λ e. cc; whole = ground arith; plain = ground arith };
  short_callerid = omega arith;
  topic = record { filled = λ e. cc; whole = ground arith; plain = ground arith };
  topic_text = refl;
  short_topic = omega arith;
  type = record { filled = λ e. cc; whole = ground arith; plain = ground arith };
  type_text = refl;
  short_type = omega arith;
}

verify_ros_header-gen_tcp_header_for_example :
    (gen_tcp_header_for chatter
      ≡ ok (int_bytes (length (header_fields chatter)) ++ header_fields chatter))
    × (verify_ros_header ⦃fl = one_float⦄ chatter
          (header_fields chatter ++ 0 ∷ [])
          (length (header_fields chatter))
        ≡ ok (hash std_string header_hash_size))
verify_ros_header-gen_tcp_header_for_example =
    verify_ros_header-gen_tcp_header_for ⦃fl = one_float⦄ chatter chatter (0 ∷ [])
      chatter-IsAnnounced refl refl

accepted :
    verify_ros_header ⦃fl = one_float⦄ chatter
      (header_fields chatter ++ 0 ∷ [])
      (length (header_fields chatter))
    ≡ ok 946
unfolding hash
accepted =
    (verify_ros_header-gen_tcp_header_for ⦃fl = one_float⦄ chatter chatter (0 ∷ [])
      chatter-IsAnnounced refl refl).1

verify_ros_header-Fits_example :
    (f : Found) × (fields_loop ⦃fl = one_float⦄
        (length (header_fields chatter))
        nothing_found
        (header_fields chatter ++ 0 ∷ [])
        (length (header_fields chatter))
      ≡ ok f)
    × ((msgtype : CString) × (md5sum : CString) × Fits chatter f msgtype md5sum)
verify_ros_header-Fits_example =
    verify_ros_header-Fits ⦃fl = one_float⦄ chatter (header_fields chatter ++ 0 ∷ [])
      (length (header_fields chatter)) 946 accepted (λ e. cc)

ros_string-int_bytes_example :
    ros_string (int_bytes (length (codes "hello")) ++ (codes "hello" ++ 0 ∷ []))
    ≡ ok (take (length (codes "hello") % 256) (codes "hello"))
ros_string-int_bytes_example =
    ros_string-int_bytes (codes "hello") (0 ∷ []) (omega arith) (ground arith)

-- A node that knows the topic.
abbrev no_topics : Buckets Topic
no_topics = empty_table

unfoldable pub topics : Buckets Topic
topics = elim (dput true chatter (some no_topics) (codes "/chatter") chatter).0 [
  | none ↦ no_topics
  | some dic ↦ dic
]

pub topics-IsValid : IsValid topics
unfolding topics
topics-IsValid =
    of_pointer (dput true chatter (some no_topics) (codes "/chatter") chatter).0
      (dput-IsValid no_topics (codes "/chatter") true chatter chatter dict-IsValid.1)
  where
    of_pointer :
        (p : Option (Buckets Topic))
        → PointsToValid p
        → IsValid (elim p [ none ↦ no_topics | some dic ↦ dic ])
    of_pointer none h = absurd h
    of_pointer (some dic) h = h

abbrev pub nd : RosNode
nd = record {
  id = codes "/dummy";
  master_uri = codes "127.0.0.1";
  master_port = pos 11311;
  subscribers = some topics;
  publishers = some topics;
}

pub known : dvalue (some topics) (codes "/chatter") ≡ some chatter
unfolding topics dput dvalue replicate hash equ empty_table
known = refl

abbrev params : Items
params = node (string (codes "/n")) (node (string (codes "/chatter")) null)

named : value_s (list_at params (pos 1)) ≡ ok (codes "/chatter")
unfolding value_s list_at
named = refl

abbrev pub answer : Items
answer = address_answer (codes "10.0.0.7") (pos 5000)

pub answer-NoNul : NoNul (gen_rpc_response ⦃fl = one_float⦄ answer)
unfolding gen_rpc_response no_nul decimal address_answer
answer-NoNul = no_nul-NoNul (gen_rpc_response ⦃fl = one_float⦄ answer) refl

pub answer_small : length (gen_rpc_response ⦃fl = one_float⦄ answer) < 10 ^ 9
unfolding gen_rpc_response decimal address_answer
answer_small = ltb→lt (length (gen_rpc_response ⦃fl = one_float⦄ answer)) (10 ^ 9) refl

abbrev answer_tree : XmlNode
answer_tree = response_tree ⦃fl = one_float⦄ no_text answer

request_topic-parse_response_example :
    (text : CString) × (request_topic ⦃fl = one_float⦄ nd params 3 ≡ ok (nd, sends text))
    × (parse_response ⦃fl = one_float⦄
          (knows (gen_rpc_response ⦃fl = one_float⦄ answer) answer_tree)
          (text ++ [])
        ≡ ok (some (response_ok 1 answer), []))
request_topic-parse_response_example =
    request_topic-parse_response ⦃fl = one_float⦄ no_text
      (knows (gen_rpc_response ⦃fl = one_float⦄ answer) answer_tree) nd params (codes "/chatter")
      (codes "10.0.0.7") chatter [] named known refl (λ e. cc) answer-NoNul answer_small
      (knows_lem (gen_rpc_response ⦃fl = one_float⦄ answer) answer_tree)

pub address-IsHost : IsHost ⦃fl = one_float⦄ (codes "10.0.0.8")
unfolding contains special match_int match_float
address-IsHost = record {
  filled = λ e. cc;
  text = refl;
  no_slash = ground arith;
  no_colon = ground arith;
}

abbrev urls : Items
urls = node (string (node_url (codes "10.0.0.8") 6000)) null

abbrev update_params : Items
update_params =
    node (string (codes "/m")) (node (string (codes "/chatter")) (node (array urls) null))

update_named : value_s (list_at update_params (pos 1)) ≡ ok (codes "/chatter")
unfolding value_s list_at
update_named = refl

update_urls : value_array (list_at update_params (pos 2)) ≡ ok urls
unfolding value_array list_at
update_urls = refl

publisher_update-node_url_example :
    (nd' : RosNode) × (publisher_update ⦃fl = one_float⦄ nd update_params
      ≡ ok (nd', dummy_response))
    × (nd'.publishers ≡ nd.publishers)
    × (dvalue nd'.subscribers (codes "/chatter") ≡ (
        if equ (codes "/chatter") (codes "/chatter")
        then some (at_address chatter (some (codes "10.0.0.8")) (pos 6000))
        else dvalue (some topics) (codes "/chatter")))
publisher_update-node_url_example =
    publisher_update-node_url ⦃fl = one_float⦄ nd topics update_params null (codes "/chatter")
      (codes "/chatter") (codes "10.0.0.8") 6000 chatter refl topics-IsValid.wide update_named
      update_urls address-IsHost (omega arith) known
