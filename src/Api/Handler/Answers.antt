-- ===== src/Api/Handler/Answers.antt =====
-- The answer of `requestTopic`, and its reader.
use stros.Prelude.{◌<◌, ◌^◌, length, ◌≡◌, ◌≢◌, refl, inr, [], ◌++◌, Option, some, ok, ℤ, pos}
use stros.CString.{CString, codes}
use stros.ItemList.{
  Floats, Items, count, int, string, array, null, node, list_at, list_put_array, value_s,
}
use stros.Dictionary.{dvalue}
use stros.Rpc.Xml.{XmlNode}
use stros.Rpc.Markup.{Content}
use stros.Rpc.Plain.{IsPlain, IsPlainItems}
use stros.Rpc.Http.{Socket}
use stros.Rpc.Http.Decode.{NoNul}
use stros.Rpc.Http.Message.{response_text}
use stros.Request.Reply.{gen_rpc_response, response_ok, parse_response}
use stros.Request.RoundTrip.{response_tree, parse_response-gen_rpc_response}
use stros.Api.Topic.{Topic, RosNode}
use stros.Api.Handler.{sends, ready_on, topic_answer, request_topic}

-- The list that `requestTopic` sends for a publisher at an address: one array of the code 1, the
-- text `ready on uri:port` and the array of `TCPROS`, uri and port.
unfoldable pub address_answer : CString → ℤ → Items
unfolding ready_on
address_answer uri port =
    node
      (array (
        node (int (pos 1)) (
          node (string (ready_on uri port)) (
            node (array (node (string (codes "TCPROS")) (node (string uri) (node (int port) null))))
              null))))
      null

module _ ⦃fl : Floats⦄ where
  topic_answer-address :
      (tp : Topic) (uri : CString)
      → tp.uri ≡ some uri
      → topic_answer tp ≡ ok (address_answer uri tp.port)
  unfolding topic_answer address_answer list_put_array
  topic_answer-address tp uri h = rw h refl

  address_answer-IsPlainItems :
      (uri : CString) (port : ℤ) → uri ≢ [] → IsPlainItems (address_answer uri port)
  unfolding address_answer IsPlain
  address_answer-IsPlainItems uri port h =
      (inr ((tt, ((λ e. cc), (inr (((λ e. cc), (h, (tt, tt))), (λ e. cc)), tt))), (λ e. cc)), tt)

  not_null : (uri : CString) (port : ℤ) → address_answer uri port ≢ null
  unfolding address_answer
  not_null uri port e = cc

  -- The message that `requestTopic` answers with.
  pub request_topic-address_answer :
      (nd : RosNode) (params : Items) (topic uri : CString) (tp : Topic)
      → value_s (list_at params (pos 1)) ≡ ok topic
      → dvalue nd.publishers topic ≡ some tp
      → tp.uri ≡ some uri
      → request_topic nd params 3
        ≡ ok (nd, sends (response_text (gen_rpc_response (address_answer uri tp.port))))
  unfolding request_topic
  request_topic-address_answer nd params topic uri tp named known at =
      rw (named, known, topic_answer-address tp uri at) refl

  module _ (other : Content → Option CString) (parse_xml : CString → Option XmlNode) where
    -- The answer of a node to `requestTopic` is read by the caller as the code 1, the text that
    -- says where the topic is ready, and the protocol `TCPROS` with the uri and the port of the
    -- publisher, and asking changes nothing in the node: for a call of three parameters that names
    -- a publisher which has a uri that is not empty, an answer without NUL and of fewer than 10^9
    -- bytes, and an XML library that parses the answer as its document.
    pub request_topic-parse_response :
        (nd : RosNode) (params : Items) (topic uri : CString) (tp : Topic) (rest : Socket)
        → value_s (list_at params (pos 1)) ≡ ok topic
        → dvalue nd.publishers topic ≡ some tp
        → tp.uri ≡ some uri
        → uri ≢ []
        → NoNul (gen_rpc_response (address_answer uri tp.port))
        → length (gen_rpc_response (address_answer uri tp.port)) < 10 ^ 9
        → parse_xml (gen_rpc_response (address_answer uri tp.port))
          ≡ some (response_tree other (address_answer uri tp.port))
        → (text : CString) × (request_topic nd params 3 ≡ ok (nd, sends text))
          × (parse_response parse_xml (text ++ rest)
              ≡ ok (some (response_ok 1 (address_answer uri tp.port)), rest))
    unfolding request_topic count address_answer
    request_topic-parse_response nd params topic uri tp rest named known at filled plain small doc =
        (
          response_text (gen_rpc_response (address_answer uri tp.port)),
          request_topic-address_answer nd params topic uri tp named known at,
          parse_response-gen_rpc_response other parse_xml (address_answer uri tp.port) rest
              (address_answer-IsPlainItems uri tp.port filled) (not_null uri tp.port) plain small
              doc,
        )
