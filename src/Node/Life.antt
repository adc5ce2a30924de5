-- ===== src/Node/Life.antt =====
-- The life of a node: `stros_node_deploy` and `stros_stop` of stros.c.
pub mod Stop
pub mod Deploy
pub mod Announce
pub mod Unreached
use stros.Prelude.{
  ℕ, suc, Bool, true, false, List, [], ◌∷◌, ◌++◌, if◌then◌else◌, Option, some, none, Run, ok, fault,
  ◌>>=◌,
}
use stros.CString.{CString, codes, digits}
use stros.Dictionary.{Association}
use stros.ItemList.{Floats}
use stros.Rpc.Xml.{XmlNode}
use stros.Request.Exchange.{Exchanged}
use stros.Api.Topic.{Topic, RosNode}
use stros.Api.Stream.{Stream}
use stros.Node.Master.{unregister}
use stros.Node.Register.{
  Contact, Deployed, sents, visited, stros_deploy_publishers, stros_deploy_subscribers,
}

-- `"http://%s:%d"` of the address of the node and the port of its server.
unfoldable pub node_api : CString → ℕ → CString
unfolding digits
node_api ip port = codes "http://" ++ (ip ++ b':' ∷ digits port)

-- A node that has been stopped: the exchanges of its calls, and `ros_ok`.
pub record Stopped : Type 0 where
  pub calls : List Exchanged
  pub ros_ok : Bool

-- What a deployment comes to: a node with its api, what became of its subscribers and of its
-- publishers, and all the messages to the master in the order in which they were sent; or the stop
-- where no thread can be made for its server.
pub data Deployment : Type 0 where
  deployed : CString → RosNode → List Deployed → List Deployed → List CString → Deployment
  gave_up : Stopped → Deployment

module _ ⦃fl : Floats⦄ (parse_xml : CString → Option XmlNode) (api : Option CString) (n : ℕ) where
  -- The loops of `stros_stop`, the contacts by the number of the round.
  unfoldable pub unregister_loop :
      CString → (ℕ → Contact) → ℕ → List (Association Topic) → Run (List Exchanged)
  unfolding unregister
  unregister_loop method contacts i [] = ok []
  unregister_loop method contacts i (np ∷ rest) = do
    (e, code) ←
        unregister parse_xml (contacts i).back_calls (contacts i).back_peer np.value api method n
    es ← unregister_loop method contacts (suc i) rest
    ok (e ∷ es)

  -- `stros_stop`, up to the end of the thread.
  unfoldable pub stros_stop : RosNode → (ℕ → Contact) → (ℕ → Contact) → Run Stopped
  unfolding visited unregister_loop
  stros_stop nd pub_contacts sub_contacts = do
    pubs ← visited nd.publishers
    es ← unregister_loop (codes "unregisterPublisher") pub_contacts 0 pubs
    subs ← visited nd.subscribers
    ds ← unregister_loop (codes "unregisterSubscriber") sub_contacts 0 subs
    ok (record { calls = es ++ ds; ros_ok = false })

module _ ⦃fl : Floats⦄ (parse_xml : CString → Option XmlNode) (n : ℕ) where
  -- `stros_node_deploy`: `thread` says whether the server gets its thread, `ip` and `port` are what
  -- `get_ip_address` and the server give; `junk` is what `malloc` left in the api of the node.
  unfoldable pub stros_node_deploy :
      RosNode → Bool → CString → ℕ → Option CString → (ℕ → Contact) → (ℕ → Contact) → Run Deployment
  unfolding stros_stop stros_deploy_publishers stros_deploy_subscribers
  stros_node_deploy nd thread ip port junk sub_contacts pub_contacts =
      if thread
      then (do
        (nd', subs) ← stros_deploy_subscribers parse_xml nd (some (node_api ip port)) n sub_contacts
        let sent = sents subs
        pubs ← stros_deploy_publishers parse_xml nd' (some (node_api ip port)) n pub_contacts
        let sent' = sent ++ sents pubs
        ok (deployed (node_api ip port) nd' subs pubs sent'))
      else (do
        stopped ← stros_stop parse_xml junk n nd pub_contacts sub_contacts
        ok (gave_up stopped))
