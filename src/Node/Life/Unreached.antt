-- ===== src/Node/Life/Unreached.antt =====
-- `stros_node_deploy` where the master cannot be reached.
use stros.Prelude.{
  ℕ, ◌≡◌, refl, ◌∙◌, sym, ap, true, List, [], ◌∷◌, Option, some, none, fault, inl, inr, ◌⊎◌,
}
use stros.CString.{CString}
use stros.Dictionary.{Association, Buckets, find, dvalue, associations}
use stros.Dictionary.Validity.{IsValid}
use stros.Dictionary.Iteration.{find-associations}
use stros.ItemList.{Floats}
use stros.Rpc.Xml.{XmlNode}
use stros.Request.Call.{request_socket}
use stros.Api.Topic.{Topic, RosNode}
use stros.Node.Register.{Contact}
use stros.Node.Register.Failure.{
  stros_deploy_publishers_unreached, stros_deploy_subscribers_unreached,
  stros_deploy_subscribers_none,
}
use stros.Node.Config.{Entry, stros_init_node}
use stros.Node.Config.Values.{stros_init_node-dict}
use stros.Node.Life.{node_api, stros_node_deploy}
use stros.Node.Life.Announce.{dvalue-dlookup}
use stros.Node.Topics.Program.{
  Side, subscribed, published, Setup, table, new_topic, configured, last_setup, HasTables, made,
  configured_lem, fresh-HasTables, fresh-table,
}

-- A list in which a key is found has a first node.
found_filled :
    (q : CString) (l : List (Association Topic)) (np : Association Topic)
    → find q l ≡ some np
    → (mp : Association Topic) × (more : List (Association Topic)) × (l ≡ mp ∷ more)
unfolding find
found_filled q [] np h = absurd (cc)
found_filled q (mp ∷ more) np h = (mp, more, refl)

bound_filled :
    (dic : Buckets Topic) (q : CString) (tp : Topic)
    → IsValid dic
    → dvalue (some dic) q ≡ some tp
    → (mp : Association Topic) × (more : List (Association Topic)) × (associations dic ≡ mp ∷ more)
bound_filled dic q tp valid bound =
    let (np, found, same) = dvalue-dlookup dic q tp bound in
    found_filled q (associations dic) np ((find-associations q dic valid).0 ∙ found)

list_cases : {A : Type 0} (l : List A) → (l ≡ []) ⊎ ((x : A) × (more : List A) × (l ≡ x ∷ more))
list_cases [] = inl refl
list_cases (x ∷ more) = inr (x, more, refl)

module _ ⦃fl : Floats⦄ (parse_xml : CString → Option XmlNode) (n : ℕ) (nd : RosNode) (ip : CString)
    (port : ℕ) (junk : Option CString) (sub_contacts pub_contacts : ℕ → Contact)
    (closed closed' : List ℕ) where
  -- A node with a topic in one of its tables.
  deploy_unreached :
      (side : Side) (dic : Buckets Topic) (mp : Association Topic) (more : List (Association Topic))
      → HasTables nd
      → table side nd ≡ some dic
      → associations dic ≡ mp ∷ more
      → request_socket (sub_contacts 0).calls ≡ (none, closed)
      → request_socket (pub_contacts 0).calls ≡ (none, closed')
      → stros_node_deploy parse_xml n nd true ip port junk sub_contacts pub_contacts ≡ fault
  unfolding HasTables stros_node_deploy
  deploy_unreached subscribed dic mp more has its first down down' =
      rw
        (stros_deploy_subscribers_unreached parse_xml nd (node_api ip port) n sub_contacts dic mp
          more closed its first down)
        refl
  deploy_unreached published dic mp more has its first down down' =
      let (subs, at, valid) = has subscribed in
      elim (list_cases (associations subs)) [
        | inl empty ↦
            rw
              (
                stros_deploy_subscribers_none parse_xml nd (node_api ip port) n sub_contacts subs at
                    empty,
                stros_deploy_publishers_unreached parse_xml nd (node_api ip port) n pub_contacts dic
                    mp more closed' its first down',
              )
              refl
        | inr (ns, nss, filled) ↦
            rw
              (stros_deploy_subscribers_unreached parse_xml nd (node_api ip port) n sub_contacts
                subs ns nss closed at filled down)
              refl
      ]

-- A node whose master cannot be reached does not survive its deployment, whether it only
-- publishes, only subscribes or does both: a node that `stros_init_node` makes and that is given
-- topics by any sequence of `subscribe_to` and `create_publisher`, one of them at least, reads the
-- answer that is not there. This is where memory is not short, the server gets its thread, and no
-- socket comes of the first contact for a subscriber and of the first one for a publisher.
pub stros_node_deploy-request_socket :
    ⦃fl : Floats⦄ (parse_xml : CString → Option XmlNode) (n : ℕ)
    (ini_parse : CString → Option (List Entry)) (now : ℕ) (name conf : Option CString)
    (nd : RosNode) (calls : List Setup) (ip : CString) (port : ℕ) (junk : Option CString)
    (sub_contacts pub_contacts : ℕ → Contact) (closed closed' : List ℕ) (side : Side)
    (topic : CString) (s : Setup)
    → stros_init_node ini_parse now name conf ≡ some nd
    → last_setup side topic none calls ≡ some s
    → request_socket (sub_contacts 0).calls ≡ (none, closed)
    → request_socket (pub_contacts 0).calls ≡ (none, closed')
    → stros_node_deploy parse_xml n
        (configured nd calls)
        true
        ip
        port
        junk
        sub_contacts
        pub_contacts
      ≡ fault
unfolding HasTables
stros_node_deploy-request_socket parse_xml n ini_parse now name conf nd calls ip port junk
      sub_contacts pub_contacts closed closed' side topic s init last down down' =
    let (no_subs, no_pubs) = stros_init_node-dict ini_parse now name conf nd init in
    let (has, id, at) =
      configured_lem nd calls side topic none (fresh-HasTables nd no_subs no_pubs)
        (fresh-table nd side topic no_subs no_pubs) in
    let (dic, its, valid) = has side in
    let bound : dvalue (some dic) topic ≡ some (new_topic side nd s) =
      ap (λ p. dvalue p topic) (sym its) ∙ at ∙ ap (made side nd) last in
    let (mp, more, filled) = bound_filled dic topic (new_topic side nd s) valid bound in
    deploy_unreached parse_xml n (configured nd calls) ip port junk sub_contacts pub_contacts closed
      closed' side dic mp more has its filled down down'
