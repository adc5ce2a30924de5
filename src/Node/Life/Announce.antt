-- ===== src/Node/Life/Announce.antt =====
-- From the calls of a program to the messages for the master: `stros_node_deploy` on a node that
-- has been made and given its topics.
use stros.Prelude.{
  ℕ, ◌≡◌, refl, ◌∙◌, sym, ap, true, List, [], ◌∷◌, ◌++◌, Option, some, none, ok, Bool-cases,
  Option-cases, inl, inr,
}
use stros.CString.{CString, codes, equ}
use stros.Dictionary.{Association, Buckets, find, dlookup, value_of, dvalue, associations}
use stros.Dictionary.Lookup.{dvalue_lem}
use stros.Dictionary.Validity.{IsValid}
use stros.Dictionary.Iteration.{find-associations}
use stros.ItemList.{Floats}
use stros.Rpc.Xml.{XmlNode}
use stros.Api.Topic.{Topic, RosNode}
use stros.Node.Register.{Contact, Deployed, sents}
use stros.Node.Register.Failure.{register_text, register_texts}
use stros.Node.Config.{Entry, stros_init_node}
use stros.Node.Config.Values.{stros_init_node-dict}
use stros.Node.Life.{deployed, node_api, stros_node_deploy}
use stros.Node.Life.Deploy.{stros_node_deploy-sents}
use stros.Node.Topics.Program.{
  Side, subscribed, published, Setup, table, new_topic, configured, last_setup, HasTables, made,
  configured_lem, fresh-HasTables, fresh-table,
}

-- Where a key is found among the visited nodes, the message for its topic is among the messages.
module _ ⦃fl : Floats⦄ (parse_xml : CString → Option XmlNode) (nd : RosNode) (api : CString) (n : ℕ)
    (method : CString) where
  Among : Topic → List CString → Type 0
  Among tp texts =
      (before after : List CString) × (texts
        ≡ before ++ register_text parse_xml nd api n method tp ∷ after)

  find-Among :
      (q : CString) (l : List (Association Topic)) (np : Association Topic)
      → find q l ≡ some np
      → Among np.value (register_texts parse_xml nd api n method l)
  unfolding find register_texts Among
  find-Among q [] np h = absurd (cc)
  find-Among q (mp ∷ l) np h = elim (Bool-cases (equ q mp.key)) [
    | inl e ↦
        let found : some mp ≡ some np = rw (find, e) at h in
        let same : mp ≡ np = cc in
        rw (← same) ([], register_texts parse_xml nd api n method l, refl)
    | inr e ↦
        let (before, after, at) = find-Among q l np (rw (find, e) at h) in
        (
          register_text parse_xml nd api n method mp.value ∷ before,
          after,
          ap (λ r. register_text parse_xml nd api n method mp.value ∷ r) at,
        )
  ]

pub dvalue-dlookup :
    (dic : Buckets Topic) (q : CString) (tp : Topic)
    → dvalue (some dic) q ≡ some tp
    → (np : Association Topic) × (dlookup (some dic) q ≡ some np) × (np.value ≡ tp)
unfolding value_of
dvalue-dlookup dic q tp h = elim (Option-cases (dlookup (some dic) q)) [
  | inl e ↦ absurd (let no : none ≡ some tp = rw (dvalue_lem (some dic) q, e) at h in cc)
  | inr (np, e) ↦
      let found : some np.value ≡ some tp = rw (dvalue_lem (some dic) q, e) at h in
      let same : np.value ≡ tp = cc in (np, e, same)
]

abbrev pub method_of : Side → CString
method_of subscribed = codes "registerSubscriber"
method_of published = codes "registerPublisher"

-- The messages of a deployment, by the table.
abbrev pub messages : Side → List Deployed → List Deployed → List CString
messages subscribed subs pubs = sents subs
messages published subs pubs = sents pubs

module _ ⦃fl : Floats⦄ (parse_xml : CString → Option XmlNode) (n : ℕ) where
  table-Among :
      (nd : RosNode) (api : CString) (method q : CString) (dic : Buckets Topic) (tp : Topic)
      → IsValid dic
      → dvalue (some dic) q ≡ some tp
      → Among parse_xml nd api n method tp
          (register_texts parse_xml nd api n method (associations dic))
  unfolding Among
  table-Among nd api method q dic tp valid at =
      let (np, found, same) = dvalue-dlookup dic q tp at in
      rw (← same) (
        find-Among parse_xml nd api n method q (associations dic) np
          ((find-associations q dic valid).0 ∙ found))

  messages-register_texts :
      (nd nd' : RosNode) (ip api : CString) (port : ℕ) (junk : Option CString)
      (sub_contacts pub_contacts : ℕ → Contact) (subs pubs : List Deployed) (sent : List CString)
      (side : Side) (dic : Buckets Topic)
      → HasTables nd
      → table side nd ≡ some dic
      → stros_node_deploy parse_xml n nd true ip port junk sub_contacts pub_contacts
        ≡ ok (deployed api nd' subs pubs sent)
      → messages side subs pubs
        ≡ register_texts parse_xml nd (node_api ip port) n (method_of side) (associations dic)
  unfolding HasTables
  messages-register_texts nd nd' ip api port junk sub_contacts pub_contacts subs pubs sent
        subscribed dic has at run =
      let (other, its, _) = has published in
      (stros_node_deploy-sents parse_xml n nd nd' other dic ip api port junk sub_contacts
        pub_contacts subs pubs sent its at run).2
  messages-register_texts nd nd' ip api port junk sub_contacts pub_contacts subs pubs sent published
        dic has at run =
      let (other, its, _) = has subscribed in
      (stros_node_deploy-sents parse_xml n nd nd' dic other ip api port junk sub_contacts
        pub_contacts subs pubs sent at its run).3

  register_text_named :
      (nd nd' : RosNode) (api method : CString) (tp : Topic)
      → nd'.id ≡ nd.id
      → register_text parse_xml nd' api n method tp ≡ register_text parse_xml nd api n method tp
  register_text_named nd nd' api method tp h = rw h refl

  -- What a program sets up is announced: a node that `stros_init_node` makes, that is given topics
  -- by any sequence of `subscribe_to` and `create_publisher` and comes through
  -- `stros_node_deploy`, has sent the master, among the messages for its subscribers or its
  -- publishers, `registerSubscriber` or `registerPublisher` for every topic of the calls of this
  -- kind, with the name of the node, the topic, the type of the last such call for it, and the url
  -- of the node. This is where memory is not short and the server gets its thread, whatever the
  -- master answers.
  pub stros_node_deploy-last_setup :
      (ini_parse : CString → Option (List Entry)) (now : ℕ) (name conf : Option CString)
      (nd nd' : RosNode) (calls : List Setup) (ip api : CString) (port : ℕ) (junk : Option CString)
      (sub_contacts pub_contacts : ℕ → Contact) (subs pubs : List Deployed) (sent : List CString)
      (side : Side) (topic : CString) (s : Setup)
      → stros_init_node ini_parse now name conf ≡ some nd
      → last_setup side topic none calls ≡ some s
      → stros_node_deploy parse_xml n
          (configured nd calls)
          true
          ip
          port
          junk
          sub_contacts
          pub_contacts
        ≡ ok (deployed api nd' subs pubs sent)
      → (before after : List CString) × (messages side subs pubs
          ≡ before
            ++ register_text parse_xml nd
                (node_api ip port)
                n
                (method_of side)
                (new_topic side nd s)
              ∷ after)
  unfolding HasTables Among
  stros_node_deploy-last_setup ini_parse now name conf nd nd' calls ip api port junk sub_contacts
        pub_contacts subs pubs sent side topic s init last run =
      let (no_subs, no_pubs) = stros_init_node-dict ini_parse now name conf nd init in
      let (has, id, at) =
        configured_lem nd calls side topic none (fresh-HasTables nd no_subs no_pubs)
          (fresh-table nd side topic no_subs no_pubs) in
      let (dic, its, valid) = has side in
      let bound : dvalue (some dic) topic ≡ some (new_topic side nd s) =
        ap (λ p. dvalue p topic) (sym its) ∙ at ∙ ap (made side nd) last in
      let (before, after, among) =
        table-Among (configured nd calls) (node_api ip port) (method_of side) topic dic
          (new_topic side nd s) valid bound in
      (
        before,
        after,
        messages-register_texts (configured nd calls) nd' ip api port junk sub_contacts pub_contacts
              subs pubs sent side dic has its run
            ∙ among
            ∙ ap (λ m. before ++ m ∷ after)
                (register_text_named nd (configured nd calls) (node_api ip port) (method_of side)
                  (new_topic side nd s) id),
      )
