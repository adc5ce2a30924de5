-- ===== src/Node/Life/Deploy.antt =====
-- `stros_node_deploy` as a whole.
use stros.Prelude.{
  ℕ, ◌≡◌, refl, ◌∙◌, sym, ap, true, List, [], ◌∷◌, ◌++◌, Option, some, Run, ok, >>=-eq-ok,
}
use stros.CString.{CString, codes}
use stros.Dictionary.{Association, Buckets, associations}
use stros.ItemList.{Floats}
use stros.Rpc.Xml.{XmlNode}
use stros.Api.Topic.{Topic, RosNode}
use stros.Api.Handler.{with_subscriber}
use stros.Node.Register.{
  Contact, Deployed, sents, written_back, stros_deploy_publishers, stros_deploy_subscribers,
}
use stros.Node.Register.Failure.{
  register_texts, stros_deploy_publishers-sents, stros_deploy_subscribers-sents,
  stros_deploy_subscribers-written_back,
}
use stros.Node.Life.{deployed, node_api, stros_node_deploy}

written_back_keeps :
    (nd : RosNode) (l : List (Association Topic))
    → ((written_back nd l).publishers ≡ nd.publishers) × ((written_back nd l).id ≡ nd.id)
unfolding written_back with_subscriber
written_back_keeps nd [] = (refl, refl)
written_back_keeps nd (np ∷ l) = written_back_keeps (with_subscriber nd np.key np.value) l

deployed_parts :
    (api api' : CString) (nd nd' : RosNode) (ds ds' es es' : List Deployed)
    (sent sent' : List CString)
    → Run.ok (deployed api nd ds es sent) ≡ ok (deployed api' nd' ds' es' sent')
    → (api ≡ api') × (nd ≡ nd') × (ds ≡ ds') × (es ≡ es') × (sent ≡ sent')
deployed_parts api api' nd nd' ds ds' es es' sent sent' h = (cc, cc, cc, cc, cc)

module _ ⦃fl : Floats⦄ (parse_xml : CString → Option XmlNode) (n : ℕ) where
  -- The messages say the name of the node and nothing else of it.
  register_texts_named :
      (nd nd' : RosNode) (api method : CString) (nps : List (Association Topic))
      → nd'.id ≡ nd.id
      → register_texts parse_xml nd' api n method nps ≡ register_texts parse_xml nd api n method nps
  unfolding register_texts
  register_texts_named nd nd' api method [] h = refl
  register_texts_named nd nd' api method (np ∷ nps) h =
      rw (h, register_texts_named nd nd' api method nps h) refl

  pub stros_node_deploy-sents :
      (nd nd' : RosNode) (pubs subs : Buckets Topic) (ip api : CString) (port : ℕ)
      (junk : Option CString) (sub_contacts pub_contacts : ℕ → Contact) (ds es : List Deployed)
      (sent : List CString)
      → nd.publishers ≡ some pubs
      → nd.subscribers ≡ some subs
      → stros_node_deploy parse_xml n nd true ip port junk sub_contacts pub_contacts
        ≡ ok (deployed api nd' ds es sent)
      → (api ≡ node_api ip port)
        × (nd'.publishers ≡ nd.publishers)
        × (sents ds
            ≡ register_texts parse_xml nd
                (node_api ip port)
                n
                (codes "registerSubscriber")
                (associations subs))
        × (sents es
            ≡ register_texts parse_xml nd
                (node_api ip port)
                n
                (codes "registerPublisher")
                (associations pubs))
        × (sent
            ≡ register_texts parse_xml nd
                (node_api ip port)
                n
                (codes "registerSubscriber")
                (associations subs)
              ++ register_texts parse_xml nd
                  (node_api ip port)
                  n
                  (codes "registerPublisher")
                  (associations pubs))
  unfolding stros_node_deploy
  stros_node_deploy-sents nd nd' pubs subs ip api port junk sub_contacts pub_contacts ds es sent hp
        hs h =
      let (r, first, next) =
        >>=-eq-ok (stros_deploy_subscribers parse_xml nd (some (node_api ip port)) n sub_contacts) _
          h in
      let (es', second, last) =
        >>=-eq-ok (stros_deploy_publishers parse_xml r.0 (some (node_api ip port)) n pub_contacts) _
          next in
      let (l, written) =
        stros_deploy_subscribers-written_back parse_xml nd (node_api ip port) n sub_contacts subs
          r.1 r.0 hs first in
      let (keeps_pubs, keeps_id) = written_back_keeps nd l in
      let its_pubs : r.0.publishers ≡ nd.publishers = rw (← written) keeps_pubs in
      let its_id : r.0.id ≡ nd.id = rw (← written) keeps_id in
      let (same_api, same_nd, same_ds, same_es, same_sent) =
        deployed_parts (node_api ip port) api r.0 nd' r.1 ds es' es (sents r.1 ++ sents es') sent
          last in
      let subs_sent =
        stros_deploy_subscribers-sents parse_xml nd (node_api ip port) n sub_contacts subs r.1 r.0
          hs first in
      let pubs_sent =
        stros_deploy_publishers-sents parse_xml r.0 (node_api ip port) n pub_contacts pubs es'
          (its_pubs ∙ hp) second
        ∙ register_texts_named nd r.0 (node_api ip port) _ (associations pubs) its_id in
      (
        sym same_api,
        sym (ap (λ x. x.publishers) same_nd) ∙ its_pubs,
        ap sents (sym same_ds) ∙ subs_sent,
        ap sents (sym same_es) ∙ pubs_sent,
        sym same_sent
            ∙ ap (λ x. x ++ sents es') subs_sent
            ∙ ap
                (λ y.
                  register_texts parse_xml nd (node_api ip port) n (codes "registerSubscriber")
                    (associations subs)
                  ++ y)
                pubs_sent,
      )
