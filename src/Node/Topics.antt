-- ===== src/Node/Topics.antt =====
-- The topics of a node: `subscribe_to`, `create_publisher` and `publish` of stros.c.
pub mod Program
use stros.Prelude.{◌≡◌, refl, ◌∙◌, Bool, true, false, if◌then◌else◌, Option, some, none, pos}
use stros.CString.{CString, codes, equ}
use stros.Dictionary.{Buckets, dvalue, dput}
use stros.Dictionary.Lookup.{IsWide, dvalue-dput}
use stros.Api.Topic.{Topic, RosNode, active, down}

-- The new `subscriber`; `data_ok` is what `malloc` left there.
unfoldable pub new_subscriber : RosNode → Bool → CString → CString → Topic
new_subscriber nd junk topic type = record {
  callerid = nd.id;
  topic = topic;
  type = type;
  uri = none;
  port = pos 0;
  status = down;
  data_ok = junk;
  payload = none;
}

unfoldable pub new_publisher : RosNode → CString → CString → Topic
new_publisher nd topic type = record {
  callerid = nd.id;
  topic = topic;
  type = type;
  uri = none;
  port = pos 0;
  status = active;
  data_ok = false;
  payload = some (codes "Hello from stros, here");
}

-- The code does not look at what `dput` returns; `alloc` and `junk` are those of `dput`.
unfoldable pub subscribe_to : Bool → Topic → Bool → RosNode → CString → CString → RosNode
unfolding dput
subscribe_to alloc junk old nd topic type = record nd {
  subscribers = (dput alloc junk nd.subscribers topic (new_subscriber nd old topic type)).0;
}

unfoldable pub create_publisher : Bool → Topic → RosNode → CString → CString → RosNode × Topic
unfolding dput
create_publisher alloc junk nd topic type = (
  record nd { publishers = (dput alloc junk nd.publishers topic (new_publisher nd topic type)).0 },
  new_publisher nd topic type,
)

-- `publish`
unfoldable pub publish : Topic → CString → Topic
publish pub_topic msg = record pub_topic { data_ok = true; payload = some msg }

put_at :
    (subs : Option (Buckets Topic)) (dic : Buckets Topic) (junk v : Topic) (topic q : CString)
    → subs ≡ some dic
    → IsWide dic
    → dvalue (dput true junk subs topic v).0 q ≡ (if equ q topic then some v else dvalue subs q)
put_at subs dic junk v topic q has wide =
    let (placed, found) = dvalue-dput dic wide topic q true junk v in
    rw has (found ∙ rw placed refl)

-- A topic that is subscribed to is found under its name, down and without an address, as the node
-- named it; every other subscription and all publishers stay. This is for a table that has its
-- 1024 chains and memory that is not short.
pub dvalue-subscribe_to :
    (nd : RosNode) (dic : Buckets Topic) (junk : Topic) (old : Bool) (topic type q : CString)
    → nd.subscribers ≡ some dic
    → IsWide dic
    → (dvalue (subscribe_to true junk old nd topic type).subscribers q ≡ (
        if equ q topic then some (new_subscriber nd old topic type) else dvalue nd.subscribers q))
      × ((subscribe_to true junk old nd topic type).publishers ≡ nd.publishers)
dvalue-subscribe_to nd dic junk old topic type q has wide = (
  unfold subscribe_to in
      put_at nd.subscribers dic junk (new_subscriber nd old topic type) topic q has wide,
  unfold subscribe_to in refl,
)

-- A publisher that is created is found under its topic, and is the one that is returned; every
-- other publisher and all subscriptions stay. This is for a table that has its 1024 chains and
-- memory that is not short.
pub dvalue-create_publisher :
    (nd : RosNode) (dic : Buckets Topic) (junk : Topic) (topic type q : CString)
    → nd.publishers ≡ some dic
    → IsWide dic
    → let r = create_publisher true junk nd topic type in
      (dvalue r.0.publishers q ≡ (if equ q topic then some r.1 else dvalue nd.publishers q))
      × (r.0.subscribers ≡ nd.subscribers)
dvalue-create_publisher nd dic junk topic type q has wide = (
  unfold create_publisher in
      put_at nd.publishers dic junk (new_publisher nd topic type) topic q has wide,
  unfold create_publisher in refl,
)
