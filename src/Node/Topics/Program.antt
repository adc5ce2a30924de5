-- ===== src/Node/Topics/Program.antt =====
-- Sequences of `subscribe_to` and `create_publisher`, and what the tables of the node hold behind them.
use stros.Prelude.{
  ◌≡◌, refl, ◌∙◌, sym, ap, Bool, true, false, ◌&&◌, List, [], ◌∷◌, Option, some, none,
  if◌then◌else◌,
}
use stros.CString.{CString, equ}
use stros.Dictionary.{Buckets, dict, dput, dvalue}
use stros.Dictionary.Validity.{IsValid, empty_table, dict-IsValid, dput-IsValid}
use stros.Dictionary.History.{PointsToValid-some}
use stros.Api.Topic.{Topic, RosNode}
use stros.Node.Topics.{
  new_subscriber, new_publisher, subscribe_to, create_publisher, dvalue-subscribe_to,
  dvalue-create_publisher,
}

pub data Side : Type 0 where
  subscribed published : Side

-- A call of `subscribe_to` or `create_publisher`, with what `malloc` left in the new node of the
-- table and in `data_ok`.
pub record Setup : Type 0 where
  pub side : Side
  pub junk : Topic
  pub old : Bool
  pub topic : CString
  pub type : CString

abbrev pub table : Side → RosNode → Option (Buckets Topic)
table subscribed nd = nd.subscribers
table published nd = nd.publishers

abbrev pub new_topic : Side → RosNode → Setup → Topic
new_topic subscribed nd s = new_subscriber nd s.old s.topic s.type
new_topic published nd s = new_publisher nd s.topic s.type

abbrev call_side : Side → RosNode → Setup → RosNode
call_side subscribed nd s = subscribe_to true s.junk s.old nd s.topic s.type
call_side published nd s = (create_publisher true s.junk nd s.topic s.type).0

-- The node after the calls.
unfoldable pub configured : RosNode → List Setup → RosNode
configured nd [] = nd
configured nd (s ∷ l) = configured (call_side s.side nd s) l

abbrev same_side : Side → Side → Bool
same_side subscribed subscribed = true
same_side published published = true
same_side _ _ = false

-- The last call for a topic.
unfoldable pub last_setup : Side → CString → Option Setup → List Setup → Option Setup
last_setup side q kept [] = kept
last_setup side q kept (s ∷ l) =
    last_setup side q (if same_side s.side side && equ q s.topic then some s else kept) l

-- Both tables are there and valid.
unfoldable pub HasTables : RosNode → Type 0
HasTables nd = (side : Side) → (dic : Buckets Topic) × (table side nd ≡ some dic) × IsValid dic

put-IsValid :
    (p : Option (Buckets Topic)) (dic : Buckets Topic) (key : CString) (junk v : Topic)
    → p ≡ some dic
    → IsValid dic
    → (dic' : Buckets Topic) × ((dput true junk p key v).0 ≡ some dic') × IsValid dic'
put-IsValid p dic key junk v at valid =
    let (dic', put, valid') =
      PointsToValid-some (dput true junk (some dic) key v).0
        (dput-IsValid dic key true junk v valid) in
    (dic', ap (λ r. (dput true junk r key v).0) at ∙ put, valid')

call_side-HasTables :
    (nd : RosNode) (s : Setup) (by : Side) → HasTables nd → HasTables (call_side by nd s)
unfolding HasTables subscribe_to create_publisher
call_side-HasTables nd s subscribed has published = has published
call_side-HasTables nd s published has subscribed = has subscribed
call_side-HasTables nd s subscribed has subscribed =
    let (dic, at, valid) = has subscribed in
    put-IsValid nd.subscribers dic s.topic s.junk (new_subscriber nd s.old s.topic s.type) at valid
call_side-HasTables nd s published has published =
    let (dic, at, valid) = has published in
    put-IsValid nd.publishers dic s.topic s.junk (new_publisher nd s.topic s.type) at valid

dvalue-call_side :
    (nd : RosNode) (s : Setup) (by side : Side) (q : CString)
    → HasTables nd
    → dvalue (table side (call_side by nd s)) q ≡ (
        if same_side by side && equ q s.topic
        then some (new_topic by nd s)
        else dvalue (table side nd) q)
unfolding HasTables new_publisher create_publisher
dvalue-call_side nd s subscribed subscribed q has =
    let (dic, at, valid) = has subscribed in
    (dvalue-subscribe_to nd dic s.junk s.old s.topic s.type q at valid.wide).0
dvalue-call_side nd s subscribed published q has =
    let (dic, at, valid) = has subscribed in
    ap (λ p. dvalue p q) (dvalue-subscribe_to nd dic s.junk s.old s.topic s.type q at valid.wide).1
dvalue-call_side nd s published subscribed q has =
    let (dic, at, valid) = has published in
    ap (λ p. dvalue p q) (dvalue-create_publisher nd dic s.junk s.topic s.type q at valid.wide).1
dvalue-call_side nd s published published q has =
    let (dic, at, valid) = has published in
    (dvalue-create_publisher nd dic s.junk s.topic s.type q at valid.wide).0

call_side-id : (nd : RosNode) (s : Setup) (by : Side) → (call_side by nd s).id ≡ nd.id
unfolding subscribe_to create_publisher
call_side-id nd s subscribed = refl
call_side-id nd s published = refl

-- The topic that a call made, if there was one.
abbrev pub made : Side → RosNode → Option Setup → Option Topic
made side nd none = none
made side nd (some s) = some (new_topic side nd s)

made_named :
    (side : Side) (nd nd' : RosNode) (o : Option Setup)
    → nd'.id ≡ nd.id
    → made side nd' o ≡ made side nd o
unfolding new_subscriber new_publisher
made_named side nd nd' none h = refl
made_named subscribed nd nd' (some s) h = rw h refl
made_named published nd nd' (some s) h = rw h refl

made_step :
    (nd : RosNode) (s : Setup) (by side : Side) (b : Bool) (kept : Option Setup)
    → (if same_side by side && b then some (new_topic by nd s) else made side nd kept)
      ≡ made side nd (if same_side by side && b then some s else kept)
made_step nd s subscribed subscribed true kept = refl
made_step nd s subscribed subscribed false kept = refl
made_step nd s subscribed published b kept = refl
made_step nd s published subscribed b kept = refl
made_step nd s published published true kept = refl
made_step nd s published published false kept = refl

-- What a table holds after the calls, and that it is valid.
pub configured_lem :
    (nd : RosNode) (l : List Setup) (side : Side) (q : CString) (kept : Option Setup)
    → HasTables nd
    → dvalue (table side nd) q ≡ made side nd kept
    → HasTables (configured nd l)
      × ((configured nd l).id ≡ nd.id)
      × (dvalue (table side (configured nd l)) q ≡ made side nd (last_setup side q kept l))
unfolding configured last_setup
configured_lem nd [] side q kept has at = (has, refl, at)
configured_lem nd (s ∷ l) side q kept has at =
    let nd' = call_side s.side nd s in
    let named = call_side-id nd s s.side in
    let kept' = if same_side s.side side && equ q s.topic then some s else kept in
    let now : dvalue (table side nd') q ≡ made side nd' kept' =
      dvalue-call_side nd s s.side side q has
      ∙ ap (λ o. if same_side s.side side && equ q s.topic then some (new_topic s.side nd s) else o)
          at
      ∙ made_step nd s s.side side (equ q s.topic) kept
      ∙ sym (made_named side nd nd' kept' named) in
    let (has', id, last) =
      configured_lem nd' l side q kept' (call_side-HasTables nd s s.side has) now in
    (has', id ∙ named, last ∙ made_named side nd nd' _ named)

pub fresh-HasTables : (nd : RosNode) → nd.subscribers ≡ dict → nd.publishers ≡ dict → HasTables nd
unfolding HasTables
fresh-HasTables nd subs pubs subscribed = (empty_table, subs ∙ dict-IsValid.0, dict-IsValid.1)
fresh-HasTables nd subs pubs published = (empty_table, pubs ∙ dict-IsValid.0, dict-IsValid.1)

pub fresh-table :
    (nd : RosNode) (side : Side) (q : CString)
    → nd.subscribers ≡ dict
    → nd.publishers ≡ dict
    → dvalue (table side nd) q ≡ none
fresh-table nd subscribed q subs pubs =
    ap (λ p. dvalue p q) (subs ∙ dict-IsValid.0) ∙ dict-IsValid.2 q
fresh-table nd published q subs pubs =
    ap (λ p. dvalue p q) (pubs ∙ dict-IsValid.0) ∙ dict-IsValid.2 q
