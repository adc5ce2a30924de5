-- ===== src/Api/Stream/Bound.antt =====
-- How much a connection sends.
use stros.Prelude.{
  ℕ, suc, ◌+◌, ◌≤◌, ◌≡◌, refl, inl, inr, Bool, true, false, not, List, [], ◌∷◌, ◌==◌, arith,
  Bool-cases, ==_iff, length, length-append,
}
use stros.CString.{CString}
use stros.Api.Topic.{Topic}
use stros.Node.Topics.{publish}
use stros.Api.Data.{Sends, tcp_send_data}
use stros.Api.Stream.{
  Place, absent, waiting, marking, sending, testing, returned, Conn, Stream, Event, published,
  stopped, connected, moved, goes_on, publish_tcp_data, update, step, steps, publishes, fresh,
  started,
}

-- 1 for a mark that is set.
abbrev pub mark : Bool → ℕ
mark true = 1
mark false = 0

-- What a thread may still send of what has been published.
abbrev owed : Place → Bool → ℕ
owed absent data_ok = mark data_ok
owed waiting data_ok = mark data_ok
owed marking data_ok = 1
owed sending data_ok = 1 + mark data_ok
owed (testing sent) data_ok = mark data_ok
owed returned data_ok = 0

-- The one message more that a thread sends when it leaves the wait because of the stop.
abbrev extra : Place → Bool → ℕ
extra absent goes = 0
extra waiting goes = 0
extra p goes = mark (not goes)

-- What is known of a connection after so many calls of `publish`.
abbrev IsBounded : ℕ → Bool → Topic → Conn → Type 0
IsBounded n ros_ok tp c =
    length c.out + owed c.place tp.data_ok ≤ n + extra c.place (goes_on ros_ok tp)

own-IsBounded :
    (n : ℕ) (sends : Sends) (ros_ok : Bool) (tp : Topic) (c : Conn) (p : Place)
    → c.place ≡ p
    → IsBounded n ros_ok tp c
    → let r = publish_tcp_data sends ros_ok tp c p in IsBounded n ros_ok r.0 r.1
unfolding publish_tcp_data
own-IsBounded n sends ros_ok tp c absent e h = h
own-IsBounded n sends ros_ok tp c waiting e h = ground arith
own-IsBounded n sends ros_ok tp c marking e h = ground arith
own-IsBounded n sends ros_ok tp c sending e h =
    ground (arith, length-append c.out ((tcp_send_data sends tp).0 ∷ []))
own-IsBounded n sends ros_ok tp c (testing sent) e h = ground arith
own-IsBounded n sends ros_ok tp c returned e h = h

-- What one thread does to the topic leaves the bound of another.
other-IsBounded :
    (n : ℕ) (sends : Sends) (ros_ok : Bool) (tp : Topic) (c d : Conn) (p : Place)
    → IsBounded n ros_ok tp d
    → IsBounded n ros_ok (publish_tcp_data sends ros_ok tp c p).0 d
unfolding publish_tcp_data
other-IsBounded n sends ros_ok tp c d absent h = h
other-IsBounded n sends ros_ok tp c d waiting h = ground arith
other-IsBounded n sends ros_ok tp c d marking h = ground arith
other-IsBounded n sends ros_ok tp c d sending h = h
other-IsBounded n sends ros_ok tp c d (testing sent) h = h
other-IsBounded n sends ros_ok tp c d returned h = h

pub update_at : (conns : ℕ → Conn) (i j : ℕ) (c : Conn) → (i == j) ≡ true → update conns i c j ≡ c
unfolding update
update_at conns i j c h = rw h refl

pub update_other :
    (conns : ℕ → Conn) (i j : ℕ) (c : Conn) → (i == j) ≡ false → update conns i c j ≡ conns j
unfolding update
update_other conns i j c h = rw h refl

started-IsBounded :
    (n : ℕ) (ros_ok : Bool) (tp : Topic) (c : Conn) (p : Place)
    → c.place ≡ p
    → IsBounded n ros_ok tp c
    → IsBounded n ros_ok tp (record c { place = started p })
unfolding started
started-IsBounded n ros_ok tp c absent e h = ground arith
started-IsBounded n ros_ok tp c waiting e h = ground arith
started-IsBounded n ros_ok tp c marking e h = ground arith
started-IsBounded n ros_ok tp c sending e h = ground arith
started-IsBounded n ros_ok tp c (testing sent) e h = ground arith
started-IsBounded n ros_ok tp c returned e h = ground arith

published-IsBounded :
    (n : ℕ) (ros_ok : Bool) (tp : Topic) (c : Conn) (p : Place) (msg : CString)
    → c.place ≡ p
    → IsBounded n ros_ok tp c
    → IsBounded (suc n) ros_ok (publish tp msg) c
unfolding publish goes_on
published-IsBounded n ros_ok tp c absent msg e h = ground arith
published-IsBounded n ros_ok tp c waiting msg e h = ground arith
published-IsBounded n ros_ok tp c marking msg e h = ground arith
published-IsBounded n ros_ok tp c sending msg e h = ground arith
published-IsBounded n ros_ok tp c (testing sent) msg e h = ground arith
published-IsBounded n ros_ok tp c returned msg e h = ground arith

stopped-IsBounded :
    (n : ℕ) (ros_ok : Bool) (tp : Topic) (c : Conn) (p : Place)
    → c.place ≡ p
    → IsBounded n ros_ok tp c
    → IsBounded n false tp c
unfolding goes_on
stopped-IsBounded n ros_ok tp c absent e h = ground arith
stopped-IsBounded n ros_ok tp c waiting e h = ground arith
stopped-IsBounded n ros_ok tp c marking e h = ground arith
stopped-IsBounded n ros_ok tp c sending e h = ground arith
stopped-IsBounded n ros_ok tp c (testing sent) e h = ground arith
stopped-IsBounded n ros_ok tp c returned e h = ground arith

-- The bound of every connection holds after every event.
step-IsBounded :
    (n : ℕ) (s : Stream) (e : Event) (j : ℕ)
    → IsBounded n s.ros_ok s.topic (s.conns j)
    → let t = step s e in IsBounded (publishes (e ∷ []) + n) t.ros_ok t.topic (t.conns j)
unfolding step publishes
step-IsBounded n s (published msg) j h =
    omega (arith, published-IsBounded n s.ros_ok s.topic (s.conns j) _ msg refl h)
step-IsBounded n s stopped j h =
    omega (arith, stopped-IsBounded n s.ros_ok s.topic (s.conns j) _ refl h)
step-IsBounded n s (connected i) j h =
    let c = record (s.conns i) { place = started (s.conns i).place } in
    elim (Bool-cases (i == j)) [
      | inl e ↦
          let same : i ≡ j = (==_iff i j).0 e in
          let here : IsBounded n s.ros_ok s.topic (s.conns i) = rw same h in
          rw (update_at s.conns i j c e)
            (omega (arith, started-IsBounded n s.ros_ok s.topic (s.conns i) _ refl here))
      | inr e ↦ rw (update_other s.conns i j c e) (omega arith)
    ]
step-IsBounded n s (moved i sends) j h =
    let r = publish_tcp_data sends s.ros_ok s.topic (s.conns i) (s.conns i).place in
    elim (Bool-cases (i == j)) [
      | inl e ↦
          let same : i ≡ j = (==_iff i j).0 e in
          let here : IsBounded n s.ros_ok s.topic (s.conns i) = rw same h in
          rw (update_at s.conns i j r.1 e)
            (omega (arith, own-IsBounded n sends s.ros_ok s.topic (s.conns i) _ refl here))
      | inr e ↦
          rw (update_other s.conns i j r.1 e)
            (omega (arith, other-IsBounded n sends s.ros_ok s.topic (s.conns i) (s.conns j) _ h))
    ]

publishes-cons :
    (e : Event) (es : List Event) → publishes (e ∷ es) ≡ publishes (e ∷ []) + publishes es
unfolding publishes
publishes-cons (published msg) es = omega arith
publishes-cons stopped es = omega arith
publishes-cons (connected i) es = omega arith
publishes-cons (moved i sends) es = omega arith

steps-IsBounded :
    (n : ℕ) (s : Stream) (es : List Event) (j : ℕ)
    → IsBounded n s.ros_ok s.topic (s.conns j)
    → let t = steps s es in IsBounded (publishes es + n) t.ros_ok t.topic (t.conns j)
unfolding steps
steps-IsBounded n s [] j h = unfold publishes in omega arith
steps-IsBounded n s (e ∷ es) j h = omega (
  arith,
  publishes-cons e es,
  steps-IsBounded (publishes (e ∷ []) + n) (step s e) es j (step-IsBounded n s e j h),
)

-- Whatever the order of the events and the number of connections, a run from a topic that has
-- nothing to send makes at most as many sends on each connection as it calls `publish`, and one
-- more only once the node is stopped or the topic down.
pub length-steps :
    (tp : Topic) (es : List Event) (j : ℕ)
    → tp.data_ok ≡ false
    → let t = steps (fresh tp) es in
      length (t.conns j).out ≤ publishes es + mark (not (goes_on t.ros_ok t.topic))
length-steps tp es j h =
    let start : IsBounded 0 true tp ((fresh tp).conns j) = unfold fresh in ground arith in
    let bound = steps-IsBounded 0 (fresh tp) es j (unfold fresh in start) in
    ground (
      arith,
      at_most ((steps (fresh tp) es).conns j).place
          (goes_on (steps (fresh tp) es).ros_ok (steps (fresh tp) es).topic),
    )
  where
    at_most : (p : Place) (goes : Bool) → extra p goes ≤ mark (not goes)
    at_most absent goes = omega arith
    at_most waiting goes = omega arith
    at_most _ goes = omega arith
