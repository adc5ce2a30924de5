-- ===== src/Api/Stream/Stop.antt =====
-- How the threads of a topic end.
use stros.Prelude.{
  ℕ, suc, ◌+◌, ◌-◌, ◌≤◌, ◌≡◌, ◌≢◌, refl, inl, inr, Bool, false, List, [], ◌∷◌, ◌==◌, arith,
  if◌then◌else◌, Bool-cases, ==_iff,
}
use stros.Api.Topic.{Topic}
use stros.Node.Topics.{publish}
use stros.Api.Data.{Sends}
use stros.Api.Stream.{
  Place, absent, waiting, marking, sending, testing, returned, Conn, Stream, Event, published,
  stopped, connected, moved, goes_on, publish_tcp_data, step, steps, started,
}
use stros.Api.Stream.Bound.{update_at, update_other}

-- The accesses that a thread has left once the node is stopped.
abbrev left : Place → ℕ
left absent = 5
left waiting = 4
left marking = 3
left sending = 2
left (testing sent) = 1
left returned = 0

-- The accesses of one thread in a run.
unfoldable pub moves : ℕ → List Event → ℕ
moves i [] = 0
moves i (moved j sends ∷ es) = let rest = moves i es in if j == i then suc rest else rest
moves i (e ∷ es) = moves i es

-- Stopped, with at most so many accesses left to a thread.
record IsEnding (i n : ℕ) (s : Stream) : Type 0 where
  over : goes_on s.ros_ok s.topic ≡ false
  few : left (s.conns i).place ≤ n

own_ending :
    (sends : Sends) (ros_ok : Bool) (tp : Topic) (c : Conn) (p : Place)
    → goes_on ros_ok tp ≡ false
    → left p ≤ 4
    → c.place ≡ p
    → left (publish_tcp_data sends ros_ok tp c p).1.place ≤ left p - 1
unfolding publish_tcp_data
own_ending sends ros_ok tp c absent over few e = omega arith
own_ending sends ros_ok tp c waiting over few e = ground arith
own_ending sends ros_ok tp c marking over few e = ground arith
own_ending sends ros_ok tp c sending over few e = ground arith
own_ending sends ros_ok tp c (testing sent) over few e = ground arith
own_ending sends ros_ok tp c returned over few e = ground arith

topic_over :
    (sends : Sends) (ros_ok : Bool) (tp : Topic) (c : Conn) (p : Place)
    → goes_on ros_ok tp ≡ false
    → goes_on ros_ok (publish_tcp_data sends ros_ok tp c p).0 ≡ false
unfolding publish_tcp_data goes_on
topic_over sends ros_ok tp c absent over = over
topic_over sends ros_ok tp c waiting over = ground arith
topic_over sends ros_ok tp c marking over = over
topic_over sends ros_ok tp c sending over = over
topic_over sends ros_ok tp c (testing sent) over = over
topic_over sends ros_ok tp c returned over = over

left-started : (p : Place) → left p ≤ 4 → left (started p) ≤ left p
unfolding started
left-started absent h = omega arith
left-started waiting h = omega arith
left-started _ h = omega arith

step-IsEnding :
    (i n : ℕ) (s : Stream) (e : Event)
    → n ≤ 4
    → IsEnding i n s
    → IsEnding i (n - moves i (e ∷ [])) (step s e)
unfolding step moves
step-IsEnding i n s (published msg) small h = record {
  over = unfold publish goes_on in h.over;
  few = omega (arith, h.few);
}
step-IsEnding i n s stopped small h = record {
  over = unfold goes_on in refl;
  few = omega (arith, h.few);
}
step-IsEnding i n s (connected j) small h =
    let c = record (s.conns j) { place = started (s.conns j).place } in
    elim (Bool-cases (j == i)) [
      | inl e ↦ record {
        over = h.over;
        few =
            rw (update_at s.conns j i c e, (==_iff j i).0 e)
              (omega (arith, h.few, left-started (s.conns i).place));
      }
      | inr e ↦ record {
        over = h.over;
        few = rw (update_other s.conns j i c e) (omega (arith, h.few));
      }
    ]
step-IsEnding i n s (moved j sends) small h =
    let r = publish_tcp_data sends s.ros_ok s.topic (s.conns j) (s.conns j).place in
    let over : goes_on s.ros_ok r.0 ≡ false =
      topic_over sends s.ros_ok s.topic (s.conns j) (s.conns j).place h.over in
    elim (Bool-cases (j == i)) [
      | inl e ↦
          let same : j ≡ i = (==_iff j i).0 e in
          let few : left (s.conns j).place ≤ n = rw same h.few in
          let own =
            own_ending sends s.ros_ok s.topic (s.conns j) (s.conns j).place h.over (omega arith)
              refl in
          record {
            over = over;
            few = rw (update_at s.conns j i r.1 e, e) (omega (arith, own, few));
          }
      | inr e ↦ record {
        over = over;
        few = rw (update_other s.conns j i r.1 e, e) (omega (arith, h.few));
      }
    ]

moves-cons :
    (i : ℕ) (e : Event) (es : List Event) → moves i (e ∷ es) ≡ moves i (e ∷ []) + moves i es
unfolding moves
moves-cons i (published msg) es = omega arith
moves-cons i stopped es = omega arith
moves-cons i (connected j) es = omega arith
moves-cons i (moved j sends) es = ground arith

steps-IsEnding :
    (i n : ℕ) (s : Stream) (es : List Event)
    → n ≤ 4
    → IsEnding i n s
    → IsEnding i (n - moves i es) (steps s es)
unfolding steps moves
steps-IsEnding i n s [] small h = record { over = h.over; few = omega (arith, h.few) }
steps-IsEnding i n s (e ∷ es) small h =
    let rest =
      steps-IsEnding i (n - moves i (e ∷ [])) (step s e) es (omega arith)
        (step-IsEnding i n s e small h) in
    record { over = rest.over; few = omega (arith, rest.few, moves-cons i e es) }

left_none : (p : Place) → left p ≤ 0 → p ≡ returned
left_none absent h = absurd (omega arith)
left_none waiting h = absurd (omega arith)
left_none marking h = absurd (omega arith)
left_none sending h = absurd (omega arith)
left_none (testing sent) h = absurd (omega arith)
left_none returned h = refl

left_started : (p : Place) → p ≢ absent → left p ≤ 4
left_started absent h = absurd (h refl)
left_started waiting h = omega arith
left_started _ h = omega arith

-- Once the node is stopped, or the topic down, the thread of every connection returns: four
-- accesses of it are enough from wherever it stands, whatever else happens in between.
pub steps-returned :
    (s : Stream) (es : List Event) (i : ℕ)
    → goes_on s.ros_ok s.topic ≡ false
    → (s.conns i).place ≢ absent
    → 4 ≤ moves i es
    → ((steps s es).conns i).place ≡ returned
steps-returned s es i over there enough =
    let start : IsEnding i 4 s = record {
      over = over;
      few = left_started (s.conns i).place there;
    } in
    left_none ((steps s es).conns i).place
      (omega (arith, (steps-IsEnding i 4 s es (omega arith) start).few))
