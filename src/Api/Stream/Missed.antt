-- ===== src/Api/Stream/Missed.antt =====
-- Two connections that wait for the same text.
use stros.Prelude.{
  ℕ, ◌<◌, ◌≡◌, refl, length, ◌++◌, ap, sym, ◌∙◌, inl, inr, Bool, true, false, List, [], ◌∷◌, ◌==◌,
  arith, Bool-cases, ==_iff, ==_refl,
}
use stros.CString.{CString}
use stros.Api.Topic.{Topic}
use stros.Node.Topics.{publish}
use stros.Api.Data.{Sends}
use stros.Api.Stream.{
  Place, absent, waiting, marking, sending, testing, returned, Conn, Stream, Event, published,
  stopped, connected, moved, goes_on, publish_tcp_data, step, steps, started,
}
use stros.Api.Stream.Bound.{update_at, update_other}
use stros.Api.Stream.Flow.{IsWhole}
use stros.Api.Stream.Exact.{turn, turn-out}
use stros.Api.Connection.Delivery.{frame}
use stros.Utils.Hash.{header_hash_size, hash}
use stros.Api.Types.{type_string}

-- A run in which nothing is published and the node is not stopped.
abbrev pub IsQuiet : List Event → Type 0
IsQuiet [] = Unit
IsQuiet (published msg ∷ es) = ⊥
IsQuiet (stopped ∷ es) = ⊥
IsQuiet (connected i ∷ es) = IsQuiet es
IsQuiet (moved i sends ∷ es) = IsQuiet es

-- The thread of a connection waits, and there is nothing to send.
abbrev IsIdle : Bool → Topic → Conn → Type 0
IsIdle ros_ok tp c = (c.place ≡ waiting) × (tp.data_ok ≡ false) × (goes_on ros_ok tp ≡ true)

-- What a thread does to the topic leaves it without data and as it goes on.
topic_kept :
    (sends : Sends) (ros_ok : Bool) (tp : Topic) (c : Conn) (p : Place)
    → tp.data_ok ≡ false
    → goes_on ros_ok tp ≡ true
    → let t = (publish_tcp_data sends ros_ok tp c p).0 in
      (t.data_ok ≡ false) × (goes_on ros_ok t ≡ true)
unfolding publish_tcp_data goes_on
topic_kept sends ros_ok tp c absent h g = (h, g)
topic_kept sends ros_ok tp c waiting h g = ground arith
topic_kept sends ros_ok tp c marking h g = ground arith
topic_kept sends ros_ok tp c sending h g = (h, g)
topic_kept sends ros_ok tp c (testing sent) h g = (h, g)
topic_kept sends ros_ok tp c returned h g = (h, g)

idle_waits :
    (sends : Sends) (ros_ok : Bool) (tp : Topic) (c : Conn)
    → tp.data_ok ≡ false
    → goes_on ros_ok tp ≡ true
    → publish_tcp_data sends ros_ok tp c waiting ≡ (tp, c)
unfolding publish_tcp_data goes_on
idle_waits sends ros_ok tp c h g = ground arith

-- An event of a quiet run leaves a connection that waits as it was.
abbrev KeepsIdle : Stream → ℕ → Event → Type 0
KeepsIdle s j e =
    let t = step s e in
    (t.conns j ≡ s.conns j) × (t.topic.data_ok ≡ false) × (goes_on t.ros_ok t.topic ≡ true)

started_idle : (c : Conn) → c.place ≡ waiting → record c { place = started c.place } ≡ c
unfolding started
started_idle c at =
    ap (λ p. record c { place = started p }) at ∙ ap (λ p. record c { place = p }) (sym at)

connected_idle :
    (s : Stream) (i j : ℕ) → IsIdle s.ros_ok s.topic (s.conns j) → KeepsIdle s j (connected i)
unfolding step started
connected_idle s i j (at, h, g) = elim (Bool-cases (i == j)) [
  | inl e ↦
      let same : i ≡ j = (==_iff i j).0 e in
      (
        update_at s.conns i j _ e
            ∙ started_idle (s.conns i) (ap (λ k. (s.conns k).place) same ∙ at)
            ∙ ap s.conns same,
        h,
        g,
      )
  | inr e ↦ (update_other s.conns i j _ e, h, g)
]

moved_idle :
    (s : Stream) (i j : ℕ) (sends : Sends)
    → IsIdle s.ros_ok s.topic (s.conns j)
    → KeepsIdle s j (moved i sends)
unfolding step
moved_idle s i j sends (at, h, g) =
    let (h', g') = topic_kept sends s.ros_ok s.topic (s.conns i) (s.conns i).place h g in
    elim (Bool-cases (i == j)) [
      | inl e ↦
          let same : i ≡ j = (==_iff i j).0 e in
          let own : publish_tcp_data sends s.ros_ok s.topic (s.conns i) (s.conns i).place
              ≡ (s.topic, s.conns i) =
            ap (λ p. publish_tcp_data sends s.ros_ok s.topic (s.conns i) p)
              (ap (λ k. (s.conns k).place) same ∙ at)
            ∙ idle_waits sends s.ros_ok s.topic (s.conns i) h g in
          (update_at s.conns i j _ e ∙ ap (λ r. r.1) own ∙ ap s.conns same, h', g')
      | inr e ↦ (update_other s.conns i j _ e, h', g')
    ]

-- A connection that waits comes through a quiet run as it was.
steps_idle :
    (s : Stream) (es : List Event) (j : ℕ)
    → IsIdle s.ros_ok s.topic (s.conns j)
    → IsQuiet es
    → (steps s es).conns j ≡ s.conns j
unfolding steps
steps_idle s [] j h q = refl
steps_idle s (published msg ∷ es) j h q = absurd q
steps_idle s (stopped ∷ es) j h q = absurd q
steps_idle s (connected i ∷ es) j (at, h, g) q =
    let (kept, h', g') = connected_idle s i j (at, h, g) in
    steps_idle (step s (connected i)) es j (ap (λ c. c.place) kept ∙ at, h', g') q ∙ kept
steps_idle s (moved i sends ∷ es) j (at, h, g) q =
    let (kept, h', g') = moved_idle s i j sends (at, h, g) in
    steps_idle (step s (moved i sends)) es j (ap (λ c. c.place) kept ∙ at, h', g') q ∙ kept

-- The first access of a thread that waits for a text, and the second.
first_access :
    (sends : Sends) (ros_ok : Bool) (tp : Topic) (c : Conn) (msg : CString)
    → c.place ≡ waiting
    → publish_tcp_data sends ros_ok (publish tp msg) c c.place
      ≡ (publish tp msg, record c { place = marking })
unfolding publish_tcp_data publish
first_access sends ros_ok tp c msg at =
    ap (λ p. publish_tcp_data sends ros_ok (publish tp msg) c p) at

second_access :
    (sends : Sends) (ros_ok : Bool) (tp : Topic) (c : Conn)
    → c.place ≡ marking
    → goes_on ros_ok tp ≡ true
    → let t = (publish_tcp_data sends ros_ok tp c c.place).0 in
      (t.data_ok ≡ false) × (goes_on ros_ok t ≡ true)
unfolding publish_tcp_data goes_on
second_access sends ros_ok tp c at g = (
  ap (λ p. (publish_tcp_data sends ros_ok tp c p).0.data_ok) at,
  ap (λ p. goes_on ros_ok (publish_tcp_data sends ros_ok tp c p).0) at ∙ g,
)

-- Behind them there is nothing to send.
taken :
    (s : Stream) (i : ℕ) (msg : CString) (first second : Sends)
    → (s.conns i).place ≡ waiting
    → goes_on s.ros_ok s.topic ≡ true
    → let t = step (step (step s (published msg)) (moved i first)) (moved i second) in
      (t.topic.data_ok ≡ false) × (goes_on t.ros_ok t.topic ≡ true)
unfolding step publish goes_on
taken s i msg first second at g =
    let once = first_access first s.ros_ok s.topic (s.conns i) msg at in
    second_access second s.ros_ok _ _
      (ap (λ c. c.place) (update_at s.conns i i _ (==_refl i)) ∙ ap (λ r. r.1.place) once)
      (ap (λ r. goes_on s.ros_ok r.0) once ∙ g)

-- A text that one subscriber is sent is missed by another. Of two connections that wait, a text is
-- published and the thread of the first goes once through its loop: the first has been sent the
-- frame of the text. But once this thread has had two accesses before the second has any, the
-- second is left as it was, waiting and with nothing sent, through every further run in which
-- nothing is published and the node is not stopped. This is for a topic with nothing to send
-- before, a node that goes on, a text of fewer than 128 bytes of the type of strings, and sends
-- that take what they are given.
pub steps_missed :
    (s : Stream) (i j : ℕ) (msg : CString) (sends : Sends) (es : List Event)
    → (i == j) ≡ false
    → IsIdle s.ros_ok s.topic (s.conns i)
    → IsIdle s.ros_ok s.topic (s.conns j)
    → hash s.topic.type header_hash_size ≡ type_string
    → IsWhole sends
    → length msg < 128
    → IsQuiet es
    → (((steps s (turn i sends msg [])).conns i).out ≡ (s.conns i).out ++ frame msg ∷ [])
      × ((steps s (published msg ∷ moved i sends ∷ moved i sends ∷ es)).conns j ≡ s.conns j)
unfolding steps step
steps_missed s i j msg sends es other hi hj string w small q =
    let t = step (step (step s (published msg)) (moved i sends)) (moved i sends) in
    let kept : t.conns j ≡ s.conns j =
      update_other (step (step s (published msg)) (moved i sends)).conns i j _ other
      ∙ update_other s.conns i j _ other in
    let (h, g) = taken s i msg sends sends hi.0 hi.2 in
    (
      turn-out s i sends msg hi.0 hi.2 string w small,
      steps_idle t es j (ap (λ c. c.place) kept ∙ hj.0, h, g) q ∙ kept,
    )
