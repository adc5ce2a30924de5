-- ===== src/Api/Stream/Origin.antt =====
-- Where the bytes on a connection come from.
use stros.Prelude.{
  ℕ, ◌≡◌, refl, inl, inr, Bool, List, [], ◌∷◌, ◌==◌, not, ◌&&◌, Option, none, some, All, All-append,
  Bool-cases,
}
use stros.CString.{CString}
use stros.Utils.Hash.{header_hash_size, hash}
use stros.Api.Types.{type_string}
use stros.Api.Topic.{Topic}
use stros.Node.Topics.{publish}
use stros.Api.Data.{Sends, tcp_send_string, tcp_send_data}
use stros.Api.Stream.{
  Place, absent, waiting, marking, sending, testing, returned, Conn, Stream, Event, published,
  stopped, connected, moved, goes_on, publish_tcp_data, step, steps, started, fresh,
}
use stros.Api.Stream.Bound.{update_at, update_other}

-- What one call of `tcp_send_data` put out: nothing, or as much of the frame of a text as the
-- sends took.
pub data IsFrame (P : CString → Type 0) (W : Sends → Type 0) (bytes : CString) : Type 0 where
  nothing : bytes ≡ [] → IsFrame P W bytes
  frame :
      (sends : Sends) (text : CString)
      → P text
      → W sends
      → bytes ≡ (tcp_send_string sends text).0
      → IsFrame P W bytes

abbrev pub OfPayload : (CString → Type 0) → Option CString → Type 0
OfPayload P none = Unit
OfPayload P (some text) = P text

module _ (P : CString → Type 0) (W : Sends → Type 0) where
  -- The texts that a run publishes, and the sends that its threads make.
  abbrev pub OfEvents : List Event → Type 0
  OfEvents [] = Unit
  OfEvents (published text ∷ es) = P text × OfEvents es
  OfEvents (moved i sends ∷ es) = W sends × OfEvents es
  OfEvents (e ∷ es) = OfEvents es

  record IsFramed (s : Stream) : Type 0 where
    held : OfPayload P s.topic.payload
    sent : (i : ℕ) → All (IsFrame P W) (s.conns i).out

  send-IsFrame :
      (sends : Sends) (tp : Topic) (payload : Option CString)
      → tp.payload ≡ payload
      → OfPayload P payload
      → W sends
      → IsFrame P W (tcp_send_data sends tp).0
  unfolding tcp_send_data
  send-IsFrame sends tp none e h w = rw e (nothing refl)
  send-IsFrame sends tp (some text) e h w =
      elim (Bool-cases (hash tp.type header_hash_size == type_string)) [
        | inl t ↦ rw (e, t) (frame sends text h w refl)
        | inr t ↦ rw (e, t) (nothing refl)
      ]

  moved-held :
      (sends : Sends) (ros_ok : Bool) (tp : Topic) (c : Conn) (p : Place)
      → OfPayload P tp.payload
      → OfPayload P (publish_tcp_data sends ros_ok tp c p).0.payload
  unfolding publish_tcp_data
  moved-held sends ros_ok tp c absent h = h
  moved-held sends ros_ok tp c waiting h = elim (Bool-cases (not tp.data_ok && goes_on ros_ok tp)) [
    | inl e ↦ rw e h
    | inr e ↦ rw e h
  ]
  moved-held sends ros_ok tp c marking h = h
  moved-held sends ros_ok tp c sending h = h
  moved-held sends ros_ok tp c (testing sent) h = h
  moved-held sends ros_ok tp c returned h = h

  moved-sent :
      (sends : Sends) (ros_ok : Bool) (tp : Topic) (c : Conn) (p : Place)
      → OfPayload P tp.payload
      → W sends
      → All (IsFrame P W) c.out
      → All (IsFrame P W) (publish_tcp_data sends ros_ok tp c p).1.out
  unfolding publish_tcp_data
  moved-sent sends ros_ok tp c absent held w h = h
  moved-sent sends ros_ok tp c waiting held w h =
      elim (Bool-cases (not tp.data_ok && goes_on ros_ok tp)) [ inl e ↦ rw e h | inr e ↦ rw e h ]
  moved-sent sends ros_ok tp c marking held w h = h
  moved-sent sends ros_ok tp c sending held w h =
      All-append (IsFrame P W) c.out _ h (send-IsFrame sends tp tp.payload refl held w, tt)
  moved-sent sends ros_ok tp c (testing sent) held w h = h
  moved-sent sends ros_ok tp c returned held w h = h

  step-IsFramed : (s : Stream) (e : Event) → OfEvents (e ∷ []) → IsFramed s → IsFramed (step s e)
  unfolding step
  step-IsFramed s (published text) new h = record { held = unfold publish in new.0; sent = h.sent }
  step-IsFramed s stopped new h = record { held = h.held; sent = h.sent }
  step-IsFramed s (connected i) new h =
      let c = record (s.conns i) { place = started (s.conns i).place } in
      record {
        held = h.held;
        sent = λ j. elim (Bool-cases (i == j)) [
          | inl e ↦ rw (update_at s.conns i j c e) (h.sent i)
          | inr e ↦ rw (update_other s.conns i j c e) (h.sent j)
        ];
      }
  step-IsFramed s (moved i sends) new h =
      let r = publish_tcp_data sends s.ros_ok s.topic (s.conns i) (s.conns i).place in
      record {
        held = moved-held sends s.ros_ok s.topic (s.conns i) (s.conns i).place h.held;
        sent = λ j. elim (Bool-cases (i == j)) [
          | inl e ↦ rw (update_at s.conns i j r.1 e) (
              moved-sent sends s.ros_ok s.topic (s.conns i) (s.conns i).place h.held new.0
                (h.sent i))
          | inr e ↦ rw (update_other s.conns i j r.1 e) (h.sent j)
        ];
      }

  steps-IsFramed : (s : Stream) (es : List Event) → OfEvents es → IsFramed s → IsFramed (steps s es)
  unfolding steps
  steps-IsFramed s [] new h = h
  steps-IsFramed s (published text ∷ es) new h =
      steps-IsFramed (step s (published text)) es new.1
        (step-IsFramed s (published text) (new.0, tt) h)
  steps-IsFramed s (stopped ∷ es) new h =
      steps-IsFramed (step s stopped) es new (step-IsFramed s stopped tt h)
  steps-IsFramed s (connected i ∷ es) new h =
      steps-IsFramed (step s (connected i)) es new (step-IsFramed s (connected i) tt h)
  steps-IsFramed s (moved i sends ∷ es) new h =
      steps-IsFramed (step s (moved i sends)) es new.1
        (step-IsFramed s (moved i sends) (new.0, tt) h)

  -- Whatever the order of the events, each send on each connection is nothing or the frame of one
  -- text, as much of it as the sends of one access took, and this text was published or was the
  -- first one of the topic: any property that these texts have, each text that is sent has, and
  -- any that the sends of a run have, those of each access.
  pub steps-IsFrame :
      (tp : Topic) (es : List Event) (i : ℕ)
      → OfPayload P tp.payload
      → OfEvents es
      → All (IsFrame P W) ((steps (fresh tp) es).conns i).out
  steps-IsFrame tp es i first new =
      let start : IsFramed (fresh tp) = unfold fresh in record { held = first; sent = λ j. tt } in
      (steps-IsFramed (fresh tp) es new start).sent i
