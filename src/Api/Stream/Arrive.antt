-- ===== src/Api/Stream/Arrive.antt =====
-- From `publish` at one end of a connection to the callback at the other, after any run.
use stros.Prelude.{
  ℕ, ◌≤◌, ◌≡◌, refl, ◌∙◌, sym, ap, true, false, not, ◌&&◌, Bool, Bool-cases, inl, inr, List, [],
  ◌∷◌, ◌++◌, append_assoc, arith, some, ok, length, All, All-append,
}
use stros.CString.{CString}
use stros.Utils.Hash.{header_hash_size, hash}
use stros.ItemList.{Floats}
use stros.Request.Call.{ConnectCalls, request_socket}
use stros.Api.Types.{type_string}
use stros.Api.Topic.{Topic}
use stros.Api.Data.{Sends}
use stros.Api.Connection.{Round, closing, tcp_ros_request}
use stros.Api.Connection.Greeting.{header_of, IsGreeted}
use stros.Api.Connection.Delivery.{frame, frames, served, IsMessage}
use stros.Api.Connection.Transfer.{tcp_ros_request-frames}
use stros.Node.Topics.{publish}
use stros.Api.Stream.{
  Place, absent, waiting, marking, sending, testing, returned, Conn, Stream, Event, published,
  stopped, connected, moved, goes_on, publish_tcp_data, step, steps, publishes, fresh, stros_toggle,
}
use stros.Api.Stream.Bound.{mark, length-steps}
use stros.Api.Stream.Origin.{OfPayload, OfEvents, steps-IsFrame}
use stros.Api.Stream.Flow.{stream, IsWhole, IsReadable, out-Flowed, messages, meant}
use stros.Api.Stream.Exact.{turn, turn-out}

stream-append : (out more : List CString) → stream (out ++ more) ≡ stream out ++ stream more
unfolding stream
stream-append [] more = refl
stream-append (bytes ∷ out) more =
    ap (λ r. bytes ++ r) (stream-append out more)
    ∙ sym (append_assoc bytes (stream out) (stream more))

frames-append : (texts more : List CString) → frames (texts ++ more) ≡ frames texts ++ frames more
unfolding frames
frames-append [] more = refl
frames-append (text ∷ texts) more =
    ap (λ r. frame text ++ r) (frames-append texts more)
    ∙ sym (append_assoc (frame text) (frames texts) (frames more))

-- The type of a topic stays.
publish_tcp_data-type :
    (sends : Sends) (ros_ok : Bool) (tp : Topic) (c : Conn) (p : Place)
    → (publish_tcp_data sends ros_ok tp c p).0.type ≡ tp.type
unfolding publish_tcp_data
publish_tcp_data-type sends ros_ok tp c absent = refl
publish_tcp_data-type sends ros_ok tp c waiting =
    elim (Bool-cases (not tp.data_ok && goes_on ros_ok tp)) [
      | inl e ↦ rw e refl
      | inr e ↦ rw e refl
    ]
publish_tcp_data-type sends ros_ok tp c marking = refl
publish_tcp_data-type sends ros_ok tp c sending = refl
publish_tcp_data-type sends ros_ok tp c (testing sent) = refl
publish_tcp_data-type sends ros_ok tp c returned = refl

step-type : (s : Stream) (e : Event) → (step s e).topic.type ≡ s.topic.type
unfolding step publish stros_toggle
step-type s (published msg) = refl
step-type s stopped = refl
step-type s (connected i) = refl
step-type s (moved i sends) =
    publish_tcp_data-type sends s.ros_ok s.topic (s.conns i) (s.conns i).place

steps-type : (s : Stream) (es : List Event) → (steps s es).topic.type ≡ s.topic.type
unfolding steps
steps-type s [] = refl
steps-type s (e ∷ es) = steps-type (step s e) es ∙ step-type s e

-- A node that goes on sends no more than it publishes.
goes_on-few :
    (tp : Topic) (es : List Event) (i : ℕ)
    → tp.data_ok ≡ false
    → goes_on (steps (fresh tp) es).ros_ok (steps (fresh tp) es).topic ≡ true
    → length ((steps (fresh tp) es).conns i).out ≤ publishes es
goes_on-few tp es i quiet goes =
    let none_more : mark (not (goes_on (steps (fresh tp) es).ros_ok (steps (fresh tp) es).topic))
        ≡ 0 =
      rw goes refl in
    omega (arith, length-steps tp es i quiet, none_more)

module _ (P : CString → Type 0) where
  -- What is published arrives, whatever came before it. Take any run of a publisher from a topic
  -- that has nothing to send, with any number of connections, behind which the node goes on and
  -- the thread of one connection waits; then a text is published and this thread goes once through
  -- its loop. The subscriber on this connection gives its callback, as `served` describes it,
  -- first texts that were published in the run or the first one of the topic, whatever property
  -- these have and no more than the run has calls of `publish`, and then exactly the new text.
  -- This is for texts of fewer than 128 bytes, none of them NUL, of the type of strings, for sends
  -- that take what they are given, for a connection that is made between two topics of one name
  -- and type that a header can carry, and any number of rounds.
  pub tcp_ros_request-turn :
      ⦃fl : Floats⦄ (tp sub : Topic) (es : List Event) (i : ℕ) (sends : Sends) (text : CString)
      (calls : ConnectCalls) (fd : ℕ) (timed_out : Bool) (junk : CString) (rounds : List Round)
      → tp.data_ok ≡ false
      → OfPayload (IsReadable P) tp.payload
      → OfEvents (IsReadable P) IsWhole es
      → ((steps (fresh tp) es).conns i).place ≡ waiting
      → goes_on (steps (fresh tp) es).ros_ok (steps (fresh tp) es).topic ≡ true
      → IsWhole sends
      → IsMessage text
      → IsGreeted tp
      → IsGreeted sub
      → tp.topic ≡ sub.topic
      → tp.type ≡ sub.type
      → hash sub.type header_hash_size ≡ type_string
      → request_socket calls ≡ (some fd, [])
      → (texts : List CString) × (tcp_ros_request sub calls timed_out junk rounds (
            header_of tp
            ++ stream ((steps (steps (fresh tp) es) (turn i sends text [])).conns i).out)
          ≡ ok (record {
            sent = header_of sub;
            delivered = served rounds (texts ++ text ∷ []);
            closed = closing (served rounds (texts ++ text ∷ [])) fd;
          }))
        × All P texts
        × (length texts ≤ publishes es)
  tcp_ros_request-turn tp sub es i sends text calls fd timed_out junk rounds quiet first new at goes
        w m ht hs same_topic same_type string connects =
      let s = steps (fresh tp) es in
      let r =
        out-Flowed P (s.conns i).out (steps-IsFrame (IsReadable P) IsWhole tp es i first new) in
      let kept : s.topic.type ≡ tp.type = steps-type (fresh tp) es ∙ unfold fresh in refl in
      let its_type : hash s.topic.type header_hash_size ≡ type_string =
        ap (λ x. hash x header_hash_size) (kept ∙ same_type) ∙ string in
      let one : stream (frame text ∷ []) ≡ frames (text ∷ []) = unfold stream frames in refl in
      let same : stream ((steps s (turn i sends text [])).conns i).out
          ≡ frames (r.texts ++ text ∷ []) =
        ap stream (turn-out s i sends text at goes its_type w m.small)
        ∙ stream-append (s.conns i).out (frame text ∷ [])
        ∙ ap (λ x. x ++ stream (frame text ∷ [])) r.same
        ∙ ap (λ x. frames r.texts ++ x) one
        ∙ sym (frames-append r.texts (text ∷ [])) in
      let plain : All IsMessage (r.texts ++ text ∷ []) =
        All-append _ r.texts _ (messages P r.texts r.readable) (m, tt) in
      (
        r.texts,
        rw same (
            tcp_ros_request-frames tp sub calls fd timed_out junk rounds (r.texts ++ text ∷ []) ht
              hs same_topic same_type string connects plain),
        meant P r.texts r.readable,
        omega (arith, r.few, goes_on-few tp es i quiet goes),
      )
