-- ===== src/Api/Connection/Delivery.antt =====
-- The loop of `tcp_ros_request` on the bytes of string messages.
use stros.Prelude.{
  ℕ, zero, suc, ◌+◌, ◌<◌, ◌≤◌, ◌≡◌, refl, ◌∙◌, ap, Bool, false, List, [], ◌∷◌, ◌++◌, arith,
  if◌then◌else◌, Run, some, ok, length, take, drop, inl, inr, Bool-cases, All, replicate,
}
use stros.CString.{CString}
use stros.Rpc.Http.{Socket}
use stros.Rpc.Http.Decode.{NoNul}
use stros.Api.Types.{type_string}
use stros.Api.Header.{int_bytes}
use stros.Api.Data.{ros_string, ros_data}
use stros.Api.Data.RoundTrip.{got}
use stros.Api.Recv.{recv_int, recv_result, recv_buf, recv_int-int_bytes, recv_buf-append}
use stros.Api.Connection.{
  cleared, Round, Delivered, ended_with, one_more, receive_round, receive_loop,
}

-- A message on the wire.
unfoldable pub frame : CString → CString
unfolding int_bytes
frame text = int_bytes (length text + 4) ++ (int_bytes (length text) ++ text)

unfoldable pub frames : List CString → CString
unfolding frame
frames [] = []
frames (text ∷ texts) = frame text ++ frames texts

abbrev given_more : CString → Delivered → Delivered
given_more text d = record d { given = text ∷ d.given }

-- What a subscriber is given of the messages of a peer that then closes: each of them until it is
-- stopped, and an empty text for the end, unless `recv` times out there.
unfoldable pub served : List Round → List CString → Delivered
served [] texts = record { given = []; ended = false }
served (r ∷ rounds) [] = ended_with (if r.timed_out then [] else ([] ∷ []))
served (r ∷ rounds) (text ∷ texts) =
    if r.goes_on then given_more text (served rounds texts) else ended_with (text ∷ [])

-- A message that the receiver can read.
pub record IsMessage (text : CString) : Type 0 where
  pub small : length text < 128
  pub plain : NoNul text

take-nil : (n : ℕ) → take {A = ℕ} n [] ≡ []
take-nil zero = refl
take-nil (suc n) = refl

drop-nil : (n : ℕ) → drop {A = ℕ} n [] ≡ []
drop-nil zero = refl
drop-nil (suc n) = refl

ros_data-cleared : ros_data cleared type_string ≡ ok []
unfolding ros_data ros_string replicate
ros_data-cleared = refl

recv_buf-nil : (size : ℕ) (buf : CString) → recv_buf size buf [] ≡ ok ([], buf, [])
unfolding recv_buf
recv_buf-nil size buf = rw (take-nil size, drop-nil size) refl

receive_loop-nil :
    (r : Round) (rounds : List Round) (size : ℕ)
    → receive_loop (r ∷ rounds) type_string size []
      ≡ ok (ended_with (if r.timed_out then [] else ([] ∷ [])))
unfolding receive_loop receive_round one_more recv_result recv_buf recv_int
receive_loop-nil r rounds size = elim (Bool-cases r.timed_out) [
  | inl e ↦ rw (recv_buf-nil (recv_int size []).0 cleared, e) refl
  | inr e ↦ rw (recv_buf-nil (recv_int size []).0 cleared, e, ros_data-cleared) refl
]

received :
    (t : Bool) (n : ℕ) (text : CString)
    → recv_result t (int_bytes n ++ text) ≡ some (suc (3 + length text))
unfolding recv_result int_bytes
received t n text = ap some (omega arith)

message_behind :
    (text : CString) (rest : Socket)
    → IsMessage text
    → recv_buf (length text + 4) cleared (int_bytes (length text) ++ (text ++ rest))
      ≡ ok (
        int_bytes (length text) ++ text,
        int_bytes (length text) ++ (text ++ drop (length text + 4) cleared),
        rest,
      )
unfolding int_bytes
message_behind text rest h =
    let size : length (int_bytes (length text) ++ text) ≡ length text + 4 = omega arith in
    let bounded : length (int_bytes (length text) ++ text) ≤ 1024 = omega (arith, h.small) in
    rw (← size) (recv_buf-append (int_bytes (length text) ++ text) cleared rest bounded)

receive_round-text :
    (r : Round) (size : ℕ) (text junk : CString) (rest : Run Delivered)
    → IsMessage text
    → receive_round r type_string size
        (int_bytes (length text) ++ text)
        (int_bytes (length text) ++ (text ++ junk))
        rest
      ≡ one_more text (if r.goes_on then rest else ok (ended_with []))
unfolding receive_round ros_data
receive_round-text r size text junk rest h =
    rw (receive_round, received r.timed_out (length text) text, got text junk h.small h.plain) refl

receive_loop-frame :
    (r : Round) (rounds : List Round) (size : ℕ) (text : CString) (rest : Socket)
    → IsMessage text
    → receive_loop (r ∷ rounds) type_string size (frame text ++ rest)
      ≡ one_more text (
          if r.goes_on
          then receive_loop rounds type_string (length text + 4) rest
          else ok (ended_with []))
unfolding receive_round receive_loop frame int_bytes
receive_loop-frame r rounds size text rest h =
    let size_got =
      recv_int-int_bytes size (length text + 4) (int_bytes (length text) ++ (text ++ rest))
        (omega (arith, h.small)) in
    rw (size_got, message_behind text rest h)
      (receive_round-text r (length text + 4) text (drop (length text + 4) cleared)
        (receive_loop rounds type_string (length text + 4) rest) h)

one_more-served :
    (r : Round) (rounds : List Round) (text : CString) (texts : List CString)
    → one_more text (if r.goes_on then ok (served rounds texts) else ok (ended_with []))
      ≡ ok (served (r ∷ rounds) (text ∷ texts))
unfolding one_more served
one_more-served r rounds text texts = elim (Bool-cases r.goes_on) [
  | inl e ↦ rw e refl
  | inr e ↦ rw e refl
]

-- The loop of a subscriber refines `served`: of the string messages that a publisher sent before
-- it closed, the callback is given each, in order and unchanged, until a round after which the
-- status or `stros_ok` ends the loop; behind the last it is given one empty text, unless that
-- `recv` times out instead. This is for messages of fewer than 128 bytes, none of them NUL, for
-- any number of rounds, whatever the size variable held.
pub receive_loop-frames :
    (rounds : List Round) (size : ℕ) (texts : List CString)
    → All IsMessage texts
    → receive_loop rounds type_string size (frames texts) ≡ ok (served rounds texts)
unfolding frames served
receive_loop-frames [] size texts h = unfold receive_loop in refl
receive_loop-frames (r ∷ rounds) size [] h = receive_loop-nil r rounds size
receive_loop-frames (r ∷ rounds) size (text ∷ texts) (h, hs) =
    receive_loop-frame r rounds size text (frames texts) h
    ∙ rw (receive_loop-frames rounds (length text + 4) texts hs)
        (one_more-served r rounds text texts)
