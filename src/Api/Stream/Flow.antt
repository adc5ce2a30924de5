-- ===== src/Api/Stream/Flow.antt =====
-- The texts whose frames the sends of a connection are.
use stros.Prelude.{ℕ, ◌≤◌, ◌<◌, ◌≡◌, refl, true, List, [], ◌∷◌, ◌++◌, arith, length, take, pos, All}
use stros.CString.{CString}
use stros.Api.Data.{Sends, taken, tcp_send_string}
use stros.Api.Data.RoundTrip.{take_all}
use stros.Api.Connection.Delivery.{frame, frames, IsMessage}
use stros.Api.Stream.Origin.{IsFrame, nothing}

-- What the calls of `tcp_send_data` put on a socket, one behind the other.
unfoldable pub stream : List CString → CString
stream [] = []
stream (bytes ∷ out) = bytes ++ stream out

-- Sends that take all of a text of fewer than 128 bytes.
pub record IsWhole (sends : Sends) : Type 0 where
  pub first : sends.first ≡ true
  pub second : sends.second ≡ true
  pub room : ℕ
  pub third : sends.third ≡ pos room
  pub enough : 128 ≤ room

pub tcp_send_string-IsWhole :
    (sends : Sends) (text : CString)
    → IsWhole sends
    → length text < 128
    → (tcp_send_string sends text).0 ≡ frame text
unfolding tcp_send_string taken frame
tcp_send_string-IsWhole sends text h small =
    let all : take h.room text ≡ text = take_all h.room text (omega (arith, h.enough)) in
    rw (h.first, h.second, h.third, all) refl

module _ (P : CString → Type 0) where
  -- A text that the other side can read.
  abbrev pub IsReadable : CString → Type 0
  IsReadable text = IsMessage text × P text

  -- The texts whose frames were sent.
  pub record Flowed (out : List CString) : Type 0 where
    pub texts : List CString
    pub same : stream out ≡ frames texts
    pub readable : All IsReadable texts
    pub few : length texts ≤ length out

  pub out-Flowed : (out : List CString) → All (IsFrame IsReadable IsWhole) out → Flowed out
  unfolding stream frames
  out-Flowed [] h = record { texts = []; same = refl; readable = tt; few = omega arith }
  out-Flowed (bytes ∷ out) (nothing e, hs) =
      let r = out-Flowed out hs in
      record {
        texts = r.texts;
        same = rw (e, r.same) refl;
        readable = r.readable;
        few = omega (arith, r.few);
      }
  out-Flowed (bytes ∷ out) (IsFrame.frame sends text p w e, hs) =
      let r = out-Flowed out hs in
      let framed = tcp_send_string-IsWhole sends text w p.0.small in
      record {
        texts = text ∷ r.texts;
        same = rw (e, framed, r.same) refl;
        readable = (p, r.readable);
        few = omega (arith, r.few);
      }

  pub messages : (texts : List CString) → All IsReadable texts → All IsMessage texts
  messages [] h = tt
  messages (text ∷ texts) (h, hs) = (h.0, messages texts hs)

  pub meant : (texts : List CString) → All IsReadable texts → All P texts
  meant [] h = tt
  meant (text ∷ texts) (h, hs) = (h.1, meant texts hs)
