-- ===== src/Api/Connection.antt =====
-- A TCPROS connection from both ends: the headers of `publish_tcp_data` and all of
-- `tcp_ros_request` of api.c.
pub mod Greeting
pub mod Delivery
pub mod Transfer
use stros.Prelude.{
  ℕ, zero, suc, ◌+◌, Bool, true, false, ◌&&◌, List, [], ◌∷◌, ◌++◌, ◌==◌, if◌then◌else◌, Option,
  none, some, Run, ok, fault, ◌>>=◌, length, replicate, drop,
}
use stros.CString.{CString}
use stros.ItemList.{Floats}
use stros.Rpc.Http.{Socket, max_buff}
use stros.Request.Call.{ConnectCalls, request_socket}
use stros.Api.Topic.{Topic}
use stros.Api.Header.{gen_tcp_header_for, verify_ros_header}
use stros.Api.Data.{ros_data}
use stros.Api.Recv.{recv_int, recv_result, recv_buf}

-- `memset(buf, 0, MAX_BUFF)`
abbrev pub cleared : CString
cleared = replicate max_buff 0

abbrev pub got_bytes : Option ℕ → Bool
got_bytes none = false
got_bytes (some zero) = false
got_bytes (some (suc n)) = true

-- What an endpoint makes of the header of the other: the hash of the type, or nothing where it
-- gives up.
module _ ⦃fl : Floats⦄ where
  -- The header itself, given its size: `bytes_read <= 0 || !verify_ros_header(tp, buf, size)`.
  unfoldable pub read_header : Topic → Bool → ℕ → CString → Socket → Run (Option ℕ × Socket)
  read_header tp timed_out size buf sock = do
    (got, full, rest) ← recv_buf size buf sock
    dtype ← if got_bytes (recv_result timed_out got) then verify_ros_header tp full size else ok 0
    ok (if dtype == 0 then none else some dtype, rest)

  -- The answer to a header: nothing where it was not accepted.
  unfoldable pub answer_header : Topic → Option ℕ → Socket → Run (Option CString × Socket)
  answer_header tp none rest = ok (none, rest)
  answer_header tp (some dtype) rest = do header ← gen_tcp_header_for tp; ok (some header, rest)

  -- The headers of `publish_tcp_data`: what it answers, or nothing where it returns before; whether
  -- this `send` succeeds decides if the loop of Stream begins. `junk`
  -- and `old` are what the stack held in `buf` and `size`. From a socket with no bytes neither
  -- `recv` gets any, and the function returns.
  unfoldable pub greet_subscriber :
      Topic → Bool → CString → ℕ → Socket → Run (Option CString × Socket)
  unfolding answer_header
  greet_subscriber tp timed_out junk old [] = ok (none, [])
  greet_subscriber tp timed_out junk old (c ∷ sock) =
      let (size, behind) = recv_int old (c ∷ sock) in
      (read_header tp timed_out size junk behind >>= λ (dtype, rest). answer_header tp dtype rest)

  -- What a subscriber takes from the header of the publisher, after its own is sent, with the size
  -- of this header.
  unfoldable pub greet_publisher : Topic → Bool → CString → ℕ → Socket → Run (Option ℕ × ℕ × Socket)
  greet_publisher sub timed_out buf old [] = ok (none, old, [])
  greet_publisher sub timed_out buf old (c ∷ sock) =
      let (size, behind) = recv_int old (c ∷ sock) in
      (read_header sub timed_out size buf behind >>= λ (dtype, rest). ok (dtype, size, rest))

-- What happens around one round of the loop of `tcp_ros_request`: whether a socket with no bytes
-- times out, and the test of the status and of `stros_ok` behind it.
pub record Round : Type 0 where
  pub timed_out : Bool
  pub goes_on : Bool

-- What a run of the loop came to: the data that the callback was given, in order, and whether the
-- loop has ended, which it has not where the rounds that are given run out.
pub record Delivered : Type 0 where
  pub given : List CString
  pub ended : Bool

abbrev pub ended_with : List CString → Delivered
ended_with given = record { given = given; ended = true }

unfoldable pub one_more : CString → Run Delivered → Run Delivered
one_more text rest = do d ← rest; ok (record d { given = text ∷ d.given })

-- One round, given what the rounds after it come to: the callback is called also where `recv`
-- returned 0, with what `ros_data` makes of a buffer of zeros.
unfoldable pub receive_round : Round → ℕ → ℕ → CString → CString → Run Delivered → Run Delivered
unfolding ros_data one_more
receive_round r dtype size got buf rest = elim (recv_result r.timed_out got) [
  | none ↦ ok (ended_with [])
  | some n ↦
      (ros_data buf dtype >>= λ text.
      one_more text (if got_bytes (some n) && r.goes_on then rest else ok (ended_with [])))
]

-- The loop, `size` being what the last round left there.
unfoldable pub receive_loop : List Round → ℕ → ℕ → Socket → Run Delivered
receive_loop [] dtype size sock = ok (record { given = []; ended = false })
receive_loop (r ∷ rounds) dtype size sock =
    let (size', behind) = recv_int size sock in
    (recv_buf size' cleared behind >>= λ (got, buf, rest).
    receive_round r dtype size' got buf (receive_loop rounds dtype size' rest))

-- A connection as the subscriber has it: what it sent, what its callback was given, and the
-- descriptors that it closed.
pub record Session : Type 0 where
  pub sent : CString
  pub delivered : Delivered
  pub closed : List ℕ

abbrev pub given_up : CString → List ℕ → Session
given_up header closed = record { sent = header; delivered = ended_with []; closed = closed }

abbrev pub closing : Delivered → ℕ → List ℕ
closing d fd = if d.ended then fd ∷ [] else []

module _ ⦃fl : Floats⦄ where
  -- `tcp_ros_request` from behind the header of the publisher.
  unfoldable pub serve_messages : List Round → CString → ℕ → Option ℕ × ℕ × Socket → Run Session
  unfolding receive_loop
  serve_messages rounds header fd (none, size, rest) = ok (given_up header (fd ∷ []))
  serve_messages rounds header fd (some dtype, size, rest) = do
    d ← receive_loop rounds dtype size rest
    ok (record { sent = header; delivered = d; closed = closing d fd })

  unfoldable pub on_socket :
      Topic → Bool → CString → List Round → Socket → CString → Option ℕ × List ℕ → Run Session
  unfolding greet_publisher serve_messages
  on_socket sub timed_out junk rounds peer header (none, closed) = ok (given_up [] closed)
  on_socket sub timed_out junk rounds peer header (some fd, closed) =
      greet_publisher sub timed_out (header ++ junk) (length header) peer
      >>= serve_messages rounds header fd

  -- `tcp_ros_request`; `junk` is what its buffer holds behind the header that it generates, `peer`
  -- what the publisher will send.
  unfoldable pub tcp_ros_request :
      Topic → ConnectCalls → Bool → CString → List Round → Socket → Run Session
  unfolding on_socket
  tcp_ros_request sub calls timed_out junk rounds peer = do
    header ← gen_tcp_header_for sub
    on_socket sub timed_out junk rounds peer header (request_socket calls)
