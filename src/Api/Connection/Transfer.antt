-- ===== src/Api/Connection/Transfer.antt =====
-- `tcp_ros_request` from the socket to the end of the loop.
use stros.Prelude.{
  ℕ, ◌≡◌, refl, ◌∙◌, sym, ap, Bool, true, List, [], ◌∷◌, ◌++◌, Option, none, some, Run, ok, fault,
  ◌>>=◌, length, inl, inr, Bool-cases, All,
}
use stros.CString.{CString}
use stros.Utils.Hash.{header_hash_size, hash}
use stros.ItemList.{Floats}
use stros.Rpc.Http.{Socket}
use stros.Request.Call.{ConnectCalls, request_socket, connect_socket}
use stros.Api.Types.{type_string}
use stros.Api.Topic.{Topic}
use stros.Api.Header.{header_fields, gen_tcp_header_for}
use stros.Api.Connection.{
  Round, Delivered, receive_loop, Session, given_up, closing, greet_publisher, serve_messages,
  on_socket, tcp_ros_request,
}
use stros.Api.Connection.Greeting.{header_of, IsGreeted, greet_publisher-greet_subscriber}
use stros.Api.Connection.Delivery.{frames, served, IsMessage, receive_loop-frames}

module _ ⦃fl : Floats⦄ where
  -- A subscriber that connects to a publisher of its topic sends its header, is given the string
  -- messages that the publisher sends until it closes, as `served` describes it, and closes its
  -- socket where the loop has ended, and only there. This is for topics of one name and type that
  -- a header can carry, the type being the one of strings, for a connection that is made, for
  -- messages of fewer than 128 bytes, none of them NUL, and any number of rounds.
  pub tcp_ros_request-frames :
      (tp sub : Topic) (calls : ConnectCalls) (fd : ℕ) (timed_out : Bool) (junk : CString)
      (rounds : List Round) (texts : List CString)
      → IsGreeted tp
      → IsGreeted sub
      → tp.topic ≡ sub.topic
      → tp.type ≡ sub.type
      → hash sub.type header_hash_size ≡ type_string
      → request_socket calls ≡ (some fd, [])
      → All IsMessage texts
      → tcp_ros_request sub calls timed_out junk rounds (header_of tp ++ frames texts)
        ≡ ok (record {
          sent = header_of sub;
          delivered = served rounds texts;
          closed = closing (served rounds texts) fd;
        })
  unfolding tcp_ros_request on_socket serve_messages
  tcp_ros_request-frames tp sub calls fd timed_out junk rounds texts ht hs same_topic same_type
        string connected small =
      let (sends, _, takes) =
        greet_publisher-greet_subscriber tp sub timed_out timed_out [] (header_of sub ++ junk) 0
          (length (header_of sub)) [] (frames texts) ht hs same_topic same_type in
      rw
        (
          sends,
          connected,
          takes,
          string,
          receive_loop-frames rounds (length (header_fields tp)) texts small,
        )
        refl

  closed_of_ended :
      (d : Delivered) (header : CString) (fd : ℕ) (s : Session)
      → record { sent = header; delivered = d; closed = closing d fd } ≡ s
      → s.delivered.ended ≡ true
      → s.closed ≡ fd ∷ []
  closed_of_ended d header fd s same e =
      let over : d.ended ≡ true = ap (λ x. x.delivered.ended) same ∙ e in
      ap (λ x. x.closed) (sym same) ∙ rw over refl

  ended_closes :
      (loop : Run Delivered) (header : CString) (fd : ℕ) (s : Session)
      → (loop >>= λ d. ok (record { sent = header; delivered = d; closed = closing d fd })) ≡ ok s
      → s.delivered.ended ≡ true
      → s.closed ≡ fd ∷ []
  ended_closes fault header fd s h e = cc
  ended_closes (ok d) header fd s h e = closed_of_ended d header fd s (cc) e

  serve_closes :
      (rounds : List Round) (header : CString) (fd : ℕ) (g : Run (Option ℕ × ℕ × Socket))
      (s : Session)
      → (g >>= serve_messages rounds header fd) ≡ ok s
      → s.delivered.ended ≡ true
      → s.closed ≡ fd ∷ []
  unfolding serve_messages
  serve_closes rounds header fd fault s h e = cc
  serve_closes rounds header fd (ok (none, size, rest)) s h e = cc
  serve_closes rounds header fd (ok (some dtype, size, rest)) s h e =
      ended_closes (receive_loop rounds dtype size rest) header fd s h e

  on_socket_closes :
      (sub : Topic) (timed_out : Bool) (junk : CString) (rounds : List Round) (peer : Socket)
      (header : CString) (calls : ConnectCalls) (fd : ℕ) (s : Session)
      → on_socket sub timed_out junk rounds peer header (connect_socket calls fd) ≡ ok s
      → s.delivered.ended ≡ true
      → s.closed ≡ fd ∷ []
  unfolding on_socket connect_socket
  on_socket_closes sub timed_out junk rounds peer header calls fd s h e =
      elim (Bool-cases calls.aton) [
        | inr refused ↦ given_up_closes (rw refused at h)
        | inl parsed ↦ elim (Bool-cases calls.connect) [
          | inr refused ↦ given_up_closes (rw (parsed, refused) at h)
          | inl joined ↦
              serve_closes rounds header fd
                (greet_publisher sub timed_out (header ++ junk) (length header) peer) s
                (rw (parsed, joined) at h) e
        ]
      ]
    where
      given_up_closes : ok (given_up [] (fd ∷ [])) ≡ ok s → s.closed ≡ fd ∷ []
      given_up_closes h = cc

  from_header :
      (made : Run CString) (sub : Topic) (timed_out : Bool) (junk : CString) (rounds : List Round)
      (peer : Socket) (calls : ConnectCalls) (fd : ℕ) (s : Session)
      → (made >>= λ header.
          on_socket sub timed_out junk rounds peer header (connect_socket calls fd))
        ≡ ok s
      → s.delivered.ended ≡ true
      → s.closed ≡ fd ∷ []
  from_header fault sub timed_out junk rounds peer calls fd s h e = cc
  from_header (ok header) sub timed_out junk rounds peer calls fd s h e =
      on_socket_closes sub timed_out junk rounds peer header calls fd s h e

  -- Where a socket was opened and `tcp_ros_request` returns, this socket has been closed exactly
  -- once and nothing else has, on every way out: an address that is none, a refused connection, a
  -- header that is not accepted, and the end of the loop, whatever the publisher sends.
  pub tcp_ros_request-closed :
      (sub : Topic) (calls : ConnectCalls) (timed_out : Bool) (junk : CString) (rounds : List Round)
      (peer : Socket) (fd : ℕ) (s : Session)
      → calls.socket ≡ some fd
      → tcp_ros_request sub calls timed_out junk rounds peer ≡ ok s
      → s.delivered.ended ≡ true
      → s.closed ≡ fd ∷ []
  unfolding tcp_ros_request request_socket
  tcp_ros_request-closed sub calls timed_out junk rounds peer fd s open_fd h e =
      from_header (gen_tcp_header_for sub) sub timed_out junk rounds peer calls fd s
        (rw open_fd at h) e
