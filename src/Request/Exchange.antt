-- ===== src/Request/Exchange.antt =====
-- `send_post_request` of request.c: a call and its answer over a connection of its own.
use stros.Prelude.{
  ℕ, ◌≡◌, refl, sym, ap, ◌⊎◌, ◌++◌, List, [], ◌∷◌, Option, none, some, Run, ok, fault, ◌>>=◌,
  >>=-eq-ok, Bool-cases, Option-cases, inl, inr,
}
use stros.CString.{CString}
use stros.ItemList.{Floats}
use stros.Rpc.Xml.{XmlNode}
use stros.Rpc.Http.{Socket}
use stros.Rpc.Http.Message.{request_text}
use stros.Request.Call.{ConnectCalls, connect_socket, request_socket}
use stros.Request.Reply.{RpcResponse, parse_response}

-- What an exchange leaves: the bytes sent, the descriptors closed, and the answer (`none` is NULL).
pub record Exchanged : Type 0 where
  pub sent : CString
  pub closed : List ℕ
  pub answer : Option RpcResponse

module _ ⦃fl : Floats⦄ where
  -- `peer` is what the other side will send on the connection.
  unfoldable pub exchange_on :
      (CString → Option XmlNode) → Socket → CString → Option ℕ × List ℕ → Run Exchanged
  unfolding request_text
  exchange_on parse_xml peer payload (none, closed) =
      ok (record { sent = []; closed = closed; answer = none })
  exchange_on parse_xml peer payload (some sockfd, closed) = do
    (rdata, rest) ← parse_response parse_xml peer
    ok (record { sent = request_text payload; closed = closed ++ sockfd ∷ []; answer = rdata })

  -- `send_post_request`
  unfoldable pub send_post_request :
      (CString → Option XmlNode) → ConnectCalls → Socket → CString → Run Exchanged
  unfolding exchange_on
  send_post_request parse_xml calls peer payload =
      exchange_on parse_xml peer payload (request_socket calls)

  abbrev closed_of : Run Exchanged → List ℕ
  closed_of (ok e) = e.closed
  closed_of fault = []

  connect_socket-cases :
      (calls : ConnectCalls) (fd : ℕ)
      → (connect_socket calls fd ≡ (some fd, [])) ⊎ (connect_socket calls fd ≡ (none, fd ∷ []))
  unfolding connect_socket
  connect_socket-cases calls fd = elim (Bool-cases calls.aton) [
    | inr a ↦ inr (rw a refl)
    | inl a ↦ elim (Bool-cases calls.connect) [
      | inl c ↦ inl (rw (a, c) refl)
      | inr c ↦ inr (rw (a, c) refl)
    ]
  ]

  module _ (parse_xml : CString → Option XmlNode) (peer : Socket) (payload : CString)
      (e : Exchanged) where
    closed_connected :
        (fd : ℕ) → exchange_on parse_xml peer payload (some fd, []) ≡ ok e → e.closed ≡ fd ∷ []
    unfolding exchange_on
    closed_connected fd h =
        let (a, parsed, last) = >>=-eq-ok (parse_response parse_xml peer) _ h in
        sym (ap closed_of last)

    closed_refused :
        (closed : List ℕ)
        → exchange_on parse_xml peer payload (none, closed) ≡ ok e
        → e.closed ≡ closed
    unfolding exchange_on
    closed_refused closed h = sym (ap closed_of h)

  -- An exchange that ends has closed the descriptor that `socket` gave it exactly once, whether
  -- the address was refused, the connection failed or an answer was read, and no other: when
  -- `socket` fails, none.
  pub send_post_request-closed :
      (parse_xml : CString → Option XmlNode) (calls : ConnectCalls) (peer : Socket)
      (payload : CString) (e : Exchanged)
      → send_post_request parse_xml calls peer payload ≡ ok e
      → e.closed ≡ elim calls.socket [ none ↦ [] | some fd ↦ fd ∷ [] ]
  unfolding send_post_request request_socket
  send_post_request-closed parse_xml calls peer payload e h = elim (Option-cases calls.socket) [
    | inl n ↦ rw n (closed_refused parse_xml peer payload e [] (rw n at h))
    | inr (fd, s) ↦ rw s (elim (connect_socket-cases calls fd) [
      | inl c ↦ closed_connected parse_xml peer payload e fd (rw (s, c) at h)
      | inr c ↦ closed_refused parse_xml peer payload e (fd ∷ []) (rw (s, c) at h)
    ])
  ]
