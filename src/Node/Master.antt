-- ===== src/Node/Master.antt =====
-- `socket_startup` and `unregister` of stros.c: the socket of the node's own server, and the call
-- that takes a topic back from the master.
use stros.Prelude.{
  ℕ, ◌≡◌, refl, Bool, ◌==◌, if◌then◌else◌, Option, some, none, Run, ok, fault, ◌>>=◌, deref,
}
use stros.CString.{CString}
use stros.ItemList.{Floats, Items, list_init, list_put_s}
use stros.Rpc.Xml.{XmlNode}
use stros.Rpc.Http.{Socket}
use stros.Request.Call.{ConnectCalls, request_socket, gen_rpc_call}
use stros.Request.Exchange.{Exchanged, send_post_request}
use stros.Api.Topic.{Topic}

-- The outcomes of the system calls: the descriptor of `socket`, whether `bind` and `listen`
-- succeed, and the port that `getsockname` finds.
pub record StartupCalls : Type 0 where
  pub socket : Option ℕ
  pub bind : Bool
  pub name : Option ℕ
  pub listen : Bool

abbrev listening : StartupCalls → ℕ → Option ℕ
listening calls httpd = if calls.listen then some httpd else none

-- From behind `bind`.
unfoldable pub named_socket : StartupCalls → ℕ → ℕ → Option ℕ × ℕ
named_socket calls httpd port =
    let dynamic = elim calls.name as (λ x. Option ℕ × ℕ) [
      | none ↦ (none, port)
      | some p ↦ (listening calls httpd, p)
    ] in
    if port == 0 then dynamic else (listening calls httpd, port)

-- `socket_startup`: the descriptor, or `none` for -1, and `*port` after.
unfoldable pub socket_startup : StartupCalls → ℕ → Option ℕ × ℕ
unfolding named_socket
socket_startup calls port = elim calls.socket as (λ x. Option ℕ × ℕ) [
  | none ↦ (none, port)
  | some httpd ↦ if calls.bind then named_socket calls httpd port else (none, port)
]

module _ ⦃fl : Floats⦄ where
  -- The parameters of the call; `api` is NULL until the server has started.
  unfoldable pub unregister_params : Topic → Option CString → Run Items
  unfolding list_put_s
  unregister_params tp api = do
    l ← list_put_s list_init (some tp.callerid)
    l ← list_put_s l (some tp.topic)
    list_put_s l api

  -- `unregister`; `n` is what `malloc` left in `n_params`. The answer is read even where it is NULL;
  -- the result is its code.
  unfoldable pub unregister :
      (CString → Option XmlNode)
      → ConnectCalls
      → Socket
      → Topic
      → Option CString
      → CString
      → ℕ
      → Run (Exchanged × Bool)
  unfolding unregister_params
  unregister parse_xml calls peer tp api methd n = do
    params ← unregister_params tp api
    e ←
        send_post_request parse_xml calls peer
          (gen_rpc_call (record { method = methd; n_params = n; params = params }))
    answer ← deref e.answer
    ok (e, answer.code)

  -- Where the socket for the master cannot be made, `unregister` reads the answer that is not
  -- there, for a node that has its api.
  pub unregister-send_post_request :
      (parse_xml : CString → Option XmlNode) (calls : ConnectCalls) (peer : Socket) (tp : Topic)
      (api methd : CString) (n : ℕ)
      → calls.socket ≡ none
      → unregister parse_xml calls peer tp (some api) methd n ≡ fault
  unfolding unregister send_post_request request_socket list_init
  unregister-send_post_request parse_xml calls peer tp api methd n h = rw h refl
