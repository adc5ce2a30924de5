-- ===== src/Node/Serve.antt =====
-- The two loops that accept connections: `xmlprc_run` and `publisher_listener` of stros.c.
pub mod Address
use stros.Prelude.{
  ℕ, zero, suc, Bool, true, false, not, List, [], ◌∷◌, ◌++◌, ◌==◌, ◌||◌, if◌then◌else◌, Option,
  some, none, Run, ok, fault, ◌>>=◌, ℤ, pos,
}
use stros.CString.{CString, codes}
use stros.ItemList.{Floats}
use stros.Rpc.Xml.{XmlNode}
use stros.Rpc.Http.{Socket}
use stros.Request.Call.{ConnectCalls}
use stros.Request.Exchange.{Exchanged}
use stros.Api.Topic.{Topic}
use stros.Node.Master.{StartupCalls, socket_startup, unregister}

-- One round of a loop: whether the test of `while` holds, whether `select` succeeds, whether the
-- socket has a connection, what `accept` returns, and whether `pthread_create` succeeds.
pub record Poll : Type 0 where
  pub goes_on : Bool
  pub selected : Bool
  pub is_set : Bool
  pub accepted : Option ℕ
  pub thread : Bool

-- What a loop came to: the descriptors that were handed to a thread, those that no thread has, and
-- whether the loop has ended, which it has not where the rounds that are given run out.
pub record Accepts : Type 0 where
  pub handed : List ℕ
  pub lost : List ℕ
  pub ended : Bool

-- The connection of one round.
unfoldable pub take_client : Bool → Option ℕ → Accepts → Accepts
take_client thread none a = a
take_client thread (some client) a =
    if thread then record a { handed = client ∷ a.handed } else record a { lost = client ∷ a.lost }

-- The rounds from one on, given what the rounds after it come to.
unfoldable pub accept_round : Poll → Accepts → Accepts
unfolding take_client
accept_round r rest =
    if not r.goes_on
    then record { handed = []; lost = []; ended = true }
    else if not r.selected
    then rest
    else if r.is_set
    then take_client r.thread r.accepted rest
    else rest

unfoldable pub accept_loop : List Poll → Accepts
unfolding accept_round
accept_loop [] = record { handed = []; lost = []; ended = false }
accept_loop (r ∷ rounds) = accept_round r (accept_loop rounds)

-- A server that runs: its socket and port, its connections, and the descriptors that it closed.
pub record Server : Type 0 where
  pub sock : ℕ
  pub port : ℕ
  pub accepts : Accepts
  pub closed : List ℕ

abbrev pub serving : ℕ → ℕ → Accepts → Server
serving sock port a = record {
  sock = sock;
  port = port;
  accepts = a;
  closed = if a.ended then sock ∷ [] else [];
}

unfoldable pub serve_on : List Poll → Option ℕ × ℕ → Option Server
unfolding accept_loop
serve_on rounds (none, port) = none
serve_on rounds (some sock, port) = some (serving sock port (accept_loop rounds))

-- `xmlprc_run`; `none` stands for `exit(1)`.
unfoldable pub xmlprc_run : StartupCalls → ℕ → List Poll → Option Server
unfolding serve_on socket_startup
xmlprc_run calls port rounds = serve_on rounds (socket_startup calls port)

-- What `publisher_listener` leaves: the publisher, and its server or the call that took it back.
pub data Listening : Type 0 where
  listens : Topic → Server → Listening
  given_back : Exchanged → Listening

-- The publisher with the address that its listener has.
unfoldable pub listening_at : Topic → CString → ℕ → Topic
listening_at tp ip port = record tp { uri = some ip; port = pos port }

module _ ⦃fl : Floats⦄ (parse_xml : CString → Option XmlNode) where
  unfoldable pub give_back : ConnectCalls → Socket → Topic → Option CString → ℕ → Run Listening
  unfolding unregister
  give_back calls peer tp api n = do
    (e, code) ← unregister parse_xml calls peer tp api (codes "unregisterPublisher") n
    ok (given_back e)

  -- From behind `socket_startup`; `ip` is what `get_ip_address` returns.
  unfoldable pub listen_on :
      ConnectCalls
      → Socket
      → Topic
      → Option CString
      → ℕ
      → CString
      → List Poll
      → Option ℕ × ℕ
      → Run Listening
  unfolding give_back listening_at accept_loop
  listen_on calls peer tp api n ip rounds (none, port) = give_back calls peer tp api n
  listen_on calls peer tp api n ip rounds (some sock, port) =
      if port == 0
      then give_back calls peer tp api n
      else ok (listens (listening_at tp ip port) (serving sock port (accept_loop rounds)))

  -- `publisher_listener`
  unfoldable pub publisher_listener :
      StartupCalls
      → ConnectCalls
      → Socket
      → Topic
      → Option CString
      → ℕ
      → CString
      → List Poll
      → Run Listening
  unfolding listen_on socket_startup
  publisher_listener startup calls peer tp api n ip rounds =
      listen_on calls peer tp api n ip rounds (socket_startup startup 0)
