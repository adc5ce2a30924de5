-- ===== src/Tests/Nodes.antt =====
-- Runs of the life of a node.
use stros.Prelude.{◌≡◌, ◌++◌, [], ◌∷◌, List, Option, some, true, ok}
use stros.CString.{CString, codes}
use stros.Rpc.Http.Message.{request_text}
use stros.Request.Call.{handled, gen_rpc_call}
use stros.Node.Accept.{stros_accept_request, stros_accept_request-request_text}
use stros.Node.Config.{Entry}
use stros.Tests.Setup.{one_float, no_text, knows, knows_lem}
use stros.Tests.Calls.{call, call_tree, call-IsSendable, call-NoNul, call_small}

stros_accept_request-request_text_example :
    stros_accept_request ⦃fl = one_float⦄
      (knows (gen_rpc_call ⦃fl = one_float⦄ call) call_tree)
      (codes "old")
      (request_text (gen_rpc_call ⦃fl = one_float⦄ call) ++ [])
    ≡ ok (record { served = handled call; closed = true; rest = [] })
stros_accept_request-request_text_example =
    stros_accept_request-request_text ⦃fl = one_float⦄ no_text
      (knows (gen_rpc_call ⦃fl = one_float⦄ call) call_tree) call (codes "old") [] call-IsSendable
      call-NoNul call_small (knows_lem (gen_rpc_call ⦃fl = one_float⦄ call) call_tree)

abbrev entries : List Entry
entries =
    record { section = codes "MASTER"; name = codes "uri"; value = codes "10.0.0.1" }
    ∷ record { section = codes "NODE"; name = codes "remap"; value = codes "/other" }
    ∷ record { section = codes "MASTER"; name = codes "port"; value = codes "11411" }
    ∷ []

abbrev config : CString → Option (List Entry)
config file = some entries
