-- ===== src/Tests/Calls.antt =====
-- Runs of calls and answers.
use stros.Prelude.{Run}
use stros.Prelude.{
  ◌≡◌, ◌≢◌, ◌<◌, ◌^◌, refl, inr, true, false, ltb→lt, [], ◌∷◌, ◌++◌, none, some, ok, arith, pos,
  length,
}
use stros.CString.{codes, decimal}
use stros.ItemList.{Items, int, string, array, null, node, list_init, list_put, list_item, count}
use stros.Rpc.Xml.{XmlNode}
use stros.Rpc.Parse.{parse_rpc_value}
use stros.Rpc.Plain.{IsPlain, IsPlainItems}
use stros.Rpc.RoundTrip.{value_node, parse_rpc_value-value_node}
use stros.Rpc.Http.{Head, Socket, header_loop, no_head}
use stros.Rpc.Http.Decode.{NoNul}
use stros.Rpc.Http.Fuel.{header_loop-fuel}
use stros.Rpc.Http.Message.{request_head, response_text}
use stros.Request.Call.{
  RpcRequest, handled, parse_request, gen_rpc_call, ConnectCalls, request_socket,
}
use stros.Request.Reply.{gen_rpc_response, response_ok, parse_response}
use stros.Request.RoundTrip.{
  call_root, response_tree, IsSendable, parse_request-gen_rpc_call, parse_response-gen_rpc_response,
}
use stros.Request.Exchange.{Exchanged, send_post_request, send_post_request-closed}
use stros.Tests.Setup.{one_float, no_text, knows, knows_lem, no_nul, no_nul-NoNul}

-- `publisherUpdate` with a caller and an array of one number.
abbrev pub params : Items
params = node (string (codes "/n")) (node (array (node (int (pos 42)) null)) null)

abbrev pub call : RpcRequest
call = record { method = codes "publisherUpdate"; n_params = 2; params = params }

pub params-IsPlainItems : IsPlainItems ⦃fl = one_float⦄ params
unfolding IsPlain
params-IsPlainItems = (λ e. cc, (inr ((tt, tt), λ e. cc), tt))

pub params-ne-null : params ≢ null
params-ne-null e = cc

pub call-IsSendable : IsSendable ⦃fl = one_float⦄ call
call-IsSendable = record {
  named = λ e. cc;
  plain = params-IsPlainItems;
  filled = params-ne-null;
  counted = unfold count in refl;
}

pub call-NoNul : NoNul (gen_rpc_call ⦃fl = one_float⦄ call)
unfolding gen_rpc_call no_nul decimal
call-NoNul = no_nul-NoNul (gen_rpc_call ⦃fl = one_float⦄ call) refl

pub call_small : length (gen_rpc_call ⦃fl = one_float⦄ call) < 10 ^ 9
unfolding gen_rpc_call decimal
call_small = ltb→lt (length (gen_rpc_call ⦃fl = one_float⦄ call)) (10 ^ 9) refl

abbrev pub call_tree : XmlNode
call_tree = call_root ⦃fl = one_float⦄ no_text call

parse_request-gen_rpc_call_example :
    parse_request ⦃fl = one_float⦄ (knows (gen_rpc_call ⦃fl = one_float⦄ call) call_tree) true (
      request_head (length (gen_rpc_call ⦃fl = one_float⦄ call))
      ++ (gen_rpc_call ⦃fl = one_float⦄ call ++ codes "POST"))
    ≡ ok (handled call, codes "POST")
parse_request-gen_rpc_call_example =
    parse_request-gen_rpc_call ⦃fl = one_float⦄ no_text
      (knows (gen_rpc_call ⦃fl = one_float⦄ call) call_tree) call (codes "POST") call-IsSendable
      call-NoNul call_small (knows_lem (gen_rpc_call ⦃fl = one_float⦄ call) call_tree)

pub response-NoNul : NoNul (gen_rpc_response ⦃fl = one_float⦄ params)
unfolding gen_rpc_response no_nul decimal
response-NoNul = no_nul-NoNul (gen_rpc_response ⦃fl = one_float⦄ params) refl

pub response_small : length (gen_rpc_response ⦃fl = one_float⦄ params) < 10 ^ 9
unfolding gen_rpc_response decimal
response_small = ltb→lt (length (gen_rpc_response ⦃fl = one_float⦄ params)) (10 ^ 9) refl

abbrev pub params_tree : XmlNode
params_tree = response_tree ⦃fl = one_float⦄ no_text params

parse_response-gen_rpc_response_example :
    parse_response ⦃fl = one_float⦄
      (knows (gen_rpc_response ⦃fl = one_float⦄ params) params_tree)
      (response_text (gen_rpc_response ⦃fl = one_float⦄ params) ++ [])
    ≡ ok (some (response_ok (count params) params), [])
parse_response-gen_rpc_response_example =
    parse_response-gen_rpc_response ⦃fl = one_float⦄ no_text
      (knows (gen_rpc_response ⦃fl = one_float⦄ params) params_tree) params [] params-IsPlainItems
      params-ne-null response-NoNul response_small
      (knows_lem (gen_rpc_response ⦃fl = one_float⦄ params) params_tree)

forty_two-IsPlain : IsPlain ⦃fl = one_float⦄ (int (pos 42))
unfolding IsPlain
forty_two-IsPlain = tt

parse_rpc_value-value_node_example :
    parse_rpc_value ⦃fl = one_float⦄ list_init (value_node ⦃fl = one_float⦄ no_text (int (pos 42)))
    ≡ ok (list_put list_init (list_item (int (pos 42))))
parse_rpc_value-value_node_example =
    parse_rpc_value-value_node ⦃fl = one_float⦄ no_text (int (pos 42)) list_init forty_two-IsPlain

header_loop-fuel_example :
    (r : Run (Head × Socket)) × (header_loop 5 no_head (codes "a\nb") ≡ some r)
    × (header_loop 9 no_head (codes "a\nb") ≡ some r)
header_loop-fuel_example = header_loop-fuel 5 9 no_head (codes "a\nb") (omega arith) (omega arith)

abbrev refused : ConnectCalls
refused = record { socket = some 5; aton = true; connect = false }

abbrev nothing_sent : Exchanged
nothing_sent = record { sent = []; closed = 5 ∷ []; answer = none }

send_refused :
    send_post_request ⦃fl = one_float⦄ (λ s. none) refused [] (codes "<a/>") ≡ ok nothing_sent
unfolding send_post_request request_socket
send_refused = refl

send_post_request-closed_example : nothing_sent.closed ≡ 5 ∷ []
send_post_request-closed_example =
    send_post_request-closed ⦃fl = one_float⦄ (λ s. none) refused [] (codes "<a/>") nothing_sent
      send_refused
