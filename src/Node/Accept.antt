-- ===== src/Node/Accept.antt =====
-- `stros_accept_request` of stros.c: the request line of an incoming call.
use stros.Prelude.{
  ℕ, zero, suc, ◌<◌, ◌^◌, ◌≡◌, refl, ◌∙◌, ap, Bool, true, false, not, [], ◌∷◌, ◌++◌, append_assoc,
  if◌then◌else◌, Option, some, Run, ok, ◌>>=◌, length,
}
use stros.CString.{CString, codes, equ, iequ, isspace}
use stros.ItemList.{Floats}
use stros.Rpc.Xml.{XmlNode}
use stros.Rpc.Markup.{Content}
use stros.Rpc.Http.{Socket, max_buff, rpc_read_buf, until_nul}
use stros.Rpc.Http.Decode.{NoNul}
use stros.Rpc.Http.Message.{request_line, request_head, request_text}
use stros.Request.Call.{RpcRequest, Served, bad_request, handled, parse_request, gen_rpc_call}
use stros.Request.RoundTrip.{IsSendable, call_root, parse_request-gen_rpc_call}

-- The loop that copies what is no space, with room for so many bytes: the word, and the buffer
-- from there on.
unfoldable pub take_word : ℕ → CString → CString × CString
take_word zero buf = ([], buf)
take_word (suc room) [] = ([], [])
take_word (suc room) (c ∷ buf) =
    let (word, rest) = take_word room buf in if isspace c then ([], c ∷ buf) else (c ∷ word, rest)

unfoldable pub skip_space : CString → CString
skip_space [] = []
skip_space (c ∷ buf) = let rest = skip_space buf in if isspace c then rest else c ∷ buf

-- How a call ends: what became of it, whether the descriptor was closed, the socket after.
pub record Accepted : Type 0 where
  pub served : Served
  pub closed : Bool
  pub rest : Socket

abbrev pub turned_away : Bool → Socket → Accepted
turned_away closed rest = record { served = bad_request; closed = closed; rest = rest }

request_text-append :
    (body rest : CString)
    → request_text body ++ rest ≡ request_line ++ (request_head (length body) ++ (body ++ rest))
unfolding request_text
request_text-append body rest = simp append_assoc

module _ ⦃fl : Floats⦄ where
  -- The test of the url, from behind the method.
  unfoldable pub accept_url : (CString → Option XmlNode) → CString → Socket → Run Accepted
  accept_url parse_xml buf rest =
      if not (equ (until_nul (take_word 254 (skip_space buf)).0) (codes "/RPC2"))
      then ok (turned_away true rest)
      else (do
        (served, after) ← parse_request parse_xml true rest
        ok (record { served = served; closed = true; rest = after }))

  -- The test of the method, on the whole buffer; the early return does not close the descriptor.
  unfoldable pub accept_line : (CString → Option XmlNode) → CString → Socket → Run Accepted
  unfolding accept_url
  accept_line parse_xml buf rest =
      let (method, behind) = take_word 254 buf in
      if not (iequ (until_nul method) (codes "POST"))
      then ok (turned_away false rest)
      else accept_url parse_xml behind rest

  -- `stros_accept_request`; `junk` is what the buffer holds behind the NUL of the line.
  unfoldable pub stros_accept_request : (CString → Option XmlNode) → CString → Socket → Run Accepted
  unfolding accept_line
  stros_accept_request parse_xml junk client =
      let (line, rest) = rpc_read_buf client max_buff in
      accept_line parse_xml (line ++ 0 ∷ junk) rest

  read_request_line :
      (rest : Socket) → rpc_read_buf (request_line ++ rest) 1024 ≡ (request_line, rest)
  unfolding rpc_read_buf
  read_request_line rest = refl

  accept_request_line :
      (parse_xml : CString → Option XmlNode) (junk : CString) (rest : Socket)
      → stros_accept_request parse_xml junk (request_line ++ rest) ≡ (
          parse_request parse_xml true rest >>= λ r.
          ok (record { served = r.0; closed = true; rest = r.1 }))
  unfolding stros_accept_request take_word skip_space iequ equ until_nul
  accept_request_line parse_xml junk rest = rw (read_request_line rest) refl

  -- A node that is sent a call as `send_post_request` writes it hands exactly that call to its
  -- handler, leaves what follows it on the socket, and closes the descriptor, whatever its buffer
  -- held before: for a named method whose parameters are plain, at least one and as many as it
  -- says, a text without NUL and of fewer than 10^9 bytes, and an XML library that parses the text
  -- as its document.
  pub stros_accept_request-request_text :
      (other : Content → Option CString) (parse_xml : CString → Option XmlNode) (rq : RpcRequest)
      (junk rest : CString)
      → IsSendable rq
      → NoNul (gen_rpc_call rq)
      → length (gen_rpc_call rq) < 10 ^ 9
      → parse_xml (gen_rpc_call rq) ≡ some (call_root other rq)
      → stros_accept_request parse_xml junk (request_text (gen_rpc_call rq) ++ rest)
        ≡ ok (record { served = handled rq; closed = true; rest = rest })
  stros_accept_request-request_text other parse_xml rq junk rest h plain small doc =
      let parsed = parse_request-gen_rpc_call other parse_xml rq rest h plain small doc in
      let whole : stros_accept_request parse_xml junk
            (request_line ++ (request_head (length (gen_rpc_call rq)) ++ (gen_rpc_call rq ++ rest)))
          ≡ ok (record { served = handled rq; closed = true; rest = rest }) =
        accept_request_line parse_xml junk _ ∙ rw parsed refl in
      ap (stros_accept_request parse_xml junk) (request_text-append (gen_rpc_call rq) rest) ∙ whole
