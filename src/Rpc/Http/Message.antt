-- ===== src/Rpc/Http/Message.antt =====
-- The HTTP messages that the program sends, `REQUEST_PATTERN` and `RESPONSE_PATTERN` of rpc.h, and
-- how `decode_rpc_data` reads them.
use stros.Prelude.{
  ℕ, ◌+◌, ◌≤◌, ◌<◌, ◌^◌, ◌≡◌, refl, ◌∙◌, false, ◌∷◌, ◌++◌, append_assoc, arith, length,
  length-append, ok, some, pos, take-append, drop-append, ltb,
}
use stros.CString.{CString, codes, digits}
use stros.Rpc.Http.{
  Socket, newline, Head, no_head, header_loop, loop_result, finish_decode, decode_rpc_data,
}
use stros.Rpc.Http.Decode.{
  NoNul, until_nul_plain, header_loop_line, header_loop_end, header_loop_mono,
}
use stros.Rpc.Http.Lines.{
  plain_lines, type_line, length_round, host-IsLine, agent-IsLine, type-IsLine, status-IsLine,
  close-IsLine, server-IsLine,
}

abbrev pub request_line : CString
request_line = codes "POST /RPC2 HTTP/1.0\r\n"

-- `REQUEST_PATTERN` behind its first line.
unfoldable pub request_head : ℕ → CString
request_head n =
    codes "Host: stROS\r\nUser-Agent: stROS\r\nContent-Type: text/xml\r\nContent-Length: "
    ++ (digits n ++ codes "\r\n\r\n")

unfoldable pub request_text : CString → CString
unfolding request_head
request_text body = request_line ++ (request_head (length body) ++ body)

-- `SERVER_STRING` of config.h, with its own line end.
abbrev pub server_string : CString
server_string = codes "Server: stros-xmlprc\r\n"

-- `RESPONSE_PATTERN`
unfoldable pub response_text : CString → CString
response_text body =
    codes "HTTP/1.0 200 OK\r\nConnection: close\r\nContent-Length: "
    ++ (digits (length body)
        ++ (codes "\r\nContent-Type: text/xml\r\nServer: "
            ++ (server_string ++ (codes "\r\n" ++ body))))

abbrev xml_head : ℕ → Head
xml_head n = record { ctype = some (codes "text/xml"); clen = pos n }

request_loop :
    (n : ℕ) (rest : Socket)
    → n < 10 ^ 9
    → header_loop 5 no_head (request_head n ++ rest) ≡ some (ok (xml_head n, rest))
unfolding request_head
request_loop n rest h = simp append_assoc (
    header_loop_line 4 no_head no_head (codes "Host: stROS\r") _ host-IsLine (plain_lines no_head).0
    ∙ header_loop_line 3 no_head no_head (codes "User-Agent: stROS\r") _ agent-IsLine
        (plain_lines no_head).1
    ∙ header_loop_line 2 no_head _ (codes "Content-Type: text/xml\r") _ type-IsLine
        (type_line no_head)
    ∙ length_round 1 _ n (13 ∷ newline ∷ rest) h
    ∙ header_loop_end 0 (xml_head n) rest)

response_loop :
    (n : ℕ) (body : CString) (rest : Socket)
    → length body ≡ n
    → n < 10 ^ 9
    → header_loop 6 no_head (response_text body ++ rest) ≡ some (ok (xml_head n, body ++ rest))
unfolding response_text
response_loop n body rest e h = rw e (
    simp append_assoc (
      header_loop_line 5 no_head no_head (codes "HTTP/1.0 200 OK\r") _ status-IsLine
        (plain_lines no_head).2
      ∙ header_loop_line 4 no_head no_head (codes "Connection: close\r") _ close-IsLine
          (plain_lines no_head).3
      ∙ length_round 3 no_head n _ h
      ∙ header_loop_line 2 _ (xml_head n) (codes "Content-Type: text/xml\r") _ type-IsLine
          (type_line _)
      ∙ header_loop_line 1 _ (xml_head n) (codes "Server: Server: stros-xmlprc\r") _ server-IsLine
          (plain_lines _).4
      ∙ header_loop_end 0 (xml_head n) (body ++ rest)))

finish_body :
    (body : CString) (rest : Socket)
    → NoNul body
    → finish_decode (xml_head (length body)) (body ++ rest) ≡ ok (some body, rest)
unfolding finish_decode
finish_body body rest plain =
    let fits : ltb (length (body ++ rest)) (length body) ≡ false =
      ground (arith, length-append body rest) in
    rw (
      fits,
      take-append body rest (length body) refl,
      drop-append body rest (length body) refl,
      until_nul_plain body plain,
    )

decode_of_loop :
    (f : ℕ) (client : Socket) (body : CString) (rest : Socket)
    → NoNul body
    → f ≤ length client + 1
    → header_loop f no_head client ≡ some (ok (xml_head (length body), body ++ rest))
    → decode_rpc_data client ≡ ok (some body, rest)
unfolding decode_rpc_data loop_result
decode_of_loop f client body rest plain le h =
    rw (header_loop_mono f (length client + 1) no_head client _ le h) (finish_body body rest plain)

module _ (body : CString) (rest : Socket) (plain : NoNul body) (small : length body < 10 ^ 9) where
  -- The body of a request, behind its first line, is decoded exactly, and what follows it on the
  -- socket is left there, for a body without NUL and of fewer than 10^9 bytes.
  pub decode-request_head :
      decode_rpc_data (request_head (length body) ++ (body ++ rest)) ≡ ok (some body, rest)
  decode-request_head =
      decode_of_loop 5 _ body rest plain (unfold request_head in omega arith)
        (request_loop (length body) (body ++ rest) small)

  -- The body of a response, whose server line ends twice, is decoded exactly, and what follows it
  -- on the socket is left there, for a body without NUL and of fewer than 10^9 bytes.
  pub decode-response_text : decode_rpc_data (response_text body ++ rest) ≡ ok (some body, rest)
  decode-response_text =
      decode_of_loop 6 _ body rest plain (unfold response_text in omega arith)
        (response_loop (length body) body rest refl small)
