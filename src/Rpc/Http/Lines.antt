-- ===== src/Rpc/Http/Lines.antt =====
-- The header lines that the program writes, and what `decode_rpc_data` takes from each.
use stros.Prelude.{
  ℕ, suc, replicate, ◌<◌, ◌^◌, ◌≡◌, refl, sym, true, [], ◌∷◌, ◌++◌, append_assoc, append-nil, arith,
  length-append, ok, some, All, All-append, pos,
}
use stros.CString.{CString, codes, atoi, digits, decimal, contains, isdigit}
use stros.CString.Decimal.{IsDigits, digits-IsDigits, digits-cons, length-digits, atoi-decimal}
use stros.CString.Tokens.{Lacks, strsep_plain}
use stros.Utils.Trim.{trim}
use stros.Utils.Trim.Laws.{IsCore, trim-core}
use stros.Rpc.Http.{Socket, newline, Head, is_header_line, header_step, header_loop}
use stros.Rpc.Http.Decode.{IsLine, header_loop_line}

-- The text of a length field, behind its colon and space.
length_text : ℕ → CString
length_text n = digits n ++ codes "\r\n"

digit_chars :
    (P : ℕ → Type 0) → ((c : ℕ) → isdigit c ≡ true → P c) → (s : CString) → IsDigits s → All P s
digit_chars P p [] h = tt
digit_chars P p (c ∷ s) (hc, hs) = (p c hc, digit_chars P p s hs)

length_text-Lacks : (n : ℕ) → Lacks (codes ":") (length_text n)
unfolding length_text contains
length_text-Lacks n =
    All-append _ (digits n) _ (digit_chars _ (λ c h. ground arith) (digits n) (digits-IsDigits n))
      (refl, (refl, tt))

length_text-IsCore : (n : ℕ) → IsCore 32 (length_text n)
unfolding length_text
length_text-IsCore n =
    let (c, s, same, d) = digits-cons n in
    record {
      first = c;
      behind = s ++ codes "\r\n";
      begins = rw same;
      first_other = ground arith;
      last = newline;
      front = digits n ++ 13 ∷ [];
      ends = sym (append_assoc (digits n) (13 ∷ []) (newline ∷ []));
      last_other = refl;
    }

-- What one line of the head does, for the lines that the two messages have.
pub plain_lines :
    (head : Head)
    → (header_step head (codes "Host: stROS\r\n") ≡ ok head)
      × (header_step head (codes "User-Agent: stROS\r\n") ≡ ok head)
      × (header_step head (codes "HTTP/1.0 200 OK\r\n") ≡ ok head)
      × (header_step head (codes "Connection: close\r\n") ≡ ok head)
      × (header_step head (codes "Server: Server: stros-xmlprc\r\n") ≡ ok head)
unfolding header_step
plain_lines head = (refl, refl, refl, refl, refl)

pub type_line :
    (head : Head)
    → header_step head (codes "Content-Type: text/xml\r\n")
      ≡ ok (record head { ctype = some (codes "text/xml") })
unfolding header_step
type_line head = refl

trim_space : (n : ℕ) → trim (32 ∷ length_text n) 32 ≡ ok (length_text n)
unfolding replicate
trim_space n =
    let whole : trim (32 ∷ (length_text n ++ [])) 32 ≡ ok (length_text n) =
      trim-core 32 1 0 (length_text n) (length_text-IsCore n) in
    rw append-nil at whole

atoi-length_text : (n : ℕ) → atoi (length_text n) ≡ pos n
unfolding length_text decimal
atoi-length_text n = atoi-decimal (pos n) (codes "\r\n") refl

length_line :
    (head : Head) (n : ℕ)
    → header_step head (codes "Content-Length: " ++ length_text n)
      ≡ ok (record head { clen = pos n })
unfolding header_step
length_line head n = rw (
  strsep_plain (codes ":") (length_text n) (length_text-Lacks n),
  trim_space n,
  atoi-length_text n,
)

-- A fixed line, its `\n` taken off, that passes the tests of the loop.
pub clen-IsLine : (n : ℕ) → n < 10 ^ 9 → IsLine (codes "Content-Length: " ++ (digits n ++ 13 ∷ []))
clen-IsLine n h = record {
  one = All-append _ (codes "Content-Length: ") _ (ground arith) (
      All-append _ (digits n) _ (digit_chars _ (λ c d. ground arith) (digits n) (digits-IsDigits n))
        (refl, tt));
  text = All-append _ (codes "Content-Length: ") _ (ground arith) (
      All-append _ (digits n) _ (digit_chars _ (λ c d. ground arith) (digits n) (digits-IsDigits n))
        (refl, tt));
  short = omega (arith, length-append (digits n) (13 ∷ []), length-digits n 8 h);
  field = unfold is_header_line in refl;
}

pub length_round :
    (f : ℕ) (head : Head) (n : ℕ) (rest : Socket)
    → n < 10 ^ 9
    → header_loop (suc f) head (codes "Content-Length: " ++ (digits n ++ 13 ∷ newline ∷ rest))
      ≡ header_loop f (record head { clen = pos n }) rest
length_round f head n rest h =
    let line : CString = codes "Content-Length: " ++ (digits n ++ 13 ∷ []) in
    let step : header_step head (line ++ newline ∷ []) ≡ ok (record head { clen = pos n }) =
      simp append_assoc (unfold length_text in length_line head n) in
    let whole : header_loop (suc f) head (line ++ newline ∷ rest)
        ≡ header_loop f (record head { clen = pos n }) rest =
      header_loop_line f head (record head { clen = pos n }) line rest (clen-IsLine n h) step in
    simp append_assoc at whole

pub host-IsLine : IsLine (codes "Host: stROS\r")
host-IsLine = record {
  one = ground arith;
  text = ground arith;
  short = omega arith;
  field = unfold is_header_line in refl;
}

pub agent-IsLine : IsLine (codes "User-Agent: stROS\r")
agent-IsLine = record {
  one = ground arith;
  text = ground arith;
  short = omega arith;
  field = unfold is_header_line in refl;
}

pub type-IsLine : IsLine (codes "Content-Type: text/xml\r")
type-IsLine = record {
  one = ground arith;
  text = ground arith;
  short = omega arith;
  field = unfold is_header_line in refl;
}

pub status-IsLine : IsLine (codes "HTTP/1.0 200 OK\r")
status-IsLine = record {
  one = ground arith;
  text = ground arith;
  short = omega arith;
  field = unfold is_header_line in refl;
}

pub close-IsLine : IsLine (codes "Connection: close\r")
close-IsLine = record {
  one = ground arith;
  text = ground arith;
  short = omega arith;
  field = unfold is_header_line in refl;
}

pub server-IsLine : IsLine (codes "Server: Server: stros-xmlprc\r")
server-IsLine = record {
  one = ground arith;
  text = ground arith;
  short = omega arith;
  field = unfold is_header_line in refl;
}
