-- ===== src/Node/Register/Answered.antt =====
-- Exchanges with the master that have an answer.
use stros.Prelude.{ℕ, ◌≡◌, List, Option, some, none, ok, >>=-eq-ok, deref}
use stros.CString.{CString}
use stros.ItemList.{Floats}
use stros.Rpc.Xml.{XmlNode}
use stros.Rpc.Http.{Socket}
use stros.Rpc.Http.Message.{request_text}
use stros.Request.Reply.{RpcResponse, parse_response}
use stros.Request.Exchange.{Exchanged, exchange_on}

pub deref-some : {A : Type 0} (x : Option A) (a : A) → deref x ≡ ok a → x ≡ some a
deref-some none a h = cc
deref-some (some b) a h = cc

module _ ⦃fl : Floats⦄ (parse_xml : CString → Option XmlNode) where
  pub exchange_answered :
      (peer : Socket) (payload : CString) (connected : Option ℕ × List ℕ) (e : Exchanged)
      (answer : RpcResponse)
      → exchange_on parse_xml peer payload connected ≡ ok e
      → e.answer ≡ some answer
      → e.sent ≡ request_text payload
  unfolding exchange_on
  exchange_answered peer payload (none, closed) e answer h a = cc
  exchange_answered peer payload (some fd, closed) e answer h a =
      let (r, parsed, last) = >>=-eq-ok (parse_response parse_xml peer) _ h in cc
