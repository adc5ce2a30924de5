-- ===== src/Tests/Setup.antt =====
-- What the runs share: a floating point that reads and prints one number, a parser that knows one
-- document, and texts checked for NUL by evaluation.
use stros.Prelude.{
  ◌≡◌, refl, Bool, true, false, not, ◌&&◌, ◌==◌, [], ◌∷◌, Option, none, some, if◌then◌else◌, arith,
}
use stros.CString.{CString, codes, equ}
use stros.CString.Compare.{equ_refl}
use stros.ItemList.{Floats}
use stros.Rpc.Xml.{XmlNode}
use stros.Rpc.Markup.{Content}
use stros.Rpc.Http.Decode.{NoNul}

abbrev pub one_float : Floats
one_float = record { atof = λ s. 4607182418800017408; format_lf = λ d. codes "1.000000" }

abbrev pub no_text : Content → Option CString
no_text c = none

abbrev pub knows : CString → XmlNode → CString → Option XmlNode
knows document tree text = if equ text document then some tree else none

pub knows_lem : (document : CString) (tree : XmlNode) → knows document tree document ≡ some tree
knows_lem document tree = rw (equ_refl document) refl

-- A parser that knows two documents.
abbrev pub knows_two : CString → XmlNode → CString → XmlNode → CString → Option XmlNode
knows_two first tree second other text =
    if equ text first then some tree else knows second other text

pub knows_first :
    (first second : CString) (tree other : XmlNode)
    → knows_two first tree second other first ≡ some tree
knows_first first second tree other = rw (equ_refl first) refl

pub knows_second :
    (first second : CString) (tree other : XmlNode)
    → equ second first ≡ false
    → knows_two first tree second other second ≡ some other
knows_second first second tree other h = rw (h, equ_refl second) refl

unfoldable pub no_nul : CString → Bool
no_nul [] = true
no_nul (c ∷ s) = not (c == 0) && no_nul s

pub no_nul-NoNul : (s : CString) → no_nul s ≡ true → NoNul s
unfolding no_nul
no_nul-NoNul [] h = tt
no_nul-NoNul (c ∷ s) h =
    let rest : no_nul s ≡ true = ground arith in (ground arith, no_nul-NoNul s rest)
