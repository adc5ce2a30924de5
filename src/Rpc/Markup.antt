-- ===== src/Rpc/Markup.antt =====
-- XML text as a tree with its white space, to say which tree a generated text is written from.
use stros.Prelude.{◌≡◌, refl, [], ◌∷◌, ◌++◌, append_assoc, Option, none, some}
use stros.CString.{CString, codes, decimal}
use stros.ItemList.{
  Floats, Value, Items, nil, int, i4, bool, double, string, date, base64, array, null, node,
}
use stros.Rpc.Xml.{XmlNodes, element, no_nodes, child}
use stros.Rpc.Generate.{item_to_xml, items_to_xml}

-- A piece of a document: text, `<t/>`, or an element; `Content` is what an element holds.
mutual
  pub data Markup : Type 0 where
    chars : CString → Markup
    empty : CString → Markup
    elem : CString → Content → Markup

  pub data Content : Type 0 where
    done : Content
    more : Markup → Content → Content

abbrev pub open_tag : CString → CString
open_tag t = codes "<" ++ (t ++ codes ">")

abbrev pub close_tag : CString → CString
close_tag t = codes "</" ++ (t ++ codes ">")

-- A tree as text. As in rpc.c the characters of a text are written as they are: a text that holds
-- `<` or `&` gives one that is not well formed.
unfoldable mutual
  pub render : Markup → CString
  render (chars s) = s
  render (empty t) = codes "<" ++ (t ++ codes "/>")
  render (elem t c) = open_tag t ++ (render_all c ++ close_tag t)

  pub render_all : Content → CString
  render_all done = []
  render_all (more m c) = render m ++ render_all c

-- The text that the library gives an element: that of a leaf is its characters, NULL if it has
-- none; what it gives an element with children is up to it, and nothing here reads it.
unfoldable pub leaf_text : (Content → Option CString) → Content → Option CString
leaf_text other (more (chars []) done) = none
leaf_text other (more (chars (c ∷ s)) done) = some (c ∷ s)
leaf_text other c = other c

-- The elements of a content, as the tree that the library builds.
unfoldable mutual
  pub dom : (Content → Option CString) → Markup → XmlNodes → XmlNodes
  dom other (chars s) rest = rest
  dom other (empty t) rest = child (element t none no_nodes) rest
  dom other (elem t c) rest = child (element t (leaf_text other c) (dom_all other c)) rest

  pub dom_all : (Content → Option CString) → Content → XmlNodes
  dom_all other done = no_nodes
  dom_all other (more m c) = dom other m (dom_all other c)

abbrev pub leaf : CString → CString → Markup
leaf t s = elem t (more (chars s) done)

abbrev pub crlf : Markup
crlf = chars (codes "\r\n")

-- A `value` element around one piece.
abbrev pub value_markup : Markup → Content → Content
value_markup m rest = more (elem (codes "value") (more m done)) (more crlf rest)

module _ ⦃fl : Floats⦄ where
  -- What the `value` element of a value holds: its type's element. `items_markup` is a sequence of
  -- such elements.
  unfoldable mutual
    pub inner : Value → Content
    inner (base64 s) = more (leaf (codes "base64") s) done
    inner (bool z) = more (leaf (codes "boolean") (decimal z)) done
    inner (double d) = more (leaf (codes "double") (fl.format_lf d)) done
    inner (date s) = more (leaf (codes "dateTime.iso8601") s) done
    inner (int z) = more (leaf (codes "int") (decimal z)) done
    inner (i4 z) = more (leaf (codes "int") (decimal z)) done
    inner (string s) = more (leaf (codes "string") s) done
    inner nil = more (empty (codes "nil")) (more crlf done)
    inner (array a) =
        more
          (elem (codes "array")
            (more crlf (more (elem (codes "data") (more crlf (items_markup a))) (more crlf done))))
          (more crlf done)

    pub items_markup : Items → Content
    items_markup null = done
    items_markup (node v l) = more (elem (codes "value") (inner v)) (more crlf (items_markup l))

  abbrev pub markup : Value → Content → Content
  markup v rest = more (elem (codes "value") (inner v)) (more crlf rest)

  mutual
    unfolding render item_to_xml inner

    pub render-markup :
        (v : Value) (rest : Content) → render_all (markup v rest) ≡ item_to_xml v ++ render_all rest
    render-markup (base64 s) rest = simp append_assoc
    render-markup (bool z) rest = simp append_assoc
    render-markup (double d) rest = simp append_assoc
    render-markup (date s) rest = simp append_assoc
    render-markup (int z) rest = simp append_assoc
    render-markup (i4 z) rest = simp append_assoc
    render-markup (string s) rest = simp append_assoc
    render-markup nil rest = refl
    render-markup (array a) rest = simp (append_assoc, render-items_markup a)

    pub render-items_markup : (l : Items) → render_all (items_markup l) ≡ items_to_xml l
    render-items_markup null = refl
    render-items_markup (node v l) = rw (render-markup v (items_markup l), render-items_markup l)
