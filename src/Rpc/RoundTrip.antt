-- ===== src/Rpc/RoundTrip.antt =====
-- `item_to_xml` and `parse_rpc_value` together.
use stros.Prelude.{
  ℕ, ◌≡◌, ◌≢◌, refl, ◌∙◌, ap, inl, inr, true, false, [], ◌∷◌, arith, Option, some, Run, ok, ◌>>=◌,
  >>=-eq-ok, ℤ, pos, negsuc, append-nil,
}
use stros.CString.{CString, codes, equ, decimal, atoi}
use stros.CString.Decimal.{digits-cons, atoi-decimal}
use stros.Utils.Match.{match_float}
use stros.Utils.Match.Laws.{match_float-match_int}
use stros.ItemList.{
  Floats, Value, Items, nil, int, i4, bool, double, string, date, base64, array, null, node,
  list_item, list_init, list_put, special, list_put_b64, list_put_b, list_put_special,
  list_put_date, list_put_i, list_put_s, list_put_array,
}
use stros.Rpc.Xml.{XmlNode, XmlNodes, element, no_nodes, child}
use stros.Rpc.Parse.{RpcType, tag_type, put_scalar, dispatch, parse_rpc_value, parse_items}
use stros.Rpc.Markup.{
  Content, chars, done, more, leaf_text, dom, dom_all, leaf, value_markup, inner, markup,
  items_markup,
}
use stros.Rpc.Plain.{tag_types, IsPlain, IsPlainItems, puts, puts_fresh}

module _ ⦃fl : Floats⦄ where
  module _ (other : Content → Option CString) where
    dispatch_scalar :
        (l : Items) (type : RpcType) (text : Option CString) (r : Run Items)
        → type ≢ RpcType.array
        → dispatch l type text r ≡ put_scalar l type text
    unfolding dispatch
    dispatch_scalar l RpcType.array text r h = absurd (h refl)
    dispatch_scalar l RpcType.base64 text r h = refl
    dispatch_scalar l _ text r h = refl

    special-format :
        (d : ℕ)
        → (match_float (fl.format_lf d) ≡ true) × (fl.atof (fl.format_lf d) ≡ d)
        → special (fl.format_lf d) ≡ double d
    unfolding special
    special-format d (h, e) = ground (arith, match_float-match_int (fl.format_lf d))

    leaf_text_filled : (s : CString) → s ≢ [] → leaf_text other (more (chars s) done) ≡ some s
    unfolding leaf_text
    leaf_text_filled [] h = absurd (h refl)
    leaf_text_filled (c ∷ s) h = refl

    decimal-ne-nil : (z : ℤ) → decimal z ≢ []
    unfolding decimal
    decimal-ne-nil (pos n) h = let (c, s, same, d) = digits-cons n in cc
    decimal-ne-nil (negsuc n) h = cc

    match_float-ne-nil : (s : CString) → match_float s ≡ true → s ≢ []
    unfolding match_float
    match_float-ne-nil [] h e = cc
    match_float-ne-nil (c ∷ s) h e = cc

    atoi-decimal_all : (z : ℤ) → atoi (decimal z) ≡ z
    atoi-decimal_all z = rw append-nil at (atoi-decimal z [] tt)

    -- A `value` element of a type that is no array, in front of others.
    parse_leaf :
        (l : Items) (tag text : CString) (type : RpcType) (rest : Content)
        → text ≢ []
        → tag_type tag ≡ type
        → type ≢ RpcType.array
        → parse_items l (dom_all other (value_markup (leaf tag text) rest))
          ≡ (put_scalar l type (some text) >>= λ l'. parse_items l' (dom_all other rest))
    unfolding parse_rpc_value dom equ
    parse_leaf l tag text type rest filled h scalar =
        rw (leaf_text_filled text filled, h, dispatch_scalar l type (some text) (ok l) scalar)

    put_int :
        (l : Items) (z : ℤ)
        → put_scalar l RpcType.int (some (decimal z)) ≡ ok (list_put l (list_item (int z)))
    unfolding put_scalar list_put_i
    put_int l z = ap (λ k. ok (list_put l (list_item (int k)))) (atoi-decimal_all z)

    put_bool :
        (l : Items) (z : ℤ)
        → put_scalar l RpcType.bool (some (decimal z)) ≡ ok (list_put l (list_item (bool z)))
    unfolding put_scalar list_put_b
    put_bool l z = ap (λ k. ok (list_put l (list_item (bool k)))) (atoi-decimal_all z)

    put_double :
        (l : Items) (d : ℕ)
        → (match_float (fl.format_lf d) ≡ true) × (fl.atof (fl.format_lf d) ≡ d)
        → put_scalar l RpcType.double (some (fl.format_lf d))
          ≡ ok (list_put l (list_item (double d)))
    unfolding put_scalar list_put_special
    put_double l d h = ap (λ v. ok (list_put l (list_item v))) (special-format d h)

    put_string :
        (l : Items) (s : CString)
        → put_scalar l RpcType.string (some s) ≡ ok (list_put l (list_item (string s)))
    unfolding put_scalar list_put_s
    put_string l s = refl

    put_date :
        (l : Items) (s : CString)
        → put_scalar l RpcType.date (some s) ≡ ok (list_put l (list_item (date s)))
    unfolding put_scalar list_put_date
    put_date l s = refl

    put_base64 :
        (l : Items) (s : CString)
        → put_scalar l RpcType.base64 (some s) ≡ ok (list_put l (list_item (base64 s)))
    unfolding put_scalar list_put_b64
    put_base64 l s = refl

    -- What `put_scalar` appends of a text that is not NULL.
    after :
        (l : Items) (v : Value) (rest : Content) {r : Run Items}
        → r ≡ ok (list_put l (list_item v))
        → (r >>= λ l'. parse_items l' (dom_all other rest))
          ≡ parse_items (list_put l (list_item v)) (dom_all other rest)
    after l v rest h = rw h

    parse_array_value :
        (a : Items) (rest : Content) (l : Items)
        → parse_items list_init (dom_all other (items_markup a)) ≡ ok a
        → parse_items l (dom_all other (markup (array a) rest))
          ≡ parse_items (list_put l (list_item (array a))) (dom_all other rest)
    unfolding parse_rpc_value dom inner equ dispatch list_put_array
    parse_array_value a rest l h = rw (tag_types.7, h)

    -- The fresh list is written as one `nil`, which is skipped.
    parse_fresh : parse_items list_init (dom_all other (items_markup list_init)) ≡ ok list_init
    unfolding parse_rpc_value dom inner equ dispatch list_init
    parse_fresh = rw tag_types.8

    parse_none : (l : Items) → parse_items l no_nodes ≡ ok l
    unfolding parse_rpc_value
    parse_none l = refl

    mutual
      unfolding dom inner IsPlain puts

      parse-markup :
          (v : Value) (rest : Content) (l : Items)
          → IsPlain v
          → parse_items l (dom_all other (markup v rest))
            ≡ parse_items (list_put l (list_item v)) (dom_all other rest)
      parse-markup nil rest l h = absurd h
      parse-markup (i4 z) rest l h = absurd h
      parse-markup (int z) rest l h =
          parse_leaf l (codes "int") (decimal z) RpcType.int rest (decimal-ne-nil z) tag_types.5
            (cc)
          ∙ after l (int z) rest (put_int l z)
      parse-markup (bool z) rest l h =
          parse_leaf l (codes "boolean") (decimal z) RpcType.bool rest (decimal-ne-nil z)
            tag_types.2 (cc)
          ∙ after l (bool z) rest (put_bool l z)
      parse-markup (double d) rest l h =
          parse_leaf l (codes "double") (fl.format_lf d) RpcType.double rest
            (match_float-ne-nil _ h.0) tag_types.3 (cc)
          ∙ after l (double d) rest (put_double l d h)
      parse-markup (string s) rest l h =
          parse_leaf l (codes "string") s RpcType.string rest h tag_types.6 (cc)
          ∙ after l (string s) rest (put_string l s)
      parse-markup (date s) rest l h =
          parse_leaf l (codes "dateTime.iso8601") s RpcType.date rest h tag_types.4 (cc)
          ∙ after l (date s) rest (put_date l s)
      parse-markup (base64 s) rest l h =
          parse_leaf l (codes "base64") s RpcType.base64 rest h tag_types.1 (cc)
          ∙ after l (base64 s) rest (put_base64 l s)
      parse-markup (array a) rest l (inl fresh) = parse_array_value a rest l (rw fresh parse_fresh)
      parse-markup (array a) rest l (inr (plain, ne)) =
          parse_array_value a rest l
            (parse-items_markup a list_init plain ∙ ap ok (puts_fresh a plain ne))

      parse-items_markup :
          (a : Items) (l : Items)
          → IsPlainItems a
          → parse_items l (dom_all other (items_markup a)) ≡ ok (puts l a)
      parse-items_markup null l h = parse_none l
      parse-items_markup (node v r) l h =
          parse-markup v (items_markup r) l h.0
          ∙ parse-items_markup r (list_put l (list_item v)) h.1

    -- A list of plain values that is sent as the content of an array arrives as it was sent.
    pub parse-markup_items :
        (a : Items)
        → IsPlainItems a
        → a ≢ null
        → parse_items list_init (dom_all other (items_markup a)) ≡ ok a
    parse-markup_items a plain ne =
        parse-items_markup a list_init plain ∙ ap ok (puts_fresh a plain ne)

    -- The `value` element that a plain value is sent as.
    abbrev pub value_node : Value → XmlNode
    value_node v = element (codes "value") (leaf_text other (inner v)) (dom_all other (inner v))

    parse_last :
        (l l' : Items) (n : XmlNode)
        → parse_items l (child n no_nodes) ≡ ok l'
        → parse_rpc_value l n ≡ ok l'
    unfolding parse_rpc_value
    parse_last l l' n h =
        let (x, e, last) = >>=-eq-ok (parse_rpc_value l n) (λ x. ok x) h in e ∙ last

    -- The `value` element of a plain value is appended by `parse_rpc_value` to any list as the
    -- value that was sent, nested arrays included. Plain are all values but `nil` and `i4`, with
    -- no empty text, no double whose print is not read back, and no array that is NULL or not
    -- built by `list_put`.
    pub parse_rpc_value-value_node :
        (v : Value) (l : Items)
        → IsPlain v
        → parse_rpc_value l (value_node v) ≡ ok (list_put l (list_item v))
    unfolding dom
    parse_rpc_value-value_node v l h =
        parse_last l _ (value_node v) (parse-markup v done l h ∙ parse_none _)

    parse_inside :
        (tag : CString) (text : Option CString) (l : Items) (t : Option CString) (cs : XmlNodes)
        → equ tag (codes "value") ≡ false
        → parse_rpc_value l (element tag text (child (element (codes "value") t cs) no_nodes))
          ≡ parse_rpc_value l (element (codes "value") t cs)
    unfolding parse_rpc_value equ
    parse_inside tag text l t cs h = rw h

    -- So is one that stands in another element.
    pub parse_rpc_value_wrapped :
        (tag : CString) (text : Option CString) (v : Value) (l : Items)
        → equ tag (codes "value") ≡ false
        → IsPlain v
        → parse_rpc_value l (element tag text (child (value_node v) no_nodes))
          ≡ ok (list_put l (list_item v))
    parse_rpc_value_wrapped tag text v l other_tag h =
        parse_inside tag text l (leaf_text other (inner v)) (dom_all other (inner v)) other_tag
        ∙ parse_rpc_value-value_node v l h
