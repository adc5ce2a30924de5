-- ===== src/Request/Params.antt =====
-- The `params` element that is written for a list, read back by the loops of request.c and
-- response.c.
use stros.Prelude.{suc, ◌≡◌, refl, ap, Option, some, ok}
use stros.CString.{CString, codes, equ}
use stros.ItemList.{Floats, Items, null, node, list_put, list_item, count}
use stros.Rpc.Xml.{n_children}
use stros.Rpc.Markup.{Content, done, more, leaf_text, dom, dom_all, crlf, markup}
use stros.Rpc.Plain.{IsPlain, IsPlainItems, puts}
use stros.Rpc.RoundTrip.{parse_rpc_value_wrapped}
use stros.Request.Call.{params_step}
use stros.Request.Reply.{values_loop}
use stros.Request.CallRoundTrip.{params_markup}

module _ ⦃fl : Floats⦄ where
  module _ (other : Content → Option CString) where
    -- The `params` of a call are read into the list they were written from.
    pub params_step-puts :
        (a l : Items)
        → IsPlainItems a
        → params_step l (dom_all other (params_markup a)) ≡ ok (some (puts l a))
    unfolding params_step puts dom params_markup IsPlain equ
    params_step-puts null l h = refl
    params_step-puts (node v a) l h =
        rw
          (parse_rpc_value_wrapped other (codes "param")
            (leaf_text other (more crlf (markup v (more crlf done)))) v l refl h.0)
          (params_step-puts a (list_put l (list_item v)) h.1)

    pub values_loop-puts :
        (a l : Items)
        → IsPlainItems a
        → values_loop l (dom_all other (params_markup a)) ≡ ok (puts l a)
    unfolding values_loop puts dom params_markup IsPlain equ
    values_loop-puts null l h = refl
    values_loop-puts (node v a) l h =
        rw
          (parse_rpc_value_wrapped other (codes "param")
            (leaf_text other (more crlf (markup v (more crlf done)))) v l refl h.0)
          (values_loop-puts a (list_put l (list_item v)) h.1)

    pub n_children-params : (a : Items) → n_children (dom_all other (params_markup a)) ≡ count a
    unfolding n_children dom params_markup count
    n_children-params null = refl
    n_children-params (node v a) = ap suc (n_children-params a)
