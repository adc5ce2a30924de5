-- ===== src/Api/Handler/Urls.antt =====
-- `extract_url` and `publisherUpdate`: the url of a publisher.
use stros.Prelude.{
  ℕ, ◌<◌, ◌^◌, ◌≡◌, ◌≢◌, refl, ◌∙◌, sym, ap, inl, inr, true, false, [], ◌∷◌, ◌++◌, ◌==◌, append-nil,
  arith, none, some, ok, pos, if◌then◌else◌, All-append, Option-cases,
}
use stros.CString.{
  CString, codes, digits, decimal, contains, isdigit, equ, strsep_all, atoi, int_range,
}
use stros.CString.Decimal.{IsDigits, digits-IsDigits, digits-cons, atoi-decimal}
use stros.CString.Tokens.{Lacks, strsep_all_cut, strsep_all_last}
use stros.Utils.Match.{match_int, match_float}
use stros.Utils.Match.Laws.{match_int-decimal}
use stros.ItemList.{
  Floats, Items, int, string, null, node, list_init, list_put, list_put_special, special, list_size,
  list_at, value_s, value_i, value_array,
}
use stros.ItemList.Split.{split, split_loop, split_result}
use stros.ItemList.Pairs.{split_two, special_colon, contains_inside}
use stros.Dictionary.{Association, Buckets, dlookup, value_of, dvalue, write_value}
use stros.Dictionary.Lookup.{IsWide, dvalue-write_value, dvalue_lem}
use stros.Api.Topic.{Topic, RosNode}
use stros.Api.Handler.{dummy_response, with_subscriber, at_address, extract_url, publisher_update}

-- A host that the url can carry: not empty, no number, no `/` and no `:`.
pub record IsHost ⦃fl : Floats⦄ (host : CString) : Type 0 where
  pub filled : host ≢ []
  pub text : special host ≡ string host
  pub no_slash : Lacks (codes "/") host
  pub no_colon : Lacks (codes ":") host

-- `http://host:port/`, the form of the urls that the nodes give.
unfoldable pub node_url : CString → ℕ → CString
node_url host port = codes "http://" ++ ((host ++ b':' ∷ digits port) ++ b'/' ∷ [])

digits_lack : (d : ℕ) → isdigit d ≡ false → (s : CString) → IsDigits s → Lacks (d ∷ []) s
digits_lack d h [] hs = tt
digits_lack d h (c ∷ s) (hc, hs) = (unfold contains in ground arith, digits_lack d h s hs)

digits-ne-nil : (n : ℕ) → digits n ≢ []
digits-ne-nil n h = let (c, s, same, d) = digits-cons n in cc

module _ ⦃fl : Floats⦄ where
  special-digits : (n : ℕ) → special (digits n) ≡ int (pos n)
  unfolding special
  special-digits n =
      let number : match_int (digits n) ≡ true = unfold decimal in match_int-decimal (pos n) in
      let value : atoi (digits n ++ []) ≡ pos n = unfold decimal in atoi-decimal (pos n) [] tt in
      rw (number, rw append-nil at value) refl

  module _ (host : CString) (port : ℕ) (h : IsHost host) where
    split_address :
        split (some (host ++ b':' ∷ digits port)) (some (codes ":"))
        ≡ node (string host) (node (int (pos port)) null)
    split_address =
        split_two b':' host (digits port) h.filled (digits-ne-nil port) h.no_colon
          (digits_lack b':' refl (digits port) (digits-IsDigits port))
        ∙ rw (h.text, special-digits port) refl

    address-Lacks : Lacks (codes "/") (host ++ b':' ∷ digits port)
    unfolding contains
    address-Lacks =
        All-append _ host _ h.no_slash
          (refl, digits_lack b'/' refl (digits port) (digits-IsDigits port))

    tokens :
        strsep_all (codes "/") [] (node_url host port)
        ≡ codes "http:" ∷ [] ∷ (host ++ b':' ∷ digits port) ∷ [] ∷ []
    unfolding node_url strsep_all contains
    tokens =
        rw (strsep_all_cut (codes "/") (host ++ b':' ∷ digits port) address-Lacks b'/' [] refl) refl

  module _ (host : CString) (port : ℕ) (h : IsHost host) where
    bare_tokens :
        strsep_all (codes "/") [] (codes "http://" ++ (host ++ b':' ∷ digits port))
        ≡ codes "http:" ∷ [] ∷ (host ++ b':' ∷ digits port) ∷ []
    unfolding strsep_all contains
    bare_tokens =
        rw (strsep_all_last (codes "/") (host ++ b':' ∷ digits port) (address-Lacks host port h))
          refl

  url_items :
      (address : CString)
      → address ≢ []
      → special address ≡ string address
      → split_result (split_loop list_init (codes "http:" ∷ [] ∷ address ∷ [] ∷ []))
        ≡ node (string (codes "http:")) (node (string address) null)
  unfolding split_loop split_result list_put_special list_put list_init match_int match_float
  url_items [] ne h = absurd (ne refl)
  url_items (c ∷ s) ne h = ap (λ v. node (string (codes "http:")) (node v null)) h

  not_empty : (host : CString) (s : CString) → host ++ b':' ∷ s ≢ []
  not_empty [] s e = cc
  not_empty (c ∷ host) s e = cc

  split_url :
      (host : CString) (port : ℕ)
      → IsHost host
      → split (some (node_url host port)) (some (codes "/"))
        ≡ node (string (codes "http:")) (node (string (host ++ b':' ∷ digits port)) null)
  unfolding split
  split_url host port h = rw (tokens host port h) (
      url_items (host ++ b':' ∷ digits port) (not_empty host _)
        (special_colon _ (contains_inside host (digits port) b':')))

  bare_items :
      (address : CString)
      → address ≢ []
      → special address ≡ string address
      → split_result (split_loop list_init (codes "http:" ∷ [] ∷ address ∷ []))
        ≡ node (string (codes "http:")) (node (string address) null)
  unfolding split_loop split_result list_put_special list_put list_init match_int match_float
  bare_items [] ne h = absurd (ne refl)
  bare_items (c ∷ s) ne h = ap (λ v. node (string (codes "http:")) (node v null)) h

  split_bare :
      (host : CString) (port : ℕ)
      → IsHost host
      → split (some (codes "http://" ++ (host ++ b':' ∷ digits port))) (some (codes "/"))
        ≡ node (string (codes "http:")) (node (string (host ++ b':' ∷ digits port)) null)
  unfolding split
  split_bare host port h = rw (bare_tokens host port h) (
      bare_items (host ++ b':' ∷ digits port) (not_empty host _)
        (special_colon _ (contains_inside host (digits port) b':')))

  first_node :
      (s : CString) (more : Items) → list_at (node (string s) more) (pos 0) ≡ node (string s) more
  unfolding list_at
  first_node s more = ground arith

  port_fits : (port : ℕ) → port < 2 ^ 31 → int_range (pos port) ≡ ok (pos port)
  unfolding int_range
  port_fits port small = ground arith

  -- A subscriber that is told of a publisher at `http://host:port/` keeps this host and port, and is
  -- marked for its listener to connect again, for a host that is a text without `/` and `:` and no
  -- number, and a port below 2 ^ 31.
  pub extract_url-node_url :
      (sub : Topic) (host : CString) (port : ℕ) (more : Items)
      → IsHost host
      → port < 2 ^ 31
      → extract_url sub (node (string (node_url host port)) more)
        ≡ ok (at_address sub (some host) (pos port))
  unfolding extract_url list_size list_at value_s value_i
  extract_url-node_url sub host port more h small =
      let some_url : (list_size (node (string (node_url host port)) more) == 0) ≡ false =
        ground arith in
      rw
        (
          some_url,
          first_node (node_url host port) more,
          split_url host port h,
          split_address host port h,
          port_fits port small,
        )
        refl

  -- The same of a url that ends with the port, as the api of a node does.
  pub extract_url-bare_url :
      (sub : Topic) (host : CString) (port : ℕ) (more : Items)
      → IsHost host
      → port < 2 ^ 31
      → extract_url sub (node (string (codes "http://" ++ (host ++ b':' ∷ digits port))) more)
        ≡ ok (at_address sub (some host) (pos port))
  unfolding extract_url list_size list_at value_s value_i
  extract_url-bare_url sub host port more h small =
      let url = codes "http://" ++ (host ++ b':' ∷ digits port) in
      let some_url : (list_size (node (string url) more) == 0) ≡ false = ground arith in
      rw
        (
          some_url,
          first_node url more,
          split_bare host port h,
          split_address host port h,
          port_fits port small,
        )
        refl

  pub found_node :
      (dic : Buckets Topic) (topic : CString) (sub : Topic)
      → dvalue (some dic) topic ≡ some sub
      → (np : Association Topic) × (dlookup (some dic) topic ≡ some np)
  found_node dic topic sub known = elim (Option-cases (dlookup (some dic) topic)) [
    | inl e ↦ absurd (none_is_none (sym known ∙ dvalue_lem (some dic) topic ∙ ap value_of e))
    | inr (np, e) ↦ (np, e)
  ]
    where
      none_is_none : some sub ≡ value_of none → ⊥
      none_is_none e = unfold value_of in cc

  -- `publisherUpdate` on a topic that the node subscribes to answers, and writes the host and the
  -- port of the first url under this topic, to be connected again, and nothing else: every other
  -- subscriber and all publishers stay as they were. This is for a call whose second parameter is
  -- the topic and whose third is a list that begins with a url `http://host:port/` of a host that
  -- is a text without `/` and `:` and no number and a port below 2 ^ 31, which an `int` holds, and
  -- for a table that has its 1024 chains.
  pub publisher_update-node_url :
      (nd : RosNode) (dic : Buckets Topic) (params more : Items) (topic q host : CString) (port : ℕ)
      (sub : Topic)
      → nd.subscribers ≡ some dic
      → IsWide dic
      → value_s (list_at params (pos 1)) ≡ ok topic
      → value_array (list_at params (pos 2)) ≡ ok (node (string (node_url host port)) more)
      → IsHost host
      → port < 2 ^ 31
      → dvalue (some dic) topic ≡ some sub
      → (nd' : RosNode) × (publisher_update nd params ≡ ok (nd', dummy_response))
        × (nd'.publishers ≡ nd.publishers)
        × (dvalue nd'.subscribers q ≡ (
            if equ q topic
            then some (at_address sub (some host) (pos port))
            else dvalue (some dic) q))
  unfolding publisher_update with_subscriber
  publisher_update-node_url nd dic params more topic q host port sub has wide named urls h small
        known =
      let changed = at_address sub (some host) (pos port) in
      let (np, e) = found_node dic topic sub known in
      (
        record nd { subscribers = some (write_value dic topic changed) },
        rw (named, has, known, urls, extract_url-node_url sub host port more h small) refl,
        refl,
        dvalue-write_value dic wide topic q changed np e,
      )
