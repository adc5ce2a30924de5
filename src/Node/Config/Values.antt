-- ===== src/Node/Config/Values.antt =====
-- What a configuration leaves in a node.
use stros.Prelude.{
  ℕ, ◌≡◌, refl, ◌∙◌, ap, sym, Option-cases, true, false, List, [], ◌∷◌, arith, if◌then◌else◌,
  Option, some, none, Bool-cases, inl, inr,
}
use stros.CString.{CString, codes, equ, atoi}
use stros.CString.Compare.{eq_of_equ}
use stros.Dictionary.{dict}
use stros.Api.Topic.{RosNode}
use stros.Node.Config.{
  Entry, matches, stros_config_handler, handle_all, stros_load_config, default_node, stamped,
  stros_init_node,
}

-- What the last entry with a section and a name gives, else a default.
unfoldable pub last_value {ℓ} :
    {A : Type ℓ} → (CString → A) → CString → CString → A → List Entry → A
last_value read s n kept [] = kept
last_value read s n kept (e ∷ es) =
    last_value read s n (if matches e s n then read e.value else kept) es

name_uri :
    (e : Entry)
    → matches e (codes "MASTER") (codes "uri") ≡ true
    → matches e (codes "NODE") (codes "remap") ≡ false
unfolding matches
name_uri e h = rw (eq_of_equ e.section (codes "MASTER") (ground arith)) (unfold equ in refl)

name_port :
    (e : Entry)
    → matches e (codes "MASTER") (codes "port") ≡ true
    → matches e (codes "NODE") (codes "remap") ≡ false
unfolding matches
name_port e h = rw (eq_of_equ e.section (codes "MASTER") (ground arith)) (unfold equ in refl)

port_uri :
    (e : Entry)
    → matches e (codes "MASTER") (codes "uri") ≡ true
    → matches e (codes "MASTER") (codes "port") ≡ false
unfolding matches
port_uri e h =
    rw
      (
        eq_of_equ e.section (codes "MASTER") (ground arith),
        eq_of_equ e.name (codes "uri") (ground arith),
      )
      (unfold equ in refl)

one_entry :
    (nd : RosNode) (e : Entry)
    → let r = (stros_config_handler nd e).0 in
      (r.master_uri ≡ (if matches e (codes "MASTER") (codes "uri") then e.value else nd.master_uri))
      × (r.master_port
          ≡ (if matches e (codes "MASTER") (codes "port") then atoi e.value else nd.master_port))
      × (r.id ≡ (if matches e (codes "NODE") (codes "remap") then e.value else nd.id))
      × (r.subscribers ≡ nd.subscribers)
      × (r.publishers ≡ nd.publishers)
unfolding stros_config_handler
one_entry nd e = elim (Bool-cases (matches e (codes "MASTER") (codes "uri"))) [
  | inl u ↦ rw (u, port_uri e u, name_uri e u) (refl, refl, refl, refl, refl)
  | inr u ↦ elim (Bool-cases (matches e (codes "MASTER") (codes "port"))) [
    | inl p ↦ rw (u, p, name_port e p) (refl, refl, refl, refl, refl)
    | inr p ↦ elim (Bool-cases (matches e (codes "NODE") (codes "remap"))) [
      | inl r ↦ rw (u, p, r) (refl, refl, refl, refl, refl)
      | inr r ↦ rw (u, p, r) (refl, refl, refl, refl, refl)
    ]
  ]
]

-- A text as it is.
abbrev pub text : CString → CString
text s = s

-- The configured values are those of the last entries, where there is none those that the node had.
pub handle_all-last_value :
    (nd : RosNode) (es : List Entry)
    → let r = handle_all nd es in
      (r.master_uri ≡ last_value text (codes "MASTER") (codes "uri") nd.master_uri es)
      × (r.master_port ≡ last_value atoi (codes "MASTER") (codes "port") nd.master_port es)
      × (r.id ≡ last_value text (codes "NODE") (codes "remap") nd.id es)
      × (r.subscribers ≡ nd.subscribers)
      × (r.publishers ≡ nd.publishers)
unfolding handle_all last_value
handle_all-last_value nd [] = (refl, refl, refl, refl, refl)
handle_all-last_value nd (e ∷ es) =
    let (uri, port, id, subs, pubs) = handle_all-last_value (stros_config_handler nd e).0 es in
    let (u, q, i, s, p) = one_entry nd e in
    (
      uri ∙ ap (λ k. last_value text (codes "MASTER") (codes "uri") k es) u,
      port ∙ ap (λ k. last_value atoi (codes "MASTER") (codes "port") k es) q,
      id ∙ ap (λ k. last_value text (codes "NODE") (codes "remap") k es) i,
      subs ∙ s,
      pubs ∙ p,
    )

-- A node that is made has fresh dictionaries, whatever the file says.
pub stros_init_node-dict :
    (ini_parse : CString → Option (List Entry)) (now : ℕ) (name conf : Option CString)
    (nd : RosNode)
    → stros_init_node ini_parse now name conf ≡ some nd
    → (nd.subscribers ≡ dict) × (nd.publishers ≡ dict)
unfolding stros_init_node stros_load_config
stros_init_node-dict ini_parse now none conf nd h = absurd (cc)
stros_init_node-dict ini_parse now (some name) none nd h =
    let same : stamped now (default_node name) ≡ nd = cc in
    (sym (ap (λ r. r.subscribers) same), sym (ap (λ r. r.publishers) same))
stros_init_node-dict ini_parse now (some name) (some conf) nd h =
    elim (Option-cases (ini_parse conf)) [
      | inl e ↦
          let made : some (stamped now (default_node name)) ≡ some nd =
            rw (stros_init_node, stros_load_config, e) at h in
          let same : stamped now (default_node name) ≡ nd = cc in
          (sym (ap (λ r. r.subscribers) same), sym (ap (λ r. r.publishers) same))
      | inr (es, e) ↦
          let made : some (stamped now (handle_all (default_node name) es)) ≡ some nd =
            rw (stros_init_node, stros_load_config, e) at h in
          let same : stamped now (handle_all (default_node name) es) ≡ nd = cc in
          let (_, _, _, subs, pubs) = handle_all-last_value (default_node name) es in
          (sym (ap (λ r. r.subscribers) same) ∙ subs, sym (ap (λ r. r.publishers) same) ∙ pubs)
    ]
