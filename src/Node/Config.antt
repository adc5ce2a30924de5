-- ===== src/Node/Config.antt =====
-- The configuration of a node: `stros_set_config`, `stros_config_handler`, `stros_load_config` and
-- `stros_init_node` of stros.c. The INI parser is the parameter `ini_parse`: the entries that it
-- hands to the handler, in order, or nothing where it cannot read the file.
pub mod Values
use stros.Prelude.{
  ℕ, zero, suc, ◌≡◌, refl, ◌∙◌, ap, sym, Option-cases, Bool, true, false, ◌&&◌, List, [], ◌∷◌, ◌++◌,
  arith, if◌then◌else◌, Option, some, none, ℤ, pos, negsuc, Bool-cases, inl, inr,
}
use stros.CString.{CString, codes, equ, atoi, digits}
use stros.CString.Compare.{eq_of_equ}
use stros.Dictionary.{dict}
use stros.Api.Topic.{RosNode}

abbrev pub default_master_uri : CString
default_master_uri = codes "127.0.0.1"

abbrev pub default_master_port : ℤ
default_master_port = pos 11311

-- One call of the handler.
pub record Entry : Type 0 where
  pub section : CString
  pub name : CString
  pub value : CString

abbrev or_kept : CString → Option CString → CString
or_kept kept none = kept
or_kept kept (some s) = s

abbrev is_positive : ℤ → Bool
is_positive (pos zero) = false
is_positive (pos (suc n)) = true
is_positive (negsuc n) = false

-- `stros_set_config` on a node that is not NULL.
unfoldable pub stros_set_config : RosNode → Option CString → Option CString → ℤ → RosNode
stros_set_config nd name uri port = record nd {
  id = or_kept nd.id name;
  master_uri = or_kept nd.master_uri uri;
  master_port = if is_positive port then port else nd.master_port;
}

-- `MATCH(s, n)`
unfoldable pub matches : Entry → CString → CString → Bool
matches e s n = equ e.section s && equ e.name n

-- `stros_config_handler`; the result is 1 or 0.
unfoldable pub stros_config_handler : RosNode → Entry → RosNode × Bool
stros_config_handler nd e =
    if matches e (codes "MASTER") (codes "uri")
    then (record nd { master_uri = e.value }, true)
    else if matches e (codes "MASTER") (codes "port")
    then (record nd { master_port = atoi e.value }, true)
    else if matches e (codes "NODE") (codes "remap")
    then (record nd { id = e.value }, true)
    else (nd, false)

unfoldable pub handle_all : RosNode → List Entry → RosNode
handle_all nd [] = nd
handle_all nd (e ∷ es) = handle_all (stros_config_handler nd e).0 es

unfoldable pub stros_load_config : (CString → Option (List Entry)) → RosNode → CString → RosNode
stros_load_config ini_parse nd file = elim (ini_parse file) [
  | none ↦ nd
  | some es ↦ handle_all nd es
]

abbrev pub default_node : CString → RosNode
default_node name = record {
  id = name;
  master_uri = default_master_uri;
  master_port = default_master_port;
  subscribers = dict;
  publishers = dict;
}

-- The node with the time behind its name.
abbrev pub stamped : ℕ → RosNode → RosNode
stamped now nd = record nd { id = nd.id ++ b'_' ∷ digits now }

-- `stros_init_node`; `none` stands for `exit(1)`.
unfoldable pub stros_init_node :
    (CString → Option (List Entry)) → ℕ → Option CString → Option CString → Option RosNode
stros_init_node ini_parse now none conf = none
stros_init_node ini_parse now (some name) none = some (stamped now (default_node name))
stros_init_node ini_parse now (some name) (some conf) =
    some (stamped now (stros_load_config ini_parse (default_node name) conf))
