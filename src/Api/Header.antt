-- ===== src/Api/Header.antt =====
-- The connection header of TCPROS: `gen_tcp_header_for` and `verify_ros_header` of api.c.
-- `int` has 32 bits and its bytes are stored from the lowest on, as on the machines that the
-- Makefile names; `char` is signed there.
pub mod Loop
pub mod Fields
pub mod RoundTrip
pub mod Check
use stros.Prelude.{
  ℕ, zero, suc, ◌+◌, ◌-◌, ◌*◌, ◌/◌, ◌%◌, ◌^◌, Bool, true, false, ◌&&◌, ◌||◌, not, List, [], ◌∷◌,
  ◌++◌, ltb, leb, ◌==◌, if◌then◌else◌, Option, none, some, is_some, Run, ok, fault, ◌>>=◌, length,
  take, drop, pos,
}
use stros.CString.{CString, codes, equ}
use stros.Utils.Hash.{header_hash_size, hash}
use stros.ItemList.{Floats, Items, list_size, list_at, value_s}
use stros.ItemList.Split.{split}
use stros.Rpc.Http.{max_buff, until_nul}
use stros.Api.Types.{md5sum_of}
use stros.Api.Topic.{Topic}

-- The four bytes that `memcpy(ptr, &size, sizeof(size))` stores.
unfoldable pub int_bytes : ℕ → CString
int_bytes n = n % 256 ∷ (n / 256) % 256 ∷ (n / 65536) % 256 ∷ (n / 16777216) % 256 ∷ []

-- One field: the length of its text, then the text.
unfoldable pub header_field : CString → CString
unfolding int_bytes
header_field tmp = int_bytes (length tmp) ++ tmp

-- The fields in the order they are written.
unfoldable pub header_fields : Topic → CString
header_fields sub =
    header_field (codes "message_definition=stros node")
    ++ (header_field (codes "callerid=" ++ sub.callerid)
        ++ (header_field (codes "topic=" ++ sub.topic)
            ++ (header_field (codes "md5sum=" ++ md5sum_of sub.type)
                ++ header_field (codes "type=" ++ sub.type))))

-- `gen_tcp_header_for`: the bytes it stores, as many as it returns. Both callers give it a buffer
-- of `MAX_BUFF` bytes, and nothing keeps it inside.
unfoldable pub gen_tcp_header_for : Topic → Run CString
gen_tcp_header_for sub =
    if leb (length (header_fields sub) + 4) max_buff
    then ok (int_bytes (length (header_fields sub)) ++ header_fields sub)
    else fault

-- The variables `msgtype`, `md5sum` and `topic`.
pub record Found : Type 0 where
  pub msgtype : Option CString
  pub md5sum : Option CString
  pub topic : Option CString

abbrev pub nothing_found : Found
nothing_found = record { msgtype = none; md5sum = none; topic = none }

-- `msgtype && md5sum && topic`
unfoldable pub all_found : Found → Bool
all_found f = is_some f.msgtype && is_some f.md5sum && is_some f.topic

-- The chain of tests on the key; `val` is the second item, whose text is read where it is kept.
unfoldable pub keep_value : Found → CString → Items → Run Found
keep_value f key val =
    if equ key (codes "topic")
    then (do s ← value_s val; ok (record f { topic = some s }))
    else if equ key (codes "md5sum")
    then (do s ← value_s val; ok (record f { md5sum = some s }))
    else if equ key (codes "type")
    then (do s ← value_s val; ok (record f { msgtype = some s }))
    else ok f

-- The checks on what was found; the result is the hash of the type, or 0.
unfoldable pub check_found : Topic → Found → ℕ
unfolding hash equ
check_found sub f = elim f.msgtype [
  | none ↦ 0
  | some msgtype ↦ elim f.md5sum [
    | none ↦ 0
    | some md5sum ↦ elim f.topic [
      | none ↦ 0
      | some topic ↦
          if not (equ topic sub.topic)
          then 0
          else if not (equ msgtype sub.type) && not (equ msgtype (codes "*"))
          then 0
          else if not (equ md5sum (md5sum_of msgtype)) && not (equ md5sum (codes "*"))
          then 0
          else hash msgtype header_hash_size
    ]
  ]
]

module _ ⦃fl : Floats⦄ where
  -- One field, cut at the `=`; `continue` where this does not give two items.
  unfoldable pub field_items : Found → Items → Run Found
  unfolding keep_value
  field_items f l =
      if list_size l == 2
      then (do key ← value_s (list_at l (pos 0)); keep_value f key (list_at l (pos 1)))
      else ok f

  unfoldable pub keep_field : Found → CString → Run Found
  unfolding field_items
  keep_field f field = field_items f (split (some field) (some (codes "=")))

  -- One round, given the rounds after it. `buf` holds the bytes from `ptr` to the end of the
  -- buffer, of which `left` belong to the header. The size is the signed byte `*ptr`: a negative
  -- one is no size for `memcpy`, and neither is one that passes the end of the buffer.
  unfoldable pub field_round : (Found → CString → ℕ → Run Found) → Found → CString → ℕ → Run Found
  field_round loop f [] left = fault
  field_round loop f (size ∷ buf) left =
      if leb 128 size || ltb (length buf) (3 + size) then fault else (do
        f' ← keep_field f (until_nul (take size (drop 3 buf)))
        loop f' (drop (3 + size) buf) (left - (4 + size)))

  -- The loop, on fuel: each round takes four bytes or more off `left`.
  unfoldable pub fields_loop : ℕ → Found → CString → ℕ → Run Found
  unfolding all_found
  fields_loop zero f buf left = if all_found f || left == 0 then ok f else fault
  fields_loop (suc fuel) f buf left =
      let next = field_round (fields_loop fuel) f buf left in
      if all_found f || left == 0 then ok f else next

  -- `verify_ros_header` on a buffer of which `hsize` bytes are the header; for a size below 0 the
  -- code's loop would end at once.
  unfoldable pub verify_ros_header : Topic → CString → ℕ → Run ℕ
  unfolding fields_loop check_found
  verify_ros_header sub header hsize = do
    f ← fields_loop hsize nothing_found header hsize
    ok (check_found sub f)
