-- ===== src/ItemList.antt =====
-- list.c: the tagged values that XML-RPC carries, and the linked lists of them.
-- A list is read from its head pointer on: `null` is NULL, `node v next` is `*p`. A function that
-- takes a `list*` returns the new head; the nodes behind it are those of the value.
pub mod Access
pub mod Put
pub mod Remove
pub mod Free
pub mod Split
pub mod Print
pub mod Pairs
use stros.Prelude.{
  ℕ, zero, suc, ◌+◌, Bool, true, false, ltb, if◌then◌else◌, Option, none, some, Run, ok, fault, ℤ,
  pos, negsuc,
}
use stros.CString.{CString, atoi}
use stros.Utils.Match.{match_int, match_float}

-- What the program uses of floating point: a `double` is its 64 bits, read by `atof` and printed
-- by `%lf`, which are the C library's.
pub record Floats : Type 0 where
  pub atof : CString → ℕ
  pub format_lf : ℕ → CString

-- `type` and the member of the union that is set with it. `nil` has none.
mutual
  pub data Value : Type 0 where
    nil : Value
    int : ℤ → Value
    i4 : ℤ → Value
    bool : ℤ → Value
    double : ℕ → Value
    string : CString → Value
    date : CString → Value
    base64 : CString → Value
    array : Items → Value

  pub data Items : Type 0 where
    null : Items
    node : Value → Items → Items

unfoldable pub list_init : Items
list_init = node nil null

-- `list_item(type)` with its value set.
abbrev pub list_item : Value → Items
list_item v = node v null

abbrev pub is_nil : Value → Bool
is_nil nil = true
is_nil _ = false

-- `l == NULL || l->type == RPC_TYPE_NIL`
unfoldable pub list_empty : Items → Bool
list_empty null = true
list_empty (node v l) = is_nil v

-- The node that `list_last` finds, and what follows it.
unfoldable pub list_last : Items → Items
list_last null = null
list_last (node v null) = node v null
list_last (node v (node w l)) = list_last (node w l)

-- `list_last(l)->next = it`
unfoldable pub link_last : Items → Items → Items
link_last null it = it
link_last (node v l) it = node v (link_last l it)

unfoldable pub list_put : Items → Items → Items
unfolding list_empty link_last
list_put l it = if list_empty l then it else link_last l it

-- The nodes from a pointer on: the loop of `list_size`.
unfoldable pub count : Items → ℕ
count null = 0
count (node v l) = suc (count l)

unfoldable pub list_size : Items → ℕ
unfolding list_empty count
list_size l = if list_empty l then 0 else count l

-- The pointer after `idx` steps along `next`: the loop of `list_at`.
unfoldable pub walk : Items → ℕ → Items
walk null idx = null
walk (node v l) zero = node v l
walk (node v l) (suc idx) = walk l idx

-- `list_at`, for an index that is not negative.
unfoldable pub list_nth : Items → ℕ → Items
unfolding list_size walk
list_nth l idx = if ltb idx (list_size l) then walk l idx else null

unfoldable pub list_at : Items → ℤ → Items
unfolding list_nth
list_at l (pos idx) = list_nth l idx
list_at l (negsuc n) = null

unfoldable pub list_put_i : Items → ℤ → Items
unfolding list_put
list_put_i l v = list_put l (list_item (int v))

unfoldable pub list_put_d : Items → ℕ → Items
unfolding list_put
list_put_d l v = list_put l (list_item (double v))

unfoldable pub list_put_b : Items → ℤ → Items
unfolding list_put
list_put_b l v = list_put l (list_item (bool v))

-- `strdup(NULL)` is undefined.
unfoldable pub list_put_b64 : Items → Option CString → Run Items
unfolding list_put
list_put_b64 l none = fault
list_put_b64 l (some v) = ok (list_put l (list_item (base64 v)))

unfoldable pub list_put_date : Items → Option CString → Run Items
unfolding list_put
list_put_date l none = fault
list_put_date l (some v) = ok (list_put l (list_item (date v)))

unfoldable pub list_put_s : Items → Option CString → Run Items
unfolding list_put
list_put_s l none = fault
list_put_s l (some v) = ok (list_put l (list_item (string v)))

unfoldable pub list_put_array : Items → Items → Items
unfolding list_put
list_put_array l v = list_put l (list_item (array v))

-- The value that `list_put_special` makes of a text.
unfoldable pub special : ⦃fl : Floats⦄ → CString → Value
special ⦃fl⦄ str =
    if match_int str
    then int (atoi str)
    else if match_float str
    then double (fl.atof str)
    else string str

unfoldable pub list_put_special : ⦃fl : Floats⦄ → Items → CString → Items
unfolding special list_put
list_put_special l str = list_put l (list_item (special str))

-- `p->value.s` reads the pointer of any textual value; of another it is undefined.
unfoldable pub value_s : Items → Run CString
value_s (node (string s) l) = ok s
value_s (node (date s) l) = ok s
value_s (node (base64 s) l) = ok s
value_s _ = fault

-- `p->value.i`
unfoldable pub value_i : Items → Run ℤ
value_i (node (int z) l) = ok z
value_i (node (i4 z) l) = ok z
value_i (node (bool z) l) = ok z
value_i _ = fault

-- `p->value.array`
unfoldable pub value_array : Items → Run Items
value_array (node (array a) l) = ok a
value_array _ = fault
