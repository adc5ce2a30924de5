-- ===== src/Api/Header/Fields.antt =====
-- The fields of the connection header, one by one: what `verify_ros_header` keeps of each, and the
-- checksums as texts of fields.
use stros.Prelude.{
  ℕ, ◌≡◌, ◌≢◌, refl, ◌∙◌, sym, ap, inl, inr, Bool, true, ◌&&◌, not, List, [], ◌∷◌, ◌++◌, arith,
  ◌==◌, some, ok, length, Bool-cases,
}
use stros.CString.{CString, codes, equ, contains, strsep_all}
use stros.CString.Tokens.{Lacks}
use stros.Utils.Match.{match_int, match_float}
use stros.ItemList.{
  Floats, string, null, node, special, list_at, list_size, value_s, list_put_special, list_init,
}
use stros.ItemList.Split.{split}
use stros.ItemList.Pairs.{split_two}
use stros.Rpc.Http.Decode.{NoNul}
use stros.Api.Types.{MessageType, message_types, md5_case, md5sum_of}
use stros.Utils.Hash.{header_hash_size, hash}
use stros.Api.Header.{Found, keep_value, keep_field}

unfoldable no_marks : CString → Bool
no_marks [] = true
no_marks (c ∷ s) = not (c == b'=') && not (c == 0) && no_marks s

-- The checksums have 32 characters, neither `=` nor NUL, and none reads as a number.
unfoldable is_sum : CString → Bool
unfolding match_int match_float no_marks
is_sum s = length s == 32 && not (match_int s) && not (match_float s) && no_marks s

no_marks_lem : (s : CString) → no_marks s ≡ true → Lacks (codes "=") s × NoNul s
unfolding no_marks contains
no_marks_lem [] h = (tt, tt)
no_marks_lem (c ∷ s) h =
    let rest : no_marks s ≡ true = ground arith in
    let (a, b) = no_marks_lem s rest in ((ground arith, a), (ground arith, b))

unfoldable all_sums : List MessageType → Bool
unfolding is_sum
all_sums [] = true
all_sums (t ∷ ts) = is_sum t.md5 && all_sums ts

md5_case-all_sums :
    (th : ℕ) (ts : List MessageType) → all_sums ts ≡ true → is_sum (md5_case th ts) ≡ true
unfolding md5_case all_sums
md5_case-all_sums th [] h = unfold is_sum in refl
md5_case-all_sums th (t ∷ ts) h =
    let rest = md5_case-all_sums th ts (ground arith) in
    elim (Bool-cases (th == t.type)) [ inl e ↦ rw e (ground arith) | inr e ↦ rw e rest ]

message_types-all_sums : all_sums message_types ≡ true
unfolding all_sums
message_types-all_sums = refl

md5sum_of-sum : (type : CString) → is_sum (md5sum_of type) ≡ true
unfolding md5sum_of
md5sum_of-sum type =
    md5_case-all_sums (hash type header_hash_size) message_types message_types-all_sums

module _ ⦃fl : Floats⦄ where
  -- The text of a value of the header: not empty, with no `=` and no NUL.
  pub record IsFieldText (s : CString) : Type 0 where
    pub filled : s ≢ []
    pub whole : Lacks (codes "=") s
    pub plain : NoNul s

  module _ (k v : CString) where
    split_pair :
        IsFieldText k
        → IsFieldText v
        → split (some (k ++ b'=' ∷ v)) (some (codes "=")) ≡ node (special k) (node (special v) null)
    split_pair hk hv = split_two b'=' k v hk.filled hv.filled hk.whole hv.whole

    keep_pair :
        (f : Found)
        → IsFieldText k
        → IsFieldText v
        → special k ≡ string k
        → keep_field f (k ++ b'=' ∷ v) ≡ keep_value f k (node (special v) null)
    unfolding keep_field list_size list_at value_s
    keep_pair f hk hv text = rw (split_pair hk hv, text) refl

  -- The fixed keys.
  keys :
      (IsFieldText (codes "callerid") × (special (codes "callerid") ≡ string (codes "callerid")))
      × (IsFieldText (codes "topic") × (special (codes "topic") ≡ string (codes "topic")))
      × (IsFieldText (codes "md5sum") × (special (codes "md5sum") ≡ string (codes "md5sum")))
      × (IsFieldText (codes "type") × (special (codes "type") ≡ string (codes "type")))
  unfolding special contains match_int match_float
  keys = (
    (key_text (λ e. cc) (ground arith) (ground arith), refl),
    (key_text (λ e. cc) (ground arith) (ground arith), refl),
    (key_text (λ e. cc) (ground arith) (ground arith), refl),
    (key_text (λ e. cc) (ground arith) (ground arith), refl),
  )
    where
      key_text : {s : CString} → s ≢ [] → Lacks (codes "=") s → NoNul s → IsFieldText s
      key_text a b c = record { filled = a; whole = b; plain = c }

  pub keep_message_definition :
      (f : Found) → keep_field f (codes "message_definition=stros node") ≡ ok f
  unfolding keep_field split strsep_all special list_size list_at value_s keep_value equ
      list_put_special list_init match_int match_float
  keep_message_definition f = refl

  module _ (v : CString) (f : Found) (hv : IsFieldText v) where
    pub keep_callerid : keep_field f (codes "callerid=" ++ v) ≡ ok f
    unfolding keep_value equ
    keep_callerid = keep_pair (codes "callerid") v f keys.0.0 hv keys.0.1

    module _ (textual : special v ≡ string v) where
      pub keep_topic : keep_field f (codes "topic=" ++ v) ≡ ok (record f { topic = some v })
      unfolding keep_value equ value_s
      keep_topic = keep_pair (codes "topic") v f keys.1.0 hv keys.1.1 ∙ rw textual refl

      pub keep_md5sum : keep_field f (codes "md5sum=" ++ v) ≡ ok (record f { md5sum = some v })
      unfolding keep_value equ value_s
      keep_md5sum = keep_pair (codes "md5sum") v f keys.2.0 hv keys.2.1 ∙ rw textual refl

      pub keep_type : keep_field f (codes "type=" ++ v) ≡ ok (record f { msgtype = some v })
      unfolding keep_value equ value_s
      keep_type = keep_pair (codes "type") v f keys.3.0 hv keys.3.1 ∙ rw textual refl

  -- The sum of any type is the text of a field.
  sum_text :
      (s : CString) → is_sum s ≡ true → IsFieldText s × (special s ≡ string s) × (length s ≡ 32)
  unfolding is_sum special
  sum_text s h =
      let marks : no_marks s ≡ true = ground arith in
      let (whole, plain) = no_marks_lem s marks in
      let size : length s ≡ 32 = ground arith in
      (
        record {
          filled = λ e. absurd (omega (arith, sym size ∙ ap length e));
          whole = whole;
          plain = plain;
        },
        ground arith,
        size,
      )

  pub md5-sum :
      (type : CString)
      → IsFieldText (md5sum_of type)
        × (special (md5sum_of type) ≡ string (md5sum_of type))
        × (length (md5sum_of type) ≡ 32)
  md5-sum type = sum_text (md5sum_of type) (md5sum_of-sum type)
