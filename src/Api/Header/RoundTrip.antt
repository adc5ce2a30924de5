-- ===== src/Api/Header/RoundTrip.antt =====
-- The connection header on both sides: `gen_tcp_header_for` and `verify_ros_header`.
use stros.Prelude.{
  ℕ, suc, ◌+◌, ◌-◌, ◌≤◌, ◌<◌, ◌≡◌, refl, ◌∙◌, true, false, ◌||◌, ◌++◌, append_assoc, arith, leb,
  ◌==◌, some, ok, length, length-append, All-append,
}
use stros.CString.{CString, codes}
use stros.CString.Compare.{equ_refl}
use stros.ItemList.{Floats, string, special}
use stros.Rpc.Http.Decode.{NoNul}
use stros.Api.Types.{md5sum_of}
use stros.Api.Topic.{Topic}
use stros.Utils.Hash.{header_hash_size, hash}
use stros.Api.Header.{
  int_bytes, header_field, header_fields, gen_tcp_header_for, Found, nothing_found, all_found,
  keep_field, fields_loop, verify_ros_header,
}
use stros.Api.Header.Loop.{fields_loop-header_field, fields_loop-fuel, fields_loop_stop}
use stros.Api.Header.Fields.{
  IsFieldText, keep_message_definition, keep_callerid, keep_topic, keep_md5sum, keep_type, md5-sum,
}

module _ ⦃fl : Floats⦄ where
  -- A topic whose fields fit the one byte that the other side reads of their sizes, and whose name
  -- and type are no numbers.
  pub record IsAnnounced (tp : Topic) : Type 0 where
    pub callerid : IsFieldText tp.callerid
    pub short_callerid : length tp.callerid < 119
    pub topic : IsFieldText tp.topic
    pub topic_text : special tp.topic ≡ string tp.topic
    pub short_topic : length tp.topic < 122
    pub type : IsFieldText tp.type
    pub type_text : special tp.type ≡ string tp.type
    pub short_type : length tp.type < 123

  field_step :
      (fuel : ℕ) (f f' : Found) (text rest : CString) (n : ℕ)
      → keep_field f text ≡ ok f'
      → all_found f ≡ false
      → length text < 128
      → NoNul text
      → fields_loop (suc fuel) f (header_field text ++ rest) (4 + length text + n)
        ≡ fields_loop fuel f' rest n
  field_step fuel f f' text rest n kept lacking small plain =
      let going : (all_found f || 4 + length text + n == 0) ≡ false = ground arith in
      let left : 4 + length text + n - (4 + length text) ≡ n = omega arith in
      fields_loop-header_field fuel f text rest (4 + length text + n) going small plain
      ∙ rw (kept, left) refl

  length-header_field : (text : CString) → length (header_field text) ≡ 4 + length text
  unfolding header_field int_bytes
  length-header_field text = omega arith

  length-field_append :
      (text rest : CString) → length (header_field text ++ rest) ≡ 4 + length text + length rest
  length-field_append text rest =
      omega (arith, length-append (header_field text) rest, length-header_field text)

  module _ (tp : Topic) (h : IsAnnounced tp) where
    size_sum : ℕ
    size_sum =
        4
        + length (codes "message_definition=stros node")
        + (4
            + length (codes "callerid=" ++ tp.callerid)
            + (4
                + length (codes "topic=" ++ tp.topic)
                + (4
                    + length (codes "md5sum=" ++ md5sum_of tp.type)
                    + (4 + length (codes "type=" ++ tp.type) + 0))))

    length-header_fields : length (header_fields tp) ≡ size_sum
    unfolding header_fields size_sum
    length-header_fields =
        rw
          (
            length-field_append, length-field_append, length-field_append, length-field_append,
            length-header_field,
          )
          (omega arith)

    loop_fields :
        (fuel : ℕ) (junk : CString)
        → fields_loop
            (suc (suc (suc (suc (suc fuel)))))
            nothing_found
            (header_fields tp ++ junk)
            size_sum
          ≡ ok (record {
            msgtype = some tp.type;
            md5sum = some (md5sum_of tp.type);
            topic = some tp.topic;
          })
    unfolding header_fields all_found size_sum
    loop_fields fuel junk = simp append_assoc (
        field_step _ nothing_found nothing_found (codes "message_definition=stros node") _ _
          (keep_message_definition nothing_found) refl (omega arith) (ground arith)
        ∙ field_step _ _ _ (codes "callerid=" ++ tp.callerid) _ _
            (keep_callerid tp.callerid _ h.callerid) refl (omega arith)
            (All-append _ (codes "callerid=") _ (ground arith) h.callerid.plain)
        ∙ field_step _ _ _ (codes "topic=" ++ tp.topic) _ _
            (keep_topic tp.topic _ h.topic h.topic_text) refl (omega arith)
            (All-append _ (codes "topic=") _ (ground arith) h.topic.plain)
        ∙ field_step _ _ _ (codes "md5sum=" ++ md5sum_of tp.type) _ _
            (keep_md5sum (md5sum_of tp.type) _ (md5-sum tp.type).0 (md5-sum tp.type).1) refl
            (omega (arith, (md5-sum tp.type).2))
            (All-append _ (codes "md5sum=") _ (ground arith) (md5-sum tp.type).0.plain)
        ∙ field_step _ _ _ (codes "type=" ++ tp.type) _ _ (keep_type tp.type _ h.type h.type_text)
            refl (omega arith) (All-append _ (codes "type=") _ (ground arith) h.type.plain)
        ∙ fields_loop_stop fuel _ junk 0 refl)

    pub short_fields : length (header_fields tp) + 4 ≤ 1024
    unfolding size_sum
    short_fields = omega (
      arith,
      length-header_fields,
      h.short_callerid,
      h.short_topic,
      h.short_type,
      (md5-sum tp.type).2,
    )

    pub generated :
        gen_tcp_header_for tp ≡ ok (int_bytes (length (header_fields tp)) ++ header_fields tp)
    unfolding gen_tcp_header_for
    generated =
        let inside : leb (length (header_fields tp) + 4) 1024 ≡ true =
          ground (arith, short_fields) in
        rw inside refl

    found :
        (junk : CString)
        → fields_loop size_sum nothing_found (header_fields tp ++ junk) size_sum
          ≡ ok (record {
            msgtype = some tp.type;
            md5sum = some (md5sum_of tp.type);
            topic = some tp.topic;
          })
    found junk =
        fields_loop-fuel size_sum (suc (suc (suc (suc (suc size_sum))))) nothing_found _ size_sum
          (omega arith) (omega arith)
        ∙ loop_fields size_sum junk

    accepted :
        (sub : Topic) (junk : CString)
        → tp.topic ≡ sub.topic
        → tp.type ≡ sub.type
        → verify_ros_header sub (header_fields tp ++ junk) size_sum
          ≡ ok (hash tp.type header_hash_size)
    unfolding verify_ros_header
    accepted sub junk same_topic same_type =
        rw
          (
            found junk,
            same_topic,
            same_type,
            equ_refl sub.topic,
            equ_refl sub.type,
            equ_refl (md5sum_of sub.type),
          )
          refl

  -- The header that a publisher generates is stored whole in the buffer, and a subscriber of the
  -- same topic and type that receives its fields accepts it, whatever the rest of its buffer
  -- holds: the result is the hash of the type. This is for a topic whose caller, name and type are
  -- not empty and hold no `=` and no NUL, the last two no numbers, that leave each field below 128
  -- bytes.
  pub verify_ros_header-gen_tcp_header_for :
      (tp sub : Topic) (junk : CString)
      → IsAnnounced tp
      → tp.topic ≡ sub.topic
      → tp.type ≡ sub.type
      → (gen_tcp_header_for tp ≡ ok (int_bytes (length (header_fields tp)) ++ header_fields tp))
        × (verify_ros_header sub (header_fields tp ++ junk) (length (header_fields tp))
            ≡ ok (hash tp.type header_hash_size))
  verify_ros_header-gen_tcp_header_for tp sub junk h same_topic same_type =
      (generated tp h, rw (length-header_fields tp h) (accepted tp h sub junk same_topic same_type))
