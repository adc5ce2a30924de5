-- ===== src/Api/Connection/Greeting.antt =====
-- The headers of the two ends of a connection, each read by the other.
use stros.Prelude.{
  ℕ, ◌^◌, ◌<◌, ◌≤◌, ◌≡◌, ◌≢◌, refl, ◌∙◌, sym, Bool, true, false, [], ◌∷◌, ◌++◌, arith, ◌==◌, some,
  ok, length, drop,
}
use stros.CString.{CString}
use stros.Utils.Hash.{header_hash_size, hash}
use stros.ItemList.{Floats}
use stros.Rpc.Http.{Socket}
use stros.Api.Topic.{Topic}
use stros.Api.Header.{int_bytes, header_field, header_fields, gen_tcp_header_for}
use stros.Api.Header.RoundTrip.{IsAnnounced, short_fields, verify_ros_header-gen_tcp_header_for}
use stros.Api.Recv.{recv_result, recv_int-int_bytes, recv_buf-append}
use stros.Api.Connection.{got_bytes, read_header, answer_header, greet_subscriber, greet_publisher}

received : (timed_out : Bool) (s : CString) → s ≢ [] → got_bytes (recv_result timed_out s) ≡ true
unfolding recv_result
received timed_out [] h = absurd (h refl)
received timed_out (c ∷ s) h = refl

module _ ⦃fl : Floats⦄ where
  -- The header of a topic as it stands on the wire.
  abbrev pub header_of : Topic → CString
  header_of tp = int_bytes (length (header_fields tp)) ++ header_fields tp

  fields_filled : (tp : Topic) → header_fields tp ≢ []
  unfolding header_fields header_field int_bytes
  fields_filled tp h = cc

  module _ (tp sub : Topic) (h : IsAnnounced tp) (known : hash tp.type header_hash_size ≢ 0) where
    read_header-header_fields :
        (timed_out : Bool) (buf : CString) (rest : Socket)
        → tp.topic ≡ sub.topic
        → tp.type ≡ sub.type
        → read_header sub timed_out (length (header_fields tp)) buf (header_fields tp ++ rest)
          ≡ ok (some (hash tp.type header_hash_size), rest)
    unfolding read_header
    read_header-header_fields timed_out buf rest same_topic same_type =
        let fits : length (header_fields tp) ≤ 1024 = omega (arith, short_fields tp h) in
        let nonzero : (hash tp.type header_hash_size == 0) ≡ false = ground (arith, known) in
        rw
          (
            recv_buf-append (header_fields tp) buf rest fits,
            received timed_out (header_fields tp) (fields_filled tp),
            (verify_ros_header-gen_tcp_header_for tp sub (drop (length (header_fields tp)) buf) h
                same_topic same_type).1,
            nonzero,
          )
          refl

  -- A topic that this side can announce and that has a type of its own.
  pub record IsGreeted (tp : Topic) : Type 0 where
    pub announced : IsAnnounced tp
    pub known : hash tp.type header_hash_size ≢ 0

  header_size : (tp : Topic) → IsAnnounced tp → length (header_fields tp) < 2 ^ 32
  header_size tp h = omega (arith, short_fields tp h)

  greet_subscriber-header_of :
      (tp sub : Topic) (timed_out : Bool) (junk : CString) (old : ℕ) (rest : Socket)
      → IsGreeted sub
      → IsAnnounced tp
      → sub.topic ≡ tp.topic
      → sub.type ≡ tp.type
      → greet_subscriber tp timed_out junk old (header_of sub ++ rest)
        ≡ ok (some (header_of tp), rest)
  unfolding greet_subscriber answer_header int_bytes
  greet_subscriber-header_of tp sub timed_out junk old rest hs ht same_topic same_type =
      let size =
        recv_int-int_bytes old (length (header_fields sub)) (header_fields sub ++ rest)
          (header_size sub hs.announced) in
      rw
        (
          size,
          read_header-header_fields sub tp hs.announced hs.known timed_out junk rest same_topic
              same_type,
          (verify_ros_header-gen_tcp_header_for tp tp [] ht refl refl).0,
        )
        refl

  greet_publisher-header_of :
      (sub tp : Topic) (timed_out : Bool) (junk : CString) (old : ℕ) (rest : Socket)
      → IsGreeted tp
      → tp.topic ≡ sub.topic
      → tp.type ≡ sub.type
      → greet_publisher sub timed_out junk old (header_of tp ++ rest)
        ≡ ok (some (hash tp.type header_hash_size), length (header_fields tp), rest)
  unfolding greet_publisher int_bytes
  greet_publisher-header_of sub tp timed_out junk old rest hs same_topic same_type =
      let size =
        recv_int-int_bytes old (length (header_fields tp)) (header_fields tp ++ rest)
          (header_size tp hs.announced) in
      rw
        (
          size,
          read_header-header_fields tp sub hs.announced hs.known timed_out junk rest same_topic
              same_type,
        )
        refl

  -- Both sides of a connection accept each other and get the hash of the type: the subscriber
  -- sends the header that it generates; the publisher that receives it answers with its own; the
  -- subscriber that receives this answer takes from it the hash of its type and its size. What
  -- either side sends after its header stays in the socket. This is for two topics of one name and
  -- type with texts that a header can carry and a type whose hash is not 0, whatever the buffers
  -- held and whether or not a `recv` would time out.
  pub greet_publisher-greet_subscriber :
      (tp sub : Topic) (t1 t2 : Bool) (junk1 junk2 : CString) (old1 old2 : ℕ) (rest1 rest2 : Socket)
      → IsGreeted tp
      → IsGreeted sub
      → tp.topic ≡ sub.topic
      → tp.type ≡ sub.type
      → (gen_tcp_header_for sub ≡ ok (header_of sub))
        × (greet_subscriber tp t1 junk1 old1 (header_of sub ++ rest1)
            ≡ ok (some (header_of tp), rest1))
        × (greet_publisher sub t2 junk2 old2 (header_of tp ++ rest2)
            ≡ ok (some (hash sub.type header_hash_size), length (header_fields tp), rest2))
  greet_publisher-greet_subscriber tp sub t1 t2 junk1 junk2 old1 old2 rest1 rest2 ht hs same_topic
        same_type =
      (
        (verify_ros_header-gen_tcp_header_for sub sub [] hs.announced refl refl).0,
        greet_subscriber-header_of tp sub t1 junk1 old1 rest1 hs ht.announced (sym same_topic)
            (sym same_type),
        greet_publisher-header_of sub tp t2 junk2 old2 rest2 ht same_topic same_type
            ∙ rw same_type refl,
      )
