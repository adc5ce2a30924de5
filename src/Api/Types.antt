-- ===== src/Api/Types.antt =====
-- The message types of api.h, and `md5sum_of` of api.c.
use stros.Prelude.{ℕ, ◌≡◌, refl, List, [], ◌∷◌, ◌==◌, if◌then◌else◌, All}
use stros.CString.{CString, codes}
use stros.Utils.Hash.{header_hash_size, hash}

-- `MSG_X`, `TYPE_X` and `ROS_MD5_X` of one message type.
pub record MessageType : Type 0 where
  pub msg : CString
  pub type : ℕ
  pub md5 : CString

abbrev row : CString → ℕ → CString → MessageType
row msg type md5 = record { msg = msg; type = type; md5 = md5 }

-- The rows in the order of the cases of `md5sum_of`.
abbrev pub message_types : List MessageType
message_types =
    row (codes "std_msgs/Bool") 715 (codes "8b94c1b53db61fb6aed406028ad6332a")
    ∷ row (codes "std_msgs/Byte") 233 (codes "ad736a2e8818154c487bb80fe42ce43b")
    ∷ row (codes "std_msgs/ByteMultiArray") 617 (codes "70ea476cbcfd65ac2f68f3cda1e891fe")
    ∷ row (codes "std_msgs/Char") 823 (codes "1bf77f25acecdedba0e224b162199717")
    ∷ row (codes "std_msgs/ColorRGBA") 982 (codes "a29a96539573343b1310c73607334b00")
    ∷ row (codes "std_msgs/Duration") 245 (codes "3e286caf4241d664e55f3ad380e2ae46")
    ∷ row (codes "std_msgs/Empty") 396 (codes "d41d8cd98f00b204e9800998ecf8427e")
    ∷ row (codes "std_msgs/Float32") 570 (codes "73fcbf46b49191e672908e50842a83d4")
    ∷ row (codes "std_msgs/Float32MultiArray") 634 (codes "6a40e0ffa6a17a503ac3f8616991b1f6")
    ∷ row (codes "std_msgs/Float64") 665 (codes "fdb28210bfa9d7c91146260178d9a584")
    ∷ row (codes "std_msgs/Float64MultiArray") 25 (codes "4b7d974086d4060e7db4613a7e6c3ba4")
    ∷ row (codes "std_msgs/Header") 558 (codes "2176decaecbce78abc3b96ef049fabed")
    ∷ row (codes "std_msgs/Int16") 659 (codes "8524586e34fbd7cb1c08c5f5f1ca0e57")
    ∷ row (codes "std_msgs/Int16MultiArray") 915 (codes "d9338d7f523fcb692fae9d0a0e9f067c")
    ∷ row (codes "std_msgs/Int32") 717 (codes "da5909fbe378aeaf85e547e830cc1bb7")
    ∷ row (codes "std_msgs/Int32MultiArray") 845 (codes "1d99f79f8b325b44fee908053e9c945b")
    ∷ row (codes "std_msgs/Int64") 812 (codes "34add168574510e6e17f5d23ecc077ef")
    ∷ row (codes "std_msgs/Int64MultiArray") 236 (codes "54865aa6c65be0448113a2afc6a49270")
    ∷ row (codes "std_msgs/Int8") 522 (codes "27ffa0c9c4b8fb8492252bcad9e5c57b")
    ∷ row (codes "std_msgs/Int8MultiArray") 586 (codes "d7c1af35a1b4781bbe79e03dd94b7c13")
    ∷ row (codes "std_msgs/MultiArrayDimension") 677 (codes "4cd0c83a8683deae40ecdac60e53bfa8")
    ∷ row (codes "std_msgs/MultiArrayLayout") 587 (codes "0fed2a11c13e11c5571b4e2a995a91a3")
    ∷ row (codes "std_msgs/String") 946 (codes "992ce8a1687cec8c8bd883ec73ca41d1")
    ∷ row (codes "std_msgs/Time") 686 (codes "cd7166c74c552c311fbcc2fe5a7bc289")
    ∷ row (codes "std_msgs/UInt16") 640 (codes "1df79edf208b629fe6b81923a544552d")
    ∷ row (codes "std_msgs/UInt16MultiArray") 832 (codes "52f264f1c973c4b73790d384c6cb4484")
    ∷ row (codes "std_msgs/UInt32") 698 (codes "304a39449588c7f8ce2df6e8001c5fce")
    ∷ row (codes "std_msgs/UInt32MultiArray") 762 (codes "4d6a180abc9be191b96a7eda6c8a233d")
    ∷ row (codes "std_msgs/UInt64") 793 (codes "1b2a79973e8bf53d7b53acb71299cb57")
    ∷ row (codes "std_msgs/UInt64MultiArray") 153 (codes "6088f127afb1d6c72927aa1247e945af")
    ∷ row (codes "std_msgs/UInt8") 125 (codes "7c8164229e7d2c17eb95e9231617fdee")
    ∷ row (codes "std_msgs/UInt8MultiArray") 253 (codes "82373f1612381bb6ee473b5cd6f5d89c")
    ∷ []

abbrev pub ros_md5_string : CString
ros_md5_string = codes "992ce8a1687cec8c8bd883ec73ca41d1"

abbrev pub type_string : ℕ
type_string = 946

-- The `switch`: the first case whose label is the hash, else `default`.
unfoldable pub md5_case : ℕ → List MessageType → CString
md5_case th [] = ros_md5_string
md5_case th (t ∷ ts) = if th == t.type then t.md5 else md5_case th ts

unfoldable pub md5sum_of : CString → CString
unfolding md5_case hash
md5sum_of type = md5_case (hash type header_hash_size) message_types

-- `md5sum_of` gives every message type of api.h its own sum, and each `TYPE_` label is the hash of
-- its name: no label stands in front of a row that it would hide.
pub md5sum_of-message_types :
    All (λ t. (hash t.msg header_hash_size ≡ t.type) × (md5sum_of t.msg ≡ t.md5)) message_types
unfolding md5sum_of hash
md5sum_of-message_types = (
  (refl, refl),
  (
    (refl, refl),
    (
      (refl, refl),
      (
        (refl, refl),
        (
          (refl, refl),
          (
            (refl, refl),
            (
              (refl, refl),
              (
                (refl, refl),
                (
                  (refl, refl),
                  (
                    (refl, refl),
                    (
                      (refl, refl),
                      (
                        (refl, refl),
                        (
                          (refl, refl),
                          (
                            (refl, refl),
                            (
                              (refl, refl),
                              (
                                (refl, refl),
                                (
                                  (refl, refl),
                                  (
                                    (refl, refl),
                                    (
                                      (refl, refl),
                                      (
                                        (refl, refl),
                                        (
                                          (refl, refl),
                                          (
                                            (refl, refl),
                                            (
                                              (refl, refl),
                                              (
                                                (refl, refl),
                                                (
                                                  (refl, refl),
                                                  (
                                                    (refl, refl),
                                                    (
                                                      (refl, refl),
                                                      (
                                                        (refl, refl),
                                                        (
                                                          (refl, refl),
                                                          (
                                                            (refl, refl),
                                                            ((refl, refl), ((refl, refl), tt)),
                                                          ),
                                                        ),
                                                      ),
                                                    ),
                                                  ),
                                                ),
                                              ),
                                            ),
                                          ),
                                        ),
                                      ),
                                    ),
                                  ),
                                ),
                              ),
                            ),
                          ),
                        ),
                      ),
                    ),
                  ),
                ),
              ),
            ),
          ),
        ),
      ),
    ),
  ),
)
