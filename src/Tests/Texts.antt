-- ===== src/Tests/Texts.antt =====
-- Runs on texts and lists.
use stros.Prelude.{◌≡◌, ◌%◌, ◌^◌, arith, pos}
use stros.CString.{codes}
use stros.Utils.Hash.{hash}
use stros.Utils.Hash.Laws.{polynomial, hash-polynomial}
use stros.Utils.Url.{url_encode, url_decode}
use stros.Utils.Url.RoundTrip.{url_decode-url_encode}
use stros.ItemList.{Items, int, string, null, node}

hash-polynomial_example :
    hash (codes "std_msgs/String") 1024 ≡ polynomial 0 (codes "std_msgs/String") % 2 ^ 32 % 1024
hash-polynomial_example = hash-polynomial (codes "std_msgs/String") 1024

url_decode-url_encode_example : url_decode (url_encode (codes "a b/c~%")) ≡ codes "a b/c~%"
url_decode-url_encode_example = url_decode-url_encode (codes "a b/c~%") (ground arith)

abbrev two : Items
two = node (int (pos 7)) (node (string (codes "x")) null)
