-- ===== src/Utils/Hash.antt =====
-- `simple_hash` and `hash` of utils.c. `char` is signed, as with gcc on the machines that the
-- Makefile names, so a byte from 128 on is added as the 32-bit pattern of a negative number.
pub mod Laws
use stros.Prelude.{ℕ, ◌+◌, ◌-◌, ◌*◌, ◌%◌, ◌^◌, [], ◌∷◌, ltb, if◌then◌else◌}
use stros.CString.{CString}

abbrev pub header_hash_size : ℕ
header_hash_size = 1024

-- `*key`, promoted to `int` and converted to `unsigned`.
unfoldable pub char_value : ℕ → ℕ
char_value c = if ltb c 128 then c else 2 ^ 32 - 256 + c

-- The loop of `simple_hash`, from the value so far.
unfoldable pub hash_loop : ℕ → CString → ℕ
unfolding char_value
hash_loop hashval [] = hashval
hash_loop hashval (c ∷ key) = hash_loop ((char_value c + 31 * hashval) % 2 ^ 32) key

unfoldable pub simple_hash : CString → ℕ
unfolding hash_loop
simple_hash key = hash_loop 0 key

unfoldable pub hash : CString → ℕ → ℕ
unfolding simple_hash
hash key hash_size = simple_hash key % hash_size
