-- ===== src/Crypto.antt =====
-- The comparison of strings and the key generation of
-- src/infrastructure/security/spx_security_crypto.c. The random delays, which change no result, are
-- left out. A NULL string is none. The bytes of the random device are an argument.
pub mod Laws
use php_spx.Prelude.{
  ℕ, zero, suc, ◌+◌, ◌*◌, ◌/◌, ◌%◌, min, Option, none, some, List, [], ◌∷◌, if◌then◌else◌, ltb,
  length,
}
use Prim.Native.Nat.{bit_or, bit_xor}
use php_spx.Prelude.Bytes.{Bytes}

-- The bytes of a and b below len, differences gathered in `result`. Reading past the end of a
-- string is not reached: the callers pass the shorter length.
abbrev pub compare_from : ℕ → Bytes → Bytes → ℕ → ℕ
compare_from result a b zero = result
compare_from result (x ∷ a) (y ∷ b) (suc len) = compare_from (bit_or result (bit_xor x y)) a b len
compare_from result [] b (suc len) = result
compare_from result (x ∷ a) [] (suc len) = result

-- `spx_crypto_compare_constant_time`
abbrev pub compare_constant_time : Bytes → Bytes → ℕ → ℕ
compare_constant_time a b len = compare_from 0 a b len

-- `spx_crypto_compare_strings_constant_time` on two strings: the lengths are compared in a byte.
abbrev pub compare_bytes : Bytes → Bytes → ℕ
compare_bytes a b =
    let length_equal = bit_xor (length a) (length b) % 256 in
    let compare_len = if ltb (length a) (length b) then length a else length b in
    bit_or (compare_constant_time a b compare_len) length_equal

abbrev pub compare_strings : Option Bytes → Option Bytes → ℕ
compare_strings none b = 1
compare_strings (some a) none = 1
compare_strings (some a) (some b) = compare_bytes a b
