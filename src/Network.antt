-- ===== src/Network.antt =====
-- The match of an address with a target of src/spx_utils.c, and the prefix and suffix tests beside
-- it. The parser of dotted addresses (inet_addr with ntohl after it) is an argument that answers the
-- number of the address in host order, or none where inet_addr answers INADDR_NONE; so is the parser
-- of numbers, strtol. Strings are lists of bytes, a pointer that may be NULL is an option.
pub mod Mask
pub mod Subnet
use php_spx.Prelude.{
  ℕ, zero, suc, ◌-◌, ◌*◌, ◌^◌, Bool, true, false, not, ◌&&◌, ◌||◌, Option, none, some, List, [],
  ◌∷◌, if◌then◌else◌, ltb, leb, ◌==◌, length, take, drop,
}
use Prim.Native.Nat.{bit_and}
use php_spx.Prelude.Bytes.{Bytes, bytes_eq}
use php_spx.Prelude.Int.{ℤ, pos, negsuc}

-- `strchr(s, c) - s`
abbrev pub index_of : ℕ → Bytes → Option ℕ
index_of c [] = none
index_of c (x ∷ s) =
    let rest = index_of c s in
    if x == c then some 0 else elim rest [ none ↦ none | some i ↦ some (suc i) ]

-- '/' and '*'
abbrev pub slash : ℕ
slash = 47

abbrev pub star : ℕ
star = 42

-- The mask bits that are accepted.
abbrev pub mask_bits : ℤ → Option ℕ
mask_bits (pos n) = if leb 1 n && leb n 31 then some n else none
mask_bits (negsuc n) = none

-- `(~0) << (32 - bits)` as a number of 32 bits
abbrev pub mask_of : ℕ → ℕ
mask_of bits = 2 ^ 32 - 2 ^ (32 - bits)

module _ (inet_addr : Bytes → Option ℕ) (strtol : Bytes → ℤ) where
  -- The two addresses under the mask, for mask bits that are accepted.
  abbrev pub same_subnet : Option ℕ → Option ℕ → Option ℕ → Bool
  same_subnet none target address = false
  same_subnet (some bits) none address = false
  same_subnet (some bits) (some target) none = false
  same_subnet (some bits) (some target) (some address) =
      bit_and address (mask_of bits) == bit_and target (mask_of bits)

  -- The target with its slash at a position.
  abbrev pub subnet_match : Bytes → Bytes → Option ℕ → Bool
  subnet_match ip target none = false
  subnet_match ip target (some slash_pos) =
      let target_suffix_len = length target - slash_pos in
      (leb 7 slash_pos && leb slash_pos 15)
      && (leb 2 target_suffix_len && leb target_suffix_len 3)
      && same_subnet (mask_bits (strtol (drop (suc slash_pos) target)))
          (inet_addr (take slash_pos target)) (inet_addr ip)

  -- `spx_utils_ip_match`
  abbrev pub ip_match : Option Bytes → Option Bytes → Bool
  ip_match none target = false
  ip_match (some ip) none = false
  ip_match (some ip) (some target) =
      bytes_eq target (star ∷ [])
      || bytes_eq target ip
      || subnet_match ip target (index_of slash target)

-- `spx_utils_str_starts_with`
abbrev pub starts_with : Bytes → Bytes → Bool
starts_with str prefix = bytes_eq (take (length prefix) str) prefix

-- `spx_utils_str_ends_with`
abbrev pub ends_with : Bytes → Bytes → Bool
ends_with str suffix =
    if ltb (length str) (length suffix)
    then false
    else bytes_eq (drop (length str - length suffix) str) suffix
