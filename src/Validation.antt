-- ===== src/Validation.antt =====
-- The checks of strings and the parsers of numbers of
-- src/infrastructure/security/spx_security_validation.c. strtol is an argument that answers the value,
-- what it left of the text and whether it set errno to ERANGE. A NULL string is none, the messages of
-- the errors are left out. The output of a parser is the value of its success.
pub mod Laws
use php_spx.Prelude.{
  ℕ, ◌-◌, ◌*◌, ◌^◌, Bool, true, false, ◌||◌, ◌&&◌, not, Option, none, some, List, [], ◌∷◌,
  if◌then◌else◌, ltb, ◌==◌, length,
}
use php_spx.Prelude.Bytes.{Bytes}
use php_spx.Prelude.Int.{ℤ, pos, negsuc, ltb_ℤ}

-- `spx_parse_result_t`
pub data ParseResult : Type 0 where
  success : ℤ → ParseResult
  null_input empty_string overflow underflow invalid_format out_of_range : ParseResult

-- What strtol leaves behind.
pub record Number : Type 0 where
  pub value : ℤ
  pub rest : Bytes
  pub range_error : Bool

abbrev pub is_long_max : ℤ → Bool
is_long_max (pos n) = n == 2 ^ 63 - 1
is_long_max (negsuc n) = false

abbrev pub is_long_min : ℤ → Bool
is_long_min (pos n) = false
is_long_min (negsuc n) = n == 2 ^ 63 - 1

-- The whole text is to be the number, and the number within the bounds.
abbrev pub in_bounds : ℤ → ℤ → ℤ → Bytes → ParseResult
in_bounds min_value max_value value [] =
    if ltb_ℤ value min_value || ltb_ℤ max_value value then out_of_range else success value
in_bounds min_value max_value value (c ∷ rest) = invalid_format

abbrev pub checked : ℤ → ℤ → Number → ParseResult
checked min_value max_value n =
    if n.range_error && is_long_max n.value
    then overflow
    else (if n.range_error && is_long_min n.value
        then underflow
        else in_bounds min_value max_value n.value n.rest)

module _ (strtol : Bytes → Number) where
  -- `spx_parse_long`
  abbrev pub parse_long : Option Bytes → ℤ → ℤ → ParseResult
  parse_long none min_value max_value = null_input
  parse_long (some []) min_value max_value = empty_string
  parse_long (some (c ∷ str)) min_value max_value = checked min_value max_value (strtol (c ∷ str))

  -- A `size_t` read as a `long`.
  abbrev pub to_long : ℕ → ℤ
  to_long n = if ltb n (2 ^ 63) then pos n else negsuc (2 ^ 64 - n - 1)

  abbrev pub sized : ℕ → ParseResult → ParseResult
  sized min_value (success (negsuc n)) = out_of_range
  sized min_value (success (pos n)) = if ltb n min_value then out_of_range else success (pos n)
  sized min_value null_input = null_input
  sized min_value empty_string = empty_string
  sized min_value overflow = overflow
  sized min_value underflow = underflow
  sized min_value invalid_format = invalid_format
  sized min_value out_of_range = out_of_range

  -- `spx_parse_size_t`
  abbrev pub parse_size_t : Option Bytes → ℕ → ℕ → ParseResult
  parse_size_t str min_value max_value =
      sized min_value (parse_long str (pos 0) (to_long max_value))

-- `spx_string_constraints_t`
pub record Constraints : Type 0 where
  pub min_length : ℕ
  pub max_length : ℕ
  pub allowed_charset : Option Bytes
  pub allow_null : Bool

-- `spx_validate_result_t`, as far as strings go
pub data ValidateResult : Type 0 where
  valid no_constraints null_string too_short too_long invalid_chars : ValidateResult

abbrev pub has_byte : Bytes → ℕ → Bool
has_byte [] c = false
has_byte (x ∷ s) c = x == c || has_byte s c

abbrev pub all_in : Bytes → Bytes → Bool
all_in charset [] = true
all_in charset (c ∷ str) = has_byte charset c && all_in charset str

abbrev pub charset_result : Option Bytes → Bytes → ValidateResult
charset_result none str = valid
charset_result (some charset) str = if all_in charset str then valid else invalid_chars

-- `spx_validate_string`
abbrev pub validate_string : Option Bytes → Option Constraints → ValidateResult
validate_string str none = no_constraints
validate_string none (some k) = if k.allow_null then valid else null_string
validate_string (some str) (some k) =
    if ltb (length str) k.min_length
    then too_short
    else (if ltb k.max_length (length str) then too_long else charset_result k.allowed_charset str)
