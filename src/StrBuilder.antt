-- ===== src/StrBuilder.antt =====
-- The string builder of src/spx_str_builder.c. The buffer is the list of its `size` bytes. The loop
-- that writes the digits of a number, last digit first, and the loop that reverses them after it are
-- one list to whose front the digits are put; its recursion is on fuel, of which the number itself is
-- enough. A number is not the least `long`. The text of a `double` is that of `scaled`, which is
-- (long) (d * 10 ^ nb_dec + 0.5), an argument like the test whether d is 0.
pub mod Digits
pub mod Decimal
pub mod Bounds
pub mod Rounds
use php_spx.Prelude.{
  ℕ, zero, suc, ◌+◌, ◌-◌, ◌*◌, ◌/◌, ◌%◌, Bool, true, false, ◌&&◌, Option, none, some, List, [], ◌∷◌,
  ◌++◌, if◌then◌else◌, ltb, leb, ◌==◌, length,
}
use php_spx.Prelude.Bytes.{Bytes}
use php_spx.Prelude.Int.{ℤ, pos, negsuc}

-- `spx_str_builder_t`
pub record StrBuilder : Type 0 where
  pub capacity : ℕ
  pub buffer : Bytes

-- `spx_str_builder_create` where the allocations are granted, and `spx_str_builder_reset`
abbrev pub create : ℕ → StrBuilder
create capacity = record { capacity = capacity; buffer = [] }

abbrev pub reset : StrBuilder → StrBuilder
reset s = record s { buffer = [] }

-- `spx_str_builder_size` and `spx_str_builder_remaining`
abbrev pub size : StrBuilder → ℕ
size s = length s.buffer

abbrev pub remaining : StrBuilder → ℕ
remaining s = s.capacity - size s

-- What an append answers: the bytes it added, and the builder.
abbrev pub Appended : Type 0
Appended = ℕ × StrBuilder

abbrev pub added : StrBuilder → Bytes → Appended
added s text = (length text, record s { buffer = s.buffer ++ text })

-- A text that did not fit leaves the builder as it was.
abbrev pub added_or : StrBuilder → Option Bytes → Appended
added_or s none = (0, s)
added_or s (some text) = added s text

-- `spx_str_builder_append_char`
abbrev pub append_char : StrBuilder → ℕ → Appended
append_char s c = if remaining s == 0 then (0, s) else added s (c ∷ [])

-- A byte put in front of the text of a number, if one more byte fits in the room.
abbrev pub put : ℕ → ℕ → Bytes → Option Bytes
put room c text = if ltb room (length text + 1) then none else some (c ∷ text)

abbrev pub then_text : Option Bytes → (Bytes → Option Bytes) → Option Bytes
then_text none f = none
then_text (some text) f = f text

-- The digits of v in front of the text.
abbrev pub digits : ℕ → ℕ → ℕ → Bytes → Option Bytes
digits zero room v text = some text
digits (suc fuel) room v text =
    if v == 0
    then some text
    else then_text (put room (v % 10 + 48) text) (λ t. digits fuel room (v / 10) t)

-- The sign, 45 being '-'.
abbrev pub signed : ℕ → (ℕ → Option Bytes) → ℤ → Option Bytes
signed room magnitude (pos n) = magnitude n
signed room magnitude (negsuc n) = then_text (magnitude (suc n)) (λ t. put room 45 t)

abbrev pub is_zero : ℤ → Bool
is_zero (pos n) = n == 0
is_zero (negsuc n) = false

-- `spx_str_builder_append_long`
abbrev pub append_long : StrBuilder → ℤ → Appended
append_long s l =
    if remaining s == 0
    then (0, s)
    else (if is_zero l
        then append_char s 48
        else added_or s (signed (remaining s) (λ v. digits v (remaining s) v []) l))

-- The digits of a scaled number, with a point (46) after nb_dec of them and without the zeros at its
-- end; n digits were seen before.
abbrev pub point : ℕ → Bool → Bytes → Option Bytes
point room true text = put room 46 text
point room false text = some text

abbrev pub is_nil : Bytes → Bool
is_nil [] = true
is_nil (c ∷ text) = false

abbrev pub decimals : ℕ → ℕ → ℕ → ℕ → ℕ → Bytes → Option Bytes
decimals zero room nb_dec n v text = some text
decimals (suc fuel) room nb_dec n v text =
    if v == 0
    then some text
    else (if ltb room (length text + 1)
        then none
        else (if v % 10 == 0 && is_nil text && leb (suc n) nb_dec
            then decimals fuel room nb_dec (suc n) (v / 10) text
            else then_text (point room (suc n == nb_dec) ((v % 10 + 48) ∷ text))
                (λ t. decimals fuel room nb_dec (suc n) (v / 10) t)))

-- `spx_str_builder_append_double`
abbrev pub append_double : StrBuilder → Bool → ℤ → ℕ → Appended
append_double s d_is_zero scaled nb_dec =
    if remaining s == 0
    then (0, s)
    else (if d_is_zero
        then append_char s 48
        else added_or s (signed (remaining s) (λ v. decimals v (remaining s) nb_dec 0 v []) scaled))

-- `spx_str_builder_append_str`, byte by byte: what was written stays where the room runs out.
abbrev pub str_from : ℕ → StrBuilder → Bytes → Appended
str_from c s [] = (c, s)
str_from c s (x ∷ str) =
    let more = str_from (suc c) (record s { buffer = s.buffer ++ (x ∷ []) }) str in
    if remaining s == 0 then (0, s) else more

abbrev pub append_str : StrBuilder → Bytes → Appended
append_str s str = str_from 0 s str
