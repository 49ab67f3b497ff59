-- ===== src/SafeStrings.antt =====
-- The string functions of src/infrastructure/string/spx_string_safe.c, where `size_t` has 64 bits. A
-- C string is the list of its bytes and NULL is none. A destination of size 0 stands for a NULL one
-- too, which the code treats alike. The formatting, which is vsnprintf, is left out.
pub mod Copies
pub mod Json
use php_spx.Prelude.{
  ℕ, zero, suc, ◌+◌, ◌-◌, ◌%◌, ◌^◌, Bool, true, false, ◌&&◌, ◌||◌, Option, none, some, List, [],
  ◌∷◌, ◌++◌, if◌then◌else◌, ◌==◌, ltb, leb, length, take, drop, set, min,
}
use php_spx.Prelude.Bytes.{Bytes, bytes_eq}
use php_spx.Alloc.{AllocError, invalid_input, buffer_overflow}

-- What a call answers, the string that the destination then holds, none where nothing is written,
-- and the error that it sets.
pub record Outcome : Type 0 where
  pub count : ℕ
  pub text : Option Bytes
  pub error : Option AllocError

-- The loop that copies while bytes and room are left; `limit` is the index for the NUL at the end.
abbrev pub copy_from : ℕ → ℕ → Bytes → Bytes
copy_from limit i [] = []
copy_from limit i (c ∷ src) =
    let rest = copy_from limit (suc i) src in if ltb i limit then c ∷ rest else []

-- Whether the copy stopped before the source's NUL.
abbrev pub truncated : Bytes → Bytes → Option AllocError
truncated copied src = if ltb (length copied) (length src) then some buffer_overflow else none

-- `spx_string_copy_safe`
unfoldable pub copy_safe : ℕ → Option Bytes → Outcome
copy_safe zero src = record { count = 0; text = none; error = some invalid_input }
copy_safe (suc n) none = record { count = 0; text = some []; error = some invalid_input }
copy_safe (suc n) (some src) =
    let copied = copy_from n 0 src in
    record { count = length copied; text = some copied; error = truncated copied src }

abbrev pub in_front : ℕ → Option Bytes → Option Bytes
in_front c none = none
in_front c (some t) = some (c ∷ t)

-- The loop over the cells of the destination up to their NUL, none where there is none.
abbrev pub text_in : List ℕ → Option Bytes
text_in [] = none
text_in (c ∷ cells) = let rest = text_in cells in if c == 0 then some [] else in_front c rest

-- What `strlen` counts; it is only called where the destination has a NUL.
abbrev pub strlen : Option Bytes → ℕ
strlen none = 0
strlen (some t) = length t

abbrev pub joined : ℕ → Option Bytes → Bytes → Outcome
joined limit none src = record { count = 0; text = none; error = some buffer_overflow }
joined limit (some old) src =
    let copied = copy_from limit (length old) src in
    record {
      count = length old + length copied;
      text = some (old ++ copied);
      error = truncated copied src;
    }

-- `spx_string_concat_safe`, on a destination of which the cells are given
unfoldable pub concat_safe : List ℕ → Option Bytes → Outcome
concat_safe [] src = record { count = 0; text = none; error = some invalid_input }
concat_safe (c ∷ cells) none = record {
  count = strlen (text_in (c ∷ cells));
  text = none;
  error = some invalid_input;
}
concat_safe (c ∷ cells) (some src) = joined (length cells) (text_in (c ∷ cells)) src

-- `spx_string_starts_with` and `spx_string_ends_with`
unfoldable pub starts_with : Option Bytes → Option Bytes → Bool
unfolding bytes_eq
starts_with (some str) (some prefix) = bytes_eq (take (length prefix) str) prefix
starts_with _ _ = false

unfoldable pub ends_with : Option Bytes → Option Bytes → Bool
unfolding bytes_eq
ends_with (some str) (some suffix) =
    if ltb (length str) (length suffix)
    then false
    else bytes_eq (drop (length str - length suffix) str) suffix
ends_with _ _ = false

-- `spx_string_length_safe`
abbrev pub length_from : ℕ → ℕ → Bytes → ℕ
length_from max_len len [] = len
length_from max_len len (c ∷ str) =
    let rest = length_from max_len (suc len) str in if ltb len max_len then rest else len

unfoldable pub length_safe : Option Bytes → ℕ → ℕ
length_safe none max_len = 0
length_safe (some str) max_len = length_from max_len 0 str

-- The byte after the backslash for a byte that is escaped, or 0.
unfoldable pub sanitized_char : ℕ → ℕ
sanitized_char c =
    if c == 34 || c == 92 || c == 47
    then c
    else if c == 8
    then 98
    else if c == 12
    then 102
    else if c == 10
    then 110
    else if c == 13
    then 114
    else if c == 9
    then 116
    else 0

-- The loop of `spx_string_sanitize_json`; in it `dst_idx` is below `limit`, which the branches for
-- escapes test again.
unfoldable pub sanitize_from : ℕ → ℕ → Bytes → Bytes
sanitize_from limit dst_idx [] = []
sanitize_from limit dst_idx (c ∷ src) =
    let escape = 92 ∷ sanitized_char c ∷ sanitize_from limit (dst_idx + 2) src in
    let skip = sanitize_from limit dst_idx src in
    let plain = c ∷ sanitize_from limit (dst_idx + 1) src in
    if ltb dst_idx limit
    then (if sanitized_char c == 0 then (if ltb c 32 then skip else plain) else escape)
    else []

-- dst_size - 2 in size_t
abbrev pub less_two : ℕ → ℕ
less_two dst_size = (dst_size + 2 ^ 64 - 2) % 2 ^ 64

-- `spx_string_sanitize_json`: the bytes that it writes before the NUL, whatever the destination's
-- size; none where nothing is written.
unfoldable pub sanitize_json : ℕ → Option Bytes → Option Bytes
unfolding sanitize_from
sanitize_json zero src = none
sanitize_json (suc n) none = some []
sanitize_json (suc n) (some src) = some (sanitize_from (less_two (suc n)) 0 src)

-- isalnum in the C locale, and the other bytes that a path may have.
unfoldable pub is_safe : ℕ → Bool
is_safe c =
    leb 48 c && leb c 57
    || leb 65 c && leb c 90
    || leb 97 c && leb c 122
    || c == 95
    || c == 45
    || c == 46
    || c == 47

-- `spx_string_sanitize_path`, with '_' for a byte that is not safe
abbrev pub sanitize_path_from : ℕ → ℕ → Bytes → Bytes
sanitize_path_from limit dst_idx [] = []
sanitize_path_from limit dst_idx (c ∷ src) =
    let rest = sanitize_path_from limit (suc dst_idx) src in
    if ltb dst_idx limit then (if is_safe c then c else 95) ∷ rest else []

unfoldable pub sanitize_path : ℕ → Option Bytes → Option Bytes
sanitize_path zero src = none
sanitize_path (suc n) none = some []
sanitize_path (suc n) (some src) = some (sanitize_path_from n 0 src)
