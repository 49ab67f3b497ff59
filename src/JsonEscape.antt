-- ===== src/JsonEscape.antt =====
-- `spx_utils_json_escape` of src/spx_utils.c. A text is the list of its bytes, as `unsigned char`,
-- without the NUL that ends it. Where `spx_utils_die` ends the process the result is none.
pub mod RoundTrip
use php_spx.Prelude.{
  ℕ, zero, suc, ◌+◌, Bool, true, false, ◌||◌, List, [], ◌∷◌, Option, none, some, if◌then◌else◌,
  ◌==◌, leb,
}
use php_spx.Prelude.Bytes.{Bytes}
use php_spx.FuncTable.{Run, ◌>>=◌}

-- The `switch` over a byte: what follows the backslash, or 0. The cases are the backslash, the
-- quote, the slash, \b, \f, \n, \r and \t.
unfoldable pub escaped_char : ℕ → ℕ
escaped_char c =
    if c == 92 || c == 34 || c == 47
    then c
    else if c == 8
    then 98
    else if c == 12
    then 102
    else if c == 10
    then 110
    else if c == 13
    then 114
    else if c == 9
    then 116
    else 0

-- The loop over the rest of the source, with `i` bytes written; the result is what it writes.
unfoldable pub escape_from : ℕ → ℕ → Bytes → Run Bytes
escape_from limit i [] = if leb limit i then none else some []
escape_from limit i (c ∷ cs) =
    let plain = escaped_char c == 0 in
    let rest = escape_from limit (if plain then i + 1 else i + 2) cs in
    if leb limit i
    then none
    else if plain
    then (rest >>= λ r. some (c ∷ r))
    else if leb limit (i + 1)
    then none
    else (rest >>= λ r. some (92 ∷ escaped_char c ∷ r))

-- `spx_utils_json_escape`
unfoldable pub json_escape : Bytes → ℕ → Run Bytes
unfolding escape_from
json_escape src limit = escape_from limit 0 src
