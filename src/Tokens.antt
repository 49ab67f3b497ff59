-- ===== src/Tokens.antt =====
-- The macro SPX_UTILS_TOKENIZE_STRING of src/spx_utils.h, as the list of the tokens that its block
-- runs for. A token is kept in a buffer of `size` bytes with its terminator, so that only its first
-- `size - 1` bytes are stored.
pub mod Split
use php_spx.Prelude.{
  ℕ, ◌-◌, Bool, true, false, ◌||◌, List, [], ◌∷◌, ◌++◌, if◌then◌else◌, ltb, ◌==◌, length,
}
use php_spx.Prelude.Bytes.{Bytes}

-- The token in the buffer after one more byte.
abbrev pub stored : ℕ → ℕ → Bytes → ℕ → Bytes
stored size delim token c =
    if c == delim then [] else (if ltb (length token) (size - 1) then token ++ (c ∷ []) else token)

abbrev pub tokens_from : ℕ → ℕ → Bytes → Bytes → List Bytes
tokens_from size delim token [] = token ∷ []
tokens_from size delim token (c ∷ s) =
    let rest = tokens_from size delim (stored size delim token c) s in
    if c == delim then token ∷ rest else rest

abbrev pub tokenize : ℕ → ℕ → Bytes → List Bytes
tokenize size delim s = tokens_from size delim [] s

-- A block that raises a flag for a token that passes a test.
abbrev pub any : (Bytes → Bool) → List Bytes → Bool
any p [] = false
any p (t ∷ ts) = p t || any p ts
