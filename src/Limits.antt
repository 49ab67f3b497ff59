-- ===== src/Limits.antt =====
-- The limits of src/spx_limits.c. `getenv` is an argument, none for NULL, and so is strtol, which
-- answers the value and what it left of the text.
pub mod Created
use php_spx.Prelude.{
  ℕ, zero, suc, ◌*◌, Bool, true, false, Option, none, some, List, [], ◌∷◌, if◌then◌else◌,
}
use php_spx.Prelude.Bytes.{Bytes, codes}
use php_spx.Prelude.Int.{ℤ, pos, negsuc}
use php_spx.Validation.{Number}

-- SPX_DEFAULT_MAX_STACK_DEPTH and those after it
abbrev pub default_max_stack_depth : ℕ
default_max_stack_depth = 2048

abbrev pub default_max_function_table_size : ℕ
default_max_function_table_size = 65536

abbrev pub default_reporter_buffer_size : ℕ
default_reporter_buffer_size = 16384

-- `limits`
pub record Limits : Type 0 where
  pub max_stack_depth : ℕ
  pub max_function_table_size : ℕ
  pub reporter_buffer_size : ℕ
  pub initialized : Bool

abbrev pub initial : Limits
initial = record {
  max_stack_depth = default_max_stack_depth;
  max_function_table_size = default_max_function_table_size;
  reporter_buffer_size = default_reporter_buffer_size;
  initialized = false;
}

-- A value that is positive, where strtol has read the whole text, which is not empty.
abbrev pub positive_or : ℕ → ℤ → Bytes → ℕ
positive_or default_value (pos zero) rest = default_value
positive_or default_value (pos (suc n)) [] = suc n
positive_or default_value (pos (suc n)) (c ∷ rest) = default_value
positive_or default_value (negsuc n) rest = default_value

-- What getenv and strtol answer.
pub record World : Type 0 where
  pub getenv : Bytes → Option Bytes
  pub strtol : Bytes → Number

module _ (w : World) where
  abbrev pub parsed : ℕ → Option Bytes → ℕ
  parsed default_value none = default_value
  parsed default_value (some []) = default_value
  parsed default_value (some (c ∷ value)) =
      let n = w.strtol (c ∷ value) in positive_or default_value n.value n.rest

  -- `parse_size_t_env`
  unfoldable pub parse_size_t_env : Bytes → ℕ → ℕ
  parse_size_t_env env_var default_value = parsed default_value (w.getenv env_var)

  -- `spx_limits_init`
  unfoldable pub init : Limits → Limits
  unfolding parse_size_t_env
  init l = record l {
    max_stack_depth = parse_size_t_env (codes "SPX_MAX_STACK_DEPTH") default_max_stack_depth;
    max_function_table_size =
        parse_size_t_env (codes "SPX_MAX_FUNCTION_TABLE_SIZE") default_max_function_table_size;
    reporter_buffer_size =
        parse_size_t_env (codes "SPX_REPORTER_BUFFER_SIZE") default_reporter_buffer_size;
    initialized = true;
  }

  abbrev pub ready : Limits → Limits
  ready l = if l.initialized then l else init l

  -- `spx_get_max_stack_depth` and the two getters after it
  unfoldable pub get_max_stack_depth : Limits → ℕ × Limits
  unfolding init
  get_max_stack_depth l = ((ready l).max_stack_depth, ready l)

  unfoldable pub get_max_function_table_size : Limits → ℕ × Limits
  unfolding init
  get_max_function_table_size l = ((ready l).max_function_table_size, ready l)

  unfoldable pub get_reporter_buffer_size : Limits → ℕ × Limits
  unfolding init
  get_reporter_buffer_size l = ((ready l).reporter_buffer_size, ready l)
