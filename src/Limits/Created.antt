-- ===== src/Limits/Created.antt =====
-- A profiler that is created with the limits of src/spx_limits.c.
use php_spx.Prelude.{
  ℕ, zero, suc, ◌<◌, Bool, true, false, Option, none, some, [], ◌∷◌, if◌then◌else◌, arith,
}
use php_spx.Prelude.Bytes.{Bytes}
use php_spx.Prelude.Int.{ℤ, pos, negsuc}
use php_spx.Metric.{Metric, Values}
use php_spx.HashMap.{HashMap}
use php_spx.HashMap.Methods.{IsEmpty}
use php_spx.FuncTable.{Function, same_function, hash_code}
use php_spx.StringPool.{Pool}
use php_spx.Tracer.{create}
use php_spx.Tracer.Books.Calibrate.{Fresh, create-Fresh}
use php_spx.Limits.{
  Limits, initial, positive_or, World, parsed, parse_size_t_env, init, ready,
  default_max_stack_depth, default_max_function_table_size, default_reporter_buffer_size,
  get_max_stack_depth, get_max_function_table_size,
}

-- No limit is 0.
pub record IsPositive (l : Limits) : Type 0 where
  pub depth : 0 < l.max_stack_depth
  pub size : 0 < l.max_function_table_size
  pub buffer : 0 < l.reporter_buffer_size

positive_or-positive : (d : ℕ) (v : ℤ) (rest : Bytes) → 0 < d → 0 < positive_or d v rest
positive_or-positive d (pos zero) rest h = h
positive_or-positive d (pos (suc n)) [] h = omega arith
positive_or-positive d (pos (suc n)) (c ∷ rest) h = h
positive_or-positive d (negsuc n) rest h = h

parse_size_t_env-positive :
    (w : World) (env_var : Bytes) (d : ℕ) → 0 < d → 0 < parse_size_t_env w env_var d
unfolding parse_size_t_env
parse_size_t_env-positive w env_var d h = by_text (w.getenv env_var)
  where
    by_text : (o : Option Bytes) → 0 < parsed w d o
    by_text none = h
    by_text (some []) = h
    by_text (some (c ∷ value)) = positive_or-positive d _ _ h

init-IsPositive : (w : World) (l : Limits) → IsPositive (init w l)
unfolding init
init-IsPositive w l = record {
  depth = parse_size_t_env-positive w _ default_max_stack_depth (omega arith);
  size = parse_size_t_env-positive w _ default_max_function_table_size (omega arith);
  buffer = parse_size_t_env-positive w _ default_reporter_buffer_size (omega arith);
}

-- The limits before the first call are positive, and each getter keeps them so.
pub initial-IsPositive : IsPositive initial
initial-IsPositive = record { depth = omega arith; size = omega arith; buffer = omega arith }

ready-IsPositive : (w : World) (l : Limits) → IsPositive l → IsPositive (ready w l)
ready-IsPositive w l h = by_flag l.initialized
  where
    by_flag : (b : Bool) → IsPositive (if b then l else init w l)
    by_flag true = h
    by_flag false = init-IsPositive w l

-- With limits that are positive, as they are before the first call and after each, whatever the
-- environment and strtol answer at the two calls, a profiler that is created on an empty map with
-- the stack depth and the size of the function table that are got is fresh: it is active, not
-- finalized nor calibrated, it has no call and no event, a valid function table with room, and a
-- maximal depth above 0 that the frames hold. The limits are positive after it, too.
pub create_with_limits-Fresh :
    (w later : World) (l : Limits) (zend_hash : Bytes → ℕ) (max_depth : ℕ) (enabled : Metric → Bool)
    (raw : Values) (hmap : HashMap Function ℕ) (pool : Pool)
    → IsPositive l
    → IsEmpty (hash_code zend_hash) same_function hmap
    → let (depth, l') = get_max_stack_depth w l in
      let (size, l'') = get_max_function_table_size later l' in
      Fresh zend_hash (
        create max_depth enabled
          (record { stack_depth = depth; function_table_size = size })
          raw
          hmap
          pool)
      × IsPositive l''
unfolding get_max_stack_depth get_max_function_table_size
create_with_limits-Fresh w later l zend_hash max_depth enabled raw hmap pool positive empty =
    let h = ready-IsPositive w l positive in
    let h' = ready-IsPositive later (ready w l) h in
    (create-Fresh zend_hash max_depth enabled _ raw hmap pool empty h.depth h'.size, h')
