-- ===== src/Tests/Tracing.antt =====
-- The theorems on the tracer (src/spx_profiler_tracer.c) and on its tables at a small profiler.
use php_spx.Prelude.{ℕ, ◌≡◌, ◌≢◌, refl, true, false, [], ◌∷◌, none, some, arith, length}
use php_spx.Prelude.Bytes.{Bytes}
use php_spx.Metric.{zero_values}
use php_spx.HashMap.{HashMap, ensure_entry}
use php_spx.HashMap.Methods.{IsEmpty, create-IsEmpty, ensure_entry-Outcome, Outcome}
use php_spx.HashMap
use php_spx.FuncTable
use php_spx.FuncTable.{Function, FuncTable, Run, same_function, hash_code, ◌>>=◌}
use php_spx.FuncTable.Laws.{function-KeyLaws}
use php_spx.FuncTable.GetEntry.{plenty, Gets}
use php_spx.StringPool.{Pool, block_size}
use php_spx.Tracer.State.{Tracer, Env, heavy}
use php_spx.Tracer.{create, Calibration, Limits, finalize_all}
use php_spx.Tracer.Books.Calibrate.{Fresh, create-Fresh}
use php_spx.Limits
use php_spx.Limits.{initial, get_max_stack_depth, get_max_function_table_size}
use php_spx.Limits.Created.{IsPositive, initial-IsPositive, create_with_limits-Fresh}
use php_spx.Prelude.Int.{pos}
use php_spx.FuncTable.Names.{Stored, get_entry-Stored}
use php_spx.Tracer.Nesting.Runs.{Nests, profile-Nests}
use php_spx.Tracer.Books.History.{starts, ends, run, Balances, profile-Balances}

abbrev hash : Bytes → ℕ
hash s = length s

abbrev main : Function
main = record { func_name = 109 ∷ []; class_name = [] }

abbrev helper : Function
helper = record { func_name = 104 ∷ 101 ∷ []; class_name = 67 ∷ [] }

abbrev empty_map :
    (m : HashMap Function ℕ) × (HashMap.create true true 4 ≡ some m)
    × IsEmpty (hash_code hash) same_function m
empty_map = create-IsEmpty (hash_code hash) same_function 4 (omega arith)

abbrev empty_pool : Pool
empty_pool = record { current = []; older = []; total_allocated = block_size; total_interned = 0 }

abbrev limits : Limits
limits = record { stack_depth = 8; function_table_size = 4 }

abbrev profiler : Tracer
profiler = create 3 (λ m. true) limits zero_values empty_map.0 empty_pool

profiler-Fresh : Fresh hash profiler
profiler-Fresh =
    create-Fresh hash 3 (λ m. true) limits zero_values empty_map.0 empty_pool empty_map.2
      (omega arith) (omega arith)

abbrev env : Env
env = record {
  readings = zero_values;
  garbage = zero_values;
  cost = heavy;
  barrier = zero_values;
  memory = plenty;
}

abbrev calibration : Calibration
calibration = record {
  starts = env ∷ env ∷ [];
  ends = env ∷ env ∷ [];
  start_noise = 1;
  end_noise = 2;
}

some_rounds : calibration.starts ≢ []
some_rounds h = cc

profile-Balances_example : Balances hash (
    run hash calibration (starts env main ∷ starts env helper ∷ ends env ∷ []) profiler
    >>= finalize_all (λ n. env))
unfolding create
profile-Balances_example =
    profile-Balances hash calibration profiler env main (starts env helper ∷ ends env ∷ [])
      (λ n. env) profiler-Fresh some_rounds (refl, (refl, tt)) (refl, (refl, tt))

profile-Nests_example : Nests (
    run hash calibration (starts env main ∷ starts env helper ∷ ends env ∷ []) profiler
    >>= finalize_all (λ n. env))
unfolding create
profile-Nests_example =
    profile-Nests hash calibration profiler env main (starts env helper ∷ ends env ∷ []) (λ n. env)
      profiler-Fresh some_rounds (refl, (refl, tt)) (refl, (refl, tt))

-- An environment that asks for 16 frames, and one that says nothing.
abbrev asked : Limits.World
asked = record {
  getenv = λ name. some (49 ∷ 54 ∷ []);
  strtol = λ text. record { value = pos 16; rest = []; range_error = false };
}

abbrev silent : Limits.World
silent = record asked { getenv = λ name. none }

create_with_limits-Fresh_example :
    let (depth, l) = get_max_stack_depth asked initial in
    let (size, l') = get_max_function_table_size silent l in
    Fresh hash (
      create 3
        (λ m. true)
        (record { stack_depth = depth; function_table_size = size })
        zero_values
        empty_map.0
        empty_pool)
    × IsPositive l'
create_with_limits-Fresh_example =
    create_with_limits-Fresh asked silent initial hash 3 (λ m. true) zero_values empty_map.0
      empty_pool initial-IsPositive empty_map.2

get_entry-Stored_example :
    Gets hash profiler.func_table main
      (FuncTable.get_entry hash plenty profiler.func_table main empty_pool)
    × Stored profiler.func_table main
        (FuncTable.get_entry hash plenty profiler.func_table main empty_pool)
get_entry-Stored_example =
    get_entry-Stored main ((cc, _), omega arith) (_, omega arith) hash profiler.func_table
      empty_pool profiler-Fresh.table (omega arith, _)

ensure_entry-Outcome_example :
    Outcome
      (hash_code hash)
      same_function
      (function-KeyLaws hash)
      empty_map.0
      empty_map.2.valid
      main
      7
      (ensure_entry (hash_code hash) same_function true empty_map.0 main)
ensure_entry-Outcome_example =
    ensure_entry-Outcome (hash_code hash) same_function (function-KeyLaws hash) empty_map.0
      empty_map.2.valid main 7
