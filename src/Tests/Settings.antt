-- ===== src/Tests/Settings.antt =====
-- The theorems on the configuration (src/spx_config.c, src/spx_config_builder.c), the parsers of
-- numbers (src/infrastructure/security/spx_security_validation.c), the string builder
-- (src/spx_str_builder.c), the flat profile (src/spx_reporter_fp.c), the signal handler
-- (src/spx_signal_handler.c), the profiling handler (src/php_spx.c), the registry of metrics
-- (src/spx_metric_registry.c) and the paths (src/spx_utils.c and
-- src/infrastructure/security/spx_security_validation.c) at small inputs.
use php_spx.Prelude.{
  subst, ℕ, Bool, ◌<◌, ◌≡◌, refl, true, false, Option, none, some, List, [], ◌∷◌, ◌++◌, inl, inr,
  arith, length, min,
}
use php_spx.Prelude.Bytes.{Bytes}
use php_spx.Prelude.Int.{pos, negsuc}
use php_spx.Metric.{Metric, metrics, index, wall_time, zero_values}
use php_spx.FuncTable.{◌>>=◌, Entry}
use php_spx.Validation.{Number}
use php_spx.Config.{Config, init_config, fix_metrics, Source, env, Parameter, spx_depth, config_get}
use php_spx.Config.Limits.{Within, Ready, config_get-Within}
use php_spx.Config.Builder.{build, reset, no_entries}
use php_spx.Config.Builder.Runs.{
  enabled, max_depth, apply, run as run_calls, run-build, build-Invalid,
}
use php_spx.StrBuilder.{create, append_long, append_double}
use php_spx.StrBuilder.Decimal.{Written, append_long-fits}
use php_spx.FlatProfile.{Order, top_entries}
use php_spx.FlatProfile.Selection.{In, top_entries-First}
use php_spx.Paths.{Flags, FileSystem, directory, missing, path_max, validate_path, resolve_confined}
use php_spx.Paths.Confined.{
  Outcome as Outcome_path, Confined, Inside, validate_path-Confined, resolve_confined-Inside,
}
use php_spx.MetricRegistry
use php_spx.Prelude.{inr}
use php_spx.MetricRegistry.{in_place, Registry, Plugin, register}
use php_spx.MetricRegistry.Keys.{Registers, register-Registers}
use php_spx.Signals
use php_spx.Signals.{SignalHandler, install}
use php_spx.Signals.Deferral.{
  running, terminated, probe_begins, probe_ends, signals, IsRunning, run as run_signals,
  run-deferred,
}
use php_spx.CallStack.{CallStack, done}
use php_spx.Profiling.{Context, Made, init}
use php_spx.Profiling.Stacks.{Outcome, Follows}
use php_spx.Profiling.Follows.{Step, run as run_steps, call, leave, start_span, profile-Follows}

-- A parser that reads every text as 9.
abbrev strtol : Bytes → Number
strtol s = record { value = pos 9; rest = []; range_error = false }

abbrev no_metric : Bytes → Option Metric
no_metric s = none

-- An environment with SPX_DEPTH=9.
abbrev variables : Source → Parameter → Option Bytes
variables env spx_depth = some (57 ∷ [])
variables source parameter = none

abbrev read : Config
read = config_get strtol no_metric variables true (env ∷ [])

read_depth : read.max_depth ≡ 9
read_depth = refl

config_get-Within_example : Within read × Ready read
config_get-Within_example = config_get-Within strtol no_metric variables true (env ∷ [])

abbrev built : Config
built = fix_metrics (record reset.config { enabled = true })

run-build_example : Within built × Ready built × (no_entries built.report built.fp_limit ≡ false)
unfolding metrics index
run-build_example = run-build no_metric (enabled true ∷ []) built refl

build-Invalid_example :
    build (run_calls no_metric (enabled true ∷ []) (apply no_metric (max_depth 100001) reset))
    ≡ none
build-Invalid_example =
    build-Invalid no_metric reset (max_depth 100001) (enabled true ∷ []) (omega arith)

append_long-fits_example : Written (create 8) (negsuc 4) (append_long (create 8) (negsuc 4))
append_long-fits_example =
    append_long-fits (create 8) (omega arith) 1 (negsuc 4) (omega arith) (omega arith)

-- "-5"
negative_text : append_long (create 8) (negsuc 4) ≡ (2, record (create 8) { buffer = 45 ∷ 53 ∷ [] })
negative_text = refl

-- 0.05 with 4 decimals is written as "5".
lost_point :
    append_double (create 8) false (pos 500) 4 ≡ (1, record (create 8) { buffer = 53 ∷ [] })
lost_point = refl

-- 0.5 is written as ".5".
half_text :
    append_double (create 8) false (pos 5000) 4 ≡ (2, record (create 8) { buffer = 46 ∷ 53 ∷ [] })
half_text = refl

abbrev order : Order
order = record { focus = wall_time; inc = false }

abbrev entry : ℕ → Entry
entry idx = record {
  idx = idx;
  function = record { func_name = []; class_name = [] };
  stats = record { called = 1; max_cycle_depth = 0; inc = zero_values; exc = zero_values };
}

top_entries-First_example :
    In (entry 0) (top_entries order 1 (entry 1 ∷ entry 0 ∷ []))
    × (length (top_entries order 1 (entry 1 ∷ entry 0 ∷ [])) ≡ min 1 2)
top_entries-First_example =
    top_entries-First order (entry 0) 1 (entry 1 ∷ entry 0 ∷ []) (omega arith)
      (inr refl, (inl refl, _)) (inr (inl refl))

abbrev installed : SignalHandler
installed = (install true true Signals.create).1

run-deferred_example :
    IsRunning (run_signals (probe_begins ∷ signals (2 ∷ 15 ∷ [])) (running installed))
    × (run_signals ((probe_begins ∷ signals (2 ∷ 15 ∷ [])) ++ (probe_ends ∷ [])) (running installed)
        ≡ terminated 0)
run-deferred_example = run-deferred installed 2 (15 ∷ []) (refl, refl, refl)

abbrev empty_stack : CallStack ℕ
empty_stack = record { frames = λ i. 0; capacity = 4; depth = 0 }

abbrev context : Context ℕ
context = record {
  profiles = true;
  call_stack = none;
  profiler = none;
  has_reporter = false;
  report_key = [];
  span_depth = 0;
  request_shutdown = false;
  finished = [];
}

abbrev all_made : Made
all_made = record { reporter_made = true; key = []; tracer_made = true; sampler_made = true }

abbrev by_hand : Config
by_hand = record (init_config true) { auto_start = false }

-- A call before the start is replayed, and ends after it.
abbrev steps : List (Step ℕ)
steps = call 7 ∷ start_span all_made ∷ call 8 ∷ leave ∷ leave ∷ []

profile-Follows_example :
    Outcome Follows
      (init by_hand (done empty_stack) all_made context >>= λ c. run_steps by_hand steps c)
profile-Follows_example = profile-Follows by_hand empty_stack all_made context steps refl

-- A plugin with the key "a".
abbrev plugin : Plugin
plugin = record { key = 97 ∷ []; releasable = false; handler = 0 }

abbrev empty_registry : Registry
empty_registry =
    MetricRegistry.init true (record { metrics = []; capacity = 0; initialized = false })

register-Registers_example :
    Registers plugin empty_registry (register in_place plugin empty_registry)
register-Registers_example =
    register-Registers plugin (omega arith) in_place empty_registry (_, omega arith, omega arith)
      (inr _)

-- Directories and files under "a", with "a/b" there and nothing at "a/c".
abbrev root : Bytes
root = 97 ∷ []

abbrev file : Bytes
file = 97 ∷ 47 ∷ 98 ∷ []

abbrev files : FileSystem
files = record {
  stat = λ p. some directory;
  open_path = λ dir p. missing;
  realpath = λ p. some file;
}

abbrev flags : Bool → Flags
flags exist = record {
  allow_symlinks = exist;
  must_exist = exist;
  must_be_dir = false;
  must_be_file = false;
}

short : {p : Bytes} → some root ≡ some p → length p < path_max
short e = subst (λ p. length p < path_max) (same e) (omega arith)
  where
    same : {p : Bytes} → some root ≡ some p → root ≡ p
    same e = cc

validate_path-Confined_example :
    Outcome_path
      (Confined files (flags true) 4096 root)
      (validate_path files (flags true) 4096 (some (98 ∷ [])) (some root))
validate_path-Confined_example = validate_path-Confined files (flags true) 4096 refl (98 ∷ []) root

resolve_confined-Inside_example :
    Inside (λ p. some root) root (resolve_confined (λ p. some root) root (47 ∷ 98 ∷ []) none 4096)
resolve_confined-Inside_example =
    resolve_confined-Inside (λ p. some root) (λ s p e. short e) root (47 ∷ 98 ∷ []) none 4096
