-- ===== src/Tests/Reports.antt =====
-- The theorems on the full reporter (src/spx_reporter_full.c), its numbers
-- (src/spx_str_builder.c), the built-in metrics (src/spx_metric_builtin.c), the safe strings
-- (src/infrastructure/string/spx_string_safe.c) and the table of the reporter factory
-- (src/spx_reporter_factory.c) at small inputs.
use php_spx.Prelude.{
  ℕ, zero, suc, ◌+◌, ◌*◌, ◌≡◌, refl, ap, ◌↔◌, Bool, true, false, List, [], ◌∷◌, Option, none, some,
  length, arith,
}
use php_spx.Prelude.Bytes.{Bytes, decimal}
use php_spx.Prelude.Int.{ℤ, pos, negsuc}
use php_spx.Metric.{Metric, index, cpu_time, metrics, wall_time, zero_values}
use php_spx.FuncTable.{Function}
use php_spx.Tracer.State.{EventKind, Event, call_start, call_end, finalize}
use php_spx.StrBuilder.{create, digits, decimals}
use php_spx.StrBuilder.Rounds.{rounds-enough}
use php_spx.JsonEscape.{escaped_char}
use php_spx.JsonEscape.RoundTrip.{unescape, escaped_text}
use php_spx.FullReporter.{BufferEntry, Reporter, made, append_entry, print_entries, Printing}
use php_spx.FullReporter.Saving.{Metadata, save_text, set_custom_metadata_str}
use php_spx.FullReporter.Texts.{
  Writable, AllEscaped, save_text-written_iff, set_custom_metadata_str-ends,
}
use php_spx.FullReporter.Entries.{AllCalls}
use php_spx.FullReporter.Log.{told, Logged, told-Logged}
use php_spx.FullReporter.Bounds.{Bounded, flush-Bounded}
use php_spx.MetricRegistry.{in_place, Info}
use php_spx.Prelude.{◌≢◌, ◌==◌, if◌then◌else◌}
use php_spx.BuiltinMetrics.{Builtin, get_info, fresh, key, init, World}
use php_spx.BuiltinMetrics.Lookup.{looked_up, init-get_by_key}
use php_spx.BuiltinMetrics.Frozen.{
  Happening, reads, initializes, shuts_down, idle_time, io_bytes, answer, measured, Answers, run,
  handlers-frozen,
}
use php_spx.SafeStrings.{concat_safe, sanitize_json}
use php_spx.SafeStrings.Copies.{Joins, concat_safe-Joins}
use php_spx.SafeStrings.Json.{keep, sanitize_json-reads}
use php_spx.ReporterFactory.{Custom, register}
use php_spx.ReporterFactory.Registry.{Accepts, IsSound, register-IsSound}

abbrev metadata : Metadata
metadata = record {
  key = 107 ∷ [];
  exec_ts = 7;
  hostname = 104 ∷ [];
  process_pid = 1;
  process_tid = 1;
  process_pwd = 47 ∷ [];
  cli = true;
  cli_command_line = 34 ∷ [];
  http_request_uri = [];
  http_method = [];
  http_host = [];
  custom_metadata_str = none;
  wall_time_ms = 0;
  peak_memory_usage = 0;
  called_function_count = 0;
  call_count = 0;
  recorded_call_count = 0;
  enabled_metrics = λ i. true;
}

metadata-Writable : Writable metadata
unfolding escaped_text escaped_char
metadata-Writable =
    (omega arith, omega arith, omega arith, omega arith, omega arith, omega arith, omega arith, _)

save_text-written_iff_example : ((t : Bytes) × (save_text metadata ≡ some t)) ↔ Writable metadata
save_text-written_iff_example = save_text-written_iff metadata

-- A text of quotes.
abbrev quotes : ℕ → Bytes
quotes zero = []
quotes (suc n) = 34 ∷ quotes n

length-quotes : (n : ℕ) → length (quotes n) ≡ n
length-quotes zero = refl
length-quotes (suc n) = ap suc (length-quotes n)

quotes-AllEscaped : (n : ℕ) → AllEscaped (quotes n)
unfolding escaped_char
quotes-AllEscaped zero = _
quotes-AllEscaped (suc n) = (omega arith, quotes-AllEscaped n)

set_custom_metadata_str-ends_example :
    save_text (set_custom_metadata_str true (quotes 4096) metadata) ≡ none
set_custom_metadata_str-ends_example =
    set_custom_metadata_str-ends metadata (quotes 4096) (length-quotes 4096)
      (quotes-AllEscaped 4096)

abbrev RoundsAt : ℕ → ℕ → ℕ → Type 0
RoundsAt k more v =
    (digits (k + more) 8 v [] ≡ digits k 8 v [])
    × (digits v 8 v [] ≡ digits k 8 v [])
    × (decimals (k + more) 8 4 0 v [] ≡ decimals k 8 4 0 v [])
    × (decimals v 8 4 0 v [] ≡ decimals k 8 4 0 v [])

rounds-enough_example : RoundsAt 2 3 57
rounds-enough_example = rounds-enough 2 3 8 4 57 [] (omega arith)

init-get_by_key_example :
    (init false in_place fresh ≡ none)
    × (init true in_place fresh ≢ none)
    × ((looked_up (119 ∷ 116 ∷ []) (init true in_place fresh) ≡ some (some wall_time))
        ↔ (119 ∷ 116 ∷ [] ≡ key wall_time))
init-get_by_key_example = init-get_by_key in_place (119 ∷ 116 ∷ []) wall_time

abbrev world : ℕ → World
world n = record { reads = λ i. if i == 0 then 3 * n else n; r_bytes = n; w_bytes = 2 * n }

-- The metrics of the times, once they are registered.
abbrev info : ℕ → Info
info n = record { id = n; key = 119 ∷ n ∷ []; releasable = false; handler = n }

abbrev registered : Builtin
registered = record fresh {
  registry = record { metrics = info 0 ∷ info 1 ∷ []; capacity = 32; initialized = true };
  ids = λ i. some (if index i == 0 then 0 else 1);
  registered = true;
  initialized = true;
}

registered-times :
    (get_info wall_time registered ≡ some (info 0)) × (get_info cpu_time registered ≡ some (info 1))
unfolding get_info index
registered-times = (refl, refl)

abbrev history : List Happening
history =
    reads io_bytes (world 6)
    ∷ shuts_down
    ∷ initializes true in_place
    ∷ reads idle_time (world 7)
    ∷ []

handlers-frozen_example :
    ((answer idle_time (world 5) registered).0 ≡ measured (info 0) (info 1) idle_time (world 5))
    × Answers idle_time
        (measured (info 0) (info 1) idle_time (world 5))
        (run history (answer idle_time (world 5) registered).1)
handlers-frozen_example =
    handlers-frozen (info 0) (info 1) registered registered-times (λ i. refl) idle_time (world 5)
      history

sanitize_json-reads_example :
    (t : Bytes) × (sanitize_json 8 (some (34 ∷ 7 ∷ 10 ∷ [])) ≡ some t)
    × (unescape t ≡ some (keep (34 ∷ 7 ∷ 10 ∷ [])))
sanitize_json-reads_example = sanitize_json-reads 8 (34 ∷ 7 ∷ 10 ∷ []) (omega arith) (omega arith)

concat_safe-Joins_example :
    Joins 4
      (65 ∷ [])
      (66 ∷ 67 ∷ 68 ∷ [])
      (concat_safe (65 ∷ 0 ∷ 9 ∷ 9 ∷ []) (some (66 ∷ 67 ∷ 68 ∷ [])))
concat_safe-Joins_example =
    concat_safe-Joins (65 ∷ 0 ∷ 9 ∷ 9 ∷ []) (65 ∷ []) (66 ∷ 67 ∷ 68 ∷ []) refl

abbrev row : ℕ → ℕ → Custom
row type factory = record { info_type = type; factory = factory }

abbrev customs : List Custom
customs = row 7 1 ∷ []

named : (c : Custom) → some (row 8 2) ≡ some c → c.info_type ≡ 8
named c e = cc

register-IsSound_example :
    IsSound (register 8 (some (row 8 2)) customs).customs
    × Accepts 8 (some (row 8 2)) customs (register 8 (some (row 8 2)) customs)
register-IsSound_example =
    register-IsSound 8 (some (row 8 2)) customs named ((refl, omega arith, _), omega arith)

abbrev only_wall_time : Metric → Bool
only_wall_time wall_time = true
only_wall_time i = false

abbrev event : EventKind → Option ℕ → Event
event kind callee = record {
  kind = kind;
  called = 1;
  max = zero_values;
  cum = λ i. pos 12;
  table_size = 1;
  table_capacity = 4;
  depth = 0;
  caller = none;
  callee = callee;
  inc = none;
  exc = none;
}

abbrev garbage : ℕ → BufferEntry
garbage i = record { function_idx = i; start = true; metric_values = zero_values }

abbrev functions : List Function
functions = []

abbrev calls : List Event
calls = event call_end (some 0) ∷ event call_start (some 0) ∷ []

calls-AllCalls : AllCalls only_wall_time calls
unfolding decimal metrics
calls-AllCalls = (
  (cc, cc, (λ i q. (refl, omega arith), omega arith)),
  ((cc, cc, (λ i q. (refl, omega arith), omega arith)), _),
)

-- An arithmetic without rounding.
abbrev exactly : ℤ → ℤ
exactly (pos n) = pos (n * 10000)
exactly (negsuc n) = negsuc (n * 10000 + 9998)

told-Logged_example :
    (r : Reporter) × (told exactly only_wall_time functions 4 true
        (event finalize none ∷ calls)
        (made metadata garbage)
      ≡ some r)
    × Logged exactly only_wall_time functions 4 true calls r
told-Logged_example =
    told-Logged exactly only_wall_time functions 4 true (λ n q. refl) metadata garbage
      metadata-Writable (event finalize none) calls refl calls-AllCalls

abbrev printing : Printing
printing = record { builder = create 8192; printed = [] }

flush-Bounded_example :
    Bounded 8192 (print_entries exactly only_wall_time 3 garbage printing).builder
    × Bounded 8192 (
        append_entry exactly only_wall_time
          (garbage 5)
          (print_entries exactly only_wall_time 3 garbage printing).builder)
flush-Bounded_example =
    flush-Bounded exactly only_wall_time 8192 3 garbage (garbage 5) printing (omega arith, refl)
