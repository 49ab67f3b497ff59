-- ===== src/Metric.antt =====
-- The metrics of src/spx_metric.h and their values (src/spx_metric_values.h, and the type
-- `spx_profiler_metric_values_t` of src/spx_profiler.h). A `double` is modelled by an integer: the
-- readings are counters converted from `size_t`, exact below 2 ^ 53. An array indexed by
-- `spx_metric_t` is a function, so a loop of SPX_METRIC_FOREACH is a definition at every metric.
pub mod Collector
pub mod Sums
use php_spx.Prelude.{ℕ, List, [], ◌∷◌, Bool, true, false, if◌then◌else◌}
use php_spx.Prelude.Int.{ℤ, pos, ltb_ℤ, ◌+ℤ◌, ◌-ℤ◌}

pub data Metric : Type 0 where
  wall_time cpu_time idle_time : Metric
  ze_memory_usage ze_memory_alloc_count ze_memory_alloc_bytes : Metric
  ze_memory_free_count ze_memory_free_bytes : Metric
  ze_gc_runs ze_gc_root_buffer ze_gc_collected : Metric
  ze_included_file_count ze_included_line_count : Metric
  ze_user_class_count ze_user_function_count ze_user_opcode_count : Metric
  ze_object_count ze_error_count : Metric
  mem_own_rss : Metric
  io_bytes io_rbytes io_wbytes : Metric

abbrev pub Values : Type 0
Values = Metric → ℤ

-- `spx_metric_values_zero`
abbrev pub zero_values : Values
zero_values i = pos 0

-- `spx_metric_values_add`
abbrev pub add : Values → Values → Values
add dest source i = dest i +ℤ source i

-- `spx_metric_values_sub`
abbrev pub sub : Values → Values → Values
sub dest source i = dest i -ℤ source i

-- `spx_metric_values_max`
abbrev pub max : Values → Values → Values
max dest source i = if ltb_ℤ (dest i) (source i) then source i else dest i

-- The flag `releasable` in the table of src/spx_metric_builtin.c: the metrics that may fall.
unfoldable pub releasable : Metric → Bool
releasable ze_memory_usage = true
releasable ze_gc_root_buffer = true
releasable ze_object_count = true
releasable mem_own_rss = true
releasable _ = false

-- The place of a metric in the enumeration.
unfoldable pub index : Metric → ℕ
index wall_time = 0
index cpu_time = 1
index idle_time = 2
index ze_memory_usage = 3
index ze_memory_alloc_count = 4
index ze_memory_alloc_bytes = 5
index ze_memory_free_count = 6
index ze_memory_free_bytes = 7
index ze_gc_runs = 8
index ze_gc_root_buffer = 9
index ze_gc_collected = 10
index ze_included_file_count = 11
index ze_included_line_count = 12
index ze_user_class_count = 13
index ze_user_function_count = 14
index ze_user_opcode_count = 15
index ze_object_count = 16
index ze_error_count = 17
index mem_own_rss = 18
index io_bytes = 19
index io_rbytes = 20
index io_wbytes = 21

-- The metrics in the order of a loop of SPX_METRIC_FOREACH.
unfoldable pub metrics : List Metric
metrics =
    wall_time ∷ cpu_time ∷ idle_time ∷ ze_memory_usage ∷ ze_memory_alloc_count
    ∷ ze_memory_alloc_bytes ∷ ze_memory_free_count ∷ ze_memory_free_bytes ∷ ze_gc_runs
    ∷ ze_gc_root_buffer ∷ ze_gc_collected ∷ ze_included_file_count ∷ ze_included_line_count
    ∷ ze_user_class_count ∷ ze_user_function_count ∷ ze_user_opcode_count ∷ ze_object_count
    ∷ ze_error_count ∷ mem_own_rss ∷ io_bytes ∷ io_rbytes ∷ io_wbytes ∷ []
