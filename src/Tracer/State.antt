-- ===== src/Tracer/State.antt =====
-- The state of the tracing profiler: `stack_frame_t` and `tracing_profiler_t` of
-- src/spx_profiler_tracer.c, `spx_profiler_event_t` of src/spx_profiler.h.
use php_spx.Prelude.{ℕ, Bool, List, Option}
use php_spx.Metric.{Values}
use php_spx.Metric.Collector.{Collector}
use php_spx.FuncTable.{FuncTable, Memory}
use php_spx.StringPool.{Pool}

-- `stack_frame_t`; the entry pointer is an index, or none for NULL
pub record Frame : Type 0 where
  pub func_table_entry : Option ℕ
  pub start_metric_values : Values
  pub children_metric_values : Values
  pub peak_metric_values : Values

-- `spx_profiler_event_type_t`
pub data EventKind : Type 0 where
  call_start call_end finalize : EventKind

-- `spx_profiler_event_t`, without the pointers to the enabled metrics and to the table's entries
pub record Event : Type 0 where
  pub kind : EventKind
  pub called : ℕ
  pub max : Values
  pub cum : Values
  pub table_size : ℕ
  pub table_capacity : ℕ
  pub depth : ℕ
  pub caller : Option ℕ
  pub callee : Option ℕ
  pub inc : Option Values
  pub exc : Option Values

-- `spx_profiler_reporter_cost_t`
pub data Cost : Type 0 where
  light heavy : Cost

-- `tracing_profiler_t`. `silent` says that the reporter is the null reporter of `calibrate`; the
-- events that the other reporter was given are listed newest first.
pub record Tracer : Type 0 where
  pub finalized : Bool
  pub active : Bool
  pub collector : Collector
  pub calibrated : Bool
  pub call_start_noise : Values
  pub call_end_noise : Values
  pub silent : Bool
  pub events : List Event
  pub max_depth : ℕ
  pub called : ℕ
  pub first_metric_values : Values
  pub last_metric_values : Values
  pub cum_metric_values : Values
  pub max_metric_values : Values
  pub depth : ℕ
  pub capacity : ℕ
  pub frames : ℕ → Frame
  pub func_table : FuncTable
  pub string_pool : Pool

-- What one call meets: the readings when it collects, what the local array held before, the
-- reporter's answer, the readings at the noise barrier, and the allocations.
pub record Env : Type 0 where
  pub readings : Values
  pub garbage : Values
  pub cost : Cost
  pub barrier : Values
  pub memory : Memory
