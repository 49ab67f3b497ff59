-- ===== src/Tracer.antt =====
-- The tracing profiler of src/spx_profiler_tracer.c, with the events of src/spx_profiler.h.
-- The frames are a memory of cells, of which those below `capacity` are allocated. What a call
-- meets outside the program is its `Env`: the readings of the metrics at each collection, what the
-- reporter answers and whether allocations succeed. Where `spx_utils_die` ends the process a
-- function returns none. Messages to stderr are left out.
pub mod State
pub mod Frames
pub mod Settle
pub mod Books
pub mod Nesting
use php_spx.Prelude.{
  ℕ, zero, suc, ◌+◌, ◌-◌, Bool, true, false, not, ◌&&◌, List, [], ◌∷◌, Option, none, some,
  if◌then◌else◌, ◌==◌, ltb, update,
}
use php_spx.Prelude.Bytes.{Bytes}
use php_spx.Metric
use php_spx.Metric.{Metric, wall_time, cpu_time, Values, zero_values}
use php_spx.Metric.Collector
use php_spx.Metric.Collector.{Collector}
use php_spx.FuncTable
use php_spx.FuncTable.{Function, FuncTable, Entry, Stats, Memory, Run, ◌>>=◌}
use php_spx.HashMap.{HashMap}
use php_spx.StringPool.{Pool}
use php_spx.Prelude.Int.{pos}
use State.{Frame, EventKind, call_start, call_end, finalize, Event, Cost, light, heavy, Tracer, Env}
use Frames.{settle}

-- `spx_get_max_stack_depth()` and `spx_get_max_function_table_size()`, which do not change.
pub record Limits : Type 0 where
  pub stack_depth : ℕ
  pub function_table_size : ℕ

-- A cell of `calloc`.
abbrev pub null_frame : Frame
null_frame = record {
  func_table_entry = none;
  start_metric_values = zero_values;
  children_metric_values = zero_values;
  peak_metric_values = zero_values;
}

abbrev pub null_entry : Entry
null_entry = record {
  idx = 0;
  function = record { func_name = []; class_name = [] };
  stats = FuncTable.zero_stats;
}

-- The maximal depth that `spx_profiler_tracer_create` settles on.
unfoldable pub effective_depth : ℕ → ℕ → ℕ
effective_depth max_depth stack_capacity =
    if ltb 0 max_depth && ltb max_depth stack_capacity then max_depth else stack_capacity

-- `spx_profiler_tracer_create` where the hash map and the string pool have been allocated; `raw` is
-- what the collector reads.
unfoldable pub create : ℕ → (Metric → Bool) → Limits → Values → HashMap Function ℕ → Pool → Tracer
unfolding effective_depth
create max_depth enabled limits raw hmap pool = record {
  finalized = false;
  active = true;
  collector = Collector.create enabled raw;
  calibrated = false;
  call_start_noise = zero_values;
  call_end_noise = zero_values;
  silent = false;
  events = [];
  max_depth = effective_depth max_depth limits.stack_depth;
  called = 0;
  first_metric_values = zero_values;
  last_metric_values = zero_values;
  cum_metric_values = zero_values;
  max_metric_values = zero_values;
  depth = 0;
  capacity = limits.stack_depth;
  frames = λ i. null_frame;
  func_table = record {
    hmap = hmap;
    size = 0;
    capacity = limits.function_table_size;
    entries = λ i. null_entry;
  };
  string_pool = pool;
}

-- `fill_event`
abbrev pub fill_event :
    Tracer → EventKind → Option ℕ → Option ℕ → Option Values → Option Values → Event
fill_event p kind caller callee inc exc = record {
  kind = kind;
  called = p.called;
  max = p.max_metric_values;
  cum = p.cum_metric_values;
  table_size = p.func_table.size;
  table_capacity = p.func_table.capacity;
  depth = p.depth;
  caller = caller;
  callee = callee;
  inc = inc;
  exc = exc;
}

-- The call of `notify`, by the null reporter or by the reporter.
abbrev pub notify : Tracer → Event → Tracer
notify p event = record p { events = if p.silent then p.events else event ∷ p.events }

abbrev pub barrier_after : Bool → Cost → Collector → Values → Collector
barrier_after false heavy c raw = Collector.noise_barrier c raw
barrier_after _ _ c raw = c

-- The notification of a call's start or end, the noise barrier, and the fixed noise.
abbrev pub report : Env → Values → Event → Tracer → Tracer
report env fixed event p = record (notify p event) {
  collector =
      Collector.add_fixed_noise (barrier_after p.silent env.cost p.collector env.barrier) fixed;
}

-- The entry of the frame below, or NULL.
abbrev pub caller_of : Tracer → Option ℕ
caller_of p = if ltb 0 p.depth then (p.frames (p.depth - 1)).func_table_entry else none

-- `end:` of `tracing_profiler_call_start`
abbrev pub advance : Tracer → Tracer
advance p = record p { depth = p.depth + 1; active = ltb (p.depth + 1) p.max_depth }

-- The collection at a call's start, `cur` being what was collected.
abbrev pub observe_start : Collector → Values → Tracer → Tracer
observe_start c cur p =
    let first = if p.called == 0 then cur else p.first_metric_values in
    record p {
      collector = c;
      called = p.called + 1;
      first_metric_values = first;
      last_metric_values = cur;
      cum_metric_values = Metric.sub cur first;
      max_metric_values = Metric.max (if p.called == 0 then cur else p.max_metric_values) cur;
    }

-- The collection at a call's end.
abbrev pub observe_end : Collector → Values → Tracer → Tracer
observe_end c cur p = record p {
  collector = c;
  last_metric_values = cur;
  cum_metric_values = Metric.sub cur p.first_metric_values;
  max_metric_values = Metric.max p.max_metric_values cur;
}

abbrev pub started : ℕ → Values → Frame
started entry cur = record {
  func_table_entry = some entry;
  start_metric_values = cur;
  children_metric_values = zero_values;
  peak_metric_values = cur;
}

-- The frame of a call that starts, with the pointer that `func_table_get_entry` returned. On NULL
-- only the pointer is written.
unfoldable pub enter : Env → Values → Option ℕ → Tracer → Tracer
enter env cur none p = record p {
  frames = update p.frames p.depth (record (p.frames p.depth) { func_table_entry = none });
}
enter env cur (some entry) p =
    report env p.call_start_noise (fill_event p call_start (caller_of p) (some entry) none none)
      (record p { frames = update p.frames p.depth (started entry cur) })

-- The statistics of the entry of a call that ends.
abbrev pub counted : ℕ → Values → Values → Stats → Stats
counted cycle_depth inc exc s = record {
  called = s.called + 1;
  max_cycle_depth = if ltb s.max_cycle_depth cycle_depth then cycle_depth else s.max_cycle_depth;
  inc = if cycle_depth == 0 then Metric.add s.inc inc else s.inc;
  exc = if cycle_depth == 0 then Metric.add s.exc exc else s.exc;
}

abbrev pub count_call : ℕ → ℕ → Values → Values → FuncTable → FuncTable
count_call entry cycle_depth inc exc t = record t {
  entries =
      update t.entries entry
        (record (t.entries entry) { stats = counted cycle_depth inc exc (t.entries entry).stats });
}

-- The rest of `tracing_profiler_call_end` for the frame at the decremented depth, whose entry
-- pointer is given; `cur` is what was collected.
unfoldable pub leave : Env → Values → Option ℕ → Tracer → Tracer
unfolding settle
leave env cur none p = p
leave env cur (some entry) p =
    let frame = p.frames p.depth in
    let inc = Metric.sub cur frame.start_metric_values in
    let exc = Metric.sub inc frame.children_metric_values in
    let ended =
      update p.frames p.depth
        (record frame { peak_metric_values = Metric.max frame.peak_metric_values cur }) in
    let w =
      settle (p.depth - 1) entry inc exc p.depth (record { frames = ended; cycle_depth = 0 }) in
    let q = record p {
      frames = w.frames;
      func_table = count_call entry w.cycle_depth inc exc p.func_table;
    } in
    report env p.call_end_noise
      (fill_event q call_end (caller_of q) (some entry) (some inc) (some exc)) q

-- `tracing_profiler_call_end`
unfoldable pub end_call : Env → Tracer → Run Tracer
unfolding leave Collector.collect
end_call env p =
    if p.finalized
    then some p
    else if p.depth == 0
    then none
    else (let q = record p { depth = p.depth - 1; active = ltb (p.depth - 1) p.max_depth } in
        if q.active
        then (let (c, cur) = Collector.collect q.collector env.readings env.garbage in
            some (leave env cur (q.frames q.depth).func_table_entry (observe_end c cur q)))
        else some q)

-- `calibrate` runs both operations in loops of 50000 rounds. Its input is what each round meets,
-- and the two averages that it measures.
pub record Calibration : Type 0 where
  pub starts : List Env
  pub ends : List Env
  pub start_noise : ℕ
  pub end_noise : ℕ

-- An average as the noise of the two time metrics.
abbrev pub time_noise : ℕ → Values → Values
time_noise n v wall_time = pos n
time_noise n v cpu_time = pos n
time_noise n v i = v i

abbrev pub cap_depth : Tracer → Tracer
cap_depth p = record p { depth = if ltb 5 p.depth then 5 else p.depth }

-- The two loops of `calibrate`.
unfoldable pub end_rounds : List Env → Tracer → Run Tracer
end_rounds [] p = some p
end_rounds (env ∷ envs) p =
    end_call env p >>= λ q. end_rounds envs (record q { depth = q.depth + 1 })

module _ (zend_hash : Bytes → ℕ) where
  -- `tracing_profiler_call_start` from the collection on
  unfoldable pub record_start : Env → Tracer → Function → Run Tracer
  unfolding enter Collector.collect
  record_start env p f =
      let (c, cur) = Collector.collect p.collector env.readings env.garbage in
      let q = observe_start c cur p in
      FuncTable.get_entry zend_hash env.memory q.func_table f q.string_pool >>= λ (entry, t, pool).
      some (advance (enter env cur entry (record q { func_table = t; string_pool = pool })))

  -- `tracing_profiler_call_start` on a profiler that is calibrated
  unfoldable pub start_calibrated : Env → Tracer → Function → Run Tracer
  unfolding record_start
  start_calibrated env p f =
      if p.finalized then some p else if p.active then record_start env p f else some (advance p)

  unfoldable pub start_rounds : Function → List Env → Tracer → Run Tracer
  start_rounds f [] p = some p
  start_rounds f (env ∷ envs) p =
      start_calibrated env p f >>= λ q. start_rounds f envs (cap_depth q)

  -- `calibrate`
  unfoldable pub calibrate : Calibration → Tracer → Function → Run Tracer
  unfolding start_rounds end_rounds
  calibrate cal p f =
      start_rounds f cal.starts (record p { calibrated = true; silent = true }) >>= λ q.
      end_rounds cal.ends
        (record q { call_start_noise = time_noise cal.start_noise q.call_start_noise })
      >>= λ r. some (record r {
        call_end_noise = time_noise cal.end_noise r.call_end_noise;
        silent = p.silent;
        called = 0;
        depth = 0;
        func_table = FuncTable.reset r.func_table;
      })

  -- `tracing_profiler_call_start`
  unfoldable pub start_call : Calibration → Env → Tracer → Function → Run Tracer
  unfolding record_start calibrate
  start_call cal env p f =
      if p.finalized
      then some p
      else if p.active
      then ((if p.called == 0 && not p.calibrated then calibrate cal p f else some p) >>= λ q.
          record_start env q f)
      else some (advance p)

-- The loop of `tracing_profiler_finalize`; `envs n` is what the end of the call at depth `n` meets.
unfoldable pub unwind : (ℕ → Env) → ℕ → Tracer → Run Tracer
unfolding end_call
unwind envs zero p = some p
unwind envs (suc n) p =
    let rest = end_call (envs n) p >>= unwind envs n in if ltb 0 p.depth then rest else some p

-- `tracing_profiler_finalize`; the loop has as many rounds as the depth.
unfoldable pub finalize_all : (ℕ → Env) → Tracer → Run Tracer
unfolding unwind
finalize_all envs p = unwind envs p.depth (record p { active = true }) >>= λ q.
    let r = record q { finalized = true } in
    some (notify r (fill_event r finalize none none none none))
