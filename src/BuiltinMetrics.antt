-- ===== src/BuiltinMetrics.antt =====
-- The built-in metrics of src/spx_metric_builtin.c and the table made of them by `spx_metric_init`
-- of src/spx_metric.c, over the registry of src/spx_metric_registry.c. The handlers that read PHP or
-- the system are an argument, and an array indexed by the metrics is a function.
pub mod Lookup
pub mod Frozen
use php_spx.Prelude.{
  ℕ, ◌+◌, ◌-◌, ◌%◌, ◌^◌, Bool, true, false, Option, none, some, List, [], ◌∷◌, if◌then◌else◌, ◌==◌,
}
use php_spx.Prelude.Bytes.{Bytes}
use php_spx.Metric.{
  Metric, wall_time, cpu_time, idle_time, ze_memory_usage, ze_memory_alloc_count,
  ze_memory_alloc_bytes, ze_memory_free_count, ze_memory_free_bytes, ze_gc_runs, ze_gc_root_buffer,
  ze_gc_collected, ze_included_file_count, ze_included_line_count, ze_user_class_count,
  ze_user_function_count, ze_user_opcode_count, ze_object_count, ze_error_count, mem_own_rss,
  io_bytes, io_rbytes, io_wbytes, metrics, index, releasable,
}
use php_spx.FuncTable.{Run, ◌>>=◌}
use php_spx.MetricRegistry
use php_spx.MetricRegistry.{Realloc, Registry, Plugin, Info}

-- The key of a metric: "wt", "ct", "it", "zm", "zmac", and so on.
unfoldable pub key : Metric → Bytes
key wall_time = b'w' ∷ b't' ∷ []
key cpu_time = b'c' ∷ b't' ∷ []
key idle_time = b'i' ∷ b't' ∷ []
key ze_memory_usage = b'z' ∷ b'm' ∷ []
key ze_memory_alloc_count = b'z' ∷ b'm' ∷ b'a' ∷ b'c' ∷ []
key ze_memory_alloc_bytes = b'z' ∷ b'm' ∷ b'a' ∷ b'b' ∷ []
key ze_memory_free_count = b'z' ∷ b'm' ∷ b'f' ∷ b'c' ∷ []
key ze_memory_free_bytes = b'z' ∷ b'm' ∷ b'f' ∷ b'b' ∷ []
key ze_gc_runs = b'z' ∷ b'g' ∷ b'r' ∷ []
key ze_gc_root_buffer = b'z' ∷ b'g' ∷ b'b' ∷ []
key ze_gc_collected = b'z' ∷ b'g' ∷ b'c' ∷ []
key ze_included_file_count = b'z' ∷ b'i' ∷ b'f' ∷ []
key ze_included_line_count = b'z' ∷ b'i' ∷ b'l' ∷ []
key ze_user_class_count = b'z' ∷ b'u' ∷ b'c' ∷ []
key ze_user_function_count = b'z' ∷ b'u' ∷ b'f' ∷ []
key ze_user_opcode_count = b'z' ∷ b'u' ∷ b'o' ∷ []
key ze_object_count = b'z' ∷ b'o' ∷ []
key ze_error_count = b'z' ∷ b'e' ∷ []
key mem_own_rss = b'm' ∷ b'o' ∷ b'r' ∷ []
key io_bytes = b'i' ∷ b'o' ∷ []
key io_rbytes = b'i' ∷ b'o' ∷ b'r' ∷ []
key io_wbytes = b'i' ∷ b'o' ∷ b'w' ∷ []

-- The row of the table; a handler is named by its metric's place.
unfoldable pub plugin : Metric → Plugin
unfolding key releasable index
plugin i = record { key = key i; releasable = releasable i; handler = index i }

-- `memoized_metric_values`, none for a value that is not memoized
abbrev pub Memo : Type 0
Memo = Metric → Option ℕ

-- The static variables of the two files; an id is none for SPX_METRIC_ID_NONE, and a row of the
-- table is none where it was never filled.
pub record Builtin : Type 0 where
  pub registry : Registry
  pub ids : Metric → Option ℕ
  pub registered : Bool
  pub infos : Metric → Option Info
  pub initialized : Bool
  pub memo : Memo

-- Before the first call.
abbrev pub fresh : Builtin
fresh = record {
  registry = record { metrics = []; capacity = 0; initialized = false };
  ids = λ i. some 0;
  registered = false;
  infos = λ i. none;
  initialized = false;
  memo = λ i. none;
}

abbrev pub put_id : Metric → ℕ → (Metric → Option ℕ) → Metric → Option ℕ
put_id i id ids j = if index i == index j then some id else ids j

-- The loop that registers the metrics; `spx_fatal_error` ends the process where one is refused.
module _ (realloc : Realloc) where
  abbrev pub note_id : Metric → Option ℕ × Registry → Builtin → Run Builtin
  note_id i (none, r) b = none
  note_id i (some id, r) b = some (record b { registry = r; ids = put_id i id b.ids })

  abbrev pub register_each : List Metric → Builtin → Run Builtin
  register_each [] b = some b
  register_each (i ∷ is) b =
      note_id i (MetricRegistry.register realloc (plugin i) b.registry) b >>= λ b'.
      register_each is b'

  -- `spx_metric_builtin_register_all`
  unfoldable pub register_all : Builtin → Run Builtin
  unfolding plugin metrics index
  register_all b =
      if b.registered
      then some b
      else (register_each metrics (record b { ids = λ i. none }) >>= λ b'.
          some (record b' { registered = true }))

-- `spx_metric_builtin_get_registry_id`
unfoldable pub get_registry_id : Metric → Builtin → Option ℕ
get_registry_id i b = if b.registered then b.ids i else none

-- `spx_metric_builtin_get_info`
abbrev pub info_of : Option ℕ → Registry → Option Info
info_of none r = none
info_of (some id) r = MetricRegistry.get_info id r

unfoldable pub get_info : Metric → Builtin → Option Info
unfolding get_registry_id
get_info i b = info_of (get_registry_id i b) b.registry

-- The table keeps its row where the registry has none.
abbrev pub filled : Option Info → Option Info → Option Info
filled none old = old
filled (some info) old = some info

-- `spx_metric_init`, with the answers of malloc and realloc
unfoldable pub init : Bool → Realloc → Builtin → Run Builtin
unfolding register_all get_info
init granted realloc b =
    if b.initialized
    then some b
    else (register_all realloc (record b { registry = MetricRegistry.init granted b.registry })
        >>= λ b'.
            some
              (record b' { infos = λ i. filled (get_info i b') (b'.infos i); initialized = true }))

-- `spx_metric_shutdown`
unfoldable pub shutdown : Builtin → Builtin
shutdown b =
    if b.initialized
    then record b { registry = MetricRegistry.shutdown b.registry; initialized = false }
    else b

abbrev pub same_id : Option ℕ → ℕ → Bool
same_id none id = false
same_id (some n) id = n == id

-- The first metric that has the id.
abbrev pub metric_of : Builtin → ℕ → List Metric → Option Metric
metric_of b id [] = none
metric_of b id (i ∷ is) =
    let rest = metric_of b id is in if same_id (get_registry_id i b) id then some i else rest

abbrev pub metric_found : Builtin → Option ℕ → Option Metric
metric_found b none = none
metric_found b (some id) = metric_of b id metrics

-- `spx_metric_get_by_key`
unfoldable pub get_by_key : Bytes → Builtin → Option Metric
unfolding get_registry_id metrics
get_by_key k b =
    if b.initialized then metric_found b (MetricRegistry.get_by_key k b.registry) else none

-- What the world tells: the counters that a handler reads, and the bytes read and written.
pub record World : Type 0 where
  pub reads : ℕ → ℕ
  pub r_bytes : ℕ
  pub w_bytes : ℕ

abbrev pub memoize : Metric → ℕ → Builtin → Builtin
memoize i v b = record b { memo = λ j. if index i == index j then some v else b.memo j }

abbrev pub Reading : Type 0
Reading = ℕ × Builtin

abbrev pub handled : World → Metric → Option Info → Builtin → Reading
handled w i none b = (0, b)
handled w i (some info) b = (w.reads info.handler, memoize i (w.reads info.handler) b)

abbrev pub memo_or : Option ℕ → Reading → Builtin → Reading
memo_or none r b = r
memo_or (some v) r b = (v, b)

-- `memoized_metric_value`, which is called for the times, of which the handlers read the world, and
-- for the bytes once these are memoized
unfoldable pub memoized_metric_value : World → Metric → Builtin → Reading
unfolding get_info index
memoized_metric_value w i b = memo_or (b.memo i) (handled w i (get_info i b) b) b

-- `memoize_io_stats`
abbrev pub unless_memoized : Option ℕ → Builtin → Builtin → Builtin
unless_memoized none new old = new
unless_memoized (some v) new old = old

unfoldable pub memoize_io_stats : World → Builtin → Builtin
unfolding index
memoize_io_stats w b =
    unless_memoized (b.memo io_rbytes) (memoize io_wbytes w.w_bytes (memoize io_rbytes w.r_bytes b))
      b

-- size_t
abbrev pub size_max : ℕ
size_max = 2 ^ 64

abbrev pub then_read : Reading → (Builtin → Reading) → (ℕ → ℕ → ℕ) → Reading
then_read (a, b) next f = let (c, b') = next b in (f a c, b')

-- `metric_handler_idle_time`, `metric_handler_io_bytes`, `metric_handler_io_r_bytes` and
-- `metric_handler_io_w_bytes`
unfoldable pub idle_time_handler : World → Builtin → Reading
unfolding memoized_metric_value
idle_time_handler w b =
    then_read (memoized_metric_value w wall_time b) (memoized_metric_value w cpu_time)
      (λ wall cpu. (wall + size_max - cpu) % size_max)

unfoldable pub io_bytes_handler : World → Builtin → Reading
unfolding memoized_metric_value memoize_io_stats
io_bytes_handler w b =
    then_read (memoized_metric_value w io_rbytes (memoize_io_stats w b))
      (memoized_metric_value w io_wbytes) (λ read written. (read + written) % size_max)

unfoldable pub io_r_bytes_handler : World → Builtin → Reading
unfolding memoized_metric_value memoize_io_stats
io_r_bytes_handler w b = memoized_metric_value w io_rbytes (memoize_io_stats w b)

unfoldable pub io_w_bytes_handler : World → Builtin → Reading
unfolding memoized_metric_value memoize_io_stats
io_w_bytes_handler w b = memoized_metric_value w io_wbytes (memoize_io_stats w b)
