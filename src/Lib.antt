-- ===== src/Lib.antt =====
-- A verification library for SPX, a profiler for PHP.
--
-- The program and its parts. The PHP engine tells a profiler of each start and end of a function.
-- The tracing profiler (src/spx_profiler_tracer.c) reads the metrics (src/spx_metric.c), keeps a
-- stack of frames and a table of functions (over src/spx_hmap.c and src/spx_string_pool.c), and
-- notifies a reporter of events; the sampling profiler (src/spx_profiler_sampler.c) stands before
-- it and passes on what changed since the last beat of its thread; the session
-- (src/spx_session.c) makes and destroys them. At the beginning of a request src/php_spx.c reads
-- the configuration (src/spx_config.c), checks by address and key whether the client may have it
-- so, and picks the handler; the profiling handler keeps the call stack (src/spx_call_stack.c) and
-- starts and stops the profiler.
--
-- The files.
--   Prelude            names and lemmas that the other files share: lists, integers, byte strings
--   HashMap            src/spx_hmap.c: Bucket is a chain of blocks of four entries, HashMap the
--                      array of chains; Laws reads a map as a function from keys to values
--   StringPool         src/spx_string_pool.c: spx_string_pool_create, _intern, _stats
--   FuncTable          func_table_t of src/spx_profiler_tracer.c: func_table_get_entry and _reset
--   Metric             src/spx_metric.h, src/spx_metric_values.h; Metric/Collector src/spx_metric.c
--   Tracer             src/spx_profiler_tracer.c: start_call and end_call are
--                      tracing_profiler_call_start and _call_end, finalize_all is
--                      tracing_profiler_finalize, calibrate is calibrate; State has the records,
--                      Frames the loop over the parent frames, Settle its effect, and Books the
--                      balance of exclusive and inclusive values, kept by each operation; Nesting
--                      reads the events as calls that open and close
--   Sampler            src/spx_profiler_sampler.c; Interleavings has the heartbeat as a step,
--                      Faithful reads the frames where no two have the same hash code
--   TraceReporter      src/spx_reporter_trace.c: trace_notify and flush_buffer
--   CallStack          src/spx_call_stack.c, against a list of bounded length
--   Session            src/spx_session.c: start, stop, destroy, and the getters
--   JsonEscape         spx_utils_json_escape of src/spx_utils.c
--   Alloc              src/infrastructure/memory/spx_alloc_safe.c
--   Tokens             SPX_UTILS_TOKENIZE_STRING of src/spx_utils.h, against a plain split
--   Network            spx_utils_ip_match of src/spx_utils.c; Mask has the arithmetic of the masks
--   Crypto             spx_crypto_compare_strings_constant_time of
--                      src/infrastructure/security/spx_security_crypto.c
--   Validation         spx_parse_long, spx_parse_size_t and spx_validate_string of
--                      src/infrastructure/security/spx_security_validation.c
--   Config             spx_config_get of src/spx_config.c; Builder is src/spx_config_builder.c
--   Access             check_access and PHP_RINIT_FUNCTION(spx) of src/php_spx.c, over the five above
--   Profiling          the profiling handler of src/php_spx.c over CallStack: init, shutdown, start,
--                      stop, hook_before, hook_after, profiler_start and profiler_stop
--   Signals            src/spx_signal_handler.c; Deferral has the probes of the hooks as steps
--   FlatProfile        src/spx_reporter_fp.c: entry_cmp_r, the selection in print_report, fp_notify
--   StrBuilder         src/spx_str_builder.c; Digits and Decimal read the text of a number back,
--                      Rounds has the end of the loops, Bounds the capacity
--   MetricRegistry     src/spx_metric_registry.c
--   Paths              spx_validate_path of src/infrastructure/security/spx_security_validation.c and
--                      spx_utils_resolve_confined_file_absolute_path of src/spx_utils.c
--   FullReporter       src/spx_reporter_full.c: full_notify, flush_buffer, finalize; Saving is
--                      metadata_save, Texts says when it ends the process, Lines what is printed,
--                      Reading reads it back, Log a whole run, Bounds the builder
--   BuiltinMetrics     src/spx_metric_builtin.c with spx_metric_init, _shutdown and _get_by_key of
--                      src/spx_metric.c
--   SafeStrings        src/infrastructure/string/spx_string_safe.c
--   Limits             src/spx_limits.c; Created makes a profiler with them
--   ReporterFactory    src/spx_reporter_factory.c
--   Tests              the theorems at concrete inputs
--
-- How the code is modelled. Each operation is a function on a record of the state. Where
-- spx_utils_die ends the process it returns none. The outside world is an argument: whether an
-- allocation succeeds, what a metric reads, what a reporter answers, what a constructor returns,
-- and the hash function of PHP. A fixed array that the code indexes is a function on indices with
-- its capacity beside it. A double is an integer, exact for counters below 2 ^ 53; where
-- the code rounds a product of doubles to a long, that arithmetic is an argument. The loops are
-- structural: the search of a chain recurs on the chain, the loop over the parent frames on the
-- depth, the unwinding at the end on the depth it starts from, the rounds of the calibration on the
-- list of what each round meets, the search for the common stack on the frames that are left; none
-- of them runs out. The digits of a number recur on fuel, which is the number itself: it falls at
-- each division by 10. The parsers of the C library (strtol, inet_addr), the superglobals of PHP and
-- the lookup of a metric by its key in the configuration are arguments, and so are the environment
-- and the file system.
--
-- Not modelled: destructors that only release memory, messages on stderr, formatting and output
-- streams, the glue to the PHP engine and the web UI, the reading of the system, the errors and
-- the execution context.
pub mod Prelude
pub mod HashMap
pub mod StringPool
pub mod FuncTable
pub mod Metric
pub mod Tracer
pub mod Sampler
pub mod CallStack
pub mod TraceReporter
pub mod JsonEscape
pub mod Session
pub mod Alloc
pub mod Tests
pub mod Tokens
pub mod Crypto
pub mod Network
pub mod Validation
pub mod Config
pub mod Limits
pub mod Access
pub mod FlatProfile
pub mod StrBuilder
pub mod Signals
pub mod Profiling
pub mod MetricRegistry
pub mod Paths
pub mod FullReporter
pub mod ReporterFactory
pub mod SafeStrings
pub mod BuiltinMetrics
