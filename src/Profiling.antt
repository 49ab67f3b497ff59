-- ===== src/Profiling.antt =====
-- The profiling handler of src/php_spx.c, and the end of the request in src/spx_php.c that it depends
-- on, for a build without signals (that with ZTS). The profiler is the list of the calls that it was
-- told of, latest first; what the constructors of the other files answer is an argument. none
-- stands for spx_utils_die.
pub mod Stacks
pub mod Follows
use php_spx.Prelude.{
  ℕ, zero, suc, ◌+◌, ◌-◌, Bool, true, false, ◌&&◌, not, Option, none, some, List, [], ◌∷◌,
  if◌then◌else◌, ltb, ◌==◌, take,
}
use php_spx.Prelude.Bytes.{Bytes}
use php_spx.CallStack
use php_spx.CallStack.{CallStack, Answer, done, failed, depth as stack_depth}
use php_spx.Config.{Config}
use php_spx.FuncTable.{Run, ◌>>=◌}
use php_spx.Session.{Report, full, flat_profile, trace}

pub data CallEvent (F : Type 0) : Type 0 where
  started : F → CallEvent F
  ended : CallEvent F

-- The fields of `context` that the handler keeps, the flag `request_shutdown` of spx_php.c, and the
-- lists of the profilers that were finalized. `profiles` says that the execution handler of the
-- request is the profiling handler.
pub record Context (F : Type 0) : Type 0 where
  pub profiles : Bool
  pub call_stack : Option (CallStack F)
  pub profiler : Option (List (CallEvent F))
  pub has_reporter : Bool
  pub report_key : Bytes
  pub span_depth : ℕ
  pub request_shutdown : Bool
  pub finished : List (List (CallEvent F))

-- What the constructors answer: the reporter, the key of a full report, the tracer, the sampler.
pub record Made : Type 0 where
  pub reporter_made : Bool
  pub key : Bytes
  pub tracer_made : Bool
  pub sampler_made : Bool

-- The key of a full report, in a buffer of 512 bytes.
abbrev pub report_key_of : Report → Made → Bytes
report_key_of full made = if made.reporter_made then take 511 made.key else []
report_key_of flat_profile made = []
report_key_of trace made = []

module _ {F : Type 0} where
  abbrev pub tell : CallEvent F → Option (List (CallEvent F)) → Option (List (CallEvent F))
  tell event none = none
  tell event (some log) = some (event ∷ log)

  abbrev pub pushed : Answer (CallStack F) → F → Context F → Run (Context F)
  pushed (failed e) function c = none
  pushed (done s) function c =
      some (record c { call_stack = some s; profiler = tell (started function) c.profiler })

  -- `profiling_handler_ex_hook_before`
  abbrev pub hook_before : F → Context F → Run (Context F)
  hook_before function c =
      if CallStack.is_full c.call_stack
      then none
      else pushed (CallStack.push c.call_stack (some function)) function c

  abbrev pub popped : Answer (F × CallStack F) → Context F → Run (Context F)
  popped (failed e) c = none
  popped (done (f, s)) c = some (record c { call_stack = some s; profiler = tell ended c.profiler })

  -- `profiling_handler_ex_hook_after`
  abbrev pub hook_after : Context F → Run (Context F)
  hook_after c = popped (CallStack.pop c.call_stack) c

  abbrev pub finish :
      Option (List (CallEvent F)) → List (List (CallEvent F)) → List (List (CallEvent F))
  finish none finished = finished
  finish (some log) finished = log ∷ finished

  abbrev pub destroyed : Context F → Context F
  destroyed c = record c {
    profiler = none;
    has_reporter = false;
    finished = finish c.profiler c.finished;
  }

  abbrev pub has_profiler : Context F → Bool
  has_profiler c = elim c.profiler [ none ↦ false | some log ↦ true ]

  -- The replay of the first n frames of the call stack.
  abbrev pub replay_frame : Answer F → Context F → Context F
  replay_frame (failed e) c = c
  replay_frame (done f) c = record c { profiler = tell (started f) c.profiler }

  abbrev pub replay : ℕ → Context F → Context F
  replay zero c = c
  replay (suc n) c = replay_frame (CallStack.get_frame_at c.call_stack n) (replay n c)

  module _ (config : Config) where
    -- `spx_php_execution_finalize`
    abbrev pub execution_finalize : Context F → Run (Context F)
    execution_finalize c =
        if c.request_shutdown
        then (if config.builtins then hook_after c else some c)
          >>= (λ c. some (record c { request_shutdown = false }))
        else some c

    -- The hook of the end of the request, where no user function runs.
    abbrev pub request_shutdown : F → Context F → Run (Context F)
    request_shutdown function c =
        if c.request_shutdown
        then some c
        else (let begun = record c { request_shutdown = true } in
            if config.builtins then hook_before function begun else some begun)

    -- `profiling_handler_stop`
    abbrev pub stop : Context F → Run (Context F)
    stop c = execution_finalize c >>= λ c. some (destroyed c)

    abbrev pub make_profiler : Made → Context F → Run (Context F)
    make_profiler made c =
        if made.reporter_made && made.tracer_made
        then (let traced = record c { profiler = some [] } in
            if ltb 0 config.sampling_period && not made.sampler_made
            then stop traced
            else some traced)
        else stop c

    -- `profiling_handler_start`
    abbrev pub start : Made → Context F → Run (Context F)
    start made c =
        if has_profiler c
        then some c
        else make_profiler made (record c {
          report_key = report_key_of config.report made;
          has_reporter = made.reporter_made;
        })

    -- `profiling_handler_init`, where spx_php_execution_init resets the flag of the shutdown
    abbrev pub init : Answer (CallStack F) → Made → Context F → Run (Context F)
    init (failed e) made c = some (record c { call_stack = none })
    init (done s) made c =
        let fresh = record c {
          call_stack = some s;
          request_shutdown = false;
          report_key = [];
          has_reporter = false;
          profiler = none;
          span_depth = 0;
        } in
        if config.auto_start then start made fresh else some fresh

    -- `profiling_handler_shutdown`
    abbrev pub shutdown : Context F → Run (Context F)
    shutdown c = stop c >>= λ c. some (record c { call_stack = none })

    -- `spx_profiler_start`
    abbrev pub profiler_start : Made → Context F → Run (Context F)
    profiler_start made c =
        if not c.profiles
        then some c
        else (if config.auto_start
            then some c
            else (let entered = record c { span_depth = c.span_depth + 1 } in
                if ltb 1 entered.span_depth
                then some entered
                else (if has_profiler entered
                    then some entered
                    else start made entered >>= λ c. some (replay (stack_depth c.call_stack) c))))

    -- `spx_profiler_stop`, without the report key that it returns
    abbrev pub profiler_stop : Context F → Run (Context F)
    profiler_stop c =
        if not c.profiles
        then some c
        else (if config.auto_start
            then some c
            else (if c.span_depth == 0
                then some c
                else (let left = record c { span_depth = c.span_depth - 1 } in
                    if ltb 0 left.span_depth then some left else stop left)))
