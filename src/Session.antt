-- ===== src/Session.antt =====
-- The profiling session of src/spx_session.c. The objects that it makes are counted: `made` and
-- `destroyed` are the profilers and reporters made and destroyed so far, a sampler and the tracer in
-- it being two. Reporters are named by a number. What the constructors of the other files answer
-- is an argument. A session pointer that is NULL is none.
pub mod Lifecycle
use php_spx.Prelude.{
  ℕ, zero, suc, ◌+◌, ◌-◌, Bool, true, false, List, [], ◌∷◌, Option, none, some, if◌then◌else◌, ltb,
  take,
}
use php_spx.Prelude.Bytes.{Bytes}

abbrev pub report_key_size : ℕ
report_key_size = 512

-- `spx_config_report_t`
pub data Report : Type 0 where
  full flat_profile trace : Report

-- The fields of `spx_config_t` that the session itself reads.
pub record Config : Type 0 where
  pub report : Report
  pub sampling_period : ℕ

-- A tracer, or a sampler that wraps it.
pub data Profiler : Type 0 where
  tracer : Profiler
  sampler : Profiler → Profiler

-- `spx_session_t`
pub record Session : Type 0 where
  pub config : Config
  pub profiler : Option Profiler
  pub reporter : Option ℕ
  pub report_key : Bytes
  pub is_active : Bool
  pub made : ℕ
  pub destroyed : ℕ

-- What the constructors answer: the reporter, the key of a full report, the two profilers.
pub record Answers : Type 0 where
  pub reporter : Option ℕ
  pub key : Option Bytes
  pub tracer_made : Bool
  pub sampler_made : Bool

-- The codes of `spx_error_set`, with the messages that tell them apart.
pub data SessionError : Type 0 where
  null_session no_reporter no_profiler no_sampler not_active not_full : SessionError

pub data Outcome : Type 0 where
  success : Outcome
  failure : SessionError → Outcome

-- `spx_session_create` where the allocation is granted.
abbrev pub create : Config → Session
create config = record {
  config = config;
  profiler = none;
  reporter = none;
  report_key = [];
  is_active = false;
  made = 0;
  destroyed = 0;
}

-- How many objects a pointer owns; the sampler owns the profiler that it samples.
abbrev pub objects_of : Profiler → ℕ
objects_of tracer = 1
objects_of (sampler p) = objects_of p + 1

abbrev pub profilers : Option Profiler → ℕ
profilers none = 0
profilers (some p) = objects_of p

abbrev pub reporters : Option ℕ → ℕ
reporters none = 0
reporters (some r) = 1

-- The two cleanups that `error:` of `spx_session_start` and `spx_session_stop` share.
abbrev pub cleanup : Session → Session
cleanup s = record s {
  profiler = none;
  reporter = none;
  destroyed = s.destroyed + profilers s.profiler + reporters s.reporter;
}

-- The key of a full report, cut to the array.
abbrev pub key_of : Report → Option ℕ → Option Bytes → Bytes
key_of full (some r) (some key) = take (report_key_size - 1) key
key_of _ reporter key = []

-- `spx_session_start` from the sampler on
abbrev pub wrap : Answers → Profiler → Session → Outcome × Session
wrap a p s =
    if ltb 0 s.config.sampling_period
    then (if a.sampler_made
        then (
          success,
          record s { profiler = some (sampler p); is_active = true; made = s.made + 1 },
        )
        else (failure no_sampler, cleanup s))
    else (success, record s { is_active = true })

-- `spx_session_start` from the tracer on
abbrev pub attach : Answers → Session → Outcome × Session
attach a s =
    if a.tracer_made
    then wrap a tracer (record s { profiler = some tracer; made = s.made + 1 })
    else (failure no_profiler, cleanup s)

-- The reporter that `spx_session_start` makes, and the key that it copies.
abbrev pub with_reporter : Answers → Session → Session
with_reporter a s = record s {
  reporter = a.reporter;
  report_key = key_of s.config.report a.reporter a.key;
  made = s.made + reporters a.reporter;
}

abbrev pub report_or_fail : Option ℕ → Answers → Session → Outcome × Session
report_or_fail none a s = (failure no_reporter, cleanup s)
report_or_fail (some r) a s = attach a s

-- `spx_session_start` on a session
unfoldable pub start : Answers → Session → Outcome × Session
start a s = if s.is_active then (success, s) else report_or_fail a.reporter a (with_reporter a s)

-- `spx_session_stop` on a session
unfoldable pub stop : Session → Session
stop s = if s.is_active then record (cleanup s) { report_key = []; is_active = false } else s

-- `spx_session_destroy`, up to the release of the session itself
unfoldable pub destroy : Session → Session
unfolding stop
destroy s = if s.is_active then stop s else s

-- `spx_session_get_profiler`, `spx_session_get_reporter` and `spx_session_get_report_key`
abbrev pub get_profiler : Option Session → Option Profiler
get_profiler none = none
get_profiler (some s) = if s.is_active then s.profiler else none

abbrev pub get_reporter : Option Session → Option ℕ
get_reporter none = none
get_reporter (some s) = if s.is_active then s.reporter else none

abbrev pub nonempty : Bytes → Option Bytes
nonempty [] = none
nonempty (c ∷ cs) = some (c ∷ cs)

abbrev pub get_report_key : Option Session → Option Bytes
get_report_key none = none
get_report_key (some s) = if s.is_active then nonempty s.report_key else none

-- `spx_session_set_custom_metadata`: the reporter whose metadata is set.
unfoldable pub set_custom_metadata : Option Session → Outcome × Option ℕ
set_custom_metadata none = (failure not_active, none)
set_custom_metadata (some s) =
    if s.is_active
    then elim s.config.report [
      | full ↦ elim s.reporter [ none ↦ (failure no_reporter, none) | some r ↦ (success, some r) ]
      | flat_profile ↦ (failure not_full, none)
      | trace ↦ (failure not_full, none)
    ]
    else (failure not_active, none)
