-- ===== src/Tests/Clients.antt =====
-- The theorems on the sampler (src/spx_profiler_sampler.c), the trace reporter
-- (src/spx_reporter_trace.c), the session (src/spx_session.c) and the JSON escapes
-- (src/spx_utils.c) at small inputs.
use php_spx.Prelude.{ℕ, ◌≡◌, ◌≢◌, refl, true, false, [], ◌∷◌, none, some, arith}
use php_spx.Prelude.Bytes.{Bytes}
use php_spx.Prelude.Int.{pos}
use php_spx.Metric.{zero_values, releasable, ze_gc_runs, cpu_time, idle_time}
use php_spx.Metric.Collector.{Collector}
use php_spx.Sampler.{Sampler}
use php_spx.Sampler.Mirror.{codes, replay, Mirrors}
use php_spx.Sampler.Interleavings.{starts, ends, beats, run}
use php_spx.Sampler.Faithful.{Faithful, run-Faithful}
use php_spx.Tracer.State.{Event, call_start, call_end, finalize, EventKind}
use php_spx.TraceReporter.{Row, create}
use php_spx.TraceReporter.Log.{told, asked, told-Complete}
use php_spx.Session
use php_spx.Session.{Config, Answers, Session, flat_profile, tracer, destroy, start, stop}
use php_spx.Session.Lifecycle
use php_spx.Session.Lifecycle.{use_all, stops, start-Starts, stop-IsValid, destroy-use_all}
use php_spx.JsonEscape.{json_escape, escape_from, escaped_char}
use php_spx.JsonEscape.RoundTrip.{unescape, is_sayable, unescape-json_escape}

-- A frame is its own hash code.
abbrev code : ℕ → ℕ
code n = n

abbrev idle : Sampler ℕ
idle = record {
  sampling_period_us = 100;
  ready = true;
  previous = record { size = 0; frames = λ i. 0 };
  current = record { size = 0; frames = λ i. 0 };
  calls = [];
}

idle-Mirrors : Mirrors code idle
unfolding codes replay
idle-Mirrors = record { level = omega arith; bounded = omega arith; mirrored = refl }

run-Faithful_example : Faithful (run code (starts 5 ∷ beats ∷ starts 6 ∷ ends ∷ []) idle)
run-Faithful_example =
    run-Faithful code (λ a b e. e) 0 (starts 5 ∷ beats ∷ starts 6 ∷ ends ∷ []) idle idle-Mirrors
      refl (omega arith, (omega arith, tt))

abbrev busy : Sampler ℕ
busy = record idle { current = record { size = 1; frames = λ i. 5 } }

busy-Mirrors : Mirrors code busy
unfolding codes replay
busy-Mirrors = record { level = omega arith; bounded = omega arith; mirrored = refl }

abbrev event : EventKind → Event
event kind = record {
  kind = kind;
  called = 1;
  max = zero_values;
  cum = zero_values;
  table_size = 1;
  table_capacity = 4;
  depth = 0;
  caller = none;
  callee = some 0;
  inc = some zero_values;
  exc = some zero_values;
}

abbrev garbage : ℕ → Row
garbage i = record {
  event_type = call_start;
  function = none;
  depth = i;
  cum_metric_values = zero_values;
  inc_metric_values = none;
  exc_metric_values = none;
}

told-Complete_example :
    (told (event finalize ∷ event call_end ∷ event call_start ∷ []) (create false garbage)).output
    ≡ asked (event call_end ∷ event call_start ∷ [])
told-Complete_example =
    told-Complete false garbage (event finalize) (event call_end ∷ event call_start ∷ []) refl

abbrev config : Config
config = record { report = flat_profile; sampling_period = 50 }

abbrev answers : Answers
answers = record { reporter = some 1; key = none; tracer_made = true; sampler_made = false }

created-IsValid : Lifecycle.IsValid (Session.create config)
created-IsValid = record { owns = tt; counted = refl }

start-Starts_example : Lifecycle.Starts (start answers (Session.create config))
start-Starts_example = start-Starts answers (Session.create config) created-IsValid

abbrev active : Session
active = record {
  config = config;
  profiler = some tracer;
  reporter = some 1;
  report_key = [];
  is_active = true;
  made = 2;
  destroyed = 0;
}

active-IsValid : Lifecycle.IsValid active
active-IsValid = record { owns = tt; counted = refl }

destroy-use_all_example :
    (destroy (use_all (Lifecycle.starts answers ∷ stops ∷ []) (Session.create config))).made
    ≡ (destroy (use_all (Lifecycle.starts answers ∷ stops ∷ []) (Session.create config))).destroyed
destroy-use_all_example = destroy-use_all config (Lifecycle.starts answers ∷ stops ∷ [])

abbrev quoted : Bytes
quoted = 97 ∷ 34 ∷ []

escaped_quoted : json_escape quoted 5 ≡ some (97 ∷ 92 ∷ 34 ∷ [])
unfolding json_escape escape_from escaped_char
escaped_quoted = refl

unescape-json_escape_example : unescape (97 ∷ 92 ∷ 34 ∷ []) ≡ some quoted
unfolding is_sayable
unescape-json_escape_example =
    unescape-json_escape quoted 5 (97 ∷ 92 ∷ 34 ∷ []) (refl, (refl, _)) escaped_quoted

abbrev collector : Collector
collector = record {
  enabled = λ i. true;
  ref_values = zero_values;
  last_values = λ i. pos 4;
  current_fixed_noise = λ i. pos 9;
}

runs_keep : releasable ze_gc_runs ≡ false
unfolding releasable
runs_keep = refl

not_cpu : ze_gc_runs ≢ cpu_time
not_cpu h = cc

not_idle : ze_gc_runs ≢ idle_time
not_idle h = cc
