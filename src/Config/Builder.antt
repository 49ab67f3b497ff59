-- ===== src/Config/Builder.antt =====
-- The builder of configurations of src/spx_config_builder.c. The builder is not NULL; its copies of
-- strings, with `granted` for what the allocator answers, are held by the configuration alone, and a
-- metric out of range is none. The names of its setters end in their part of
-- spx_config_builder_.
pub mod Runs
use php_spx.Prelude.{
  ℕ, suc, Bool, true, false, ◌&&◌, ◌||◌, not, Option, none, some, List, [], ◌∷◌, if◌then◌else◌,
  ◌==◌, ltb,
}
use php_spx.Prelude.Bytes.{Bytes, bytes_eq}
use php_spx.Metric.{Metric, wall_time, ze_memory_usage, index, metrics}
use php_spx.Session.{Report, full, flat_profile, trace}
use php_spx.Tokens.{tokenize}
use php_spx.Config.{
  Config, enable, no_metrics, init_config, fix_metrics, enable_tokens, full_name, fp_name,
  trace_name,
}

-- The messages of `set_builder_error`.
pub data BuilderError : Type 0 where
  period_exceeds depth_exceeds invalid_report invalid_focus limit_exceeds : BuilderError

-- `spx_config_builder_t`
pub record Builder : Type 0 where
  pub config : Config
  pub error : Option BuilderError

-- `set_builder_error`
abbrev pub set_error : BuilderError → Builder → Builder
set_error e b = record b { error = some e }

abbrev pub with_config : Builder → Config → Builder
with_config b config = record b { config = config }

-- `duplicate_string`
abbrev pub duplicate_string : Bool → Option Bytes → Option Bytes
duplicate_string granted none = none
duplicate_string granted (some str) = if granted then some str else none

-- `spx_config_builder_reset`
abbrev pub reset : Builder
reset = record {
  config = record {
    enabled = false;
    key = none;
    ui_uri = none;
    auto_start = true;
    sampling_period = 0;
    builtins = false;
    max_depth = 0;
    enabled_metrics = enable wall_time (enable ze_memory_usage no_metrics);
    report = flat_profile;
    fp_focus = wall_time;
    fp_inc = false;
    fp_rel = false;
    fp_limit = 10;
    fp_live = false;
    fp_color = true;
    trace_file = none;
    trace_safe = false;
  };
  error = none;
}

abbrev pub set_enabled : Bool → Builder → Builder
set_enabled value b = with_config b (record b.config { enabled = value })

abbrev pub set_auto_start : Bool → Builder → Builder
set_auto_start value b = with_config b (record b.config { auto_start = value })

abbrev pub set_builtins : Bool → Builder → Builder
set_builtins value b = with_config b (record b.config { builtins = value })

abbrev pub set_fp_inc : Bool → Builder → Builder
set_fp_inc value b = with_config b (record b.config { fp_inc = value })

abbrev pub set_fp_rel : Bool → Builder → Builder
set_fp_rel value b = with_config b (record b.config { fp_rel = value })

abbrev pub set_fp_live : Bool → Builder → Builder
set_fp_live value b = with_config b (record b.config { fp_live = value })

abbrev pub set_fp_color : Bool → Builder → Builder
set_fp_color value b = with_config b (record b.config { fp_color = value })

abbrev pub set_trace_safe : Bool → Builder → Builder
set_trace_safe value b = with_config b (record b.config { trace_safe = value })

abbrev pub set_key : Bool → Option Bytes → Builder → Builder
set_key granted str b = with_config b (record b.config { key = duplicate_string granted str })

abbrev pub set_trace_file : Bool → Option Bytes → Builder → Builder
set_trace_file granted str b =
    with_config b (record b.config { trace_file = duplicate_string granted str })

abbrev pub set_ui_uri : Bool → Option Bytes → Builder → Builder
set_ui_uri granted str b = with_config b (record b.config { ui_uri = duplicate_string granted str })

abbrev pub set_sampling_period : ℕ → Builder → Builder
set_sampling_period value b =
    if ltb 10000000 value
    then set_error period_exceeds b
    else with_config b (record b.config { sampling_period = value })

abbrev pub set_max_depth : ℕ → Builder → Builder
set_max_depth value b =
    if ltb 100000 value
    then set_error depth_exceeds b
    else with_config b (record b.config { max_depth = value })

abbrev pub set_fp_limit : ℕ → Builder → Builder
set_fp_limit value b =
    if ltb 1000000 value
    then set_error limit_exceeds b
    else with_config b (record b.config { fp_limit = value })

abbrev pub with_metrics : (Metric → Bool) → Builder → Builder
with_metrics enabled b = with_config b (record b.config { enabled_metrics = enabled })

abbrev pub enable_metric : Option Metric → Builder → Builder
enable_metric none b = b
enable_metric (some metric) b = with_metrics (enable metric b.config.enabled_metrics) b

abbrev pub disable_metric : Option Metric → Builder → Builder
disable_metric none b = b
disable_metric (some metric) b =
    with_metrics (λ i. not (index i == index metric) && b.config.enabled_metrics i) b

abbrev pub enable_all_metrics : Builder → Builder
enable_all_metrics b = with_metrics (λ i. true) b

abbrev pub disable_all_metrics : Builder → Builder
disable_all_metrics b = with_metrics no_metrics b

abbrev pub metrics_from_string : (Bytes → Option Metric) → Option Bytes → Builder → Builder
metrics_from_string get_by_key none b = b
metrics_from_string get_by_key (some str) b =
    with_metrics (enable_tokens get_by_key (tokenize 32 44 str) no_metrics) b

abbrev pub set_report : Report → Builder → Builder
set_report report b = with_config b (record b.config { report = report })

abbrev pub report_from_string : Option Bytes → Builder → Builder
report_from_string none b = b
report_from_string (some str) b =
    if bytes_eq str full_name
    then set_report full b
    else (if bytes_eq str fp_name
        then set_report flat_profile b
        else (if bytes_eq str trace_name then set_report trace b else set_error invalid_report b))

abbrev pub set_fp_focus : Option Metric → Builder → Builder
set_fp_focus none b = set_error invalid_focus b
set_fp_focus (some metric) b = with_config b (record b.config { fp_focus = metric })

-- What `spx_config_builder_validate` refuses a builder for.
pub data Refusal : Type 0 where
  builder_error : BuilderError → Refusal
  no_limit no_metric : Refusal

abbrev pub has_metric : (Metric → Bool) → List Metric → Bool
has_metric enabled [] = false
has_metric enabled (i ∷ is) = enabled i || has_metric enabled is

abbrev pub validate_metrics : Config → Option Refusal
validate_metrics config =
    if config.enabled && not (has_metric config.enabled_metrics metrics)
    then some no_metric
    else none

abbrev pub no_entries : Report → ℕ → Bool
no_entries flat_profile limit = limit == 0
no_entries full limit = false
no_entries trace limit = false

abbrev pub validate_config : Config → Option Refusal
validate_config config =
    if no_entries config.report config.fp_limit then some no_limit else validate_metrics config

-- `spx_config_builder_validate`, none for a valid builder
abbrev pub validate : Builder → Option Refusal
validate b = elim b.error [ none ↦ validate_config b.config | some e ↦ some (builder_error e) ]

-- `spx_config_builder_build`
abbrev pub build : Builder → Option Config
build b = elim (validate b) [ none ↦ some (fix_metrics b.config) | some r ↦ none ]

-- The presets
abbrev pub preset_cli : Builder
preset_cli = record reset {
  config = record reset.config {
    enabled = true;
    auto_start = true;
    report = flat_profile;
    fp_color = true;
    fp_limit = 20;
  };
}

abbrev pub preset_http : Builder
preset_http = record reset {
  config = record reset.config { enabled = true; auto_start = true; report = full };
}

abbrev pub preset_minimal : Builder
preset_minimal = record reset {
  config = record reset.config {
    enabled = true;
    auto_start = true;
    builtins = false;
    enabled_metrics = enable wall_time no_metrics;
  };
}

abbrev pub preset_full : Builder
preset_full = record reset {
  config = record reset.config {
    enabled = true;
    auto_start = true;
    builtins = true;
    report = full;
    enabled_metrics = λ i. true;
  };
}
