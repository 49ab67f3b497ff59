-- ===== src/Config.antt =====
-- The configuration of a request of src/spx_config.c and src/spx_config.h: the defaults, the sources
-- that are read over them and the final fixes. A string that may be NULL is an option. A source is
-- the function that answers its parameters. spx_parse_long is that of Validation, and the lookup of
-- a metric by its key (spx_metric_get_by_key) is an argument, none where there is no such metric.
pub mod Limits
pub mod Builder
use php_spx.Prelude.{
  ℕ, Bool, true, false, ◌&&◌, ◌||◌, not, Option, none, some, List, [], ◌∷◌, if◌then◌else◌, ◌==◌,
}
use php_spx.Prelude.Bytes.{Bytes, bytes_eq}
use php_spx.Prelude.Int.{ℤ, pos, negsuc}
use php_spx.Metric.{Metric, wall_time, ze_memory_usage, index}
use php_spx.Session.{Report, full, flat_profile, trace}
use php_spx.Tokens.{tokenize}
use php_spx.Validation.{Number, ParseResult, success, parse_long}

-- `spx_config_t`
pub record Config : Type 0 where
  pub enabled : Bool
  pub key : Option Bytes
  pub ui_uri : Option Bytes
  pub auto_start : Bool
  pub sampling_period : ℕ
  pub builtins : Bool
  pub max_depth : ℕ
  pub enabled_metrics : Metric → Bool
  pub report : Report
  pub fp_focus : Metric
  pub fp_inc : Bool
  pub fp_rel : Bool
  pub fp_limit : ℕ
  pub fp_live : Bool
  pub fp_color : Bool
  pub trace_file : Option Bytes
  pub trace_safe : Bool

-- `enabled_metrics[metric] = 1`, where others gives the other elements.
abbrev pub enable : Metric → (Metric → Bool) → Metric → Bool
enable metric others i = index i == index metric || others i

abbrev pub no_metrics : Metric → Bool
no_metrics i = false

-- `init_config`
abbrev pub init_config : Bool → Config
init_config cli = record {
  enabled = false;
  key = none;
  ui_uri = none;
  auto_start = true;
  sampling_period = 0;
  builtins = false;
  max_depth = 0;
  enabled_metrics = enable wall_time (enable ze_memory_usage no_metrics);
  report = if cli then flat_profile else full;
  fp_focus = wall_time;
  fp_inc = false;
  fp_rel = false;
  fp_limit = 10;
  fp_live = false;
  fp_color = true;
  trace_file = none;
  trace_safe = false;
}

-- The metrics that a report needs.
abbrev pub needed : Report → Metric → (Metric → Bool) → Metric → Bool
needed full focus metrics = enable wall_time (enable ze_memory_usage metrics)
needed flat_profile focus metrics = enable focus metrics
needed trace focus metrics = metrics

abbrev pub fix_metrics : Config → Config
fix_metrics config = record config {
  enabled_metrics = needed config.report config.fp_focus config.enabled_metrics;
}

-- `fix_config`
abbrev pub fix_config : Bool → Config → Config
fix_config true config = fix_metrics (record config { ui_uri = none })
fix_config false config = fix_metrics (record config { report = full })

-- `source_data_t`
pub record SourceData : Type 0 where
  pub enabled_str : Option Bytes
  pub key_str : Option Bytes
  pub ui_uri_str : Option Bytes
  pub auto_start_str : Option Bytes
  pub sampling_period_str : Option Bytes
  pub builtins_str : Option Bytes
  pub depth_str : Option Bytes
  pub metrics_str : Option Bytes
  pub report_str : Option Bytes
  pub fp_focus_str : Option Bytes
  pub fp_inc_str : Option Bytes
  pub fp_rel_str : Option Bytes
  pub fp_limit_str : Option Bytes
  pub fp_live_str : Option Bytes
  pub fp_color_str : Option Bytes
  pub trace_file : Option Bytes
  pub trace_safe_str : Option Bytes

-- The parameters, for their names "SPX_ENABLED" and so on.
pub data Parameter : Type 0 where
  spx_enabled spx_key spx_ui_uri spx_auto_start spx_sampling_period spx_builtins spx_depth
        spx_metrics spx_report spx_fp_focus spx_fp_inc spx_fp_rel spx_fp_limit spx_fp_live
        spx_fp_color spx_trace_file spx_trace_safe :
      Parameter

-- `source_data_get`
abbrev pub source_data_get : (Parameter → Option Bytes) → SourceData
source_data_get handler = record {
  enabled_str = handler spx_enabled;
  key_str = handler spx_key;
  ui_uri_str = handler spx_ui_uri;
  auto_start_str = handler spx_auto_start;
  sampling_period_str = handler spx_sampling_period;
  builtins_str = handler spx_builtins;
  depth_str = handler spx_depth;
  metrics_str = handler spx_metrics;
  report_str = handler spx_report;
  fp_focus_str = handler spx_fp_focus;
  fp_inc_str = handler spx_fp_inc;
  fp_rel_str = handler spx_fp_rel;
  fp_limit_str = handler spx_fp_limit;
  fp_live_str = handler spx_fp_live;
  fp_color_str = handler spx_fp_color;
  trace_file = handler spx_trace_file;
  trace_safe_str = handler spx_trace_safe;
}

-- `*str == '1' ? 1 : 0`, the old value where there is no text.
abbrev pub flag : Option Bytes → Bool → Bool
flag none old = old
flag (some []) old = false
flag (some (c ∷ str)) old = c == 49

abbrev pub text : Option Bytes → Option Bytes → Option Bytes
text none old = old
text (some str) old = some str

-- A number that is not accepted leaves the old value.
abbrev pub accepted : ParseResult → ℕ → ℕ
accepted (success (pos n)) old = n
accepted _ old = old

-- "full", "fp" and "trace"
abbrev pub full_name : Bytes
full_name = 102 ∷ 117 ∷ 108 ∷ 108 ∷ []

abbrev pub fp_name : Bytes
fp_name = 102 ∷ 112 ∷ []

abbrev pub trace_name : Bytes
trace_name = 116 ∷ 114 ∷ 97 ∷ 99 ∷ 101 ∷ []

abbrev pub report_named : Option Bytes → Report → Report
report_named none old = old
report_named (some str) old =
    if bytes_eq str full_name
    then full
    else (if bytes_eq str fp_name
        then flat_profile
        else (if bytes_eq str trace_name then trace else old))

abbrev pub focus_or : Option Metric → Metric → Metric
focus_or none old = old
focus_or (some metric) old = metric

abbrev pub enable_found : Option Metric → (Metric → Bool) → Metric → Bool
enable_found none metrics = metrics
enable_found (some metric) metrics = enable metric metrics

-- `spx_config_source_t`
pub data Source : Type 0 where
  ini env http_cookie http_header http_query_string : Source

-- The handler of a source, none where the loop ends.
abbrev pub handler_of :
    (Source → Parameter → Option Bytes) → Bool → Source → Option (Parameter → Option Bytes)
handler_of handlers true ini = none
handler_of handlers cli source = some (handlers source)

module _ (strtol : Bytes → Number) where
  abbrev pub number : Option Bytes → ℕ → ℕ → ℕ
  number none max_value old = old
  number (some str) max_value old =
      accepted (parse_long strtol (some str) (pos 0) (pos max_value)) old

module _ (get_by_key : Bytes → Option Metric) where
  -- The block of the tokenizer, for every token in turn.
  abbrev pub enable_tokens : List Bytes → (Metric → Bool) → Metric → Bool
  enable_tokens [] metrics = metrics
  enable_tokens (token ∷ tokens) metrics =
      enable_tokens tokens (enable_found (get_by_key token) metrics)

  abbrev pub metrics_named : Option Bytes → (Metric → Bool) → Metric → Bool
  metrics_named none old = old
  metrics_named (some str) old = enable_tokens (tokenize 32 44 str) no_metrics

  abbrev pub focus_named : Option Bytes → Metric → Metric
  focus_named none old = old
  focus_named (some str) old = focus_or (get_by_key str) old

module _ (strtol : Bytes → Number) (get_by_key : Bytes → Option Metric) where
  -- `source_data_to_config`
  abbrev pub source_data_to_config : SourceData → Config → Config
  source_data_to_config source_data config = record {
    enabled = flag source_data.enabled_str config.enabled;
    key = text source_data.key_str config.key;
    ui_uri = text source_data.ui_uri_str config.ui_uri;
    auto_start = flag source_data.auto_start_str config.auto_start;
    sampling_period = number strtol source_data.sampling_period_str 10000000 config.sampling_period;
    builtins = flag source_data.builtins_str config.builtins;
    max_depth = number strtol source_data.depth_str 100000 config.max_depth;
    enabled_metrics = metrics_named get_by_key source_data.metrics_str config.enabled_metrics;
    report = report_named source_data.report_str config.report;
    fp_focus = focus_named get_by_key source_data.fp_focus_str config.fp_focus;
    fp_inc = flag source_data.fp_inc_str config.fp_inc;
    fp_rel = flag source_data.fp_rel_str config.fp_rel;
    fp_limit = number strtol source_data.fp_limit_str 1000000 config.fp_limit;
    fp_live = flag source_data.fp_live_str config.fp_live;
    fp_color = flag source_data.fp_color_str config.fp_color;
    trace_file = text source_data.trace_file config.trace_file;
    trace_safe = flag source_data.trace_safe_str config.trace_safe;
  }

  abbrev pub read_source : Option (Parameter → Option Bytes) → (Config → Config) → Config → Config
  read_source none more config = config
  read_source (some handler) more config =
      more (source_data_to_config (source_data_get handler) config)

  abbrev pub read_sources :
      (Source → Parameter → Option Bytes) → Bool → List Source → Config → Config
  read_sources handlers cli [] config = config
  read_sources handlers cli (source ∷ sources) config =
      read_source (handler_of handlers cli source) (λ c. read_sources handlers cli sources c) config

  -- `spx_config_get`
  abbrev pub config_get : (Source → Parameter → Option Bytes) → Bool → List Source → Config
  config_get handlers cli sources =
      fix_config cli (read_sources handlers cli sources (init_config cli))
