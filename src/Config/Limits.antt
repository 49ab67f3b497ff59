-- ===== src/Config/Limits.antt =====
-- The limits on the numbers of a configuration, and the metrics that its report needs.
use php_spx.Prelude.{
  ℕ, ◌≤◌, ◌≡◌, refl, Bool, true, false, ◌||◌, Option, none, some, List, [], ◌∷◌, ◌==◌, arith,
}
use php_spx.Prelude.Bytes.{Bytes}
use php_spx.Prelude.Int.{ℤ, pos, negsuc, ◌≤ℤ◌}
use php_spx.Metric.{Metric, wall_time, ze_memory_usage, index}
use php_spx.Session.{Report, full, flat_profile, trace}
use php_spx.Validation.{
  Number, ParseResult, success, null_input, empty_string, overflow, underflow, invalid_format,
  out_of_range, parse_long,
}
use php_spx.Validation.Laws.{parse_long-bounded}
use php_spx.Config.{
  Config, Source, http_cookie, http_header, http_query_string, Parameter, spx_key, spx_ui_uri,
  needed, fix_config, fix_metrics, accepted, number, read_source, handler_of, read_sources,
  source_data_to_config, source_data_get, config_get, init_config, text, spx_sampling_period,
  spx_depth, spx_fp_limit,
}

-- The numbers of a configuration are within their limits.
abbrev pub Within : Config → Type 0
Within c = (c.sampling_period ≤ 10000000) × (c.max_depth ≤ 100000) × (c.fp_limit ≤ 1000000)

-- The metrics that a report needs are enabled.
abbrev pub Needs : Report → Metric → (Metric → Bool) → Type 0
Needs full focus metrics = (metrics wall_time ≡ true) × (metrics ze_memory_usage ≡ true)
Needs flat_profile focus metrics = metrics focus ≡ true
Needs trace focus metrics = Unit {0}

abbrev pub Ready : Config → Type 0
Ready c = Needs c.report c.fp_focus c.enabled_metrics

same_or : (n : ℕ) (b : Bool) → (n == n || b) ≡ true
same_or n b = ground arith

needed-Needs :
    (report : Report) (focus : Metric) (metrics : Metric → Bool)
    → Needs report focus (needed report focus metrics)
unfolding index
needed-Needs full focus metrics = (refl, refl)
needed-Needs flat_profile focus metrics = same_or (index focus) (metrics focus)
needed-Needs trace focus metrics = _

pub fix_metrics-Ready : (c : Config) → Ready (fix_metrics c)
fix_metrics-Ready c = needed-Needs c.report c.fp_focus c.enabled_metrics

accepted_le :
    (r : ParseResult) (limit old : ℕ)
    → ((v : ℤ) → r ≡ success v → v ≤ℤ pos limit)
    → old ≤ limit
    → accepted r old ≤ limit
accepted_le (success (pos n)) limit old h le = let b = h (pos n) refl in omega arith
accepted_le (success (negsuc n)) limit old h le = le
accepted_le null_input limit old h le = le
accepted_le empty_string limit old h le = le
accepted_le overflow limit old h le = le
accepted_le underflow limit old h le = le
accepted_le invalid_format limit old h le = le
accepted_le out_of_range limit old h le = le

module _ (strtol : Bytes → Number) where
  number_le :
      (str : Option Bytes) (limit old : ℕ) → old ≤ limit → number strtol str limit old ≤ limit
  number_le none limit old le = le
  number_le (some str) limit old le =
      accepted_le (parse_long strtol (some str) (pos 0) (pos limit)) limit old
        (λ v e. (parse_long-bounded strtol (some str) (pos 0) (pos limit) v e).1) le

abbrev pub first_of : Option Bytes → Option Bytes → Option Bytes
first_of none b = b
first_of (some a) b = some a

init_config-Within : (cli : Bool) → Within (init_config cli)
init_config-Within cli = (omega arith, omega arith, omega arith)

fix_config-Within : (cli : Bool) (c : Config) → Within c → Within (fix_config cli c)
fix_config-Within true c w = w
fix_config-Within false c w = w

fix_config-Ready : (cli : Bool) (c : Config) → Ready (fix_config cli c)
fix_config-Ready true c = fix_metrics-Ready (record c { ui_uri = none })
fix_config-Ready false c = fix_metrics-Ready (record c { report = full })

module _ (strtol : Bytes → Number) (get_by_key : Bytes → Option Metric) where
  source-Within :
      (o : Option (Parameter → Option Bytes)) (more : Config → Config) (c : Config)
      → ((c : Config) → Within c → Within (more c))
      → Within c
      → Within (read_source strtol get_by_key o more c)
  source-Within none more c keep w = w
  source-Within (some h) more c keep (p, q, r) =
      keep (source_data_to_config strtol get_by_key (source_data_get h) c) (
        number_le strtol (h spx_sampling_period) 10000000 c.sampling_period p,
        number_le strtol (h spx_depth) 100000 c.max_depth q,
        number_le strtol (h spx_fp_limit) 1000000 c.fp_limit r,
      )

  module _ (handlers : Source → Parameter → Option Bytes) (cli : Bool) where
    read_sources-Within :
        (sources : List Source) (c : Config)
        → Within c
        → Within (read_sources strtol get_by_key handlers cli sources c)
    read_sources-Within [] c w = w
    read_sources-Within (source ∷ sources) c w =
        source-Within (handler_of handlers cli source)
          (λ c. read_sources strtol get_by_key handlers cli sources c) c
          (λ c w. read_sources-Within sources c w) w

    -- Whatever the sources answer, the configuration that is read has its numbers within their
    -- limits, and the metrics that its report needs are enabled.
    pub config_get-Within :
        (sources : List Source)
        → Within (config_get strtol get_by_key handlers cli sources)
          × Ready (config_get strtol get_by_key handlers cli sources)
    config_get-Within sources = (
      fix_config-Within cli _
          (read_sources-Within sources (init_config cli) (init_config-Within cli)),
      fix_config-Ready cli (read_sources strtol get_by_key handlers cli sources (init_config cli)),
    )

  -- A request by HTTP takes its key, and the page of the web UI, from the query string, else from the
  -- header, else from the cookie, and always makes a full report.
  pub config_get-precedence :
      (handlers : Source → Parameter → Option Bytes)
      → (let h = handlers in
          let c =
            config_get strtol get_by_key h false
              (http_cookie ∷ http_header ∷ http_query_string ∷ []) in
          (c.key
            ≡ first_of
                (h http_query_string spx_key)
                (first_of (h http_header spx_key) (h http_cookie spx_key)))
          × (c.ui_uri
              ≡ first_of
                  (h http_query_string spx_ui_uri)
                  (first_of (h http_header spx_ui_uri) (h http_cookie spx_ui_uri)))
          × (c.report ≡ full))
  config_get-precedence h = (
    texts (h http_query_string spx_key) (h http_header spx_key) (h http_cookie spx_key),
    texts (h http_query_string spx_ui_uri) (h http_header spx_ui_uri) (h http_cookie spx_ui_uri),
    refl,
  )
    where
      texts : (a b c : Option Bytes) → text a (text b (text c none)) ≡ first_of a (first_of b c)
      texts (some a) b c = refl
      texts none (some b) c = refl
      texts none none (some c) = refl
      texts none none none = refl
