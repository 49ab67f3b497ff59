-- ===== src/Config/Builder/Runs.antt =====
-- Histories of calls of the builder's setters.
use php_spx.Prelude.{
  ℕ, ◌≤◌, ◌<◌, ◌≡◌, refl, sym, subst, ◌∙◌, Bool, true, false, Option, none, some, List, [], ◌∷◌,
  if◌then◌else◌, if_true, if_false, ltb, lt→ltb, arith,
}
use php_spx.Prelude.Bytes.{Bytes, bytes_eq}
use php_spx.Metric.{Metric}
use php_spx.Session.{Report, full, flat_profile, trace}
use php_spx.Config.{Config, fix_metrics, full_name, fp_name, trace_name}
use php_spx.Config.Limits.{Within, Ready, fix_metrics-Ready}
use php_spx.Config.Builder.{
  Builder, BuilderError, Refusal, reset, set_error, invalid_report, no_limit, validate_metrics,
  set_enabled, set_auto_start, set_builtins, set_fp_inc, set_fp_rel, set_fp_live, set_fp_color,
  set_trace_safe, set_key, set_trace_file, set_ui_uri, set_sampling_period, set_max_depth,
  set_fp_limit, enable_metric, disable_metric, enable_all_metrics, disable_all_metrics,
  metrics_from_string, set_report, report_from_string, set_fp_focus, validate_config, build,
  no_entries,
}

-- A call of a setter.
pub data Call : Type 0 where
  enabled auto_start builtins fp_inc fp_rel fp_live fp_color trace_safe : Bool → Call
  key trace_file ui_uri : Bool → Option Bytes → Call
  sampling_period max_depth fp_limit : ℕ → Call
  metric_on metric_off fp_focus : Option Metric → Call
  all_metrics no_metrics : Call
  metrics_named report_named : Option Bytes → Call
  report : Report → Call

-- An error that was set.
abbrev FailedWith : Option BuilderError → Type 0
FailedWith none = ⊥
FailedWith (some e) = Unit {0}

abbrev Failed : Builder → Type 0
Failed b = FailedWith b.error

-- The values that a setter refuses.
abbrev pub Invalid : Call → Type 0
Invalid (sampling_period v) = 10000000 < v
Invalid (max_depth v) = 100000 < v
Invalid (fp_limit v) = 1000000 < v
Invalid (fp_focus none) = Unit {0}
Invalid (report_named (some str)) =
    (bytes_eq str full_name ≡ false)
    × (bytes_eq str fp_name ≡ false)
    × (bytes_eq str trace_name ≡ false)
Invalid _ = ⊥

-- What holds of a report of each name, and of the error, holds of the report that is named.
named {ℓ} :
    (P : Builder → Type ℓ) (str : Bytes) (b : Builder)
    → P (set_report full b)
    → P (set_report flat_profile b)
    → P (set_report trace b)
    → P (set_error invalid_report b)
    → P (report_from_string (some str) b)
named P str b p q r w =
    choose (bytes_eq str full_name) (bytes_eq str fp_name) (bytes_eq str trace_name)
  where
    choose :
        (t u v : Bool)
        → P (
            if t
            then set_report full b
            else (if u
                then set_report flat_profile b
                else (if v then set_report trace b else set_error invalid_report b)))
    choose true u v = p
    choose false true v = q
    choose false false true = r
    choose false false false = w

-- A test against a limit.
limited {ℓ} :
    (P : Builder → Type ℓ) (limit v : ℕ) (x y : Builder)
    → P x
    → (v ≤ limit → P y)
    → P (if ltb limit v then x else y)
limited P limit v x y p q = either (ltb limit v) refl
  where
    either : (t : Bool) → ltb limit v ≡ t → P (if t then x else y)
    either true e = p
    either false e = q (ground arith)

over {ℓ} :
    (P : Builder → Type ℓ) (limit v : ℕ) (x y : Builder)
    → limit < v
    → P x
    → P (if ltb limit v then x else y)
over P limit v x y h p = subst P (sym (if_true _ x y (lt→ltb limit v h))) p

limit_checked :
    (t : Bool) (o : Option Refusal) → (if t then some no_limit else o) ≡ none → t ≡ false
limit_checked true o h = cc
limit_checked false o h = refl

built :
    (b : Builder) (config : Config)
    → Within b.config
    → build b ≡ some config
    → Within config × Ready config × (no_entries config.report config.fp_limit ≡ false)
built b config w h = checked b.error h
  where
    sound :
        (o : Option Refusal)
        → (o ≡ none → no_entries b.config.report b.config.fp_limit ≡ false)
        → elim o [ none ↦ some (fix_metrics b.config) | some r ↦ none ] ≡ some config
        → Within config × Ready config × (no_entries config.report config.fp_limit ≡ false)
    sound none e h =
        subst (λ c. Within c × Ready c × (no_entries c.report c.fp_limit ≡ false)) (same h)
          (w, fix_metrics-Ready b.config, e refl)
      where
        same : {x y : Config} → some x ≡ some y → x ≡ y
        same e = cc
    sound (some r) e h = cc

    checked :
        (o : Option BuilderError)
        → build (record b { error = o }) ≡ some config
        → Within config × Ready config × (no_entries config.report config.fp_limit ≡ false)
    checked none h =
        sound (validate_config b.config) (limit_checked _ (validate_metrics b.config)) h
    checked (some e) h = cc

failed : (b : Builder) → Failed b → build b ≡ none
failed b w = error b.error w
  where
    error : (o : Option BuilderError) → FailedWith o → build (record b { error = o }) ≡ none
    error none w = absurd w
    error (some e) w = refl

module _ (get_by_key : Bytes → Option Metric) where
  abbrev pub apply : Call → Builder → Builder
  apply (enabled v) b = set_enabled v b
  apply (auto_start v) b = set_auto_start v b
  apply (builtins v) b = set_builtins v b
  apply (fp_inc v) b = set_fp_inc v b
  apply (fp_rel v) b = set_fp_rel v b
  apply (fp_live v) b = set_fp_live v b
  apply (fp_color v) b = set_fp_color v b
  apply (trace_safe v) b = set_trace_safe v b
  apply (sampling_period v) b = set_sampling_period v b
  apply (max_depth v) b = set_max_depth v b
  apply (fp_limit v) b = set_fp_limit v b
  apply (fp_focus v) b = set_fp_focus v b
  apply (report v) b = set_report v b
  apply (key granted v) b = set_key granted v b
  apply (trace_file granted v) b = set_trace_file granted v b
  apply (ui_uri granted v) b = set_ui_uri granted v b
  apply (metric_on v) b = enable_metric v b
  apply (metric_off v) b = disable_metric v b
  apply all_metrics b = enable_all_metrics b
  apply no_metrics b = disable_all_metrics b
  apply (metrics_named v) b = metrics_from_string get_by_key v b
  apply (report_named v) b = report_from_string v b

  abbrev pub run : List Call → Builder → Builder
  run [] b = b
  run (c ∷ cs) b = run cs (apply c b)

  apply-Within : (c : Call) (b : Builder) → Within b.config → Within (apply c b).config
  apply-Within (enabled v) b w = w
  apply-Within (auto_start v) b w = w
  apply-Within (builtins v) b w = w
  apply-Within (fp_inc v) b w = w
  apply-Within (fp_rel v) b w = w
  apply-Within (fp_live v) b w = w
  apply-Within (fp_color v) b w = w
  apply-Within (trace_safe v) b w = w
  apply-Within (report v) b w = w
  apply-Within (key granted v) b w = w
  apply-Within (trace_file granted v) b w = w
  apply-Within (ui_uri granted v) b w = w
  apply-Within (metric_on none) b w = w
  apply-Within (metric_on (some v)) b w = w
  apply-Within (metric_off none) b w = w
  apply-Within (metric_off (some v)) b w = w
  apply-Within (metrics_named none) b w = w
  apply-Within (metrics_named (some v)) b w = w
  apply-Within all_metrics b w = w
  apply-Within no_metrics b w = w
  apply-Within (fp_focus none) b w = w
  apply-Within (fp_focus (some v)) b w = w
  apply-Within (report_named none) b w = w
  apply-Within (report_named (some v)) b w = named (λ c. Within c.config) v b w w w w
  apply-Within (sampling_period v) b (p, q, r) =
      limited (λ c. Within c.config) 10000000 v _ _ (p, q, r) (λ le. (le, q, r))
  apply-Within (max_depth v) b (p, q, r) =
      limited (λ c. Within c.config) 100000 v _ _ (p, q, r) (λ le. (p, le, r))
  apply-Within (fp_limit v) b (p, q, r) =
      limited (λ c. Within c.config) 1000000 v _ _ (p, q, r) (λ le. (p, q, le))

  run-Within : (cs : List Call) (b : Builder) → Within b.config → Within (run cs b).config
  run-Within [] b w = w
  run-Within (c ∷ cs) b w = run-Within cs (apply c b) (apply-Within c b w)

  -- A configuration that is built, after whatever setters, has its numbers within their limits, the
  -- metrics that its report needs enabled, and no flat profile without entries.
  pub run-build :
      (cs : List Call) (config : Config)
      → build (run cs reset) ≡ some config
      → Within config × Ready config × (no_entries config.report config.fp_limit ≡ false)
  run-build cs config h =
      built (run cs reset) config (run-Within cs reset (omega arith, omega arith, omega arith)) h

  apply-Failed : (c : Call) (b : Builder) → Failed b → Failed (apply c b)
  apply-Failed (enabled v) b w = w
  apply-Failed (auto_start v) b w = w
  apply-Failed (builtins v) b w = w
  apply-Failed (fp_inc v) b w = w
  apply-Failed (fp_rel v) b w = w
  apply-Failed (fp_live v) b w = w
  apply-Failed (fp_color v) b w = w
  apply-Failed (trace_safe v) b w = w
  apply-Failed (report v) b w = w
  apply-Failed (key granted v) b w = w
  apply-Failed (trace_file granted v) b w = w
  apply-Failed (ui_uri granted v) b w = w
  apply-Failed (metric_on none) b w = w
  apply-Failed (metric_on (some v)) b w = w
  apply-Failed (metric_off none) b w = w
  apply-Failed (metric_off (some v)) b w = w
  apply-Failed (metrics_named none) b w = w
  apply-Failed (metrics_named (some v)) b w = w
  apply-Failed all_metrics b w = w
  apply-Failed no_metrics b w = w
  apply-Failed (fp_focus none) b w = _
  apply-Failed (fp_focus (some v)) b w = w
  apply-Failed (report_named none) b w = w
  apply-Failed (report_named (some v)) b w = named Failed v b w w w _
  apply-Failed (sampling_period v) b w = limited Failed 10000000 v _ _ _ (λ le. w)
  apply-Failed (max_depth v) b w = limited Failed 100000 v _ _ _ (λ le. w)
  apply-Failed (fp_limit v) b w = limited Failed 1000000 v _ _ _ (λ le. w)

  run-Failed : (cs : List Call) (b : Builder) → Failed b → Failed (run cs b)
  run-Failed [] b w = w
  run-Failed (c ∷ cs) b w = run-Failed cs (apply c b) (apply-Failed c b w)

  Invalid-Failed : (c : Call) (b : Builder) → Invalid c → Failed (apply c b)
  Invalid-Failed (sampling_period v) b h = over Failed 10000000 v _ _ h _
  Invalid-Failed (max_depth v) b h = over Failed 100000 v _ _ h _
  Invalid-Failed (fp_limit v) b h = over Failed 1000000 v _ _ h _
  Invalid-Failed (fp_focus none) b h = _
  Invalid-Failed (fp_focus (some v)) b h = absurd h
  Invalid-Failed (report_named none) b h = absurd h
  Invalid-Failed (report_named (some v)) b (x, y, z) =
      subst Failed
        (sym (
          if_false (bytes_eq v full_name) (set_report full b) _ x
          ∙ if_false (bytes_eq v fp_name) (set_report flat_profile b) _ y
          ∙ if_false (bytes_eq v trace_name) (set_report trace b) (set_error invalid_report b) z))
        _
  Invalid-Failed (enabled v) b h = absurd h
  Invalid-Failed (auto_start v) b h = absurd h
  Invalid-Failed (builtins v) b h = absurd h
  Invalid-Failed (fp_inc v) b h = absurd h
  Invalid-Failed (fp_rel v) b h = absurd h
  Invalid-Failed (fp_live v) b h = absurd h
  Invalid-Failed (fp_color v) b h = absurd h
  Invalid-Failed (trace_safe v) b h = absurd h
  Invalid-Failed (report v) b h = absurd h
  Invalid-Failed (metric_on v) b h = absurd h
  Invalid-Failed (metric_off v) b h = absurd h
  Invalid-Failed (metrics_named v) b h = absurd h
  Invalid-Failed (key granted v) b h = absurd h
  Invalid-Failed (trace_file granted v) b h = absurd h
  Invalid-Failed (ui_uri granted v) b h = absurd h
  Invalid-Failed all_metrics b h = absurd h
  Invalid-Failed no_metrics b h = absurd h

  -- Once a setter was given a value out of range, no later setter makes the builder build.
  pub build-Invalid :
      (b : Builder) (c : Call) (cs : List Call) → Invalid c → build (run cs (apply c b)) ≡ none
  build-Invalid b c cs h = failed (run cs (apply c b)) (run-Failed cs _ (Invalid-Failed c b h))
