-- ===== src/Metric/Collector.antt =====
-- The collector of src/spx_metric.c. `raw` is what `collect_raw_values` reads from the system: a
-- parameter of each operation, in which the value of a disabled metric is 0 whatever the system
-- says. The index of enabled metrics, built once, is the predicate `enabled` itself.
pub mod Laws
use php_spx.Prelude.{Bool, ◌&&◌, not, if◌then◌else◌}
use php_spx.Prelude.Int.{ℤ, pos, ltb_ℤ, ◌+ℤ◌, ◌-ℤ◌}
use php_spx.Metric.{Metric, wall_time, cpu_time, idle_time, Values, zero_values, releasable}

pub record Collector : Type 0 where
  pub enabled : Metric → Bool
  pub ref_values : Values
  pub last_values : Values
  pub current_fixed_noise : Values

-- `collect_raw_values`: a handler's value for an enabled metric, 0 for a disabled one
unfoldable pub collect_raw_values : (Metric → Bool) → Values → Values
collect_raw_values enabled raw i = if enabled i then raw i else pos 0

-- `spx_metric_collector_create`
unfoldable pub create : (Metric → Bool) → Values → Collector
create enabled raw = record {
  enabled = enabled;
  ref_values = collect_raw_values enabled raw;
  last_values = collect_raw_values enabled raw;
  current_fixed_noise = zero_values;
}

-- The surplus of CPU time over wall time since the last collection.
unfoldable pub ct_surplus : Collector → Values → ℤ
ct_surplus c current =
    current cpu_time -ℤ c.last_values cpu_time -ℤ (current wall_time -ℤ c.last_values wall_time)

-- The reference `v` of a metric, moved by a surplus `s`.
abbrev pub shifted : ℤ → ℤ → Metric → ℤ
shifted s v cpu_time = v +ℤ s
shifted s v idle_time = v -ℤ s
shifted s v _ = v

-- The correction of the references where the CPU time runs ahead of the wall time.
unfoldable pub corrected : Collector → Values → Values
unfolding ct_surplus
corrected c current =
    if c.enabled wall_time && c.enabled cpu_time && ltb_ℤ (pos 0) (ct_surplus c current)
    then (λ i. shifted (ct_surplus c current) (c.ref_values i) i)
    else c.ref_values

-- The noise that is taken off metric `i`: at most the difference, unless the metric may fall.
unfoldable pub noise : Collector → Values → Values
unfolding releasable
noise c current i =
    let diff = current i -ℤ c.last_values i in
    if not (releasable i) && ltb_ℤ diff (c.current_fixed_noise i)
    then diff
    else c.current_fixed_noise i

-- `spx_metric_collector_collect`; `values` holds what the caller's array held before
unfoldable pub collect : Collector → Values → Values → Collector × Values
unfolding collect_raw_values corrected noise
collect c raw values =
    let current = collect_raw_values c.enabled raw in
    let ref = corrected c current in
    (
      record c {
        ref_values = λ i. if c.enabled i then ref i +ℤ noise c current i else ref i;
        last_values = λ i. if c.enabled i then current i else c.last_values i;
        current_fixed_noise = λ i. if c.enabled i then pos 0 else c.current_fixed_noise i;
      },
      λ i. if c.enabled i then current i -ℤ (ref i +ℤ noise c current i) else values i,
    )

-- `spx_metric_collector_noise_barrier`
unfoldable pub noise_barrier : Collector → Values → Collector
unfolding collect_raw_values
noise_barrier c raw =
    let current = collect_raw_values c.enabled raw in
    record c {
      current_fixed_noise = λ i.
          if c.enabled i
          then c.current_fixed_noise i +ℤ (current i -ℤ c.last_values i)
          else c.current_fixed_noise i;
    }

-- `spx_metric_collector_add_fixed_noise`
unfoldable pub add_fixed_noise : Collector → Values → Collector
add_fixed_noise c fixed = record c {
  current_fixed_noise =
      λ i. if c.enabled i then c.current_fixed_noise i +ℤ fixed i else c.current_fixed_noise i;
}
