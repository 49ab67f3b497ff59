-- ===== src/Metric/Collector/Laws.antt =====
-- What the collector of src/spx_metric.c returns from one collection to the next.
use php_spx.Prelude.{
  ◌≡◌, ◌≢◌, refl, sym, ap, subst, arith, ◌∙◌, Bool, true, false, not, ◌&&◌, if◌then◌else◌,
  Bool-cases, inl, inr, if_true, if_false,
}
use php_spx.Prelude.Int.{ℤ, pos, ltb_ℤ, ◌≤ℤ◌, ◌+ℤ◌, ◌-ℤ◌, int_laws}
use php_spx.Metric.{Metric, wall_time, cpu_time, idle_time, Values, releasable}
use php_spx.Metric.Collector.{
  Collector, collect, collect_raw_values, corrected, noise, shifted, ct_surplus,
}

-- The value that a collector stands at for a metric.
abbrev pub shown : Collector → Metric → ℤ
shown c i = c.last_values i -ℤ c.ref_values i

-- The surplus of CPU time moves two references only.
shifted-other : (s v : ℤ) (i : Metric) → i ≢ cpu_time → i ≢ idle_time → shifted s v i ≡ v
shifted-other s v cpu_time h k = absurd (h refl)
shifted-other s v idle_time h k = absurd (k refl)
shifted-other s v i h k = refl

corrected-other :
    (c : Collector) (current : Values) (i : Metric)
    → i ≢ cpu_time
    → i ≢ idle_time
    → corrected c current i ≡ c.ref_values i
unfolding corrected
corrected-other c current i h k =
    elim (Bool-cases
      (c.enabled wall_time && c.enabled cpu_time && ltb_ℤ (pos 0) (ct_surplus c current))) [
        | inl on ↦
            ap (λ f. f i)
              (if_true
                (c.enabled wall_time && c.enabled cpu_time && ltb_ℤ (pos 0) (ct_surplus c current))
                (λ j. shifted (ct_surplus c current) (c.ref_values j) j) c.ref_values on)
            ∙ shifted-other (ct_surplus c current) (c.ref_values i) i h k
        | inr off ↦
            ap (λ f. f i)
              (if_false
                (c.enabled wall_time && c.enabled cpu_time && ltb_ℤ (pos 0) (ct_surplus c current))
                (λ j. shifted (ct_surplus c current) (c.ref_values j) j) c.ref_values off)
      ]

-- At most the difference is taken off.
at_most_diff :
    (diff fixed : ℤ) (b : Bool) → ltb_ℤ diff fixed ≡ b → (if b then diff else fixed) ≤ℤ diff
at_most_diff diff fixed true h = omega arith
at_most_diff diff fixed false h = ground arith

not_below :
    (current last ref taken : ℤ)
    → taken ≤ℤ (current -ℤ last)
    → (last -ℤ ref) ≤ℤ (current -ℤ (ref +ℤ taken))
not_below current last ref taken h = omega int_laws

noise-at_most :
    (c : Collector) (current : Values) (i : Metric)
    → releasable i ≡ false
    → noise c current i ≤ℤ (current i -ℤ c.last_values i)
unfolding noise
noise-at_most c current i keeps =
    subst
      (λ r.
        (if not r && ltb_ℤ (current i -ℤ c.last_values i) (c.current_fixed_noise i)
          then current i -ℤ c.last_values i
          else c.current_fixed_noise i)
        ≤ℤ (current i -ℤ c.last_values i))
      (sym keeps)
      (at_most_diff (current i -ℤ c.last_values i) (c.current_fixed_noise i)
        (ltb_ℤ (current i -ℤ c.last_values i) (c.current_fixed_noise i)) refl)

where_enabled :
    (b : Bool) (x y v l r : ℤ)
    → b ≡ true
    → (if b then x -ℤ y else v) ≡ (if b then x else l) -ℤ (if b then y else r)
where_enabled true x y v l r h = refl
where_enabled false x y v l r h = absurd (cc)

-- For an enabled metric `spx_metric_collector_collect` returns the last reading less the reference.
-- For one that cannot fall, the CPU and idle times apart, that is never less than at the collection
-- before, whatever the system reads and whatever noise was added in between.
pub collect-shown :
    (c : Collector) (raw values : Values) (i : Metric)
    → c.enabled i ≡ true
    → releasable i ≡ false
    → i ≢ cpu_time
    → i ≢ idle_time
    → ((collect c raw values).1 i ≡ shown (collect c raw values).0 i)
      × (shown c i ≤ℤ (collect c raw values).1 i)
unfolding collect
collect-shown c raw values i on keeps h k =
    let current = collect_raw_values c.enabled raw in
    (
      where_enabled (c.enabled i) (current i) (corrected c current i +ℤ noise c current i)
          (values i) (c.last_values i) (corrected c current i) on,
      subst (λ z. shown c i ≤ℤ z) (sym (if_true (c.enabled i) _ (values i) on))
          (subst (λ r. shown c i ≤ℤ (current i -ℤ (r +ℤ noise c current i)))
            (sym (corrected-other c current i h k))
            (not_below (current i) (c.last_values i) (c.ref_values i) (noise c current i)
              (noise-at_most c current i keeps))),
    )
