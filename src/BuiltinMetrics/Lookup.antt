-- ===== src/BuiltinMetrics/Lookup.antt =====
-- The keys of the built-in metrics.
use php_spx.Prelude.{
  ◌≡◌, refl, subst, sym, ap, ◌∙◌, ◌↔◌, Bool, true, false, Option, none, some, List, [], ◌∷◌,
  if◌then◌else◌,
}
use php_spx.Prelude.Bytes.{Bytes, bytes_eq, eq_of_bytes_eq}
use php_spx.Metric.{
  Metric, wall_time, cpu_time, idle_time, ze_memory_usage, ze_memory_alloc_count,
  ze_memory_alloc_bytes, ze_memory_free_count, ze_memory_free_bytes, ze_gc_runs, ze_gc_root_buffer,
  ze_gc_collected, ze_included_file_count, ze_included_line_count, ze_user_class_count,
  ze_user_function_count, ze_user_opcode_count, ze_object_count, ze_error_count, mem_own_rss,
  io_bytes, io_rbytes, io_wbytes,
}
use php_spx.FuncTable.{Run, ◌>>=◌}
use php_spx.Prelude.{◌≢◌}
use php_spx.MetricRegistry.{Realloc, Info, find}
use php_spx.BuiltinMetrics.{
  Builtin, fresh, key, init, shutdown, get_by_key, metric_found, get_registry_id,
}

-- The answer of a lookup after a run that may end the process.
abbrev pub looked_up : Bytes → Run Builtin → Run (Option Metric)
looked_up k run = run >>= λ b. some (get_by_key k b)

abbrev result_of : Run Builtin → Builtin
result_of none = fresh
result_of (some b) = b

looked_up-key :
    (realloc : Realloc) (i : Metric) → looked_up (key i) (init true realloc fresh) ≡ some (some i)
unfolding init key get_by_key bytes_eq
looked_up-key realloc wall_time = refl
looked_up-key realloc _ = refl

-- The id of an entry leads to the metric that has its key.
abbrev Leads : Builtin → Info → Type 0
Leads b e = (i : Metric) × (metric_found b (some e.id) ≡ some i) × (e.key ≡ key i)

abbrev AllLead : Builtin → List Info → Type 0
AllLead b [] = Unit {0}
AllLead b (e ∷ es) = Leads b e × AllLead b es

find-key :
    (b : Builtin) (k : Bytes) (es : List Info) (i : Metric)
    → AllLead b es
    → metric_found b (find k es) ≡ some i
    → k ≡ key i
find-key b k [] i lead h = cc
find-key b k (e ∷ es) i ((j, leads, same), lead) h =
    either (bytes_eq e.key k) refl (find-key b k es i lead) h
  where
    either :
        (t : Bool)
        → bytes_eq e.key k ≡ t
        → (metric_found b (find k es) ≡ some i → k ≡ key i)
        → metric_found b (if t then some e.id else find k es) ≡ some i
        → k ≡ key i
    either true eq rest h = let e' = eq_of_bytes_eq e.key k eq in cc
    either false eq rest h = rest h

abbrev ends : Run Builtin → Bool
ends none = false
ends (some b) = true

result_of-some : (run : Run Builtin) → ends run ≡ true → run ≡ some (result_of run)
result_of-some none h = cc
result_of-some (some b) h = refl

module _ (realloc : Realloc) where
  init-ends : ends (init true realloc fresh) ≡ true
  unfolding init key bytes_eq
  init-ends = refl

  started : Builtin
  started = result_of (init true realloc fresh)

  started-AllLead : AllLead started started.registry.metrics
  unfolding started init get_registry_id key bytes_eq
  started-AllLead = (
    (wall_time, refl, refl),
    (
      (cpu_time, refl, refl),
      (
        (idle_time, refl, refl),
        (
          (ze_memory_usage, refl, refl),
          (
            (ze_memory_alloc_count, refl, refl),
            (
              (ze_memory_alloc_bytes, refl, refl),
              (
                (ze_memory_free_count, refl, refl),
                (
                  (ze_memory_free_bytes, refl, refl),
                  (
                    (ze_gc_runs, refl, refl),
                    (
                      (ze_gc_root_buffer, refl, refl),
                      (
                        (ze_gc_collected, refl, refl),
                        (
                          (ze_included_file_count, refl, refl),
                          (
                            (ze_included_line_count, refl, refl),
                            (
                              (ze_user_class_count, refl, refl),
                              (
                                (ze_user_function_count, refl, refl),
                                (
                                  (ze_user_opcode_count, refl, refl),
                                  (
                                    (ze_object_count, refl, refl),
                                    (
                                      (ze_error_count, refl, refl),
                                      (
                                        (mem_own_rss, refl, refl),
                                        (
                                          (io_bytes, refl, refl),
                                          ((io_rbytes, refl, refl), ((io_wbytes, refl, refl), _)),
                                        ),
                                      ),
                                    ),
                                  ),
                                ),
                              ),
                            ),
                          ),
                        ),
                      ),
                    ),
                  ),
                ),
              ),
            ),
          ),
        ),
      ),
    ),
  )

  init-started : init true realloc fresh ≡ some started
  unfolding started
  init-started = result_of-some (init true realloc fresh) init-ends

  started-initialized : started.initialized ≡ true
  unfolding started init key bytes_eq
  started-initialized = refl

  started-registry : started.registry.initialized ≡ true
  unfolding started init key bytes_eq
  started-registry = refl

  get_by_key-started :
      (k : Bytes) → get_by_key k started ≡ metric_found started (find k started.registry.metrics)
  unfolding get_by_key
  get_by_key-started k = rw (started-initialized, started-registry) refl

  metric_found-started :
      (k : Bytes) (i : Metric)
      → looked_up k (init true realloc fresh) ≡ some (some i)
      → metric_found started (find k started.registry.metrics) ≡ some i
  metric_found-started k i h =
      sym (get_by_key-started k)
      ∙ inner (get_by_key k started) (sym (ap (looked_up k) init-started) ∙ h)
    where
      inner :
          (o : Option Metric)
          → ◌≡◌ {A = Option (Option Metric)} (some o) (some (some i))
          → o ≡ some i
      inner o h = cc

  -- The first initialisation ends the process where the registry is not allocated. Where it is, whatever
  -- realloc would answer, the initialisation does not end it, and then a key leads to a metric just
  -- where it is the key of that metric.
  pub init-get_by_key :
      (k : Bytes) (i : Metric)
      → (init false realloc fresh ≡ none)
        × (init true realloc fresh ≢ none)
        × ((looked_up k (init true realloc fresh) ≡ some (some i)) ↔ (k ≡ key i))
  unfolding init
  init-get_by_key k i = (
    refl,
    λ h. let e = init-started in cc,
    (
      λ h.
          find-key started k started.registry.metrics i started-AllLead
            (metric_found-started k i h),
      λ e.
          subst (λ k. looked_up k (init true realloc fresh) ≡ some (some i)) (sym e)
            (looked_up-key realloc i),
    ),
  )

-- After a shutdown, the next initialisation leaves the registry without the metrics, so that no key
-- is found.
pub reinit-loses :
    (realloc : Realloc) (b : Builtin) (k : Bytes)
    → b.registered ≡ true
    → b.initialized ≡ true
    → looked_up k (init true realloc (shutdown b)) ≡ some none
unfolding init shutdown get_by_key
reinit-loses realloc b k registered initialized = rw (initialized, registered) refl
