-- ===== src/Tracer/Books/Calibrate.antt =====
-- `calibrate` of src/spx_profiler_tracer.c: what its silent rounds leave to the first real call.
mod Rounds
use php_spx.Prelude.{
  ℕ, ◌+◌, min, ◌-◌, ◌≤◌, ◌<◌, ◌≡◌, refl, sym, ap, subst, ◌∙◌, Bool, true, false, Option, none, some,
  arith, ◌==◌, ltb, List, [], ◌∷◌, Bool-cases, inl, inr, if_true, if_false, ◌≢◌,
}
use php_spx.Prelude.Bytes.{Bytes}
use php_spx.Prelude.Int.{pos, ◌+ℤ◌, zero-+ℤ}
use php_spx.Metric.{Metric, Values}
use php_spx.Metric.Collector
use php_spx.Metric.Collector.{Collector}
use php_spx.Metric.Sums.{sum_below}
use php_spx.Tracer.Settle.{children}
use mathlib.Core.Path.{subst₂}
use php_spx.HashMap.Methods.{reset-IsEmpty, IsEmpty}
use php_spx.FuncTable
use php_spx.FuncTable.{Function, FuncTable, Run, ◌>>=◌, same_function, hash_code}
use php_spx.FuncTable.Laws.{IsValid}
use php_spx.FuncTable.GetEntry.{plenty, Gets, get_entry-Gets}
use php_spx.StringPool.{Pool}
use php_spx.HashMap.{HashMap}
use php_spx.Tracer.State.{Tracer, Env}
use php_spx.Tracer.{
  enter, leave, observe_start, observe_end, advance, record_start, start_calibrated, end_call,
  start_rounds, end_rounds, calibrate, Calibration, Limits, create, effective_depth, cap_depth,
  time_noise,
}
use php_spx.Tracer.Books.{Core, root_inclusive}
use php_spx.Tracer.Books.End.{count_call-IsValid}
use Rounds.{Works, Ready, first_round-Ready, end_rounds-Ready}
pub use Rounds.{AllPlenty}

-- An emptied function table is valid.
reset-IsValid :
    (zend_hash : Bytes → ℕ) (t : FuncTable)
    → IsValid zend_hash t
    → IsValid zend_hash (FuncTable.reset t)
unfolding FuncTable.reset
reset-IsValid zend_hash t v =
    let e = reset-IsEmpty (hash_code zend_hash) same_function t.hmap v.map_valid in
    record {
      map_valid = e.valid;
      bounded = omega arith;
      written = λ q h. (let r = e.reads q in cc);
      known = λ q i h. absurd (nothing q (some i) (e.reads q) h);
      listed = λ i h. absurd (omega arith);
    }
  where
    nothing : (q : Function) (o : Option ℕ) {x : Option (Option ℕ)} → x ≡ none → x ≡ some o → ⊥
    nothing q o a b = cc

module _ (zend_hash : Bytes → ℕ) (p : Tracer) where
  -- A profiler that has been created and not used.
  pub record Fresh : Type 0 where
    pub running : p.finalized ≡ false
    pub awake : p.active ≡ true
    pub uncalled : p.called ≡ 0
    pub uncalibrated : p.calibrated ≡ false
    pub audible : p.silent ≡ false
    pub unlogged : p.events ≡ []
    pub positive : 0 < p.max_depth
    pub allocated : p.max_depth ≤ p.capacity
    pub roomy : 0 < p.func_table.capacity
    pub table : IsValid zend_hash p.func_table

  abbrev pub Calibrates : Run Tracer → Type 0
  Calibrates none = ⊥
  Calibrates (some q) =
      Core zend_hash q
      × (q.depth ≡ 0)
      × (q.func_table.size ≡ 0)
      × (q.finalized ≡ false)
      × (q.calibrated ≡ true)
      × (q.func_table.capacity ≡ p.func_table.capacity)
      × (q.events ≡ [])

  module _ (fresh : Fresh) where
    calibrated_of :
        (end_noise : ℕ) (q : Tracer)
        → Works zend_hash p q
        → Calibrates (
            some (record q {
              call_end_noise = time_noise end_noise q.call_end_noise;
              silent = p.silent;
              called = 0;
              depth = 0;
              func_table = FuncTable.reset q.func_table;
            }))
    unfolding sum_below root_inclusive FuncTable.reset
    calibrated_of n q w = (
      record {
        audible = fresh.audible;
        positive = subst (λ d. 0 < d) (sym w.max_depth) fresh.positive;
        allocated = subst₂ ◌≤◌ (sym w.max_depth) (sym w.capacity) fresh.allocated;
        table = reset-IsValid zend_hash q.func_table w.table;
        owned = λ i h. absurd (omega arith);
        books = λ m. sym (
            ap (λ e. root_inclusive m e +ℤ sum_below (min 0 q.max_depth) (children m q.frames))
              (w.events ∙ fresh.unlogged)
            ∙ ap (λ k. pos 0 +ℤ sum_below k (children m q.frames)) none_running
            ∙ zero-+ℤ (pos 0));
      },
      refl,
      refl,
      w.running,
      w.calibrated,
      w.table_capacity,
      w.events ∙ fresh.unlogged,
    )
      where
        none_running : min 0 q.max_depth ≡ 0
        none_running = omega arith

    abbrev woken : Tracer
    woken = record p { calibrated = true; silent = true }

    woken-Works : Works zend_hash p woken
    woken-Works = record {
      silent = refl;
      running = fresh.running;
      calibrated = refl;
      events = refl;
      max_depth = refl;
      capacity = refl;
      table_capacity = refl;
      table = fresh.table;
    }

    module _ (cal : Calibration) where
      abbrev measured : Tracer → Tracer
      measured q = record q { call_start_noise = time_noise cal.start_noise q.call_start_noise }

      abbrev settled : Tracer → Tracer
      settled q = record q {
        call_end_noise = time_noise cal.end_noise q.call_end_noise;
        silent = p.silent;
        called = 0;
        depth = 0;
        func_table = FuncTable.reset q.func_table;
      }

      measured-Works : (q : Tracer) → Works zend_hash p q → Works zend_hash p (measured q)
      measured-Works q w = record {
        silent = w.silent;
        running = w.running;
        calibrated = w.calibrated;
        events = w.events;
        max_depth = w.max_depth;
        capacity = w.capacity;
        table_capacity = w.table_capacity;
        table = w.table;
      }

    -- Two rounds or fifty thousand: with its allocations granted, `calibrate` does not end the
    -- process, and it leaves no call, no function and no event behind.
    pub calibrate-Calibrates :
        (cal : Calibration) (f : Function)
        → cal.starts ≢ []
        → AllPlenty cal.starts
        → Calibrates (calibrate zend_hash cal p f)
    unfolding calibrate
    calibrate-Calibrates cal f some_round plenties =
        after_starts (start_rounds zend_hash f cal.starts woken)
          (first_round-Ready zend_hash p f cal.starts woken some_round plenties woken-Works)
      where
        after_ends :
            (r : Run Tracer) → Ready zend_hash p r → Calibrates (r >>= λ q. some (settled cal q))
        after_ends none g = g
        after_ends (some q) g = calibrated_of cal.end_noise q g.0

        after_starts :
            (r : Run Tracer)
            → Ready zend_hash p r
            → Calibrates
                (r >>= λ q. end_rounds cal.ends (measured cal q) >>= λ q. some (settled cal q))
        after_starts none g = g
        after_starts (some q) g =
            after_ends (end_rounds cal.ends (measured cal q)) (
              end_rounds-Ready zend_hash p cal.ends (measured cal q) (measured-Works cal q g.0) g.1)

-- On an empty map and with limits that are not 0, `spx_profiler_tracer_create` makes a fresh
-- profiler: no call, no event, a valid empty table, and a maximal depth above 0 that the allocated
-- frames hold.
pub create-Fresh :
    (zend_hash : Bytes → ℕ) (max_depth : ℕ) (enabled : Metric → Bool) (limits : Limits)
    (raw : Values) (hmap : HashMap Function ℕ) (pool : Pool)
    → IsEmpty (hash_code zend_hash) same_function hmap
    → 0 < limits.stack_depth
    → 0 < limits.function_table_size
    → Fresh zend_hash (create max_depth enabled limits raw hmap pool)
unfolding create effective_depth
create-Fresh zend_hash max_depth enabled limits raw hmap pool e some_stack some_table = record {
  running = refl;
  awake = refl;
  uncalled = refl;
  uncalibrated = refl;
  audible = refl;
  unlogged = refl;
  positive = ground arith;
  allocated = ground arith;
  roomy = some_table;
  table = record {
    map_valid = e.valid;
    bounded = omega arith;
    written = λ q h. (let r = e.reads q in cc);
    known = λ q i h. absurd (let r = e.reads q in cc);
    listed = λ i h. absurd (omega arith);
  };
}
