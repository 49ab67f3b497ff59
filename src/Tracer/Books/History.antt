-- ===== src/Tracer/Books/History.antt =====
-- Whole runs of the tracing profiler of src/spx_profiler_tracer.c, from its creation to
-- `tracing_profiler_finalize`.
pub mod Calls
use php_spx.Prelude.{
  ℕ, zero, suc, ◌+◌, ◌≤◌, ◌<◌, ◌≡◌, ◌≢◌, refl, sym, ap, subst, ◌∙◌, true, false, not, ◌&&◌, none,
  some, arith, if◌then◌else◌, ◌==◌, ltb, List, [], ◌∷◌, if_true, if_false,
}
use php_spx.Prelude.Bytes.{Bytes}
use php_spx.Prelude.Int.{◌+ℤ◌, +ℤ-zero, zero-+ℤ}
use php_spx.Metric.{Metric}
use php_spx.Metric.Sums.{sum_below}
use php_spx.FuncTable.{Function, Run, ◌>>=◌}
use php_spx.FuncTable.GetEntry.{plenty}
use php_spx.Tracer.State.{Tracer, Env, finalize}
use php_spx.Tracer.{
  Calibration, notify, fill_event, advance, start_calibrated, start_call, end_call, calibrate,
  record_start, unwind, finalize_all,
}
use php_spx.Tracer.Books.{exclusive, root_inclusive, recorded, pending, Core, Inv}
use php_spx.Tracer.Settle.{children}
use php_spx.Tracer.Books.Enter.{StartsIn, record_start-Inv, start_calibrated-Inv}
use php_spx.Tracer.Books.End.{EndsIn, end_call-Inv}
use php_spx.Tracer.Books.Calibrate.{Fresh, Calibrates, AllPlenty, calibrate-Calibrates}
use Calls.{Going, Goes, start-Going, end-Going, first-Going}

-- What the engine tells the profiler of.
pub data Action : Type 0 where
  starts : Env → Function → Action
  ends : Env → Action

module _ (zend_hash : Bytes → ℕ) (cal : Calibration) where
  unfoldable pub act : Action → Tracer → Run Tracer
  act (starts env f) p = start_call zend_hash cal env p f
  act (ends env) p = end_call env p

  unfoldable pub run : List Action → Tracer → Run Tracer
  unfolding act
  run [] p = some p
  run (a ∷ rest) p = act a p >>= run rest

-- The actions that follow at depth `d` with at most `n` starts, each with its allocations granted:
-- no call ends that has not started.
abbrev pub Nested : ℕ → ℕ → List Action → Type 0
Nested d n [] = Unit {0}
Nested d zero (starts env f ∷ rest) = ⊥
Nested d (suc n) (starts env f ∷ rest) = (env.memory ≡ plenty) × Nested (d + 1) n rest
Nested zero n (ends env ∷ rest) = ⊥
Nested (suc d) n (ends env ∷ rest) = Nested d n rest

module _ (zend_hash : Bytes → ℕ) where
  abbrev pub GoingOn : Run Tracer → Type 0
  GoingOn none = ⊥
  GoingOn (some q) = Core zend_hash q × (q.finalized ≡ false)

  abbrev Unwound : Run Tracer → Type 0
  Unwound none = ⊥
  Unwound (some q) = Core zend_hash q × (q.depth ≡ 0)

  abbrev pub Balances : Run Tracer → Type 0
  Balances none = ⊥
  Balances (some q) =
      (q.finalized ≡ true)
      × (q.depth ≡ 0)
      × ((m : Metric) → exclusive m q.func_table ≡ root_inclusive m q.events)

  then_run :
      (cal : Calibration) (d n : ℕ) (rest : List Action) (r : Run Tracer)
      → ((q : Tracer) → Going zend_hash d n q → GoingOn (run zend_hash cal rest q))
      → Goes zend_hash d n r
      → GoingOn (r >>= run zend_hash cal rest)
  then_run cal d n rest none h g = g
  then_run cal d n rest (some q) h g = h q g

  run-Going :
      (cal : Calibration) (d n : ℕ) (actions : List Action) (q : Tracer)
      → Nested d n actions
      → Going zend_hash d n q
      → GoingOn (run zend_hash cal actions q)
  unfolding run
  run-Going cal d n [] q nested g = (g.inv.core, g.running)
  run-Going cal d zero (starts env f ∷ rest) q nested g = absurd nested
  run-Going cal d (suc n) (starts env f ∷ rest) q nested g =
      then_run cal (d + 1) n rest _ (λ r. run-Going cal (d + 1) n rest r nested.1)
        (start-Going zend_hash cal env f d n q nested.0 g)
  run-Going cal zero n (ends env ∷ rest) q nested g = absurd nested
  run-Going cal (suc d) n (ends env ∷ rest) q nested g =
      then_run cal d n rest _ (λ r. run-Going cal d n rest r nested)
        (end-Going zend_hash env d n q g)

  -- Every history of nested calls on a fresh profiler, in which allocations are granted and there
  -- are at most as many starts as the function table has entries, runs without ending the process
  -- (the calibration of the first call included), and keeps the invariant.
  pub run-Core :
      (cal : Calibration) (p : Tracer) (env : Env) (f : Function) (rest : List Action)
      → Fresh zend_hash p
      → cal.starts ≢ []
      → AllPlenty cal.starts
      → Nested 0 p.func_table.capacity (starts env f ∷ rest)
      → GoingOn (run zend_hash cal (starts env f ∷ rest) p)
  unfolding run
  run-Core cal p env f rest fresh some_round plenties nested =
      by_room p.func_table.capacity refl nested
    where
      by_room :
          (n : ℕ)
          → p.func_table.capacity ≡ n
          → Nested 0 n (starts env f ∷ rest)
          → GoingOn (start_call zend_hash cal env p f >>= run zend_hash cal rest)
      by_room zero e nested = absurd nested
      by_room (suc n) e nested =
          then_run cal 1 n rest _ (λ r. run-Going cal 1 n rest r nested.1)
            (first-Going zend_hash cal env f n p fresh some_round plenties nested.0 (omega arith))

  -- The frames are unwound to depth 0.
  unwind-Settled :
      (envs : ℕ → Env) (n : ℕ) (q : Tracer)
      → Core zend_hash q
      → q.finalized ≡ false
      → q.depth ≡ n
      → Unwound (unwind envs n q)
  unfolding unwind
  unwind-Settled envs zero q v running e = (v, e)
  unwind-Settled envs (suc n) q v running e =
      subst Unwound (sym (if_true (ltb 0 q.depth) _ _ (ground arith))) (
        then_unwind (λ r. unwind-Settled envs n r) (end_call (envs n) q)
          (end_call-Inv zend_hash (envs n) q v up running))
    where
      up : 0 < q.depth
      up = omega arith

      then_unwind :
          ((r : Tracer)
            → Core zend_hash r
            → r.finalized ≡ false
            → r.depth ≡ n
            → Unwound (unwind envs n r))
          → (r : Run Tracer) → EndsIn zend_hash (envs n) q v up r
          → Unwound (r >>= unwind envs n)
      then_unwind again none s = s
      then_unwind again (some r) s =
          let down = s.1 in again r s.0.core (s.2 ∙ running) (omega arith)

  -- With no call running nothing is held for children, and the final event has no values.
  settled :
      (m : Metric) (r : Tracer)
      → r.silent ≡ false
      → r.depth ≡ 0
      → root_inclusive m r.events +ℤ pending m r
        ≡ root_inclusive m
            (notify
              (record r { finalized = true })
              (fill_event (record r { finalized = true }) finalize none none none none)).events
  unfolding root_inclusive sum_below
  settled m r audible low =
      ap (λ k. root_inclusive m r.events +ℤ sum_below k (children m r.frames)) none_running
      ∙ +ℤ-zero (root_inclusive m r.events)
      ∙ sym (zero-+ℤ (root_inclusive m r.events))
      ∙ sym (ap (root_inclusive m) (if_false r.silent _ _ audible))
    where
      none_running : recorded r ≡ 0
      none_running = omega arith

  pub awoken : (q : Tracer) → Core zend_hash q → Core zend_hash (record q { active = true })
  awoken q v = record {
    audible = v.audible;
    positive = v.positive;
    allocated = v.allocated;
    table = v.table;
    owned = v.owned;
    books = v.books;
  }

  -- From any state that the invariant allows, `tracing_profiler_finalize` does not end the process
  -- and finalizes the profiler, and then for every metric the exclusive values of all functions add
  -- up to the inclusive values that the reporter was told for the outermost calls.
  pub finalize_all-Balances :
      (envs : ℕ → Env) (q : Tracer)
      → Core zend_hash q
      → q.finalized ≡ false
      → Balances (finalize_all envs q)
  unfolding finalize_all
  finalize_all-Balances envs q v running =
      closed (unwind envs q.depth (record q { active = true }))
        (unwind-Settled envs q.depth (record q { active = true }) (awoken q v) running refl)
    where
      closed :
          (r : Run Tracer)
          → Unwound r
          → Balances (
              r >>= λ s.
              let t = record s { finalized = true } in
              some (notify t (fill_event t finalize none none none none)))
      closed none u = u
      closed (some r) u = (refl, u.1, λ m. u.0.books m ∙ settled m r u.0.audible u.1)

  -- From its creation on, through every history of nested calls (with its allocations granted, and
  -- no more starts than the function table has entries) and `tracing_profiler_finalize`, the
  -- profiler does not end the process, and at the end the exclusive values of all functions add up,
  -- for every metric, to the inclusive values reported for the outermost calls.
  pub profile-Balances :
      (cal : Calibration) (p : Tracer) (env : Env) (f : Function) (rest : List Action)
      (envs : ℕ → Env)
      → Fresh zend_hash p
      → cal.starts ≢ []
      → AllPlenty cal.starts
      → Nested 0 p.func_table.capacity (starts env f ∷ rest)
      → Balances (run zend_hash cal (starts env f ∷ rest) p >>= finalize_all envs)
  profile-Balances cal p env f rest envs fresh some_round plenties nested =
      finished _ (run-Core cal p env f rest fresh some_round plenties nested)
    where
      finished : (r : Run Tracer) → GoingOn r → Balances (r >>= finalize_all envs)
      finished none g = g
      finished (some q) g = finalize_all-Balances envs q g.0 g.1
