-- ===== src/Tracer/Nesting/Runs.antt =====
-- Whole runs of the tracing profiler of src/spx_profiler_tracer.c: what its reporter is told of.
use php_spx.Prelude.{
  ℕ, zero, suc, ◌+◌, ◌<◌, ◌≡◌, ◌≢◌, refl, sym, ap, subst, ◌∙◌, true, false, not, ◌&&◌, List, [],
  ◌∷◌, none, some, ltb, ◌==◌, if_true, if_false, min, arith,
}
use php_spx.Prelude.Bytes.{Bytes}
use php_spx.FuncTable.{Function, Run, ◌>>=◌}
use php_spx.Tracer.State.{finalize, Tracer, Env}
use php_spx.Tracer.{
  notify, fill_event, Calibration, end_call, record_start, calibrate, start_call, unwind,
  finalize_all,
}
use php_spx.Tracer.Books.{Core}
use php_spx.Tracer.Books.End.{EndsIn, end_call-Inv}
use php_spx.Tracer.Books.Calibrate.{Fresh, Calibrates, AllPlenty, calibrate-Calibrates}
use php_spx.Tracer.Books.History.{starts, ends, Action, run, Nested, awoken}
use php_spx.Tracer.Books.History.Calls.{
  Going, Goes, start-Going, end-Going, first-Going, start_call-calibrated,
}
use php_spx.Tracer.Nesting.{replay, opened, open_frames}
use php_spx.Tracer.Nesting.Steps.{
  Tells, TellsIfAny, record_start-Tells, start_calibrated-Tells, end_call-Tells,
}

-- With no call and no event nothing is open.
untold : (q : Tracer) → q.depth ≡ 0 → q.events ≡ [] → Tells q
unfolding replay
untold q level events = ap replay events ∙ ap (λ k. some (open_frames k q.frames)) none_open
  where
    none_open : 0 ≡ min q.depth q.max_depth
    none_open = omega arith

-- The final event opens and ends no call.
last_told :
    (r : Tracer)
    → r.silent ≡ false
    → replay r.events ≡ some []
    → replay
        (notify
          (record r { finalized = true })
          (fill_event (record r { finalized = true }) finalize none none none none)).events
      ≡ some []
unfolding replay
last_told r audible u =
    ap replay (if_false r.silent _ _ audible) ∙ ap (λ o. o >>= opened finalize none) u

-- Every call that the reporter was told of has ended.
abbrev pub Nests : Run Tracer → Type 0
Nests none = ⊥
Nests (some q) = replay q.events ≡ some []

module _ (zend_hash : Bytes → ℕ) where
  -- A profiler that is in use and has told of its calls.
  abbrev InUse : Run Tracer → Type 0
  InUse none = ⊥
  InUse (some q) = Core zend_hash q × (q.finalized ≡ false) × Tells q

  in_use : (d n : ℕ) (r : Run Tracer) → Goes zend_hash d n r → TellsIfAny r → InUse r
  in_use d n none g t = g
  in_use d n (some q) g t = (g.inv.core, g.running, t)

  then_run :
      (cal : Calibration) (d n : ℕ) (rest : List Action) (r : Run Tracer)
      → ((q : Tracer) → Going zend_hash d n q → Tells q → InUse (run zend_hash cal rest q))
      → Goes zend_hash d n r
      → TellsIfAny r
      → InUse (r >>= run zend_hash cal rest)
  then_run cal d n rest none h g t = g
  then_run cal d n rest (some q) h g t = h q g t

  run-InUse :
      (cal : Calibration) (d n : ℕ) (actions : List Action) (q : Tracer)
      → Nested d n actions
      → Going zend_hash d n q
      → Tells q
      → InUse (run zend_hash cal actions q)
  unfolding run
  run-InUse cal d n [] q nested g t = (g.inv.core, g.running, t)
  run-InUse cal d zero (starts env f ∷ rest) q nested g t = absurd nested
  run-InUse cal d (suc n) (starts env f ∷ rest) q nested g t =
      then_run cal (d + 1) n rest _ (λ r. run-InUse cal (d + 1) n rest r nested.1)
        (start-Going zend_hash cal env f d n q nested.0 g)
        (subst TellsIfAny (sym (start_call-calibrated zend_hash cal env q f g.calibrated))
          (start_calibrated-Tells zend_hash env q g.inv.core.audible f g.inv.aware t))
  run-InUse cal zero n (ends env ∷ rest) q nested g t = absurd nested
  run-InUse cal (suc d) n (ends env ∷ rest) q nested g t =
      then_run cal d n rest _ (λ r. run-InUse cal d n rest r nested)
        (end-Going zend_hash env d n q g) (end_call-Tells zend_hash env q g.inv.core.audible t)

  -- The first call: the calibration before it tells nothing.
  first-Tells :
      (cal : Calibration) (env : Env) (f : Function) (p : Tracer)
      → Fresh zend_hash p
      → cal.starts ≢ []
      → AllPlenty cal.starts
      → TellsIfAny (start_call zend_hash cal env p f)
  unfolding start_call
  first-Tells cal env f p fresh some_round plenties =
      subst TellsIfAny
        (sym (
          if_false p.finalized _ _ fresh.running
          ∙ if_true p.active _ _ fresh.awake
          ∙ ap (λ r. r >>= λ q. record_start zend_hash env q f)
              (if_true (p.called == 0 && not p.calibrated) _ _ first)))
        (recorded_on (calibrate zend_hash cal p f)
          (calibrate-Calibrates zend_hash p fresh cal f some_round plenties))
    where
      first : (p.called == 0 && not p.calibrated) ≡ true
      first = let c = fresh.uncalled in let u = fresh.uncalibrated in ground arith

      recorded_on :
          (r : Run Tracer)
          → Calibrates zend_hash p r
          → TellsIfAny (r >>= λ q. record_start zend_hash env q f)
      recorded_on none c = _
      recorded_on (some q) (core, level, size, running, calibrated, capacity, events) =
          let positive = core.positive in
          record_start-Tells zend_hash env q core.audible f (omega arith) (untold q level events)

  -- The frames that are unwound are told of, too.
  abbrev Unwound : Run Tracer → Type 0
  Unwound none = ⊥
  Unwound (some q) = (q.silent ≡ false) × (replay q.events ≡ some [])

  unwind-Unwound :
      (envs : ℕ → Env) (n : ℕ) (q : Tracer)
      → Core zend_hash q
      → q.finalized ≡ false
      → q.depth ≡ n
      → Tells q
      → Unwound (unwind envs n q)
  unfolding unwind
  unwind-Unwound envs zero q v running e t =
      (v.audible, t ∙ ap (λ k. some (open_frames k q.frames)) low)
    where
      low : min q.depth q.max_depth ≡ 0
      low = omega arith
  unwind-Unwound envs (suc n) q v running e t =
      subst Unwound (sym (if_true (ltb 0 q.depth) _ _ (ground arith))) (
        then_unwind (λ r. unwind-Unwound envs n r) (end_call (envs n) q)
          (end_call-Inv zend_hash (envs n) q v up running)
          (end_call-Tells zend_hash (envs n) q v.audible t))
    where
      up : 0 < q.depth
      up = omega arith

      then_unwind :
          ((r : Tracer)
            → Core zend_hash r
            → r.finalized ≡ false
            → r.depth ≡ n
            → Tells r
            → Unwound (unwind envs n r))
          → (r : Run Tracer) → EndsIn zend_hash (envs n) q v up r
          → TellsIfAny r
          → Unwound (r >>= unwind envs n)
      then_unwind again none s t = s
      then_unwind again (some r) s t =
          let down = s.1 in again r s.0.core (s.2 ∙ running) (omega arith) t

  finalize_all-Nests : (envs : ℕ → Env) (r : Run Tracer) → InUse r → Nests (r >>= finalize_all envs)
  unfolding finalize_all
  finalize_all-Nests envs none u = u
  finalize_all-Nests envs (some q) (core, running, t) = closed _ (
      unwind-Unwound envs q.depth (record q { active = true }) (awoken zend_hash q core) running
        refl t)
    where
      closed :
          (r : Run Tracer)
          → Unwound r
          → Nests (
              r >>= λ s.
              let t = record s { finalized = true } in
              some (notify t (fill_event t finalize none none none none)))
      closed none u = u
      closed (some r) u = last_told r u.0 u.1

  -- From its creation on, through every history of nested calls (with its allocations granted, and
  -- no more starts than the function table has entries) and `tracing_profiler_finalize`, the
  -- profiler does not end the process, and the calls that its reporter was told of are nested: each
  -- end is that of the call that started last and is still open, and in the end none is open.
  pub profile-Nests :
      (cal : Calibration) (p : Tracer) (env : Env) (f : Function) (rest : List Action)
      (envs : ℕ → Env)
      → Fresh zend_hash p
      → cal.starts ≢ []
      → AllPlenty cal.starts
      → Nested 0 p.func_table.capacity (starts env f ∷ rest)
      → Nests (run zend_hash cal (starts env f ∷ rest) p >>= finalize_all envs)
  unfolding run
  profile-Nests cal p env f rest envs fresh some_round plenties nested =
      finalize_all-Nests envs _ (by_room p.func_table.capacity refl nested)
    where
      by_room :
          (n : ℕ)
          → p.func_table.capacity ≡ n
          → Nested 0 n (starts env f ∷ rest)
          → InUse (start_call zend_hash cal env p f >>= run zend_hash cal rest)
      by_room zero e nested = absurd nested
      by_room (suc n) e nested =
          then_run cal 1 n rest _ (λ r. run-InUse cal 1 n rest r nested.1)
            (first-Going zend_hash cal env f n p fresh some_round plenties nested.0 (omega arith))
            (first-Tells cal env f p fresh some_round plenties)
