-- ===== src/Tracer/Books/History/Calls.antt =====
-- Starts and ends of calls on a profiler in use (src/spx_profiler_tracer.c).
use php_spx.Prelude.{
  ℕ, suc, ◌+◌, ◌≤◌, ◌<◌, ◌≡◌, ◌≢◌, sym, ap, subst, ◌∙◌, true, false, not, ◌&&◌, none, some, arith,
  if◌then◌else◌, ◌==◌, [], if_true, if_false,
}
use php_spx.Prelude.Bytes.{Bytes}
use php_spx.FuncTable.{Function, Run, ◌>>=◌}
use php_spx.FuncTable.GetEntry.{plenty}
use php_spx.Tracer.State.{Tracer, Env}
use php_spx.Tracer.{
  Calibration, advance, start_calibrated, start_call, end_call, calibrate, record_start,
}
use php_spx.Tracer.Books.{Core, Inv}
use php_spx.Tracer.Books.Enter.{StartsIn, record_start-Inv, start_calibrated-Inv}
use php_spx.Tracer.Books.End.{EndsIn, end_call-Inv}
use php_spx.Tracer.Books.Calibrate.{Fresh, Calibrates, AllPlenty, calibrate-Calibrates}

-- A profiler in use, with room for `n` functions.
pub record Going (zend_hash : Bytes → ℕ) (d n : ℕ) (q : Tracer) : Type 0 where
  pub inv : Inv zend_hash q
  pub running : q.finalized ≡ false
  pub calibrated : q.calibrated ≡ true
  pub level : q.depth ≡ d
  pub room : q.func_table.size + n ≤ q.func_table.capacity

module _ (zend_hash : Bytes → ℕ) where
  abbrev pub Goes : ℕ → ℕ → Run Tracer → Type 0
  Goes d n none = ⊥
  Goes d n (some q) = Going zend_hash d n q

  -- The start of a call on a calibrated profiler needs no calibration.
  pub start_call-calibrated :
      (cal : Calibration) (env : Env) (p : Tracer) (f : Function)
      → p.calibrated ≡ true
      → start_call zend_hash cal env p f ≡ start_calibrated zend_hash env p f
  unfolding start_call start_calibrated
  start_call-calibrated cal env p f h =
      ap (λ b. if p.finalized then some p else if p.active then b else some (advance p))
        (ap (λ r. r >>= λ q. record_start zend_hash env q f)
          (if_false (p.called == 0 && not p.calibrated) _ _ (ground arith)))

  started_on :
      (env : Env) (d n : ℕ) (q : Tracer) (v : Core zend_hash q)
      → q.finalized ≡ false
      → q.calibrated ≡ true
      → q.depth ≡ d
      → q.func_table.size + suc n ≤ q.func_table.capacity
      → (r : Run Tracer) → StartsIn zend_hash env q v r
      → Goes (d + 1) n r
  started_on env d n q v running calibrated level room none s = s
  started_on env d n q v running calibrated level room (some r) s =
      let capacity = s.5 in
      let more = s.4 in
      record {
        inv = s.0;
        running = s.2 ∙ running;
        calibrated = s.3 ∙ calibrated;
        level = s.1 ∙ ap (λ k. k + 1) level;
        room = omega arith;
      }

  pub start-Going :
      (cal : Calibration) (env : Env) (f : Function) (d n : ℕ) (q : Tracer)
      → env.memory ≡ plenty
      → Going zend_hash d (suc n) q
      → Goes (d + 1) n (start_call zend_hash cal env q f)
  start-Going cal env f d n q memory g =
      let room = g.room in
      subst (Goes (d + 1) n) (sym (start_call-calibrated cal env q f g.calibrated)) (
        started_on env d n q g.inv.core g.running g.calibrated g.level room _ (
          start_calibrated-Inv zend_hash env q g.inv.core f memory (omega arith) g.running
            g.inv.aware))

  ended_on :
      (env : Env) (d n : ℕ) (q : Tracer) (v : Core zend_hash q) (up : 0 < q.depth)
      → Going zend_hash (suc d) n q
      → (r : Run Tracer) → EndsIn zend_hash env q v up r
      → Goes d n r
  ended_on env d n q v up g none s = s
  ended_on env d n q v up g (some r) s =
      let size = s.4 in
      let capacity = s.5 in
      let room = g.room in
      let level = g.level in
      let down = s.1 in
      record {
        inv = s.0;
        running = s.2 ∙ g.running;
        calibrated = s.3 ∙ g.calibrated;
        level = omega arith;
        room = omega arith;
      }

  pub end-Going :
      (env : Env) (d n : ℕ) (q : Tracer) → Going zend_hash (suc d) n q → Goes d n (end_call env q)
  end-Going env d n q g =
      let level = g.level in
      let up : 0 < q.depth = omega arith in
      ended_on env d n q g.inv.core up g _ (end_call-Inv zend_hash env q g.inv.core up g.running)

  -- The first call, which calibrates.
  pub first-Going :
      (cal : Calibration) (env : Env) (f : Function) (n : ℕ) (p : Tracer)
      → Fresh zend_hash p
      → cal.starts ≢ []
      → AllPlenty cal.starts
      → env.memory ≡ plenty
      → suc n ≤ p.func_table.capacity
      → Goes 1 n (start_call zend_hash cal env p f)
  unfolding start_call
  first-Going cal env f n p fresh some_round plenties memory room =
      subst (Goes 1 n)
        (sym (
          if_false p.finalized _ _ fresh.running
          ∙ if_true p.active _ _ fresh.awake
          ∙ ap (λ r. r >>= λ q. record_start zend_hash env q f)
              (if_true (p.called == 0 && not p.calibrated) _ _ first)))
        (recorded_on (calibrate zend_hash cal p f)
          (calibrate-Calibrates zend_hash p fresh cal f some_round plenties))
    where
      first : (p.called == 0 && not p.calibrated) ≡ true
      first = let c = fresh.uncalled in let u = fresh.uncalibrated in ground arith

      recorded_on :
          (r : Run Tracer)
          → Calibrates zend_hash p r
          → Goes 1 n (r >>= λ q. record_start zend_hash env q f)
      recorded_on none c = c
      recorded_on (some q) (core, level, size, running, calibrated, capacity, events) =
          let positive = core.positive in
          started_on env 0 n q core running calibrated level (omega arith) _
            (record_start-Inv zend_hash env q core f memory (omega arith) (omega arith))
