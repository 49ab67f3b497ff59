-- ===== src/Tracer/Books/Calibrate/Rounds.antt =====
-- The rounds of `calibrate` of src/spx_profiler_tracer.c: silent starts and ends of calls.
use php_spx.Prelude.{
  ℕ, ◌+◌, ◌-◌, ◌<◌, ◌≡◌, refl, sym, ap, subst, ◌∙◌, true, false, Option, none, some, arith, ◌==◌,
  ltb, List, [], ◌∷◌, Bool-cases, inl, inr, if_true, if_false, ◌≢◌,
}
use php_spx.Prelude.Bytes.{Bytes}
use php_spx.Metric.{Values}
use php_spx.Metric.Collector
use php_spx.Metric.Collector.{Collector}
use php_spx.FuncTable
use php_spx.FuncTable.{Function, FuncTable, Run, ◌>>=◌, same_function, hash_code}
use php_spx.FuncTable.Laws.{IsValid}
use php_spx.FuncTable.GetEntry.{plenty, Gets, get_entry-Gets}
use php_spx.StringPool.{Pool}
use php_spx.Tracer.State.{Tracer, Env}
use php_spx.Tracer.{
  enter, leave, observe_start, observe_end, advance, record_start, start_calibrated, end_call,
  start_rounds, end_rounds, cap_depth,
}
use php_spx.Tracer.Books.End.{count_call-IsValid}

-- Every environment of a list grants the allocations.
abbrev pub AllPlenty : List Env → Type 0
AllPlenty [] = Unit {0}
AllPlenty (e ∷ es) = (e.memory ≡ plenty) × AllPlenty es

-- A silent profiler that still owes the reporter `p.events`, and keeps the limits of `p`.
pub record Works (zend_hash : Bytes → ℕ) (p q : Tracer) : Type 0 where
  pub silent : q.silent ≡ true
  pub running : q.finalized ≡ false
  pub calibrated : q.calibrated ≡ true
  pub events : q.events ≡ p.events
  pub max_depth : q.max_depth ≡ p.max_depth
  pub capacity : q.capacity ≡ p.capacity
  pub table_capacity : q.func_table.capacity ≡ p.func_table.capacity
  pub table : IsValid zend_hash q.func_table

module _ (zend_hash : Bytes → ℕ) (p : Tracer) where
  abbrev Goes : ℕ → Run Tracer → Type 0
  Goes d none = ⊥
  Goes d (some q) = Works zend_hash p q × (q.depth ≡ d)

  Works-enter :
      (env : Env) (cur : Values) (e : Option ℕ) (q : Tracer)
      → Works zend_hash p q
      → Works zend_hash p (advance (enter env cur e q))
        × ((advance (enter env cur e q)).depth ≡ q.depth + 1)
  unfolding enter
  Works-enter env cur none q w = (
    record {
      silent = w.silent;
      running = w.running;
      calibrated = w.calibrated;
      events = w.events;
      max_depth = w.max_depth;
      capacity = w.capacity;
      table_capacity = w.table_capacity;
      table = w.table;
    },
    refl,
  )
  Works-enter env cur (some e) q w = (
    record {
      silent = w.silent;
      running = w.running;
      calibrated = w.calibrated;
      events = if_true q.silent q.events _ w.silent ∙ w.events;
      max_depth = w.max_depth;
      capacity = w.capacity;
      table_capacity = w.table_capacity;
      table = w.table;
    },
    refl,
  )

  -- A silent profiler with another table, collector and measures still works.
  abbrev refound : Collector → Values → FuncTable → Pool → Tracer → Tracer
  refound c cur t pool q = record (observe_start c cur q) { func_table = t; string_pool = pool }

  Goes-found :
      (env : Env) (f : Function) (c : Collector) (cur : Values) (q : Tracer)
      → Works zend_hash p q
      → (r : Run (Option ℕ × FuncTable × Pool)) → Gets zend_hash q.func_table f r
      → Goes
          (q.depth + 1)
          (r >>= λ (e, t, pool). some (advance (enter env cur e (refound c cur t pool q))))
  Goes-found env f c cur q w none g = g
  Goes-found env f c cur q w (some (none, t, pool)) g =
      Works-enter env cur none (refound c cur t pool q) (record {
        silent = w.silent;
        running = w.running;
        calibrated = w.calibrated;
        events = w.events;
        max_depth = w.max_depth;
        capacity = w.capacity;
        table_capacity = ap (λ x. x.capacity) g.0 ∙ w.table_capacity;
        table = subst (IsValid zend_hash) (sym g.0) w.table;
      })
  Goes-found env f c cur q w (some (some e, t, pool)) g =
      Works-enter env cur (some e) (refound c cur t pool q) (record {
        silent = w.silent;
        running = w.running;
        calibrated = w.calibrated;
        events = w.events;
        max_depth = w.max_depth;
        capacity = w.capacity;
        table_capacity = g.0.capacity ∙ w.table_capacity;
        table = g.0.valid;
      })

  -- A silent start of a call.
  start-Goes :
      (env : Env) (f : Function) (q : Tracer)
      → env.memory ≡ plenty
      → Works zend_hash p q
      → Goes (q.depth + 1) (start_calibrated zend_hash env q f)
  unfolding start_calibrated record_start Collector.collect
  start-Goes env f q memory w =
      subst (Goes (q.depth + 1)) (sym (if_false q.finalized _ _ w.running))
        (elim (Bool-cases q.active) [
          | inl on ↦ subst (Goes (q.depth + 1)) (sym (if_true q.active _ _ on)) (
              Goes-found env f _ _ q w
                (FuncTable.get_entry zend_hash env.memory q.func_table f q.string_pool)
                (subst
                  (λ x.
                    Gets zend_hash q.func_table f
                      (FuncTable.get_entry zend_hash x q.func_table f q.string_pool))
                  (sym memory) (get_entry-Gets zend_hash q.func_table w.table f q.string_pool)))
          | inr off ↦ subst (Goes (q.depth + 1)) (sym (if_false q.active _ _ off)) (
            record {
              silent = w.silent;
              running = w.running;
              calibrated = w.calibrated;
              events = w.events;
              max_depth = w.max_depth;
              capacity = w.capacity;
              table_capacity = w.table_capacity;
              table = w.table;
            },
            refl,
          )
        ])

  Works-leave :
      (env : Env) (cur : Values) (e : Option ℕ) (q : Tracer)
      → Works zend_hash p q
      → Works zend_hash p (leave env cur e q) × ((leave env cur e q).depth ≡ q.depth)
  unfolding leave
  Works-leave env cur none q w = (w, refl)
  Works-leave env cur (some e) q w = (
    record {
      silent = w.silent;
      running = w.running;
      calibrated = w.calibrated;
      events = if_true q.silent q.events _ w.silent ∙ w.events;
      max_depth = w.max_depth;
      capacity = w.capacity;
      table_capacity = w.table_capacity;
      table = count_call-IsValid zend_hash e _ _ _ q.func_table w.table;
    },
    refl,
  )

  lowered-Works :
      (q : Tracer)
      → Works zend_hash p q
      → Works zend_hash p (record q { depth = q.depth - 1; active = ltb (q.depth - 1) q.max_depth })
  lowered-Works q w = record {
    silent = w.silent;
    running = w.running;
    calibrated = w.calibrated;
    events = w.events;
    max_depth = w.max_depth;
    capacity = w.capacity;
    table_capacity = w.table_capacity;
    table = w.table;
  }

  observed-Works :
      (c : Collector) (cur : Values) (q : Tracer)
      → Works zend_hash p q
      → Works zend_hash p (observe_end c cur q)
  observed-Works c cur q w = record {
    silent = w.silent;
    running = w.running;
    calibrated = w.calibrated;
    events = w.events;
    max_depth = w.max_depth;
    capacity = w.capacity;
    table_capacity = w.table_capacity;
    table = w.table;
  }

  -- A silent end of a call.
  end-Goes :
      (env : Env) (q : Tracer)
      → 0 < q.depth
      → Works zend_hash p q
      → Goes (q.depth - 1) (end_call env q)
  unfolding end_call
  end-Goes env q up w =
      subst (Goes (q.depth - 1))
        (sym (if_false q.finalized _ _ w.running ∙ if_false (q.depth == 0) _ _ (ground arith)))
        (elim (Bool-cases (ltb (q.depth - 1) q.max_depth)) [
          | inr deep ↦
              subst (Goes (q.depth - 1)) (sym (if_false (ltb (q.depth - 1) q.max_depth) _ _ deep))
                (lowered-Works q w, refl)
          | inl shallow ↦
              subst (Goes (q.depth - 1)) (sym (if_true (ltb (q.depth - 1) q.max_depth) _ _ shallow))
                (Works-leave env _ _ _ (observed-Works _ _ _ (lowered-Works q w)))
        ])

  abbrev pub Ready : Run Tracer → Type 0
  Ready none = ⊥
  Ready (some q) = Works zend_hash p q × (0 < q.depth)

  Goes-bind :
      (d : ℕ) (r : Run Tracer) (k : Tracer → Run Tracer)
      → Goes d r
      → ((q : Tracer) → Works zend_hash p q → q.depth ≡ d → Ready (k q))
      → Ready (r >>= k)
  Goes-bind d none k g h = absurd g
  Goes-bind d (some q) k g h = h q g.0 g.1

  capped-Works :
      (q : Tracer) → Works zend_hash p q → (n : ℕ) → Works zend_hash p (record q { depth = n })
  capped-Works q w n = record {
    silent = w.silent;
    running = w.running;
    calibrated = w.calibrated;
    events = w.events;
    max_depth = w.max_depth;
    capacity = w.capacity;
    table_capacity = w.table_capacity;
    table = w.table;
  }

  start_rounds-Ready :
      (f : Function) (envs : List Env) (q : Tracer)
      → AllPlenty envs
      → Works zend_hash p q
      → 0 < q.depth
      → Ready (start_rounds zend_hash f envs q)
  unfolding start_rounds
  start_rounds-Ready f [] q plenties w up = (w, up)
  start_rounds-Ready f (env ∷ envs) q plenties w up =
      Goes-bind (q.depth + 1) (start_calibrated zend_hash env q f) _
        (start-Goes env f q plenties.0 w)
        (λ r v e.
          start_rounds-Ready f envs (cap_depth r) plenties.1 (capped-Works r v _) (ground arith))

  pub first_round-Ready :
      (f : Function) (envs : List Env) (q : Tracer)
      → envs ≢ []
      → AllPlenty envs
      → Works zend_hash p q
      → Ready (start_rounds zend_hash f envs q)
  unfolding start_rounds
  first_round-Ready f [] q some_round plenties w = absurd (some_round refl)
  first_round-Ready f (env ∷ envs) q some_round plenties w =
      Goes-bind (q.depth + 1) (start_calibrated zend_hash env q f) _
        (start-Goes env f q plenties.0 w)
        (λ r v e.
          start_rounds-Ready f envs (cap_depth r) plenties.1 (capped-Works r v _) (ground arith))

  pub end_rounds-Ready :
      (envs : List Env) (q : Tracer) → Works zend_hash p q → 0 < q.depth → Ready (end_rounds envs q)
  unfolding end_rounds
  end_rounds-Ready [] q w up = (w, up)
  end_rounds-Ready (env ∷ envs) q w up =
      Goes-bind (q.depth - 1) (end_call env q) _ (end-Goes env q up w)
        (λ r v e. end_rounds-Ready envs _ (capped-Works r v _) (omega arith))
