-- ===== src/Tracer/Books/Enter.antt =====
-- `tracing_profiler_call_start` of src/spx_profiler_tracer.c keeps the invariant.
use mathlib.Core.Path.{ap₂}
use php_spx.Prelude.{
  ℕ, suc, ◌+◌, ◌≤◌, ◌<◌, ◌≡◌, refl, sym, ap, subst, ◌∙◌, Bool, true, false, Option, none, some,
  arith, if◌then◌else◌, ltb, min, update, update_self, update_ne, Bool-cases, inl, inr, if_true,
  if_false, ℕ_discrete, ◌⊎◌, List, ◌∷◌,
}
use php_spx.Prelude.Bytes.{Bytes}
use php_spx.Prelude.Int.{pos, ◌+ℤ◌, +ℤ-zero, zero-+ℤ}
use php_spx.Metric.{Metric, Values}
use php_spx.Metric.Collector
use php_spx.Metric.Collector.{Collector}
use php_spx.Metric.Sums.{sum_below, sum_below_congr}
use php_spx.FuncTable
use php_spx.FuncTable.{Function, FuncTable, Run, zero_stats, ◌>>=◌}
use php_spx.FuncTable.GetEntry.{plenty, Extends, Gets, get_entry-Gets}
use php_spx.StringPool.{Pool}
use php_spx.Tracer.State.{Tracer, Env, Event, call_start}
use php_spx.Tracer.Settle.{children}
use php_spx.Tracer.{
  enter, started, observe_start, advance, fill_event, caller_of, record_start, start_calibrated,
}
use php_spx.Tracer.Books.{exclusive, root_inclusive, root_part, recorded, Core, Inv}

-- A new entry has no exclusive values.
exclusive-Extends :
    (zend_hash : Bytes → ℕ) (m : Metric) (t t' : FuncTable)
    → Extends zend_hash t t'
    → exclusive m t' ≡ exclusive m t
unfolding sum_below
exclusive-Extends zend_hash m t t' x = by_size x.grown
  where
    kept : sum_below t.size (λ i. (t'.entries i).stats.exc m) ≡ exclusive m t
    kept = sum_below_congr t.size _ _ (λ i h. ap (λ e. e.stats.exc m) (x.kept i h))

    by_size :
        (t'.size ≡ t.size) ⊎ ((t'.size ≡ t.size + 1) × ((t'.entries t.size).stats ≡ zero_stats))
        → exclusive m t' ≡ exclusive m t
    by_size (inl e) = ap (λ n. sum_below n (λ i. (t'.entries i).stats.exc m)) e ∙ kept
    by_size (inr e) =
        ap (λ n. sum_below n (λ i. (t'.entries i).stats.exc m)) (size_suc e.0)
        ∙ ap₂ ◌+ℤ◌ kept (ap (λ s. s.exc m) e.1)
        ∙ +ℤ-zero (exclusive m t)
      where
        size_suc : t'.size ≡ t.size + 1 → t'.size ≡ suc t.size
        size_suc e = omega arith

heard_start :
    (m : Metric) (silent : Bool) (event : Event) (events : List Event)
    → root_part m event.kind event.depth event.inc ≡ pos 0
    → root_inclusive m (if silent then events else event ∷ events) ≡ root_inclusive m events
unfolding root_inclusive
heard_start m true event events h = refl
heard_start m false event events h = rw h (zero-+ℤ (root_inclusive m events))

module _ (zend_hash : Bytes → ℕ) (env : Env) (p : Tracer) (v : Core zend_hash p) where
  -- A call deeper than the maximal depth only counts.
  advanced : p.max_depth ≤ p.depth → Inv zend_hash (advance p)
  advanced h = record {
    aware = refl;
    core = record {
      audible = v.audible;
      positive = v.positive;
      allocated = v.allocated;
      table = v.table;
      owned = λ i q. v.owned i (omega arith);
      books = λ m.
          v.books m ∙ ap (λ k. root_inclusive m p.events +ℤ sum_below k (children m p.frames)) same;
    };
  }
    where
      same : recorded p ≡ recorded (advance p)
      same = omega arith

  -- The profiler after the collection and the search for the function's entry.
  abbrev found : Collector → Values → FuncTable → Pool → Tracer
  found c cur t pool = record (observe_start c cur p) { func_table = t; string_pool = pool }

  entered :
      (c : Collector) (cur : Values) (e : ℕ) (t : FuncTable) (pool : Pool)
      → p.depth < p.max_depth
      → Extends zend_hash p.func_table t
      → e < t.size
      → Inv zend_hash (advance (enter env cur (some e) (found c cur t pool)))
  unfolding enter sum_below
  entered c cur e t pool h x lt = record {
    aware = refl;
    core = record {
      audible = v.audible;
      positive = v.positive;
      allocated = v.allocated;
      table = x.valid;
      owned = λ i q. elim (ℕ_discrete p.depth i) [
        | yes here ↦ (
          e,
          ap (λ j. (update p.frames p.depth (started e cur) j).func_table_entry) (sym here)
              ∙ ap (λ f. f.func_table_entry) (update_self p.frames p.depth (started e cur)),
          lt,
        )
        | no other ↦
            let o = v.owned i (omega arith) in
            (
              o.0,
              ap (λ f. f.func_table_entry) (update_ne p.frames p.depth (started e cur) i other)
                  ∙ o.1,
              enough o.0 o.2,
            )
      ];
      books = λ m.
          exclusive-Extends zend_hash m p.func_table t x
          ∙ v.books m
          ∙ ap₂ ◌+ℤ◌ (sym (heard m)) (held m)
          ∙ ap
              (λ k.
                root_inclusive m (enter env cur (some e) (found c cur t pool)).events
                +ℤ sum_below k (children m (update p.frames p.depth (started e cur))))
              deeper;
    };
  }
    where
      heard :
          (m : Metric)
          → root_inclusive m (enter env cur (some e) (found c cur t pool)).events
            ≡ root_inclusive m p.events
      heard m =
          heard_start m p.silent
            (fill_event (found c cur t pool) call_start (caller_of (found c cur t pool)) (some e)
              none none)
            p.events refl

      enough : (j : ℕ) → j < p.func_table.size → j < t.size
      enough j q = let g = x.grown in omega arith

      deeper : suc p.depth ≡ min (p.depth + 1) p.max_depth
      deeper = omega arith

      level : recorded p ≡ p.depth
      level = omega arith

      held :
          (m : Metric)
          → sum_below (recorded p) (children m p.frames)
            ≡ sum_below (suc p.depth) (children m (update p.frames p.depth (started e cur)))
      held m =
          ap (λ k. sum_below k (children m p.frames)) level
          ∙ sym (+ℤ-zero _)
          ∙ sym (
              ap₂ ◌+ℤ◌
                (sum_below_congr p.depth (children m (update p.frames p.depth (started e cur)))
                  (children m p.frames)
                  (λ i q.
                    ap (λ f. f.children_metric_values m)
                      (update_ne p.frames p.depth (started e cur) i (omega arith))))
                (ap (λ f. f.children_metric_values m)
                  (update_self p.frames p.depth (started e cur))))

  abbrev pub StartsIn : Run Tracer → Type 0
  StartsIn none = ⊥
  StartsIn (some q) =
      Inv zend_hash q
      × (q.depth ≡ p.depth + 1)
      × (q.finalized ≡ p.finalized)
      × (q.calibrated ≡ p.calibrated)
      × (q.func_table.size ≤ p.func_table.size + 1)
      × (q.func_table.capacity ≡ p.func_table.capacity)

  enter-fields :
      (cur : Values) (e : ℕ) (q : Tracer)
      → ((enter env cur (some e) q).depth ≡ q.depth)
        × ((enter env cur (some e) q).finalized ≡ q.finalized)
        × ((enter env cur (some e) q).calibrated ≡ q.calibrated)
        × ((enter env cur (some e) q).func_table ≡ q.func_table)
  unfolding enter
  enter-fields cur e q = (refl, refl, refl, refl)

  entered_by :
      (f : Function) (c : Collector) (cur : Values)
      → p.depth < p.max_depth
      → p.func_table.size < p.func_table.capacity
      → (r : Run (Option ℕ × FuncTable × Pool)) → Gets zend_hash p.func_table f r
      → StartsIn (r >>= λ (e, t, pool). some (advance (enter env cur e (found c cur t pool))))
  entered_by f c cur h room none g = g
  entered_by f c cur h room (some (none, t, pool)) g = absurd (let k = g.1 in omega arith)
  entered_by f c cur h room (some (some e, t, pool)) g =
      let s = enter-fields cur e (found c cur t pool) in
      let grown = g.0.grown in
      (
        entered c cur e t pool h g.0 g.1,
        ap (λ d. d + 1) s.0,
        s.1,
        s.2,
        subst (λ x. x.size ≤ p.func_table.size + 1) (sym s.3) (omega arith),
        ap (λ x. x.capacity) s.3 ∙ g.0.capacity,
      )

  pub record_start-Inv :
      (f : Function)
      → env.memory ≡ plenty
      → p.func_table.size < p.func_table.capacity
      → p.depth < p.max_depth
      → StartsIn (record_start zend_hash env p f)
  unfolding record_start Collector.collect
  record_start-Inv f memory room h =
      entered_by f _ _ h room
        (FuncTable.get_entry zend_hash env.memory p.func_table f p.string_pool)
        (subst
          (λ x.
            Gets zend_hash p.func_table f
              (FuncTable.get_entry zend_hash x p.func_table f p.string_pool))
          (sym memory) (get_entry-Gets zend_hash p.func_table v.table f p.string_pool))

  -- Where `active` is up to date, with every allocation granted, room in the function table and the
  -- profiler not finalized, a call's start does not end the process, raises the depth by one, adds
  -- at most one function and keeps the invariant.
  pub start_calibrated-Inv :
      (f : Function)
      → env.memory ≡ plenty
      → p.func_table.size < p.func_table.capacity
      → p.finalized ≡ false
      → p.active ≡ ltb p.depth p.max_depth
      → StartsIn (start_calibrated zend_hash env p f)
  unfolding start_calibrated
  start_calibrated-Inv f memory room running aware =
      subst StartsIn (sym (if_false p.finalized _ _ running)) (elim (Bool-cases p.active) [
        | inl on ↦
            let a = sym aware ∙ on in
            subst StartsIn (sym (if_true p.active _ _ on))
              (record_start-Inv f memory room (ground arith))
        | inr off ↦
            let a = sym aware ∙ off in
            subst StartsIn (sym (if_false p.active _ _ off))
              (advanced (ground arith), refl, refl, refl, omega arith, refl)
      ])
