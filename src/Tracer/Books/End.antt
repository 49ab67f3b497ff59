-- ===== src/Tracer/Books/End.antt =====
-- `tracing_profiler_call_end` of src/spx_profiler_tracer.c keeps the invariant.
use php_spx.Prelude.{
  ℕ, suc, ◌-◌, ◌≤◌, ◌<◌, ◌≡◌, refl, sym, ap, subst, ◌∙◌, false, Option, none, some, arith, ◌==◌,
  ltb, min, Bool-cases, inl, inr, if_true, if_false,
}
use php_spx.Prelude.Bytes.{Bytes}
use php_spx.Prelude.Int.{◌+ℤ◌}
use php_spx.Metric.{Values, wall_time}
use php_spx.Metric.Collector.{Collector}
use php_spx.Metric.Sums.{sum_below}
use php_spx.FuncTable.{FuncTable, Run}
use php_spx.FuncTable.Laws.{IsValid}
use php_spx.Tracer.State.{Tracer, Env}
use php_spx.Tracer.Settle.{children, HasEntry}
use php_spx.Tracer.{count_call, leave, observe_end, end_call}
use php_spx.Tracer.Books.{root_inclusive, recorded, Points, Core, Inv}
use php_spx.Tracer.Books.Leave.{leave-entries, leave-books}

-- The statistics do not matter to the table's invariant.
function-count_call :
    (e c : ℕ) (inc exc : Values) (t : FuncTable) (i : ℕ)
    → ((count_call e c inc exc t).entries i).function ≡ (t.entries i).function
function-count_call e c inc exc t i = ground arith

pub count_call-IsValid :
    (zend_hash : Bytes → ℕ) (e c : ℕ) (inc exc : Values) (t : FuncTable)
    → IsValid zend_hash t
    → IsValid zend_hash (count_call e c inc exc t)
count_call-IsValid zend_hash e c inc exc t v = record {
  map_valid = v.map_valid;
  bounded = v.bounded;
  written = v.written;
  known = λ q i h. ((v.known q i h).0, function-count_call e c inc exc t i ∙ (v.known q i h).1);
  listed = λ i h. rw (function-count_call e c inc exc t i) (v.listed i h);
}

module _ (zend_hash : Bytes → ℕ) (env : Env) (p : Tracer) (v : Core zend_hash p)
    (up : 0 < p.depth) where
  -- The profiler once the depth has been decremented.
  abbrev lowered : Tracer
  lowered = record p { depth = p.depth - 1; active = ltb (p.depth - 1) p.max_depth }

  -- A call deeper than the maximal depth is not recorded.
  skipped : p.max_depth ≤ p.depth - 1 → Inv zend_hash lowered
  skipped h = record {
    aware = refl;
    core = record {
      audible = v.audible;
      positive = v.positive;
      allocated = v.allocated;
      table = v.table;
      owned = λ i q. v.owned i (omega arith);
      books = λ m.
          v.books m ∙ ap (λ k. root_inclusive m p.events +ℤ sum_below k (children m p.frames)) same;
    };
  }
    where
      same : recorded p ≡ recorded lowered
      same = omega arith

  module _ (c : Collector) (cur : Values) (h : p.depth - 1 < p.max_depth) where
    abbrev observed : Tracer
    observed = observe_end c cur lowered

    below : (i : ℕ) → i < observed.depth → HasEntry observed.frames i
    below i q = let o = v.owned i (omega arith) in (o.0, o.1)

    left :
        (e : ℕ)
        → (p.frames observed.depth).func_table_entry ≡ some e
        → e < p.func_table.size
        → Inv zend_hash (leave env cur (some e) observed)
    unfolding leave
    left e pointed lt = record {
      aware = refl;
      core = record {
        audible = v.audible;
        positive = v.positive;
        allocated = v.allocated;
        table = count_call-IsValid zend_hash e _ _ _ p.func_table v.table;
        owned = λ i q.
            let o = v.owned i (omega arith) in
            (
              o.0,
              leave-entries env cur e observed v.audible below wall_time i (omega arith) ∙ o.1,
              o.2,
            );
        books = λ m.
            leave-books env cur e observed v.audible below m (root_inclusive m p.events) refl lt (
              v.books m
              ∙ ap (λ k. root_inclusive m p.events +ℤ sum_below k (children m p.frames)) here)
            ∙ ap
                (λ k.
                  root_inclusive m (leave env cur (some e) observed).events
                  +ℤ sum_below k (children m (leave env cur (some e) observed).frames))
                after;
      };
    }
      where
        here : recorded p ≡ suc (p.depth - 1)
        here = omega arith

        after : p.depth - 1 ≡ min (p.depth - 1) p.max_depth
        after = omega arith

  abbrev pub EndsIn : Run Tracer → Type 0
  EndsIn none = ⊥
  EndsIn (some q) =
      Inv zend_hash q
      × (q.depth ≡ p.depth - 1)
      × (q.finalized ≡ p.finalized)
      × (q.calibrated ≡ p.calibrated)
      × (q.func_table.size ≡ p.func_table.size)
      × (q.func_table.capacity ≡ p.func_table.capacity)

  leave-keeps :
      (cur : Values) (o : Option ℕ) (q : Tracer)
      → ((leave env cur o q).depth ≡ q.depth)
        × ((leave env cur o q).finalized ≡ q.finalized)
        × ((leave env cur o q).calibrated ≡ q.calibrated)
        × ((leave env cur o q).func_table.size ≡ q.func_table.size)
        × ((leave env cur o q).func_table.capacity ≡ q.func_table.capacity)
  unfolding leave
  leave-keeps cur none q = (refl, refl, refl, refl, refl)
  leave-keeps cur (some e) q = (refl, refl, refl, refl, refl)

  left_by :
      (c : Collector) (cur : Values)
      → p.depth - 1 < p.max_depth
      → (o : Option ℕ) → (p.frames (p.depth - 1)).func_table_entry ≡ o
      → EndsIn (some (leave env cur o (observe_end c cur lowered)))
  left_by c cur h none e = absurd (unowned (v.owned (p.depth - 1) (omega arith)))
    where
      unowned : Points p.func_table.size p.frames (p.depth - 1) → ⊥
      unowned o = let q = o.1 in cc
  left_by c cur h (some x) e =
      let o = v.owned (p.depth - 1) (omega arith) in
      let q = o.1 in
      let lt = o.2 in
      let same : o.0 ≡ x = cc in
      let d = leave-keeps cur (some x) (observe_end c cur lowered) in
      (left c cur h x e (omega arith), d.0, d.1, d.2, d.3, d.4)

  -- While calls are running and the profiler is not finalized, `tracing_profiler_call_end` does
  -- not end the process, lowers the depth by one and keeps the invariant; in particular the books
  -- still balance for every metric.
  pub end_call-Inv : p.finalized ≡ false → EndsIn (end_call env p)
  unfolding end_call
  end_call-Inv running =
      subst EndsIn
        (sym (if_false p.finalized _ _ running ∙ if_false (p.depth == 0) _ _ (ground arith)))
        (elim (Bool-cases (ltb (p.depth - 1) p.max_depth)) [
          | inr deep ↦
              subst EndsIn (sym (if_false (ltb (p.depth - 1) p.max_depth) _ _ deep))
                (skipped (ground arith), refl, refl, refl, refl, refl)
          | inl shallow ↦
              subst EndsIn (sym (if_true (ltb (p.depth - 1) p.max_depth) _ _ shallow))
                (left_by _ _ (ground arith) _ refl)
        ])
