-- ===== src/Tracer/Nesting/Steps.antt =====
-- The operations of the tracing profiler of src/spx_profiler_tracer.c keep what the events leave open.
use php_spx.Prelude.{
  ℕ, suc, ◌+◌, ◌-◌, ◌≤◌, ◌<◌, ◌≡◌, refl, sym, ap, subst, ◌∙◌, false, List, Option, none, some, ltb,
  ◌==◌, if_true, if_false, Bool-cases, inl, inr, min, arith,
}
use php_spx.Prelude.Bytes.{Bytes}
use php_spx.Metric.{Values}
use php_spx.Metric.Collector
use php_spx.Metric.Collector.{Collector}
use php_spx.FuncTable
use php_spx.StringPool.{Pool}
use php_spx.FuncTable.{FuncTable, Function, Run, ◌>>=◌}
use php_spx.Tracer.State.{Tracer, Env}
use php_spx.Tracer.{
  advance, observe_start, observe_end, enter, leave, end_call, record_start, start_calibrated,
}
use php_spx.Tracer.Nesting.{replay, open_frames, enter-replay, leave-replay}

-- What the events leave open is what the recorded frames hold.
abbrev pub Tells : Tracer → Type 0
Tells p = replay p.events ≡ some (open_frames (min p.depth p.max_depth) p.frames)

abbrev pub TellsIfAny : Run Tracer → Type 0
TellsIfAny none = Unit {0}
TellsIfAny (some q) = Tells q

module _ (zend_hash : Bytes → ℕ) (env : Env) (p : Tracer) (audible : p.silent ≡ false) where
  abbrev found : Collector → Values → FuncTable → Pool → Tracer
  found c cur t pool = record (observe_start c cur p) { func_table = t; string_pool = pool }

  entered :
      (c : Collector) (cur : Values) (t : FuncTable) (pool : Pool) (entry : Option ℕ)
      → p.depth < p.max_depth
      → Tells p
      → Tells (advance (enter env cur entry (found c cur t pool)))
  unfolding enter
  entered c cur t pool entry room h =
      by_entry entry (enter-replay env cur entry (found c cur t pool) audible (h ∙ ap at now))
    where
      at : ℕ → Option (List ℕ)
      at k = some (open_frames k p.frames)

      now : min p.depth p.max_depth ≡ p.depth
      now = omega arith

      level : suc p.depth ≡ min (p.depth + 1) p.max_depth
      level = omega arith

      by_entry :
          (entry : Option ℕ)
          → replay (enter env cur entry (found c cur t pool)).events
            ≡ some (open_frames (suc p.depth) (enter env cur entry (found c cur t pool)).frames)
          → Tells (advance (enter env cur entry (found c cur t pool)))
      by_entry none e =
          e ∙ ap (λ k. some (open_frames k (enter env cur none (found c cur t pool)).frames)) level
      by_entry (some i) e =
          e
          ∙ ap (λ k. some (open_frames k (enter env cur (some i) (found c cur t pool)).frames))
              level

  -- A call's start below the maximal depth.
  pub record_start-Tells :
      (f : Function) → p.depth < p.max_depth → Tells p → TellsIfAny (record_start zend_hash env p f)
  unfolding record_start Collector.collect
  record_start-Tells f room h =
      by_result _ _ (FuncTable.get_entry zend_hash env.memory p.func_table f p.string_pool)
    where
      by_result :
          (c : Collector) (cur : Values) (r : Run (Option ℕ × FuncTable × Pool))
          → TellsIfAny
              (r >>= λ (entry, t, pool). some (advance (enter env cur entry (found c cur t pool))))
      by_result c cur none = _
      by_result c cur (some (entry, t, pool)) = entered c cur t pool entry room h

  pub start_calibrated-Tells :
      (f : Function)
      → p.active ≡ ltb p.depth p.max_depth
      → Tells p
      → TellsIfAny (start_calibrated zend_hash env p f)
  unfolding start_calibrated
  start_calibrated-Tells f aware h = elim (Bool-cases p.finalized) [
    | inl over ↦ subst TellsIfAny (sym (if_true p.finalized _ _ over)) h
    | inr running ↦
        subst TellsIfAny (sym (if_false p.finalized _ _ running)) (elim (Bool-cases p.active) [
          | inl on ↦
              let a = sym aware ∙ on in
              subst TellsIfAny (sym (if_true p.active _ _ on))
                (record_start-Tells f (ground arith) h)
          | inr off ↦
              let a = sym aware ∙ off in
              subst TellsIfAny (sym (if_false p.active _ _ off))
                (h ∙ ap (λ k. some (open_frames k p.frames)) (deeper (ground arith)))
        ])
  ]
    where
      deeper : p.max_depth ≤ p.depth → min p.depth p.max_depth ≡ min (p.depth + 1) p.max_depth
      deeper q = omega arith

  abbrev lowered : Tracer
  lowered = record p { depth = p.depth - 1; active = ltb (p.depth - 1) p.max_depth }

  left :
      (c : Collector) (cur : Values) (entry : Option ℕ)
      → (p.frames (p.depth - 1)).func_table_entry ≡ entry
      → 0 < p.depth
      → p.depth - 1 < p.max_depth
      → Tells p
      → Tells (leave env cur entry (observe_end c cur lowered))
  unfolding leave
  left c cur entry top up room h =
      by_entry entry
        (leave-replay env cur entry (observe_end c cur lowered) top audible (h ∙ ap at now))
    where
      at : ℕ → Option (List ℕ)
      at k = some (open_frames k p.frames)

      now : min p.depth p.max_depth ≡ suc (p.depth - 1)
      now = omega arith

      level : p.depth - 1 ≡ min (p.depth - 1) p.max_depth
      level = omega arith

      by_entry :
          (entry : Option ℕ)
          → replay (leave env cur entry (observe_end c cur lowered)).events
            ≡ some
                (open_frames (p.depth - 1) (leave env cur entry (observe_end c cur lowered)).frames)
          → Tells (leave env cur entry (observe_end c cur lowered))
      by_entry none e = e ∙ ap at level
      by_entry (some i) e =
          e
          ∙ ap
              (λ k.
                some (open_frames k (leave env cur (some i) (observe_end c cur lowered)).frames))
              level

  pub end_call-Tells : Tells p → TellsIfAny (end_call env p)
  unfolding end_call Collector.collect
  end_call-Tells h = elim (Bool-cases p.finalized) [
    | inl over ↦ subst TellsIfAny (sym (if_true p.finalized _ _ over)) h
    | inr running ↦
        subst TellsIfAny (sym (if_false p.finalized _ _ running))
          (elim (Bool-cases (p.depth == 0)) [
            | inl low ↦ subst TellsIfAny (sym (if_true (p.depth == 0) _ _ low)) _
            | inr up ↦
                subst TellsIfAny (sym (if_false (p.depth == 0) _ _ up))
                  (elim (Bool-cases (ltb (p.depth - 1) p.max_depth)) [
                    | inl shallow ↦
                        subst TellsIfAny (sym (if_true (ltb (p.depth - 1) p.max_depth) _ _ shallow))
                          (left _ _ _ refl (ground arith) (ground arith) h)
                    | inr deep ↦
                        subst TellsIfAny (sym (if_false (ltb (p.depth - 1) p.max_depth) _ _ deep))
                          (h ∙ ap (λ k. some (open_frames k p.frames)) (skipped (ground arith)))
                  ])
          ])
  ]
    where
      skipped : p.max_depth ≤ p.depth - 1 → min p.depth p.max_depth ≡ min (p.depth - 1) p.max_depth
      skipped q = omega arith
