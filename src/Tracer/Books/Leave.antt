-- ===== src/Tracer/Books/Leave.antt =====
-- The end of a call keeps the books of the tracing profiler.
use mathlib.Core.Path.{ap₂}
use php_spx.Prelude.{
  ℕ, suc, ◌-◌, ◌<◌, ◌≡◌, refl, sym, ap, ◌∙◌, Bool, true, false, List, ◌∷◌, some, arith,
  if◌then◌else◌, ◌==◌, ltb, update, update_self, update_ne, Bool-cases, inl, inr,
}
use php_spx.Prelude.Int.{ℤ, pos, ◌+ℤ◌, ◌-ℤ◌, int_laws, +ℤ-zero}
use php_spx.Metric
use php_spx.Metric.{Metric, Values}
use php_spx.Metric.Sums.{sum_below, sum_below_congr, sum_below_change}
use php_spx.FuncTable.{FuncTable, Stats}
use php_spx.Tracer.State.{Tracer, Frame, Env, Event}
use php_spx.Tracer.Frames.{settle, Walk}
use php_spx.Tracer.Settle.{children, HasEntry, settle-Settles, Settles}
use php_spx.Tracer.{counted, count_call, leave}
use php_spx.Tracer.Books.{exclusive, root_inclusive, root_part}

balance :
    (total rest held mine inc : ℤ) (root first : Bool)
    → total ≡ rest +ℤ (held +ℤ mine)
    → total +ℤ (if first then inc -ℤ mine else pos 0)
      ≡ (if root then inc else pos 0)
        +ℤ rest
        +ℤ (held +ℤ (if root then pos 0 else inc) -ℤ (if first then pos 0 else inc -ℤ mine))
balance total rest held mine inc true true e = rw e (omega int_laws)
balance total rest held mine inc true false e = rw e (omega int_laws)
balance total rest held mine inc false true e = rw e (omega int_laws)
balance total rest held mine inc false false e = rw e (omega int_laws)

counted-exc :
    (m : Metric) (c : ℕ) (inc exc : Values) (s : Stats)
    → (counted c inc exc s).exc m ≡ s.exc m +ℤ (if c == 0 then exc m else pos 0)
counted-exc m c inc exc s = elim (Bool-cases (c == 0)) [
  | inl z ↦ rw z refl
  | inr z ↦ rw z (sym (+ℤ-zero (s.exc m)))
]

-- The count of a call adds its exclusive values to the table where the function ran once only.
exclusive-count_call :
    (m : Metric) (e c : ℕ) (inc exc : Values) (t : FuncTable)
    → e < t.size
    → exclusive m (count_call e c inc exc t) ≡ exclusive m t +ℤ (if c == 0 then exc m else pos 0)
exclusive-count_call m e c inc exc t h =
    sum_below_change t.size e (λ i. (t.entries i).stats.exc m)
      (λ i. ((count_call e c inc exc t).entries i).stats.exc m) _ h
      (ap (λ x. x.stats.exc m) (update_self t.entries e _)
        ∙ counted-exc m c inc exc (t.entries e).stats)
      (λ i n. ap (λ x. x.stats.exc m) (update_ne t.entries e _ i (λ q. n (sym q))))

heard :
    (m : Metric) (silent : Bool) (event : Event) (events : List Event)
    → silent ≡ false
    → root_inclusive m (if silent then events else event ∷ events)
      ≡ root_part m event.kind event.depth event.inc +ℤ root_inclusive m events
unfolding root_inclusive
heard m silent event events h = rw h refl

-- The frame below the one that ends is there unless the call was an outermost one.
parent_credit :
    (d : ℕ) (x : ℤ) → (if ltb (d - 1) d then x else pos 0) ≡ (if d == 0 then pos 0 else x)
parent_credit d x = ground arith

module _ (env : Env) (cur : Values) (e : ℕ) (p : Tracer) (audible : p.silent ≡ false) where
  abbrev frame : Frame
  frame = p.frames p.depth

  abbrev inc : Values
  inc = Metric.sub cur frame.start_metric_values

  abbrev exc : Values
  exc = Metric.sub inc frame.children_metric_values

  -- The frame that ends, with its peak.
  abbrev ended : ℕ → Frame
  ended =
      update p.frames p.depth
        (record frame { peak_metric_values = Metric.max frame.peak_metric_values cur })

  abbrev walk : Walk
  walk = settle (p.depth - 1) e inc exc p.depth (record { frames = ended; cycle_depth = 0 })

  ended_below : (i : ℕ) → i < p.depth → ended i ≡ p.frames i
  ended_below i h = update_ne p.frames p.depth _ i (omega arith)

  module _ (below : (i : ℕ) → i < p.depth → HasEntry p.frames i) (m : Metric) where
    settled :
        Settles (p.depth - 1) e inc exc m p.depth (record { frames = ended; cycle_depth = 0 }) walk
    settled =
        settle-Settles (p.depth - 1) e inc exc m p.depth
          (record { frames = ended; cycle_depth = 0 })
          (λ i h. ((below i h).0, ap (λ f. f.func_table_entry) (ended_below i h) ∙ (below i h).1))

    -- The end of a call leaves the entry pointers of the other frames.
    pub leave-entries :
        (i : ℕ)
        → i < p.depth
        → ((leave env cur (some e) p).frames i).func_table_entry ≡ (p.frames i).func_table_entry
    unfolding leave
    leave-entries i h = settled.entries i ∙ ap (λ f. f.func_table_entry) (ended_below i h)

    held : ℤ
    held = sum_below p.depth (children m p.frames)

    held_after :
        sum_below p.depth (children m walk.frames)
        ≡ held
          +ℤ (if p.depth == 0 then pos 0 else inc m)
          -ℤ (if walk.cycle_depth == 0 then pos 0 else exc m)
    unfolding held
    held_after =
        settled.sum
        ∙ ap₂ (λ s c. s +ℤ c -ℤ (if walk.cycle_depth == 0 then pos 0 else exc m))
            (sum_below_congr p.depth (children m ended) (children m p.frames)
              (λ i h. ap (λ f. f.children_metric_values m) (ended_below i h)))
            (parent_credit p.depth (inc m))

    pub leave-books :
        (rest : ℤ)
        → root_inclusive m p.events ≡ rest
        → e < p.func_table.size
        → exclusive m p.func_table ≡ rest +ℤ sum_below (suc p.depth) (children m p.frames)
        → exclusive m (leave env cur (some e) p).func_table
          ≡ root_inclusive m (leave env cur (some e) p).events
            +ℤ sum_below p.depth (children m (leave env cur (some e) p).frames)
    unfolding leave root_inclusive sum_below held
    leave-books rest r h b =
        exclusive-count_call m e walk.cycle_depth inc exc p.func_table h
        ∙ balance (exclusive m p.func_table) rest held (frame.children_metric_values m) (inc m)
            (p.depth == 0) (walk.cycle_depth == 0) b
        ∙ ap₂ (λ x y. (if p.depth == 0 then inc m else pos 0) +ℤ x +ℤ y) (sym r) (sym held_after)
        ∙ ap (λ x. x +ℤ sum_below p.depth (children m walk.frames))
            (sym (heard m p.silent _ p.events audible))
