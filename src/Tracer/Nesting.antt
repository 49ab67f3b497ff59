-- ===== src/Tracer/Nesting.antt =====
-- What the tracing profiler of src/spx_profiler_tracer.c tells its reporter: nested calls.
pub mod Steps
pub mod Runs
use php_spx.Prelude.{
  ℕ, zero, suc, ◌+◌, ◌-◌, ◌≤◌, ◌<◌, ◌≡◌, ◌≢◌, refl, sym, ap, subst, ◌∙◌, Bool, true, false, not,
  ◌&&◌, List, [], ◌∷◌, Option, none, some, if◌then◌else◌, ltb, ◌==◌, update, update_self, update_ne,
  if_true, if_false, Bool-cases, inl, inr, min, arith, ◌⊎◌,
}
use php_spx.Prelude.Bytes.{Bytes}
use php_spx.Metric.{Values}
use php_spx.Metric.Collector
use php_spx.Metric.Collector.{Collector}
use php_spx.FuncTable
use php_spx.StringPool.{Pool}
use php_spx.FuncTable.{FuncTable, Function, Run, ◌>>=◌}
use php_spx.Tracer.State.{Frame, EventKind, call_start, call_end, finalize, Event, Tracer, Env}
use php_spx.Tracer.Frames.{Walk, visit, settle}
use php_spx.Tracer.{
  notify, report, fill_event, caller_of, advance, observe_start, observe_end, started, enter,
  counted, count_call, leave, end_call, Calibration, cap_depth, time_noise, end_rounds,
  start_rounds, record_start, start_calibrated, calibrate, start_call, unwind, finalize_all,
}

-- The calls that are open after an event.
abbrev pub opened : EventKind → Option ℕ → List ℕ → Option (List ℕ)
opened call_start none below = none
opened call_start (some i) below = some (i ∷ below)
opened call_end none below = none
opened call_end (some i) [] = none
opened call_end (some i) (j ∷ below) = if i == j then some below else none
opened finalize callee below = some below

-- The calls that are open after events, of which the last comes first; none where a call ends that is not the
-- one that started last, or a call has no function.
unfoldable pub replay : List Event → Option (List ℕ)
replay [] = some []
replay (e ∷ es) = replay es >>= opened e.kind e.callee

-- The functions of the first n frames, the topmost first.
abbrev pub push : Option ℕ → List ℕ → List ℕ
push none below = below
push (some i) below = i ∷ below

abbrev pub open_frames : ℕ → (ℕ → Frame) → List ℕ
open_frames zero frames = []
open_frames (suc n) frames = push (frames n).func_table_entry (open_frames n frames)

open_frames-congr :
    (n : ℕ) (f g : ℕ → Frame)
    → ((i : ℕ) → i < n → (f i).func_table_entry ≡ (g i).func_table_entry)
    → open_frames n f ≡ open_frames n g
open_frames-congr zero f g h = refl
open_frames-congr (suc n) f g h =
    rw (h n (omega arith), open_frames-congr n f g (λ i q. h i (omega arith))) refl

visit-entries :
    (top entry : ℕ) (inc exc : Values) (i : ℕ) (o : Option ℕ) (w : Walk) (j : ℕ)
    → ((visit top entry inc exc i o w).frames j).func_table_entry ≡ (w.frames j).func_table_entry
unfolding visit
visit-entries top entry inc exc i none w j = refl
visit-entries top entry inc exc i (some e) w j = ground arith

-- The loop over the parent frames keeps the functions of the frames.
settle-entries :
    (top entry : ℕ) (inc exc : Values) (n : ℕ) (w : Walk) (j : ℕ)
    → ((settle top entry inc exc n w).frames j).func_table_entry ≡ (w.frames j).func_table_entry
unfolding settle
settle-entries top entry inc exc zero w j = refl
settle-entries top entry inc exc (suc i) w j =
    settle-entries top entry inc exc i (visit top entry inc exc i (w.frames i).func_table_entry w) j
    ∙ visit-entries top entry inc exc i (w.frames i).func_table_entry w j

-- What is written at depth d stands on the frames below it.
open_frames-under :
    (d : ℕ) (f : ℕ → Frame) (x : Frame) → open_frames d (update f d x) ≡ open_frames d f
open_frames-under d f x =
    open_frames-congr d (update f d x) f
      (λ i q. ap (λ (y : Frame). y.func_table_entry) (update_ne f d x i (omega arith)))

open_frames-update :
    (d : ℕ) (f : ℕ → Frame) (x : Frame)
    → open_frames (suc d) (update f d x) ≡ push x.func_table_entry (open_frames d f)
open_frames-update d f x =
    ap (λ (y : Frame). push y.func_table_entry (open_frames d (update f d x))) (update_self f d x)
    ∙ ap (push x.func_table_entry) (open_frames-under d f x)

-- A frame that is entered at depth d.
pub enter-replay :
    (env : Env) (cur : Values) (entry : Option ℕ) (p : Tracer)
    → p.silent ≡ false
    → replay p.events ≡ some (open_frames p.depth p.frames)
    → replay (enter env cur entry p).events
      ≡ some (open_frames (suc p.depth) (enter env cur entry p).frames)
unfolding enter replay
enter-replay env cur none p audible h =
    h
    ∙ ap some (
        sym (
          open_frames-update p.depth p.frames
            (record (p.frames p.depth) { func_table_entry = none })))
enter-replay env cur (some entry) p audible h =
    ap replay (if_false p.silent _ _ audible)
    ∙ ap (λ o. o >>= opened call_start (some entry)) h
    ∙ ap some (sym (open_frames-update p.depth p.frames (started entry cur)))

-- A frame that is left at depth d.
pub leave-replay :
    (env : Env) (cur : Values) (entry : Option ℕ) (p : Tracer)
    → (p.frames p.depth).func_table_entry ≡ entry
    → p.silent ≡ false
    → replay p.events ≡ some (open_frames (suc p.depth) p.frames)
    → replay (leave env cur entry p).events
      ≡ some (open_frames p.depth (leave env cur entry p).frames)
unfolding leave replay
leave-replay env cur none p top audible h =
    h ∙ ap (λ o. some (push o (open_frames p.depth p.frames))) top
leave-replay env cur (some entry) p top audible h =
    ap replay (if_false p.silent _ _ audible)
    ∙ ap (λ o. o >>= opened call_end (some entry))
        (h ∙ ap (λ o. some (push o (open_frames p.depth p.frames))) top)
    ∙ if_true (entry == entry) _ _ (ground arith)
    ∙ ap some (sym kept)
  where
    kept : open_frames p.depth (leave env cur (some entry) p).frames ≡ open_frames p.depth p.frames
    kept = open_frames-congr p.depth _ _ (λ j q.
        settle-entries (p.depth - 1) entry _ _ p.depth _ j
        ∙ ap (λ (y : Frame). y.func_table_entry) (update_ne p.frames p.depth _ j (omega arith)))
