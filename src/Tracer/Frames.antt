-- ===== src/Tracer/Frames.antt =====
-- The loop over the parent frames in `tracing_profiler_call_end` of src/spx_profiler_tracer.c.
use php_spx.Prelude.{ℕ, zero, suc, ◌+◌, Option, none, some, if◌then◌else◌, ◌==◌, update}
use php_spx.Metric
use php_spx.Metric.{Values}
use php_spx.Tracer.State.{Frame}

-- What the loop changes: the frames, and how often it met the function.
pub record Walk : Type 0 where
  pub frames : ℕ → Frame
  pub cycle_depth : ℕ

module _ (top entry : ℕ) (inc exc : Values) where
  abbrev pub credited : ℕ → Frame → Frame
  credited i parent =
      if i == top
      then record parent { children_metric_values = Metric.add parent.children_metric_values inc }
      else parent

  abbrev pub debited : Frame → Frame
  debited parent = record parent {
    children_metric_values = Metric.sub parent.children_metric_values exc;
  }

  -- The body of the loop for the frame `i`, whose entry pointer is `e`.
  unfoldable pub visit : ℕ → Option ℕ → Walk → Walk
  visit i none w = w
  visit i (some e) w =
      let parent = credited i (w.frames i) in
      if e == entry
      then record {
        frames = update w.frames i (if w.cycle_depth == 0 then debited parent else parent);
        cycle_depth = w.cycle_depth + 1;
      }
      else record w { frames = update w.frames i parent }

  -- The loop from the frame `n - 1` down to 0.
  unfoldable pub settle : ℕ → Walk → Walk
  unfolding visit
  settle zero w = w
  settle (suc i) w = settle i (visit i (w.frames i).func_table_entry w)
