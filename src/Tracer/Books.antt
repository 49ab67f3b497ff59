-- ===== src/Tracer/Books.antt =====
-- The books of the tracing profiler (src/spx_profiler_tracer.c): the exclusive values that the
-- function table accounts for, the inclusive values of the outermost calls that the reporter was
-- told of, and what the running calls hold for their children.
pub mod Leave
pub mod End
pub mod Enter
pub mod Calibrate
pub mod History
use php_spx.Prelude.{
  ℕ, suc, ◌+◌, ◌-◌, ◌≤◌, ◌<◌, ◌≡◌, refl, Bool, true, false, List, [], ◌∷◌, Option, none, some,
  arith, if◌then◌else◌, ◌==◌, ltb, min,
}
use php_spx.Prelude.Bytes.{Bytes}
use php_spx.Prelude.Int.{ℤ, pos, ◌+ℤ◌, ◌-ℤ◌}
use php_spx.Metric.{Metric, Values}
use php_spx.Metric.Sums.{sum_below}
use php_spx.FuncTable.{FuncTable}
use php_spx.FuncTable.Laws.{IsValid}
use php_spx.Tracer.State.{Tracer, Frame, Event, EventKind, call_start, call_end, finalize}
use php_spx.Tracer.Settle.{children}

-- The sum of the exclusive values of all functions in the table.
abbrev pub exclusive : Metric → FuncTable → ℤ
exclusive m t = sum_below t.size (λ i. (t.entries i).stats.exc m)

abbrev pub root_part : Metric → EventKind → ℕ → Option Values → ℤ
root_part m call_end depth (some inc) = if depth == 0 then inc m else pos 0
root_part m _ depth inc = pos 0

-- The sum of the inclusive values in the events of calls that ended at depth 0.
unfoldable pub root_inclusive : Metric → List Event → ℤ
root_inclusive m [] = pos 0
root_inclusive m (e ∷ es) = root_part m e.kind e.depth e.inc +ℤ root_inclusive m es

-- The number of frames in use: deeper calls are not recorded.
abbrev pub recorded : Tracer → ℕ
recorded p = min p.depth p.max_depth

abbrev pub pending : Metric → Tracer → ℤ
pending m p = sum_below (recorded p) (children m p.frames)

-- A frame whose pointer is to an entry in use.
abbrev pub Points : ℕ → (ℕ → Frame) → ℕ → Type 0
Points size frames i = (e : ℕ) × ((frames i).func_table_entry ≡ some e) × (e < size)

-- The invariant of a profiler between two calls, after its calibration, but for `active`.
pub record Core (zend_hash : Bytes → ℕ) (p : Tracer) : Type 0 where
  pub audible : p.silent ≡ false
  pub positive : 0 < p.max_depth
  pub allocated : p.max_depth ≤ p.capacity
  pub table : IsValid zend_hash p.func_table
  pub owned : (i : ℕ) → i < recorded p → Points p.func_table.size p.frames i
  pub books : (m : Metric) → exclusive m p.func_table ≡ root_inclusive m p.events +ℤ pending m p

pub record Inv (zend_hash : Bytes → ℕ) (p : Tracer) : Type 0 where
  pub core : Core zend_hash p
  pub open core use *
  pub aware : p.active ≡ ltb p.depth p.max_depth
