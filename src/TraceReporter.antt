-- ===== src/TraceReporter.antt =====
-- The trace reporter of src/spx_reporter_trace.c: its buffer, and what it prints. An item of the
-- output is the header or a row, newest first; how a row is formatted, the flushes of the stream
-- and the message on stderr are left out.
pub mod Log
use php_spx.Prelude.{
  ℕ, zero, suc, ◌+◌, Bool, true, false, not, ◌&&◌, List, [], ◌∷◌, Option, none, some, if◌then◌else◌,
  ltb, update,
}
use php_spx.Metric.{Values}
use php_spx.Tracer.State.{EventKind, call_start, call_end, finalize, Event, Cost, light, heavy}

abbrev pub buffer_capacity : ℕ
buffer_capacity = 16384

-- `buffer_entry_t`; the function is the index of the callee's entry. The values of a row that are
-- printed only for the end of a call are none for its start.
pub record Row : Type 0 where
  pub event_type : EventKind
  pub function : Option ℕ
  pub depth : ℕ
  pub cum_metric_values : Values
  pub inc_metric_values : Option Values
  pub exc_metric_values : Option Values

pub data Item : Type 0 where
  header : Item
  row : Row → Item

-- `trace_reporter_t`
pub record Reporter : Type 0 where
  pub safe : Bool
  pub first : Bool
  pub buffer_size : ℕ
  pub buffer : ℕ → Row
  pub output : List Item

-- `spx_reporter_trace_create` once the path is accepted and the file is open; `memory` is what the
-- allocation returns.
abbrev pub create : Bool → (ℕ → Row) → Reporter
create safe memory = record {
  safe = safe;
  first = true;
  buffer_size = 0;
  buffer = memory;
  output = [];
}

-- The row that `trace_notify` writes for an event.
abbrev pub row_of : Event → Row
row_of e = record {
  event_type = e.kind;
  function = e.callee;
  depth = e.depth;
  cum_metric_values = e.cum;
  inc_metric_values = elim e.kind [ call_start ↦ none | call_end ↦ e.inc | finalize ↦ none ];
  exc_metric_values = elim e.kind [ call_start ↦ none | call_end ↦ e.exc | finalize ↦ none ];
}

-- The loop of `flush_buffer` over the first `n` rows.
unfoldable pub print_rows : ℕ → (ℕ → Row) → List Item → List Item
print_rows zero buffer output = output
print_rows (suc n) buffer output = row (buffer n) ∷ print_rows n buffer output

-- `flush_buffer`
unfoldable pub flush_buffer : Reporter → Reporter
unfolding print_rows
flush_buffer p = record p {
  first = false;
  output = print_rows p.buffer_size p.buffer (if p.first then header ∷ p.output else p.output);
  buffer_size = 0;
}

abbrev pub buffered : Event → Reporter → Reporter
buffered e p = record p {
  buffer = update p.buffer p.buffer_size (row_of e);
  buffer_size = p.buffer_size + 1;
}

-- The return in the middle of `trace_notify`, or the flush after it.
abbrev pub settled : Reporter → Cost × Reporter
settled p =
    if ltb p.buffer_size buffer_capacity && not p.safe then (light, p) else (heavy, flush_buffer p)

-- `trace_notify` by the kind of the event
abbrev pub notified : EventKind → Event → Reporter → Cost × Reporter
notified finalize e p = (heavy, flush_buffer p)
notified _ e p = settled (buffered e p)

-- `trace_notify`
unfoldable pub trace_notify : Event → Reporter → Cost × Reporter
unfolding flush_buffer
trace_notify e p = notified e.kind e p
