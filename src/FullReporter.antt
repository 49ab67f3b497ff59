-- ===== src/FullReporter.antt =====
-- The full reporter of src/spx_reporter_full.c: its buffer of events, the text that it prints of
-- them, and what it notes at the end. The text is the list of its bytes. A pointer to the callee's
-- entry is the entry's index, and NULL is none: to follow it ends the process, which is none too.
-- The stream writes what it is given. The file of the metadata is none until it is written.
pub mod Saving
pub mod Texts
pub mod Numbers
pub mod Lines
pub mod Reading
pub mod Entries
pub mod Log
pub mod Bounds
use php_spx.Prelude.{
  ◌<◌, ◌^◌, ◌≡◌, ℕ, zero, suc, ◌+◌, ◌-◌, ◌*◌, ◌/◌, Bool, true, false, List, [], ◌∷◌, ◌++◌, Option,
  none, some, if◌then◌else◌, ltb, update,
}
use php_spx.Prelude.Bytes.{Bytes}
use php_spx.Prelude.Int.{ℤ, pos, negsuc, pos_part}
use php_spx.Metric.{Metric, wall_time, Values, metrics}
use php_spx.FuncTable.{Function, Run, ◌>>=◌}
use php_spx.FullReporter.Saving.{Metadata, save}
use php_spx.Tracer.State.{EventKind, call_start, call_end, finalize, Event, Cost, light, heavy}
use php_spx.StrBuilder.{
  StrBuilder, create, reset, size, remaining, append_char, append_long, append_double, append_str,
  is_zero,
}

abbrev pub buffer_capacity : ℕ
buffer_capacity = 16384

-- `buffer_entry_t`
pub record BufferEntry : Type 0 where
  pub function_idx : ℕ
  pub start : Bool
  pub metric_values : Values

-- `full_reporter_t`
pub record Reporter : Type 0 where
  pub metadata : Metadata
  pub output : Bytes
  pub buffer_size : ℕ
  pub buffer : ℕ → BufferEntry
  pub str_builder : StrBuilder
  pub metadata_file : Option Bytes

-- "[events]\n" and "[functions]\n"
abbrev pub events_header : Bytes
events_header = 91 ∷ 101 ∷ 118 ∷ 101 ∷ 110 ∷ 116 ∷ 115 ∷ 93 ∷ 10 ∷ []

abbrev pub functions_header : Bytes
functions_header = 91 ∷ 102 ∷ 117 ∷ 110 ∷ 99 ∷ 116 ∷ 105 ∷ 111 ∷ 110 ∷ 115 ∷ 93 ∷ 10 ∷ []

-- `spx_reporter_full_create` where each allocation is granted and the file opens; `memory` is what
-- the allocation returns.
abbrev pub made : Metadata → (ℕ → BufferEntry) → Reporter
made noise memory = record {
  metadata = record noise { call_count = 0; recorded_call_count = 0; custom_metadata_str = none };
  output = events_header;
  buffer_size = 0;
  buffer = memory;
  str_builder = create 8192;
  metadata_file = none;
}

-- `scaled` stands for the arithmetic on doubles of the platform: (long) (d * 10000 + 0.5) of a whole
-- number d. It is exact for natural numbers as long as the product with 0.5 is.
abbrev pub IsExact : (ℤ → ℤ) → Type 0
IsExact scaled = (n : ℕ) → n * 10000 < 2 ^ 52 → scaled (pos n) ≡ pos (n * 10000)

unfoldable pub append_number : ℕ → StrBuilder → StrBuilder
append_number n s = (append_long s (pos n)).1

unfoldable pub append_byte : ℕ → StrBuilder → StrBuilder
append_byte c s = (append_char s c).1

abbrev pub flag : Bool → ℕ
flag true = 49
flag false = 48

-- The builder and what has been printed.
pub record Printing : Type 0 where
  pub builder : StrBuilder
  pub printed : Bytes

-- The text is printed where fewer than 128 bytes are left.
abbrev pub spilled : Printing → Printing
spilled p =
    if ltb (remaining p.builder) 128
    then record { builder = reset p.builder; printed = p.printed ++ p.builder.buffer }
    else p

module _ (scaled : ℤ → ℤ) where
  -- `spx_str_builder_append_double` with 4 decimals, for a whole number.
  unfoldable pub append_value : ℤ → StrBuilder → StrBuilder
  append_value v s = (append_double s (is_zero v) (scaled v) 4).1

  -- The loop of `flush_buffer` over the metrics: a space and the value of each enabled one.
  unfoldable pub append_values : (Metric → Bool) → Values → List Metric → StrBuilder → StrBuilder
  append_values enabled values [] s = s
  append_values enabled values (i ∷ is) s =
      append_values enabled values is
        (if enabled i then append_value (values i) (append_byte 32 s) else s)

  -- One entry in the builder.
  unfoldable pub append_entry : (Metric → Bool) → BufferEntry → StrBuilder → StrBuilder
  unfolding append_number append_byte append_values
  append_entry enabled e s =
      (append_str
        (append_values enabled e.metric_values metrics
          (append_byte (flag e.start) (append_byte 32 (append_number e.function_idx s))))
        (10 ∷ [])).1

  abbrev pub with_entry : (Metric → Bool) → BufferEntry → Printing → Printing
  with_entry enabled e p = spilled (record p { builder = append_entry enabled e p.builder })

  -- The loop of `flush_buffer` over the first n entries.
  unfoldable pub print_entries : (Metric → Bool) → ℕ → (ℕ → BufferEntry) → Printing → Printing
  unfolding append_entry
  print_entries enabled zero buffer p = p
  print_entries enabled (suc n) buffer p =
      with_entry enabled (buffer n) (print_entries enabled n buffer p)

  -- `flush_buffer`
  unfoldable pub flush_buffer : (Metric → Bool) → Reporter → Reporter
  unfolding print_entries
  flush_buffer enabled r =
      let p =
        print_entries enabled r.buffer_size r.buffer
          (record { builder = reset r.str_builder; printed = r.output }) in
      record r {
        output = if ltb 0 (size p.builder) then p.printed ++ p.builder.buffer else p.printed;
        str_builder = p.builder;
        buffer_size = 0;
      }

-- "::" where the function has a class
abbrev pub separator : Bytes → Bytes
separator [] = []
separator (c ∷ cs) = 58 ∷ 58 ∷ []

abbrev pub function_lines : List Function → Bytes
function_lines [] = []
function_lines (f ∷ fs) =
    f.class_name ++ (separator f.class_name ++ (f.func_name ++ (10 ∷ function_lines fs)))

-- The metadata that `finalize` completes.
abbrev pub completed : (Metric → Bool) → ℕ → Event → Metadata → Metadata
completed enabled memory_usage e m = record m {
  peak_memory_usage = memory_usage;
  wall_time_ms = pos_part (e.cum wall_time) / 1000;
  called_function_count = e.table_size;
  enabled_metrics = enabled;
}

abbrev pub finished :
    (Metric → Bool) → List Function → ℕ → Event → Reporter → Option Bytes → Reporter
finished enabled functions memory_usage e r file = record r {
  output = r.output ++ (functions_header ++ function_lines functions);
  metadata = completed enabled memory_usage e r.metadata;
  metadata_file = file;
}

-- `finalize`, with the memory usage that PHP tells and whether the file of the metadata opens.
unfoldable pub finish : (Metric → Bool) → List Function → ℕ → Bool → Event → Reporter → Run Reporter
unfolding save
finish enabled functions memory_usage opened e r =
    save opened (completed enabled memory_usage e r.metadata) >>= λ file.
    some (finished enabled functions memory_usage e r file)

abbrev pub counted : Metadata → Metadata
counted m = record m {
  call_count = m.call_count + 1;
  recorded_call_count = m.recorded_call_count + 1;
}

-- The entry of an event.
abbrev pub noted : ℕ → Bool → Event → BufferEntry
noted idx start e = record { function_idx = idx; start = start; metric_values = e.cum }

abbrev pub buffered : ℕ → Bool → Event → Reporter → Reporter
buffered idx start e r = record r {
  buffer = update r.buffer r.buffer_size (noted idx start e);
  buffer_size = r.buffer_size + 1;
}

-- The return in the middle of `full_notify`, or the flush after it.
abbrev pub settled : (ℤ → ℤ) → (Metric → Bool) → Reporter → Cost × Reporter
settled scaled enabled r =
    if ltb r.buffer_size buffer_capacity then (light, r) else (heavy, flush_buffer scaled enabled r)

-- `full_notify` by the kind of the event and its callee
module _ (scaled : ℤ → ℤ) (enabled : Metric → Bool) (functions : List Function) (memory_usage : ℕ)
    (opened : Bool) where
  abbrev pub notified : EventKind → Option ℕ → Event → Reporter → Run (Cost × Reporter)
  notified call_start callee e r =
      callee >>= λ idx. some (settled scaled enabled (buffered idx true e r))
  notified call_end callee e r = callee >>= λ idx.
      some
        (settled scaled enabled (buffered idx false e (record r { metadata = counted r.metadata })))
  notified finalize callee e r =
      finish enabled functions memory_usage opened e (flush_buffer scaled enabled r) >>= λ r'.
      some (heavy, r')

  -- `full_notify`
  unfoldable pub full_notify : Event → Reporter → Run (Cost × Reporter)
  unfolding flush_buffer finish
  full_notify e r = notified e.kind e.callee e r
