-- ===== src/FullReporter/Log.antt =====
-- What the full reporter of src/spx_reporter_full.c makes of a whole run.
use php_spx.Prelude.{
  ℕ, suc, ◌+◌, ◌<◌, ◌≡◌, ◌≢◌, refl, sym, ap, subst, ◌∙◌, Bool, true, false, List, [], ◌∷◌, ◌++◌,
  map, Option, none, some, ltb, update, update_self, update_ne, if_true, if_false, Bool-cases, inl,
  inr, append_assoc, append_nil, arith, ◌⊎◌,
}
use php_spx.Prelude.Bytes.{Bytes}
use php_spx.Prelude.Int.{ℤ}
use php_spx.Metric.{Metric}
use php_spx.FuncTable.{Function, Run, ◌>>=◌}
use php_spx.Tracer.State.{EventKind, call_start, call_end, finalize, Event, Cost, heavy}
use php_spx.FullReporter.{
  IsExact, BufferEntry, Reporter, buffer_capacity, events_header, functions_header, made,
  flush_buffer, function_lines, finish, finished, completed, counted, noted, buffered, settled,
  notified, full_notify,
}
use php_spx.FullReporter.Saving.{Metadata, save}
use php_spx.FullReporter.Texts.{Writable, save_text-written_iff}
use php_spx.FullReporter.Lines.{line, lines, Fits, flush_buffer-lines}
use php_spx.FullReporter.Reading.{read_lines, row_of, text_of, read_lines-text_of}
use php_spx.FullReporter.Entries.{
  is_start, callee_of, entry_of, AllCalls, entries_of, ends_in, ends_of, text_of-append,
  lines-congr,
}

module _ (scaled : ℤ → ℤ) (enabled : Metric → Bool) (functions : List Function) (memory_usage : ℕ)
    (opened : Bool) where
  -- The reporter after a list of events, the last one first; none where it ends the process.
  unfoldable pub told : List Event → Reporter → Run Reporter
  unfolding full_notify
  told [] r = some r
  told (e ∷ es) r = told es r >>= λ r'.
      full_notify scaled enabled functions memory_usage opened e r' >>= λ answer. some answer.1

  -- What is printed and what waits in the buffer are the header and a text.
  record Logs (text : Bytes) (ends : ℕ) (r : Reporter) : Type 0 where
    logged : r.output ++ lines enabled r.buffer_size r.buffer ≡ events_header ++ text
    fits : (i : ℕ) → i < r.buffer_size → Fits enabled (r.buffer i)
    capacity : r.str_builder.capacity ≡ 8192
    calls : r.metadata.call_count ≡ ends
    recorded : r.metadata.recorded_call_count ≡ ends
    writable : Writable r.metadata

  -- There is room for the next entry, too.
  abbrev Keeps : Bytes → ℕ → Reporter → Type 0
  Keeps text ends r = Logs text ends r × (r.buffer_size < buffer_capacity)

  -- What the files and the metadata are once the profiler is finalized.
  abbrev pub Logged : List Event → Reporter → Type 0
  Logged es r =
      (t : Bytes) × (r.output
        ≡ events_header ++ (t ++ (functions_header ++ function_lines functions)))
      × (read_lines t ≡ map (row_of enabled) (entries_of es))
      × (r.buffer_size ≡ 0)
      × (r.metadata.call_count ≡ ends_of es)
      × (r.metadata.recorded_call_count ≡ ends_of es)
      × (save opened r.metadata ≡ some r.metadata_file)

  module _ (exact : IsExact scaled) where
    flushed-Keeps :
        (text : Bytes) (ends : ℕ) (r : Reporter)
        → Logs text ends r
        → Keeps text ends (flush_buffer scaled enabled r)
          × ((flush_buffer scaled enabled r).buffer_size ≡ 0)
          × ((flush_buffer scaled enabled r).output ≡ events_header ++ text)
    unfolding flush_buffer
    flushed-Keeps text ends r h =
        let (printed, wide) = flush_buffer-lines scaled exact enabled r h.capacity h.fits in
        let whole : (flush_buffer scaled enabled r).output ≡ events_header ++ text =
          printed ∙ h.logged in
        (
          (
            record {
              logged = append_nil _ ∙ whole;
              fits = λ i q. absurd (omega arith);
              capacity = wide;
              calls = h.calls;
              recorded = h.recorded;
              writable = h.writable;
            },
            omega arith,
          ),
          refl,
          whole,
        )

    settled-Keeps :
        (text : Bytes) (ends : ℕ) (r : Reporter)
        → Logs text ends r
        → Keeps text ends (settled scaled enabled r).1
    settled-Keeps text ends r h = elim (Bool-cases (ltb r.buffer_size buffer_capacity)) [
      | inl room ↦
          subst {A = Cost × Reporter} (λ a. Keeps text ends a.1) (sym (if_true _ _ _ room))
            (h, ground arith)
      | inr full ↦
          subst {A = Cost × Reporter} (λ a. Keeps text ends a.1) (sym (if_false _ _ _ full))
            (flushed-Keeps text ends r h).0
    ]

    buffered-Logs :
        (text : Bytes) (ends : ℕ) (idx : ℕ) (start : Bool) (e : Event) (r : Reporter)
        → Logs text ends r
        → Fits enabled (noted idx start e)
        → Logs (text ++ line enabled (noted idx start e)) ends (buffered idx start e r)
    buffered-Logs text ends idx start e r h fit = record {
      logged =
          ap (λ n. r.output ++ lines enabled n cells) (next r.buffer_size)
          ∙ ap (λ t. r.output ++ t)
              (last_line (update_self r.buffer r.buffer_size entry) (
                lines-congr enabled r.buffer_size cells r.buffer
                  (λ i q. update_ne r.buffer r.buffer_size entry i (omega arith))))
          ∙ sym (append_assoc r.output (lines enabled r.buffer_size r.buffer) (line enabled entry))
          ∙ ap (λ t. t ++ line enabled entry) h.logged
          ∙ append_assoc events_header text (line enabled entry);
      fits = λ i q. either i q (Bool-cases (ltb i r.buffer_size));
      capacity = h.capacity;
      calls = h.calls;
      recorded = h.recorded;
      writable = h.writable;
    }
      where
        entry : BufferEntry
        entry = noted idx start e

        cells : ℕ → BufferEntry
        cells = update r.buffer r.buffer_size entry

        next : (n : ℕ) → n + 1 ≡ suc n
        next n = omega arith

        last_line :
            {x y : BufferEntry} {s t : Bytes}
            → x ≡ y
            → s ≡ t
            → s ++ line enabled x ≡ t ++ line enabled y
        last_line a b = rw (a, b) refl

        either :
            (i : ℕ)
            → i < r.buffer_size + 1
            → (ltb i r.buffer_size ≡ true) ⊎ (ltb i r.buffer_size ≡ false)
            → Fits enabled (cells i)
        either i q (inl old) =
            subst (Fits enabled) (sym (update_ne r.buffer r.buffer_size entry i (ground arith)))
              (h.fits i (ground arith))
        either i q (inr new) =
            let same : r.buffer_size ≡ i = ground arith in
            subst (λ j. Fits enabled (cells j)) same
              (subst (Fits enabled) (sym (update_self r.buffer r.buffer_size entry)) fit)

    -- A call's start or end is logged.
    notified-Keeps :
        (kind : EventKind) (callee : Option ℕ) (e : Event) (text : Bytes) (ends : ℕ) (r : Reporter)
        → kind ≢ finalize
        → callee ≢ none
        → let entry = noted (callee_of callee) (is_start kind) e in
          Fits enabled entry
          → Logs text ends r
          → (a : Cost × Reporter) × (notified scaled enabled functions memory_usage opened kind
                callee e r
              ≡ some a)
            × Keeps (text ++ line enabled entry) (ends + ends_in kind) a.1
    notified-Keeps kind none e text ends r call there fit h = absurd (there refl)
    notified-Keeps finalize (some idx) e text ends r call there fit h = absurd (call refl)
    notified-Keeps call_start (some idx) e text ends r call there fit h =
        let same : ends ≡ ends + 0 = omega arith in
        (
          _,
          refl,
          settled-Keeps _ _ _ (
              subst (λ n. Logs (text ++ line enabled (noted idx true e)) n (buffered idx true e r))
                same (buffered-Logs text ends idx true e r h fit)),
        )
    notified-Keeps call_end (some idx) e text ends r call there fit h = (
      _,
      refl,
      settled-Keeps _ _ _ (
          buffered-Logs text (ends + 1) idx false e (record r { metadata = counted r.metadata })
            (record {
              logged = h.logged;
              fits = h.fits;
              capacity = h.capacity;
              calls = ap (λ n. n + 1) h.calls;
              recorded = ap (λ n. n + 1) h.recorded;
              writable = h.writable;
            })
            fit),
    )

    saved : (b : Bool) (m : Metadata) → Writable m → (file : Option Bytes) × (save b m ≡ some file)
    unfolding save
    saved true m w =
        let (t, e) = (save_text-written_iff m).1 w in
        (some t, ap (λ o. o >>= λ text. some (some text)) e)
    saved false m w = (none, refl)

    finish-Logged :
        (kind : EventKind) (e : Event) (es : List Event) (r : Reporter)
        → kind ≡ finalize
        → Keeps (text_of enabled (entries_of es)) (ends_of es) r
        → (a : Cost × Reporter) × (notified scaled enabled functions memory_usage opened kind
              e.callee e r
            ≡ some a)
          × Logged es a.1
    unfolding finish
    finish-Logged call_start e es r last kept = absurd (cc)
    finish-Logged call_end e es r last kept = absurd (cc)
    finish-Logged finalize e es r last kept =
        let text = text_of enabled (entries_of es) in
        let tail = functions_header ++ function_lines functions in
        let r' = flush_buffer scaled enabled r in
        let ((logs, room), emptied, whole) = flushed-Keeps text (ends_of es) r kept.0 in
        let (file, e') =
          saved opened (completed enabled memory_usage e r'.metadata) logs.writable in
        (
          (heavy, finished enabled functions memory_usage e r' file),
          rw e' refl,
          (
            text,
            ap (λ t. t ++ tail) whole ∙ append_assoc events_header text tail,
            read_lines-text_of enabled (entries_of es),
            emptied,
            logs.calls,
            logs.recorded,
            e',
          ),
        )

    module _ (noise : Metadata) (memory : ℕ → BufferEntry)
        (fine : Writable (made noise memory).metadata) where
      told-Keeps :
          (es : List Event)
          → AllCalls enabled es
          → (r : Reporter) × (told es (made noise memory) ≡ some r)
            × Keeps (text_of enabled (entries_of es)) (ends_of es) r
      unfolding told full_notify
      told-Keeps [] calls = (
        made noise memory,
        refl,
        (
          record {
            logged = refl;
            fits = λ i q. absurd (omega arith);
            capacity = refl;
            calls = refl;
            recorded = refl;
            writable = fine;
          },
          omega arith,
        ),
      )
      told-Keeps (e ∷ es) ((call, there, fit), calls) =
          let (r, run, logs) = told-Keeps es calls in
          let (a, answered, kept) =
            notified-Keeps e.kind e.callee e (text_of enabled (entries_of es)) (ends_of es) r call
              there fit logs.0 in
          (a.1, rw (run, answered) refl, subst (λ t. Keeps t (ends_of (e ∷ es)) a.1) longer kept)
        where
          longer :
              text_of enabled (entries_of es) ++ line enabled (entry_of e)
              ≡ text_of enabled (entries_of es ++ (entry_of e ∷ []))
          longer =
              ap (λ t. text_of enabled (entries_of es) ++ t)
                (sym (append_nil (line enabled (entry_of e))))
              ∙ sym (text_of-append enabled (entries_of es) (entry_of e ∷ []))

      -- With an arithmetic on doubles that is exact on small numbers, after the calls of a run, each
      -- of a known function and logged in a line of at most 128 bytes with natural numbers below
      -- 2 ^ 52 / 10000, and the end of the profiler, with metadata that can be written: the reporter
      -- has not ended the process; what it has printed is the header of the events, a text that
      -- reads back as all the starts and ends, in order, with the function and the enabled values
      -- of each, and the names of the functions; the buffer is empty, the two counters are the
      -- number of calls ended, and the file of the metadata is what is saved of the metadata.
      pub told-Logged :
          (e : Event) (es : List Event)
          → e.kind ≡ finalize
          → AllCalls enabled es
          → (r : Reporter) × (told (e ∷ es) (made noise memory) ≡ some r) × Logged es r
      unfolding told full_notify
      told-Logged e es last calls =
          let (r, run, kept) = told-Keeps es calls in
          let (a, answered, logged) = finish-Logged e.kind e es r last kept in
          (a.1, rw (run, answered) refl, logged)
