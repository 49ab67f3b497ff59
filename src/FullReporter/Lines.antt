-- ===== src/FullReporter/Lines.antt =====
-- What `flush_buffer` of src/spx_reporter_full.c prints: one line for each entry, in order, where
-- a line has at most 128 bytes.
use php_spx.Prelude.{
  ◌*◌, ◌^◌, ℕ, zero, suc, ◌+◌, ◌≤◌, ◌<◌, ◌≡◌, refl, sym, ap, subst, ◌∙◌, Bool, true, false, List,
  [], ◌∷◌, ◌++◌, if◌then◌else◌, ltb, length, length-append, append_assoc, append_nil, Bool-cases,
  inl, inr, if_true, if_false, arith,
}
use php_spx.Prelude.Bytes.{Bytes, decimal}
use php_spx.Prelude.Int.{ℤ, pos, pos_part}
use php_spx.Metric.{Metric, Values, metrics}
use php_spx.StrBuilder.{StrBuilder, size, remaining, reset, append_str}
use php_spx.FullReporter.{
  IsExact, BufferEntry, Printing, Reporter, append_byte, append_number, append_value, append_values,
  append_entry, flag, with_entry, spilled, print_entries, flush_buffer,
}
use php_spx.FullReporter.Numbers.{Adds, grown, append_number-Adds, append_value-Adds}

-- The enabled values, each after a space.
abbrev pub fields : (Metric → Bool) → Values → List Metric → Bytes
fields enabled values [] = []
fields enabled values (i ∷ is) =
    let rest = fields enabled values is in
    if enabled i then 32 ∷ (decimal (pos_part (values i)) ++ rest) else rest

-- The line of an entry.
abbrev pub line : (Metric → Bool) → BufferEntry → Bytes
line enabled e =
    decimal e.function_idx
    ++ (32 ∷ flag e.start ∷ (fields enabled e.metric_values metrics ++ (10 ∷ [])))

-- The lines of the first n entries.
abbrev pub lines : (Metric → Bool) → ℕ → (ℕ → BufferEntry) → Bytes
lines enabled zero buffer = []
lines enabled (suc n) buffer = lines enabled n buffer ++ line enabled (buffer n)

-- The values of the enabled metrics are natural numbers below 2 ^ 52 / 10000, about 4 * 10 ^ 11.
abbrev pub Natural : (Metric → Bool) → Values → Type 0
Natural enabled values =
    (i : Metric)
    → enabled i ≡ true
    → (values i ≡ pos (pos_part (values i))) × (pos_part (values i) * 10000 < 2 ^ 52)

grown-nil : (s : StrBuilder) → s ≡ grown s []
grown-nil s = ap (λ b. record s { buffer = b }) (sym (append_nil s.buffer))

grown-grown : (s : StrBuilder) (t u : Bytes) → grown (grown s t) u ≡ grown s (t ++ u)
grown-grown s t u = ap (λ b. record s { buffer = b }) (append_assoc s.buffer t u)

-- One step after another.
Adds-compose :
    {f g : StrBuilder → StrBuilder} (t u : Bytes)
    → Adds f t
    → Adds g u
    → Adds (λ s. g (f s)) (t ++ u)
Adds-compose {g} t u first second s fits =
    ap g (first s (omega (arith, length-append t u)))
    ∙ second (grown s t) (omega (arith, length-append t u, length-append s.buffer t))
    ∙ grown-grown s t u

append_byte-Adds : (c : ℕ) → Adds (append_byte c) (c ∷ [])
unfolding append_byte
append_byte-Adds c s fits = ground arith

-- A line that is printed whole.
abbrev pub Fits : (Metric → Bool) → BufferEntry → Type 0
Fits enabled e = Natural enabled e.metric_values × (length (line enabled e) ≤ 128)

module _ (scaled : ℤ → ℤ) (exact : IsExact scaled) where
  field-Adds :
      (enabled : Bool) (n : ℕ)
      → n * 10000 < 2 ^ 52
      → Adds
          (λ s. if enabled then append_value scaled (pos n) (append_byte 32 s) else s)
          (if enabled then 32 ∷ decimal n else [])
  field-Adds true n small =
      Adds-compose {g = append_value scaled (pos n)} (32 ∷ []) (decimal n) (append_byte-Adds 32)
        (append_value-Adds scaled exact n small)
  field-Adds false n small = λ s fits. grown-nil s

  module _ (enabled : Metric → Bool) (values : Values) (natural : Natural enabled values) where
    one_field :
        (i : Metric)
        → Adds
            (λ s. if enabled i then append_value scaled (values i) (append_byte 32 s) else s)
            (if enabled i then 32 ∷ decimal (pos_part (values i)) else [])
    one_field i = either (enabled i) refl
      where
        either :
            (b : Bool)
            → enabled i ≡ b
            → Adds
                (λ s. if b then append_value scaled (values i) (append_byte 32 s) else s)
                (if b then 32 ∷ decimal (pos_part (values i)) else [])
        either true e =
            subst
              (λ v.
                Adds (λ s. append_value scaled v (append_byte 32 s))
                  (32 ∷ decimal (pos_part (values i))))
              (sym (natural i e).0) (field-Adds true (pos_part (values i)) (natural i e).1)
        either false e = field-Adds false 0 (omega arith)

    append_values-Adds :
        (is : List Metric)
        → Adds (append_values scaled enabled values is) (fields enabled values is)
    unfolding append_values
    append_values-Adds [] = λ s fits. grown-nil s
    append_values-Adds (i ∷ is) =
        subst (Adds (append_values scaled enabled values (i ∷ is))) (joined (enabled i)) (
          Adds-compose {g = append_values scaled enabled values is} _ (fields enabled values is)
            (one_field i) (append_values-Adds is))
      where
        joined :
            (b : Bool)
            → (if b then 32 ∷ decimal (pos_part (values i)) else []) ++ fields enabled values is ≡ (
                if b
                then 32 ∷ (decimal (pos_part (values i)) ++ fields enabled values is)
                else fields enabled values is)
        joined true = refl
        joined false = refl

  -- The line of an entry is added wherever it fits.
  append_entry-line :
      (enabled : Metric → Bool) (e : BufferEntry) (s : StrBuilder)
      → Natural enabled e.metric_values
      → size s + length (line enabled e) ≤ s.capacity
      → append_entry scaled enabled e s ≡ grown s (line enabled e)
  unfolding append_entry
  append_entry-line enabled e s natural fits =
      ap (λ b. (append_str b (10 ∷ [])).1) (body s (omega (arith, before)))
      ∙ newline (grown s text) (omega (arith, before, length-append s.buffer text))
      ∙ ap (λ t. record s { buffer = t })
          (append_assoc s.buffer text (10 ∷ []) ∙ ap (λ t. s.buffer ++ t) whole)
    where
      text : Bytes
      text = decimal e.function_idx ++ (32 ∷ flag e.start ∷ fields enabled e.metric_values metrics)

      body :
          Adds
            (λ s.
              append_values scaled enabled e.metric_values metrics
                (append_byte (flag e.start) (append_byte 32 (append_number e.function_idx s))))
            text
      body =
          Adds-compose
            {g = λ s.
              append_values scaled enabled e.metric_values metrics
                (append_byte (flag e.start) (append_byte 32 s))}
            (decimal e.function_idx) _ (append_number-Adds e.function_idx)
            (Adds-compose
              {g = λ s.
                append_values scaled enabled e.metric_values metrics (append_byte (flag e.start) s)}
              (32 ∷ []) _ (append_byte-Adds 32)
              (Adds-compose {g = append_values scaled enabled e.metric_values metrics}
                (flag e.start ∷ []) _ (append_byte-Adds (flag e.start))
                (append_values-Adds enabled e.metric_values natural metrics)))

      whole : text ++ (10 ∷ []) ≡ line enabled e
      whole =
          append_assoc (decimal e.function_idx)
            (32 ∷ flag e.start ∷ fields enabled e.metric_values metrics) (10 ∷ [])

      before : length (line enabled e) ≡ length text + 1
      before = ap length (sym whole) ∙ length-append text (10 ∷ [])

      newline :
          (s : StrBuilder) → size s < s.capacity → (append_str s (10 ∷ [])).1 ≡ grown s (10 ∷ [])
      newline s room = ground arith

  -- What has been written after `before`, with room for a line.
  pub record Holds (before text : Bytes) (p : Printing) : Type 0 where
    pub written : p.printed ++ p.builder.buffer ≡ before ++ text
    pub room : 128 ≤ remaining p.builder
    pub capacity : p.builder.capacity ≡ 8192

  spilled-Holds :
      (before text : Bytes) (p : Printing)
      → p.printed ++ p.builder.buffer ≡ before ++ text
      → p.builder.capacity ≡ 8192
      → Holds before text (spilled p)
  spilled-Holds before text p written capacity = elim (Bool-cases (ltb (remaining p.builder) 128)) [
    | inl full ↦ subst (Holds before text) (sym (if_true _ _ p full)) (record {
      written = append_nil (p.printed ++ p.builder.buffer) ∙ written;
      room = omega arith;
      capacity = capacity;
    })
    | inr left ↦
        subst (Holds before text) (sym (if_false _ _ p left))
          (record { written = written; room = ground arith; capacity = capacity })
  ]

  module _ (enabled : Metric → Bool) where
    with_entry-Holds :
        (before text : Bytes) (e : BufferEntry) (p : Printing)
        → Fits enabled e
        → Holds before text p
        → Holds before (text ++ line enabled e) (with_entry scaled enabled e p)
    with_entry-Holds before text e p (natural, short) h =
        subst (λ b. Holds before (text ++ line enabled e) (spilled (record p { builder = b })))
          (sym (append_entry-line enabled e p.builder natural (omega (arith, h.room))))
          (spilled-Holds before (text ++ line enabled e)
            (record p { builder = grown p.builder (line enabled e) })
            (sym (append_assoc p.printed p.builder.buffer (line enabled e))
              ∙ ap (λ t. t ++ line enabled e) h.written
              ∙ append_assoc before text (line enabled e))
            h.capacity)

    print_entries-Holds :
        (n : ℕ) (buffer : ℕ → BufferEntry) (before : Bytes) (p : Printing)
        → ((i : ℕ) → i < n → Fits enabled (buffer i))
        → Holds before [] p
        → Holds before (lines enabled n buffer) (print_entries scaled enabled n buffer p)
    unfolding print_entries
    print_entries-Holds zero buffer before p fits h = h
    print_entries-Holds (suc n) buffer before p fits h =
        with_entry-Holds before (lines enabled n buffer) (buffer n) _ (fits n (omega arith))
          (print_entries-Holds n buffer before p (λ i q. fits i (omega arith)) h)

    -- The flush prints the line of each entry of the buffer, in order, and nothing else.
    pub flush_buffer-lines :
        (r : Reporter)
        → r.str_builder.capacity ≡ 8192
        → ((i : ℕ) → i < r.buffer_size → Fits enabled (r.buffer i))
        → ((flush_buffer scaled enabled r).output
            ≡ r.output ++ lines enabled r.buffer_size r.buffer)
          × ((flush_buffer scaled enabled r).str_builder.capacity ≡ 8192)
    unfolding flush_buffer
    flush_buffer-lines r capacity fits = (
      last (print_entries scaled enabled r.buffer_size r.buffer start) held.written,
      held.capacity,
    )
      where
        start : Printing
        start = record { builder = reset r.str_builder; printed = r.output }

        held :
            Holds r.output
              (lines enabled r.buffer_size r.buffer)
              (print_entries scaled enabled r.buffer_size r.buffer start)
        held =
            print_entries-Holds r.buffer_size r.buffer r.output start fits
              (record { written = refl; room = omega arith; capacity = capacity })

        from_buffer :
            {t : Bytes} (printed buffer : Bytes)
            → printed ++ buffer ≡ t
            → (if ltb 0 (length buffer) then printed ++ buffer else printed) ≡ t
        from_buffer printed [] e = sym (append_nil printed) ∙ e
        from_buffer printed (c ∷ cs) e =
            if_true (ltb 0 (length (c ∷ cs))) _ printed (ground arith) ∙ e

        last :
            {t : Bytes} (p : Printing)
            → p.printed ++ p.builder.buffer ≡ t
            → (if ltb 0 (size p.builder) then p.printed ++ p.builder.buffer else p.printed) ≡ t
        last p e = from_buffer p.printed p.builder.buffer e
