-- ===== src/FullReporter/Bounds.antt =====
-- What `flush_buffer` of src/spx_reporter_full.c writes stays in the builder's buffer, whatever the
-- values are and whichever metrics are enabled.
use php_spx.Prelude.{
  ℕ, zero, suc, ◌≤◌, ◌≡◌, refl, sym, subst, ◌∙◌, Bool, true, false, List, [], ◌∷◌, if◌then◌else◌,
  ltb, arith, if_true, if_false, Bool-cases, inl, inr,
}
use php_spx.Metric.{Metric, Values, metrics}
use php_spx.Prelude.Int.{ℤ, pos}
use php_spx.StrBuilder.{StrBuilder, size, remaining, is_zero}
use php_spx.StrBuilder.Bounds.{
  Inside, append_char-Inside, append_long-Inside, append_double-Inside, append_str-Inside,
}
use php_spx.FullReporter.{
  BufferEntry, Printing, append_byte, append_number, append_value, append_values, append_entry,
  flag, spilled, print_entries,
}

-- A step that keeps within the capacity.
abbrev Keeps : (StrBuilder → StrBuilder) → Type 0
Keeps f = (s : StrBuilder) → size s ≤ s.capacity → Inside s (f s)

Keeps-compose : (f g : StrBuilder → StrBuilder) → Keeps f → Keeps g → Keeps (λ s. g (f s))
Keeps-compose f g first second s inside =
    let (bounded, same) = first s inside in
    let (bounded', same') = second (f s) bounded in (bounded', same' ∙ same)

append_byte-Keeps : (c : ℕ) → Keeps (append_byte c)
unfolding append_byte
append_byte-Keeps c s inside = append_char-Inside s inside c

append_number-Keeps : (n : ℕ) → Keeps (append_number n)
unfolding append_number
append_number-Keeps n s inside = append_long-Inside s inside (pos n)

-- The builder of a flush holds no more than n bytes, its capacity.
abbrev pub Bounded : ℕ → StrBuilder → Type 0
Bounded n s = (size s ≤ n) × (s.capacity ≡ n)

spilled-Bounded : (n : ℕ) (p : Printing) → Bounded n p.builder → Bounded n (spilled p).builder
spilled-Bounded n p (bounded, same) = elim (Bool-cases (ltb (remaining p.builder) 128)) [
  | inl full ↦
      subst (λ (q : Printing). Bounded n q.builder) (sym (if_true _ _ p full)) (omega arith, same)
  | inr left ↦
      subst (λ (q : Printing). Bounded n q.builder) (sym (if_false _ _ p left)) (bounded, same)
]

module _ (scaled : ℤ → ℤ) where
  append_value-Keeps : (v : ℤ) → Keeps (append_value scaled v)
  unfolding append_value
  append_value-Keeps v s inside = append_double-Inside s inside (is_zero v) (scaled v) 4

  append_values-Keeps :
      (enabled : Metric → Bool) (values : Values) (is : List Metric)
      → Keeps (append_values scaled enabled values is)
  unfolding append_values
  append_values-Keeps enabled values [] = λ s inside. (inside, refl)
  append_values-Keeps enabled values (i ∷ is) =
      Keeps-compose
        (λ s. if enabled i then append_value scaled (values i) (append_byte 32 s) else s)
        (append_values scaled enabled values is) (one (enabled i))
        (append_values-Keeps enabled values is)
    where
      one :
          (b : Bool)
          → Keeps (λ s. if b then append_value scaled (values i) (append_byte 32 s) else s)
      one true =
          Keeps-compose (append_byte 32) (append_value scaled (values i)) (append_byte-Keeps 32)
            (append_value-Keeps (values i))
      one false = λ s inside. (inside, refl)

  append_entry-Keeps :
      (enabled : Metric → Bool) (e : BufferEntry) → Keeps (append_entry scaled enabled e)
  unfolding append_entry
  append_entry-Keeps enabled e =
      Keeps-compose
        (λ s.
          append_values scaled enabled e.metric_values metrics
            (append_byte (flag e.start) (append_byte 32 (append_number e.function_idx s))))
        _
        (Keeps-compose
          (λ s. append_byte (flag e.start) (append_byte 32 (append_number e.function_idx s)))
          (append_values scaled enabled e.metric_values metrics)
          (Keeps-compose (λ s. append_byte 32 (append_number e.function_idx s))
            (append_byte (flag e.start))
            (Keeps-compose (append_number e.function_idx) (append_byte 32)
              (append_number-Keeps e.function_idx) (append_byte-Keeps 32))
            (append_byte-Keeps (flag e.start)))
          (append_values-Keeps enabled e.metric_values metrics))
        (λ s inside. append_str-Inside s (10 ∷ []) inside)

  after :
      (enabled : Metric → Bool) (n : ℕ) (e : BufferEntry) (s : StrBuilder)
      → Bounded n s
      → Bounded n (append_entry scaled enabled e s)
  after enabled n e s (bounded, same) =
      let (inside, kept) = append_entry-Keeps enabled e s (omega arith) in
      (omega arith, kept ∙ same)

  print_entries-Bounded :
      (enabled : Metric → Bool) (n k : ℕ) (buffer : ℕ → BufferEntry) (p : Printing)
      → Bounded n p.builder
      → Bounded n (print_entries scaled enabled k buffer p).builder
  unfolding print_entries
  print_entries-Bounded enabled n zero buffer p h = h
  print_entries-Bounded enabled n (suc k) buffer p h = spilled-Bounded n _ (
      after enabled n (buffer k) (print_entries scaled enabled k buffer p).builder
        (print_entries-Bounded enabled n k buffer p h))

  -- In a flush that begins with a builder of n bytes within its capacity, whatever the entries are and
  -- however many are printed, the builder stays within it before and after the text of a next entry.
  pub flush-Bounded :
      (enabled : Metric → Bool) (n k : ℕ) (buffer : ℕ → BufferEntry) (e : BufferEntry)
      (p : Printing)
      → Bounded n p.builder
      → let before = (print_entries scaled enabled k buffer p).builder in
        Bounded n before × Bounded n (append_entry scaled enabled e before)
  flush-Bounded enabled n k buffer e p h =
      let bounded = print_entries-Bounded enabled n k buffer p h in
      (bounded, after enabled n e (print_entries scaled enabled k buffer p).builder bounded)
