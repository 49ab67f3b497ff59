-- ===== src/TraceReporter/Log.antt =====
-- What the trace reporter of src/spx_reporter_trace.c loses: nothing.
use php_spx.Prelude.{
  ℕ, zero, suc, ◌+◌, ◌<◌, ◌≡◌, refl, sym, ap, subst, ◌∙◌, Bool, not, ◌&&◌, List, [], ◌∷◌, arith,
  if◌then◌else◌, ltb, update, update_self, update_ne, Bool-cases, inl, inr, if_true, if_false,
}
use php_spx.Tracer.State.{EventKind, call_start, call_end, finalize, Event, Cost}
use php_spx.TraceReporter.{
  Row, Item, header, row, Reporter, create, row_of, print_rows, flush_buffer, buffered, settled,
  trace_notify, notified, buffer_capacity,
}

-- Everything that the reporter has been told, newest first, above the header.
abbrev pub log : Reporter → List Item
log p = print_rows p.buffer_size p.buffer (if p.first then header ∷ p.output else p.output)

-- The rows that a list of events (the last one first) asks for.
abbrev asked_by : EventKind → Event → List Item → List Item
asked_by finalize e items = items
asked_by _ e items = row (row_of e) ∷ items

unfoldable pub asked : List Event → List Item
asked [] = header ∷ []
asked (e ∷ es) = asked_by e.kind e (asked es)

-- The reporter after a list of events, the last one first.
unfoldable pub told : List Event → Reporter → Reporter
unfolding trace_notify
told [] p = p
told (e ∷ es) p = (trace_notify e (told es p)).1

print_rows_congr :
    (n : ℕ) (f g : ℕ → Row) (output : List Item)
    → ((i : ℕ) → i < n → f i ≡ g i)
    → print_rows n f output ≡ print_rows n g output
unfolding print_rows
print_rows_congr zero f g output h = refl
print_rows_congr (suc n) f g output h =
    rw (h n (omega arith), print_rows_congr n f g output (λ i q. h i (omega arith))) refl

abbrev base : Reporter → List Item
base p = if p.first then header ∷ p.output else p.output

log-buffered : (e : Event) (p : Reporter) → log (buffered e p) ≡ row (row_of e) ∷ log p
unfolding print_rows
log-buffered e p =
    ap (λ n. print_rows n (update p.buffer p.buffer_size (row_of e)) (base p)) (next p.buffer_size)
    ∙ grown (update_self p.buffer p.buffer_size (row_of e)) (
        print_rows_congr p.buffer_size (update p.buffer p.buffer_size (row_of e)) p.buffer (base p)
          (λ i q. update_ne p.buffer p.buffer_size (row_of e) i (omega arith)))
  where
    next : (n : ℕ) → n + 1 ≡ suc n
    next n = omega arith

    grown : {x y : Row} {xs ys : List Item} → x ≡ y → xs ≡ ys → row x ∷ xs ≡ row y ∷ ys
    grown a b = rw (a, b) refl

-- Room for the next row, and a log as asked for.
record Keeps (items : List Item) (p : Reporter) : Type 0 where
  room : p.buffer_size < buffer_capacity
  logged : log p ≡ items

flushed-Keeps : (items : List Item) (p : Reporter) → log p ≡ items → Keeps items (flush_buffer p)
unfolding flush_buffer print_rows
flushed-Keeps items p h = record { room = omega arith; logged = h }

settled-Keeps : (items : List Item) (p : Reporter) → log p ≡ items → Keeps items (settled p).1
settled-Keeps items p h = elim (Bool-cases test) [
  | inl on ↦
      subst {A = Cost × Reporter} (λ r. Keeps items r.1) (sym (if_true test _ _ on))
        (record { room = ground arith; logged = h })
  | inr off ↦
      subst {A = Cost × Reporter} (λ r. Keeps items r.1) (sym (if_false test _ _ off))
        (flushed-Keeps items p h)
]
  where
    test : Bool
    test = ltb p.buffer_size buffer_capacity && not p.safe

notified-Keeps :
    (kind : EventKind) (e : Event) (items : List Item) (p : Reporter)
    → Keeps items p
    → Keeps (asked_by kind e items) (notified kind e p).1
notified-Keeps call_start e items p k =
    settled-Keeps _ (buffered e p) (log-buffered e p ∙ ap (λ l. row (row_of e) ∷ l) k.logged)
notified-Keeps call_end e items p k =
    settled-Keeps _ (buffered e p) (log-buffered e p ∙ ap (λ l. row (row_of e) ∷ l) k.logged)
notified-Keeps finalize e items p k = flushed-Keeps items p k.logged

told-Keeps :
    (safe : Bool) (memory : ℕ → Row) (es : List Event)
    → Keeps (asked es) (told es (create safe memory))
unfolding told trace_notify asked print_rows
told-Keeps safe memory [] = record { room = omega arith; logged = refl }
told-Keeps safe memory (e ∷ es) =
    notified-Keeps e.kind e (asked es) (told es (create safe memory)) (told-Keeps safe memory es)

-- After any events, a row is next written below the buffer's capacity.
pub told-bounded :
    (safe : Bool) (memory : ℕ → Row) (es : List Event)
    → (told es (create safe memory)).buffer_size < buffer_capacity
told-bounded safe memory es = (told-Keeps safe memory es).room

output-finalize :
    (kind : EventKind) (e : Event) (p : Reporter)
    → kind ≡ finalize
    → (notified kind e p).1.output ≡ log p
unfolding flush_buffer
output-finalize call_start e p h = absurd (cc)
output-finalize call_end e p h = absurd (cc)
output-finalize finalize e p h = refl

-- Once a `finalize` event has been notified, the output is the header and then, in order, one row
-- for each call's start and end that was notified, with none lost, repeated or left in the buffer.
pub told-Complete :
    (safe : Bool) (memory : ℕ → Row) (e : Event) (es : List Event)
    → e.kind ≡ finalize
    → (told (e ∷ es) (create safe memory)).output ≡ asked es
unfolding told trace_notify
told-Complete safe memory e es h =
    output-finalize e.kind e (told es (create safe memory)) h ∙ (told-Keeps safe memory es).logged
