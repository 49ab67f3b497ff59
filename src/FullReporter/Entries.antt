-- ===== src/FullReporter/Entries.antt =====
-- What the events of a run are to leave in the log of src/spx_reporter_full.c.
use php_spx.Prelude.{
  ℕ, zero, suc, ◌+◌, ◌<◌, ◌≡◌, ◌≢◌, refl, sym, ap, ◌∙◌, Bool, true, false, List, [], ◌∷◌, ◌++◌,
  Option, none, some, append_assoc, arith,
}
use php_spx.Metric.{Metric}
use php_spx.Tracer.State.{EventKind, call_start, call_end, finalize, Event}
use php_spx.FullReporter.{BufferEntry, noted}
use php_spx.FullReporter.Lines.{line, lines, Fits}
use php_spx.FullReporter.Reading.{text_of}

-- The entry that an event is to leave.
abbrev pub is_start : EventKind → Bool
is_start call_start = true
is_start call_end = false
is_start finalize = false

abbrev pub callee_of : Option ℕ → ℕ
callee_of none = 0
callee_of (some idx) = idx

abbrev pub entry_of : Event → BufferEntry
entry_of e = noted (callee_of e.callee) (is_start e.kind) e

-- A call's start or end, of a function in the table, the line of which is short.
abbrev pub IsCall : (Metric → Bool) → Event → Type 0
IsCall enabled e = (e.kind ≢ finalize) × (e.callee ≢ none) × Fits enabled (entry_of e)

abbrev pub AllCalls : (Metric → Bool) → List Event → Type 0
AllCalls enabled [] = Unit {0}
AllCalls enabled (e ∷ es) = IsCall enabled e × AllCalls enabled es

-- The entries of events, of which the last comes first.
abbrev pub entries_of : List Event → List BufferEntry
entries_of [] = []
entries_of (e ∷ es) = entries_of es ++ (entry_of e ∷ [])

abbrev pub ends_in : EventKind → ℕ
ends_in call_start = 0
ends_in call_end = 1
ends_in finalize = 0

-- How many calls end.
abbrev pub ends_of : List Event → ℕ
ends_of [] = 0
ends_of (e ∷ es) = ends_of es + ends_in e.kind

pub text_of-append :
    (enabled : Metric → Bool) (es fs : List BufferEntry)
    → text_of enabled (es ++ fs) ≡ text_of enabled es ++ text_of enabled fs
text_of-append enabled [] fs = refl
text_of-append enabled (e ∷ es) fs =
    ap (λ t. line enabled e ++ t) (text_of-append enabled es fs)
    ∙ sym (append_assoc (line enabled e) (text_of enabled es) (text_of enabled fs))

pub lines-congr :
    (enabled : Metric → Bool) (n : ℕ) (f g : ℕ → BufferEntry)
    → ((i : ℕ) → i < n → f i ≡ g i)
    → lines enabled n f ≡ lines enabled n g
lines-congr enabled zero f g h = refl
lines-congr enabled (suc n) f g h =
    rw (h n (omega arith), lines-congr enabled n f g (λ i q. h i (omega arith))) refl
