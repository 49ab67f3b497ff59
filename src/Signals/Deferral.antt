-- ===== src/Signals/Deferral.antt =====
-- A signal that comes while the profiler probes is acted on at the end of the probe.
use php_spx.Prelude.{
  ℕ, ◌+◌, ◌≤◌, ◌≡◌, refl, sym, subst, ◌∙◌, true, false, Option, none, some, List, [], ◌∷◌, ◌++◌,
  if◌then◌else◌, if_true, if_false, ltb, lt→ltb, arith,
}
use php_spx.Signals.{SignalHandler, signal_callback, Action, return, terminate}

-- The process with its handler, until a signal terminates it with an exit status.
pub data Process : Type 0 where
  running : SignalHandler → Process
  terminated : ℕ → Process

-- What `profiling_handler_shutdown` leaves in `sig_handler`: the handler is only made for the command
-- line with auto_start, and there the shutdown sets it to NULL.
abbrev pub shut_down : Option SignalHandler → Option SignalHandler
shut_down h = none

-- The number of the signal that is looked up, none for -1.
abbrev pub signo_of : Option SignalHandler → Option ℕ
signo_of none = none
signo_of (some h) = h.signo

abbrev pub exit_status : Option ℕ → ℕ
exit_status none = 0
exit_status (some signo) = 128 + signo

-- `profiling_handler_sig_terminate`
unfoldable pub sig_terminate : SignalHandler → Process
sig_terminate h = terminated (exit_status (signo_of (shut_down (some h))))

-- A signal, and the beginning and the end of the probe that the hooks of php_spx.c make of a call: at
-- the end they look whether to stop.
pub data Event : Type 0 where
  signal : ℕ → Event
  probe_begins : Event
  probe_ends : Event

abbrev pub act : Action × SignalHandler → Process
act (return, h) = running h
act (terminate, h) = sig_terminate h

abbrev pub step : Event → Process → Process
step e (terminated status) = terminated status
step (signal signo) (running h) = act (signal_callback signo h)
step probe_begins (running h) = running (record h { probing = true })
step probe_ends (running h) =
    if h.stop then sig_terminate h else running (record h { probing = false })

abbrev pub run : List Event → Process → Process
run [] p = p
run (e ∷ es) p = run es (step e p)

abbrev pub signals : List ℕ → List Event
signals [] = []
signals (n ∷ ns) = signal n ∷ signals ns

-- A handler that is installed and has not seen a signal.
abbrev pub Waiting : SignalHandler → Type 0
Waiting h = (h.global ≡ true) × (h.handler_called ≡ 0) × (h.stop ≡ false)

abbrev Pending : ℕ → Process → Type 0
Pending n (running h) =
    (h.global ≡ true) × (1 ≤ h.handler_called) × (h.stop ≡ true) × (h.signo ≡ some n)
Pending n (terminated status) = ⊥

run-append : (es fs : List Event) (p : Process) → run (es ++ fs) p ≡ run fs (run es p)
run-append [] fs p = refl
run-append (e ∷ es) fs p = run-append es fs (step e p)

signal-Pending :
    (n m : ℕ) (h : SignalHandler) → Pending n (running h) → Pending n (step (signal m) (running h))
signal-Pending n m h (g, called, stop, signo) =
    subst (λ r. Pending n (act r))
      (sym (
        if_true h.global _ (return, h) g
        ∙ if_true _ _ _ (lt→ltb 1 (h.handler_called + 1) (omega arith))))
      (g, omega arith, stop, signo)

signals-Pending : (n : ℕ) (ns : List ℕ) (p : Process) → Pending n p → Pending n (run (signals ns) p)
signals-Pending n [] p h = h
signals-Pending n (m ∷ ns) (running h) w =
    signals-Pending n ns (step (signal m) (running h)) (signal-Pending n m h w)
signals-Pending n (m ∷ ns) (terminated s) w = absurd w

first-Pending :
    (h : SignalHandler) (n : ℕ)
    → Waiting h
    → Pending n (step (signal n) (running (record h { probing = true })))
first-Pending h n (g, called, stop) =
    subst (λ r. Pending n (act r))
      (sym (if_true h.global _ _ g ∙ if_false (ltb 1 (h.handler_called + 1)) _ _ (ground arith)))
      (g, omega arith, refl, refl)

abbrev pub IsRunning : Process → Type 0
IsRunning (running h) = Unit {0}
IsRunning (terminated status) = ⊥

Pending-IsRunning : (n : ℕ) (p : Process) → Pending n p → IsRunning p
Pending-IsRunning n (running h) w = _
Pending-IsRunning n (terminated status) w = absurd w

Pending-ends : (n : ℕ) (p : Process) → Pending n p → step probe_ends p ≡ terminated 0
unfolding sig_terminate
Pending-ends n (running h) (g, called, stop, signo) =
    if_true h.stop (sig_terminate h) (running (record h { probing = false })) stop
Pending-ends n (terminated status) w = absurd w

-- Signals that come while a call is probed leave the process running until the end of the probe, which
-- terminates it, however many came. As the handler is gone by then, the exit status is that of
-- success, whichever signals they were.
pub run-deferred :
    (h : SignalHandler) (n : ℕ) (ns : List ℕ)
    → Waiting h
    → IsRunning (run (probe_begins ∷ signals (n ∷ ns)) (running h))
      × (run ((probe_begins ∷ signals (n ∷ ns)) ++ (probe_ends ∷ [])) (running h) ≡ terminated 0)
run-deferred h n ns w = (
  Pending-IsRunning n _ pending,
  run-append (probe_begins ∷ signals (n ∷ ns)) (probe_ends ∷ []) (running h)
      ∙ Pending-ends n (run (probe_begins ∷ signals (n ∷ ns)) (running h)) pending,
)
  where
    pending : Pending n (run (probe_begins ∷ signals (n ∷ ns)) (running h))
    pending =
        signals-Pending n ns (step (signal n) (running (record h { probing = true })))
          (first-Pending h n w)
