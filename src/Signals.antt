-- ===== src/Signals.antt =====
-- The signal handler of src/spx_signal_handler.c. Whether the handler is the global one is `global`;
-- the answers of sigaction are arguments, and the previous actions of the system are left to it.
pub mod Deferral
use php_spx.Prelude.{
  ℕ, ◌+◌, Bool, true, false, ◌&&◌, Option, none, some, List, [], ◌∷◌, if◌then◌else◌, ltb,
}

-- `spx_signal_handler_t`; a signo of -1 is none
pub record SignalHandler : Type 0 where
  pub handler_set : Bool
  pub handler_called : ℕ
  pub probing : Bool
  pub stop : Bool
  pub signo : Option ℕ
  pub global : Bool

-- `spx_signal_handler_create` where the allocation is granted
abbrev pub create : SignalHandler
create = record {
  handler_set = false;
  handler_called = 0;
  probing = false;
  stop = false;
  signo = none;
  global = false;
}

-- `spx_signal_handler_install`, with whether it succeeded
abbrev pub install : Bool → Bool → SignalHandler → Bool × SignalHandler
install sigint_set sigterm_set h =
    if h.handler_set
    then (true, h)
    else (if sigint_set && sigterm_set
        then (true, record h { global = true; handler_set = true })
        else (false, record h { global = true }))

-- `spx_signal_handler_uninstall`
abbrev pub uninstall : SignalHandler → SignalHandler
uninstall h = if h.handler_set then record h { handler_set = false; global = false } else h

-- `spx_signal_handler_should_stop`, `spx_signal_handler_set_probing`, `spx_signal_handler_get_signo`,
-- for a handler that may be NULL
abbrev pub should_stop : Option SignalHandler → Bool
should_stop none = false
should_stop (some h) = h.stop

abbrev pub set_probing : Bool → Option SignalHandler → Option SignalHandler
set_probing probing none = none
set_probing probing (some h) = some (record h { probing = probing })

abbrev pub get_signo : Option SignalHandler → Option ℕ
get_signo none = none
get_signo (some h) = h.signo

-- What the callback of a signal does after it noted the signal.
pub data Action : Type 0 where
  return terminate : Action

-- `signal_callback`
abbrev pub signal_callback : ℕ → SignalHandler → Action × SignalHandler
signal_callback signo h =
    if h.global
    then (if ltb 1 (h.handler_called + 1)
        then (return, record h { handler_called = h.handler_called + 1 })
        else (if h.probing
            then (
              return,
              record h { handler_called = h.handler_called + 1; signo = some signo; stop = true },
            )
            else (
              terminate,
              record h { handler_called = h.handler_called + 1; signo = some signo },
            )))
    else (return, h)
