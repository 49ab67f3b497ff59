-- ===== src/Profiling/Follows.antt =====
-- The profiler follows the call stack, through every history of calls and of starts and stops.
use php_spx.Prelude.{
  ℕ, zero, suc, ◌+◌, ◌-◌, ◌≤◌, ◌≡◌, refl, sym, ap, subst, true, ◌&&◌, not, Option, none, some, List,
  [], ◌∷◌, if◌then◌else◌, if_false, ltb, leb, ◌==◌, arith,
}
use php_spx.CallStack
use php_spx.CallStack.{
  CallStack, Answer, done, failed, internal, depth as stack_depth, get_frame_at,
}
use php_spx.CallStack.Laws.{IsValid, Pops, pop-Pops, top_frames}
use php_spx.Config.{Config}
use php_spx.FuncTable.{Run, ◌>>=◌}
use php_spx.Profiling.{
  CallEvent, started, Context, Made, tell, hook_before, popped, hook_after, destroyed, has_profiler,
  replay_frame, replay, execution_finalize, request_shutdown, stop, make_profiler, start, init,
  profiler_start, profiler_stop, report_key_of,
}
use php_spx.Profiling.Stacks.{
  Follows, FollowsStack, Outcome, Tracks, branches, hook_after-Follows, hook_before-Follows, opened,
  tell-started, then-Outcome,
}

-- What may happen to the handler after its beginning: calls, the end of the user's code, and
-- spx_profiler_start and spx_profiler_stop.
pub data Step (F : Type 0) : Type 0 where
  call : F → Step F
  leave : Step F
  end_of_request : F → Step F
  start_span : Made → Step F
  stop_span : Step F

module _ {F : Type 0} where
  abbrev ValidStack : Option (CallStack F) → Type 0
  ValidStack none = Unit {0}
  ValidStack (some s) = IsValid s

  abbrev Stopped : Context F → Type 0
  Stopped c = ValidStack c.call_stack × (c.profiler ≡ none)

  -- A profiler that was just made, if any.
  abbrev FreshProfiler : Option (List (CallEvent F)) → Type 0
  FreshProfiler none = Unit {0}
  FreshProfiler (some log) = log ≡ []

  abbrev Begins : Context F → Type 0
  Begins c = ValidStack c.call_stack × FreshProfiler c.profiler

  Follows-ValidStack :
      (o : Option (CallStack F)) (p : Option (List (CallEvent F))) → FollowsStack o p → ValidStack o
  Follows-ValidStack none p h = _
  Follows-ValidStack (some s) p h = h.0

  ValidStack-Follows : (o : Option (CallStack F)) → ValidStack o → FollowsStack o none
  ValidStack-Follows none v = _
  ValidStack-Follows (some s) v = (v, _)

  Stopped-Follows : (c : Context F) → Stopped c → Follows c
  Stopped-Follows c (v, e) =
      subst (FollowsStack c.call_stack) (sym e) (ValidStack-Follows c.call_stack v)

  Outcome-map :
      (P Q : Context F → Type 0) (o : Run (Context F))
      → ((c : Context F) → P c → Q c)
      → Outcome P o
      → Outcome Q o
  Outcome-map P Q none f h = _
  Outcome-map P Q (some c) f h = f c h

  hook_after-Valid :
      (c : Context F)
      → ValidStack c.call_stack
      → Outcome (λ c. ValidStack c.call_stack) (hook_after c)
  unfolding CallStack.pop
  hook_after-Valid c h = on_stack c.call_stack h
    where
      on_stack :
          (o : Option (CallStack F))
          → ValidStack o
          → Outcome (λ c. ValidStack c.call_stack) (hook_after (record c { call_stack = o }))
      on_stack none h = _
      on_stack (some s) v = answer (CallStack.pop (some s)) (pop-Pops s v)
        where
          answer :
              (a : Answer (F × CallStack F))
              → Pops s a
              → Outcome (λ c. ValidStack c.call_stack) (popped a (record c { call_stack = some s }))
          answer (failed e) w = _
          answer (done (f, s')) (v', cap, e) = v'

  module _ (config : Config) where
    execution_finalize-Valid :
        (c : Context F)
        → ValidStack c.call_stack
        → Outcome (λ c. ValidStack c.call_stack) (execution_finalize config c)
    execution_finalize-Valid c v =
        branches _ c.request_shutdown _ (some c)
          (then-Outcome (λ c. ValidStack c.call_stack) _
            (if config.builtins then hook_after c else some c) _
            (branches _ config.builtins (hook_after c) (some c) (hook_after-Valid c v) v)
            (λ c v. v))
          v

    stop-Stopped : (c : Context F) → ValidStack c.call_stack → Outcome Stopped (stop config c)
    stop-Stopped c v =
        then-Outcome (λ c. ValidStack c.call_stack) Stopped (execution_finalize config c)
          (λ c. some (destroyed c)) (execution_finalize-Valid c v) (λ c v. (v, refl))

    stop-Follows : (c : Context F) → ValidStack c.call_stack → Outcome Follows (stop config c)
    stop-Follows c v =
        Outcome-map Stopped Follows (stop config c) Stopped-Follows (stop-Stopped c v)

    make_profiler-Begins :
        (made : Made) (c : Context F)
        → ValidStack c.call_stack
        → Outcome Begins (make_profiler config made c)
    make_profiler-Begins made c v =
        branches Begins (made.reporter_made && made.tracer_made) _ _
          (branches Begins (ltb 0 config.sampling_period && not made.sampler_made) _ _
            (stopped (record c { profiler = some [] }) v) (v, refl))
          (stopped c v)
      where
        stopped : (c : Context F) → ValidStack c.call_stack → Outcome Begins (stop config c)
        stopped c v =
            Outcome-map Stopped Begins (stop config c)
              (λ c (v, e). (v, subst FreshProfiler (sym e) _)) (stop-Stopped c v)

    start-Begins : (made : Made) (c : Context F) → Begins c → Outcome Begins (start config made c)
    start-Begins made c (v, f) =
        branches Begins (has_profiler c) (some c) _ (v, f)
          (make_profiler-Begins made
            (record c {
              report_key = report_key_of config.report made;
              has_reporter = made.reporter_made;
            })
            v)

  FreshProfiler-Tracks : (p : Option (List (CallEvent F))) → FreshProfiler p → Tracks [] p
  FreshProfiler-Tracks none h = _
  FreshProfiler-Tracks (some log) h = ap opened h

  -- What the replay of n frames establishes.
  abbrev Replayed : CallStack F → ℕ → Context F → Type 0
  Replayed s n c = (c.call_stack ≡ some s) × Tracks (top_frames n s.frames) c.profiler

  replay-Replayed :
      (s : CallStack F) (n : ℕ) (c : Context F)
      → n ≤ s.depth
      → FreshProfiler c.profiler
      → Replayed s n (replay n (record c { call_stack = some s }))
  unfolding get_frame_at top_frames
  replay-Replayed s zero c le fresh = (refl, FreshProfiler-Tracks c.profiler fresh)
  replay-Replayed s (suc n) c le fresh =
      subst (λ a. Replayed s (suc n) (replay_frame a before))
        (sym (if_false (leb s.depth n) (failed internal) (done (s.frames n)) (ground arith)))
        (told before (replay-Replayed s n c (omega arith) fresh))
    where
      before : Context F
      before = replay n (record c { call_stack = some s })

      told :
          (d : Context F)
          → Replayed s n d
          → Replayed s (suc n) (record d { profiler = tell (started (s.frames n)) d.profiler })
      told d (e, t) = (e, tell-started (s.frames n) (top_frames n s.frames) _ d.profiler refl t)

  replay-Follows : (c : Context F) → Begins c → Follows (replay (stack_depth c.call_stack) c)
  replay-Follows c (v, fresh) = on_stack c.call_stack v
    where
      on_stack :
          (o : Option (CallStack F))
          → ValidStack o
          → Follows (replay (stack_depth o) (record c { call_stack = o }))
      on_stack none v = FreshProfiler-Tracks c.profiler fresh
      on_stack (some s) v =
          replayed (replay s.depth (record c { call_stack = some s }))
            (replay-Replayed s s.depth c (omega arith) fresh)
        where
          replayed : (d : Context F) → Replayed s s.depth d → Follows d
          replayed d (e, t) = subst (λ o. FollowsStack o d.profiler) (sym e) (v, t)

  module _ (config : Config) where
    profiler_start-Follows :
        (made : Made) (c : Context F) → Follows c → Outcome Follows (profiler_start config made c)
    profiler_start-Follows made c h = on_profiler c.profiler h
      where
        on_profiler :
            (p : Option (List (CallEvent F)))
            → FollowsStack c.call_stack p
            → Outcome Follows (profiler_start config made (record c { profiler = p }))
        on_profiler (some log) h = branches Follows (not c.profiles) _ _ h (
            branches Follows config.auto_start _ _ h
              (branches Follows (ltb 1 (c.span_depth + 1)) _ _ h h))
        on_profiler none h = branches Follows (not c.profiles) _ _ h (
            branches Follows config.auto_start _ _ h (
              branches Follows (ltb 1 (c.span_depth + 1)) _ _ h (
                then-Outcome Begins Follows (start config made entered) _
                  (start-Begins config made entered (Follows-ValidStack c.call_stack none h, _))
                  (λ c b. replay-Follows c b))))
          where
            entered : Context F
            entered = record c { profiler = none; span_depth = c.span_depth + 1 }

    profiler_stop-Follows : (c : Context F) → Follows c → Outcome Follows (profiler_stop config c)
    profiler_stop-Follows c h = branches Follows (not c.profiles) _ _ h (
        branches Follows config.auto_start _ _ h (
          branches Follows (c.span_depth == 0) _ _ h (
            branches Follows (ltb 0 (c.span_depth - 1)) _ _ h (
              stop-Follows config (record c { span_depth = c.span_depth - 1 })
                (Follows-ValidStack c.call_stack c.profiler h)))))

    abbrev pub step : Step F → Context F → Run (Context F)
    step (call f) c = hook_before f c
    step leave c = hook_after c
    step (end_of_request f) c = request_shutdown config f c
    step (start_span made) c = profiler_start config made c
    step stop_span c = profiler_stop config c

    abbrev pub run : List (Step F) → Context F → Run (Context F)
    run [] c = some c
    run (s ∷ steps) c = step s c >>= λ c. run steps c

    step-Follows : (s : Step F) (c : Context F) → Follows c → Outcome Follows (step s c)
    step-Follows (call f) c h = hook_before-Follows f c h
    step-Follows leave c h = hook_after-Follows c h
    step-Follows (end_of_request f) c h = branches Follows c.request_shutdown (some c) _ h (
        branches Follows config.builtins _ _
          (hook_before-Follows f (record c { request_shutdown = true }) h) h)
    step-Follows (start_span made) c h = profiler_start-Follows made c h
    step-Follows stop_span c h = profiler_stop-Follows c h

    run-Follows :
        (steps : List (Step F)) (c : Context F) → Follows c → Outcome Follows (run steps c)
    run-Follows [] c h = h
    run-Follows (s ∷ steps) c h =
        then-Outcome Follows Follows (step s c) (λ c. run steps c) (step-Follows s c h)
          (λ c h. run-Follows steps c h)

    init-Follows :
        (s : CallStack F) (made : Made) (c : Context F)
        → s.depth ≡ 0
        → Outcome Follows (init config (done s) made c)
    unfolding top_frames
    init-Follows s made c e =
        branches Follows config.auto_start _ _
          (branches Follows (made.reporter_made && made.tracer_made) _ _
            (branches Follows (ltb 0 config.sampling_period && not made.sampler_made) _ _ (valid, _)
              (valid, sym (ap (λ n. top_frames n s.frames) e)))
            (valid, _))
          (valid, _)
      where
        valid : IsValid s
        valid = omega arith

    -- From the beginning of the handler with an empty call stack, through every history of calls, starts
    -- and stops, the profiler, while there is one, has just the calls of the call stack open.
    pub profile-Follows :
        (s : CallStack F) (made : Made) (c : Context F) (steps : List (Step F))
        → s.depth ≡ 0
        → Outcome Follows (init config (done s) made c >>= λ c. run steps c)
    profile-Follows s made c steps e =
        then-Outcome Follows Follows (init config (done s) made c) (λ c. run steps c)
          (init-Follows s made c e) (λ c h. run-Follows steps c h)
