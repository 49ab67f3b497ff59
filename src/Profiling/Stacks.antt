-- ===== src/Profiling/Stacks.antt =====
-- The call stack and the profiler under the two hooks.
use php_spx.Prelude.{
  ◌≡◌, sym, ap, ◌∙◌, Bool, true, false, Option, none, some, List, [], ◌∷◌, if◌then◌else◌, leb,
}
use php_spx.CallStack
use php_spx.CallStack.{
  CallStack, Answer, done, failed, internal, depth as stack_depth, get_frame_at,
}
use php_spx.CallStack.Laws.{view, IsValid, Pushes, push-Pushes, Pops, pop-Pops}
use php_spx.FuncTable.{Run, ◌>>=◌}
use php_spx.Profiling.{
  CallEvent, started, ended, Context, tell, pushed, hook_before, popped, hook_after,
}

-- What holds of the state that a step leaves, where the process is not ended.
abbrev pub Outcome {ℓ} : {A : Type 0} → (A → Type ℓ) → Run A → Type ℓ
Outcome P none = Unit
Outcome P (some a) = P a

module _ {F : Type 0} where
  abbrev pub rest : List F → List F
  rest [] = []
  rest (f ∷ fs) = fs

  -- The calls that a profiler was told of and that are not ended, latest first.
  abbrev pub opened : List (CallEvent F) → List F
  opened [] = []
  opened (started f ∷ log) = f ∷ opened log
  opened (ended ∷ log) = rest (opened log)

  abbrev pub Tracks : List F → Option (List (CallEvent F)) → Type 0
  Tracks frames none = Unit {0}
  Tracks frames (some log) = opened log ≡ frames

  abbrev pub FollowsStack : Option (CallStack F) → Option (List (CallEvent F)) → Type 0
  FollowsStack none profiler = Tracks [] profiler
  FollowsStack (some s) profiler = IsValid s × Tracks (view s) profiler

  -- The profiler, where there is one, has just the calls of the stack open.
  abbrev pub Follows : Context F → Type 0
  Follows c = FollowsStack c.call_stack c.profiler

  pub then-Outcome :
      (P Q : Context F → Type 0) (o : Run (Context F)) (f : Context F → Run (Context F))
      → Outcome P o
      → ((c : Context F) → P c → Outcome Q (f c))
      → Outcome Q (o >>= f)
  then-Outcome P Q none f h k = _
  then-Outcome P Q (some c) f h k = k c h

  pub branches :
      (P : Context F → Type 0) (b : Bool) (x y : Run (Context F))
      → Outcome P x
      → Outcome P y
      → Outcome P (if b then x else y)
  branches P true x y p q = p
  branches P false x y p q = q

  pub tell-started :
      (f : F) (frames frames' : List F) (p : Option (List (CallEvent F)))
      → frames' ≡ f ∷ frames
      → Tracks frames p
      → Tracks frames' (tell (started f) p)
  tell-started f frames frames' none e h = _
  tell-started f frames frames' (some log) e h = ap (◌∷◌ f) h ∙ sym e

  tell-ended :
      (f : F) (frames frames' : List F) (p : Option (List (CallEvent F)))
      → frames ≡ f ∷ frames'
      → Tracks frames p
      → Tracks frames' (tell ended p)
  tell-ended f frames frames' none e h = _
  tell-ended f frames frames' (some log) e h = ap rest (h ∙ e)

  -- The hook before a call keeps it.
  pub hook_before-Follows : (f : F) (c : Context F) → Follows c → Outcome Follows (hook_before f c)
  hook_before-Follows f c h = on_stack c.call_stack c.profiler h
    where
      on_stack :
          (o : Option (CallStack F)) (p : Option (List (CallEvent F)))
          → FollowsStack o p
          → Outcome Follows (hook_before f (record c { call_stack = o; profiler = p }))
      on_stack none p h = _
      on_stack (some s) p (v, t) =
          branches Follows (leb s.capacity s.depth) none
            (pushed (CallStack.push (some s) (some f)) f here) _
            (answer (CallStack.push (some s) (some f)) (push-Pushes s f v))
        where
          here : Context F
          here = record c { call_stack = some s; profiler = p }

          answer :
              (a : Answer (CallStack F))
              → Pushes s f a
              → Outcome Follows (pushed a f (record c { call_stack = some s; profiler = p }))
          answer (failed e) w = _
          answer (done s') (room, v', cap, e) = (v', tell-started f (view s) (view s') p e t)

  -- The hook after a call keeps it.
  pub hook_after-Follows : (c : Context F) → Follows c → Outcome Follows (hook_after c)
  unfolding CallStack.pop
  hook_after-Follows c h = on_stack c.call_stack c.profiler h
    where
      on_stack :
          (o : Option (CallStack F)) (p : Option (List (CallEvent F)))
          → FollowsStack o p
          → Outcome Follows (hook_after (record c { call_stack = o; profiler = p }))
      on_stack none p h = _
      on_stack (some s) p (v, t) = answer (CallStack.pop (some s)) (pop-Pops s v)
        where
          answer :
              (a : Answer (F × CallStack F))
              → Pops s a
              → Outcome Follows (popped a (record c { call_stack = some s; profiler = p }))
          answer (failed e) w = _
          answer (done (f, s')) (v', cap, e) = (v', tell-ended f (view s) (view s') p e t)
