-- ===== src/CallStack.antt =====
-- The bounded call stack of src/spx_call_stack.c. A stack pointer that is NULL is none; an answer
-- carries the error that `spx_error_set` is given where the code is -1. A caller that passes NULL
-- for the function of `pop`, `peek` or `get_frame_at` gets the same answer without the frame.
pub mod Laws
use php_spx.Prelude.{
  ℕ, zero, suc, ◌+◌, ◌-◌, Bool, true, false, List, [], ◌∷◌, Option, none, some, if◌then◌else◌, ◌==◌,
  ltb, leb, update,
}

-- The codes of `spx_error_code_t` that the stack sets.
pub data StackError : Type 0 where
  invalid_config out_of_memory capacity_exceeded internal : StackError

pub data Answer (A : Type 0) : Type 0 where
  done : A → Answer A
  failed : StackError → Answer A

-- `spx_call_stack_t`
pub record CallStack (F : Type 0) : Type 0 where
  pub frames : ℕ → F
  pub capacity : ℕ
  pub depth : ℕ

module _ {F : Type 0} where
  -- `spx_call_stack_create`; the two Booleans say whether the allocations are granted, and `memory`
  -- is what `malloc` returns.
  unfoldable pub create : Bool → Bool → (ℕ → F) → ℕ → Answer (CallStack F)
  create stack_granted frames_granted memory capacity =
      if capacity == 0
      then failed invalid_config
      else if stack_granted
      then (if frames_granted
          then done (record { frames = memory; capacity = capacity; depth = 0 })
          else failed out_of_memory)
      else failed out_of_memory

  -- `spx_call_stack_push`
  unfoldable pub push : Option (CallStack F) → Option F → Answer (CallStack F)
  push none function = failed invalid_config
  push (some s) none = failed invalid_config
  push (some s) (some function) =
      if leb s.capacity s.depth
      then failed capacity_exceeded
      else done (record s { frames = update s.frames s.depth function; depth = s.depth + 1 })

  -- `spx_call_stack_pop`
  unfoldable pub pop : Option (CallStack F) → Answer (F × CallStack F)
  pop none = failed invalid_config
  pop (some s) =
      if s.depth == 0
      then failed internal
      else done (s.frames (s.depth - 1), record s { depth = s.depth - 1 })

  -- `spx_call_stack_peek`
  unfoldable pub peek : Option (CallStack F) → Answer F
  peek none = failed invalid_config
  peek (some s) = if s.depth == 0 then failed internal else done (s.frames (s.depth - 1))

  -- `spx_call_stack_depth` and `spx_call_stack_capacity`
  abbrev pub depth : Option (CallStack F) → ℕ
  depth none = 0
  depth (some s) = s.depth

  abbrev pub capacity : Option (CallStack F) → ℕ
  capacity none = 0
  capacity (some s) = s.capacity

  -- `spx_call_stack_is_empty` and `spx_call_stack_is_full`
  abbrev pub is_empty : Option (CallStack F) → Bool
  is_empty none = true
  is_empty (some s) = s.depth == 0

  abbrev pub is_full : Option (CallStack F) → Bool
  is_full none = true
  is_full (some s) = leb s.capacity s.depth

  -- `spx_call_stack_clear`
  abbrev pub clear : Option (CallStack F) → Option (CallStack F)
  clear none = none
  clear (some s) = some (record s { depth = 0 })

  -- `spx_call_stack_get_frame_at`
  unfoldable pub get_frame_at : Option (CallStack F) → ℕ → Answer F
  get_frame_at none index = failed invalid_config
  get_frame_at (some s) index = if leb s.depth index then failed internal else done (s.frames index)
