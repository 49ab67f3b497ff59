-- ===== src/Sampler.antt =====
-- The sampling profiler of src/spx_profiler_sampler.c. Its effect on the sampled profiler is the
-- list of calls that it makes, newest first. `beat` is one round of the heartbeat thread, which may
-- come between any two operations. A frame is a value with a hash code. Sizes are `size_t`, taken
-- with 64 bits. Where `spx_utils_die` ends the process a function returns none.
pub mod Mirror
pub mod Interleavings
pub mod Faithful
use php_spx.Prelude.{
  ℕ, zero, suc, ◌+◌, ◌-◌, ◌%◌, ◌^◌, Bool, true, false, ◌&&◌, List, [], ◌∷◌, Option, none, some,
  if◌then◌else◌, ◌==◌, ltb, leb, update,
}
use php_spx.FuncTable.{Run, ◌>>=◌}

abbrev pub stack_capacity : ℕ
stack_capacity = 2048

-- What the sampled profiler is told.
pub data Call (F : Type 0) : Type 0 where
  call_start : F → Call F
  call_end finalize : Call F

-- One of the two stacks.
pub record Frames (F : Type 0) : Type 0 where
  pub size : ℕ
  pub frames : ℕ → F

-- `sampling_profiler_t`
pub record Sampler (F : Type 0) : Type 0 where
  pub sampling_period_us : ℕ
  pub ready : Bool
  pub previous : Frames F
  pub current : Frames F
  pub calls : List (Call F)

-- The decrement of a `size_t`.
abbrev pub dec_size : ℕ → ℕ
dec_size n = if n == 0 then 2 ^ 64 - 1 else n - 1

-- The loop that ends the calls of the previous stack from index `n - 1` down to `top`.
unfoldable pub end_down : {F : Type 0} → ℕ → ℕ → List (Call F) → List (Call F)
end_down top zero calls = calls
end_down top (suc n) calls =
    let rest = end_down top n (call_end ∷ calls) in if leb top n then rest else calls

-- The loop that starts `n` calls from index `i` on.
unfoldable pub start_up : {F : Type 0} → (ℕ → F) → ℕ → ℕ → List (Call F) → List (Call F)
start_up frames i zero calls = calls
start_up frames i (suc n) calls = start_up frames (i + 1) n (call_start (frames i) ∷ calls)

-- The loop that copies the first `n` frames.
unfoldable pub copy : {F : Type 0} → ℕ → (ℕ → F) → (ℕ → F) → ℕ → F
copy zero src dst = dst
copy (suc n) src dst = update (copy n src dst) n (src n)

module _ {F : Type 0} where
  -- `spx_profiler_sampler_create` where the allocation and the thread have been granted.
  abbrev pub create : F → ℕ → Run (Sampler F)
  create null period =
      if ltb period 1
      then none
      else some (record {
        sampling_period_us = period;
        ready = true;
        previous = record { size = 0; frames = λ i. null };
        current = record { size = 0; frames = λ i. null };
        calls = [];
      })

  abbrev pub push : F → Sampler F → Sampler F
  push f p = record p {
    current = record {
      size = p.current.size + 1;
      frames = update p.current.frames p.current.size f;
    };
  }

  abbrev pub pop : Sampler F → Sampler F
  pop p = record p {
    current = record { size = dec_size p.current.size; frames = p.current.frames };
  }

  -- A round of `sampling_profiler_heartbeat_handler`
  abbrev pub beat : Sampler F → Sampler F
  beat p = record p { ready = true }

  -- `sampling_profiler_finalize`
  abbrev pub finish : Sampler F → Sampler F
  finish p = record p { calls = finalize ∷ p.calls }

module _ {F : Type 0} (hash_code : F → ℕ) where
  -- The search for the top of the common stack, from `top` on; `n` is the number of frames of the
  -- previous stack that are left.
  unfoldable pub common : Frames F → Frames F → ℕ → ℕ → ℕ
  common previous current zero top = top
  common previous current (suc n) top =
      let rest = common previous current n (top + 1) in
      if leb previous.size top
      then top
      else if leb current.size top
      then top
      else if hash_code (previous.frames top) == hash_code (current.frames top)
      then rest
      else top

  -- `sampling_profiler_handle_sample` once the heartbeat is found ready
  unfoldable pub sample : Bool → Sampler F → Sampler F
  unfolding common end_down start_up copy
  sample at_end p =
      let top = common p.previous p.current p.previous.size 0 in
      let ended = end_down top p.previous.size p.calls in
      let begun = start_up p.current.frames top (p.current.size - top) ended in
      record p {
        ready = false;
        previous = record {
          size = if at_end then dec_size p.current.size else p.current.size;
          frames = copy p.current.size p.current.frames p.previous.frames;
        };
        calls = if at_end then call_end ∷ begun else begun;
      }

  -- `sampling_profiler_handle_sample`
  abbrev pub handle_sample : Bool → Sampler F → Sampler F
  handle_sample at_end p = if p.ready then sample at_end p else p

  -- `sampling_profiler_call_start`
  unfoldable pub start_call : F → Sampler F → Run (Sampler F)
  unfolding sample
  start_call f p =
      if p.current.size == stack_capacity then none else some (handle_sample false (push f p))

  -- `sampling_profiler_call_end`
  unfoldable pub end_call : Sampler F → Sampler F
  unfolding sample
  end_call p = pop (handle_sample true p)
