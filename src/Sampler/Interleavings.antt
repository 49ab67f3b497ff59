-- ===== src/Sampler/Interleavings.antt =====
-- The sampling profiler of src/spx_profiler_sampler.c under every interleaving of the program's
-- calls with the heartbeat thread.
use php_spx.Prelude.{
  ℕ, zero, suc, ◌+◌, ◌-◌, ◌≤◌, ◌<◌, ◌≡◌, refl, sym, ap, subst, ◌∙◌, true, false, List, [], ◌∷◌,
  none, some, arith, ◌==◌, Bool-cases, inl, inr, if_true, if_false,
}
use php_spx.FuncTable.{Run, ◌>>=◌}
use php_spx.Sampler.{
  Sampler, copy, sample, start_call, end_call, beat, stack_capacity, push, pop, dec_size,
}
use php_spx.Sampler.Mirror.{codes, popped, replay, codes_congr, copy-below, Mirrors, replay-sample}

-- What happens to the profiler.
pub data Happening (F : Type 0) : Type 0 where
  starts : F → Happening F
  ends beats : Happening F

module _ {F : Type 0} (hash_code : F → ℕ) where
  -- The sampled profiler runs what the program runs.
  abbrev pub Follows : Sampler F → Type 0
  Follows p = replay hash_code p.calls ≡ some (codes hash_code p.current.size p.current.frames)

  sample-Mirrors :
      (p : Sampler F) → Mirrors hash_code p → Mirrors hash_code (sample hash_code false p)
  unfolding sample
  sample-Mirrors p v = record {
    level = v.bounded;
    bounded = v.bounded;
    mirrored =
        replay-sample hash_code p v
        ∙ sym (
            ap some (
              codes_congr hash_code p.current.size _ p.current.frames (λ i h.
                ap hash_code
                  (copy-below hash_code p.current.size p.current.frames p.previous.frames i h))));
  }

  pushed-Mirrors :
      (f : F) (p : Sampler F)
      → Mirrors hash_code p
      → p.current.size < stack_capacity
      → Mirrors hash_code (push f p)
  pushed-Mirrors f p v h = record { level = v.level; bounded = omega arith; mirrored = v.mirrored }

  abbrev pub Starts : Sampler F → F → Run (Sampler F) → Type 0
  Starts p f none = ⊥
  Starts p f (some q) =
      Mirrors hash_code q × (q.current.size ≡ p.current.size + 1) × (p.ready ≡ true → Follows q)

  -- A start of a call below the capacity does not end the process; the sampled profiler keeps the
  -- previous stack, and where the heartbeat was ready it then runs the program's stack.
  pub start_call-Starts :
      (f : F) (p : Sampler F)
      → Mirrors hash_code p
      → p.current.size < stack_capacity
      → Starts p f (start_call hash_code f p)
  unfolding start_call sample
  start_call-Starts f p v h =
      subst (Starts p f) (sym (if_false (p.current.size == stack_capacity) _ _ (ground arith)))
        (elim (Bool-cases p.ready) [
          | inl on ↦
              subst (λ q. Starts p f (some q)) (sym (if_true p.ready _ _ on))
                (sample-Mirrors (push f p) w, refl, λ e. replay-sample hash_code (push f p) w)
          | inr off ↦
              subst (λ q. Starts p f (some q)) (sym (if_false p.ready _ _ off))
                (w, refl, λ e. absurd (let o = off in cc))
        ])
    where
      w : Mirrors hash_code (push f p)
      w = pushed-Mirrors f p v h

  popped-Mirrors :
      (p : Sampler F) → Mirrors hash_code p → 0 < p.current.size → Mirrors hash_code (pop p)
  popped-Mirrors p v h = record {
    level = v.level;
    bounded = let b = v.bounded in ground arith;
    mirrored = v.mirrored;
  }

  -- The end of the topmost call takes it off the sampled profiler's stack.
  ended-mirrored :
      (p : Sampler F) (n : ℕ)
      → Mirrors hash_code p
      → p.current.size ≡ suc n
      → replay hash_code (sample hash_code true p).calls ≡ some (codes hash_code n p.current.frames)
  unfolding sample replay codes
  ended-mirrored p n v e =
      ap (popped hash_code)
        (replay-sample hash_code p v ∙ ap (λ k. some (codes hash_code k p.current.frames)) e)

  ended-Mirrors :
      (p : Sampler F) (n : ℕ)
      → Mirrors hash_code p
      → p.current.size ≡ suc n
      → Mirrors hash_code (pop (sample hash_code true p)) × Follows (pop (sample hash_code true p))
  unfolding sample
  ended-Mirrors p n v e = (
    record {
      level = subst (λ k. k ≤ stack_capacity) (sym lower) (let b = v.bounded in omega arith);
      bounded = subst (λ k. k ≤ stack_capacity) (sym lower) (let b = v.bounded in omega arith);
      mirrored =
          ended-mirrored p n v e
          ∙ sym (
              ap some (
                ap (λ k. codes hash_code k (copy p.current.size p.current.frames p.previous.frames))
                  lower
                ∙ codes_congr hash_code n _ p.current.frames (λ i h. ap hash_code (
                    copy-below hash_code p.current.size p.current.frames p.previous.frames i
                      (omega arith)))));
    },
    ended-mirrored p n v e ∙ sym (ap (λ k. some (codes hash_code k p.current.frames)) lower),
  )
    where
      lower : dec_size p.current.size ≡ n
      lower = ground arith

  abbrev pub Ends : Sampler F → Sampler F → Type 0
  Ends p q =
      Mirrors hash_code q × (q.current.size ≡ p.current.size - 1) × (p.ready ≡ true → Follows q)

  -- The end of a running call takes one frame off; where the heartbeat was ready the sampled
  -- profiler then runs the program's stack.
  pub end_call-Ends :
      (p : Sampler F) → Mirrors hash_code p → 0 < p.current.size → Ends p (end_call hash_code p)
  unfolding end_call sample
  end_call-Ends p v h = elim (Bool-cases p.ready) [
    | inl on ↦
        let w = ended-Mirrors p (p.current.size - 1) v (omega arith) in
        subst (λ q. Ends p (pop q)) (sym (if_true p.ready _ _ on)) (w.0, ground arith, λ e. w.1)
    | inr off ↦
        subst (λ q. Ends p (pop q)) (sym (if_false p.ready _ _ off))
          (popped-Mirrors p v h, ground arith, λ e. absurd (let o = off in cc))
  ]

  abbrev happen : Happening F → Sampler F → Run (Sampler F)
  happen (starts f) p = start_call hash_code f p
  happen ends p = some (end_call hash_code p)
  happen beats p = some (beat p)

  unfoldable pub run : List (Happening F) → Sampler F → Run (Sampler F)
  run [] p = some p
  run (h ∷ rest) p = happen h p >>= run rest

  -- At depth `d`: calls end only if they run, and run at most to the capacity.
  abbrev pub Nested : ℕ → List (Happening F) → Type 0
  Nested d [] = Unit {0}
  Nested d (starts f ∷ rest) = (d < stack_capacity) × Nested (d + 1) rest
  Nested zero (ends ∷ rest) = ⊥
  Nested (suc d) (ends ∷ rest) = Nested d rest
  Nested d (beats ∷ rest) = Nested d rest

  abbrev pub Sound : Run (Sampler F) → Type 0
  Sound none = ⊥
  Sound (some q) = Mirrors hash_code q

  then_run :
      (p : Sampler F) (f : F) (rest : List (Happening F)) (r : Run (Sampler F))
      → ((q : Sampler F)
          → Mirrors hash_code q
          → q.current.size ≡ p.current.size + 1
          → Sound (run rest q))
      → Starts p f r
      → Sound (r >>= run rest)
  then_run p f rest none h s = s
  then_run p f rest (some q) h s = h q s.0 s.1

  -- However the heartbeat interleaves with calls that nest up to the capacity, the process does
  -- not end, and what the sampled profiler is told are nested calls again, which leave it with the
  -- previous stack.
  pub run-Sound :
      (d : ℕ) (history : List (Happening F)) (p : Sampler F)
      → Mirrors hash_code p
      → p.current.size ≡ d
      → Nested d history
      → Sound (run history p)
  unfolding run
  run-Sound d [] p v e nested = v
  run-Sound d (starts f ∷ rest) p v e nested =
      let room = nested.0 in
      then_run p f rest _ (λ q w k. run-Sound (d + 1) rest q w (omega arith) nested.1)
        (start_call-Starts f p v (omega arith))
  run-Sound zero (ends ∷ rest) p v e nested = absurd nested
  run-Sound (suc d) (ends ∷ rest) p v e nested =
      let s = end_call-Ends p v (omega arith) in
      let k = s.1 in run-Sound d rest (end_call hash_code p) s.0 (omega arith) nested
  run-Sound d (beats ∷ rest) p v e nested =
      run-Sound d rest (beat p)
        (record { level = v.level; bounded = v.bounded; mirrored = v.mirrored }) e nested
