-- ===== src/Sampler/Mirror.antt =====
-- What the calls of `sampling_profiler_handle_sample` (src/spx_profiler_sampler.c) make of the
-- sampled profiler's stack.
use php_spx.Prelude.{
  ℕ, zero, suc, ◌+◌, ◌-◌, ◌≤◌, ◌<◌, ◌≡◌, refl, sym, ap, subst, ◌∙◌, Bool, true, false, List, [],
  ◌∷◌, Option, none, some, arith, ◌==◌, leb, update, update_self, update_ne, Bool-cases, inl, inr,
  if_true, if_false, ℕ_discrete,
}
use php_spx.Sampler.{
  Call, call_start, call_end, finalize, Frames, Sampler, end_down, start_up, copy, common, sample,
  stack_capacity,
}

module _ {F : Type 0} (hash_code : F → ℕ) where
  -- The hash codes of the first `n` frames, topmost first.
  unfoldable pub codes : ℕ → (ℕ → F) → List ℕ
  codes zero frames = []
  codes (suc n) frames = hash_code (frames n) ∷ codes n frames

  abbrev pub popped : Option (List ℕ) → Option (List ℕ)
  popped (some (c ∷ cs)) = some cs
  popped _ = none

  abbrev pub pushed : ℕ → Option (List ℕ) → Option (List ℕ)
  pushed c none = none
  pushed c (some cs) = some (c ∷ cs)

  -- The stack of a profiler that has been told these calls, none if a call ended that had not
  -- started.
  unfoldable pub replay : List (Call F) → Option (List ℕ)
  replay [] = some []
  replay (call_start f ∷ calls) = pushed (hash_code f) (replay calls)
  replay (call_end ∷ calls) = popped (replay calls)
  replay (finalize ∷ calls) = replay calls

  pub codes_congr :
      (n : ℕ) (f g : ℕ → F)
      → ((i : ℕ) → i < n → hash_code (f i) ≡ hash_code (g i))
      → codes n f ≡ codes n g
  unfolding codes
  codes_congr zero f g h = refl
  codes_congr (suc n) f g h =
      rw (h n (omega arith), codes_congr n f g (λ i q. h i (omega arith))) refl

  pub copy-below : (n : ℕ) (src dst : ℕ → F) (i : ℕ) → i < n → copy n src dst i ≡ src i
  unfolding copy
  copy-below zero src dst i h = absurd (omega arith)
  copy-below (suc n) src dst i h = elim (ℕ_discrete n i) [
    | yes e ↦
        ap (update (copy n src dst) n (src n)) (sym e)
        ∙ update_self (copy n src dst) n (src n)
        ∙ ap src e
    | no ne ↦ update_ne (copy n src dst) n (src n) i ne ∙ copy-below n src dst i (omega arith)
  ]

  -- The common stack lies within both stacks, which agree on it.
  record IsCommon (previous current : Frames F) (top : ℕ) : Type 0 where
    in_previous : top ≤ previous.size
    in_current : top ≤ current.size
    agrees : (i : ℕ) → i < top → hash_code (previous.frames i) ≡ hash_code (current.frames i)

  common-IsCommon :
      (previous current : Frames F) (n top : ℕ)
      → IsCommon previous current top
      → IsCommon previous current (common hash_code previous current n top)
  unfolding common
  common-IsCommon previous current zero top c = c
  common-IsCommon previous current (suc n) top c = elim (Bool-cases (leb previous.size top)) [
    | inl a ↦ subst (IsCommon previous current) (sym (if_true (leb previous.size top) _ _ a)) c
    | inr a ↦
        subst (IsCommon previous current) (sym (if_false (leb previous.size top) _ _ a))
          (elim (Bool-cases (leb current.size top)) [
            | inl b ↦
                subst (IsCommon previous current) (sym (if_true (leb current.size top) _ _ b)) c
            | inr b ↦
                subst (IsCommon previous current) (sym (if_false (leb current.size top) _ _ b))
                  (elim (Bool-cases same) [
                    | inl e ↦
                        subst (IsCommon previous current) (sym (if_true same _ _ e))
                          (common-IsCommon previous current n (top + 1) (longer a b e))
                    | inr e ↦ subst (IsCommon previous current) (sym (if_false same _ _ e)) c
                  ])
          ])
  ]
    where
      same : Bool
      same = hash_code (previous.frames top) == hash_code (current.frames top)

      longer :
          leb previous.size top ≡ false
          → leb current.size top ≡ false
          → same ≡ true
          → IsCommon previous current (top + 1)
      longer a b e = record {
        in_previous = ground arith;
        in_current = ground arith;
        agrees = λ i h. elim (ℕ_discrete i top) [
          | yes here ↦
              subst (λ j. hash_code (previous.frames j) ≡ hash_code (current.frames j)) (sym here)
                (ground arith)
          | no there ↦ c.agrees i (omega arith)
        ];
      }

  none_left : (k : ℕ) → k ≤ zero → k ≡ zero
  none_left k h = omega arith

  replay-end_down :
      (top n : ℕ) (frames : ℕ → F) (calls : List (Call F))
      → top ≤ n
      → replay calls ≡ some (codes n frames)
      → replay (end_down top n calls) ≡ some (codes top frames)
  unfolding end_down replay codes
  replay-end_down top zero frames calls h e =
      e ∙ sym (ap (λ k. some (codes k frames)) (none_left top h))
  replay-end_down top (suc n) frames calls h e = elim (Bool-cases (leb top n)) [
    | inl below ↦
        ap replay (if_true (leb top n) _ _ below)
        ∙ replay-end_down top n frames (call_end ∷ calls) (ground arith) (ap popped e)
    | inr not_below ↦
        ap replay (if_false (leb top n) _ _ not_below)
        ∙ e
        ∙ ap (λ k. some (codes k frames)) (reached n (ground arith) h)
  ]
    where
      reached : (k : ℕ) → k < top → top ≤ suc k → suc k ≡ top
      reached k p q = omega arith

  replay-start_up :
      (frames : ℕ → F) (i n : ℕ) (calls : List (Call F))
      → replay calls ≡ some (codes i frames)
      → replay (start_up frames i n calls) ≡ some (codes (i + n) frames)
  unfolding start_up replay codes
  replay-start_up frames i zero calls e = e ∙ ap (λ k. some (codes k frames)) (unchanged i)
    where
      unchanged : (k : ℕ) → k ≡ k + zero
      unchanged k = omega arith
  replay-start_up frames i (suc n) calls e =
      replay-start_up frames (i + 1) n (call_start (frames i) ∷ calls)
        (ap (pushed (hash_code (frames i))) e ∙ ap (λ k. some (codes k frames)) (next i))
      ∙ ap (λ k. some (codes k frames)) (moved i n)
    where
      moved : (k l : ℕ) → k + 1 + l ≡ k + suc l
      moved k l = omega arith

      next : (k : ℕ) → suc k ≡ k + 1
      next k = omega arith

  -- The stack of the sampled profiler is the previous one.
  pub record Mirrors (p : Sampler F) : Type 0 where
    pub level : p.previous.size ≤ stack_capacity
    pub bounded : p.current.size ≤ stack_capacity
    pub mirrored : replay p.calls ≡ some (codes p.previous.size p.previous.frames)

  -- Before its last call end, a sample leaves the sampled profiler with the current stack.
  pub replay-sample :
      (p : Sampler F)
      → Mirrors p
      → replay (sample hash_code false p).calls ≡ some (codes p.current.size p.current.frames)
  unfolding sample
  replay-sample p v =
      replay-start_up p.current.frames top (p.current.size - top) _ (
        replay-end_down top p.previous.size p.previous.frames p.calls c.in_previous v.mirrored
        ∙ ap some (codes_congr top p.previous.frames p.current.frames c.agrees))
      ∙ ap (λ k. some (codes k p.current.frames)) (reached c.in_current)
    where
      top : ℕ
      top = common hash_code p.previous p.current p.previous.size 0

      c : IsCommon p.previous p.current top
      c = common-IsCommon p.previous p.current p.previous.size 0 (record {
        in_previous = omega arith;
        in_current = omega arith;
        agrees = λ i h. absurd (omega arith);
      })

      reached : top ≤ p.current.size → top + (p.current.size - top) ≡ p.current.size
      reached h = omega arith
