-- ===== src/CallStack/Laws.antt =====
-- The call stack of src/spx_call_stack.c against a list of bounded length.
use php_spx.Prelude.{
  ℕ, zero, suc, ◌+◌, ◌-◌, ◌≤◌, ◌<◌, ◌≡◌, refl, sym, ap, subst, ◌∙◌, List, [], ◌∷◌, Option, none,
  some, arith, if◌then◌else◌, ◌==◌, leb, update, update_self, update_ne, Bool-cases, inl, inr,
  if_true, if_false, length, get_elem?, ℕ_discrete, ◌≢◌,
}
use php_spx.CallStack.{
  capacity_exceeded, internal, Answer, done, failed, CallStack, push, pop, get_frame_at,
}

module _ {F : Type 0} where
  -- The first `n` frames, topmost first.
  unfoldable pub top_frames : ℕ → (ℕ → F) → List F
  top_frames zero frames = []
  top_frames (suc n) frames = frames n ∷ top_frames n frames

  -- What a stack stands for.
  abbrev pub view : CallStack F → List F
  view s = top_frames s.depth s.frames

  abbrev pub IsValid : CallStack F → Type 0
  IsValid s = s.depth ≤ s.capacity

  top_frames_congr :
      (n : ℕ) (f g : ℕ → F) → ((i : ℕ) → i < n → f i ≡ g i) → top_frames n f ≡ top_frames n g
  unfolding top_frames
  top_frames_congr zero f g h = refl
  top_frames_congr (suc n) f g h =
      rw (h n (omega arith), top_frames_congr n f g (λ i q. h i (omega arith))) refl

  top_frames-suc : (n : ℕ) (f : ℕ → F) → top_frames (n + 1) f ≡ f n ∷ top_frames n f
  unfolding top_frames
  top_frames-suc n f = ap (λ k. top_frames k f) (next n)
    where
      next : (k : ℕ) → k + 1 ≡ suc k
      next k = omega arith

  length-view : (s : CallStack F) → length (view s) ≡ s.depth
  unfolding top_frames
  length-view s = by_depth s.depth
    where
      by_depth : (n : ℕ) → length (top_frames n s.frames) ≡ n
      by_depth zero = refl
      by_depth (suc n) = let e = by_depth n in omega arith

  abbrev pub Pushes : CallStack F → F → Answer (CallStack F) → Type 0
  Pushes s f (done t) =
      (s.depth < s.capacity) × IsValid t × (t.capacity ≡ s.capacity) × (view t ≡ f ∷ view s)
  Pushes s f (failed e) = (e ≡ capacity_exceeded) × (length (view s) ≡ s.capacity)

  -- `spx_call_stack_push` on a valid stack puts the function on top and leaves the frames below as
  -- they are, or answers that the capacity is exceeded, which it does exactly when the stack is
  -- full.
  pub push-Pushes : (s : CallStack F) (f : F) → IsValid s → Pushes s f (push (some s) (some f))
  unfolding push
  push-Pushes s f v = elim (Bool-cases (leb s.capacity s.depth)) [
    | inl full ↦
        subst (Pushes s f) (sym (if_true (leb s.capacity s.depth) _ _ full))
          (refl, length-view s ∙ ground arith)
    | inr room ↦ subst (Pushes s f) (sym (if_false (leb s.capacity s.depth) _ _ room)) (
      ground arith,
      ground arith,
      refl,
      top_frames-suc s.depth (update s.frames s.depth f)
          ∙ cons_congr (update_self s.frames s.depth f) (
              top_frames_congr s.depth (update s.frames s.depth f) s.frames
                (λ i q. update_ne s.frames s.depth f i (omega arith))),
    )
  ]
    where
      cons_congr : {x y : F} {xs ys : List F} → x ≡ y → xs ≡ ys → x ∷ xs ≡ y ∷ ys
      cons_congr p q = rw (p, q) refl

  abbrev pub Pops : CallStack F → Answer (F × CallStack F) → Type 0
  Pops s (done (f, t)) = IsValid t × (t.capacity ≡ s.capacity) × (view s ≡ f ∷ view t)
  Pops s (failed e) = (e ≡ internal) × (view s ≡ [])

  -- `spx_call_stack_pop` on a valid stack takes off the topmost frame and keeps the others; it
  -- answers with an error only where the stack is empty.
  pub pop-Pops : (s : CallStack F) → IsValid s → Pops s (pop (some s))
  unfolding pop top_frames
  pop-Pops s v = elim (Bool-cases (s.depth == 0)) [
    | inl empty ↦
        subst (Pops s) (sym (if_true (s.depth == 0) _ _ empty))
          (refl, emptied s.depth (ground arith))
    | inr some_frame ↦ subst (Pops s) (sym (if_false (s.depth == 0) _ _ some_frame)) (
      omega arith,
      refl,
      ap (λ k. top_frames k s.frames) (deeper s.depth (ground arith))
          ∙ top_frames-suc (s.depth - 1) s.frames,
    )
  ]
    where
      emptied : (n : ℕ) → n ≡ 0 → top_frames n s.frames ≡ []
      emptied n h = ap (λ k. top_frames k s.frames) h

      deeper : (n : ℕ) → 0 < n → n ≡ n - 1 + 1
      deeper n h = omega arith

  get_elem?-top_frames :
      (f : ℕ → F) (n i : ℕ) → i < n → get_elem? (top_frames n f) (n - 1 - i) ≡ some (f i)
  unfolding top_frames
  get_elem?-top_frames f zero i h = absurd (omega arith)
  get_elem?-top_frames f (suc n) i h = elim (ℕ_discrete i n) [
    | yes e ↦ ap (get_elem? (f n ∷ top_frames n f)) (first n i e) ∙ ap (λ j. some (f j)) (sym e)
    | no ne ↦
        ap (get_elem? (f n ∷ top_frames n f)) (later n i h ne)
        ∙ get_elem?-top_frames f n i (omega arith)
  ]
    where
      first : (n i : ℕ) → i ≡ n → suc n - 1 - i ≡ 0
      first n i e = omega arith

      later : (n i : ℕ) → i < suc n → i ≢ n → suc n - 1 - i ≡ suc (n - 1 - i)
      later n i h ne = omega arith

  -- The answer of an optional frame.
  abbrev pub found : Option F → Answer F
  found none = failed internal
  found (some f) = done f

  -- The frame at `index` is, counted from the bottom, the one of the list that the stack stands
  -- for; any other index is refused, and so is a read of the top of an empty stack.
  pub get_frame_at-view :
      (s : CallStack F) (index : ℕ)
      → get_frame_at (some s) index ≡ (
          if leb s.depth index
          then failed internal
          else found (get_elem? (view s) (s.depth - 1 - index)))
  unfolding get_frame_at
  get_frame_at-view s index = elim (Bool-cases (leb s.depth index)) [
    | inl outside ↦
        if_true (leb s.depth index) _ _ outside ∙ sym (if_true (leb s.depth index) _ _ outside)
    | inr inside ↦
        if_false (leb s.depth index) _ _ inside
        ∙ sym (ap found (get_elem?-top_frames s.frames s.depth index (ground arith)))
        ∙ sym (if_false (leb s.depth index) _ _ inside)
  ]
