-- ===== src/Sampler/Faithful.antt =====
-- The sampled profiler of src/spx_profiler_sampler.c where no two frames have the same hash code.
use php_spx.Prelude.{ℕ, zero, suc, ◌≡◌, refl, sym, ap, ◌∙◌, List, [], ◌∷◌, map, Option, none, some}
use php_spx.FuncTable.{Run}
use php_spx.Sampler.{Call, call_start, call_end, finalize, Sampler}
use php_spx.Sampler.Mirror.{codes, popped, pushed, replay, Mirrors}
use php_spx.Sampler.Interleavings.{Happening, run, Nested, Sound, run-Sound}

module _ {F : Type 0} where
  -- The first `n` frames, topmost first.
  unfoldable pub stack : ℕ → (ℕ → F) → List F
  stack zero frames = []
  stack (suc n) frames = frames n ∷ stack n frames

  abbrev pub without_top : Option (List F) → Option (List F)
  without_top (some (f ∷ fs)) = some fs
  without_top _ = none

  abbrev pub with_top : F → Option (List F) → Option (List F)
  with_top f none = none
  with_top f (some fs) = some (f ∷ fs)

  -- The frames of a profiler that has been told these calls, none if a call ended that had not
  -- started.
  unfoldable pub frames_of : List (Call F) → Option (List F)
  frames_of [] = some []
  frames_of (call_start f ∷ calls) = with_top f (frames_of calls)
  frames_of (call_end ∷ calls) = without_top (frames_of calls)
  frames_of (finalize ∷ calls) = frames_of calls

  -- The sampled profiler runs the stack of the last sample, frame by frame.
  abbrev pub Faithful : Run (Sampler F) → Type 0
  Faithful none = ⊥
  Faithful (some q) = frames_of q.calls ≡ some (stack q.previous.size q.previous.frames)

module _ {F : Type 0} (hash_code : F → ℕ) where
  abbrev coded : Option (List F) → Option (List ℕ)
  coded none = none
  coded (some fs) = some (map hash_code fs)

  codes-map : (n : ℕ) (frames : ℕ → F) → codes hash_code n frames ≡ map hash_code (stack n frames)
  unfolding codes stack
  codes-map zero frames = refl
  codes-map (suc n) frames = ap (◌∷◌ (hash_code (frames n))) (codes-map n frames)

  coded-with_top :
      (f : F) (o : Option (List F))
      → coded (with_top f o) ≡ pushed hash_code (hash_code f) (coded o)
  coded-with_top f none = refl
  coded-with_top f (some fs) = refl

  coded-without_top : (o : Option (List F)) → coded (without_top o) ≡ popped hash_code (coded o)
  coded-without_top none = refl
  coded-without_top (some []) = refl
  coded-without_top (some (f ∷ fs)) = refl

  replay-coded : (calls : List (Call F)) → replay hash_code calls ≡ coded (frames_of calls)
  unfolding replay frames_of
  replay-coded [] = refl
  replay-coded (call_start f ∷ calls) =
      ap (pushed hash_code (hash_code f)) (replay-coded calls)
      ∙ sym (coded-with_top f (frames_of calls))
  replay-coded (call_end ∷ calls) =
      ap (popped hash_code) (replay-coded calls) ∙ sym (coded-without_top (frames_of calls))
  replay-coded (finalize ∷ calls) = replay-coded calls

  module _ (apart : (f g : F) → hash_code f ≡ hash_code g → f ≡ g) where
    map-injective : (fs gs : List F) → map hash_code fs ≡ map hash_code gs → fs ≡ gs
    map-injective [] [] e = refl
    map-injective [] (g ∷ gs) e = absurd (cc)
    map-injective (f ∷ fs) [] e = absurd (cc)
    map-injective (f ∷ fs) (g ∷ gs) e =
        let head : hash_code f ≡ hash_code g = cc in
        let tail : map hash_code fs ≡ map hash_code gs = cc in
        let same = apart f g head in let rest = map-injective fs gs tail in cc

    coded-injective :
        (o : Option (List F)) (gs : List F) → coded o ≡ some (map hash_code gs) → o ≡ some gs
    coded-injective none gs e = absurd (cc)
    coded-injective (some fs) gs e = ap some (map-injective fs gs (some_of e))
      where
        some_of : {s t : List ℕ} → some s ≡ some t → s ≡ t
        some_of q = cc

    Sound-Faithful : (r : Run (Sampler F)) → Sound hash_code r → Faithful r
    Sound-Faithful none s = s
    Sound-Faithful (some q) s =
        coded-injective (frames_of q.calls) (stack q.previous.size q.previous.frames) (
          sym (replay-coded q.calls)
          ∙ s.mirrored
          ∙ ap some (codes-map q.previous.size q.previous.frames))

    -- Where no two frames have the same hash code: however the heartbeat interleaves with calls that
    -- nest up to the capacity, the process does not end, and what the sampled profiler is told are
    -- nested calls again, which leave it with the very frames that the sampler notes as the previous
    -- stack.
    pub run-Faithful :
        (d : ℕ) (history : List (Happening F)) (p : Sampler F)
        → Mirrors hash_code p
        → p.current.size ≡ d
        → Nested hash_code d history
        → Faithful (run hash_code history p)
    run-Faithful d history p v e nested =
        Sound-Faithful (run hash_code history p) (run-Sound hash_code d history p v e nested)
