-- ===== src/Tracer/Settle.antt =====
-- What the loop over the parent frames in src/spx_profiler_tracer.c does to the sum of the values
-- that the frames hold for their children.
use mathlib.Core.Path.{ap₂}
use php_spx.Prelude.{
  ℕ, zero, suc, ◌+◌, ◌≤◌, ◌<◌, ◌≡◌, ◌≢◌, refl, sym, ap, ◌∙◌, true, false, some, arith,
  if◌then◌else◌, ◌==◌, ltb, update, update_ne, update_self, Bool-cases, inl, inr,
}
use php_spx.Prelude.Int.{ℤ, pos, ◌+ℤ◌, ◌-ℤ◌, int_laws, +ℤ-zero, zero-+ℤ, -ℤ-zero}
use php_spx.Metric.{Metric, Values}
use php_spx.Metric.Sums.{sum_below, sum_below_congr}
use php_spx.Tracer.State.{Frame}
use php_spx.Tracer.Frames.{Walk, credited, debited, visit, settle}

-- The value that a frame holds for its children.
abbrev pub children : Metric → (ℕ → Frame) → ℕ → ℤ
children m frames i = (frames i).children_metric_values m

abbrev pub HasEntry : (ℕ → Frame) → ℕ → Type 0
HasEntry frames i = (e : ℕ) × ((frames i).func_table_entry ≡ some e)

module _ (top entry : ℕ) (inc exc : Values) (m : Metric) where
  -- What the loop takes off in all, where the count of meetings goes from `a` to `b`.
  abbrev pub debit : ℕ → ℕ → ℤ
  debit a b = if a == 0 then (if b == 0 then pos 0 else exc m) else pos 0

  abbrev pub credit : ℕ → ℤ
  credit i = if i == top then inc m else pos 0

  debit-debit : (a b c : ℕ) → a ≤ b → b ≤ c → debit a b +ℤ debit b c ≡ debit a c
  debit-debit a b c h k = ground (arith, zero-+ℤ (exc m), +ℤ-zero (exc m), zero-+ℤ (pos 0))

  debit_self : (a : ℕ) → debit a a ≡ pos 0
  debit_self a = ground arith

  debit_first : (a : ℕ) → (a == 0) ≡ true → debit a (a + 1) ≡ exc m
  debit_first a z = ground arith

  undebited : (x d : ℤ) → d ≡ pos 0 → x ≡ x -ℤ d
  undebited x d e = rw e (sym (-ℤ-zero x))

  -- One round of the loop.
  record Visits (i : ℕ) (w w' : Walk) : Type 0 where
    children_at :
        children m w'.frames i
        ≡ children m w.frames i +ℤ credit i -ℤ debit w.cycle_depth w'.cycle_depth
    others : (j : ℕ) → i ≢ j → w'.frames j ≡ w.frames j
    entries : (j : ℕ) → (w'.frames j).func_table_entry ≡ (w.frames j).func_table_entry
    grows : w.cycle_depth ≤ w'.cycle_depth

  children-credited :
      (i : ℕ) (f : Frame)
      → (credited top entry inc exc i f).children_metric_values m
        ≡ f.children_metric_values m +ℤ credit i
  children-credited i f = elim (Bool-cases (i == top)) [
    | inl e ↦ rw e refl
    | inr e ↦ rw e (sym (+ℤ-zero (f.children_metric_values m)))
  ]

  entry-credited :
      (i : ℕ) (f : Frame) → (credited top entry inc exc i f).func_table_entry ≡ f.func_table_entry
  entry-credited i f = elim (Bool-cases (i == top)) [ inl e ↦ rw e refl | inr e ↦ rw e refl ]

  entry-update :
      (frames : ℕ → Frame) (i : ℕ) (f : Frame) (j : ℕ)
      → f.func_table_entry ≡ (frames i).func_table_entry
      → (update frames i f j).func_table_entry ≡ (frames j).func_table_entry
  entry-update frames i f j h = ground arith

  module _ (i : ℕ) (w : Walk) where
    parent : Frame
    parent = credited top entry inc exc i (w.frames i)

    -- A frame of another function, and one of the same function, met before or met first.
    Visits-other : Visits i w (record w { frames = update w.frames i parent })
    unfolding parent
    Visits-other = record {
      children_at =
          ap (λ f. f.children_metric_values m) (update_self w.frames i parent)
          ∙ children-credited i (w.frames i)
          ∙ undebited _ _ (debit_self w.cycle_depth);
      others = λ j h. update_ne w.frames i _ j h;
      entries = λ j. entry-update w.frames i _ j (entry-credited i (w.frames i));
      grows = omega arith;
    }

    Visits-again :
        (w.cycle_depth == 0) ≡ false
        → Visits i w (record { frames = update w.frames i parent; cycle_depth = w.cycle_depth + 1 })
    unfolding parent
    Visits-again z = record {
      children_at =
          ap (λ f. f.children_metric_values m) (update_self w.frames i parent)
          ∙ children-credited i (w.frames i)
          ∙ undebited _ _ (rw z refl);
      others = λ j h. update_ne w.frames i _ j h;
      entries = λ j. entry-update w.frames i _ j (entry-credited i (w.frames i));
      grows = omega arith;
    }

    Visits-first :
        (w.cycle_depth == 0) ≡ true
        → Visits i w (record {
          frames = update w.frames i (debited top entry inc exc parent);
          cycle_depth = w.cycle_depth + 1;
        })
    unfolding parent
    Visits-first z = record {
      children_at =
          ap (λ f. f.children_metric_values m)
            (update_self w.frames i (debited top entry inc exc parent))
          ∙ ap (λ x. x -ℤ exc m) (children-credited i (w.frames i))
          ∙ ap (λ d. children m w.frames i +ℤ credit i -ℤ d) (sym (debit_first w.cycle_depth z));
      others = λ j h. update_ne w.frames i _ j h;
      entries = λ j. entry-update w.frames i _ j (entry-credited i (w.frames i));
      grows = omega arith;
    }

    visit-Visits : (e : ℕ) → Visits i w (visit top entry inc exc i (some e) w)
    unfolding visit parent
    visit-Visits e = elim (Bool-cases (e == entry)) [
      | inr other ↦ rw other Visits-other
      | inl same ↦ elim (Bool-cases (w.cycle_depth == 0)) [
        | inl z ↦ rw (same, z) (Visits-first z)
        | inr z ↦ rw (same, z) (Visits-again z)
      ]
    ]

  -- The whole loop over the frames below `n`, where all of them have an entry.
  pub record Settles (n : ℕ) (w r : Walk) : Type 0 where
    pub sum :
        sum_below n (children m r.frames)
        ≡ sum_below n (children m w.frames)
          +ℤ (if ltb top n then inc m else pos 0)
          -ℤ debit w.cycle_depth r.cycle_depth
    pub above : (j : ℕ) → n ≤ j → r.frames j ≡ w.frames j
    pub entries : (j : ℕ) → (r.frames j).func_table_entry ≡ (w.frames j).func_table_entry
    pub grows : w.cycle_depth ≤ r.cycle_depth

  credits : ℕ → ℤ
  credits n = if ltb top n then inc m else pos 0

  credits-suc : (n : ℕ) → credits n +ℤ credit n ≡ credits (suc n)
  unfolding credits
  credits-suc n = ground (arith, zero-+ℤ (inc m), +ℤ-zero (inc m), zero-+ℤ (pos 0))

  rearrange :
      (s c s' x k x' d e : ℤ)
      → s' ≡ s +ℤ c -ℤ e
      → x' ≡ x +ℤ k -ℤ d
      → s' +ℤ x' ≡ s +ℤ x +ℤ (c +ℤ k) -ℤ (d +ℤ e)
  rearrange s c s' x k x' d e p q = rw (p, q) (omega int_laws)

  Settles-step : (i : ℕ) (w v r : Walk) → Visits i w v → Settles i v r → Settles (suc i) w r
  unfolding sum_below credits
  Settles-step i w v r a b = record {
    sum =
        rearrange (sum_below i (children m w.frames)) (credits i) _ (children m w.frames i)
          (credit i) _ (debit w.cycle_depth v.cycle_depth) (debit v.cycle_depth r.cycle_depth)
          (b.sum
            ∙ ap (λ s. s +ℤ credits i -ℤ debit v.cycle_depth r.cycle_depth)
                (sum_below_congr i (children m v.frames) (children m w.frames)
                  (λ j lt. ap (λ f. f.children_metric_values m) (a.others j (omega arith)))))
          (ap (λ f. f.children_metric_values m) (b.above i (omega arith)) ∙ a.children_at)
        ∙ ap₂ (λ c d. sum_below (suc i) (children m w.frames) +ℤ c -ℤ d) (credits-suc i)
            (debit-debit w.cycle_depth v.cycle_depth r.cycle_depth a.grows b.grows);
    above = λ j h. b.above j (omega arith) ∙ a.others j (omega arith);
    entries = λ j. b.entries j ∙ a.entries j;
    grows = (let x = a.grows in let y = b.grows in omega arith);
  }

  pub settle-Settles :
      (n : ℕ) (w : Walk)
      → ((i : ℕ) → i < n → HasEntry w.frames i)
      → Settles n w (settle top entry inc exc n w)
  unfolding settle sum_below ◌+ℤ◌ ◌-ℤ◌
  settle-Settles zero w h = record {
    sum = let e : ltb top 0 ≡ false = ground arith in rw (e, debit_self) refl;
    above = λ j _. refl;
    entries = λ j. refl;
    grows = omega arith;
  }
  settle-Settles (suc i) w h =
      let (e, p) = h i (omega arith) in
      rw p (
        Settles-step i w _ _ (visit-Visits i w e) (
          settle-Settles i (visit top entry inc exc i (some e) w) (λ j lt.
            ((h j (omega arith)).0, (visit-Visits i w e).entries j ∙ (h j (omega arith)).1))))
