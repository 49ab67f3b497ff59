-- ===== src/HashMap/Bucket/Laws.antt =====
-- A chain read as one list of slots, on which a search is a search in an association list.
use php_spx.Prelude.{
  ℕ, zero, suc, ◌≢◌, ◌≡◌, refl, Bool, true, false, List, [], ◌∷◌, ◌++◌, Option, none, some, arith,
  if◌then◌else◌, Bool-cases, inl, inr, ap, ◌∙◌, sym,
}
use php_spx.HashMap.Bucket.{
  Slot, vacant, used, Place, Scan, hit, missing, full, Chain, scan, shift, deeper, conclude, extend,
  get_entry, modify_slot, modify, slot_at, at, get_value,
}
use mathlib.Core.List.{flatten}

module _ {ℓ} {K : Type ℓ} {V : Type ℓ} (same : K → K → Bool) where
  -- The first used slot with the key, before any vacant one.
  unfoldable pub find : K → List (Slot K V) → Option (Option V)
  find k [] = none
  find k (vacant ∷ s) = none
  find k (used j v ∷ s) = if same k j then some v else find k s

  -- The value at the key, in the first vacant slot or in a fresh block if the key is new.
  unfoldable pub assign : K → V → List (Slot K V) → List (Slot K V)
  assign k v [] = used k (some v) ∷ vacant ∷ vacant ∷ vacant ∷ []
  assign k v (vacant ∷ s) = used k (some v) ∷ s
  assign k v (used j w ∷ s) = if same k j then used j (some v) ∷ s else used j w ∷ assign k v s

  -- What the loop over a block says of a search for an existing key in the block and the rest.
  abbrev Finds : K → List (Slot K V) → List (Slot K V) → Scan K V → Type ℓ
  Finds k b r (hit i n b') =
      (find k (b ++ r) ≡ some (get_value (slot_at i b'))) × (b' ≡ b) × (n ≡ false)
  Finds k b r missing = find k (b ++ r) ≡ none
  Finds k b r full = find k (b ++ r) ≡ find k r

  Finds-shift :
      (k j : K) (v : Option V) (b r : List (Slot K V)) (o : Scan K V)
      → same k j ≡ false
      → Finds k b r o
      → Finds k (used j v ∷ b) r (shift (used j v) o)
  unfolding find slot_at
  Finds-shift k j v b r (hit i n b') h e = ground arith
  Finds-shift k j v b r missing h e = rw h e
  Finds-shift k j v b r full h e = rw h e

  scan-Finds : (k : K) (b r : List (Slot K V)) → Finds k b r (scan same k true b)
  unfolding scan find slot_at
  scan-Finds k [] r = refl
  scan-Finds k (vacant ∷ b) r = refl
  scan-Finds k (used j v ∷ b) r = elim (Bool-cases (same k j)) [
    | inl e ↦ rw (e, scan) (rw e, refl, refl)
    | inr e ↦ rw (e, scan) (Finds-shift k j v b r (scan same k true b) e (scan-Finds k b r))
  ]

  module _ (g : Slot K V → Slot K V) (k : K) (v : V)
      (writes : g (used k none) ≡ used k (some v)) where
    -- What the loop says where the key may be new: `g` is what is then done to a new entry.
    abbrev Assigns : List (Slot K V) → List (Slot K V) → Scan K V → Type ℓ
    Assigns b r (hit i true b') =
        (find k (b ++ r) ≡ none) × (modify_slot g i b' ++ r ≡ assign k v (b ++ r))
    Assigns b r (hit i false b') = (find k (b ++ r) ≡ some (get_value (slot_at i b'))) × (b' ≡ b)
    Assigns b r missing = none ≡ some v
    Assigns b r full = (find k (b ++ r) ≡ find k r) × (assign k v (b ++ r) ≡ b ++ assign k v r)

    Assigns-shift :
        (j : K) (w : Option V) (b r : List (Slot K V)) (o : Scan K V)
        → same k j ≡ false
        → Assigns b r o
        → Assigns (used j w ∷ b) r (shift (used j w) o)
    unfolding assign modify_slot find slot_at
    Assigns-shift j w b r (hit i true b') h e = rw h (e.0, ap (◌∷◌ (used j w)) e.1)
    Assigns-shift j w b r (hit i false b') h e = rw h (e.0, ap (◌∷◌ (used j w)) e.1)
    Assigns-shift j w b r missing h e = e
    Assigns-shift j w b r full h e = rw h (e.0, ap (◌∷◌ (used j w)) e.1)

    scan-Assigns : (b r : List (Slot K V)) → Assigns b r (scan same k false b)
    unfolding scan assign modify_slot find slot_at
    scan-Assigns [] r = (refl, refl)
    scan-Assigns (vacant ∷ b) r = (refl, ap (λ s. s ∷ b ++ r) writes)
    scan-Assigns (used j w ∷ b) r = elim (Bool-cases (same k j)) [
      | inl e ↦ rw (e, scan) (rw e, refl)
      | inr e ↦ rw (e, scan) (Assigns-shift j w b r (scan same k false b) e (scan-Assigns b r))
    ]

    -- The same of a whole chain, where the allocation of a further block succeeds.
    abbrev pub Placed : Bool → ℕ → ℕ → Chain K V → Chain K V → Type ℓ
    Placed true block slot c c' =
        (find k (flatten c) ≡ none) × (flatten (modify g block slot c') ≡ assign k v (flatten c))
    Placed false block slot c c' =
        (find k (flatten c) ≡ some (get_value (at block slot c'))) × (c' ≡ c)

    abbrev pub Ensures : Chain K V → Option Place × Chain K V → Type ℓ
    Ensures c (none, c') = none ≡ some v
    Ensures c (some p, c') = Placed p.is_new p.block p.slot c c'

    conclude-Ensures :
        (b : List (Slot K V)) (rest : Chain K V) (more : Option Place × Chain K V) (o : Scan K V)
        → Assigns b (flatten rest) o
        → (Assigns b (flatten rest) full → Ensures (b ∷ rest) more)
        → Ensures (b ∷ rest) (conclude b rest more o)
    unfolding at flatten modify
    conclude-Ensures b rest more (hit i true b') h f = h
    conclude-Ensures b rest more (hit i false b') h f = (h.0, ap (λ x. x ∷ rest) h.1)
    conclude-Ensures b rest more missing h f = h
    conclude-Ensures b rest more full h f = f h

    deeper-Placed :
        (b : List (Slot K V)) (c : Chain K V) (n : Bool) (block slot : ℕ) (c' : Chain K V)
        → (find k (b ++ flatten c) ≡ find k (flatten c))
        → (assign k v (b ++ flatten c) ≡ b ++ assign k v (flatten c))
        → Placed n block slot c c'
        → Placed n (suc block) slot (b ∷ c) (b ∷ c')
    unfolding at flatten modify
    deeper-Placed b c true block slot c' h a e = (h ∙ e.0, ap (◌++◌ b) e.1 ∙ sym a)
    deeper-Placed b c false block slot c' h a e = (h ∙ e.0, ap (◌∷◌ b) e.1)

    deeper-Ensures :
        (b : List (Slot K V)) (c : Chain K V) (r : Option Place × Chain K V)
        → (find k (b ++ flatten c) ≡ find k (flatten c))
          × (assign k v (b ++ flatten c) ≡ b ++ assign k v (flatten c))
        → Ensures c r
        → Ensures (b ∷ c) (deeper b r)
    deeper-Ensures b c (none, c') h e = e
    deeper-Ensures b c (some p, c') h e = deeper-Placed b c p.is_new p.block p.slot c' h.0 h.1 e

    extend-Ensures :
        (b : List (Slot K V))
        → (find k (b ++ []) ≡ none) × (assign k v (b ++ []) ≡ b ++ assign k v [])
        → Ensures (b ∷ []) (extend true same k false b)
    unfolding extend modify flatten find assign modify_slot
    extend-Ensures b h =
        (h.0, ap (◌++◌ b) (ap (λ s. s ∷ vacant ∷ vacant ∷ vacant ∷ []) writes) ∙ sym h.1)

    pub get_entry-Ensures :
        (b : List (Slot K V)) (c : Chain K V)
        → Ensures (b ∷ c) (get_entry true same k false (b ∷ c))
    unfolding get_entry flatten find
    get_entry-Ensures b [] =
        conclude-Ensures b [] _ (scan same k false b) (scan-Assigns b []) (extend-Ensures b)
    get_entry-Ensures b (c ∷ cs) =
        conclude-Ensures b (c ∷ cs) _ (scan same k false b) (scan-Assigns b (flatten (c ∷ cs)))
          (λ e. deeper-Ensures b (c ∷ cs) _ e (get_entry-Ensures c cs))

  pub assign-ne-nil : (k : K) (v : V) (s : List (Slot K V)) → assign k v s ≢ []
  unfolding assign
  assign-ne-nil k v [] e = cc
  assign-ne-nil k v (vacant ∷ s) e = cc
  assign-ne-nil k v (used j w ∷ s) e = ground arith

  -- A search for an existing key leaves the chain as it is and reads the list of slots.
  abbrev pub Reads : K → Chain K V → Option Place × Chain K V → Type ℓ
  Reads k c (some p, c') =
      (find k (flatten c) ≡ some (get_value (at p.block p.slot c'))) × (c' ≡ c) × (p.is_new ≡ false)
  Reads k c (none, c') = (find k (flatten c) ≡ none) × (c' ≡ c)

  conclude-Reads :
      (k : K) (b : List (Slot K V)) (rest : Chain K V) (more : Option Place × Chain K V)
      (o : Scan K V)
      → Finds k b (flatten rest) o
      → ((find k (b ++ flatten rest) ≡ find k (flatten rest)) → Reads k (b ∷ rest) more)
      → Reads k (b ∷ rest) (conclude b rest more o)
  unfolding at flatten
  conclude-Reads k b rest more (hit i n b') h f = (h.0, ap (λ x. x ∷ rest) h.1, h.2)
  conclude-Reads k b rest more missing h f = (h, refl)
  conclude-Reads k b rest more full h f = f h

  deeper-Reads :
      (k : K) (b : List (Slot K V)) (c : Chain K V) (r : Option Place × Chain K V)
      → find k (b ++ flatten c) ≡ find k (flatten c)
      → Reads k c r
      → Reads k (b ∷ c) (deeper b r)
  unfolding at flatten
  deeper-Reads k b c (none, c') h e = (h ∙ e.0, ap (◌∷◌ b) e.1)
  deeper-Reads k b c (some p, c') h e = (h ∙ e.0, ap (◌∷◌ b) e.1, e.2)

  pub get_entry-Reads :
      (granted : Bool) (k : K) (c : Chain K V) → Reads k c (get_entry granted same k true c)
  unfolding get_entry extend find flatten
  get_entry-Reads granted k [] = (refl, refl)
  get_entry-Reads granted k (b ∷ []) =
      conclude-Reads k b [] _ (scan same k true b) (scan-Finds k b []) (λ e. (e, refl))
  get_entry-Reads granted k (b ∷ c ∷ cs) =
      conclude-Reads k b (c ∷ cs) _ (scan same k true b) (scan-Finds k b (flatten (c ∷ cs)))
        (λ e. deeper-Reads k b (c ∷ cs) _ e (get_entry-Reads granted k (c ∷ cs)))

module _ {ℓ} {K V : Type ℓ} (f g : Slot K V → Slot K V) where
  modify_slot-modify_slot :
      (i : ℕ) (b : List (Slot K V))
      → modify_slot f i (modify_slot g i b) ≡ modify_slot (λ s. f (g s)) i b
  unfolding modify_slot
  modify_slot-modify_slot i [] = refl
  modify_slot-modify_slot zero (s ∷ b) = refl
  modify_slot-modify_slot (suc i) (s ∷ b) = ap (◌∷◌ s) (modify_slot-modify_slot i b)

  -- Two changes through one pointer are one change.
  pub modify-modify :
      (n i : ℕ) (c : Chain K V) → modify f n i (modify g n i c) ≡ modify (λ s. f (g s)) n i c
  unfolding modify
  modify-modify n i [] = refl
  modify-modify zero i (b ∷ c) = ap (λ x. x ∷ c) (modify_slot-modify_slot i b)
  modify-modify (suc n) i (b ∷ c) = ap (◌∷◌ b) (modify-modify n i c)
