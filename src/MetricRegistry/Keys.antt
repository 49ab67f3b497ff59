-- ===== src/MetricRegistry/Keys.antt =====
-- The ids and the keys of the registry.
use php_spx.Prelude.{
  take_all, ℕ, suc, ◌+◌, ◌*◌, ◌≤◌, ◌<◌, ◌≡◌, ◌≢◌, refl, sym, ap, subst, ◌∙◌, Bool, true, false,
  Option, none, some, List, [], ◌∷◌, ◌++◌, if◌then◌else◌, if_true, if_false, ltb, ltb→lt, length,
  length-append, take, get_elem?, arith,
}
use php_spx.Prelude.Bytes.{Bytes, bytes_eq, bytes_eq_refl, bytes_eq_comm, eq_of_bytes_eq}
use php_spx.Prelude.{◌⊎◌, inl, inr}
use php_spx.MetricRegistry.{
  Realloc, refused, in_place, moved, expanded, Info, Plugin, Registry, Registered, find,
  ensure_capacity, entry_of, appended, registered, unless_found, register, get_by_key, get_info,
}

-- The ids count from n, and no key stands twice.
abbrev pub Numbered : ℕ → List Info → Type 0
Numbered n [] = Unit {0}
Numbered n (e ∷ es) = (e.id ≡ n) × (find e.key es ≡ none) × Numbered (suc n) es

abbrev pub IsSound : Registry → Type 0
IsSound r = Numbered 0 r.metrics × (length r.metrics ≤ r.capacity) × (1 ≤ r.capacity)

find-append :
    (key : Bytes) (es : List Info) (e : Info)
    → find key es ≡ none
    → find key (es ++ (e ∷ [])) ≡ (if bytes_eq e.key key then some e.id else none)
find-append key [] e h = refl
find-append key (x ∷ es) e h = either (find-append key es e) (bytes_eq x.key key) h
  where
    either :
        (find key es ≡ none
          → find key (es ++ (e ∷ [])) ≡ (if bytes_eq e.key key then some e.id else none))
        → (b : Bool) → (if b then some x.id else find key es) ≡ none
        → (if b then some x.id else find key (es ++ (e ∷ [])))
          ≡ (if bytes_eq e.key key then some e.id else none)
    either ih true h = cc
    either ih false h = ih h

-- A key that is found nowhere differs from that of the first entry, and is not found after it.
find-none :
    (key : Bytes) (x : Info) (es : List Info)
    → find key (x ∷ es) ≡ none
    → (bytes_eq x.key key ≡ false) × (find key es ≡ none)
find-none key x es h = either (bytes_eq x.key key) refl h
  where
    either :
        (b : Bool)
        → bytes_eq x.key key ≡ b
        → (if b then some x.id else find key es) ≡ none
        → (bytes_eq x.key key ≡ false) × (find key es ≡ none)
    either true e h = cc
    either false e h = (e, h)

Numbered-append :
    (n : ℕ) (es : List Info) (e : Info)
    → Numbered n es
    → find e.key es ≡ none
    → e.id ≡ n + length es
    → Numbered n (es ++ (e ∷ []))
Numbered-append n [] e h new id = (omega arith, refl, _)
Numbered-append n (x ∷ es) e (hid, hkey, hs) new id =
    let apart = find-none e.key x es new in
    (
      hid,
      find-append x.key es e hkey
          ∙ if_false (bytes_eq e.key x.key) (some e.id) none (bytes_eq_comm e.key x.key ∙ apart.0),
      Numbered-append (suc n) es e hs apart.1 (omega arith),
    )

find_new :
    (key : Bytes) (es : List Info) (e : Info)
    → find key es ≡ none
    → e.key ≡ key
    → find key (es ++ (e ∷ [])) ≡ some e.id
find_new key es e new same =
    find-append key es e new
    ∙ if_true (bytes_eq e.key key) (some e.id) none
        (subst (λ k. bytes_eq k key ≡ true) (sym same) (bytes_eq_refl key))

find_other :
    (key : Bytes) (es : List Info) (e : Info)
    → e.key ≢ key
    → find key (es ++ (e ∷ [])) ≡ find key es
find_other key [] e ne =
    if_false (bytes_eq e.key key) (some e.id) none (different (bytes_eq e.key key) refl)
  where
    different : (b : Bool) → bytes_eq e.key key ≡ b → b ≡ false
    different true h = absurd (ne (eq_of_bytes_eq e.key key h))
    different false h = refl
find_other key (x ∷ es) e ne =
    ap (λ rest. if bytes_eq x.key key then some x.id else rest) (find_other key es e ne)

get_elem?-end : (es : List Info) (e : Info) → get_elem? (es ++ (e ∷ [])) (length es) ≡ some e
get_elem?-end [] e = refl
get_elem?-end (x ∷ es) e = get_elem?-end es e

-- An answer of realloc that leaves the entries where they are.
abbrev pub Stays : Realloc → Type 0
Stays refused = Unit {0}
Stays in_place = Unit {0}
Stays (moved left) = ⊥

-- What a registration leaves behind.
abbrev pub Registers : Plugin → Registry → Registered → Type 0
Registers p r (none, r') = r' ≡ r
Registers p r (some id, r') =
    IsSound r'
    × (get_by_key p.key r' ≡ some id)
    × (get_info id r' ≡ some (entry_of id p))
    × ((key : Bytes) → key ≢ p.key → get_by_key key r' ≡ get_by_key key r)

module _ (p : Plugin) (short : length p.key ≤ 63) where
  appended-Registers :
      (r : Registry) (capacity : ℕ)
      → IsSound r
      → r.initialized ≡ true
      → find p.key r.metrics ≡ none
      → length r.metrics < capacity
      → Registers p r (some (length r.metrics), appended p (record r { capacity = capacity }))
  appended-Registers r capacity (numbered, fits, above) on new room = (
    (
      Numbered-append 0 r.metrics (entry_of (length r.metrics) p) numbered
          (subst (λ k. find k r.metrics ≡ none) (sym stored) new) (omega arith),
      omega (arith, length-append r.metrics (entry_of (length r.metrics) p ∷ [])),
      omega arith,
    ),
    if_true r.initialized _ none on
        ∙ find_new p.key r.metrics (entry_of (length r.metrics) p) new stored,
    if_true r.initialized _ none on ∙ get_elem?-end r.metrics (entry_of (length r.metrics) p),
    λ key ne.
        ap (λ o. if r.initialized then o else none)
          (find_other key r.metrics (entry_of (length r.metrics) p)
            (λ same. ne (sym same ∙ stored))),
  )
    where
      stored : take 63 p.key ≡ p.key
      stored = take_all 63 p.key short

  -- In a registry whose keys are apart, unless realloc is called and moves the entries, a plugin with a
  -- key of at most 63 bytes is refused and changes nothing, or it is found by its key and by its new
  -- id, the keys are still apart, and every other key is found as before.
  pub register-Registers :
      (realloc : Realloc) (r : Registry)
      → IsSound r
      → (length r.metrics < r.capacity) ⊎ Stays realloc
      → Registers p r (register realloc p r)
  register-Registers realloc r sound unmoved = either r.initialized refl (find p.key r.metrics) refl
    where
      either :
          (b : Bool)
          → r.initialized ≡ b
          → (o : Option ℕ) → find p.key r.metrics ≡ o
          → Registers p r (
              if b
              then unless_found o (registered (ensure_capacity realloc r) p r) r
              else (none, r))
      either false e o eo = refl
      either true e (some id) eo = refl
      either true e none eo = grown (ltb (length r.metrics) r.capacity) refl realloc unmoved
        where
          grown :
              (t : Bool)
              → ltb (length r.metrics) r.capacity ≡ t
              → (a : Realloc) → (length r.metrics < r.capacity) ⊎ Stays a
              → Registers p r (registered (if t then some r else expanded a r) p r)
          grown true h a u = appended-Registers r r.capacity sound e eo (ltb→lt _ _ h)
          grown false h a (inl room) = absurd (ground arith)
          grown false h in_place (inr stays) =
              appended-Registers r (r.capacity * 2) sound e eo (room sound h)
            where
              room :
                  IsSound r
                  → ltb (length r.metrics) r.capacity ≡ false
                  → length r.metrics < r.capacity * 2
              room (numbered, fits, above) h = omega arith
          grown false h refused (inr stays) = refl
          grown false h (moved left) (inr stays) = absurd stays

-- Where realloc moves the entries and the block that it releases is cleared, a key that was
-- registered is found no more.
pub register-moved :
    (p : Plugin) (old : Info)
    → old.key ≡ 97 ∷ []
    → p.key ≡ 98 ∷ []
    → let r : Registry = record { metrics = old ∷ []; capacity = 1; initialized = true } in
      (get_by_key (97 ∷ []) r ≡ some old.id)
      × (get_by_key (97 ∷ []) (register (moved (λ i. [])) p r).1 ≡ none)
unfolding bytes_eq
register-moved p old a b = rw (a, b) (refl, refl)
