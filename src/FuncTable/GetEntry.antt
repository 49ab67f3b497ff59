-- ===== src/FuncTable/GetEntry.antt =====
-- `func_table_get_entry` of src/spx_profiler_tracer.c against the table's invariant.
use php_spx.Prelude.{
  ℕ, ◌+◌, ◌<◌, ◌≡◌, ◌≢◌, refl, sym, ap, subst, ◌∙◌, Bool, true, false, Option, none, some, arith,
  ◌⊎◌, inl, inr, if◌then◌else◌, ◌==◌, update_self, update_ne, Bool-cases, ltb, ℕ_discrete, length,
}
use php_spx.Prelude.Bytes.{Bytes}
use php_spx.HashMap
use php_spx.HashMap.{HashMap, EntryRef}
use php_spx.HashMap.Laws.{Ensured}
use php_spx.HashMap.Methods.{Outcome, ensure_entry-Outcome}
use php_spx.StringPool.{Pool, Pointer, intern, block_size}
use php_spx.FuncTable.{
  Function, FuncTable, Memory, Run, same_function, hash_code, zero_stats, joined, new_entry,
  add_entry, entry_found, intern_names, get_entry, ◌>>=◌,
}
use php_spx.FuncTable.Laws.{
  IsValid, lookup, function-KeyLaws, eq_of_same_function, same_function_refl,
}

-- Every allocation succeeds.
abbrev pub plenty : Memory
plenty = record { bucket = true; name_block = true; class_block = true }

-- What `intern` returns where a further block can be had.
abbrev IsSome : Option Pointer × Pool → Type 0
IsSome (none, q) = ⊥
IsSome (some r, q) = Unit {0}

intern-IsSome : (p : Pool) (s : Bytes) → IsSome (intern true p (some s))
unfolding intern
intern-IsSome p s = elim (Bool-cases (ltb block_size (length p.current + (length s + 1)))) [
  | inl e ↦ rw e tt
  | inr e ↦ rw e tt
]

then_some :
    (r : Option Pointer × Pool) {A : Type 0} (f : Pointer → Pool → Run A)
    → IsSome r
    → (q : Pointer) × ((r.0 >>= λ x. f x r.1) ≡ f q r.1)
then_some (none, q) f h = absurd h
then_some (some r, q) f h = (r, refl)

-- With every allocation granted both names of a function are interned.
intern_names-plenty : (p : Pool) (f : Function) → (q : Pool) × (intern_names plenty p f ≡ some q)
unfolding intern_names
intern_names-plenty p f =
    let a =
      then_some (intern true p (some f.func_name))
        (λ x q.
          (intern true q (some f.class_name)).0 >>= λ y. some (intern true q (some f.class_name)).1)
        (intern-IsSome p f.func_name) in
    let b =
      then_some (intern true (intern true p (some f.func_name)).1 (some f.class_name))
        (λ x q. some q) (intern-IsSome _ f.class_name) in
    (_, a.1 ∙ b.1)

module _ (zend_hash : Bytes → ℕ) where
  -- The table that a call for `f` leaves: it is valid, the entries in use are as they were, and it
  -- has at most one more, a new one with statistics of zero.
  pub record Extends (t t' : FuncTable) : Type 0 where
    pub valid : IsValid zend_hash t'
    pub capacity : t'.capacity ≡ t.capacity
    pub kept : (j : ℕ) → j < t.size → t'.entries j ≡ t.entries j
    pub grown :
        (t'.size ≡ t.size) ⊎ ((t'.size ≡ t.size + 1) × ((t'.entries t.size).stats ≡ zero_stats))

  -- NULL stands for an unknown function in a full table, which stays as it was; an index points to
  -- the entry of `f`.
  abbrev pub Gets : FuncTable → Function → Run (Option ℕ × FuncTable × Pool) → Type 0
  Gets t f none = ⊥
  Gets t f (some (none, t', pool)) =
      (t' ≡ t) × (t.size ≡ t.capacity) × (lookup zend_hash t f ≡ none)
  Gets t f (some (some i, t', pool)) = Extends t t' × (i < t'.size) × ((t'.entries i).function ≡ f)

  module _ (t : FuncTable) (v : IsValid zend_hash t) (f : Function) where
    self-Extends : Extends t t
    self-Extends = record { valid = v; capacity = refl; kept = λ j _. refl; grown = inl refl }

    -- An entry that the map knows.
    known-Gets :
        (o : Option ℕ) (pool : Pool) → lookup zend_hash t f ≡ some o → Gets t f (some (o, t, pool))
    known-Gets none pool e = absurd (v.written f e)
    known-Gets (some i) pool e = (self-Extends, (v.known f i e).0, (v.known f i e).1)

    -- A full table.
    full-Gets :
        (o : Option (Option ℕ)) (pool : Pool)
        → lookup zend_hash t f ≡ o
        → t.size ≡ t.capacity
        → Gets t f (some (joined o, t, pool))
    full-Gets none pool e full = (refl, full, e)
    full-Gets (some o) pool e full = known-Gets o pool e

    -- A new entry.
    added-Extends :
        (hmap : HashMap Function ℕ) (e : EntryRef)
        → t.size < t.capacity
        → Ensured
            (hash_code zend_hash)
            same_function
            (function-KeyLaws zend_hash)
            t.hmap
            v.map_valid
            f
            t.size
            true
            e
            hmap
        → Extends t (add_entry t hmap e f)
    added-Extends hmap e room h = record {
      valid = record {
        map_valid = h.1;
        bounded = omega arith;
        written = λ q w. absurd (written_after q w);
        known = known_after;
        listed = listed_after;
      };
      capacity = refl;
      kept = λ j p. update_ne t.entries t.size _ j (omega arith);
      grown = inr (refl, ap (λ x. x.stats) (update_self t.entries t.size (new_entry t f)));
    }
      where
        t' : FuncTable
        t' = add_entry t hmap e f

        reads :
            (q : Function)
            → lookup zend_hash t' q
              ≡ (if same_function q f then some (some t.size) else lookup zend_hash t q)
        reads = h.2

        written_after : (q : Function) → lookup zend_hash t' q ≢ some none
        written_after q w = elim (Bool-cases (same_function q f)) [
          | inl s ↦ (let r = rw s at (reads q) in cc)
          | inr s ↦ (let r = rw s at (reads q) in v.written q (sym r ∙ w))
        ]

        known_after :
            (q : Function) (i : ℕ)
            → lookup zend_hash t' q ≡ some (some i)
            → (i < t'.size) × ((t'.entries i).function ≡ q)
        known_after q i w = elim (Bool-cases (same_function q f)) [
          | inl s ↦
              let r = rw s at (reads q) in
              let same_index : i ≡ t.size = ground arith in
              (
                omega arith,
                ap (λ j. (t'.entries j).function) same_index
                    ∙ ap (λ x. x.function) (update_self t.entries t.size (new_entry t f))
                    ∙ sym (eq_of_same_function q f s),
              )
          | inr s ↦
              let r = rw s at (reads q) in
              let old = v.known q i (sym r ∙ w) in
              let lt = old.0 in
              (
                omega arith,
                ap (λ x. x.function) (update_ne t.entries t.size _ i (omega arith)) ∙ old.1,
              )
        ]

        listed_before :
            (i : ℕ) → i < t.size → lookup zend_hash t' (t.entries i).function ≡ some (some i)
        listed_before i p = elim (Bool-cases (same_function (t.entries i).function f)) [
          | inl s ↦
              let clash =
                ap (lookup zend_hash t) (sym (eq_of_same_function _ f s)) ∙ v.listed i p in
              let fresh = h.0 in cc
          | inr s ↦ rw s at (reads (t.entries i).function) ∙ v.listed i p
        ]

        listed_after :
            (i : ℕ) → i < t'.size → lookup zend_hash t' (t'.entries i).function ≡ some (some i)
        listed_after i p = elim (ℕ_discrete t.size i) [
          | yes last ↦
              ap (λ j. lookup zend_hash t' (t'.entries j).function) (sym last)
              ∙ ap (λ x. lookup zend_hash t' x.function)
                  (update_self t.entries t.size (new_entry t f))
              ∙ rw (same_function_refl f) at (reads f)
              ∙ ap (λ j. some (some j)) last
          | no other ↦
              ap (λ x. lookup zend_hash t' x.function) (update_ne t.entries t.size _ i other)
              ∙ listed_before i (omega arith)
        ]

    found-Gets :
        (n : Bool) (e : EntryRef) (hmap : HashMap Function ℕ) (pool : Pool)
        → t.size < t.capacity
        → Ensured
            (hash_code zend_hash)
            same_function
            (function-KeyLaws zend_hash)
            t.hmap
            v.map_valid
            f
            t.size
            n
            e
            hmap
        → Gets t f (
            if n
            then (intern_names plenty pool f >>= λ pool'.
                some (some t.size, add_entry t hmap e f, pool'))
            else some (HashMap.entry_get_value hmap e, record t { hmap = hmap }, pool))
    found-Gets true e hmap pool room h = rw (intern_names-plenty pool f).1 (
      added-Extends hmap e room h,
      omega arith,
      ap (λ x. x.function) (update_self t.entries t.size (new_entry t f)),
    )
    found-Gets false e hmap pool room h =
        subst (λ m. Gets t f (some (HashMap.entry_get_value hmap e, record t { hmap = m }, pool)))
          (sym h.1) (known-Gets _ pool h.0)

    searched-Gets :
        (r : Option EntryRef × HashMap Function ℕ) (pool : Pool)
        → t.size < t.capacity
        → Outcome
            (hash_code zend_hash)
            same_function
            (function-KeyLaws zend_hash)
            t.hmap
            v.map_valid
            f
            t.size
            r
        → Gets t f (entry_found plenty t f pool r)
    searched-Gets (none, hmap) pool room h = absurd (some_ne h)
      where
        some_ne : {n : ℕ} → ◌≡◌ {A = Option ℕ} none (some n) → ⊥
        some_ne e = cc
    searched-Gets (some e, hmap) pool room h = found-Gets e.place.is_new e hmap pool room h

    -- With every allocation granted, a call on a valid table does not end the process. It returns
    -- the index of an entry of the function, in a table that is valid, keeps every entry in use, and
    -- has at most one more, with statistics of zero. NULL comes back only for an unknown function
    -- in a full table, which stays as it was.
    pub get_entry-Gets : (pool : Pool) → Gets t f (get_entry zend_hash plenty t f pool)
    unfolding get_entry
    get_entry-Gets pool = elim (Bool-cases (t.size == t.capacity)) [
      | inl full ↦ rw full (full-Gets _ pool refl (ground arith))
      | inr room ↦
          let b = v.bounded in
          rw room (
            searched-Gets _ pool (ground arith) (
              ensure_entry-Outcome (hash_code zend_hash) same_function (function-KeyLaws zend_hash)
                t.hmap v.map_valid f t.size))
    ]
