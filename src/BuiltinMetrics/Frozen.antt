-- ===== src/BuiltinMetrics/Frozen.antt =====
-- The memoized values of src/spx_metric_builtin.c are never forgotten.
use php_spx.Prelude.{
  ℕ, ◌+◌, ◌-◌, ◌%◌, ◌≡◌, ◌≢◌, refl, ap, ◌∙◌, Bool, true, false, List, [], ◌∷◌, Option, none, some,
  arith, if◌then◌else◌,
}
use php_spx.FuncTable.{Run, ◌>>=◌}
use php_spx.Metric.{Metric, wall_time, cpu_time, io_rbytes, io_wbytes, index, metrics}
use php_spx.MetricRegistry
use php_spx.MetricRegistry.{Info, Realloc, Registry}
use php_spx.BuiltinMetrics.{
  Builtin, World, Reading, get_info, filled, size_max, idle_time_handler, io_bytes_handler,
  io_r_bytes_handler, io_w_bytes_handler, init, shutdown, register_all, register_each, note_id,
}

-- The handlers over memoized values.
pub data Handler : Type 0 where
  idle_time io_bytes io_r_bytes io_w_bytes : Handler

abbrev pub answer : Handler → World → Builtin → Reading
answer idle_time w b = idle_time_handler w b
answer io_bytes w b = io_bytes_handler w b
answer io_r_bytes w b = io_r_bytes_handler w b
answer io_w_bytes w b = io_w_bytes_handler w b

-- What may happen between two readings.
pub data Happening : Type 0 where
  reads : Handler → World → Happening
  initializes : Bool → Realloc → Happening
  shuts_down : Happening

abbrev pub happen : Happening → Builtin → Run Builtin
happen (reads k w) b = some (answer k w b).1
happen (initializes granted realloc) b = init granted realloc b
happen shuts_down b = some (shutdown b)

unfoldable pub run : List Happening → Builtin → Run Builtin
run [] b = some b
run (h ∷ hs) b = happen h b >>= run hs

-- Both values that a handler reads are memoized.
abbrev Held : Metric → Metric → ℕ → ℕ → Builtin → Type 0
Held i j x y b = (b.memo i ≡ some x) × (b.memo j ≡ some y)

abbrev HeldIfAny : Metric → Metric → ℕ → ℕ → Run Builtin → Type 0
HeldIfAny i j x y none = Unit {0}
HeldIfAny i j x y (some b) = Held i j x y b

reads-times :
    (k : Handler) (w : World) (x y : ℕ) (b : Builtin)
    → Held wall_time cpu_time x y b
    → Held wall_time cpu_time x y (answer k w b).1
unfolding idle_time_handler io_bytes_handler io_r_bytes_handler io_w_bytes_handler get_info index
reads-times idle_time w x y b h = (ground arith, ground arith)
reads-times io_bytes w x y b h = (ground arith, ground arith)
reads-times io_r_bytes w x y b h = (ground arith, ground arith)
reads-times io_w_bytes w x y b h = (ground arith, ground arith)

reads-bytes :
    (k : Handler) (w : World) (x y : ℕ) (b : Builtin)
    → Held io_rbytes io_wbytes x y b
    → Held io_rbytes io_wbytes x y (answer k w b).1
unfolding idle_time_handler io_bytes_handler io_r_bytes_handler io_w_bytes_handler get_info index
reads-bytes idle_time w x y b h = (ground arith, ground arith)
reads-bytes io_bytes w x y b h = (ground arith, ground arith)
reads-bytes io_r_bytes w x y b h = (ground arith, ground arith)
reads-bytes io_w_bytes w x y b h = (ground arith, ground arith)

-- The initialisation and the shutdown leave the memoized values alone.
abbrev SameMemo : Builtin → Run Builtin → Type 0
SameMemo b none = Unit {0}
SameMemo b (some q) = q.memo ≡ b.memo

then_same :
    (b : Builtin) (r : Run Builtin) (f : Builtin → Run Builtin)
    → SameMemo b r
    → ((q : Builtin) → SameMemo q (f q))
    → SameMemo b (r >>= f)
then_same b none f h g = _
then_same b (some q) f h g = either (f q) (g q)
  where
    either : (r : Run Builtin) → SameMemo q r → SameMemo b r
    either none k = _
    either (some r) k = k ∙ h

note_id-SameMemo :
    (realloc : Realloc) (i : Metric) (a : Option ℕ × Registry) (b : Builtin)
    → SameMemo b (note_id realloc i a b)
note_id-SameMemo realloc i (none, r) b = _
note_id-SameMemo realloc i (some id, r) b = refl

register_each-SameMemo :
    (realloc : Realloc) (is : List Metric) (b : Builtin) → SameMemo b (register_each realloc is b)
register_each-SameMemo realloc [] b = refl
register_each-SameMemo realloc (i ∷ is) b =
    then_same b _ _ (note_id-SameMemo realloc i _ b) (register_each-SameMemo realloc is)

register_all-SameMemo : (realloc : Realloc) (b : Builtin) → SameMemo b (register_all realloc b)
unfolding register_all
register_all-SameMemo realloc b = either b.registered
  where
    either :
        (old : Bool)
        → SameMemo b (
            if old
            then some b
            else (register_each realloc metrics (record b { ids = λ i. none }) >>= λ b'.
                some (record b' { registered = true })))
    either true = refl
    either false =
        then_same b _ _ (register_each-SameMemo realloc metrics (record b { ids = λ i. none }))
          (λ q. refl)

init-SameMemo :
    (granted : Bool) (realloc : Realloc) (b : Builtin) → SameMemo b (init granted realloc b)
unfolding init
init-SameMemo granted realloc b = either b.initialized
  where
    either :
        (old : Bool)
        → SameMemo b (
            if old
            then some b
            else (register_all realloc
                  (record b { registry = MetricRegistry.init granted b.registry })
                >>= λ b'. some (record b' {
                  infos = λ i. filled (get_info i b') (b'.infos i);
                  initialized = true;
                })))
    either true = refl
    either false =
        then_same b _ _
          (register_all-SameMemo realloc
            (record b { registry = MetricRegistry.init granted b.registry }))
          (λ q. refl)

shutdown-memo : (b : Builtin) → (shutdown b).memo ≡ b.memo
unfolding shutdown
shutdown-memo b = either b.initialized
  where
    either :
        (on : Bool)
        → (if on
            then record b { registry = MetricRegistry.shutdown b.registry; initialized = false }
            else b).memo
          ≡ b.memo
    either true = refl
    either false = refl

module _ (i j : Metric) (x y : ℕ)
    (kept : (k : Handler) (w : World) (b : Builtin)
      → Held i j x y b
      → Held i j x y (answer k w b).1) where
  same-Held : (b : Builtin) (r : Run Builtin) → SameMemo b r → Held i j x y b → HeldIfAny i j x y r
  same-Held b none e h = _
  same-Held b (some q) e h = (ap (λ m. m i) e ∙ h.0, ap (λ m. m j) e ∙ h.1)

  happen-Held : (e : Happening) (b : Builtin) → Held i j x y b → HeldIfAny i j x y (happen e b)
  happen-Held (reads k w) b h = kept k w b h
  happen-Held (initializes granted realloc) b h = same-Held b _ (init-SameMemo granted realloc b) h
  happen-Held shuts_down b h =
      (ap (λ m. m i) (shutdown-memo b) ∙ h.0, ap (λ m. m j) (shutdown-memo b) ∙ h.1)

  run-Held :
      (history : List Happening) (b : Builtin) → Held i j x y b → HeldIfAny i j x y (run history b)
  unfolding run
  run-Held [] b h = h
  run-Held (e ∷ rest) b h = either (happen e b) (happen-Held e b h) (run-Held rest)
    where
      either :
          (r : Run Builtin)
          → HeldIfAny i j x y r
          → ((q : Builtin) → Held i j x y q → HeldIfAny i j x y (run rest q))
          → HeldIfAny i j x y (r >>= run rest)
      either none k again = _
      either (some q) k again = again q k

-- What a handler answers first.
abbrev pub measured : Info → Info → Handler → World → ℕ
measured wall cpu idle_time w = (w.reads wall.handler + size_max - w.reads cpu.handler) % size_max
measured wall cpu io_bytes w = (w.r_bytes + w.w_bytes) % size_max
measured wall cpu io_r_bytes w = w.r_bytes
measured wall cpu io_w_bytes w = w.w_bytes

-- A process that goes on answers a value, whatever the world is.
abbrev pub Answers : Handler → ℕ → Run Builtin → Type 0
Answers k v none = Unit {0}
Answers k v (some q) = (later : World) → (answer k later q).0 ≡ v

held-idle :
    (x y : ℕ) (r : Run Builtin)
    → HeldIfAny wall_time cpu_time x y r
    → Answers idle_time ((x + size_max - y) % size_max) r
unfolding idle_time_handler get_info index
held-idle x y none h = _
held-idle x y (some q) h = λ later. ground arith

held-io :
    (x y : ℕ) (r : Run Builtin)
    → HeldIfAny io_rbytes io_wbytes x y r
    → Answers io_bytes ((x + y) % size_max) r × Answers io_r_bytes x r × Answers io_w_bytes y r
unfolding io_bytes_handler io_r_bytes_handler io_w_bytes_handler get_info index
held-io x y none h = (_, _, _)
held-io x y (some q) h = (λ later. ground arith, λ later. ground arith, λ later. ground arith)

module _ (wall cpu : Info) (b : Builtin)
    (times : (get_info wall_time b ≡ some wall) × (get_info cpu_time b ≡ some cpu))
    (empty : (i : Metric) → b.memo i ≡ none) where
  first-idle :
      (w : World)
      → ((answer idle_time w b).0 ≡ measured wall cpu idle_time w)
        × Held wall_time cpu_time
            (w.reads wall.handler)
            (w.reads cpu.handler)
            (answer idle_time w b).1
  unfolding idle_time_handler get_info index
  first-idle w =
      let (a, c) = times in
      let m = empty wall_time in
      let n = empty cpu_time in (ground arith, (ground arith, ground arith))

  first-io :
      (w : World) (k : Handler)
      → k ≢ idle_time
      → ((answer k w b).0 ≡ measured wall cpu k w)
        × Held io_rbytes io_wbytes w.r_bytes w.w_bytes (answer k w b).1
  unfolding io_bytes_handler io_r_bytes_handler io_w_bytes_handler get_info index
  first-io w idle_time other = absurd (other refl)
  first-io w io_bytes other =
      let m = empty io_rbytes in (ground arith, (ground arith, ground arith))
  first-io w io_r_bytes other =
      let m = empty io_rbytes in (ground arith, (ground arith, ground arith))
  first-io w io_w_bytes other =
      let m = empty io_rbytes in (ground arith, (ground arith, ground arith))

  -- While nothing is memoized and the wall time and the CPU time are registered, a handler of the
  -- idle time or of the bytes answers what the world tells; ever after, through every history of
  -- readings of any of them in any world, of initialisations and of shutdowns, unless the process
  -- ends, it answers the same.
  pub handlers-frozen :
      (k : Handler) (w : World) (history : List Happening)
      → ((answer k w b).0 ≡ measured wall cpu k w)
        × Answers k (measured wall cpu k w) (run history (answer k w b).1)
  handlers-frozen idle_time w history =
      let (e, h) = first-idle w in
      (
        e,
        held-idle _ _ _ (run-Held wall_time cpu_time _ _ (λ k v. reads-times k v _ _) history _ h),
      )
  handlers-frozen io_bytes w history =
      let (e, h) = first-io w io_bytes (λ q. cc) in
      (
        e,
        (held-io _ _ _
            (run-Held io_rbytes io_wbytes _ _ (λ k v. reads-bytes k v _ _) history _ h)).0,
      )
  handlers-frozen io_r_bytes w history =
      let (e, h) = first-io w io_r_bytes (λ q. cc) in
      (
        e,
        (held-io _ _ _
            (run-Held io_rbytes io_wbytes _ _ (λ k v. reads-bytes k v _ _) history _ h)).1,
      )
  handlers-frozen io_w_bytes w history =
      let (e, h) = first-io w io_w_bytes (λ q. cc) in
      (
        e,
        (held-io _ _ _
            (run-Held io_rbytes io_wbytes _ _ (λ k v. reads-bytes k v _ _) history _ h)).2,
      )
