-- ===== src/MetricRegistry.antt =====
-- The registry of metrics of src/spx_metric_registry.c. The entries are a list in the order of their
-- ids, of `count` elements; the copies of the short names and names, and a NULL plugin or field, are
-- left out. The answers of malloc and realloc are arguments.
pub mod Keys
use php_spx.Prelude.{
  ℕ, zero, suc, ◌+◌, ◌*◌, Bool, true, false, Option, none, some, List, [], ◌∷◌, ◌++◌, if◌then◌else◌,
  ltb, length, take, get_elem?,
}
use php_spx.Prelude.Bytes.{Bytes, bytes_eq}

abbrev pub initial_capacity : ℕ
initial_capacity = 32

-- `spx_metric_info_ex_t`, with the key that its pointer reads
pub record Info : Type 0 where
  pub id : ℕ
  pub key : Bytes
  pub releasable : Bool
  pub handler : ℕ

-- `spx_metric_plugin_t`
pub record Plugin : Type 0 where
  pub key : Bytes
  pub releasable : Bool
  pub handler : ℕ

pub record Registry : Type 0 where
  pub metrics : List Info
  pub capacity : ℕ
  pub initialized : Bool

-- `spx_metric_registry_shutdown` and `spx_metric_registry_init`
abbrev pub shutdown : Registry → Registry
shutdown r = if r.initialized then record { metrics = []; capacity = 0; initialized = false } else r

abbrev pub init : Bool → Registry → Registry
init granted r =
    if granted
    then record { metrics = []; capacity = initial_capacity; initialized = true }
    else shutdown r

-- What realloc answers: NULL, the same block, or another one. The entries keep pointers to the keys in
-- the block that is then released, and what these read of each entry is whatever it holds.
pub data Realloc : Type 0 where
  refused in_place : Realloc
  moved : (ℕ → Bytes) → Realloc

abbrev pub dangling : (ℕ → Bytes) → List Info → List Info
dangling left [] = []
dangling left (e ∷ es) = record e { key = left e.id } ∷ dangling left es

-- The loop over the entries for a key.
abbrev pub find : Bytes → List Info → Option ℕ
find key [] = none
find key (e ∷ es) = let rest = find key es in if bytes_eq e.key key then some e.id else rest

-- `ensure_capacity`, none where realloc fails
abbrev pub expanded : Realloc → Registry → Option Registry
expanded refused r = none
expanded in_place r = some (record r { capacity = r.capacity * 2 })
expanded (moved left) r =
    some (record r { metrics = dangling left r.metrics; capacity = r.capacity * 2 })

abbrev pub ensure_capacity : Realloc → Registry → Option Registry
ensure_capacity realloc r = if ltb (length r.metrics) r.capacity then some r else expanded realloc r

abbrev pub entry_of : ℕ → Plugin → Info
entry_of id p = record {
  id = id;
  key = take 63 p.key;
  releasable = p.releasable;
  handler = p.handler;
}

-- An id, none for SPX_METRIC_ID_NONE, and the registry.
abbrev pub Registered : Type 0
Registered = Option ℕ × Registry

abbrev pub appended : Plugin → Registry → Registry
appended p r = record r { metrics = r.metrics ++ (entry_of (length r.metrics) p ∷ []) }

abbrev pub registered : Option Registry → Plugin → Registry → Registered
registered none p old = (none, old)
registered (some r) p old = (some (length r.metrics), appended p r)

abbrev pub unless_found : Option ℕ → Registered → Registry → Registered
unless_found (some id) more r = (none, r)
unless_found none more r = more

-- `spx_metric_registry_register`
abbrev pub register : Realloc → Plugin → Registry → Registered
register realloc p r =
    if r.initialized
    then unless_found (find p.key r.metrics) (registered (ensure_capacity realloc r) p r) r
    else (none, r)

-- `spx_metric_registry_get_by_key`
abbrev pub get_by_key : Bytes → Registry → Option ℕ
get_by_key key r = if r.initialized then find key r.metrics else none

-- `spx_metric_registry_get_info`, `spx_metric_registry_get_count` and `spx_metric_registry_is_valid`
abbrev pub get_info : ℕ → Registry → Option Info
get_info id r = if r.initialized then get_elem? r.metrics id else none

abbrev pub get_count : Registry → ℕ
get_count r = if r.initialized then length r.metrics else 0

abbrev pub is_valid : ℕ → Registry → Bool
is_valid id r = if r.initialized then ltb id (length r.metrics) else false
