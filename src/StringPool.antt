-- ===== src/StringPool.antt =====
-- The string pool of src/spx_string_pool.c. A block's data is the list of the bytes written into
-- it, whose length is the block's `used`; the list grows past the block's capacity where the code
-- writes past the array, over the fields after it, and then it says no more of the block than that. Blocks
-- are listed newest first: the head is `pool->current`.
pub mod Laws
use php_spx.Prelude.{
  take, ℕ, ◌+◌, Bool, true, false, List, [], ◌∷◌, ◌++◌, Option, none, some, if◌then◌else◌, length,
  ltb, ◌==◌, drop,
}
use php_spx.Prelude.Bytes.{Bytes}

-- POOL_BLOCK_SIZE
abbrev pub block_size : ℕ
block_size = 8192

pub record Pool : Type 0 where
  pub current : Bytes
  pub older : List Bytes
  pub total_allocated : ℕ
  pub total_interned : ℕ

-- A pointer into the pool: the number of the block, the oldest being 0, and the offset.
pub record Pointer : Type 0 where
  pub block : ℕ
  pub offset : ℕ

-- `spx_string_pool_create`, given whether its two allocations succeed
unfoldable pub create : Bool → Bool → Option Pool
create true true =
    some (record { current = []; older = []; total_allocated = block_size; total_interned = 0 })
create _ _ = none

-- A block that follows the full one.
abbrev pub next_block : Pool → Pool
next_block p = record p {
  current = [];
  older = p.current ∷ p.older;
  total_allocated = p.total_allocated + block_size;
}

-- The copy of the string and its terminator to the end of the current block.
abbrev pub store : Pool → Bytes → Pointer × Pool
store p s = (
  record { block = length p.older; offset = length p.current },
  record p { current = p.current ++ (s ++ 0 ∷ []); total_interned = p.total_interned + 1 },
)

-- `spx_string_pool_intern` of a string, or of NULL; `granted` says whether the allocation of a
-- further block succeeds
unfoldable pub intern : Bool → Pool → Option Bytes → Option Pointer × Pool
intern granted p none = (none, p)
intern granted p (some s) =
    if ltb block_size (length p.current + (length s + 1))
    then (if granted then (let (q, r) = store (next_block p) s in (some q, r)) else (none, p))
    else (let (q, r) = store p s in (some q, r))

-- `spx_string_pool_stats`
unfoldable pub stats : Pool → ℕ × ℕ
stats p = (p.total_allocated, p.total_interned)

-- The bytes up to the terminator.
abbrev pub c_string : Bytes → Bytes
c_string [] = []
c_string (c ∷ s) = if c == 0 then [] else c ∷ c_string s

-- The data of a block, by its number.
abbrev pub block_data : List Bytes → ℕ → Bytes
block_data [] n = []
block_data (b ∷ bs) n = if length bs == n then b else block_data bs n

-- The bytes of a block that lie in its array. What an overrun wrote lies over the fields after it, and
-- is not read.
abbrev pub in_array : Bytes → Bytes
in_array b = take block_size b

-- The string that a pointer points to.
unfoldable pub deref : Pool → Pointer → Bytes
deref p q = c_string (drop q.offset (in_array (block_data (p.current ∷ p.older) q.block)))
