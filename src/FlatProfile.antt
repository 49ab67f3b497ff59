-- ===== src/FlatProfile.antt =====
-- The flat profile reporter of src/spx_reporter_fp.c: the order of the entries, the choice of those
-- that are shown and when a report is printed. The sort, which is qsort, and the text of the report
-- are left out; an index fits in an `int`.
pub mod Selection
use php_spx.Prelude.{
  ℕ, ◌-◌, ◌/◌, Bool, true, false, not, ◌||◌, List, [], ◌∷◌, Option, none, some, if◌then◌else◌, ltb,
  leb, ◌==◌, take, drop, length, min,
}
use php_spx.Prelude.Int.{ℤ, pos, negsuc, sub_ℕ, ltb_ℤ}
use php_spx.Metric.{Metric}
use php_spx.FuncTable.{Entry}
use php_spx.Tracer.State.{EventKind, call_start, call_end, finalize, Cost, light, heavy}

-- The settings of `fp_reporter_t` that the order depends on.
pub record Order : Type 0 where
  pub focus : Metric
  pub inc : Bool

module _ (o : Order) where
  abbrev pub high : Entry → ℤ
  high e = if o.inc then e.stats.inc o.focus else e.stats.exc o.focus

  abbrev pub low : Entry → ℤ
  low e = if o.inc then e.stats.exc o.focus else e.stats.inc o.focus

  -- `entry_cmp_r`
  abbrev pub entry_cmp : Entry → Entry → ℤ
  entry_cmp a b =
      if ltb_ℤ (high b) (high a)
      then negsuc 0
      else (if ltb_ℤ (high a) (high b)
          then pos 1
          else (if ltb_ℤ (low b) (low a)
              then negsuc 0
              else (if ltb_ℤ (low a) (low b) then pos 1 else sub_ℕ a.idx b.idx)))

  abbrev pub is_after : Entry → Entry → Bool
  is_after a b = ltb_ℤ (pos 0) (entry_cmp a b)

  -- The first of the chosen entries that comes after the current one is replaced.
  abbrev pub place : Entry → List Entry → List Entry
  place current [] = []
  place current (e ∷ es) =
      let rest = place current es in if is_after e current then current ∷ es else e ∷ rest

  abbrev pub place_all : List Entry → List Entry → List Entry
  place_all [] top = top
  place_all (e ∷ es) top = place_all es (place e top)

  -- The entries of a report, before they are sorted.
  abbrev pub top_entries : ℕ → List Entry → List Entry
  top_entries limit entries =
      let shown = if ltb (length entries) limit then length entries else limit in
      place_all (drop shown entries) (take shown entries)

-- The state that decides when to print.
pub record Reporter : Type 0 where
  pub live : Bool
  pub last_ts_ms : ℕ

abbrev pub printed : Reporter → Cost × Reporter × Bool
printed r = (heavy, r, true)

-- `fp_notify`, with whether a report is printed. The clock does not run back.
abbrev pub fp_notify : ℕ → EventKind → Reporter → Cost × Reporter × Bool
fp_notify ts_ms call_start r = (light, r, false)
fp_notify ts_ms call_end r =
    if not r.live || ltb (ts_ms - r.last_ts_ms) 70
    then (light, r, false)
    else printed (record r { last_ts_ms = ts_ms })
fp_notify ts_ms finalize r = printed r
