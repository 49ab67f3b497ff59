-- ===== src/ReporterFactory.antt =====
-- The reporter factory of src/spx_reporter_factory.c. A configuration is the tagged union as a data
-- type, with the constructors' arguments; what the factory makes is the call of a constructor, or the
-- error that is set. A NULL string is none, and the descriptions of the reporters are left out.
pub mod Registry
use php_spx.Prelude.{
  ℕ, suc, ◌+◌, Bool, true, false, ◌||◌, Option, none, some, List, [], ◌∷◌, ◌++◌, if◌then◌else◌, ltb,
  leb, ◌==◌, length, get_elem?,
}
use php_spx.Prelude.Bytes.{Bytes, bytes_eq}

-- The values of `spx_reporter_type_t`: SPX_REPORTER_FULL and those after it.
abbrev pub full_type : ℕ
full_type = 0

abbrev pub flat_profile_type : ℕ
flat_profile_type = 1

abbrev pub trace_type : ℕ
trace_type = 2

abbrev pub null_type : ℕ
null_type = 3

abbrev pub type_count : ℕ
type_count = 4

-- `spx_reporter_info_t`
pub record Info : Type 0 where
  pub type : ℕ
  pub name : Bytes
  pub requires_file : Bool
  pub requires_terminal : Bool
  pub supports_live : Bool

-- `reporter_info_table`
unfoldable pub info_table : List Info
info_table =
    record {
      type = full_type;
      name = b'f' ∷ b'u' ∷ b'l' ∷ b'l' ∷ [];
      requires_file = true;
      requires_terminal = false;
      supports_live = false;
    }
    ∷ record {
      type = flat_profile_type;
      name = b'f' ∷ b'p' ∷ [];
      requires_file = false;
      requires_terminal = true;
      supports_live = true;
    }
    ∷ record {
      type = trace_type;
      name = b't' ∷ b'r' ∷ b'a' ∷ b'c' ∷ b'e' ∷ [];
      requires_file = false;
      requires_terminal = false;
      supports_live = false;
    }
    ∷ record {
      type = null_type;
      name = b'n' ∷ b'u' ∷ b'l' ∷ b'l' ∷ [];
      requires_file = false;
      requires_terminal = false;
      supports_live = false;
    }
    ∷ []

-- `spx_reporter_get_info`
unfoldable pub get_info : ℕ → Option Info
unfolding info_table
get_info type = get_elem? info_table type

-- "flat_profile" and "flat-profile", which differ in one byte
abbrev pub alias : ℕ → Bytes
alias c = b'f' ∷ b'l' ∷ b'a' ∷ b't' ∷ c ∷ b'p' ∷ b'r' ∷ b'o' ∷ b'f' ∷ b'i' ∷ b'l' ∷ b'e' ∷ []

abbrev pub named : Bytes → List Info → Option ℕ
named name [] = none
named name (i ∷ is) = let rest = named name is in if bytes_eq name i.name then some i.type else rest

abbrev pub or_alias : Bytes → Option ℕ → ℕ
or_alias name (some type) = type
or_alias name none =
    if bytes_eq name (alias b'_') || bytes_eq name (alias b'-')
    then flat_profile_type
    else type_count

-- `spx_reporter_type_from_string`
unfoldable pub type_from_string : Option Bytes → ℕ
unfolding info_table bytes_eq
type_from_string none = type_count
type_from_string (some name) = or_alias name (named name info_table)

-- `spx_reporter_type_to_string`, none for "unknown"
abbrev pub name_of : Option Info → Option Bytes
name_of none = none
name_of (some info) = some info.name

unfoldable pub type_to_string : ℕ → Option Bytes
unfolding get_info
type_to_string type = name_of (get_info type)

-- `spx_reporter_fp_config_t`
pub record FlatProfile : Type 0 where
  pub focus : ℕ
  pub show_inclusive : Bool
  pub show_relative : Bool
  pub limit : ℕ
  pub live_mode : Bool
  pub use_color : Bool

-- `spx_reporter_config_t`, by its type
pub data Config : Type 0 where
  full : Option Bytes → Config
  flat_profile : FlatProfile → Config
  trace : Option Bytes → Bool → Config
  null : Config
  unknown : ℕ → Config

-- The error codes that are set.
pub data FactoryError : Type 0 where
  invalid_input invalid_config capacity_exceeded out_of_memory : FactoryError

abbrev pub metric_count : ℕ
metric_count = 22

-- `spx_reporter_config_validate`, none where it answers 0
unfoldable pub validate : Option Config → Option FactoryError
validate none = some invalid_input
validate (some (full none)) = some invalid_config
validate (some (full (some []))) = some invalid_config
validate (some (full (some (c ∷ data_dir)))) = none
validate (some (flat_profile fp)) =
    if leb metric_count fp.focus
    then some invalid_config
    else (if fp.limit == 0 then some invalid_config else none)
validate (some (trace file_name safe_mode)) = none
validate (some null) = none
validate (some (unknown n)) = some invalid_config

-- What `spx_reporter_create` does: the call of a constructor, or an error.
pub data Made : Type 0 where
  full_create : Option Bytes → Made
  fp_create : FlatProfile → Made
  trace_create : Option Bytes → Bool → Made
  null_create : Made
  refused : FactoryError → Made

abbrev pub made : Bool → Config → Made
made granted (full data_dir) = full_create data_dir
made granted (flat_profile fp) = fp_create fp
made granted (trace file_name safe_mode) = trace_create file_name safe_mode
made granted null = if granted then null_create else refused out_of_memory
made granted (unknown n) = refused invalid_config

abbrev pub if_valid : Option FactoryError → Made → Made
if_valid (some e) m = refused e
if_valid none m = m

-- `spx_reporter_create`; `granted` is for the allocation of the null reporter.
unfoldable pub create : Bool → Option Config → Made
unfolding validate
create granted none = refused invalid_input
create granted (some config) = if_valid (validate (some config)) (made granted config)

-- The table of `custom_reporters`: the type of the information, `info.type`, and the number of a
-- factory for each.
abbrev pub max_custom_reporters : ℕ
max_custom_reporters = 16

pub record Custom : Type 0 where
  pub info_type : ℕ
  pub factory : ℕ

abbrev pub taken : ℕ → List Custom → Bool
taken type [] = false
taken type (c ∷ cs) = c.info_type == type || taken type cs

pub record Registering : Type 0 where
  pub error : Option FactoryError
  pub customs : List Custom

-- `spx_reporter_register` with the type that it is called with and that of the information; the row is
-- none where the information or the factory is NULL. The tests read the former, the table keeps the
-- latter.
unfoldable pub register : ℕ → Option Custom → List Custom → Registering
register type row customs =
    if ltb type type_count
    then record { error = some invalid_input; customs = customs }
    else with_row row
  where
    with_row : Option Custom → Registering
    with_row none = record { error = some invalid_input; customs = customs }
    with_row (some row) =
        if leb max_custom_reporters (length customs)
        then record { error = some capacity_exceeded; customs = customs }
        else if taken type customs
        then record { error = some invalid_input; customs = customs }
        else record { error = none; customs = customs ++ (row ∷ []) }
