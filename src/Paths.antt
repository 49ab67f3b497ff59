-- ===== src/Paths.antt =====
-- The confinement of paths: spx_validate_path of
-- src/infrastructure/security/spx_security_validation.c, as on Linux, and
-- spx_utils_resolve_confined_file_absolute_path of src/spx_utils.c. The file system is an argument, a
-- NULL path is none, and the answer is the path that the buffer holds.
pub mod Confined
use php_spx.Prelude.{
  ℕ, zero, suc, ◌+◌, ◌-◌, Bool, true, false, not, ◌&&◌, Option, none, some, List, [], ◌∷◌, ◌++◌,
  if◌then◌else◌, ltb, leb, ◌==◌, length, take, get_elem?,
}
use php_spx.Prelude.Bytes.{Bytes, bytes_eq}
use php_spx.Network.{slash, starts_with}

abbrev pub path_max : ℕ
path_max = 4096

-- `spx_path_flags_t`
pub record Flags : Type 0 where
  pub allow_symlinks : Bool
  pub must_exist : Bool
  pub must_be_dir : Bool
  pub must_be_file : Bool

pub data Kind : Type 0 where
  directory regular other : Kind

-- What open answers with O_NOFOLLOW: a symbolic link, another failure, or a descriptor with what
-- readlink answers for it.
pub data Opened : Type 0 where
  symlink missing : Opened
  opened : Option Bytes → Opened

-- The calls of the system.
pub record FileSystem : Type 0 where
  pub stat : Bytes → Option Kind
  pub open_path : Bool → Bytes → Opened
  pub realpath : Bytes → Option Bytes

-- `spx_validate_result_t` with the resolved path
pub data PathResult : Type 0 where
  resolved : Bytes → PathResult
  null_input invalid_format too_long : PathResult

abbrev pub is_directory : Option Kind → Bool
is_directory (some directory) = true
is_directory _ = false

abbrev pub is_regular : Option Kind → Bool
is_regular (some regular) = true
is_regular _ = false

abbrev pub exists : Option Kind → Bool
exists none = false
exists (some k) = true

-- The byte after the base is a separator or the end.
abbrev pub at_boundary : Option ℕ → Bool
at_boundary none = true
at_boundary (some c) = c == slash

module _ (fs : FileSystem) where
  module _ (flags : Flags) (size : ℕ) where
    abbrev pub copied : Bytes → PathResult
    copied path = resolved (take (size - 1) path)

    abbrev pub kind_allowed : Option Kind → Bool
    kind_allowed k =
        exists k
        && not (flags.must_be_dir && not (is_directory k))
        && not (flags.must_be_file && not (is_regular k))

    abbrev pub checked_kind : Bytes → PathResult
    checked_kind real =
        if flags.must_exist
        then (if kind_allowed (fs.stat real) then copied real else invalid_format)
        else copied real

    abbrev pub under_base : Bytes → Option Bytes → PathResult
    under_base real none = invalid_format
    under_base real (some base_real) =
        if bytes_eq (take (length base_real) real) base_real
        then (if at_boundary (get_elem? real (length base_real))
            then checked_kind real
            else invalid_format)
        else invalid_format

    abbrev pub unless_missing : Bytes → PathResult
    unless_missing full_path = if flags.must_exist then invalid_format else copied full_path

    abbrev pub of_opened : Bytes → Bytes → Opened → PathResult
    of_opened base full_path symlink = invalid_format
    of_opened base full_path missing = unless_missing full_path
    of_opened base full_path (opened none) = invalid_format
    of_opened base full_path (opened (some real)) = under_base real (fs.realpath base)

    abbrev pub of_real : Bytes → Bytes → Option Bytes → PathResult
    of_real base full_path none = unless_missing full_path
    of_real base full_path (some real) = under_base real (fs.realpath base)

    abbrev pub resolve : Bytes → Bytes → PathResult
    resolve base full_path =
        if flags.allow_symlinks
        then of_real base full_path (fs.realpath full_path)
        else of_opened base full_path (fs.open_path flags.must_be_dir full_path)

    -- `spx_validate_path`
    abbrev pub validate_path : Option Bytes → Option Bytes → PathResult
    validate_path none base = null_input
    validate_path (some path) none = null_input
    validate_path (some path) (some base) =
        let full_path = base ++ (slash ∷ path) in
        if ltb size path_max
        then invalid_format
        else (if is_directory (fs.stat base)
            then (if leb path_max (length full_path) then too_long else resolve base full_path)
            else invalid_format)

-- What the resolution of a confined path answers: the end of the process, NULL, or the path.
pub data Resolution : Type 0 where
  died not_resolved : Resolution
  confined : Bytes → Resolution

abbrev pub text_of : Option Bytes → Bytes
text_of none = []
text_of (some s) = s

-- `snprintf` with "%s" and so on into a buffer of `size` bytes
abbrev pub printed : ℕ → Bytes → Bytes
printed size text = take (size - 1) text

module _ (realpath : Bytes → Option Bytes) where
  abbrev pub confine : Bytes → Option Bytes → Resolution
  confine dst none = not_resolved
  confine dst (some root_real) =
      if starts_with dst (printed (path_max + 1) (root_real ++ (slash ∷ [])))
      then confined dst
      else not_resolved

  abbrev pub confine_real : Bytes → Option Bytes → Resolution
  confine_real root none = not_resolved
  confine_real root (some dst) = confine dst (realpath root)

  -- `spx_utils_resolve_confined_file_absolute_path`
  abbrev pub resolve_confined : Bytes → Bytes → Option Bytes → ℕ → Resolution
  resolve_confined root relative suffix size =
      if ltb size path_max
      then died
      else confine_real root (realpath (printed path_max (root ++ (relative ++ text_of suffix))))
