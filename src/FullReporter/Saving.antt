-- ===== src/FullReporter/Saving.antt =====
-- The metadata of src/spx_reporter_full.c, and the file that `metadata_save` makes of them. A text that
-- does not fit in the buffer for its escapes ends the process, which is none.
use php_spx.Prelude.{ℕ, Bool, true, false, List, [], ◌∷◌, ◌++◌, Option, none, some, if◌then◌else◌}
use php_spx.Prelude.Bytes.{Bytes, codes, decimal}
use php_spx.Metric.{Metric, metrics}
use php_spx.FuncTable.{Run, ◌>>=◌}
use php_spx.JsonEscape.{json_escape}
use php_spx.BuiltinMetrics.{key}

-- `metadata_t`
pub record Metadata : Type 0 where
  pub key : Bytes
  pub exec_ts : ℕ
  pub hostname : Bytes
  pub process_pid : ℕ
  pub process_tid : ℕ
  pub process_pwd : Bytes
  pub cli : Bool
  pub cli_command_line : Bytes
  pub http_request_uri : Bytes
  pub http_method : Bytes
  pub http_host : Bytes
  pub custom_metadata_str : Option Bytes
  pub wall_time_ms : ℕ
  pub peak_memory_usage : ℕ
  pub called_function_count : ℕ
  pub call_count : ℕ
  pub recorded_call_count : ℕ
  pub enabled_metrics : Metric → Bool

-- The buffer for the escapes, `buf`.
abbrev pub escape_size : ℕ
escape_size = 8192

abbrev pub name_text : Bytes → Bytes
name_text name = codes "  \"" ++ (name ++ codes "\": ")

-- A number of the file.
abbrev pub number_line : Bytes → ℕ → Bytes
number_line name n = name_text name ++ (decimal n ++ codes ",\n")

-- A text of the file, escaped.
abbrev pub text_line : Bytes → Bytes → Run Bytes
text_line name value = json_escape value escape_size >>= λ e.
    some (name_text name ++ (codes "\"" ++ (e ++ codes "\",\n")))

abbrev pub custom_line : Option Bytes → Run Bytes
custom_line none = some (name_text (codes "custom_metadata_str") ++ codes "null,\n")
custom_line (some str) = text_line (codes "custom_metadata_str") str

-- The keys of the enabled metrics, with a comma before each but the first.
abbrev pub comma : Bool → Bytes
comma true = []
comma false = codes ","

abbrev pub metric_lines : (Metric → Bool) → Bool → List Metric → Bytes
metric_lines enabled first [] = []
metric_lines enabled first (i ∷ is) =
    let rest = metric_lines enabled false is in
    let skip = metric_lines enabled first is in
    if enabled i
    then codes "    " ++ (comma first ++ (codes "\"" ++ (key i ++ (codes "\"\n" ++ rest))))
    else skip

abbrev pub bit : Bool → ℕ
bit true = 1
bit false = 0

-- The lines one after the other, of which each may end the process.
unfoldable pub all_of : List (Run Bytes) → Run Bytes
all_of [] = some []
all_of (l ∷ ls) = l >>= λ line. all_of ls >>= λ rest. some (line ++ rest)

-- The lines that `metadata_save` writes where the file opens.
unfoldable pub file_lines : Metadata → List (Run Bytes)
file_lines m =
    some (codes "{\n")
    ∷ text_line (codes "key") m.key
    ∷ some (number_line (codes "exec_ts") m.exec_ts)
    ∷ text_line (codes "host_name") m.hostname
    ∷ some (number_line (codes "process_pid") m.process_pid)
    ∷ some (number_line (codes "process_tid") m.process_tid)
    ∷ text_line (codes "process_pwd") m.process_pwd
    ∷ some (number_line (codes "cli") (bit m.cli))
    ∷ text_line (codes "cli_command_line") m.cli_command_line
    ∷ text_line (codes "http_request_uri") m.http_request_uri
    ∷ text_line (codes "http_method") m.http_method
    ∷ text_line (codes "http_host") m.http_host
    ∷ custom_line m.custom_metadata_str
    ∷ some (number_line (codes "wall_time_ms") m.wall_time_ms)
    ∷ some (number_line (codes "peak_memory_usage") m.peak_memory_usage)
    ∷ some (number_line (codes "called_function_count") m.called_function_count)
    ∷ some (number_line (codes "call_count") m.call_count)
    ∷ some (number_line (codes "recorded_call_count") m.recorded_call_count)
    ∷ some (
        codes "  \"enabled_metrics\": [\n"
        ++ (metric_lines m.enabled_metrics true metrics ++ codes "  ]\n}\n"))
    ∷ []

unfoldable pub save_text : Metadata → Run Bytes
unfolding all_of file_lines json_escape key
save_text m = all_of (file_lines m)

-- `metadata_save`: the text of the file, none within where it does not open.
unfoldable pub save : Bool → Metadata → Run (Option Bytes)
unfolding save_text
save opened m = if opened then (save_text m >>= λ text. some (some text)) else some none

-- `spx_reporter_full_set_custom_metadata_str`, as the extension calls it with a text of 4096 bytes at
-- most; `granted` is for the copy.
unfoldable pub set_custom_metadata_str : Bool → Bytes → Metadata → Metadata
set_custom_metadata_str granted str m = record m {
  custom_metadata_str = if granted then some str else none;
}
