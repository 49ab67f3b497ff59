-- ===== src/FullReporter/Texts.antt =====
-- When `metadata_save` of src/spx_reporter_full.c ends the process.
use php_spx.Prelude.{
  ◌*◌, ◌≤◌, ◌<◌, ◌≡◌, ◌≢◌, refl, sym, subst, ◌↔◌, Bool, true, false, List, [], ◌∷◌, ◌++◌, Option,
  none, some, if◌then◌else◌, ltb, ltb→lt, lt→ltb, length, arith,
}
use php_spx.Prelude.Bytes.{Bytes, codes}
use php_spx.FuncTable.{Run, ◌>>=◌}
use php_spx.JsonEscape.{escaped_char}
use php_spx.JsonEscape.RoundTrip.{escaped_text, json_escape-within}
use php_spx.FullReporter.Saving.{
  Metadata, escape_size, text_line, custom_line, all_of, file_lines, save_text,
  set_custom_metadata_str, name_text,
}

-- A text that fits in the buffer with its escapes and its NUL.
abbrev pub Short : Bytes → Type 0
Short t = length (escaped_text t) < escape_size

abbrev pub ShortIfAny : Option Bytes → Type 0
ShortIfAny none = Unit {0}
ShortIfAny (some t) = Short t

-- The texts of the metadata all fit.
abbrev pub Writable : Metadata → Type 0
Writable m =
    Short m.key
    × Short m.hostname
    × Short m.process_pwd
    × Short m.cli_command_line
    × Short m.http_request_uri
    × Short m.http_method
    × Short m.http_host
    × ShortIfAny m.custom_metadata_str

abbrev Ends : Run Bytes → Type 0
Ends none = ⊥
Ends (some t) = Unit {0}

abbrev AllEnd : List (Run Bytes) → Type 0
AllEnd [] = Unit {0}
AllEnd (l ∷ ls) = Ends l × AllEnd ls

all_of-Ends : (ls : List (Run Bytes)) → Ends (all_of ls) ↔ AllEnd ls
unfolding all_of
all_of-Ends [] = (λ h. h, λ h. h)
all_of-Ends (none ∷ ls) = (λ h. absurd h, λ h. absurd h.0)
all_of-Ends (some l ∷ ls) = either (all_of ls) (all_of-Ends ls)
  where
    either :
        (o : Run Bytes)
        → Ends o ↔ AllEnd ls
        → Ends (o >>= λ rest. some (l ++ rest)) ↔ (Unit {0} × AllEnd ls)
    either none (f, g) = (λ h. absurd h, λ h. g h.1)
    either (some t) (f, g) = (λ h. (_, f h), λ h. _)

text_line-Ends : (name value : Bytes) → Ends (text_line name value) ↔ Short value
text_line-Ends name value =
    subst
      (λ (o : Run Bytes).
        Ends (o >>= λ e. some (name_text name ++ (codes "\"" ++ (e ++ codes "\",\n"))))
        ↔ Short value)
      (sym (json_escape-within value escape_size))
      (either (ltb (length (escaped_text value)) escape_size) refl)
  where
    either :
        (b : Bool)
        → ltb (length (escaped_text value)) escape_size ≡ b
        → Ends (
            (if b then some (escaped_text value) else none) >>= λ e.
            some (name_text name ++ (codes "\"" ++ (e ++ codes "\",\n"))))
          ↔ Short value
    either true h = (λ e. ltb→lt _ _ h, λ e. _)
    either false h = (
      λ e. absurd e,
      λ e. absurd (ground (arith, lt→ltb (length (escaped_text value)) escape_size)),
    )

custom_line-Ends : (str : Option Bytes) → Ends (custom_line str) ↔ ShortIfAny str
custom_line-Ends none = (λ h. h, λ h. h)
custom_line-Ends (some str) = text_line-Ends (codes "custom_metadata_str") str

file_lines-AllEnd : (m : Metadata) → AllEnd (file_lines m) ↔ Writable m
unfolding file_lines
file_lines-AllEnd m = (
  λ (_, (key, (_, (host, (_, (_, (pwd, (_, (line, (uri, (method, (http, (custom, rest))))))))))))).
      (
        (text_line-Ends (codes "key") m.key).0 key,
        (text_line-Ends (codes "host_name") m.hostname).0 host,
        (text_line-Ends (codes "process_pwd") m.process_pwd).0 pwd,
        (text_line-Ends (codes "cli_command_line") m.cli_command_line).0 line,
        (text_line-Ends (codes "http_request_uri") m.http_request_uri).0 uri,
        (text_line-Ends (codes "http_method") m.http_method).0 method,
        (text_line-Ends (codes "http_host") m.http_host).0 http,
        (custom_line-Ends m.custom_metadata_str).0 custom,
      ),
  λ (key, host, pwd, line, uri, method, http, custom). (
    _,
    (
      (text_line-Ends (codes "key") m.key).1 key,
      (
        _,
        (
          (text_line-Ends (codes "host_name") m.hostname).1 host,
          (
            _,
            (
              _,
              (
                (text_line-Ends (codes "process_pwd") m.process_pwd).1 pwd,
                (
                  _,
                  (
                    (text_line-Ends (codes "cli_command_line") m.cli_command_line).1 line,
                    (
                      (text_line-Ends (codes "http_request_uri") m.http_request_uri).1 uri,
                      (
                        (text_line-Ends (codes "http_method") m.http_method).1 method,
                        (
                          (text_line-Ends (codes "http_host") m.http_host).1 http,
                          ((custom_line-Ends m.custom_metadata_str).1 custom, _),
                        ),
                      ),
                    ),
                  ),
                ),
              ),
            ),
          ),
        ),
      ),
    ),
  ),
)

-- The file is written just where every text fits; else the process ends.
pub save_text-written_iff : (m : Metadata) → ((t : Bytes) × (save_text m ≡ some t)) ↔ Writable m
unfolding save_text
save_text-written_iff m = (
  λ (t, e). (file_lines-AllEnd m).0 ((all_of-Ends (file_lines m)).0 (subst Ends (sym e) _)),
  λ w. text_of (all_of (file_lines m)) ((all_of-Ends (file_lines m)).1 ((file_lines-AllEnd m).1 w)),
)
  where
    text_of : (o : Run Bytes) → Ends o → (t : Bytes) × (o ≡ some t)
    text_of none h = absurd h
    text_of (some t) h = (t, refl)

-- Every byte of a text is escaped.
abbrev pub AllEscaped : Bytes → Type 0
AllEscaped [] = Unit {0}
AllEscaped (c ∷ t) = (escaped_char c ≢ 0) × AllEscaped t

length-escaped_text : (t : Bytes) → length (escaped_text t) ≤ 2 * length t
unfolding escaped_text
length-escaped_text [] = omega arith
length-escaped_text (c ∷ t) = ground (arith, length-escaped_text t)

length-escaped_text_all : (t : Bytes) → AllEscaped t → length (escaped_text t) ≡ 2 * length t
unfolding escaped_text
length-escaped_text_all [] h = refl
length-escaped_text_all (c ∷ t) (escaped, h) = ground (arith, length-escaped_text_all t h)

-- With the other texts fitting, a custom text of less than 4096 bytes that is set is saved.
pub set_custom_metadata_str-saved :
    (m : Metadata) (str : Bytes)
    → Writable (record m { custom_metadata_str = none })
    → length str < 4096
    → (t : Bytes) × (save_text (set_custom_metadata_str true str m) ≡ some t)
unfolding set_custom_metadata_str
set_custom_metadata_str-saved m str (key, host, pwd, line, uri, method, http, other) short =
    (save_text-written_iff (set_custom_metadata_str true str m)).1
      (key, host, pwd, line, uri, method, http, omega (arith, length-escaped_text str))

-- A custom text of just 4096 bytes, all of which are escaped, ends the process when the metadata is
-- saved, whatever the metadata is else.
pub set_custom_metadata_str-ends :
    (m : Metadata) (str : Bytes)
    → length str ≡ 4096
    → AllEscaped str
    → save_text (set_custom_metadata_str true str m) ≡ none
unfolding set_custom_metadata_str
set_custom_metadata_str-ends m str long all =
    ended (save_text (set_custom_metadata_str true str m)) (λ t e.
      let (_, _, _, _, _, _, _, fits) =
        (save_text-written_iff (set_custom_metadata_str true str m)).0 (t, e) in
      absurd (omega (arith, length-escaped_text_all str all)))
  where
    ended : (o : Run Bytes) → ((t : Bytes) → o ≡ some t → ⊥) → o ≡ none
    ended none h = refl
    ended (some t) h = absurd (h t refl)
