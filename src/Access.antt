-- ===== src/Access.antt =====
-- The control of the access by HTTP of src/php_spx.c: check_access and the beginning of a request,
-- PHP_RINIT_FUNCTION(spx). The lookup in $_SERVER, the settings and the parsers of the C library are
-- arguments; notices and delays are left out, the reason of a refusal stands for its notice.
pub mod Authorized
pub mod Granted
pub mod Requests
use php_spx.Prelude.{
  ℕ, Bool, true, false, ◌&&◌, ◌||◌, not, Option, none, some, List, [], ◌∷◌, if◌then◌else◌, ◌==◌,
}
use php_spx.Prelude.Bytes.{Bytes, bytes_eq}
use php_spx.Prelude.Int.{ℤ}
use php_spx.Metric.{Metric}
use php_spx.Tokens.{tokenize, any}
use php_spx.Crypto.{compare_strings}
use php_spx.Network.{ip_match}
use php_spx.Validation.{Number}
use php_spx.Config.{
  Config, Source, ini, env, http_cookie, http_header, http_query_string, Parameter, config_get,
}

-- The settings of `zend_spx_globals` that the check reads.
pub record Globals : Type 0 where
  pub http_enabled : Bool
  pub http_key : Option Bytes
  pub http_ip_var : Option Bytes
  pub http_trusted_proxies : Option Bytes
  pub http_ip_whitelist : Option Bytes

pub data Reason : Type 0 where
  turned_off no_ip_var no_trusted_proxies untrusted_proxy : Reason
  no_ip no_whitelist not_in_whitelist no_server_key no_client_key wrong_key : Reason

pub data Access : Type 0 where
  granted : Access
  refused : Reason → Access

-- `!s || s[0] == 0`
abbrev pub is_empty : Option Bytes → Bool
is_empty none = true
is_empty (some []) = true
is_empty (some (c ∷ s)) = false

abbrev pub chars : Option Bytes → Bytes
chars none = []
chars (some s) = s

-- "REMOTE_ADDR"
abbrev pub remote_addr : Bytes
remote_addr = 82 ∷ 69 ∷ 77 ∷ 79 ∷ 84 ∷ 69 ∷ 95 ∷ 65 ∷ 68 ∷ 68 ∷ 82 ∷ []

-- A test that is passed or refuses the access.
abbrev pub require : Bool → Reason → Access → Access
require passed reason more = if passed then more else refused reason

module _ (inet_addr : Bytes → Option ℕ) (strtol : Bytes → ℤ) where
  -- The address matches a target of a list with commas.
  abbrev pub listed : Option Bytes → Option Bytes → Bool
  listed ip targets =
      any (λ t. ip_match inet_addr strtol ip (some t)) (tokenize 64 44 (chars targets))

  module _ (server : Bytes → Option Bytes) (g : Globals) where
    abbrev pub is_direct : Bool
    is_direct = bytes_eq (chars g.http_ip_var) remote_addr

    abbrev pub check_keys : Option Bytes → Access
    check_keys key = require (not (is_empty g.http_key)) no_server_key (
        require (not (is_empty key)) no_client_key
          (require (compare_strings g.http_key key == 0) wrong_key granted))

    abbrev pub check_ip : Option Bytes → Option Bytes → Access
    check_ip ip key = require (not (is_empty ip)) no_ip (
        require (not (is_empty g.http_ip_whitelist)) no_whitelist
          (require (listed ip g.http_ip_whitelist) not_in_whitelist (check_keys key)))

    abbrev pub check_proxy : Option Bytes → Access
    check_proxy key =
        require (is_direct || not (is_empty g.http_trusted_proxies)) no_trusted_proxies (
          require (is_direct || listed (server remote_addr) g.http_trusted_proxies) untrusted_proxy
            (check_ip (server (chars g.http_ip_var)) key))

    -- `check_access`
    abbrev pub check_access : Bool → Option Bytes → Access
    check_access true key = granted
    check_access false key =
        require g.http_enabled turned_off
          (require (not (is_empty g.http_ip_var)) no_ip_var (check_proxy key))

-- The handlers `http_ui_handler` and `profiling_handler`.
pub data Handler : Type 0 where
  http_ui profiling : Handler

-- `context` after the beginning of a request.
pub record Request : Type 0 where
  pub config : Config
  pub execution_handler : Option Handler

abbrev pub is_granted : Access → Bool
is_granted granted = true
is_granted (refused r) = false

abbrev pub is_some : Option Bytes → Bool
is_some none = false
is_some (some s) = true

abbrev pub handler_for : Config → Option Handler
handler_for config =
    if is_some config.ui_uri
    then some http_ui
    else (if config.enabled then some profiling else none)

module _ (inet_addr : Bytes → Option ℕ) (strtol : Bytes → ℤ) (parse : Bytes → Number)
    (get_by_key : Bytes → Option Metric) (handlers : Source → Parameter → Option Bytes) where
  -- What the client asks for by cookie, header and query string.
  abbrev pub asked : Config
  asked =
      config_get parse get_by_key handlers false
        (http_cookie ∷ http_header ∷ http_query_string ∷ [])

  abbrev pub from_ini : Config
  from_ini = config_get parse get_by_key handlers false (ini ∷ [])

  module _ (server : Bytes → Option Bytes) (g : Globals) where
    abbrev pub config_of : Bool → Config
    config_of true = config_get parse get_by_key handlers true (env ∷ [])
    config_of false =
        let access_required = is_some asked.ui_uri || asked.enabled in
        if not access_required
          || not (is_granted (check_access inet_addr strtol server g false asked.key))
        then from_ini
        else asked

    -- `PHP_RINIT_FUNCTION(spx)`
    abbrev pub begin_request : Bool → Request
    begin_request cli = record {
      config = config_of cli;
      execution_handler = handler_for (config_of cli);
    }
