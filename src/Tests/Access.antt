-- ===== src/Tests/Access.antt =====
-- The theorems on the access by HTTP (src/php_spx.c, src/spx_utils.c and
-- src/infrastructure/security/spx_security_crypto.c) and on the tokenizer (src/spx_utils.h) at small
-- inputs.
use php_spx.Prelude.{
  ℕ, ◌%◌, ◌^◌, ◌<◌, ◌≡◌, ◌≢◌, refl, subst, Bool, true, false, Option, none, some, [], ◌∷◌, ◌↔◌,
  if◌then◌else◌, arith, map, take, length, replicate,
}
use php_spx.Prelude.Bytes.{Bytes, bytes_eq}
use php_spx.Prelude.Int.{ℤ, pos}
use php_spx.Metric.{Metric}
use php_spx.Tokens.{tokenize}
use php_spx.Tokens.Split.{split, tokenize-split}
use php_spx.Crypto.{compare_bytes}
use php_spx.Crypto.Laws.{shorter, compare_bytes_iff}
use php_spx.Network.{ip_match}
use php_spx.Network.Subnet.{Answers32, Covers, ip_match_iff}
use php_spx.Validation.{Number}
use php_spx.Config.{Source, Parameter, spx_ui_uri, spx_key, http_query_string}
use php_spx.Access.{Globals, granted, refused, Reason, check_access, remote_addr, asked}
use php_spx.Access.Authorized.{Authorized}
use php_spx.Access.Granted.{check_access_iff}
use php_spx.Access.Requests.{begin_request-ui}

-- "10.0.0.0/8", "10.0.0.0", "10.1.2.3" and "8"
abbrev network : Bytes
network = 49 ∷ 48 ∷ 46 ∷ 48 ∷ 46 ∷ 48 ∷ 46 ∷ 48 ∷ 47 ∷ 56 ∷ []

abbrev base : Bytes
base = 49 ∷ 48 ∷ 46 ∷ 48 ∷ 46 ∷ 48 ∷ 46 ∷ 48 ∷ []

abbrev client : Bytes
client = 49 ∷ 48 ∷ 46 ∷ 49 ∷ 46 ∷ 50 ∷ 46 ∷ 51 ∷ []

abbrev key : Bytes
key = 107 ∷ 101 ∷ 121 ∷ []

-- Parsers that know these texts.
abbrev inet_addr : Bytes → Option ℕ
inet_addr s =
    if bytes_eq s base then some 167772160 else (if bytes_eq s client then some 167837955 else none)

abbrev strtol : Bytes → ℤ
strtol s = if bytes_eq s (56 ∷ []) then pos 8 else pos 0

inet_addr-Answers32 : Answers32 inet_addr strtol
inet_addr-Answers32 s a e = known (bytes_eq s base) (bytes_eq s client) e
  where
    known :
        (b c : Bool)
        → (if b then some 167772160 else (if c then some 167837955 else none)) ≡ some a
        → a < 2 ^ 32
    known true c e = subst (λ n. n < 2 ^ 32) (same e) (omega arith)
      where
        same : {x y : ℕ} → some x ≡ some y → x ≡ y
        same e = cc
    known false true e = subst (λ n. n < 2 ^ 32) (same e) (omega arith)
      where
        same : {x y : ℕ} → some x ≡ some y → x ≡ y
        same e = cc
    known false false e = cc

abbrev server : Bytes → Option Bytes
server name = if bytes_eq name remote_addr then some client else none

abbrev settings : Globals
settings = record {
  http_enabled = true;
  http_key = some key;
  http_ip_var = some remote_addr;
  http_trusted_proxies = none;
  http_ip_whitelist = some network;
}

abbrev parse : Bytes → Number
parse s = record { value = pos 0; rest = s; range_error = false }

abbrev no_metric : Bytes → Option Metric
no_metric s = none

-- A query string that asks for the web UI, with a key.
abbrev query : Option Bytes → Source → Parameter → Option Bytes
query given http_query_string spx_ui_uri = some (47 ∷ [])
query given http_query_string spx_key = given
query given source parameter = none

refused≢granted : (r : Reason) → refused r ≢ granted
refused≢granted r e = cc

tokenize-split_example :
    tokenize 3 44 (97 ∷ 98 ∷ 99 ∷ 44 ∷ 100 ∷ [])
    ≡ map (take 2) (split 44 (97 ∷ 98 ∷ 99 ∷ 44 ∷ 100 ∷ []))
tokenize-split_example = tokenize-split 3 44 (97 ∷ 98 ∷ 99 ∷ 44 ∷ 100 ∷ [])

abbrev one : Bytes
one = 1 ∷ []

abbrev one_two : Bytes
one_two = 1 ∷ 2 ∷ []

compare_bytes_iff_example : (compare_bytes one one_two ≡ 0) ↔ (
    (length one % 256 ≡ length one_two % 256)
    × (take (shorter one one_two) one ≡ take (shorter one one_two) one_two))
compare_bytes_iff_example = compare_bytes_iff one one_two

-- A key of 257 bytes compares as equal to its first byte.
long_key : compare_bytes (replicate 257 107) (107 ∷ []) ≡ 0
long_key = refl

ip_match_iff_example :
    (ip_match inet_addr strtol (some client) (some network) ≡ true)
    ↔ Covers inet_addr strtol client network
ip_match_iff_example = ip_match_iff inet_addr strtol inet_addr-Answers32 client network

check_access_iff_example :
    (check_access inet_addr strtol server settings false (some key) ≡ granted)
    ↔ Authorized inet_addr strtol server settings (some key)
check_access_iff_example =
    check_access_iff inet_addr strtol inet_addr-Answers32 server settings (some key)

-- The client above is granted the access.
client_granted : check_access inet_addr strtol server settings false (some key) ≡ granted
unfolding bytes_eq
client_granted = refl

begin_request-ui_example :
    (false ≡ false)
    × (check_access inet_addr strtol server settings false
          (asked inet_addr strtol parse no_metric (query (some key))).key
        ≡ granted)
unfolding bytes_eq
begin_request-ui_example =
    begin_request-ui inet_addr strtol parse no_metric (query (some key)) server settings false refl
      refl
