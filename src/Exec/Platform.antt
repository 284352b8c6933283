-- ===== src/Exec/Platform.antt =====
-- What the components call outside of the repository: the Spin SDK (variables, key-value store,
-- outbound HTTP), `chrono`, `rand`, `serde_json`, the cryptographic crates and the Unicode tables.
use vanity_manager.Prelude.{ℕ, ℤ, Bool, Option, List, Str, Bytes}
use vanity_manager.Model.{Redirect, HostMeta, EkvExact, EkvPrefixEntry, RulesSnapshot, Unicode}
use vanity_manager.Exec.Base.{Exec}

pub data Method : Type 0 where
  get put post delete options : Method
  other : Str → Method

-- An outbound request and its response.
pub record HttpRequest : Type 0 where
  pub method : Method
  pub uri : Str
  pub headers : List (Str × Str)
  pub body : Bytes

pub record HttpResponse : Type 0 where
  pub status : ℕ
  pub body : Bytes

-- `serde_json`: the dynamic values, and the derived instances of the program's structs.
pub record Serde : Type 1 where
  pub Value : Type 0
  pub from_slice : Bytes → Option Value
  pub to_vec : Value → Bytes
  pub field : Value → Str → Option Value
  pub as_u64 : Value → Option ℕ
  pub as_i64 : Value → Option ℤ
  pub as_str : Value → Option Str
  pub as_array : Value → Option (List Value)
  pub object : List (Str × Value) → Value
  pub string : Str → Value
  pub number : ℕ → Value
  pub boolean : Bool → Value
  pub entries : List EkvPrefixEntry → Value
  pub rule_from_slice : Bytes → Option Redirect
  pub rule_to_vec : Redirect → Bytes
  pub rules_from_slice : Bytes → Option (List Redirect)
  pub host_from_slice : Bytes → Option HostMeta
  pub host_to_vec : HostMeta → Bytes
  pub exact_to_vec : EkvExact → Bytes
  pub entries_to_vec : List EkvPrefixEntry → Bytes
  pub snapshot_from_slice : Bytes → Option RulesSnapshot
  pub snapshot_to_vec_pretty : RulesSnapshot → Bytes

-- `sha2`, `hmac`, `base64` and `hex`.
pub record Crypto : Type 0 where
  pub hmac_sha256 : Bytes → Bytes → Bytes
  pub sha256 : Bytes → Bytes
  pub base64 : Bytes → Str
  pub hex : Bytes → Str

pub record Env : Type 1 where
  pub World : Type 0
  pub Time : Type 0
  pub unicode : Unicode
  pub serde : Serde
  pub crypto : Crypto
  -- spin_sdk::variables::get
  pub variable : Str → Option Str
  -- chrono
  pub now : World → Time × World
  pub to_rfc3339 : Time → Str
  pub parse_from_rfc3339 : Str → Option Time
  pub format_edgegrid : Time → Str
  -- `%Y%m%dT%H%M%SZ` and `%Y%m%d`
  pub format_amz : Time → Str
  pub format_day : Time → Str
  pub timestamp_nanos : Time → ℕ
  pub seconds_since : Time → Time → ℤ
  pub milliseconds_since : Time → Time → ℤ
  -- `Url::parse`, and `host_str` of the URL
  pub url_host : Str → Option (Option Str)
  -- rand
  pub alphanumeric : ℕ → World → Str × World
  -- spin_sdk::key_value::Store
  pub open_default : Exec World Unit
  pub kv_get : Str → Exec World (Option Bytes)
  pub kv_set : Str → Bytes → Exec World Unit
  pub kv_delete : Str → Exec World Unit
  pub kv_exists : Str → Exec World Bool
  pub kv_get_keys : Exec World (List Str)
  -- spin_sdk::http::send
  pub http_send : HttpRequest → Exec World HttpResponse
