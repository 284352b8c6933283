-- ===== src/Admin.antt =====
-- admin-api/src/handlers.rs: what the handlers share: requests, replies, the token check, the checks on
-- a rule, and the metadata of a host. `Admin.Rules` has the handlers of rules, `Admin.Import` the bulk
-- import and `Admin.Upkeep` the bulk maintenance.
pub mod Import
pub mod Rules
pub mod Upkeep
pub mod Storage
pub mod Snapshot
pub mod Hosts
pub mod TestLookup
pub mod Pages
pub mod Routes
pub mod Frame
use vanity_manager.Prelude.{
  ℕ, suc, ◌+◌, ◌-◌, ◌^◌, ℤ, pos, negsuc, Bool, true, false, not, ◌&&◌, ◌||◌, Option, none, some,
  List, [], ◌∷◌, ◌++◌, Str, Bytes, codes, is_empty, str_eq, starts_with, split, split_once, min,
  ◌==◌, if◌then◌else◌, unwrap_or, or_else, and_then,
}
use vanity_manager.Exec.{Result, ok, err, Error, Exec, ◌>>=◌, ◌>>◌, pure, Env, Method}
use vanity_manager.Model.{
  Redirect, HostMeta, MatchType, exact, prefix, normalize_host, normalize_path, new_host,
}
use vanity_manager.Keys.{k_host, parse_match_type}
use vanity_manager.Store.{Backend}
use vanity_manager.Kv.{get_host, set_host}
use vanity_manager.Sync.{timestamp}
use vanity_manager.Resolve.{find_param}

-- A request: its method, headers and body, as the Spin SDK gives them.
pub record Request : Type 0 where
  pub method : Method
  pub header : Str → Option Str
  pub body : Bytes

-- What the router took from the path.
pub record Params : Type 0 where
  pub get : Str → Option Str
  pub wildcard : Option Str

-- An answer with its status, or an error with its text.
pub data Reply (A : Type 0) : Type 0 where
  failure : (status : ℕ) → (message : Str) → Reply A
  answer : (status : ℕ) → A → Reply A

-- The first value of a parameter of `spin-full-url`, as it is written there.
unfoldable pub query_param : Request → Str → Option Str
unfolding find_param
query_param req name =
    and_then (req.header (codes "spin-full-url"))
      (λ url. and_then (split_once b'?' url) (λ q. find_param name (split b'&' q.1)))

-- `matches!(s, "1" | "true" | "yes")` of a parameter.
abbrev is_yes : Str → Bool
is_yes s = str_eq s (codes "1") || str_eq s (codes "true") || str_eq s (codes "yes")

unfoldable pub flag : Request → Str → Bool
flag req name = elim (query_param req name) [ none ↦ false | some s ↦ is_yes s ]

-- `supplied.as_deref() == Some(expected.as_str())`
unfoldable pub supplies : Option Str → Str → Bool
supplies none expected = false
supplies (some s) expected = str_eq s expected

abbrev pub supplied_token : Request → Option Str
supplied_token req = or_else (query_param req (codes "token")) (query_param req (codes "auth"))

-- The message of the first check that a rule fails.
abbrev is_redirect_status : ℤ → Bool
is_redirect_status (pos n) = n == 301 || n == 302 || n == 307 || n == 308
is_redirect_status (negsuc _) = false

abbrev is_absolute : Str → Bool
is_absolute url = starts_with (codes "http://") url || starts_with (codes "https://") url

unfoldable pub validate_rule : Redirect → Option Str
validate_rule r =
    if is_empty r.host
    then some (codes "host is required")
    else if is_empty r.target_url
    then some (codes "target_url is required")
    else if not (is_absolute r.target_url)
    then some (codes "target_url must be an absolute http(s) URL")
    else if not (is_redirect_status r.status_code)
    then some (codes "status_code must be 301, 302, 307, or 308")
    else none

-- `saturating_add` and `saturating_sub` of `u64`.
unfoldable pub shifted_count : ℕ → ℤ → ℕ
shifted_count n (pos d) = min (n + d) (2 ^ 64 - 1)
shifted_count n (negsuc d) = n - suc d

module _ (e : Env) where
  open e use {World, unicode, now, to_rfc3339, variable}

  -- No token is asked for where none is configured.
  unfoldable pub check_auth : Request → Bool
  check_auth req =
      let expected = unwrap_or [] (variable (codes "admin_token")) in
      is_empty expected || supplies (supplied_token req) expected

  -- The host, the type and the path of a rule's URL.
  unfoldable pub parse_composite : Params → Option (Str × MatchType × Str)
  unfolding parse_match_type
  parse_composite params = and_then (params.get (codes "host")) (λ host.
      and_then (params.get (codes "type")) (λ type_name.
        and_then (parse_match_type type_name) (λ mt. some (
          normalize_host unicode host,
          mt,
          normalize_path (codes "/" ++ unwrap_or [] params.wildcard),
        ))))

  unfoldable pub meta_or_new : Str → Option HostMeta → Exec World HostMeta
  meta_or_new host (some meta) = pure meta
  meta_or_new host none = do at ← timestamp e; pure (new_host at host)

  -- `get_json::<HostMeta>(..).await?.unwrap_or_else(|| HostMeta::new(host))`
  unfoldable pub host_meta_or_new : Backend → Str → Exec World HostMeta
  unfolding meta_or_new
  host_meta_or_new b host = do found ← get_host e b (k_host host); meta_or_new host found

  -- The host's metadata with the case flag of the rule applied, stored where that changes them.
  abbrev pub flip_case : Backend → Redirect → HostMeta → Exec World HostMeta
  flip_case b r meta =
      if r.case_insensitive && meta.case_sensitive
      then (do
        at ← timestamp e
        let meta' : HostMeta = record meta { case_sensitive = false; updated_at = at }
        set_host e b (k_host r.host) meta'
        pure meta')
      else pure meta

  -- `apply_ci`, whose result is the rule; no caller uses its flag.
  unfoldable pub apply_ci : Backend → Redirect → Exec World Redirect
  apply_ci b r = do
    meta ← host_meta_or_new b r.host
    meta' ← flip_case b r meta
    pure (record r {
      case_insensitive = false;
      path = if meta'.case_sensitive then r.path else unicode.to_lowercase r.path;
    })

  unfoldable pub ensure_host_meta : Backend → Str → ℤ → Exec World (Unit {0})
  ensure_host_meta b host delta = do
    meta ← host_meta_or_new b host
    at ← timestamp e
    set_host e b (k_host host)
        (record meta { rule_count = shifted_count meta.rule_count delta; updated_at = at })

  unfoldable pub decrement_host_meta : Backend → Str → Exec World (Unit {0})
  decrement_host_meta b host = ensure_host_meta b host (negsuc 0)
