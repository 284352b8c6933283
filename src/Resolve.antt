-- ===== src/Resolve.antt =====
-- redirect-handler/src/lib.rs: the fallback resolver, which finds the redirect for a host and a path in
-- the KV store.
pub mod Best
pub mod Answers
pub mod Totality
pub mod Location
pub mod Managed
use vanity_manager.Prelude.{
  ℕ, zero, suc, ◌+◌, ℤ, lt_i64, Bool, true, false, not, ◌&&◌, ◌||◌, Option, none, some, List, [],
  ◌∷◌, ◌++◌, Str, codes, is_empty, str_eq, starts_with, strip_prefix, contains, replace, split,
  split_once, first_part, trim, trim_end_matches, str_len, slice_from, ltb, ◌==◌, if◌then◌else◌,
  unwrap_or, or_else, and_then, pos, negsuc, ◌-◌, ◌%◌, ◌^◌,
}
use vanity_manager.Exec.{Result, ok, err, Error, Exec, ◌>>=◌, ◌>>◌, pure, Env}
use vanity_manager.Model.{
  Redirect, HostMeta, MatchType, exact, prefix, match_type_eq, Unicode, normalize_host,
  normalize_path,
}
use vanity_manager.Keys.{k_host, k_rule, rule_key_prefix, parse_rule_key}
use vanity_manager.Store
use vanity_manager.Store.{Backend, open_from_config}
use vanity_manager.Kv.{get_rule, get_host}

-- `lookup_path == rule_path || lookup_path.starts_with(&format!("{rule_path}/"))`
unfoldable pub path_matches : Str → Str → Bool
path_matches rule_path path = str_eq path rule_path || starts_with (rule_path ++ codes "/") path

-- Whether a rule replaces the best one so far.
unfoldable pub better : Redirect → Option Redirect → Bool
better r none = true
better r (some b) =
    ltb (str_len b.path) (str_len r.path)
    || (str_len r.path == str_len b.path && lt_i64 b.priority r.priority)

-- One rule that was read: a disabled one is passed over.
unfoldable pub consider : Option Redirect → Option Redirect → Option Redirect
consider none best = best
consider (some r) best = if r.enabled && better r best then some r else best

-- The path of a key if it is one of a prefix rule that matches.
unfoldable pub is_candidate : Str → Str → Bool
is_candidate path key = elim (parse_rule_key key) [
  | none ↦ false
  | some (_, mt, rule_path) ↦ match_type_eq mt prefix && path_matches rule_path path
]

-- A path as a host with these metadata looks it up.
unfoldable pub lookup_path : Unicode → Option HostMeta → Str → Str
lookup_path u none path = path
lookup_path u (some h) path = if h.case_sensitive then path else u.to_lowercase path

abbrev pub enabled_only : Option Redirect → Option Redirect
enabled_only none = none
enabled_only (some r) = if r.enabled then some r else none

module _ (e : Env) where
  open e use {World, unicode, variable}

  -- The loop over the keys of a host.
  unfoldable pub best_prefix :
      Backend → Str → List Str → Option Redirect → Exec World (Option Redirect)
  best_prefix b path [] best = pure best
  best_prefix b path (key ∷ keys) best = elim (is_candidate path key) [
    | false ↦ best_prefix b path keys best
    | true ↦ do found ← get_rule e b key; best_prefix b path keys (consider found best)
  ]

  unfoldable pub longest_prefix : Backend → Str → Str → Exec World (Option Redirect)
  longest_prefix b host path = do
    keys ← Store.keys_with_prefix e b (rule_key_prefix host)
    best_prefix b path keys none

  -- An enabled exact rule wins, else the longest prefix.
  unfoldable pub lookup_rules : Backend → Str → Str → Exec World (Option Redirect)
  lookup_rules b host path = do
    found ← get_rule e b (k_rule host exact path)
    elim (enabled_only found) [ some r ↦ pure (some r) | none ↦ longest_prefix b host path ]

  unfoldable pub lookup_managed : Backend → Str → Str → Exec World (Option Redirect)
  lookup_managed b host path = do
    meta ← get_host e b (k_host host)
    lookup_rules b host (lookup_path unicode meta path)

  unfoldable pub lookup : Str → Str → Exec World (Option Redirect)
  lookup host path = do
    b ← open_from_config e
    managed ← Store.exists e b (k_host host)
    if managed then lookup_managed b host path else pure none

-- The target with what is left of the path behind the prefix. `none` is the panic of a slice that does
-- not begin at a character.
unfoldable pub with_suffix : Redirect → Str → Option Str
with_suffix r path =
    if match_type_eq r.match_type prefix && r.preserve_path && ltb (str_len r.path) (str_len path)
    then and_then (slice_from (str_len r.path) path)
        (λ suffix. some (trim_end_matches b'/' r.target_url ++ suffix))
    else some r.target_url

unfoldable pub with_query : Redirect → Str → Str → Str
with_query r query location =
    if r.preserve_query && not (is_empty query)
    then location ++ ((if contains (codes "?") location then codes "&" else codes "?") ++ query)
    else location

-- The `Location` of a redirect.
unfoldable pub redirect_location : Redirect → Str → Str → Option Str
unfolding with_suffix with_query
redirect_location r path query = and_then (with_suffix r path) (λ l. some (with_query r query l))

-- A request: its path and headers, as the Spin SDK gives them.
pub record Request : Type 0 where
  pub path : Str
  pub header : Str → Option Str

-- The query of `spin-full-url`, without the question mark.
abbrev full_query : Request → Option Str
full_query req =
    and_then (req.header (codes "spin-full-url"))
      (λ url. and_then (split_once b'?' url) (λ q. some q.1))

unfoldable pub extract_query : Request → Str
extract_query req = unwrap_or [] (full_query req)

-- The first parameter of this name; one with no `=` is passed over.
unfoldable pub find_param : Str → List Str → Option Str
find_param name [] = none
find_param name (p ∷ ps) =
    let rest = find_param name ps in
    elim (split_once b'=' p) [ none ↦ rest | some (k, v) ↦ if str_eq k name then some v else rest ]

abbrev unescape : Str → Str
unescape v =
    replace (codes "+") (codes " ")
      (replace (codes "%3A") (codes ":") (replace (codes "%2F") (codes "/") v))

unfoldable pub query_param : Request → Str → Option Str
query_param req name =
    and_then (full_query req)
      (λ q. and_then (find_param name (split b'&' q)) (λ v. some (unescape v)))

-- `v.split(':').next().unwrap_or("").trim().to_lowercase()`
unfoldable pub bare_host : Unicode → Str → Str
bare_host u v = u.to_lowercase (trim (first_part b':' v))

abbrev non_empty : Str → Option Str
non_empty h = if is_empty h then none else some h

abbrev header_host : Unicode → Request → Str → Option Str
header_host u req name = and_then (req.header name) (λ v. non_empty (bare_host u v))

abbrev is_local : Str → Bool
is_local h = str_eq h (codes "127.0.0.1") || str_eq h (codes "localhost")

abbrev url_host : Unicode → Str → Option Str
url_host u url =
    and_then (or_else (strip_prefix (codes "http://") url) (strip_prefix (codes "https://") url))
      (λ after.
        let h = bare_host u (first_part b'/' after) in
        if is_empty h || is_local h then none else some h)

unfoldable pub extract_host : Unicode → Request → Str
extract_host u req = unwrap_or [] (
    or_else (header_host u req (codes "x-forwarded-host")) (
      or_else (header_host u req (codes "true-client-host")) (
        or_else (header_host u req (codes "host"))
          (and_then (req.header (codes "spin-full-url")) (url_host u)))))

-- What the component answers. `panicked` stands for the slice off a character boundary.
pub data Answer : Type 0 where
  rule_found : Redirect → Answer
  no_match : Answer
  failed : Error → Answer
  missing_host : Answer
  not_found : Str → Str → Answer
  redirected : (status : ℕ) → (location : Str) → (cache_ttl : Str) → Answer
  panicked : Answer

-- `n as u16` keeps the low sixteen bits.
abbrev as_u16 : ℤ → ℕ
as_u16 (pos n) = n % 2 ^ 16
as_u16 (negsuc n) = 2 ^ 16 - 1 - n % 2 ^ 16

module _ (e : Env) where
  open e use {World, unicode, variable}

  unfoldable pub resolve_json : Request → World → Answer × World
  resolve_json req w =
      let host = normalize_host unicode (unwrap_or [] (query_param req (codes "host"))) in
      let path = normalize_path (unwrap_or (codes "/") (query_param req (codes "path"))) in
      let (r, w') = lookup e host path w in
      (elim r [ ok (some rule) ↦ rule_found rule | ok none ↦ no_match | err x ↦ failed x ], w')

  abbrev redirect_to : Redirect → Str → Str → Answer
  redirect_to r path query = elim (redirect_location r path query) [
    | none ↦ panicked
    | some location ↦
        redirected (as_u16 r.status_code) location
          (unwrap_or (codes "86400") (variable (codes "cache_ttl")))
  ]

  -- An error of the lookup is answered as a miss.
  unfoldable pub resolve_redirect : Request → World → Answer × World
  resolve_redirect req w =
      let host = extract_host unicode req in
      let path = normalize_path req.path in
      let (r, w') = lookup e host path w in
      let answer : Answer = elim r [
        | ok (some rule) ↦ redirect_to rule path (extract_query req)
        | ok none ↦ not_found host path
        | err _ ↦ not_found host path
      ] in
      if is_empty host then (missing_host, w) else (answer, w')

  unfoldable pub handle : Request → World → Answer × World
  handle req w =
      if str_eq req.path (codes "/resolve") then resolve_json req w else resolve_redirect req w
