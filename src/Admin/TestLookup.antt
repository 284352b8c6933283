-- ===== src/Admin/TestLookup.antt =====
-- `test_lookup` of admin-api/src/handlers.rs: which rule is stored for a host and a path, by a loop
-- of its own.
pub mod Agreement
use vanity_manager.Prelude.{
  Bool, true, false, not, ◌&&◌, ◌||◌, Option, none, some, List, [], ◌∷◌, ◌++◌, Str, codes, str_eq,
  starts_with, str_len, ltb, ◌==◌, lt_i64, if◌then◌else◌, unwrap_or,
}
use vanity_manager.Exec.{Exec, ◌>>=◌, pure, Env}
use vanity_manager.Model.{Redirect, exact, prefix, match_type_eq, normalize_host, normalize_path}
use vanity_manager.Keys.{k_rule, k_host, rule_key_prefix, parse_rule_key}
use vanity_manager.Store
use vanity_manager.Store.{Backend, open_from_config}
use vanity_manager.Kv.{get_rule, get_host}
use vanity_manager.Resolve.{lookup_path}
use vanity_manager.Admin.{Params}

-- What a test answers, with the host and the path in their normal form.
pub data Found : Type 0 where
  exact_match prefix_match : Redirect → Found
  no_match : Found

pub record Tested : Type 0 where
  pub host : Str
  pub path : Str
  pub found : Found

-- Whether a rule is longer than the best one so far, or as long with a higher priority.
unfoldable pub is_better : Redirect → Option Redirect → Bool
is_better r none = true
is_better r (some b) =
    ltb (str_len b.path) (str_len r.path)
    || (str_len r.path == str_len b.path && lt_i64 b.priority r.priority)

-- A rule that was read at a key whose path fits.
unfoldable pub take_better : Option Redirect → Option Redirect → Option Redirect
take_better none best = best
take_better (some r) best =
    if not r.enabled then best else if is_better r best then some r else best

-- `lookup_path == rule_path || lookup_path.starts_with(&format!("{rule_path}/"))`, of a prefix rule.
unfoldable pub fits : Str → Str → Bool
fits path key = elim (parse_rule_key key) [
  | none ↦ false
  | some (_, mt, rule_path) ↦
      match_type_eq mt prefix
      && (str_eq path rule_path || starts_with (rule_path ++ codes "/") path)
]

module _ (e : Env) where
  open e use {World, unicode}

  -- The loop over the listed keys; those that do not start with the prefix are passed over.
  unfoldable pub scan_keys :
      Backend → Str → Str → List Str → Option Redirect → Exec World (Option Redirect)
  scan_keys b of_host path [] best = pure best
  scan_keys b of_host path (key ∷ keys) best = elim (starts_with of_host key && fits path key) [
    | false ↦ scan_keys b of_host path keys best
    | true ↦ do found ← get_rule e b key; scan_keys b of_host path keys (take_better found best)
  ]

  unfoldable pub test_prefix : Backend → Str → Str → Exec World (Option Redirect)
  test_prefix b host path = do
    keys ← Store.keys_with_prefix e b (rule_key_prefix host)
    scan_keys b (rule_key_prefix host) path keys none

  abbrev pub found_prefix : Option Redirect → Found
  found_prefix none = no_match
  found_prefix (some r) = prefix_match r

  unfoldable pub test_rules : Backend → Str → Str → Exec World Found
  test_rules b host path = do
    stored ← get_rule e b (k_rule host exact path)
    elim stored [
      | some rule ↦ pure (exact_match rule)
      | none ↦ do best ← test_prefix b host path; pure (found_prefix best)
    ]

  -- The lookup on a backend, for a host and a path in their normal form. Whether the host is managed is not asked.
  unfoldable pub test_in : Backend → Str → Str → Exec World Found
  test_in b host path = do
    meta ← get_host e b (k_host host)
    test_rules b host (lookup_path unicode meta path)

  unfoldable pub test_lookup : Params → Exec World Tested
  test_lookup params = do
    let host = normalize_host unicode (unwrap_or [] (params.get (codes "host")))
    let path = normalize_path (codes "/" ++ unwrap_or [] params.wildcard)
    b ← open_from_config e
    found ← test_in b host path
    pure (record { host = host; path = path; found = found })
