-- ===== src/Admin/Rules.antt =====
-- The handlers of rules and of hosts in admin-api/src/handlers.rs. A failed call of the backend ends a handler
-- with its error.
pub mod Replies
pub mod Created
pub mod Gone
pub mod Unfound
pub mod Updated
pub mod Managed
pub mod Found
use vanity_manager.Prelude.{
  ℕ, pos, Bool, false, true, not, ◌||◌, Option, none, some, List, [], Str, codes, str_eq, str_le,
  parse_usize, length, take, drop, min, if◌then◌else◌, and_then, unwrap_or,
}
use vanity_manager.Exec.{ok, Exec, ◌>>=◌, ◌>>◌, pure, Env}
use vanity_manager.Model.{
  Redirect, HostMeta, MatchType, match_type_eq, normalize_host, normalize_path,
}
use vanity_manager.Keys.{prefix_rule, k_rule, rule_key_prefix}
use vanity_manager.Store
use vanity_manager.Store.{Backend, open_from_config}
use vanity_manager.Kv.{get_rule, set_rule}
use vanity_manager.Ekv.Manifest.{sort_by}
use vanity_manager.Sync.{
  timestamp, read_rules, push_rule_inline, push_host_inline, push_delete_rule_inline,
  enqueue_rule_push, enqueue_host_push, enqueue_rule_delete,
}
use vanity_manager.Admin.{
  Request, Params, Reply, failure, answer, query_param, flag, validate_rule, parse_composite,
  apply_ci, ensure_host_meta, decrement_host_meta,
}

-- A page of the list of rules.
pub record RulePage : Type 0 where
  pub items : List Redirect
  pub matched_total : ℕ
  pub limit : ℕ
  pub offset : ℕ

-- `(a.host, a.path) <= (b.host, b.path)`
unfoldable pub rule_le : Redirect → Redirect → Bool
rule_le a b = if str_eq a.host b.host then str_le a.path b.path else str_le a.host b.host

unfoldable pub host_le : HostMeta → HostMeta → Bool
host_le a b = str_le a.host b.host

-- A parameter that is a number, else its default.
unfoldable pub number_param : Request → Str → ℕ → ℕ
number_param req name default = unwrap_or default (and_then (query_param req name) parse_usize)

module _ (e : Env) where
  open e use {World, unicode, serde}

  -- A call that has no result and reports no error.
  abbrev pub effect : (World → World) → Exec World (Unit {0})
  effect f w = (ok tt, f w)

  unfoldable pub push_pair : Backend → Bool → Str → Str → World → World
  push_pair b async key host w =
      if async
      then enqueue_host_push e b host (enqueue_rule_push e b key w)
      else push_host_inline e b host (push_rule_inline e b key w)

  -- The host's count and EdgeKV follow a new rule.
  unfoldable pub settle_new : Backend → Bool → Str → Redirect → Exec World (Reply Redirect)
  settle_new b async key r = do
    ensure_host_meta e b r.host (pos 1)
    effect (push_pair b async key r.host)
    pure (answer 201 r)

  unfoldable pub store_new : Backend → Bool → Str → Redirect → Exec World (Reply Redirect)
  store_new b async key r = do set_rule e b key r; settle_new b async key r

  unfoldable pub create_found : Backend → Bool → Str → Redirect → Bool → Exec World (Reply Redirect)
  create_found b async key r true =
      pure (failure 409 (codes "rule already exists — use PUT to update"))
  create_found b async key r false = store_new b async key r

  unfoldable pub create_applied : Backend → Bool → Redirect → Exec World (Reply Redirect)
  create_applied b async r = do
    taken ← Store.exists e b (k_rule r.host r.match_type r.path)
    create_found b async (k_rule r.host r.match_type r.path) r taken

  -- `create_rule` on a backend, for a rule in its normal form.
  unfoldable pub create_in : Backend → Bool → Redirect → Exec World (Reply Redirect)
  create_in b async r = do r' ← apply_ci e b r; create_applied b async r'

  -- `create_rule` for a rule that passed the checks.
  unfoldable pub create_checked : Bool → Redirect → Exec World (Reply Redirect)
  create_checked async r = do
    at ← timestamp e
    b ← open_from_config e
    create_in b async (record r {
      host = normalize_host unicode r.host;
      path = normalize_path r.path;
      updated_at = at;
      ekv_synced_at = [];
    })

  unfoldable pub create_rule : Request → Exec World (Reply Redirect)
  create_rule req = elim (serde.rule_from_slice req.body) [
    | none ↦ pure (failure 400 (codes "invalid json"))
    | some r ↦ elim (validate_rule r) [
      | some message ↦ pure (failure 400 message)
      | none ↦ create_checked (flag req (codes "async")) r
    ]
  ]

  unfoldable pub store_found : Backend → Bool → Str → Redirect → Bool → Exec World (Reply Redirect)
  store_found b async key r false = pure (failure 404 (codes "rule not found"))
  store_found b async key r true = do
    set_rule e b key r
    effect (if async then enqueue_rule_push e b key else push_rule_inline e b key)
    pure (answer 200 r)

  unfoldable pub store_changed : Backend → Bool → Str → Redirect → Exec World (Reply Redirect)
  unfolding store_found
  store_changed b async key r = do found ← Store.exists e b key; store_found b async key r found

  -- `update_rule` for a body that fits the URL.
  unfoldable pub update_checked : Bool → Str → MatchType → Redirect → Exec World (Reply Redirect)
  update_checked async host mt r = do
    at ← timestamp e
    b ← open_from_config e
    r' ← apply_ci e b (record r { updated_at = at; ekv_synced_at = [] })
    store_changed b async (k_rule host mt r'.path) r'

  unfoldable pub update_parsed :
      Bool → Str → MatchType → Str → Redirect → Exec World (Reply Redirect)
  update_parsed async host mt path patch =
      let r : Redirect = record patch {
        host = normalize_host unicode patch.host;
        path = normalize_path patch.path;
        case_insensitive = false;
      } in
      if not (str_eq r.host host) || not (match_type_eq r.match_type mt) || not (str_eq r.path path)
      then pure (failure 400 (codes "body (host, match_type, path) must match URL composite key"))
      else update_checked async host mt r

  unfoldable pub update_rule : Request → Params → Exec World (Reply Redirect)
  update_rule req params = elim (parse_composite e params) [
    | none ↦ pure (failure 400 (codes "invalid composite key in URL"))
    | some (host, mt, path) ↦ elim (serde.rule_from_slice req.body) [
      | none ↦ pure (failure 400 (codes "invalid json"))
      | some patch ↦ elim (validate_rule patch) [
        | some message ↦ pure (failure 400 message)
        | none ↦ update_parsed (flag req (codes "async")) host mt path patch
      ]
    ]
  ]

  unfoldable pub push_gone : Backend → Bool → Str → Str → World → World
  push_gone b async key host w =
      if async
      then enqueue_host_push e b host (enqueue_rule_delete e b key w)
      else push_host_inline e b host (push_delete_rule_inline e b key w)

  -- The host's count and EdgeKV follow a deletion.
  unfoldable pub settle_deleted : Backend → Bool → Str → Str → Exec World (Reply (Unit {0}))
  settle_deleted b async key host = do
    decrement_host_meta e b host
    effect (push_gone b async key host)
    pure (answer 200 tt)

  unfoldable pub delete_found : Backend → Bool → Str → Str → Bool → Exec World (Reply (Unit {0}))
  delete_found b async key host false = pure (failure 404 (codes "rule not found"))
  delete_found b async key host true = do Store.delete e b key; settle_deleted b async key host

  unfoldable pub delete_stored : Backend → Bool → Str → Str → Exec World (Reply (Unit {0}))
  delete_stored b async key host = do
    found ← Store.exists e b key
    delete_found b async key host found

  unfoldable pub delete_rule : Request → Params → Exec World (Reply (Unit {0}))
  delete_rule req params = elim (parse_composite e params) [
    | none ↦ pure (failure 400 (codes "invalid composite key in URL"))
    | some (host, mt, path) ↦ do
      b ← open_from_config e
      delete_stored b (flag req (codes "async")) (k_rule host mt path) host
  ]

  abbrev found_or_404 : Option Redirect → Reply Redirect
  found_or_404 none = failure 404 (codes "rule not found")
  found_or_404 (some r) = answer 200 r

  -- The handler `get_rule`.
  unfoldable pub show_rule : Params → Exec World (Reply Redirect)
  show_rule params = elim (parse_composite e params) [
    | none ↦ pure (failure 400 (codes "invalid composite key in URL"))
    | some (host, mt, path) ↦ do
      b ← open_from_config e
      found ← get_rule e b (k_rule host mt path)
      pure (found_or_404 found)
  ]

  -- The prefix of the keys that are listed.
  abbrev listed_prefix : Option Str → Str
  listed_prefix none = prefix_rule
  listed_prefix (some host) = rule_key_prefix (normalize_host unicode host)

  unfoldable pub list_rules : Request → Exec World (Reply RulePage)
  list_rules req = do
    b ← open_from_config e
    let limit = min (number_param req (codes "limit") 200) 2000
    let offset = number_param req (codes "offset") 0
    keys ← Store.keys_with_prefix e b (listed_prefix (query_param req (codes "host")))
    rules ← read_rules e b (take limit (drop offset (sort_by str_le keys)))
    pure (
        answer 200 (record {
          items = sort_by rule_le rules;
          matched_total = length keys;
          limit = limit;
          offset = offset;
        }))

  unfoldable pub export_rules : Exec World (Reply (List Redirect))
  export_rules = do
    b ← open_from_config e
    keys ← Store.keys_with_prefix e b prefix_rule
    rules ← read_rules e b keys
    pure (answer 200 (sort_by rule_le rules))
