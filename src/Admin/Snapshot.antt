-- ===== src/Admin/Snapshot.antt =====
-- admin-api/src/snapshot.rs: the catalog in object storage, and the restore of an empty store from it.
pub mod Seeding
pub mod Restore
use vanity_manager.Prelude.{
  Bool, true, false, Option, none, some, List, [], ◌∷◌, ◌++◌, Str, Bytes, codes, is_empty, as_bytes,
  length, if◌then◌else◌,
}
use vanity_manager.Exec.{Result, ok, err, Exec, ◌>>=◌, ◌>>◌, pure, attempt, Env}
use vanity_manager.Model.{Redirect, HostMeta, RulesSnapshot}
use vanity_manager.Keys.{prefix_rule, prefix_host, meta_seeded, meta_last_snapshot, k_rule, k_host}
use vanity_manager.Store
use vanity_manager.Store.{Backend}
use vanity_manager.Kv.{get_host, set_rule, set_host}
use vanity_manager.Ekv.Manifest.{sort_by}
use vanity_manager.Sync.{read_rules}
use vanity_manager.Admin.Rules.{rule_le, host_le}
use vanity_manager.Admin.Storage.{put_object, get_object}

module _ (e : Env) where
  open e use {World, serde, variable, now, to_rfc3339, format_amz}

  abbrev named_prefix : Option Str → Str
  named_prefix none = codes "catalog"
  named_prefix (some s) = if is_empty s then codes "catalog" else s

  unfoldable pub snapshot_prefix : Str
  unfolding is_empty
  snapshot_prefix = named_prefix (variable (codes "snapshot_prefix"))

  unfoldable pub current_key : Str
  current_key = snapshot_prefix ++ codes "/rules.json"

  unfoldable pub history_key : Str → Str
  history_key ts = snapshot_prefix ++ (codes "/history/rules-" ++ (ts ++ codes ".json"))

  -- The loop over the keys of hosts: a key that holds nothing is passed over.
  unfoldable pub read_hosts : Backend → List Str → Exec World (List HostMeta)
  read_hosts b [] = pure []
  read_hosts b (key ∷ keys) = do
    found ← get_host e b key
    rest ← read_hosts b keys
    pure (elim found [ none ↦ rest | some h ↦ h ∷ rest ])

  -- The catalog of what was read, at a time.
  unfoldable pub catalog : Str → List Redirect → List HostMeta → RulesSnapshot
  catalog generated_at rules hosts = record {
    snapshot_version = 1;
    generated_at = generated_at;
    rule_count = length rules;
    host_count = length hosts;
    rules = sort_by rule_le rules;
    hosts = sort_by host_le hosts;
  }

  unfoldable pub publish_snapshot : Backend → Exec World (Unit {0})
  publish_snapshot b = do
    rule_keys ← Store.keys_with_prefix e b prefix_rule
    rules ← read_rules e b rule_keys
    host_keys ← Store.keys_with_prefix e b prefix_host
    hosts ← read_hosts b host_keys
    λ w.
        let (t, w') = now w in
        let bytes = serde.snapshot_to_vec_pretty (catalog (to_rfc3339 t) rules hosts) in
        (do
          put_object e current_key (codes "application/json") bytes
          put_object e (history_key (format_amz t)) (codes "application/json") bytes
          Store.set e b meta_last_snapshot (as_bytes (to_rfc3339 t)))
          w'

  unfoldable pub seed_rules : Backend → List Redirect → Exec World (Unit {0})
  seed_rules b [] = pure tt
  seed_rules b (r ∷ rs) = do set_rule e b (k_rule r.host r.match_type r.path) r; seed_rules b rs

  unfoldable pub seed_hosts : Backend → List HostMeta → Exec World (Unit {0})
  seed_hosts b [] = pure tt
  seed_hosts b (h ∷ hs) = do set_host e b (k_host h.host) h; seed_hosts b hs

  unfoldable pub mark_seeded : Backend → Exec World (Unit {0})
  mark_seeded b = Store.set e b meta_seeded (as_bytes (codes "1"))

  -- The store from a catalog; one that cannot be read counts as none.
  unfoldable pub restore : Backend → Option RulesSnapshot → Exec World (Unit {0})
  restore b none = mark_seeded b
  restore b (some snapshot) = do
    seed_rules b snapshot.rules
    seed_hosts b snapshot.hosts
    mark_seeded b

  -- What the object store answers; without an answer the store is left for the next call.
  unfoldable pub seed_from : Backend → Result (Option Bytes) → Exec World (Unit {0})
  seed_from b (ok (some bytes)) = restore b (serde.snapshot_from_slice bytes)
  seed_from b (ok none) = mark_seeded b
  seed_from b (err _) = pure tt

  unfoldable pub seed_unless_ruled : Backend → List Str → Exec World (Unit {0})
  seed_unless_ruled b [] = do fetched ← attempt (get_object e current_key); seed_from b fetched
  seed_unless_ruled b (_ ∷ _) = mark_seeded b

  unfoldable pub seed_unless_marked : Backend → Bool → Exec World (Unit {0})
  seed_unless_marked b true = pure tt
  seed_unless_marked b false = do
    keys ← Store.keys_with_prefix e b prefix_rule
    seed_unless_ruled b keys

  unfoldable pub ensure_seeded : Backend → Exec World (Unit {0})
  ensure_seeded b = do marked ← Store.exists e b meta_seeded; seed_unless_marked b marked
