-- ===== src/Admin/Hosts.antt =====
-- The handlers of hosts, of statistics and of pending markers in admin-api/src/handlers.rs.
pub mod Sums
use vanity_manager.Prelude.{
  ℕ, ◌+◌, ◌-◌, ◌%◌, ◌^◌, Bool, Option, none, some, List, [], ◌∷◌, Str, Bytes, codes, is_empty,
  from_utf8, length, if◌then◌else◌, and_then, unwrap_or,
}
use vanity_manager.Exec.{ok, Exec, ◌>>=◌, ◌>>◌, pure, Env}
use vanity_manager.Model.{HostMeta, normalize_host}
use vanity_manager.Keys.{
  prefix_host, prefix_pending_ekv, meta_last_snapshot, meta_last_ekv_push, counter_ekv_pushes,
  counter_ekv_errors, counter_pending_drained, k_host,
}
use vanity_manager.Store
use vanity_manager.Store.{Backend, open_from_config}
use vanity_manager.Kv.{get_json, get_host, set_host, read_counter}
use vanity_manager.Ekv.Manifest.{sort_by}
use vanity_manager.Sync.{timestamp, push_host_inline, enqueue_host_push}
use vanity_manager.Admin.{Request, Params, Reply, failure, answer, flag}
use vanity_manager.Admin.Rules.{host_le, effect}
use vanity_manager.Admin.Snapshot.{read_hosts}

-- `u64` addition and subtraction of a release build.
unfoldable pub add_u64 : ℕ → ℕ → ℕ
add_u64 a b = (a + b) % 2 ^ 64

unfoldable pub sub_u64 : ℕ → ℕ → ℕ
sub_u64 a b = (a + 2 ^ 64 - b) % 2 ^ 64

-- The sums over the hosts' metadata.
pub record RuleSums : Type 0 where
  pub total : ℕ
  pub enabled : ℕ
  pub unique_hosts : ℕ

abbrev pub no_sums : RuleSums
no_sums = record { total = 0; enabled = 0; unique_hosts = 0 }

-- One key of a host: it is counted also where nothing is stored any more.
unfoldable pub add_host : Option HostMeta → RuleSums → RuleSums
unfolding add_u64
add_host none s = record s { unique_hosts = s.unique_hosts + 1 }
add_host (some meta) s = record {
  total = add_u64 s.total meta.rule_count;
  enabled = if meta.enabled then add_u64 s.enabled meta.rule_count else s.enabled;
  unique_hosts = s.unique_hosts + 1;
}

pub record Stats : Type 0 where
  pub total_rules : ℕ
  pub enabled : ℕ
  pub disabled : ℕ
  pub unique_hosts : ℕ
  pub pending_ekv_pushes : ℕ
  pub last_snapshot_at : Str
  pub last_ekv_push_at : Str
  pub ekv_pushes_total : ℕ
  pub ekv_errors_total : ℕ
  pub pending_drained_total : ℕ

module _ (e : Env) where
  open e use {World, unicode, serde}

  unfoldable pub list_hosts : Exec World (Reply (List HostMeta))
  list_hosts = do
    b ← open_from_config e
    keys ← Store.keys_with_prefix e b prefix_host
    hosts ← read_hosts e b keys
    pure (answer 200 (sort_by host_le hosts))

  -- The host of the URL, if it is given.
  unfoldable pub host_param : Params → Option Str
  unfolding is_empty
  host_param params =
      and_then (params.get (codes "host"))
        (λ h. if is_empty h then none else some (normalize_host unicode h))

  abbrev kept_count : Option HostMeta → HostMeta → HostMeta
  kept_count none patch = patch
  kept_count (some existing) patch = record patch { rule_count = existing.rule_count }

  -- The count of rules is the stored one, whatever the body says.
  unfoldable pub store_host : Backend → Bool → Str → HostMeta → Exec World (Reply HostMeta)
  store_host b async host patch = do
    existing ← get_host e b (k_host host)
    let patch' = kept_count existing patch
    set_host e b (k_host host) patch'
    effect e (if async then enqueue_host_push e b host else push_host_inline e b host)
    pure (answer 200 patch')

  unfoldable pub update_host : Request → Params → Exec World (Reply HostMeta)
  update_host req params = elim (host_param params) [
    | none ↦ pure (failure 400 (codes "missing host"))
    | some host ↦ elim (serde.host_from_slice req.body) [
      | none ↦ pure (failure 400 (codes "invalid json"))
      | some patch ↦ do
        at ← timestamp e
        b ← open_from_config e
        store_host b (flag req (codes "async")) host
            (record patch { host = host; updated_at = at; ekv_synced_at = [] })
    ]
  ]

  -- The loop over the keys of hosts.
  unfoldable pub sum_hosts : Backend → List Str → RuleSums → Exec World RuleSums
  sum_hosts b [] s = pure s
  sum_hosts b (key ∷ keys) s = do found ← get_host e b key; sum_hosts b keys (add_host found s)

  abbrev pub text_of : Option Bytes → Str
  text_of stored = unwrap_or [] (and_then stored from_utf8)

  abbrev pub count_of : Backend → Str → Exec World ℕ
  count_of b key w = let (n, w') = read_counter e b key w in (ok n, w')

  -- The figures of the answer.
  abbrev pub figures : RuleSums → List Str → Option Bytes → Option Bytes → ℕ → ℕ → ℕ → Stats
  figures sums pending last_snapshot last_ekv_push ekv_pushes ekv_errors drained = record {
    total_rules = sums.total;
    enabled = sums.enabled;
    disabled = sub_u64 sums.total sums.enabled;
    unique_hosts = sums.unique_hosts;
    pending_ekv_pushes = length pending;
    last_snapshot_at = text_of last_snapshot;
    last_ekv_push_at = text_of last_ekv_push;
    ekv_pushes_total = ekv_pushes;
    ekv_errors_total = ekv_errors;
    pending_drained_total = drained;
  }

  -- The statistics, once the hosts have been summed up.
  unfoldable pub stats_of : Backend → RuleSums → Exec World (Reply Stats)
  stats_of b sums = do
    pending ← Store.keys_with_prefix e b prefix_pending_ekv
    last_snapshot ← Store.get e b meta_last_snapshot
    last_ekv_push ← Store.get e b meta_last_ekv_push
    ekv_pushes ← count_of b counter_ekv_pushes
    ekv_errors ← count_of b counter_ekv_errors
    drained ← count_of b counter_pending_drained
    pure (
        answer 200 (figures sums pending last_snapshot last_ekv_push ekv_pushes ekv_errors drained))

  unfoldable pub stats_in : Backend → Exec World (Reply Stats)
  stats_in b = do
    keys ← Store.keys_with_prefix e b prefix_host
    sums ← sum_hosts b keys no_sums
    stats_of b sums

  unfoldable pub stats : Exec World (Reply Stats)
  stats = do b ← open_from_config e; stats_in b

  unfoldable pub read_markers : Backend → List Str → Exec World (List serde.Value)
  read_markers b [] = pure []
  read_markers b (key ∷ keys) = do
    found ← get_json e serde.from_slice b key
    rest ← read_markers b keys
    pure (elim found [ none ↦ rest | some v ↦ v ∷ rest ])

  unfoldable pub list_pending : Exec World (Reply (List serde.Value))
  list_pending = do
    b ← open_from_config e
    keys ← Store.keys_with_prefix e b prefix_pending_ekv
    items ← read_markers b keys
    pure (answer 200 items)
