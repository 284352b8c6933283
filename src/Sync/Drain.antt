-- ===== src/Sync/Drain.antt =====
-- `drain_pending` of shared/src/sync.rs, and the reconcile worker that calls it
-- (reconcile-worker/src/lib.rs). The futures of `join_all` run here one after another, all of them
-- before the first outcome is settled.
pub mod Counts
pub mod Frame
pub mod Rules
use vanity_manager.Prelude.{
  ℕ, zero, suc, ◌+◌, Bool, true, false, ◌||◌, Option, none, some, List, [], ◌∷◌, ◌++◌, Str, codes,
  str_eq, str_le, starts_with, strip_prefix, length, take, ltb, if◌then◌else◌,
}
use mathlib.Core.List.{filter_map}
use vanity_manager.Exec.{Result, ok, err, Exec, ◌>>=◌, ◌>>◌, pure, Env}
use vanity_manager.Model.{exact, prefix}
use vanity_manager.Keys.{
  prefix_pending_ekv, counter_ekv_pushes, counter_ekv_errors, parse_rule_key, k_pending_ekv,
}
use vanity_manager.Store
use vanity_manager.Store.{Backend, open_from_config}
use vanity_manager.Kv.{incr_counter}
use vanity_manager.Ekv.{EkvConfig, load_config, delete_host}
use vanity_manager.Sync.{
  try_push_rule, try_push_host, try_delete_rule, push_manifest, bump, set_last_push,
}

-- `BTreeMap<String, Vec<String>>`: in the order of its keys.
abbrev pub Groups : Type 0
Groups = List (Str × List Str)

-- `map.entry(host).or_default().push(target)`
unfoldable pub push_entry : Str → Str → Groups → Groups
push_entry host target [] = (host, target ∷ []) ∷ []
push_entry host target ((h, targets) ∷ groups) =
    if str_eq host h
    then (h, targets ++ target ∷ []) ∷ groups
    else if str_le host h
    then (host, target ∷ []) ∷ (h, targets) ∷ groups
    else (h, targets) ∷ push_entry host target groups

pub record Buckets : Type 0 where
  pub exact_targets : List Str
  pub prefix_hosts : Groups
  pub host_meta_targets : Groups
  pub delete_targets : List Str
  pub unknown : List Str

abbrev pub no_buckets : Buckets
no_buckets = record {
  exact_targets = [];
  prefix_hosts = [];
  host_meta_targets = [];
  delete_targets = [];
  unknown = [];
}

-- One round of the loop that groups the markers.
unfoldable pub classify : Str → Buckets → Buckets
classify target k =
    if starts_with (codes "DELETE_RULE:") target || starts_with (codes "DELETE_HOST:") target
    then record k { delete_targets = k.delete_targets ++ target ∷ [] }
    else elim (strip_prefix (codes "host:") target) [
      | some host ↦ record k { host_meta_targets = push_entry host target k.host_meta_targets }
      | none ↦
          if starts_with (codes "rule:") target
          then elim (parse_rule_key target) [
            | some (host, exact, path) ↦ record k { exact_targets = k.exact_targets ++ target ∷ [] }
            | some (host, prefix, path) ↦ record k {
              prefix_hosts = push_entry host target k.prefix_hosts;
            }
            | none ↦ record k { unknown = k.unknown ++ target ∷ [] }
          ]
          else record k { unknown = k.unknown ++ target ∷ [] }
    ]

unfoldable pub classify_all : List Str → Buckets → Buckets
classify_all [] k = k
classify_all (t ∷ ts) k = classify_all ts (classify t k)

-- `filter_map(|k| k.strip_prefix(PREFIX_PENDING_EKV))`
unfoldable pub marker_targets : List Str → List Str
unfolding strip_prefix
marker_targets [] = []
marker_targets (k ∷ ks) =
    let rest = marker_targets ks in
    elim (strip_prefix prefix_pending_ekv k) [ none ↦ rest | some t ↦ t ∷ rest ]

module _ (e : Env) where
  open e use {World}

  -- The counts and the world while markers are settled.
  pub record Progress : Type 0 where
    pub drained : ℕ
    pub errors : ℕ
    pub world : World

  -- The targets of this call, from the keys with the prefix; a failed listing counts as empty.
  unfoldable pub pending_targets : Backend → ℕ → World → List Str × World
  unfolding marker_targets
  pending_targets b budget w =
      let (r, w') = Store.keys_with_prefix e b prefix_pending_ekv w in
      (take budget (marker_targets (elim r [ ok keys ↦ keys | err _ ↦ [] ])), w')

  unfoldable pub settle : Backend → Str → Result (Unit {0}) → Progress → Progress
  settle b target (ok _) p = record p {
    drained = p.drained + 1;
    world =
        (incr_counter e b counter_ekv_pushes (Store.delete e b (k_pending_ekv target) p.world).1).1;
  }
  settle b target (err _) p = record p {
    errors = p.errors + 1;
    world = bump e b target (incr_counter e b counter_ekv_errors p.world).1;
  }

  -- One outcome for all the targets of a host.
  unfoldable pub settle_group : Backend → Result (Unit {0}) → List Str → Progress → Progress
  settle_group b outcome [] p = p
  settle_group b outcome (t ∷ ts) p = settle_group b outcome ts (settle b t outcome p)

  -- `join_all` over the targets.
  unfoldable pub run_all :
      (Str → Exec World (Unit {0})) → List Str → World → List (Str × Result (Unit {0})) × World
  run_all push [] w = ([], w)
  run_all push (t ∷ ts) w =
      let (outcome, w') = push t w in
      let (rest, w'') = run_all push ts w' in ((t, outcome) ∷ rest, w'')

  unfoldable pub settle_outcomes : Backend → List (Str × Result (Unit {0})) → Progress → Progress
  settle_outcomes b [] p = p
  settle_outcomes b ((t, outcome) ∷ rest) p = settle_outcomes b rest (settle b t outcome p)

  unfoldable pub drain_concurrent :
      Backend → (Str → Exec World (Unit {0})) → List Str → Progress → Progress
  drain_concurrent b push targets p =
      let (outcomes, w) = run_all push targets p.world in
      settle_outcomes b outcomes (record p { world = w })

  -- One push for each host, whose outcome settles all of its targets.
  unfoldable pub drain_groups :
      Backend → (Str → Exec World (Unit {0})) → Groups → Progress → Progress
  drain_groups b push [] p = p
  drain_groups b push ((host, targets) ∷ groups) p =
      let (outcome, w) = push host p.world in
      drain_groups b push groups (settle_group b outcome targets (record p { world = w }))

  unfoldable pub push_delete : Backend → EkvConfig → Str → Exec World (Unit {0})
  unfolding strip_prefix
  push_delete b cfg t = elim (strip_prefix (codes "DELETE_RULE:") t) [
    | some rest ↦ try_delete_rule e b cfg rest
    | none ↦ elim (strip_prefix (codes "DELETE_HOST:") t) [
      | some host ↦ delete_host e cfg host
      | none ↦ pure tt
    ]
  ]

  -- A target that fits no schema is only marked once more.
  unfoldable pub drain_unknown : Backend → List Str → Progress → Progress
  drain_unknown b [] p = p
  drain_unknown b (t ∷ ts) p =
      drain_unknown b ts (record p { errors = p.errors + 1; world = bump e b t p.world })

  -- Without a configuration every target fails.
  unfoldable pub drain_unconfigured : Backend → List Str → World → World
  drain_unconfigured b [] w = w
  drain_unconfigured b (t ∷ ts) w =
      drain_unconfigured b ts (bump e b t (incr_counter e b counter_ekv_errors w).1)

  unfoldable pub drain_buckets : Backend → EkvConfig → Buckets → World → Progress
  drain_buckets b cfg k w =
      let p₀ : Progress = record { drained = 0; errors = 0; world = w } in
      let p₁ = drain_concurrent b (try_push_rule e b cfg) k.exact_targets p₀ in
      let p₂ = drain_groups b (push_manifest e b cfg) k.prefix_hosts p₁ in
      let p₃ = drain_groups b (try_push_host e b cfg) k.host_meta_targets p₂ in
      let p₄ = drain_concurrent b (push_delete b cfg) k.delete_targets p₃ in
      drain_unknown b k.unknown p₄

  unfoldable pub drain_targets : Backend → List Str → World → Progress
  drain_targets b targets w = elim (load_config e) [
    | err _ ↦ record {
      drained = 0;
      errors = length targets;
      world = drain_unconfigured b targets w;
    }
    | ok cfg ↦
        let p = drain_buckets b cfg (classify_all targets no_buckets) w in
        if ltb 0 p.drained then record p { world = set_last_push e b p.world } else p
  ]

  unfoldable pub drain_pending : Backend → ℕ → World → Progress
  drain_pending b budget w =
      let (targets, w') = pending_targets b budget w in drain_targets b targets w'

  -- The reconcile worker: what a request of `/_reconcile/drain` reports.
  unfoldable pub reconcile : Exec World (ℕ × ℕ × ℕ)
  reconcile = do
    b ← open_from_config e
    λ w. let p = drain_pending b 25 w in (ok (p.drained, p.errors, 25), p.world)
