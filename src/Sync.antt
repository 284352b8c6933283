-- ===== src/Sync.antt =====
-- shared/src/sync.rs: write-through of rules and hosts to EdgeKV, and the pending markers that stand
-- for a push to repeat. A function that returns nothing and reports no error is a map of worlds.
pub mod Drain
pub mod Frame
pub mod Rules
pub mod Markers
use vanity_manager.Prelude.{
  ℕ, ◌+◌, ◌%◌, ◌^◌, Bool, true, false, Option, none, some, List, [], ◌∷◌, ◌++◌, Str, Bytes, codes,
  as_bytes, unwrap_or, and_then,
}
use vanity_manager.Exec.{
  Result, ok, err, Error, bad_rule_key, Exec, ◌>>=◌, ◌>>◌, pure, lift, ignore, ok_or, ok_flatten,
  Env,
}
use vanity_manager.Model.{Redirect, HostMeta, EkvPrefixEntry, MatchType, exact, prefix}
use vanity_manager.Keys.{
  prefix_pending_ekv, meta_last_ekv_push, counter_ekv_pushes, counter_ekv_errors, rule_key_prefix,
  parse_rule_key, k_host, k_pending_ekv,
}
use vanity_manager.Store
use vanity_manager.Store.{Backend}
use vanity_manager.Kv.{get_json, set_json, get_rule, set_rule, get_host, set_host, incr_counter}
use vanity_manager.Ekv
use vanity_manager.Ekv.{
  EkvConfig, load_config, push_host, push_exact, push_prefixes, delete_exact, delete_host,
}
use vanity_manager.Ekv.Manifest.{build_prefix_manifest}

module _ (e : Env) where
  open e use {World, serde, now, to_rfc3339}

  -- `chrono::Utc::now().to_rfc3339()`
  abbrev pub timestamp : Exec World Str
  timestamp w = let (t, w') = now w in (ok (to_rfc3339 t), w')

  -- The loop over the keys of a host: a key that holds nothing is passed over.
  unfoldable pub read_rules : Backend → List Str → Exec World (List Redirect)
  read_rules b [] = pure []
  read_rules b (key ∷ keys) = do
    found ← get_rule e b key
    rest ← read_rules b keys
    pure (elim found [ none ↦ rest | some r ↦ r ∷ rest ])

  unfoldable pub build_manifest_for_host : Backend → Str → Exec World (List EkvPrefixEntry)
  unfolding read_rules
  build_manifest_for_host b host = do
    keys ← Store.keys_with_prefix e b (rule_key_prefix host)
    rules ← read_rules b keys
    pure (build_prefix_manifest rules)

  unfoldable pub push_manifest : Backend → EkvConfig → Str → Exec World (Unit {0})
  push_manifest b cfg host = do
    manifest ← build_manifest_for_host b host
    push_prefixes e cfg host manifest

  -- Sets `ekv_synced_at` of the rule that is stored by now, if there is one.
  unfoldable pub stamp_rule : Backend → Str → Option Redirect → Exec World (Unit {0})
  stamp_rule b rule_key none = pure tt
  stamp_rule b rule_key (some r) = do
    at ← timestamp
    set_rule e b rule_key (record r { ekv_synced_at = at })

  unfoldable pub restamp_rule : Backend → Str → Exec World (Unit {0})
  unfolding stamp_rule
  restamp_rule b rule_key = do stored ← get_rule e b rule_key; stamp_rule b rule_key stored

  unfoldable pub push_found_rule :
      Backend → EkvConfig → Str → MatchType → Redirect → Exec World (Unit {0})
  push_found_rule b cfg host exact rule = elim rule.enabled [
    | true ↦ push_exact e cfg rule
    | false ↦ delete_exact e cfg rule.host rule.path
  ]
  push_found_rule b cfg host prefix rule = push_manifest b cfg host

  -- A rule that was deleted since its push was queued counts as pushed.
  unfoldable pub push_if_found :
      Backend → EkvConfig → Str → Str → MatchType → Option Redirect → Exec World (Unit {0})
  unfolding push_found_rule restamp_rule
  push_if_found b cfg rule_key host mt none = pure tt
  push_if_found b cfg rule_key host mt (some rule) = do
    push_found_rule b cfg host mt rule
    restamp_rule b rule_key

  unfoldable pub try_push_rule : Backend → EkvConfig → Str → Exec World (Unit {0})
  unfolding push_if_found
  try_push_rule b cfg rule_key = do
    (host, mt, path) ← lift (ok_or (parse_rule_key rule_key) (bad_rule_key rule_key))
    found ← get_rule e b rule_key
    push_if_found b cfg rule_key host mt found

  unfoldable pub stamp_host : Backend → Str → Option HostMeta → Exec World (Unit {0})
  stamp_host b host none = pure tt
  stamp_host b host (some m) = do
    at ← timestamp
    set_host e b (k_host host) (record m { ekv_synced_at = at })

  unfoldable pub restamp_host : Backend → Str → Exec World (Unit {0})
  unfolding stamp_host
  restamp_host b host = do stored ← get_host e b (k_host host); stamp_host b host stored

  unfoldable pub push_found_host :
      Backend → EkvConfig → Str → Option HostMeta → Exec World (Unit {0})
  unfolding restamp_host
  push_found_host b cfg host none = delete_host e cfg host
  push_found_host b cfg host (some meta) = do push_host e cfg meta; restamp_host b host

  unfoldable pub try_push_host : Backend → EkvConfig → Str → Exec World (Unit {0})
  unfolding push_found_host
  try_push_host b cfg host = do found ← get_host e b (k_host host); push_found_host b cfg host found

  unfoldable pub delete_parsed : Backend → EkvConfig → Str → MatchType → Str → Exec World (Unit {0})
  delete_parsed b cfg host exact path = delete_exact e cfg host path
  delete_parsed b cfg host prefix path = push_manifest b cfg host

  unfoldable pub try_delete_rule : Backend → EkvConfig → Str → Exec World (Unit {0})
  unfolding delete_parsed
  try_delete_rule b cfg rule_key = do
    (host, mt, path) ← lift (ok_or (parse_rule_key rule_key) (bad_rule_key rule_key))
    delete_parsed b cfg host mt path

  -- A failed write of a marker is ignored.
  unfoldable pub queue : Backend → Str → World → World
  queue b target w =
      let (t, w') = now w in
      let payload = serde.object (
        (codes "queued_at", serde.string (to_rfc3339 t))
        ∷ (codes "target", serde.string target)
        ∷ (codes "attempts", serde.number 0)
        ∷ []) in
      (set_json e serde.to_vec b (k_pending_ekv target) payload w').1

  -- The attempts of a marker that may be unreadable or not there; one more wraps around as a `u64`.
  abbrev pub attempts_of : Option serde.Value → ℕ
  attempts_of existing =
      unwrap_or 0
        (and_then (and_then existing (λ v. serde.field v (codes "attempts"))) serde.as_u64)

  -- The time that the marker has, else the present one.
  abbrev pub queued_at_or_now : Option serde.Value → World → serde.Value × World
  queued_at_or_now (some v) w = (v, w)
  queued_at_or_now none w = let (t, w') = now w in (serde.string (to_rfc3339 t), w')

  abbrev pub queued_at_of : Option serde.Value → World → serde.Value × World
  queued_at_of existing =
      queued_at_or_now (and_then existing (λ v. serde.field v (codes "queued_at")))

  unfoldable pub bump : Backend → Str → World → World
  bump b target w =
      let key = k_pending_ekv target in
      let (r, w₁) = get_json e serde.from_slice b key w in
      let existing = ok_flatten r in
      let (queued_at, w₂) = queued_at_of existing w₁ in
      let (t, w₃) = now w₂ in
      let payload = serde.object (
        (codes "queued_at", queued_at)
        ∷ (codes "target", serde.string target)
        ∷ (codes "attempts", serde.number ((attempts_of existing + 1) % 2 ^ 64))
        ∷ (codes "last_error_at", serde.string (to_rfc3339 t))
        ∷ []) in
      (set_json e serde.to_vec b key payload w₃).1

  unfoldable pub set_last_push : Backend → World → World
  set_last_push b w =
      let (t, w') = now w in (Store.set e b meta_last_ekv_push (as_bytes (to_rfc3339 t)) w').1

  -- `record`
  unfoldable pub record_outcome : Backend → Str → Result (Unit {0}) → World → World
  unfolding bump set_last_push
  record_outcome b target (ok _) w =
      let w₁ = (incr_counter e b counter_ekv_pushes w).1 in
      let w₂ = (Store.delete e b (k_pending_ekv target) w₁).1 in set_last_push b w₂
  record_outcome b target (err _) w = bump b target (incr_counter e b counter_ekv_errors w).1

  -- The push with its outcome recorded, or a marker where there is no configuration.
  unfoldable pub write_through : Backend → Str → (EkvConfig → Exec World (Unit {0})) → World → World
  write_through b target push w = elim (load_config e) [
    | err _ ↦ queue b target w
    | ok cfg ↦ let (outcome, w') = push cfg w in record_outcome b target outcome w'
  ]

  abbrev pub host_target : Str → Str
  host_target host = codes "host:" ++ host

  abbrev pub delete_rule_target : Str → Str
  delete_rule_target rule_key = codes "DELETE_RULE:" ++ rule_key

  abbrev pub delete_host_target : Str → Str
  delete_host_target host = codes "DELETE_HOST:" ++ host

  unfoldable pub push_rule_inline : Backend → Str → World → World
  unfolding write_through
  push_rule_inline b rule_key = write_through b rule_key (λ cfg. try_push_rule b cfg rule_key)

  unfoldable pub push_host_inline : Backend → Str → World → World
  unfolding write_through
  push_host_inline b host = write_through b (host_target host) (λ cfg. try_push_host b cfg host)

  unfoldable pub push_delete_rule_inline : Backend → Str → World → World
  unfolding write_through
  push_delete_rule_inline b rule_key =
      write_through b (delete_rule_target rule_key) (λ cfg. try_delete_rule b cfg rule_key)

  unfoldable pub push_delete_host_inline : Backend → Str → World → World
  unfolding write_through
  push_delete_host_inline b host =
      write_through b (delete_host_target host) (λ cfg. delete_host e cfg host)

  unfoldable pub enqueue_rule_push : Backend → Str → World → World
  unfolding queue
  enqueue_rule_push b rule_key = queue b rule_key

  unfoldable pub enqueue_host_push : Backend → Str → World → World
  unfolding queue
  enqueue_host_push b host = queue b (host_target host)

  unfoldable pub enqueue_rule_delete : Backend → Str → World → World
  unfolding queue
  enqueue_rule_delete b rule_key = queue b (delete_rule_target rule_key)
