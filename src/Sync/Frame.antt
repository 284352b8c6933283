-- ===== src/Sync/Frame.antt =====
-- What the write-through keeps (shared/src/sync.rs): beside what a client of EdgeKV does, it only stamps rules
-- and hosts that are stored, sets and deletes markers, and counts.
use vanity_manager.Prelude.{
  pos, List, [], ◌∷◌, Option, none, some, Str, Bytes, inl, inr, true, false,
}
use vanity_manager.Exec.{Result, ok, err, Exec, Env, Result-cases}
use vanity_manager.Exec.Keeps.{Keeps, Keeps-bind, Keeps-then, Keeps-lift, Keeps-pure, keeps_rules}
use vanity_manager.Model.{Redirect, HostMeta, MatchType, exact, prefix}
use vanity_manager.Keys.{
  meta_last_ekv_push, counter_ekv_pushes, counter_ekv_errors, k_pending_ekv, k_host,
  rule_key_prefix,
}
use vanity_manager.Store
use vanity_manager.Store.{Backend}
use vanity_manager.Kv.Frame.{get_json-Keeps, get_rule-Keeps, get_host-Keeps}
use vanity_manager.Kv.{get_json, set_json, incr_counter}
use vanity_manager.Ekv.{EkvConfig, load_config, push_exact, delete_exact}
use vanity_manager.Ekv.Frame.{
  IsOutside, push_host-Keeps, push_exact-Keeps, push_prefixes-Keeps, delete_exact-Keeps,
  delete_host-Keeps,
}
use vanity_manager.Sync.{
  timestamp, read_rules, build_manifest_for_host, push_manifest, restamp_rule, push_found_rule,
  push_if_found, try_push_rule, restamp_host, push_found_host, try_push_host, delete_parsed,
  try_delete_rule, queue, queued_at_or_now, bump, set_last_push, record_outcome, write_through,
  push_rule_inline, push_host_inline, push_delete_rule_inline,
}

-- A property of worlds that each single step of the write-through keeps.
pub record IsKept (e : Env) (b : Backend) (P : e.World → Type 0) : Type 0 where
  pub outside : IsOutside e P
  pub get_keeps : (k : Str) → Keeps P (Store.get e b k)
  pub keys_keeps : (p : Str) → Keeps P (Store.keys_with_prefix e b p)
  pub pushes_keeps : Keeps P (Store.incr e b counter_ekv_pushes (pos 1))
  pub errors_keeps : Keeps P (Store.incr e b counter_ekv_errors (pos 1))
  pub mark_keeps : (t : Str) (v : Bytes) → Keeps P (Store.set e b (k_pending_ekv t) v)
  pub unmark_keeps : (t : Str) → Keeps P (Store.delete e b (k_pending_ekv t))
  pub last_push_keeps : (v : Bytes) → Keeps P (Store.set e b meta_last_ekv_push v)
  pub restamp_rule_keeps : (key : Str) → Keeps P (restamp_rule e b key)
  pub restamp_host_keeps : (host : Str) → Keeps P (restamp_host e b host)

module _ (e : Env) (b : Backend) {P : e.World → Type 0} (kept : IsKept e b P) where
  open e use {World, serde}

  pub timestamp-Keeps : Keeps P (timestamp e)
  timestamp-Keeps = record { at = λ w h. kept.outside.now_keeps w h }

  read_rules-Keeps : (keys : List Str) → Keeps P (read_rules e b keys)
  unfolding read_rules
  read_rules-Keeps [] = search keeps_rules
  read_rules-Keeps (key ∷ keys) =
      Keeps-bind _ _ (get_rule-Keeps e b kept.get_keeps key)
        (λ found. Keeps-bind _ _ (read_rules-Keeps keys) (λ rest. Keeps-pure _))

  pub push_manifest-Keeps : (cfg : EkvConfig) (host : Str) → Keeps P (push_manifest e b cfg host)
  unfolding push_manifest build_manifest_for_host
  push_manifest-Keeps cfg host =
      Keeps-bind _ _
        (Keeps-bind _ _ (kept.keys_keeps (rule_key_prefix host))
          (λ keys. Keeps-bind _ _ (read_rules-Keeps keys) (λ rules. Keeps-pure _)))
        (λ manifest. push_prefixes-Keeps e kept.outside cfg host manifest)

  push_found_rule-Keeps :
      (cfg : EkvConfig) (host : Str) (mt : MatchType) (rule : Redirect)
      → Keeps P (push_found_rule e b cfg host mt rule)
  unfolding push_found_rule
  push_found_rule-Keeps cfg host prefix rule = push_manifest-Keeps cfg host
  push_found_rule-Keeps cfg host exact rule =
      elim rule.enabled
        as (λ c. Keeps P (elim c [
          | true ↦ push_exact e cfg rule
          | false ↦ delete_exact e cfg rule.host rule.path
        ])) [
          | true ↦ push_exact-Keeps e kept.outside cfg rule
          | false ↦ delete_exact-Keeps e kept.outside cfg rule.host rule.path
        ]

  push_if_found-Keeps :
      (cfg : EkvConfig) (key host : Str) (mt : MatchType) (found : Option Redirect)
      → Keeps P (push_if_found e b cfg key host mt found)
  unfolding push_if_found
  push_if_found-Keeps cfg key host mt none = Keeps-pure tt
  push_if_found-Keeps cfg key host mt (some rule) =
      Keeps-then _ _ (push_found_rule-Keeps cfg host mt rule) (kept.restamp_rule_keeps key)

  pub try_push_rule-Keeps : (cfg : EkvConfig) (key : Str) → Keeps P (try_push_rule e b cfg key)
  unfolding try_push_rule
  try_push_rule-Keeps cfg key = Keeps-bind _ _ (Keeps-lift _) (λ parts.
      Keeps-bind _ _ (get_rule-Keeps e b kept.get_keeps key)
        (push_if_found-Keeps cfg key parts.0 parts.1))

  push_found_host-Keeps :
      (cfg : EkvConfig) (host : Str) (found : Option HostMeta)
      → Keeps P (push_found_host e b cfg host found)
  unfolding push_found_host
  push_found_host-Keeps cfg host none = delete_host-Keeps e kept.outside cfg host
  push_found_host-Keeps cfg host (some meta) =
      Keeps-then _ _ (push_host-Keeps e kept.outside cfg meta) (kept.restamp_host_keeps host)

  pub try_push_host-Keeps : (cfg : EkvConfig) (host : Str) → Keeps P (try_push_host e b cfg host)
  unfolding try_push_host
  try_push_host-Keeps cfg host =
      Keeps-bind _ _ (get_host-Keeps e b kept.get_keeps (k_host host))
        (push_found_host-Keeps cfg host)

  delete_parsed-Keeps :
      (cfg : EkvConfig) (host : Str) (mt : MatchType) (path : Str)
      → Keeps P (delete_parsed e b cfg host mt path)
  unfolding delete_parsed
  delete_parsed-Keeps cfg host exact path = delete_exact-Keeps e kept.outside cfg host path
  delete_parsed-Keeps cfg host prefix path = push_manifest-Keeps cfg host

  pub try_delete_rule-Keeps : (cfg : EkvConfig) (key : Str) → Keeps P (try_delete_rule e b cfg key)
  unfolding try_delete_rule
  try_delete_rule-Keeps cfg key =
      Keeps-bind {A = Str × MatchType × Str} _ _ (Keeps-lift _)
        (λ parts. delete_parsed-Keeps cfg parts.0 parts.1 parts.2)

  pub queue_keeps : (t : Str) (w : World) → P w → P (queue e b t w)
  unfolding queue set_json
  queue_keeps t w h = (kept.mark_keeps t _).at _ (kept.outside.now_keeps w h)

  queued_at_keeps : (o : Option serde.Value) (w : World) → P w → P (queued_at_or_now e o w).1
  queued_at_keeps (some v) w h = h
  queued_at_keeps none w h = kept.outside.now_keeps w h

  pub bump_keeps : (t : Str) (w : World) → P w → P (bump e b t w)
  unfolding bump set_json
  bump_keeps t w h =
      let (r, w₁) = get_json e serde.from_slice b (k_pending_ekv t) w in
      (kept.mark_keeps t _).at _ (
        kept.outside.now_keeps _ (
          queued_at_keeps _ w₁
            ((get_json-Keeps e b kept.get_keeps serde.from_slice (k_pending_ekv t)).at w h)))

  pub set_last_push_keeps : (w : World) → P w → P (set_last_push e b w)
  unfolding set_last_push
  set_last_push_keeps w h = (kept.last_push_keeps _).at _ (kept.outside.now_keeps w h)

  pub pushes-Keeps : Keeps P (incr_counter e b counter_ekv_pushes)
  unfolding incr_counter
  pushes-Keeps = Keeps-bind _ _ kept.pushes_keeps (λ n. Keeps-pure _)

  pub errors-Keeps : Keeps P (incr_counter e b counter_ekv_errors)
  unfolding incr_counter
  errors-Keeps = Keeps-bind _ _ kept.errors_keeps (λ n. Keeps-pure _)

  record_outcome_keeps :
      (t : Str) (r : Result (Unit {0})) (w : World) → P w → P (record_outcome e b t r w)
  unfolding record_outcome
  record_outcome_keeps t (ok _) w h =
      set_last_push_keeps _ ((kept.unmark_keeps t).at _ (pushes-Keeps.at w h))
  record_outcome_keeps t (err x) w h = bump_keeps t _ (errors-Keeps.at w h)

  write_through-Keeps :
      (t : Str) (push : EkvConfig → Exec World (Unit {0}))
      → ((cfg : EkvConfig) → Keeps P (push cfg))
      → (w : World) → P w
      → P (write_through e b t push w)
  unfolding write_through
  write_through-Keeps t push pushed w h = elim (Result-cases (load_config e)) [
    | inl (cfg, configured) ↦
        rw (configured, write_through) (record_outcome_keeps t _ _ ((pushed cfg).at w h))
    | inr (x, failed) ↦ rw (failed, write_through) (queue_keeps t w h)
  ]

  pub push_rule_inline_keeps : (key : Str) (w : World) → P w → P (push_rule_inline e b key w)
  unfolding push_rule_inline
  push_rule_inline_keeps key = write_through-Keeps key _ (λ cfg. try_push_rule-Keeps cfg key)

  pub push_host_inline_keeps : (host : Str) (w : World) → P w → P (push_host_inline e b host w)
  unfolding push_host_inline
  push_host_inline_keeps host = write_through-Keeps _ _ (λ cfg. try_push_host-Keeps cfg host)

  pub push_delete_rule_inline_keeps :
      (key : Str) (w : World) → P w → P (push_delete_rule_inline e b key w)
  unfolding push_delete_rule_inline
  push_delete_rule_inline_keeps key = write_through-Keeps _ _ (λ cfg. try_delete_rule-Keeps cfg key)
