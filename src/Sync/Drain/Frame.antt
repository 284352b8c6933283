-- ===== src/Sync/Drain/Frame.antt =====
-- What a drain keeps (shared/src/sync.rs, drain_pending): what each single step of the write-through keeps.
use vanity_manager.Prelude.{
  ℕ, Bool, true, false, inl, inr, List, [], ◌∷◌, Str, codes, strip_prefix, if◌then◌else◌,
  Option-cases,
}
use vanity_manager.Exec.{Result, ok, err, Exec, Env, Result-cases}
use vanity_manager.Exec.Keeps.{Keeps, Keeps-pure}
use vanity_manager.Keys.{prefix_pending_ekv}
use vanity_manager.Store.{Backend}
use vanity_manager.Ekv.{EkvConfig, load_config}
use vanity_manager.Ekv.Frame.{delete_host-Keeps}
use vanity_manager.Sync.Frame.{
  IsKept, try_push_rule-Keeps, try_push_host-Keeps, push_manifest-Keeps, try_delete_rule-Keeps,
  bump_keeps, set_last_push_keeps, pushes-Keeps, errors-Keeps,
}
use vanity_manager.Sync.Drain.{
  Groups, Buckets, no_buckets, classify_all, Progress, settle, settle_group, run_all,
  settle_outcomes, drain_concurrent, drain_groups, push_delete, drain_unknown, drain_unconfigured,
  drain_buckets, drain_targets, pending_targets, drain_pending,
}

module _ (e : Env) (b : Backend) {P : e.World → Type 0} (kept : IsKept e b P) where
  open e use {World}

  settle_keeps :
      (t : Str) (r : Result (Unit {0})) (p : Progress e) → P p.world → P (settle e b t r p).world
  unfolding settle
  settle_keeps t (ok _) p h = (pushes-Keeps e b kept).at _ ((kept.unmark_keeps t).at _ h)
  settle_keeps t (err x) p h = bump_keeps e b kept t _ ((errors-Keeps e b kept).at _ h)

  settle_group_keeps :
      (r : Result (Unit {0})) (ts : List Str) (p : Progress e)
      → P p.world
      → P (settle_group e b r ts p).world
  unfolding settle_group
  settle_group_keeps r [] p h = h
  settle_group_keeps r (t ∷ ts) p h =
      settle_group_keeps r ts (settle e b t r p) (settle_keeps t r p h)

  run_all-Keeps :
      (push : Str → Exec World (Unit {0}))
      → ((t : Str) → Keeps P (push t))
      → (ts : List Str) (w : World) → P w
      → P (run_all e push ts w).1
  unfolding run_all
  run_all-Keeps push pushed [] w h = h
  run_all-Keeps push pushed (t ∷ ts) w h =
      run_all-Keeps push pushed ts (push t w).1 ((pushed t).at w h)

  settle_outcomes_keeps :
      (os : List (Str × Result (Unit {0}))) (p : Progress e)
      → P p.world
      → P (settle_outcomes e b os p).world
  unfolding settle_outcomes
  settle_outcomes_keeps [] p h = h
  settle_outcomes_keeps ((t, r) ∷ os) p h =
      settle_outcomes_keeps os (settle e b t r p) (settle_keeps t r p h)

  drain_concurrent-Keeps :
      (push : Str → Exec World (Unit {0}))
      → ((t : Str) → Keeps P (push t))
      → (ts : List Str) (p : Progress e) → P p.world
      → P (drain_concurrent e b push ts p).world
  unfolding drain_concurrent
  drain_concurrent-Keeps push pushed ts p h =
      settle_outcomes_keeps _ _ (run_all-Keeps push pushed ts p.world h)

  drain_groups-Keeps :
      (push : Str → Exec World (Unit {0}))
      → ((t : Str) → Keeps P (push t))
      → (gs : Groups) (p : Progress e) → P p.world
      → P (drain_groups e b push gs p).world
  unfolding drain_groups
  drain_groups-Keeps push pushed [] p h = h
  drain_groups-Keeps push pushed ((host, ts) ∷ gs) p h =
      let (r, w) = push host p.world in
      let q = settle_group e b r ts (record p { world = w }) in
      drain_groups-Keeps push pushed gs q (settle_group_keeps r ts _ ((pushed host).at p.world h))

  push_delete-Keeps : (cfg : EkvConfig) (t : Str) → Keeps P (push_delete e b cfg t)
  unfolding push_delete
  push_delete-Keeps cfg t = elim (Option-cases (strip_prefix (codes "DELETE_RULE:") t)) [
    | inr (rest, of_rule) ↦ rw (of_rule, push_delete) (try_delete_rule-Keeps e b kept cfg rest)
    | inl none_of_rule ↦ elim (Option-cases (strip_prefix (codes "DELETE_HOST:") t)) [
      | inr (host, of_host) ↦
          rw (none_of_rule, of_host, push_delete) (delete_host-Keeps e kept.outside cfg host)
      | inl no_host ↦ rw (none_of_rule, no_host, push_delete) (Keeps-pure tt)
    ]
  ]

  drain_unknown_keeps :
      (ts : List Str) (p : Progress e) → P p.world → P (drain_unknown e b ts p).world
  unfolding drain_unknown
  drain_unknown_keeps [] p h = h
  drain_unknown_keeps (t ∷ ts) p h = drain_unknown_keeps ts _ (bump_keeps e b kept t p.world h)

  drain_unconfigured_keeps : (ts : List Str) (w : World) → P w → P (drain_unconfigured e b ts w)
  unfolding drain_unconfigured
  drain_unconfigured_keeps [] w h = h
  drain_unconfigured_keeps (t ∷ ts) w h =
      drain_unconfigured_keeps ts _ (bump_keeps e b kept t _ ((errors-Keeps e b kept).at w h))

  drain_buckets_keeps :
      (cfg : EkvConfig) (k : Buckets) (w : World) → P w → P (drain_buckets e b cfg k w).world
  unfolding drain_buckets
  drain_buckets_keeps cfg k w h = drain_unknown_keeps _ _ (
      drain_concurrent-Keeps _ (push_delete-Keeps cfg) _ _ (
        drain_groups-Keeps _ (try_push_host-Keeps e b kept cfg) _ _ (
          drain_groups-Keeps _ (push_manifest-Keeps e b kept cfg) _ _
            (drain_concurrent-Keeps _ (try_push_rule-Keeps e b kept cfg) _ _ h))))

  stamped_keeps :
      (c : Bool) (p : Progress e) (w : World)
      → P p.world
      → P w
      → P (if c then record p { world = w } else p).world
  stamped_keeps true p w h k = k
  stamped_keeps false p w h k = h

  drain_targets_keeps : (ts : List Str) (w : World) → P w → P (drain_targets e b ts w).world
  unfolding drain_targets
  drain_targets_keeps ts w h = elim (Result-cases (load_config e)) [
    | inl (cfg, configured) ↦
        let kept_so_far = drain_buckets_keeps cfg (classify_all ts no_buckets) w h in
        rw (configured, drain_targets)
          (stamped_keeps _ _ _ kept_so_far (set_last_push_keeps e b kept _ kept_so_far))
    | inr (x, failed) ↦ rw (failed, drain_targets) (drain_unconfigured_keeps ts w h)
  ]

  pub drain_pending_keeps : (budget : ℕ) (w : World) → P w → P (drain_pending e b budget w).world
  unfolding drain_pending pending_targets
  drain_pending_keeps budget w h =
      drain_targets_keeps _ _ ((kept.keys_keeps prefix_pending_ekv).at w h)
