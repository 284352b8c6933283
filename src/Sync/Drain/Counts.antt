-- ===== src/Sync/Drain/Counts.antt =====
-- Every target of a drain is counted once (shared/src/sync.rs).
use vanity_manager.Prelude.{
  ℕ, suc, ◌+◌, ◌≤◌, ◌≡◌, refl, ◌∙◌, Bool, true, false, List, [], ◌∷◌, arith, Str, length,
  length-append, length-take-le, if◌then◌else◌, inl, inr, ltb,
}
use vanity_manager.Exec.{Result, ok, err, Exec, Env, Result-cases}
use vanity_manager.Store.{Backend}
use vanity_manager.Ekv.{EkvConfig, load_config}
use vanity_manager.Sync.{try_push_rule, try_push_host, push_manifest, bump, set_last_push}
use vanity_manager.Sync.Drain.{
  Groups, push_entry, Buckets, no_buckets, classify, classify_all, Progress, settle, settle_group,
  run_all, settle_outcomes, drain_concurrent, drain_groups, drain_unknown, drain_buckets,
  drain_targets, push_delete, pending_targets, drain_pending,
}

abbrev group_size : Groups → ℕ
group_size [] = 0
group_size ((_, targets) ∷ groups) = length targets + group_size groups

group_size-push_entry :
    (host target : Str) (groups : Groups)
    → group_size (push_entry host target groups) ≡ suc (group_size groups)
unfolding push_entry
group_size-push_entry host target [] = refl
group_size-push_entry host target ((h, targets) ∷ groups) =
    ground (arith, length-append targets (target ∷ []), group_size-push_entry host target groups)

abbrev size : Buckets → ℕ
size k =
    length k.exact_targets
    + group_size k.prefix_hosts
    + group_size k.host_meta_targets
    + length k.delete_targets
    + length k.unknown

size-classify : (t : Str) (k : Buckets) → size (classify t k) ≡ suc (size k)
unfolding classify
size-classify t k = grind (
  arith,
  length-append k.exact_targets (t ∷ []),
  length-append k.delete_targets (t ∷ []),
  length-append k.unknown (t ∷ []),
  group_size-push_entry,
)

size-classify_all : (ts : List Str) (k : Buckets) → size (classify_all ts k) ≡ length ts + size k
unfolding classify_all
size-classify_all [] k = omega arith
size-classify_all (t ∷ ts) k = omega (arith, size-classify_all ts (classify t k), size-classify t k)

module _ (e : Env) where
  open e use {World}

  abbrev total : Progress e → ℕ
  total p = p.drained + p.errors

  total-settle :
      (b : Backend) (t : Str) (r : Result (Unit {0})) (p : Progress e)
      → total (settle e b t r p) ≡ suc (total p)
  unfolding settle
  total-settle b t (ok _) p = omega arith
  total-settle b t (err _) p = omega arith

  total-settle_group :
      (b : Backend) (r : Result (Unit {0})) (ts : List Str) (p : Progress e)
      → total (settle_group e b r ts p) ≡ length ts + total p
  unfolding settle_group
  total-settle_group b r [] p = omega arith
  total-settle_group b r (t ∷ ts) p =
      omega (arith, total-settle_group b r ts (settle e b t r p), total-settle b t r p)

  length-run_all :
      (push : Str → Exec World (Unit {0})) (ts : List Str) (w : World)
      → length (run_all e push ts w).0 ≡ length ts
  unfolding run_all
  length-run_all push [] w = refl
  length-run_all push (t ∷ ts) w = omega (arith, length-run_all push ts (push t w).1)

  total-settle_outcomes :
      (b : Backend) (os : List (Str × Result (Unit {0}))) (p : Progress e)
      → total (settle_outcomes e b os p) ≡ length os + total p
  unfolding settle_outcomes
  total-settle_outcomes b [] p = omega arith
  total-settle_outcomes b ((t, r) ∷ os) p =
      omega (arith, total-settle_outcomes b os (settle e b t r p), total-settle b t r p)

  total-drain_concurrent :
      (b : Backend) (push : Str → Exec World (Unit {0})) (ts : List Str) (p : Progress e)
      → total (drain_concurrent e b push ts p) ≡ length ts + total p
  unfolding drain_concurrent
  total-drain_concurrent b push ts p =
      let (os, w) = run_all e push ts p.world in
      omega
        (arith, total-settle_outcomes b os (record p { world = w }), length-run_all push ts p.world)

  total-drain_groups :
      (b : Backend) (push : Str → Exec World (Unit {0})) (gs : Groups) (p : Progress e)
      → total (drain_groups e b push gs p) ≡ group_size gs + total p
  unfolding drain_groups
  total-drain_groups b push [] p = omega arith
  total-drain_groups b push ((h, ts) ∷ gs) p =
      let (r, w) = push h p.world in
      let q = settle_group e b r ts (record p { world = w }) in
      omega
        (arith, total-drain_groups b push gs q, total-settle_group b r ts (record p { world = w }))

  total-drain_unknown :
      (b : Backend) (ts : List Str) (p : Progress e)
      → total (drain_unknown e b ts p) ≡ length ts + total p
  unfolding drain_unknown
  total-drain_unknown b [] p = omega arith
  total-drain_unknown b (t ∷ ts) p = omega (
    arith,
    total-drain_unknown b ts (record p { errors = p.errors + 1; world = bump e b t p.world }),
  )

  total-drain_buckets :
      (b : Backend) (cfg : EkvConfig) (k : Buckets) (w : World)
      → total (drain_buckets e b cfg k w) ≡ size k
  unfolding drain_buckets
  total-drain_buckets b cfg k w =
      let p₀ : Progress e = record { drained = 0; errors = 0; world = w } in
      let p₁ = drain_concurrent e b (try_push_rule e b cfg) k.exact_targets p₀ in
      let p₂ = drain_groups e b (push_manifest e b cfg) k.prefix_hosts p₁ in
      let p₃ = drain_groups e b (try_push_host e b cfg) k.host_meta_targets p₂ in
      let p₄ = drain_concurrent e b (push_delete e b cfg) k.delete_targets p₃ in
      omega (
        arith,
        total-drain_concurrent b (try_push_rule e b cfg) k.exact_targets p₀,
        total-drain_groups b (push_manifest e b cfg) k.prefix_hosts p₁,
        total-drain_groups b (try_push_host e b cfg) k.host_meta_targets p₂,
        total-drain_concurrent b (push_delete e b cfg) k.delete_targets p₃,
        total-drain_unknown b k.unknown p₄,
      )

  -- Setting the time of the last push changes no count.
  total-stamped :
      (c : Bool) (p : Progress e) (w : World)
      → total (if c then record p { world = w } else p) ≡ total p
  total-stamped true p w = refl
  total-stamped false p w = refl

  -- Whatever the store and EdgeKV answer, the targets that a drain counts as drained and those that it
  -- counts as errors are together the targets that it was given.
  pub drain_targets_total :
      (b : Backend) (targets : List Str) (w : World)
      → (drain_targets e b targets w).drained + (drain_targets e b targets w).errors
        ≡ length targets
  unfolding drain_targets
  drain_targets_total b targets w = elim (Result-cases (load_config e)) [
    | inl (cfg, configured) ↦
        rw (configured, drain_targets)
          (let k = classify_all targets no_buckets in
            let p = drain_buckets e b cfg k w in
            total-stamped (ltb 0 p.drained) p (set_last_push e b p.world)
            ∙ (total-drain_buckets b cfg k w ∙ omega (arith, size-classify_all targets no_buckets)))
    | inr (x, failed) ↦ rw (failed, drain_targets) (omega arith)
  ]

  length-pending_targets :
      (b : Backend) (budget : ℕ) (w : World) → length (pending_targets e b budget w).0 ≤ budget
  unfolding pending_targets
  length-pending_targets b budget w = length-take-le budget _

  -- Whatever the store and EdgeKV answer, the markers that a call of the drain counts as drained or as
  -- errors are as many as those that it took up, and no more than its budget.
  pub drain_pending_counts :
      (b : Backend) (budget : ℕ) (w : World)
      → ((drain_pending e b budget w).drained + (drain_pending e b budget w).errors
          ≡ length (pending_targets e b budget w).0)
        × ((drain_pending e b budget w).drained + (drain_pending e b budget w).errors ≤ budget)
  unfolding drain_pending
  drain_pending_counts b budget w =
      let (targets, w') = pending_targets e b budget w in
      let counted = drain_targets_total b targets w' in
      (counted, omega (arith, counted, length-pending_targets b budget w))
