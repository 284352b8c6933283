-- ===== src/Sync/Markers.antt =====
-- No push gets lost: what a write-through leaves of the marker of its target (shared/src/sync.rs).
use vanity_manager.Prelude.{
  ◌≡◌, refl, ap, ◌∙◌, ◌⊎◌, inl, inr, Bool, true, none, Str, is_some, str_eq, str_eq_iff,
}
use vanity_manager.Exec.{Result, ok, err, Exec, Env, Result-cases}
use vanity_manager.Keys.{k_pending_ekv, meta_last_ekv_push}
use vanity_manager.Store.{Backend}
use vanity_manager.Store.Laws.{StoreLaws, IsApart, Accepts}
use vanity_manager.Kv.{set_json}
use vanity_manager.Ekv.{EkvConfig, load_config}
use vanity_manager.Sync.{queue, bump, set_last_push, record_outcome, write_through}

module _ (e : Env) (b : Backend) (laws : StoreLaws e b) (accepts : Accepts e b) where
  open e use {World, serde}
  open laws use {view}

  abbrev marked : Str → World → Bool
  marked target w = is_some (view w (k_pending_ekv target))

  set_json-marked :
      (target : Str) (v : serde.Value) (w : World)
      → marked target (set_json e serde.to_vec b (k_pending_ekv target) v w).1 ≡ true
  unfolding set_json
  set_json-marked target v w =
      let k = k_pending_ekv target in
      ap is_some (laws.set_view k k (serde.to_vec v) w (accepts.set_ok k (serde.to_vec v) w))
      ∙ rw ((str_eq_iff k k).1 refl) refl

  queue-marked : (target : Str) (w : World) → marked target (queue e b target w) ≡ true
  unfolding queue
  queue-marked target w = set_json-marked target _ _

  bump-marked : (target : Str) (w : World) → marked target (bump e b target w) ≡ true
  unfolding bump
  bump-marked target w = set_json-marked target _ _

  module _ (apart : IsApart e b laws) where
    set_last_push-marker :
        (target : Str) (w : World)
        → view (set_last_push e b w) (k_pending_ekv target) ≡ view w (k_pending_ekv target)
    unfolding set_last_push k_pending_ekv str_eq
    set_last_push-marker target w =
        laws.set_others meta_last_ekv_push (k_pending_ekv target) _ (e.now w).1 refl
        ∙ ap (λ m. m (k_pending_ekv target)) (apart.now_view w)

    recorded-unmarked :
        (target : Str) (w : World)
        → view (record_outcome e b target (ok tt) w) (k_pending_ekv target) ≡ none
    unfolding record_outcome
    recorded-unmarked target w =
        let k = k_pending_ekv target in
        set_last_push-marker target _
        ∙ (laws.delete_view k k _ (accepts.delete_ok k _) ∙ rw ((str_eq_iff k k).1 refl) refl)

    -- A push that was made with its outcome, and what it leaves.
    unfoldable pub Settled : Str → (EkvConfig → Exec World (Unit {0})) → World → World → Type 0
    Settled target push w w' =
        (cfg : EkvConfig) × (load_config e ≡ ok cfg)
        × ((push cfg w).0 ≡ ok tt)
        × (view w' (k_pending_ekv target) ≡ none)

    pushed :
        (target : Str) (push : EkvConfig → Exec World (Unit {0})) (cfg : EkvConfig) (w : World)
        (outcome : Result (Unit {0}) × World)
        → load_config e ≡ ok cfg
        → push cfg w ≡ outcome
        → let w' = record_outcome e b target outcome.0 outcome.1 in
          Settled target push w w' ⊎ (marked target w' ≡ true)
    unfolding Settled record_outcome
    pushed target push cfg w (ok _, v) configured run =
        inl (cfg, configured, ap (λ x. x.0) run, recorded-unmarked target v)
    pushed target push cfg w (err x, v) configured run = inr (bump-marked target _)

    -- A store that keeps the laws and accepts writes and deletions, apart from which nothing changes its contents: a write-through
    -- either pushes its target successfully and leaves no marker for it, or leaves a marker.
    pub write_through-Settled :
        (target : Str) (push : EkvConfig → Exec World (Unit {0})) (w : World)
        → Settled target push w (write_through e b target push w)
          ⊎ (marked target (write_through e b target push w) ≡ true)
    unfolding write_through
    write_through-Settled target push w = elim (Result-cases (load_config e)) [
      | inl (cfg, configured) ↦
          rw (configured, write_through) (pushed target push cfg w _ configured refl)
      | inr (x, failed) ↦ rw (failed, write_through) (inr (queue-marked target w))
    ]
