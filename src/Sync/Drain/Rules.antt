-- ===== src/Sync/Drain/Rules.antt =====
-- What a drain leaves of the stored rules (shared/src/sync.rs, drain_pending).
use vanity_manager.Prelude.{ℕ, ◌≡◌, none, ◌++◌, Str}
use vanity_manager.Exec.{Env}
use vanity_manager.Model.{Redirect}
use vanity_manager.Keys.{prefix_rule}
use vanity_manager.Store.{Backend}
use vanity_manager.Store.Laws.{StoreLaws, IsApart}
use vanity_manager.Sync.Rules.{
  IsRuleCodec, HoldsRule, HoldsRule-IsStampProof, Nothing-IsStampProof, rule_kept,
}
use vanity_manager.Sync.Drain.{drain_pending}
use vanity_manager.Sync.Drain.Frame.{drain_pending_keeps}

module _ (e : Env) (b : Backend) (laws : StoreLaws e b) (apart : IsApart e b laws) where
  open e use {World}
  open laws use {view}

  -- A backend that keeps the laws, apart from which nothing changes its contents, and a codec that reads what it
  -- wrote: under every key that starts with `rule:`, a drain of any budget leaves a rule that was stored as it was,
  -- up to its stamp, and stores none where none was stored.
  pub drain_pending-HoldsRule :
      IsRuleCodec e
      → (budget : ℕ) (rest : Str) (w : World)
      → ((r : Redirect)
          → HoldsRule e r (view w (prefix_rule ++ rest))
          → HoldsRule e r (view (drain_pending e b budget w).world (prefix_rule ++ rest)))
        × (view w (prefix_rule ++ rest) ≡ none
            → view (drain_pending e b budget w).world (prefix_rule ++ rest) ≡ none)
  drain_pending-HoldsRule codec budget rest w = (
    λ r.
        drain_pending_keeps e b
          (rule_kept e b laws apart rest (HoldsRule e r) (HoldsRule-IsStampProof e r codec)) budget
          w,
    drain_pending_keeps e b (rule_kept e b laws apart rest (λ o. o ≡ none) (Nothing-IsStampProof e))
        budget w,
  )
