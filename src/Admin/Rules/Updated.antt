-- ===== src/Admin/Rules/Updated.antt =====
-- An update changes a rule that is stored, and what is stored is the rule of its answer (admin-api/src/handlers.rs,
-- update_rule).
use mathlib.Core.Path.{subst}
use vanity_manager.Prelude.{◌≡◌, refl, sym, ap, ◌∙◌, Bool, true, false, Str, is_some, if◌then◌else◌}
use vanity_manager.Exec.{ok, ◌>>◌, pure, Env, bind-ok, then-ok}
use vanity_manager.Model.{Redirect}
use vanity_manager.Keys.{k_rule}
use vanity_manager.Store
use vanity_manager.Store.{Backend}
use vanity_manager.Store.Laws.{StoreLaws, IsApart}
use vanity_manager.Kv.{set_rule}
use vanity_manager.Sync.{enqueue_rule_push, push_rule_inline}
use vanity_manager.Sync.Frame.{IsKept, queue_keeps, push_rule_inline_keeps}
use vanity_manager.Sync.Rules.{IsRuleCodec, HoldsRule, HoldsRule-IsStampProof, rule_kept}
use vanity_manager.Admin.{answer}
use vanity_manager.Admin.Rules.{effect, store_found, store_changed}
use vanity_manager.Admin.Rules.Created.{rule_key, after_prefix, set_rule-HoldsRule}

module _ (e : Env) (b : Backend) {P : e.World → Type 0} (kept : IsKept e b P) where
  push_keeps :
      (async : Bool) (key : Str) (w : e.World)
      → P w
      → P ((if async then enqueue_rule_push e b key else push_rule_inline e b key) w)
  unfolding enqueue_rule_push
  push_keeps true key w h = queue_keeps e b kept key w h
  push_keeps false key w h = push_rule_inline_keeps e b kept key w h

module _ (e : Env) (b : Backend) (laws : StoreLaws e b) (apart : IsApart e b laws)
    (codec : IsRuleCodec e) where
  open e use {World}
  open laws use {view}

  store_found-HoldsRule :
      (async found : Bool) (r s : Redirect) (w : World)
      → (store_found e b async (rule_key r) r found w).0 ≡ ok (answer 200 s)
      → (r ≡ s)
        × (found ≡ true)
        × HoldsRule e r (view (store_found e b async (rule_key r) r found w).1 (rule_key r))
  unfolding store_found k_rule
  store_found-HoldsRule async false r s w h = absurd (cc)
  store_found-HoldsRule async true r s w h =
      let push =
        effect e (
          if async
          then enqueue_rule_push e b (rule_key r)
          else push_rule_inline e b (rule_key r)) in
      let (_, wrote, same) =
        bind-ok (set_rule e b (rule_key r) r) (λ _. push >> pure (answer 200 r)) w (answer 200 s)
          h in
      let w' = (set_rule e b (rule_key r) r w).1 in
      let last : ok (answer 200 r) ≡ ok (answer 200 s) =
        then-ok push (pure (answer 200 r)) w' (answer 200 s) (sym (ap (λ x. x.0) same) ∙ h) in
      let kept =
        rule_kept e b laws apart (after_prefix r) (HoldsRule e r)
          (HoldsRule-IsStampProof e r codec) in
      (
        cc,
        refl,
        subst (λ x. HoldsRule e r (view x.1 (rule_key r))) (sym same)
            (push_keeps e b kept async (rule_key r) w'
              (set_rule-HoldsRule e b laws apart codec r w wrote)),
      )

  -- A backend that keeps the laws, apart from which nothing changes its contents, and a codec that reads what it
  -- wrote: an update, under the key of its rule, that answers 200 with a rule found something stored under the key of
  -- that rule, and leaves the rule stored there, up to the stamp of its push.
  pub store_changed-updated :
      (async : Bool) (r s : Redirect) (w : World)
      → (store_changed e b async (rule_key r) r w).0 ≡ ok (answer 200 s)
      → (is_some (view w (rule_key s)) ≡ true)
        × HoldsRule e s (view (store_changed e b async (rule_key r) r w).1 (rule_key s))
  unfolding store_changed
  store_changed-updated async r s w h =
      let (found, got, same) =
        bind-ok (Store.exists e b (rule_key r)) (store_found e b async (rule_key r) r) w
          (answer 200 s) h in
      let (equal, there, holds) =
        store_found-HoldsRule async found r s (Store.exists e b (rule_key r) w).1
          (sym (ap (λ x. x.0) same) ∙ h) in
      subst
        (λ x.
          (is_some (view w (rule_key x)) ≡ true)
          × HoldsRule e x (view (store_changed e b async (rule_key r) r w).1 (rule_key x)))
        equal
        (
          sym (laws.exists_view (rule_key r) w found got) ∙ there,
          subst (λ x. HoldsRule e r (view x.1 (rule_key r))) (sym same) holds,
        )
