-- ===== src/Admin/Rules/Created.antt =====
-- A rule that was created was not stored before, and is stored afterwards (admin-api/src/handlers.rs,
-- create_rule).
use mathlib.Core.Path.{subst}
use vanity_manager.Prelude.{
  is_some-none, ◌≡◌, refl, sym, ap, ◌∙◌, inl, inr, Bool, true, false, none, some, ◌++◌, Str, codes,
  and_then, pos, str_eq_iff, Bool-cases,
}
use vanity_manager.Exec.{ok, ◌>>◌, pure, Env, bind-ok, then-ok}
use vanity_manager.Exec.Keeps.{Keeps, Keeps-then, Keeps-pure}
use vanity_manager.Model.{Redirect, as_str}
use vanity_manager.Keys.{prefix_rule, k_rule}
use vanity_manager.Store
use vanity_manager.Store.{Backend}
use vanity_manager.Store.Laws.{StoreLaws, IsApart}
use vanity_manager.Store.Frame.{AtKey}
use vanity_manager.Kv.{set_rule}
use vanity_manager.Sync.{enqueue_rule_push, enqueue_host_push}
use vanity_manager.Sync.Frame.{IsKept, queue_keeps, push_rule_inline_keeps, push_host_inline_keeps}
use vanity_manager.Sync.Rules.{IsRuleCodec, HoldsRule, HoldsRule-IsStampProof, rule_kept}
use vanity_manager.Admin.{failure, answer, apply_ci, ensure_host_meta}
use vanity_manager.Admin.Frame.{apply_ci-Keeps, ensure_host_meta-Keeps}
use vanity_manager.Admin.Rules.{
  effect, push_pair, settle_new, store_new, create_found, create_applied, create_in,
}

-- The key of a rule, and what follows `rule:` in it.
abbrev pub rule_key : Redirect → Str
rule_key r = k_rule r.host r.match_type r.path

abbrev pub after_prefix : Redirect → Str
after_prefix r = r.host ++ (codes "|" ++ (as_str r.match_type ++ (codes "|" ++ r.path)))

module _ (e : Env) (b : Backend) {P : e.World → Type 0} (kept : IsKept e b P) where
  pub push_pair_keeps :
      (async : Bool) (key host : Str) (w : e.World) → P w → P (push_pair e b async key host w)
  unfolding push_pair enqueue_rule_push enqueue_host_push
  push_pair_keeps true key host w h = queue_keeps e b kept _ _ (queue_keeps e b kept key w h)
  push_pair_keeps false key host w h =
      push_host_inline_keeps e b kept host _ (push_rule_inline_keeps e b kept key w h)

module _ (e : Env) (b : Backend) where
  open e use {World}

  pub settle_new-answer :
      (async : Bool) (r s : Redirect) (w : World)
      → (settle_new e b async (rule_key r) r w).0 ≡ ok (answer 201 s)
      → r ≡ s
  unfolding settle_new
  settle_new-answer async r s w h =
      let last : ok (answer 201 r) ≡ ok (answer 201 s) =
        then-ok (ensure_host_meta e b r.host (pos 1))
          (effect e (push_pair e b async (rule_key r) r.host) >> pure (answer 201 r)) w
          (answer 201 s) h in
      cc

module _ (e : Env) (b : Backend) (laws : StoreLaws e b) (apart : IsApart e b laws)
    (codec : IsRuleCodec e) where
  open e use {World}
  open laws use {view}

  settle_new-Keeps :
      (async : Bool) (r : Redirect)
      → Keeps
          (AtKey e b laws (prefix_rule ++ after_prefix r) (HoldsRule e r))
          (settle_new e b async (rule_key r) r)
  unfolding settle_new
  settle_new-Keeps async r =
      let kept =
        rule_kept e b laws apart (after_prefix r) (HoldsRule e r)
          (HoldsRule-IsStampProof e r codec) in
      Keeps-then _ _
        (ensure_host_meta-Keeps e b laws apart (after_prefix r) (HoldsRule e r) r.host (pos 1))
        (Keeps-then (effect e (push_pair e b async (rule_key r) r.host)) (pure (answer 201 r))
          (record { at = λ w h. push_pair_keeps e b kept async (rule_key r) r.host w h })
          (Keeps-pure _))

  pub set_rule-HoldsRule :
      (r : Redirect) (w : World)
      → (set_rule e b (rule_key r) r w).0 ≡ ok tt
      → HoldsRule e r (view (set_rule e b (rule_key r) r w).1 (rule_key r))
  unfolding set_rule
  set_rule-HoldsRule r w wrote =
      let v = e.serde.rule_to_vec r in
      let there : view (Store.set e b (rule_key r) v w).1 (rule_key r) ≡ some v =
        laws.set_view (rule_key r) (rule_key r) v w wrote
        ∙ rw ((str_eq_iff (rule_key r) (rule_key r)).1 refl) refl in
      (r.ekv_synced_at, ap (λ o. and_then o e.serde.rule_from_slice) there ∙ codec r)

  store_new-HoldsRule :
      (async : Bool) (r s : Redirect) (w : World)
      → (store_new e b async (rule_key r) r w).0 ≡ ok (answer 201 s)
      → (r ≡ s) × HoldsRule e r (view (store_new e b async (rule_key r) r w).1 (rule_key r))
  unfolding store_new k_rule
  store_new-HoldsRule async r s w h =
      let (_, wrote, same) =
        bind-ok (set_rule e b (rule_key r) r) (λ _. settle_new e b async (rule_key r) r) w
          (answer 201 s) h in
      let w' = (set_rule e b (rule_key r) r w).1 in
      (
        settle_new-answer e b async r s w' (sym (ap (λ x. x.0) same) ∙ h),
        subst (λ x. HoldsRule e r (view x.1 (rule_key r))) (sym same)
            ((settle_new-Keeps async r).at w' (set_rule-HoldsRule r w wrote)),
      )

  create_applied-created :
      (async : Bool) (r s : Redirect) (w : World)
      → (create_applied e b async r w).0 ≡ ok (answer 201 s)
      → (r ≡ s)
        × (view w (rule_key r) ≡ none)
        × HoldsRule e r (view (create_applied e b async r w).1 (rule_key r))
  unfolding create_applied create_found
  create_applied-created async r s w h =
      let (found, got, same) =
        bind-ok (Store.exists e b (rule_key r)) (create_found e b async (rule_key r) r) w
          (answer 201 s) h in
      let held = laws.exists_view (rule_key r) w found got in
      let here = (Store.exists e b (rule_key r) w).1 in
      let done : (create_found e b async (rule_key r) r found here).0 ≡ ok (answer 201 s) =
        sym (ap (λ x. x.0) same) ∙ h in
      elim (Bool-cases found) [
        | inl there ↦
            let refused : ok (failure 409 (codes "rule already exists — use PUT to update"))
                ≡ ok (answer 201 s) =
              rw there at done in
            absurd (cc)
        | inr absent ↦
            let (equal, holds) = store_new-HoldsRule async r s here (rw absent at done) in
            (
              equal,
              is_some-none (view w (rule_key r)) (sym held ∙ absent),
              subst (λ x. HoldsRule e r (view x.1 (rule_key r)))
                  (sym (same ∙ ap (λ x. create_found e b async (rule_key r) r x here) absent))
                  holds,
            )
      ]

  -- A backend that keeps the laws, apart from which nothing changes its contents, and a codec that reads what it
  -- wrote: a creation that answers 201 with a rule found nothing under the key of that rule, and leaves the rule
  -- stored there, up to the stamp of its push.
  pub create_in-created :
      (async : Bool) (r s : Redirect) (w : World)
      → (create_in e b async r w).0 ≡ ok (answer 201 s)
      → (view w (rule_key s) ≡ none) × HoldsRule e s (view (create_in e b async r w).1 (rule_key s))
  unfolding create_in k_rule
  create_in-created async r s w h =
      let (r', applied, same) =
        bind-ok (apply_ci e b r) (create_applied e b async) w (answer 201 s) h in
      let w' = (apply_ci e b r w).1 in
      let (equal, fresh, holds) =
        create_applied-created async r' s w' (sym (ap (λ x. x.0) same) ∙ h) in
      let before : view w' (rule_key r') ≡ view w (rule_key r') =
        (apply_ci-Keeps e b laws apart (after_prefix r') (λ o. o ≡ view w (rule_key r')) r).at w
          refl in
      subst
        (λ x.
          (view w (rule_key x) ≡ none)
          × HoldsRule e x (view (create_in e b async r w).1 (rule_key x)))
        equal
        (sym before ∙ fresh, subst (λ x. HoldsRule e r' (view x.1 (rule_key r'))) (sym same) holds)
