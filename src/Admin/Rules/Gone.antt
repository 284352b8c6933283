-- ===== src/Admin/Rules/Gone.antt =====
-- A rule that was deleted is not stored afterwards (admin-api/src/handlers.rs, delete_rule).
use vanity_manager.Prelude.{
  is_some-none, ◌≡◌, refl, sym, ap, ◌∙◌, Bool, true, false, none, ◌++◌, Str, str_eq, str_eq_iff,
  Option, is_some, Bytes,
}
use vanity_manager.Exec.{ok, pure, Env, bind-ok}
use vanity_manager.Exec.Keeps.{Keeps, Keeps-bind, Keeps-then, Keeps-pure}
use vanity_manager.Keys.{prefix_rule}
use vanity_manager.Store
use vanity_manager.Store.{Backend}
use vanity_manager.Store.Laws.{StoreLaws, IsApart}
use vanity_manager.Store.Frame
use vanity_manager.Store.Frame.{AtKey}
use vanity_manager.Sync.{enqueue_rule_delete, enqueue_host_push}
use vanity_manager.Sync.Frame.{
  IsKept, queue_keeps, push_delete_rule_inline_keeps, push_host_inline_keeps,
}
use vanity_manager.Sync.Rules.{
  IsStampProof, IsRuleCodec, HoldsRule, HoldsRule-IsStampProof, Nothing-IsStampProof, rule_kept,
}
use vanity_manager.Model.{Redirect}
use vanity_manager.Admin.{Reply, answer}
use vanity_manager.Admin.Frame.{decrement_host_meta-Keeps}
use vanity_manager.Admin.Rules.{effect, push_gone, settle_deleted, delete_found, delete_stored}

module _ (e : Env) (b : Backend) {P : e.World → Type 0} (kept : IsKept e b P) where
  push_gone_keeps :
      (async : Bool) (key host : Str) (w : e.World) → P w → P (push_gone e b async key host w)
  unfolding push_gone enqueue_rule_delete enqueue_host_push
  push_gone_keeps true key host w h = queue_keeps e b kept _ _ (queue_keeps e b kept _ w h)
  push_gone_keeps false key host w h =
      push_host_inline_keeps e b kept host _ (push_delete_rule_inline_keeps e b kept key w h)

module _ (e : Env) (b : Backend) (laws : StoreLaws e b) (apart : IsApart e b laws) (rest : Str)
    (Q : Option Bytes → Type 0) (stamp_proof : IsStampProof e Q) where
  open e use {World}

  abbrev P : World → Type 0
  P = AtKey e b laws (prefix_rule ++ rest) Q

  settle_deleted-Keeps :
      (async : Bool) (key host : Str) → Keeps P (settle_deleted e b async key host)
  unfolding settle_deleted
  settle_deleted-Keeps async key host =
      let kept = rule_kept e b laws apart rest Q stamp_proof in
      Keeps-then _ _ (decrement_host_meta-Keeps e b laws apart rest Q host) (
        Keeps-then (effect e (push_gone e b async key host)) (pure (answer 200 tt))
          (record { at = λ w h. push_gone_keeps e b kept async key host w h }) (Keeps-pure _))

  delete_found-Keeps :
      (async found : Bool) (key host : Str)
      → str_eq key (prefix_rule ++ rest) ≡ false
      → Keeps P (delete_found e b async key host found)
  unfolding delete_found
  delete_found-Keeps async false key host other = Keeps-pure _
  delete_found-Keeps async true key host other =
      Keeps-then (Store.delete e b key) (settle_deleted e b async key host)
        (Frame.delete-Keeps e b laws (prefix_rule ++ rest) Q key other)
        (settle_deleted-Keeps async key host)

  delete_stored-Keeps :
      (async : Bool) (key host : Str)
      → str_eq key (prefix_rule ++ rest) ≡ false
      → Keeps P (delete_stored e b async key host)
  unfolding delete_stored
  delete_stored-Keeps async key host other =
      Keeps-bind (Store.exists e b key) (delete_found e b async key host)
        (Frame.exists-Keeps e b laws (prefix_rule ++ rest) Q key)
        (λ found. delete_found-Keeps async found key host other)

module _ (e : Env) (b : Backend) (laws : StoreLaws e b) (apart : IsApart e b laws) where
  open e use {World}
  open laws use {view}

  delete_found-gone :
      (async found : Bool) (rest host : Str) (w : World) (reply : Reply (Unit {0}))
      → found ≡ is_some (view w (prefix_rule ++ rest))
      → (delete_found e b async (prefix_rule ++ rest) host found w).0 ≡ ok reply
      → view (delete_found e b async (prefix_rule ++ rest) host found w).1 (prefix_rule ++ rest)
        ≡ none
  unfolding delete_found
  delete_found-gone async false rest host w reply held h = is_some-none _ (sym held)
  delete_found-gone async true rest host w reply held h =
      let key = prefix_rule ++ rest in
      let (_, deleted, same) =
        bind-ok (Store.delete e b key) (λ _. settle_deleted e b async key host) w reply h in
      let gone : view (Store.delete e b key w).1 key ≡ none =
        laws.delete_view key key w deleted ∙ rw ((str_eq_iff key key).1 refl) refl in
      ap (λ x. view x.1 key) same
      ∙ (settle_deleted-Keeps e b laws apart rest (λ o. o ≡ none) (Nothing-IsStampProof e) async key
            host).at
          (Store.delete e b key w).1 gone

  -- A backend that keeps the laws, apart from which nothing changes its contents, and a codec that reads what it
  -- wrote: a deletion that returns a reply leaves nothing under the key of the rule, and every rule that another key
  -- held is still stored there, up to its stamp.
  pub delete_stored-gone :
      IsRuleCodec e
      → (async : Bool) (rest host : Str) (w : World) (reply : Reply (Unit {0}))
      → (delete_stored e b async (prefix_rule ++ rest) host w).0 ≡ ok reply
      → (view (delete_stored e b async (prefix_rule ++ rest) host w).1 (prefix_rule ++ rest) ≡ none)
        × ((other : Str) (r : Redirect)
            → str_eq (prefix_rule ++ rest) (prefix_rule ++ other) ≡ false
            → HoldsRule e r (view w (prefix_rule ++ other))
            → HoldsRule e r (
                view
                  (delete_stored e b async (prefix_rule ++ rest) host w).1
                  (prefix_rule ++ other)))
  unfolding delete_stored
  delete_stored-gone codec async rest host w reply h =
      let key = prefix_rule ++ rest in
      let (found, got, same) =
        bind-ok (Store.exists e b key) (delete_found e b async key host) w reply h in
      let here = (Store.exists e b key w).1 in
      let kept : view here key ≡ view w key = ap (λ m. m key) (laws.exists_keeps key w) in
      (
        ap (λ x. view x.1 key) same
            ∙ delete_found-gone async found rest host here reply
                (laws.exists_view key w found got ∙ ap is_some (sym kept))
                (sym (ap (λ x. x.0) same) ∙ h),
        λ other r apart_keys holds.
            (delete_stored-Keeps e b laws apart other (HoldsRule e r)
                (HoldsRule-IsStampProof e r codec) async key host apart_keys).at
              w holds,
      )
