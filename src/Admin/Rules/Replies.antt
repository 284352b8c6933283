-- ===== src/Admin/Rules/Replies.antt =====
-- What the handlers of rules answer, against what the store holds (admin-api/src/handlers.rs).
use vanity_manager.Prelude.{
  ◌≡◌, sym, ap, ◌∙◌, ◌⊎◌, inl, inr, Bool, true, false, Str, codes, is_some, Bool-cases,
}
use vanity_manager.Exec.{ok, ◌>>◌, pure, Env, bind-ok, then-ok}
use vanity_manager.Store
use vanity_manager.Store.{Backend}
use vanity_manager.Store.Laws.{StoreLaws}
use vanity_manager.Admin.{Reply, failure, answer, decrement_host_meta}
use vanity_manager.Admin.Rules.{effect, settle_deleted, delete_found, delete_stored, push_gone}

module _ (e : Env) (b : Backend) (laws : StoreLaws e b) where
  open e use {World}
  open laws use {view}

  settle_deleted-reply :
      (async : Bool) (key host : Str) (w : World) (reply : Reply (Unit {0}))
      → (settle_deleted e b async key host w).0 ≡ ok reply
      → reply ≡ answer 200 tt
  unfolding settle_deleted
  settle_deleted-reply async key host w reply h =
      let last : ok (answer 200 tt) ≡ ok reply =
        then-ok (decrement_host_meta e b host)
          (effect e (push_gone e b async key host) >> pure (answer 200 tt)) w reply h in
      cc

  delete_found-reply :
      (async : Bool) (key host : Str) (w : World) (reply : Reply (Unit {0}))
      → (delete_found e b async key host true w).0 ≡ ok reply
      → reply ≡ answer 200 tt
  unfolding delete_found
  delete_found-reply async key host w reply h =
      settle_deleted-reply async key host (Store.delete e b key w).1 reply
        (then-ok (Store.delete e b key) (settle_deleted e b async key host) w reply h)

  -- A backend that keeps the laws: a deletion that returns a reply answers 200 if the rule was stored, and 404 if
  -- it was not, in which case the contents of the store have not changed.
  pub delete_stored-reply :
      (async : Bool) (key host : Str) (w : World) (reply : Reply (Unit {0}))
      → (delete_stored e b async key host w).0 ≡ ok reply
      → ((is_some (view w key) ≡ true) × (reply ≡ answer 200 tt))
        ⊎ ((is_some (view w key) ≡ false)
            × (reply ≡ failure 404 (codes "rule not found"))
            × (view (delete_stored e b async key host w).1 ≡ view w))
  unfolding delete_stored delete_found
  delete_stored-reply async key host w reply h =
      let (found, got, same) =
        bind-ok (Store.exists e b key) (delete_found e b async key host) w reply h in
      let held = laws.exists_view key w found got in
      let here = (Store.exists e b key w).1 in
      let done : (delete_found e b async key host found here).0 ≡ ok reply =
        sym (ap (λ x. x.0) same) ∙ h in
      elim (Bool-cases found) [
        | inl there ↦
            inl (sym held ∙ there, delete_found-reply async key host here reply (rw there at done))
        | inr absent ↦
            let stopped : delete_stored e b async key host w
                ≡ delete_found e b async key host false here =
              same ∙ ap (λ x. delete_found e b async key host x here) absent in
            let refused : reply ≡ failure 404 (codes "rule not found") =
              (let answered : ok (failure 404 (codes "rule not found")) ≡ ok reply =
                  rw absent at done in
                cc) in
            inr (sym held ∙ absent, refused, ap (λ x. view x.1) stopped ∙ laws.exists_keeps key w)
      ]
