-- ===== src/Admin/Rules/Managed.antt =====
-- The host of a rule that was created is managed (admin-api/src/handlers.rs, create_rule).
use mathlib.Core.Path.{subst}
use vanity_manager.Prelude.{
  ◌≡◌, refl, sym, ap, ◌∙◌, inl, inr, Bool, true, false, Option, none, some, Str, Bytes, pos,
  is_some, str_eq, str_eq_iff, Bool-cases,
}
use vanity_manager.Exec.{ok, ◌>>◌, ◌>>=◌, pure, Env, bind-ok}
use vanity_manager.Exec.Keeps.{Keeps, Keeps-bind, Keeps-pure}
use vanity_manager.Model.{Redirect, HostMeta}
use vanity_manager.Keys.{k_host, k_pending_ekv}
use vanity_manager.Store
use vanity_manager.Store.{Backend}
use vanity_manager.Store.Laws.{StoreLaws, IsApart}
use vanity_manager.Store.Frame
use vanity_manager.Store.Frame.{AtKey, AtKey-view}
use vanity_manager.Kv.{set_rule, set_host}
use vanity_manager.Kv.Frame.{get_rule-Keeps, get_host-Keeps}
use vanity_manager.Keys.{counter_ekv_errors, counter_ekv_pushes, meta_last_ekv_push}
use vanity_manager.Ekv.Frame.{IsOutside}
use vanity_manager.Sync.{timestamp, stamp_rule, restamp_rule, stamp_host, restamp_host}
use vanity_manager.Sync.Frame.{IsKept}
use vanity_manager.Admin.{answer, apply_ci, ensure_host_meta, host_meta_or_new, shifted_count}
use vanity_manager.Admin.Rules.{
  effect, push_pair, settle_new, store_new, create_found, create_applied, create_in,
}
use vanity_manager.Admin.Rules.Created.{rule_key, push_pair_keeps, settle_new-answer}

-- A key that holds something.
abbrev IsStored : Option Bytes → Type 0
IsStored o = is_some o ≡ true

module _ (e : Env) (b : Backend) (laws : StoreLaws e b) (apart : IsApart e b laws) where
  open e use {World, serde, now, to_rfc3339}
  open laws use {view}

  -- The metadata of a host are stored.
  abbrev pub Managed : Str → World → Type 0
  Managed host = AtKey e b laws (k_host host) IsStored

  module _ (host : Str) where
    set-Keeps : (k : Str) (v : Bytes) → Keeps (Managed host) (Store.set e b k v)
    set-Keeps k v = elim (Bool-cases (str_eq k (k_host host))) [
      | inr other ↦ Frame.set-Keeps e b laws (k_host host) IsStored k v other
      | inl same ↦
          let here = (str_eq_iff k (k_host host)).0 same in
          record {
            at = λ w h.
                subst (λ j. IsStored (view (Store.set e b k v w).1 j)) here
                  (elim (laws.set_self k v w) [
                    | inl old ↦ ap is_some old ∙ subst (λ j. IsStored (view w j)) (sym here) h
                    | inr new ↦ ap is_some new
                  ]);
          }
    ]

    outside : IsOutside e (Managed host)
    outside = record {
      now_keeps = λ w h. AtKey-view e b laws (k_host host) IsStored w _ (apart.now_view w) h;
      alphanumeric_keeps =
          λ n w h. AtKey-view e b laws (k_host host) IsStored w _ (apart.alphanumeric_view n w) h;
      http_keeps = λ r. record {
        at = λ w h. AtKey-view e b laws (k_host host) IsStored w _ (apart.http_view r w) h;
      };
    }

    timestamp-Keeps : Keeps (Managed host) (timestamp e)
    timestamp-Keeps = record { at = λ w h. outside.now_keeps w h }

    reads : (k : Str) → Keeps (Managed host) (Store.get e b k)
    reads = Frame.get-Keeps e b laws (k_host host) IsStored

    stamp_rule-Keeps :
        (k : Str) (found : Option Redirect) → Keeps (Managed host) (stamp_rule e b k found)
    unfolding stamp_rule set_rule
    stamp_rule-Keeps k none = Keeps-pure tt
    stamp_rule-Keeps k (some r) =
        Keeps-bind _ _ timestamp-Keeps
          (λ at. set-Keeps k (serde.rule_to_vec (record r { ekv_synced_at = at })))

    stamp_host-Keeps :
        (h : Str) (found : Option HostMeta) → Keeps (Managed host) (stamp_host e b h found)
    unfolding stamp_host set_host
    stamp_host-Keeps h none = Keeps-pure tt
    stamp_host-Keeps h (some m) =
        Keeps-bind _ _ timestamp-Keeps
          (λ at. set-Keeps (k_host h) (serde.host_to_vec (record m { ekv_synced_at = at })))

    Managed-IsKept : IsKept e b (Managed host)
    unfolding k_pending_ekv k_host str_eq restamp_rule restamp_host
    Managed-IsKept = record {
      outside = outside;
      get_keeps = reads;
      keys_keeps = Frame.keys-Keeps e b laws (k_host host) IsStored;
      pushes_keeps =
          Frame.incr-Keeps e b laws (k_host host) IsStored counter_ekv_pushes (pos 1) refl;
      errors_keeps =
          Frame.incr-Keeps e b laws (k_host host) IsStored counter_ekv_errors (pos 1) refl;
      mark_keeps = λ t v. set-Keeps (k_pending_ekv t) v;
      unmark_keeps = λ t. Frame.delete-Keeps e b laws (k_host host) IsStored (k_pending_ekv t) refl;
      last_push_keeps = λ v. set-Keeps meta_last_ekv_push v;
      restamp_rule_keeps = λ k. Keeps-bind _ _ (get_rule-Keeps e b reads k) (stamp_rule-Keeps k);
      restamp_host_keeps =
          λ h. Keeps-bind _ _ (get_host-Keeps e b reads (k_host h)) (stamp_host-Keeps h);
    }

    set_host-Managed :
        (m : HostMeta) (w : World)
        → (set_host e b (k_host host) m w).0 ≡ ok tt
        → Managed host (set_host e b (k_host host) m w).1
    unfolding set_host
    set_host-Managed m w done =
        let stored : view (Store.set e b (k_host host) (serde.host_to_vec m) w).1 (k_host host)
            ≡ some (serde.host_to_vec m) =
          laws.set_view (k_host host) (k_host host) (serde.host_to_vec m) w done
          ∙ rw ((str_eq_iff (k_host host) (k_host host)).1 refl) refl in
        ap is_some stored

    ensure_host_meta-Managed :
        (w : World)
        → (ensure_host_meta e b host (pos 1) w).0 ≡ ok tt
        → Managed host (ensure_host_meta e b host (pos 1) w).1
    unfolding ensure_host_meta
    ensure_host_meta-Managed w h =
        let write = λ (m : HostMeta) (at : Str).
          set_host e b (k_host host)
            (record m { rule_count = shifted_count m.rule_count (pos 1); updated_at = at }) in
        let (m, _, same) =
          bind-ok (host_meta_or_new e b host) (λ m. do at ← timestamp e; write m at) w tt h in
        let (t, w') = now (host_meta_or_new e b host w).1 in
        subst (λ x. Managed host x.1) (sym same)
          (set_host-Managed _ w' (sym (ap (λ x. x.0) same) ∙ h))

  settle_new-Managed :
      (async : Bool) (r s : Redirect) (w : World)
      → (settle_new e b async (rule_key r) r w).0 ≡ ok (answer 201 s)
      → Managed r.host (settle_new e b async (rule_key r) r w).1
  unfolding settle_new
  settle_new-Managed async r s w h =
      let settle = effect e (push_pair e b async (rule_key r) r.host) >> pure (answer 201 r) in
      let (_, done, same) =
        bind-ok (ensure_host_meta e b r.host (pos 1)) (λ _. settle) w (answer 201 s) h in
      subst (λ x. Managed r.host x.1) (sym same)
        (push_pair_keeps e b (Managed-IsKept r.host) async (rule_key r) r.host _
          (ensure_host_meta-Managed r.host w done))

  store_new-Managed :
      (async : Bool) (r s : Redirect) (w : World)
      → (store_new e b async (rule_key r) r w).0 ≡ ok (answer 201 s)
      → Managed s.host (store_new e b async (rule_key r) r w).1
  unfolding store_new
  store_new-Managed async r s w h =
      let (_, _, same) =
        bind-ok (set_rule e b (rule_key r) r) (λ _. settle_new e b async (rule_key r) r) w
          (answer 201 s) h in
      let w' = (set_rule e b (rule_key r) r w).1 in
      let settled = sym (ap (λ x. x.0) same) ∙ h in
      subst (λ (x : Redirect). Managed x.host (store_new e b async (rule_key r) r w).1)
        (settle_new-answer e b async r s w' settled)
        (subst (λ x. Managed r.host x.1) (sym same) (settle_new-Managed async r s w' settled))

  create_found-Managed :
      (async found : Bool) (r s : Redirect) (w : World)
      → (create_found e b async (rule_key r) r found w).0 ≡ ok (answer 201 s)
      → Managed s.host (create_found e b async (rule_key r) r found w).1
  unfolding create_found
  create_found-Managed async true r s w h = absurd (cc)
  create_found-Managed async false r s w h = store_new-Managed async r s w h

  -- A creation that answers 201 leaves the metadata of the rule's host stored.
  pub create_in-Managed :
      (async : Bool) (r s : Redirect) (w : World)
      → (create_in e b async r w).0 ≡ ok (answer 201 s)
      → Managed s.host (create_in e b async r w).1
  unfolding create_in create_applied
  create_in-Managed async r s w h =
      let (r', _, same) = bind-ok (apply_ci e b r) (create_applied e b async) w (answer 201 s) h in
      let w' = (apply_ci e b r w).1 in
      let (found, _, same') =
        bind-ok (Store.exists e b (rule_key r')) (create_found e b async (rule_key r') r') w'
          (answer 201 s) (sym (ap (λ x. x.0) same) ∙ h) in
      let w'' = (Store.exists e b (rule_key r') w').1 in
      subst (λ x. Managed s.host x.1) (sym (same ∙ same'))
        (create_found-Managed async found r' s w'' (sym (ap (λ x. x.0) (same ∙ same')) ∙ h))
