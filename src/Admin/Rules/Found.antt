-- ===== src/Admin/Rules/Found.antt =====
-- An enabled exact rule that was created through the admin API (admin-api/src/handlers.rs, create_rule) against the
-- redirect handler's lookup at a managed host (redirect-handler/src/lib.rs, lookup).
use vanity_manager.Prelude.{
  ◌≡◌, refl, sym, ap, ◌∙◌, Bool, true, Option, none, some, Str, Bytes, and_then, is_some,
}
use vanity_manager.Exec.{ok, Env, pure, bind-run}
use vanity_manager.Model.{Redirect, HostMeta, exact}
use vanity_manager.Keys.{k_rule, k_host}
use vanity_manager.Store
use vanity_manager.Store.{Backend, open_from_config}
use vanity_manager.Store.Laws.{StoreLaws, IsApart, Answers}
use vanity_manager.Kv.{get_rule, get_host, decode_stored}
use vanity_manager.Resolve.{lookup_path, lookup_rules, lookup, longest_prefix, enabled_only}
use vanity_manager.Admin.Rules.Managed.{create_in-Managed}
use vanity_manager.Resolve.Managed.{
  open_from_config-Keeps, at_host, at_host-view, get_host-view, lookup-managed,
}
use vanity_manager.Sync.Rules.{IsRuleCodec}
use vanity_manager.Admin.{answer}
use vanity_manager.Admin.Rules.{create_in}
use vanity_manager.Admin.Rules.Created.{create_in-created}

module _ (e : Env) (b : Backend) (laws : StoreLaws e b) (answers : Answers e b) where
  open e use {World, serde}
  open laws use {view}

  decode_stored-reads :
      (o : Option Bytes) (r : Redirect) (w : World)
      → and_then o serde.rule_from_slice ≡ some r
      → (decode_stored e serde.rule_from_slice o w).0 ≡ ok (some r)
  decode_stored-reads none r w h = absurd (cc)
  decode_stored-reads (some bytes) r w h = rw h refl

  get_rule-reads :
      (key : Str) (r : Redirect) (w : World)
      → and_then (view w key) serde.rule_from_slice ≡ some r
      → (get_rule e b key w).0 ≡ ok (some r)
  unfolding get_rule
  get_rule-reads key r w h =
      let (o, read) = answers.get_ok key w in
      let held : o ≡ view w key = laws.get_view key w o read in
      ap (λ x. x.0) (bind-run (Store.get e b key) (decode_stored e serde.rule_from_slice) w o read)
      ∙ decode_stored-reads o r _ (ap (λ p. and_then p serde.rule_from_slice) held ∙ h)

  -- An enabled exact rule that is stored is found, whatever else the store holds.
  lookup_rules-exact :
      (host path : Str) (r : Redirect) (w : World)
      → and_then (view w (k_rule host exact path)) serde.rule_from_slice ≡ some r
      → r.enabled ≡ true
      → (lookup_rules e b host path w).0 ≡ ok (some r)
  unfolding lookup_rules
  lookup_rules-exact host path r w held live =
      ap (λ x. x.0)
        (bind-run (get_rule e b (k_rule host exact path))
          (λ found. elim (enabled_only found) [
            | some s ↦ pure (some s)
            | none ↦ longest_prefix e b host path
          ])
          w (some r) (get_rule-reads (k_rule host exact path) r w held))
      ∙ rw live refl

  -- The same where the handler opens the store, finds the host managed and reads its metadata.
  lookup-exact :
      (host path : Str) (meta : Option HostMeta) (r : Redirect) (w : World)
      → (open_from_config e w).0 ≡ ok b
      → (Store.exists e b (k_host host) (open_from_config e w).1).0 ≡ ok true
      → (get_host e b (k_host host) (at_host e b host w)).0 ≡ ok meta
      → and_then
          (view w (k_rule host exact (lookup_path e.unicode meta path)))
          serde.rule_from_slice
        ≡ some r
      → r.enabled ≡ true
      → (lookup e host path w).0 ≡ ok (some r)
  lookup-exact host path meta r w opened managed read held live =
      let seen = lookup_path e.unicode meta path in
      ap (λ x. x.0) (lookup-managed e b host path meta w opened managed read)
      ∙ lookup_rules-exact host seen r (get_host e b (k_host host) (at_host e b host w)).1
          (ap (λ m. and_then (m (k_rule host exact seen)) serde.rule_from_slice)
              (get_host-view e b laws (k_host host) (at_host e b host w)
                ∙ at_host-view e b laws host w)
            ∙ held)
          live

  host_exists :
      (host : Str) (w : World) (managed : Bool)
      → (Store.exists e b (k_host host) (open_from_config e w).1).0 ≡ ok managed
      → managed ≡ is_some (view w (k_host host))
  host_exists host w managed answered =
      laws.exists_view (k_host host) (open_from_config e w).1 managed answered
      ∙ ap (λ m. is_some (m (k_host host))) ((open_from_config-Keeps e b laws (view w)).at w refl)

  -- A backend that keeps the laws, answers reads and is the configured one, apart from which nothing changes its
  -- contents, and a codec that reads what it wrote: after a creation that answers 201 with an enabled exact rule, the
  -- redirect handler's lookup gives back that rule, up to the stamp of its push, for every path that the host's
  -- metadata turn into the path of the rule. It is assumed that the handler's check of the host is answered and that
  -- the host's metadata can be read.
  pub create_in-lookup :
      IsApart e b laws
      → IsRuleCodec e
      → (async : Bool) (r s : Redirect) (path : Str) (managed : Bool) (meta : Option HostMeta)
        (w : World)
      → (create_in e b async r w).0 ≡ ok (answer 201 s)
      → s.match_type ≡ exact
      → s.enabled ≡ true
      → (open_from_config e (create_in e b async r w).1).0 ≡ ok b
      → (Store.exists e b (k_host s.host) (open_from_config e (create_in e b async r w).1).1).0
        ≡ ok managed
      → (get_host e b (k_host s.host) (at_host e b s.host (create_in e b async r w).1)).0 ≡ ok meta
      → lookup_path e.unicode meta path ≡ s.path
      → (at : Str) × ((lookup e s.host path (create_in e b async r w).1).0
          ≡ ok (some (record s { ekv_synced_at = at })))
  create_in-lookup apart codec async r s path managed meta w h is_exact live opened answered read
        same =
      let w' = (create_in e b async r w).1 in
      let there : managed ≡ true =
        host_exists s.host w' managed answered ∙ create_in-Managed e b laws apart async r s w h in
      let (_, (at, held)) = create_in-created e b laws apart codec async r s w h in
      let s' : Redirect = record s { ekv_synced_at = at } in
      let stored : and_then (view w' (k_rule s.host exact (lookup_path e.unicode meta path)))
            serde.rule_from_slice
          ≡ some s' =
        ap (λ p. and_then (view w' (k_rule s.host exact p)) serde.rule_from_slice) same
        ∙ (ap (λ mt. and_then (view w' (k_rule s.host mt s.path)) serde.rule_from_slice)
              (sym is_exact)
            ∙ held) in
      (at, lookup-exact s.host path meta s' w' opened (answered ∙ ap ok there) read stored live)
