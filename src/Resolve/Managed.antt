-- ===== src/Resolve/Managed.antt =====
-- The redirect handler's lookup (redirect-handler/src/lib.rs, lookup) from the store it opens to the rules of a managed
-- host.
use vanity_manager.Prelude.{◌≡◌, refl, ◌∙◌, Bool, true, Option, none, Str, Bytes, if◌then◌else◌}
use vanity_manager.Exec.{ok, Env, pure, ◌>>=◌, bind-run}
use vanity_manager.Exec.Keeps.{Keeps, keeps_rules}
use vanity_manager.Model.{HostMeta}
use vanity_manager.Keys.{k_host}
use vanity_manager.Store
use vanity_manager.Store.{Backend, open_from_config}
use vanity_manager.Store.Laws.{StoreLaws}
use vanity_manager.Kv.{get_host}
use vanity_manager.Kv.Frame.{get_host-Keeps}
use vanity_manager.Resolve.{lookup_path, lookup_rules, lookup_managed, lookup}

module _ (e : Env) where
  open e use {World, unicode}

  -- The world in which the metadata of a host is read: the store is open, and the host was looked for.
  abbrev pub at_host : Backend → Str → World → World
  at_host b host w = (Store.exists e b (k_host host) (open_from_config e w).1).1

  pub lookup-opened :
      (b : Backend) (host path : Str) (w : World) (managed : Bool)
      → (open_from_config e w).0 ≡ ok b
      → (Store.exists e b (k_host host) (open_from_config e w).1).0 ≡ ok managed
      → lookup e host path w
        ≡ (if managed then lookup_managed e b host path else pure none) (at_host b host w)
  unfolding lookup
  lookup-opened b host path w managed opened found =
      bind-run (open_from_config e)
        (λ b. do
          managed ← Store.exists e b (k_host host)
          if managed then lookup_managed e b host path else pure none)
        w b opened
      ∙ bind-run (Store.exists e b (k_host host))
          (λ managed. if managed then lookup_managed e b host path else pure none)
          (open_from_config e w).1 managed found

  -- At a managed host the rules are looked up in the world that the reads before left.
  pub lookup-managed :
      (b : Backend) (host path : Str) (meta : Option HostMeta) (w : World)
      → (open_from_config e w).0 ≡ ok b
      → (Store.exists e b (k_host host) (open_from_config e w).1).0 ≡ ok true
      → (get_host e b (k_host host) (at_host b host w)).0 ≡ ok meta
      → lookup e host path w
        ≡ lookup_rules e b host
            (lookup_path unicode meta path)
            (get_host e b (k_host host) (at_host b host w)).1
  unfolding lookup_managed
  lookup-managed b host path meta w opened found read =
      lookup-opened b host path w true opened found
      ∙ bind-run (get_host e b (k_host host))
          (λ meta. lookup_rules e b host (lookup_path unicode meta path)) (at_host b host w) meta
          read

  module _ (b : Backend) (laws : StoreLaws e b) where
    open laws use {view}

    open_default-Keeps : (m : Str → Option Bytes) → Keeps (λ w. view w ≡ m) e.open_default
    open_default-Keeps m = record { at = λ w h. laws.open_keeps w ∙ h }

    pub open_from_config-Keeps :
        (m : Str → Option Bytes) → Keeps (λ w. view w ≡ m) (open_from_config e)
    unfolding open_from_config
    open_from_config-Keeps m = search (keeps_rules, open_default-Keeps)

    pub get_host-view : (key : Str) (w : World) → view (get_host e b key w).1 ≡ view w
    get_host-view key w =
        (get_host-Keeps e b {P = λ w'. view w' ≡ view w}
            (λ k. record { at = λ w' h. laws.get_keeps k w' ∙ h }) key).at
          w refl

    pub at_host-view : (host : Str) (w : World) → view (at_host b host w) ≡ view w
    at_host-view host w =
        laws.exists_keeps (k_host host) (open_from_config e w).1
        ∙ (open_from_config-Keeps (view w)).at w refl
