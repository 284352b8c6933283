-- ===== src/Admin/Frame.antt =====
-- What the handlers of rules keep at the key of a rule (admin-api/src/handlers.rs): a property that no
-- write of host metadata and no step of the write-through ends.
use vanity_manager.Prelude.{ℤ, negsuc, refl, Option, none, some, ◌++◌, Str, Bytes, str_eq}
use vanity_manager.Exec.{Env}
use vanity_manager.Exec.Keeps.{Keeps, Keeps-bind, Keeps-pure, keeps_rules}
use vanity_manager.Model.{Redirect, HostMeta}
use vanity_manager.Keys.{prefix_rule, k_host}
use vanity_manager.Store.{Backend}
use vanity_manager.Store.Laws.{StoreLaws, IsApart}
use vanity_manager.Store.Frame
use vanity_manager.Store.Frame.{AtKey, AtKey-view}
use vanity_manager.Kv.{get_host, set_host}
use vanity_manager.Kv.Frame.{get_host-Keeps}
use vanity_manager.Sync.{timestamp}
use vanity_manager.Admin.{
  meta_or_new, host_meta_or_new, flip_case, apply_ci, ensure_host_meta, decrement_host_meta,
}

module _ (e : Env) (b : Backend) (laws : StoreLaws e b) (apart : IsApart e b laws) (rest : Str)
    (Q : Option Bytes → Type 0) where
  open e use {World, unicode}

  abbrev key : Str
  key = prefix_rule ++ rest

  abbrev P : World → Type 0
  P = AtKey e b laws key Q

  timestamp-Keeps : Keeps P (timestamp e)
  timestamp-Keeps = record { at = λ w h. AtKey-view e b laws key Q w _ (apart.now_view w) h }

  set_host-Keeps : (host : Str) (meta : HostMeta) → Keeps P (set_host e b (k_host host) meta)
  unfolding set_host k_host str_eq
  set_host-Keeps host meta =
      Frame.set-Keeps e b laws key Q (k_host host) (e.serde.host_to_vec meta) refl

  meta_or_new-Keeps : (host : Str) (found : Option HostMeta) → Keeps P (meta_or_new e host found)
  unfolding meta_or_new
  meta_or_new-Keeps host none = search (keeps_rules, timestamp-Keeps)
  meta_or_new-Keeps host (some meta) = Keeps-pure meta

  host_meta_or_new-Keeps : (host : Str) → Keeps P (host_meta_or_new e b host)
  unfolding host_meta_or_new
  host_meta_or_new-Keeps host =
      Keeps-bind (get_host e b (k_host host)) (meta_or_new e host)
        (get_host-Keeps e b (Frame.get-Keeps e b laws key Q) (k_host host)) (meta_or_new-Keeps host)

  flip_case-Keeps : (r : Redirect) (meta : HostMeta) → Keeps P (flip_case e b r meta)
  flip_case-Keeps r meta = search (keeps_rules, timestamp-Keeps, set_host-Keeps)

  pub apply_ci-Keeps : (r : Redirect) → Keeps P (apply_ci e b r)
  unfolding apply_ci
  apply_ci-Keeps r = search (keeps_rules, host_meta_or_new-Keeps, flip_case-Keeps)

  pub ensure_host_meta-Keeps : (host : Str) (delta : ℤ) → Keeps P (ensure_host_meta e b host delta)
  unfolding ensure_host_meta
  ensure_host_meta-Keeps host delta =
      search (keeps_rules, host_meta_or_new-Keeps, timestamp-Keeps, set_host-Keeps)

  pub decrement_host_meta-Keeps : (host : Str) → Keeps P (decrement_host_meta e b host)
  unfolding decrement_host_meta
  decrement_host_meta-Keeps host = ensure_host_meta-Keeps host (negsuc 0)
