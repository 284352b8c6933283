-- ===== src/Admin/Rules/Unfound.antt =====
-- A rule that was deleted through the admin API (admin-api/src/handlers.rs, delete_rule) is not what the redirect
-- handler looks up (redirect-handler/src/lib.rs, lookup).
use vanity_manager.Prelude.{◌≡◌, sym, ap, ◌∙◌, none, some, Bool, Option, Str, Bytes, and_then}
use vanity_manager.Exec.{ok, Env}
use vanity_manager.Model.{Redirect, exact}
use vanity_manager.Keys.{k_rule}
use vanity_manager.Store.{Backend}
use vanity_manager.Store.Laws.{StoreLaws, IsApart}
use vanity_manager.Resolve.{lookup_rules}
use vanity_manager.Resolve.Answers.{
  Resolves, by_exact, by_prefix, IsBestPrefix, lookup_rules-Resolves,
}
use vanity_manager.Sync.Rules.{IsRuleCodec}
use vanity_manager.Admin.{Reply}
use vanity_manager.Admin.Rules.{delete_stored}
use vanity_manager.Admin.Rules.Gone.{delete_stored-gone}

module _ (e : Env) (b : Backend) (laws : StoreLaws e b) (apart : IsApart e b laws)
    (codec : IsRuleCodec e) where
  open e use {World}
  open laws use {view}

  -- Without an exact rule only the prefix rules decide.
  Resolves-IsBestPrefix :
      (m : Str → Option Bytes) (host path : Str) (res : Option Redirect)
      → m (k_rule host exact path) ≡ none
      → Resolves e m host path res
      → IsBestPrefix e m host path res
  Resolves-IsBestPrefix m host path res gone (by_exact r stored live found) =
      let nothing : none ≡ some r =
        ap (λ o. and_then o e.serde.rule_from_slice) (sym gone) ∙ stored in
      absurd (cc)
  Resolves-IsBestPrefix m host path res gone (by_prefix off best) = best

  gone_at :
      (async : Bool) (host path : Str) (w : World) (reply : Reply (Unit {0}))
      → (delete_stored e b async (k_rule host exact path) host w).0 ≡ ok reply
      → view (delete_stored e b async (k_rule host exact path) host w).1 (k_rule host exact path)
        ≡ none
  unfolding k_rule
  gone_at async host path w reply deleted =
      (delete_stored-gone e b laws apart codec async _ host w reply deleted).0

  -- A backend that keeps the laws, apart from which nothing changes its contents, and a codec that reads what it wrote:
  -- after the deletion of the exact rule of a host and a path that returns a reply, a lookup there that succeeds gives
  -- back the best of the enabled prefix rules of the host that match, or nothing if none does.
  pub delete_stored-lookup_rules :
      (async : Bool) (host path : Str) (w : World) (reply : Reply (Unit {0}))
      (res : Option Redirect)
      → (delete_stored e b async (k_rule host exact path) host w).0 ≡ ok reply
      → (lookup_rules e b host path (delete_stored e b async (k_rule host exact path) host w).1).0
        ≡ ok res
      → IsBestPrefix e
          (view (delete_stored e b async (k_rule host exact path) host w).1)
          host
          path
          res
  delete_stored-lookup_rules async host path w reply res deleted found =
      let w' = (delete_stored e b async (k_rule host exact path) host w).1 in
      Resolves-IsBestPrefix (view w') host path res (gone_at async host path w reply deleted)
        (lookup_rules-Resolves e b laws host path w' res found)
