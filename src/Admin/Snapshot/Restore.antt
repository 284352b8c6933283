-- ===== src/Admin/Snapshot/Restore.antt =====
-- What a restore from a catalog leaves in the store (admin-api/src/snapshot.rs, ensure_seeded).
use mathlib.Core.Path.{subst}
use vanity_manager.Prelude.{
  ◌≡◌, refl, sym, ap, ◌∙◌, false, Option, some, List, [], ◌∷◌, ◌++◌, Bytes, and_then, str_eq,
  str_eq_iff, All,
}
use vanity_manager.Exec.{◌>>◌, Env, bind-run}
use vanity_manager.Exec.Keeps.{Keeps, Keeps-pure, Keeps-then, after-Keeps}
use vanity_manager.Model.{Redirect, HostMeta, RulesSnapshot}
use vanity_manager.Keys.{prefix_rule, k_rule, k_host, meta_seeded}
use vanity_manager.Store
use vanity_manager.Store.{Backend}
use vanity_manager.Store.Laws.{StoreLaws, Accepts}
use vanity_manager.Store.Frame
use vanity_manager.Store.Frame.{AtKey}
use vanity_manager.Kv.{set_rule, set_host}
use vanity_manager.Kv.Laws.{stored_rule}
use vanity_manager.Sync.Rules.{IsRuleCodec}
use vanity_manager.Admin.Rules.Created.{rule_key, after_prefix}
use vanity_manager.Admin.Snapshot.{seed_rules, seed_hosts, mark_seeded, restore}

module _ (e : Env) (b : Backend) (laws : StoreLaws e b) (accepts : Accepts e b)
    (codec : IsRuleCodec e) (r : Redirect) where
  open e use {World}
  open laws use {view}

  abbrev Holds : Option Bytes → Type 0
  Holds o = and_then o e.serde.rule_from_slice ≡ some r

  abbrev P : World → Type 0
  P = AtKey e b laws (prefix_rule ++ after_prefix r) Holds

  seed_rules-Keeps :
      (rs : List Redirect)
      → All (λ s. str_eq (rule_key s) (rule_key r) ≡ false) rs
      → Keeps P (seed_rules e b rs)
  unfolding seed_rules set_rule k_rule
  seed_rules-Keeps [] others = Keeps-pure tt
  seed_rules-Keeps (s ∷ rs) (other, others) =
      Keeps-then (set_rule e b (rule_key s) s) (seed_rules e b rs)
        (Frame.set-Keeps e b laws (rule_key r) Holds (rule_key s) _ other)
        (seed_rules-Keeps rs others)

  seed_hosts-Keeps : (hs : List HostMeta) → Keeps P (seed_hosts e b hs)
  unfolding seed_hosts set_host k_host str_eq
  seed_hosts-Keeps [] = Keeps-pure tt
  seed_hosts-Keeps (h ∷ hs) =
      Keeps-then (set_host e b (k_host h.host) h) (seed_hosts e b hs)
        (Frame.set-Keeps e b laws (prefix_rule ++ after_prefix r) Holds (k_host h.host) _ refl)
        (seed_hosts-Keeps hs)

  mark_seeded-Keeps : Keeps P (mark_seeded e b)
  unfolding mark_seeded str_eq
  mark_seeded-Keeps =
      Frame.set-Keeps e b laws (prefix_rule ++ after_prefix r) Holds meta_seeded _ refl

  set_rule-Holds : (w : World) → P (set_rule e b (rule_key r) r w).1
  unfolding set_rule k_rule
  set_rule-Holds w =
      let k = rule_key r in
      let v = e.serde.rule_to_vec r in
      let there : view (Store.set e b k v w).1 k ≡ some v =
        laws.set_view k k v w (accepts.set_ok k v w) ∙ rw ((str_eq_iff k k).1 refl) refl in
      ap (λ o. and_then o e.serde.rule_from_slice) there ∙ codec r

  seed_rules-Holds :
      (xs ys : List Redirect) (w : World)
      → All (λ s. str_eq (rule_key s) (rule_key r) ≡ false) ys
      → P (seed_rules e b (xs ++ r ∷ ys) w).1
  unfolding seed_rules set_rule
  seed_rules-Holds [] ys w others =
      after-Keeps (set_rule e b (rule_key r) r) (λ _. seed_rules e b ys) w (set_rule-Holds w)
        (λ _. seed_rules-Keeps ys others)
  seed_rules-Holds (x ∷ xs) ys w others =
      let written = accepts.set_ok (rule_key x) (e.serde.rule_to_vec x) w in
      subst (λ o. P o.1)
        (sym (
          bind-run (set_rule e b (rule_key x) x) (λ _. seed_rules e b (xs ++ r ∷ ys)) w tt written))
        (seed_rules-Holds xs ys (set_rule e b (rule_key x) x w).1 others)

  -- A backend that keeps the laws and accepts writes and deletions, and a codec that reads what it wrote: after the restore from a
  -- catalog each rule of the catalog that no later one of the same key follows is read back as it stood there.
  pub restore-reads :
      (snapshot : RulesSnapshot) (xs ys : List Redirect) (w : World)
      → snapshot.rules ≡ xs ++ r ∷ ys
      → All (λ s. str_eq (rule_key s) (rule_key r) ≡ false) ys
      → stored_rule e b laws (restore e b (some snapshot) w).1 (rule_key r) ≡ some r
  unfolding restore k_rule
  restore-reads snapshot xs ys w split others =
      let seeded : P (seed_rules e b snapshot.rules w).1 =
        subst (λ rs. P (seed_rules e b rs w).1) (sym split) (seed_rules-Holds xs ys w others) in
      after-Keeps (seed_rules e b snapshot.rules)
        (λ _. seed_hosts e b snapshot.hosts >> mark_seeded e b) w seeded
        (λ _. Keeps-then _ _ (seed_hosts-Keeps snapshot.hosts) mark_seeded-Keeps)
