-- ===== src/Tests/StoredRules.antt =====
-- What operations leave of stored rules, at a store in memory whose rules are read back as they were written.
use vanity_manager.Prelude.{
  ◌≡◌, refl, sym, ap, ◌∙◌, Option, arith, and_then, some, true, none, [], ◌∷◌, ◌++◌, codes, Str,
  str_eq, false,
}
use vanity_manager.Exec.{ok}
use vanity_manager.Model.{Redirect, HostMeta, RulesSnapshot, exact, new_host}
use vanity_manager.Keys.{k_rule, prefix_rule, k_host}
use vanity_manager.Store
use vanity_manager.Store.{spin, open_from_config}
use vanity_manager.Store.Spin.{spin_laws}
use vanity_manager.Resolve.{lookup_path, lookup, lookup_rules, longest_prefix, best_prefix}
use vanity_manager.Resolve.Managed.{at_host}
use vanity_manager.Sync.{enqueue_host_push, enqueue_rule_push, enqueue_rule_delete}
use vanity_manager.Admin.Rules.{push_gone}
use vanity_manager.Keys.{k_pending_ekv, rule_key_prefix}
use vanity_manager.Admin.TestLookup.{test_rules, test_in}
use vanity_manager.Admin.TestLookup.Agreement.{tested_rule, test_in-lookup}
use vanity_manager.Kv.{get_rule, get_host, set_host, set_rule}
use vanity_manager.Kv.Laws.{stored_rule}
use vanity_manager.Admin.Snapshot.{restore}
use vanity_manager.Admin.Snapshot.Restore.{restore-reads}
use vanity_manager.Sync.Rules.{HoldsRule}
use vanity_manager.Sync.Drain.{drain_pending}
use vanity_manager.Sync.Drain.Rules.{drain_pending-HoldsRule}
use vanity_manager.Admin.{answer, apply_ci, host_meta_or_new, ensure_host_meta, decrement_host_meta}
use vanity_manager.Admin.Rules.{
  create_in, create_applied, create_found, store_new, settle_new, delete_stored, delete_found,
  settle_deleted, push_pair,
}
use vanity_manager.Admin.Rules.Created.{rule_key, create_in-created}
use vanity_manager.Admin.Rules.Found.{create_in-lookup}
use vanity_manager.Admin.Rules.{store_changed, store_found}
use vanity_manager.Admin.Rules.Updated.{store_changed-updated}
use vanity_manager.Prelude.{is_some}
use vanity_manager.Admin.Rules.Unfound.{delete_stored-lookup_rules}
use vanity_manager.Resolve.Answers.{IsBestPrefix}
use vanity_manager.Admin.Rules.Gone.{delete_stored-gone}
use vanity_manager.Tests.Codec.{put_rule}
use vanity_manager.Tests.Memory.{
  Machine, coded, coded_laws, coded-IsApart, coded-Accepts, coded-Answers, coded-IsRuleCodec,
  holding, rule, meta,
}

abbrev created : Redirect
created = rule exact (codes "h") (codes "/a")

abbrev empty : Machine
empty = holding []

created_a : (create_in coded spin true created empty).0 ≡ ok (answer 201 created)
unfolding create_in apply_ci host_meta_or_new create_applied create_found store_new settle_new
    ensure_host_meta set_rule set_host get_host k_host k_rule Store.exists Store.get Store.set
    str_eq new_host
created_a = refl

create_in-created_example :
    (coded_laws.view empty (rule_key created) ≡ none)
    × HoldsRule coded created
        (coded_laws.view (create_in coded spin true created empty).1 (rule_key created))
create_in-created_example =
    create_in-created coded spin coded_laws coded-IsApart coded-IsRuleCodec true created created
      empty created_a

abbrev one_rule : Machine
one_rule =
    holding
      ((codes "rule:h|exact|/a", put_rule created) ∷ (codes "pending-ekv:rule:h|exact|/a", []) ∷ [])

drain_pending-HoldsRule_example :
    ((r : Redirect)
      → HoldsRule coded r (coded_laws.view one_rule (prefix_rule ++ codes "h|exact|/a"))
      → HoldsRule coded r (
          coded_laws.view
            (drain_pending coded spin 25 one_rule).world
            (prefix_rule ++ codes "h|exact|/a")))
    × (coded_laws.view one_rule (prefix_rule ++ codes "h|exact|/a") ≡ none
        → coded_laws.view
            (drain_pending coded spin 25 one_rule).world
            (prefix_rule ++ codes "h|exact|/a")
          ≡ none)
drain_pending-HoldsRule_example =
    drain_pending-HoldsRule coded spin coded_laws coded-IsApart coded-IsRuleCodec 25
      (codes "h|exact|/a") one_rule

deleted_a :
    (delete_stored coded spin true (prefix_rule ++ codes "h|exact|/a") (codes "h") one_rule).0
    ≡ ok (answer 200 tt)
unfolding delete_stored delete_found settle_deleted decrement_host_meta ensure_host_meta
    host_meta_or_new Store.exists Store.delete Store.get Store.set get_host set_host k_host str_eq
deleted_a = refl

delete_stored-gone_example :
    (coded_laws.view
        (delete_stored coded spin true (prefix_rule ++ codes "h|exact|/a") (codes "h") one_rule).1
        (prefix_rule ++ codes "h|exact|/a")
      ≡ none)
    × ((other : Str) (r : Redirect)
        → str_eq (prefix_rule ++ codes "h|exact|/a") (prefix_rule ++ other) ≡ false
        → HoldsRule coded r (coded_laws.view one_rule (prefix_rule ++ other))
        → HoldsRule coded r (
            coded_laws.view
              (delete_stored coded spin true
                (prefix_rule ++ codes "h|exact|/a")
                (codes "h")
                one_rule).1
              (prefix_rule ++ other)))
delete_stored-gone_example =
    delete_stored-gone coded spin coded_laws coded-IsApart coded-IsRuleCodec true
      (codes "h|exact|/a") (codes "h") one_rule (answer 200 tt) deleted_a

abbrev managed_rule : Machine
managed_rule =
    holding ((codes "rule:h|exact|/a", put_rule created) ∷ (codes "host:h", codes "h") ∷ [])

created_a-enabled :
    (r : Redirect)
    → and_then
        (coded_laws.view managed_rule (k_rule (codes "h") exact (codes "/a")))
        coded.serde.rule_from_slice
      ≡ some r
    → r.enabled ≡ true
unfolding spin_laws str_eq k_rule
created_a-enabled r h = let same : created ≡ r = cc in ap (λ (x : Redirect). x.enabled) (sym same)

-- Every host sees a path as it is: the lower case of these tests is the identity.
lookup_path-coded :
    (found : Option HostMeta) (path : Str) → lookup_path coded.unicode found path ≡ path
unfolding lookup_path
lookup_path-coded none path = refl
lookup_path-coded (some h) path = ground arith

opened_spin : (w : Machine) → (open_from_config coded w).0 ≡ ok spin
unfolding open_from_config
opened_spin w = refl

managed_h :
    (Store.exists coded spin (k_host (codes "h")) (open_from_config coded managed_rule).1).0
    ≡ ok true
unfolding open_from_config Store.exists k_host str_eq
managed_h = refl

test_in-lookup_example :
    lookup coded (codes "h") (codes "/a") managed_rule
    ≡ tested_rule coded spin (codes "h") (codes "/a") (at_host coded spin (codes "h") managed_rule)
test_in-lookup_example =
    test_in-lookup coded spin coded_laws (codes "h") (codes "/a") managed_rule true
      (opened_spin managed_rule) managed_h
      (λ found r got stored. created_a-enabled r (
        ap
          (λ p.
            and_then (coded_laws.view managed_rule (k_rule (codes "h") exact p))
              coded.serde.rule_from_slice)
          (sym (lookup_path-coded found (codes "/a")))
        ∙ stored))

tested_a : (tested_rule coded spin (codes "h") (codes "/a") managed_rule).0 ≡ ok (some created)
unfolding test_in test_rules get_rule get_host lookup_path Store.get str_eq k_rule k_host
tested_a = refl

-- At a host that is not managed the test finds the rule, and the handler does not.
abbrev unmanaged : Machine
unmanaged = holding ((rule_key created, put_rule created) ∷ [])

tested_unmanaged : (tested_rule coded spin (codes "h") (codes "/a") unmanaged).0 ≡ ok (some created)
unfolding test_in test_rules get_rule get_host lookup_path Store.get str_eq k_rule k_host
tested_unmanaged = refl

looked_up_unmanaged : (lookup coded (codes "h") (codes "/a") unmanaged).0 ≡ ok none
unfolding lookup open_from_config Store.exists str_eq k_rule k_host
looked_up_unmanaged = refl

abbrev snapshot : RulesSnapshot
snapshot = record {
  snapshot_version = 1;
  generated_at = [];
  rule_count = 2;
  host_count = 0;
  rules = created ∷ rule exact (codes "h") (codes "/b") ∷ [];
  hosts = [];
}

b_is_other : str_eq (rule_key (rule exact (codes "h") (codes "/b"))) (rule_key created) ≡ false
unfolding str_eq k_rule
b_is_other = refl

restore-reads_example :
    stored_rule coded spin coded_laws
      (restore coded spin (some snapshot) empty).1
      (rule_key created)
    ≡ some created
restore-reads_example =
    restore-reads coded spin coded_laws coded-Accepts coded-IsRuleCodec created snapshot []
      (rule exact (codes "h") (codes "/b") ∷ []) empty refl (b_is_other, tt)

abbrev after_creation : Machine
after_creation = (create_in coded spin true created empty).1

created_managed :
    (Store.exists coded spin (k_host (codes "h")) (open_from_config coded after_creation).1).0
    ≡ ok true
unfolding open_from_config create_in create_applied create_found store_new settle_new apply_ci
    host_meta_or_new ensure_host_meta get_host set_host set_rule push_pair Store.get Store.set
    Store.exists k_rule k_host str_eq enqueue_host_push k_pending_ekv enqueue_rule_push
created_managed = refl

created_meta :
    (get_host coded spin (k_host (codes "h")) (at_host coded spin (codes "h") after_creation)).0
    ≡ ok (some (meta (codes "h")))
unfolding open_from_config create_in create_applied create_found store_new settle_new apply_ci
    host_meta_or_new ensure_host_meta get_host set_host set_rule push_pair Store.get Store.set
    Store.exists k_rule k_host str_eq enqueue_host_push k_pending_ekv enqueue_rule_push new_host
created_meta = refl

create_in-lookup_example :
    (at : Str) × ((lookup coded (codes "h") (codes "/a") after_creation).0
      ≡ ok (some (record created { ekv_synced_at = at })))
create_in-lookup_example =
    create_in-lookup coded spin coded_laws coded-Answers coded-IsApart coded-IsRuleCodec true
      created created (codes "/a") true (some (meta (codes "h"))) empty created_a refl refl
      (opened_spin after_creation) created_managed created_meta
      (lookup_path-coded (some (meta (codes "h"))) (codes "/a"))

abbrev changed : Redirect
changed = record created { enabled = false }

changed_a :
    (store_changed coded spin true (rule_key changed) changed one_rule).0 ≡ ok (answer 200 changed)
unfolding store_changed store_found set_rule Store.exists Store.set str_eq k_rule
changed_a = refl

store_changed-updated_example :
    (is_some (coded_laws.view one_rule (rule_key changed)) ≡ true)
    × HoldsRule coded changed (
        coded_laws.view
          (store_changed coded spin true (rule_key changed) changed one_rule).1
          (rule_key changed))
store_changed-updated_example =
    store_changed-updated coded spin coded_laws coded-IsApart coded-IsRuleCodec true changed changed
      one_rule changed_a

deleted_exact :
    (delete_stored coded spin true (k_rule (codes "h") exact (codes "/a")) (codes "h") one_rule).0
    ≡ ok (answer 200 tt)
unfolding delete_stored delete_found settle_deleted decrement_host_meta ensure_host_meta
    host_meta_or_new Store.exists Store.delete Store.get Store.set get_host set_host k_host str_eq
    k_rule
deleted_exact = refl

not_found :
    (lookup_rules coded spin
      (codes "h")
      (codes "/a")
      (delete_stored coded spin true
        (k_rule (codes "h") exact (codes "/a"))
        (codes "h")
        one_rule).1).0
    ≡ ok none
unfolding delete_stored delete_found settle_deleted decrement_host_meta ensure_host_meta
    host_meta_or_new Store.exists Store.delete Store.get Store.set get_host set_host k_host str_eq
    k_rule lookup_rules get_rule push_gone enqueue_host_push k_pending_ekv enqueue_rule_delete
    longest_prefix Store.keys_with_prefix best_prefix rule_key_prefix
not_found = refl

delete_stored-lookup_rules_example :
    IsBestPrefix coded
      (coded_laws.view
        (delete_stored coded spin true
          (k_rule (codes "h") exact (codes "/a"))
          (codes "h")
          one_rule).1)
      (codes "h")
      (codes "/a")
      none
delete_stored-lookup_rules_example =
    delete_stored-lookup_rules coded spin coded_laws coded-IsApart coded-IsRuleCodec true
      (codes "h") (codes "/a") one_rule (answer 200 tt) none deleted_exact not_found
