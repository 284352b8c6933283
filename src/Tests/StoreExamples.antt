-- ===== src/Tests/StoreExamples.antt =====
-- The properties of seeding, of statistics, of the token and of imports at a store in memory.
use vanity_manager.Prelude.{
  ◌≡◌, ◌⊎◌, ◌↔◌, refl, inr, true, false, none, some, List, [], ◌∷◌, ◌++◌, ◌+◌, ◌%◌, ◌^◌, codes, Str,
  Any, is_some, str_eq, starts_with, length, is_empty, if◌then◌else◌, ◌==ℤ◌, pos,
}
use vanity_manager.Exec.{ok, Method}
use vanity_manager.Model.{Redirect, exact, normalize_host, normalize_path, match_type_eq}
use vanity_manager.Keys.{
  prefix_rule, prefix_host, k_pending_ekv, parse_rule_key, split_field, parse_match_type, k_host,
  k_rule,
}
use vanity_manager.Store
use vanity_manager.Store.{spin}
use vanity_manager.Store.Spin.{spin_laws}
use vanity_manager.Kv.{get_host, get_rule, set_rule, set_host, read_counter}
use vanity_manager.Sync.{write_through, try_push_rule}
use vanity_manager.Sync.Markers.{Settled, write_through-Settled}
use vanity_manager.Admin.{
  Request, answer, supplies, supplied_token, query_param, validate_rule, apply_ci, host_meta_or_new,
  ensure_host_meta,
}
use vanity_manager.Admin.Hosts.{Stats, stats_in, sum_hosts, stats_of, add_host, add_u64, sub_u64}
use vanity_manager.Admin.Hosts.Sums.{counted, host_at, stats_in-counted}
use vanity_manager.Admin.Import.{
  contains_key, import_all, nothing_yet, run_import, import_rule, import_keyed, merge_rule,
  rule_content_eq, write_rule, count_written, count_added, push_imported,
}
use vanity_manager.Admin.Import.Guard.{
  Report, import_opened, import_acquired, import_locked, acquire_import_lock, lock_unless_held,
  is_held, write_lock, lock_time,
}
use vanity_manager.Admin.Import.Guard.Release.{import_opened-releases}
use vanity_manager.Admin.Import.{import_lock_key, push_touched}
use vanity_manager.Admin.Import.Stored.{IsStored}
use vanity_manager.Admin.Import.Listed.{IsChecked}
use vanity_manager.Admin.Import.Removal.{run_import-IsStored}
use vanity_manager.Admin.Import.Replaced.{run_import-none}
use vanity_manager.Admin.Routes.{handle_request}
use vanity_manager.Admin.Routes.Token.{IsOutside, handle_request-IsOutside}
use vanity_manager.Admin.Snapshot.{ensure_seeded}
use vanity_manager.Admin.Snapshot.Seeding.{ensure_seeded-keeps}
use vanity_manager.Tests.Codec.{put_rule}
use vanity_manager.Tests.Memory.{
  Machine, coded, coded_laws, coded-IsApart, coded-Accepts, coded-Answers, locked, locked_laws,
  holding, rule,
}

abbrev key_of_a : Str
key_of_a = codes "rule:h|exact|/a"

-- A rule, and the metadata of its host.
abbrev one_rule : Machine
one_rule =
    holding (
      (key_of_a, put_rule (rule exact (codes "h") (codes "/a"))) ∷ (codes "host:h", codes "h") ∷ [])

has_a : is_some (coded_laws.view one_rule (prefix_rule ++ codes "h|exact|/a")) ≡ true
unfolding spin_laws str_eq
has_a = refl

ensure_seeded-keeps_example :
    coded_laws.view (ensure_seeded coded spin one_rule).1 key_of_a
    ≡ coded_laws.view one_rule key_of_a
unfolding str_eq
ensure_seeded-keeps_example =
    ensure_seeded-keeps coded spin coded_laws key_of_a (coded_laws.view one_rule key_of_a) refl
      one_rule refl (inr (codes "h|exact|/a", has_a))

abbrev figures_of_h : Stats
figures_of_h = record {
  total_rules = 1;
  enabled = 1;
  disabled = 0;
  unique_hosts = 1;
  pending_ekv_pushes = 0;
  last_snapshot_at = [];
  last_ekv_push_at = [];
  ekv_pushes_total = 0;
  ekv_errors_total = 0;
  pending_drained_total = 0;
}

counted_h : (stats_in coded spin one_rule).0 ≡ ok (answer 200 figures_of_h)
unfolding stats_in sum_hosts stats_of add_host add_u64 sub_u64 Store.keys_with_prefix Store.get
    get_host str_eq read_counter
counted_h = refl

stats_in-counted_example :
    (keys : List Str) × ((k : Str)
      → Any (λ j. j ≡ k) keys
        ↔ ((starts_with prefix_host k ≡ true) × (is_some (coded_laws.view one_rule k) ≡ true)))
    × (t : Stats) × (answer 200 figures_of_h ≡ answer 200 t)
    × (t.total_rules
        ≡ (counted true (host_at coded spin coded_laws (coded_laws.view one_rule)) keys
            + counted false (host_at coded spin coded_laws (coded_laws.view one_rule)) keys)
          % 2 ^ 64)
    × (t.enabled
        ≡ counted true (host_at coded spin coded_laws (coded_laws.view one_rule)) keys % 2 ^ 64)
    × (t.disabled
        ≡ counted false (host_at coded spin coded_laws (coded_laws.view one_rule)) keys % 2 ^ 64)
    × (t.unique_hosts ≡ length keys)
stats_in-counted_example =
    stats_in-counted coded spin coded_laws one_rule (answer 200 figures_of_h) counted_h

-- A request for the rules without a token.
abbrev request : Request
request = record {
  method = Method.get;
  header = λ name. if str_eq name (codes "spin-path-info") then some (codes "/v1/rules") else none;
  body = [];
}

locked_token : locked.variable (codes "admin_token") ≡ some (codes "secret")
unfolding str_eq
locked_token = refl

no_token : supplies (supplied_token request) (codes "secret") ≡ false
unfolding supplies query_param str_eq
no_token = refl

not_empty : is_empty (codes "secret") ≡ false
unfolding is_empty
not_empty = refl

handle_request-IsOutside_example :
    IsOutside locked
      (handle_request locked (λ name. name) (λ routes method path. none) request one_rule).0
    × (locked_laws.view
          (handle_request locked (λ name. name) (λ routes method path. none) request one_rule).1
        ≡ locked_laws.view one_rule)
handle_request-IsOutside_example =
    handle_request-IsOutside locked spin locked_laws (λ name. name) (λ routes method path. none)
      request (codes "secret") one_rule locked_token not_empty no_token

write_through-Settled_example :
    Settled coded spin coded_laws coded-Accepts coded-IsApart key_of_a
      (λ cfg. try_push_rule coded spin cfg key_of_a)
      one_rule
      (write_through coded spin key_of_a (λ cfg. try_push_rule coded spin cfg key_of_a) one_rule)
    ⊎ (is_some (
          coded_laws.view
            (write_through coded spin key_of_a
              (λ cfg. try_push_rule coded spin cfg key_of_a)
              one_rule)
            (k_pending_ekv key_of_a))
        ≡ true)
write_through-Settled_example =
    write_through-Settled coded spin coded_laws coded-Accepts coded-IsApart key_of_a
      (λ cfg. try_push_rule coded spin cfg key_of_a) one_rule

abbrev payload_of : Str → List Redirect
payload_of path = rule exact (codes "h") path ∷ []

payload_of-IsChecked :
    IsChecked coded spin 0 true
      (payload_of (codes "/a"))
      one_rule
      (prefix_rule ++ codes "h|exact|/a")
unfolding import_all validate_rule is_empty starts_with apply_ci host_meta_or_new get_host Store.get
    str_eq k_host normalize_host k_rule normalize_path
payload_of-IsChecked = record {
  before = [];
  rule = rule exact (codes "h") (codes "/a");
  later = [];
  applied = rule exact (codes "h") (codes "/a");
  has_rule = refl;
  valid = refl;
  case_applied = refl;
  has_key = refl;
}

run_import-IsStored_example : IsStored (
    coded_laws.view
      (run_import coded spin 0 true true (payload_of (codes "/a")) one_rule).world
      (prefix_rule ++ codes "h|exact|/a"))
run_import-IsStored_example =
    run_import-IsStored coded spin coded_laws coded-IsApart (codes "h|exact|/a") 0 true true
      (payload_of (codes "/a")) one_rule has_a (inr payload_of-IsChecked)

unlisted_a :
    contains_key
      (import_all coded spin 0 true
        (payload_of (codes "/b"))
        (nothing_yet coded one_rule)).payload_keys
      (prefix_rule ++ codes "h|exact|/a")
    ≡ false
unfolding import_all contains_key import_rule validate_rule is_empty starts_with apply_ci
    host_meta_or_new get_host Store.get str_eq k_host normalize_host import_keyed merge_rule
    get_rule k_rule normalize_path rule_content_eq match_type_eq write_rule count_written
    count_added push_imported ensure_host_meta set_rule set_host Store.set
unlisted_a = refl

key_of_a-parsed :
    parse_rule_key (prefix_rule ++ codes "h|exact|/a") ≡ some (codes "h", exact, codes "/a")
unfolding parse_rule_key split_field parse_match_type str_eq
key_of_a-parsed = refl

run_import-none_example :
    coded_laws.view
      (run_import coded spin 0 true true (payload_of (codes "/b")) one_rule).world
      (prefix_rule ++ codes "h|exact|/a")
    ≡ none
run_import-none_example =
    run_import-none coded spin coded_laws coded-IsApart coded-Accepts (codes "h|exact|/a")
      coded-Answers 0 true (payload_of (codes "/b")) one_rule (codes "h", exact, codes "/a")
      key_of_a-parsed unlisted_a

abbrev report_of_a : Report
report_of_a = record {
  replace = false;
  queued = true;
  total = 1;
  added = 0;
  updated = 0;
  unchanged = 1;
  deleted = 0;
  errors = [];
  duration_ms = pos 1000;
}

imported_a :
    (import_opened coded spin 0 false false true (payload_of (codes "/a")) one_rule).0
    ≡ ok (answer 200 report_of_a)
unfolding import_all contains_key import_rule validate_rule is_empty starts_with apply_ci
    host_meta_or_new get_host Store.get str_eq k_host normalize_host import_keyed merge_rule
    get_rule k_rule normalize_path rule_content_eq match_type_eq ◌==ℤ◌ import_opened import_acquired
    import_locked run_import acquire_import_lock lock_unless_held is_held write_lock lock_time
    Store.set push_touched
imported_a = refl

import_opened-releases_example :
    (coded_laws.view
        (import_opened coded spin 0 false false true (payload_of (codes "/a")) one_rule).1
        import_lock_key
      ≡ none)
    × ((acquire_import_lock coded spin
          (import_opened coded spin 0 false false true (payload_of (codes "/a")) one_rule).1).0
        ≡ ok true)
import_opened-releases_example =
    import_opened-releases coded spin coded_laws coded-Answers coded-Accepts 0 false false true
      (payload_of (codes "/a")) one_rule report_of_a imported_a
