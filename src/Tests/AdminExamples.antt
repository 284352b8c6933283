-- ===== src/Tests/AdminExamples.antt =====
-- The properties of the admin API at inputs that meet their hypotheses, and runs of its definitions.
use vanity_manager.Admin.{answer, failure, decrement_host_meta, ensure_host_meta, host_meta_or_new}
use vanity_manager.Admin.Rules.{delete_stored, delete_found, settle_deleted}
use vanity_manager.Admin.Rules.Replies.{delete_stored-reply}
use vanity_manager.Kv.{get_host, set_host}
use vanity_manager.Keys.{k_host}
use vanity_manager.Prelude.{
  ◌⊎◌, is_some, ◌+◌, ◌≤◌, ◌<◌, ◌≡◌, refl, from_utf8, as_bytes, false, true, not, List, [], ◌∷◌,
  arith, codes, Str, length, to_string-lt, to_string, digits-to_string, lt_i64, str_eq, digits,
}
use vanity_manager.Exec.{ok}
use vanity_manager.Model.{Redirect, prefix}
use vanity_manager.Store
use vanity_manager.Store.{spin}
use vanity_manager.Ekv.Items.Apart.{ascii-IsText}
use vanity_manager.Admin.Import.{run_import, import_lock_key}
use vanity_manager.Admin.Import.Counts.{run_import_counts}
use vanity_manager.Admin.Import.Guard.{
  acquire_import_lock, lock_unless_held, write_lock, is_held, lock_time,
}
use vanity_manager.Admin.Import.Guard.Exclusion.{
  ClockText, is_recent, written_at, acquire_import_lock-excludes,
}
use vanity_manager.Admin.Upkeep.{mark_keys, clear_keys}
use vanity_manager.Admin.Upkeep.Progress.{
  mark_keys-progress, clear_keys-progress, mark_keys-completes, calls_until_done,
}
use vanity_manager.Tests.Memory.{Machine, memory, memory-StoreLaws, holding, rule}

abbrev payload : List Redirect
payload = rule prefix (codes "h") (codes "/a") ∷ rule prefix [] (codes "/b") ∷ []

abbrev empty : Machine
empty = holding []

run_import_counts_example :
    (run_import memory spin 0 false true payload empty).added
      + (run_import memory spin 0 false true payload empty).updated
      + (run_import memory spin 0 false true payload empty).unchanged
      + length (run_import memory spin 0 false true payload empty).errors
    ≡ length payload
run_import_counts_example = run_import_counts memory spin 0 true payload empty

abbrev three_keys : List Str
three_keys = codes "rule:h|prefix|/a" ∷ codes "rule:h|prefix|/b" ∷ codes "rule:h|prefix|/c" ∷ []

mark_keys-progress_example :
    (1 < (mark_keys memory spin false 0 (codes "now") three_keys 1 5 empty).next_cursor)
    × ((mark_keys memory spin false 0 (codes "now") three_keys 1 5 empty).next_cursor
        ≡ 1
          + ((mark_keys memory spin false 0 (codes "now") three_keys 1 5 empty).stamped
              + (mark_keys memory spin false 0 (codes "now") three_keys 1 5 empty).errors))
    × ((mark_keys memory spin false 0 (codes "now") three_keys 1 5 empty).stamped
          + (mark_keys memory spin false 0 (codes "now") three_keys 1 5 empty).errors
        ≤ 5)
    × ((mark_keys memory spin false 0 (codes "now") three_keys 1 5 empty).next_cursor
          + (mark_keys memory spin false 0 (codes "now") three_keys 1 5 empty).remaining
        ≡ length three_keys)
mark_keys-progress_example =
    mark_keys-progress memory spin false 0 (codes "now") three_keys 1 5 empty (omega arith)
      (omega arith) (omega arith)

clear_keys-progress_example :
    (0
      < (clear_keys memory spin 0 three_keys 2 empty).deleted
        + (clear_keys memory spin 0 three_keys 2 empty).errors)
    × ((clear_keys memory spin 0 three_keys 2 empty).deleted
          + (clear_keys memory spin 0 three_keys 2 empty).errors
        ≤ 2)
    × ((clear_keys memory spin 0 three_keys 2 empty).deleted
          + (clear_keys memory spin 0 three_keys 2 empty).errors
          + (clear_keys memory spin 0 three_keys 2 empty).remaining
        ≡ length three_keys)
clear_keys-progress_example =
    clear_keys-progress memory spin 0 three_keys 2 empty (omega arith) (omega arith)

memory-ClockText : ClockText memory
memory-ClockText = record {
  text = λ t. ascii-IsText (to_string t) (to_string-lt t);
  read = λ t. digits-to_string t;
}

first_lock : (acquire_import_lock memory spin empty).0 ≡ ok true
unfolding acquire_import_lock lock_unless_held write_lock is_held lock_time Store.get Store.set
    str_eq
first_lock = refl

second_lock :
    (acquire_import_lock memory spin (acquire_import_lock memory spin empty).1).0 ≡ ok false
unfolding acquire_import_lock lock_unless_held write_lock is_held lock_time Store.get Store.set
    str_eq lt_i64 digits from_utf8 as_bytes to_string
second_lock = refl

-- A day later the same lock is stale.
abbrev a_day_later : Machine
a_day_later = record (acquire_import_lock memory spin empty).1 { time = 86400 }

later_lock : (acquire_import_lock memory spin a_day_later).0 ≡ ok true
unfolding acquire_import_lock lock_unless_held write_lock is_held lock_time Store.get Store.set
    str_eq lt_i64 digits from_utf8 as_bytes to_string
later_lock = refl

acquire_import_lock-excludes_example :
    false
    ≡ not (
        is_recent memory spin memory-StoreLaws memory-ClockText
          (written_at memory spin memory-StoreLaws memory-ClockText
            (memory-StoreLaws.view empty import_lock_key)
            (Store.get memory spin import_lock_key empty).1)
          (acquire_import_lock memory spin empty).1)
acquire_import_lock-excludes_example =
    acquire_import_lock-excludes memory spin memory-StoreLaws memory-ClockText empty
      (acquire_import_lock memory spin empty).1 false first_lock refl second_lock

abbrev stored_key : Str
stored_key = codes "rule:h|prefix|/a"

abbrev one_rule : Machine
one_rule = holding ((stored_key, codes "/a") ∷ [])

deleted_one_rule :
    (delete_stored memory spin true stored_key (codes "h") one_rule).0 ≡ ok (answer 200 tt)
unfolding delete_stored delete_found settle_deleted decrement_host_meta ensure_host_meta
    host_meta_or_new Store.exists Store.delete Store.get Store.set get_host set_host k_host str_eq
deleted_one_rule = refl

delete_stored-reply_example :
    ((is_some (memory-StoreLaws.view one_rule stored_key) ≡ true) × (answer 200 tt ≡ answer 200 tt))
    ⊎ ((is_some (memory-StoreLaws.view one_rule stored_key) ≡ false)
        × (answer 200 tt ≡ failure 404 (codes "rule not found"))
        × (memory-StoreLaws.view (delete_stored memory spin true stored_key (codes "h") one_rule).1
            ≡ memory-StoreLaws.view one_rule))
delete_stored-reply_example =
    delete_stored-reply memory spin memory-StoreLaws true stored_key (codes "h") one_rule
      (answer 200 tt) deleted_one_rule

mark_keys-completes_example :
    calls_until_done memory spin false (codes "now") three_keys 1 (λ n. (n, empty)) 3 0
    ≡ length three_keys
mark_keys-completes_example =
    mark_keys-completes memory spin false (codes "now") three_keys 1 (λ n. (n, empty)) 3 0
      (omega arith) (omega arith) (omega arith) (omega arith)
