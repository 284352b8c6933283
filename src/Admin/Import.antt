-- ===== src/Admin/Import.antt =====
-- The bulk import of admin-api/src/handlers.rs. An error keeps what its text is made of.
pub mod Counts
pub mod Stored
pub mod Listed
pub mod Removal
pub mod Replaced
pub mod Guard
use vanity_manager.Prelude.{
  ℕ, ◌+◌, ℤ, pos, lt_i64, ◌==ℤ◌, Bool, bool_eq, true, false, not, ◌&&◌, ◌||◌, Option, none, some,
  List, [], ◌∷◌, ◌++◌, Str, Bytes, codes, str_eq, str_le, starts_with, from_utf8, as_bytes, length,
  if◌then◌else◌, and_then, unwrap_or, is_some,
}
use vanity_manager.Exec.{Result, ok, err, Error, Exec, ◌>>=◌, ◌>>◌, pure, ignore, Env}
use vanity_manager.Model.{Redirect, match_type_eq, normalize_host, normalize_path}
use vanity_manager.Keys.{prefix_rule, k_rule, parse_rule_key}
use vanity_manager.Store
use vanity_manager.Store.{Backend, open_from_config}
use vanity_manager.Kv.{get_rule, set_rule}
use vanity_manager.Sync.{
  timestamp, push_rule_inline, push_host_inline, push_delete_rule_inline, enqueue_rule_push,
  enqueue_host_push, enqueue_rule_delete,
}
use vanity_manager.Admin.{
  Request, query_param, flag, validate_rule, apply_ci, ensure_host_meta, decrement_host_meta,
}

abbrev pub import_lock_key : Str
import_lock_key = codes "_import_lock"

-- In seconds.
abbrev pub import_lock_stale : ℤ
import_lock_stale = pos 600

-- The fields that do not change on every write agree.
unfoldable pub rule_content_eq : Redirect → Redirect → Bool
rule_content_eq a b =
    str_eq a.target_url b.target_url
    && a.status_code ==ℤ b.status_code
    && match_type_eq a.match_type b.match_type
    && bool_eq a.preserve_path b.preserve_path
    && bool_eq a.preserve_query b.preserve_query
    && bool_eq a.enabled b.enabled
    && a.priority ==ℤ b.priority
    && str_eq a.notes b.notes

pub data ImportError : Type 0 where
  invalid : (host path message : Str) → ImportError
  case_flag stored_rule write host_count : (host path : Str) → Error → ImportError
  removal removal_count : (key : Str) → Error → ImportError

-- `BTreeSet::insert`: sorted, each host once.
unfoldable pub insert_host : Str → List Str → List Str
insert_host host [] = host ∷ []
insert_host host (h ∷ hs) =
    let rest = insert_host host hs in
    if str_eq host h then h ∷ hs else if str_le host h then host ∷ h ∷ hs else h ∷ rest

-- `HashSet::contains`
unfoldable pub contains_key : List Str → Str → Bool
contains_key [] key = false
contains_key (k ∷ ks) key = str_eq k key || contains_key ks key

-- The mode parameter: whether the import replaces, if there is such a mode.
unfoldable pub replace_of_mode : Str → Option Bool
replace_of_mode mode =
    if str_eq mode (codes "upsert") || str_eq mode (codes "merge") || str_eq mode []
    then some false
    else if str_eq mode (codes "replace")
        || str_eq mode (codes "sync")
        || str_eq mode (codes "full")
    then some true
    else none

module _ (e : Env) where
  open e use {
    World, Time, unicode, serde, now, to_rfc3339, parse_from_rfc3339, seconds_since,
    milliseconds_since,
  }

  -- The variables of `run_import` and the world.
  pub record Import : Type 0 where
    pub added : ℕ
    pub updated : ℕ
    pub unchanged : ℕ
    pub deleted : ℕ
    pub errors : List ImportError
    pub touched_hosts : List Str
    pub payload_keys : List Str
    pub world : World

  abbrev fail : ImportError → World → Import → Import
  fail x w p = record p { errors = p.errors ++ x ∷ []; world = w }

  abbrev touch : Str → World → Import → Import
  touch host w p = record p { touched_hosts = insert_host host p.touched_hosts; world = w }

  -- The push of a rule that was written, then the host is marked as touched.
  unfoldable pub push_imported : Backend → Bool → Str → Str → Import → Import
  push_imported b async key host p =
      touch host
        (if async then enqueue_rule_push e b key p.world else push_rule_inline e b key p.world) p

  -- The rule is new: the host's count goes up first.
  unfoldable pub count_added : Backend → Bool → Str → Redirect → Import → Import
  count_added b async key r p =
      let (counted, w) = ensure_host_meta e b r.host (pos 1) p.world in
      elim counted [
        | err x ↦ fail (host_count r.host r.path x) w p
        | ok _ ↦ push_imported b async key r.host (record p { added = p.added + 1; world = w })
      ]

  -- A rule that was written counts as added or as updated.
  unfoldable pub count_written : Backend → Bool → Str → Bool → Redirect → Import → Import
  count_written b async key true r p = count_added b async key r p
  count_written b async key false r p =
      push_imported b async key r.host (record p { updated = p.updated + 1 })

  unfoldable pub write_rule : Backend → Time → Bool → Str → Bool → Redirect → Import → Import
  write_rule b started async key is_new r p =
      let stamped : Redirect = record r { updated_at = to_rfc3339 started; ekv_synced_at = [] } in
      let (written, w) = set_rule e b key stamped p.world in
      elim written [
        | err x ↦ fail (write r.host r.path x) w p
        | ok _ ↦ count_written b async key is_new stamped (record p { world = w })
      ]

  -- The rule against what is stored under its key.
  unfoldable pub merge_rule :
      Backend → Time → Bool → Str → Redirect → Result (Option Redirect) → Import → Import
  merge_rule b started async key r (err x) p = fail (stored_rule r.host r.path x) p.world p
  merge_rule b started async key r (ok none) p = write_rule b started async key true r p
  merge_rule b started async key r (ok (some prev)) p =
      if rule_content_eq prev r
      then record p { unchanged = p.unchanged + 1 }
      else write_rule b started async key false r p

  unfoldable pub import_keyed : Backend → Time → Bool → Redirect → Import → Import
  import_keyed b started async r p =
      let key = k_rule r.host r.match_type r.path in
      let (existing, w) = get_rule e b key p.world in
      merge_rule b started async key r existing
        (record p { payload_keys = key ∷ p.payload_keys; world = w })

  -- One round of the first loop.
  unfoldable pub import_rule : Backend → Time → Bool → Redirect → Import → Import
  import_rule b started async r p = elim (validate_rule r) [
    | some message ↦ fail (invalid r.host r.path message) p.world p
    | none ↦
        let r' : Redirect = record r {
          host = normalize_host unicode r.host;
          path = normalize_path r.path;
        } in
        let (applied, w) = apply_ci e b r' p.world in
        elim applied [
          | err x ↦ fail (case_flag r'.host r'.path x) w p
          | ok r'' ↦ import_keyed b started async r'' (record p { world = w })
        ]
  ]

  unfoldable pub import_all : Backend → Time → Bool → List Redirect → Import → Import
  import_all b started async [] p = p
  import_all b started async (r ∷ rs) p =
      import_all b started async rs (import_rule b started async r p)

  unfoldable pub push_removed : Backend → Bool → Str → Str → Import → Import
  push_removed b async key host p =
      let p' =
        touch host
          (if async
            then enqueue_rule_delete e b key p.world
            else push_delete_rule_inline e b key p.world)
          p in
      record p' { deleted = p'.deleted + 1 }

  unfoldable pub remove_rule : Backend → Bool → Str → Str → Import → Import
  remove_rule b async key host p =
      let (removed, w) = Store.delete e b key p.world in
      elim removed [
        | err x ↦ fail (removal key x) w p
        | ok _ ↦
            let (counted, w') = decrement_host_meta e b host w in
            elim counted [
              | err x ↦ fail (removal_count key x) w' p
              | ok _ ↦ push_removed b async key host (record p { world = w' })
            ]
      ]

  -- One round of the second loop: a key that is no rule's, or that the payload has, stays.
  unfoldable pub remove_absent : Backend → Bool → Str → Import → Import
  remove_absent b async key p =
      if not (starts_with prefix_rule key) || contains_key p.payload_keys key
      then p
      else elim (parse_rule_key key) [
        | none ↦ p
        | some (host, _, _) ↦ remove_rule b async key host p
      ]

  unfoldable pub remove_all : Backend → Bool → List Str → Import → Import
  remove_all b async [] p = p
  remove_all b async (key ∷ keys) p = remove_all b async keys (remove_absent b async key p)

  -- A failed listing counts as empty.
  unfoldable pub remove_listed : Backend → Bool → Import → Import
  remove_listed b async p =
      let (r, w) = Store.keys_with_prefix e b prefix_rule p.world in
      remove_all b async (elim r [ ok keys ↦ keys | err _ ↦ [] ]) (record p { world = w })

  unfoldable pub push_touched : Backend → Bool → List Str → World → World
  push_touched b async [] w = w
  push_touched b async (h ∷ hs) w =
      push_touched b async hs
        (if async then enqueue_host_push e b h w else push_host_inline e b h w)

  abbrev pub nothing_yet : World → Import
  nothing_yet w = record {
    added = 0;
    updated = 0;
    unchanged = 0;
    deleted = 0;
    errors = [];
    touched_hosts = [];
    payload_keys = [];
    world = w;
  }

  -- `run_import` up to its answer, which holds the counts and the errors.
  unfoldable pub run_import : Backend → Time → Bool → Bool → List Redirect → World → Import
  run_import b started replace async rules w =
      let p = import_all b started async rules (nothing_yet w) in
      let q = if replace then remove_listed b async p else p in
      record q { world = push_touched b async q.touched_hosts q.world }
