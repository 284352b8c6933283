-- ===== src/Admin/Import/Counts.antt =====
-- Every rule of an import is counted once (admin-api/src/handlers.rs, run_import).
use vanity_manager.Prelude.{
  ℕ, suc, ◌+◌, ◌≡◌, refl, Bool, true, false, Option, none, some, List, [], ◌∷◌, ◌++◌, arith, Str,
  length, length-append, inl, inr, Option-cases, pos,
}
use vanity_manager.Exec.{Result, ok, err, Env, Result-cases}
use vanity_manager.Model.{Redirect, normalize_host, normalize_path}
use vanity_manager.Store.{Backend}
use vanity_manager.Kv.{set_rule}
use vanity_manager.Admin.{validate_rule, apply_ci, ensure_host_meta}
use vanity_manager.Admin.Import.{
  ImportError, invalid, case_flag, stored_rule, write, host_count, Import, push_imported,
  count_added, count_written, write_rule, merge_rule, import_keyed, import_rule, import_all,
  run_import,
}

module _ (e : Env) where
  open e use {World, Time, unicode, to_rfc3339}

  abbrev handled : Import e → ℕ
  handled p = p.added + p.updated + p.unchanged + length p.errors

  handled-fail :
      (x : ImportError) (p : Import e)
      → p.added + p.updated + p.unchanged + length (p.errors ++ x ∷ []) ≡ suc (handled p)
  handled-fail x p = omega (arith, length-append p.errors (x ∷ []))

  handled-push_imported :
      (b : Backend) (async : Bool) (key host : Str) (p : Import e)
      → handled (push_imported e b async key host p) ≡ handled p
  unfolding push_imported
  handled-push_imported b async key host p = refl

  handled-count_added :
      (b : Backend) (async : Bool) (key : Str) (r : Redirect) (p : Import e)
      → handled (count_added e b async key r p) ≡ suc (handled p)
  unfolding count_added
  handled-count_added b async key r p =
      let (counted, w) = ensure_host_meta e b r.host (pos 1) p.world in
      elim (Result-cases counted) [
        | inl (_, done) ↦
            rw (done, count_added)
              (omega (
                arith,
                handled-push_imported b async key r.host
                    (record p { added = p.added + 1; world = w }),
              ))
        | inr (x, failed) ↦ rw (failed, count_added) (handled-fail (host_count r.host r.path x) p)
      ]

  handled-count_written :
      (b : Backend) (async : Bool) (key : Str) (is_new : Bool) (r : Redirect) (p : Import e)
      → handled (count_written e b async key is_new r p) ≡ suc (handled p)
  unfolding count_written
  handled-count_written b async key true r p = handled-count_added b async key r p
  handled-count_written b async key false r p =
      omega (arith, handled-push_imported b async key r.host (record p { updated = p.updated + 1 }))

  handled-write_rule :
      (b : Backend) (started : Time) (async : Bool) (key : Str) (is_new : Bool) (r : Redirect)
      (p : Import e)
      → handled (write_rule e b started async key is_new r p) ≡ suc (handled p)
  unfolding write_rule
  handled-write_rule b started async key is_new r p =
      let stamped : Redirect = record r { updated_at = to_rfc3339 started; ekv_synced_at = [] } in
      let (written, w) = set_rule e b key stamped p.world in
      elim (Result-cases written) [
        | inl (_, done) ↦
            rw (done, write_rule)
              (handled-count_written b async key is_new stamped (record p { world = w }))
        | inr (x, failed) ↦ rw (failed, write_rule) (handled-fail (write r.host r.path x) p)
      ]

  handled-merge_rule :
      (b : Backend) (started : Time) (async : Bool) (key : Str) (r : Redirect)
      (x : Result (Option Redirect)) (p : Import e)
      → handled (merge_rule e b started async key r x p) ≡ suc (handled p)
  unfolding merge_rule
  handled-merge_rule b started async key r (err x) p = handled-fail (stored_rule r.host r.path x) p
  handled-merge_rule b started async key r (ok none) p =
      handled-write_rule b started async key true r p
  handled-merge_rule b started async key r (ok (some prev)) p =
      ground (arith, handled-write_rule b started async key false r p)

  handled-import_keyed :
      (b : Backend) (started : Time) (async : Bool) (r : Redirect) (p : Import e)
      → handled (import_keyed e b started async r p) ≡ suc (handled p)
  unfolding import_keyed
  handled-import_keyed b started async r p = handled-merge_rule b started async _ r _ _

  handled-import_rule :
      (b : Backend) (started : Time) (async : Bool) (r : Redirect) (p : Import e)
      → handled (import_rule e b started async r p) ≡ suc (handled p)
  unfolding import_rule
  handled-import_rule b started async r p =
      let r' : Redirect = record r {
        host = normalize_host unicode r.host;
        path = normalize_path r.path;
      } in
      let (applied, w) = apply_ci e b r' p.world in
      elim (Option-cases (validate_rule r)) [
        | inl fine ↦ elim (Result-cases applied) [
          | inl (r'', done) ↦
              rw (fine, import_rule, done)
                (handled-import_keyed b started async r'' (record p { world = w }))
          | inr (x, failed) ↦
              rw (fine, import_rule, failed) (handled-fail (case_flag r'.host r'.path x) p)
        ]
        | inr (message, bad) ↦
            rw (bad, import_rule) (handled-fail (invalid r.host r.path message) p)
      ]

  handled-import_all :
      (b : Backend) (started : Time) (async : Bool) (rs : List Redirect) (p : Import e)
      → handled (import_all e b started async rs p) ≡ length rs + handled p
  unfolding import_all
  handled-import_all b started async [] p = omega arith
  handled-import_all b started async (r ∷ rs) p = omega (
    arith,
    handled-import_all b started async rs (import_rule e b started async r p),
    handled-import_rule b started async r p,
  )

  -- Whatever the store and EdgeKV answer, in an import that does not replace every rule of the payload
  -- is counted exactly once, as added, as updated, as unchanged or as an error.
  pub run_import_counts :
      (b : Backend) (started : Time) (async : Bool) (rules : List Redirect) (w : World)
      → ((run_import e b started false async rules w).added
            + (run_import e b started false async rules w).updated
            + (run_import e b started false async rules w).unchanged
            + length (run_import e b started false async rules w).errors
          ≡ length rules)
  unfolding run_import
  run_import_counts b started async rules w =
      omega (arith, handled-import_all b started async rules _)
