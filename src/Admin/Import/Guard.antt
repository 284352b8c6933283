-- ===== src/Admin/Import/Guard.antt =====
-- The lock of the bulk import and the handler that takes it (admin-api/src/handlers.rs, from
-- `acquire_import_lock` to `import_rules`).
pub mod Exclusion
pub mod Release
use vanity_manager.Prelude.{
  ℕ, ◌+◌, ℤ, lt_i64, Bool, true, false, Option, none, some, List, [], ◌∷◌, Str, Bytes, codes,
  as_bytes, from_utf8, length, if◌then◌else◌, and_then, unwrap_or,
}
use vanity_manager.Exec.{Result, ok, err, Exec, ◌>>=◌, ◌>>◌, pure, ignore, Env}
use vanity_manager.Model.{Redirect}
use vanity_manager.Store
use vanity_manager.Store.{Backend, open_from_config}
use vanity_manager.Sync.{timestamp}
use vanity_manager.Admin.{Request, Reply, failure, answer, query_param, flag}
use vanity_manager.Admin.Import.{
  import_lock_key, import_lock_stale, ImportError, Import, replace_of_mode, run_import,
}

-- What an import reports.
pub record Report : Type 0 where
  pub replace : Bool
  pub queued : Bool
  pub total : ℕ
  pub added : ℕ
  pub updated : ℕ
  pub unchanged : ℕ
  pub deleted : ℕ
  pub errors : List ImportError
  pub duration_ms : ℤ

module _ (e : Env) where
  open e use {
    World, Time, unicode, serde, now, parse_from_rfc3339, seconds_since, milliseconds_since,
  }

  -- The time in a stored lock, if it can be read.
  unfoldable pub lock_time : Option Bytes → Option Time
  lock_time stored = and_then (and_then stored from_utf8) parse_from_rfc3339

  -- Whether a lock is held: one that cannot be read is none, and one of ten minutes is stale.
  unfoldable pub is_held : Option Time → World → Bool × World
  is_held none w = (false, w)
  is_held (some prev) w =
      let (t, w') = now w in (lt_i64 (seconds_since t prev) import_lock_stale, w')

  unfoldable pub write_lock : Backend → Exec World Bool
  write_lock b = do at ← timestamp e; Store.set e b import_lock_key (as_bytes at); pure true

  unfoldable pub lock_unless_held : Backend → Option Bytes → Exec World Bool
  lock_unless_held b stored w =
      let (held, w') = is_held (lock_time stored) w in
      elim held [ true ↦ (ok false, w') | false ↦ write_lock b w' ]

  unfoldable pub acquire_import_lock : Backend → Exec World Bool
  acquire_import_lock b = do stored ← Store.get e b import_lock_key; lock_unless_held b stored

  unfoldable pub release_import_lock : Backend → World → World
  release_import_lock b w = (Store.delete e b import_lock_key w).1

  abbrev report : Time → Bool → Bool → List Redirect → Import e → Report
  report started replace async rules p = record {
    replace = replace;
    queued = async;
    total = length rules;
    added = p.added;
    updated = p.updated;
    unchanged = p.unchanged;
    deleted = p.deleted;
    errors = p.errors;
    duration_ms = milliseconds_since (now p.world).0 started;
  }

  -- The import under the lock, which is given back afterwards.
  unfoldable pub import_locked :
      Backend → Time → Bool → Bool → List Redirect → World → Reply Report × World
  import_locked b started replace async rules w =
      let p = run_import e b started replace async rules w in
      (answer 200 (report started replace async rules p), release_import_lock b (now p.world).1)

  -- The import where the lock was taken, else the refusal.
  unfoldable pub import_acquired :
      Backend → Time → Bool → (async : Bool) → List Redirect → Bool → Exec World (Reply Report)
  import_acquired b started replace async rules true w =
      let (reply, w') = import_locked b started replace async rules w in (ok reply, w')
  import_acquired b started replace async rules false w =
      (ok (failure 409 (codes "import already in progress (use ?force=1 to override)")), w)

  -- `import_rules` once the backend is open.
  unfoldable pub import_opened :
      Backend → Time → Bool → (force async : Bool) → List Redirect → Exec World (Reply Report)
  unfolding import_acquired
  import_opened b started replace force async rules = do
    if force then ignore (Store.delete e b import_lock_key) else pure tt
    acquired ← acquire_import_lock b
    import_acquired b started replace async rules acquired

  abbrev mode_of : Request → Str
  mode_of req =
      unwrap_or (codes "upsert")
        (and_then (query_param req (codes "mode")) (λ s. some (unicode.to_lowercase s)))

  unfoldable pub import_rules : Request → Exec World (Reply Report)
  import_rules req w =
      let (started, w') = now w in
      elim (serde.rules_from_slice req.body) [
        | none ↦ (ok (failure 400 (codes "invalid json")), w')
        | some rules ↦ elim (replace_of_mode (mode_of req)) [
          | none ↦ (ok (failure 400 (codes "unknown mode")), w')
          | some replace ↦
              (do
                b ← open_from_config e
                import_opened b started replace (flag req (codes "force"))
                    (flag req (codes "async")) rules)
                w'
        ]
      ]
