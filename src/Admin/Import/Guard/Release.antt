-- ===== src/Admin/Import/Guard/Release.antt =====
-- An import gives its lock back (admin-api/src/handlers.rs, import_rules).
use vanity_manager.Prelude.{
  ◌≡◌, refl, sym, ap, ◌∙◌, Bool, true, false, none, List, as_bytes, str_eq_iff, if◌then◌else◌,
}
use vanity_manager.Exec.{ok, ◌>>=◌, pure, ignore, Env, bind-ok, bind-run}
use vanity_manager.Model.{Redirect}
use vanity_manager.Store
use vanity_manager.Store.{Backend}
use vanity_manager.Store.Laws.{StoreLaws, Answers, Accepts}
use vanity_manager.Admin.{answer}
use vanity_manager.Admin.Import.{import_lock_key}
use vanity_manager.Admin.Import.Guard.{
  Report, lock_time, is_held, write_lock, lock_unless_held, acquire_import_lock,
  release_import_lock, import_locked, import_acquired, import_opened,
}

module _ (e : Env) (b : Backend) (laws : StoreLaws e b) (answers : Answers e b)
    (accepts : Accepts e b) where
  open e use {World, Time}
  open laws use {view}

  write_lock-runs : (w : World) → (write_lock e b w).0 ≡ ok true
  unfolding write_lock
  write_lock-runs w =
      let (t, w') = e.now w in
      ap (λ x. x.0)
        (bind-run (Store.set e b import_lock_key (as_bytes (e.to_rfc3339 t))) (λ _. pure true) w' tt
          (accepts.set_ok import_lock_key _ w'))

  -- A lock that nobody holds is taken.
  acquire_import_lock-free :
      (w : World) → view w import_lock_key ≡ none → (acquire_import_lock e b w).0 ≡ ok true
  unfolding acquire_import_lock lock_unless_held is_held lock_time
  acquire_import_lock-free w free =
      let (stored, read) = answers.get_ok import_lock_key w in
      let nothing : stored ≡ none = laws.get_view import_lock_key w stored read ∙ free in
      ap (λ x. x.0) (bind-run (Store.get e b import_lock_key) (lock_unless_held e b) w stored read)
      ∙ (ap (λ o. (lock_unless_held e b o (Store.get e b import_lock_key w).1).0) nothing
          ∙ write_lock-runs _)

  release_import_lock-free : (w : World) → view (release_import_lock e b w) import_lock_key ≡ none
  unfolding release_import_lock
  release_import_lock-free w =
      let k = import_lock_key in
      laws.delete_view k k w (accepts.delete_ok k w) ∙ rw ((str_eq_iff k k).1 refl) refl

  import_acquired-free :
      (started : Time) (replace async acquired : Bool) (rules : List Redirect) (w : World)
      (report : Report)
      → (import_acquired e b started replace async rules acquired w).0 ≡ ok (answer 200 report)
      → view (import_acquired e b started replace async rules acquired w).1 import_lock_key ≡ none
  unfolding import_acquired import_locked
  import_acquired-free started replace async true rules w report h = release_import_lock-free _
  import_acquired-free started replace async false rules w report h = absurd (cc)

  import_opened-free :
      (started : Time) (replace force async : Bool) (rules : List Redirect) (w : World)
      (report : Report)
      → (import_opened e b started replace force async rules w).0 ≡ ok (answer 200 report)
      → view (import_opened e b started replace force async rules w).1 import_lock_key ≡ none
  unfolding import_opened
  import_opened-free started replace force async rules w report h =
      let cleared = if force then ignore (Store.delete e b import_lock_key) else pure tt in
      let import = import_acquired e b started replace async rules in
      let (_, _, same) =
        bind-ok cleared (λ _. acquire_import_lock e b >>= import) w (answer 200 report) h in
      let w' = (cleared w).1 in
      let (acquired, _, same') =
        bind-ok (acquire_import_lock e b) import w' (answer 200 report)
          (sym (ap (λ x. x.0) same) ∙ h) in
      ap (λ x. view x.1 import_lock_key) (same ∙ same')
      ∙ import_acquired-free started replace async acquired rules _ report
          (sym (ap (λ x. x.0) (same ∙ same')) ∙ h)

  -- A backend that keeps the laws, answers reads and accepts writes and deletions: after an import that answers with its
  -- report, nobody holds the lock, and the next import that asks for it takes it.
  pub import_opened-releases :
      (started : Time) (replace force async : Bool) (rules : List Redirect) (w : World)
      (report : Report)
      → (import_opened e b started replace force async rules w).0 ≡ ok (answer 200 report)
      → (view (import_opened e b started replace force async rules w).1 import_lock_key ≡ none)
        × ((acquire_import_lock e b (import_opened e b started replace force async rules w).1).0
            ≡ ok true)
  import_opened-releases started replace force async rules w report h =
      let free = import_opened-free started replace force async rules w report h in
      (free, acquire_import_lock-free _ free)
