-- ===== src/Admin/Import/Guard/Exclusion.antt =====
-- One import at a time (admin-api/src/handlers.rs, acquire_import_lock).
use mathlib.Core.Path.{subst}
use vanity_manager.Prelude.{
  ◌≡◌, refl, sym, ap, ◌∙◌, inl, inr, Bool, true, false, not, Option, some, Bytes, as_bytes, lt_i64,
  from_utf8-as_bytes, Bool-cases, str_eq_iff,
}
use vanity_manager.Exec.{Result, ok, pure, Env, bind-ok}
use vanity_manager.Ekv.Items.RoundTrip.{IsText}
use vanity_manager.Store
use vanity_manager.Store.{Backend}
use vanity_manager.Store.Laws.{StoreLaws}
use vanity_manager.Admin.Import.{import_lock_key, import_lock_stale}
use vanity_manager.Admin.Import.Guard.{
  lock_time, is_held, write_lock, lock_unless_held, acquire_import_lock,
}

-- A clock whose times are written as text and read back, as `to_rfc3339` and `parse_from_rfc3339` are documented.
pub record ClockText (e : Env) : Type 0 where
  pub text : (t : e.Time) → IsText (e.to_rfc3339 t)
  pub read : (t : e.Time) → e.parse_from_rfc3339 (e.to_rfc3339 t) ≡ some t

module _ (e : Env) (b : Backend) (laws : StoreLaws e b) (clock : ClockText e) where
  open e use {World, Time, now, to_rfc3339, seconds_since}
  open laws use {view}

  -- The lock that is stored in a world was written at a time.
  abbrev Locked : Time → World → Type 0
  Locked t w = view w import_lock_key ≡ some (as_bytes (to_rfc3339 t))

  -- The same run, named by its parts.
  Locked-step :
      (t : Time) {r s : Result Bool × World}
      → r ≡ s
      → r.0 ≡ ok true
      → (s.0 ≡ ok true → Locked t s.1)
      → Locked t r.1
  Locked-step t same h k = subst (λ x. Locked t x.1) (sym same) (k (sym (ap (λ x. x.0) same) ∙ h))

  write_lock-Locked :
      (w : World) → (write_lock e b w).0 ≡ ok true → Locked (now w).0 (write_lock e b w).1
  unfolding write_lock
  write_lock-Locked w h =
      let (t, w') = now w in
      let (_, done, same) =
        bind-ok (Store.set e b import_lock_key (as_bytes (to_rfc3339 t))) (λ _. pure true) w' true
          h in
      let k = import_lock_key in
      Locked-step t same h (λ _.
        laws.set_view k k (as_bytes (to_rfc3339 t)) w' done ∙ rw ((str_eq_iff k k).1 refl) refl)

  write_lock-true :
      (w : World) (acquired : Bool) → (write_lock e b w).0 ≡ ok acquired → acquired ≡ true
  unfolding write_lock
  write_lock-true w acquired h =
      let (t, w') = now w in
      let (_, _, same) =
        bind-ok (Store.set e b import_lock_key (as_bytes (to_rfc3339 t))) (λ _. pure true) w'
          acquired h in
      let both : ok true ≡ ok acquired = sym (ap (λ x. x.0) same) ∙ h in cc

  -- The time at which a call that finds `stored` writes the lock.
  abbrev pub written_at : Option Bytes → World → Time
  written_at stored w = (now (is_held e (lock_time e stored) w).1).0

  lock_unless_held-Locked :
      (stored : Option Bytes) (w : World)
      → (lock_unless_held e b stored w).0 ≡ ok true
      → Locked (written_at stored w) (lock_unless_held e b stored w).1
  unfolding lock_unless_held
  lock_unless_held-Locked stored w h =
      let (held, w') = is_held e (lock_time e stored) w in
      elim (Bool-cases held) [
        | inl taken ↦
            let same : lock_unless_held e b stored w ≡ (ok false, w') =
              rw (taken, lock_unless_held) refl in
            let no : ok false ≡ ok true = sym (ap (λ x. x.0) same) ∙ h in absurd cc
        | inr free ↦
            let same : lock_unless_held e b stored w ≡ write_lock e b w' =
              rw (free, lock_unless_held) refl in
            Locked-step (now w').0 same h (write_lock-Locked w')
      ]

  acquire_import_lock-Locked :
      (w : World)
      → (acquire_import_lock e b w).0 ≡ ok true
      → Locked
          (written_at (view w import_lock_key) (Store.get e b import_lock_key w).1)
          (acquire_import_lock e b w).1
  unfolding acquire_import_lock
  acquire_import_lock-Locked w h =
      let w' = (Store.get e b import_lock_key w).1 in
      let (o, got, same) =
        bind-ok (Store.get e b import_lock_key) (lock_unless_held e b) w true h in
      subst (λ p. Locked (written_at p w') (acquire_import_lock e b w).1)
        (laws.get_view import_lock_key w o got)
        (Locked-step (written_at o w') same h (lock_unless_held-Locked o w'))

  lock_time-Locked : (t : Time) → lock_time e (some (as_bytes (to_rfc3339 t))) ≡ some t
  unfolding lock_time
  lock_time-Locked t = rw (from_utf8-as_bytes (to_rfc3339 t) (clock.text t)) (clock.read t)

  -- Whether a lock of that time has not become stale for a call in that world.
  abbrev pub is_recent : Time → World → Bool
  is_recent t w =
      lt_i64 (seconds_since (now (Store.get e b import_lock_key w).1).0 t) import_lock_stale

  is_held-Locked :
      (t : Time) (w : World)
      → (is_held e (lock_time e (some (as_bytes (to_rfc3339 t)))) w).0
        ≡ lt_i64 (seconds_since (now w).0 t) import_lock_stale
  unfolding is_held
  is_held-Locked t w = rw (lock_time-Locked t) refl

  lock_unless_held-recent :
      (t : Time) (w : World) (acquired : Bool)
      → (lock_unless_held e b (some (as_bytes (to_rfc3339 t))) w).0 ≡ ok acquired
      → acquired ≡ not (lt_i64 (seconds_since (now w).0 t) import_lock_stale)
  unfolding lock_unless_held
  lock_unless_held-recent t w acquired h =
      let stored = some (as_bytes (to_rfc3339 t)) in
      let (held, w') = is_held e (lock_time e stored) w in
      rw (sym (is_held-Locked t w)) (elim (Bool-cases held) [
        | inl taken ↦
            let same : lock_unless_held e b stored w ≡ (ok false, w') =
              rw (taken, lock_unless_held) refl in
            let refused : ok false ≡ ok acquired = sym (ap (λ x. x.0) same) ∙ h in rw taken (cc)
        | inr free ↦
            let same : lock_unless_held e b stored w ≡ write_lock e b w' =
              rw (free, lock_unless_held) refl in
            rw free (write_lock-true w' acquired (sym (ap (λ x. x.0) same) ∙ h))
      ])

  -- An attempt that finds the lock which an earlier successful attempt wrote, and whose calls of the
  -- store succeed, gets the lock exactly if the lock's time lies 600 seconds or more back by the clock
  -- of that moment. Between the two attempts anything may have happened that leaves the lock's key as
  -- it was. It is assumed that the store keeps its laws and that a time which is written as text is
  -- read back.
  pub acquire_import_lock-excludes :
      (w w' : World) (acquired : Bool)
      → (acquire_import_lock e b w).0 ≡ ok true
      → view w' import_lock_key ≡ view (acquire_import_lock e b w).1 import_lock_key
      → (acquire_import_lock e b w').0 ≡ ok acquired
      → acquired
        ≡ not
            (is_recent (written_at (view w import_lock_key) (Store.get e b import_lock_key w).1) w')
  unfolding acquire_import_lock
  acquire_import_lock-excludes w w' acquired first kept h =
      let t = written_at (view w import_lock_key) (Store.get e b import_lock_key w).1 in
      let w2 = (Store.get e b import_lock_key w').1 in
      let (o, got, same) =
        bind-ok (Store.get e b import_lock_key) (lock_unless_held e b) w' acquired h in
      let stored : o ≡ some (as_bytes (to_rfc3339 t)) =
        laws.get_view import_lock_key w' o got ∙ kept ∙ acquire_import_lock-Locked w first in
      let run : (lock_unless_held e b o w2).0 ≡ ok acquired = sym (ap (λ x. x.0) same) ∙ h in
      lock_unless_held-recent t w2 acquired
        (subst (λ p. (lock_unless_held e b p w2).0 ≡ ok acquired) stored run)
