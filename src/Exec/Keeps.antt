-- ===== src/Exec/Keeps.antt =====
-- Invariants of calls, one rule for each way to build a call: `m` keeps `P`, whether it succeeds or not.
use vanity_manager.Prelude.{◌≡◌, refl, Bool, true, false, if◌then◌else◌}
use vanity_manager.Exec.Base.{
  Result, ok, err, Error, Exec, ◌>>=◌, ◌>>◌, pure, raise, lift, attempt, ignore, go_on,
}

pub record Keeps {W A : Type 0} (P : W → Type 0) (m : Exec W A) : Type 0 where
  pub at : (w : W) → P w → P (m w).1

module _ {W A : Type 0} {P : W → Type 0} where
  pub Keeps-pure : (a : A) → Keeps P (pure a)
  Keeps-pure a = record { at = λ w h. h }

  pub Keeps-raise : (x : Error) → Keeps P (raise {A = A} x)
  Keeps-raise x = record { at = λ w h. h }

  pub Keeps-lift : (r : Result A) → Keeps P (lift r)
  Keeps-lift r = record { at = λ w h. h }

  pub Keeps-if : (c : Bool) (m n : Exec W A) → Keeps P m → Keeps P n → Keeps P (if c then m else n)
  Keeps-if true m n km kn = km
  Keeps-if false m n km kn = kn

  pub Keeps-ignore : (m : Exec W A) → Keeps P m → Keeps P (ignore m)
  Keeps-ignore m km = record { at = λ w h. km.at w h }

  pub Keeps-attempt : (m : Exec W A) → Keeps P m → Keeps P (attempt m)
  Keeps-attempt m km = record { at = λ w h. km.at w h }

go_on-known :
    {W A B : Type 0} (P : W → Type 0) (x : Result A × W) (f : A → Exec W B)
    → ((a : A) → x.0 ≡ ok a → P (f a x.1).1)
    → P x.1
    → P (go_on x f).1
go_on-known P (ok a, w) f kf h = kf a refl
go_on-known P (err x, w) f kf h = h

module _ {W A B : Type 0} {P : W → Type 0} where
  go_on-Keeps :
      (x : Result A × W) (f : A → Exec W B) → ((a : A) → Keeps P (f a)) → P x.1 → P (go_on x f).1
  go_on-Keeps (ok a, w) f kf h = (kf a).at w h
  go_on-Keeps (err x, w) f kf h = h

  pub Keeps-bind :
      (m : Exec W A) (f : A → Exec W B) → Keeps P m → ((a : A) → Keeps P (f a)) → Keeps P (m >>= f)
  Keeps-bind m f km kf = record { at = λ w h. go_on-Keeps (m w) f kf (km.at w h) }

  -- What follows may use what `m` has read.
  pub Keeps-bind_known :
      (m : Exec W A) (f : A → Exec W B)
      → ((w : W) (a : A) → P w → (m w).0 ≡ ok a → P (f a (m w).1).1)
      → Keeps P m
      → Keeps P (m >>= f)
  Keeps-bind_known m f kf km = record {
    at = λ w h. go_on-known P (m w) f (λ a read. kf w a h read) (km.at w h);
  }

module _ {W B : Type 0} {P : W → Type 0} where
  pub Keeps-then : (m : Exec W (Unit {0})) (k : Exec W B) → Keeps P m → Keeps P k → Keeps P (m >> k)
  Keeps-then m k km kk = Keeps-bind m (λ _. k) km (λ _. kk)

pub ruleset keeps_rules =
    (Keeps-pure, Keeps-raise, Keeps-lift, Keeps-if, Keeps-ignore, Keeps-bind, Keeps-then)

-- What holds after `m` still does after what follows it.
pub after-Keeps :
    {W A B : Type 0} {P : W → Type 0} (m : Exec W A) (f : A → Exec W B) (w : W)
    → P (m w).1
    → ((a : A) → Keeps P (f a))
    → P ((m >>= f) w).1
after-Keeps m f w h kf = go_on-Keeps (m w) f kf h
