-- ===== src/Exec/Returns.antt =====
-- Properties of what a call returns, if it succeeds: what a call does last decides.
use mathlib.Core.Path.{subst}
use vanity_manager.Prelude.{◌≡◌, sym, ap, ◌∙◌}
use vanity_manager.Exec.Base.{ok, Exec, ◌>>=◌, pure, bind-ok}

pub record Returns {W A : Type 0} (Q : A → Type 0) (m : Exec W A) : Type 0 where
  pub at : (w : W) (a : A) → (m w).0 ≡ ok a → Q a

pub Returns-pure : {W A : Type 0} (Q : A → Type 0) (a : A) → Q a → Returns {W = W} Q (pure a)
Returns-pure Q a q = record { at = λ w a' h. subst Q (let same : a ≡ a' = cc in same) q }

pub Returns-bind :
    {W A B : Type 0} {Q : B → Type 0} (m : Exec W A) (f : A → Exec W B)
    → ((a : A) → Returns Q (f a))
    → Returns Q (m >>= f)
Returns-bind m f qf = record {
  at = λ w c h.
      let (a, _, same) = bind-ok m f w c h in (qf a).at (m w).1 c (sym (ap (λ x. x.0) same) ∙ h);
}
