-- ===== src/Prelude/Equality.antt =====
-- `==` on strings decides their equality.
use mathlib.Core.Path.{◌≡◌, refl, ap₂}
use mathlib.Core.Logic.{◌↔◌}
use mathlib.Core.Bool.{true, and-eq-true_iff}
use mathlib.Core.List.{[], ◌∷◌, ◌++◌}
use native.Mathlib.Omega.{arith}
use vanity_manager.Prelude.Tests.{==_iff}
use vanity_manager.Prelude.Text.{Str, str_eq, starts_with}

pub str_eq_refl : (s : Str) → str_eq s s ≡ true
unfolding str_eq
str_eq_refl [] = refl
str_eq_refl (c ∷ s) = ground (arith, str_eq_refl s)

str_eq_sound : (s t : Str) → str_eq s t ≡ true → s ≡ t
unfolding str_eq
str_eq_sound [] [] h = refl
str_eq_sound [] (d ∷ t) h = cc
str_eq_sound (c ∷ s) [] h = cc
str_eq_sound (c ∷ s) (d ∷ t) h =
    let (same, rest) = (and-eq-true_iff _ _).0 h in
    ap₂ ◌∷◌ ((==_iff c d).0 same) (str_eq_sound s t rest)

pub str_eq_iff : (s t : Str) → (str_eq s t ≡ true) ↔ (s ≡ t)
str_eq_iff s t = (str_eq_sound s t, λ e. rw e (str_eq_refl t))

pub starts_with_self : (p q : Str) → starts_with p (p ++ q) ≡ true
unfolding starts_with
starts_with_self [] q = refl
starts_with_self (c ∷ p) q = ground (arith, starts_with_self p q)
