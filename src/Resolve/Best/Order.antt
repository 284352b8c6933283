-- ===== src/Resolve/Best/Order.antt =====
-- The order of rules by the length of their path, then by priority (redirect-handler/src/lib.rs).
use vanity_manager.Prelude.{
  ℤ, pos, negsuc, ◌≡◌, ◌<◌, ◌⊎◌, ◌∙◌, ◌==◌, inl, inr, refl, true, false, some, arith, lt_i64, ltb,
  str_len, Bool-cases,
}
use vanity_manager.Model.{Redirect}
use vanity_manager.Resolve.{better}

-- `r` is at least as good as `s`: its path is longer, or as long and its priority is not lower.
abbrev pub Outranks : Redirect → Redirect → Type 0
Outranks r s =
    (str_len s.path < str_len r.path)
    ⊎ ((str_len s.path ≡ str_len r.path) × (lt_i64 r.priority s.priority ≡ false))

pub lt_i64_irrefl : (a : ℤ) → lt_i64 a a ≡ false
unfolding lt_i64
lt_i64_irrefl (pos a) = ground arith
lt_i64_irrefl (negsuc a) = ground arith

pub lt_i64_asymm : (a b : ℤ) → lt_i64 a b ≡ true → lt_i64 b a ≡ false
unfolding lt_i64
lt_i64_asymm (pos a) (pos b) h = ground arith
lt_i64_asymm (pos a) (negsuc b) h = cc
lt_i64_asymm (negsuc a) (pos b) h = refl
lt_i64_asymm (negsuc a) (negsuc b) h = ground arith

pub le_i64_trans : (a b c : ℤ) → lt_i64 b a ≡ false → lt_i64 c b ≡ false → lt_i64 c a ≡ false
unfolding lt_i64
le_i64_trans (pos a) (pos b) (pos c) h k = ground arith
le_i64_trans (negsuc a) (negsuc b) (negsuc c) h k = ground arith
le_i64_trans _ _ _ h k = ground arith

pub Outranks-refl : (r : Redirect) → Outranks r r
Outranks-refl r = inr (refl, lt_i64_irrefl r.priority)

pub Outranks-trans : (r s t : Redirect) → Outranks r s → Outranks s t → Outranks r t
Outranks-trans r s t (inl h) (inl k) = inl (omega (arith, h, k))
Outranks-trans r s t (inl h) (inr (k, _)) = inl (omega (arith, h, k))
Outranks-trans r s t (inr (h, _)) (inl k) = inl (omega (arith, h, k))
Outranks-trans r s t (inr (h, p)) (inr (k, q)) =
    inr (k ∙ h, le_i64_trans t.priority s.priority r.priority q p)

-- A rule that replaces the best one is at least as good, and so is a best one that is not replaced.
pub better-Outranks : (r s : Redirect) → better r (some s) ≡ true → Outranks r s
unfolding better
better-Outranks r s h = elim (Bool-cases (ltb (str_len s.path) (str_len r.path))) [
  | inl longer ↦ inl (ground (arith, longer))
  | inr other ↦
      inr (ground (arith, h, other), lt_i64_asymm s.priority r.priority (ground (arith, h, other)))
]

pub unbeaten-Outranks : (r s : Redirect) → better r (some s) ≡ false → Outranks s r
unfolding better
unbeaten-Outranks r s h = elim (Bool-cases (str_len r.path == str_len s.path)) [
  | inl same ↦ inr (ground (arith, same), ground (arith, h, same))
  | inr other ↦ inl (ground (arith, h, other))
]
