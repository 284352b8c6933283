-- ===== src/Resolve/Best.antt =====
-- The rule that the fallback resolver picks (redirect-handler/src/lib.rs).
pub mod Order
use vanity_manager.Prelude.{
  ℕ, ◌≡◌, refl, sym, ◌∙◌, ◌⊎◌, inl, inr, Bool, true, false, Option, none, some, List, [], ◌∷◌,
  arith, Str, Bytes, and_then, is_some, starts_with, All, Any, Bool-cases, Option-cases,
}
use vanity_manager.Exec.{Result, ok, err, Env, Result-cases}
use vanity_manager.Model.{Redirect, HostMeta, exact}
use vanity_manager.Keys.{k_rule, k_host, rule_key_prefix}
use vanity_manager.Store
use vanity_manager.Store.{Backend}
use vanity_manager.Store.Laws.{StoreLaws}
use vanity_manager.Kv.{get_rule, get_json}
use vanity_manager.Kv.Laws.{get_rule-stored, get_rule-keeps}
use vanity_manager.Resolve.{
  path_matches, better, consider, is_candidate, best_prefix, longest_prefix, lookup_rules,
}
use vanity_manager.Resolve.Best.Order.{
  Outranks, Outranks-refl, Outranks-trans, better-Outranks, unbeaten-Outranks,
}

-- The result is there, and is at least as good as `s`.
abbrev pub Beats : Option Redirect → Redirect → Type 0
Beats none s = ⊥
Beats (some r) s = Outranks r s

Beats-self : (o : Option Redirect) (s : Redirect) → o ≡ some s → Beats o s
Beats-self none s h = cc
Beats-self (some r) s h = ground (arith, Outranks-refl r)

Beats-trans : (o : Option Redirect) (r s : Redirect) → Beats o r → Outranks r s → Beats o s
Beats-trans none r s h k = h
Beats-trans (some t) r s h k = Outranks-trans t r s h k

-- A rule that the loop has at hand: the best so far, or an enabled one that was just read.
abbrev pub AtHand : Option Redirect → Option Redirect → Redirect → Type 0
AtHand found best s = (best ≡ some s) ⊎ ((found ≡ some s) × (s.enabled ≡ true))

consider-Beats :
    (found best : Option Redirect) (s : Redirect)
    → AtHand found best s
    → Beats (consider found best) s
unfolding consider
consider-Beats none (some b) s h = ground (arith, Outranks-refl b)
consider-Beats none none s h = ground arith
consider-Beats (some r) none s h = unfold better in ground (arith, Outranks-refl r)
consider-Beats (some r) (some b) s h =
    ground (arith, Outranks-refl b, Outranks-refl r, better-Outranks r b, unbeaten-Outranks r b)

consider-AtHand :
    (found best : Option Redirect) (r : Redirect)
    → consider found best ≡ some r
    → AtHand found best r
unfolding consider
consider-AtHand none best r h = ground arith
consider-AtHand (some x) best r h = ground arith

module _ (e : Env) (b : Backend) (laws : StoreLaws e b) where
  open e use {World, serde}
  open laws use {view}

  -- The rule is enabled, and stands at a key of a matching prefix rule.
  abbrev pub Candidate : (Str → Option Bytes) → Str → Redirect → Str → Type 0
  Candidate m path r key =
      (is_candidate path key ≡ true)
      × (and_then (m key) serde.rule_from_slice ≡ some r)
      × (r.enabled ≡ true)

  -- What the loop gives back from `best` on.
  pub record Scanned (m : Str → Option Bytes) (path : Str) (best : Option Redirect)
      (keys : List Str) (res : Option Redirect) : Type 0 where
    pub beats : (s : Redirect) → (best ≡ some s) ⊎ Any (Candidate m path s) keys → Beats res s
    pub origin : (r : Redirect) → res ≡ some r → (best ≡ some r) ⊎ Any (Candidate m path r) keys

  Scanned-skip :
      (m : Str → Option Bytes) (path : Str) (best : Option Redirect) (key : Str) (keys : List Str)
      (res : Option Redirect)
      → is_candidate path key ≡ false
      → Scanned m path best keys res
      → Scanned m path best (key ∷ keys) res
  Scanned-skip m path best key keys res no_candidate h = record {
    beats = λ s a. elim a [
      | inl eq ↦ h.beats s (inl eq)
      | inr (inl c) ↦ cc (c.0, no_candidate)
      | inr (inr later) ↦ h.beats s (inr later)
    ];
    origin = λ r eq. elim (h.origin r eq) [ inl x ↦ inl x | inr later ↦ inr (inr later) ];
  }

  Scanned-read :
      (m : Str → Option Bytes) (path : Str) (best : Option Redirect) (key : Str) (keys : List Str)
      (res : Option Redirect)
      → is_candidate path key ≡ true
      → Scanned m path (consider (and_then (m key) serde.rule_from_slice) best) keys res
      → Scanned m path best (key ∷ keys) res
  Scanned-read m path best key keys res candidate h = record {
    beats = λ s a. elim a [
      | inl eq ↦ through s (inl eq)
      | inr (inl c) ↦ through s (inr (c.1, c.2))
      | inr (inr later) ↦ h.beats s (inr later)
    ];
    origin = λ r eq. elim (h.origin r eq) [
      | inl x ↦ elim (consider-AtHand found best r x) [
        | inl old ↦ inl old
        | inr new ↦ inr (inl (candidate, new.0, new.1))
      ]
      | inr later ↦ inr (inr later)
    ];
  }
    where
      found : Option Redirect
      found = and_then (m key) serde.rule_from_slice

      through : (s : Redirect) → AtHand found best s → Beats res s
      through s a = elim (Option-cases (consider found best)) [
        | inl gone ↦ absurd (rw gone at (consider-Beats found best s a))
        | inr (t, kept) ↦
            Beats-trans res t s (h.beats t (inl kept)) (rw kept at (consider-Beats found best s a))
      ]

  pub best_prefix-Scanned :
      (m : Str → Option Bytes) (path : Str) (keys : List Str) (best res : Option Redirect)
      (w : World)
      → view w ≡ m
      → (best_prefix e b path keys best w).0 ≡ ok res
      → Scanned m path best keys res
  unfolding best_prefix
  best_prefix-Scanned m path [] best res w same h =
      let eq : best ≡ res = ground arith in
      record {
        beats = λ s a. elim a [ inl x ↦ Beats-self res s (sym eq ∙ x) | inr x ↦ absurd x ];
        origin = λ r x. inl (eq ∙ x);
      }
  best_prefix-Scanned m path (key ∷ keys) best res w same h =
      elim (Bool-cases (is_candidate path key)) [
        | inr other ↦
            Scanned-skip m path best key keys res other
              (best_prefix-Scanned m path keys best res w same (ground arith))
        | inl candidate ↦ elim (Result-cases (get_rule e b key w).0) [
          | inl (found, read) ↦
              let stored : found ≡ and_then (m key) serde.rule_from_slice =
                rw same at (get_rule-stored e b laws key w found read) in
              Scanned-read m path best key keys res candidate (
                rw stored at (
                  best_prefix-Scanned m path keys (consider found best) res (get_rule e b key w).1
                    (get_rule-keeps e b laws key w ∙ same) (ground arith)))
          | inr (x, failed) ↦ absurd (ground arith)
        ]
      ]
