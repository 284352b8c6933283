-- ===== src/Sync/Rules.antt =====
-- A push, inline or by the drain, changes nothing of a stored rule but its stamp (shared/src/sync.rs).
use mathlib.Core.Path.{subst}
use vanity_manager.Prelude.{
  ◌≡◌, refl, sym, ap, ◌∙◌, inl, inr, Option, none, some, ◌++◌, Str, Bytes, and_then, str_eq,
  str_eq_iff, pos, Bool-cases,
}
use vanity_manager.Exec.{Env}
use vanity_manager.Exec.Keeps.{Keeps, Keeps-bind, Keeps-bind_known, Keeps-pure}
use vanity_manager.Model.{Redirect, HostMeta}
use vanity_manager.Keys.{
  prefix_rule, counter_ekv_pushes, counter_ekv_errors, meta_last_ekv_push, k_pending_ekv, k_host,
}
use vanity_manager.Store.{Backend}
use vanity_manager.Store.Laws.{StoreLaws, IsApart}
use vanity_manager.Store.Frame
use vanity_manager.Store.Frame.{AtKey, AtKey-view, AtKey-key}
use vanity_manager.Kv.{get_rule, set_rule, set_host}
use vanity_manager.Kv.Laws.{get_rule-stored, get_rule-keeps, stored_rule}
use vanity_manager.Kv.Frame.{get_rule-Keeps, get_host-Keeps}
use vanity_manager.Ekv.Frame.{IsOutside}
use vanity_manager.Sync.{timestamp, stamp_rule, restamp_rule, stamp_host, restamp_host}
use vanity_manager.Sync.Frame.{IsKept}

-- A property of what a key holds that a new stamp on the rule it holds does not end.
abbrev pub IsStampProof : Env → (Option Bytes → Type 0) → Type 0
IsStampProof e Q =
    (o : Option Bytes) (r : Redirect) (at : Str)
    → Q o
    → and_then o e.serde.rule_from_slice ≡ some r
    → Q (some (e.serde.rule_to_vec (record r { ekv_synced_at = at })))

module _ (e : Env) (b : Backend) (laws : StoreLaws e b) (apart : IsApart e b laws) (rest : Str)
    (Q : Option Bytes → Type 0) (stamp_proof : IsStampProof e Q) where
  open e use {World, serde}
  open laws use {view}

  abbrev key : Str
  key = prefix_rule ++ rest

  abbrev P : World → Type 0
  P = AtKey e b laws key Q

  outside : IsOutside e P
  outside = record {
    now_keeps = λ w h. AtKey-view e b laws key Q w _ (apart.now_view w) h;
    alphanumeric_keeps = λ n w h. AtKey-view e b laws key Q w _ (apart.alphanumeric_view n w) h;
    http_keeps = λ r. record { at = λ w h. AtKey-view e b laws key Q w _ (apart.http_view r w) h };
  }

  timestamp-Keeps : Keeps P (timestamp e)
  timestamp-Keeps = record { at = λ w h. outside.now_keeps w h }

  set_stamped_self :
      (k : Str) (r : Redirect) (at : Str) (w : World)
      → Q (view w k)
      → stored_rule e b laws w k ≡ some r
      → Q (view (set_rule e b k (record r { ekv_synced_at = at }) w).1 k)
  unfolding set_rule
  set_stamped_self k r at w h stored = elim (laws.set_self k _ w) [
    | inl old ↦ subst Q (sym old) h
    | inr new ↦ subst Q (sym new) (stamp_proof (view w k) r at h stored)
  ]

  -- A write of the stamped rule under any key.
  set_stamped :
      (k : Str) (r : Redirect) (at : Str) (w : World)
      → P w
      → stored_rule e b laws w k ≡ some r
      → P (set_rule e b k (record r { ekv_synced_at = at }) w).1
  unfolding set_rule
  set_stamped k r at w h stored = elim (Bool-cases (str_eq k key)) [
    | inr other ↦ (Frame.set-Keeps e b laws key Q k _ other).at w h
    | inl same ↦
        let here : k ≡ key = (str_eq_iff k key).0 same in
        let w' = (set_rule e b k (record r { ekv_synced_at = at }) w).1 in
        subst (λ j. Q (view w' j)) here
          (set_stamped_self k r at w (subst (λ j. Q (view w j)) (sym here) h) stored)
  ]

  stamp_rule_keeps :
      (k : Str) (found : Option Redirect) (w : World)
      → P w
      → found ≡ stored_rule e b laws w k
      → P (stamp_rule e b k found w).1
  unfolding stamp_rule
  stamp_rule_keeps k none w h stored = h
  stamp_rule_keeps k (some r) w h stored =
      set_stamped k r _ (e.now w).1 (outside.now_keeps w h)
        (ap (λ m. and_then (m k) serde.rule_from_slice) (apart.now_view w) ∙ sym stored)

  restamp_rule-Keeps : (k : Str) → Keeps P (restamp_rule e b k)
  unfolding restamp_rule
  restamp_rule-Keeps k =
      Keeps-bind_known (get_rule e b k) (stamp_rule e b k)
        (λ w found h read.
          stamp_rule_keeps k found (get_rule e b k w).1
            (AtKey-view e b laws key Q w _ (get_rule-keeps e b laws k w) h)
            (get_rule-stored e b laws k w found read
              ∙ ap (λ m. and_then (m k) serde.rule_from_slice) (sym (get_rule-keeps e b laws k w))))
        (get_rule-Keeps e b (Frame.get-Keeps e b laws key Q) k)

  stamp_host-Keeps : (host : Str) (found : Option HostMeta) → Keeps P (stamp_host e b host found)
  unfolding stamp_host set_host k_host str_eq
  stamp_host-Keeps host none = Keeps-pure tt
  stamp_host-Keeps host (some meta) = Keeps-bind _ _ timestamp-Keeps (λ at.
      Frame.set-Keeps e b laws key Q (k_host host)
        (serde.host_to_vec (record meta { ekv_synced_at = at })) refl)

  restamp_host-Keeps : (host : Str) → Keeps P (restamp_host e b host)
  unfolding restamp_host
  restamp_host-Keeps host =
      Keeps-bind _ _ (get_host-Keeps e b (Frame.get-Keeps e b laws key Q) (k_host host))
        (stamp_host-Keeps host)

  -- Each step of the write-through keeps such a property of a rule's key.
  pub rule_kept : IsKept e b P
  unfolding k_pending_ekv str_eq
  rule_kept = record {
    outside = outside;
    get_keeps = Frame.get-Keeps e b laws key Q;
    keys_keeps = Frame.keys-Keeps e b laws key Q;
    pushes_keeps = Frame.incr-Keeps e b laws key Q counter_ekv_pushes (pos 1) refl;
    errors_keeps = Frame.incr-Keeps e b laws key Q counter_ekv_errors (pos 1) refl;
    mark_keeps = λ t v. Frame.set-Keeps e b laws key Q (k_pending_ekv t) v refl;
    unmark_keeps = λ t. Frame.delete-Keeps e b laws key Q (k_pending_ekv t) refl;
    last_push_keeps = λ v. Frame.set-Keeps e b laws key Q meta_last_ekv_push v refl;
    restamp_rule_keeps = restamp_rule-Keeps;
    restamp_host_keeps = restamp_host-Keeps;
  }

-- `serde_json` reads a rule that it wrote.
abbrev pub IsRuleCodec : Env → Type 0
IsRuleCodec e = (r : Redirect) → e.serde.rule_from_slice (e.serde.rule_to_vec r) ≡ some r

-- A key holds the rule, with any stamp.
abbrev pub HoldsRule : Env → Redirect → Option Bytes → Type 0
HoldsRule e r o =
    (at : Str) × (and_then o e.serde.rule_from_slice ≡ some (record r { ekv_synced_at = at }))

pub HoldsRule-IsStampProof :
    (e : Env) (r : Redirect) → IsRuleCodec e → IsStampProof e (HoldsRule e r)
HoldsRule-IsStampProof e r codec o s at (at', h) read =
    let same : s ≡ record r { ekv_synced_at = at' } = cc in
    (
      at,
      codec (record s { ekv_synced_at = at })
          ∙ ap (λ (x : Redirect). some (record x { ekv_synced_at = at })) same,
    )

pub Nothing-IsStampProof : (e : Env) → IsStampProof e (λ o. o ≡ none)
Nothing-IsStampProof e o r at h read = absurd (cc)
