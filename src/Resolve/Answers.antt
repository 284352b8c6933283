-- ===== src/Resolve/Answers.antt =====
-- The fallback resolver's lookup against what the store holds (redirect-handler/src/lib.rs).
use vanity_manager.Prelude.{
  or-true_right, ◌≡◌, ◌⊎◌, ◌++◌, str_eq, str_eq_iff, codes, refl, sym, inl, inr, ◌↔◌, true, false,
  Option, none, some, List, [], ◌∷◌, arith, Str, Bytes, and_then, is_some, starts_with, Any,
  Bool-cases, Option-cases,
}
use vanity_manager.Exec.{ok, Env, Result-cases}
use vanity_manager.Model.{Redirect, exact, prefix, match_type_eq}
use vanity_manager.Keys.{k_rule, rule_key_prefix, parse_rule_key}
use vanity_manager.Store
use vanity_manager.Store.{Backend, open_from_config}
use vanity_manager.Store.Laws.{StoreLaws}
use vanity_manager.Kv.{get_rule}
use vanity_manager.Resolve.{path_matches, is_candidate, longest_prefix, lookup_rules}
use vanity_manager.Resolve.Best.{Candidate, Scanned, best_prefix-Scanned}
use vanity_manager.Kv.Laws.{get_rule-stored, get_rule-keeps}
use vanity_manager.Resolve.Best.Order.{Outranks}

-- A key of a prefix rule whose path is the path that is looked up, or goes on with `/` there.
pub record NamesPrefix (path key : Str) : Type 0 where
  pub of_host : Str
  pub rule_path : Str
  pub parsed : parse_rule_key key ≡ some (of_host, prefix, rule_path)
  pub matches : (path ≡ rule_path) ⊎ (starts_with (rule_path ++ codes "/") path ≡ true)

path_matches-true :
    (rule_path path : Str)
    → path_matches rule_path path ≡ true
    → (path ≡ rule_path) ⊎ (starts_with (rule_path ++ codes "/") path ≡ true)
unfolding path_matches
path_matches-true rule_path path h = elim (Bool-cases (str_eq path rule_path)) [
  | inl same ↦ inl ((str_eq_iff path rule_path).0 same)
  | inr other ↦ inr (rw other at h)
]

true-path_matches :
    (rule_path path : Str)
    → (path ≡ rule_path) ⊎ (starts_with (rule_path ++ codes "/") path ≡ true)
    → path_matches rule_path path ≡ true
unfolding path_matches
true-path_matches rule_path path (inl same) = rw ((str_eq_iff path rule_path).1 same) refl
true-path_matches rule_path path (inr below) = rw below (or-true_right (str_eq path rule_path))

is_candidate-NamesPrefix : (path key : Str) → is_candidate path key ≡ true → NamesPrefix path key
unfolding is_candidate parse_rule_key match_type_eq path_matches
is_candidate-NamesPrefix path key h = elim (Option-cases (parse_rule_key key)) [
  | inl unparsed ↦ let no : false ≡ true = rw (unparsed, is_candidate) at h in absurd (cc)
  | inr ((of_host, exact, rule_path), parsed) ↦
      let no : false ≡ true = rw (parsed, is_candidate) at h in absurd (cc)
  | inr ((of_host, prefix, rule_path), parsed) ↦ record {
    of_host = of_host;
    rule_path = rule_path;
    parsed = parsed;
    matches = path_matches-true rule_path path (rw (parsed, is_candidate) at h);
  }
]

NamesPrefix-is_candidate : (path key : Str) → NamesPrefix path key → is_candidate path key ≡ true
unfolding is_candidate parse_rule_key match_type_eq path_matches
NamesPrefix-is_candidate path key n =
    rw (n.parsed, is_candidate) (true-path_matches n.rule_path path n.matches)

module _ (e : Env) where
  open e use {serde}

  abbrev rule_at : (Str → Option Bytes) → Str → Option Redirect
  rule_at m key = and_then (m key) serde.rule_from_slice

  -- An enabled rule at a key of the host that names a prefix of the path.
  pub record PrefixRule (m : Str → Option Bytes) (host path : Str) (r : Redirect) : Type 0 where
    pub key : Str
    pub of_host : starts_with (rule_key_prefix host) key ≡ true
    pub names : NamesPrefix path key
    pub stored : rule_at m key ≡ some r
    pub enabled : r.enabled ≡ true

  -- No rule applies, or the one that is given applies and is as long as any, and of those as long as it
  -- has the highest priority.
  abbrev pub IsBestPrefix : (Str → Option Bytes) → Str → Str → Option Redirect → Type 0
  IsBestPrefix m host path none = (s : Redirect) → PrefixRule m host path s → ⊥
  IsBestPrefix m host path (some r) =
      PrefixRule m host path r × ((s : Redirect) → PrefixRule m host path s → Outranks r s)

  -- What a lookup of a path at a managed host has to give back.
  pub data Resolves (m : Str → Option Bytes) (host path : Str) (res : Option Redirect)
      : Type 0 where
    by_exact :
        (r : Redirect)
        → rule_at m (k_rule host exact path) ≡ some r
        → r.enabled ≡ true
        → res ≡ some r
        → Resolves m host path res
    by_prefix :
        ((r : Redirect) → rule_at m (k_rule host exact path) ≡ some r → r.enabled ≡ false)
        → IsBestPrefix m host path res
        → Resolves m host path res

module _ (e : Env) (b : Backend) (laws : StoreLaws e b) where
  open e use {World, serde}
  open laws use {view}

  Candidate-PrefixRule :
      (m : Str → Option Bytes) (host path : Str) (r : Redirect) (keys : List Str)
      → ((k : Str) → Any (λ j. j ≡ k) keys → starts_with (rule_key_prefix host) k ≡ true)
      → Any (Candidate e b laws m path r) keys
      → PrefixRule e m host path r
  Candidate-PrefixRule m host path r [] of_host x = elim x [ ]
  Candidate-PrefixRule m host path r (key ∷ keys) of_host (inl c) = record {
    key = key;
    of_host = of_host key (inl refl);
    names = is_candidate-NamesPrefix path key c.0;
    stored = c.1;
    enabled = c.2;
  }
  Candidate-PrefixRule m host path r (key ∷ keys) of_host (inr later) =
      Candidate-PrefixRule m host path r keys (λ k a. of_host k (inr a)) later

  PrefixRule-Candidate :
      (m : Str → Option Bytes) (host path : Str) (r : Redirect) (keys : List Str)
      (p : PrefixRule e m host path r)
      → Any (λ j. j ≡ p.key) keys
      → Any (Candidate e b laws m path r) keys
  PrefixRule-Candidate m host path r [] p x = elim x [ ]
  PrefixRule-Candidate m host path r (key ∷ keys) p (inl same) =
      inl (rw same (NamesPrefix-is_candidate path p.key p.names, p.stored, p.enabled))
  PrefixRule-Candidate m host path r (key ∷ keys) p (inr later) =
      inr (PrefixRule-Candidate m host path r keys p later)

  stored_present :
      (m : Str → Option Bytes) (key : Str) (r : Redirect)
      → rule_at e m key ≡ some r
      → is_some (m key) ≡ true
  stored_present m key r h = elim (Option-cases (m key)) [
    | inl gone ↦ absurd (ground arith)
    | inr (v, there) ↦ rw there refl
  ]

  Scanned-IsBestPrefix :
      (m : Str → Option Bytes) (host path : Str) (keys : List Str) (res : Option Redirect)
      → ((k : Str)
          → Any (λ j. j ≡ k) keys
            ↔ ((starts_with (rule_key_prefix host) k ≡ true) × (is_some (m k) ≡ true)))
      → Scanned e b laws m path none keys res
      → IsBestPrefix e m host path res
  Scanned-IsBestPrefix m host path keys none listed h = λ s p. h.beats s (
      inr (
        PrefixRule-Candidate m host path s keys p
          ((listed p.key).1 (p.of_host, stored_present m p.key s p.stored))))
  Scanned-IsBestPrefix m host path keys (some r) listed h = (
    elim (h.origin r refl) [
      | inl x ↦ absurd (ground arith)
      | inr c ↦ Candidate-PrefixRule m host path r keys (λ k a. ((listed k).0 a).0) c
    ],
    λ s p. h.beats s (
        inr (
          PrefixRule-Candidate m host path s keys p
            ((listed p.key).1 (p.of_host, stored_present m p.key s p.stored)))),
  )

  longest_prefix-IsBestPrefix :
      (host path : Str) (w : World) (res : Option Redirect)
      → (longest_prefix e b host path w).0 ≡ ok res
      → IsBestPrefix e (view w) host path res
  unfolding longest_prefix
  longest_prefix-IsBestPrefix host path w res h =
      elim (Result-cases (Store.keys_with_prefix e b (rule_key_prefix host) w).0) [
        | inl (keys, listed) ↦
            Scanned-IsBestPrefix (view w) host path keys res
              (λ k. laws.keys_view (rule_key_prefix host) k w keys listed)
              (best_prefix-Scanned e b laws (view w) path keys none res
                (Store.keys_with_prefix e b (rule_key_prefix host) w).1
                (laws.keys_keeps (rule_key_prefix host) w) (ground arith))
        | inr (x, failed) ↦ absurd (ground arith)
      ]

  -- A backend that keeps the laws, also one whose calls may fail: if the lookup at a managed host
  -- succeeds, it gives back the enabled exact rule for the path, and where there is none the best of the enabled prefix rules of the host that match, or nothing if none does.
  pub lookup_rules-Resolves :
      (host path : Str) (w : World) (res : Option Redirect)
      → (lookup_rules e b host path w).0 ≡ ok res
      → Resolves e (view w) host path res
  unfolding lookup_rules
  lookup_rules-Resolves host path w res h =
      elim (Result-cases (get_rule e b (k_rule host exact path) w).0) [
        | inl (found, read) ↦
            after_exact found read (get_rule-stored e b laws (k_rule host exact path) w found read)
        | inr (x, failed) ↦ absurd (ground arith)
      ]
    where
      after : World
      after = (get_rule e b (k_rule host exact path) w).1

      from_prefix :
          (longest_prefix e b host path after).0 ≡ ok res → IsBestPrefix e (view w) host path res
      from_prefix found =
          rw (get_rule-keeps e b laws (k_rule host exact path) w) at
            (longest_prefix-IsBestPrefix host path after res found)

      after_exact :
          (found : Option Redirect)
          → (get_rule e b (k_rule host exact path) w).0 ≡ ok found
          → found ≡ rule_at e (view w) (k_rule host exact path)
          → Resolves e (view w) host path res
      after_exact none read stored = by_prefix (λ r eq. cc) (from_prefix (ground arith))
      after_exact (some r) read stored = elim (Bool-cases r.enabled) [
        | inl on ↦ by_exact r (sym stored) on (ground arith)
        | inr off ↦ by_prefix (λ s eq. ground arith) (from_prefix (ground arith))
      ]
