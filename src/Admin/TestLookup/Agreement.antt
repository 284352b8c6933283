-- ===== src/Admin/TestLookup/Agreement.antt =====
-- The test lookup of the admin API (admin-api/src/handlers.rs, test_lookup) against the redirect handler's lookup
-- (redirect-handler/src/lib.rs, lookup): two loops over the same keys, written apart. Only the handler asks first whether
-- the host is managed.
use vanity_manager.Prelude.{
  ◌≡◌, refl, sym, ap, ◌∙◌, inl, inr, Bool, true, false, if◌then◌else◌, ◌&&◌, Option, none, some,
  List, [], ◌∷◌, Str, starts_with, All, Bool-cases, arith, All-Any, and_then,
}
use vanity_manager.Exec.{Result, ok, err, Exec, ◌>>=◌, pure, Env, go_on, bind_congr}
use vanity_manager.Model.{Redirect, HostMeta, exact}
use vanity_manager.Keys.{k_host, k_rule, rule_key_prefix}
use vanity_manager.Store
use vanity_manager.Store.{Backend, open_from_config}
use vanity_manager.Store.Laws.{StoreLaws}
use vanity_manager.Kv.{get_rule, get_host}
use vanity_manager.Kv.Laws.{get_rule-stored}
use vanity_manager.Resolve.{
  path_matches, better, consider, is_candidate, best_prefix, longest_prefix, lookup_rules,
  lookup_path, lookup_managed, lookup, enabled_only,
}
use vanity_manager.Resolve.Managed.{at_host, at_host-view, get_host-view, lookup-opened}
use vanity_manager.Admin.TestLookup.{
  Found, exact_match, prefix_match, no_match, is_better, take_better, fits, scan_keys, found_prefix,
  test_prefix, test_rules, test_in,
}

take_better-consider : (found best : Option Redirect) → take_better found best ≡ consider found best
unfolding take_better consider is_better better
take_better-consider none best = refl
take_better-consider (some r) none = ground arith
take_better-consider (some r) (some b) = ground arith

fits-is_candidate : (path key : Str) → fits path key ≡ is_candidate path key
unfolding fits is_candidate path_matches
fits-is_candidate path key = refl

-- The rule that a test has found.
abbrev pub rule_of : Found → Option Redirect
rule_of (exact_match r) = some r
rule_of (prefix_match r) = some r
rule_of no_match = none

module _ (e : Env) (b : Backend) where
  open e use {World}

  scan_keys-best_prefix :
      (of_host path : Str) (keys : List Str) (best : Option Redirect) (w : World)
      → All (λ key. starts_with of_host key ≡ true) keys
      → scan_keys e b of_host path keys best w ≡ best_prefix e b path keys best w
  unfolding scan_keys best_prefix
  scan_keys-best_prefix of_host path [] best w h = refl
  scan_keys-best_prefix of_host path (key ∷ keys) best w (of_key, h) =
      let same : (starts_with of_host key && fits path key) ≡ is_candidate path key =
        ap (λ c. c && fits path key) of_key ∙ fits-is_candidate path key in
      elim (Bool-cases (is_candidate path key)) [
        | inr other ↦
            rw (same, other, scan_keys, best_prefix)
              (scan_keys-best_prefix of_host path keys best w h)
        | inl candidate ↦
            rw (same, candidate, scan_keys, best_prefix)
              (bind_congr (get_rule e b key)
                (λ found. scan_keys e b of_host path keys (take_better found best))
                (λ found. best_prefix e b path keys (consider found best)) w
                (λ found w'.
                  scan_keys-best_prefix of_host path keys (take_better found best) w' h
                  ∙ ap (λ x. best_prefix e b path keys x w') (take_better-consider found best)))
      ]

  abbrev rule_in : Str → Str → Exec World (Option Redirect)
  rule_in host path = do found ← test_rules e b host path; pure (rule_of found)

  -- The rule that the test of a host and a path finds.
  abbrev pub tested_rule : Str → Str → Exec World (Option Redirect)
  tested_rule host path = do found ← test_in e b host path; pure (rule_of found)

  named_prefix :
      (x : Result (Option Redirect) × World)
      → go_on (go_on x (λ best. pure (found_prefix e best))) (λ found. pure (rule_of found)) ≡ x
  named_prefix (ok none, w) = refl
  named_prefix (ok (some r), w) = refl
  named_prefix (err x, w) = refl

  module _ (laws : StoreLaws e b) where
    open laws use {view}

    listed_prefix-longest :
        (host path : Str) (x : Result (List Str) × World)
        → ((keys : List Str)
            → x.0 ≡ ok keys
            → All (λ key. starts_with (rule_key_prefix host) key ≡ true) keys)
        → go_on
            (go_on
              (go_on x (λ keys. scan_keys e b (rule_key_prefix host) path keys none))
              (λ best. pure (found_prefix e best)))
            (λ found. pure (rule_of found))
          ≡ go_on x (λ keys. best_prefix e b path keys none)
    listed_prefix-longest host path (ok keys, w) listed =
        named_prefix _
        ∙ scan_keys-best_prefix (rule_key_prefix host) path keys none w (listed keys refl)
    listed_prefix-longest host path (err x, w) listed = refl

    test_prefix-longest_prefix :
        (host path : Str) (w : World)
        → go_on
            (go_on (test_prefix e b host path w) (λ best. pure (found_prefix e best)))
            (λ found. pure (rule_of found))
          ≡ longest_prefix e b host path w
    unfolding test_prefix longest_prefix
    test_prefix-longest_prefix host path w =
        listed_prefix-longest host path (Store.keys_with_prefix e b (rule_key_prefix host) w)
          (λ keys got.
            All-Any (λ key. starts_with (rule_key_prefix host) key ≡ true) keys
              (λ key listed. ((laws.keys_view (rule_key_prefix host) key w keys got).0 listed).0))

    after_exact :
        (host path : Str) (x : Result (Option Redirect) × World)
        → ((r : Redirect) → x.0 ≡ ok (some r) → r.enabled ≡ true)
        → go_on
            (go_on x (λ stored. elim stored [
              | some rule ↦ pure (exact_match rule)
              | none ↦ do best ← test_prefix e b host path; pure (found_prefix e best)
            ]))
            (λ found. pure (rule_of found))
          ≡ go_on x (λ found. elim (enabled_only found) [
            | some r ↦ pure (some r)
            | none ↦ longest_prefix e b host path
          ])
    after_exact host path (err x, w) live = refl
    after_exact host path (ok none, w) live = test_prefix-longest_prefix host path w
    after_exact host path (ok (some r), w) live = rw (live r refl) refl

    test_rules-lookup_rules :
        (host path : Str) (w : World)
        → ((r : Redirect)
            → and_then (view w (k_rule host exact path)) e.serde.rule_from_slice ≡ some r
            → r.enabled ≡ true)
        → rule_in host path w ≡ lookup_rules e b host path w
    unfolding test_rules lookup_rules
    test_rules-lookup_rules host path w live =
        after_exact host path (get_rule e b (k_rule host exact path) w)
          (λ r got. live r (sym (get_rule-stored e b laws (k_rule host exact path) w (some r) got)))

    after_host :
        (x : Result (Option HostMeta) × World) (f : Option HostMeta → Exec World Found)
        (g : Option HostMeta → Exec World (Option Redirect))
        → ((meta : Option HostMeta)
            → x.0 ≡ ok meta
            → go_on (f meta x.1) (λ found. pure (rule_of found)) ≡ g meta x.1)
        → go_on (go_on x f) (λ found. pure (rule_of found)) ≡ go_on x g
    after_host (ok meta, w) f g same = same meta refl
    after_host (err x, w) f g same = refl

    test_in-lookup_managed :
        (host path : Str) (w : World)
        → ((meta : Option HostMeta) (r : Redirect)
            → (get_host e b (k_host host) w).0 ≡ ok meta
            → and_then
                (view w (k_rule host exact (lookup_path e.unicode meta path)))
                e.serde.rule_from_slice
              ≡ some r
            → r.enabled ≡ true)
        → tested_rule host path w ≡ lookup_managed e b host path w
    unfolding test_in lookup_managed
    test_in-lookup_managed host path w live =
        after_host (get_host e b (k_host host) w)
          (λ meta. test_rules e b host (lookup_path e.unicode meta path))
          (λ meta. lookup_rules e b host (lookup_path e.unicode meta path))
          (λ meta got. test_rules-lookup_rules host (lookup_path e.unicode meta path) _ (λ r stored.
            live meta r got (
              ap
                (λ m.
                  and_then (m (k_rule host exact (lookup_path e.unicode meta path)))
                    e.serde.rule_from_slice)
                (sym (get_host-view e b laws (k_host host) w))
              ∙ stored)))

    -- A backend that keeps the laws and is the configured one, where the check for the host's metadata succeeds: at a
    -- managed host the redirect handler's lookup runs as the lookup of the admin API's test, on the world that the
    -- check left, to the same rule, the same error and the same world. This holds unless the exact rule that is
    -- stored for the path, in lower case where the host's metadata says so, is disabled. At a host that is not managed
    -- the handler finds nothing, whatever the test finds.
    pub test_in-lookup :
        (host path : Str) (w : World) (managed : Bool)
        → (open_from_config e w).0 ≡ ok b
        → (Store.exists e b (k_host host) (open_from_config e w).1).0 ≡ ok managed
        → ((meta : Option HostMeta) (r : Redirect)
            → (get_host e b (k_host host) (at_host e b host w)).0 ≡ ok meta
            → and_then
                (view w (k_rule host exact (lookup_path e.unicode meta path)))
                e.serde.rule_from_slice
              ≡ some r
            → r.enabled ≡ true)
        → lookup e host path w
          ≡ (if managed then tested_rule host path else pure none) (at_host e b host w)
    test_in-lookup host path w false opened found live =
        lookup-opened e b host path w false opened found
    test_in-lookup host path w true opened found live =
        lookup-opened e b host path w true opened found
        ∙ sym (
            test_in-lookup_managed host path (at_host e b host w) (λ meta r got stored.
              live meta r got (
                ap
                  (λ m.
                    and_then (m (k_rule host exact (lookup_path e.unicode meta path)))
                      e.serde.rule_from_slice)
                  (sym (at_host-view e b laws host w))
                ∙ stored)))
