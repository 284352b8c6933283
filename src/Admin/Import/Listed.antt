-- ===== src/Admin/Import/Listed.antt =====
-- The keys that the first loop of the import lists (admin-api/src/handlers.rs, run_import).
use vanity_manager.Prelude.{
  or-true_right, ◌≡◌, refl, sym, ap, ◌∙◌, inl, inr, Bool, true, false, Option, none, some, List, [],
  ◌∷◌, ◌++◌, Str, pos, str_eq, str_eq_iff, Bool-cases, Option-cases,
}
use vanity_manager.Exec.{Result, ok, err, Env, Result-cases}
use vanity_manager.Model.{Redirect, normalize_host, normalize_path}
use vanity_manager.Keys.{k_rule}
use vanity_manager.Kv.{set_rule}
use vanity_manager.Store.{Backend}
use vanity_manager.Admin.{validate_rule, apply_ci, ensure_host_meta}
use vanity_manager.Admin.Import.{
  Import, contains_key, nothing_yet, push_imported, count_added, count_written, write_rule,
  merge_rule, import_keyed, import_rule, import_all, rule_content_eq,
}

contains_key_self : (k : Str) (ks : List Str) → contains_key (k ∷ ks) k ≡ true
unfolding contains_key
contains_key_self k ks = rw ((str_eq_iff k k).1 refl) refl

contains_key-later :
    (j k : Str) (ks : List Str) → contains_key ks k ≡ true → contains_key (j ∷ ks) k ≡ true
unfolding contains_key
contains_key-later j k ks h = rw h (or-true_right (str_eq j k))

module _ (e : Env) (b : Backend) where
  open e use {World, Time, unicode, to_rfc3339}

  count_added-payload_keys :
      (async : Bool) (key : Str) (r : Redirect) (p : Import e)
      → (count_added e b async key r p).payload_keys ≡ p.payload_keys
  unfolding count_added push_imported
  count_added-payload_keys async key r p =
      elim (Result-cases (ensure_host_meta e b r.host (pos 1) p.world).0) [
        | inl (_, done) ↦ rw (done, count_added, push_imported) refl
        | inr (x, failed) ↦ rw (failed, count_added) refl
      ]

  count_written-payload_keys :
      (async : Bool) (key : Str) (is_new : Bool) (r : Redirect) (p : Import e)
      → (count_written e b async key is_new r p).payload_keys ≡ p.payload_keys
  unfolding count_written push_imported
  count_written-payload_keys async key true r p = count_added-payload_keys async key r p
  count_written-payload_keys async key false r p = refl

  write_rule-payload_keys :
      (started : Time) (async : Bool) (key : Str) (is_new : Bool) (r : Redirect) (p : Import e)
      → (write_rule e b started async key is_new r p).payload_keys ≡ p.payload_keys
  unfolding write_rule
  write_rule-payload_keys started async key is_new r p =
      let stamped : Redirect = record r { updated_at = to_rfc3339 started; ekv_synced_at = [] } in
      let (written, w) = set_rule e b key stamped p.world in
      elim (Result-cases written) [
        | inl (_, done) ↦
            rw (done, write_rule)
              (count_written-payload_keys async key is_new stamped (record p { world = w }))
        | inr (x, failed) ↦ rw (failed, write_rule) refl
      ]

  merge_rule-payload_keys :
      (started : Time) (async : Bool) (key : Str) (r : Redirect) (x : Result (Option Redirect))
      (p : Import e)
      → (merge_rule e b started async key r x p).payload_keys ≡ p.payload_keys
  unfolding merge_rule
  merge_rule-payload_keys started async key r (err x) p = refl
  merge_rule-payload_keys started async key r (ok none) p =
      write_rule-payload_keys started async key true r p
  merge_rule-payload_keys started async key r (ok (some prev)) p =
      elim (Bool-cases (rule_content_eq prev r)) [
        | inl same ↦ rw (same, merge_rule) refl
        | inr other ↦ rw (other, merge_rule) (write_rule-payload_keys started async key false r p)
      ]

  import_keyed-payload_keys :
      (started : Time) (async : Bool) (r : Redirect) (p : Import e)
      → (import_keyed e b started async r p).payload_keys
        ≡ k_rule r.host r.match_type r.path ∷ p.payload_keys
  unfolding import_keyed
  import_keyed-payload_keys started async r p = merge_rule-payload_keys started async _ r _ _

  -- A rule as the import stores it.
  abbrev pub normalised : Redirect → Redirect
  normalised r = record r { host = normalize_host unicode r.host; path = normalize_path r.path }

  import_rule-payload_keys :
      (started : Time) (async : Bool) (r r' : Redirect) (p : Import e)
      → validate_rule r ≡ none
      → (apply_ci e b (normalised r) p.world).0 ≡ ok r'
      → (import_rule e b started async r p).payload_keys
        ≡ k_rule r'.host r'.match_type r'.path ∷ p.payload_keys
  unfolding import_rule
  import_rule-payload_keys started async r r' p valid applied =
      rw (valid, applied, import_rule)
        (import_keyed-payload_keys started async r'
          (record p { world = (apply_ci e b (normalised r) p.world).1 }))

  import_rule-lists :
      (started : Time) (async : Bool) (r : Redirect) (k : Str) (p : Import e)
      → contains_key p.payload_keys k ≡ true
      → contains_key (import_rule e b started async r p).payload_keys k ≡ true
  unfolding import_rule
  import_rule-lists started async r k p h = elim (Option-cases (validate_rule r)) [
    | inr (message, wrong) ↦ rw (wrong, import_rule) h
    | inl valid ↦ elim (Result-cases (apply_ci e b (normalised r) p.world).0) [
      | inr (x, failed) ↦ rw (valid, failed, import_rule) h
      | inl (r', applied) ↦
          ap (λ ks. contains_key ks k) (import_rule-payload_keys started async r r' p valid applied)
          ∙ contains_key-later _ k p.payload_keys h
    ]
  ]

  import_all-lists :
      (started : Time) (async : Bool) (rs : List Redirect) (k : Str) (p : Import e)
      → contains_key p.payload_keys k ≡ true
      → contains_key (import_all e b started async rs p).payload_keys k ≡ true
  unfolding import_all
  import_all-lists started async [] k p h = h
  import_all-lists started async (r ∷ rs) k p h =
      import_all-lists started async rs k _ (import_rule-lists started async r k p h)

  -- The key of a rule that comes past the checks of its round is listed when the loop ends.
  import_all-checked :
      (started : Time) (async : Bool) (before : List Redirect) (r : Redirect)
      (later : List Redirect) (r' : Redirect) (p : Import e)
      → validate_rule r ≡ none
      → (apply_ci e b (normalised r) (import_all e b started async before p).world).0 ≡ ok r'
      → contains_key
          (import_all e b started async (before ++ r ∷ later) p).payload_keys
          (k_rule r'.host r'.match_type r'.path)
        ≡ true
  unfolding import_all
  import_all-checked started async [] r later r' p valid applied =
      import_all-lists started async later _ _ (
        ap (λ ks. contains_key ks (k_rule r'.host r'.match_type r'.path))
          (import_rule-payload_keys started async r r' p valid applied)
        ∙ contains_key_self _ p.payload_keys)
  import_all-checked started async (q ∷ before) r later r' p valid applied =
      import_all-checked started async before r later r' (import_rule e b started async q p) valid
        applied

  -- The payload has a rule that passes the check of its fields, and whose case rule of the host can be applied in the
  -- world that the rounds before it leave; that gives it the key.
  pub record IsChecked (started : Time) (async : Bool) (rules : List Redirect) (w : World)
      (key : Str) : Type 0 where
    pub before : List Redirect
    pub rule : Redirect
    pub later : List Redirect
    pub applied : Redirect
    pub has_rule : rules ≡ before ++ rule ∷ later
    pub valid : validate_rule rule ≡ none
    pub case_applied :
        (apply_ci e b
          (normalised rule)
          (import_all e b started async before (nothing_yet e w)).world).0
        ≡ ok applied
    pub has_key : k_rule applied.host applied.match_type applied.path ≡ key

  pub IsChecked-listed :
      (started : Time) (async : Bool) (rules : List Redirect) (w : World) (key : Str)
      → IsChecked started async rules w key
      → contains_key (import_all e b started async rules (nothing_yet e w)).payload_keys key ≡ true
  IsChecked-listed started async rules w key c =
      ap (λ rs. contains_key (import_all e b started async rs (nothing_yet e w)).payload_keys key)
        c.has_rule
      ∙ (ap
            (contains_key
              (import_all e b started async (c.before ++ c.rule ∷ c.later)
                (nothing_yet e w)).payload_keys)
            (sym c.has_key)
          ∙ import_all-checked started async c.before c.rule c.later c.applied (nothing_yet e w)
              c.valid c.case_applied)
