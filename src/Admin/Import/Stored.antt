-- ===== src/Admin/Import/Stored.antt =====
-- An import takes no stored rule away that it should keep (admin-api/src/handlers.rs, run_import).
use mathlib.Core.Path.{subst}
use vanity_manager.Prelude.{
  ◌≡◌, refl, sym, ap, ◌∙◌, inl, inr, Bool, true, false, Option, none, some, List, [], ◌∷◌, ◌++◌,
  Str, Bytes, is_some, str_eq, str_eq_iff, pos, Bool-cases, Option-cases,
}
use vanity_manager.Exec.{Result, ok, err, Env, Result-cases}
use vanity_manager.Exec.Keeps.{Keeps}
use vanity_manager.Model.{Redirect, normalize_host, normalize_path}
use vanity_manager.Keys.{prefix_rule}
use vanity_manager.Kv.{set_rule}
use vanity_manager.Kv.Frame.{get_rule-Keeps}
use vanity_manager.Store
use vanity_manager.Store.{Backend}
use vanity_manager.Store.Laws.{StoreLaws, IsApart}
use vanity_manager.Store.Frame
use vanity_manager.Store.Frame.{AtKey}
use vanity_manager.Sync.{enqueue_rule_push}
use vanity_manager.Sync.Frame.{IsKept, queue_keeps, push_rule_inline_keeps}
use vanity_manager.Sync.Rules.{IsStampProof, rule_kept}
use vanity_manager.Admin.{ensure_host_meta, apply_ci, validate_rule}
use vanity_manager.Admin.Frame.{ensure_host_meta-Keeps, apply_ci-Keeps}
use vanity_manager.Admin.Import.{
  Import, push_imported, count_added, count_written, write_rule, merge_rule, import_keyed,
  import_rule, import_all, rule_content_eq,
}

-- A key that holds something.
abbrev pub IsStored : Option Bytes → Type 0
IsStored o = is_some o ≡ true

IsStored-IsStampProof : (e : Env) → IsStampProof e IsStored
IsStored-IsStampProof e o r at h read = refl

module _ (e : Env) (b : Backend) (laws : StoreLaws e b) (apart : IsApart e b laws)
    (rest : Str) where
  open e use {World, Time}
  open laws use {view}

  abbrev key : Str
  key = prefix_rule ++ rest

  abbrev pub P : World → Type 0
  P = AtKey e b laws key IsStored

  pub kept : IsKept e b P
  kept = rule_kept e b laws apart rest IsStored (IsStored-IsStampProof e)

  -- A write of any key.
  set-Keeps : (k : Str) (v : Bytes) → Keeps P (Store.set e b k v)
  set-Keeps k v = elim (Bool-cases (str_eq k key)) [
    | inr other ↦ Frame.set-Keeps e b laws key IsStored k v other
    | inl same ↦
        let here = (str_eq_iff k key).0 same in
        record {
          at = λ w h.
              subst (λ j. IsStored (view (Store.set e b k v w).1 j)) here
                (elim (laws.set_self k v w) [
                  | inl old ↦ ap is_some old ∙ subst (λ j. IsStored (view w j)) (sym here) h
                  | inr new ↦ ap is_some new
                ]);
        }
  ]

  set_rule-Keeps : (k : Str) (r : Redirect) → Keeps P (set_rule e b k r)
  unfolding set_rule
  set_rule-Keeps k r = set-Keeps k _

  push_imported_stored :
      (async : Bool) (k host : Str) (p : Import e)
      → P p.world
      → P (push_imported e b async k host p).world
  unfolding push_imported enqueue_rule_push
  push_imported_stored true k host p h = queue_keeps e b kept k p.world h
  push_imported_stored false k host p h = push_rule_inline_keeps e b kept k p.world h

  count_added_stored :
      (async : Bool) (k : Str) (r : Redirect) (p : Import e)
      → P p.world
      → P (count_added e b async k r p).world
  unfolding count_added
  count_added_stored async k r p h =
      let h' = (ensure_host_meta-Keeps e b laws apart rest IsStored r.host (pos 1)).at p.world h in
      elim (Result-cases (ensure_host_meta e b r.host (pos 1) p.world).0) [
        | inl (u, counted) ↦ rw (counted, count_added) (push_imported_stored async k r.host _ h')
        | inr (x, failed) ↦ rw (failed, count_added) h'
      ]

  count_written_stored :
      (async : Bool) (k : Str) (is_new : Bool) (r : Redirect) (p : Import e)
      → P p.world
      → P (count_written e b async k is_new r p).world
  unfolding count_written
  count_written_stored async k true r p h = count_added_stored async k r p h
  count_written_stored async k false r p h = push_imported_stored async k r.host _ h

  write_rule_stored :
      (started : Time) (async : Bool) (k : Str) (is_new : Bool) (r : Redirect) (p : Import e)
      → P p.world
      → P (write_rule e b started async k is_new r p).world
  unfolding write_rule
  write_rule_stored started async k is_new r p h =
      let stamped : Redirect = record r { updated_at = e.to_rfc3339 started; ekv_synced_at = [] } in
      let h' = (set_rule-Keeps k stamped).at p.world h in
      elim (Result-cases (set_rule e b k stamped p.world).0) [
        | inl (u, written) ↦
            rw (written, write_rule) (count_written_stored async k is_new stamped _ h')
        | inr (x, failed) ↦ rw (failed, write_rule) h'
      ]

  merge_rule_stored :
      (started : Time) (async : Bool) (k : Str) (r : Redirect) (existing : Result (Option Redirect))
      (p : Import e)
      → P p.world
      → P (merge_rule e b started async k r existing p).world
  unfolding merge_rule
  merge_rule_stored started async k r (err x) p h = h
  merge_rule_stored started async k r (ok none) p h = write_rule_stored started async k true r p h
  merge_rule_stored started async k r (ok (some prev)) p h =
      elim (Bool-cases (rule_content_eq prev r)) [
        | inl same ↦ rw (same, merge_rule) h
        | inr changed ↦ rw (changed, merge_rule) (write_rule_stored started async k false r p h)
      ]

  import_keyed_stored :
      (started : Time) (async : Bool) (r : Redirect) (p : Import e)
      → P p.world
      → P (import_keyed e b started async r p).world
  unfolding import_keyed
  import_keyed_stored started async r p h =
      merge_rule_stored started async _ r _ _
        ((get_rule-Keeps e b (Frame.get-Keeps e b laws key IsStored) _).at p.world h)

  import_rule_stored :
      (started : Time) (async : Bool) (r : Redirect) (p : Import e)
      → P p.world
      → P (import_rule e b started async r p).world
  unfolding import_rule
  import_rule_stored started async r p h = elim (Option-cases (validate_rule r)) [
    | inr (message, refused) ↦ rw (refused, import_rule) h
    | inl valid ↦
        let r' : Redirect = record r {
          host = normalize_host e.unicode r.host;
          path = normalize_path r.path;
        } in
        let h' = (apply_ci-Keeps e b laws apart rest IsStored r').at p.world h in
        elim (Result-cases (apply_ci e b r' p.world).0) [
          | inl (r'', applied) ↦
              rw (valid, applied, import_rule) (import_keyed_stored started async r'' _ h')
          | inr (x, failed) ↦ rw (valid, failed, import_rule) h'
        ]
  ]

  pub import_all_stored :
      (started : Time) (async : Bool) (rs : List Redirect) (p : Import e)
      → P p.world
      → P (import_all e b started async rs p).world
  unfolding import_all
  import_all_stored started async [] p h = h
  import_all_stored started async (r ∷ rs) p h =
      import_all_stored started async rs _ (import_rule_stored started async r p h)
