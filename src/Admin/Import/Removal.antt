-- ===== src/Admin/Import/Removal.antt =====
-- What the replacing import removes (admin-api/src/handlers.rs, run_import).
use vanity_manager.Prelude.{
  ◌≡◌, sym, ap, ◌∙◌, ◌⊎◌, inl, inr, Bool, true, false, not, ◌||◌, List, [], ◌∷◌, ◌++◌, Str, str_eq,
  str_eq_iff, starts_with, Bool-cases, Option-cases,
}
use vanity_manager.Exec.{Env, Result-cases}
use vanity_manager.Model.{Redirect}
use vanity_manager.Keys.{prefix_rule, parse_rule_key}
use vanity_manager.Store
use vanity_manager.Store.{Backend}
use vanity_manager.Store.Laws.{StoreLaws, IsApart}
use vanity_manager.Store.Frame
use vanity_manager.Sync.{enqueue_rule_delete, enqueue_host_push}
use vanity_manager.Sync.Frame.{queue_keeps, push_host_inline_keeps, push_delete_rule_inline_keeps}
use vanity_manager.Admin.{decrement_host_meta}
use vanity_manager.Admin.Frame.{decrement_host_meta-Keeps}
use vanity_manager.Admin.Import.{
  Import, contains_key, push_removed, remove_rule, remove_absent, remove_all, remove_listed,
  push_touched, run_import,
}
use vanity_manager.Admin.Import.Listed.{IsChecked, IsChecked-listed}
use vanity_manager.Admin.Import.Stored
use vanity_manager.Admin.Import.Stored.{IsStored, import_all_stored}

apart_keys :
    (ks : List Str) (k j : Str)
    → contains_key ks k ≡ false
    → contains_key ks j ≡ true
    → str_eq k j ≡ false
apart_keys ks k j absent listed = elim (Bool-cases (str_eq k j)) [
  | inr other ↦ other
  | inl same ↦
      let both : true ≡ false =
        sym listed ∙ (ap (contains_key ks) (sym ((str_eq_iff k j).0 same)) ∙ absent) in
      absurd (cc)
]

or-false_right : (c d : Bool) → (c || d) ≡ false → d ≡ false
or-false_right true d h = absurd (cc)
or-false_right false d h = h

module _ (e : Env) (b : Backend) (laws : StoreLaws e b) (apart : IsApart e b laws)
    (rest : Str) where
  open e use {World, Time}
  open laws use {view}

  abbrev key : Str
  key = prefix_rule ++ rest

  -- The key holds something, and the payload has it.
  record Held (p : Import e) : Type 0 where
    stored : IsStored (view p.world key)
    listed : contains_key p.payload_keys key ≡ true

  push_removed-Held :
      (async : Bool) (k host : Str) (p : Import e) → Held p → Held (push_removed e b async k host p)
  unfolding push_removed enqueue_rule_delete
  push_removed-Held true k host p h = record {
    stored = queue_keeps e b (Stored.kept e b laws apart rest) _ p.world h.stored;
    listed = h.listed;
  }
  push_removed-Held false k host p h = record {
    stored = push_delete_rule_inline_keeps e b (Stored.kept e b laws apart rest) k p.world h.stored;
    listed = h.listed;
  }

  remove_rule-Held :
      (async : Bool) (k host : Str) (p : Import e)
      → str_eq k key ≡ false
      → Held p
      → Held (remove_rule e b async k host p)
  unfolding remove_rule
  remove_rule-Held async k host p other h =
      let w = (Store.delete e b k p.world).1 in
      let gone = (Frame.delete-Keeps e b laws key IsStored k other).at p.world h.stored in
      let counted = (decrement_host_meta-Keeps e b laws apart rest IsStored host).at w gone in
      elim (Result-cases (Store.delete e b k p.world).0) [
        | inr (x, failed) ↦ rw (failed, remove_rule) (record { stored = gone; listed = h.listed })
        | inl (u, removed) ↦ elim (Result-cases (decrement_host_meta e b host w).0) [
          | inr (x, failed) ↦
              rw (removed, failed, remove_rule) (record { stored = counted; listed = h.listed })
          | inl (u', done) ↦
              rw (removed, done, remove_rule)
                (push_removed-Held async k host _ (record { stored = counted; listed = h.listed }))
        ]
      ]

  remove_absent-Held :
      (async : Bool) (k : Str) (p : Import e) → Held p → Held (remove_absent e b async k p)
  unfolding remove_absent
  remove_absent-Held async k p h =
      elim (Bool-cases (not (starts_with prefix_rule k) || contains_key p.payload_keys k)) [
        | inl stays ↦ rw (stays, remove_absent) h
        | inr goes ↦ elim (Option-cases (parse_rule_key k)) [
          | inl unparsed ↦ rw (goes, unparsed, remove_absent) h
          | inr ((host, mt, path), parsed) ↦
              rw (goes, parsed, remove_absent)
                (remove_rule-Held async k host p
                  (apart_keys p.payload_keys k key
                    (or-false_right (not (starts_with prefix_rule k)) _ goes) h.listed)
                  h)
        ]
      ]

  remove_all-Held :
      (async : Bool) (ks : List Str) (p : Import e) → Held p → Held (remove_all e b async ks p)
  unfolding remove_all
  remove_all-Held async [] p h = h
  remove_all-Held async (k ∷ ks) p h = remove_all-Held async ks _ (remove_absent-Held async k p h)

  remove_listed-Held : (async : Bool) (p : Import e) → Held p → Held (remove_listed e b async p)
  unfolding remove_listed
  remove_listed-Held async p h = remove_all-Held async _ _ (record {
    stored = (Frame.keys-Keeps e b laws key IsStored prefix_rule).at p.world h.stored;
    listed = h.listed;
  })

  push_touched-IsStored :
      (async : Bool) (hs : List Str) (w : World)
      → IsStored (view w key)
      → IsStored (view (push_touched e b async hs w) key)
  unfolding push_touched enqueue_host_push
  push_touched-IsStored async [] w h = h
  push_touched-IsStored true (host ∷ hs) w h =
      push_touched-IsStored true hs _ (queue_keeps e b (Stored.kept e b laws apart rest) _ w h)
  push_touched-IsStored false (host ∷ hs) w h =
      push_touched-IsStored false hs _
        (push_host_inline_keeps e b (Stored.kept e b laws apart rest) host w h)

  -- A backend that keeps the laws, also one whose calls may fail, apart from which nothing changes its contents: a key
  -- that starts with `rule:` and holds something still does after an upsert. It still does after a replacing import
  -- if a rule of the payload that passes the check of its fields gets this key, its host's case rule having been
  -- applied without an error.
  pub run_import-IsStored :
      (started : Time) (replace async : Bool) (rules : List Redirect) (w : World)
      → IsStored (view w key)
      → (replace ≡ false) ⊎ IsChecked e b started async rules w key
      → IsStored (view (run_import e b started replace async rules w).world key)
  unfolding run_import
  run_import-IsStored started false async rules w h may =
      push_touched-IsStored async _ _
        (import_all_stored e b laws apart rest started async rules _ h)
  run_import-IsStored started true async rules w h (inl upsert) = absurd (cc)
  run_import-IsStored started true async rules w h (inr checked) =
      push_touched-IsStored async _ _
        (remove_listed-Held async _ (record {
          stored = import_all_stored e b laws apart rest started async rules _ h;
          listed = IsChecked-listed e b started async rules w key checked;
        })).stored
