-- ===== src/Admin/Snapshot/Seeding.antt =====
-- What seeding leaves alone (admin-api/src/snapshot.rs, ensure_seeded).
use vanity_manager.Prelude.{
  ◌≡◌, refl, ap, ◌∙◌, ◌⊎◌, inl, inr, Bool, true, false, Option, List, [], ◌∷◌, ◌++◌, Str, Bytes,
  is_some, str_eq, starts_with_self,
}
use vanity_manager.Exec.{ok, Env}
use vanity_manager.Exec.Keeps.{Keeps, Keeps-pure, Keeps-bind, Keeps-bind_known}
use vanity_manager.Keys.{prefix_rule, meta_seeded}
use vanity_manager.Store
use vanity_manager.Store.{Backend}
use vanity_manager.Store.Laws.{StoreLaws}
use vanity_manager.Admin.Snapshot.{
  mark_seeded, seed_unless_ruled, seed_unless_marked, ensure_seeded,
}

module _ (e : Env) (b : Backend) (laws : StoreLaws e b) (key : Str) (held : Option Bytes)
    (other : str_eq meta_seeded key ≡ false) where
  open e use {World}
  open laws use {view}

  -- The key holds what it held, and another key still has something.
  record Left (of : Str) (w : World) : Type 0 where
    same : view w key ≡ held
    present : is_some (view w of) ≡ true

  Left-view : (of : Str) (w w' : World) → view w' ≡ view w → Left of w → Left of w'
  Left-view of w w' eq h = record {
    same = ap (λ m. m key) eq ∙ h.same;
    present = ap (λ m. is_some (m of)) eq ∙ h.present;
  }

  mark_seeded-Keeps : (of : Str) → str_eq meta_seeded of ≡ false → Keeps (Left of) (mark_seeded e b)
  unfolding mark_seeded
  mark_seeded-Keeps of apart = record {
    at = λ w h. record {
      same = laws.set_others meta_seeded key _ w other ∙ h.same;
      present = ap is_some (laws.set_others meta_seeded of _ w apart) ∙ h.present;
    };
  }

  exists-Keeps : (of k : Str) → Keeps (Left of) (Store.exists e b k)
  exists-Keeps of k = record { at = λ w h. Left-view of w _ (laws.exists_keeps k w) h }

  keys-Keeps : (of p : Str) → Keeps (Left of) (Store.keys_with_prefix e b p)
  keys-Keeps of p = record { at = λ w h. Left-view of w _ (laws.keys_keeps p w) h }

  -- A store that is marked.
  marked-Keeps : Keeps (Left meta_seeded) (ensure_seeded e b)
  unfolding ensure_seeded seed_unless_marked
  marked-Keeps =
      Keeps-bind_known (Store.exists e b meta_seeded) (seed_unless_marked e b)
        (λ w found h read.
          let yes : found ≡ true = laws.exists_view meta_seeded w found read ∙ h.present in
          rw yes (Left-view meta_seeded w _ (laws.exists_keeps meta_seeded w) h))
        (exists-Keeps meta_seeded meta_seeded)

  -- A store with a rule.
  module _ (rest : Str) where
    abbrev rule : Str
    rule = prefix_rule ++ rest

    seed_unless_ruled-Left :
        (keys : List Str) (w w' : World)
        → Left rule w
        → (Store.keys_with_prefix e b prefix_rule w).0 ≡ ok keys
        → Left rule w'
        → Left rule (seed_unless_ruled e b keys w').1
    unfolding seed_unless_ruled str_eq
    seed_unless_ruled-Left [] w w' h listed h' = absurd (
        (laws.keys_view prefix_rule rule w [] listed).1
          (starts_with_self prefix_rule rest, h.present))
    seed_unless_ruled-Left (_ ∷ _) w w' h listed h' = (mark_seeded-Keeps rule refl).at w' h'

    seed_unless_marked-Keeps : (marked : Bool) → Keeps (Left rule) (seed_unless_marked e b marked)
    unfolding seed_unless_marked
    seed_unless_marked-Keeps true = Keeps-pure tt
    seed_unless_marked-Keeps false =
        Keeps-bind_known (Store.keys_with_prefix e b prefix_rule) (seed_unless_ruled e b)
          (λ w keys h listed.
            seed_unless_ruled-Left keys w _ h listed ((keys-Keeps rule prefix_rule).at w h))
          (keys-Keeps rule prefix_rule)

    ruled-Keeps : Keeps (Left rule) (ensure_seeded e b)
    unfolding ensure_seeded
    ruled-Keeps =
        Keeps-bind (Store.exists e b meta_seeded) (seed_unless_marked e b)
          (exists-Keeps rule meta_seeded) seed_unless_marked-Keeps

  -- A backend that keeps the laws, whose calls may fail: where the store has been marked as seeded, or holds something
  -- under a key that starts with `rule:`, the seeding at the start of a request leaves what every key but that of
  -- the mark holds.
  pub ensure_seeded-keeps :
      (w : World)
      → view w key ≡ held
      → (is_some (view w meta_seeded) ≡ true)
        ⊎ ((rest : Str) × (is_some (view w (prefix_rule ++ rest)) ≡ true))
      → view (ensure_seeded e b w).1 key ≡ held
  ensure_seeded-keeps w same (inl marked) =
      (marked-Keeps.at w (record { same = same; present = marked })).same
  ensure_seeded-keeps w same (inr (rest, ruled)) =
      ((ruled-Keeps rest).at w (record { same = same; present = ruled })).same
