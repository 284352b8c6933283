-- ===== src/Admin/Import/Replaced.antt =====
-- What a replacing import does not leave (admin-api/src/handlers.rs, run_import).
use mathlib.Core.Path.{subst}
use vanity_manager.Prelude.{
  ◌≡◌, refl, sym, ap, ◌∙◌, ◌⊎◌, inl, inr, Bool, true, false, not, ◌||◌, Option, none, some, List,
  [], ◌∷◌, ◌++◌, Str, is_some, Any, str_eq, str_eq_iff, starts_with, starts_with_self, Bool-cases,
  Option-cases, if◌then◌else◌,
}
use vanity_manager.Exec.{Env, Result-cases}
use vanity_manager.Exec.Keeps.{Keeps}
use vanity_manager.Model.{Redirect, MatchType}
use vanity_manager.Keys.{prefix_rule, parse_rule_key}
use vanity_manager.Store
use vanity_manager.Store.{Backend}
use vanity_manager.Store.Laws.{StoreLaws, IsApart, Answers, Accepts}
use vanity_manager.Store.Frame.{AtKey}
use vanity_manager.Sync.{enqueue_rule_delete, enqueue_host_push}
use vanity_manager.Sync.Rules.{rule_kept, Nothing-IsStampProof}
use vanity_manager.Sync.Frame.{
  IsKept, queue_keeps, push_host_inline_keeps, push_delete_rule_inline_keeps,
}
use vanity_manager.Admin.{decrement_host_meta}
use vanity_manager.Admin.Frame.{decrement_host_meta-Keeps}
use vanity_manager.Admin.Import.{
  Import, contains_key, nothing_yet, import_all, push_removed, remove_rule, remove_absent,
  remove_all, remove_listed, push_touched, run_import,
}

module _ (e : Env) (b : Backend) (laws : StoreLaws e b) (apart : IsApart e b laws)
    (accepts : Accepts e b) (rest : Str) where
  open e use {World, Time}
  open laws use {view}

  abbrev key : Str
  key = prefix_rule ++ rest

  abbrev P : World → Type 0
  P = AtKey e b laws key (λ o. o ≡ none)

  kept : IsKept e b P
  kept = rule_kept e b laws apart rest (λ o. o ≡ none) (Nothing-IsStampProof e)

  -- A removal of any key leaves nothing where nothing was.
  delete-Keeps : (k : Str) → Keeps P (Store.delete e b k)
  delete-Keeps k = record {
    at = λ w h.
        laws.delete_view k key w (accepts.delete_ok k w) ∙ none_or (str_eq k key) (view w key) h;
  }
    where
      none_or : {A : Type 0} (c : Bool) (o : Option A) → o ≡ none → (if c then none else o) ≡ none
      none_or true o h = refl
      none_or false o h = h

  push_removed-none :
      (async : Bool) (k host : Str) (p : Import e)
      → P p.world
      → P (push_removed e b async k host p).world
  unfolding push_removed enqueue_rule_delete
  push_removed-none true k host p h = queue_keeps e b kept _ p.world h
  push_removed-none false k host p h = push_delete_rule_inline_keeps e b kept k p.world h

  -- A removal after which the key holds nothing.
  remove_rule-none :
      (async : Bool) (k host : Str) (p : Import e)
      → P (Store.delete e b k p.world).1
      → P (remove_rule e b async k host p).world
  unfolding remove_rule
  remove_rule-none async k host p gone =
      let w = (Store.delete e b k p.world).1 in
      let counted =
        (decrement_host_meta-Keeps e b laws apart rest (λ o. o ≡ none) host).at w gone in
      elim (Result-cases (Store.delete e b k p.world).0) [
        | inr (x, failed) ↦ rw (failed, remove_rule) gone
        | inl (u, removed) ↦ elim (Result-cases (decrement_host_meta e b host w).0) [
          | inr (x, failed) ↦ rw (removed, failed, remove_rule) counted
          | inl (u', done) ↦
              rw (removed, done, remove_rule) (push_removed-none async k host _ counted)
        ]
      ]

  remove_absent-none :
      (async : Bool) (k : Str) (p : Import e) → P p.world → P (remove_absent e b async k p).world
  unfolding remove_absent
  remove_absent-none async k p h =
      elim (Bool-cases (not (starts_with prefix_rule k) || contains_key p.payload_keys k)) [
        | inl stays ↦ rw (stays, remove_absent) h
        | inr goes ↦ elim (Option-cases (parse_rule_key k)) [
          | inl unparsed ↦ rw (goes, unparsed, remove_absent) h
          | inr ((host, mt, path), parsed) ↦
              rw (goes, parsed, remove_absent)
                (remove_rule-none async k host p ((delete-Keeps k).at p.world h))
        ]
      ]

  -- The round of the key itself.
  remove_absent-key :
      (async : Bool) (p : Import e) (t : Str × MatchType × Str)
      → parse_rule_key key ≡ some t
      → contains_key p.payload_keys key ≡ false
      → P (remove_absent e b async key p).world
  unfolding remove_absent
  remove_absent-key async p (host, mt, path) parsed absent =
      let goes : (not (starts_with prefix_rule key) || contains_key p.payload_keys key) ≡ false =
        ap (λ c. not c || contains_key p.payload_keys key) (starts_with_self prefix_rule rest)
        ∙ absent in
      rw (goes, parsed, remove_absent)
        (remove_rule-none async key host p (
          laws.delete_view key key p.world (accepts.delete_ok key p.world)
          ∙ rw ((str_eq_iff key key).1 refl) refl))

  -- The second loop leaves the payload's keys as they are.
  remove_rule-payload_keys :
      (async : Bool) (k host : Str) (p : Import e)
      → (remove_rule e b async k host p).payload_keys ≡ p.payload_keys
  unfolding remove_rule push_removed
  remove_rule-payload_keys async k host p = elim (Result-cases (Store.delete e b k p.world).0) [
    | inr (x, failed) ↦ rw (failed, remove_rule) refl
    | inl (u, removed) ↦
        elim (Result-cases (decrement_host_meta e b host (Store.delete e b k p.world).1).0) [
          | inr (x, failed) ↦ rw (removed, failed, remove_rule) refl
          | inl (u', done) ↦ rw (removed, done, remove_rule) refl
        ]
  ]

  remove_absent-payload_keys :
      (async : Bool) (k : Str) (p : Import e)
      → (remove_absent e b async k p).payload_keys ≡ p.payload_keys
  unfolding remove_absent
  remove_absent-payload_keys async k p =
      elim (Bool-cases (not (starts_with prefix_rule k) || contains_key p.payload_keys k)) [
        | inl stays ↦ rw (stays, remove_absent) refl
        | inr goes ↦ elim (Option-cases (parse_rule_key k)) [
          | inl unparsed ↦ rw (goes, unparsed, remove_absent) refl
          | inr ((host, mt, path), parsed) ↦
              rw (goes, parsed, remove_absent) (remove_rule-payload_keys async k host p)
        ]
      ]

  remove_all-none :
      (async : Bool) (ks : List Str) (p : Import e) (t : Str × MatchType × Str)
      → parse_rule_key key ≡ some t
      → contains_key p.payload_keys key ≡ false
      → P p.world ⊎ Any (λ j. j ≡ key) ks
      → P (remove_all e b async ks p).world
  unfolding remove_all
  remove_all-none async [] p t parsed absent (inl gone) = gone
  remove_all-none async [] p t parsed absent (inr listed) = absurd listed
  remove_all-none async (k ∷ ks) p t parsed absent h =
      let absent' : contains_key (remove_absent e b async k p).payload_keys key ≡ false =
        ap (λ js. contains_key js key) (remove_absent-payload_keys async k p) ∙ absent in
      remove_all-none async ks (remove_absent e b async k p) t parsed absent' (elim h [
        | inl gone ↦ inl (remove_absent-none async k p gone)
        | inr (inl here) ↦ inl (
            subst (λ j. P (remove_absent e b async j p).world) (sym here)
              (remove_absent-key async p t parsed absent))
        | inr (inr later) ↦ inr later
      ])

  remove_listed-none :
      Answers e b
      → (async : Bool) (p : Import e) (t : Str × MatchType × Str) → parse_rule_key key ≡ some t
      → contains_key p.payload_keys key ≡ false
      → P (remove_listed e b async p).world
  unfolding remove_listed
  remove_listed-none answers async p t parsed absent =
      let (keys, listed) = answers.keys_ok prefix_rule p.world in
      let w = (Store.keys_with_prefix e b prefix_rule p.world).1 in
      let same : view w key ≡ view p.world key =
        ap (λ m. m key) (laws.keys_keeps prefix_rule p.world) in
      rw (listed, remove_listed)
        (remove_all-none async keys _ t parsed absent (elim (Option-cases (view p.world key)) [
          | inl nothing ↦ inl (same ∙ nothing)
          | inr (v, held) ↦ inr (
              (laws.keys_view prefix_rule key p.world keys listed).1
                (starts_with_self prefix_rule rest, ap is_some held))
        ]))

  push_touched-none :
      (async : Bool) (hs : List Str) (w : World) → P w → P (push_touched e b async hs w)
  unfolding push_touched enqueue_host_push
  push_touched-none async [] w h = h
  push_touched-none true (host ∷ hs) w h = push_touched-none true hs _ (queue_keeps e b kept _ w h)
  push_touched-none false (host ∷ hs) w h =
      push_touched-none false hs _ (push_host_inline_keeps e b kept host w h)

  -- A backend that keeps the laws, accepts writes and deletions and answers reads, apart from which nothing changes its
  -- contents: after a replacing import, a key that starts with `rule:`, is the key of a rule and is not one of the
  -- payload's keys holds nothing.
  pub run_import-none :
      Answers e b
      → (started : Time) (async : Bool) (rules : List Redirect) (w : World)
        (t : Str × MatchType × Str)
      → parse_rule_key key ≡ some t
      → contains_key (import_all e b started async rules (nothing_yet e w)).payload_keys key ≡ false
      → view (run_import e b started true async rules w).world key ≡ none
  unfolding run_import
  run_import-none answers started async rules w t parsed absent =
      push_touched-none async _ _ (remove_listed-none answers async _ t parsed absent)
