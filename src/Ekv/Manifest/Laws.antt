-- ===== src/Ekv/Manifest/Laws.antt =====
-- The prefix manifest holds the enabled prefix rules, longest first, so that the first entry that matches a
-- path is a longest one (shared/src/ekv.rs; the EdgeWorker takes the first match).
use mathlib.Core.List.{Perm}
use mathlib.Core.List.Perm
use vanity_manager.Prelude.{
  ◌≤◌, ◌≡◌, inl, inr, Bool, true, false, List, [], ◌∷◌, map, filter, ◌&&◌, arith, str_len, All,
  Bool-cases,
}
use vanity_manager.Model.{Redirect, EkvPrefixEntry, prefix, match_type_eq, prefix_entry_from}
use vanity_manager.Ekv.Manifest.{
  entry_le, insert_by, sort_by, is_live_prefix, build_prefix_manifest,
}

-- Each entry is at least as long as those behind it.
abbrev pub LongestFirst : List EkvPrefixEntry → Type 0
LongestFirst [] = Unit
LongestFirst (x ∷ xs) = All (λ y. str_len y.p ≤ str_len x.p) xs × LongestFirst xs

entry_le-true : (a b : EkvPrefixEntry) → entry_le a b ≡ true → str_len b.p ≤ str_len a.p
unfolding entry_le
entry_le-true a b h = ground arith

entry_le-false : (a b : EkvPrefixEntry) → entry_le a b ≡ false → str_len a.p ≤ str_len b.p
unfolding entry_le
entry_le-false a b h = ground arith

All-shorter :
    (a b : EkvPrefixEntry) (xs : List EkvPrefixEntry)
    → str_len a.p ≤ str_len b.p
    → All (λ y. str_len y.p ≤ str_len a.p) xs
    → All (λ y. str_len y.p ≤ str_len b.p) xs
All-shorter a b [] h k = tt
All-shorter a b (x ∷ xs) h k = (omega arith, All-shorter a b xs h k.1)

All-insert_by :
    (P : EkvPrefixEntry → Type 0) (x : EkvPrefixEntry) (xs : List EkvPrefixEntry)
    → P x
    → All P xs
    → All P (insert_by entry_le x xs)
unfolding insert_by
All-insert_by P x [] p h = (p, tt)
All-insert_by P x (y ∷ ys) p h = elim (Bool-cases (entry_le x y)) [
  | inl before ↦ rw (before, insert_by) (p, h)
  | inr behind ↦ rw (behind, insert_by) (h.0, All-insert_by P x ys p h.1)
]

insert_by-LongestFirst :
    (x : EkvPrefixEntry) (xs : List EkvPrefixEntry)
    → LongestFirst xs
    → LongestFirst (insert_by entry_le x xs)
unfolding insert_by
insert_by-LongestFirst x [] h = (tt, tt)
insert_by-LongestFirst x (y ∷ ys) h = elim (Bool-cases (entry_le x y)) [
  | inl before ↦
      let le = entry_le-true x y before in
      rw (before, insert_by) ((le, All-shorter y x ys le h.0), h)
  | inr behind ↦
      rw (behind, insert_by)
        (
          All-insert_by (λ z. str_len z.p ≤ str_len y.p) x ys (entry_le-false x y behind) h.0,
          insert_by-LongestFirst x ys h.1,
        )
]

sort_by-LongestFirst : (xs : List EkvPrefixEntry) → LongestFirst (sort_by entry_le xs)
unfolding sort_by
sort_by-LongestFirst [] = tt
sort_by-LongestFirst (x ∷ xs) =
    insert_by-LongestFirst x (sort_by entry_le xs) (sort_by-LongestFirst xs)

module _ {A : Type 0} (le : A → A → Bool) where
  insert_by-perm : (x : A) (xs : List A) → Perm (insert_by le x xs) (x ∷ xs)
  unfolding insert_by
  insert_by-perm x [] = Perm.refl (x ∷ [])
  insert_by-perm x (y ∷ ys) = elim (Bool-cases (le x y)) [
    | inl before ↦ rw (before, insert_by) (Perm.refl (x ∷ y ∷ ys))
    | inr behind ↦
        rw (behind, insert_by) (Perm.trans (Perm.cons y (insert_by-perm x ys)) (Perm.swap x y ys))
  ]

  pub sort_by-perm : (xs : List A) → Perm (sort_by le xs) xs
  unfolding sort_by
  sort_by-perm [] = Perm.refl []
  sort_by-perm (x ∷ xs) =
      Perm.trans (insert_by-perm x (sort_by le xs)) (Perm.cons x (sort_by-perm xs))

-- The manifest is, up to order, the entries of the enabled prefix rules, and no entry is longer than one
-- that stands in front of it.
pub build_prefix_manifest-LongestFirst :
    (rules : List Redirect)
    → LongestFirst (build_prefix_manifest rules)
      × Perm (build_prefix_manifest rules) (
          map prefix_entry_from
            (filter (λ r. match_type_eq r.match_type prefix && r.enabled) rules))
unfolding build_prefix_manifest
build_prefix_manifest-LongestFirst rules =
    let entries = map prefix_entry_from (filter is_live_prefix rules) in
    (sort_by-LongestFirst entries, sort_by-perm entry_le entries)
