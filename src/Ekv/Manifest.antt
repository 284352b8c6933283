-- ===== src/Ekv/Manifest.antt =====
-- `build_prefix_manifest` of shared/src/ekv.rs.
pub mod Laws
use vanity_manager.Prelude.{
  Bool, true, false, ◌&&◌, List, [], ◌∷◌, map, filter, Str, str_len, str_le, ltb, ◌==◌,
  if◌then◌else◌,
}
use vanity_manager.Model.{Redirect, EkvPrefixEntry, prefix, match_type_eq, prefix_entry_from}

-- `b.p.len().cmp(&a.p.len()).then(a.p.cmp(&b.p))` is not `Greater`.
unfoldable pub entry_le : EkvPrefixEntry → EkvPrefixEntry → Bool
unfolding str_len str_le
entry_le a b =
    if ltb (str_len b.p) (str_len a.p)
    then true
    else if ltb (str_len a.p) (str_len b.p)
    then false
    else str_le a.p b.p

-- `slice::sort_by`, which is stable: an element goes before the first one that it is not greater than.
module _ {A : Type 0} (le : A → A → Bool) where
  unfoldable pub insert_by : A → List A → List A
  insert_by x [] = x ∷ []
  insert_by x (y ∷ ys) = if le x y then x ∷ y ∷ ys else y ∷ insert_by x ys

  unfoldable pub sort_by : List A → List A
  unfolding insert_by
  sort_by [] = []
  sort_by (x ∷ xs) = insert_by x (sort_by xs)

abbrev pub is_live_prefix : Redirect → Bool
is_live_prefix r = match_type_eq r.match_type prefix && r.enabled

unfoldable pub build_prefix_manifest : List Redirect → List EkvPrefixEntry
unfolding sort_by
build_prefix_manifest rules = sort_by entry_le (map prefix_entry_from (filter is_live_prefix rules))
