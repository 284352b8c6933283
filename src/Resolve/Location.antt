-- ===== src/Resolve/Location.antt =====
-- The location that the redirect handler answers with (redirect-handler/src/lib.rs, resolve_redirect): the slice of
-- the path behind the rule's path.
use mathlib.Core.Bool.{and-eq-true_iff}
use mathlib.Core.Path.{ap₂}
use vanity_manager.Prelude.{
  ==_iff, ◌==◌, ◌-◌, ℕ, zero, suc, ◌+◌, ◌≡◌, refl, sym, ap, ◌∙◌, inl, inr, Bool, true, false, not,
  ◌&&◌, some, [], ◌∷◌, ◌++◌, Str, codes, arith, is_empty, str_eq, str_eq_iff, starts_with, str_len,
  len_utf8, slice_from, leb, ltb, trim_end_matches, and_then, if◌then◌else◌, Bool-cases,
  append_assoc, append-nil,
}
use vanity_manager.Model.{Redirect, prefix, match_type_eq}
use vanity_manager.Resolve.{path_matches, with_suffix}

len_utf8-suc : (c : ℕ) → (k : ℕ) × (len_utf8 c ≡ suc k)
unfolding len_utf8
len_utf8-suc c = elim (Bool-cases (ltb c 0x80)) [
  | inl h ↦ (0, rw h refl)
  | inr h ↦ elim (Bool-cases (ltb c 0x800)) [
    | inl k ↦ (1, rw (h, k) refl)
    | inr k ↦ elim (Bool-cases (ltb c 0x10000)) [
      | inl l ↦ (2, rw (h, k, l) refl)
      | inr l ↦ (3, rw (h, k, l) refl)
    ]
  ]
]

-- A slice from behind a first character is a slice of the rest.
slice_from-char :
    (m n c k : ℕ) (s : Str)
    → m ≡ suc (k + n)
    → len_utf8 c ≡ suc k
    → slice_from m (c ∷ s) ≡ slice_from n s
unfolding slice_from
slice_from-char zero n c k s past width = absurd (omega (arith, past))
slice_from-char (suc m) n c k s past width =
    let inside : leb (len_utf8 c) (suc m) ≡ true = ground (arith, past, width) in
    let left : suc m - len_utf8 c ≡ n = omega (arith, past, width) in rw (inside, left) refl

slice_from-append : (a s : Str) → slice_from (str_len a) (a ++ s) ≡ some s
unfolding slice_from str_len
slice_from-append [] s = refl
slice_from-append (c ∷ a) s =
    let (k, width) = len_utf8-suc c in
    slice_from-char (len_utf8 c + str_len a) (str_len a) c k (a ++ s) (omega (arith, width)) width
    ∙ slice_from-append a s

str_len-append : (a s : Str) → str_len (a ++ s) ≡ str_len a + str_len s
unfolding str_len
str_len-append [] s = omega arith
str_len-append (c ∷ a) s = omega (arith, str_len-append a s)

str_len-shorter : (a s : Str) → ltb (str_len a) (str_len (a ++ s)) ≡ not (is_empty s)
unfolding str_len is_empty
str_len-shorter a [] = ground (arith, str_len-append a [])
str_len-shorter a (c ∷ s) =
    let (k, width) = len_utf8-suc c in ground (arith, str_len-append a (c ∷ s), width)

starts_with-rest : (p s : Str) → starts_with p s ≡ true → (rest : Str) × (s ≡ p ++ rest)
unfolding starts_with
starts_with-rest [] s h = (s, refl)
starts_with-rest (c ∷ p) [] h = absurd (cc)
starts_with-rest (c ∷ p) (d ∷ s) h =
    let (same, later) = (and-eq-true_iff (c == d) (starts_with p s)).0 h in
    let (rest, split) = starts_with-rest p s later in
    (rest, ap₂ ◌∷◌ (sym ((==_iff c d).0 same)) split)

path_matches-rest : (p path : Str) → path_matches p path ≡ true → (rest : Str) × (path ≡ p ++ rest)
unfolding path_matches
path_matches-rest p path h = elim (Bool-cases (str_eq path p)) [
  | inl same ↦ ([], (str_eq_iff path p).0 same ∙ sym (append-nil p))
  | inr other ↦
      let (rest, split) = starts_with-rest (p ++ codes "/") path (ground arith) in
      (codes "/" ++ rest, split ∙ append_assoc p (codes "/") rest)
]

some-if : (c : Bool) (s t : Str) → (if c then some s else some t) ≡ some (if c then s else t)
some-if true s t = refl
some-if false s t = refl

with_suffix-append :
    (r : Redirect) (rest : Str)
    → with_suffix r (r.path ++ rest)
      ≡ some (
          if match_type_eq r.match_type prefix && r.preserve_path && not (is_empty rest)
          then trim_end_matches b'/' r.target_url ++ rest
          else r.target_url)
unfolding with_suffix
with_suffix-append r rest =
    rw (str_len-shorter r.path rest, slice_from-append r.path rest, and_then) (some-if _ _ _)

-- A rule whose path matches the request's, byte for byte: the slice does not panic, and the location is the target
-- of the rule, with what follows the rule's path in the path behind it where a prefix rule keeps it.
pub with_suffix-rest :
    (r : Redirect) (path : Str)
    → path_matches r.path path ≡ true
    → (rest : Str) × (path ≡ r.path ++ rest)
      × (with_suffix r path
          ≡ some (
              if match_type_eq r.match_type prefix && r.preserve_path && not (is_empty rest)
              then trim_end_matches b'/' r.target_url ++ rest
              else r.target_url))
unfolding with_suffix
with_suffix-rest r path h =
    let (rest, split) = path_matches-rest r.path path h in
    (rest, split, ap (with_suffix r) split ∙ with_suffix-append r rest)
