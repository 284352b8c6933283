-- ===== src/Model/Paths.antt =====
-- `normalize_path` of shared/src/model.rs: the loop ends, and what form the result has.
use vanity_manager.Prelude.{
  ℕ, zero, suc, ◌≤◌, ◌<◌, ◌≡◌, refl, ap, ◌⊎◌, inl, inr, Bool, true, false, [], ◌∷◌, arith, Str,
  codes, starts_with, contains, ends_with, pop, replace, trim, str_len, len_utf8, ltb, length, ◌==◌,
  if◌then◌else◌, Bool-cases,
}
use vanity_manager.Model.{collapse, with_slash, without_slash, normalize_path}

abbrev shrink : Str → Str
shrink s = replace (codes "//") (codes "/") s

abbrev is_pair : ℕ → ℕ → Bool
is_pair c d = if c == b'/' then d == b'/' else false

shrink_one : (c : ℕ) → shrink (c ∷ []) ≡ c ∷ []
unfolding replace
shrink_one c = ground arith

shrink_step :
    (c d : ℕ) (s : Str)
    → shrink (c ∷ d ∷ s) ≡ (if is_pair c d then b'/' ∷ shrink s else c ∷ shrink (d ∷ s))
unfolding replace
shrink_step c d s = ground arith

contains_one : (c : ℕ) → contains (codes "//") (c ∷ []) ≡ false
unfolding contains
contains_one c = ground arith

contains_step :
    (c d : ℕ) (s : Str)
    → contains (codes "//") (c ∷ d ∷ s)
      ≡ (if is_pair c d then true else contains (codes "//") (d ∷ s))
unfolding contains
contains_step c d s = ground arith

shrink_nil : shrink [] ≡ []
unfolding replace
shrink_nil = refl

contains_nil : contains (codes "//") [] ≡ false
unfolding contains
contains_nil = refl

length-shrink-le : (s : Str) → length (shrink s) ≤ length s
length-shrink-le [] = rw shrink_nil (omega arith)
length-shrink-le (c ∷ []) = rw shrink_one (omega arith)
length-shrink-le (c ∷ d ∷ s) =
    ground (arith, shrink_step c d s, length-shrink-le s, length-shrink-le (d ∷ s))

length-shrink-lt : (s : Str) → contains (codes "//") s ≡ true → length (shrink s) < length s
length-shrink-lt [] h = ground (arith, contains_nil)
length-shrink-lt (c ∷ []) h = ground (arith, contains_one c)
length-shrink-lt (c ∷ d ∷ s) h =
    ground
      (arith, shrink_step c d s, contains_step c d s, length-shrink-le s, length-shrink-lt (d ∷ s))

-- The reference: a slash that follows a slash is left out.
unfoldable pub dedupe : Str → Str
dedupe [] = []
dedupe (c ∷ []) = c ∷ []
dedupe (c ∷ d ∷ s) = let rest = dedupe (d ∷ s) in if is_pair c d then rest else c ∷ rest

dedupe_pair : (s : Str) → dedupe (b'/' ∷ b'/' ∷ s) ≡ dedupe (b'/' ∷ s)
unfolding dedupe
dedupe_pair s = refl

collapse-contains :
    (fuel : ℕ) (p : Str) → length p ≤ fuel → contains (codes "//") (collapse fuel p) ≡ false
unfolding collapse
collapse-contains zero [] h = contains_nil
collapse-contains zero (c ∷ p) h = absurd (omega arith)
collapse-contains (suc fuel) p h =
    ground (arith, length-shrink-lt p, collapse-contains fuel (shrink p))

starts_cons : (c : ℕ) (s : Str) → starts_with (codes "/") (c ∷ s) ≡ (c == b'/')
unfolding starts_with
starts_cons c s = ground arith

starts-shrink : (s : Str) → starts_with (codes "/") (shrink s) ≡ starts_with (codes "/") s
unfolding starts_with
starts-shrink [] = rw shrink_nil
starts-shrink (c ∷ []) = rw shrink_one
starts-shrink (c ∷ d ∷ s) = ground (arith, shrink_step c d s)

dedupe_cons :
    (c : ℕ) (s : Str)
    → dedupe (c ∷ s) ≡ (
        if (if c == b'/' then starts_with (codes "/") s else false) then dedupe s else c ∷ dedupe s)
unfolding dedupe starts_with
dedupe_cons c [] = ground arith
dedupe_cons c (d ∷ s) = ground arith

dedupe-shrink : (s : Str) → dedupe (shrink s) ≡ dedupe s
dedupe-shrink [] = rw shrink_nil
dedupe-shrink (c ∷ []) = rw shrink_one
dedupe-shrink (c ∷ d ∷ s) = ground (
  arith,
  shrink_step c d s,
  dedupe_cons b'/' (shrink s),
  dedupe_cons b'/' s,
  dedupe_cons c (d ∷ s),
  dedupe_cons c (shrink (d ∷ s)),
  dedupe_cons d s,
  starts-shrink s,
  starts-shrink (d ∷ s),
  dedupe-shrink s,
  dedupe-shrink (d ∷ s),
  starts_cons d s,
)

dedupe_id : (s : Str) → contains (codes "//") s ≡ false → dedupe s ≡ s
unfolding dedupe
dedupe_id [] h = refl
dedupe_id (c ∷ []) h = refl
dedupe_id (c ∷ d ∷ s) h = ground (arith, contains_step c d s, dedupe_id (d ∷ s))

collapse-dedupe : (fuel : ℕ) (p : Str) → length p ≤ fuel → collapse fuel p ≡ dedupe p
unfolding collapse
collapse-dedupe zero [] h = unfold dedupe in refl
collapse-dedupe zero (c ∷ p) h = absurd (omega arith)
collapse-dedupe (suc fuel) p h =
    ground
      (arith, length-shrink-lt p, collapse-dedupe fuel (shrink p), dedupe-shrink p, dedupe_id p)

-- The form of a normalised path: it starts with a slash, no slash follows a slash, and no slash
-- ends it but that of the root.
pub record IsNormal (p : Str) : Type 0 where
  pub rooted : starts_with (codes "/") p ≡ true
  pub single : contains (codes "//") p ≡ false
  pub no_trailing : (p ≡ codes "/") ⊎ (ends_with b'/' p ≡ false)

starts-collapse :
    (fuel : ℕ) (p : Str)
    → starts_with (codes "/") p ≡ true
    → starts_with (codes "/") (collapse fuel p) ≡ true
unfolding collapse
starts-collapse zero p h = h
starts-collapse (suc fuel) p h = ground (arith, starts-shrink p, starts-collapse fuel (shrink p))

starts-with_slash : (p : Str) → starts_with (codes "/") (with_slash p) ≡ true
unfolding with_slash
starts-with_slash p = ground (arith, starts_cons b'/' p)

contains-pop : (s : Str) → contains (codes "//") s ≡ false → contains (codes "//") (pop s) ≡ false
unfolding pop
contains-pop [] h = h
contains-pop (c ∷ []) h = contains_nil
contains-pop (c ∷ d ∷ []) h = contains_one c
contains-pop (c ∷ d ∷ e ∷ s) h =
    ground
      (arith, contains_step c d (pop (e ∷ s)), contains_step c d (e ∷ s), contains-pop (d ∷ e ∷ s))

ends-pop :
    (c d : ℕ) (s : Str)
    → contains (codes "//") (c ∷ d ∷ s) ≡ false
    → ends_with b'/' (c ∷ d ∷ s) ≡ true
    → ends_with b'/' (pop (c ∷ d ∷ s)) ≡ false
unfolding pop ends_with
ends-pop c d [] h e = ground (arith, contains_step c d [])
ends-pop c d (x ∷ s) h e = ground (arith, contains_step c d (x ∷ s), ends-pop d x s)

str_len-pos : (c : ℕ) → 1 ≤ len_utf8 c
unfolding len_utf8
str_len-pos c = ground arith

long_enough : (c d : ℕ) (s : Str) → ltb 1 (str_len (c ∷ d ∷ s)) ≡ true
unfolding str_len
long_enough c d s = ground (arith, str_len-pos c, str_len-pos d)

without_slash-IsNormal :
    (p : Str)
    → starts_with (codes "/") p ≡ true
    → contains (codes "//") p ≡ false
    → IsNormal (without_slash p)
unfolding without_slash
without_slash-IsNormal [] h k = unfold starts_with in cc h
without_slash-IsNormal (c ∷ []) h k =
    let e : c ≡ b'/' = ground (arith, starts_cons c []) in
    rw e (record {
      rooted = unfold starts_with in refl;
      single = contains_one b'/';
      no_trailing = inl refl;
    })
without_slash-IsNormal (c ∷ d ∷ s) h k = elim (Bool-cases (ends_with b'/' (c ∷ d ∷ s))) [
  | inl e ↦
      rw (long_enough c d s, e)
        (record {
          rooted = ground (arith, starts_cons c (pop (d ∷ s)), starts_cons c (d ∷ s));
          single = contains-pop (c ∷ d ∷ s) k;
          no_trailing = inr (ends-pop c d s k e);
        })
  | inr e ↦ rw (long_enough c d s, e) (record { rooted = h; single = k; no_trailing = inr e })
]

-- For every input the result of `normalize_path` starts with a slash, has no two slashes in a row, and
-- ends in a slash only if it is the root; so the fuel of its loop is enough.
pub normalize_path-IsNormal : (raw : Str) → IsNormal (normalize_path raw)
unfolding normalize_path
normalize_path-IsNormal raw =
    let p = with_slash (trim raw) in
    without_slash-IsNormal (collapse (length p) p)
      (starts-collapse (length p) p (starts-with_slash (trim raw)))
      (collapse-contains (length p) p (omega arith))

-- The loop of replacements computes what one pass does that leaves out each slash behind a slash.
pub normalize_path-dedupe :
    (raw : Str) → normalize_path raw ≡ without_slash (dedupe (with_slash (trim raw)))
unfolding normalize_path
normalize_path-dedupe raw =
    let p = with_slash (trim raw) in ap without_slash (collapse-dedupe (length p) p (omega arith))

without_slash-normal : (p : Str) → IsNormal p → without_slash p ≡ p
unfolding without_slash str_len ends_with
without_slash-normal p h = ground arith

-- A path in normal form that has no white space at its ends is left as it is.
pub normalize_path-normal : (p : Str) → IsNormal p → trim p ≡ p → normalize_path p ≡ p
unfolding normalize_path with_slash
normalize_path-normal p h e =
    rw (e, h.rooted, collapse-dedupe (length p) p (omega arith), dedupe_id p h.single)
      (without_slash-normal p h)
