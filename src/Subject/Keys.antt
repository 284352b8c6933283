-- ===== src/Subject/Keys.antt =====
-- Rule keys through the NATS backend: the subject encoding of shared/src/store.rs together with
-- `parse_rule_key` of shared/src/keys.rs.
use mathlib.Core.List.{map-append}
use vanity_manager.Prelude.{◌≡◌, refl, some, [], ◌∷◌, ◌++◌, map, arith, Str, codes, All, All-append}
use vanity_manager.Model.{MatchType, exact, prefix, as_str}
use vanity_manager.Keys.{k_rule, parse_rule_key}
use vanity_manager.Keys.RoundTrip.{Lacks, split_field-colon}
use vanity_manager.Subject.{encode_subject, decode_subject}
use vanity_manager.Subject.RoundTrip.{canonical, IsBmp, decode_subject-encode_subject}

map-canonical-Lacks : (s : Str) → Lacks b'|' (map canonical s)
map-canonical-Lacks [] = tt
map-canonical-Lacks (c ∷ s) = (unfold canonical in ground arith, map-canonical-Lacks s)

map-canonical_id : (s : Str) → Lacks b'|' s → map canonical s ≡ s
unfolding canonical
map-canonical_id [] h = refl
map-canonical_id (c ∷ s) h = ground (arith, map-canonical_id s h.1)

-- A rule key as the decoder spells it.
canonical_key : Str → Str → Str → Str
canonical_key host mt path = codes "rule:" ++ (host ++ b':' ∷ (mt ++ b':' ∷ path))

map-k_rule :
    (host : Str) (mt : MatchType) (path : Str)
    → Lacks b'|' host
    → map canonical (k_rule host mt path) ≡ canonical_key host (as_str mt) (map canonical path)
unfolding k_rule canonical_key
map-k_rule host exact path h =
    unfold canonical in
    rw
      (
        map-append canonical host (codes "|" ++ (codes "exact" ++ (codes "|" ++ path))),
        map-canonical_id host h,
      )
      refl
map-k_rule host prefix path h =
    unfold canonical in
    rw
      (
        map-append canonical host (codes "|" ++ (codes "prefix" ++ (codes "|" ++ path))),
        map-canonical_id host h,
      )
      refl

parse_rule_key-canonical_key :
    (host : Str) (mt : MatchType) (path : Str)
    → Lacks b':' host
    → Lacks b'|' host
    → Lacks b'|' path
    → parse_rule_key (canonical_key host (as_str mt) path) ≡ some (host, mt, path)
unfolding parse_rule_key canonical_key as_str
parse_rule_key-canonical_key host exact path hc hp h = ground (
  arith,
  split_field-colon host (codes "exact:" ++ path) hc (
      All-append _ host (codes ":exact:" ++ path) hp
        (All-append _ (codes ":exact:") path (omega arith) h)),
  split_field-colon (codes "exact") path (omega arith)
      (All-append _ (codes "exact:") path (omega arith) h),
)
parse_rule_key-canonical_key host prefix path hc hp h = ground (
  arith,
  split_field-colon host (codes "prefix:" ++ path) hc (
      All-append _ host (codes ":prefix:" ++ path) hp
        (All-append _ (codes ":prefix:") path (omega arith) h)),
  split_field-colon (codes "prefix") path (omega arith)
      (All-append _ (codes "prefix:") path (omega arith) h),
)

-- A rule key that the NATS backend lists is parsed to the host and match type that it was made of, and
-- to the path with each pipe turned into a colon. The host holds no separator, and the characters are
-- below U+10000.
pub parse_rule_key-decode_subject :
    (host : Str) (mt : MatchType) (path : Str)
    → Lacks b':' host
    → Lacks b'|' host
    → All IsBmp (k_rule host mt path)
    → parse_rule_key (decode_subject (encode_subject (k_rule host mt path)))
      ≡ some (host, mt, map canonical path)
parse_rule_key-decode_subject host mt path hc hp hb =
    rw (decode_subject-encode_subject (k_rule host mt path) hb, map-k_rule host mt path hp)
      (parse_rule_key-canonical_key host mt (map canonical path) hc hp (map-canonical-Lacks path))
