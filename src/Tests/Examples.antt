-- ===== src/Tests/Examples.antt =====
-- The properties with hypotheses, at inputs that meet them, and runs of the definitions.
use vanity_manager.Prelude.{
  ◌≡◌, refl, Option, inr, ◌+◌, ◌≤◌, some, [], ◌∷◌, map, arith, codes, lt_i64, str_eq, str_len, Str,
  ◌++◌, ◌&&◌, true, not, is_empty, if◌then◌else◌, trim_end_matches, starts_with, contains,
  ends_with, length, trim,
}
use vanity_manager.Model.{
  Redirect, exact, prefix, match_type_eq, normalize_path, without_slash, with_slash,
}
use vanity_manager.Model.Paths.{
  IsNormal, normalize_path-IsNormal, normalize_path-dedupe, normalize_path-normal, dedupe,
}
use vanity_manager.Keys.{k_rule, parse_rule_key, split_field, rule_key_prefix}
use vanity_manager.Keys.RoundTrip.{parse_rule_key-k_rule}
use vanity_manager.Subject.{encode_subject, decode_subject}
use vanity_manager.Subject.RoundTrip.{
  canonical, decode_subject-encode_subject, encode_subject-decode_subject,
}
use vanity_manager.Subject.Keys.{parse_rule_key-decode_subject}
use vanity_manager.Exec.{ok}
use vanity_manager.Store
use vanity_manager.Store.{spin}
use vanity_manager.Kv.{get_rule}
use vanity_manager.Sync.Drain.{drain_pending, pending_targets}
use vanity_manager.Sync.Drain.Counts.{drain_pending_counts}
use vanity_manager.Resolve.{
  lookup_rules, longest_prefix, best_prefix, consider, better, is_candidate, path_matches,
  with_suffix,
}
use vanity_manager.Resolve.Location.{with_suffix-rest}
use vanity_manager.Resolve.Answers.{Resolves, lookup_rules-Resolves}
use vanity_manager.Resolve.Totality.{Readable, lookup_rules-answers}
use vanity_manager.Store.Laws.{StoreLaws, Answers}
use vanity_manager.Store.Spin.{spin-StoreLaws}
use vanity_manager.Tests.Memory.{Machine, memory, memory-SpinLaws, holding, rule, memory-StoreLaws}

normalize_path-IsNormal_example : IsNormal (normalize_path (codes " a//b/ "))
normalize_path-IsNormal_example = normalize_path-IsNormal (codes " a//b/ ")

normalize_path_test : normalize_path (codes " a///b/ ") ≡ codes "/a/b"
unfolding normalize_path
normalize_path_test = refl

normalize_path-dedupe_example :
    normalize_path (codes "a//b/") ≡ without_slash (dedupe (with_slash (trim (codes "a//b/"))))
normalize_path-dedupe_example = normalize_path-dedupe (codes "a//b/")

ab-IsNormal : IsNormal (codes "/a b")
unfolding contains ends_with
ab-IsNormal = record { rooted = refl; single = refl; no_trailing = inr refl }

trim_ab : trim (codes "/a b") ≡ codes "/a b"
unfolding trim
trim_ab = refl

normalize_path-normal_example : normalize_path (codes "/a b") ≡ codes "/a b"
normalize_path-normal_example = normalize_path-normal (codes "/a b") ab-IsNormal trim_ab

parse_rule_key-k_rule_example :
    parse_rule_key (k_rule (codes "h.example") prefix (codes "/a|b:c"))
    ≡ some (codes "h.example", prefix, codes "/a|b:c")
parse_rule_key-k_rule_example =
    parse_rule_key-k_rule (codes "h.example") prefix (codes "/a|b:c") (omega arith)

decode_subject-encode_subject_example :
    decode_subject (encode_subject (codes "rule:h|exact|/a_é"))
    ≡ map canonical (codes "rule:h|exact|/a_é")
decode_subject-encode_subject_example =
    decode_subject-encode_subject (codes "rule:h|exact|/a_é") (ground arith)

encode_subject-decode_subject_example :
    encode_subject (decode_subject (encode_subject (codes "a|b"))) ≡ encode_subject (codes "a|b")
encode_subject-decode_subject_example = encode_subject-decode_subject (codes "a|b") (ground arith)

parse_rule_key-decode_subject_example :
    parse_rule_key (decode_subject (encode_subject (k_rule (codes "h") exact (codes "/a|b"))))
    ≡ some (codes "h", exact, map canonical (codes "/a|b"))
unfolding k_rule
parse_rule_key-decode_subject_example =
    parse_rule_key-decode_subject (codes "h") exact (codes "/a|b") (omega arith) (omega arith)
      (ground arith)

abbrev two_rules : Machine
two_rules = holding (
    (unfold k_rule in k_rule (codes "h") prefix (codes "/a"), codes "/a")
    ∷ (unfold k_rule in k_rule (codes "h") prefix (codes "/a/b"), codes "/a/b")
    ∷ (codes "pending-ekv:rule:h|prefix|/a", [])
    ∷ [])

lookup_two_rules :
    (lookup_rules memory spin (codes "h") (codes "/a/b/c") two_rules).0
    ≡ ok (some (rule prefix (codes "h") (codes "/a/b")))
unfolding lookup_rules longest_prefix best_prefix consider better is_candidate path_matches
    parse_rule_key split_field k_rule rule_key_prefix Store.keys_with_prefix Store.get get_rule
    str_eq str_len match_type_eq lt_i64
lookup_two_rules = refl

drain_pending_counts_example :
    ((drain_pending memory spin 25 two_rules).drained
        + (drain_pending memory spin 25 two_rules).errors
      ≡ length (pending_targets memory spin 25 two_rules).0)
    × ((drain_pending memory spin 25 two_rules).drained
          + (drain_pending memory spin 25 two_rules).errors
        ≤ 25)
drain_pending_counts_example = drain_pending_counts memory spin 25 two_rules

lookup_rules-Resolves_example :
    Resolves memory
      (memory-StoreLaws.view two_rules)
      (codes "h")
      (codes "/a/b/c")
      (some (rule prefix (codes "h") (codes "/a/b")))
lookup_rules-Resolves_example =
    lookup_rules-Resolves memory spin memory-StoreLaws (codes "h") (codes "/a/b/c") two_rules
      (some (rule prefix (codes "h") (codes "/a/b"))) lookup_two_rules

spin-StoreLaws_example : StoreLaws memory spin
spin-StoreLaws_example = spin-StoreLaws memory memory-SpinLaws

memory-Answers : Answers memory spin
unfolding Store.get Store.keys_with_prefix
memory-Answers = record { get_ok = λ k w. (_, refl); keys_ok = λ p w. (_, refl) }

memory-Readable : Readable memory (memory-StoreLaws.view two_rules)
memory-Readable k v of_rule stored = (_, refl)

lookup_rules-answers_example :
    (res : Option Redirect) × ((lookup_rules memory spin (codes "h") (codes "/a/b/c") two_rules).0
      ≡ ok res)
    × Resolves memory (memory-StoreLaws.view two_rules) (codes "h") (codes "/a/b/c") res
lookup_rules-answers_example =
    lookup_rules-answers memory spin memory-StoreLaws memory-Answers (codes "h") (codes "/a/b/c")
      two_rules memory-Readable

with_suffix-rest_example :
    (rest : Str) × (codes "/a/b" ≡ codes "/a" ++ rest)
    × (with_suffix (rule prefix (codes "h") (codes "/a")) (codes "/a/b")
        ≡ some (
            if true && true && not (is_empty rest)
            then trim_end_matches b'/' (codes "https://t.example") ++ rest
            else codes "https://t.example"))
unfolding match_type_eq path_matches str_eq starts_with
with_suffix-rest_example =
    with_suffix-rest (rule prefix (codes "h") (codes "/a")) (codes "/a/b") refl
