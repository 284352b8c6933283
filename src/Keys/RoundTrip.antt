-- ===== src/Keys/RoundTrip.antt =====
-- Rule keys are read back by `parse_rule_key` of shared/src/keys.rs, in both forms.
use vanity_manager.Prelude.{
  ℕ, ◌≡◌, refl, ◌≢◌, none, some, [], ◌∷◌, ◌++◌, arith, Str, codes, split_once, All,
}
use vanity_manager.Model.{MatchType, exact, prefix}
use vanity_manager.Keys.{k_rule, split_field, parse_rule_key}

abbrev pub Lacks : ℕ → Str → Type 0
Lacks c = All (λ d. d ≢ c)

pub split_once-append : (c : ℕ) (s t : Str) → Lacks c s → split_once c (s ++ c ∷ t) ≡ some (s, t)
unfolding split_once
split_once-append c [] t h = ground arith
split_once-append c (d ∷ s) t h = ground (arith, split_once-append c s t h.1)

split_once-Lacks : (c : ℕ) (s : Str) → Lacks c s → split_once c s ≡ none
unfolding split_once
split_once-Lacks c [] h = refl
split_once-Lacks c (d ∷ s) h = ground (arith, split_once-Lacks c s h.1)

-- In the native form of a key the first pipe ends a field.
pub split_field-append : (s t : Str) → Lacks b'|' s → split_field (s ++ b'|' ∷ t) ≡ some (s, t)
unfolding split_field
split_field-append s t h = rw (split_once-append b'|' s t h, split_field) refl

-- Where there is no pipe, the first colon does.
pub split_field-colon :
    (s t : Str)
    → Lacks b':' s
    → Lacks b'|' (s ++ b':' ∷ t)
    → split_field (s ++ b':' ∷ t) ≡ some (s, t)
unfolding split_field
split_field-colon s t h k =
    ground (arith, split_once-append b':' s t h, split_once-Lacks b'|' (s ++ b':' ∷ t) k)

-- Parsing the key of a rule gives back its host, match type and path, for every path and every host
-- with no pipe.
pub parse_rule_key-k_rule :
    (host : Str) (mt : MatchType) (path : Str)
    → Lacks b'|' host
    → parse_rule_key (k_rule host mt path) ≡ some (host, mt, path)
unfolding parse_rule_key k_rule
parse_rule_key-k_rule host exact path h = ground (
  arith,
  split_field-append host (codes "exact" ++ (codes "|" ++ path)) h,
  split_field-append (codes "exact") path (omega arith),
)
parse_rule_key-k_rule host prefix path h = ground (
  arith,
  split_field-append host (codes "prefix" ++ (codes "|" ++ path)) h,
  split_field-append (codes "prefix") path (omega arith),
)
