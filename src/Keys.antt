-- ===== src/Keys.antt =====
-- shared/src/keys.rs: the schema of the keys in the KV store.
pub mod RoundTrip
use vanity_manager.Prelude.{
  Option, none, some, ◌++◌, Str, codes, str_eq, strip_prefix, split_once, if◌then◌else◌,
}
use vanity_manager.Model.{MatchType, exact, prefix, as_str}

abbrev pub prefix_rule : Str
prefix_rule = codes "rule:"

abbrev pub prefix_host : Str
prefix_host = codes "host:"

abbrev pub prefix_pending_ekv : Str
prefix_pending_ekv = codes "pending-ekv:"

abbrev pub prefix_counter : Str
prefix_counter = codes "counter:"

abbrev pub meta_seeded : Str
meta_seeded = codes "meta:seeded"

abbrev pub meta_last_snapshot : Str
meta_last_snapshot = codes "meta:last-snapshot"

abbrev pub meta_last_ekv_push : Str
meta_last_ekv_push = codes "meta:last-ekv-push"

abbrev pub counter_ekv_pushes : Str
counter_ekv_pushes = codes "counter:ekv-pushes"

abbrev pub counter_ekv_errors : Str
counter_ekv_errors = codes "counter:ekv-errors"

abbrev pub counter_pending_drained : Str
counter_pending_drained = codes "counter:pending-drained"

unfoldable pub k_rule : Str → MatchType → Str → Str
unfolding as_str
k_rule host mt path = prefix_rule ++ (host ++ (codes "|" ++ (as_str mt ++ (codes "|" ++ path))))

unfoldable pub rule_key_prefix : Str → Str
rule_key_prefix host = prefix_rule ++ (host ++ codes "|")

infixl 5 ◌>>=◌
abbrev ◌>>=◌ {ℓ κ} : {A : Type ℓ} {B : Type κ} → Option A → (A → Option B) → Option B
none >>= f = none
some a >>= f = f a

-- `s.split_once('|').or_else(|| s.split_once(':'))`
unfoldable pub split_field : Str → Option (Str × Str)
unfolding split_once
split_field s = elim (split_once b'|' s) [ some parts ↦ some parts | none ↦ split_once b':' s ]

unfoldable pub parse_match_type : Str → Option MatchType
unfolding str_eq
parse_match_type s =
    if str_eq s (codes "exact")
    then some exact
    else if str_eq s (codes "prefix")
    then some prefix
    else none

unfoldable pub parse_rule_key : Str → Option (Str × MatchType × Str)
unfolding strip_prefix parse_match_type
parse_rule_key key = do
  rest ← strip_prefix prefix_rule key
  (host, rest') ← split_field rest
  (mt_str, path) ← split_field rest'
  mt ← parse_match_type mt_str
  some (host, mt, path)

unfoldable pub k_host : Str → Str
k_host host = prefix_host ++ host

unfoldable pub k_pending_ekv : Str → Str
k_pending_ekv id = prefix_pending_ekv ++ id
