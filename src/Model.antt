-- ===== src/Model.antt =====
-- shared/src/model.rs: rules, host metadata, the shapes that EdgeKV stores, and the normalisation of
-- hosts and paths. An `i64` field is a `ℤ`; the ranges of the machine integers are stated where a
-- property needs them. `serde` is not modelled here: `Kv` takes it as a parameter.
pub mod Paths
use vanity_manager.Prelude.{
  ℕ, ℤ, zero, suc, ◌+◌, Bool, true, false, List, [], ◌∷◌, ◌++◌, String, not, ◌&&◌, Str, codes,
  is_empty, starts_with, contains, ends_with, pop, replace, first_part, trim, str_len, ltb, length,
  if◌then◌else◌,
}

pub data MatchType : Type 0 where
  exact prefix : MatchType

pub record Redirect : Type 0 where
  pub host : Str
  pub path : Str
  pub target_url : Str
  pub status_code : ℤ
  pub match_type : MatchType
  pub preserve_path : Bool
  pub preserve_query : Bool
  pub enabled : Bool
  pub priority : ℤ
  pub notes : Str
  pub case_insensitive : Bool
  pub updated_at : Str
  pub ekv_synced_at : Str

pub record HostMeta : Type 0 where
  pub host : Str
  pub enabled : Bool
  pub case_sensitive : Bool
  pub rule_count : ℕ
  pub updated_at : Str
  pub ekv_synced_at : Str

pub record EkvExact : Type 0 where
  pub t : Str
  pub s : ℤ
  pub pp : ℕ
  pub pq : ℕ

pub record EkvPrefixEntry : Type 0 where
  pub p : Str
  pub t : Str
  pub s : ℤ
  pub pp : ℕ
  pub pq : ℕ

pub record RulesSnapshot : Type 0 where
  pub snapshot_version : ℕ
  pub generated_at : Str
  pub rule_count : ℕ
  pub host_count : ℕ
  pub rules : List Redirect
  pub hosts : List HostMeta

unfoldable pub as_str : MatchType → Str
as_str exact = codes "exact"
as_str prefix = codes "prefix"

-- `a == b` of the derived `PartialEq`.
unfoldable pub match_type_eq : MatchType → MatchType → Bool
match_type_eq exact exact = true
match_type_eq prefix prefix = true
match_type_eq _ _ = false

-- `HostMeta::new` at the time `now`.
unfoldable pub new_host : Str → Str → HostMeta
new_host now host = record {
  host = host;
  enabled = true;
  case_sensitive = true;
  rule_count = 0;
  updated_at = now;
  ekv_synced_at = [];
}

-- `b as u8`
unfoldable pub bool_as_u8 : Bool → ℕ
bool_as_u8 true = 1
bool_as_u8 false = 0

unfoldable pub exact_from : Redirect → EkvExact
unfolding bool_as_u8
exact_from r = record {
  t = r.target_url;
  s = r.status_code;
  pp = bool_as_u8 r.preserve_path;
  pq = bool_as_u8 r.preserve_query;
}

unfoldable pub prefix_entry_from : Redirect → EkvPrefixEntry
unfolding bool_as_u8
prefix_entry_from r = record {
  p = r.path;
  t = r.target_url;
  s = r.status_code;
  pp = bool_as_u8 r.preserve_path;
  pq = bool_as_u8 r.preserve_query;
}

-- `str::to_lowercase` follows the tables of Unicode, which are not part of the program.
pub record Unicode : Type 0 where
  pub to_lowercase : Str → Str

unfoldable pub normalize_host : Unicode → Str → Str
unfolding first_part trim
normalize_host u raw = u.to_lowercase (first_part b':' (trim raw))

-- `while p.contains("//") { p = p.replace("//", "/") }` with fuel.
unfoldable pub collapse : ℕ → Str → Str
unfolding contains replace
collapse zero p = p
collapse (suc fuel) p =
    let rest = collapse fuel (replace (codes "//") (codes "/") p) in
    if contains (codes "//") p then rest else p

-- The leading slash is added where it is missing.
unfoldable pub with_slash : Str → Str
unfolding starts_with
with_slash p = if starts_with (codes "/") p then p else codes "/" ++ p

-- The trailing slash is dropped, except from the root.
unfoldable pub without_slash : Str → Str
unfolding ends_with pop str_len
without_slash p = if ltb 1 (str_len p) && ends_with b'/' p then pop p else p

-- Each round shortens the text, so its length is enough fuel.
unfoldable pub normalize_path : Str → Str
unfolding trim with_slash collapse without_slash
normalize_path raw = let p = with_slash (trim raw) in without_slash (collapse (length p) p)
