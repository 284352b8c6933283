-- ===== src/Tests/Memory.antt =====
-- Spin's store as an association list in memory: it fills the laws that the development takes as
-- hypotheses. EdgeKV answers every request with 201. A stored rule is decoded to a rule that has the
-- bytes as its path.
use vanity_manager.Prelude.{
  ℕ, pos, ◌+◌, ◌-◌, ◌*◌, ◌≡◌, refl, ap, ◌↔◌, inl, inr, true, false, Option, none, some, List, [],
  ◌∷◌, ◌++◌, map, arith, Str, Bytes, codes, str_eq, str_eq_iff, digits, is_some, if◌then◌else◌, Any,
  Bool-cases, to_string,
}
use vanity_manager.Exec.{ok, Env, Serde, HttpRequest}
use vanity_manager.Model.{Redirect, HostMeta, MatchType, prefix, Unicode}
use vanity_manager.Store
use vanity_manager.Store.{spin}
use vanity_manager.Store.Laws.{StoreLaws, IsApart, Accepts, Answers}
use vanity_manager.Sync.Rules.{IsRuleCodec}
use vanity_manager.Tests.Codec.{put_rule, get_rule, get_rule-put_rule}
use vanity_manager.Ekv.Requests.{HttpLog, outline}
use vanity_manager.Store.Spin.{SpinLaws, spin_laws, spin-StoreLaws}

abbrev pub Entries : Type 0
Entries = List (Str × Bytes)

abbrev pub find : Str → Entries → Option Bytes
find k [] = none
find k ((j, v) ∷ m) = if str_eq j k then some v else find k m

abbrev pub without : Str → Entries → Entries
without k [] = []
without k ((j, v) ∷ m) = let rest = without k m in if str_eq j k then rest else (j, v) ∷ rest

pub find-without :
    (k j : Str) (m : Entries) → find j (without k m) ≡ (if str_eq k j then none else find j m)
find-without k j [] = ground arith
find-without k j ((i, v) ∷ m) =
    ground (arith, str_eq_iff i k, str_eq_iff i j, str_eq_iff k j, find-without k j m)

abbrev pub keys : Entries → List Str
keys [] = []
keys ((k, v) ∷ m) = k ∷ keys m

pub Any-keys : (k : Str) (m : Entries) → Any (λ j. j ≡ k) (keys m) ↔ (is_some (find k m) ≡ true)
Any-keys k [] = (λ x. elim x [ ], λ h. cc)
Any-keys k ((j, v) ∷ m) =
    let (to, from) = Any-keys k m in
    elim (Bool-cases (str_eq j k)) [
      | inl same ↦ rw same (λ a. refl, λ h. inl ((str_eq_iff j k).0 same))
      | inr other ↦ rw other (
        λ a. elim a [ inl e ↦ cc ((str_eq_iff j k).1 e, other) | inr later ↦ to later ],
        λ h. inr (from h),
      )
    ]

pub record Machine : Type 0 where
  pub entries : Entries
  pub sent : List HttpRequest
  pub time : ℕ

-- The rule of `path` that redirects to https://t.example.
abbrev pub rule : MatchType → Str → Str → Redirect
rule mt host path = record {
  host = host;
  path = path;
  target_url = codes "https://t.example";
  status_code = pos 301;
  match_type = mt;
  preserve_path = true;
  preserve_query = true;
  enabled = true;
  priority = pos 0;
  notes = [];
  case_insensitive = false;
  updated_at = [];
  ekv_synced_at = [];
}

abbrev pub meta : Str → HostMeta
meta host = record {
  host = host;
  enabled = true;
  case_sensitive = true;
  rule_count = 1;
  updated_at = [];
  ekv_synced_at = [];
}

abbrev unicode : Unicode
unicode = record { to_lowercase = λ s. s }

abbrev serde : Serde
serde = record {
  Value = Str;
  from_slice = λ b. some b;
  to_vec = λ v. v;
  field = λ v k. none;
  as_u64 = λ v. none;
  as_i64 = λ v. none;
  as_str = λ v. some v;
  as_array = λ v. none;
  object = λ fields. [];
  string = λ s. s;
  number = λ n. to_string n;
  boolean = λ b. [];
  entries = λ es. [];
  rule_from_slice = λ b. some (rule prefix (codes "h") b);
  rule_to_vec = λ r. r.path;
  rules_from_slice = λ b. none;
  host_from_slice = λ b. some (meta b);
  host_to_vec = λ h. h.host;
  exact_to_vec = λ x. x.t;
  entries_to_vec = λ es. [];
  snapshot_from_slice = λ b. none;
  snapshot_to_vec_pretty = λ s. [];
}

-- The environment, for any way to write values as bytes.
abbrev pub memory_with : (Str → Option Str) → Serde → Env
memory_with variable serde = record {
  World = Machine;
  Time = ℕ;
  unicode = unicode;
  serde = serde;
  crypto = record { hmac_sha256 = λ k d. d; sha256 = λ d. d; base64 = λ d. d; hex = λ d. d };
  variable = variable;
  now = λ w. (w.time, record w { time = w.time + 1 });
  to_rfc3339 = λ t. to_string t;
  parse_from_rfc3339 = λ s. digits s;
  format_edgegrid = λ t. to_string t;
  format_amz = λ t. to_string t;
  format_day = λ t. to_string t;
  url_host = λ s. some (some s);
  timestamp_nanos = λ t. t;
  seconds_since = λ a b. pos (a - b);
  milliseconds_since = λ a b. pos (1000 * (a - b));
  alphanumeric = λ n w. ([], w);
  open_default = λ w. (ok tt, w);
  kv_get = λ k w. (ok (find k w.entries), w);
  kv_set = λ k v w. (ok tt, record w { entries = (k, v) ∷ without k w.entries });
  kv_delete = λ k w. (ok tt, record w { entries = without k w.entries });
  kv_exists = λ k w. (ok (is_some (find k w.entries)), w);
  kv_get_keys = λ w. (ok (keys w.entries), w);
  http_send =
      λ r w. (ok (record { status = 201; body = [] }), record w { sent = w.sent ++ r ∷ [] });
}

pub find-set :
    (k j : Str) (v : Bytes) (m : Entries)
    → find j ((k, v) ∷ without k m) ≡ (if str_eq k j then some v else find j m)
find-set k j v m = ground (arith, find-without k j m)

abbrev pub memory_with_laws :
    (variable : Str → Option Str) (serde : Serde) → SpinLaws (memory_with variable serde)
memory_with_laws variable serde = record {
  view = λ w k. find k w.entries;
  get_view = λ k w o h. cc;
  get_keeps = λ k w. refl;
  exists_view = λ k w x h. cc;
  exists_keeps = λ k w. refl;
  keys_view = λ k w ks h. let eq : ks ≡ keys w.entries = cc in rw eq (Any-keys k w.entries);
  keys_keeps = λ w. refl;
  set_view = λ k j v w h. find-set k j v w.entries;
  set_others = λ k j v w h. rw (find-set k j v w.entries, h) refl;
  set_self = λ k v w. inr (rw ((str_eq_iff k k).1 refl) refl);
  delete_view = λ k j w h. find-without k j w.entries;
  delete_others = λ k j w h. rw (find-without k j w.entries, h) refl;
  open_keeps = λ w. refl;
}

abbrev pub memory : Env
memory = memory_with (λ name. none) serde

pub memory-SpinLaws : SpinLaws memory
memory-SpinLaws = memory_with_laws (λ name. none) serde

abbrev pub holding : Entries → Machine
holding m = record { entries = m; sent = []; time = 0 }

outlines-append :
    (rs : List HttpRequest) (r : HttpRequest)
    → map outline (rs ++ r ∷ []) ≡ map outline rs ++ outline r ∷ []
outlines-append [] r = refl
outlines-append (q ∷ rs) r = ap (λ os. outline q ∷ os) (outlines-append rs r)

pub memory-HttpLog : HttpLog memory
memory-HttpLog = record {
  log = λ w. map outline w.sent;
  log_send = λ r w. outlines-append w.sent r;
  log_now = λ w. refl;
  log_alphanumeric = λ n w. refl;
}

pub memory-StoreLaws : StoreLaws memory spin
memory-StoreLaws = spin-StoreLaws memory memory-SpinLaws

abbrev coding : Serde
coding = record serde { rule_from_slice = get_rule; rule_to_vec = put_rule }

-- The same with rules that are read back as they were written.
abbrev pub coded : Env
coded = memory_with (λ name. none) coding

abbrev pub coded_laws : StoreLaws coded spin
coded_laws = spin_laws coded (memory_with_laws coded.variable coded.serde)

pub coded-IsApart : IsApart coded spin coded_laws
unfolding spin_laws
coded-IsApart = record {
  now_view = λ w. refl;
  alphanumeric_view = λ n w. refl;
  http_view = λ r w. refl;
}

pub coded-IsRuleCodec : IsRuleCodec coded
coded-IsRuleCodec = get_rule-put_rule

pub coded-Accepts : Accepts coded spin
unfolding Store.set Store.delete
coded-Accepts = record { set_ok = λ k v w. refl; delete_ok = λ k w. refl }

pub coded-Answers : Answers coded spin
unfolding Store.get Store.keys_with_prefix
coded-Answers = record { get_ok = λ k w. (_, refl); keys_ok = λ p w. (_, refl) }

-- The same with a token for the admin API.
abbrev pub locked : Env
locked =
    memory_with (λ name. if str_eq name (codes "admin_token") then some (codes "secret") else none)
      coding

abbrev pub locked_laws : StoreLaws locked spin
locked_laws = spin_laws locked (memory_with_laws locked.variable locked.serde)
