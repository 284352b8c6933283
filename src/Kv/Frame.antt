-- ===== src/Kv/Frame.antt =====
-- What typed reads keep (shared/src/kv.rs): what a read of the backend keeps.
use vanity_manager.Prelude.{Option, none, some, Str, Bytes}
use vanity_manager.Exec.{Env}
use vanity_manager.Exec.Keeps.{Keeps, Keeps-bind, keeps_rules}
use vanity_manager.Store
use vanity_manager.Store.{Backend}
use vanity_manager.Kv.{decode_stored, get_json, get_rule, get_host}

module _ (e : Env) (b : Backend) {P : e.World → Type 0}
    (reads : (k : Str) → Keeps P (Store.get e b k)) where
  open e use {serde}

  decode_stored-Keeps :
      {T : Type 0} (from_slice : Bytes → Option T) (o : Option Bytes)
      → Keeps P (decode_stored e from_slice o)
  decode_stored-Keeps from_slice none = search keeps_rules
  decode_stored-Keeps from_slice (some v) = search keeps_rules

  pub get_json-Keeps :
      {T : Type 0} (from_slice : Bytes → Option T) (key : Str)
      → Keeps P (get_json e from_slice b key)
  unfolding get_json
  get_json-Keeps from_slice key =
      Keeps-bind _ (decode_stored e from_slice) (reads key) (decode_stored-Keeps from_slice)

  pub get_rule-Keeps : (key : Str) → Keeps P (get_rule e b key)
  unfolding get_rule
  get_rule-Keeps key = get_json-Keeps serde.rule_from_slice key

  pub get_host-Keeps : (key : Str) → Keeps P (get_host e b key)
  unfolding get_host
  get_host-Keeps key = get_json-Keeps serde.host_from_slice key
