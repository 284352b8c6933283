-- ===== src/Kv.antt =====
-- shared/src/kv.rs: typed reads and writes over the backend, and counters.
pub mod Laws
pub mod Frame
use vanity_manager.Prelude.{
  ℕ, pos, Option, none, some, Str, Bytes, and_then, unwrap_or, from_utf8, parse_u64, max_zero,
}
use vanity_manager.Exec.{malformed_json, Exec, ◌>>=◌, pure, lift, ok_or, ok_flatten, Env}
use vanity_manager.Model.{Redirect, HostMeta}
use vanity_manager.Store
use vanity_manager.Store.{Backend}

module _ (e : Env) where
  open e use {World, serde}

  abbrev pub decode_stored :
      {T : Type 0} → (Bytes → Option T) → Option Bytes → Exec World (Option T)
  decode_stored from_slice none = pure none
  decode_stored from_slice (some bytes) = do
    value ← lift (ok_or (from_slice bytes) malformed_json)
    pure (some value)

  -- `get_json::<T>`, for the `from_slice` of `T`.
  unfoldable pub get_json :
      {T : Type 0} → (Bytes → Option T) → Backend → Str → Exec World (Option T)
  get_json from_slice b key = do stored ← Store.get e b key; decode_stored from_slice stored

  -- `set_json::<T>`, for the `to_vec` of `T`, which does not fail on the program's types.
  unfoldable pub set_json : {T : Type 0} → (T → Bytes) → Backend → Str → T → Exec World (Unit {0})
  set_json to_vec b key value = Store.set e b key (to_vec value)

  unfoldable pub get_rule : Backend → Str → Exec World (Option Redirect)
  unfolding get_json
  get_rule = get_json serde.rule_from_slice

  unfoldable pub set_rule : Backend → Str → Redirect → Exec World (Unit {0})
  unfolding set_json
  set_rule = set_json serde.rule_to_vec

  unfoldable pub get_host : Backend → Str → Exec World (Option HostMeta)
  unfolding get_json
  get_host = get_json serde.host_from_slice

  unfoldable pub set_host : Backend → Str → HostMeta → Exec World (Unit {0})
  unfolding set_json
  set_host = set_json serde.host_to_vec

  unfoldable pub incr_counter : Backend → Str → Exec World ℕ
  unfolding max_zero
  incr_counter b key = do n ← Store.incr e b key (pos 1); pure (max_zero n)

  -- An unreadable counter counts as 0, so the call does not fail.
  unfoldable pub read_counter : Backend → Str → World → ℕ × World
  unfolding from_utf8 parse_u64
  read_counter b key w =
      let (r, w') = Store.get e b key w in
      (unwrap_or 0 (and_then (and_then (ok_flatten r) from_utf8) parse_u64), w')
