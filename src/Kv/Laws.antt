-- ===== src/Kv/Laws.antt =====
-- Typed reads against what the store holds (shared/src/kv.rs).
use vanity_manager.Prelude.{◌≡◌, inl, inr, Option, arith, Str, Bytes, and_then, Option-cases}
use vanity_manager.Exec.{ok, Env, Result-cases}
use vanity_manager.Model.{Redirect, HostMeta}
use vanity_manager.Store
use vanity_manager.Store.{Backend}
use vanity_manager.Store.Laws.{StoreLaws}
use vanity_manager.Kv.{get_json, get_rule, get_host}

module _ (e : Env) (b : Backend) (laws : StoreLaws e b) where
  open e use {World, serde}
  open laws use {view}

  -- The rule that the store holds at a key.
  abbrev pub stored_rule : World → Str → Option Redirect
  stored_rule w key = and_then (view w key) serde.rule_from_slice

  -- A typed read that succeeds gives back what the store holds, and changes nothing.
  get_json-stored :
      {T : Type 0} (from_slice : Bytes → Option T) (key : Str) (w : World) (o : Option T)
      → (get_json e from_slice b key w).0 ≡ ok o
      → o ≡ and_then (view w key) from_slice
  unfolding get_json
  get_json-stored from_slice key w o h = elim (Result-cases (Store.get e b key w).0) [
    | inl (o', read) ↦ ground (arith, laws.get_view key w o', Option-cases o')
    | inr (x, failed) ↦ ground arith
  ]

  get_json-keeps :
      {T : Type 0} (from_slice : Bytes → Option T) (key : Str) (w : World)
      → view (get_json e from_slice b key w).1 ≡ view w
  unfolding get_json
  get_json-keeps from_slice key w = elim (Result-cases (Store.get e b key w).0) [
    | inl (o', read) ↦ ground (arith, laws.get_keeps key w)
    | inr (x, failed) ↦ ground (arith, laws.get_keeps key w)
  ]

  pub get_rule-stored :
      (key : Str) (w : World) (o : Option Redirect)
      → (get_rule e b key w).0 ≡ ok o
      → o ≡ stored_rule w key
  unfolding get_rule
  get_rule-stored = get_json-stored serde.rule_from_slice

  pub get_rule-keeps : (key : Str) (w : World) → view (get_rule e b key w).1 ≡ view w
  unfolding get_rule
  get_rule-keeps = get_json-keeps serde.rule_from_slice

  pub get_host-stored :
      (key : Str) (w : World) (o : Option HostMeta)
      → (get_host e b key w).0 ≡ ok o
      → o ≡ and_then (view w key) serde.host_from_slice
  unfolding get_host
  get_host-stored = get_json-stored serde.host_from_slice

  pub get_host-keeps : (key : Str) (w : World) → view (get_host e b key w).1 ≡ view w
  unfolding get_host
  get_host-keeps = get_json-keeps serde.host_from_slice
