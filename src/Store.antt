-- ===== src/Store.antt =====
-- shared/src/store.rs: the pluggable KV backend, over Spin's store or over the HTTP adapter of NATS.
-- The subject encoding is in `Subject`.
pub mod Laws
pub mod Spin
pub mod Frame
use mathlib.Core.List.{filter_map}
use vanity_manager.Prelude.{
  ℕ, ℤ, zero, suc, pos, Bool, true, false, ◌||◌, Option, none, some, List, [], ◌∷◌, ◌++◌, Str,
  Bytes, codes, is_empty, str_eq, starts_with, trim, trim_end_matches, as_bytes, from_utf8, filter,
  length, to_string, to_string_i64, parse_i64, add_i64, ◌==◌, if◌then◌else◌, unwrap_or, or_else,
  and_then,
}
use vanity_manager.Exec.{
  Result, ok, err, Error, missing_variable, http_status, malformed_json, Exec, ◌>>=◌, ◌>>◌, pure,
  raise, lift, ok_or, Env, Serde, Method, HttpRequest, HttpResponse,
}
use vanity_manager.Subject.{encode_subject, decode_subject, subject_prefix_match, url_form_encode}

pub record NatsClient : Type 0 where
  pub base_url : Str
  pub bucket : Str
  pub token : Str

pub data Backend : Type 0 where
  spin : Backend
  nats : NatsClient → Backend

-- `from_utf8(&b).ok().and_then(|s| s.parse::<i64>().ok())` on the bytes that a key may have.
unfoldable pub counter_value : Option Bytes → ℤ
unfolding from_utf8 parse_i64
counter_value none = pos 0
counter_value (some b) = unwrap_or (pos 0) (and_then (from_utf8 b) parse_i64)

module _ (e : Env) where
  open e use {
    World, serde, variable, open_default, kv_get, kv_set, kv_delete, kv_exists, kv_get_keys,
    http_send,
  }

  -- Which backend the configuration selects.
  unfoldable pub open_from_config : Exec World Backend
  unfolding is_empty str_eq
  open_from_config =
      let cfg = unwrap_or [] (variable (codes "kv_backend")) in
      if is_empty cfg || str_eq cfg (codes "spin") then (do open_default; pure spin) else do
        bucket ←
            lift (
              ok_or (variable (codes "kv_nats_bucket")) (missing_variable (codes "kv_nats_bucket")))
        token ←
            lift
              (ok_or (variable (codes "kv_nats_token")) (missing_variable (codes "kv_nats_token")))
        pure
            (nats (record { base_url = trim_end_matches b'/' cfg; bucket = bucket; token = token }))

  -- `NatsClient`
  unfoldable pub url : NatsClient → Str → Str
  url c key = c.base_url ++ (codes "/v1/kv/" ++ (c.bucket ++ (codes "/" ++ encode_subject key)))

  unfoldable pub nats_send : NatsClient → Method → Str → Bytes → Exec World HttpResponse
  unfolding is_empty
  nats_send c method uri body =
      let headers =
        (codes "authorization", codes "Bearer " ++ c.token)
        ∷ (codes "accept", codes "application/json")
        ∷ [] in
      http_send (record {
        method = method;
        uri = uri;
        headers =
            if is_empty body
            then headers
            else headers ++ (codes "content-length", to_string (length body)) ∷ [];
        body = body;
      })

  unfoldable pub nats_get : NatsClient → Str → Exec World (Option Bytes)
  unfolding nats_send url
  nats_get c key = do
    resp ← nats_send c Method.get (url c key) []
    if resp.status == 200
        then pure (some resp.body)
        else if resp.status == 404
        then pure none
        else raise (http_status key resp.status)

  unfoldable pub nats_set : NatsClient → Str → Bytes → Exec World (Unit {0})
  unfolding nats_send url
  nats_set c key value = do
    resp ← nats_send c Method.put (url c key) value
    if resp.status == 200 || resp.status == 201 || resp.status == 204
        then pure tt
        else raise (http_status key resp.status)

  unfoldable pub nats_delete : NatsClient → Str → Exec World (Unit {0})
  unfolding nats_send url
  nats_delete c key = do
    resp ← nats_send c Method.delete (url c key) []
    if resp.status == 200 || resp.status == 204 || resp.status == 404
        then pure tt
        else raise (http_status key resp.status)

  unfoldable pub nats_exists : NatsClient → Str → Exec World Bool
  unfolding nats_send url
  nats_exists c key = do resp ← nats_send c Method.get (url c key) []; pure (resp.status == 200)

  -- `v.get("value").and_then(as_i64).or_else(|| v.as_i64())`
  unfoldable pub counter_of_value : serde.Value → Option ℤ
  counter_of_value v =
      or_else (and_then (serde.field v (codes "value")) serde.as_i64) (serde.as_i64 v)

  -- The new counter value in a response: JSON or plain text, else one more than the last.
  unfoldable pub counter_of_body : ℤ → Bytes → ℤ
  counter_of_body last body =
      let text = trim (unwrap_or (codes "0") (from_utf8 body)) in
      let json = and_then (serde.from_slice (as_bytes text)) counter_of_value in
      unwrap_or (add_i64 last (pos 1)) (or_else json (parse_i64 text))

  -- The loop of `incr`: one POST for each unit of `delta`.
  unfoldable pub nats_incr_loop : NatsClient → Str → ℕ → ℤ → Exec World ℤ
  nats_incr_loop c key zero last = pure last
  nats_incr_loop c key (suc n) last = do
    resp ← nats_send c Method.post (url c key ++ codes "/incr") []
    if resp.status == 200
        then nats_incr_loop c key n (counter_of_body last resp.body)
        else raise (http_status key resp.status)

  -- A negative delta is a read and a write.
  unfoldable pub nats_incr : NatsClient → Str → ℤ → Exec World ℤ
  unfolding nats_incr_loop
  nats_incr c key (pos delta) = nats_incr_loop c key delta (pos 0)
  nats_incr c key delta = do
    stored ← nats_get c key
    let next = add_i64 (counter_value stored) delta
    nats_set c key (as_bytes (to_string_i64 next))
    pure next

  unfoldable pub decoded_keys : List serde.Value → List Str
  decoded_keys [] = []
  decoded_keys (k ∷ ks) =
      let rest = decoded_keys ks in
      elim (serde.as_str k) [ none ↦ rest | some s ↦ decode_subject s ∷ rest ]

  -- `v.get("keys").and_then(as_array).unwrap_or_default()`, each text decoded.
  unfoldable pub keys_of_value : serde.Value → List Str
  keys_of_value v =
      decoded_keys (unwrap_or [] (and_then (serde.field v (codes "keys")) serde.as_array))

  unfoldable pub nats_keys_with_prefix : NatsClient → Str → Exec World (List Str)
  unfolding nats_send
  nats_keys_with_prefix c prefix =
      let pattern = subject_prefix_match prefix in
      do
        resp ←
            nats_send c Method.get
              (c.base_url
                ++ (codes "/v1/kv/"
                    ++ (c.bucket ++ (codes "/keys?match=" ++ url_form_encode pattern))))
              []
        if resp.status == 200
            then (do
              v ← lift (ok_or (serde.from_slice resp.body) malformed_json)
              pure (keys_of_value v))
            else raise (http_status pattern resp.status)

  -- `Backend`
  unfoldable pub get : Backend → Str → Exec World (Option Bytes)
  unfolding nats_get
  get spin key = kv_get key
  get (nats c) key = nats_get c key

  unfoldable pub set : Backend → Str → Bytes → Exec World (Unit {0})
  unfolding nats_set
  set spin key value = kv_set key value
  set (nats c) key value = nats_set c key value

  unfoldable pub delete : Backend → Str → Exec World (Unit {0})
  unfolding nats_delete
  delete spin key = kv_delete key
  delete (nats c) key = nats_delete c key

  unfoldable pub exists : Backend → Str → Exec World Bool
  unfolding nats_exists
  exists spin key = kv_exists key
  exists (nats c) key = nats_exists c key

  -- Spin's store lists every key, and the client keeps those with the prefix.
  unfoldable pub keys_with_prefix : Backend → Str → Exec World (List Str)
  unfolding nats_keys_with_prefix starts_with
  keys_with_prefix spin prefix = do keys ← kv_get_keys; pure (filter (starts_with prefix) keys)
  keys_with_prefix (nats c) prefix = nats_keys_with_prefix c prefix

  unfoldable pub incr : Backend → Str → ℤ → Exec World ℤ
  unfolding nats_incr counter_value
  incr spin key delta = do
    stored ← kv_get key
    let next = add_i64 (counter_value stored) delta
    kv_set key (as_bytes (to_string_i64 next))
    pure next
  incr (nats c) key delta = nats_incr c key delta
