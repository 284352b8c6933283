-- ===== src/Ekv.antt =====
-- shared/src/ekv.rs: the EdgeKV client. `Ekv.Items` has the names of items, `Ekv.Manifest` the prefix
-- manifest.
pub mod Items
pub mod Manifest
pub mod Requests
pub mod Shards
pub mod Frame
use vanity_manager.Prelude.{
  ℕ, zero, suc, ◌+◌, ◌-◌, ◌*◌, ◌/◌, Bool, true, false, not, ◌&&◌, ◌||◌, Option, none, some, List,
  [], ◌∷◌, ◌++◌, Str, Bytes, codes, is_empty, str_eq, as_bytes, length, take, drop, to_string, leb,
  ◌==◌, if◌then◌else◌, unwrap_or,
}
use vanity_manager.Exec.{
  Result, ok, err, Error, missing_variable, incomplete_credentials, http_status, Exec, ◌>>=◌, ◌>>◌,
  pure, raise, lift, ignore, ok_or, Env, Method, HttpRequest, HttpResponse,
}
use vanity_manager.Model.{Redirect, HostMeta, EkvPrefixEntry, exact_from}
use vanity_manager.Ekv.Items.{ekv_host_key, ekv_exact_key, ekv_prefixes_key, ekv_prefixes_shard_key}

pub record EkvConfig : Type 0 where
  pub host : Str
  pub client_token : Str
  pub client_secret : Str
  pub access_token : Str
  pub network : Str
  pub namespace : Str
  pub group : Str

abbrev pub prefix_shard_limit : ℕ
prefix_shard_limit = 2500

unfoldable pub item_path : EkvConfig → Str → Str
item_path cfg item_key =
    codes "/edgekv/v1/networks/"
    ++ (cfg.network
        ++ (codes "/namespaces/"
            ++ (cfg.namespace
                ++ (codes "/groups/" ++ (cfg.group ++ (codes "/items/" ++ item_key))))))

-- `total.div_ceil(n)` for n > 0.
unfoldable pub div_ceil : ℕ → ℕ → ℕ
div_ceil total n = (total + (n - 1)) / n

-- `(200..=299).contains(&status)`
abbrev pub is_success : ℕ → Bool
is_success status = leb 200 status && leb status 299

-- The entries of shard `s`: `&manifest[lo..hi]`.
unfoldable pub shard_entries : List EkvPrefixEntry → ℕ → List EkvPrefixEntry
shard_entries manifest s = take prefix_shard_limit (drop (s * prefix_shard_limit) manifest)

module _ (e : Env) where
  open e use {
    World, serde, crypto, variable, now, format_edgegrid, timestamp_nanos, alphanumeric, http_send,
  }

  abbrev required : Str → Result Str
  required name = ok_or (variable name) (missing_variable name)

  load_variables : Exec (Unit {0}) EkvConfig
  unfolding is_empty
  load_variables = do
    host ← lift (required (codes "akamai_host"))
    client_token ← lift (required (codes "akamai_client_token"))
    client_secret ← lift (required (codes "akamai_client_secret"))
    access_token ← lift (required (codes "akamai_access_token"))
    let network = unwrap_or (codes "staging") (variable (codes "ekv_network"))
    let namespace = unwrap_or (codes "vanity-manager") (variable (codes "ekv_namespace"))
    let group = unwrap_or (codes "redirects") (variable (codes "ekv_group"))
    if is_empty host || is_empty client_token
        then raise incomplete_credentials
        else pure (record {
          host = host;
          client_token = client_token;
          client_secret = client_secret;
          access_token = access_token;
          network = network;
          namespace = namespace;
          group = group;
        })

  unfoldable pub load_config : Result EkvConfig
  unfolding load_variables
  load_config = (load_variables tt).0

  -- The `Authorization` header of EdgeGrid, for a timestamp and a nonce.
  unfoldable pub authorization : EkvConfig → Str → Str → Str → Str → Bytes → Str
  unfolding is_empty str_eq
  authorization cfg ts nonce method path_and_query body =
      let auth_prefix =
        codes "EG1-HMAC-SHA256 client_token="
        ++ (cfg.client_token
            ++ (codes ";access_token="
                ++ (cfg.access_token
                    ++ (codes ";timestamp="
                        ++ (ts ++ (codes ";nonce=" ++ (nonce ++ codes ";"))))))) in
      let content_hash =
        if str_eq method (codes "POST") && not (is_empty body)
        then crypto.base64 (crypto.sha256 body)
        else [] in
      let data_to_sign =
        method
        ++ (codes "\thttps\t"
            ++ (cfg.host
                ++ (codes "\t"
                    ++ (path_and_query
                        ++ (codes "\t\t" ++ (content_hash ++ (codes "\t" ++ auth_prefix))))))) in
      let signing_key =
        crypto.base64 (crypto.hmac_sha256 (as_bytes cfg.client_secret) (as_bytes ts)) in
      let signature =
        crypto.base64 (crypto.hmac_sha256 (as_bytes signing_key) (as_bytes data_to_sign)) in
      auth_prefix ++ (codes "signature=" ++ signature)

  -- `sign`: the time is read twice, for the timestamp and for the nonce.
  unfoldable pub sign : EkvConfig → Str → Str → Bytes → World → Str × World
  unfolding authorization
  sign cfg method path_and_query body w =
      let (t, w₁) = now w in
      let (r, w₂) = alphanumeric 16 w₁ in
      let (t', w₃) = now w₂ in
      let nonce = to_string (timestamp_nanos t') ++ (codes "-" ++ r) in
      (authorization cfg (format_edgegrid t) nonce method path_and_query body, w₃)

  unfoldable pub send : EkvConfig → Method → Str → Str → Bytes → Exec World HttpResponse
  unfolding is_empty
  send cfg method method_str path body w =
      let (authorization, w') = sign cfg method_str path body w in
      let headers =
        (codes "authorization", authorization) ∷ (codes "accept", codes "application/json") ∷ [] in
      http_send
        (record {
          method = method;
          uri = codes "https://" ++ (cfg.host ++ path);
          headers =
              if is_empty body
              then headers
              else headers
                ++ (codes "content-type", codes "application/json")
                  ∷ (codes "content-length", to_string (length body))
                  ∷ [];
          body = body;
        })
        w'

  unfoldable pub put : EkvConfig → Str → Bytes → Exec World (Unit {0})
  put cfg item_key body = do
    resp ← send cfg Method.put (codes "PUT") (item_path cfg item_key) body
    if is_success resp.status then pure tt else raise (http_status item_key resp.status)

  -- A 404 is fine: the item is already gone.
  unfoldable pub delete : EkvConfig → Str → Exec World (Unit {0})
  delete cfg item_key = do
    resp ← send cfg Method.delete (codes "DELETE") (item_path cfg item_key) []
    if is_success resp.status || resp.status == 404
        then pure tt
        else raise (http_status item_key resp.status)

  unfoldable pub push_host : EkvConfig → HostMeta → Exec World (Unit {0})
  push_host cfg meta =
      let payload = serde.object (
        (codes "enabled", serde.boolean meta.enabled)
        ∷ (codes "case_sensitive", serde.boolean meta.case_sensitive)
        ∷ (codes "rule_count", serde.number meta.rule_count)
        ∷ (codes "updated_at", serde.string meta.updated_at)
        ∷ []) in
      put cfg (ekv_host_key meta.host) (serde.to_vec payload)

  unfoldable pub push_exact : EkvConfig → Redirect → Exec World (Unit {0})
  push_exact cfg rule =
      put cfg (ekv_exact_key rule.host rule.path) (serde.exact_to_vec (exact_from rule))

  -- Shard 0 of several tells the reader how many there are.
  unfoldable pub shard_body : List EkvPrefixEntry → ℕ → ℕ → Bytes
  unfolding shard_entries
  shard_body manifest n_shards zero = serde.to_vec (
      serde.object (
        (codes "n", serde.number n_shards)
        ∷ (codes "p", serde.entries (shard_entries manifest 0))
        ∷ []))
  shard_body manifest n_shards s = serde.entries_to_vec (shard_entries manifest s)

  -- The loop `for s in 0..n_shards`, with `left` rounds to go.
  unfoldable pub push_shards :
      EkvConfig → Str → List EkvPrefixEntry → ℕ → ℕ → ℕ → Exec World (Unit {0})
  push_shards cfg host manifest n_shards s zero = pure tt
  push_shards cfg host manifest n_shards s (suc left) = do
    put cfg (ekv_prefixes_shard_key host s) (shard_body manifest n_shards s)
    push_shards cfg host manifest n_shards (suc s) left

  unfoldable pub push_prefixes : EkvConfig → Str → List EkvPrefixEntry → Exec World (Unit {0})
  push_prefixes cfg host manifest =
      let total = length manifest in
      let n_shards = div_ceil total prefix_shard_limit in
      if leb total prefix_shard_limit
      then put cfg (ekv_prefixes_key host) (serde.entries_to_vec manifest)
      else push_shards cfg host manifest n_shards 0 n_shards

  -- The loop of `delete_prefix_shards_above`: failures are ignored.
  unfoldable pub delete_shards : EkvConfig → Str → ℕ → ℕ → Exec World (Unit {0})
  delete_shards cfg host s zero = pure tt
  delete_shards cfg host s (suc left) = do
    ignore (delete cfg (ekv_prefixes_shard_key host s))
    delete_shards cfg host (suc s) left

  unfoldable pub delete_prefix_shards_above : EkvConfig → Str → ℕ → Exec World (Unit {0})
  unfolding delete_shards
  delete_prefix_shards_above cfg host from_shard = delete_shards cfg host from_shard 32

  unfoldable pub delete_exact : EkvConfig → Str → Str → Exec World (Unit {0})
  delete_exact cfg host path = delete cfg (ekv_exact_key host path)

  unfoldable pub delete_host : EkvConfig → Str → Exec World (Unit {0})
  delete_host cfg host = do
    delete cfg (ekv_host_key host)
    ignore (delete_prefix_shards_above cfg host 0)
