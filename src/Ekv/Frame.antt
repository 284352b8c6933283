-- ===== src/Ekv/Frame.antt =====
-- What the EdgeKV client keeps (shared/src/ekv.rs): it reads the clock, draws a nonce and sends requests, and
-- does nothing else.
use vanity_manager.Prelude.{ℕ, zero, suc, Str, Bytes, List}
use vanity_manager.Exec.{Env, Method, HttpRequest}
use vanity_manager.Exec.Keeps.{Keeps, Keeps-then, Keeps-ignore, keeps_rules}
use vanity_manager.Model.{Redirect, HostMeta, EkvPrefixEntry}
use vanity_manager.Ekv
use vanity_manager.Ekv.{
  EkvConfig, sign, send, put, push_host, push_exact, push_shards, push_prefixes, delete_shards,
  delete_prefix_shards_above, delete_exact, delete_host,
}

-- A property of worlds that neither the clock nor the random numbers nor a request to EdgeKV change.
pub record IsOutside (e : Env) (P : e.World → Type 0) : Type 0 where
  pub now_keeps : (w : e.World) → P w → P (e.now w).1
  pub alphanumeric_keeps : (n : ℕ) (w : e.World) → P w → P (e.alphanumeric n w).1
  pub http_keeps : (r : HttpRequest) → Keeps P (e.http_send r)

module _ (e : Env) {P : e.World → Type 0} (outside : IsOutside e P) where
  open e use {World}

  sign_keeps :
      (cfg : EkvConfig) (method path : Str) (body : Bytes) (w : World)
      → P w
      → P (sign e cfg method path body w).1
  unfolding sign
  sign_keeps cfg method path body w h =
      outside.now_keeps _ (outside.alphanumeric_keeps 16 _ (outside.now_keeps w h))

  send-Keeps :
      (cfg : EkvConfig) (method : Method) (name path : Str) (body : Bytes)
      → Keeps P (send e cfg method name path body)
  unfolding send
  send-Keeps cfg method name path body = record {
    at = λ w h. (outside.http_keeps _).at _ (sign_keeps cfg name path body w h);
  }

  put-Keeps : (cfg : EkvConfig) (key : Str) (body : Bytes) → Keeps P (put e cfg key body)
  unfolding put
  put-Keeps cfg key body = search (keeps_rules, send-Keeps)

  delete-Keeps : (cfg : EkvConfig) (key : Str) → Keeps P (Ekv.delete e cfg key)
  unfolding Ekv.delete
  delete-Keeps cfg key = search (keeps_rules, send-Keeps)

  pub push_host-Keeps : (cfg : EkvConfig) (meta : HostMeta) → Keeps P (push_host e cfg meta)
  unfolding push_host
  push_host-Keeps cfg meta = put-Keeps cfg _ _

  pub push_exact-Keeps : (cfg : EkvConfig) (rule : Redirect) → Keeps P (push_exact e cfg rule)
  unfolding push_exact
  push_exact-Keeps cfg rule = put-Keeps cfg _ _

  push_shards-Keeps :
      (cfg : EkvConfig) (host : Str) (manifest : List EkvPrefixEntry) (n s left : ℕ)
      → Keeps P (push_shards e cfg host manifest n s left)
  unfolding push_shards
  push_shards-Keeps cfg host manifest n s zero = search keeps_rules
  push_shards-Keeps cfg host manifest n s (suc left) =
      Keeps-then _ _ (put-Keeps cfg _ _) (push_shards-Keeps cfg host manifest n (suc s) left)

  pub push_prefixes-Keeps :
      (cfg : EkvConfig) (host : Str) (manifest : List EkvPrefixEntry)
      → Keeps P (push_prefixes e cfg host manifest)
  unfolding push_prefixes
  push_prefixes-Keeps cfg host manifest = search (keeps_rules, put-Keeps, push_shards-Keeps)

  delete_shards-Keeps :
      (cfg : EkvConfig) (host : Str) (s left : ℕ) → Keeps P (delete_shards e cfg host s left)
  unfolding delete_shards
  delete_shards-Keeps cfg host s zero = search keeps_rules
  delete_shards-Keeps cfg host s (suc left) =
      Keeps-then _ _ (Keeps-ignore _ (delete-Keeps cfg _))
        (delete_shards-Keeps cfg host (suc s) left)

  pub delete_exact-Keeps :
      (cfg : EkvConfig) (host path : Str) → Keeps P (delete_exact e cfg host path)
  unfolding delete_exact
  delete_exact-Keeps cfg host path = delete-Keeps cfg _

  pub delete_host-Keeps : (cfg : EkvConfig) (host : Str) → Keeps P (delete_host e cfg host)
  unfolding delete_host delete_prefix_shards_above
  delete_host-Keeps cfg host = search (keeps_rules, delete-Keeps, delete_shards-Keeps)
