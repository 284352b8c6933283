-- ===== src/Ekv/Requests.antt =====
-- The requests that the EdgeKV client sends (shared/src/ekv.rs): a log of them, and what a put adds to it.
use vanity_manager.Prelude.{
  ℕ, ◌≡◌, refl, ap, ◌∙◌, List, [], ◌∷◌, ◌++◌, arith, Str, Bytes, codes, if◌then◌else◌,
}
use vanity_manager.Exec.{
  Result, ok, err, http_status, Exec, pure, raise, Env, Method, HttpRequest, HttpResponse, go_on,
}
use vanity_manager.Ekv.{EkvConfig, is_success, item_path, sign, send, put}

-- A request without its headers.
abbrev pub Outline : Type 0
Outline = Method × Str × Bytes

abbrev pub outline : HttpRequest → Outline
outline r = (r.method, r.uri, r.body)

-- The requests that were sent, in their order. Reading the clock and drawing random numbers sends none.
pub record HttpLog (e : Env) : Type 0 where
  pub log : e.World → List Outline
  pub log_send : (r : HttpRequest) (w : e.World) → log (e.http_send r w).1 ≡ log w ++ outline r ∷ []
  pub log_now : (w : e.World) → log (e.now w).1 ≡ log w
  pub log_alphanumeric : (n : ℕ) (w : e.World) → log (e.alphanumeric n w).1 ≡ log w

after-go_on :
    {W A B : Type 0} (x : Result A × W) (f : A → Exec W B)
    → ((a : A) → (f a x.1).1 ≡ x.1)
    → (go_on x f).1 ≡ x.1
after-go_on (ok a, w) f same = same a
after-go_on (err x, w) f same = refl

-- A request that puts an item.
abbrev pub put_of : EkvConfig → Str → Bytes → Outline
put_of cfg key body = (Method.put, codes "https://" ++ (cfg.host ++ item_path cfg key), body)

module _ (e : Env) (http : HttpLog e) where
  open e use {World}
  open http use {log}

  send-log :
      (cfg : EkvConfig) (m : Method) (name path : Str) (body : Bytes) (w : World)
      → log (send e cfg m name path body w).1
        ≡ log w ++ (m, codes "https://" ++ (cfg.host ++ path), body) ∷ []
  unfolding send sign
  send-log cfg m name path body w =
      http.log_send _ _
      ∙ ap (λ l. l ++ (m, codes "https://" ++ (cfg.host ++ path), body) ∷ [])
          (http.log_now _ ∙ (http.log_alphanumeric 16 _ ∙ http.log_now w))

  answered :
      (key : Str) (resp : HttpResponse) (w : World)
      → ((if is_success resp.status then pure tt else raise (http_status key resp.status)) w).1 ≡ w
  answered key resp w = ground arith

  -- A put sends one request, whether it is answered well or not.
  pub put-log :
      (cfg : EkvConfig) (key : Str) (body : Bytes) (w : World)
      → log (put e cfg key body w).1 ≡ log w ++ put_of cfg key body ∷ []
  unfolding put
  put-log cfg key body w =
      let x = send e cfg Method.put (codes "PUT") (item_path cfg key) body w in
      ap log (
        after-go_on x
          (λ resp. if is_success resp.status then pure tt else raise (http_status key resp.status))
          (λ resp. answered key resp x.1))
      ∙ send-log cfg Method.put (codes "PUT") (item_path cfg key) body w
