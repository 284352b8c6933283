-- ===== src/Admin/Routes/Token.antt =====
-- What a request without the token reaches (admin-api/src/lib.rs, handle).
use vanity_manager.Prelude.{
  List, [], ◌≡◌, refl, sym, ap, ◌∙◌, inl, inr, Bool, true, false, ◌||◌, Option, none, some, Str,
  Bytes, codes, is_empty, str_eq, strip_prefix, unwrap_or, if◌then◌else◌, Bool-cases,
}
use vanity_manager.Exec.{Env, Method}
use vanity_manager.Exec.Keeps.{Keeps, keeps_rules}
use vanity_manager.Store.{Backend, open_from_config}
use vanity_manager.Store.Laws.{StoreLaws}
use vanity_manager.Admin.{Request, Params, check_auth, supplies, supplied_token}
use vanity_manager.Admin.Pages.{
  Response, health, serve_doc_source, serve_ui, serve_docs, serve_readme, serve_openapi,
  serve_architecture_svg, serve_features_svg,
}
use vanity_manager.Admin.Routes.{
  is_options, Route, Endpoint, Handled, page, unauthorized, no_route, handled, public_page, guarded,
  handle_request,
}

-- An answer that no handler gave and the router did not pick.
unfoldable pub IsOutside : (e : Env) → Handled e → Type 0
IsOutside e (page _) = Unit
IsOutside e unauthorized = Unit
IsOutside e no_route = ⊥
IsOutside e (handled _) = ⊥

module _ (e : Env) (b : Backend) (laws : StoreLaws e b) where
  open e use {World, open_default}
  open laws use {view}

  open_default-Keeps : (m : Str → Option Bytes) → Keeps (λ w. view w ≡ m) open_default
  open_default-Keeps m = record { at = λ w h. laws.open_keeps w ∙ h }

  open_from_config-Keeps : (m : Str → Option Bytes) → Keeps (λ w. view w ≡ m) (open_from_config e)
  unfolding open_from_config
  open_from_config-Keeps m = search (keeps_rules, open_default-Keeps)

  health-view : (w : World) → view (health e w).1 ≡ view w
  unfolding health
  health-view w = (open_from_config-Keeps (view w)).at w refl

  -- A page that may have been served has left what the store held.
  record Kept (w : World) (served : Option (Response × World)) : Type 0 where
    kept : (response : Response) (w' : World) → served ≡ some (response, w') → view w' ≡ view w

  Kept-none : (w : World) → Kept w none
  Kept-none w = record { kept = λ response w' h. absurd (cc) }

  Kept-some : (w w' : World) (response : Response) → view w' ≡ view w → Kept w (some (response, w'))
  Kept-some w w' response h = record {
    kept = λ response' w'' same. let at : w' ≡ w'' = cc in ap view (sym at) ∙ h;
  }

  Kept-page : (w : World) (response : Response) → Kept w (some (response, w))
  Kept-page w response = Kept-some w w response refl

  Kept-health : (w : World) → Kept w (some (health e w))
  Kept-health w = Kept-some w (health e w).1 (health e w).0 (health-view w)

  Kept-if :
      (w : World) (c : Bool) (x y : Option (Response × World))
      → Kept w x
      → Kept w y
      → Kept w (if c then x else y)
  Kept-if w true x y h k = h
  Kept-if w false x y h k = k

  -- One page, or what follows in the chain of tests.
  page_or :
      (w : World) (c : Bool) (response : Response) {y : Option (Response × World)}
      → Kept w y
      → Kept w (if c then some (response, w) else y)
  page_or w c response k = Kept-if w c _ _ (Kept-page w response) k

  module _ (include_str : Str → Str)
      (route_for : List Route → Method → Str → Option (Endpoint × Params)) where
    doc-Kept :
        (w : World) (o : Option Str)
        → Kept w
            (elim o [ some rest ↦ some (serve_doc_source e include_str rest, w) | none ↦ none ])
    doc-Kept w (some rest) = Kept-page w _
    doc-Kept w none = Kept-none w

    public_page-Kept :
        (req : Request) (path : Str) (w : World)
        → Kept w (public_page e include_str route_for req path w)
    unfolding public_page
    public_page-Kept req path w =
        let p = str_eq path in
        page_or w (p (codes "/v1/ui") || p (codes "/v1/ui/")) (serve_ui e include_str req) (
          page_or w (p (codes "/v1/docs") || p (codes "/v1/docs/")) (serve_docs e include_str req) (
            page_or w (p (codes "/v1/readme") || p (codes "/v1/readme/"))
              (serve_readme e include_str req)
              (page_or w (p (codes "/v1/openapi.yaml") || p (codes "/v1/openapi.yml"))
                (serve_openapi e include_str)
                (page_or w (p (codes "/v1/architecture.svg"))
                  (serve_architecture_svg e include_str req)
                  (page_or w (p (codes "/v1/features.svg")) (serve_features_svg e include_str req) (
                    Kept-if w (p (codes "/health")) _ _ (Kept-health w)
                      (doc-Kept w (strip_prefix (codes "/v1/docs/source/") path))))))))

    unfold_guarded :
        (req : Request) (path : Str) (w : World)
        → check_auth e req ≡ false
        → guarded e include_str route_for req path w ≡ (unauthorized, w)
    unfolding guarded
    unfold_guarded req path w refused = rw refused refl

    past_pages :
        (req : Request) (path : Str) (w : World) (served : Option (Response × World))
        → check_auth e req ≡ false
        → Kept w served
        → let out : Handled e × World = elim served [
          | some (response, w') ↦ (page response, w')
          | none ↦ guarded e include_str route_for req path w
        ] in
          IsOutside e out.0 × (view out.1 ≡ view w)
    unfolding IsOutside
    past_pages req path w none refused h = rw (unfold_guarded req path w refused) (tt, refl)
    past_pages req path w (some (response, w')) refused h = (tt, h.kept response w' refl)

    -- A store that keeps the laws, and a token that is configured and not empty: a request that does not give it gets
    -- a public page, the answer to a preflight or `unauthorized`; no handler runs, and what the store holds is
    -- unchanged.
    pub handle_request-IsOutside :
        (req : Request) (token : Str) (w : World)
        → e.variable (codes "admin_token") ≡ some token
        → is_empty token ≡ false
        → supplies (supplied_token req) token ≡ false
        → IsOutside e (handle_request e include_str route_for req w).0
          × (view (handle_request e include_str route_for req w).1 ≡ view w)
    unfolding handle_request check_auth IsOutside
    handle_request-IsOutside req token w configured some_token refused =
        let no_token : check_auth e req ≡ false =
          rw (configured, unwrap_or, some_token, refused) refl in
        let path = unwrap_or [] (req.header (codes "spin-path-info")) in
        elim (Bool-cases (is_options req.method)) [
          | inl preflighted ↦ rw preflighted (tt, refl)
          | inr other ↦ rw other (
              past_pages req path w (public_page e include_str route_for req path w) no_token
                (public_page-Kept req path w))
        ]
