-- ===== src/Admin/Pages.antt =====
-- The pages of admin-api/src/handlers.rs: their style, the cookie that keeps it, and the health check. The
-- texts that `include_str!` puts into the program are a parameter, by the names of their files.
use vanity_manager.Prelude.{
  ℕ, ◌+◌, ◌&&◌, Bool, false, ◌||◌, Option, none, some, List, [], ◌∷◌, map, Str, codes, str_eq,
  strip_prefix, split, trim, replace, leb, if◌then◌else◌, or_else, and_then,
}
use vanity_manager.Exec.{ok, err, Env}
use vanity_manager.Model.{Unicode}
use vanity_manager.Store.{open_from_config}
use vanity_manager.Admin.{Request, query_param}

pub data Style : Type 0 where
  zoolander plain : Style

pub record Response : Type 0 where
  pub status : ℕ
  pub headers : List (Str × Str)
  pub body : Str

-- `eq_ignore_ascii_case`
abbrev ascii_lower : ℕ → ℕ
ascii_lower c = if leb b'A' c && leb c b'Z' then c + 32 else c

unfoldable pub eq_ignore_ascii_case : Str → Str → Bool
eq_ignore_ascii_case s t = str_eq (map ascii_lower s) (map ascii_lower t)

-- What the parameter `zoolander` asks for; another value asks for nothing.
unfoldable pub style_of_word : Str → Option Style
style_of_word lc =
    if str_eq lc (codes "on")
      || str_eq lc (codes "1")
      || str_eq lc (codes "true")
      || str_eq lc (codes "yes")
      || str_eq lc (codes "zoolander")
    then some zoolander
    else if str_eq lc (codes "off")
        || str_eq lc (codes "0")
        || str_eq lc (codes "false")
        || str_eq lc (codes "no")
        || str_eq lc (codes "plain")
    then some plain
    else none

-- The parameter `style` can only switch to the one style.
unfoldable pub style_of_param : Str → Option Style
style_of_param s = if eq_ignore_ascii_case s (codes "zoolander") then some zoolander else none

abbrev is_zoolander : Option Str → Bool
is_zoolander none = false
is_zoolander (some v) = str_eq v (codes "zoolander")

-- The loop over the pairs of a cookie header.
unfoldable pub style_of_cookies : List Str → Option Style
style_of_cookies [] = none
style_of_cookies (kv ∷ kvs) =
    let rest = style_of_cookies kvs in
    if is_zoolander (strip_prefix (codes "vm-style=") (trim kv)) then some zoolander else rest

unfoldable pub style_or_plain : Option Style → Style
style_or_plain none = plain
style_or_plain (some s) = s

unfoldable pub pick_style : Unicode → Request → Style
pick_style u req = style_or_plain (
    or_else (and_then (query_param req (codes "zoolander")) (λ v. style_of_word (u.to_lowercase v)))
      (or_else (and_then (query_param req (codes "style")) style_of_param)
        (and_then (req.header (codes "cookie")) (λ c. style_of_cookies (split b';' c)))))

abbrev cookie_of : Style → Str
cookie_of zoolander = codes "vm-style=zoolander; Path=/; Max-Age=2592000; SameSite=Lax"
cookie_of plain = codes "vm-style=; Path=/; Max-Age=0; SameSite=Lax"

-- A cookie is set where a parameter is given, whatever its value is.
unfoldable pub style_cookie_for : Request → Style → Option Str
style_cookie_for req style =
    and_then (or_else (query_param req (codes "zoolander")) (query_param req (codes "style")))
      (λ _. some (cookie_of style))

-- The pictures of a document are those of the application.
unfoldable pub in_app_pictures : Str → Str
unfolding replace
in_app_pictures body =
    replace (codes "./docs/features.svg") (codes "/api/v1/features.svg")
      (replace (codes "./docs/architecture.svg") (codes "/api/v1/architecture.svg") body)

abbrev json_headers : List (Str × Str)
json_headers =
    (codes "content-type", codes "application/json")
    ∷ (codes "access-control-allow-origin", codes "*")
    ∷ []

unfoldable pub json_resp : ℕ → Str → Response
json_resp status body = record { status = status; headers = json_headers; body = body }

module _ (e : Env) where
  open e use {World}

  unfoldable pub health : World → Response × World
  unfolding json_resp
  health w =
      let (opened, w') = open_from_config e w in
      (
        elim opened [
          | ok _ ↦ json_resp 200 (codes "{\"status\":\"healthy\",\"service\":\"vanity-manager\"}")
          | err _ ↦ json_resp 503 (codes "{\"status\":\"unhealthy\",\"reason\":\"kv open failed\"}")
        ],
        w',
      )

module _ (e : Env) (include_str : Str → Str) where
  open e use {unicode}

  abbrev cookie_headers : Request → List (Str × Str)
  cookie_headers req = elim (style_cookie_for req (pick_style unicode req)) [
    | none ↦ []
    | some c ↦ (codes "set-cookie", c) ∷ []
  ]

  unfoldable pub html_resp : Request → Str → Response
  html_resp req body = record {
    status = 200;
    headers =
        (codes "content-type", codes "text/html; charset=utf-8")
        ∷ (codes "cache-control", codes "no-cache")
        ∷ (codes "vary", codes "cookie")
        ∷ cookie_headers req;
    body = body;
  }

  unfoldable pub serve_ui : Request → Response
  serve_ui req = html_resp req (include_str (codes "../ui/index.html"))

  unfoldable pub serve_docs : Request → Response
  serve_docs req = html_resp req (include_str (codes "../ui/docs.html"))

  unfoldable pub serve_readme : Request → Response
  serve_readme req = html_resp req (include_str (codes "../ui/readme.html"))

  unfoldable pub serve_openapi : Response
  serve_openapi = record {
    status = 200;
    headers =
        (codes "content-type", codes "application/yaml")
        ∷ (codes "cache-control", codes "public, max-age=300")
        ∷ [];
    body = include_str (codes "../ui/openapi.yaml");
  }

  abbrev svg_resp : Request → Str → Response
  svg_resp req body = record {
    status = 200;
    headers =
        (codes "content-type", codes "image/svg+xml")
        ∷ (codes "cache-control", codes "public, max-age=300")
        ∷ (codes "vary", codes "cookie")
        ∷ cookie_headers req;
    body = body;
  }

  unfoldable pub serve_architecture_svg : Request → Response
  serve_architecture_svg req = svg_resp req (elim (pick_style unicode req) [
    | plain ↦ include_str (codes "../ui/architecture-plain.svg")
    | zoolander ↦ include_str (codes "../ui/architecture.svg")
  ])

  unfoldable pub serve_features_svg : Request → Response
  serve_features_svg req = svg_resp req (elim (pick_style unicode req) [
    | plain ↦ include_str (codes "../ui/features-plain.svg")
    | zoolander ↦ include_str (codes "../ui/features.svg")
  ])

  unfoldable pub doc_source : Str → Option Str
  doc_source name =
      if str_eq name (codes "readme")
      then some (include_str (codes "../../README.md"))
      else if str_eq name (codes "decisions")
      then some (include_str (codes "../../DECISIONS.md"))
      else if str_eq name (codes "scope")
      then some (include_str (codes "../../SCOPE.md"))
      else if str_eq name (codes "ds2")
      then some (include_str (codes "../../docs/ds2-fields.md"))
      else none

  unfoldable pub serve_doc_source : Str → Response
  serve_doc_source name = elim (doc_source name) [
    | none ↦ record {
      status = 404;
      headers = (codes "content-type", codes "text/plain") ∷ [];
      body = codes "unknown doc";
    }
    | some body ↦ record {
      status = 200;
      headers =
          (codes "content-type", codes "text/markdown; charset=utf-8")
          ∷ (codes "cache-control", codes "public, max-age=300")
          ∷ [];
      body = in_app_pictures body;
    }
  ]
