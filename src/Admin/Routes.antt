-- ===== src/Admin/Routes.antt =====
-- admin-api/src/lib.rs: what a request runs. Spin's router is a parameter, which picks one of the routes.
pub mod Token
use vanity_manager.Prelude.{
  Bool, true, false, ◌||◌, Option, none, some, List, [], ◌∷◌, Str, codes, str_eq, strip_prefix,
  if◌then◌else◌, unwrap_or,
}
use vanity_manager.Exec.{Result, ok, err, Exec, ◌>>=◌, pure, attempt, Env, Method}
use vanity_manager.Model.{Redirect, HostMeta}
use vanity_manager.Store.{open_from_config}
use vanity_manager.Admin.{Request, Params, Reply, failure, answer, check_auth}
use vanity_manager.Admin.Rules
use vanity_manager.Admin.Rules.{RulePage}
use vanity_manager.Admin.Import.Guard
use vanity_manager.Admin.Import.Guard.{Report}
use vanity_manager.Admin.Upkeep
use vanity_manager.Admin.Upkeep.{Marked, Cleared}
use vanity_manager.Admin.Hosts
use vanity_manager.Admin.Hosts.{Stats}
use vanity_manager.Admin.TestLookup
use vanity_manager.Admin.TestLookup.{Tested}
use vanity_manager.Admin.Snapshot.{publish_snapshot, ensure_seeded}
use vanity_manager.Admin.Pages.{
  Response, serve_ui, serve_docs, serve_readme, serve_openapi, serve_architecture_svg,
  serve_features_svg, serve_doc_source, health,
}

pub data Endpoint : Type 0 where
  list_rules create_rule get_rule update_rule delete_rule : Endpoint
  import_rules export_rules publish_snapshot_now clear_pending mark_synced : Endpoint
  list_hosts update_host stats list_pending test_lookup : Endpoint

pub record Route : Type 0 where
  pub method : Method
  pub pattern : Str
  pub endpoint : Endpoint

abbrev route : Method → Str → Endpoint → Route
route method pattern endpoint = record { method = method; pattern = pattern; endpoint = endpoint }

-- The routes in the order in which they are registered.
unfoldable pub routes : List Route
routes =
    route Method.get (codes "/v1/rules") Endpoint.list_rules
    ∷ route Method.post (codes "/v1/rules") Endpoint.create_rule
    ∷ route Method.get (codes "/v1/rules/:host/:type/*") Endpoint.get_rule
    ∷ route Method.put (codes "/v1/rules/:host/:type/*") Endpoint.update_rule
    ∷ route Method.delete (codes "/v1/rules/:host/:type/*") Endpoint.delete_rule
    ∷ route Method.post (codes "/v1/import") Endpoint.import_rules
    ∷ route Method.get (codes "/v1/export") Endpoint.export_rules
    ∷ route Method.post (codes "/v1/snapshot") Endpoint.publish_snapshot_now
    ∷ route Method.post (codes "/v1/clear-pending") Endpoint.clear_pending
    ∷ route Method.post (codes "/v1/mark-synced") Endpoint.mark_synced
    ∷ route Method.get (codes "/v1/hosts") Endpoint.list_hosts
    ∷ route Method.put (codes "/v1/hosts/:host") Endpoint.update_host
    ∷ route Method.get (codes "/v1/stats") Endpoint.stats
    ∷ route Method.get (codes "/v1/pending") Endpoint.list_pending
    ∷ route Method.get (codes "/v1/test/:host/*") Endpoint.test_lookup
    ∷ []

-- The answer to a preflight request.
abbrev pub preflight : Response
preflight = record {
  status = 204;
  headers =
      (codes "access-control-allow-origin", codes "*")
      ∷ (codes "access-control-allow-methods", codes "GET, POST, PUT, DELETE, OPTIONS")
      ∷ (codes "access-control-allow-headers", codes "content-type")
      ∷ (codes "access-control-max-age", codes "86400")
      ∷ [];
  body = [];
}

abbrev pub is_options : Method → Bool
is_options Method.options = true
is_options _ = false

-- What a handler gives back.
pub data Output (e : Env) : Type 0 where
  page_of_rules : Reply RulePage → Output e
  one_rule : Reply Redirect → Output e
  all_rules : Reply (List Redirect) → Output e
  finished : Reply (Unit {0}) → Output e
  imported : Reply Report → Output e
  marked : Marked e → Output e
  cleared : Cleared e → Output e
  all_hosts : Reply (List HostMeta) → Output e
  one_host : Reply HostMeta → Output e
  statistics : Reply Stats → Output e
  markers : Reply (List e.serde.Value) → Output e
  tested : Tested → Output e

-- What a request is answered with.
pub data Handled (e : Env) : Type 0 where
  page : Response → Handled e
  unauthorized : Handled e
  no_route : Handled e
  handled : Result (Output e) → Handled e

module _ (e : Env) (include_str : Str → Str)
    (route_for : List Route → Method → Str → Option (Endpoint × Params)) where
  open e use {World}

  -- A failed publication is answered, not reported.
  unfoldable pub publish_now : Exec World (Reply (Unit {0}))
  publish_now = do
    b ← open_from_config e
    published ← attempt (publish_snapshot e b)
    pure (elim published [
      | ok _ ↦ answer 200 tt
      | err _ ↦ failure 500 (codes "snapshot publish failed")
    ])

  abbrev mapped : {A B : Type 0} → (A → B) → Exec World A → Exec World B
  mapped f m = do a ← m; pure (f a)

  unfoldable pub run_endpoint : Endpoint → Request → Params → Exec World (Output e)
  run_endpoint Endpoint.list_rules req params = mapped page_of_rules (Rules.list_rules e req)
  run_endpoint Endpoint.create_rule req params = mapped one_rule (Rules.create_rule e req)
  run_endpoint Endpoint.get_rule req params = mapped one_rule (Rules.show_rule e params)
  run_endpoint Endpoint.update_rule req params = mapped one_rule (Rules.update_rule e req params)
  run_endpoint Endpoint.delete_rule req params = mapped finished (Rules.delete_rule e req params)
  run_endpoint Endpoint.import_rules req params = mapped imported (Guard.import_rules e req)
  run_endpoint Endpoint.export_rules req params = mapped all_rules (Rules.export_rules e)
  run_endpoint Endpoint.publish_snapshot_now req params = mapped finished publish_now
  run_endpoint Endpoint.clear_pending req params = mapped cleared (Upkeep.clear_pending e req)
  run_endpoint Endpoint.mark_synced req params = mapped marked (Upkeep.mark_synced e req)
  run_endpoint Endpoint.list_hosts req params = mapped all_hosts (Hosts.list_hosts e)
  run_endpoint Endpoint.update_host req params = mapped one_host (Hosts.update_host e req params)
  run_endpoint Endpoint.stats req params = mapped statistics (Hosts.stats e)
  run_endpoint Endpoint.list_pending req params = mapped markers (Hosts.list_pending e)
  run_endpoint Endpoint.test_lookup req params = mapped tested (TestLookup.test_lookup e params)

  abbrev is_either : Str → Str → Str → Bool
  is_either path a b = str_eq path a || str_eq path b

  -- The pages that need no token.
  unfoldable pub public_page : Request → Str → World → Option (Response × World)
  public_page req path w =
      if is_either path (codes "/v1/ui") (codes "/v1/ui/")
      then some (serve_ui e include_str req, w)
      else if is_either path (codes "/v1/docs") (codes "/v1/docs/")
      then some (serve_docs e include_str req, w)
      else if is_either path (codes "/v1/readme") (codes "/v1/readme/")
      then some (serve_readme e include_str req, w)
      else if is_either path (codes "/v1/openapi.yaml") (codes "/v1/openapi.yml")
      then some (serve_openapi e include_str, w)
      else if str_eq path (codes "/v1/architecture.svg")
      then some (serve_architecture_svg e include_str req, w)
      else if str_eq path (codes "/v1/features.svg")
      then some (serve_features_svg e include_str req, w)
      else if str_eq path (codes "/health")
      then some (health e w)
      else elim (strip_prefix (codes "/v1/docs/source/") path) [
        | some rest ↦ some (serve_doc_source e include_str rest, w)
        | none ↦ none
      ]

  -- A store that cannot be opened or seeded does not stop the request.
  unfoldable pub seed_first : World → World
  seed_first w =
      let (opened, w') = open_from_config e w in
      elim opened [ ok b ↦ (ensure_seeded e b w').1 | err _ ↦ w' ]

  unfoldable pub dispatch : Request → Str → World → Handled e × World
  dispatch req path w = elim (route_for routes req.method path) [
    | none ↦ (no_route, w)
    | some (endpoint, params) ↦ let (r, w') = run_endpoint endpoint req params w in (handled r, w')
  ]

  unfoldable pub guarded : Request → Str → World → Handled e × World
  guarded req path w =
      if check_auth e req then dispatch req path (seed_first w) else (unauthorized, w)

  -- The component's `handle`.
  unfoldable pub handle_request : Request → World → Handled e × World
  handle_request req w =
      let path = unwrap_or [] (req.header (codes "spin-path-info")) in
      if is_options req.method then (page preflight, w) else elim (public_page req path w) [
        | some (response, w') ↦ (page response, w')
        | none ↦ guarded req path w
      ]
