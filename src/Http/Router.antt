-- ===== src/Http/Router.antt =====
-- `HttpHandler::handle`, `build_router` and the adapters between them and Elio (src/http/http_api.cpp).
-- Elio's choice of a route is a parameter.
use el_cache.Common.{
  ℕ, suc, Bool, false, ◌&&◌, ◌||◌, Option, none, some, List, [], ◌∷◌, ◌==◌, if◌then◌else◌, take,
  drop,
}
use el_cache.Coordinator.{Layer, Remote}
use el_cache.Sparse
use el_cache.Text.{codes, same_text, find_char, find_text, starts_with, substr}
use el_cache.Http.{Headers, HttpRequest, set_header, not_found, no_content}
use el_cache.Http.Handlers.{
  Outside, Reply, respond, thrown, Server, handle_get, handle_put, handle_delete, handle_head,
  handle_options, handle_stats, handle_health, handle_cluster, handle_metrics,
}
use el_cache.Http.SparseHandlers.{
  sparse_prefix, handle_sparse_create, handle_sparse_write, handle_sparse_finalize,
  handle_sparse_status,
}

-- `elio::http::method`; the last stands for the others.
pub data Method : Type 0 where
  get : Method
  post : Method
  put : Method
  delete : Method
  head : Method
  options : Method
  patch : Method
  other : Method

unfoldable pub method_text : Method → List ℕ
method_text get = codes "GET"
method_text post = codes "POST"
method_text put = codes "PUT"
method_text delete = codes "DELETE"
method_text head = codes "HEAD"
method_text options = codes "OPTIONS"
method_text patch = codes "PATCH"
method_text other = codes "UNKNOWN"

-- What `from_context` reads of an `elio::http::context`.
pub record Context : Type 0 where
  pub method : Method
  pub path : List ℕ
  pub query : List ℕ
  pub headers : Headers
  pub body : List ℕ

-- `req.headers[name] = value`, for each header.
unfoldable pub copy_headers : Headers → Headers → Headers
unfolding set_header
copy_headers [] copied = copied
copy_headers ((name, value) ∷ l) copied = copy_headers l (set_header name value copied)

unfoldable pub from_context : Context → HttpRequest
unfolding method_text find_char copy_headers
from_context ctx =
    let pos : Option ℕ = find_char 63 ctx.path in
    record {
      method = method_text ctx.method;
      path = elim pos [ none ↦ ctx.path | some i ↦ take i ctx.path ];
      query = elim pos [ none ↦ ctx.query | some i ↦ drop (suc i) ctx.path ];
      headers = copy_headers ctx.headers [];
      body = ctx.body;
    }

-- The handlers that the router can call.
pub data Endpoint : Type 0 where
  value_get : Endpoint
  value_put : Endpoint
  value_delete : Endpoint
  value_head : Endpoint
  value_options : Endpoint
  server_stats : Endpoint
  server_health : Endpoint
  server_metrics : Endpoint
  server_cluster : Endpoint
  sparse_create : Endpoint
  sparse_write : Endpoint
  sparse_finalize : Endpoint
  sparse_status : Endpoint
  sparse_abort : Endpoint

-- `build_router`: methods, patterns and handlers, in the order in which they are added.
unfoldable pub routes : List (Method × List ℕ × Endpoint)
routes =
    (get, codes "/cache/:key", value_get)
    ∷ (put, codes "/cache/:key", value_put)
    ∷ (post, codes "/cache/:key", value_put)
    ∷ (delete, codes "/cache/:key", value_delete)
    ∷ (head, codes "/cache/:key", value_head)
    ∷ (options, codes "/cache/:key", value_options)
    ∷ (get, codes "/stats", server_stats)
    ∷ (get, codes "/health", server_health)
    ∷ (get, codes "/metrics", server_metrics)
    ∷ (get, codes "/cluster", server_cluster)
    ∷ (get, codes "/cluster/nodes", server_cluster)
    ∷ (post, codes "/sparse/:key", sparse_create)
    ∷ (patch, codes "/sparse/:key", sparse_write)
    ∷ (put, codes "/sparse/:key", sparse_write)
    ∷ (post, codes "/sparse/:key/finalize", sparse_finalize)
    ∷ (get, codes "/sparse/:key", sparse_status)
    ∷ (delete, codes "/sparse/:key", sparse_abort)
    ∷ []

module _ {m d : Layer (List ℕ)} {c : Remote (List ℕ)} (o : Outside m d c)
    (dec : Discrete (List ℕ)) where
  -- The last route of `build_router`, which reads the path with its query.
  unfoldable pub handle_sparse_delete : Server o → List ℕ → Server o × Reply
  unfolding substr Sparse.remove
  handle_sparse_delete s path = elim (substr sparse_prefix path) [
    | none ↦ (s, thrown)
    | some key ↦ (record s { sparse = (Sparse.remove dec s.sparse key).0 }, respond no_content)
  ]

  unfoldable pub run : Endpoint → Server o → Context → Server o × Reply
  unfolding from_context handle_sparse_delete
  run value_get s ctx = handle_get o s (from_context ctx)
  run value_put s ctx = handle_put o s (from_context ctx)
  run value_delete s ctx = handle_delete o s (from_context ctx)
  run value_head s ctx = handle_head o s (from_context ctx)
  run value_options s ctx = handle_options o s (from_context ctx)
  run server_stats s ctx = handle_stats o s (from_context ctx)
  run server_health s ctx = handle_health o s (from_context ctx)
  run server_metrics s ctx = handle_metrics o s (from_context ctx)
  run server_cluster s ctx = handle_cluster o s (from_context ctx)
  run sparse_create s ctx = handle_sparse_create o dec s (from_context ctx)
  run sparse_write s ctx = handle_sparse_write o dec s (from_context ctx)
  run sparse_finalize s ctx = handle_sparse_finalize o dec s (from_context ctx)
  run sparse_status s ctx = handle_sparse_status o dec s (from_context ctx)
  run sparse_abort s ctx = handle_sparse_delete s ctx.path

  -- `routes_`, the handlers that `add_route` adds.
  abbrev pub Handler : Type 0
  Handler = Server o → HttpRequest → Server o × Reply

  abbrev pub CustomRoutes : Type 0
  CustomRoutes = List (List ℕ × List ℕ × Handler)

  unfoldable pub add_route : CustomRoutes → List ℕ → List ℕ → Handler → CustomRoutes
  add_route [] method pattern handler = (method, pattern, handler) ∷ []
  add_route (r ∷ l) method pattern handler = r ∷ add_route l method pattern handler

  unfoldable pub custom_handler : CustomRoutes → HttpRequest → Option Handler
  unfolding same_text find_text
  custom_handler [] req = none
  custom_handler ((method, pattern, handler) ∷ l) req =
      let rest = custom_handler l req in
      let at_start : Bool = elim (find_text pattern req.path) [ none ↦ false | some i ↦ i == 0 ] in
      if same_text req.method method && at_start then some handler else rest

  abbrev by_method : HttpRequest → Method → Bool
  by_method req method = same_text req.method (method_text method)

  -- The handler for a method of "/cache/".
  unfoldable pub cache_handler : HttpRequest → Option Handler
  unfolding same_text method_text
  cache_handler req =
      if by_method req get
      then some (handle_get o)
      else if by_method req put || by_method req post
      then some (handle_put o)
      else if by_method req delete
      then some (handle_delete o)
      else if by_method req head
      then some (handle_head o)
      else if by_method req options
      then some (handle_options o)
      else none

  unfoldable pub built_in_handler : HttpRequest → Option Handler
  unfolding cache_handler starts_with
  built_in_handler req =
      if starts_with (codes "/cache/") req.path
      then cache_handler req
      else if same_text req.path (codes "/stats") && by_method req get
      then some (handle_stats o)
      else if same_text req.path (codes "/health") && by_method req get
      then some (handle_health o)
      else if same_text req.path (codes "/metrics") && by_method req get
      then some (handle_metrics o)
      else if starts_with (codes "/cluster") req.path && by_method req get
      then some (handle_cluster o)
      else none

  unfoldable pub handle : CustomRoutes → Server o → HttpRequest → Server o × Reply
  unfolding custom_handler built_in_handler
  handle custom s req = elim (custom_handler custom req) [
    | some handler ↦ handler s req
    | none ↦ elim (built_in_handler req) [
      | some handler ↦ handler s req
      | none ↦ (s, respond (not_found (codes "Endpoint not found")))
    ]
  ]
