-- ===== src/Http/Effects.antt =====
-- What the endpoints of `build_router` (src/http/http_api.cpp) can change.
use el_cache.Common.{ℕ, ◌≡◌, refl, ap, Bool, true, false, List, arith}
use el_cache.Coordinator.{Layer, Remote}
use el_cache.Http.{HttpRequest}
use el_cache.Http.Handlers.{
  Outside, Server, handle_get, handle_put, handle_delete, handle_head, handle_options, handle_stats,
  handle_health, handle_cluster, handle_metrics, read_value, store_value,
}
use el_cache.Http.SparseHandlers.{
  handle_sparse_create, handle_sparse_write, handle_sparse_status, write_at,
}
use el_cache.Http.Router.{
  Endpoint, value_get, value_put, value_delete, value_head, value_options, server_stats,
  server_health, server_metrics, server_cluster, sparse_create, sparse_write, sparse_finalize,
  sparse_status, sparse_abort, Context, from_context, run, handle_sparse_delete,
}

-- The endpoints that reach the cached values, and those that reach the sparse ones.
abbrev pub changes_cache : Endpoint → Bool
changes_cache e = elim e [
  | value_get ↦ true
  | value_put ↦ true
  | value_delete ↦ true
  | sparse_finalize ↦ true
  | _ ↦ false
]

abbrev pub changes_sparse : Endpoint → Bool
changes_sparse e = elim e [
  | sparse_create ↦ true
  | sparse_write ↦ true
  | sparse_finalize ↦ true
  | sparse_abort ↦ true
  | _ ↦ false
]

module _ {m d : Layer (List ℕ)} {c : Remote (List ℕ)} (o : Outside m d c)
    (dec : Discrete (List ℕ)) where
  head_keeps : (s : Server o) (req : HttpRequest) → (handle_head o s req).0 ≡ s
  unfolding handle_head
  head_keeps s req = ground arith

  create_keeps :
      (s : Server o) (req : HttpRequest) → (handle_sparse_create o dec s req).0.cache ≡ s.cache
  unfolding handle_sparse_create
  create_keeps s req = ground arith

  put_keeps : (s : Server o) (req : HttpRequest) → (handle_put o s req).0.sparse ≡ s.sparse
  unfolding handle_put store_value
  put_keeps s req = ground arith

  get_keeps : (s : Server o) (req : HttpRequest) → (handle_get o s req).0.sparse ≡ s.sparse
  unfolding handle_get read_value
  get_keeps s req = ground arith

  delete_keeps : (s : Server o) (req : HttpRequest) → (handle_delete o s req).0.sparse ≡ s.sparse
  unfolding handle_delete
  delete_keeps s req = ground arith

  metrics_keeps :
      (s : Server o) (req : HttpRequest)
      → ((handle_metrics o s req).0.cache ≡ s.cache)
        × ((handle_metrics o s req).0.sparse ≡ s.sparse)
  unfolding handle_metrics
  metrics_keeps s req = (ground arith, ground arith)

  write_keeps :
      (s : Server o) (req : HttpRequest) → (handle_sparse_write o dec s req).0.cache ≡ s.cache
  unfolding handle_sparse_write write_at
  write_keeps s req = ground arith

  status_keeps : (s : Server o) (req : HttpRequest) → (handle_sparse_status o dec s req).0 ≡ s
  unfolding handle_sparse_status
  status_keeps s req = ground arith

  abort_keeps :
      (s : Server o) (path : List ℕ) → (handle_sparse_delete o dec s path).0.cache ≡ s.cache
  unfolding handle_sparse_delete
  abort_keeps s path = ground arith

  -- An endpoint that is none of GET, PUT, POST and DELETE of a cached value nor the finalizing of a sparse
  -- one leaves the coordinator as it is.
  pub run-cache :
      (e : Endpoint) (s : Server o) (ctx : Context)
      → changes_cache e ≡ false
      → (run o dec e s ctx).0.cache ≡ s.cache
  unfolding run handle_options handle_stats handle_health handle_cluster
  run-cache value_get s ctx h = absurd (ground arith)
  run-cache value_put s ctx h = absurd (ground arith)
  run-cache value_delete s ctx h = absurd (ground arith)
  run-cache value_head s ctx h = ap (λ z. z.cache) (head_keeps s (from_context ctx))
  run-cache value_options s ctx h = refl
  run-cache server_stats s ctx h = refl
  run-cache server_health s ctx h = refl
  run-cache server_metrics s ctx h = (metrics_keeps s (from_context ctx)).0
  run-cache server_cluster s ctx h = refl
  run-cache sparse_create s ctx h = create_keeps s (from_context ctx)
  run-cache sparse_write s ctx h = write_keeps s (from_context ctx)
  run-cache sparse_finalize s ctx h = absurd (ground arith)
  run-cache sparse_status s ctx h = ap (λ z. z.cache) (status_keeps s (from_context ctx))
  run-cache sparse_abort s ctx h = abort_keeps s ctx.path

  -- An endpoint that creates, writes, finalizes or aborts no sparse value leaves the sparse cache as it
  -- is, whatever it does to cached values.
  pub run-sparse :
      (e : Endpoint) (s : Server o) (ctx : Context)
      → changes_sparse e ≡ false
      → (run o dec e s ctx).0.sparse ≡ s.sparse
  unfolding run handle_options handle_stats handle_health handle_cluster
  run-sparse value_get s ctx h = get_keeps s (from_context ctx)
  run-sparse value_put s ctx h = put_keeps s (from_context ctx)
  run-sparse value_delete s ctx h = delete_keeps s (from_context ctx)
  run-sparse value_head s ctx h = ap (λ z. z.sparse) (head_keeps s (from_context ctx))
  run-sparse value_options s ctx h = refl
  run-sparse server_stats s ctx h = refl
  run-sparse server_health s ctx h = refl
  run-sparse server_metrics s ctx h = (metrics_keeps s (from_context ctx)).1
  run-sparse server_cluster s ctx h = refl
  run-sparse sparse_create s ctx h = absurd (ground arith)
  run-sparse sparse_write s ctx h = absurd (ground arith)
  run-sparse sparse_finalize s ctx h = absurd (ground arith)
  run-sparse sparse_status s ctx h = ap (λ z. z.sparse) (status_keeps s (from_context ctx))
  run-sparse sparse_abort s ctx h = absurd (ground arith)
