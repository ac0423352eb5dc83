-- ===== src/Http/SparseHandlers.antt =====
-- The handlers of `HttpHandler` (src/http/http_api.cpp) for values that are written range by range, over
-- the global sparse cache.
use el_cache.Common.{
  ℕ, ◌+◌, Bool, false, Option, none, some, List, [], ◌∷◌, ◌++◌, ◌==◌, if◌then◌else◌, take, drop,
  sub64,
}
use el_cache.Coordinator.{Layer, Remote, WriteOptions, is_ok}
use el_cache.Sparse
use el_cache.Sparse.{SparseEntry, SparseCache, refused, done, fault, success, not_found, incomplete}
use el_cache.Text.{
  codes, is_empty, find_char, find_text, rfind_text, substr, stoull, decimal, minus,
}
use el_cache.Http
use el_cache.Http.{
  HttpRequest, HttpResponse, header, with_header, created, bad_request, text_answer, answer,
}
use el_cache.Http.Options.{ttl_option, json_member, json_body}
use el_cache.Http.Handlers.{Outside, Reply, respond, thrown, undefined, Server, store_value}

abbrev pub sparse_prefix : ℕ
sparse_prefix = 8

-- `completion_percent` counts these.
unfoldable pub count_written : List Bool → ℕ
count_written [] = 0
count_written (w ∷ ws) = if w then count_written ws + 1 else count_written ws

-- The offset of a write, or the message of a bad request: from `Content-Range`, and without that header
-- from the query.
pub data OffsetResult : Type 0 where
  offset_of : ℕ → OffsetResult
  bad_offset : List ℕ → OffsetResult

abbrev parsed_offset : List ℕ → Option ℕ → OffsetResult
parsed_offset msg o = elim o [ none ↦ bad_offset msg | some n ↦ offset_of n ]

unfoldable pub content_range_offset : List ℕ → OffsetResult
unfolding find_text find_char stoull
content_range_offset text = elim (find_text (codes "bytes ") text) [
  | none ↦ offset_of 0
  | some i ↦
      let range_part : List ℕ = drop (i + 6) text in
      elim (find_char minus range_part) [
        | none ↦ offset_of 0
        | some dash ↦ parsed_offset (codes "Invalid Content-Range") (stoull (take dash range_part))
      ]
]

unfoldable pub query_offset : List ℕ → OffsetResult
unfolding find_text stoull
query_offset query = elim (find_text (codes "offset=") query) [
  | none ↦ offset_of 0
  | some i ↦ parsed_offset (codes "Invalid offset parameter") (stoull (drop (i + 7) query))
]

unfoldable pub write_offset : HttpRequest → OffsetResult
unfolding header content_range_offset query_offset
write_offset req =
    let text : List ℕ = header req (codes "Content-Range") in
    if is_empty text then query_offset req.query else content_range_offset text

-- The key between "/sparse/" and "/finalize", or nothing where the path does not end so.
unfoldable pub finalize_key : List ℕ → Option (Option (List ℕ))
unfolding rfind_text substr sub64
finalize_key path = elim (rfind_text (codes "/finalize") path) [
  | none ↦ some none
  | some i ↦ elim (substr sparse_prefix path) [
    | none ↦ none
    | some rest ↦ some (some (take (sub64 i sparse_prefix) rest))
  ]
]

unfoldable pub conflict : List ℕ → HttpResponse
unfolding text_answer
conflict msg = text_answer 409 (codes "Conflict") msg

module _ {m d : Layer (List ℕ)} {c : Remote (List ℕ)} (o : Outside m d c)
    (dec : Discrete (List ℕ)) where
  -- `get_completion`, with `completion_percent`.
  unfoldable pub get_completion : SparseCache (List ℕ) → List ℕ → o.Double
  unfolding Sparse.find count_written
  get_completion sparse key = elim (Sparse.find dec key sparse) [
    | none ↦ o.zero_percent
    | some e ↦
        if e.total_size == 0
        then o.full_percent
        else o.percent (count_written e.written) e.total_size
  ]

  abbrev completion_header : SparseCache (List ℕ) → List ℕ → HttpResponse → HttpResponse
  completion_header sparse key resp =
      with_header (codes "X-ElCache-Completion")
        (o.to_string (get_completion sparse key) ++ codes "%") resp

  unfoldable pub handle_sparse_create : Server o → HttpRequest → Server o × Reply
  unfolding substr header stoull Sparse.create conflict decimal with_header
  handle_sparse_create s req = elim (substr sparse_prefix req.path) [
    | none ↦ (s, thrown)
    | some key ↦
        let size_header : List ℕ = header req (codes "X-ElCache-Size") in
        if is_empty key
        then (s, respond (bad_request (codes "Missing key")))
        else if is_empty size_header
        then (s, respond (bad_request (codes "X-ElCache-Size header required")))
        else elim (stoull size_header) [
          | none ↦ (s, respond (bad_request (codes "Invalid X-ElCache-Size value")))
          | some total_size ↦
              let (sparse, is_new) = Sparse.create dec s.sparse key total_size in
              if total_size == 0
              then (s, respond (bad_request (codes "Size must be greater than 0")))
              else if is_new
              then (
                record s { sparse = sparse },
                respond (with_header (codes "X-ElCache-Size") (decimal total_size) created),
              )
              else (s, respond (conflict (codes "Sparse entry already exists")))
        ]
  ]

  -- `write_range` of the sparse cache and the response to it.
  unfoldable pub write_at : Server o → List ℕ → ℕ → List ℕ → Server o × Reply
  unfolding Sparse.write Sparse.entry_exists get_completion
  write_at s key offset body = elim (Sparse.write dec s.sparse key offset body) [
    | fault ↦ (s, undefined)
    | refused ↦ (
      s,
      respond (
          if Sparse.entry_exists dec s.sparse key
          then bad_request (codes "Invalid range (offset + size exceeds total)")
          else Http.not_found (codes "Sparse entry not found")),
    )
    | done sparse ↦ (
      record s { sparse = sparse },
      respond (completion_header sparse key (answer 202 (codes "Accepted") [])),
    )
  ]

  unfoldable pub handle_sparse_write : Server o → HttpRequest → Server o × Reply
  unfolding substr write_offset write_at
  handle_sparse_write s req = elim (substr sparse_prefix req.path) [
    | none ↦ (s, thrown)
    | some key ↦
        if is_empty key
        then (s, respond (bad_request (codes "Missing key")))
        else elim (write_offset req) [
          | bad_offset msg ↦ (s, respond (bad_request msg))
          | offset_of offset ↦
              if is_empty req.body
              then (s, respond (bad_request (codes "Request body is empty")))
              else write_at s key offset req.body
        ]
  ]

  -- The options of the write that ends a sparse value.
  abbrev pub finalize_options : Option ℕ → WriteOptions
  finalize_options ttl = record {
    ttl = ttl;
    flags = 0;
    no_memory = false;
    no_disk = false;
    no_cluster = false;
  }

  -- What is done with the bytes of a finalized entry, which has left the sparse cache.
  unfoldable pub store_finalized : Server o → HttpRequest → List ℕ → List ℕ → Server o × Reply
  unfolding ttl_option store_value
  store_finalized s req key value = elim (ttl_option req) [
    | none ↦ (s, thrown)
    | some ttl ↦
        let (s', status) = store_value o s key value (finalize_options ttl) in
        (
          s',
          respond (
              if is_ok status
              then created
              else Http.internal_error
                  (codes "Failed to store finalized data: " ++ o.message status)),
        )
  ]

  unfoldable pub handle_sparse_finalize : Server o → HttpRequest → Server o × Reply
  unfolding finalize_key Sparse.finalize store_finalized get_completion conflict
  handle_sparse_finalize s req = elim (finalize_key req.path) [
    | none ↦ (s, thrown)
    | some none ↦ (s, respond (bad_request (codes "Invalid path")))
    | some (some key) ↦
        let (sparse, result) = Sparse.finalize dec s.sparse key in
        let s' : Server o = record s { sparse = sparse } in
        if is_empty key then (s, respond (bad_request (codes "Missing key"))) else elim result [
          | not_found ↦ (s', respond (Http.not_found (codes "Sparse entry not found")))
          | incomplete ↦ (
            s',
            respond (completion_header sparse key (conflict (codes "Not all ranges written"))),
          )
          | success value ↦ store_finalized s' req key value
        ]
  ]

  unfoldable pub status_json : List ℕ → ℕ → o.Double → List ℕ
  unfolding decimal
  status_json key total_size completion =
      codes "{\n"
      ++ json_member (codes "key") (codes "\"" ++ key ++ codes "\"") (codes ",\n")
      ++ json_member (codes "total_size") (decimal total_size) (codes ",\n")
      ++ json_member (codes "completion_percent") (o.streamed completion) (codes ",\n")
      ++ json_member (codes "complete")
          (if o.at_least completion o.full_percent then codes "true" else codes "false")
          (codes "\n")
      ++ codes "}\n"

  unfoldable pub handle_sparse_status : Server o → HttpRequest → Server o × Reply
  unfolding substr Sparse.entry_exists Sparse.get_total_size get_completion status_json
  handle_sparse_status s req = elim (substr sparse_prefix req.path) [
    | none ↦ (s, thrown)
    | some key ↦ (
      s,
      respond (
          if is_empty key
          then bad_request (codes "Missing key")
          else if Sparse.entry_exists dec s.sparse key
          then json_body (
              status_json key (Sparse.get_total_size dec s.sparse key)
                (get_completion s.sparse key))
          else Http.not_found (codes "Sparse entry not found")),
    )
  ]
