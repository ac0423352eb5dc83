-- ===== src/Http/Gets.antt =====
-- The handlers of one value (src/http/http_api.cpp), step by step.
use el_cache.Common.{
  ℕ, ◌≡◌, ◌<◌, ◌≤◌, refl, ap, ◌∙◌, true, false, Option, none, some, List, [], ◌∷◌, arith, length,
  ltb,
}
use el_cache.Range.{Range}
use el_cache.Memory.{ReadResult, CacheMetadata, hit, miss, max_key_size}
use el_cache.Coordinator
use el_cache.Coordinator.{Layer, Remote, WriteOptions}
use el_cache.Text.{codes, is_empty, substr}
use el_cache.Http.{HttpRequest, not_found, header, has_range_header, parse_range_header}
use el_cache.Http.Options.{read_response, read_reply, write_options}
use el_cache.Http.Handlers.{
  Outside, respond, Server, cache_prefix, header_range, asked_range, read_value, handle_get,
  handle_put, store_value,
}

pub not_empty : (s : List ℕ) → 0 < length s → is_empty s ≡ false
not_empty [] h = absurd (omega arith)
not_empty (c ∷ s) h = refl

read_reply-hit :
    (range : Option Range) (r : ReadResult)
    → r.result ≡ hit
    → read_reply range r ≡ read_response range r
unfolding read_reply
read_reply-hit range r h =
    ap (λ x. elim x [ miss ↦ not_found (codes "Key not found") | _ ↦ read_response range r ]) h

module _ {m d : Layer (List ℕ)} {c : Remote (List ℕ)} (o : Outside m d c) where
  pub handle_get-read_value :
      (s : Server o) (req : HttpRequest) (key : List ℕ) (range : Option Range)
      → substr cache_prefix req.path ≡ some key
      → 0 < length key
      → asked_range o s req key ≡ some range
      → handle_get o s req ≡ read_value o s key range
  unfolding handle_get
  handle_get-read_value s req key range e pos e' = rw (e, handle_get, not_empty key pos, e') refl

  pub read_value-hit :
      (s : Server o) (key : List ℕ) (range : Option Range) (r : ReadResult)
      → r.result ≡ hit
      → (Coordinator.get m d c s.cache key (record { allow_partial = true; range = range })).1 ≡ r
      → (read_value o s key range).1 ≡ respond (read_response range r)
  unfolding read_value
  read_value-hit s key range r h e =
      ap (λ a. respond (read_reply range a)) e ∙ ap respond (read_reply-hit range r h)

  pub handle_put-put :
      (s : Server o) (req : HttpRequest) (key : List ℕ) (opts : WriteOptions)
      → substr cache_prefix req.path ≡ some key
      → 0 < length key
      → length key ≤ max_key_size
      → write_options req ≡ some opts
      → (handle_put o s req).0.cache ≡ (Coordinator.put m d c s.cache key req.body opts).0
  unfolding handle_put store_value
  handle_put-put s req key opts e pos small e' =
      let fits : ltb max_key_size (length key) ≡ false = ground arith in
      rw (e, handle_put, not_empty key pos, fits, e') refl

  -- With a header, the range that it means; without one, none.
  pub asked_range-header :
      (s : Server o) (req : HttpRequest) (key : List ℕ) (meta : CacheMetadata) (r : Range)
      → req.query ≡ []
      → 0 < length (header req (codes "Range"))
      → Coordinator.metadata m d c s.cache key ≡ some meta
      → parse_range_header req meta.total_size ≡ some r
      → asked_range o s req key ≡ some (some r)
  unfolding asked_range header_range has_range_header
  asked_range-header s req key meta r e pos e' e'' =
      rw (not_empty (header req (codes "Range")) pos, asked_range, e', e'', e) refl

  pub asked_range-none :
      (s : Server o) (req : HttpRequest) (key : List ℕ)
      → req.query ≡ []
      → header req (codes "Range") ≡ []
      → asked_range o s req key ≡ some none
  unfolding asked_range header_range has_range_header
  asked_range-none s req key e e' = rw (e', asked_range, e) refl
