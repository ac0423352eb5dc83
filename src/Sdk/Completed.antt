-- ===== src/Sdk/Completed.antt =====
-- The loop of `handle_client` (src/network/unix_server.cpp) on the requests of the client library.
use el_cache.Common.{ℕ, ◌+◌, ◌≡◌, ◌<◌, List, length, u64_mod, All}
use el_cache.Sparse
use el_cache.Sparse.{SparseCache, write_range, new_entry}
use el_cache.Sparse.Write.{IsSized}
use el_cache.UnixServer.{Server, Handled, reply}
use el_cache.Sdk.Served.{Request, write_of}

-- The end of a write fits in 64 bits.
abbrev pub Ends : Request → Type 0
Ends (write_of key offset buf) = offset + length buf < u64_mod
Ends _ = Unit {0}

-- The buffers of all sparse entries have their sizes.
abbrev pub AllSized : {K : Type 0} → SparseCache K → Type 0
AllSized c = All (λ e. IsSized e.1) c

-- A response, and a server whose sparse entries are sized.
abbrev Answered : Handled → Type 0
Answered h =
    (s : Server) × (code : ℕ) × (response : List ℕ) × (h ≡ reply s code response)
    × AllSized s.sparse
