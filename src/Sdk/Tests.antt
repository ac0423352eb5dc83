-- ===== src/Sdk/Tests.antt =====
-- Examples for the client library and the server of local clients.
use el_cache.Common.{ℕ, ◌≡◌, refl, List, [], ◌∷◌, replicate, true, some, arith, ℕ_discrete, ltb}
use mathlib.Core.Logic.{if_pos}
use mathlib.Core.List.{List-discrete}
use el_cache.Sdk.Overflow.{start, writes_past, untested, writes_past-start}
use el_cache.UnixServer.{Server, value_of}
use el_cache.Sdk.{Client, success, protocol}
use el_cache.Sdk.Served.{Request, get_of, put_of, delete_of, create_of, write_of}
use el_cache.Sdk.Calls.{IsReady, outcome, and_then, call_get, call_put}
use el_cache.Sdk.Results.{call_get-call_put}
use el_cache.Sdk.Failures.{call_get-call_get}
use el_cache.Sdk.Exchange.{part_of}

abbrev same_bytes : Discrete (List ℕ)
same_bytes = List-discrete ℕ_discrete

abbrev no_values : Server
no_values = record { values = []; sparse = [] }

abbrev client : Client
client = record {
  connected = true;
  recv_buffer_size = 64;
  send_buffer_size = 65536;
  next_request_id = 1;
  hits = 0;
  misses = 0;
  partial_hits = 0;
  bytes_read = 0;
  bytes_written = 0;
  total_latency_us = 0;
  request_count = 0;
  max_latency_us = 0;
}

client-IsReady : IsReady client
client-IsReady = record {
  is_connected = refl;
  id_bound = omega arith;
  send_room = omega arith;
  send_bound = omega arith;
  recv_room = omega arith;
  recv_bound = omega arith;
}

abbrev name : List ℕ
name = 107 ∷ 49 ∷ []

abbrev text : List ℕ
text = 1 ∷ 2 ∷ 3 ∷ 4 ∷ 5 ∷ []

abbrev forty : List ℕ
forty = replicate 40 9

abbrev stocked : Server
stocked = record { values = (name, forty) ∷ []; sparse = [] }

call_get-call_put_example :
    outcome (
      and_then
        (call_put same_bytes no_values 7 9 client [] name text 0 0)
        (λ s c pending. call_get same_bytes s 7 9 c pending name 1 3 100))
    ≡ some (success, 2 ∷ 3 ∷ 4 ∷ [])
unfolding part_of
call_get-call_put_example =
    call_get-call_put same_bytes no_values 7 9 client name text 0 0 1 3 100 client-IsReady
      (omega arith) (omega arith) (omega arith) (omega arith) (omega arith) (omega arith)

call_get-call_get_example :
    outcome (
      and_then
        (call_get same_bytes stocked 7 9 client [] name 0 0 100)
        (λ s c pending. call_get same_bytes s 7 9 c pending text 0 0 100))
    ≡ some (protocol, [])
unfolding value_of part_of
call_get-call_get_example =
    call_get-call_get same_bytes stocked 7 9 client name forty text 0 0 100 0 0 100 client-IsReady
      (omega arith) (omega arith) (omega arith) (omega arith) (omega arith) (omega arith)
      (if_pos (same_bytes name name) refl _ _) (omega arith) (omega arith)

-- Requests that write, and read nothing, between the other two.
abbrev four_requests : List (ℕ × Request)
four_requests =
    (1, put_of name text 0 0)
    ∷ (2, create_of text 4 0 0)
    ∷ (3, write_of text 1 (7 ∷ 8 ∷ []))
    ∷ (4, get_of name 1 3)
    ∷ []

writes_past-start_example :
    writes_past (start client 7 (delete_of name)) ≡ ltb 65536 (untested (delete_of name))
writes_past-start_example = writes_past-start client 7 (delete_of name) client-IsReady
