-- ===== src/Sdk/Overflow.antt =====
-- The send buffer of a client: which operations test that a request fits it.
use el_cache.Common.{
  ℕ, ◌+◌, ◌≡◌, ◌≤◌, refl, ap, ◌∙◌, Bool, true, false, List, ◌++◌, arith, length, length-append, ltb,
  if◌then◌else◌, Bool-cases, inl, inr,
}
use el_cache.Wire.{header_size, encode_u32, encode_u64}
use el_cache.Wire.Code
use el_cache.Wire.Numbers.{length-encode_le}
use el_cache.Sdk.{
  Client, Started, refused, overrun, request, send, checked, max_key, get_request, put_request,
  delete_request, create_request, write_request, finalize_request, create_payload, write_payload,
  key_field, ttl_field, connection, key_too_large, value_too_large,
}
use el_cache.Sdk.Requests.{length-key_field}
use el_cache.Sdk.Served.{Request, get_of, put_of, delete_of, create_of, write_of, finalize_of}
use el_cache.Sdk.Calls.{IsReady, length-get_payload, length-put_payload, length-ttl_field}

-- The first half of each operation.
abbrev pub start : Client → ℕ → Request → Started
start c now (get_of key offset size) = get_request c now key offset size
start c now (put_of key value ttl_seconds flags) = put_request c now key value ttl_seconds flags
start c now (delete_of key) = delete_request c now key
start c now (create_of key total_size ttl_seconds flags) =
    create_request c now key total_size ttl_seconds flags
start c now (write_of key offset buf) = write_request c now key offset buf
start c now (finalize_of key) = finalize_request c now key

abbrev pub writes_past : Started → Bool
writes_past (refused code) = false
writes_past overrun = true
writes_past (request c bytes) = false

-- The bytes of a request that no test of its length precedes.
abbrev pub untested : Request → ℕ
untested (get_of key offset size) = 0
untested (put_of key value ttl_seconds flags) = 0
untested (delete_of key) = header_size + 4 + length key
untested (create_of key total_size ttl_seconds flags) = 0
untested (write_of key offset buf) = 0
untested (finalize_of key) = header_size + 4 + length key

send_within :
    (c : Client) (message_type now : ℕ) (payload : List ℕ)
    → writes_past (send c message_type now payload)
      ≡ ltb c.send_buffer_size (header_size + length payload)
unfolding send
send_within c message_type now payload =
    elim (Bool-cases (ltb c.send_buffer_size (header_size + length payload))) [
      | inl past ↦ rw past refl
      | inr within ↦ rw within refl
    ]

send_safe :
    (c : Client) (message_type now : ℕ) (payload : List ℕ)
    → header_size + length payload ≤ c.send_buffer_size
    → writes_past (send c message_type now payload) ≡ false
send_safe c message_type now payload h = send_within c message_type now payload ∙ ground arith

tested_safe :
    (c : Client) (message_type now needed : ℕ) (payload : List ℕ)
    → header_size + length payload ≤ needed
    → writes_past (
        if ltb c.send_buffer_size needed
        then refused value_too_large
        else send c message_type now payload)
      ≡ false
tested_safe c message_type now needed payload h =
    elim (Bool-cases (ltb c.send_buffer_size needed)) [
      | inl large ↦ rw large refl
      | inr room ↦ rw room (send_safe c message_type now payload (ground arith))
    ]

-- An operation without a test of the key.
unchecked_past :
    (c : Client) (message_type now : ℕ) (key : List ℕ)
    → c.connected ≡ true
    → writes_past
        (if c.connected then send c message_type now (key_field key) else refused connection)
      ≡ ltb c.send_buffer_size (header_size + 4 + length key)
unchecked_past c message_type now key on =
    ap
      (λ b. writes_past (if b then send c message_type now (key_field key) else refused connection))
      on
    ∙ send_within c message_type now (key_field key)
    ∙ ap (λ n. ltb c.send_buffer_size n) (omega (arith, length-key_field key))

checked_safe :
    (c : Client) (key : List ℕ) (started : Started)
    → (length key ≤ max_key → writes_past started ≡ false)
    → writes_past (checked c key started) ≡ false
unfolding checked
checked_safe c key started h = elim (Bool-cases (ltb max_key (length key))) [
  | inl long ↦ rw long refl
  | inr short ↦ elim (Bool-cases c.connected) [
    | inl on ↦
        ap
          (λ b. writes_past (
            if b
            then refused key_too_large
            else if c.connected
            then started
            else refused connection))
          short
        ∙ ap (λ b. writes_past (if b then started else refused connection)) on
        ∙ h (ground arith)
    | inr off ↦
        ap
          (λ b. writes_past (
            if b
            then refused key_too_large
            else if c.connected
            then started
            else refused connection))
          short
        ∙ ap (λ b. writes_past (if b then started else refused connection)) off
  ]
]

length-create_payload :
    (key : List ℕ) (total_size ttl_seconds flags : ℕ)
    → length (create_payload key total_size ttl_seconds flags) ≤ 4 + length key + 21
unfolding create_payload
length-create_payload key total_size ttl_seconds flags =
    let tail : List ℕ = ttl_field ttl_seconds ++ encode_u32 flags in
    omega (
      arith,
      length-append (key_field key) (encode_u64 total_size ++ tail),
      length-key_field key,
      length-append (encode_u64 total_size) tail,
      length-append (ttl_field ttl_seconds) (encode_u32 flags),
      length-ttl_field ttl_seconds,
      length-encode_le 8 total_size,
      length-encode_le 4 flags,
    )

length-write_payload :
    (key : List ℕ) (offset : ℕ) (buf : List ℕ)
    → length (write_payload key offset buf) ≡ 4 + length key + 12 + length buf
unfolding write_payload
length-write_payload key offset buf = omega (
  arith,
  length-append (key_field key) (encode_u64 offset ++ (encode_u32 (length buf) ++ buf)),
  length-key_field key,
  length-append (encode_u64 offset) (encode_u32 (length buf) ++ buf),
  length-append (encode_u32 (length buf)) buf,
  length-encode_le 8 offset,
  length-encode_le 4 (length buf),
)

no_overrun :
    (c : Client) (key : List ℕ) (started : Started)
    → (length key ≤ max_key → writes_past started ≡ false)
    → writes_past (checked c key started) ≡ ltb c.send_buffer_size 0
no_overrun c key started h = checked_safe c key started h ∙ ground arith

-- A ready client writes past its send buffer exactly where a delete or a finalize, which test the length of
-- no key, has a key that does not fit it; any other operation refuses what does not fit.
pub writes_past-start :
    (c : Client) (now : ℕ) (r : Request)
    → IsReady c
    → writes_past (start c now r) ≡ ltb c.send_buffer_size (untested r)
unfolding get_request put_request delete_request create_request write_request finalize_request
writes_past-start c now (get_of key offset size) ready = no_overrun c key _ (λ short.
    send_safe c Code.get now _ (omega (arith, length-get_payload key offset size, ready.send_room)))
writes_past-start c now (put_of key value ttl_seconds flags) ready = no_overrun c key _ (λ short.
    tested_safe c Code.put now _ _ (omega (arith, length-put_payload key value ttl_seconds flags)))
writes_past-start c now (delete_of key) ready =
    unchecked_past c Code.delete now key ready.is_connected
writes_past-start c now (create_of key total_size ttl_seconds flags) ready =
    no_overrun c key _ (λ short.
      send_safe c Code.create_sparse now _
        (omega (arith, length-create_payload key total_size ttl_seconds flags, ready.send_room)))
writes_past-start c now (write_of key offset buf) ready = no_overrun c key _ (λ short.
    tested_safe c Code.write_range now _ _ (omega (arith, length-write_payload key offset buf)))
writes_past-start c now (finalize_of key) ready =
    unchecked_past c Code.finalize now key ready.is_connected
