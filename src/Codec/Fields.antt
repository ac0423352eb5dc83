-- ===== src/Codec/Fields.antt =====
-- The encoding and decoding helpers of `Codec`, and `NodeInfo`. The bytes that `|` joins are shifted to
-- places of their own, so `|` is the sum.
use el_cache.Common.{
  ℕ, zero, suc, ◌+◌, ◌*◌, ◌/◌, ◌%◌, ◌^◌, Bool, not, List, [], ◌∷◌, ◌++◌, ltb, ◌==◌, if◌then◌else◌,
  length, take, drop, u32_mod,
}
use el_cache.Codec.Parsing.{Parser, ok, fail, truncated, read_past_end, ◌>>=◌, pure}

unfoldable pub encode_u16 : ℕ → List ℕ
encode_u16 v = (v % 256) ∷ (v / 2 ^ 8 % 256) ∷ []

unfoldable pub encode_u32 : ℕ → List ℕ
encode_u32 v = (v % 256) ∷ (v / 2 ^ 8 % 256) ∷ (v / 2 ^ 16 % 256) ∷ (v / 2 ^ 24 % 256) ∷ []

-- The loop of `encode_u64` from byte `i`.
unfoldable pub encode_bytes_from : ℕ → ℕ → ℕ → List ℕ
encode_bytes_from zero i v = []
encode_bytes_from (suc n) i v = (v / 2 ^ (i * 8) % 256) ∷ encode_bytes_from n (suc i) v

unfoldable pub encode_u64 : ℕ → List ℕ
unfolding encode_bytes_from
encode_u64 v = encode_bytes_from 8 0 v

-- `encode_string` and `encode_bytes`: the length as a `uint32_t`, then the bytes.
unfoldable pub encode_string : List ℕ → List ℕ
encode_string str = encode_u32 (length str % u32_mod) ++ str

unfoldable pub flag : Bool → List ℕ
flag b = (if b then 1 else 0) ∷ []

unfoldable pub decode_u16 : Parser ℕ
decode_u16 (a ∷ b ∷ rest) = ok (a + b * 2 ^ 8, rest)
decode_u16 _ = fail truncated

unfoldable pub decode_u32 : Parser ℕ
decode_u32 (a ∷ b ∷ c ∷ d ∷ rest) = ok (a + b * 2 ^ 8 + c * 2 ^ 16 + d * 2 ^ 24, rest)
decode_u32 _ = fail truncated

-- The loop of `decode_u64` from byte `i`.
unfoldable pub decode_bytes_from : ℕ → ℕ → ℕ → List ℕ → ℕ
decode_bytes_from zero i v bytes = v
decode_bytes_from (suc n) i v [] = v
decode_bytes_from (suc n) i v (b ∷ bytes) = decode_bytes_from n (suc i) (v + b * 2 ^ (i * 8)) bytes

unfoldable pub decode_u64 : Parser ℕ
unfolding decode_bytes_from
decode_u64 bytes =
    if ltb (length bytes) 8
    then fail truncated
    else ok (decode_bytes_from 8 0 0 bytes, drop 8 bytes)

-- The bytes of a string, once its length is read.
unfoldable pub take_bytes : ℕ → Parser (List ℕ)
take_bytes len bytes =
    if ltb (length bytes) len then fail truncated else ok (take len bytes, drop len bytes)

-- `decode_string` and `decode_bytes`.
unfoldable pub decode_string : Parser (List ℕ)
unfolding decode_u32 take_bytes
decode_string = decode_u32 >>= λ len. take_bytes len

-- `data[0] != 0`, and one byte further; the length is not tested.
unfoldable pub decode_flag : Parser Bool
decode_flag [] = fail read_past_end
decode_flag (b ∷ rest) = ok (not (b == 0), rest)

-- A loop of `count` rounds that collects what it decodes.
unfoldable pub decode_many : {A : Type 0} → Parser A → ℕ → Parser (List A)
decode_many p zero = pure []
decode_many p (suc count) = do a ← p; l ← decode_many p count; pure (a ∷ l)

pub record NodeInfo : Type 0 where
  pub id : ℕ
  pub address : List ℕ
  pub port : ℕ
  pub memory_capacity : ℕ
  pub memory_used : ℕ
  pub disk_capacity : ℕ
  pub disk_used : ℕ
  pub generation : ℕ
  pub state : ℕ
  pub last_seen : ℕ

unfoldable pub encode_node_info : NodeInfo → List ℕ
encode_node_info n =
    encode_u64 n.id
    ++ (encode_string n.address
        ++ (encode_u16 n.port
            ++ (encode_u64 n.memory_capacity
                ++ (encode_u64 n.memory_used
                    ++ (encode_u64 n.disk_capacity
                        ++ (encode_u64 n.disk_used
                            ++ (encode_u64 n.generation ++ encode_u32 n.state)))))))

-- `last_seen` is the epoch, as a `Timestamp` is made.
unfoldable pub decode_node_info : Parser NodeInfo
decode_node_info = do
  id ← decode_u64
  address ← decode_string
  port ← decode_u16
  memory_capacity ← decode_u64
  memory_used ← decode_u64
  disk_capacity ← decode_u64
  disk_used ← decode_u64
  generation ← decode_u64
  state ← decode_u32
  pure (record {
    id = id;
    address = address;
    port = port;
    memory_capacity = memory_capacity;
    memory_used = memory_used;
    disk_capacity = disk_capacity;
    disk_used = disk_used;
    generation = generation;
    state = state;
    last_seen = 0;
  })
