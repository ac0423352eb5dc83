-- ===== src/Codec/FieldReads.antt =====
-- Each decoding helper reads what its encoding helper writes.
use el_cache.Common.{
  ℕ, ◌%◌, ◌^◌, ◌≡◌, ◌<◌, refl, List, Bool, true, false, arith, length, length-append, take-append,
  drop-append, u32_mod, u64_mod,
}
use el_cache.Codec.Fields.{
  encode_u16, encode_u32, encode_u64, encode_string, flag, encode_node_info, decode_u16, decode_u32,
  decode_u64, take_bytes, decode_string, decode_flag, decode_node_info, NodeInfo,
}
use el_cache.Codec.Messages.{sent_info}
use el_cache.Codec.Reads.{Reads, Reads-bind, Reads-last}

pub Reads-u16 : (v : ℕ) → v < 2 ^ 16 → Reads decode_u16 (encode_u16 v) v
unfolding decode_u16 encode_u16
Reads-u16 v h = record { reads = λ rest. ground arith }

pub Reads-u32 : (v : ℕ) → v < u32_mod → Reads decode_u32 (encode_u32 v) v
unfolding decode_u32 encode_u32
Reads-u32 v h = record { reads = λ rest. ground arith }

pub Reads-u64 : (v : ℕ) → v < u64_mod → Reads decode_u64 (encode_u64 v) v
unfolding decode_u64 encode_u64
Reads-u64 v h = record { reads = λ rest. ground arith }

pub Reads-flag : (b : Bool) → Reads decode_flag (flag b) b
unfolding decode_flag flag
Reads-flag true = record { reads = λ rest. refl }
Reads-flag false = record { reads = λ rest. refl }

Reads-take_bytes : (str : List ℕ) → Reads (take_bytes (length str)) str str
unfolding take_bytes
Reads-take_bytes str = record {
  reads =
      λ rest. ground (arith, take-append str rest, drop-append str rest, length-append str rest);
}

pub Reads-string :
    (str : List ℕ) → length str < u32_mod → Reads decode_string (encode_string str) str
unfolding decode_string encode_string
Reads-string str h =
    let e : length str % u32_mod ≡ length str = omega arith in
    rw e (Reads-bind _ (Reads-u32 (length str) h) (Reads-take_bytes str))

-- The numbers of a node fit their types, and its address is shorter than 4 GB.
pub record NodeFits (n : NodeInfo) : Type 0 where
  pub id : n.id < u64_mod
  pub address : length n.address < u32_mod
  pub port : n.port < 2 ^ 16
  pub memory_capacity : n.memory_capacity < u64_mod
  pub memory_used : n.memory_used < u64_mod
  pub disk_capacity : n.disk_capacity < u64_mod
  pub disk_used : n.disk_used < u64_mod
  pub generation : n.generation < u64_mod
  pub state : n.state < u32_mod

pub Reads-node_info :
    (n : NodeInfo) → NodeFits n → Reads decode_node_info (encode_node_info n) (sent_info n)
unfolding decode_node_info encode_node_info
Reads-node_info n h = Reads-bind _ (Reads-u64 n.id h.id) (
    Reads-bind _ (Reads-string n.address h.address) (
      Reads-bind _ (Reads-u16 n.port h.port) (
        Reads-bind _ (Reads-u64 n.memory_capacity h.memory_capacity) (
          Reads-bind _ (Reads-u64 n.memory_used h.memory_used) (
            Reads-bind _ (Reads-u64 n.disk_capacity h.disk_capacity) (
              Reads-bind _ (Reads-u64 n.disk_used h.disk_used) (
                Reads-bind _ (Reads-u64 n.generation h.generation)
                  (Reads-last _ (Reads-u32 n.state h.state)))))))))
