-- ===== src/Codec/RoundTrip.antt =====
-- `decode` returns what travels of the message that `encode` was given, for the types that both know.
use el_cache.Common.{
  ℕ, ◌%◌, ◌≡◌, ◌<◌, refl, ap, subst, map, List, [], ◌∷◌, true, Option, none, some, arith, length,
  All, u32_mod, u64_mod,
}
use el_cache.Range.{Range}
use el_cache.Codec.Parsing.{Parser, ◌>>=◌, pure}
use el_cache.Codec.Fields.{
  encode_u64, encode_string, flag, encode_node_info, decode_flag, decode_many, decode_u64,
  decode_node_info, decode_string,
}
use el_cache.Codec.Messages.{
  Message, hello, hello_ack, gossip_push, get, get_response, put, put_response, delete,
  delete_response, check, check_response, get_chunk, get_chunk_response, error, other, Metadata,
  sent_metadata, sent_info, as_received,
}
use el_cache.Codec.Reads.{Reads, Reads-bind, Reads-last}
use el_cache.Codec.FieldReads.{
  Reads-u32, Reads-u64, Reads-flag, Reads-string, Reads-node_info, NodeFits,
}
use el_cache.Codec.{
  encode_option, encode_range, encode_metadata, encode_all, encode_list, type_code, encode_payload,
  decode_option, decode_range, decode_metadata, decode_list, decode_hello, decode_hello_ack,
  decode_gossip_push, decode_get, decode_get_response, decode_put, decode_put_response,
  decode_delete, decode_delete_response, decode_error, decode_payload,
}

-- A value `a` is read back as `g a`.
module _ {A : Type 0} (p : Parser A) (f : A → List ℕ) (g : A → A) (Fits : A → Type 0)
    (rule : (a : A) → Fits a → Reads p (f a) (g a)) where
  abbrev pub OptionFits : Option A → Type 0
  OptionFits none = Unit {0}
  OptionFits (some a) = Fits a

  abbrev pub optional : Option A → Option A
  optional none = none
  optional (some a) = some (g a)

  Reads-option :
      (o : Option A) → OptionFits o → Reads (decode_option p) (encode_option f o) (optional o)
  unfolding decode_option encode_option
  Reads-option none h = record { reads = λ rest. unfold ◌>>=◌ pure decode_flag flag in refl }
  Reads-option (some a) h = Reads-bind _ (Reads-flag true) (Reads-last _ (rule a h))

  Reads-many :
      (l : List A) → All Fits l → Reads (decode_many p (length l)) (encode_all f l) (map g l)
  unfolding decode_many encode_all
  Reads-many [] h = record { reads = λ rest. unfold pure in refl }
  Reads-many (a ∷ l) h = Reads-bind _ (rule a h.0) (Reads-last _ (Reads-many l h.1))

  Reads-list :
      (l : List A)
      → length l < u32_mod
      → All Fits l
      → Reads (decode_list p) (encode_list f l) (map g l)
  unfolding decode_list encode_list
  Reads-list l short h =
      let e : length l % u32_mod ≡ length l = omega arith in
      rw e (Reads-bind _ (Reads-u32 (length l) short) (Reads-many l h))

map_same : {A : Type 0} → (l : List A) → map (λ a. a) l ≡ l
map_same [] = refl
map_same (a ∷ l) = ap (◌∷◌ a) (map_same l)

abbrev pub RangeFits : Range → Type 0
RangeFits r = (r.offset < u64_mod) × (r.length < u64_mod)

Reads-range : (r : Range) → RangeFits r → Reads decode_range (encode_range r) r
unfolding decode_range encode_range
Reads-range r h = Reads-bind _ (Reads-u64 r.offset h.0) (Reads-last _ (Reads-u64 r.length h.1))

abbrev pub MetadataFits : Metadata → Type 0
MetadataFits m = (m.total_size < u64_mod) × (m.chunk_count < u64_mod) × (m.flags < u32_mod)

Reads-metadata :
    (m : Metadata) → MetadataFits m → Reads decode_metadata (encode_metadata m) (sent_metadata m)
unfolding decode_metadata encode_metadata
Reads-metadata m h =
    Reads-bind _ (Reads-u64 m.total_size h.0)
      (Reads-bind _ (Reads-u64 m.chunk_count h.1) (Reads-last _ (Reads-u32 m.flags h.2)))

abbrev pub Short : List ℕ → Type 0
Short str = length str < u32_mod

Reads-strings :
    (l : List (List ℕ))
    → length l < u32_mod
    → All Short l
    → Reads (decode_list decode_string) (encode_list encode_string l) l
Reads-strings l short h =
    subst (Reads (decode_list decode_string) (encode_list encode_string l)) (map_same l)
      (Reads-list decode_string encode_string (λ s. s) Short Reads-string l short h)

-- The message is of a type that `decode` knows, its numbers fit their types, and its texts and lists
-- have fewer than 2 ^ 32 items.
abbrev pub Fits : Message → Type 0
Fits (hello sender cluster caps) =
    NodeFits sender × Short cluster × (length caps < u32_mod) × All Short caps
Fits (hello_ack sender accepted reason) = NodeFits sender × Short reason
Fits (gossip_push sender nodes) = (sender < u64_mod) × (length nodes < u32_mod) × All NodeFits nodes
Fits (get key metadata_only none) = Short key
Fits (get key metadata_only (some r)) = Short key × RangeFits r
Fits (get_response result none bytes r) = (result < u32_mod) × Short bytes × RangeFits r
Fits (get_response result (some m) bytes r) =
    (result < u32_mod) × Short bytes × RangeFits r × MetadataFits m
Fits (put key bytes none flags) = Short key × Short bytes × (flags < u32_mod)
Fits (put key bytes (some ttl) flags) =
    Short key × Short bytes × (flags < u32_mod) × (ttl < u64_mod)
Fits (put_response code message) = (code < u32_mod) × Short message
Fits (delete key) = Short key
Fits (delete_response code existed) = code < u32_mod
Fits (error code message request) = (code < u32_mod) × Short message × (request < u32_mod)
Fits _ = ⊥

pub Reads-payload :
    (m : Message) → Fits m → Reads (decode_payload (type_code m)) (encode_payload m) (as_received m)
unfolding decode_payload type_code encode_payload
Reads-payload (hello sender cluster caps) h =
    unfold decode_hello in
    Reads-bind _ (Reads-node_info sender h.0)
      (Reads-bind _ (Reads-string cluster h.1) (Reads-last _ (Reads-strings caps h.2 h.3)))
Reads-payload (hello_ack sender accepted reason) h =
    unfold decode_hello_ack in
    Reads-bind _ (Reads-node_info sender h.0)
      (Reads-bind _ (Reads-flag accepted) (Reads-last _ (Reads-string reason h.1)))
Reads-payload (gossip_push sender nodes) h =
    unfold decode_gossip_push in
    Reads-bind _ (Reads-u64 sender h.0) (
      Reads-last _ (
        Reads-list decode_node_info encode_node_info sent_info NodeFits Reads-node_info nodes h.1
          h.2))
Reads-payload (get key metadata_only none) h =
    unfold decode_get in
    Reads-bind _ (Reads-string key h) (
      Reads-bind _ (Reads-flag metadata_only) (
        Reads-last _
          (Reads-option decode_range encode_range (λ r. r) RangeFits Reads-range none tt)))
Reads-payload (get key metadata_only (some r)) h =
    unfold decode_get in
    Reads-bind _ (Reads-string key h.0) (
      Reads-bind _ (Reads-flag metadata_only) (
        Reads-last _
          (Reads-option decode_range encode_range (λ r. r) RangeFits Reads-range (some r) h.1)))
Reads-payload (get_response result none bytes r) h =
    unfold decode_get_response in
    Reads-bind _ (Reads-u32 result h.0) (
      Reads-bind _
        (Reads-option decode_metadata encode_metadata sent_metadata MetadataFits Reads-metadata none
          tt)
        (Reads-bind _ (Reads-string bytes h.1) (Reads-last _ (Reads-range r h.2))))
Reads-payload (get_response result (some m) bytes r) h =
    unfold decode_get_response in
    Reads-bind _ (Reads-u32 result h.0) (
      Reads-bind _
        (Reads-option decode_metadata encode_metadata sent_metadata MetadataFits Reads-metadata
          (some m) h.3)
        (Reads-bind _ (Reads-string bytes h.1) (Reads-last _ (Reads-range r h.2))))
Reads-payload (put key bytes none flags) h =
    unfold decode_put in
    Reads-bind _ (Reads-string key h.0) (
      Reads-bind _ (Reads-string bytes h.1) (
        Reads-bind _
          (Reads-option decode_u64 encode_u64 (λ n. n) (λ n. n < u64_mod) Reads-u64 none tt)
          (Reads-last _ (Reads-u32 flags h.2))))
Reads-payload (put key bytes (some ttl) flags) h =
    unfold decode_put in
    Reads-bind _ (Reads-string key h.0) (
      Reads-bind _ (Reads-string bytes h.1) (
        Reads-bind _
          (Reads-option decode_u64 encode_u64 (λ n. n) (λ n. n < u64_mod) Reads-u64 (some ttl) h.3)
          (Reads-last _ (Reads-u32 flags h.2))))
Reads-payload (put_response code message) h =
    unfold decode_put_response in
    Reads-bind _ (Reads-u32 code h.0) (Reads-last _ (Reads-string message h.1))
Reads-payload (delete key) h = unfold decode_delete in Reads-last _ (Reads-string key h)
Reads-payload (delete_response code existed) h =
    unfold decode_delete_response in
    Reads-bind _ (Reads-u32 code h) (Reads-last _ (Reads-flag existed))
Reads-payload (error code message request) h =
    unfold decode_error in
    Reads-bind _ (Reads-u32 code h.0)
      (Reads-bind _ (Reads-string message h.1) (Reads-last _ (Reads-u32 request h.2)))
Reads-payload (check key range) h = absurd h
Reads-payload (check_response exists metadata ranges) h = absurd h
Reads-payload (get_chunk low high offset len) h = absurd h
Reads-payload (get_chunk_response found bytes) h = absurd h
Reads-payload other h = absurd h
