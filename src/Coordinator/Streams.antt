-- ===== src/Coordinator/Streams.antt =====
-- `WriteStreamImpl` and `ReadStreamImpl` (src/cache/cache_coordinator.cpp): values that are written and
-- read in pieces.
use el_cache.Common.{
  Option, none, some, ℕ, zero, suc, ◌+◌, ◌-◌, ◌≡◌, ◌≤◌, ◌<◌, refl, ◌∙◌, sym, Bool, true, List, [],
  ◌∷◌, ◌++◌, leb, ◌==◌, if◌then◌else◌, length, take, drop, min, add64, arith, Bool-cases, inl, inr,
  length-drop, take-append-drop, drop-drop, take-min_append, ◌↔◌,
}
use mathlib.Core.List.{append_assoc, append-nil}
use el_cache.Range.{chunk_size}
use el_cache.Memory.Split.{joined}
use el_cache.Memory.{ReadOptions, miss}
use el_cache.Coordinator.{Layer, Remote, Coordinator, get}

pub record WriteStream : Type 0 where
  pub written : ℕ
  pub buffer : List ℕ
  pub chunks : List (List ℕ)

abbrev pub new_stream : WriteStream
new_stream = record { written = 0; buffer = []; chunks = [] }

-- The loop of `write`: whole chunks leave the buffer.
unfoldable pub flush : ℕ → List ℕ → List (List ℕ) → List ℕ × List (List ℕ)
flush zero buffer chunks = (buffer, chunks)
flush (suc fuel) buffer chunks =
    let rest = flush fuel (drop chunk_size buffer) (chunks ++ (take chunk_size buffer ∷ [])) in
    if leb chunk_size (length buffer) then rest else (buffer, chunks)

-- A round takes a byte at least from the buffer, so its length is fuel enough.
unfoldable pub write : WriteStream → List ℕ → WriteStream
write s chunk =
    let buffer : List ℕ = s.buffer ++ chunk in
    let (buffer', chunks) = flush (length buffer) buffer s.chunks in
    record { written = add64 s.written (length chunk); buffer = buffer'; chunks = chunks }

-- `finish` up to its call of `put`: the stream afterwards, and the value that is put.
unfoldable pub finish : WriteStream → WriteStream × List ℕ
finish s =
    let chunks : List (List ℕ) =
      if length s.buffer == 0 then s.chunks else s.chunks ++ (s.buffer ∷ []) in
    (record s { buffer = []; chunks = chunks }, joined chunks)

unfoldable pub abort : WriteStream → WriteStream
abort s = record s { buffer = []; chunks = [] }

unfoldable pub write_all : WriteStream → List (List ℕ) → WriteStream
write_all s [] = s
write_all s (piece ∷ pieces) = write_all (write s piece) pieces

joined-append : (xs ys : List (List ℕ)) → joined (xs ++ ys) ≡ joined xs ++ joined ys
joined-append [] ys = refl
joined-append (x ∷ xs) ys = rw (joined-append xs ys, append_assoc x (joined xs) (joined ys)) refl

joined_one : (x : List ℕ) → joined (x ∷ []) ≡ x
joined_one x = append-nil x

-- The bytes that a stream holds.
abbrev pub held : WriteStream → List ℕ
held s = joined s.chunks ++ s.buffer

flush-held :
    (fuel : ℕ) (buffer : List ℕ) (chunks : List (List ℕ))
    → joined (flush fuel buffer chunks).1 ++ (flush fuel buffer chunks).0 ≡ joined chunks ++ buffer
unfolding flush
flush-held zero buffer chunks = refl
flush-held (suc fuel) buffer chunks = elim (Bool-cases (leb chunk_size (length buffer))) [
  | inr small ↦ rw (small, flush) refl
  | inl full ↦
      rw (full, flush)
        (flush-held fuel (drop chunk_size buffer) (chunks ++ (take chunk_size buffer ∷ []))
          ∙ rw
              (
                joined-append chunks (take chunk_size buffer ∷ []),
                joined_one (take chunk_size buffer),
                append_assoc (joined chunks) (take chunk_size buffer) (drop chunk_size buffer),
                take-append-drop chunk_size buffer,
              )
              refl)
]

flush-bound :
    (fuel : ℕ) (buffer : List ℕ) (chunks : List (List ℕ))
    → length buffer ≤ fuel
    → length (flush fuel buffer chunks).0 < chunk_size
unfolding flush
flush-bound zero buffer chunks h = omega arith
flush-bound (suc fuel) buffer chunks h = elim (Bool-cases (leb chunk_size (length buffer))) [
  | inr small ↦ rw (small, flush) (ground arith)
  | inl full ↦
      rw (full, flush)
        (flush-bound fuel (drop chunk_size buffer) (chunks ++ (take chunk_size buffer ∷ []))
          (ground (arith, length-drop chunk_size buffer)))
]

write-held : (s : WriteStream) (chunk : List ℕ) → held (write s chunk) ≡ held s ++ chunk
unfolding write
write-held s chunk =
    flush-held (length (s.buffer ++ chunk)) (s.buffer ++ chunk) s.chunks
    ∙ sym (append_assoc (joined s.chunks) s.buffer chunk)

write_all-held :
    (s : WriteStream) (pieces : List (List ℕ)) → held (write_all s pieces) ≡ held s ++ joined pieces
unfolding write_all
write_all-held s [] = sym (append-nil (held s))
write_all-held s (piece ∷ pieces) =
    write_all-held (write s piece) pieces
    ∙ rw (write-held s piece, append_assoc (held s) piece (joined pieces)) refl

empty_list : (l : List ℕ) → length l ≡ 0 → l ≡ []
empty_list [] h = refl
empty_list (x ∷ l) h = absurd (omega arith)

finish-held : (s : WriteStream) → (finish s).1 ≡ held s
unfolding finish
finish-held s = elim (Bool-cases (length s.buffer == 0)) [
  | inl none_left ↦
      rw (none_left, finish, empty_list s.buffer (ground arith))
        (sym (append-nil (joined s.chunks)))
  | inr rest ↦ rw (rest, finish, joined-append s.chunks (s.buffer ∷ []), joined_one s.buffer) refl
]

-- However a value is cut into the pieces that are written, `finish` puts the whole value; and between
-- two writes the buffer is shorter than a chunk.
pub finish-write_all :
    (pieces : List (List ℕ)) (last : List ℕ)
    → ((finish (write_all new_stream pieces)).1 ≡ joined pieces)
      × (length (write (write_all new_stream pieces) last).buffer < chunk_size)
unfolding write
finish-write_all pieces last =
    let s : WriteStream = write_all new_stream pieces in
    (
      finish-held s ∙ write_all-held new_stream pieces,
      flush-bound (length (s.buffer ++ last)) (s.buffer ++ last) s.chunks (omega arith),
    )

pub record ReadStream : Type 0 where
  pub data_bytes : List ℕ
  pub total_size : ℕ
  pub position : ℕ

unfoldable pub read_some : ReadStream → ℕ → ReadStream × List ℕ
read_some s max_bytes =
    let available : ℕ = length s.data_bytes - s.position in
    let to_read : ℕ = min max_bytes available in
    (record s { position = s.position + to_read }, take to_read (drop s.position s.data_bytes))

unfoldable pub eof : ReadStream → Bool
eof s = leb (length s.data_bytes) s.position

-- `create_read_stream`: no stream for a miss, and else one over the bytes of the answer.
module _ {K : Type 0} (m d : Layer K) (c : Remote K) where
  unfoldable pub create_read_stream :
      Coordinator m d c → K → ReadOptions → Coordinator m d c × Option ReadStream
  create_read_stream s key opts =
      let (s', r) = get m d c s key opts in
      let size : ℕ = elim r.metadata [ none ↦ length r.data_bytes | some a ↦ a.total_size ] in
      let stream : ReadStream = record {
        data_bytes = r.data_bytes;
        total_size = size;
        position = 0;
      } in
      (s', elim r.result [ miss ↦ none | _ ↦ some stream ])

-- Reads one after another, with what they return.
unfoldable pub read_all : ReadStream → List ℕ → ReadStream × List (List ℕ)
read_all s [] = (s, [])
read_all s (max_bytes ∷ rest) =
    let (s', bytes) = read_some s max_bytes in
    let (s'', more) = read_all s' rest in (s'', bytes ∷ more)

abbrev pub total : List ℕ → ℕ
total [] = 0
total (n ∷ l) = n + total l

-- Whatever sizes are asked for, one read after another returns the bytes that follow the position, as
-- many as were asked for or are left, and the stream is at its end exactly when none are left.
pub read_all-slice :
    (sizes : List ℕ) (s : ReadStream)
    → s.position ≤ length s.data_bytes
    → (joined (read_all s sizes).1 ≡ take (total sizes) (drop s.position s.data_bytes))
      × ((eof (read_all s sizes).0 ≡ true) ↔ (length s.data_bytes ≤ s.position + total sizes))
unfolding read_all read_some eof
read_all-slice [] s h = (refl, (λ e. ground (arith, e), λ e. ground (arith, e)))
read_all-slice (n ∷ sizes) s h =
    let D : List ℕ = drop s.position s.data_bytes in
    let len = length-drop s.position s.data_bytes in
    let m : ℕ = min n (length s.data_bytes - s.position) in
    let e : m ≡ min n (length D) = omega (arith, len) in
    let s' : ReadStream = record s { position = s.position + m } in
    let (bytes, (f, g)) = read_all-slice sizes s' (omega arith) in
    (
      rw (bytes, ← drop-drop s.position m s.data_bytes, e) (take-min_append n (total sizes) D),
      (λ x. omega (arith, f x), λ x. g (omega arith)),
    )
