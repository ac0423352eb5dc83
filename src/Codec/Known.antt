-- ===== src/Codec/Known.antt =====
-- Which messages `Codec::decode` (src/protocol/codec.cpp) can give at all.
use el_cache.Common.{ℕ, ◌≡◌, refl, ap, subst, Bool, true, false, List, ◌==◌, if◌then◌else◌, arith}
use el_cache.Codec.Parsing.{Parser, Result, ok, fail, unknown_type, ◌>>=◌, pure}
use el_cache.Codec.Messages.{Message, check, check_response, get_chunk, get_chunk_response, other}
use el_cache.Codec.{
  Header, parse_header, decode_payload, decode, decode_hello, decode_hello_ack, decode_gossip_push,
  decode_get, decode_get_response, decode_put, decode_put_response, decode_delete,
  decode_delete_response, decode_error,
}

-- The types that `decode` has a branch for.
abbrev pub IsKnown : Message → Type 0
IsKnown (check key range) = ⊥
IsKnown (check_response exists metadata ranges) = ⊥
IsKnown (get_chunk low high offset len) = ⊥
IsKnown (get_chunk_response found bytes) = ⊥
IsKnown other = ⊥
IsKnown _ = Unit {0}

-- Whatever a parser gives is of a known type.
abbrev Gives : Parser Message → Type 0
Gives p = (bytes rest : List ℕ) (m : Message) → p bytes ≡ ok (m, rest) → IsKnown m

bind-IsKnown :
    {A : Type 0} (f : A → Parser Message) (r : Result (A × List ℕ)) (rest : List ℕ) (m : Message)
    → ((a : A) → Gives (f a))
    → elim r [ ok (a, left) ↦ f a left | fail e ↦ fail e ] ≡ ok (m, rest)
    → IsKnown m
bind-IsKnown f (ok (a, left)) rest m h e = h a left rest m e
bind-IsKnown f (fail x) rest m h e = absurd (ground (arith, e))

Gives-bind :
    {A : Type 0} (p : Parser A) (f : A → Parser Message) → ((a : A) → Gives (f a)) → Gives (p >>= f)
unfolding ◌>>=◌
Gives-bind p f h bytes rest m e = bind-IsKnown f (p bytes) rest m h e

Gives-pure : (m : Message) → IsKnown m → Gives (pure m)
unfolding pure
Gives-pure m k bytes rest m' e =
    subst IsKnown (ap (λ r. elim r [ ok (a, left) ↦ a | fail x ↦ m ]) e) k

hello-Gives : Gives decode_hello
unfolding decode_hello
hello-Gives = Gives-bind _ _ (λ a. Gives-bind _ _ (λ b. Gives-bind _ _ (λ c. Gives-pure _ tt)))

hello_ack-Gives : Gives decode_hello_ack
unfolding decode_hello_ack
hello_ack-Gives = Gives-bind _ _ (λ a. Gives-bind _ _ (λ b. Gives-bind _ _ (λ c. Gives-pure _ tt)))

gossip_push-Gives : Gives decode_gossip_push
unfolding decode_gossip_push
gossip_push-Gives = Gives-bind _ _ (λ a. Gives-bind _ _ (λ b. Gives-pure _ tt))

get-Gives : Gives decode_get
unfolding decode_get
get-Gives = Gives-bind _ _ (λ a. Gives-bind _ _ (λ b. Gives-bind _ _ (λ c. Gives-pure _ tt)))

get_response-Gives : Gives decode_get_response
unfolding decode_get_response
get_response-Gives =
    Gives-bind _ _
      (λ a. Gives-bind _ _ (λ b. Gives-bind _ _ (λ c. Gives-bind _ _ (λ d. Gives-pure _ tt))))

put-Gives : Gives decode_put
unfolding decode_put
put-Gives =
    Gives-bind _ _
      (λ a. Gives-bind _ _ (λ b. Gives-bind _ _ (λ c. Gives-bind _ _ (λ d. Gives-pure _ tt))))

put_response-Gives : Gives decode_put_response
unfolding decode_put_response
put_response-Gives = Gives-bind _ _ (λ a. Gives-bind _ _ (λ b. Gives-pure _ tt))

delete-Gives : Gives decode_delete
unfolding decode_delete
delete-Gives = Gives-bind _ _ (λ a. Gives-pure _ tt)

delete_response-Gives : Gives decode_delete_response
unfolding decode_delete_response
delete_response-Gives = Gives-bind _ _ (λ a. Gives-bind _ _ (λ b. Gives-pure _ tt))

error-Gives : Gives decode_error
unfolding decode_error
error-Gives = Gives-bind _ _ (λ a. Gives-bind _ _ (λ b. Gives-bind _ _ (λ c. Gives-pure _ tt)))

nothing-Gives : Gives (λ bytes. fail unknown_type)
nothing-Gives bytes rest m e = absurd (ground (arith, e))

if-Gives : (b : Bool) (p q : Parser Message) → Gives p → Gives q → Gives (if b then p else q)
if-Gives true p q h k = h
if-Gives false p q h k = k

payload-Gives : (t : ℕ) → Gives (decode_payload t)
unfolding decode_payload
payload-Gives t = if-Gives (t == 0x0001) _ _ hello-Gives (
    if-Gives (t == 0x0002) _ _ hello_ack-Gives (
      if-Gives (t == 0x0010) _ _ gossip_push-Gives (
        if-Gives (t == 0x0100) _ _ get-Gives (
          if-Gives (t == 0x0101) _ _ get_response-Gives (
            if-Gives (t == 0x0102) _ _ put-Gives (
              if-Gives (t == 0x0103) _ _ put_response-Gives (
                if-Gives (t == 0x0104) _ _ delete-Gives (
                  if-Gives (t == 0x0105) _ _ delete_response-Gives
                    (if-Gives (t == 0xFFFF) _ _ error-Gives nothing-Gives)))))))))

-- The rest of `decode`, behind the payload and behind the header.
abbrev with_header : Header → Result (Message × List ℕ) → Result (Message × Header)
with_header hdr r = elim r [ fail e ↦ fail e | ok (msg, left) ↦ ok (msg, hdr) ]

abbrev behind_header : Result (Header × List ℕ) → Result (Message × Header)
behind_header r = elim r [
  | fail e ↦ fail e
  | ok (hdr, rest) ↦ with_header hdr (decode_payload hdr.message_type rest)
]

message_or : Message → Result (Message × Header) → Message
message_or x r = elim r [ ok (a, left) ↦ a | fail y ↦ x ]

decoded-IsKnown :
    (hdr : Header) (m : Message) (h : Header) (r : Result (Message × List ℕ))
    → ((left : List ℕ) (x : Message) → r ≡ ok (x, left) → IsKnown x)
    → with_header hdr r ≡ ok (m, h)
    → IsKnown m
unfolding message_or
decoded-IsKnown hdr m h (ok (x, left)) k e = subst IsKnown (ap (message_or x) e) (k left x refl)
decoded-IsKnown hdr m h (fail y) k e = absurd (ground (arith, e))

parsed-IsKnown :
    (m : Message) (h : Header) (r : Result (Header × List ℕ))
    → behind_header r ≡ ok (m, h)
    → IsKnown m
parsed-IsKnown m h (ok (hdr, rest)) e =
    decoded-IsKnown hdr m h (decode_payload hdr.message_type rest)
      (λ left x e'. payload-Gives hdr.message_type rest left x e') e
parsed-IsKnown m h (fail x) e = absurd (ground (arith, e))

-- Whatever bytes arrive, a message that `decode` gives is none of the types it has no branch for.
pub decode-IsKnown :
    (bytes : List ℕ) (m : Message) (h : Header) → decode bytes ≡ ok (m, h) → IsKnown m
unfolding decode
decode-IsKnown bytes m h e = parsed-IsKnown m h (parse_header bytes) e
