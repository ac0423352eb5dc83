-- ===== src/Cluster/Answers.antt =====
-- What the remote operations of the cluster (src/network/cluster.cpp) can make of an answer.
use el_cache.Common.{ℕ, ◌≡◌, List, Completion, returned, threw}
use el_cache.Range.{Range}
use el_cache.Codec.Messages
use el_cache.Codec.Messages.{Message, Metadata, get_response}
use el_cache.Codec.Known.{IsKnown}
use el_cache.Cluster.Remote.{Received, message, nothing, thrown, Exchange, response, failed}

-- What is received, and what is answered, is of a type that `decode` has a branch for.
abbrev AllKnown : Received → Type 0
AllKnown r = (m : Message) (rest : List ℕ) → r ≡ message m rest → IsKnown m

abbrev Answers : Exchange → Type 0
Answers e = (m : Message) → e ≡ response m → IsKnown m

message_or : Message → Received → Message
message_or x r = elim r [ message m rest ↦ m | nothing ↦ x | thrown ↦ x ]

response_or : Message → Exchange → Message
response_or x e = elim e [ response m ↦ m | _ ↦ x ]

-- No answer: the exception, or else the result `a`.
abbrev pub unanswered : {A : Type 0} → A → Exchange → Completion A
unanswered a failed = threw
unanswered a _ = returned a
