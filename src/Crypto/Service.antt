-- ===== src/Crypto/Service.antt =====
-- crypto/src/lib.rs, `SignatureService`: the task that signs digests, one after the other.
use nero_consensus.Prelude.{ℕ, Option, some, List, [], ◌∷◌, ◌++◌, ◌>>=◌, nat_eq}
use nero_consensus.Prelude.Map.{get}
use nero_consensus.Crypto.{Digest, SecretKey}
use nero_consensus.Crypto.Signatures.{Dalek, Signature, new_signature}

-- A oneshot sender, by its number.
abbrev pub Sender : Type 0
Sender = ℕ

module _ (d : Dalek) where
  -- The loop of the task: what goes to each sender, or `none` where the task panics.
  unfoldable pub run_service :
      SecretKey → List (Digest × Sender) → Option (List (Sender × Signature))
  unfolding new_signature
  run_service secret [] = some []
  run_service secret ((digest, sender) ∷ requests) = do
    signature ← new_signature d digest secret
    replies ← run_service secret requests
    some ((sender, signature) ∷ replies)

  -- `request_signature`, behind the requests that wait already: a task that is gone makes it panic.
  unfoldable pub request_signature :
      SecretKey → List (Digest × Sender) → Sender → Digest → Option Signature
  unfolding run_service get
  request_signature secret waiting sender digest = do
    replies ← run_service secret (waiting ++ (digest, sender) ∷ [])
    get sender replies
