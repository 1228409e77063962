-- ===== src/Crypto/Verified.antt =====
-- What is signed is verified: one signature, the replies of the service, and a batch.
use nero_consensus.Prelude.{
  ℕ, ◌≡◌, refl, subst, ap, ◌∙◌, some, List, [], ◌∷◌, ◌++◌, length, inl, inr, take, All, map, arith,
}
use mathlib.Core.List.{append-nil, append_assoc}
use nero_consensus.Prelude.Result.{Result, ok, err, Result-cases}
use nero_consensus.Prelude.Bytes.{
  Bytes, AreBytes, drop, to_bytes, of_bytes, to_bytes-of_bytes, take-drop, length-take, length-drop,
  take-AreBytes, drop-AreBytes, take_all,
}
use nero_consensus.Random.{Rng}
use nero_consensus.Crypto.{Digest, PublicKey}
use nero_consensus.Crypto.Signatures.{
  Dalek, IsDalek, Signature, flatten, split, generate_keypair, sign_with, new_signature, verify,
  gather, verify_batch,
}
use nero_consensus.Crypto.Service.{Sender, run_service}

-- The bytes of a number of known width.
fixed_bytes :
    (width : ℕ) (bytes : Bytes)
    → AreBytes bytes
    → length bytes ≡ width
    → to_bytes width (of_bytes bytes) ≡ bytes
fixed_bytes width bytes h size =
    subst (λ w. to_bytes w (of_bytes bytes) ≡ bytes) size (to_bytes-of_bytes bytes h)

-- The two halves of a signature, put together.
flatten-split : (sig : Bytes) → AreBytes sig → length sig ≡ 64 → flatten (split sig) ≡ sig
unfolding flatten split
flatten-split sig h size =
    let rest = drop 32 sig in
    let behind : length rest ≡ 32 = omega (arith, length-drop 32 sig) in
    let second : take 32 rest ≡ rest = take_all 32 rest behind in
    ap (λ front. front ++ to_bytes 32 (of_bytes (take 32 rest)))
      (fixed_bytes 32 (take 32 sig) (take-AreBytes 32 sig h) (length-take 32 sig (omega arith)))
    ∙ ap (λ back. take 32 sig ++ back)
        (ap (λ x. to_bytes 32 (of_bytes x)) second
          ∙ fixed_bytes 32 rest (drop-AreBytes 32 sig h) behind)
    ∙ take-drop 32 sig

module _ (d : Dalek) where
  -- Each request has the reply of its sender, and the signature verifies.
  abbrev pub Answers : PublicKey → List (Digest × Sender) → List (Sender × Signature) → Type 0
  Answers key [] [] = Unit
  Answers key ((digest, sender) ∷ requests) ((to, s) ∷ replies) =
      (to ≡ sender) × (verify d s digest key ≡ ok tt) × Answers key requests replies
  Answers key _ _ = ⊥

module _ (d : Dalek) (law : IsDalek d) where
  new_signature-keypair :
      (keypair : d.Keypair) (digest : Digest)
      → new_signature d digest (of_bytes (d.keypair_to_bytes keypair))
        ≡ some (split (d.sig_to_bytes (d.sign keypair (to_bytes 32 digest))))
  unfolding new_signature
  new_signature-keypair keypair digest =
      let (kb, kl, kr) = law.keypair_bytes keypair in
      ap (sign_with d digest)
        (ap d.keypair_from_bytes (fixed_bytes 64 (d.keypair_to_bytes keypair) kb kl) ∙ kr)

  verify-split :
      (sig : d.Sig) (public : d.Public) (digest : Digest)
      → verify d (split (d.sig_to_bytes sig)) digest (of_bytes (d.public_to_bytes public))
        ≡ d.verify_strict public (to_bytes 32 digest) sig
  unfolding verify
  verify-split sig public digest =
      let (pb, pl, pr) = law.public_bytes public in
      let (sb, sl, sr) = law.sig_bytes sig in
      rw
        (
          flatten-split (d.sig_to_bytes sig) sb sl,
          sr,
          fixed_bytes 32 (d.public_to_bytes public) pb pl,
          pr,
        )
        refl

  -- A pair of keys signs any digest, so that its public key accepts it.
  signed :
      (rng : Rng) (digest : Digest)
      → (s : Signature) × (new_signature d digest (generate_keypair d rng).0.1 ≡ some s)
        × (verify d s digest (generate_keypair d rng).0.0 ≡ ok tt)
  unfolding generate_keypair
  signed rng digest =
      let keypair = (d.generate rng).0 in
      let sig = d.sign keypair (to_bytes 32 digest) in
      (
        split (d.sig_to_bytes sig),
        new_signature-keypair keypair digest,
        verify-split sig (d.public keypair) digest
            ∙ law.verify_strict-sign keypair (to_bytes 32 digest),
      )

  -- A signature service with a secret key that `generate_keypair` made answers every request, in
  -- the order of the requests, with a signature of the digest asked for that verifies with the
  -- public key made with it, as far as `ed25519_dalek` reads back its own bytes and accepts what
  -- it signed.
  pub run_service-Answers :
      (rng : Rng) (requests : List (Digest × Sender))
      → (replies : List (Sender × Signature)) × (run_service d (generate_keypair d rng).0.1 requests
          ≡ some replies)
        × Answers d (generate_keypair d rng).0.0 requests replies
  unfolding run_service
  run_service-Answers rng [] = ([], refl, tt)
  run_service-Answers rng ((digest, sender) ∷ requests) =
      let (s, made, verified) = signed rng digest in
      let (replies, sent, answers) = run_service-Answers rng requests in
      ((sender, s) ∷ replies, rw (made, sent) refl, (refl, verified, answers))

  refused : (e : d.CryptoError) → ¬ Path (Result d.CryptoError (Unit {0})) (err e) (ok tt)
  refused e h = cc

  -- The votes that verify, as a batch takes them.
  parsed :
      (digest : Digest) (key : PublicKey) (s : Signature)
      → verify d s digest key ≡ ok tt
      → (sig : d.Sig) × (public : d.Public) × (d.sig_from_bytes (flatten s) ≡ ok sig)
        × (d.public_from_bytes (to_bytes 32 key) ≡ ok public)
        × (d.verify_strict public (to_bytes 32 digest) sig ≡ ok tt)
  unfolding verify
  parsed digest key s verified = elim (Result-cases (d.sig_from_bytes (flatten s))) [
    | inl (sig, read) ↦ elim (Result-cases (d.public_from_bytes (to_bytes 32 key))) [
      | inl (public, known) ↦ (sig, public, read, known, rw (read, known) at verified)
      | inr (e, failed) ↦ absurd (refused e (rw (read, failed) at verified))
    ]
    | inr (e, failed) ↦ absurd (refused e (rw failed at verified))
  ]

  gather-verified :
      (digest : Digest) (votes : List (PublicKey × Signature)) (messages : List Bytes)
      (signatures : List d.Sig) (public_keys : List d.Public)
      → All (λ v. verify d v.1 digest v.0 ≡ ok tt) votes
      → (entries : List (Bytes × d.Sig × d.Public)) × (gather d digest
            (messages, signatures, public_keys)
            votes
          ≡ ok (
            messages ++ map (λ e. e.0) entries,
            signatures ++ map (λ e. e.1) entries,
            public_keys ++ map (λ e. e.2) entries,
          ))
        × All (λ e. d.verify_strict e.2 e.0 e.1 ≡ ok tt) entries
  unfolding gather
  gather-verified digest [] messages signatures public_keys all =
      ([], rw (append-nil messages, append-nil signatures, append-nil public_keys) refl, tt)
  gather-verified digest ((key, s) ∷ votes) messages signatures public_keys all =
      let message = to_bytes 32 digest in
      let (sig, public, read, known, accepted) = parsed digest key s all.0 in
      let (entries, gathered, rest) =
        gather-verified digest votes (messages ++ message ∷ []) (signatures ++ sig ∷ [])
          (public_keys ++ public ∷ []) all.1 in
      (
        (message, sig, public) ∷ entries,
        rw (read, known)
            (gathered
              ∙ rw
                  (
                    append_assoc messages (message ∷ []) (map (λ e. e.0) entries),
                    append_assoc signatures (sig ∷ []) (map (λ e. e.1) entries),
                    append_assoc public_keys (public ∷ []) (map (λ e. e.2) entries),
                  )
                  refl),
        (accepted, rest),
      )

  -- A batch of signatures of one digest, each of which verifies with its key, is accepted, since
  -- `ed25519_dalek` accepts a batch of signatures that it accepts one by one.
  pub verify_batch-All :
      (digest : Digest) (votes : List (PublicKey × Signature))
      → All (λ v. verify d v.1 digest v.0 ≡ ok tt) votes
      → verify_batch d digest votes ≡ ok tt
  unfolding verify_batch
  verify_batch-All digest votes all =
      let (entries, gathered, accepted) = gather-verified digest votes [] [] [] all in
      rw gathered (law.verify_batch-All entries accepted)
