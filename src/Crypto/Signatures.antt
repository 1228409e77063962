-- ===== src/Crypto/Signatures.antt =====
-- crypto/src/lib.rs, `Signature`: how a digest is signed, and how signatures are verified, one by
-- one and in a batch.
use nero_consensus.Prelude.{ℕ, ◌≡◌, Option, none, some, List, [], ◌∷◌, ◌++◌, length, take, All, map}
use nero_consensus.Prelude.Result.{Result, ok, err, and_then}
use nero_consensus.Prelude.Bytes.{Bytes, AreBytes, drop, to_bytes, of_bytes}
use nero_consensus.Random.{Rng}
use nero_consensus.Crypto.{Digest, PublicKey, SecretKey}

-- The crate `ed25519_dalek`.
pub record Dalek : Type 1 where
  pub Keypair : Type 0
  pub Public : Type 0
  pub Sig : Type 0
  pub CryptoError : Type 0
  pub generate : Rng → Keypair × Rng
  pub public : Keypair → Public
  pub keypair_to_bytes : Keypair → Bytes
  pub keypair_from_bytes : Bytes → Result CryptoError Keypair
  pub public_to_bytes : Public → Bytes
  pub public_from_bytes : Bytes → Result CryptoError Public
  pub sig_to_bytes : Sig → Bytes
  pub sig_from_bytes : Bytes → Result CryptoError Sig
  pub sign : Keypair → Bytes → Sig
  pub verify_strict : Public → Bytes → Sig → Result CryptoError (Unit {0})
  pub verify_batch : List Bytes → List Sig → List Public → Result CryptoError (Unit {0})

-- What its documentation promises: the bytes of keys and signatures, as many as their types say,
-- are read back; what a pair of keys signs, its public key accepts; and a batch of signatures that
-- are accepted one by one is accepted.
pub record IsDalek (d : Dalek) : Type 0 where
  pub keypair_bytes :
      (k : d.Keypair)
      → AreBytes (d.keypair_to_bytes k)
        × (length (d.keypair_to_bytes k) ≡ 64)
        × (d.keypair_from_bytes (d.keypair_to_bytes k) ≡ ok k)
  pub public_bytes :
      (k : d.Public)
      → AreBytes (d.public_to_bytes k)
        × (length (d.public_to_bytes k) ≡ 32)
        × (d.public_from_bytes (d.public_to_bytes k) ≡ ok k)
  pub sig_bytes :
      (s : d.Sig)
      → AreBytes (d.sig_to_bytes s)
        × (length (d.sig_to_bytes s) ≡ 64)
        × (d.sig_from_bytes (d.sig_to_bytes s) ≡ ok s)
  pub verify_strict-sign :
      (k : d.Keypair) (message : Bytes)
      → d.verify_strict (d.public k) message (d.sign k message) ≡ ok tt
  pub verify_batch-All :
      (entries : List (Bytes × d.Sig × d.Public))
      → All (λ e. d.verify_strict e.2 e.0 e.1 ≡ ok tt) entries
      → d.verify_batch (map (λ e. e.0) entries) (map (λ e. e.1) entries) (map (λ e. e.2) entries)
        ≡ ok tt

pub record Signature : Type 0 where
  pub part1 : ℕ
  pub part2 : ℕ

-- `flatten`
unfoldable pub flatten : Signature → Bytes
flatten s = to_bytes 32 s.part1 ++ to_bytes 32 s.part2

-- The two slices of `Signature::new`.
unfoldable pub split : Bytes → Signature
split sig = record { part1 = of_bytes (take 32 sig); part2 = of_bytes (take 32 (drop 32 sig)) }

module _ (d : Dalek) where
  unfoldable pub generate_keypair : Rng → (PublicKey × SecretKey) × Rng
  generate_keypair rng =
      let (keypair, rng1) = d.generate rng in
      (
        (of_bytes (d.public_to_bytes (d.public keypair)), of_bytes (d.keypair_to_bytes keypair)),
        rng1,
      )

  -- `expect("Unable to load secret key")`, and the signature with the key.
  abbrev pub sign_with : Digest → Result d.CryptoError d.Keypair → Option Signature
  sign_with digest (err e) = none
  sign_with digest (ok keypair) =
      some (split (d.sig_to_bytes (d.sign keypair (to_bytes 32 digest))))

  -- `Signature::new`
  unfoldable pub new_signature : Digest → SecretKey → Option Signature
  unfolding split
  new_signature digest secret = sign_with digest (d.keypair_from_bytes (to_bytes 64 secret))

  unfoldable pub verify : Signature → Digest → PublicKey → Result d.CryptoError (Unit {0})
  unfolding flatten
  verify s digest public_key = and_then (d.sig_from_bytes (flatten s)) (λ signature.
      and_then (d.public_from_bytes (to_bytes 32 public_key))
        (λ key. d.verify_strict key (to_bytes 32 digest) signature))

  -- The three vectors of `verify_batch`.
  abbrev Batch : Type 0
  Batch = List Bytes × List d.Sig × List d.Public

  -- The loop of `verify_batch`.
  unfoldable pub gather : Digest → Batch → List (PublicKey × Signature) → Result d.CryptoError Batch
  unfolding flatten
  gather digest batch [] = ok batch
  gather digest (messages, signatures, public_keys) ((key, sig) ∷ votes) =
      and_then (d.sig_from_bytes (flatten sig)) (λ signature.
        and_then (d.public_from_bytes (to_bytes 32 key)) (λ public_key.
          gather digest
            (
              messages ++ to_bytes 32 digest ∷ [],
              signatures ++ signature ∷ [],
              public_keys ++ public_key ∷ [],
            )
            votes))

  unfoldable pub verify_batch :
      Digest → List (PublicKey × Signature) → Result d.CryptoError (Unit {0})
  unfolding gather
  verify_batch digest votes =
      and_then (gather digest ([], [], []) votes)
        (λ (messages, signatures, public_keys). d.verify_batch messages signatures public_keys)
