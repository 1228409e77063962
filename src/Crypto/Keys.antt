-- ===== src/Crypto/Keys.antt =====
-- crypto/src/lib.rs, `PublicKey`, `SecretKey`: the text of a key, and what comes back from a text.
use nero_consensus.Prelude.{
  ℕ, ◌^◌, ◌≤◌, ◌<◌, ◌≡◌, refl, sym, ap, subst, ◌∙◌, ◌⊎◌, inl, inr, Option, none, some, [], ◌++◌,
  arith, length, length-append, take, leb, ◌==◌, nat_eq, if◌then◌else◌, Bool-cases, true,
}
use nero_consensus.Prelude.Result.{Result, ok, err, try_then, Result-cases}
use mathlib.Core.List.{append-nil}
use nero_consensus.Prelude.Bytes.{
  Bytes, AreBytes, to_bytes, of_bytes, length-to_bytes, to_bytes-AreBytes, of_bytes-to_bytes,
  to_bytes-of_bytes, take-append, length-take, take-AreBytes,
}
use nero_consensus.Crypto.{Digest, PublicKey, SecretKey}

-- The crate `base64`: a text is its bytes.
pub record Base64 : Type 1 where
  pub DecodeError : Type 0
  pub encode : Bytes → Bytes
  pub decode : Bytes → Result DecodeError Bytes

-- What its documentation promises: a text that it made is read back, and what it reads are bytes.
pub record IsBase64 (b : Base64) : Type 0 where
  pub decode-encode : (bytes : Bytes) → AreBytes bytes → b.decode (b.encode bytes) ≡ ok bytes
  pub decode-AreBytes : (text bytes : Bytes) → b.decode text ≡ ok bytes → AreBytes bytes

-- `Digest::to_vec`
unfoldable pub to_vec : Digest → Bytes
to_vec digest = to_bytes 32 digest

-- `Digest::try_from`
unfoldable pub try_from : Bytes → Option Digest
try_from item = if length item == 32 then some (of_bytes item) else none

try_from-to_vec : (digest : Digest) → digest < 256 ^ 32 → try_from (to_vec digest) ≡ some digest
unfolding try_from to_vec
try_from-to_vec digest fits =
    let exact : (length (to_bytes 32 digest) == 32) ≡ true = rw (length-to_bytes 32 digest) refl in
    rw exact (ap some (of_bytes-to_bytes 32 digest fits))

module _ (b : Base64) where
  -- `bytes[..width].try_into()`: the slice panics when it is short, and then has the right length.
  unfoldable pub array_of : ℕ → Bytes → Option (Result b.DecodeError ℕ)
  array_of width bytes =
      if leb width (length bytes) then some (ok (of_bytes (take width bytes))) else none

  -- `PublicKey::encode_base64`
  unfoldable pub encode_public : PublicKey → Bytes
  encode_public key = b.encode (to_bytes 32 key)

  -- `PublicKey::decode_base64`
  unfoldable pub decode_public : Bytes → Option (Result b.DecodeError PublicKey)
  unfolding array_of
  decode_public text = try_then (b.decode text) (array_of 32)

  -- `SecretKey::encode_base64`
  unfoldable pub encode_secret : SecretKey → Bytes
  encode_secret key = b.encode (to_bytes 64 key)

  -- `SecretKey::decode_base64`
  unfoldable pub decode_secret : Bytes → Option (Result b.DecodeError SecretKey)
  unfolding array_of
  decode_secret text = try_then (b.decode text) (array_of 64)

  array_of-append :
      (width n : ℕ) (rest : Bytes)
      → n < 256 ^ width
      → array_of width (to_bytes width n ++ rest) ≡ some (ok n)
  unfolding array_of
  array_of-append width n rest fits =
      let exact = length-to_bytes width n in
      let long : leb width (length (to_bytes width n ++ rest)) ≡ true =
        ground (arith, length-append (to_bytes width n) rest) in
      rw (long, take-append width (to_bytes width n) rest exact, of_bytes-to_bytes width n fits)
        refl

  -- What `array_of` makes of any bytes.
  array_of_cases :
      (width : ℕ) (bytes : Bytes)
      → AreBytes bytes
      → ((length bytes < width) × (array_of width bytes ≡ none))
        ⊎ ((n : ℕ) × (array_of width bytes ≡ some (ok n))
            × (to_bytes width n ≡ take width bytes)
            × (width ≤ length bytes))
  unfolding array_of
  array_of_cases width bytes h = elim (Bool-cases (leb width (length bytes))) [
    | inl long ↦
        let enough : width ≤ length bytes = ground arith in
        let front = to_bytes-of_bytes (take width bytes) (take-AreBytes width bytes h) in
        inr (
          of_bytes (take width bytes),
          rw long refl,
          subst (λ w. to_bytes w (of_bytes (take width bytes)) ≡ take width bytes)
              (length-take width bytes enough) front,
          enough,
        )
    | inr short ↦ inl (ground arith, rw short refl)
  ]

  -- The three things that may come of a text for a key of this many bytes.
  pub data Decoded (width : ℕ) (text : Bytes) (outcome : Option (Result b.DecodeError ℕ))
      : Type 0 where
    unreadable :
        (e : b.DecodeError)
        → b.decode text ≡ err e
        → outcome ≡ some (err e)
        → Decoded width text outcome
    short :
        (bytes : Bytes)
        → b.decode text ≡ ok bytes
        → length bytes < width
        → outcome ≡ none
        → Decoded width text outcome
    long :
        (bytes : Bytes) (n : ℕ)
        → b.decode text ≡ ok bytes
        → width ≤ length bytes
        → to_bytes width n ≡ take width bytes
        → outcome ≡ some (ok n)
        → Decoded width text outcome

  outcome_cases :
      IsBase64 b
      → (width : ℕ) (text : Bytes) → Decoded width text (try_then (b.decode text) (array_of width))
  outcome_cases law width text = elim (Result-cases (b.decode text)) [
    | inl (bytes, read) ↦ elim (array_of_cases width bytes (law.decode-AreBytes text bytes read)) [
      | inl (less, panics) ↦ short bytes read less (rw read panics)
      | inr (n, done, front, enough) ↦ long bytes n read enough front (rw read done)
    ]
    | inr (e, failed) ↦ unreadable e failed (rw failed refl)
  ]

  -- A text for a key, public or secret, comes to one of three ends, where what `base64` reads are
  -- bytes: an error of `base64` is passed on; a text of fewer bytes than the key has makes the
  -- code panic; and from any other text comes the key that its first bytes spell, however many
  -- follow.
  pub decode_cases :
      IsBase64 b
      → (text : Bytes) → Decoded 32 text (decode_public text) × Decoded 64 text (decode_secret text)
  unfolding decode_public decode_secret
  decode_cases law text = (outcome_cases law 32 text, outcome_cases law 64 text)

  decode-encode :
      IsBase64 b
      → (width n : ℕ) → n < 256 ^ width
      → try_then (b.decode (b.encode (to_bytes width n))) (array_of width) ≡ some (ok n)
  decode-encode law width n fits =
      rw (law.decode-encode (to_bytes width n) (to_bytes-AreBytes width n)) (
        ap (array_of width) (sym (append-nil (to_bytes width n))) ∙ array_of-append width n [] fits)

  -- The text of a key, public or secret, is read back as that key, and the bytes of a digest as
  -- that digest, where each fits the bytes of its type and `base64` reads back what it wrote.
  pub decode-encode_keys :
      IsBase64 b
      → (key : PublicKey) (secret : SecretKey) (digest : Digest) → key < 256 ^ 32
      → secret < 256 ^ 64
      → digest < 256 ^ 32
      → (try_from (to_vec digest) ≡ some digest)
        × (decode_public (encode_public key) ≡ some (ok key))
        × (decode_secret (encode_secret secret) ≡ some (ok secret))
  unfolding decode_public decode_secret encode_public encode_secret
  decode-encode_keys law key secret digest fits fits64 fits_digest = (
    try_from-to_vec digest fits_digest,
    decode-encode law 32 key fits,
    decode-encode law 64 secret fits64,
  )
