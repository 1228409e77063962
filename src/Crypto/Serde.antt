-- ===== src/Crypto/Serde.antt =====
-- crypto/src/lib.rs: how keys are serialized and deserialized, as their texts.
use nero_consensus.Prelude.{◌^◌, ◌<◌, ◌≡◌, ap, ◌∙◌, Option, some, arith}
use mathlib.Core.Option
use nero_consensus.Prelude.Bytes.{Bytes}
use nero_consensus.Prelude.Result.{Result, ok, try_then, map_err}
use nero_consensus.Crypto.{PublicKey, SecretKey}
use nero_consensus.Crypto.Keys.{
  Base64, IsBase64, encode_public, decode_public, encode_secret, decode_secret, decode-encode_keys,
}

-- A format of the crate `serde`, as far as texts go: its serializer, its deserializer, and the error
-- that it makes of one of `base64`.
pub record Format (b : Base64) : Type 1 where
  pub Output : Type 0
  pub SerializeError : Type 0
  pub DeserializeError : Type 0
  pub serialize_str : Bytes → Result SerializeError Output
  pub deserialize_string : Output → Result DeserializeError Bytes
  pub custom : b.DecodeError → DeserializeError

-- What a format promises: a text that it wrote is read back.
pub record IsFormat {b : Base64} (f : Format b) : Type 0 where
  pub deserialize-serialize :
      (text : Bytes) (output : f.Output)
      → f.serialize_str text ≡ ok output
      → f.deserialize_string output ≡ ok text

module _ (b : Base64) (f : Format b) where
  -- `Serialize for PublicKey`
  unfoldable pub serialize_public : PublicKey → Result f.SerializeError f.Output
  unfolding encode_public
  serialize_public key = f.serialize_str (encode_public b key)

  -- `Deserialize for PublicKey`
  unfoldable pub deserialize_public : f.Output → Option (Result f.DeserializeError PublicKey)
  unfolding decode_public
  deserialize_public input =
      try_then (f.deserialize_string input) (λ s. Option.map (map_err f.custom) (decode_public b s))

  -- `Serialize for SecretKey`
  unfoldable pub serialize_secret : SecretKey → Result f.SerializeError f.Output
  unfolding encode_secret
  serialize_secret key = f.serialize_str (encode_secret b key)

  -- `Deserialize for SecretKey`
  unfoldable pub deserialize_secret : f.Output → Option (Result f.DeserializeError SecretKey)
  unfolding decode_secret
  deserialize_secret input =
      try_then (f.deserialize_string input) (λ s. Option.map (map_err f.custom) (decode_secret b s))

  -- A key, public or secret, that a format has written is read back as that key, where it fits the
  -- bytes of its type, and both the format and `base64` read back what they wrote.
  pub deserialize-serialize_keys :
      (key : PublicKey) (secret : SecretKey) (output secret_output : f.Output)
      → IsBase64 b
      → IsFormat f
      → key < 256 ^ 32
      → secret < 256 ^ 64
      → serialize_public key ≡ ok output
      → serialize_secret secret ≡ ok secret_output
      → (deserialize_public output ≡ some (ok key))
        × (deserialize_secret secret_output ≡ some (ok secret))
  unfolding serialize_public serialize_secret deserialize_public deserialize_secret
  deserialize-serialize_keys key secret output secret_output law format fits fits64 written
        written_secret =
      let texts = decode-encode_keys b law key secret 0 fits fits64 (omega arith) in
      (
        ap (λ r. try_then r (λ s. Option.map (map_err f.custom) (decode_public b s)))
              (format.deserialize-serialize (encode_public b key) output written)
            ∙ ap (Option.map (map_err f.custom)) texts.1,
        ap (λ r. try_then r (λ s. Option.map (map_err f.custom) (decode_secret b s)))
              (format.deserialize-serialize (encode_secret b secret) secret_output written_secret)
            ∙ ap (Option.map (map_err f.custom)) texts.2,
      )
